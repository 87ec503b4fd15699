-- ===== src/Scaffold/Generated.antt =====
-- What a generation of keys leaves on the disk.
use jwt_allauth.Base.{
  ℕ, ◌≡◌, refl, sym, ap, subst, ◌∙◌, inl, inr, Bool, true, false, none, [], ◌∷◌, ◌++◌, arith, leb,
  ◌==◌, is_some, Result, ok, Option-cases, Bool-cases,
}
use jwt_allauth.Scaffold.Text.{codes, newline}
use jwt_allauth.Scaffold.Files.{
  FilePath, number, keys, private_pem, public_pem, gitignore, Content, directory, text, private_key,
  public_key, Entry, Files, Disk, Host, HostLaws, CommandError, put, become, mode_of, write_file,
  makedirs, write_private_key, restrict, ignore_keys, with_cryptography, with_openssl,
  generate_rsa_keys,
}
use jwt_allauth.Scaffold.Keys.{generate-cryptography, generate-openssl}

-- Paths outside the directory of the keys.
abbrev pub Others : Files → Files → Type 0
Others f f' = (p : FilePath) → leb 4 (number p) ≡ true → f' p ≡ f p

put-Others :
    (f : Files) (q : FilePath) (e : Entry) (d : Disk)
    → leb 4 (number q) ≡ false
    → Others f d.files
    → Others f (put q e d).files
put-Others f q e d inside same p outside =
    let apart : (number q == number p) ≡ false = ground arith in rw apart (same p outside)

write_file-Others :
    (f : Files) (h : Host) (wanted : ℕ) (q : FilePath) (content : Content) (d : Disk)
    → leb 4 (number q) ≡ false
    → Others f d.files
    → Others f (write_file h wanted q content d).files
write_file-Others f h wanted q content d inside same =
    let mode = mode_of h wanted (d.files q) in
    let empty : Entry = record { mode = mode; content = text [] } in
    put-Others f q (record { mode = mode; content = content }) (put q empty d) inside
      (put-Others f q empty d inside same)

restrict-Others :
    (f : Files) (h : Host) (q : FilePath) (mode : ℕ) (d : Disk)
    → leb 4 (number q) ≡ false
    → Others f d.files
    → Others f (restrict h q mode d).files
unfolding restrict
restrict-Others f h q mode d inside same = elim (Bool-cases h.chmod_works) [
  | inr ignored ↦ rw (ignored, restrict) same
  | inl works ↦ elim (Option-cases (d.files q)) [
    | inl missing ↦ rw (works, missing, restrict) same
    | inr (e, there) ↦
        rw (works, there, restrict) (put-Others f q (record e { mode = mode }) d inside same)
  ]
]

-- A generation of keys: an answer, nothing changed elsewhere, and if the answer is yes a pair of keys.
pub record Generated (f : Files) (r : Result CommandError Bool × Disk) : Type 0 where
  pub answer : Bool
  pub answered : r.0 ≡ ok answer
  pub others : Others f r.1.files
  pub pair :
      answer ≡ true
      → (is_some (r.1.files private_pem) ≡ true) × (is_some (r.1.files public_pem) ≡ true)

cryptography-Generated :
    (f : Files) (h : Host) (d : Disk) → Others f d.files → Generated f (with_cryptography h d)
unfolding with_cryptography
cryptography-Generated f h d same = record {
  answer = true;
  answered = refl;
  others =
      let first = write_private_key h private_pem h.new_key d in
      let second = write_file h 438 public_pem (public_key h.new_key) first in
      write_file-Others f h 438 gitignore (text (codes "*.pem" ++ newline ∷ [])) second refl (
        write_file-Others f h 438 public_pem (public_key h.new_key) first refl
          (write_file-Others f h 384 private_pem (private_key h.new_key) d refl same));
  pair = λ said. (refl, refl);
}

restrict-some :
    (h : Host) (q : FilePath) (mode : ℕ) (d : Disk)
    → is_some (d.files q) ≡ true
    → is_some ((restrict h private_pem mode d).files q) ≡ true
unfolding restrict
restrict-some h q mode d there = ground arith

openssl-Generated :
    (f : Files) (h : Host) (laws : HostLaws h) (d : Disk)
    → Others f d.files
    → Generated f (with_openssl h d)
unfolding with_openssl ignore_keys
openssl-Generated f h laws d same = elim (Option-cases (h.openssl_genrsa d.files)) [
  | inl failed ↦
      rw (failed, with_openssl)
        (record { answer = false; answered = refl; others = same; pair = λ said. absurd (cc) })
  | inr (f1, made) ↦
      let (written, kept) = laws.genrsa_writes d.files f1 made in
      let same1 : Others f f1 = λ p outside. kept p (ground arith) ∙ same p outside in
      elim (Option-cases (h.openssl_rsa f1)) [
        | inl failed ↦
            rw (made, failed, with_openssl)
              (record {
                answer = false;
                answered = refl;
                others = same1;
                pair = λ said. absurd (cc);
              })
        | inr (f2, made') ↦
            let (written', kept') = laws.rsa_writes f1 f2 made' in
            let pair = become f2 (become f1 d) in
            let private_there : is_some (f2 private_pem) ≡ true =
              ap is_some (kept' private_pem refl) ∙ written in
            rw (made, made', with_openssl)
              (record {
                answer = true;
                answered = refl;
                others =
                    write_file-Others f h 438 gitignore (text (codes "*.pem" ++ newline ∷ []))
                      (restrict h private_pem 384 pair) refl
                      (restrict-Others f h private_pem 384 pair refl
                        (λ p outside. kept' p (ground arith) ∙ same1 p outside));
                pair = λ said. (
                  restrict-some h private_pem 384 pair private_there,
                  restrict-some h public_pem 384 pair written',
                );
              })
      ]
]

pub generate-Generated :
    (h : Host) (laws : HostLaws h) (d : Disk)
    → d.files keys ≡ none
    → Generated d.files (generate_rsa_keys h d)
generate-Generated h laws d missing =
    let made = put keys (record { mode = h.created 511; content = directory }) d in
    let shut = restrict h keys 448 made in
    let there : makedirs h keys d ≡ (ok tt, made) =
      unfold makedirs in rw (missing, makedirs) refl in
    let same = restrict-Others d.files h keys 448 made refl (
      put-Others d.files keys (record { mode = h.created 511; content = directory }) d refl
        (λ p outside. refl)) in
    elim (Bool-cases h.has_cryptography) [
      | inl has ↦
          subst (Generated d.files) (sym (generate-cryptography h d made there has))
            (cryptography-Generated d.files h shut same)
      | inr lacks ↦
          subst (Generated d.files) (sym (generate-openssl h d made there lacks))
            (openssl-Generated d.files h laws shut same)
    ]
