-- ===== src/Scaffold/Keys.antt =====
-- The private key of a new project is never readable by anybody but its owner.
use jwt_allauth.Base.{
  ℕ, ◌≡◌, refl, ◌⊎◌, inl, inr, true, false, none, some, [], ◌∷◌, ◌++◌, sym, ap, subst, ◌∙◌, arith,
  ◌==◌, if◌then◌else◌, ok, err, Option-cases, Bool-cases, All,
}
use jwt_allauth.Scaffold.Text.{codes, newline}
use jwt_allauth.Scaffold.Files.{
  FilePath, Files, is_key, holds_key, public_pem, settings_py, urls_py, templates, jwt_migrations,
  external_init, jwt_init, keys, private_pem, directory, text, Entry, Disk, Host, number, become,
  put, gitignore, CommandError, file_exists, HostLaws, is_directory, makedirs, restrict,
  with_cryptography, with_openssl, generate_rsa_keys,
}
use jwt_allauth.Scaffold.Guards.{
  OnlyHere, put-OnlyHere, is_closed, exposed, exposed-shut, exposed-file, NeverExposed, Guarded,
  become-Guarded, write_file-Guarded, cryptography-Guarded, private_key-KeysShut, private_key-new,
  restrict-KeysShut,
}

only_public : (p : FilePath) → (number public_pem == number p) ≡ true → public_pem ≡ p
only_public public_pem same = refl
only_public keys same = absurd (cc)
only_public private_pem same = absurd (cc)
only_public gitignore same = absurd (cc)
only_public settings_py same = absurd (cc)
only_public urls_py same = absurd (cc)
only_public templates same = absurd (cc)
only_public jwt_migrations same = absurd (cc)
only_public external_init same = absurd (cc)
only_public jwt_init same = absurd (cc)

rsa-OnlyHere :
    (h : Host) (laws : HostLaws h) (key : ℕ) (f f' : Files)
    → h.openssl_rsa f ≡ some f'
    → OnlyHere key f
    → OnlyHere key f'
rsa-OnlyHere h laws key f f' made here p apart = elim (Bool-cases (number public_pem == number p)) [
  | inr elsewhere ↦ ap (holds_key key) ((laws.rsa_writes f f' made).1 p elsewhere) ∙ here p apart
  | inl at_public ↦ rw (← only_public p at_public) (laws.rsa_public f f' key made)
]

openssl-before :
    (h : Host) (laws : HostLaws h) (key : ℕ) (d : Disk)
    → Guarded key keys d
    → NeverExposed key (with_openssl h d).1
unfolding with_openssl
openssl-before h laws key d g = elim (Option-cases (h.openssl_genrsa d.files)) [
  | inl failed ↦ rw (failed, with_openssl) g.before
  | inr (f, made) ↦
      let follow = become-Guarded h key keys (exposed-shut key) in
      let after =
        follow f d (ap is_closed ((laws.genrsa_writes d.files f made).1 keys refl) ∙ g.closed)
          (λ p apart.
            ap (holds_key key) ((laws.genrsa_writes d.files f made).1 p apart) ∙ g.here p apart)
          g.before in
      elim (Option-cases (h.openssl_rsa f)) [
        | inl failed ↦ rw (made, failed, with_openssl) after.before
        | inr (f', made') ↦
            let last =
              follow f' (become f d)
                (ap is_closed ((laws.rsa_writes f f' made').1 keys refl) ∙ after.closed)
                (rsa-OnlyHere h laws key f f' made' after.here) after.before in
            let pair = become f' (become f d) in
            rw (made, made', with_openssl)
              (write_file-Guarded h key keys (exposed-shut key) 438 gitignore
                (text (codes "*.pem" ++ newline ∷ [])) (restrict h private_pem 384 pair) refl
                (λ a. refl) (restrict-KeysShut h key pair last)).before
      ]
]

-- The directory is made before the key is, so nothing is exposed by it.
restrict-shut :
    (h : Host) (key : ℕ) (d : Disk) (e : Entry)
    → h.chmod_works ≡ true
    → d.files keys ≡ some e
    → OnlyHere key d.files
    → NeverExposed key d
    → Guarded key keys (restrict h keys 448 d)
unfolding restrict
restrict-shut h key d e works there here before =
    let narrowed : Entry = record e { mode = 448 } in
    let no_key : is_key key e.content ≡ false = ap (holds_key key) (sym there) ∙ here keys refl in
    rw (works, there)
      (become-Guarded h key keys (exposed-shut key)
        (λ q. if number keys == number q then some narrowed else d.files q) d refl
        (put-OnlyHere key keys narrowed d (λ a. no_key) here) before)

-- What making the directory leads to: a refusal that writes nothing, or the directory.
abbrev Made : Host → ℕ → Disk → Type 0
Made h key d =
    ((e : CommandError) × (makedirs h keys d ≡ (err e, d)))
    ⊎ ((d' : Disk) × (e : Entry) × (makedirs h keys d ≡ (ok tt, d'))
        × (d'.files keys ≡ some e)
        × (d'.files private_pem ≡ d.files private_pem)
        × OnlyHere key d'.files
        × NeverExposed key d')

exposed-new : (key : ℕ) (f : Files) → holds_key key (f private_pem) ≡ false → exposed key f ≡ false
exposed-new key f new = ground arith

makedirs-cases :
    (h : Host) (key : ℕ) (d : Disk)
    → NeverExposed key d
    → ((p : FilePath) → holds_key key (d.files p) ≡ false)
    → Made h key d
unfolding makedirs
makedirs-cases h key d before new = elim (Option-cases (d.files keys)) [
  | inl missing ↦
      let made : Entry = record { mode = h.created 511; content = directory } in
      inr (
        put keys made d,
        made,
        rw (missing, makedirs) refl,
        refl,
        refl,
        put-OnlyHere key keys made d (λ a. refl) (λ p a. new p),
        (
          (
            exposed-new key (put keys made d).files (new private_pem),
            put-OnlyHere key keys made d (λ a. refl) (λ p a. new p),
          ),
          before,
        ),
      )
  | inr (e, there) ↦ elim (Bool-cases (is_directory e.content)) [
    | inl is_there ↦
        inr (d, e, rw (there, is_there, makedirs) refl, there, refl, λ p a. new p, before)
    | inr in_the_way ↦ inl (file_exists, rw (there, in_the_way, makedirs) refl)
  ]
]

module _ (h : Host) (d d' : Disk) where
  generate-refused :
      (e : CommandError) → makedirs h keys d ≡ (err e, d') → (generate_rsa_keys h d).1 ≡ d'
  unfolding generate_rsa_keys
  generate-refused e refused = ground arith

  pub generate-cryptography :
      makedirs h keys d ≡ (ok tt, d')
      → h.has_cryptography ≡ true
      → generate_rsa_keys h d ≡ with_cryptography h (restrict h keys 448 d')
  unfolding generate_rsa_keys
  generate-cryptography made has = ground arith

  pub generate-openssl :
      makedirs h keys d ≡ (ok tt, d')
      → h.has_cryptography ≡ false
      → generate_rsa_keys h d ≡ with_openssl h (restrict h keys 448 d')
  unfolding generate_rsa_keys
  generate-openssl made lacks = ground arith

  -- From a directory that is shut.
  generate-shut :
      HostLaws h
      → (key : ℕ) → makedirs h keys d ≡ (ok tt, d')
      → Guarded key keys (restrict h keys 448 d')
      → NeverExposed key (generate_rsa_keys h d).1
  generate-shut laws key made g = elim (Bool-cases h.has_cryptography) [
    | inl has ↦
        subst (λ r. NeverExposed key r.1) (sym (generate-cryptography made has))
          (cryptography-Guarded h key (restrict h keys 448 d') keys (exposed-shut key) refl refl
            (private_key-KeysShut h key (restrict h keys 448 d') g))
    | inr lacks ↦
        subst (λ r. NeverExposed key r.1) (sym (generate-openssl made lacks))
          (openssl-before h laws key (restrict h keys 448 d') g)
  ]

-- The key pair of a new project, generated on a disk that holds a given private key nowhere: at no
-- moment is this key on the disk in another file than keys/private.pem, or in that one while others
-- may read it and enter its directory. This is so where the file system carries permissions, whatever
-- else was there before and whichever way the key is generated; and where it does not, as long as the
-- key is generated by the library and its file is a new one, which is created closed.
pub key_never_exposed :
    (h : Host) (laws : HostLaws h) (key : ℕ) (d : Disk)
    → d.history ≡ []
    → ((p : FilePath) → holds_key key (d.files p) ≡ false)
    → (h.chmod_works ≡ true) ⊎ ((h.has_cryptography ≡ true) × (d.files private_pem ≡ none))
    → All (λ f. (exposed key f ≡ false) × OnlyHere key f) (generate_rsa_keys h d).1.history
unfolding restrict
key_never_exposed h laws key d fresh new how = elim (makedirs-cases h key d (rw fresh tt) new) [
  | inl (e, refused) ↦
      subst (NeverExposed key) (sym (generate-refused h d d e refused)) (rw fresh tt)
  | inr (d', e, made, there, same, here, before) ↦ elim (Bool-cases h.chmod_works) [
    | inl works ↦
        generate-shut h d d' laws key made (restrict-shut h key d' e works there here before)
    | inr ignored ↦ elim how [
      | inl works ↦ absurd (ground arith)
      | inr (has, no_file) ↦
          let kept : restrict h keys 448 d' ≡ d' = rw (ignored, restrict) refl in
          subst (λ r. NeverExposed key r.1) (sym (generate-cryptography h d d' made has))
            (rw kept (
              cryptography-Guarded h key d' private_pem (exposed-file key) refl refl
                (private_key-new h key d' laws (same ∙ no_file) here before)))
    ]
  ]
]
