-- ===== src/Scaffold/Guards.antt =====
-- Who may read the private key of a new project, and what keeps others from it.
use jwt_allauth.Base.{
  ℕ, ◌≡◌, refl, inl, inr, Bool, true, false, not, ◌&&◌, ◌||◌, Option, none, some, [], ◌∷◌, ◌++◌,
  arith, ◌==◌, if◌then◌else◌, Option-cases, Bool-cases, All, ==→eq, ap, ◌∙◌,
}
use jwt_allauth.Scaffold.Text.{codes, newline}
use jwt_allauth.Scaffold.Files.{
  FilePath, keys, private_pem, Content, text, private_key, public_key, Entry, Files, Disk, Host,
  number, is_key, holds_key, become, put, write_file, public_pem, gitignore, only_owner, mode_of,
  HostLaws, write_private_key, restrict, with_cryptography,
}

abbrev pub is_closed : Option Entry → Bool
is_closed none = false
is_closed (some e) = only_owner e.mode

-- The key is on the disk, and neither its file nor the directory that holds it is closed to others.
abbrev pub exposed : ℕ → Files → Bool
exposed key f =
    holds_key key (f private_pem) && not (is_closed (f private_pem) || is_closed (f keys))

pub exposed-shut : (key : ℕ) (f : Files) → is_closed (f keys) ≡ true → exposed key f ≡ false
exposed-shut key f shut = ground arith

pub exposed-file : (key : ℕ) (f : Files) → is_closed (f private_pem) ≡ true → exposed key f ≡ false
exposed-file key f closed = ground arith

-- No other file holds the key.
abbrev pub OnlyHere : ℕ → Files → Type 0
OnlyHere key f =
    (p : FilePath) → (number private_pem == number p) ≡ false → holds_key key (f p) ≡ false

-- Others do not get at the key: its file is closed to them, or the directory around it, and no other
-- file holds it.
abbrev pub Safe : ℕ → Files → Type 0
Safe key f = (exposed key f ≡ false) × OnlyHere key f

abbrev pub NeverExposed : ℕ → Disk → Type 0
NeverExposed key d = All (Safe key) d.history

-- What may be written to a path: the key only to its own file.
abbrev pub Fits : ℕ → FilePath → Content → Type 0
Fits key p content = (number private_pem == number p) ≡ false → is_key key content ≡ false

pub put-OnlyHere :
    (key : ℕ) (p : FilePath) (e : Entry) (d : Disk)
    → Fits key p e.content
    → OnlyHere key d.files
    → OnlyHere key (put p e d).files
put-OnlyHere key p e d fits here q apart = elim (Bool-cases (number p == number q)) [
  | inr elsewhere ↦ rw elsewhere (here q apart)
  | inl at_p ↦
      let same = ==→eq (number p) (number q) at_p in
      rw at_p (fits (ap (λ n. number private_pem == n) same ∙ apart))
]

-- Nothing was exposed so far, this path is closed, and the key is in its own file alone.
pub record Guarded (key : ℕ) (guard : FilePath) (d : Disk) : Type 0 where
  pub before : NeverExposed key d
  pub closed : is_closed (d.files guard) ≡ true
  pub here : OnlyHere key d.files

-- Either path is guard enough: while it is closed, what is written elsewhere exposes nothing.
module _ (h : Host) (key : ℕ) (guard : FilePath)
    (closes : (f : Files) → is_closed (f guard) ≡ true → exposed key f ≡ false) where
  pub become-Guarded :
      (f : Files) (d : Disk)
      → is_closed (f guard) ≡ true
      → OnlyHere key f
      → NeverExposed key d
      → Guarded key guard (become f d)
  become-Guarded f d shut here before = record {
    before = ((closes f shut, here), before);
    closed = shut;
    here = here;
  }

  pub put-Guarded :
      (p : FilePath) (e : Entry) (d : Disk)
      → (number p == number guard) ≡ false
      → Fits key p e.content
      → Guarded key guard d
      → Guarded key guard (put p e d)
  put-Guarded p e d elsewhere fits g =
      become-Guarded (λ q. if number p == number q then some e else d.files q) d
        (rw elsewhere g.closed) (put-OnlyHere key p e d fits g.here) g.before

  pub write_file-Guarded :
      (wanted : ℕ) (p : FilePath) (content : Content) (d : Disk)
      → (number p == number guard) ≡ false
      → Fits key p content
      → Guarded key guard d
      → Guarded key guard (write_file h wanted p content d)
  write_file-Guarded wanted p content d elsewhere fits g =
      let mode = mode_of h wanted (d.files p) in
      let empty : Entry = record { mode = mode; content = text [] } in
      put-Guarded p (record { mode = mode; content = content }) (put p empty d) elsewhere fits
        (put-Guarded p empty d elsewhere (λ a. refl) g)

module _ (h : Host) (key : ℕ) (d : Disk) where
  abbrev pub KeysShut : Disk → Type 0
  KeysShut = Guarded key keys

  pub cryptography-Guarded :
      (guard : FilePath) (closes : (f : Files) → is_closed (f guard) ≡ true → exposed key f ≡ false)
      → (number public_pem == number guard) ≡ false
      → (number gitignore == number guard) ≡ false
      → Guarded key guard (write_private_key h private_pem h.new_key d)
      → NeverExposed key (with_cryptography h d).1
  unfolding with_cryptography
  cryptography-Guarded guard closes apart apart' guarded =
      (write_file-Guarded h key guard closes 438 gitignore (text (codes "*.pem" ++ newline ∷ []))
        (write_file h 438 public_pem (public_key h.new_key)
          (write_private_key h private_pem h.new_key d))
        apart' (λ a. refl)
        (write_file-Guarded h key guard closes 438 public_pem (public_key h.new_key)
          (write_private_key h private_pem h.new_key d) apart (λ a. refl) guarded)).before

  pub private_key-KeysShut : KeysShut d → KeysShut (write_private_key h private_pem h.new_key d)
  unfolding write_private_key
  private_key-KeysShut =
      write_file-Guarded h key keys (exposed-shut key) 384 private_pem (private_key h.new_key) d
        refl (λ a. absurd (cc))

  -- A new file for the key is closed from its creation on.
  pub private_key-new :
      HostLaws h
      → d.files private_pem ≡ none
      → OnlyHere key d.files
      → NeverExposed key d
      → Guarded key private_pem (write_private_key h private_pem h.new_key d)
  unfolding write_private_key
  private_key-new laws fresh here before =
      let closed : only_owner (mode_of h 384 (d.files private_pem)) ≡ true =
        rw fresh laws.created_private in
      let guard = become-Guarded h key private_pem (exposed-file key) in
      let mode = mode_of h 384 (d.files private_pem) in
      let empty : Entry = record { mode = mode; content = text [] } in
      let written : Entry = record { mode = mode; content = private_key h.new_key } in
      let opened = put private_pem empty d in
      let kept = put-OnlyHere key private_pem empty d (λ a. refl) here in
      guard (λ q. if number private_pem == number q then some written else opened.files q) opened
        closed (put-OnlyHere key private_pem written opened (λ a. absurd (cc)) kept)
        (guard opened.files d closed kept before).before

  pub restrict-KeysShut : KeysShut d → KeysShut (restrict h private_pem 384 d)
  unfolding restrict
  restrict-KeysShut shut = elim (Bool-cases h.chmod_works) [
    | inr ignored ↦ rw ignored shut
    | inl works ↦ elim (Option-cases (d.files private_pem)) [
      | inl missing ↦ rw (works, missing) shut
      | inr (e, there) ↦
          rw (works, there)
            (put-Guarded h key keys (exposed-shut key) private_pem (record e { mode = 384 }) d refl
              (λ a. absurd (cc)) shut)
    ]
  ]
