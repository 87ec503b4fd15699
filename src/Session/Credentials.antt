-- ===== src/Session/Credentials.antt =====
-- The abstract view of the whitelist: the jti of the live credential of each session. The rows, their
-- order, keys, owners and instants are forgotten.
use jwt_allauth.Base.{
  ℕ, ◌≤◌, ◌≡◌, ◌≢◌, refl, ◌∙◌, ap, inl, inr, Bool, false, true, Option, none, some, List, [], ◌∷◌,
  ◌++◌, arith, Bool-cases, ◌==◌, ==_refl, count, delete, exists, first, first-cons_hit,
  count-pos_of_first, count-delete-le, count-delete_hit, if◌then◌else◌,
}
use mathlib.Core.Option.{map}
use jwt_allauth.Db.{RefreshTokenWhitelistModel}
use jwt_allauth.Session.{in_session, enable_first}

abbrev pub Live : Type 0
Live = ℕ → Option ℕ

unfoldable pub live : List RefreshTokenWhitelistModel → Live
live rows x = map (λ row. row.jti) (first (in_session x) rows)

-- What can happen to the live credentials: a session is opened with one, one replaces another, and
-- the sessions that a test does not keep are closed.
pub data Event : Type 0 where
  opened : ℕ → ℕ → Event
  rotated : ℕ → ℕ → ℕ → Event
  closed : (ℕ → Bool) → Event

unfoldable pub apply : Event → Live → Live
apply (opened x n) f y = if y == x then some n else f y
apply (rotated x n m) f y = if y == x then some m else f y
apply (closed keeps) f y = if keeps y then f y else none

-- When it can happen: a session is opened once, and only the live credential is rotated, into
-- another.
abbrev pub Allows : Live → Event → Type 0
Allows f (opened x n) = f x ≡ none
Allows f (rotated x n m) = (f x ≡ some n) × (n ≢ m)
Allows f (closed keeps) = Unit

-- A run of the abstract machine.
pub data Run (f : Live) : Live → Type 0 where
  start : Run f f
  more : {g : Live} (e : Event) → Run f g → Allows g e → Run f (apply e g)

pub live-append :
    (rows : List RefreshTokenWhitelistModel) (row : RefreshTokenWhitelistModel) (y : ℕ)
    → (count (in_session row.session) rows ≡ 0)
    → live (rows ++ row ∷ []) y ≡ (if y == row.session then some row.jti else live rows y)
unfolding live first count
live-append [] row y empty = ground arith
live-append (r ∷ rows) row y empty = ground (arith, live-append rows row y)

first-zero : {A : Type 0} (p : A → Bool) (xs : List A) → count p xs ≡ 0 → first p xs ≡ none
unfolding count first
first-zero p [] h = refl
first-zero p (x ∷ xs) h = ground (arith, first-zero p xs)

exists-zero : {A : Type 0} (p : A → Bool) (xs : List A) → count p xs ≡ 0 → exists p xs ≡ false
unfolding count exists
exists-zero p [] h = refl
exists-zero p (x ∷ xs) h = ground (arith, exists-zero p xs)

-- Where a session has one row at most, a deletion leaves its credential as it was, or takes it.
pub live-delete :
    (q : RefreshTokenWhitelistModel → Bool) (rows : List RefreshTokenWhitelistModel) (y : ℕ)
    → count (in_session y) rows ≤ 1
    → live (delete q rows) y ≡ (if exists (in_session y) (delete q rows) then live rows y else none)
unfolding live first count delete exists
live-delete q [] y one = refl
live-delete q (r ∷ rows) y one = elim (Bool-cases (r.session == y)) [
  | inl its ↦
      let none_left : count (in_session y) (delete q rows) ≡ 0 =
        ground (arith, count-delete-le (in_session y) q rows) in
      ground (
        arith,
        first-zero (in_session y) (delete q rows) none_left,
        exists-zero (in_session y) (delete q rows) none_left,
      )
  | inr not_its ↦ ground (arith, live-delete q rows y)
]

delete-zero : {A : Type 0} (q : A → Bool) (xs : List A) → count q xs ≡ 0 → delete q xs ≡ xs
unfolding count delete
delete-zero q [] h = refl
delete-zero q (x ∷ xs) h = ground (arith, delete-zero q xs)

-- Where a test fits one row at most, which was found, its deletion is not seen by a query that this
-- row does not fit.
first-delete_found :
    {A : Type 0} (f p q : A → Bool) (xs : List A) {x : A}
    → first f xs ≡ some x
    → q x ≡ true
    → p x ≡ false
    → count q xs ≤ 1
    → first p (delete q xs) ≡ first p xs
unfolding first delete count
first-delete_found f p q [] e hq hp one = refl
first-delete_found f p q (y ∷ ys) e hq hp one = elim (Bool-cases (f y)) [
  | inl hit ↦
      let same = first-cons_hit f ys hit e in
      let gone : q y ≡ true = ap q same ∙ hq in
      let missed : p y ≡ false = ap p same ∙ hp in rw missed (ground (arith, delete-zero q ys))
  | inr miss ↦
      let later : first f ys ≡ some _ = rw miss at e in
      let kept : q y ≡ false = ground (arith, count-pos_of_first f q ys later hq) in
      ground (arith, first-delete_found f p q ys later hq hp)
]

-- A rotation's write: the claimed row of a session gives way to another of that session.
pub live-rotate :
    (f q : RefreshTokenWhitelistModel → Bool) (rows : List RefreshTokenWhitelistModel)
    (old row : RefreshTokenWhitelistModel) (y : ℕ)
    → first f rows ≡ some old
    → q old ≡ true
    → count q rows ≤ 1
    → count (in_session old.session) rows ≤ 1
    → row.session ≡ old.session
    → live (delete q rows ++ row ∷ []) y ≡ (if y == old.session then some row.jti else live rows y)
unfolding live
live-rotate f q rows old row y found hit one one_live same =
    let empty : count (in_session row.session) (delete q rows) ≡ 0 = rw same (
      omega (
        arith,
        one_live,
        count-delete_hit f (in_session old.session) q rows found (==_refl old.session) hit,
      )) in
    live-append (delete q rows) row y empty
    ∙ rw same (elim (Bool-cases (y == old.session)) [
      | inl its ↦ rw its refl
      | inr not_its ↦ rw not_its (
          ap (map (λ (r : RefreshTokenWhitelistModel). r.jti))
            (first-delete_found f (in_session y) q rows found hit (ground arith) one))
    ])

pub live-enable_first :
    (user : ℕ) (rows : List RefreshTokenWhitelistModel) (y : ℕ)
    → live (enable_first user rows) y ≡ live rows y
unfolding live first enable_first
live-enable_first user [] y = refl
live-enable_first user (row ∷ rows) y = ground (arith, live-enable_first user rows y)

-- The credential that a query found is the live one of its session.
pub live_of_first :
    (f : RefreshTokenWhitelistModel → Bool) (rows : List RefreshTokenWhitelistModel)
    (row : RefreshTokenWhitelistModel)
    → first f rows ≡ some row
    → count (in_session row.session) rows ≤ 1
    → live rows row.session ≡ some row.jti
unfolding live first count
live_of_first f [] row found one = absurd (cc)
live_of_first f (r ∷ rows) row found one = elim (Bool-cases (f r)) [
  | inl hit ↦
      let same = first-cons_hit f rows hit found in
      ground (
        arith,
        ap (λ (a : RefreshTokenWhitelistModel). a.session) same,
        ap (λ (a : RefreshTokenWhitelistModel). a.jti) same,
      )
  | inr miss ↦
      let later : first f rows ≡ some row = rw miss at found in
      ground (
        arith,
        live_of_first f rows row later,
        count-pos_of_first f (in_session row.session) rows later (==_refl row.session),
      )
]
