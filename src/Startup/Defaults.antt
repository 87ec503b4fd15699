-- ===== src/Startup/Defaults.antt =====
-- How a dict of settings is filled in, key by key (`_default_simplejwt` of jwt_allauth/apps.py).
use Prim.Native.String.{String}
use text.Mathlib.Text.{◌==◌}
use text.Mathlib.TextEquality.{eq_iff}
use text.Mathlib.TextPositions.{eq_refl}
use jwt_allauth.Base.{
  ◌≡◌, refl, sym, subst, inl, inr, true, Option, none, some, [], ◌∷◌, ◌++◌, arith, All, is_some,
  Bool-cases, Option-cases, if◌then◌else◌,
}
use jwt_allauth.Startup.Project.{Value, Dict}
use jwt_allauth.Startup.Ready.{lookup, fill}

-- What a dict says, and else what another does.
abbrev pub or_else : Option Value → Option Value → Option Value
or_else (some v) w = some v
or_else none w = w

lookup-append :
    (k j : String) (v : Value) (d : Dict)
    → lookup k (d ++ (j, v) ∷ []) ≡ or_else (lookup k d) (if j == k then some v else none)
unfolding lookup
lookup-append k j v [] = refl
lookup-append k j v ((i, w) ∷ d) = elim (Bool-cases (i == k)) [
  | inl hit ↦ rw hit refl
  | inr miss ↦ rw miss (lookup-append k j v d)
]

-- A filled dict says what was declared, and else what the defaults say.
pub lookup-fill :
    (k : String) (defaults declared : Dict)
    → lookup k (fill defaults declared) ≡ or_else (lookup k declared) (lookup k defaults)
unfolding lookup fill
lookup-fill k [] declared = elim (Option-cases (lookup k declared)) [
  | inl gone ↦ rw gone refl
  | inr (v, found) ↦ rw found refl
]
lookup-fill k ((j, v) ∷ defaults) declared = elim (Option-cases (lookup j declared)) [
  | inr (w, found) ↦ ground (arith, lookup-fill k defaults declared, eq_iff j k)
  | inl gone ↦ ground (
    arith,
    lookup-fill k defaults (declared ++ (j, v) ∷ []),
    lookup-append k j v declared,
    eq_iff j k,
  )
]

-- Every default has its key.
abbrev Names : Dict → Dict → Type 0
Names d defaults = All (λ e. is_some (lookup e.0 d) ≡ true) defaults

present :
    (j : String) (defaults d : Dict)
    → is_some (lookup j d) ≡ true
    → is_some (lookup j (fill defaults d)) ≡ true
present j defaults d h = elim (Option-cases (lookup j d)) [
  | inl gone ↦ absurd (ground arith)
  | inr (w, found) ↦ rw (lookup-fill, found) refl
]

fill-Names : (defaults declared : Dict) → Names (fill defaults declared) defaults
unfolding fill
fill-Names [] declared = tt
fill-Names ((j, v) ∷ defaults) declared = elim (Option-cases (lookup j declared)) [
  | inr (w, found) ↦
      let step : fill ((j, v) ∷ defaults) declared ≡ fill defaults declared = rw found refl in
      subst (λ d. Names d ((j, v) ∷ defaults)) (sym step)
        (present j defaults declared (rw found refl), fill-Names defaults declared)
  | inl gone ↦
      let grown = declared ++ (j, v) ∷ [] in
      let step : fill ((j, v) ∷ defaults) declared ≡ fill defaults grown = rw gone refl in
      subst (λ d. Names d ((j, v) ∷ defaults)) (sym step)
        (
          present j defaults grown (rw (lookup-append, gone, eq_refl) refl),
          fill-Names defaults grown,
        )
]

fill-none : (defaults d : Dict) → Names d defaults → fill defaults d ≡ d
unfolding fill
fill-none [] d h = refl
fill-none ((j, v) ∷ defaults) d h = rw h.0 (fill-none defaults d h.1)

pub fill_idem :
    (defaults declared : Dict) → fill defaults (fill defaults declared) ≡ fill defaults declared
fill_idem defaults declared =
    fill-none defaults (fill defaults declared) (fill-Names defaults declared)
