-- ===== src/Client.antt =====
-- What a handler records about its client (`get_client_ip`, `get_user_agent` and `user_agent_dict` of
-- jwt_allauth/utils.py). A text is the list of its code points; how a browser is parsed is the parameter
-- of `get_user_agent`, and a project may bring a resolver of its own.
use jwt_allauth.Base.{
  ℕ, ◌≡◌, refl, Bool, false, not, Option, none, some, [], ◌∷◌, if◌then◌else◌, arith, exists,
}
use jwt_allauth.Confirmation.Rendering.{strip, rstrip}
use jwt_allauth.Scaffold.Text.{Chars, is_comma, is_space, span}

-- The headers that are read.
pub record Meta : Type 0 where
  pub x_forwarded_for : Option Chars
  pub remote_addr : Option Chars
  pub user_agent : Chars

-- What a resolver may answer: an address, or a pair that starts with one.
pub data Resolved : Type 0 where
  address : Option Chars → Resolved
  pair : Option Chars → Bool → Resolved

abbrev pub resolved : Resolved → Option Chars
resolved (address ip) = ip
resolved (pair ip routable) = ip

-- `x_forwarded_for.split(',')[0].strip()`
unfoldable pub first_hop : Chars → Chars
unfolding span strip
first_hop t = strip (span (λ c. not (is_comma c)) t).0

unfoldable pub built_in_ip : Meta → Option Chars
unfolding first_hop
built_in_ip m = elim m.x_forwarded_for [
  | none ↦ m.remote_addr
  | some t ↦ elim t [ [] ↦ m.remote_addr | ◌∷◌ c rest ↦ some (first_hop (c ∷ rest)) ]
]

unfoldable pub get_client_ip : Option (Meta → Resolved) → Meta → Option Chars
unfolding built_in_ip
get_client_ip none m = built_in_ip m
get_client_ip (some resolver) m = resolved (resolver m)

-- What `get_user_agent` puts on a request: the parsed browser and the address, if they are collected.
abbrev pub Device : Type 0 → Type 0
Device A = Option (A × Option Chars)

unfoldable pub get_user_agent :
    {A : Type 0} → Bool → (Meta → A) → Option (Meta → Resolved) → Meta → Device A
unfolding get_client_ip
get_user_agent collects parse resolver m =
    if collects then some (parse m, get_client_ip resolver m) else none

-- `user_agent_dict`: the columns of a row, which there are none of without a browser. `columns` is
-- what a row keeps of a browser.
unfoldable pub user_agent_dict : {A B : Type 0} → (A → B) → Device A → Option (B × Option Chars)
user_agent_dict columns none = none
user_agent_dict columns (some (agent, ip)) = some (columns agent, ip)

rstrip-without : (p : ℕ → Bool) (t : Chars) → exists p t ≡ false → exists p (rstrip t) ≡ false
unfolding rstrip exists
rstrip-without p [] free = refl
rstrip-without p (c ∷ t) free = ground (arith, rstrip-without p t)

span-without : (p q : ℕ → Bool) (t : Chars) → exists p t ≡ false → exists p (span q t).1 ≡ false
unfolding span exists
span-without p q [] free = refl
span-without p q (c ∷ t) free = ground (arith, span-without p q t)

span-taken : (p : ℕ → Bool) (t : Chars) → exists p (span (λ c. not (p c)) t).0 ≡ false
unfolding span exists
span-taken p [] = refl
span-taken p (c ∷ t) = ground (arith, span-taken p t)

-- The first entry of a header has no comma.
first_hop-single : (t : Chars) → exists is_comma (first_hop t) ≡ false
unfolding first_hop strip
first_hop-single t =
    let hop = (span (λ c. not (is_comma c)) t).0 in
    rstrip-without is_comma (span is_space hop).1
      (span-without is_comma is_space hop (span-taken is_comma t))
