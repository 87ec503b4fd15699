-- ===== src/Session/Invariant.antt =====
-- Every step of the protocol keeps one live credential for each session.
use jwt_allauth.Base.{
  ℕ, ◌≤◌, ◌≡◌, ◌≢◌, sym, subst, inl, inr, Bool, false, some, List, [], ◌∷◌, ◌++◌, arith, All,
  All-append, All-delete, delete, exists, count, count-append, count-delete-le, count-zero,
}
use jwt_allauth.Db.{RefreshTokenWhitelistModel}
use jwt_allauth.Token.{Payload}
use jwt_allauth.Session.{has_jti, in_session}
use jwt_allauth.Session.Protocol.{In}

-- A token and a row of one jti are of one session.
abbrev pub Agrees : List RefreshTokenWhitelistModel → Payload → Type 0
Agrees rows p = All (λ row. row.jti ≡ p.jti → p.session ≡ some row.session) rows

pub record IsValid (rows : List RefreshTokenWhitelistModel) (issued : List Payload) : Type 0 where
  pub one_per_session : (x : ℕ) → count (in_session x) rows ≤ 1
  pub one_per_jti : (n : ℕ) → count (has_jti n) rows ≤ 1
  pub genuine : All (Agrees rows) issued

All-map :
    {A : Type 0} {P Q : A → Type 0} (xs : List A) → ((x : A) → P x → Q x) → All P xs → All Q xs
All-map [] f h = tt
All-map (x ∷ xs) f h = (f x h.0, All-map xs f h.1)

pub In-All : {A : Type 0} (P : A → Type 0) {x : A} (xs : List A) → In x xs → All P xs → P x
In-All P [] i h = absurd i
In-All P (y ∷ ys) (inl e) h = subst P (sym e) h.0
In-All P (y ∷ ys) (inr i) h = In-All P ys i h.1

-- Taking rows away keeps all of it.
pub delete-IsValid :
    (q : RefreshTokenWhitelistModel → Bool) {rows : List RefreshTokenWhitelistModel}
    {issued : List Payload}
    → IsValid rows issued
    → IsValid (delete q rows) issued
delete-IsValid q {rows} {issued} v = record {
  one_per_session = λ x. omega (arith, v.one_per_session x, count-delete-le (in_session x) q rows);
  one_per_jti = λ n. omega (arith, v.one_per_jti n, count-delete-le (has_jti n) q rows);
  genuine =
      All-map issued
        (λ p. All-delete (λ row. row.jti ≡ p.jti → p.session ≡ some row.session) q rows) v.genuine;
}

-- The rows that lack a jti name no token of that jti.
free-Agrees :
    (t : Payload) (rows : List RefreshTokenWhitelistModel)
    → exists (has_jti t.jti) rows ≡ false
    → Agrees rows t
unfolding exists
free-Agrees t [] h = tt
free-Agrees t (row ∷ rows) h = (λ same. absurd (ground arith), free-Agrees t rows (ground arith))

-- A new row, for a token with a fresh jti in a session that has no row, and that token.
pub add-IsValid :
    {rows : List RefreshTokenWhitelistModel} {issued : List Payload} (t : Payload)
    (row : RefreshTokenWhitelistModel)
    → IsValid rows issued
    → t.jti ≡ row.jti
    → t.session ≡ some row.session
    → All (λ p. p.jti ≢ row.jti) issued
    → exists (has_jti row.jti) rows ≡ false
    → count (in_session row.session) rows ≡ 0
    → IsValid (rows ++ row ∷ []) (t ∷ issued)
unfolding count
add-IsValid {rows} {issued} t row v same_jti same_session fresh free empty = record {
  one_per_session = λ x. rw count-append (ground (arith, v.one_per_session x));
  one_per_jti = λ n.
      rw count-append (ground (arith, v.one_per_jti n, count-zero (has_jti row.jti) rows free));
  genuine = (
    All-append (λ r. r.jti ≡ t.jti → t.session ≡ some r.session) rows (row ∷ [])
        (free-Agrees t rows (rw same_jti free)) (λ _. same_session, tt),
    old issued fresh v.genuine,
  );
}
  where
    old :
        (ps : List Payload)
        → All (λ p. p.jti ≢ row.jti) ps
        → All (Agrees rows) ps
        → All (Agrees (rows ++ row ∷ [])) ps
    old [] f g = tt
    old (p ∷ ps) f g = (
      All-append (λ r. r.jti ≡ p.jti → p.session ≡ some r.session) rows (row ∷ []) g.0
          (λ same. absurd (f.0 (sym same)), tt),
      old ps f.1 g.1,
    )
