-- ===== src/Token/Identity.antt =====
-- The writers of claims leave the claims alone that identify a session and its owner.
use jwt_allauth.Base.{ℕ, ◌≡◌, refl, ◌∙◌, Option, none, some, List, [], ◌∷◌, arith, ok}
use jwt_allauth.Claim.{Claim, DotPath, attribute_map}
use jwt_allauth.Db.{User}
use jwt_allauth.Settings.{Settings}
use jwt_allauth.Token.{
  Payload, Request, write_attribute, write_attributes, remove_attribute, drop_configured,
  set_user_attributes,
}

-- The claims that identify the session, once they are there.
pub record SameIdentity (p q : Payload) : Type 0 where
  pub jti : q.jti ≡ p.jti
  pub exp : q.exp ≡ p.exp
  pub user_id : q.user_id ≡ p.user_id
  pub session : (x : ℕ) → p.session ≡ some x → q.session ≡ some x
  pub session_iat : (t : ℕ) → p.session_iat ≡ some t → q.session_iat ≡ some t
  pub role : q.role ≡ p.role
  pub email_verified : q.email_verified ≡ p.email_verified

SameIdentity-refl : (p : Payload) → SameIdentity p p
SameIdentity-refl p = record {
  jti = refl;
  exp = refl;
  user_id = refl;
  session = λ x h. h;
  session_iat = λ t h. h;
  role = refl;
  email_verified = refl;
}

SameIdentity-trans : {p q r : Payload} → SameIdentity p q → SameIdentity q r → SameIdentity p r
SameIdentity-trans a b = record {
  jti = b.jti ∙ a.jti;
  exp = b.exp ∙ a.exp;
  user_id = b.user_id ∙ a.user_id;
  session = λ x h. b.session x (a.session x h);
  session_iat = λ t h. b.session_iat t (a.session_iat t h);
  role = b.role ∙ a.role;
  email_verified = b.email_verified ∙ a.email_verified;
}

write_attribute-same :
    (name : Claim) (value : Option ℕ) (p : Payload) → SameIdentity p (write_attribute name value p)
unfolding write_attribute
write_attribute-same name none p = SameIdentity-refl p
write_attribute-same Claim.session (some v) p = record {
  jti = ground arith;
  exp = ground arith;
  user_id = ground arith;
  session = λ x h. ground arith;
  session_iat = λ t h. ground arith;
  role = ground arith;
  email_verified = ground arith;
}
write_attribute-same Claim.session_iat (some v) p = record {
  jti = ground arith;
  exp = ground arith;
  user_id = ground arith;
  session = λ x h. ground arith;
  session_iat = λ t h. ground arith;
  role = ground arith;
  email_verified = ground arith;
}
write_attribute-same name (some v) p = record {
  jti = ground arith;
  exp = ground arith;
  user_id = ground arith;
  session = λ x h. ground arith;
  session_iat = λ t h. ground arith;
  role = ground arith;
  email_verified = ground arith;
}

pub write_attributes-same :
    (resolve : DotPath → Option ℕ) (names : List (Claim × DotPath)) (p : Payload)
    → SameIdentity p (write_attributes resolve names p)
unfolding write_attributes
write_attributes-same resolve [] p = SameIdentity-refl p
write_attributes-same resolve ((name, path) ∷ rest) p =
    SameIdentity-trans (write_attribute-same name (resolve path) p)
      (write_attributes-same resolve rest (write_attribute name (resolve path) p))

pub set_user_attributes-same :
    (cfg : Settings) (req : Request) (user : User) (p : Payload) {q : Payload}
    → set_user_attributes cfg req user p ≡ ok q
    → q ≡ write_attributes (req.resolve user.id) (attribute_map cfg.user_attributes) p
unfolding set_user_attributes
set_user_attributes-same cfg req user p h = ground arith

pub drop_configured-same :
    (names : List (Claim × DotPath)) (p : Payload) → SameIdentity p (drop_configured names p)
unfolding drop_configured
drop_configured-same [] p = SameIdentity-refl p
drop_configured-same ((Claim.attribute m, path) ∷ rest) p =
    SameIdentity-trans
      (record {
        jti = refl;
        exp = refl;
        user_id = refl;
        session = λ x h. h;
        session_iat = λ t h. h;
        role = refl;
        email_verified = refl;
      })
      (drop_configured-same rest (record p { attributes = remove_attribute m p.attributes }))
drop_configured-same ((name, path) ∷ rest) p = drop_configured-same rest p
