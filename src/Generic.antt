-- ===== src/Generic.antt =====
-- The single-use tokens: `GenericTokenModel.consume` of jwt_allauth/tokens/models.py and
-- `GenericToken` of jwt_allauth/tokens/tokens.py. A token is stored as its digest; what Django's
-- PasswordResetTokenGenerator says of a link is an argument.
pub mod SingleUse
use jwt_allauth.Base.{
  ℕ, zero, suc, ◌+◌, Bool, true, false, not, ◌&&◌, List, [], ◌∷◌, ◌++◌, ltb, ◌==◌, if◌then◌else◌,
  delete, count,
}
use jwt_allauth.Db.{GenericTokenModel, Db, Purpose, same_purpose}

-- `filter(token=token, purpose=purpose)` and `filter(user=user, purpose=purpose)`
abbrev pub is_token : ℕ → Purpose → GenericTokenModel → Bool
is_token token purpose row = row.token == token && same_purpose row.purpose purpose

abbrev pub is_of : ℕ → Purpose → GenericTokenModel → Bool
is_of user purpose row = row.user == user && same_purpose row.purpose purpose

abbrev pub new_token : ℕ → ℕ → ℕ → ℕ → Purpose → GenericTokenModel
new_token now pk user token purpose = record {
  pk = pk;
  created = now;
  user = user;
  token = token;
  purpose = purpose;
}

-- `objects.create(...)`, `serializer.save()`
abbrev pub create_token : ℕ → ℕ → ℕ → Purpose → Db → Db
create_token now user token purpose s = record s {
  tokens = s.tokens ++ new_token now s.next_pk user token purpose ∷ [];
  next_pk = s.next_pk + 1;
}

abbrev pub delete_tokens : (GenericTokenModel → Bool) → Db → Db
delete_tokens q s = record s { tokens = delete q s.tokens }

-- `GenericTokenModel.consume`: whether this caller removed the row, and the database after it.
unfoldable pub consume : ℕ → Purpose → Db → Bool × Db
consume token purpose s =
    (ltb 0 (count (is_token token purpose) s.tokens), delete_tokens (is_token token purpose) s)

-- `GenericToken.make_token`: the row of the new digest, and none of the older ones.
unfoldable pub make_token : ℕ → ℕ → ℕ → Purpose → Db → Db
make_token now user digest purpose s =
    delete_tokens (λ row. is_of user purpose row && not (row.token == digest))
      (create_token now user digest purpose s)

-- `GenericToken.check_token`, where `signed` is Django's own verdict on the link.
unfoldable pub check_token : Bool → ℕ → Purpose → Db → Bool × Db
unfolding consume
check_token signed digest purpose s = if signed then consume digest purpose s else (false, s)

-- Requests that present one token one after another: how many of them claim it.
pub winners : ℕ → ℕ → Purpose → Db → ℕ
winners zero token purpose s = 0
winners (suc k) token purpose s =
    let (won, s') = consume token purpose s in
    let rest = winners k token purpose s' in if won then suc rest else rest
