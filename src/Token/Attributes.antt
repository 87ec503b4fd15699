-- ===== src/Token/Attributes.antt =====
-- The attribute claims, under the loops that drop and write them.
use jwt_allauth.Base.{
  ◌+◌, subst, inl, inr, exists, ==_refl, Bool-cases, ◌==◌, if◌then◌else◌, ℕ, ◌≡◌, refl, ◌∙◌, true,
  false, Option, none, some, List, [], ◌∷◌, arith,
}
use jwt_allauth.Claim.{Claim, same_claim, DotPath}
use jwt_allauth.Token.{
  Payload, write_attribute, write_attributes, lookup_attribute, remove_attribute, conflicts,
  drop_configured,
}

abbrev pub path_of : ℕ → List (Claim × DotPath) → Option DotPath
path_of n [] = none
path_of n ((name, path) ∷ rest) =
    if same_claim name (Claim.attribute n) then some path else path_of n rest

-- `none` where there is no path
abbrev pub value_at : (DotPath → Option ℕ) → Option DotPath → Option ℕ
value_at resolve none = none
value_at resolve (some path) = resolve path

lookup-write_attribute_other :
    (n : ℕ) (name : Claim) (v : Option ℕ) (p : Payload)
    → same_claim name (Claim.attribute n) ≡ false
    → lookup_attribute n (write_attribute name v p).attributes ≡ lookup_attribute n p.attributes
unfolding write_attribute
lookup-write_attribute_other n name none p h = refl
lookup-write_attribute_other n (Claim.attribute m) (some v) p h = ground arith
lookup-write_attribute_other n Claim.session (some v) p h = ground arith
lookup-write_attribute_other n Claim.session_iat (some v) p h = ground arith
lookup-write_attribute_other n _ (some v) p h = ground arith

lookup-write_attribute_self :
    (n : ℕ) (v : Option ℕ) (p : Payload)
    → lookup_attribute n p.attributes ≡ none
    → lookup_attribute n (write_attribute (Claim.attribute n) v p).attributes ≡ v
unfolding write_attribute
lookup-write_attribute_self n none p h = h
lookup-write_attribute_self n (some v) p h = ground arith

lookup-write_attributes_other :
    (resolve : DotPath → Option ℕ) (n : ℕ) (names : List (Claim × DotPath)) (p : Payload)
    → path_of n names ≡ none
    → lookup_attribute n (write_attributes resolve names p).attributes
      ≡ lookup_attribute n p.attributes
unfolding write_attributes
lookup-write_attributes_other resolve n [] p h = refl
lookup-write_attributes_other resolve n ((name, path) ∷ rest) p h =
    lookup-write_attributes_other resolve n rest (write_attribute name (resolve path) p)
      (ground arith)
    ∙ lookup-write_attribute_other n name (resolve path) p (ground arith)

path_of-none :
    (n : ℕ) (rest : List (Claim × DotPath))
    → exists (λ e. same_claim (Claim.attribute n) e.0) rest ≡ false
    → path_of n rest ≡ none
unfolding exists
path_of-none n [] h = refl
path_of-none n ((name, path) ∷ rest) h = ground (arith, path_of-none n rest)

pub lookup-write_attributes :
    (resolve : DotPath → Option ℕ) (n : ℕ) (names : List (Claim × DotPath)) (p : Payload)
    → conflicts names ≡ false
    → lookup_attribute n p.attributes ≡ none
    → lookup_attribute n (write_attributes resolve names p).attributes
      ≡ value_at resolve (path_of n names)
unfolding write_attributes conflicts
lookup-write_attributes resolve n [] p ok_names h = h
lookup-write_attributes resolve n ((name, path) ∷ rest) p ok_names h =
    elim (Bool-cases (same_claim name (Claim.attribute n))) [
      | inl same ↦
          let here : name ≡ Claim.attribute n = same_claim→eq name n same in
          rw here (
            lookup-write_attributes_other resolve n rest
              (write_attribute (Claim.attribute n) (resolve path) p)
              (path_of-none n rest
                (subst (λ c. exists (λ e. same_claim c e.0) rest ≡ false) here (ground arith)))
            ∙ rw (==_refl (9 + n)) (lookup-write_attribute_self n (resolve path) p h))
      | inr other_name ↦ rw other_name (
          lookup-write_attributes resolve n rest (write_attribute name (resolve path) p)
            (ground arith) (lookup-write_attribute_other n name (resolve path) p other_name ∙ h))
    ]
  where
    same_claim→eq :
        (c : Claim) (m : ℕ) → same_claim c (Claim.attribute m) ≡ true → c ≡ Claim.attribute m
    same_claim→eq (Claim.attribute k) m e = ground arith
    same_claim→eq _ m e = ground arith

lookup-remove_attribute :
    (n m : ℕ) (d : List (ℕ × ℕ))
    → lookup_attribute n (remove_attribute m d) ≡ (if n == m then none else lookup_attribute n d)
unfolding lookup_attribute remove_attribute
lookup-remove_attribute n m [] = ground arith
lookup-remove_attribute n m ((k, v) ∷ d) = ground (arith, lookup-remove_attribute n m d)

drop_configured_keeps_none :
    (n : ℕ) (names : List (Claim × DotPath)) (p : Payload)
    → lookup_attribute n p.attributes ≡ none
    → lookup_attribute n (drop_configured names p).attributes ≡ none
unfolding drop_configured
drop_configured_keeps_none n [] p h = h
drop_configured_keeps_none n ((Claim.attribute m, path) ∷ rest) p h =
    drop_configured_keeps_none n rest (record p { attributes = remove_attribute m p.attributes })
      (rw lookup-remove_attribute (ground arith))
drop_configured_keeps_none n ((name, path) ∷ rest) p h = drop_configured_keeps_none n rest p h

pub drop_configured_drops :
    (n : ℕ) (names : List (Claim × DotPath)) (p : Payload) (path : DotPath)
    → path_of n names ≡ some path
    → lookup_attribute n (drop_configured names p).attributes ≡ none
unfolding drop_configured
drop_configured_drops n [] p path h = cc
drop_configured_drops n ((Claim.attribute m, other_path) ∷ rest) p path h =
    elim (Bool-cases (m == n)) [
      | inl same ↦
          drop_configured_keeps_none n rest
            (record p { attributes = remove_attribute m p.attributes })
            (rw lookup-remove_attribute (ground arith))
      | inr other_name ↦
          drop_configured_drops n rest (record p { attributes = remove_attribute m p.attributes })
            path (ground arith)
    ]
drop_configured_drops n ((name, other_path) ∷ rest) p path h =
    drop_configured_drops n rest p path (ground arith)
