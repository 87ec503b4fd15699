-- ===== src/Scaffold/Edits.antt =====
-- The edits come to an end, and what they leave of a text.
use mathlib.Core.List.{append_assoc}
use jwt_allauth.Base.{
  ℕ, zero, suc, ◌+◌, ◌≤◌, ◌<◌, ◌≡◌, refl, sym, ap, ◌∙◌, inl, inr, Bool, none, some, [], ◌∷◌, ◌++◌,
  arith, ◌==◌, ==→eq, ==_refl, Option-cases, Bool-cases, length,
}
use jwt_allauth.Scaffold.Text.{
  Chars, Matcher, is_space, is_comma, is_newline, strip_prefix, span, sub, sub_all, opening,
  closing, body, list_entry, behind,
}

abbrev pub Shrinks : Matcher → Type 0
Shrinks m = (t replacement rest : Chars) → m t ≡ some (replacement, rest) → length rest < length t

module _ (m : Matcher) (fuel c : ℕ) (t : Chars) where
  sub-keep :
      (out : Chars)
      → m (c ∷ t) ≡ none
      → sub m fuel t ≡ some out
      → sub m (suc fuel) (c ∷ t) ≡ some (c ∷ out)
  unfolding sub
  sub-keep out h k = ground arith

  sub-swap :
      (replacement rest out : Chars)
      → m (c ∷ t) ≡ some (replacement, rest)
      → sub m fuel rest ≡ some out
      → sub m (suc fuel) (c ∷ t) ≡ some (replacement ++ out)
  unfolding sub
  sub-swap replacement rest out h k = ground arith

sub_total :
    (m : Matcher)
    → Shrinks m
    → (fuel : ℕ) (t : Chars) → length t < fuel
    → (out : Chars) × (sub m fuel t ≡ some out)
unfolding sub
sub_total m shrinks zero t h = absurd (omega arith)
sub_total m shrinks (suc fuel) [] h = ([], refl)
sub_total m shrinks (suc fuel) (c ∷ t) h = elim (Option-cases (m (c ∷ t))) [
  | inl none_here ↦
      let (out, e) = sub_total m shrinks fuel t (omega arith) in
      (c ∷ out, sub-keep m fuel c t out none_here e)
  | inr ((replacement, rest), here) ↦
      let (out, e) =
        sub_total m shrinks fuel rest (omega (arith, shrinks (c ∷ t) replacement rest here)) in
      (replacement ++ out, sub-swap m fuel c t replacement rest out here e)
]

-- With enough fuel an edit has a result.
pub sub_all_total :
    (m : Matcher) → Shrinks m → (t : Chars) → (out : Chars) × (sub_all m t ≡ some out)
unfolding sub_all
sub_all_total m shrinks t = sub_total m shrinks (suc (length t)) t (omega arith)

pub strip_prefix-append : (p t rest : Chars) → strip_prefix p t ≡ some rest → t ≡ p ++ rest
unfolding strip_prefix
strip_prefix-append [] t rest h = cc
strip_prefix-append (p ∷ ps) [] rest h = cc
strip_prefix-append (p ∷ ps) (c ∷ t) rest h = elim (Bool-cases (p == c)) [
  | inl same ↦
      rw (sym (==→eq p c same)) (ap (λ r. p ∷ r) (strip_prefix-append ps t rest (rw same at h)))
  | inr apart ↦ absurd (ground arith)
]

pub strip_prefix_self : (p rest : Chars) → strip_prefix p (p ++ rest) ≡ some rest
unfolding strip_prefix
strip_prefix_self [] rest = refl
strip_prefix_self (p ∷ ps) rest = rw (==_refl p) (strip_prefix_self ps rest)

length-append : (s t : Chars) → length (s ++ t) ≡ length s + length t
length-append [] t = omega arith
length-append (c ∷ s) t = omega (arith, length-append s t)

pub strip_prefix-length :
    (p t rest : Chars) → strip_prefix p t ≡ some rest → length t ≡ length p + length rest
strip_prefix-length p t rest h = ap length (strip_prefix-append p t rest h) ∙ length-append p rest

pub span-append : (p : ℕ → Bool) (t : Chars) → (span p t).0 ++ (span p t).1 ≡ t
unfolding span
span-append p [] = refl
span-append p (c ∷ t) = elim (Bool-cases (p c)) [
  | inl fits ↦ rw fits (ap (λ r. c ∷ r) (span-append p t))
  | inr stops ↦ rw stops refl
]

span-length : (p : ℕ → Bool) (t : Chars) → length (span p t).1 ≤ length t
span-length p t =
    omega (arith, ap length (span-append p t), length-append (span p t).0 (span p t).1)

closing-length : (t rest : Chars) → closing t ≡ some rest → length rest < length t
unfolding closing
closing-length t rest h = omega (
  arith,
  span-length is_comma t,
  span-length is_newline (span is_comma t).1,
  strip_prefix-length (b']' ∷ []) (span is_newline (span is_comma t).1).1 rest h,
)

body-length : (t items rest : Chars) → body t ≡ some (items, rest) → length rest < length t
unfolding body
body-length [] items rest h = absurd (cc)
body-length (c ∷ t) items rest h = elim (Option-cases (closing (c ∷ t))) [
  | inr (after, ends) ↦ ground (arith, closing-length (c ∷ t) after ends)
  | inl goes_on ↦ elim (Option-cases (body t)) [
    | inl never ↦ absurd (ground arith)
    | inr ((items', rest'), found) ↦ ground (arith, body-length t items' rest' found)
  ]
]

regroup :
    (name before behind rest : Chars)
    → name ++ (before ++ (b'=' ∷ (behind ++ (b'[' ∷ rest))))
      ≡ (name ++ (before ++ (b'=' ∷ (behind ++ b'[' ∷ [])))) ++ rest
regroup name before behind rest = simp (append_assoc)

pub opening-append :
    (name t head rest : Chars) → opening name t ≡ some (head, rest) → t ≡ head ++ rest
unfolding opening
opening-append name t head rest h = elim (Option-cases (strip_prefix name t)) [
  | inl other ↦ absurd (ground arith)
  | inr (r, named) ↦ elim (Option-cases (strip_prefix (b'=' ∷ []) (span is_space r).1)) [
    | inl no_equals ↦ absurd (ground arith)
    | inr (r', equals) ↦ elim (Option-cases (strip_prefix (b'[' ∷ []) (span is_space r').1)) [
      | inl no_list ↦ absurd (ground arith)
      | inr (list, opens) ↦
          let before = (span is_space r).0 in
          let gap = (span is_space r').0 in
          let its_head : name ++ (before ++ (b'=' ∷ (gap ++ b'[' ∷ []))) ≡ head = ground arith in
          let its_rest : list ≡ rest = ground arith in
          strip_prefix-append name t r named
          ∙ ap (λ x. name ++ x)
              (sym (span-append is_space r)
                ∙ ap (λ x. before ++ x)
                    (strip_prefix-append (b'=' ∷ []) (span is_space r).1 r' equals
                      ∙ ap (λ x. b'=' ∷ x)
                          (sym (span-append is_space r')
                            ∙ ap (λ x. gap ++ x)
                                (strip_prefix-append (b'[' ∷ []) (span is_space r').1 list opens))))
          ∙ regroup name before gap list
          ∙ ap (λ x. x ++ list) its_head
          ∙ ap (λ x. head ++ x) its_rest
    ]
  ]
]

module _ (name new : Chars) where
  pub list_entry-Shrinks : Shrinks (list_entry name new)
  unfolding list_entry
  list_entry-Shrinks t replacement rest h = elim (Option-cases (opening name t)) [
    | inl no_head ↦ absurd (ground arith)
    | inr ((head, list), opened) ↦ elim (Option-cases (body list)) [
      | inl open_end ↦ absurd (ground arith)
      | inr ((items, after), closed) ↦ ground (
        arith,
        body-length list items after closed,
        ap length (opening-append name t head list opened),
        length-append head list,
      )
    ]
  ]
