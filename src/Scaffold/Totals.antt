-- ===== src/Scaffold/Totals.antt =====
-- The edits have a result for every text.
use jwt_allauth.Base.{
  ℕ, ◌≡◌, refl, inl, inr, Bool, Option, some, [], ◌∷◌, ◌++◌, ◌≤◌, arith, Option-cases, Bool-cases,
  length,
}
use jwt_allauth.Scaffold.Text.{
  Chars, codes, newline, docstring, literal, sub_all, behind, strip_prefix, contains, list_entry,
}
use jwt_allauth.Scaffold.Edits.{Shrinks, sub_all_total, list_entry-Shrinks, strip_prefix-length}
use jwt_allauth.Scaffold.Files.{Host}
use jwt_allauth.Scaffold.Project.{
  modify_settings, modify_urls, jwt_apps, add_imports, allauth_middleware, add_migration_modules,
  append_blocks, jwt_urls, import_include, with_import, ◌>=>◌,
}

literal-Shrinks : (c : ℕ) (old new : Chars) → Shrinks (literal (c ∷ old) new)
unfolding literal
literal-Shrinks c old new t replacement rest h = elim (Option-cases (strip_prefix (c ∷ old) t)) [
  | inl other ↦ absurd (ground arith)
  | inr (after, found) ↦ ground (arith, strip_prefix-length (c ∷ old) t after found)
]

behind-length : (p t rest : Chars) → behind p t ≡ some rest → length rest ≤ length t
unfolding behind
behind-length p [] rest h = omega (arith, strip_prefix-length p [] rest h)
behind-length p (c ∷ t) rest h = elim (Option-cases (strip_prefix p (c ∷ t))) [
  | inr (after, here) ↦ ground (arith, strip_prefix-length p (c ∷ t) after here)
  | inl further ↦ ground (arith, behind-length p t rest)
]

docstring-Shrinks : Shrinks docstring
unfolding docstring
docstring-Shrinks t replacement rest h =
    let quotes : Chars = b'"' ∷ b'"' ∷ b'"' ∷ [] in
    elim (Option-cases (strip_prefix quotes t)) [
      | inl other ↦ absurd (ground arith)
      | inr (inside, opens) ↦ elim (Option-cases (behind quotes inside)) [
        | inl open_end ↦ absurd (ground arith)
        | inr (after, closes) ↦ ground (
          arith,
          strip_prefix-length quotes t inside opens,
          behind-length quotes inside after closes,
        )
      ]
    ]

abbrev pub Total : (Chars → Option Chars) → Type 0
Total f = (t : Chars) → (out : Chars) × (f t ≡ some out)

>=>-Total : (f g : Chars → Option Chars) → Total f → Total g → Total (f >=> g)
>=>-Total f g f_total g_total t =
    let (t', e) = f_total t in let (out, e') = g_total t' in (out, ground arith)

entry-Total : (name new : Chars) → Total (sub_all (list_entry name new))
entry-Total name new = sub_all_total (list_entry name new) (list_entry-Shrinks name new)

pub modify_settings-Total :
    (h : Host) (email : Bool) (name : Chars) (rs256_ok : Bool)
    → Total (modify_settings h email name rs256_ok)
unfolding modify_settings
modify_settings-Total h email name rs256_ok t =
    let apps = sub_all (list_entry (codes "INSTALLED_APPS") (jwt_apps h.mfa_installed)) in
    let middleware = sub_all (list_entry (codes "MIDDLEWARE") allauth_middleware) in
    let blocks : Chars → Option Chars =
      λ t'. some (add_migration_modules name (append_blocks h email rs256_ok t')) in
    >=>-Total (apps >=> middleware) blocks
      (>=>-Total apps middleware (entry-Total (codes "INSTALLED_APPS") (jwt_apps h.mfa_installed))
        (entry-Total (codes "MIDDLEWARE") allauth_middleware))
      (λ t'. (add_migration_modules name (append_blocks h email rs256_ok t'), refl))
      (add_imports email t)

import_include-Total : (no_comments : Chars) → Total (import_include no_comments)
unfolding import_include
import_include-Total no_comments t =
    let path = codes "from django.urls import path" in
    let replaced =
      sub_all_total (literal path (codes "from django.urls import path, include"))
        (literal-Shrinks b'f' (codes "rom django.urls import path")
          (codes "from django.urls import path, include"))
        t in
    elim (Bool-cases (contains (codes "include") no_comments)) [
      | inl has ↦ (t, rw has refl)
      | inr lacks ↦ elim (Bool-cases (contains path no_comments)) [
        | inl imports ↦ (replaced.0, rw (lacks, imports) replaced.1)
        | inr no_import ↦
            (codes "from django.urls import include" ++ newline ∷ t, rw (lacks, no_import) refl)
      ]
    ]

with_import-Total : Total with_import
unfolding with_import
with_import-Total t =
    let (no_comments, e) = sub_all_total docstring docstring-Shrinks t in
    let (imported, e') = import_include-Total no_comments t in (imported, ground arith)

pub modify_urls-Total : Total modify_urls
unfolding modify_urls
modify_urls-Total =
    >=>-Total with_import (sub_all (list_entry (codes "urlpatterns") jwt_urls)) with_import-Total
      (entry-Total (codes "urlpatterns") jwt_urls)
