-- ===== src/Startup/Passes.antt =====
-- Each pass of the startup is done once: what it has filled in it leaves (jwt_allauth/apps.py).
use Prim.Native.String.{String}
use text.Mathlib.TextPositions.{eq_refl}
use jwt_allauth.Base.{
  ◌≡◌, refl, ◌∙◌, subst, ap, inl, inr, true, some, List, [], ◌∷◌, ◌++◌, arith, Option-cases,
}
use jwt_allauth.Settings.{Method}
use jwt_allauth.Startup.Project.{Project, Dict}
use jwt_allauth.Startup.Ready.{
  lookup, fill, fill_allauth, default_simplejwt, default_rest_framework, is_in, simple_jwt_settings,
  authentication_classes, account_middleware, get_signing_key,
}
use jwt_allauth.Startup.Defaults.{fill_idem}

-- A second pass over what the first has filled in changes nothing.
pub fill_allauth_idem :
    (m : Method) (p : Project) → fill_allauth m (fill_allauth m p) ≡ fill_allauth m p
unfolding fill_allauth
fill_allauth_idem m p = ground arith

-- No default is named twice.
pub simple_jwt_settings-fill :
    (p : Project) → fill (simple_jwt_settings p) [] ≡ simple_jwt_settings p
unfolding fill lookup simple_jwt_settings
simple_jwt_settings-fill p = refl

pub default_simplejwt-fill :
    (p : Project) (d : Dict)
    → fill (simple_jwt_settings p) d ≡ d
    → default_simplejwt (record p { simple_jwt = some d }) ≡ record p { simple_jwt = some d }
unfolding default_simplejwt simple_jwt_settings get_signing_key
default_simplejwt-fill p d same = ap (λ (e : Dict). record p { simple_jwt = some e }) same

pub default_simplejwt_idem :
    (p : Project) → default_simplejwt (default_simplejwt p) ≡ default_simplejwt p
unfolding default_simplejwt
default_simplejwt_idem p = elim (Option-cases p.simple_jwt) [
  | inl missing ↦ rw missing (
      default_simplejwt-fill p (simple_jwt_settings p) (
        subst (λ d. fill (simple_jwt_settings p) d ≡ d) (simple_jwt_settings-fill p)
          (fill_idem (simple_jwt_settings p) [])))
  | inr (declared, given) ↦ rw given (
      default_simplejwt-fill p (fill (simple_jwt_settings p) declared)
        (fill_idem (simple_jwt_settings p) declared))
]

pub is_in-append : (x : String) (xs : List String) → is_in x (xs ++ x ∷ []) ≡ true
unfolding is_in
is_in-append x [] = rw eq_refl refl
is_in-append x (y ∷ ys) = ground (arith, is_in-append x ys)

pub authentication_classes-fill :
    fill authentication_classes authentication_classes ≡ authentication_classes
unfolding fill lookup
authentication_classes-fill = refl

pub default_rest_framework_idem :
    (p : Project) → default_rest_framework (default_rest_framework p) ≡ default_rest_framework p
unfolding default_rest_framework
default_rest_framework_idem p = elim (Option-cases p.rest_framework) [
  | inl missing ↦
      ground (arith, authentication_classes-fill, is_in-append account_middleware p.middleware)
  | inr (d, given) ↦
      ground
        (arith, fill_idem authentication_classes d, is_in-append account_middleware p.middleware)
]

-- The three passes write different settings.
pub allauth-later :
    (m : Method) (p : Project)
    → fill_allauth m (default_rest_framework (default_simplejwt p))
      ≡ default_rest_framework (default_simplejwt (fill_allauth m p))
unfolding fill_allauth default_rest_framework default_simplejwt simple_jwt_settings get_signing_key
allauth-later m p = refl

pub simplejwt-later :
    (p : Project)
    → default_simplejwt (default_rest_framework p) ≡ default_rest_framework (default_simplejwt p)
unfolding default_rest_framework default_simplejwt simple_jwt_settings get_signing_key
simplejwt-later p = refl

unfoldable pub passes : Project → Project
passes p = default_rest_framework (default_simplejwt p)

pub passes_idem : (p : Project) → passes (passes p) ≡ passes p
unfolding passes
passes_idem p =
    ap default_rest_framework (simplejwt-later (default_simplejwt p))
    ∙ default_rest_framework_idem (default_simplejwt (default_simplejwt p))
    ∙ ap default_rest_framework (default_simplejwt_idem p)

pub allauth-passes :
    (m : Method) (p : Project)
    → fill_allauth m (passes (fill_allauth m p)) ≡ passes (fill_allauth m p)
unfolding passes
allauth-passes m p = allauth-later m (fill_allauth m p) ∙ ap passes (fill_allauth_idem m p)
