-- ===== src/Session/Frame.antt =====
-- What opening a session leaves alone: every table but the whitelist.
use jwt_allauth.Base.{ℕ, ◌≡◌, inl, inr, Bool, Option, arith, Result-cases}
use jwt_allauth.Db.{User, Db}
use jwt_allauth.Settings.{Settings}
use jwt_allauth.Token.{Jwt, Request}
use jwt_allauth.Session.{save_session, new_session_token, for_user}

pub record Frame (s s' : Db) : Type 0 where
  pub users : s'.users ≡ s.users
  pub emails : s'.emails ≡ s.emails
  pub totp : s'.totp ≡ s.totp
  pub tokens : s'.tokens ≡ s.tokens

save_session-Frame :
    (now jti session user : ℕ) (enabled : Bool) (s : Db)
    → Frame s (save_session now jti session user enabled s).1
unfolding save_session
save_session-Frame now jti session user enabled s = record {
  users = ground arith;
  emails = ground arith;
  totp = ground arith;
  tokens = ground arith;
}

pub for_user-Frame :
    (cfg : Settings) (j : Jwt) (req : Request) (enabled : Bool) (verified : Option Bool)
    (user : User) (s : Db)
    → Frame s (for_user cfg j req enabled verified user s).1
unfolding for_user
for_user-Frame cfg j req enabled verified user s =
    elim (Result-cases (new_session_token cfg j req verified user s)) [
      | inr (e, failed) ↦ record {
        users = ground arith;
        emails = ground arith;
        totp = ground arith;
        tokens = ground arith;
      }
      | inl (t, made) ↦
          let kept = save_session-Frame req.now t.jti req.fresh_session user.id enabled s in
          record {
            users = ground (arith, kept.users);
            emails = ground (arith, kept.emails);
            totp = ground (arith, kept.totp);
            tokens = ground (arith, kept.tokens);
          }
    ]
