-- ===== src/Examples/Refusals.antt =====
-- A refused refresh, and one request as a run of the abstract machine.
use jwt_allauth.Base.{refl, some, [], first}
use jwt_allauth.Db.{Db}
use jwt_allauth.Examples.{cfg, jwt, request, token, db}
use jwt_allauth.Failure.{invalid_token}
use jwt_allauth.Session.{close_session, refresh_token, rotate, admit, reject}
use jwt_allauth.Session.Refusals.{Refusal, refused_refresh_explained}

-- The row of the token is gone.
abbrev used : Db
used = record db { whitelist = [] }

refused_refresh_explained_example :
    Refusal cfg jwt (request 6) (some token) used invalid_token (close_session 10 used)
unfolding refresh_token rotate admit reject first
refused_refresh_explained_example =
    refused_refresh_explained cfg jwt (request 6) (some token) used (close_session 10 used)
      invalid_token refl
