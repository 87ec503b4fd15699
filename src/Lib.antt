-- ===== src/Lib.antt =====
-- jwt_allauth: a verification library for the sessions, tokens and accounts of jwt-allauth.
--
-- The program issues refresh tokens that are rotated at each use and whitelisted in a table, and
-- builds login, registration, password and social flows on them. The state of all of them is the
-- database, the record Db of Db.antt: the whitelist (RefreshTokenWhitelistModel), the single-use
-- tokens (GenericTokenModel), the users, their addresses, their authenticators and their
-- connections to providers. A handler is a function from the database to a result and the database
-- after it (Exec of Base/Effects.antt); an exception is a value of Failure and leaves the writes
-- that were made before it, unless a transaction undoes them.
--
-- Where the code is modelled, by file and by path from the repository's root:
--   Base            lists, tests, counting and effects that all parts share
--   Settings        the settings and what jwt_allauth/utils.py derives from them
--   Client          the address and the browser of a client (jwt_allauth/utils.py)
--   Roles           jwt_allauth/roles.py and the manager of jwt_allauth/models.py
--   Claim, Token    the claims of RefreshToken of jwt_allauth/tokens/tokens.py, with the session
--                   deadline and sync_user_claims
--   Session         for_user, the rotation of jwt_allauth/token_refresh/serializers.py, logout and
--                   validate_session. Session/Protocol is the state machine of all the handlers that
--                   write the whitelist, Invariant and Safety its invariant, Stale and Replay the
--                   reuse of a token, Renewal what a rotation hands out, Refusals its error paths.
--                   Credentials is an abstract machine on the live credential of each session,
--                   Refinement relates the handlers to it, Keys is about the primary keys
--   Revocation      jwt_allauth/revocation.py
--   Generic         GenericTokenModel.consume, GenericToken.make_token and check_token
--   Mfa             jwt_allauth/mfa: Storage and Attempts are storage.py, Gate is gate.py and
--                   jwt_allauth/login/serializers.py; Verify, Enrol and Deactivate are views.py, with
--                   permissions.py
--   Purge           jwt_allauth/tokens/purge.py, and in Command the command
--                   jwt_allauth_purge_tokens of jwt_allauth/management/commands; Outcome, Sessions
--                   and Unnoticed compare what the code reads before and after
--   Accounts        jwt_allauth/accounts.py
--   Password        jwt_allauth/password_reset, jwt_allauth/password_change and
--                   jwt_allauth/csrf.py: Links is the request of a link, Endpoint the reset behind
--                   its permission, Handover and Owner what a reset leaves, Accepted what a
--                   permission makes of a capability
--   Permissions     jwt_allauth/permissions.py and jwt_allauth/throttling.py
--   Registration    jwt_allauth/registration/serializers.py and views.py; Names is the check of a
--                   name, Invited the form and the view of an invitation, Reserved what it leaves
--   Confirmation    jwt_allauth/registration/email_verification/views.py, invitations and the
--                   ordinary confirmation in Ordinary; Mail is the mails of jwt_allauth/adapter.py
--                   and Rendering their rendering
--   Social          jwt_allauth/social/flows.py and app_settings.py; Credentials is how a credential
--                   finds its provider, with serializers.py, and Endpoints is views.py and the two
--                   decisions of adapter.py
--   Delivery        the cookie or body of a refresh token (jwt_allauth/utils.py), and the views of
--                   jwt_allauth/token_refresh, jwt_allauth/logout and jwt_allauth/login
--   Startup         jwt_allauth/apps.py: Project and Ready are the settings and what the startup
--                   makes of them, Defaults, Passes and Settled are about the result, and Checks is
--                   jwt_allauth/checks.py
--   Scaffold        jwt_allauth/bin/jwt_allauth.py: Text is Python's handling of text, Blocks the
--                   settings that are appended, Files the disk and the keys, Project the edits and
--                   the command. Edits, Totals and Lists are about the edits, Guards and Keys about
--                   the private key, Signing about what the settings say of it, Generated and
--                   Created about a run
--   Examples        concrete settings and tables, on which the theorems are applied
--
-- The parts meet in the database: a login, a code, a link or a provider ends in for_user, which adds
-- a whitelist row; a change of credentials and a logout take rows away; the purge deletes what is
-- past its retention. A handler holds the lock of its user's sessions while it writes them
-- (user_sessions_lock), so the protocol takes each as one step, in any order.
--
-- Instants are in microseconds and claims in seconds, as natural numbers; identifiers, digests,
-- addresses and secrets are numbers that are only compared. Only re.sub runs on fuel, one more
-- than the length of the text, which is enough since no match is empty; every other loop of the
-- code runs over a list.
--
-- Parameters, for code outside of the repository: Simple JWT (Jwt, with the laws JwtLaws), the
-- cipher of a setup secret (Vault, with VaultLaws), Django's form for a reset (ResetForm, with
-- ResetFormLaws), allauth (Allauth for a social login, Lookup for its providers, Adapter for a new
-- account, with AdapterLaws, Authenticators for a second factor, with AuthenticatorsLaws), the
-- file system and the programs that the scaffolding starts (Host, with HostLaws), the text of a
-- token (Codec), Django's templates (Renderer), Django's verdict on a link, on a password or on a
-- CSRF token, and what the authenticator says of a code.
--
-- Not modelled: the forms' checks of passwords and lengths, the description of the API, the sending
-- of mail, and the context of templates. The columns about a device are left out of the rows: the
-- handlers are those of a project that does not collect them (JWT_ALLAUTH_COLLECT_USER_AGENT), which is
-- the default. Where they are collected, a value that its column does not take makes for_user and
-- make_token raise InvalidToken.
pub mod Base
pub mod Db
pub mod Claim
pub mod Client
pub mod Failure
pub mod Settings
pub mod Roles
pub mod Token
pub mod Session
pub mod Scaffold
pub mod Revocation
pub mod Generic
pub mod Mfa
pub mod Purge
pub mod Accounts
pub mod Password
pub mod Permissions
pub mod Social
pub mod Registration
pub mod Confirmation
pub mod Examples
pub mod Startup
pub mod Delivery
