-- ===== src/Auth.antt =====
-- app/services/auth_service.py with app/repositories/session_repository.py: login, the refresh of tokens
-- and logout. The routes' decorations of the reply (cookies) are left out.
pub mod Sessions
pub mod Logins
pub mod Route
mod Tests
mod RouteTests
use pro_lens_backend.Base.{
  ℕ, ◌+◌, ◌*◌, Bool, true, false, Option, none, some, List, [], ◌∷◌, ◌++◌, ◌==◌, ◌&&◌, ◌||◌, not,
  is_none, find, ltb, Result, ok, err, ◌>>=◌, ◌>>◌, raise_if, raise_unless, or_raise, if◌then◌else◌,
  strip, lower, text_eq, update_where,
}
use pro_lens_backend.Config.{Text, Settings, seconds}
use pro_lens_backend.Errors.{Error}
use pro_lens_backend.Enums.{OrgStatus, is_active}
use pro_lens_backend.Model.{Db, User, UserSession, Organization}
use pro_lens_backend.Repositories.{by_id, user_by_id, user_by_email}
use pro_lens_backend.Users.Operations.{revoke}

-- What the code takes from bcrypt, hashlib and the JWT library.
pub record Security : Type 0 where
  pub verify_password : Text → Text → Bool
  pub hash_refresh_token : Text → Text
  pub create_access_token : ℕ → Option ℕ → Text

pub record TokenResponse : Type 0 where
  pub access_token : Text
  pub refresh_token : Text

abbrev pub is_suspended : OrgStatus → Bool
is_suspended OrgStatus.suspended = true
is_suspended OrgStatus.active = false

abbrev pub organization_usable : Option Organization → Bool
organization_usable none = false
organization_usable (some o) = is_none o.deleted_at && not (is_suspended o.status)

-- `is_account_usable`: the organization counts only if the user has one.
abbrev pub in_usable_organization : Option ℕ → Option Organization → Bool
in_usable_organization none o = true
in_usable_organization (some _) o = organization_usable o

unfoldable pub is_account_usable : User → Option Organization → Bool
is_account_usable user o =
    is_none user.deleted_at
    && is_active user.status
    && in_usable_organization user.organization_id o

abbrev pub organization_of : Option ℕ → Db → Option Organization
organization_of none db = none
organization_of (some k) db = by_id (λ (o : Organization). o.id) k db.organizations

-- `_is_usable`
unfoldable pub is_usable : User → Db → Bool
unfolding is_account_usable
is_usable user db = is_account_usable user (organization_of user.organization_id db)

-- `issue_tokens`, with the id of the session and the token that `secrets` draws.
unfoldable pub issue_tokens : Settings → Security → ℕ → Text → ℕ → User → Db → TokenResponse × Db
issue_tokens s x session_id token now user db = (
  record {
    access_token = x.create_access_token user.id user.organization_id;
    refresh_token = token;
  },
  record db {
    sessions =
        db.sessions
        ++ record {
          id = session_id;
          user_id = user.id;
          refresh_token_hash = x.hash_refresh_token token;
          expires_at = now + seconds (s.refresh_token_expire_days * 86_400);
          revoked_at = none;
          created_at = now;
        }
          ∷ [];
  },
)

-- An unknown address and an account without a password take the time of a real check, and end alike.
unfoldable pub login :
    Settings → Security → ℕ → Text → ℕ → Text → Text → Db → Result (TokenResponse × Db)
unfolding is_usable issue_tokens
login s x session_id token now email password db = do
  user ← or_raise (user_by_email (lower (strip email)) db) Error.invalid_credentials
  hash ← or_raise user.password_hash Error.invalid_credentials
  raise_unless (x.verify_password password hash) Error.invalid_credentials
  raise_unless (is_none user.deleted_at) Error.invalid_credentials
  raise_unless (is_usable user db) Error.inactive_account
  ok (issue_tokens s x session_id token now user db)

unfoldable pub get_by_refresh_token_hash : Text → List UserSession → Option UserSession
get_by_refresh_token_hash hash = find (λ (s : UserSession). text_eq s.refresh_token_hash hash)

-- `None` for a missing session, a revoked one and an expired one.
abbrev pub usable_session : ℕ → Option UserSession → Option UserSession
usable_session now none = none
usable_session now (some s) =
    if is_none s.revoked_at then (if ltb s.expires_at now then none else some s) else none

-- `_get_active_session`
unfoldable pub get_active_session : Security → ℕ → Text → Db → Option UserSession
unfolding get_by_refresh_token_hash
get_active_session x now token db =
    usable_session now (get_by_refresh_token_hash (x.hash_refresh_token token) db.sessions)

unfoldable pub revoke_session : ℕ → UserSession → Db → Db
revoke_session now session db = record db {
  sessions = update_where (λ (s : UserSession). s.id == session.id) (revoke now) db.sessions;
}

abbrev pub usable_user : Option User → Db → Option User
usable_user none db = none
usable_user (some u) db = if is_usable u db then some u else none

-- The session is revoked whether or not its user may go on; the route commits both.
abbrev pub refresh_for :
    Settings → Security → ℕ → Text → ℕ → Option User → Db → Result TokenResponse × Db
refresh_for s x session_id token now none db = (err Error.invalid_refresh_token, db)
refresh_for s x session_id token now (some user) db =
    let (tokens, db') = issue_tokens s x session_id token now user db in (ok tokens, db')

abbrev pub refresh_session :
    Settings → Security → ℕ → Text → ℕ → Option UserSession → Db → Result TokenResponse × Db
refresh_session s x session_id token now none db = (err Error.invalid_refresh_token, db)
refresh_session s x session_id token now (some session) db =
    refresh_for s x session_id token now (usable_user (user_by_id session.user_id db) db)
      (revoke_session now session db)

-- `refresh`: what it returns or raises, and what is committed.
unfoldable pub refresh : Settings → Security → ℕ → Text → ℕ → Text → Db → Result TokenResponse × Db
unfolding get_active_session
refresh s x session_id token now refresh_token db =
    refresh_session s x session_id token now (get_active_session x now refresh_token db) db

abbrev pub logout_session : ℕ → Option UserSession → Db → Db
logout_session now none db = db
logout_session now (some session) db = revoke_session now session db

unfoldable pub logout : Security → ℕ → Text → Db → Db
unfolding get_active_session
logout x now refresh_token db = logout_session now (get_active_session x now refresh_token db) db
