-- ===== src/Auth/Tests.antt =====
-- Sessions at the sample database, with hashes that are the tokens themselves.
use pro_lens_backend.Base.{
  some, ok, text_eq, true, none, [], ◌∷◌, ◌≡◌, arith, refl, Ensures, strip, lower, err,
}
use pro_lens_backend.Config.{Text, default_settings}
use pro_lens_backend.Errors.{Error}
use pro_lens_backend.Enums.{OrgStatus, UserRole}
use pro_lens_backend.Model.{Db, UserSession}
use pro_lens_backend.Model.Samples.{database, person}
use pro_lens_backend.Repositories.{user_by_email}
use pro_lens_backend.Auth.{
  Security, get_active_session, refresh, logout, login, issue_tokens, is_usable, is_account_usable,
}
use pro_lens_backend.Auth.Sessions.{refresh_once, refresh-logout}
use pro_lens_backend.Auth.Logins.{LoggedInBy, login-LoggedIn, failed_logins_agree}

abbrev pub security : Security
security = record {
  verify_password = λ _ _. true;
  hash_refresh_token = λ t. t;
  create_access_token = λ _ _. [];
}

abbrev token : Text
token = b't' ∷ []

abbrev session : UserSession
session = record {
  id = 90;
  user_id = 1;
  refresh_token_hash = token;
  expires_at = 1000;
  revoked_at = none;
  created_at = 0;
}

abbrev pub db : Db
db = record (database [] []) {
  organizations =
      record {
        id = 1;
        name = [];
        domain = [];
        status = OrgStatus.active;
        deleted_at = none;
        deleted_by = none;
      }
      ∷ [];
  sessions = session ∷ [];
}

abbrev next_token : Text
next_token = b'u' ∷ []

refresh_once_example :
    let db' = (refresh default_settings security 91 next_token 500 token db).1 in
    (get_active_session security 600 token db' ≡ none)
    × (refresh default_settings security 92 [] 600 token db'
        ≡ (err Error.invalid_refresh_token, db'))
refresh_once_example =
    refresh_once default_settings security 91 92 next_token [] 500 600 token db (omega arith)

refresh-logout_example :
    (get_active_session security 600 token (logout security 500 token db) ≡ none)
    × (refresh default_settings security 92 [] 600 token (logout security 500 token db)
        ≡ (err Error.invalid_refresh_token, logout security 500 token db))
refresh-logout_example =
    refresh-logout default_settings security 92 [] 500 600 token db (omega arith)

-- User 1 with a password, which is compared as it is
abbrev comparing : Security
comparing = record security { verify_password = text_eq }

abbrev with_password : Db
with_password = record db {
  users = record (person 1 UserRole.admin) { password_hash = some (b'p' ∷ []) } ∷ [];
}

logged_in :
    login default_settings comparing 91 token 500 [] (b'p' ∷ []) with_password
    ≡ ok (
        issue_tokens default_settings comparing 91 token 500
          (record (person 1 UserRole.admin) { password_hash = some (b'p' ∷ []) })
          with_password)
unfolding login text_eq user_by_email is_usable is_account_usable strip lower
logged_in = refl

login-LoggedIn_example :
    Ensures
      (LoggedInBy default_settings comparing 500 [] (b'p' ∷ []) with_password)
      (login default_settings comparing 91 token 500 [] (b'p' ∷ []) with_password)
login-LoggedIn_example =
    login-LoggedIn default_settings comparing 91 token 500 [] (b'p' ∷ []) with_password

-- A wrong password, and no user at all
failed_logins_agree_example :
    (login default_settings comparing 91 token 500 [] (b'q' ∷ []) with_password
      ≡ login default_settings comparing 91 token 500 [] (b'q' ∷ []) (record db { users = [] }))
    × (login default_settings comparing 91 token 500 [] (b'q' ∷ []) with_password
        ≡ err Error.invalid_credentials)
unfolding text_eq user_by_email strip lower
failed_logins_agree_example =
    failed_logins_agree default_settings comparing 91 token 500 [] (b'q' ∷ []) with_password
      (record db { users = [] }) refl refl
