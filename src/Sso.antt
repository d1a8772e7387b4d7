-- ===== src/Sso.antt =====
-- app/services/sso_service.py with app/repositories/sso_repository.py, app/core/sso_clients.py and the
-- checks of app/core/azure_ad.py.
pub mod Tokens
pub mod Verified
pub mod Connections
pub mod Logins
mod Tests
use pro_lens_backend.Base.{
  ℕ, Bool, true, false, Option, none, some, List, [], ◌∷◌, ◌++◌, ◌==◌, ◌&&◌, ◌||◌, not, is_none,
  same_id, any, find, Result, ok, err, ◌>>=◌, ◌>>◌, raise_if, raise_unless, or_raise, update_where,
  if◌then◌else◌, text_eq,
}
use pro_lens_backend.Config.{Text, Settings}
use pro_lens_backend.Errors.{Error}
use pro_lens_backend.Enums.{UserRole, UserStatus, SsoProvider, is_azure_ad, is_active, is_invited}
use pro_lens_backend.Model.{Db, User, Organization, SsoConnection}
use pro_lens_backend.Repositories.{by_id, user_by_email}
use pro_lens_backend.Members.{add_user}
use pro_lens_backend.Auth.{Security, TokenResponse, issue_tokens}
use pro_lens_backend.Organizations.Designations.{assert_same_organization}
use pro_lens_backend.Sso.Tokens.{
  Claims, StatePayload, IdentityProvider, get_sso_client, present, other_tenant, same_text,
  decode_id_token, claims_of,
}

-- `get_connection_by_domain`: the domain as it is written, of any organization.
abbrev pub has_domain : Text → List Organization → SsoConnection → Bool
has_domain domain organizations c =
    any (λ (o : Organization). o.id == c.organization_id && text_eq o.domain domain) organizations

unfoldable pub connection_by_domain : Text → Db → Option SsoConnection
connection_by_domain domain db = find (has_domain domain db.organizations) db.sso_connections

unfoldable pub connection_by_org : ℕ → Db → Option SsoConnection
connection_by_org org db = find (λ (c : SsoConnection). c.organization_id == org) db.sso_connections

unfoldable pub connection_by_id : ℕ → Db → Option SsoConnection
connection_by_id k db = by_id (λ (c : SsoConnection). c.id) k db.sso_connections

abbrev pub not_configured : SsoConnection → Bool
not_configured c = is_azure_ad c.provider && is_none c.tenant_id

-- `authorize`: the connection that the address of the login is built for.
unfoldable pub authorize : Text → Db → Result SsoConnection
unfolding connection_by_domain
authorize host db = do
  connection ← or_raise (connection_by_domain host db) Error.no_sso_connection
  raise_if (not_configured connection) Error.sso_connection_not_configured
  get_sso_client connection
  ok connection

unfoldable pub authorize_discovery : ℕ → User → Db → Result SsoConnection
unfolding connection_by_id
authorize_discovery connection_id caller db = do
  connection ← or_raise (connection_by_id connection_id db) Error.sso_connection_not_found
  assert_same_organization caller (some connection.organization_id)
  raise_unless (is_azure_ad connection.provider) Error.value_error
  ok connection

-- `a or b`
abbrev pub first_text : Option Text → Option Text → Option Text
first_text none b = b
first_text (some a) b = some a

unfoldable pub user_by_subject : Text → List User → Option User
user_by_subject subject_id = find (λ (u : User). same_text u.sso_subject_id subject_id)

-- An account of another organization does not count.
abbrev pub own_match : ℕ → Option User → Option User
own_match org none = none
own_match org (some u) =
    if is_none u.organization_id || same_id u.organization_id (some org) then some u else none

abbrev pub known_user : ℕ → Text → Option User → Db → Option User
known_user org email (some u) db = some u
known_user org email none db = own_match org (user_by_email email db)

abbrev pub new_sso_user : ℕ → ℕ → Text → Text → Claims → User
new_sso_user new_id org email subject_id claims = record {
  id = new_id;
  organization_id = some org;
  designation_id = none;
  email = email;
  password_hash = none;
  sso_subject_id = some subject_id;
  first_name = claims.given_name;
  last_name = claims.family_name;
  role = UserRole.employee;
  status = UserStatus.active;
  deleted_at = none;
  deleted_by = none;
}

abbrev pub link_user : Text → User → User
link_user subject_id u = record u {
  sso_subject_id = some subject_id;
  status = if is_invited u.status then UserStatus.active else u.status;
}

-- The account that the claims belong to, made if there is none.
unfoldable pub linked_user : ℕ → ℕ → Text → Text → Claims → Option User → Db → Result (User × Db)
linked_user new_id org email subject_id claims none db = do
  db' ← add_user (new_sso_user new_id org email subject_id claims) db
  ok (new_sso_user new_id org email subject_id claims, db')
linked_user new_id org email subject_id claims (some u) db = ok (
  link_user subject_id u,
  record db { users = update_where (λ (x : User). x.id == u.id) (link_user subject_id) db.users },
)

unfoldable pub complete_login :
    Settings
    → Security
    → IdentityProvider
    → ℕ
    → ℕ
    → Text
    → ℕ
    → Text
    → StatePayload
    → Db
    → Result (TokenResponse × Db)
unfolding connection_by_org claims_of user_by_subject linked_user
complete_login s x idp user_id session_id token now code state db = do
  org ← or_raise state.org_id Error.key_error
  connection ← or_raise (connection_by_org org db) Error.no_sso_connection
  raise_if (not_configured connection) Error.sso_connection_not_configured
  claims ← claims_of idp connection code state
  subject_id ← or_raise claims.oid Error.key_error
  email ←
      or_raise (present (first_text (present claims.email) claims.preferred_username))
        Error.missing_email_claim
  r ←
      linked_user user_id org email subject_id claims
        (known_user org email (user_by_subject subject_id db.users) db) db
  raise_unless (is_active (r.0).status) Error.inactive_account
  ok (issue_tokens s x session_id token now r.0 r.1)

unfoldable pub complete_discovery : IdentityProvider → Text → StatePayload → Db → Result Db
unfolding connection_by_id claims_of
complete_discovery idp code state db = do
  connection_id ← or_raise state.connection_id Error.key_error
  connection ← or_raise (connection_by_id connection_id db) Error.sso_connection_not_found
  claims ← claims_of idp connection code state
  tid ← or_raise claims.tid Error.key_error
  ok (record db {
    sso_connections =
        update_where (λ (c : SsoConnection). c.id == connection.id)
          (λ (c : SsoConnection). record c { tenant_id = some tid }) db.sso_connections;
  })

-- The two ways on, by the purpose of the state
unfoldable pub finish_callback :
    Settings
    → Security
    → IdentityProvider
    → ℕ
    → ℕ
    → Text
    → ℕ
    → Text
    → Bool
    → StatePayload
    → Db
    → Result (Option TokenResponse × Db)
unfolding complete_login complete_discovery
finish_callback s x idp user_id session_id token now code true payload db = do
  db' ← complete_discovery idp code payload db
  ok (none, db')
finish_callback s x idp user_id session_id token now code false payload db = do
  r ← complete_login s x idp user_id session_id token now code payload db
  ok (some r.0, r.1)

unfoldable pub callback :
    Settings
    → Security
    → IdentityProvider
    → ℕ
    → ℕ
    → Text
    → ℕ
    → Text
    → Text
    → Db
    → Result (Option TokenResponse × Db)
unfolding finish_callback
callback s x idp user_id session_id token now code state db = do
  payload ← or_raise (idp.read_state state) Error.invalid_sso_state
  finish_callback s x idp user_id session_id token now code payload.discovers payload db
