-- ===== src/Sso/Connections.antt =====
-- app/services/sso_connection_services.py
use pro_lens_backend.Base.{
  ℕ, ◌+◌, Bool, false, Option, none, some, List, [], ◌∷◌, ◌++◌, ◌==◌, ◌||◌, not, is_none, same_id,
  any, find, length, Result, ok, ◌>>=◌, ◌>>◌, raise_if, raise_unless, or_raise, select,
  update_where, if◌then◌else◌, text_eq,
}
use pro_lens_backend.Config.{Text}
use pro_lens_backend.Errors.{Error, Violation}
use pro_lens_backend.Enums.{UserRole, UserStatus, SsoProvider, is_super_admin, is_azure_ad}
use pro_lens_backend.Model.{Db, User, SsoConnection}
use pro_lens_backend.Members.{violates_designation_check}
use pro_lens_backend.Organizations.Designations.{assert_same_organization}
use pro_lens_backend.Sso.{connection_by_org, connection_by_id, first_text, user_by_subject}
use pro_lens_backend.Sso.Tokens.{get_sso_client, present, same_text}

pub record SsoConnectionCreate : Type 0 where
  pub organization_id : Option ℕ
  pub provider : SsoProvider

-- The credentials of the settings
pub record VendorCredentials : Type 0 where
  pub client_id : SsoProvider → Text
  pub client_secret : SsoProvider → Text

-- `_resolve_organization_id`
unfoldable pub connection_organization : User → Option ℕ → Result ℕ
connection_organization caller organization_id =
    if is_super_admin caller.role
    then or_raise organization_id Error.organization_id_required
    else (do
      raise_unless (is_none organization_id || same_id organization_id caller.organization_id)
          Error.cross_organization_forbidden
      or_raise caller.organization_id Error.organization_id_required)

-- The query keeps the unique constraint on the organization.
unfoldable pub create_connection :
    VendorCredentials → ℕ → User → SsoConnectionCreate → Db → Result (SsoConnection × Db)
unfolding connection_organization connection_by_org
create_connection v new_id caller payload db = do
  org ← connection_organization caller payload.organization_id
  raise_unless (is_none (connection_by_org org db)) Error.sso_connection_already_exists
  let connection : SsoConnection = record {
    id = new_id;
    organization_id = org;
    provider = some payload.provider;
    tenant_id = none;
    client_id = v.client_id payload.provider;
    client_secret = v.client_secret payload.provider;
  }
  ok (connection, record db { sso_connections = db.sso_connections ++ connection ∷ [] })

unfoldable pub delete_connection : User → ℕ → Db → Result Db
unfolding connection_by_id
delete_connection caller connection_id db = do
  connection ← or_raise (connection_by_id connection_id db) Error.sso_connection_not_found
  assert_same_organization caller (some connection.organization_id)
  ok (record db {
    sso_connections =
        select (λ (c : SsoConnection). not (c.id == connection.id)) db.sso_connections;
  })

-- An entry of the directory
pub record DirectoryUser : Type 0 where
  pub id : Option Text
  pub mail : Option Text
  pub user_principal_name : Option Text
  pub given_name : Option Text
  pub surname : Option Text

pub record SsoSyncResult : Type 0 where
  pub total_fetched : ℕ
  pub created : ℕ
  pub updated : ℕ

-- The state of the loop: the counts, the rows that the session changed, and those it will insert.
pub record Sync : Type 0 where
  pub created : ℕ
  pub updated : ℕ
  pub users : List User
  pub added : List User

-- The address is compared as it is written.
abbrev pub user_by_exact_email : Text → List User → Option User
user_by_exact_email email = find (λ (u : User). text_eq u.email email)

abbrev pub directory_user : ℕ → ℕ → Text → Text → DirectoryUser → User
directory_user new_id org email subject_id entry = record {
  id = new_id;
  organization_id = some org;
  designation_id = none;
  email = email;
  password_hash = none;
  sso_subject_id = some subject_id;
  first_name = entry.given_name;
  last_name = entry.surname;
  role = UserRole.employee;
  status = UserStatus.active;
  deleted_at = none;
  deleted_by = none;
}

abbrev pub refresh_user : Text → DirectoryUser → User → User
refresh_user subject_id entry u = record u {
  sso_subject_id = some subject_id;
  first_name = first_text (present entry.given_name) u.first_name;
  last_name = first_text (present entry.surname) u.last_name;
}

abbrev pub touch : Text → DirectoryUser → User → Sync → Sync
touch subject_id entry u st = record st {
  updated = st.updated + 1;
  users = update_where (λ (x : User). x.id == u.id) (refresh_user subject_id entry) st.users;
}

abbrev pub insert_user : ℕ → ℕ → Text → Text → DirectoryUser → Sync → Sync
insert_user new_id org email subject_id entry st = record st {
  created = st.created + 1;
  added = st.added ++ directory_user new_id org email subject_id entry ∷ [];
}

-- By the address: an account of another organization is skipped.
abbrev pub sync_by_email : ℕ → ℕ → Text → Text → DirectoryUser → Option User → Sync → Sync
sync_by_email new_id org email subject_id entry none st =
    insert_user new_id org email subject_id entry st
sync_by_email new_id org email subject_id entry (some u) st =
    if is_none u.organization_id || same_id u.organization_id (some org)
    then touch subject_id entry u st
    else st

abbrev pub sync_known : ℕ → ℕ → Text → Text → DirectoryUser → Option User → List User → Sync → Sync
sync_known new_id org email subject_id entry (some u) stored st = touch subject_id entry u st
sync_known new_id org email subject_id entry none stored st =
    sync_by_email new_id org email subject_id entry (user_by_exact_email email stored) st

-- An entry without an id or an address is skipped.
abbrev pub sync_entry : ℕ → ℕ → DirectoryUser → Option Text → Option Text → List User → Sync → Sync
sync_entry new_id org entry (some subject_id) (some email) stored st =
    sync_known new_id org email subject_id entry (user_by_subject subject_id stored) stored st
sync_entry new_id org entry _ _ stored st = st

-- The loop of `_upsert_users_from_directory`. The session does not flush by itself, so each query sees
-- the users as they were stored.
unfoldable pub upsert_users : (ℕ → ℕ) → ℕ → List User → ℕ → List DirectoryUser → Sync → Sync
unfolding user_by_subject
upsert_users user_id org stored n [] st = st
upsert_users user_id org stored n (entry ∷ entries) st =
    upsert_users user_id org stored (n + 1) entries (
      sync_entry (user_id n) org entry (present entry.id)
        (present (first_text (present entry.mail) entry.user_principal_name)) stored st)

-- The unique constraint on `sso_subject_id`, which the updates of stored users may meet.
abbrev pub shares_subject : Option Text → User → Bool
shares_subject none u = false
shares_subject (some t) u = same_text u.sso_subject_id t

abbrev pub duplicate_subjects : List User → Bool
duplicate_subjects [] = false
duplicate_subjects (u ∷ us) = any (shares_subject u.sso_subject_id) us || duplicate_subjects us

-- `sync_users`, with the commit of the route, which inserts the new users. Only an Azure connection
-- lists its users, and `list_users` is the provider's.
unfoldable pub sync_users :
    (SsoConnection → Result (List DirectoryUser))
    → (ℕ → ℕ)
    → User
    → ℕ
    → Db
    → Result (SsoSyncResult × Db)
unfolding connection_by_id upsert_users
sync_users list_users user_id caller connection_id db = do
  connection ← or_raise (connection_by_id connection_id db) Error.sso_connection_not_found
  assert_same_organization caller (some connection.organization_id)
  get_sso_client connection
  raise_unless (is_azure_ad connection.provider) Error.unsupported_sso_provider
  entries ← list_users connection
  let st =
      upsert_users user_id connection.organization_id db.users 0 entries
        (record { created = 0; updated = 0; users = db.users; added = [] })
  raise_if (duplicate_subjects st.users) (Error.integrity_error Violation.unique)
  raise_if (any violates_designation_check st.added) (Error.integrity_error Violation.check)
  ok (
    record { total_fetched = length entries; created = st.created; updated = st.updated },
    record db { users = st.users ++ st.added },
  )
