-- ===== src/Sso/Tests.antt =====
-- Single sign-on on small inputs, and the witness.
use pro_lens_backend.Base.{
  none, some, [], ◌∷◌, ◌≡◌, refl, ok, err, Result, true, false, Ensures, text_eq, lower, strip,
}
use pro_lens_backend.Config.{Text, default_settings}
use pro_lens_backend.Errors.{Error, Violation}
use pro_lens_backend.Enums.{UserRole, SsoProvider}
use pro_lens_backend.Model.{Db, User, SsoConnection}
use pro_lens_backend.Model.Samples.{person, database}
use pro_lens_backend.Repositories.{user_by_email}
use pro_lens_backend.Members.{add_user}
use pro_lens_backend.Auth.{Security, TokenResponse, issue_tokens}
use pro_lens_backend.Organizations.Designations.{assert_same_organization}
use pro_lens_backend.Sso.{complete_login}
use pro_lens_backend.Sso.Tokens.{IdentityProvider, StatePayload, Claims}
use pro_lens_backend.Sso.Connections.{DirectoryUser, sync_users}
use pro_lens_backend.Sso.Logins.{SsoLoggedInBy, complete_login-SsoLoggedIn}

abbrev claims : Text → Claims
claims subject = record {
  oid = some subject;
  tid = some (7 ∷ []);
  nonce = some (8 ∷ []);
  email = some (97 ∷ []);
  preferred_username = none;
  given_name = none;
  family_name = none;
}

abbrev idp : Text → IdentityProvider
idp subject = record {
  read_state = λ s. none;
  exchange_code = λ c code verifier. ok [];
  unverified_claims = λ token. ok (claims subject);
  verified_claims = λ c tid token. ok (claims subject);
}

abbrev security : Security
security = record {
  verify_password = λ a b. true;
  hash_refresh_token = λ t. t;
  create_access_token = λ u o. u ∷ [];
}

abbrev connection : SsoProvider → SsoConnection
connection provider = record {
  id = 80;
  organization_id = 1;
  provider = some provider;
  tenant_id = some (7 ∷ []);
  client_id = [];
  client_secret = [];
}

abbrev state : StatePayload
state = record {
  discovers = false;
  org_id = some 1;
  connection_id = none;
  nonce = some (8 ∷ []);
  code_verifier = some [];
}

abbrev known : User
known = record (person 2 UserRole.employee) { sso_subject_id = some (5 ∷ []) }

abbrev company : SsoProvider → Db
company provider = record (database [] []) {
  users = known ∷ [];
  sso_connections = connection provider ∷ [];
}

abbrev login_as : SsoProvider → Text → Result (TokenResponse × Db)
unfolding complete_login
login_as provider subject =
    complete_login default_settings security (idp subject) 90 91 [] 0 [] state (company provider)

logged_in :
    login_as SsoProvider.azure_ad (5 ∷ [])
    ≡ ok (issue_tokens default_settings security 91 [] 0 known (company SsoProvider.azure_ad))
unfolding login_as text_eq
logged_in = refl

-- Nobody can log in for the first time without an account: the new employee has no designation.
first_login : login_as SsoProvider.azure_ad (6 ∷ []) ≡ err (Error.integrity_error Violation.check)
unfolding login_as text_eq lower strip user_by_email add_user
first_login = refl

-- And nobody at all through Google.
google_login : login_as SsoProvider.google (5 ∷ []) ≡ err Error.type_error
unfolding login_as
google_login = refl

-- An account that was deleted still gets tokens: only its status is asked.
abbrev deleted : User
deleted = record known { deleted_at = some 1 }

abbrev after_deletion : Db
after_deletion = record (company SsoProvider.azure_ad) { users = deleted ∷ [] }

deleted_login :
    complete_login default_settings security (idp (5 ∷ [])) 90 91 [] 0 [] state after_deletion
    ≡ ok (issue_tokens default_settings security 91 [] 0 deleted after_deletion)
unfolding complete_login text_eq
deleted_login = refl

complete_login-SsoLoggedIn_example :
    Ensures (SsoLoggedInBy security (idp (5 ∷ [])) [] state (company SsoProvider.azure_ad)) (
      complete_login default_settings security
        (idp (5 ∷ []))
        90
        91
        []
        0
        []
        state
        (company SsoProvider.azure_ad))
complete_login-SsoLoggedIn_example =
    complete_login-SsoLoggedIn default_settings security (idp (5 ∷ [])) 90 91 [] 0 [] state
      (company SsoProvider.azure_ad)

abbrev entry : DirectoryUser
entry = record {
  id = some (5 ∷ []);
  mail = some (97 ∷ []);
  user_principal_name = none;
  given_name = some (66 ∷ []);
  surname = none;
}

synced :
    sync_users
      (λ c. ok (entry ∷ []))
      (λ n. n)
      (person 1 UserRole.admin)
      80
      (company SsoProvider.azure_ad)
    ≡ ok (
      record { total_fetched = 1; created = 0; updated = 1 },
      record (company SsoProvider.azure_ad) {
        users = record known { first_name = some (66 ∷ []) } ∷ [];
      },
    )
unfolding sync_users text_eq assert_same_organization
synced = refl
