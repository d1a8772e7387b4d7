-- ===== src/Sso/Tokens.antt =====
-- The claims of an ID token: the clients of app/core/sso_clients.py and the checks of
-- app/core/azure_ad.py, with what PyJWT and the identity providers answer as a parameter.
use pro_lens_backend.Base.{
  ◌&&◌, ℕ, Bool, false, Option, none, some, [], ◌∷◌, not, is_none, Result, ok, ◌>>=◌, ◌>>◌,
  raise_if, raise_unless, or_raise, text_eq,
}
use pro_lens_backend.Config.{Text}
use pro_lens_backend.Errors.{Error}
use pro_lens_backend.Enums.{is_azure_ad}
use pro_lens_backend.Model.{SsoConnection}

-- The claims that the code reads of an ID token.
pub record Claims : Type 0 where
  pub oid : Option Text
  pub tid : Option Text
  pub nonce : Option Text
  pub email : Option Text
  pub preferred_username : Option Text
  pub given_name : Option Text
  pub family_name : Option Text

-- The payload of a signed state.
pub record StatePayload : Type 0 where
  pub discovers : Bool
  pub org_id : Option ℕ
  pub connection_id : Option ℕ
  pub nonce : Option Text
  pub code_verifier : Option Text

-- What the code takes from PyJWT and from the identity provider: reading a state, the exchange of a code
-- for an ID token, and the claims of a token, unverified and verified against a tenant.
pub record IdentityProvider : Type 0 where
  pub read_state : Text → Option StatePayload
  pub exchange_code : SsoConnection → Text → Text → Result Text
  pub unverified_claims : Text → Result Claims
  pub verified_claims : SsoConnection → Text → Text → Result Claims

-- `get_sso_client` refuses a connection without a provider.
abbrev pub get_sso_client : SsoConnection → Result (Unit {0})
get_sso_client c = raise_if (is_none c.provider) Error.value_error

-- A text that is there and not empty
abbrev pub present : Option Text → Option Text
present none = none
present (some []) = none
present (some (c ∷ s)) = some (c ∷ s)

-- `"organizations"`, the tenant of a connection that no tenant is pinned to
abbrev pub any_organization : Text
any_organization =
    b'o' ∷ b'r' ∷ b'g' ∷ b'a' ∷ b'n' ∷ b'i' ∷ b'z' ∷ b'a' ∷ b't' ∷ b'i' ∷ b'o' ∷ b'n' ∷ b's' ∷ []

abbrev pub other_tenant : Option Text → Text → Bool
other_tenant none tid = false
other_tenant (some t) tid = not (text_eq t any_organization) && not (text_eq t tid)

abbrev pub same_text : Option Text → Text → Bool
same_text none t = false
same_text (some s) t = text_eq s t

-- `AzureADClient.decode_id_token`. A connection without a tenant, or with the
-- tenant `organizations`, takes a token of any tenant.
unfoldable pub decode_id_token : IdentityProvider → SsoConnection → Text → Text → Result Claims
decode_id_token idp connection token expected_nonce = do
  unverified ← idp.unverified_claims token
  tid ← or_raise (present unverified.tid) Error.value_error
  raise_if (other_tenant (present connection.tenant_id) tid) Error.value_error
  claims ← idp.verified_claims connection tid token
  raise_unless (same_text claims.nonce expected_nonce) Error.value_error
  ok claims

-- The exchange of the code and the claims of its token. `GoogleClient.decode_id_token` takes no
-- `expected_nonce`, so that the call with one is a TypeError.
unfoldable pub claims_of : IdentityProvider → SsoConnection → Text → StatePayload → Result Claims
unfolding decode_id_token
claims_of idp connection code state = do
  get_sso_client connection
  verifier ← or_raise state.code_verifier Error.key_error
  token ← idp.exchange_code connection code verifier
  nonce ← or_raise state.nonce Error.key_error
  raise_unless (is_azure_ad connection.provider) Error.type_error
  decode_id_token idp connection token nonce
