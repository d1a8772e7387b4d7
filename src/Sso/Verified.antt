-- ===== src/Sso/Verified.antt =====
-- What the claims of a login rest on.
use pro_lens_backend.Base.{
  true, false, some, ◌≡◌, ok, Ensures, returns, Ensures-bind, Ensures-map, Ensures-or_raise,
  Ensures-raise_if, Ensures-raise_unless,
}
use pro_lens_backend.Config.{Text}
use pro_lens_backend.Enums.{is_azure_ad}
use pro_lens_backend.Model.{SsoConnection}
use pro_lens_backend.Sso.Tokens.{
  IdentityProvider, StatePayload, Claims, get_sso_client, present, other_tenant, same_text,
  decode_id_token, claims_of,
}

-- Claims that the provider of an Azure connection verified, of the token that the code was exchanged
-- for, against a tenant that is the connection's own if it is pinned to one, with the nonce of the state.
pub record Verified (idp : IdentityProvider) (connection : SsoConnection) (code : Text)
    (state : StatePayload) (claims : Claims) : Type 0 where
  pub verifier : Text
  pub token : Text
  pub tid : Text
  pub nonce : Text
  pub azure : is_azure_ad connection.provider ≡ true
  pub kept_verifier : state.code_verifier ≡ some verifier
  pub exchanged : idp.exchange_code connection code verifier ≡ ok token
  pub own_tenant : other_tenant (present connection.tenant_id) tid ≡ false
  pub verified : idp.verified_claims connection tid token ≡ ok claims
  pub asked : state.nonce ≡ some nonce
  pub answered : same_text claims.nonce nonce ≡ true

-- The last call, which checks the token.
abbrev Decoded : IdentityProvider → SsoConnection → Text → Text → Claims → Type 0
Decoded idp connection token nonce claims =
    (tid : Text) × (other_tenant (present connection.tenant_id) tid ≡ false)
    × (idp.verified_claims connection tid token ≡ ok claims)
    × (same_text claims.nonce nonce ≡ true)

decode_id_token-Decoded :
    (idp : IdentityProvider) (connection : SsoConnection) (token nonce : Text)
    → Ensures (Decoded idp connection token nonce) (decode_id_token idp connection token nonce)
unfolding decode_id_token
decode_id_token-Decoded idp connection token nonce =
    let P = Decoded idp connection token nonce in
    Ensures-bind P (idp.unverified_claims token) _ λ unverified read.
      Ensures-or_raise P (present unverified.tid) _ _ λ tid named.
        Ensures-raise_if P (other_tenant (present connection.tenant_id) tid) _ _ λ own.
          Ensures-bind P (idp.verified_claims connection tid token) _ λ claims verified.
            Ensures-raise_unless P (same_text claims.nonce nonce) _ _
              λ answered. returns (tid, own, verified, answered)

pub claims_of-Verified :
    (idp : IdentityProvider) (connection : SsoConnection) (code : Text) (state : StatePayload)
    → Ensures (Verified idp connection code state) (claims_of idp connection code state)
unfolding claims_of
claims_of-Verified idp connection code state =
    let P = Verified idp connection code state in
    Ensures-bind P (get_sso_client connection) _ λ u known.
      Ensures-or_raise P state.code_verifier _ _ λ verifier kept.
        Ensures-bind P (idp.exchange_code connection code verifier) _ λ token exchanged.
          Ensures-or_raise P state.nonce _ _ λ nonce asked.
            Ensures-raise_unless P (is_azure_ad connection.provider) _ _ λ azure.
              Ensures-map (Decoded idp connection token nonce) P
                (λ claims decoded. record {
                  verifier = verifier;
                  token = token;
                  tid = decoded.0;
                  nonce = nonce;
                  azure = azure;
                  kept_verifier = kept;
                  exchanged = exchanged;
                  own_tenant = decoded.1;
                  verified = decoded.2;
                  asked = asked;
                  answered = decoded.3;
                })
                (decode_id_token-Decoded idp connection token nonce)
