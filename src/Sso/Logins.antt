-- ===== src/Sso/Logins.antt =====
-- What a login through single sign-on does when it returns.
use mathlib.Core.Path.{subst}
use pro_lens_backend.Base.{
  ◌⊎◌, same_id-eq, Option-cases, Bool-cases, inl, inr, ap, ◌∙◌, same_id, ◌||◌, ℕ, Bool, true, false,
  Option, none, some, List, [], ◌∷◌, ◌==◌, is_none, ◌≡◌, refl, arith, ok, Ensures, returns, raises,
  Ensures-bind, Ensures-or_raise, Ensures-raise_if, Ensures-raise_unless, Ensures-ok, raise_unless,
  update_where, length, ◌>>=◌, ◌>>◌,
}
use pro_lens_backend.Config.{Text, Settings}
use pro_lens_backend.Errors.{Error}
use pro_lens_backend.Enums.{is_active}
use pro_lens_backend.Model.{Db, User, SsoConnection}
use pro_lens_backend.Members.{add_user}
use pro_lens_backend.Auth.{Security, TokenResponse, issue_tokens}
use pro_lens_backend.Repositories.{user_by_email}
use pro_lens_backend.Sso.Verified.{Verified, claims_of-Verified}
use pro_lens_backend.Sso.{
  own_match, complete_login, connection_by_org, user_by_subject, known_user, linked_user, link_user,
  first_text, not_configured,
}
use pro_lens_backend.Sso.Tokens.{IdentityProvider, StatePayload, Claims, claims_of, present}

length-update_where {ℓ} :
    {A : Type ℓ} (p : A → Bool) (f : A → A) (xs : List A) → length (update_where p f xs) ≡ length xs
length-update_where p f [] = refl
length-update_where p f (x ∷ xs) = omega (arith, length-update_where p f xs)

-- The account that claims belong to: the one with their subject, or, if there is none, the one with
-- their email, if it has no other organization.
abbrev pub KnownAs : ℕ → Text → Text → Db → User → Type 0
KnownAs org email subject_id db u =
    (user_by_subject subject_id db.users ≡ some u)
    ⊎ ((user_by_subject subject_id db.users ≡ none)
        × (user_by_email email db ≡ some u)
        × ((u.organization_id ≡ none) ⊎ (u.organization_id ≡ some org)))

own_organization :
    (org : ℕ) (o : Option ℕ)
    → (is_none o || same_id o (some org)) ≡ true
    → (o ≡ none) ⊎ (o ≡ some org)
own_organization org none h = inl refl
own_organization org (some k) h = inr (same_id-eq (some k) (some org) h)

own_match-some :
    (org : ℕ) (found : Option User) {u : User}
    → own_match org found ≡ some u
    → (found ≡ some u) × ((u.organization_id ≡ none) ⊎ (u.organization_id ≡ some org))
own_match-some org none h = cc
own_match-some org (some x) {u} h =
    elim (Bool-cases (is_none x.organization_id || same_id x.organization_id (some org))) [
      | inl own ↦
          let same : x ≡ u = ground arith in
          (
            ap some same,
            subst (λ (y : User). (y.organization_id ≡ none) ⊎ (y.organization_id ≡ some org)) same
                (own_organization org x.organization_id own),
          )
      | inr foreign ↦ let no_match : ⊥ = ground arith in absurd no_match
    ]

known_user-KnownAs :
    (org : ℕ) (email subject_id : Text) (db : Db) {u : User}
    → known_user org email (user_by_subject subject_id db.users) db ≡ some u
    → KnownAs org email subject_id db u
known_user-KnownAs org email subject_id db {u} h =
    elim (Option-cases (user_by_subject subject_id db.users)) [
      | inl unknown ↦
          let matched : own_match org (user_by_email email db) ≡ some u = rw unknown at h in
          let found = own_match-some org (user_by_email email db) matched in
          inr (unknown, found.0, found.1)
      | inr (x, known) ↦ let same : some x ≡ some u = rw known at h in inl (known ∙ same)
    ]

-- A login through single sign-on that returned tokens for the account `user`.
pub record SsoLoggedIn (x : Security) (idp : IdentityProvider) (code : Text) (state : StatePayload)
    (db : Db) (tokens : TokenResponse) (db' : Db) : Type 0 where
  pub org : ℕ
  pub email : Text
  pub subject_id : Text
  pub connection : SsoConnection
  pub user : User
  pub of_state : state.org_id ≡ some org
  pub connected : connection_by_org org db ≡ some connection
  pub claims : Claims
  pub verified : Verified idp connection code state claims
  pub subject : claims.oid ≡ some subject_id
  pub address : present (first_text (present claims.email) claims.preferred_username) ≡ some email
  pub configured : is_none connection.tenant_id ≡ false
  pub known : KnownAs org email subject_id db user
  pub active : is_active (link_user subject_id user).status ≡ true
  pub no_new_account : length db'.users ≡ length db.users
  pub for_user : tokens.access_token ≡ x.create_access_token user.id user.organization_id

abbrev pub SsoLoggedInBy :
    Security → IdentityProvider → Text → StatePayload → Db → TokenResponse × Db → Type 0
SsoLoggedInBy x idp code state db r = SsoLoggedIn x idp code state db r.0 r.1

-- The last steps, for an account that is known and for one that is not: a new account would be an
-- employee without a designation.
module _ (s : Settings) (x : Security) (idp : IdentityProvider) (code : Text)
    (user_id session_id : ℕ) (token : Text) (now : ℕ) (state : StatePayload) (db : Db) (org : ℕ)
    (email subject_id : Text) (claims : Claims) (connection : SsoConnection)
    (of_state : state.org_id ≡ some org) (connected : connection_by_org org db ≡ some connection)
    (verified : Verified idp connection code state claims) (subject : claims.oid ≡ some subject_id)
    (address : present (first_text (present claims.email) claims.preferred_username) ≡ some email)
    (configured : is_none connection.tenant_id ≡ false) where
  finish-SsoLoggedIn :
      (found : Option User)
      → known_user org email (user_by_subject subject_id db.users) db ≡ found
      → Ensures (SsoLoggedInBy x idp code state db) (
          linked_user user_id org email subject_id claims found db >>= λ r.
          raise_unless (is_active (r.0).status) Error.inactive_account
          >> ok (issue_tokens s x session_id token now r.0 r.1))
  unfolding linked_user add_user issue_tokens
  finish-SsoLoggedIn none unknown = raises
  finish-SsoLoggedIn (some u) known =
      Ensures-raise_unless (SsoLoggedInBy x idp code state db)
        (is_active (link_user subject_id u).status) _ _
        λ active. returns (record {
          org = org;
          email = email;
          subject_id = subject_id;
          connection = connection;
          user = u;
          of_state = of_state;
          connected = connected;
          claims = claims;
          verified = verified;
          subject = subject;
          address = address;
          configured = configured;
          known = known_user-KnownAs org email subject_id db known;
          active = active;
          no_new_account =
              length-update_where (λ (y : User). y.id == u.id) (link_user subject_id) db.users;
          for_user = refl;
        })

-- Whenever a login through single sign-on returns, its state names an organization with a connection,
-- which is an Azure one with a tenant; the claims are verified for that tenant, or for the token's own if
-- the tenant is the wildcard `organizations`, and have the nonce of the state; the account is one that existed, found by the subject of the claims or, if no account has it,
-- by their email, unless it is of another organization; it is active or was invited; no account is made,
-- and the access token is that account's.
pub complete_login-SsoLoggedIn :
    (s : Settings) (x : Security) (idp : IdentityProvider) (user_id session_id : ℕ) (token : Text)
    (now : ℕ) (code : Text) (state : StatePayload) (db : Db)
    → Ensures
        (SsoLoggedInBy x idp code state db)
        (complete_login s x idp user_id session_id token now code state db)
unfolding complete_login
complete_login-SsoLoggedIn s x idp user_id session_id token now code state db =
    let P = SsoLoggedInBy x idp code state db in
    Ensures-or_raise P state.org_id _ _ λ org of_state.
      Ensures-or_raise P (connection_by_org org db) _ _ λ connection connected.
        Ensures-raise_if P (not_configured connection) _ _ λ configured.
          Ensures-bind P (claims_of idp connection code state) _ λ claims made.
            let verified = Ensures-ok _ _ (claims_of-Verified idp connection code state) made in
            Ensures-or_raise P claims.oid _ _ λ subject_id subject.
              Ensures-or_raise P
                (present (first_text (present claims.email) claims.preferred_username)) _ _
                λ email address.
                  finish-SsoLoggedIn s x idp code user_id session_id token now state db org email
                    subject_id claims connection of_state connected verified subject address
                    (ground (arith, configured, verified.azure)) _ refl
