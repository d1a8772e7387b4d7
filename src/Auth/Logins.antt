-- ===== src/Auth/Logins.antt =====
-- What a login needs, and what it leaves.
use pro_lens_backend.Base.{
  ℕ, ◌+◌, ◌*◌, Bool, true, false, Option, none, some, [], ◌∷◌, ◌++◌, ◌≡◌, refl, sym, ◌∙◌, arith,
  inl, inr, ◌&&◌, is_none, strip, lower, Bool-cases, Option-cases, if◌then◌else◌, Result, ok, err,
  Ensures, returns, Ensures-or_raise, Ensures-raise_unless,
}
use pro_lens_backend.Config.{Text, Settings, seconds}
use pro_lens_backend.Errors.{Error}
use pro_lens_backend.Enums.{is_active}
use pro_lens_backend.Model.{Db, User, UserSession}
use pro_lens_backend.Repositories.{user_by_email}
use pro_lens_backend.Auth.{
  Security, TokenResponse, is_usable, is_account_usable, organization_of, in_usable_organization,
  issue_tokens, login,
}

pub record LoggedIn (s : Settings) (x : Security) (now : ℕ) (email password : Text) (db : Db)
    (tokens : TokenResponse) (db' : Db) : Type 0 where
  pub user : User
  pub hash : Text
  pub session : UserSession
  pub found : user_by_email (lower (strip email)) db ≡ some user
  pub has_password : user.password_hash ≡ some hash
  pub verified : x.verify_password password hash ≡ true
  pub not_deleted : is_none user.deleted_at ≡ true
  pub active : is_active user.status ≡ true
  pub organization :
      in_usable_organization user.organization_id (organization_of user.organization_id db) ≡ true
  pub sessions : db'.sessions ≡ db.sessions ++ session ∷ []
  pub of_user : session.user_id ≡ user.id
  pub usable : is_none session.revoked_at ≡ true
  pub expires : session.expires_at ≡ now + seconds (s.refresh_token_expire_days * 86_400)
  pub token : session.refresh_token_hash ≡ x.hash_refresh_token tokens.refresh_token

abbrev pub LoggedInBy : Settings → Security → ℕ → Text → Text → Db → TokenResponse × Db → Type 0
LoggedInBy s x now email password db r = LoggedIn s x now email password db r.0 r.1

-- Whenever a login returns tokens, the address is that of an active user who is not deleted and whose
-- organization, if there is one, is neither deleted nor suspended; the password was verified against
-- the stored hash; and there is one session more, of that user, for the refresh token, which is not
-- revoked and expires after the set number of days.
pub login-LoggedIn :
    (s : Settings) (x : Security) (session_id : ℕ) (token : Text) (now : ℕ) (email password : Text)
    (db : Db)
    → Ensures
        (LoggedInBy s x now email password db)
        (login s x session_id token now email password db)
unfolding login is_usable is_account_usable issue_tokens
login-LoggedIn s x session_id token now email password db =
    let P = LoggedInBy s x now email password db in
    Ensures-or_raise P (user_by_email (lower (strip email)) db) _ _ λ user found.
      Ensures-or_raise P user.password_hash _ _ λ hash has_password.
        Ensures-raise_unless P (x.verify_password password hash) _ _ λ verified.
          Ensures-raise_unless P (is_none user.deleted_at) _ _ λ kept.
            Ensures-raise_unless P
              (is_none user.deleted_at
                && is_active user.status
                && in_usable_organization user.organization_id
                    (organization_of user.organization_id db))
              _ _
              λ usable. returns (record {
                user = user;
                hash = hash;
                session = _;
                found = found;
                has_password = has_password;
                verified = verified;
                not_deleted = kept;
                active = ground arith;
                organization = ground arith;
                sessions = refl;
                of_user = refl;
                usable = refl;
                expires = refl;
                token = refl;
              })

abbrev pub verifies : Security → Text → Option Text → Bool
verifies x password none = false
verifies x password (some hash) = x.verify_password password hash

-- The right password of an account that is not deleted.
abbrev pub has_credentials : Security → Text → User → Bool
has_credentials x password u = verifies x password u.password_hash && is_none u.deleted_at

abbrev pub login_outcome :
    Settings → Security → ℕ → Text → ℕ → Text → Db → Option User → Result (TokenResponse × Db)
login_outcome s x session_id token now password db none = err Error.invalid_credentials
login_outcome s x session_id token now password db (some u) =
    if has_credentials x password u
    then (if is_usable u db
        then ok (issue_tokens s x session_id token now u db)
        else err Error.inactive_account)
    else err Error.invalid_credentials

-- The outcomes of a login by what is known of the account.
login_lem :
    (s : Settings) (x : Security) (session_id : ℕ) (token : Text) (now : ℕ) (email password : Text)
    (db : Db)
    → login s x session_id token now email password db
      ≡ login_outcome s x session_id token now password db (user_by_email (lower (strip email)) db)
unfolding login is_usable is_account_usable
login_lem s x session_id token now email password db =
    elim (Option-cases (user_by_email (lower (strip email)) db)) [
      | inl unknown ↦ simp unknown refl
      | inr (u, found) ↦ elim (Option-cases u.password_hash) [
        | inl no_password ↦ simp (found, no_password) refl
        | inr (hash, stored) ↦ elim (Bool-cases (x.verify_password password hash)) [
          | inr wrong ↦ simp (found, stored, wrong) refl
          | inl right ↦ elim (Bool-cases (is_none u.deleted_at)) [
            | inr deleted ↦ simp (found, stored, right, deleted) refl
            | inl kept ↦
                elim (Bool-cases (
                  is_active u.status
                  && in_usable_organization u.organization_id
                      (organization_of u.organization_id db))) [
                        | inl usable ↦ simp (found, stored, right, kept, usable) refl
                        | inr unusable ↦ simp (found, stored, right, kept, unusable) refl
                      ]
          ]
        ]
      ]
    ]

-- Whether a password is the right one of the account that an address leads to, if there is one
abbrev pub knows_password : Security → Text → Option User → Bool
knows_password x password none = false
knows_password x password (some u) = has_credentials x password u

login-unknown :
    (s : Settings) (x : Security) (session_id : ℕ) (token : Text) (now : ℕ) (email password : Text)
    (db : Db)
    → knows_password x password (user_by_email (lower (strip email)) db) ≡ false
    → login s x session_id token now email password db ≡ err Error.invalid_credentials
login-unknown s x session_id token now email password db unknown =
    login_lem s x session_id token now email password db
    ∙ refused (user_by_email (lower (strip email)) db) unknown
  where
    refused :
        (o : Option User)
        → knows_password x password o ≡ false
        → login_outcome s x session_id token now password db o ≡ err Error.invalid_credentials
    refused none h = refl
    refused (some u) h = rw h refl

-- Whoever does not know the password of an account that is not deleted learns nothing about accounts:
-- on any two databases in which the password is not the right one for the address, whether there is no
-- such user, no password, another password or a deleted user, a login ends in the same way, with
-- `InvalidCredentialsError`.
pub failed_logins_agree :
    (s : Settings) (x : Security) (session_id : ℕ) (token : Text) (now : ℕ) (email password : Text)
    (db db' : Db)
    → knows_password x password (user_by_email (lower (strip email)) db) ≡ false
    → knows_password x password (user_by_email (lower (strip email)) db') ≡ false
    → (login s x session_id token now email password db
        ≡ login s x session_id token now email password db')
      × (login s x session_id token now email password db ≡ err Error.invalid_credentials)
failed_logins_agree s x session_id token now email password db db' unknown unknown' =
    let here = login-unknown s x session_id token now email password db unknown in
    let there = login-unknown s x session_id token now email password db' unknown' in
    (here ∙ sym there, here)
