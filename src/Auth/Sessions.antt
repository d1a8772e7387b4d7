-- ===== src/Auth/Sessions.antt =====
-- Refresh tokens after a refresh, and after a logout.
use pro_lens_backend.Base.{
  ℕ, ◌≤◌, Bool, true, Option, none, some, List, [], ◌∷◌, ◌++◌, ◌≡◌, refl, ap, arith, inl, inr, ◌==◌,
  is_none, find, ltb, text_eq, update_where, Bool-cases, Option-cases, err,
}
use pro_lens_backend.Config.{Text, Settings}
use pro_lens_backend.Errors.{Error}
use pro_lens_backend.Model.{Db, User, UserSession}
use pro_lens_backend.Users.Operations.{revoke}
use pro_lens_backend.Repositories.{user_by_id}
use pro_lens_backend.Auth.{
  Security, get_by_refresh_token_hash, usable_session, get_active_session, revoke_session,
  usable_user, refresh_for, refresh, logout, issue_tokens,
}

abbrev has_hash : Text → UserSession → Bool
has_hash h s = text_eq s.refresh_token_hash h

-- The row that a hash finds is found again after an update that rewrites it, with more rows behind.
find-revoked :
    (h : Text) (now k : ℕ) (xs ys : List UserSession) {s : UserSession}
    → find (has_hash h) xs ≡ some s
    → s.id ≡ k
    → find (has_hash h) (update_where (λ (x : UserSession). x.id == k) (revoke now) xs ++ ys)
      ≡ some (revoke now s)
find-revoked h now k [] ys e same = cc
find-revoked h now k (x ∷ xs) ys {s} e same = elim (Bool-cases (has_hash h x)) [
  | inl hit ↦
      let row : x ≡ s = ground arith in
      let own : (x.id == k) ≡ true = ground (arith, row, same) in
      rw (own, hit) (ap (λ (y : UserSession). some (revoke now y)) row)
  | inr miss ↦
      let found : find (has_hash h) xs ≡ some s = ground arith in
      let later = find-revoked h now k xs ys found same in
      elim (Bool-cases (x.id == k)) [
        | inl own ↦ rw (own, miss) later
        | inr other ↦ rw (other, miss) later
      ]
]

-- No session is usable with the token, now or later.
abbrev pub IsSpent : Security → ℕ → Text → Db → Type 0
IsSpent x now token db = (later : ℕ) → now ≤ later → get_active_session x later token db ≡ none

revoked-IsSpent :
    (x : Security) (now : ℕ) (token : Text) (db db' : Db) (s : UserSession) (ys : List UserSession)
    → find (has_hash (x.hash_refresh_token token)) db.sessions ≡ some s
    → db'.sessions ≡ update_where (λ (r : UserSession). r.id == s.id) (revoke now) db.sessions ++ ys
    → IsSpent x now token db'
unfolding get_active_session get_by_refresh_token_hash
revoked-IsSpent x now token db db' s ys found rows later after =
    rw (rows, find-revoked (x.hash_refresh_token token) now s.id db.sessions ys found refl) refl

-- A usable session is the one that the hash finds.
usable-found :
    (now : ℕ) (o : Option UserSession) {s : UserSession}
    → usable_session now o ≡ some s
    → o ≡ some s
usable-found now none e = cc
usable-found now (some r) {s} e = elim (Bool-cases (is_none r.revoked_at)) [
  | inl active ↦ elim (Bool-cases (ltb r.expires_at now)) [
    | inl expired ↦ let no : none ≡ some s = rw (active, expired) at e in cc
    | inr valid ↦ rw (active, valid) at e
  ]
  | inr revoked ↦ let no : none ≡ some s = rw revoked at e in cc
]

-- A session that is not usable stays so.
unusable_later :
    (now later : ℕ) (o : Option UserSession)
    → now ≤ later
    → usable_session now o ≡ none
    → usable_session later o ≡ none
unusable_later now later none after e = refl
unusable_later now later (some r) after e = elim (Bool-cases (is_none r.revoked_at)) [
  | inl active ↦ elim (Bool-cases (ltb r.expires_at now)) [
    | inl expired ↦
        let still : ltb r.expires_at later ≡ true = ground arith in rw (active, still) refl
    | inr valid ↦ let no : some r ≡ none = rw (active, valid) at e in cc
  ]
  | inr revoked ↦ rw revoked refl
]

append_nothing : (xs : List UserSession) → xs ≡ xs ++ []
append_nothing [] = refl
append_nothing (x ∷ xs) = ap (λ ys. x ∷ ys) (append_nothing xs)

active-found :
    (x : Security) (now : ℕ) (token : Text) (db : Db) {s : UserSession}
    → get_active_session x now token db ≡ some s
    → find (has_hash (x.hash_refresh_token token)) db.sessions ≡ some s
unfolding get_active_session get_by_refresh_token_hash
active-found x now token db there = usable-found now _ there

never_again :
    (x : Security) (now : ℕ) (token : Text) (db : Db)
    → get_active_session x now token db ≡ none
    → IsSpent x now token db
unfolding get_active_session
never_again x now token db gone later after = unusable_later now later _ after gone

logout_spends :
    (x : Security) (now : ℕ) (token : Text) (db : Db) → IsSpent x now token (logout x now token db)
unfolding logout revoke_session
logout_spends x now token db = elim (Option-cases (get_active_session x now token db)) [
  | inl gone ↦ rw gone (never_again x now token db gone)
  | inr (s, there) ↦ rw there (
      revoked-IsSpent x now token db (revoke_session now s db) s []
        (active-found x now token db there) (append_nothing _))
]

refresh_spends :
    (s : Settings) (x : Security) (session_id : ℕ) (new_token : Text) (now : ℕ) (token : Text)
    (db : Db)
    → IsSpent x now token (refresh s x session_id new_token now token db).1
unfolding refresh revoke_session issue_tokens
refresh_spends s x session_id new_token now token db =
    elim (Option-cases (get_active_session x now token db)) [
      | inl gone ↦ rw gone (never_again x now token db gone)
      | inr (r, there) ↦ rw there (for_user r there (usable_user (user_by_id r.user_id db) db))
    ]
  where
    for_user :
        (r : UserSession)
        → get_active_session x now token db ≡ some r
        → (u : Option User)
        → IsSpent x now token
            (refresh_for s x session_id new_token now u (revoke_session now r db)).1
    for_user r there none =
        revoked-IsSpent x now token db (revoke_session now r db) r []
          (active-found x now token db there) (append_nothing _)
    for_user r there (some u) =
        revoked-IsSpent x now token db
          (refresh_for s x session_id new_token now (some u) (revoke_session now r db)).1 r _
          (active-found x now token db there) refl

refused :
    (s : Settings) (x : Security) (session_id : ℕ) (new_token : Text) (now : ℕ) (token : Text)
    (db : Db)
    → get_active_session x now token db ≡ none
    → refresh s x session_id new_token now token db ≡ (err Error.invalid_refresh_token, db)
unfolding refresh
refused s x session_id new_token now token db none_left = rw none_left refl

-- A refresh spends its token, whether it returns new tokens or, because the account may no longer be
-- used, raises: from then on no session is usable with it, and a second refresh with it raises
-- `InvalidRefreshTokenError` and changes nothing.
pub refresh_once :
    (s : Settings) (x : Security) (session_id session_id' : ℕ) (new_token new_token' : Text)
    (now later : ℕ) (token : Text) (db : Db)
    → now ≤ later
    → (get_active_session x later token (refresh s x session_id new_token now token db).1 ≡ none)
      × (refresh s x session_id' new_token' later token
            (refresh s x session_id new_token now token db).1
          ≡ (err Error.invalid_refresh_token, (refresh s x session_id new_token now token db).1))
refresh_once s x session_id session_id' new_token new_token' now later token db after =
    let spent = refresh_spends s x session_id new_token now token db later after in
    (spent, refused s x session_id' new_token' later token _ spent)

-- After a logout with a refresh token, whether or not it was still usable, no session is usable with it
-- from then on, and a refresh with it raises `InvalidRefreshTokenError` and changes nothing.
pub refresh-logout :
    (s : Settings) (x : Security) (session_id : ℕ) (new_token : Text) (now later : ℕ) (token : Text)
    (db : Db)
    → now ≤ later
    → (get_active_session x later token (logout x now token db) ≡ none)
      × (refresh s x session_id new_token later token (logout x now token db)
          ≡ (err Error.invalid_refresh_token, logout x now token db))
refresh-logout s x session_id new_token now later token db after =
    let spent = logout_spends x now token db later after in
    (spent, refused s x session_id new_token later token _ spent)
