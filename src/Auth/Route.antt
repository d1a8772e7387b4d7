-- ===== src/Auth/Route.antt =====
-- `login` of app/api/routes/auth.py: the limiter is asked first, counts wrong credentials, and is reset
-- by a success.
use pro_lens_backend.Base.{
  ℕ, Bool, true, false, List, [], ◌∷◌, ◌++◌, ◌≡◌, refl, leb, length, select, Result, ok, err,
  if◌then◌else◌, Bool-cases, inl, inr,
}
use pro_lens_backend.Config.{Text, Settings}
use pro_lens_backend.Errors.{Error}
use pro_lens_backend.Model.{Db}
use pro_lens_backend.RateLimit.{SlidingWindowRateLimiter, new_limiter, check, record_attempt, reset}
use pro_lens_backend.RateLimit.Events.{Event, step, run, history, in_window}
use pro_lens_backend.RateLimit.Exact.{InOrder, is_limited_exact}
use pro_lens_backend.Auth.{Security, TokenResponse, login}

abbrev pub is_invalid_credentials : Error → Bool
is_invalid_credentials Error.invalid_credentials = true
is_invalid_credentials _ = false

abbrev pub finish_login :
    ℕ
    → ℕ
    → Result (TokenResponse × Db)
    → SlidingWindowRateLimiter
    → Db
    → Result TokenResponse × SlidingWindowRateLimiter × Db
finish_login key later (ok (tokens, db')) l db = (ok tokens, reset key l, db')
finish_login key later (err e) l db =
    (err e, (if is_invalid_credentials e then record_attempt key later l else l), db)

abbrev pub try_login :
    ℕ
    → ℕ
    → Result (TokenResponse × Db)
    → Result (Unit {0})
    → SlidingWindowRateLimiter
    → Db
    → Result TokenResponse × SlidingWindowRateLimiter × Db
try_login key later attempt (err e) l db = (err e, l, db)
try_login key later attempt (ok _) l db = finish_login key later attempt l db

-- The key is made of the client's address and the email. The limiter is asked at `now`; the login runs,
-- and a failure is recorded, at `later`.
unfoldable pub login_route :
    Settings
    → Security
    → ℕ
    → Text
    → ℕ
    → ℕ
    → ℕ
    → Text
    → Text
    → SlidingWindowRateLimiter
    → Db
    → Result TokenResponse × SlidingWindowRateLimiter × Db
login_route s x session_id token key now later email password limiter db =
    let (allowed, l) = check key now limiter in
    try_login key later (login s x session_id token later email password db) allowed l db

abbrev pub reply : Result (TokenResponse × Db) → Result TokenResponse
reply (ok (tokens, db')) = ok tokens
reply (err e) = err e

-- The limiter's calls in one request that is let through.
abbrev pub calls_after : ℕ → ℕ → Result (TokenResponse × Db) → List (ℕ × Event)
calls_after key later (ok r) = (later, Event.was_reset key) ∷ []
calls_after key later (err e) =
    if is_invalid_credentials e then (later, Event.recorded key) ∷ [] else []

run-append :
    (es fs : List (ℕ × Event)) (l : SlidingWindowRateLimiter) → run (es ++ fs) l ≡ run fs (run es l)
unfolding run
run-append [] fs l = refl
run-append ((t, e) ∷ es) fs l = run-append es fs (step t e l)

finish_login-run :
    (key later : ℕ) (attempt : Result (TokenResponse × Db)) (l : SlidingWindowRateLimiter) (db : Db)
    → ((finish_login key later attempt l db).0 ≡ reply attempt)
      × ((finish_login key later attempt l db).1 ≡ run (calls_after key later attempt) l)
unfolding run step
finish_login-run key later (ok (tokens, db')) l db = (refl, refl)
finish_login-run key later (err e) l db = elim (Bool-cases (is_invalid_credentials e)) [
  | inl counted ↦ rw counted (refl, refl)
  | inr other ↦ rw other (refl, refl)
]

-- The attempts with the key that count at `now`, after the calls `es` of the limiter.
abbrev pub failures : ℕ → ℕ → ℕ → List (ℕ × Event) → ℕ
failures window now key es = length (select (in_window window now) (history es (λ _. []) key))

-- After any calls of a limiter that starts empty, in the order of the clock, the route replies 429, whatever the password,
-- exactly if `max_attempts` or more failures with the key since its last success are in the window, and
-- otherwise what the login replies; and the limiter it leaves is that of the calls before it followed by
-- a check and, if the login ran, by the record of a failure with wrong credentials or by the reset of a
-- success.
pub login_route_lem :
    (s : Settings) (x : Security) (session_id : ℕ) (token : Text) (key now later : ℕ)
    (email password : Text) (db : Db) (max_attempts window : ℕ) (es : List (ℕ × Event))
    → InOrder 0 es now
    → let limiter = run es (new_limiter max_attempts window) in
      let attempt = login s x session_id token later email password db in
      let limited = leb max_attempts (failures window now key es) in
      let done = login_route s x session_id token key now later email password limiter db in
      (done.0 ≡ (if limited then err (Error.app_exception 429) else reply attempt))
      × (done.1
          ≡ run
              (es
                ++ (now, Event.checked key)
                  ∷ (if limited then [] else calls_after key later attempt))
              (new_limiter max_attempts window))
unfolding login_route check run step
login_route_lem s x session_id token key now later email password db m w es order =
    elim (Bool-cases (leb m (failures w now key es))) [
      | inl limited ↦ rw (run-append, is_limited_exact m w now key es order, limited) (refl, refl)
      | inr allowed ↦
          rw (run-append, is_limited_exact m w now key es order, allowed)
            (finish_login-run key later (login s x session_id token later email password db) _ db)
    ]
