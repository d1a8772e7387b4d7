-- ===== src/RateLimit.antt =====
-- The sliding-window limiter of app/core/rate_limit.py. `time.monotonic()` is an argument; the lock
-- makes each method one step. What the methods compute is related to the full history of attempts
-- in RateLimit/Exact.
pub mod Events
pub mod Window
pub mod Matches
pub mod Exact
mod Tests
use pro_lens_backend.Base.{
  ℕ, ◌+◌, Bool, true, false, Option, none, some, List, [], ◌∷◌, ◌++◌, leb, if◌then◌else◌, Dict, get,
  pop, put, length, Result, raise_if,
}
use pro_lens_backend.Errors.{Error}

pub record SlidingWindowRateLimiter : Type 0 where
  pub max_attempts : ℕ
  pub window : ℕ
  pub hits : Dict (List ℕ)

-- `__init__`
abbrev pub new_limiter : ℕ → ℕ → SlidingWindowRateLimiter
new_limiter max_attempts window = record { max_attempts = max_attempts; window = window; hits = [] }

-- The deque of a key; `defaultdict(deque)` has an empty one for a key that it lacks.
abbrev pub or_empty : Option (List ℕ) → List ℕ
or_empty none = []
or_empty (some ts) = ts

abbrev pub hits_of : Dict (List ℕ) → ℕ → List ℕ
hits_of d key = or_empty (get d key)

-- `while hits and hits[0] <= now - window: hits.popleft()`
unfoldable pub drop_expired : ℕ → ℕ → List ℕ → List ℕ
drop_expired window now [] = []
drop_expired window now (t ∷ ts) =
    if leb (t + window) now then drop_expired window now ts else t ∷ ts

-- An empty deque is taken out of the dict.
abbrev pub keep_nonempty : Dict (List ℕ) → ℕ → List ℕ → Dict (List ℕ)
keep_nonempty d key [] = pop d key
keep_nonempty d key (t ∷ ts) = put d key (t ∷ ts)

-- `_prune`: the deque that is left, and the limiter.
pub prune : ℕ → ℕ → SlidingWindowRateLimiter → List ℕ × SlidingWindowRateLimiter
prune key now l =
    let left = drop_expired l.window now (hits_of l.hits key) in
    (left, record l { hits = keep_nonempty l.hits key left })

pub is_limited : ℕ → ℕ → SlidingWindowRateLimiter → Bool × SlidingWindowRateLimiter
unfolding prune
is_limited key now l = let (left, l') = prune key now l in (leb l.max_attempts (length left), l')

-- `check`: 429 for a key that is limited.
unfoldable pub check :
    ℕ → ℕ → SlidingWindowRateLimiter → Result (Unit {0}) × SlidingWindowRateLimiter
unfolding is_limited
check key now l =
    let (limited, l') = is_limited key now l in (raise_if limited (Error.app_exception 429), l')

-- `record`: prune, then append; the deque is made again if the prune took it out.
pub record_attempt : ℕ → ℕ → SlidingWindowRateLimiter → SlidingWindowRateLimiter
unfolding prune
record_attempt key now l =
    let (left, l') = prune key now l in
    record l' { hits = put l'.hits key (hits_of l'.hits key ++ now ∷ []) }

pub reset : ℕ → SlidingWindowRateLimiter → SlidingWindowRateLimiter
reset key l = record l { hits = pop l.hits key }
