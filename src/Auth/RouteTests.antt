-- ===== src/Auth/RouteTests.antt =====
-- The login route after two failures with key 7: a limit of two is reached.
use pro_lens_backend.Base.{ℕ, ◌≡◌, List, [], ◌∷◌, ◌++◌, arith, leb, if◌then◌else◌, err}
use pro_lens_backend.Config.{default_settings}
use pro_lens_backend.Errors.{Error}
use pro_lens_backend.RateLimit.{new_limiter}
use pro_lens_backend.RateLimit.Events.{Event, run}
use pro_lens_backend.Auth.{login}
use pro_lens_backend.Auth.Route.{login_route, reply, calls_after, failures, login_route_lem}
use pro_lens_backend.Auth.Tests.{security, db}

abbrev calls : List (ℕ × Event)
calls = (10, Event.recorded 7) ∷ (20, Event.recorded 7) ∷ []

login_route_lem_example :
    let limiter = run calls (new_limiter 2 300) in
    let attempt = login default_settings security 91 [] 31 [] [] db in
    let limited = leb 2 (failures 300 30 7 calls) in
    let done = login_route default_settings security 91 [] 7 30 31 [] [] limiter db in
    (done.0 ≡ (if limited then err (Error.app_exception 429) else reply attempt))
    × (done.1
        ≡ run
            (calls ++ (30, Event.checked 7) ∷ (if limited then [] else calls_after 7 31 attempt))
            (new_limiter 2 300))
login_route_lem_example =
    login_route_lem default_settings security 91 [] 7 30 31 [] [] db 2 300 calls (omega arith)
