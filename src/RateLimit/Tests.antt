-- ===== src/RateLimit/Tests.antt =====
-- A limiter of two requests in a second, in a run.
use hiqlite.Common.{◌+◌, ◌*◌, ◌≤◌, ◌≡◌, refl, true, List, [], ◌∷◌, ◌==◌}
use hiqlite.RateLimit.{
  RateLimitConfig, Limiter, refill_bucket, rate_limit, serve_waiting, tick, Event, request, second,
  step, run, grants, losses, seconds, run-grants, serve_waiting-gone,
}

abbrev config : RateLimitConfig
config = record { rps = 1; burst = 2 }

abbrev start : Limiter
start = record { tokens = 1; waiting = [] }

-- The receiver of the request 12 is dropped before the second is over.
abbrev script : List Event
script = request 11 ∷ request 12 ∷ request 13 ∷ second (λ ack. ack == 12) ∷ request 14 ∷ []

run-script : (run config 8 script start).1 ≡ (11, true) ∷ (13, true) ∷ []
unfolding run step rate_limit tick serve_waiting refill_bucket
run-script = refl

run-grants_example :
    grants (run config 8 script start).1 + (run config 8 script start).0.tokens
    ≤ 1 + 1 * seconds script + losses config 8 script start
run-grants_example = run-grants config 8 script start

serve_waiting-gone_example : serve_waiting (λ ack. ack == 12) 0 (12 ∷ 13 ∷ []) ≡ (
  (serve_waiting (λ ack. ack == 12) 0 []).0,
  (13, true) ∷ (serve_waiting (λ ack. ack == 12) 0 []).1,
)
serve_waiting-gone_example = serve_waiting-gone (λ ack. ack == 12) 12 13 [] refl refl
