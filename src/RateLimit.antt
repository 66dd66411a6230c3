-- ===== src/RateLimit.antt =====
-- The client's rate limit: hiqlite/src/client/rate_limit.rs.
--
-- The limiter of the cache and that of the database are the same code, and one is modelled: an atomic
-- counter of tokens and a bounded channel of waiting requests. A waiting request is the number of
-- its one-shot channel, and `gone` says of which ones the receiver has been dropped.
mod Tests
use hiqlite.Common.{
  ℕ, zero, suc, ◌+◌, ◌*◌, ◌-◌, ◌%◌, ◌^◌, ◌≤◌, ◌≡◌, refl, min, Bool, true, false, Option, none, some,
  List, [], ◌∷◌, ◌++◌, arith, ltb, if◌then◌else◌, length,
}

pub record RateLimitConfig : Type 0 where
  pub rps : ℕ
  pub burst : ℕ

pub record Limiter : Type 0 where
  pub tokens : ℕ
  pub waiting : List ℕ

-- What a caller is told: a channel, and whether its request may go on.
abbrev pub Reply : Type 0
Reply = ℕ × Bool

-- `refill_bucket`
unfoldable pub refill_bucket : ℕ → ℕ → ℕ → ℕ
refill_bucket current rps burst = min (min (current + rps) (2 ^ 32 - 1)) burst

-- `try_rate_limit_cache` and `try_rate_limit_db`: whether a token was there, and the tokens behind.
abbrev pub try_rate_limit : ℕ → Bool × ℕ
try_rate_limit zero = (false, 0)
try_rate_limit (suc n) = (true, n)

-- A request: it goes on, or it waits where the channel has room, or it fails.
unfoldable pub rate_limit : ℕ → ℕ → Limiter → Limiter × List Reply
rate_limit capacity ack s =
    let (granted, tokens) = try_rate_limit s.tokens in
    if granted
    then (record s { tokens = tokens }, (ack, true) ∷ [])
    else if ltb (length s.waiting) capacity
    then (record s { waiting = s.waiting ++ (ack ∷ []) }, [])
    else (s, (ack, false) ∷ [])

-- The loop over the waiting requests: one that cannot be told gives a token back.
unfoldable pub serve_waiting : (ℕ → Bool) → ℕ → List ℕ → ℕ × List Reply
serve_waiting gone tokens [] = (tokens, [])
serve_waiting gone tokens (ack ∷ acks) =
    let (granted, left) = try_rate_limit tokens in
    let (after, sent) = serve_waiting gone (if gone ack then (left + 1) % 2 ^ 32 else left) acks in
    if gone ack then (after, sent) else (after, (ack, granted) ∷ sent)

-- A round of `run_ticker`.
unfoldable pub tick : RateLimitConfig → (ℕ → Bool) → Limiter → Limiter × List Reply
tick config gone s =
    let (tokens, sent) =
      serve_waiting gone (refill_bucket s.tokens config.rps config.burst) s.waiting in
    (record { tokens = tokens; waiting = [] }, sent)

pub data Event : Type 0 where
  request : ℕ → Event
  second : (ℕ → Bool) → Event

unfoldable pub step : RateLimitConfig → ℕ → Event → Limiter → Limiter × List Reply
step config capacity (request ack) s = rate_limit capacity ack s
step config capacity (second gone) s = tick config gone s

unfoldable pub run : RateLimitConfig → ℕ → List Event → Limiter → Limiter × List Reply
run config capacity [] s = (s, [])
run config capacity (e ∷ es) s =
    let (s₁, sent) = step config capacity e s in
    let (s₂, others) = run config capacity es s₁ in (s₂, sent ++ others)

-- How many replies let a request go on.
unfoldable pub grants : List Reply → ℕ
grants [] = 0
grants ((ack, granted) ∷ rest) = (if granted then 1 else 0) + grants rest

grants-append : (xs ys : List Reply) → grants (xs ++ ys) ≡ grants xs + grants ys
unfolding grants
grants-append [] ys = omega arith
grants-append ((ack, granted) ∷ xs) ys = omega (arith, grants-append xs ys)

unfoldable lost : (ℕ → Bool) → List ℕ → ℕ
lost gone [] = 0
lost gone (ack ∷ acks) = (if gone ack then 1 else 0) + lost gone acks

-- How many waiting requests were served in a run after their receiver had been dropped.
unfoldable pub losses : RateLimitConfig → ℕ → List Event → Limiter → ℕ
unfolding lost
losses config capacity [] s = 0
losses config capacity (request ack ∷ es) s =
    losses config capacity es (rate_limit capacity ack s).0
losses config capacity (second gone ∷ es) s =
    lost gone s.waiting + losses config capacity es (tick config gone s).0

abbrev pub seconds : List Event → ℕ
seconds [] = 0
seconds (request ack ∷ es) = seconds es
seconds (second gone ∷ es) = suc (seconds es)

try_rate_limit_lem :
    (tokens : ℕ)
    → let (granted, left) = try_rate_limit tokens in (if granted then 1 else 0) + left ≡ tokens
try_rate_limit_lem zero = refl
try_rate_limit_lem (suc n) = omega arith

serve_waiting-grants :
    (gone : ℕ → Bool) (tokens : ℕ) (acks : List ℕ)
    → let (after, sent) = serve_waiting gone tokens acks in
      grants sent + after ≤ tokens + lost gone acks
unfolding serve_waiting grants lost
serve_waiting-grants gone tokens [] = omega arith
serve_waiting-grants gone tokens (ack ∷ acks) =
    let left = (try_rate_limit tokens).1 in
    ground (
      arith,
      try_rate_limit_lem tokens,
      serve_waiting-grants gone ((left + 1) % 2 ^ 32) acks,
      serve_waiting-grants gone left acks,
    )

step-grants :
    (config : RateLimitConfig) (capacity : ℕ) (ack : ℕ) (s : Limiter)
    → let (s', sent) = rate_limit capacity ack s in grants sent + s'.tokens ≤ s.tokens
unfolding rate_limit grants
step-grants config capacity ack s = ground (arith, try_rate_limit_lem s.tokens)

tick-grants :
    (config : RateLimitConfig) (gone : ℕ → Bool) (s : Limiter)
    → let (s', sent) = tick config gone s in
      grants sent + s'.tokens ≤ s.tokens + config.rps + lost gone s.waiting
unfolding tick refill_bucket
tick-grants config gone s = omega (
  arith,
  serve_waiting-grants gone (min (min (s.tokens + config.rps) (2 ^ 32 - 1)) config.burst) s.waiting,
)

-- The rate holds but for lost waiters: over any run, the requests that may go on and the tokens that
-- are left are together at most the tokens at the start, `rps` for each second, and one for each
-- waiting request that was served after its receiver had been dropped.
pub run-grants :
    (config : RateLimitConfig) (capacity : ℕ) (es : List Event) (s : Limiter)
    → let (s', sent) = run config capacity es s in
      grants sent + s'.tokens ≤ s.tokens + config.rps * seconds es + losses config capacity es s
unfolding run step losses grants
run-grants config capacity [] s = omega arith
run-grants config capacity (request ack ∷ es) s =
    let (s₁, sent) = rate_limit capacity ack s in
    omega (
      arith,
      step-grants config capacity ack s,
      run-grants config capacity es s₁,
      grants-append sent (run config capacity es s₁).1,
    )
run-grants config capacity (second gone ∷ es) s =
    let (s₁, sent) = tick config gone s in
    let more : config.rps * suc (seconds es) ≡ config.rps + config.rps * seconds es = omega arith in
    omega (
      arith,
      tick-grants config gone s,
      run-grants config capacity es s₁,
      more,
      grants-append sent (run config capacity es s₁).1,
    )

-- A waiting request that is served without a token, after its receiver had been dropped, lets the
-- next one go on.
pub serve_waiting-gone :
    (gone : ℕ → Bool) (ack next : ℕ) (acks : List ℕ)
    → gone ack ≡ true
    → gone next ≡ false
    → serve_waiting gone 0 (ack ∷ next ∷ acks)
      ≡ ((serve_waiting gone 0 acks).0, (next, true) ∷ (serve_waiting gone 0 acks).1)
unfolding serve_waiting
serve_waiting-gone gone ack next acks g h = rw (g, h) refl
