-- ===== src/Httpx/RateLimiter.antt =====
-- The token buckets of internal/httpx/middleware.go: NewRateLimiter, Allow, refill, sweep,
-- LimitWith.
use Prim.Native.String.{String}
use go_tunnels.Shared.{
  ℕ, suc, ◌-◌, ◌*◌, ◌^◌, Bool, true, false, List, [], ◌∷◌, Option, none, some, Text, ℤ, pos, negsuc,
  Result, ok, err, ltb, leb, if◌then◌else◌, ◌==◌, text_eq,
}
use go_tunnels.Httpx.Reply.{Response, write_error}
pub mod Sweeping

-- What the limiter uses of float64, on its finite values.
pub record Float64 (F : Type 0) : Type 0 where
  pub add : F → F → F
  pub sub : F → F → F
  pub mul : F → F → F
  pub one : F
  -- a < b and a <= b
  pub below : F → F → Bool
  pub at_most : F → F → Bool
  -- Duration.Seconds
  pub seconds : ℤ → F

pub record Bucket (F : Type 0) : Type 0 where
  pub tokens : F
  pub last : ℕ

-- RateLimiter; `rate` and `capacity`, which never change, are parameters of its operations.
pub record RateLimiter (F : Type 0) : Type 0 where
  pub buckets : Text → Option (Bucket F)
  pub last_sweep : ℕ

abbrev pub sweep_interval : ℕ
sweep_interval = 60 * 10 ^ 9

abbrev max_duration : ℕ
max_duration = 2 ^ 63 - 1

-- now.Sub(last), which saturates; instants are nanoseconds since Go's zero time.
unfoldable pub duration : ℕ → ℕ → ℤ
duration now last =
    if leb last now
    then (if leb max_duration (now - last) then pos max_duration else pos (now - last))
    else if ltb max_duration (last - now)
    then negsuc max_duration
    else negsuc (last - now - 1)

-- now.Sub(lastSweep) < sweepInterval
abbrev pub is_short : ℤ → Bool
is_short (pos n) = ltb n sweep_interval
is_short (negsuc n) = true

module _ {F : Type 0} (ops : Float64 F) where
  -- NewRateLimiter: the capacity, and the empty limiter.
  unfoldable pub new_rate_limiter : F → F × RateLimiter F
  new_rate_limiter burst = (
    if ops.below burst ops.one then ops.one else burst,
    record { buckets = λ key. none; last_sweep = 0 },
  )

  module _ (rate capacity : F) where
    -- The tokens of a bucket before the bound.
    abbrev pub earned : Bucket F → ℕ → F
    earned b now = ops.add b.tokens (ops.mul (ops.seconds (duration now b.last)) rate)

    unfoldable pub refill : Bucket F → ℕ → F
    unfolding duration
    refill b now = if ops.below capacity (earned b now) then capacity else earned b now

    -- The loop of sweep, for one key.
    abbrev pub kept : ℕ → Option (Bucket F) → Option (Bucket F)
    kept now none = none
    kept now (some b) = if ops.at_most capacity (refill b now) then none else some b

    unfoldable pub sweep : ℕ → RateLimiter F → RateLimiter F
    unfolding refill
    sweep now rl =
        if is_short (duration now rl.last_sweep)
        then rl
        else record { buckets = λ key. kept now (rl.buckets key); last_sweep = now }

    abbrev pub put : Text → Bucket F → RateLimiter F → RateLimiter F
    put key b rl = record rl { buckets = λ k. if k == key then some b else rl.buckets k }

    -- The new bucket of a key, and the decision.
    unfoldable pub spend : Option (Bucket F) → ℕ → Bool × Bucket F
    unfolding refill
    spend none now = (true, record { tokens = ops.sub capacity ops.one; last = now })
    spend (some b) now =
        let tokens = refill b now in
        if ops.at_most ops.one tokens
        then (true, record { tokens = ops.sub tokens ops.one; last = now })
        else (false, record { tokens = tokens; last = now })

    -- Allow after the sweep.
    unfoldable pub take_token : RateLimiter F → Text → ℕ → Bool × RateLimiter F
    unfolding spend
    take_token rl key now =
        let (permitted, b) = spend (rl.buckets key) now in (permitted, put key b rl)

    unfoldable pub allow : RateLimiter F → Text → ℕ → Bool × RateLimiter F
    unfolding take_token sweep
    allow rl key now = take_token (sweep now rl) key now

    -- LimitWith: 429, or the next handler's answer.
    unfoldable pub limit_with :
        {A : Type 0} → String → RateLimiter F → Text → ℕ → A → Result Response A × RateLimiter F
    unfolding allow
    limit_with message rl key now next =
        let (permitted, rl') = allow rl key now in
        (if permitted then ok next else err (write_error 429 message), rl')
