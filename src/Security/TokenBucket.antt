-- ===== src/Security/TokenBucket.antt =====
-- apps/server/src/security/tokenBucketRateLimiter.ts, over the numbers of JavaScript: tokens, capacity
-- and refill rate are such numbers. A reading of the clock is in whole milliseconds.
pub mod Bounds
use burning_space.Base.{ℕ, ◌-◌, Bool, true, false, Option, none, some, ltb, ◌==◌, if◌then◌else◌}
use burning_space.Game.Numbers.{Numbers, at_most, lesser}

module _ (F : Numbers) where
  open F use {Number, of_ℕ, add, sub, mul, div}

  pub record TokenBucketRateLimiterOptions : Type 0 where
    pub capacity : Number
    pub refill_rate_per_second : Number

  pub record TokenBucketConsumeResult : Type 0 where
    pub allowed : Bool
    pub remaining_tokens : Number
    pub retry_after_ms : Number

  pub record TokenBucketState : Type 0 where
    pub tokens : Number
    pub last_refill_at : ℕ

  -- The `Map` from keys to buckets.
  abbrev pub Buckets : Type 0
  Buckets = ℕ → Option TokenBucketState

  abbrev pub set : ℕ → TokenBucketState → Buckets → Buckets
  set key bucket buckets other = if other == key then some bucket else buckets other

  abbrev pub delete : ℕ → Buckets → Buckets
  delete key buckets other = if other == key then none else buckets other

  abbrev pub clear : Buckets → Buckets
  clear buckets other = none

  module _ (options : TokenBucketRateLimiterOptions) where
    -- `existing ?? { tokens: capacity, lastRefillAt: now }`.
    abbrev pub bucket_or_full : ℕ → Option TokenBucketState → TokenBucketState
    bucket_or_full now none = record { tokens = options.capacity; last_refill_at = now }
    bucket_or_full now (some bucket) = bucket

    abbrev pub elapsed_seconds : ℕ → TokenBucketState → Number
    elapsed_seconds now bucket = div (of_ℕ (now - bucket.last_refill_at)) (of_ℕ 1000)

    abbrev pub refilled : ℕ → TokenBucketState → Number
    refilled now bucket =
        lesser F options.capacity
          (add bucket.tokens (mul (elapsed_seconds now bucket) options.refill_rate_per_second))

    abbrev pub has_token : Number → Bool
    has_token tokens = at_most F (of_ℕ 1) tokens

    -- What remains of the tokens after a request.
    abbrev pub taken : Number → Number
    taken tokens = if has_token tokens then sub tokens (of_ℕ 1) else tokens

    abbrev pub answer : Number → TokenBucketConsumeResult
    answer tokens = record {
      allowed = has_token tokens;
      remaining_tokens = taken tokens;
      retry_after_ms =
          if has_token tokens
          then of_ℕ 0
          else div (mul (sub (of_ℕ 1) tokens) (of_ℕ 1000)) options.refill_rate_per_second;
    }

    unfoldable pub consume_bucket :
        ℕ → ℕ → TokenBucketState → Buckets → Option TokenBucketConsumeResult × Buckets
    consume_bucket key now bucket buckets =
        if ltb now bucket.last_refill_at then (none, buckets) else (
          some (answer (refilled now bucket)),
          set key (record { tokens = taken (refilled now bucket); last_refill_at = now }) buckets,
        )

    -- No result when the clock went back, which throws and leaves the buckets as they are.
    unfoldable pub consume : ℕ → ℕ → Buckets → Option TokenBucketConsumeResult × Buckets
    unfolding consume_bucket
    consume key now buckets = consume_bucket key now (bucket_or_full now (buckets key)) buckets
