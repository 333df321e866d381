-- ===== src/Security/PeerRateLimiter.antt =====
-- apps/server/src/security/peerRateLimiter.ts: a token bucket for each peer, with a bound on the
-- number of buckets. `lastAccessAt` is the list of its entries, one for a key.
pub mod Capacity
use burning_space.Base.{
  ℕ, ◌+◌, Bool, true, false, not, Option, none, some, is_some, List, [], ◌∷◌, ◌++◌, length, leb,
  ◌==◌, if◌then◌else◌, find_where, update_where,
}
use burning_space.Game.Numbers.{Numbers}
use burning_space.Security.TokenBucket.{
  TokenBucketRateLimiterOptions, TokenBucketConsumeResult, Buckets, delete, consume,
}

pub record Access : Type 0 where
  pub peer_key : ℕ
  pub last_access : ℕ

abbrev pub is_peer : ℕ → Access → Bool
is_peer key access = access.peer_key == key

abbrev pub is_known_peer : ℕ → List Access → Bool
is_known_peer key accesses = is_some (find_where (is_peer key) accesses)

-- `lastAccessAt.set(peerKey, now)`.
abbrev pub set_access : ℕ → ℕ → List Access → List Access
set_access key now accesses =
    if is_known_peer key accesses
    then update_where (is_peer key) (λ access. record access { last_access = now }) accesses
    else accesses ++ (record { peer_key = key; last_access = now } ∷ [])

module _ (F : Numbers) where
  pub record PeerRateLimiterOptions : Type 0 where
    pub bucket : TokenBucketRateLimiterOptions F
    pub max_buckets : ℕ
    pub idle_eviction_ms : ℕ

  pub record PeerRateLimiter : Type 0 where
    pub limiter : Buckets F
    pub last_access_at : List Access

  -- The answers of `consume`; `throws` is the error of the token bucket's clock.
  pub data PeerRateLimitResult : Type 0 where
    throws bucket_capacity_reached : PeerRateLimitResult
    consumed : TokenBucketConsumeResult F → PeerRateLimitResult

  module _ (options : PeerRateLimiterOptions) where
    abbrev pub is_idle : ℕ → Access → Bool
    is_idle now access = leb (access.last_access + options.idle_eviction_ms) now

    -- `evictIdle`.
    abbrev pub kept_accesses : ℕ → List Access → List Access
    kept_accesses now [] = []
    kept_accesses now (access ∷ accesses) =
        if is_idle now access
        then kept_accesses now accesses
        else access ∷ kept_accesses now accesses

    abbrev pub kept_buckets : ℕ → List Access → Buckets F → Buckets F
    kept_buckets now [] buckets = buckets
    kept_buckets now (access ∷ accesses) buckets =
        if is_idle now access
        then kept_buckets now accesses (delete F access.peer_key buckets)
        else kept_buckets now accesses buckets

    abbrev pub evict_idle : ℕ → PeerRateLimiter → PeerRateLimiter
    evict_idle now s = record {
      limiter = kept_buckets now s.last_access_at s.limiter;
      last_access_at = kept_accesses now s.last_access_at;
    }

    abbrev pub is_full : PeerRateLimiter → Bool
    is_full s = leb options.max_buckets (length s.last_access_at)

    abbrev pub to_peer_result : Option (TokenBucketConsumeResult F) → PeerRateLimitResult
    to_peer_result none = throws
    to_peer_result (some result) = consumed result

    -- `consume` once the peer is admitted; the bucket reads the clock anew.
    unfoldable admit : ℕ → ℕ → ℕ → PeerRateLimiter → PeerRateLimitResult × PeerRateLimiter
    admit key now bucket_now s = (
      to_peer_result (consume F options.bucket key bucket_now s.limiter).0,
      record {
        limiter = (consume F options.bucket key bucket_now s.limiter).1;
        last_access_at = set_access key now s.last_access_at;
      },
    )

    abbrev pub make_room : ℕ → PeerRateLimiter → PeerRateLimiter
    make_room now s = if is_full s then evict_idle now s else s

    unfoldable consume_unknown : ℕ → ℕ → ℕ → PeerRateLimiter → PeerRateLimitResult × PeerRateLimiter
    unfolding admit
    consume_unknown key now bucket_now s =
        if is_full s then (bucket_capacity_reached, s) else admit key now bucket_now s

    unfoldable pub consume_peer :
        ℕ → ℕ → ℕ → PeerRateLimiter → PeerRateLimitResult × PeerRateLimiter
    unfolding consume_unknown
    consume_peer key now bucket_now s =
        if is_known_peer key s.last_access_at
        then admit key now bucket_now s
        else consume_unknown key now bucket_now (make_room now s)
