-- ===== src/Security/PeerRateLimiter/Capacity.antt =====
-- The bound on the number of peers.
use burning_space.Base.{
  sym, subst, ℕ, ◌≡◌, ◌≤◌, ◌+◌, refl, inl, inr, arith, Bool, true, false, List, [], ◌∷◌, ◌++◌,
  length, Bool-cases, update_where,
}
use burning_space.Game.Numbers.{Numbers}
use burning_space.Security.PeerRateLimiter.{
  PeerRateLimiterOptions, PeerRateLimiter, Access, is_peer, is_known_peer, kept_accesses, is_full,
  admit, make_room, consume_unknown, consume_peer,
}

length-update_where :
    (q : Access → Bool) (f : Access → Access) (accesses : List Access)
    → length (update_where q f accesses) ≡ length accesses
length-update_where q f [] = refl
length-update_where q f (access ∷ accesses) = ground (arith, length-update_where q f accesses)

length-snoc :
    (accesses : List Access) (access : Access)
    → length (accesses ++ (access ∷ [])) ≡ length accesses + 1
length-snoc [] access = refl
length-snoc (x ∷ accesses) access = ground (arith, length-snoc accesses access)

module _ (F : Numbers) where
  module _ (options : PeerRateLimiterOptions F) where
    length-kept_accesses :
        (now : ℕ) (accesses : List Access)
        → length (kept_accesses F options now accesses) ≤ length accesses
    length-kept_accesses now [] = omega arith
    length-kept_accesses now (access ∷ accesses) = ground (arith, length-kept_accesses now accesses)

    abbrev IsBounded : PeerRateLimiter F → Type 0
    IsBounded s = length s.last_access_at ≤ options.max_buckets

    known_lem :
        (key now bucket_now : ℕ) (s : PeerRateLimiter F)
        → is_known_peer key s.last_access_at ≡ true
        → IsBounded s
        → IsBounded (admit F options key now bucket_now s).1
    unfolding admit
    known_lem key now bucket_now s known h = rw known (
        rw
          (length-update_where (is_peer key) (λ access. record access { last_access = now })
            s.last_access_at)
          h)

    unknown_lem :
        (key now bucket_now : ℕ) (s : PeerRateLimiter F)
        → is_full F options s ≡ false
        → IsBounded (admit F options key now bucket_now s).1
    unfolding admit
    unknown_lem key now bucket_now s room = elim (Bool-cases (is_known_peer key s.last_access_at)) [
      | inl known ↦ rw known (
          rw
            (length-update_where (is_peer key) (λ access. record access { last_access = now })
              s.last_access_at)
            (ground (arith, room)))
      | inr new ↦ rw new (
          rw (length-snoc s.last_access_at (record { peer_key = key; last_access = now }))
            (ground (arith, room)))
    ]

    full_lem :
        (key now bucket_now : ℕ) (s : PeerRateLimiter F)
        → IsBounded s
        → IsBounded (consume_unknown F options key now bucket_now s).1
    unfolding consume_unknown
    full_lem key now bucket_now s h = elim (Bool-cases (is_full F options s)) [
      | inl full ↦ rw (full, consume_unknown) h
      | inr room ↦ rw (room, consume_unknown) (unknown_lem key now bucket_now s room)
    ]

    room_lem :
        (now : ℕ) (s : PeerRateLimiter F) → IsBounded s → IsBounded (make_room F options now s)
    room_lem now s h = elim (Bool-cases (is_full F options s)) [
      | inl full ↦ rw full (omega (arith, length-kept_accesses now s.last_access_at, h))
      | inr room ↦ rw room h
    ]

    -- The peers after a sequence of requests, each a peer and the two readings of the clock.
    pub consume_all : List (ℕ × ℕ × ℕ) → PeerRateLimiter F → PeerRateLimiter F
    consume_all [] s = s
    consume_all ((key, now, bucket_now) ∷ requests) s =
        consume_all requests (consume_peer F options key now bucket_now s).1

    consume_known :
        (key now bucket_now : ℕ) (s : PeerRateLimiter F)
        → is_known_peer key s.last_access_at ≡ true
        → consume_peer F options key now bucket_now s ≡ admit F options key now bucket_now s
    unfolding consume_peer
    consume_known key now bucket_now s known = rw (known, consume_peer) refl

    step_lem :
        (key now bucket_now : ℕ) (s : PeerRateLimiter F)
        → IsBounded s
        → IsBounded (consume_peer F options key now bucket_now s).1
    unfolding consume_peer
    step_lem key now bucket_now s h = elim (Bool-cases (is_known_peer key s.last_access_at)) [
      | inl known ↦
          subst (λ p. IsBounded p.1) (sym (consume_known key now bucket_now s known))
            (known_lem key now bucket_now s known h)
      | inr new ↦
          rw (new, consume_peer)
            (full_lem key now bucket_now (make_room F options now s) (room_lem now s h))
    ]

-- Whatever peers ask, in any order and at any times, the number of peers that the limiter remembers
-- never exceeds `maxBuckets`, if it does not at the start.
pub consume_all_bounded :
    (F : Numbers) (options : PeerRateLimiterOptions F) (requests : List (ℕ × ℕ × ℕ))
    (s : PeerRateLimiter F)
    → length s.last_access_at ≤ options.max_buckets
    → length (consume_all F options requests s).last_access_at ≤ options.max_buckets
unfolding consume_all
consume_all_bounded F options [] s h = h
consume_all_bounded F options ((key, now, bucket_now) ∷ requests) s h =
    consume_all_bounded F options requests (consume_peer F options key now bucket_now s).1
      (step_lem F options key now bucket_now s h)
