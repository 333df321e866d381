-- ===== src/Security/TokenBucket/Bounds.antt =====
-- How many requests a bucket admits at once.
use burning_space.Base.{
  ap, refl, ◌∙◌, ◌≢◌, ==_refl, ==_iff, sym, subst, ℕ, ◌≡◌, ◌≤◌, ◌+◌, ◌-◌, ◌&&◌, inl, inr, arith,
  Bool, true, false, Option, none, some, List, [], ◌∷◌, Bool-cases, ltb, ◌==◌, if◌then◌else◌, zero,
  suc,
}
use burning_space.Game.Numbers.{Numbers, at_most, lesser, IsAsymmetric}
use burning_space.Security.TokenBucket.{
  TokenBucketRateLimiterOptions, TokenBucketConsumeResult, TokenBucketState, Buckets, consume,
  consume_bucket, set, refilled, bucket_or_full, taken, has_token,
}

module _ (F : Numbers) where
  open F use {Number, of_ℕ, add, sub, mul, div, less}

  -- Laws of counting tokens down from `n`: the order is asymmetric and transitive, no time refills nothing, taking
  -- one goes from at most k + 1 to at most k, and a bucket without tokens has less than one.
  pub record CountsDown (n : ℕ) : Type 0 where
    pub asymmetric : IsAsymmetric F
    pub transitive :
        (a b c : Number) → at_most F a b ≡ true → at_most F b c ≡ true → at_most F a c ≡ true
    pub refills_nothing :
        (tokens rate : Number)
        → at_most F (add tokens (mul (div (of_ℕ 0) (of_ℕ 1000)) rate)) tokens ≡ true
    pub takes_one :
        (tokens : Number) (k : ℕ)
        → k + 1 ≤ n
        → at_most F tokens (of_ℕ (k + 1)) ≡ true
        → at_most F (sub tokens (of_ℕ 1)) (of_ℕ k) ≡ true
    pub none_left :
        (tokens : Number) → at_most F tokens (of_ℕ 0) ≡ true → at_most F (of_ℕ 1) tokens ≡ false

  abbrev pub is_allowed : Option (TokenBucketConsumeResult F) → Bool
  is_allowed none = false
  is_allowed (some result) = result.allowed

  set_hit :
      (other key : ℕ) (bucket : TokenBucketState F) (buckets : Buckets F)
      → (other == key) ≡ true
      → set F other bucket buckets key ≡ some bucket
  set_hit other key bucket buckets e = rw (sym ((==_iff other key).0 e), ==_refl other)

  set_miss :
      (other key : ℕ) (bucket : TokenBucketState F) (buckets : Buckets F)
      → (other == key) ≡ false
      → set F other bucket buckets key ≡ buckets key
  set_miss other key bucket buckets e = ground (arith, e)

  true_not_false : true ≢ false
  true_not_false e = cc

  module _ (options : TokenBucketRateLimiterOptions F) where
    -- The requests of one key that a sequence of requests at one reading of the clock admits.
    pub admitted : ℕ → ℕ → List ℕ → Buckets F → ℕ
    admitted key now [] buckets = 0
    admitted key now (other ∷ requests) buckets =
        (if other == key && is_allowed (consume F options other now buckets).0 then 1 else 0)
        + admitted key now requests (consume F options other now buckets).1

    module _ (n : ℕ) (laws : CountsDown n) (key now : ℕ) where
      -- The tokens that the bucket has for a request at `now`.
      abbrev tokens_of : Option (TokenBucketState F) → Number
      tokens_of o = refilled F options now (bucket_or_full F options now o)

      abbrev is_back : Option (TokenBucketState F) → Bool
      is_back o = ltb now (bucket_or_full F options now o).last_refill_at

      abbrev HasAtMost : ℕ → Option (TokenBucketState F) → Type 0
      HasAtMost k o = is_back o ≡ false → at_most F (tokens_of o) (of_ℕ k) ≡ true

      below : (a b : Number) → less b a ≡ true → at_most F b a ≡ true
      below a b h = rw (laws.asymmetric b a h) refl

      lesser-left : (a b c : Number) → at_most F a c ≡ true → at_most F (lesser F a b) c ≡ true
      lesser-left a b c h = elim (Bool-cases (less b a)) [
        | inl e ↦ rw e (laws.transitive b a c (below a b e) h)
        | inr e ↦ rw e h
      ]

      lesser-right : (a b c : Number) → at_most F b c ≡ true → at_most F (lesser F a b) c ≡ true
      lesser-right a b c h = elim (Bool-cases (less b a)) [
        | inl e ↦ rw e h
        | inr e ↦ rw e (laws.transitive a b c (rw e refl) h)
      ]

      full_lem :
          (k : ℕ) (o : Option (TokenBucketState F))
          → at_most F options.capacity (of_ℕ k) ≡ true
          → HasAtMost k o
      full_lem k o h back = lesser-left options.capacity _ (of_ℕ k) h

      again :
          (tokens : Number) (k : ℕ)
          → at_most F tokens (of_ℕ k) ≡ true
          → HasAtMost k (some (record { tokens = tokens; last_refill_at = now }))
      again tokens k h back =
          lesser-right options.capacity _ (of_ℕ k)
            (laws.transitive _ tokens (of_ℕ k) (at_once (now - now) (omega arith)) h)
        where
          at_once :
              (passed : ℕ)
              → passed ≡ 0
              → at_most F
                  (add tokens (mul (div (of_ℕ passed) (of_ℕ 1000)) options.refill_rate_per_second))
                  tokens
                ≡ true
          at_once passed e = rw e (laws.refills_nothing tokens options.refill_rate_per_second)

      -- What one more request admits, and what it leaves, when the bucket has at most `k` tokens.
      spent :
          (tokens : Number) (k rest : ℕ)
          → k ≤ n
          → at_most F tokens (of_ℕ k) ≡ true
          → ((j : ℕ) → j ≤ n → at_most F (taken F options tokens) (of_ℕ j) ≡ true → rest ≤ j)
          → (if has_token F options tokens then 1 else 0) + rest ≤ k
      spent tokens k rest bound h f = elim (Bool-cases (has_token F options tokens)) [
        | inr e ↦ rw e (omega (arith, f k bound (rw e h)))
        | inl e ↦ rw e (one k bound h e f)
      ]
        where
          one :
              (k : ℕ)
              → k ≤ n
              → at_most F tokens (of_ℕ k) ≡ true
              → has_token F options tokens ≡ true
              → ((j : ℕ) → j ≤ n → at_most F (taken F options tokens) (of_ℕ j) ≡ true → rest ≤ j)
              → 1 + rest ≤ k
          one zero bound h e f = absurd (true_not_false (sym e ∙ laws.none_left tokens h))
          one (suc j) bound h e f = omega (
            arith,
            f j (omega (arith, bound)) (
                rw e (
                  laws.takes_one tokens j (omega (arith, bound))
                    (subst (λ m. at_most F tokens (of_ℕ m) ≡ true) (omega arith) h))),
          )

      abbrev left : Buckets F → ℕ → TokenBucketState F
      left buckets other = record {
        tokens = taken F options (tokens_of (buckets other));
        last_refill_at = now;
      }

      admitted_lem :
          (requests : List ℕ) (k : ℕ) (buckets : Buckets F)
          → k ≤ n
          → HasAtMost k (buckets key)
          → admitted key now requests buckets ≤ k
      unfolding admitted consume consume_bucket
      admitted_lem [] k buckets bound h = omega arith
      admitted_lem (other ∷ requests) k buckets bound h =
          elim (Bool-cases (is_back (buckets other))) [
            | inl back ↦
                rw (back, consume, consume_bucket)
                  (ground (arith, admitted_lem requests k buckets bound h))
            | inr onward ↦
                rw (onward, consume, consume_bucket)
                  (elim (Bool-cases (other == key)) [
                    | inr unlike ↦ rw unlike (
                        omega (
                          arith,
                          admitted_lem requests k (set F other (left buckets other) buckets) bound
                              (rw (set_miss other key (left buckets other) buckets unlike) h),
                        ))
                    | inl same ↦ rw same (
                        spent (tokens_of (buckets other)) k _ bound (hit same onward) (λ j b l.
                          admitted_lem requests j (set F other (left buckets other) buckets) b (
                            rw (set_hit other key (left buckets other) buckets same)
                              (again _ j l))))
                  ])
          ]
        where
          hit :
              (other == key) ≡ true
              → is_back (buckets other) ≡ false
              → at_most F (tokens_of (buckets other)) (of_ℕ k) ≡ true
          hit same onward =
              subst (λ o. is_back o ≡ false → at_most F (tokens_of o) (of_ℕ k) ≡ true)
                (ap buckets (sym ((==_iff other key).0 same))) h onward

-- Of the requests of a key at one reading of the clock, among requests of any keys and whatever the
-- buckets held before, no more than `n` are admitted, if the capacity is at most `n`. The laws of the
-- numbers that count down from `n` are those of the numbers of JavaScript up to 2⁵³.
pub admitted_bound :
    (F : Numbers) (n : ℕ) (laws : CountsDown F n) (options : TokenBucketRateLimiterOptions F)
    (key now : ℕ) (requests : List ℕ) (buckets : Buckets F)
    → at_most F options.capacity (F.of_ℕ n) ≡ true
    → admitted F options key now requests buckets ≤ n
admitted_bound F n laws options key now requests buckets h =
    admitted_lem F options n laws key now requests n buckets (omega arith)
      (full_lem F options n laws key now n (buckets key) h)
