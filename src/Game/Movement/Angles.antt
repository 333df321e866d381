-- ===== src/Game/Movement/Angles.antt =====
-- normalizeAngle: the range of its result, and how many rounds its loops take.
use burning_space.Base.{
  ◌+◌, ◌≤◌, ℕ, zero, suc, true, false, none, some, ◌≡◌, inl, inr, arith, refl, Bool-cases,
  Option-cases,
}
use burning_space.Game.Numbers.{Numbers, negate}
use burning_space.Game.Movement.{two_pi, wrap_up, wrap_down, normalize_angle}

module _ (F : Numbers) where
  open F use {Number, of_ℕ, add, sub, less, pi}

  -- Half-open interval (−π, π].
  abbrev pub IsNormal : Number → Type 0
  IsNormal a = (less (negate F pi) a ≡ true) × (less pi a ≡ false)

  -- An angle beyond π is still beyond −π after a turn back.
  abbrev pub IsTurnSafe : Type 0
  IsTurnSafe = (a : Number) → less pi a ≡ true → less (negate F pi) (sub a (two_pi F)) ≡ true

  wrap_up_above :
      (fuel : ℕ) (a b : Number) → wrap_up F fuel a ≡ some b → less (negate F pi) b ≡ true
  unfolding wrap_up
  wrap_up_above zero a b e = cc
  wrap_up_above (suc fuel) a b e = elim (Bool-cases (less (negate F pi) a)) [
    | inl h ↦ ground arith
    | inr h ↦ wrap_up_above fuel (add a (two_pi F)) b (ground arith)
  ]

  wrap_down-IsNormal :
      (fuel : ℕ) (a b : Number)
      → IsTurnSafe
      → less (negate F pi) a ≡ true
      → wrap_down F fuel a ≡ some b
      → IsNormal b
  unfolding wrap_down
  wrap_down-IsNormal zero a b safe above e = cc
  wrap_down-IsNormal (suc fuel) a b safe above e = elim (Bool-cases (less pi a)) [
    | inl h ↦ wrap_down-IsNormal fuel (sub a (two_pi F)) b safe (safe a h) (ground arith)
    | inr h ↦ (ground arith, ground arith)
  ]

  -- The angle that `normalizeAngle` returns lies in (−π, π], if an angle beyond π is still above −π
  -- after a full turn back.
  pub normalize_angle-IsNormal :
      (fuel : ℕ) (angle result : Number)
      → IsTurnSafe
      → normalize_angle F fuel angle ≡ some result
      → IsNormal result
  unfolding normalize_angle
  normalize_angle-IsNormal fuel angle result safe e = elim (Option-cases (wrap_up F fuel angle)) [
    | inl w ↦ cc
    | inr (a, w) ↦ wrap_down-IsNormal fuel a result safe (wrap_up_above fuel angle a w) cc
  ]

  -- `n` full turns on from an angle, and back from it.
  abbrev pub turned_on : ℕ → Number → Number
  turned_on zero a = a
  turned_on (suc n) a = turned_on n (add a (two_pi F))

  abbrev pub turned_back : ℕ → Number → Number
  turned_back zero a = a
  turned_back (suc n) a = turned_back n (sub a (two_pi F))

  wrap_up-stops :
      (n : ℕ) (a : Number)
      → less (negate F pi) (turned_on n a) ≡ true
      → (k : ℕ) × (k ≤ n) × (wrap_up F (suc n) a ≡ some (turned_on k a))
  unfolding wrap_up
  wrap_up-stops zero a h = (0, ground arith, ground arith)
  wrap_up-stops (suc n) a h = elim (Bool-cases (less (negate F pi) a)) [
    | inl l ↦ (0, ground arith, ground arith)
    | inr l ↦
        let (k, below, e) = wrap_up-stops n (add a (two_pi F)) h in
        (suc k, ground arith, ground arith)
  ]

  wrap_down-stops :
      (n : ℕ) (a : Number)
      → less pi (turned_back n a) ≡ false
      → (b : Number) × (wrap_down F (suc n) a ≡ some b)
  unfolding wrap_down
  wrap_down-stops zero a h = (a, ground arith)
  wrap_down-stops (suc n) a h = elim (Bool-cases (less pi a)) [
    | inl l ↦ let (b, e) = wrap_down-stops n (sub a (two_pi F)) h in (b, ground arith)
    | inr l ↦ (a, ground arith)
  ]

  wrap_up-more : (m k : ℕ) (a b : Number) → m ≤ k → wrap_up F m a ≡ some b → wrap_up F k a ≡ some b
  unfolding wrap_up
  wrap_up-more zero k a b le e = cc
  wrap_up-more (suc m) zero a b le e = ground arith
  wrap_up-more (suc m) (suc k) a b le e = elim (Bool-cases (less (negate F pi) a)) [
    | inl l ↦ ground arith
    | inr l ↦ ground (arith, wrap_up-more m k (add a (two_pi F)) b)
  ]

  wrap_down-more :
      (m k : ℕ) (a b : Number) → m ≤ k → wrap_down F m a ≡ some b → wrap_down F k a ≡ some b
  unfolding wrap_down
  wrap_down-more zero k a b le e = cc
  wrap_down-more (suc m) zero a b le e = ground arith
  wrap_down-more (suc m) (suc k) a b le e = elim (Bool-cases (less pi a)) [
    | inl l ↦ ground (arith, wrap_down-more m k (sub a (two_pi F)) b)
    | inr l ↦ ground arith
  ]

  -- `normalizeAngle` ends: if n full turns on bring the angle above −π, and m full turns back bring
  -- each angle on the way, from k ≤ n turns on, to at most π, then n + m + 1 rounds are enough for
  -- both loops, and the result lies in (−π, π], if an angle beyond π is above −π after a turn back.
  pub normalize_angle-ends :
      (n m : ℕ) (angle : Number)
      → IsTurnSafe
      → less (negate F pi) (turned_on n angle) ≡ true
      → ((k : ℕ) → k ≤ n → less pi (turned_back m (turned_on k angle)) ≡ false)
      → (result : Number) × (normalize_angle F (n + m + 1) angle ≡ some result) × IsNormal result
  unfolding normalize_angle
  normalize_angle-ends n m angle safe on back =
      let (k, below, up) = wrap_up-stops n angle on in
      let (b, down) = wrap_down-stops m (turned_on k angle) (back k below) in
      let up_more = wrap_up-more (suc n) (n + m + 1) angle (turned_on k angle) (omega arith) up in
      let down_more = wrap_down-more (suc m) (n + m + 1) (turned_on k angle) b (omega arith) down in
      let ended : normalize_angle F (n + m + 1) angle ≡ some b = cc in
      (b, ended, normalize_angle-IsNormal (n + m + 1) angle b safe ended)

  wrap_down-stuck :
      (fuel : ℕ) (a : Number) → less pi a ≡ true → sub a (two_pi F) ≡ a → wrap_down F fuel a ≡ none
  unfolding wrap_down
  wrap_down-stuck zero a beyond still = refl
  wrap_down-stuck (suc fuel) a beyond still = ground (arith, wrap_down-stuck fuel a beyond still)

  -- An angle above −π and beyond π that a turn back leaves as it is keeps the second loop going.
  pub normalize_angle-stuck :
      (fuel : ℕ) (a : Number)
      → less (negate F pi) a ≡ true
      → less pi a ≡ true
      → sub a (two_pi F) ≡ a
      → normalize_angle F fuel a ≡ none
  unfolding normalize_angle wrap_up
  normalize_angle-stuck zero a above beyond still = refl
  normalize_angle-stuck (suc fuel) a above beyond still =
      ground (arith, wrap_down-stuck (suc fuel) a beyond still)
