-- ===== src/Game/Numbers.antt =====
-- The finite JavaScript numbers that coordinates, velocities and angles are, with the operations of
-- the language and of `Math` on them. A theorem that needs a law of this arithmetic names it.
use burning_space.Base.{ℕ, Bool, true, false, not, Option, ◌≡◌, if◌then◌else◌}

pub record Numbers : Type 1 where
  pub Number : Type 0
  pub of_ℕ : ℕ → Number
  pub add : Number → Number → Number
  pub sub : Number → Number → Number
  pub mul : Number → Number → Number
  pub div : Number → Number → Number
  pub less : Number → Number → Bool
  pub same : Number → Number → Bool
  pub sqrt : Number → Number
  pub cos : Number → Number
  pub sin : Number → Number
  pub hypot : Number → Number → Number
  pub pi : Number
  -- The value of a number that is a non-negative integer.
  pub whole : Number → Option ℕ

module _ (F : Numbers) where
  open F use {Number, of_ℕ, sub, less}

  -- `a <= b`: neither is NaN.
  abbrev pub at_most : Number → Number → Bool
  at_most a b = not (less b a)

  -- `Math.min`, `Math.max`, `Math.abs`, `Math.sign` and `-a`.
  abbrev pub lesser : Number → Number → Number
  lesser a b = if less b a then b else a

  abbrev pub greater : Number → Number → Number
  greater a b = if less a b then b else a

  abbrev pub negate : Number → Number
  negate a = sub (of_ℕ 0) a

  abbrev pub abs : Number → Number
  abs a = if less a (of_ℕ 0) then negate a else a

  abbrev pub sign : Number → Number
  sign a = if less a (of_ℕ 0) then negate (of_ℕ 1) else if less (of_ℕ 0) a then of_ℕ 1 else of_ℕ 0

  -- `<` goes one way only.
  abbrev pub IsAsymmetric : Type 0
  IsAsymmetric = (a b : Number) → less a b ≡ true → less b a ≡ false

  -- Numbers that `===` identifies compare alike.
  abbrev pub IsCompatible : Type 0
  IsCompatible =
      (a b : Number)
      → F.same a b ≡ true
      → (c : Number) → (less a c ≡ less b c) × (less c a ≡ less c b)
