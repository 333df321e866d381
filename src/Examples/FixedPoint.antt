-- ===== src/Examples/FixedPoint.antt =====
-- Numbers in thousandths, as a difference of two natural numbers, for the examples of the game.
use burning_space.Base.{
  not, ◌||◌, ◌&&◌, ℕ, zero, suc, ◌+◌, ◌-◌, ◌*◌, ◌/◌, true, false, none, some, arith, ltb, leb, ◌==◌,
  if◌then◌else◌,
}
use burning_space.Game.Numbers.{Numbers, IsAsymmetric, IsCompatible}
use burning_space.Game.Movement.Angles.{IsTurnSafe}
use burning_space.Game.Room.Projectiles.Hits.{IsTotal}

abbrev pub Fixed : Type 0
Fixed = ℕ × ℕ

abbrev normal : Fixed → Fixed
normal a = (a.0 - a.1, a.1 - a.0)

abbrev plus : Fixed → Fixed → Fixed
plus a b = (a.0 + b.0, a.1 + b.1)

abbrev minus : Fixed → Fixed → Fixed
minus a b = (a.0 + b.1, a.1 + b.0)

abbrev scaled : Fixed → Fixed
scaled a = (a.0 / 1000, a.1 / 1000)

abbrev times : Fixed → Fixed → Fixed
times a b = scaled (normal (a.0 * b.0 + a.1 * b.1, a.0 * b.1 + a.1 * b.0))

abbrev size : Fixed → ℕ
size a = (a.0 - a.1) + (a.1 - a.0)

abbrev over : Fixed → Fixed → Fixed
over a b =
    if (ltb a.0 a.1 && ltb b.0 b.1) || (not (ltb a.0 a.1) && not (ltb b.0 b.1))
    then (size a * 1000 / size b, 0)
    else (0, size a * 1000 / size b)

-- The root between two bounds, by halving.
abbrev root : ℕ → ℕ → ℕ → ℕ → ℕ
root zero low high n = low
root (suc fuel) low high n = elim (leb ((low + high) / 2 * ((low + high) / 2)) n) [
  | true ↦ root fuel ((low + high) / 2) high n
  | false ↦ root fuel low ((low + high) / 2) n
]

abbrev pub fixed : Numbers
fixed = record {
  Number = Fixed;
  of_ℕ = λ n. (n * 1000, 0);
  add = plus;
  sub = minus;
  mul = times;
  div = over;
  less = λ a b. ltb (a.0 + b.1) (b.0 + a.1);
  same = λ a b. a.0 + b.1 == b.0 + a.1;
  sqrt = λ a. (root 60 0 (size a * 1000 + 1) (size a * 1000), 0);
  cos = λ a. minus (1000, 0) (times (500, 0) (times a a));
  sin = λ a. a;
  hypot = λ a b. (size a + size b, 0);
  pi = (3142, 0);
  whole = λ a. if leb a.1 a.0 then some ((a.0 - a.1) / 1000) else none;
}

pub fixed-IsAsymmetric : IsAsymmetric fixed
fixed-IsAsymmetric a b h = ground arith

pub fixed-IsCompatible : IsCompatible fixed
fixed-IsCompatible a b e c = (ground arith, ground arith)

pub fixed-IsTotal : IsTotal fixed
fixed-IsTotal a b c h k = ground arith

pub fixed-IsTurnSafe : IsTurnSafe fixed
fixed-IsTurnSafe a h = ground arith

-- The same numbers, where a difference from more than a million loses the smaller number.
abbrev pub coarse : Numbers
coarse = record fixed { sub = λ a b. if ltb (1000000000 + a.1) a.0 then a else minus a b }
