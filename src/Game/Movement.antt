-- ===== src/Game/Movement.antt =====
-- apps/server/src/systems/shipMovement.ts.
pub mod Angles
pub mod Bounds
use burning_space.Base.{
  ℕ, zero, suc, Bool, true, false, not, ◌||◌, Option, none, some, if◌then◌else◌, ◌-◌,
}
use burning_space.Game.Numbers.{Numbers, at_most, lesser, greater, negate, abs, sign}
use burning_space.Game.Constants.{
  network_ship_acceleration, network_ship_deceleration, network_ship_max_speed, network_ship_radius,
  network_ship_turn_speed, world_width, world_height,
}

infixl 5 ◌>>=◌
abbrev pub ◌>>=◌ : {A B : Type 0} → Option A → (A → Option B) → Option B
none >>= f = none
some a >>= f = f a

module _ (F : Numbers) where
  open F use {Number, of_ℕ, add, sub, mul, div, less, same, hypot, pi}

  pub record PlayerInput : Type 0 where
    pub up : Bool
    pub down : Bool
    pub left : Bool
    pub right : Bool
    pub aim_angle : Number
    pub shooting : Bool
    pub sequence : ℕ

  pub record MutableShipMotionState : Type 0 where
    pub x : Number
    pub y : Number
    pub rotation : Number
    pub velocity_x : Number
    pub velocity_y : Number
    pub last_processed_input : ℕ

  abbrev pub clamp : Number → Number → Number → Number
  clamp value low high = lesser F high (greater F low value)

  abbrev pub move_toward : Number → Number → Number → Number
  move_toward current target max_delta =
      if at_most F (abs F (sub target current)) max_delta
      then target
      else add current (mul (sign F (sub target current)) max_delta)

  abbrev pub two_pi : Number
  two_pi = mul pi (of_ℕ 2)

  -- The two loops of `normalizeAngle`; none if a loop needs more rounds than the fuel.
  unfoldable pub wrap_up : ℕ → Number → Option Number
  wrap_up zero angle = none
  wrap_up (suc fuel) angle = elim (at_most F angle (negate F pi)) [
    | true ↦ wrap_up fuel (add angle two_pi)
    | false ↦ some angle
  ]

  unfoldable pub wrap_down : ℕ → Number → Option Number
  wrap_down zero angle = none
  wrap_down (suc fuel) angle = elim (less pi angle) [
    | true ↦ wrap_down fuel (sub angle two_pi)
    | false ↦ some angle
  ]

  unfoldable pub normalize_angle : ℕ → Number → Option Number
  unfolding wrap_up wrap_down
  normalize_angle fuel angle = wrap_up fuel angle >>= wrap_down fuel

  unfoldable pub rotate_toward : ℕ → Number → Number → Number → Option Number
  unfolding normalize_angle
  rotate_toward fuel current target max_delta =
      normalize_angle fuel (sub target current) >>= λ delta.
      if at_most F (abs F delta) max_delta
      then normalize_angle fuel target
      else normalize_angle fuel (add current (mul (sign F delta) max_delta))

  abbrev pub clamp_magnitude : Number → Number → Number → Number × Number
  clamp_magnitude x y max_magnitude =
      if at_most F (hypot x y) max_magnitude || at_most F (hypot x y) (of_ℕ 0)
      then (x, y)
      else (mul x (div max_magnitude (hypot x y)), mul y (div max_magnitude (hypot x y)))

  abbrev pub normalize_direction : Number → Number → Number × Number
  normalize_direction x y =
      if at_most F (hypot x y) (of_ℕ 0)
      then (of_ℕ 0, of_ℕ 0)
      else (div x (hypot x y), div y (hypot x y))

  abbrev pub axis : Bool → Bool → Number
  axis forward backward =
      sub (if forward then of_ℕ 1 else of_ℕ 0) (if backward then of_ℕ 1 else of_ℕ 0)

  abbrev pub time_step : Number → Number
  time_step delta_seconds = clamp delta_seconds (of_ℕ 0) (div (of_ℕ 1) (of_ℕ 10))

  abbrev pub direction_of : PlayerInput → Number × Number
  direction_of input = normalize_direction (axis input.right input.left) (axis input.down input.up)

  -- The velocity after the acceleration, or after the deceleration when no key is held.
  abbrev pub pushed : Number × Number → Number → MutableShipMotionState → Number × Number
  pushed direction dt ship =
      if not (same direction.0 (of_ℕ 0)) || not (same direction.1 (of_ℕ 0))
      then (
        add ship.velocity_x (mul (mul direction.0 (of_ℕ network_ship_acceleration)) dt),
        add ship.velocity_y (mul (mul direction.1 (of_ℕ network_ship_acceleration)) dt),
      )
      else (
        move_toward ship.velocity_x (of_ℕ 0) (mul (of_ℕ network_ship_deceleration) dt),
        move_toward ship.velocity_y (of_ℕ 0) (mul (of_ℕ network_ship_deceleration) dt),
      )

  abbrev pub limited : Number × Number → Number × Number
  limited velocity = clamp_magnitude velocity.0 velocity.1 (of_ℕ network_ship_max_speed)

  -- A coordinate and its velocity, held inside the world.
  abbrev pub held : ℕ → Number → Number → Number × Number
  held extent position velocity =
      if not (
        same (clamp position (of_ℕ network_ship_radius) (of_ℕ (extent - network_ship_radius)))
          position)
      then (clamp position (of_ℕ network_ship_radius) (of_ℕ (extent - network_ship_radius)), of_ℕ 0)
      else (position, velocity)

  abbrev pub advanced :
      PlayerInput
      → Number
      → Number
      → Number × Number
      → MutableShipMotionState
      → MutableShipMotionState
  advanced input dt rotation velocity ship =
      let (x, velocity_x) = held world_width (add ship.x (mul velocity.0 dt)) velocity.0 in
      let (y, velocity_y) = held world_height (add ship.y (mul velocity.1 dt)) velocity.1 in
      record {
        x = x;
        y = y;
        rotation = rotation;
        velocity_x = velocity_x;
        velocity_y = velocity_y;
        last_processed_input = input.sequence;
      }

  unfoldable pub turned : ℕ → PlayerInput → Number → MutableShipMotionState → Option Number
  unfolding normalize_angle rotate_toward
  turned fuel input dt ship = normalize_angle fuel input.aim_angle >>= λ target.
      rotate_toward fuel ship.rotation target (mul (of_ℕ network_ship_turn_speed) dt)

  -- `simulateShipMovement`; none if a loop of `normalizeAngle` needs more rounds than the fuel.
  unfoldable pub simulate_ship_movement :
      ℕ → MutableShipMotionState → PlayerInput → Number → Option MutableShipMotionState
  unfolding turned
  simulate_ship_movement fuel ship input delta_seconds =
      turned fuel input (time_step delta_seconds) ship >>= λ rotation. some (
        advanced input (time_step delta_seconds) rotation
          (limited (pushed (direction_of input) (time_step delta_seconds) ship)) ship)
