-- ===== src/Game/Movement/Bounds.antt =====
-- simulateShipMovement keeps a ship inside the world.
use burning_space.Base.{
  subst, inr, inl, Option-cases, Bool-cases, ℕ, true, false, some, ◌≡◌, ◌-◌, arith,
}
use burning_space.Game.Numbers.{Numbers, at_most, IsAsymmetric, IsCompatible}
use burning_space.Game.Constants.{network_ship_radius, world_width, world_height}
use burning_space.Game.Movement.{
  time_step, PlayerInput, MutableShipMotionState, clamp, held, turned, limited, pushed,
  direction_of, time_step, advanced, simulate_ship_movement,
}

module _ (F : Numbers) where
  open F use {Number, of_ℕ, add, mul, less, same}

  abbrev pub IsWithin : Number → Number → Number → Type 0
  IsWithin low high value = (at_most F low value ≡ true) × (at_most F value high ≡ true)

  -- A coordinate that is at least a ship's radius away from both edges of the world.
  abbrev pub IsHeld : ℕ → Number → Type 0
  IsHeld extent = IsWithin (of_ℕ network_ship_radius) (of_ℕ (extent - network_ship_radius))

  -- The bounds of a world of this extent are in order.
  abbrev pub IsRoom : ℕ → Type 0
  IsRoom extent = less (of_ℕ (extent - network_ship_radius)) (of_ℕ network_ship_radius) ≡ false

  module _ (asymmetric : IsAsymmetric F) where
    less_irreflexive : (a : Number) → less a a ≡ false
    less_irreflexive a = ground (arith, asymmetric a a)

    pub clamp-IsWithin :
        (value low high : Number)
        → less high low ≡ false
        → IsWithin low high (clamp F value low high)
    clamp-IsWithin value low high ordered = (
      ground (arith, asymmetric low value, less_irreflexive low),
      ground (
        arith,
        asymmetric low value,
        less_irreflexive high,
        asymmetric high value,
        asymmetric low high,
      ),
    )

    module _ (compatible : IsCompatible F) where
      pub held-IsHeld :
          (extent : ℕ) (position velocity : Number)
          → IsRoom extent
          → IsHeld extent (held F extent position velocity).0
      held-IsHeld extent position velocity room =
          let c =
            clamp F position (of_ℕ network_ship_radius) (of_ℕ (extent - network_ship_radius)) in
          let inside =
            clamp-IsWithin position (of_ℕ network_ship_radius) (of_ℕ (extent - network_ship_radius))
              room in
          elim (Bool-cases (same c position)) [
            | inl e ↦ (
              ground (arith, inside.0, (compatible c position e (of_ℕ network_ship_radius)).0),
              ground (
                arith,
                inside.1,
                (compatible c position e (of_ℕ (extent - network_ship_radius))).1,
              ),
            )
            | inr e ↦ (ground (arith, inside.0), ground (arith, inside.1))
          ]

      -- Whatever the input, the angle and the elapsed time are, and wherever the ship was, a step of
      -- the movement leaves the whole ship inside the world: both coordinates are at least a ship's
      -- radius away from both edges. The order of the numbers is asymmetric, numbers that `===`
      -- identifies compare alike, and the radius is not beyond the far edge less the radius.
      pub simulate_ship_movement-IsHeld :
          (fuel : ℕ) (ship : MutableShipMotionState F) (input : PlayerInput F)
          (delta_seconds : Number) (after : MutableShipMotionState F)
          → IsRoom world_width
          → IsRoom world_height
          → simulate_ship_movement F fuel ship input delta_seconds ≡ some after
          → IsHeld world_width after.x × IsHeld world_height after.y
      unfolding simulate_ship_movement
      simulate_ship_movement-IsHeld fuel ship input delta_seconds after wide high e =
          elim (Option-cases (turned F fuel input (time_step F delta_seconds) ship)) [
            | inl t ↦ cc
            | inr (rotation, t) ↦
                let dt = time_step F delta_seconds in
                let velocity = limited F (pushed F (direction_of F input) dt ship) in
                let moved : advanced F input dt rotation velocity ship ≡ after = cc in
                subst (λ s. IsHeld world_width s.x × IsHeld world_height s.y) moved
                  (
                    held-IsHeld world_width (add ship.x (mul velocity.0 dt)) velocity.0 wide,
                    held-IsHeld world_height (add ship.y (mul velocity.1 dt)) velocity.1 high,
                  )
          ]
