-- ===== src/Game/Room/Tick.antt =====
-- BattleRoom.ts: updateSimulation, getRuntimeInput and tryRespawnShip.
use burning_space.Base.{
  ℕ, ◌-◌, Bool, false, not, ◌||◌, Option, none, some, List, [], ◌∷◌, ltb, leb, if◌then◌else◌,
}
use burning_space.Base.Maps.{Map, get, put}
use burning_space.Game.Numbers.{Numbers, lesser}
use burning_space.Game.Constants.{network_input_timeout_ms}
use burning_space.Game.Schema.{ShipState}
use burning_space.Game.Combat.{respawn_ship}
use burning_space.Game.Movement.{PlayerInput, simulate_ship_movement, ◌>>=◌}
use burning_space.Game.Input.{create_neutral_input}
use burning_space.Game.Room.{BattleRoom, or_else, is_process_authority_safe}
use burning_space.Game.Room.Weapons.{try_fire_projectile}
use burning_space.Game.Room.Projectiles.{update_projectiles}

-- `now - lastReceivedAt <= NETWORK_INPUT_TIMEOUT_MS`.
abbrev pub is_fresh : ℕ → Option ℕ → Bool
is_fresh now none = false
is_fresh now (some received) = leb (now - received) network_input_timeout_ms

-- The two readings of the clocks and the length of a tick.
module _ (F : Numbers) where
  open F use {of_ℕ, div}

  pub record TickTime : Type 0 where
    pub runtime_now : ℕ
    pub wall_now : ℕ
    pub delta_seconds : F.Number

  abbrev pub tick_time : F.Number → ℕ → ℕ → TickTime
  tick_time delta_time_ms runtime_now wall_now = record {
    runtime_now = runtime_now;
    wall_now = wall_now;
    delta_seconds = lesser F (div delta_time_ms (of_ℕ 1000)) (div (of_ℕ 1) (of_ℕ 10));
  }

  abbrev pub idle : PlayerInput F → PlayerInput F
  idle input = record (create_neutral_input F input.sequence) { aim_angle = input.aim_angle }

  abbrev pub last_input : ℕ → ShipState F → BattleRoom F → PlayerInput F
  last_input session ship room =
      or_else (get session room.inputs) (create_neutral_input F ship.motion.last_processed_input)

  unfoldable pub get_runtime_input : ℕ → ShipState F → ℕ → BattleRoom F → PlayerInput F
  get_runtime_input session ship now room =
      if is_fresh now (get session room.last_input_received_at)
      then last_input session ship room
      else idle (last_input session ship room)

  module _ (codes_of : ℕ → List ℕ) where
    abbrev pub armed : ℕ → ShipState F → BattleRoom F → BattleRoom F
    armed session ship room = record room {
      inputs = put session (create_neutral_input F ship.motion.last_processed_input) room.inputs;
      weapons = put session none room.weapons;
    }

    unfoldable pub try_respawn_ship :
        ShipState F → ℕ → ℕ → BattleRoom F → ShipState F × BattleRoom F
    try_respawn_ship ship session wall_now room =
        if leb ship.respawn_at 0 || ltb wall_now ship.respawn_at
        then (ship, room)
        else (respawn_ship F codes_of ship wall_now, armed session ship room)

    module _ (fuel : ℕ) where
      -- The callback for one ship; none if a loop of `normalizeAngle` needs more rounds than the
      -- fuel. It reads and writes no other ship.
      abbrev pub act :
          TickTime
          → ShipState F
          → PlayerInput F
          → BattleRoom F
          → Option (ShipState F × BattleRoom F)
      act time ship input room =
          simulate_ship_movement F fuel ship.motion input time.delta_seconds >>= λ motion. some (
            record ship { motion = motion },
            try_fire_projectile F (record ship { motion = motion }) input time.runtime_now
                time.wall_now room,
          )

      unfoldable pub step_ship :
          TickTime → ℕ → ShipState F → BattleRoom F → Option (ShipState F × BattleRoom F)
      unfolding try_respawn_ship
      step_ship time session ship room =
          if not ship.alive
          then some (try_respawn_ship ship session time.wall_now room)
          else if not ship.active
          then some (ship, room)
          else act time ship (get_runtime_input session ship time.runtime_now room) room

      unfoldable pub step_ships :
          TickTime → Map (ShipState F) → BattleRoom F → Option (Map (ShipState F) × BattleRoom F)
      step_ships time [] room = some ([], room)
      step_ships time ((session, ship) ∷ ships) room =
          step_ship time session ship room >>= λ stepped.
          step_ships time ships stepped.1 >>= λ others.
          some ((session, stepped.0) ∷ others.0, others.1)

      abbrev pub run_tick : TickTime → BattleRoom F → Option (BattleRoom F)
      run_tick time room = step_ships time room.ships room >>= λ stepped. some (
          update_projectiles F time.wall_now time.runtime_now time.delta_seconds
            (record stepped.1 { ships = stepped.0 }))

      unfoldable pub update_simulation :
          Bool → F.Number → ℕ → ℕ → BattleRoom F → Option (BattleRoom F)
      unfolding step_ships
      update_simulation safe delta_time_ms runtime_now wall_now room =
          let checked = is_process_authority_safe F safe room in
          if checked.0
          then run_tick (tick_time delta_time_ms runtime_now wall_now) checked.1
          else some checked.1
