-- ===== src/Game/Room/Invariants/Position.antt =====
-- A ship never leaves the world.
use burning_space.Base.{◌-◌, ℕ, some, List, ◌≡◌, leb, Bool-cases, inl, inr}
use burning_space.Base.Maps.{Values}
use burning_space.Persistence.Schema.{Faction}
use burning_space.Game.Numbers.{Numbers, IsAsymmetric, IsCompatible}
use burning_space.Game.Constants.{network_projectile_damage, world_width, world_height}
use burning_space.Game.Schema.{ShipState}
use burning_space.Game.Combat.{apply_damage, respawn_ship}
use burning_space.Game.Spawn.{get_faction_spawn_position}
use burning_space.Game.Movement.Bounds.{
  IsHeld, IsRoom, clamp-IsWithin, simulate_ship_movement-IsHeld,
}
use burning_space.Game.Room.{BattleRoom}
use burning_space.Game.Room.Events.{RoomSetting, RoomEvent, after_events}
use burning_space.Game.Room.Invariants.{IsStable}
use burning_space.Game.Room.Invariants.Runs.{after_events_keeps}

module _ (F : Numbers) where
  open F use {of_ℕ}

  -- The whole ship is inside the world.
  abbrev pub IsInside : ShipState F → Type 0
  IsInside ship = IsHeld F world_width ship.motion.x × IsHeld F world_height ship.motion.y

  apply_damage-IsInside :
      (ship : ShipState F) (now : ℕ)
      → IsInside ship
      → IsInside (apply_damage F ship network_projectile_damage now).1
  unfolding apply_damage
  apply_damage-IsInside ship now h = elim (Bool-cases ship.alive) [
    | inl a ↦ elim (Bool-cases (leb (ship.health - network_projectile_damage) 0)) [
      | inl k ↦ rw a (rw k h)
      | inr k ↦ rw a (rw k h)
    ]
    | inr a ↦ rw a h
  ]

  module _ (asymmetric : IsAsymmetric F) (compatible : IsCompatible F) (wide : IsRoom F world_width)
      (high : IsRoom F world_height) where
    -- A ship of either faction enters the world, or comes back to it, inside its bounds, whatever its
    -- session identifier is and whatever sine and cosine answer.
    pub get_faction_spawn_position-IsHeld :
        (faction : Faction) (codes : List ℕ)
        → IsHeld F world_width (get_faction_spawn_position F faction codes).x
          × IsHeld F world_height (get_faction_spawn_position F faction codes).y
    get_faction_spawn_position-IsHeld faction codes =
        (clamp-IsWithin F asymmetric _ _ _ wide, clamp-IsWithin F asymmetric _ _ _ high)

    module _ (setting : RoomSetting F) where
      IsInside-IsStable : IsStable F setting IsInside
      unfolding respawn_ship
      IsInside-IsStable = record {
        spawned = λ session nickname faction.
            get_faction_spawn_position-IsHeld faction (setting.codes_of session);
        renamed = λ ship nickname h. h;
        steered = λ ship input delta motion h alive e.
            simulate_ship_movement-IsHeld F asymmetric compatible setting.fuel ship.motion input
              delta motion wide high e;
        respawned = λ ship now h.
            get_faction_spawn_position-IsHeld ship.faction (setting.codes_of ship.owner_session_id);
        struck = apply_damage-IsInside;
      }

      -- After any sequence of the room's handlers every ship is inside the world with all of its
      -- radius, if every ship is so at the start. The order of the numbers is asymmetric, numbers
      -- that `===` identifies compare alike, and the radius is not beyond the far edges less it.
      pub after_events-IsInside :
          (events : List (RoomEvent F)) (room after : BattleRoom F)
          → Values IsInside room.ships
          → after_events F setting events room ≡ some after
          → Values IsInside after.ships
      after_events-IsInside events room after h e =
          after_events_keeps F setting IsInside IsInside-IsStable events room h e
