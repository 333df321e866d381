-- ===== src/Game/Room/Invariants/Health.antt =====
-- A ship is either flying or waiting for its respawn.
use burning_space.Base.{ℕ, true, false, some, List, ◌≡◌, ◌<◌, ◌≤◌, arith}
use burning_space.Base.Maps.{Values}
use burning_space.Game.Numbers.{Numbers}
use burning_space.Game.Constants.{network_ship_max_health, network_projectile_damage}
use burning_space.Game.Schema.{ShipState}
use burning_space.Game.Combat.{apply_damage, respawn_ship}
use burning_space.Game.Room.{BattleRoom}
use burning_space.Game.Room.Events.{RoomSetting, RoomEvent, after_events}
use burning_space.Game.Room.Invariants.{IsStable}
use burning_space.Game.Room.Invariants.Runs.{after_events_keeps}

module _ (F : Numbers) where
  open F use {of_ℕ}

  -- An active ship with health left that waits for no respawn.
  abbrev pub IsFlying : ShipState F → Type 0
  IsFlying ship =
      (ship.active ≡ true)
      × (0 < ship.health)
      × (ship.health ≤ network_ship_max_health)
      × (ship.respawn_at ≡ 0)

  -- An inactive ship with no health that stands still and has a time of respawn.
  abbrev pub IsWrecked : ShipState F → Type 0
  IsWrecked ship =
      (ship.active ≡ false)
      × (ship.health ≡ 0)
      × (0 < ship.respawn_at)
      × (ship.motion.velocity_x ≡ of_ℕ 0)
      × (ship.motion.velocity_y ≡ of_ℕ 0)

  abbrev pub IsSound : ShipState F → Type 0
  IsSound ship = (ship.alive ≡ true → IsFlying ship) × (ship.alive ≡ false → IsWrecked ship)

  apply_damage-IsSound :
      (ship : ShipState F) (now : ℕ)
      → IsSound ship
      → IsSound (apply_damage F ship network_projectile_damage now).1
  unfolding apply_damage
  apply_damage-IsSound ship now h = ground arith

  module _ (setting : RoomSetting F) where
    IsSound-IsStable : IsStable F setting IsSound
    unfolding respawn_ship
    IsSound-IsStable = record {
      spawned = λ session nickname faction. ground arith;
      renamed = λ ship nickname h. h;
      steered = λ ship input delta motion h alive e. ground (arith, h.0 alive);
      respawned = λ ship now h. ground arith;
      struck = apply_damage-IsSound;
    }

    -- After any sequence of the room's handlers, every ship is alive, active, with health from 1 to
    -- 100 and no time of respawn, or it is not alive, inactive, still, without health and with a time
    -- of respawn, if this holds of every ship at the start.
    pub after_events-IsSound :
        (events : List (RoomEvent F)) (room after : BattleRoom F)
        → Values IsSound room.ships
        → after_events F setting events room ≡ some after
        → Values IsSound after.ships
    after_events-IsSound events room after h e =
        after_events_keeps F setting IsSound IsSound-IsStable events room h e
