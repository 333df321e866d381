-- ===== src/Game/Room/Ships.antt =====
-- BattleRoom.ts: the ships of the sessions, and what is dropped with a session.
use burning_space.Base.{ℕ, true, Option, none, some, List, ◌∷◌, if◌then◌else◌}
use burning_space.Base.Maps.{get, has, put, delete}
use burning_space.Persistence.Schema.{Faction}
use burning_space.Persistence.SessionBinding.{remove}
use burning_space.Security.TokenBucket
use burning_space.Game.Numbers.{Numbers}
use burning_space.Game.Constants.{network_ship_max_health}
use burning_space.Game.Schema.{ShipState}
use burning_space.Game.Spawn.{get_faction_spawn_position}
use burning_space.Game.Combat.{is_faction}
use burning_space.Game.Input.{create_neutral_input}
use burning_space.Game.Room.{BattleRoom, is_among, send_room_info}

module _ (F : Numbers) where
  open F use {of_ℕ}

  unfoldable pub remove_ship : ℕ → BattleRoom F → BattleRoom F
  remove_ship session room =
      if has session room.ships
      then record room {
        ships = delete session room.ships;
        inputs = delete session room.inputs;
        weapons = delete session room.weapons;
        last_input_received_at = delete session room.last_input_received_at;
      }
      else room

  -- `neutralizeInput`: the last sequence number and aim are kept.
  abbrev pub last_sequence : ℕ → BattleRoom F → ℕ
  last_sequence session room = elim (get session room.inputs) [
    | some input ↦ input.sequence
    | none ↦ elim (get session room.ships) [
      | some ship ↦ ship.motion.last_processed_input
      | none ↦ 0
    ]
  ]

  abbrev pub last_aim : ℕ → BattleRoom F → F.Number
  last_aim session room = elim (get session room.inputs) [
    | some input ↦ input.aim_angle
    | none ↦ elim (get session room.ships) [ some ship ↦ ship.motion.rotation | none ↦ of_ℕ 0 ]
  ]

  unfoldable pub neutralize_input : ℕ → BattleRoom F → BattleRoom F
  neutralize_input session room = record room {
    inputs =
        put session
          (record (create_neutral_input F (last_sequence session room)) {
            aim_angle = last_aim session room;
          })
          room.inputs;
    last_input_received_at = delete session room.last_input_received_at;
  }

  abbrev pub without_session : ℕ → BattleRoom F → BattleRoom F
  without_session session room = record room {
    inputs = delete session room.inputs;
    weapons = delete session room.weapons;
    last_input_received_at = delete session room.last_input_received_at;
    profile_message_limiter = TokenBucket.delete F session room.profile_message_limiter;
    player_input_limiter = TokenBucket.delete F session room.player_input_limiter;
    last_profile_rate_limit_notice_at = delete session room.last_profile_rate_limit_notice_at;
  }

  abbrev pub unbound : ℕ → BattleRoom F → BattleRoom F
  unbound session room = record room {
    finalized_sessions = session ∷ room.finalized_sessions;
    bindings = (remove session room.bindings).1;
    participants = delete session room.participants;
  }

  unfoldable pub finalize_session : ℕ → BattleRoom F → BattleRoom F
  unfolding remove_ship
  finalize_session session room =
      if is_among session room.finalized_sessions
      then room
      else send_room_info F (without_session session (remove_ship session (unbound session room)))

  module _ (codes_of : ℕ → List ℕ) where
    abbrev pub spawned_ship : ℕ → List ℕ → Faction → ShipState F
    spawned_ship session nickname faction =
        let spawn = get_faction_spawn_position F faction (codes_of session) in
        record {
          id = session;
          owner_session_id = session;
          nickname = nickname;
          faction = faction;
          motion = record {
            x = spawn.x;
            y = spawn.y;
            rotation = spawn.rotation;
            velocity_x = of_ℕ 0;
            velocity_y = of_ℕ 0;
            last_processed_input = 0;
          };
          active = true;
          health = network_ship_max_health;
          max_health = network_ship_max_health;
          alive = true;
          respawn_at = 0;
          invulnerable_until = 0;
          last_damage_at = 0;
        }

    abbrev pub spawn_ship : ℕ → List ℕ → Faction → BattleRoom F → BattleRoom F
    spawn_ship session nickname faction room = record room {
      ships = put session (spawned_ship session nickname faction) room.ships;
      inputs = put session (create_neutral_input F 0) room.inputs;
      weapons = put session none room.weapons;
    }

    abbrev pub upsert_over :
        Option (ShipState F) → ℕ → List ℕ → Faction → BattleRoom F → BattleRoom F
    upsert_over none session nickname faction room = spawn_ship session nickname faction room
    upsert_over (some ship) session nickname faction room =
        if is_faction ship.faction faction
        then record room { ships = put session (record ship { nickname = nickname }) room.ships }
        else spawn_ship session nickname faction room

    unfoldable pub upsert_ship : ℕ → List ℕ → Faction → BattleRoom F → BattleRoom F
    upsert_ship session nickname faction room =
        upsert_over (get session room.ships) session nickname faction room
