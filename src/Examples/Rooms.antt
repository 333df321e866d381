-- ===== src/Examples/Rooms.antt =====
-- A room with a ship of each faction, and the theorems on the game applied to it.
use burning_space.Game.Room.Projectiles.Hits.{find_projectile_hit-IsFirst, IsFirst, IsImpactOf}
use burning_space.Game.Room.Projectiles.{Impact, impact_of, find_projectile_hit}
use burning_space.Game.Room.Weapons.{count_active}
use burning_space.Game.Room.Inputs.Acceptance.{handle_player_input_told, IsTaken, IsIgnored}
use burning_space.Game.Room.Fence.{after_events-fenced}
use burning_space.Game.Room.Magazine.Runs.{after_events-IsLoaded}
use burning_space.Game.Room.Invariants.Health.{after_events-IsSound, IsSound}
use burning_space.Game.Room.Magazine.{IsLoaded}
use burning_space.Game.Room.Invariants.Position.{
  after_events-IsInside, get_faction_spawn_position-IsHeld, IsInside,
}
use burning_space.Game.Room.Inputs.{is_admitted, handle_player_input}
use burning_space.Game.Room.Tick.{step_ships, update_simulation}
use burning_space.Base.{
  ◌⊎◌, ℕ, ◌≡◌, ◌+◌, ◌≤◌, refl, arith, none, some, true, false, Bool, Option, List, [], ◌∷◌, inl,
  inr, ◌||◌, ◌&&◌, ◌==◌, leb, All,
}
use burning_space.Base.Maps.{Map, Values}
use burning_space.Persistence.Schema.{red, blue}
use burning_space.Persistence.SessionBinding.{is_control_allowed, SessionBinding, recovering}
use burning_space.Security.TokenBucket.{consume, TokenBucketRateLimiterOptions}
use burning_space.Examples.FixedPoint.{fixed, fixed-IsAsymmetric, fixed-IsCompatible, fixed-IsTotal}
use burning_space.Game.Schema.{ShipState, ProjectileState, ParticipantState, player}
use burning_space.Game.Messages.{
  JsValue, Property, object, boolean, number, finite, undefined, up, down, left, right, aim_angle,
  shooting, sequence,
}
use burning_space.Game.Movement.{PlayerInput}
use burning_space.Game.Nickname.{TextClasses}
use burning_space.Game.Room.{BattleRoom, or_else}
use burning_space.Game.Room.Ships.{spawned_ship}
use burning_space.Game.Room.Events.{
  leaves, leave_begins, after_event, ticks, inputs_arrive, RoomSetting, RoomEvent, after_events,
}

abbrev pub classes : TextClasses
classes = record {
  is_space = λ c. c == 32;
  is_other = λ c. leb c 31;
  is_letter = λ c. leb 97 c && leb c 122;
  is_number = λ c. leb 48 c && leb c 57;
}

abbrev pub limit : TokenBucketRateLimiterOptions fixed
limit = record { capacity = (30000, 0); refill_rate_per_second = (20000, 0) }

abbrev pub setting : RoomSetting fixed
setting = record {
  codes_of = λ session. (97 + session) ∷ [];
  fuel = 10;
  classes = classes;
  input_limit = limit;
  profile_limit = limit;
}

abbrev red_ship : ShipState fixed
red_ship = spawned_ship fixed setting.codes_of 1 (97 ∷ []) red

abbrev blue_ship : ShipState fixed
blue_ship = record (spawned_ship fixed setting.codes_of 2 (98 ∷ []) blue) { health = 10 }

-- A projectile of the red ship on top of the blue one, which has 10 of its health left.
abbrev projectile : ProjectileState fixed
projectile = record {
  id = 1;
  owner_session_id = 1;
  faction = red;
  x = blue_ship.motion.x;
  y = blue_ship.motion.y;
  previous_x = blue_ship.motion.x;
  previous_y = blue_ship.motion.y;
  velocity_x = (1200000, 0);
  velocity_y = (0, 0);
  rotation = (0, 0);
  spawn_x = blue_ship.motion.x;
  spawn_y = blue_ship.motion.y;
  distance_traveled = (0, 0);
  active = true;
  created_at = 900;
}

abbrev pub participant : ℕ → ParticipantState
participant session = record {
  session_id = session;
  nickname = 97 ∷ [];
  mode = player;
  faction = some red;
  connected_at = 0;
  profile_ready = true;
}

abbrev pub binding : SessionBinding
binding = record {
  session_id = 1;
  player_id = 11;
  credential_id = 21;
  world_id = 5;
  connection_generation = 0;
  control_allowed = true;
  lease_id = some 31;
  lease_status = some recovering;
}

abbrev pub room : BattleRoom fixed
room = record {
  participants = (1, participant 1) ∷ (2, participant 2) ∷ [];
  ships = (1, red_ship) ∷ (2, blue_ship) ∷ [];
  projectiles = (1, projectile) ∷ [];
  inputs = [];
  weapons = [];
  last_input_received_at = [];
  last_profile_rate_limit_notice_at = [];
  player_input_limiter = λ session. none;
  profile_message_limiter = λ session. none;
  finalized_sessions = [];
  next_projectile_id = 2;
  has_observed_authority_safe = true;
  process_authority_lost = false;
  bindings = binding ∷ [];
  sent = [];
}

-- A message of a player that flies to the right and shoots.
abbrev pub fields : Property → JsValue fixed
fields right = boolean true
fields shooting = boolean true
fields aim_angle = number (finite (1000, 0))
fields sequence = number (finite (7000, 0))
fields up = boolean false
fields down = boolean false
fields left = boolean false
fields _ = undefined

-- Its arrival, a tick that shoots and kills, and a tick after the blue ship's respawn is due.
abbrev events : List (RoomEvent fixed)
events =
    inputs_arrive true 1 1000 1000 (object fields)
    ∷ ticks true (50000, 0) 1010 1010
    ∷ ticks true (50000, 0) 5000 5000
    ∷ []

abbrev later_room : BattleRoom fixed
later_room = or_else (after_events fixed setting events room) room

-- The run comes to its end.
ran : after_events fixed setting events room ≡ some later_room
unfolding after_events after_event update_simulation handle_player_input step_ships
    burning_space.Security.TokenBucket.consume burning_space.Base.Maps.get
    burning_space.Game.Input.validate_player_input_message burning_space.Game.Room.Tick.step_ship
    burning_space.Game.Movement.simulate_ship_movement
    burning_space.Game.Room.Tick.get_runtime_input burning_space.Base.Maps.put
    burning_space.Game.Room.Weapons.try_fire_projectile burning_space.Game.Room.Weapons.count_active
    burning_space.Game.Room.Projectiles.update_projectiles burning_space.Game.Spawn.hash_on
    burning_space.Game.Room.Projectiles.find_projectile_hit
    burning_space.Game.Combat.segment_circle_intersection_t
ran = refl

after_events-IsSound_example : Values (IsSound fixed) later_room.ships
after_events-IsSound_example =
    after_events-IsSound fixed setting events room later_room (ground arith, (ground arith, tt)) ran

red-IsInside : IsInside fixed red_ship
red-IsInside =
    get_faction_spawn_position-IsHeld fixed fixed-IsAsymmetric fixed-IsCompatible refl refl red
      (98 ∷ [])

blue-IsInside : IsInside fixed blue_ship
blue-IsInside =
    get_faction_spawn_position-IsHeld fixed fixed-IsAsymmetric fixed-IsCompatible refl refl blue
      (99 ∷ [])

after_events-IsInside_example : Values (IsInside fixed) later_room.ships
after_events-IsInside_example =
    after_events-IsInside fixed fixed-IsAsymmetric fixed-IsCompatible refl refl setting events room
      later_room (red-IsInside, (blue-IsInside, tt)) ran

room-IsLoaded : IsLoaded fixed room
unfolding count_active
room-IsLoaded owner = ground arith

after_events-IsLoaded_example : IsLoaded fixed later_room
after_events-IsLoaded_example =
    after_events-IsLoaded fixed setting events room later_room room-IsLoaded ran

find_projectile_hit-IsFirst_example :
    ((find_projectile_hit fixed projectile 1000 room.ships ≡ none)
      × All (λ e. impact_of fixed projectile 1000 e.1 ≡ none) room.ships)
    ⊎ ((impact : Impact fixed) × (find_projectile_hit fixed projectile 1000 room.ships
          ≡ some impact)
        × IsImpactOf fixed projectile 1000 impact room.ships
        × IsFirst fixed projectile 1000 impact.t room.ships)
find_projectile_hit-IsFirst_example =
    find_projectile_hit-IsFirst fixed projectile 1000 fixed-IsAsymmetric fixed-IsTotal room.ships

abbrev answered_room : BattleRoom fixed
answered_room =
    or_else (handle_player_input fixed limit 10 true 1 1000 1000 (object fields) room) room

handle_player_input_told_example :
    IsIgnored fixed limit 10 room answered_room
    ⊎ ((true ≡ true)
        × (room.process_authority_lost ≡ false)
        × (is_control_allowed 1 room.bindings ≡ true)
        × (is_admitted fixed limit 10 (consume fixed limit 1 1000 room.player_input_limiter).0
            ≡ true)
        × IsTaken fixed limit 10 1 1000 (object fields) room answered_room)
unfolding handle_player_input burning_space.Security.TokenBucket.consume burning_space.Base.Maps.get
    burning_space.Game.Input.validate_player_input_message
handle_player_input_told_example =
    handle_player_input_told fixed limit 10 true 1 1000 1000 (object fields) room answered_room refl

-- The room after it saw the loss of the authority, and a session that leaves it.
abbrev lost_room : BattleRoom fixed
lost_room = record room { process_authority_lost = true }

abbrev last_events : List (RoomEvent fixed)
last_events = ticks true (50000, 0) 1010 1010 ∷ leave_begins 2 ∷ leaves 2 ∷ []

abbrev last_room : BattleRoom fixed
last_room = or_else (after_events fixed setting last_events lost_room) room

after_events-fenced_example :
    (last_room.process_authority_lost ≡ true)
    × (last_room.projectiles ≡ lost_room.projectiles)
    × (last_room.next_projectile_id ≡ lost_room.next_projectile_id)
    × Values (λ ship. ship.alive ≡ true) last_room.ships
unfolding after_events after_event update_simulation
after_events-fenced_example =
    after_events-fenced fixed (λ ship. ship.alive ≡ true) setting last_events lost_room last_room
      refl (refl, (refl, tt)) refl
