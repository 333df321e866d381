-- ===== src/Game/Room.antt =====
-- apps/server/src/rooms/BattleRoom.ts: the state of the room, and the parts of it that every handler
-- uses. The session bindings of its dependencies are among the fields, and `sent` has the messages
-- that the room sent, the latest first. A weapon's `lastShotAt` is none where the source has
-- -Infinity. Both clocks read whole milliseconds.
pub mod Ships
pub mod Weapons
pub mod Projectiles
pub mod Tick
pub mod Inputs
pub mod Profiles
pub mod Sessions
pub mod Events
pub mod Invariants
pub mod Fence
pub mod Generations
pub mod Reconnects
pub mod Magazine
pub mod Leases
pub mod Auth
use burning_space.Base.{
  ℕ, Bool, true, false, Option, none, some, List, [], ◌∷◌, ◌||◌, ◌==◌, if◌then◌else◌,
}
use burning_space.Base.Maps.{Map, get}
use burning_space.Persistence.SessionBinding.{Bindings}
use burning_space.Security.TokenBucket.{Buckets, TokenBucketRateLimiterOptions}
use burning_space.Game.Numbers.{Numbers}
use burning_space.Game.Schema.{ParticipantState, ShipState, ProjectileState}
use burning_space.Game.Movement.{PlayerInput}
use burning_space.Game.Profile.{ProfileFault}

abbrev pub or_else {ℓ} : {A : Type ℓ} → Option A → A → A
or_else none default = default
or_else (some a) default = a

abbrev pub is_among : ℕ → List ℕ → Bool
is_among n [] = false
is_among n (m ∷ ms) = (m == n) || is_among n ms

-- Why a profile is not accepted.
pub data ProfileRejection : Type 0 where
  rate_limited no_participant mode_or_faction_fixed retry faction_assigned identity_elsewhere :
      ProfileRejection
  faulty : ProfileFault → ProfileRejection

module _ (F : Numbers) where
  pub data RoomMessage : Type 0 where
    -- projectileId, targetShipId, x, y, damage.
    hit_event : ℕ → ℕ → F.Number → F.Number → ℕ → RoomMessage
    -- shipId, x, y, respawnAt.
    ship_destroyed : ℕ → F.Number → F.Number → ℕ → RoomMessage
    room_info : RoomMessage
    profile_accepted : ℕ → ParticipantState → RoomMessage
    profile_rejected : ℕ → ProfileRejection → RoomMessage

  pub record BattleRoom : Type 0 where
    pub participants : Map ParticipantState
    pub ships : Map (ShipState F)
    pub projectiles : Map (ProjectileState F)
    pub inputs : Map (PlayerInput F)
    pub weapons : Map (Option ℕ)
    pub last_input_received_at : Map ℕ
    pub last_profile_rate_limit_notice_at : Map ℕ
    pub player_input_limiter : Buckets F
    pub profile_message_limiter : Buckets F
    pub finalized_sessions : List ℕ
    pub next_projectile_id : ℕ
    pub has_observed_authority_safe : Bool
    pub process_authority_lost : Bool
    pub bindings : Bindings
    pub sent : List RoomMessage

  abbrev pub send : RoomMessage → BattleRoom → BattleRoom
  send message room = record room { sent = message ∷ room.sent }

  abbrev pub send_room_info : BattleRoom → BattleRoom
  send_room_info = send room_info

  -- `isProcessAuthoritySafe`, where the writer's own answer is `safe`, false without dependencies.
  abbrev pub is_process_authority_safe : Bool → BattleRoom → Bool × BattleRoom
  is_process_authority_safe safe room =
      if room.process_authority_lost
      then (false, room)
      else if safe
      then (true, record room { has_observed_authority_safe = true })
      else if room.has_observed_authority_safe
      then (false, record room { process_authority_lost = true })
      else (false, room)
