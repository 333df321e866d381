-- ===== src/Game/Schema.antt =====
-- apps/server/src/schema: the state of the room that is synchronised with its clients. A session
-- identifier is a number; the ship of a session has the session's identifier.
use burning_space.Base.{ℕ, Bool, Option, List}
use burning_space.Persistence.Schema.{Faction}
use burning_space.Game.Numbers.{Numbers}
use burning_space.Game.Movement.{MutableShipMotionState}

-- `'player' | 'spectator'`.
pub data JoinMode : Type 0 where
  player spectator : JoinMode

-- The faction `''` is none.
pub record ParticipantState : Type 0 where
  pub session_id : ℕ
  pub nickname : List ℕ
  pub mode : JoinMode
  pub faction : Option Faction
  pub connected_at : ℕ
  pub profile_ready : Bool

module _ (F : Numbers) where
  -- `motion` has the fields x to lastProcessedInput that the movement changes.
  pub record ShipState : Type 0 where
    pub id : ℕ
    pub owner_session_id : ℕ
    pub nickname : List ℕ
    pub faction : Faction
    pub motion : MutableShipMotionState F
    pub active : Bool
    pub health : ℕ
    pub max_health : ℕ
    pub alive : Bool
    pub respawn_at : ℕ
    pub invulnerable_until : ℕ
    pub last_damage_at : ℕ

  pub record ProjectileState : Type 0 where
    pub id : ℕ
    pub owner_session_id : ℕ
    pub faction : Faction
    pub x : F.Number
    pub y : F.Number
    pub previous_x : F.Number
    pub previous_y : F.Number
    pub velocity_x : F.Number
    pub velocity_y : F.Number
    pub rotation : F.Number
    pub spawn_x : F.Number
    pub spawn_y : F.Number
    pub distance_traveled : F.Number
    pub active : Bool
    pub created_at : ℕ
