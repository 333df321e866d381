-- ===== src/Game/Room/Events.antt =====
-- The handlers of BattleRoom.ts, in any order that the event loop runs them.
use burning_space.Base.{ℕ, Bool, Option, some, List, [], ◌∷◌}
use burning_space.Persistence.Authority.{ProfileTransactionResult}
use burning_space.Persistence.SessionBinding.{BindFreshSessionAuth}
use burning_space.Security.TokenBucket.{TokenBucketRateLimiterOptions}
use burning_space.Game.Numbers.{Numbers}
use burning_space.Game.Schema.{ParticipantState}
use burning_space.Game.Movement.{◌>>=◌}
use burning_space.Game.Messages.{JsValue}
use burning_space.Game.Nickname.{TextClasses}
use burning_space.Game.Room.{BattleRoom}
use burning_space.Game.Room.Tick.{update_simulation}
use burning_space.Game.Room.Inputs.{handle_player_input}
use burning_space.Game.Room.Profiles.{PendingProfile, begin_profile, complete_profile}
use burning_space.Game.Room.Sessions.{
  PendingReconnect, on_join, begin_leave, leave_consented, leave_marked, leave_timed_out,
  begin_reconnect, complete_reconnect, heartbeat_settled,
}

module _ (F : Numbers) where
  -- What the room is made with: the text of the session identifiers, the rounds of the loops of
  -- `normalizeAngle`, the Unicode properties, and the limits on messages.
  pub record RoomSetting : Type 0 where
    pub codes_of : ℕ → List ℕ
    pub fuel : ℕ
    pub classes : TextClasses
    pub input_limit : TokenBucketRateLimiterOptions F
    pub profile_limit : TokenBucketRateLimiterOptions F

  -- A call of a handler, or what follows one of its awaits, with what it reads from outside.
  pub data RoomEvent : Type 0 where
    ticks : Bool → F.Number → ℕ → ℕ → RoomEvent
    inputs_arrive : Bool → ℕ → ℕ → ℕ → JsValue F → RoomEvent
    joins : Option ℕ → ℕ → Option BindFreshSessionAuth → ℕ → RoomEvent
    profile_begins : Bool → ℕ → ℕ → JsValue F → RoomEvent
    profile_completes :
        PendingProfile
        → ParticipantState
        → Bool
        → Bool
        → Bool
        → Option ProfileTransactionResult
        → RoomEvent
    leave_begins : ℕ → RoomEvent
    leaves : ℕ → RoomEvent
    lease_marked : ℕ → ℕ → Bool → RoomEvent
    times_out : ℕ → ℕ → Option ℕ → RoomEvent
    reconnect_begins : ℕ → Bool → ℕ → RoomEvent
    reconnect_completes : PendingReconnect → Bool → Bool → RoomEvent
    heartbeat_settles : ℕ → ℕ → Bool → RoomEvent

  module _ (setting : RoomSetting) where
    -- None if a loop of `normalizeAngle` needs more rounds than it has.
    unfoldable pub after_event : RoomEvent → BattleRoom F → Option (BattleRoom F)
    after_event (ticks safe delta runtime_now wall_now) room =
        update_simulation F setting.codes_of setting.fuel safe delta runtime_now wall_now room
    after_event (inputs_arrive safe session monotonic_now now message) room =
        handle_player_input F setting.input_limit setting.fuel safe session monotonic_now now
          message room
    after_event (joins world session auth wall_now) room =
        some (on_join F world session (setting.codes_of session) auth wall_now room).1
    after_event (profile_begins joined session now message) room =
        some
          (begin_profile F setting.classes setting.profile_limit joined session now message room).0
    after_event (profile_completes pending participant joined spawns safe result) room =
        some
          (complete_profile F setting.codes_of pending participant joined spawns safe result room).0
    after_event (leave_begins session) room = some (begin_leave F session room)
    after_event (leaves session) room = some (leave_consented F session room).0
    after_event (lease_marked session lease found) room =
        some (leave_marked F session lease found room)
    after_event (times_out session player lease) room =
        some (leave_timed_out F session player lease room).0
    after_event (reconnect_begins world safe session) room =
        some (begin_reconnect F world safe session room).0
    after_event (reconnect_completes pending answer safe) room =
        some (complete_reconnect F pending answer safe room).room
    after_event (heartbeat_settles session lease renewed) room =
        some (heartbeat_settled F session lease renewed room)

    unfoldable pub after_events : List RoomEvent → BattleRoom F → Option (BattleRoom F)
    after_events [] room = some room
    after_events (event ∷ events) room = after_event event room >>= after_events events
