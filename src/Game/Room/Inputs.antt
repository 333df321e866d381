-- ===== src/Game/Room/Inputs.antt =====
-- BattleRoom.ts: handlePlayerInput.
pub mod Acceptance
use burning_space.Base.{
  ℕ, ◌-◌, Bool, true, false, not, ◌||◌, Option, none, some, List, ltb, if◌then◌else◌,
}
use burning_space.Base.Maps.{get, put}
use burning_space.Persistence.SessionBinding.{is_control_allowed}
use burning_space.Security.TokenBucket.{
  TokenBucketRateLimiterOptions, TokenBucketConsumeResult, consume,
}
use burning_space.Game.Numbers.{Numbers}
use burning_space.Game.Schema.{ShipState, ParticipantState, JoinMode, player, spectator}
use burning_space.Game.Movement.{PlayerInput, ◌>>=◌}
use burning_space.Game.Messages.{JsValue}
use burning_space.Game.Profile.{is_player}
use burning_space.Game.Input.{
  PlayerInputValidationResult, accepted, rejected, validate_player_input_message,
}
use burning_space.Game.Room.{BattleRoom, or_else, is_process_authority_safe}

-- `now - lastReceivedAt < 10`.
abbrev pub is_flood : ℕ → Option ℕ → Bool
is_flood now none = false
is_flood now (some received) = ltb (now - received) 10

abbrev pub is_player_in : Option ParticipantState → Bool
is_player_in none = false
is_player_in (some participant) = is_player participant.mode

module _ (F : Numbers) (options : TokenBucketRateLimiterOptions F) (fuel : ℕ) where
  -- `this.inputs.get(sessionId)?.sequence ?? ship.lastProcessedInput`.
  abbrev pub previous_sequence : ℕ → ShipState F → BattleRoom F → ℕ
  previous_sequence session ship room = elim (get session room.inputs) [
    | some input ↦ input.sequence
    | none ↦ ship.motion.last_processed_input
  ]

  abbrev pub take_input : ℕ → ℕ → PlayerInputValidationResult F → BattleRoom F → BattleRoom F
  take_input session now (accepted input) room = record room {
    last_input_received_at = put session now room.last_input_received_at;
    inputs = put session input room.inputs;
  }
  take_input session now (rejected fault) room = room

  abbrev pub read_input :
      ℕ → ℕ → JsValue F → Option (ShipState F) → BattleRoom F → Option (BattleRoom F)
  read_input session now message none room = some room
  read_input session now message (some ship) room =
      if not (is_player_in (get session room.participants))
      then some room
      else if is_flood now (get session room.last_input_received_at)
      then some room
      else validate_player_input_message F fuel message (previous_sequence session ship room)
        >>= λ result. some (take_input session now result room)

  -- A limiter whose clock went back throws out of the handler.
  abbrev pub is_admitted : Option (TokenBucketConsumeResult F) → Bool
  is_admitted none = false
  is_admitted (some result) = result.allowed

  abbrev pub limited_input : ℕ → ℕ → ℕ → JsValue F → BattleRoom F → Option (BattleRoom F)
  limited_input session monotonic_now now message room =
      let taken = consume F options session monotonic_now room.player_input_limiter in
      let after = record room { player_input_limiter = taken.1 } in
      if is_admitted taken.0
      then read_input session now message (get session after.ships) after
      else some after

  abbrev pub controlled_input : ℕ → ℕ → ℕ → JsValue F → BattleRoom F → Option (BattleRoom F)
  controlled_input session monotonic_now now message room =
      if is_control_allowed session room.bindings
      then limited_input session monotonic_now now message room
      else some room

  -- None if a loop of `normalizeAngle` needs more rounds than the fuel.
  unfoldable pub handle_player_input :
      Bool → ℕ → ℕ → ℕ → JsValue F → BattleRoom F → Option (BattleRoom F)
  handle_player_input safe session monotonic_now now message room =
      let checked = is_process_authority_safe F safe room in
      if checked.0
      then controlled_input session monotonic_now now message checked.1
      else some checked.1
