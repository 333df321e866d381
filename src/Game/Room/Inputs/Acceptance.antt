-- ===== src/Game/Room/Inputs/Acceptance.antt =====
-- When an input of a player reaches the room's inputs.
use burning_space.Base.{
  ℕ, Bool, true, false, Option, none, some, ◌≡◌, ◌⊎◌, inl, inr, arith, refl, Bool-cases,
  Option-cases,
}
use burning_space.Base.Maps.{get, put}
use burning_space.Persistence.SessionBinding.{is_control_allowed}
use burning_space.Security.TokenBucket.{TokenBucketRateLimiterOptions, consume}
use burning_space.Game.Numbers.{Numbers}
use burning_space.Game.Schema.{ShipState}
use burning_space.Game.Movement.{PlayerInput}
use burning_space.Game.Messages.{JsValue}
use burning_space.Game.Input.{accepted, rejected, validate_player_input_message}
use burning_space.Game.Room.{BattleRoom, is_process_authority_safe}
use burning_space.Game.Room.Inputs.{
  handle_player_input, read_input, is_flood, is_player_in, previous_sequence, is_admitted,
}

module _ (F : Numbers) (options : TokenBucketRateLimiterOptions F) (fuel : ℕ) where
  abbrev pub IsIgnored : BattleRoom F → BattleRoom F → Type 0
  IsIgnored room after =
      (after.inputs ≡ room.inputs) × (after.last_input_received_at ≡ room.last_input_received_at)

  -- The input of a player with a ship, at least ten milliseconds after the last one.
  abbrev pub IsTaken : ℕ → ℕ → JsValue F → BattleRoom F → BattleRoom F → Type 0
  IsTaken session now message room after =
      (ship : ShipState F) × (input : PlayerInput F) × (get session room.ships ≡ some ship)
      × (is_player_in (get session room.participants) ≡ true)
      × (is_flood now (get session room.last_input_received_at) ≡ false)
      × (validate_player_input_message F fuel message
            (previous_sequence F options fuel session ship room)
          ≡ some (accepted input))
      × (after.inputs ≡ put session input room.inputs)
      × (after.last_input_received_at ≡ put session now room.last_input_received_at)

  read_input_told :
      (session now : ℕ) (message : JsValue F) (ship : Option (ShipState F))
      (room after : BattleRoom F)
      → get session room.ships ≡ ship
      → read_input F options fuel session now message ship room ≡ some after
      → IsIgnored room after ⊎ IsTaken session now message room after
  read_input_told session now message none room after s e = inl (ground arith, ground arith)
  read_input_told session now message (some ship) room after s e =
      elim (Bool-cases (is_player_in (get session room.participants))) [
        | inr p ↦ inl (ground arith, ground arith)
        | inl p ↦ elim (Bool-cases (is_flood now (get session room.last_input_received_at))) [
          | inl f ↦ inl (ground arith, ground arith)
          | inr f ↦
              let previous = previous_sequence F options fuel session ship room in
              elim (Option-cases (validate_player_input_message F fuel message previous)) [
                | inl v ↦ cc
                | inr (accepted input, v) ↦
                    inr (ship, input, s, p, f, v, ground arith, ground arith)
                | inr (rejected fault, v) ↦ inl (ground arith, ground arith)
              ]
        ]
      ]

  -- Whatever a client sends as its input, the room either leaves its inputs and their times as they
  -- are, or the authority is safe and was not lost, the session is in control, the limiter admits
  -- it, the session has a ship and plays, its last input is ten milliseconds old or more, and the
  -- message is valid after the last sequence number: then that input is the session's, and now its
  -- time, and no other session's has changed.
  pub handle_player_input_told :
      (safe : Bool) (session monotonic_now now : ℕ) (message : JsValue F)
      (room after : BattleRoom F)
      → handle_player_input F options fuel safe session monotonic_now now message room ≡ some after
      → IsIgnored room after
        ⊎ ((safe ≡ true)
            × (room.process_authority_lost ≡ false)
            × (is_control_allowed session room.bindings ≡ true)
            × (is_admitted F options fuel
                  (consume F options session monotonic_now room.player_input_limiter).0
                ≡ true)
            × IsTaken session now message room after)
  unfolding handle_player_input
  handle_player_input_told safe session monotonic_now now message room after e =
      let checked = is_process_authority_safe F safe room in
      elim (Bool-cases checked.0) [
        | inr c ↦ inl (ground arith, ground arith)
        | inl c ↦ elim (Bool-cases (is_control_allowed session room.bindings)) [
          | inr a ↦ inl (ground arith, ground arith)
          | inl a ↦
              let taken = consume F options session monotonic_now room.player_input_limiter in
              elim (Bool-cases (is_admitted F options fuel taken.0)) [
                | inr l ↦ inl (ground arith, ground arith)
                | inl l ↦
                    let next = record room {
                      has_observed_authority_safe = true;
                      player_input_limiter = taken.1;
                    } in
                    let read : read_input F options fuel session now message
                          (get session room.ships) next
                        ≡ some after =
                      ground arith in
                    elim (read_input_told session now message (get session room.ships) next after
                      refl read) [
                        | inl ignored ↦ inl ignored
                        | inr told ↦ inr (ground arith, ground arith, a, l, told)
                      ]
              ]
        ]
      ]
