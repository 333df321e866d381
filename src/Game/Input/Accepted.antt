-- ===== src/Game/Input/Accepted.antt =====
-- What an accepted input is, and an input that keeps the server busy for ever.
use burning_space.Base.{
  inr, inl, ℕ, Bool, true, Option, none, some, ◌≡◌, ◌<◌, arith, refl, Option-cases,
}
use burning_space.Game.Numbers.{Numbers, negate}
use burning_space.Game.Movement.{PlayerInput, normalize_angle, two_pi}
use burning_space.Game.Movement.Angles.{
  IsNormal, IsTurnSafe, normalize_angle-IsNormal, normalize_angle-stuck,
}
use burning_space.Game.Messages.{
  JsValue, object, number, finite, Property, boolean_of, finite_of, sequence_of, up, down, left,
  right, aim_angle, shooting, sequence,
}
use burning_space.Game.Input.{
  PlayerInputValidationResult, accepted, rejected, checked, normalized,
  validate_player_input_message,
}

module _ (F : Numbers) where
  open F use {Number, less, sub, pi}

  -- The fields of a message, read as the input.
  abbrev pub IsReadFrom : (Property → JsValue F) → PlayerInput F → Type 0
  IsReadFrom fields input =
      (boolean_of F (fields up) ≡ some input.up)
      × (boolean_of F (fields down) ≡ some input.down)
      × (boolean_of F (fields left) ≡ some input.left)
      × (boolean_of F (fields right) ≡ some input.right)
      × (boolean_of F (fields shooting) ≡ some input.shooting)
      × (sequence_of F (fields sequence) ≡ some input.sequence)

  checked_told :
      (u d l r : Option Bool) (angle : Option Number) (s : Option Bool) (n : Option ℕ)
      (previous : ℕ) (input : PlayerInput F)
      → checked F u d l r angle s n previous ≡ accepted input
      → (u ≡ some input.up)
        × (d ≡ some input.down)
        × (l ≡ some input.left)
        × (r ≡ some input.right)
        × (angle ≡ some input.aim_angle)
        × (s ≡ some input.shooting)
        × (n ≡ some input.sequence)
        × (previous < input.sequence)
  checked_told u d l r angle s n previous input e = ground arith

  normalized_told :
      (fuel : ℕ) (result : PlayerInputValidationResult F) (input : PlayerInput F)
      → normalized F fuel result ≡ some (accepted input)
      → (raw : PlayerInput F) × (result ≡ accepted raw)
        × (normalize_angle F fuel raw.aim_angle ≡ some input.aim_angle)
        × ((record input { aim_angle = raw.aim_angle }) ≡ raw)
  normalized_told fuel (rejected fault) input e = cc
  normalized_told fuel (accepted raw) input e =
      elim (Option-cases (normalize_angle F fuel raw.aim_angle)) [
        | inl t ↦ cc
        | inr (angle, t) ↦ (raw, refl, ground arith, ground arith)
      ]

  -- An accepted input is the message's: its flags and its sequence number are those of the message,
  -- that number is larger than the previous one, and its aim is an angle in (−π, π], if an angle
  -- beyond π is above −π after a turn back.
  pub validate_player_input_message-accepted :
      (fuel : ℕ) (fields : Property → JsValue F) (previous : ℕ) (input : PlayerInput F)
      → IsTurnSafe F
      → validate_player_input_message F fuel (object fields) previous ≡ some (accepted input)
      → IsReadFrom fields input × (previous < input.sequence) × IsNormal F input.aim_angle
  unfolding validate_player_input_message
  validate_player_input_message-accepted fuel fields previous input safe e =
      let (raw, result, turned, same) =
        normalized_told fuel
          (checked F (boolean_of F (fields up)) (boolean_of F (fields down))
            (boolean_of F (fields left)) (boolean_of F (fields right))
            (finite_of F (fields aim_angle)) (boolean_of F (fields shooting))
            (sequence_of F (fields sequence)) previous)
          input e in
      let told =
        checked_told (boolean_of F (fields up)) (boolean_of F (fields down))
          (boolean_of F (fields left)) (boolean_of F (fields right))
          (finite_of F (fields aim_angle)) (boolean_of F (fields shooting))
          (sequence_of F (fields sequence)) previous raw result in
      (
        ground (arith, told),
        ground (arith, told),
        normalize_angle-IsNormal F fuel raw.aim_angle input.aim_angle safe turned,
      )

  -- A message whose flags are booleans, whose sequence number is new, and whose aim is an angle a
  -- above −π and beyond π with a − 2π = a, which holds of every large enough floating-point number,
  -- is neither accepted nor rejected, however many rounds `normalizeAngle` has.
  pub validate_player_input_message-stuck :
      (fuel : ℕ) (fields : Property → JsValue F) (previous : ℕ) (raw : PlayerInput F)
      → IsReadFrom fields raw
      → fields aim_angle ≡ number (finite raw.aim_angle)
      → previous < raw.sequence
      → less (negate F pi) raw.aim_angle ≡ true
      → less pi raw.aim_angle ≡ true
      → sub raw.aim_angle (two_pi F) ≡ raw.aim_angle
      → validate_player_input_message F fuel (object fields) previous ≡ none
  unfolding validate_player_input_message
  validate_player_input_message-stuck fuel fields previous raw read aim new above beyond still =
      let stuck = normalize_angle-stuck F fuel raw.aim_angle above beyond still in
      ground (arith, stuck, read, aim)
