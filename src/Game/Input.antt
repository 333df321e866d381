-- ===== src/Game/Input.antt =====
-- apps/server/src/validation/playerInput.ts.
pub mod Accepted
use burning_space.Base.{ℕ, Bool, true, false, Option, none, some, leb, if◌then◌else◌}
use burning_space.Game.Numbers.{Numbers}
use burning_space.Game.Movement.{PlayerInput, normalize_angle, ◌>>=◌}
use burning_space.Game.Messages.{
  JsValue, object, boolean_of, finite_of, sequence_of, up, down, left, right, aim_angle, shooting,
  sequence,
}

-- The reasons of a rejection.
pub data InputFault : Type 0 where
  not_an_object flags_not_boolean aim_angle_not_finite shooting_not_boolean bad_sequence
        stale_sequence :
      InputFault

module _ (F : Numbers) where
  pub data PlayerInputValidationResult : Type 0 where
    accepted : PlayerInput F → PlayerInputValidationResult
    rejected : InputFault → PlayerInputValidationResult

  abbrev pub create_neutral_input : ℕ → PlayerInput F
  create_neutral_input n = record {
    up = false;
    down = false;
    left = false;
    right = false;
    aim_angle = F.of_ℕ 0;
    shooting = false;
    sequence = n;
  }

  -- The fields that passed their checks, or the first fault.
  abbrev pub checked :
      Option Bool
      → Option Bool
      → Option Bool
      → Option Bool
      → Option F.Number
      → Option Bool
      → Option ℕ
      → ℕ
      → PlayerInputValidationResult
  checked (some u) (some d) (some l) (some r) (some angle) (some s) (some n) previous =
      if leb n previous
      then rejected stale_sequence
      else accepted (record {
        up = u;
        down = d;
        left = l;
        right = r;
        aim_angle = angle;
        shooting = s;
        sequence = n;
      })
  checked (some u) (some d) (some l) (some r) (some angle) (some s) none previous =
      rejected bad_sequence
  checked (some u) (some d) (some l) (some r) (some angle) none _ previous =
      rejected shooting_not_boolean
  checked (some u) (some d) (some l) (some r) none _ _ previous = rejected aim_angle_not_finite
  checked _ _ _ _ _ _ _ previous = rejected flags_not_boolean

  -- `aimAngle: normalizeAngle(value.aimAngle)`.
  abbrev pub normalized : ℕ → PlayerInputValidationResult → Option PlayerInputValidationResult
  normalized fuel (accepted input) = normalize_angle F fuel input.aim_angle >>= λ angle.
      some (accepted (record input { aim_angle = angle }))
  normalized fuel (rejected fault) = some (rejected fault)

  -- None if a loop of `normalizeAngle` needs more rounds than the fuel.
  unfoldable pub validate_player_input_message :
      ℕ → JsValue F → ℕ → Option PlayerInputValidationResult
  unfolding normalize_angle
  validate_player_input_message fuel (object fields) previous = normalized fuel (
      checked (boolean_of F (fields up)) (boolean_of F (fields down)) (boolean_of F (fields left))
        (boolean_of F (fields right)) (finite_of F (fields aim_angle))
        (boolean_of F (fields shooting)) (sequence_of F (fields sequence)) previous)
  validate_player_input_message fuel _ previous = some (rejected not_an_object)
