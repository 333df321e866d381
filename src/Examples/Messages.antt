-- ===== src/Examples/Messages.antt =====
-- The theorems on angles, messages and outposts, on small inputs.
use burning_space.Base.{
  ℕ, ◌≡◌, ◌≤◌, ◌<◌, ◌+◌, refl, arith, none, some, true, false, [], ◌∷◌, zero, suc,
}
use burning_space.Persistence.Schema.{red}
use burning_space.Examples.FixedPoint.{Fixed, fixed, coarse, fixed-IsTurnSafe}
use burning_space.Examples.Rooms.{classes, fields}
use burning_space.Game.Messages.{
  JsValue, Property, object, boolean, number, text, finite, undefined, up, down, left, right,
  aim_angle, shooting, sequence, nickname, mode, faction,
}
use burning_space.Game.Movement.{PlayerInput, normalize_angle}
use burning_space.Game.Movement.Angles.{IsNormal, turned_back, turned_on, normalize_angle-ends}
use burning_space.Game.Input.{validate_player_input_message}
use burning_space.Game.Input.Accepted.{
  IsReadFrom, validate_player_input_message-accepted, validate_player_input_message-stuck,
}
use burning_space.Game.Nickname.{validate_nickname, valid}
use burning_space.Game.Nickname.Accepted.{IsNickname, validate_nickname-accepted}
use burning_space.Game.Profile.{
  JoinProfile, HasFaction, validate_profile, validate_profile-HasFaction, player_text, red_text,
}
use burning_space.Game.Schema.{player}

-- Seven radians are a turn too many.
below :
    (k : ℕ)
    → k ≤ 0
    → fixed.less fixed.pi (turned_back fixed 1 (turned_on fixed k (7000, 0))) ≡ false
below zero h = refl
below (suc k) h = ground arith

normalize_angle-ends_example :
    (result : Fixed) × (normalize_angle fixed (0 + 1 + 1) (7000, 0) ≡ some result)
    × IsNormal fixed result
normalize_angle-ends_example = normalize_angle-ends fixed 0 1 (7000, 0) fixed-IsTurnSafe refl below

abbrev input : PlayerInput fixed
input = record {
  up = false;
  down = false;
  left = false;
  right = true;
  aim_angle = (1000, 0);
  shooting = true;
  sequence = 7;
}

validate_player_input_message-accepted_example :
    IsReadFrom fixed fields input × (3 < 7) × IsNormal fixed (1000, 0)
unfolding validate_player_input_message
validate_player_input_message-accepted_example =
    validate_player_input_message-accepted fixed 5 fields 3 input fixed-IsTurnSafe refl

-- An aim of two million radians, where a difference loses the smaller number.
abbrev huge_fields : Property → JsValue coarse
huge_fields right = boolean true
huge_fields shooting = boolean true
huge_fields aim_angle = number (finite (2000000000, 0))
huge_fields sequence = number (finite (7000, 0))
huge_fields up = boolean false
huge_fields down = boolean false
huge_fields left = boolean false
huge_fields _ = undefined

abbrev huge_input : PlayerInput coarse
huge_input = record {
  up = false;
  down = false;
  left = false;
  right = true;
  aim_angle = (2000000000, 0);
  shooting = true;
  sequence = 7;
}

validate_player_input_message-stuck_example :
    validate_player_input_message coarse 100 (object huge_fields) 3 ≡ none
validate_player_input_message-stuck_example =
    validate_player_input_message-stuck coarse 100 huge_fields 3 huge_input
      (refl, refl, refl, refl, refl, refl) refl (ground arith) refl refl refl

validate_nickname-accepted_example :
    IsNickname classes (97 ∷ 32 ∷ 98 ∷ [])
    × (validate_nickname classes {F = fixed} (text (97 ∷ 32 ∷ 98 ∷ [])) ≡ valid (97 ∷ 32 ∷ 98 ∷ []))
unfolding validate_nickname
validate_nickname-accepted_example =
    validate_nickname-accepted classes fixed (32 ∷ 97 ∷ 32 ∷ 98 ∷ 32 ∷ []) (97 ∷ 32 ∷ 98 ∷ []) refl

abbrev pub profile_fields : Property → JsValue fixed
profile_fields nickname = text (97 ∷ 98 ∷ 99 ∷ [])
profile_fields mode = text player_text
profile_fields faction = text red_text
profile_fields _ = undefined

abbrev pub profile : JoinProfile
profile = record { nickname = 97 ∷ 98 ∷ 99 ∷ []; mode = player; faction = some red }

validate_profile-HasFaction_example : HasFaction profile
unfolding validate_profile validate_nickname
validate_profile-HasFaction_example =
    validate_profile-HasFaction classes (object profile_fields) profile refl
