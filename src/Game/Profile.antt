-- ===== src/Game/Profile.antt =====
-- validateProfile of apps/server/src/rooms/BattleRoom.ts.
use burning_space.Base.{
  ℕ, Bool, true, false, Option, none, some, List, [], ◌∷◌, if◌then◌else◌, is_some, ◌≡◌, arith,
}
use burning_space.Persistence.Schema.{Faction, red, blue}
use burning_space.Game.Numbers.{Numbers}
use burning_space.Game.Messages.{
  number, boolean, JsValue, undefined, text, object, is_text, nickname, mode, faction, null, array,
}
use burning_space.Game.Nickname.{
  TextClasses, NicknameFault, NicknameValidationResult, valid, invalid, validate_nickname,
}
use burning_space.Game.Schema.{JoinMode, player, spectator}

pub data ProfileFault : Type 0 where
  not_an_object unknown_mode unknown_player_faction unknown_spectator_faction : ProfileFault
  nickname_fault : NicknameFault → ProfileFault

pub record JoinProfile : Type 0 where
  pub nickname : List ℕ
  pub mode : JoinMode
  pub faction : Option Faction

pub data ProfileValidationResult : Type 0 where
  accepted : JoinProfile → ProfileValidationResult
  rejected : ProfileFault → ProfileValidationResult

-- 'player', 'spectator', 'red' and 'blue'.
abbrev pub player_text : List ℕ
player_text = 112 ∷ 108 ∷ 97 ∷ 121 ∷ 101 ∷ 114 ∷ []

abbrev pub spectator_text : List ℕ
spectator_text = 115 ∷ 112 ∷ 101 ∷ 99 ∷ 116 ∷ 97 ∷ 116 ∷ 111 ∷ 114 ∷ []

abbrev pub red_text : List ℕ
red_text = 114 ∷ 101 ∷ 100 ∷ []

abbrev pub blue_text : List ℕ
blue_text = 98 ∷ 108 ∷ 117 ∷ 101 ∷ []

-- The faction of a player is one of the two; a spectator may name one, which is dropped.
abbrev pub check_faction : List ℕ → JoinMode → Option Faction → Bool → ProfileValidationResult
check_faction name player (some f) absent =
    accepted (record { nickname = name; mode = player; faction = some f })
check_faction name player none absent = rejected unknown_player_faction
check_faction name spectator (some f) absent =
    accepted (record { nickname = name; mode = spectator; faction = none })
check_faction name spectator none true =
    accepted (record { nickname = name; mode = spectator; faction = none })
check_faction name spectator none false = rejected unknown_spectator_faction

abbrev pub is_player : JoinMode → Bool
is_player player = true
is_player spectator = false

-- The faction of an accepted profile: a player has one, a spectator has none.
abbrev pub HasFaction : JoinProfile → Type 0
HasFaction profile = (is_player profile.mode ≡ is_some profile.faction)

check_faction-HasFaction :
    (name : List ℕ) (m : JoinMode) (f : Option Faction) (absent : Bool) (profile : JoinProfile)
    → check_faction name m f absent ≡ accepted profile
    → HasFaction profile
check_faction-HasFaction name player (some f) absent profile e = ground arith
check_faction-HasFaction name player none absent profile e = cc
check_faction-HasFaction name spectator (some f) absent profile e = ground arith
check_faction-HasFaction name spectator none true profile e = ground arith
check_faction-HasFaction name spectator none false profile e = cc

module _ {F : Numbers} where
  abbrev pub mode_of : JsValue F → Option JoinMode
  mode_of (text s) =
      if is_text s player_text
      then some player
      else if is_text s spectator_text
      then some spectator
      else none
  mode_of _ = none

  abbrev pub faction_of : JsValue F → Option Faction
  faction_of (text s) =
      if is_text s red_text then some red else if is_text s blue_text then some blue else none
  faction_of _ = none

  abbrev pub is_undefined : JsValue F → Bool
  is_undefined undefined = true
  is_undefined _ = false

  abbrev pub check_mode : List ℕ → Option JoinMode → JsValue F → ProfileValidationResult
  check_mode name none value = rejected unknown_mode
  check_mode name (some m) value = check_faction name m (faction_of value) (is_undefined value)

  abbrev pub check_profile :
      NicknameValidationResult → JsValue F → JsValue F → ProfileValidationResult
  check_profile (invalid fault) m f = rejected (nickname_fault fault)
  check_profile (valid name) m f = check_mode name (mode_of m) f

  unfoldable pub validate_profile : TextClasses → JsValue F → ProfileValidationResult
  unfolding validate_nickname
  validate_profile classes (object fields) =
      check_profile (validate_nickname classes (fields nickname)) (fields mode) (fields faction)
  validate_profile classes _ = rejected not_an_object

  check_mode-HasFaction :
      (name : List ℕ) (m : Option JoinMode) (f : JsValue F) (profile : JoinProfile)
      → check_mode name m f ≡ accepted profile
      → HasFaction profile
  check_mode-HasFaction name none f profile e = cc
  check_mode-HasFaction name (some m) f profile e =
      check_faction-HasFaction name m (faction_of f) (is_undefined f) profile e

  check_profile-HasFaction :
      (name : NicknameValidationResult) (m f : JsValue F) (profile : JoinProfile)
      → check_profile name m f ≡ accepted profile
      → HasFaction profile
  check_profile-HasFaction (invalid fault) m f profile e = cc
  check_profile-HasFaction (valid name) m f profile e =
      check_mode-HasFaction name (mode_of m) f profile e

  -- In a profile that `validateProfile` accepts, a player has a faction and a spectator has none.
  pub validate_profile-HasFaction :
      (classes : TextClasses) (message : JsValue F) (profile : JoinProfile)
      → validate_profile classes message ≡ accepted profile
      → HasFaction profile
  unfolding validate_profile
  validate_profile-HasFaction classes (object fields) profile e =
      check_profile-HasFaction (validate_nickname classes (fields nickname)) (fields mode)
        (fields faction) profile e
  validate_profile-HasFaction classes undefined profile e = cc
  validate_profile-HasFaction classes null profile e = cc
  validate_profile-HasFaction classes array profile e = cc
  validate_profile-HasFaction classes (boolean b) profile e = cc
  validate_profile-HasFaction classes (number n) profile e = cc
  validate_profile-HasFaction classes (text s) profile e = cc
