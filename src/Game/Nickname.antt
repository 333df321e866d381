-- ===== src/Game/Nickname.antt =====
-- apps/server/src/validation/nickname.ts. The Unicode properties that its patterns name are
-- parameters.
pub mod Accepted
use burning_space.Base.{
  ℕ, Bool, true, false, not, ◌&&◌, ◌||◌, List, [], ◌∷◌, ◌+◌, ◌==◌, leb, ltb, if◌then◌else◌,
}
use burning_space.Game.Numbers.{Numbers}
use burning_space.Game.Messages.{JsValue, text}

-- White space that `trim` removes, and the general categories C, L and N.
pub record TextClasses : Type 0 where
  pub is_space : ℕ → Bool
  pub is_other : ℕ → Bool
  pub is_letter : ℕ → Bool
  pub is_number : ℕ → Bool

pub data NicknameFault : Type 0 where
  not_text bad_length unsupported_characters repeated_spaces disallowed_characters : NicknameFault

pub data NicknameValidationResult : Type 0 where
  valid : List ℕ → NicknameValidationResult
  invalid : NicknameFault → NicknameValidationResult

-- `length` of a string, in UTF-16 code units.
abbrev pub units : ℕ → ℕ
units code = if ltb code 65536 then 1 else 2

abbrev pub utf16_length : List ℕ → ℕ
utf16_length [] = 0
utf16_length (c ∷ s) = units c + utf16_length s

abbrev pub is_empty : List ℕ → Bool
is_empty [] = true
is_empty (c ∷ s) = false

abbrev pub any_code : (ℕ → Bool) → List ℕ → Bool
any_code p [] = false
any_code p (c ∷ s) = p c || any_code p s

abbrev pub space_first : List ℕ → Bool
space_first [] = false
space_first (c ∷ s) = c == 32

-- The pattern ` {2,}`.
abbrev pub has_repeated_spaces : List ℕ → Bool
has_repeated_spaces [] = false
has_repeated_spaces (c ∷ s) = (c == 32 && space_first s) || has_repeated_spaces s

module _ (classes : TextClasses) where
  unfoldable pub trim_start : List ℕ → List ℕ
  trim_start [] = []
  trim_start (c ∷ s) = if classes.is_space c then trim_start s else c ∷ s

  abbrev pub before_end : ℕ → List ℕ → List ℕ
  before_end c rest = if classes.is_space c && is_empty rest then [] else c ∷ rest

  unfoldable pub trim_end : List ℕ → List ℕ
  trim_end [] = []
  trim_end (c ∷ s) = before_end c (trim_end s)

  abbrev pub trim : List ℕ → List ℕ
  trim s = trim_end (trim_start s)

  -- A character of the pattern `[\p{L}\p{N}_ -]`.
  abbrev pub is_allowed : ℕ → Bool
  is_allowed c = classes.is_letter c || classes.is_number c || c == 95 || c == 32 || c == 45

  abbrev pub check_nickname : List ℕ → NicknameValidationResult
  check_nickname s =
      if ltb (utf16_length s) 3 || ltb 20 (utf16_length s)
      then invalid bad_length
      else if any_code classes.is_other s
      then invalid unsupported_characters
      else if has_repeated_spaces s
      then invalid repeated_spaces
      else if is_empty s || any_code (λ c. not (is_allowed c)) s
      then invalid disallowed_characters
      else valid s

  unfoldable pub validate_nickname : {F : Numbers} → JsValue F → NicknameValidationResult
  unfolding trim_start trim_end
  validate_nickname (text s) = check_nickname (trim s)
  validate_nickname _ = invalid not_text
