-- ===== src/Game/Messages.antt =====
-- What a client may send: any JavaScript value that its encoding of messages can carry.
use burning_space.Base.{ℕ, Bool, true, false, Option, none, some, List, [], ◌∷◌, ◌&&◌, ◌==◌}
use burning_space.Game.Numbers.{Numbers}

-- The properties of objects that the server reads.
pub data Property : Type 0 where
  up down left right aim_angle shooting sequence nickname mode faction : Property

abbrev pub is_text : List ℕ → List ℕ → Bool
is_text [] [] = true
is_text (a ∷ s) (b ∷ t) = a == b && is_text s t
is_text _ _ = false

module _ (F : Numbers) where
  pub data JsNumber : Type 0 where
    not_finite : JsNumber
    finite : F.Number → JsNumber

  -- A text is the list of its code points. An object answers undefined for a property it lacks.
  pub data JsValue : Type 0 where
    undefined null array : JsValue
    boolean : Bool → JsValue
    number : JsNumber → JsValue
    text : List ℕ → JsValue
    object : (Property → JsValue) → JsValue

  -- The value of a boolean, of a finite number, and of one that is a non-negative integer.
  abbrev pub boolean_of : JsValue → Option Bool
  boolean_of (boolean b) = some b
  boolean_of _ = none

  abbrev pub finite_of : JsValue → Option F.Number
  finite_of (number (finite a)) = some a
  finite_of _ = none

  abbrev pub sequence_of : JsValue → Option ℕ
  sequence_of (number (finite a)) = F.whole a
  sequence_of _ = none
