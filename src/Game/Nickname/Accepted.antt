-- ===== src/Game/Nickname/Accepted.antt =====
-- What an accepted nickname is.
use burning_space.Base.{
  ◌≢◌, All, ◌++◌, ◌⊎◌, false, ◌≤◌, inr, subst, inl, ℕ, Bool, true, not, ◌&&◌, List, [], ◌∷◌, ◌≡◌,
  ◌∙◌, ap, arith, refl, Bool-cases,
}
use burning_space.Game.Numbers.{Numbers}
use burning_space.Game.Messages.{text}
use burning_space.Game.Nickname.{
  utf16_length, is_allowed, before_end, has_repeated_spaces, any_code, TextClasses, valid, is_empty,
  trim_start, trim_end, trim, check_nickname, validate_nickname,
}

module _ (classes : TextClasses) where
  -- A text that begins with no white space.
  abbrev pub starts_clean : List ℕ → Bool
  starts_clean [] = true
  starts_clean (c ∷ s) = not (classes.is_space c)

  trim_start-clean : (s : List ℕ) → starts_clean (trim_start classes s) ≡ true
  unfolding trim_start
  trim_start-clean [] = refl
  trim_start-clean (c ∷ s) = ground (arith, trim_start-clean s)

  trim_start-of_clean : (s : List ℕ) → starts_clean s ≡ true → trim_start classes s ≡ s
  unfolding trim_start
  trim_start-of_clean [] h = refl
  trim_start-of_clean (c ∷ s) h = ground arith

  trim_end-clean : (s : List ℕ) → starts_clean s ≡ true → starts_clean (trim_end classes s) ≡ true
  unfolding trim_end
  trim_end-clean [] h = refl
  trim_end-clean (c ∷ s) h = ground arith

  trim_end-idempotent : (s : List ℕ) → trim_end classes (trim_end classes s) ≡ trim_end classes s
  unfolding trim_end
  trim_end-idempotent [] = refl
  trim_end-idempotent (c ∷ s) =
      elim (Bool-cases (classes.is_space c && is_empty (trim_end classes s))) [
        | inl h ↦ ground arith
        | inr h ↦ ground (arith, trim_end-idempotent s)
      ]

  trim-idempotent : (s : List ℕ) → trim classes (trim classes s) ≡ trim classes s
  trim-idempotent s =
      ap (trim_end classes) (
        trim_start-of_clean (trim classes s)
          (trim_end-clean (trim_start classes s) (trim_start-clean s)))
      ∙ trim_end-idempotent (trim_start classes s)

  -- A text that ends with no white space.
  abbrev pub ends_clean : List ℕ → Bool
  ends_clean [] = true
  ends_clean (c ∷ []) = not (classes.is_space c)
  ends_clean (c ∷ d ∷ s) = ends_clean (d ∷ s)

  before_end-clean :
      (c : ℕ) (rest : List ℕ)
      → ends_clean rest ≡ true
      → ends_clean (before_end classes c rest) ≡ true
  before_end-clean c [] h = elim (Bool-cases (classes.is_space c)) [
    | inl e ↦ rw e refl
    | inr e ↦ rw e (rw e refl)
  ]
  before_end-clean c (d ∷ s) h = elim (Bool-cases (classes.is_space c)) [
    | inl e ↦ rw e h
    | inr e ↦ rw e h
  ]

  trim_end-ends_clean : (s : List ℕ) → ends_clean (trim_end classes s) ≡ true
  unfolding trim_end
  trim_end-ends_clean [] = refl
  trim_end-ends_clean (c ∷ s) = before_end-clean c (trim_end classes s) (trim_end-ends_clean s)

  -- A letter, a number, or one of `_`, space and `-`, and not of the category C.
  abbrev pub IsNicknameCode : ℕ → Type 0
  IsNicknameCode c =
      (classes.is_other c ≡ false)
      × ((classes.is_letter c ≡ true)
          ⊎ (classes.is_number c ≡ true)
          ⊎ (c ≡ 95)
          ⊎ (c ≡ 32)
          ⊎ (c ≡ 45))

  is_nickname_code :
      (c : ℕ) → classes.is_other c ≡ false → is_allowed classes c ≡ true → IsNicknameCode c
  is_nickname_code c other allowed = (other, ground arith)

  codes_lem :
      (s : List ℕ)
      → any_code classes.is_other s ≡ false
      → any_code (λ c. not (is_allowed classes c)) s ≡ false
      → All IsNicknameCode s
  codes_lem [] h k = tt
  codes_lem (c ∷ s) h k = (
    is_nickname_code c (ground (arith, h)) (ground (arith, k)),
    codes_lem s (ground (arith, h)) (ground (arith, k)),
  )

  repeated_lem : (before after : List ℕ) → has_repeated_spaces (before ++ (32 ∷ 32 ∷ after)) ≡ true
  repeated_lem [] after = refl
  repeated_lem (c ∷ before) after = ground (arith, repeated_lem before after)

  -- What a nickname has to be: 3 to 20 UTF-16 code units, only characters of the pattern, never two
  -- spaces together, and no white space at its ends.
  pub record IsNickname (name : List ℕ) : Type 0 where
    pub at_least : 3 ≤ utf16_length name
    pub at_most : utf16_length name ≤ 20
    pub codes : All IsNicknameCode name
    pub spaced : (before after : List ℕ) → name ≢ before ++ (32 ∷ 32 ∷ after)
    pub starts : starts_clean name ≡ true
    pub ends : ends_clean name ≡ true

  trim-clean :
      (s : List ℕ) → (starts_clean (trim classes s) ≡ true) × (ends_clean (trim classes s) ≡ true)
  trim-clean s = (
    trim_end-clean (trim_start classes s) (trim_start-clean s),
    trim_end-ends_clean (trim_start classes s),
  )

  check_nickname-valid :
      (s name : List ℕ)
      → check_nickname classes s ≡ valid name
      → (s ≡ name)
        × (3 ≤ utf16_length s)
        × (utf16_length s ≤ 20)
        × (any_code classes.is_other s ≡ false)
        × (has_repeated_spaces s ≡ false)
        × (any_code (λ c. not (is_allowed classes c)) s ≡ false)
  check_nickname-valid s name e = ground arith

  checked_lem :
      (s name : List ℕ)
      → starts_clean s ≡ true
      → ends_clean s ≡ true
      → check_nickname classes s ≡ valid name
      → IsNickname name
  checked_lem s name starts ends e =
      let (same, low, high, others, spaces, allowed) = check_nickname-valid s name e in
      subst IsNickname same (record {
        at_least = low;
        at_most = high;
        codes = codes_lem s others allowed;
        spaced = λ before after k.
            cc (repeated_lem before after, subst (λ t. has_repeated_spaces t ≡ false) k spaces);
        starts = starts;
        ends = ends;
      })

  -- A nickname that `validateNickname` returns has 3 to 20 UTF-16 code units, each a letter, a number,
  -- `_`, a space or `-` and none of the category C, never two spaces together, and no white space at
  -- its ends; and it is itself valid, and returned unchanged.
  pub validate_nickname-accepted :
      (F : Numbers) (s name : List ℕ)
      → validate_nickname classes {F = F} (text s) ≡ valid name
      → IsNickname name × (validate_nickname classes {F = F} (text name) ≡ valid name)
  unfolding validate_nickname
  validate_nickname-accepted F s name e =
      let same = (check_nickname-valid (trim classes s) name e).0 in
      (
        checked_lem (trim classes s) name (trim-clean s).0 (trim-clean s).1 e,
        subst (λ t. check_nickname classes (trim classes t) ≡ valid name) same
            (ap (check_nickname classes) (trim-idempotent s) ∙ e),
      )
