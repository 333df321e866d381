-- ===== src/Base/Tables.antt =====
-- A database table as the list of its rows, with the statements that the repositories issue:
-- SELECT the first row that meets a condition, UPDATE the rows that meet one, INSERT a row.
use mathlib.Core.Path.{◌≡◌, refl, subst}
use mathlib.Core.Logic.{inl, inr}
use mathlib.Core.Bool.{Bool, true, false}
use mathlib.Core.Option
use mathlib.Core.Option.{Option, none, some}
use mathlib.Core.List.{List, [], ◌∷◌}
use native.Mathlib.Omega.{arith}
use burning_space.Base.Tests.{if◌then◌else◌, Bool-cases}
use burning_space.Base.Lists.{All}

module _ {ℓ} {A : Type ℓ} where
  -- `SELECT … WHERE p`, `rows[0]`.
  abbrev pub find_where : (A → Bool) → List A → Option A
  find_where p [] = none
  find_where p (r ∷ rows) = if p r then some r else find_where p rows

  abbrev pub change_if : (A → Bool) → (A → A) → A → A
  change_if q f r = if q r then f r else r

  -- `UPDATE … SET f WHERE q`.
  abbrev pub update_where : (A → Bool) → (A → A) → List A → List A
  update_where q f [] = []
  update_where q f (r ∷ rows) = change_if q f r ∷ update_where q f rows

  -- At most one row meets the condition.
  abbrev pub AtMostOne : (A → Bool) → List A → Type ℓ
  AtMostOne p [] = Unit
  AtMostOne p (r ∷ rows) = (p r ≡ true → find_where p rows ≡ none) × AtMostOne p rows

  -- An update that leaves the columns of `p` alone is seen through by a SELECT on `p`.
  pub find_where-update_where :
      (p q : A → Bool) (f : A → A) (rows : List A)
      → ((r : A) → p (f r) ≡ p r)
      → find_where p (update_where q f rows) ≡ Option.map (change_if q f) (find_where p rows)
  find_where-update_where p q f [] keep = refl
  find_where-update_where p q f (r ∷ rows) keep =
      ground (arith, keep r, find_where-update_where p q f rows keep)

  -- What a SELECT returns meets its condition.
  pub find_where_holds :
      (p : A → Bool) (rows : List A) {r : A} → find_where p rows ≡ some r → p r ≡ true
  find_where_holds p [] e = cc
  find_where_holds p (s ∷ rows) {r} e = elim (Bool-cases (p s)) [
    | inl h ↦ ground arith
    | inr h ↦ find_where_holds p rows (ground arith)
  ]

  -- A narrower condition finds nothing where the wider one finds nothing.
  pub find_where-none :
      (p q : A → Bool) (rows : List A)
      → ((r : A) → q r ≡ true → p r ≡ true)
      → find_where p rows ≡ none
      → find_where q rows ≡ none
  find_where-none p q [] sub e = refl
  find_where-none p q (r ∷ rows) sub e = elim (Bool-cases (p r)) [
    | inl h ↦ ground arith
    | inr h ↦ ground (arith, sub r, find_where-none p q rows sub)
  ]

  -- Under a unique key, a narrower condition finds the row of that key, if that row meets it.
  pub find_where_narrow :
      (p q : A → Bool) (rows : List A) (s : A)
      → ((r : A) → q r ≡ true → p r ≡ true)
      → AtMostOne p rows
      → find_where p rows ≡ some s
      → find_where q rows ≡ (if q s then some s else none)
  find_where_narrow p q [] s sub u e = cc
  find_where_narrow p q (r ∷ rows) s sub u e = elim (Bool-cases (p r)) [
    | inl h ↦ ground (arith, find_where-none p q rows sub (u.0 h))
    | inr h ↦ ground (arith, sub r, find_where_narrow p q rows s sub u.1)
  ]

  -- An update whose rows are all none of those that `p` selects changes nothing that `p` sees.
  pub AtMostOne-update_where :
      (p q : A → Bool) (f : A → A) (rows : List A)
      → ((r : A) → p (f r) ≡ p r)
      → AtMostOne p rows
      → AtMostOne p (update_where q f rows)
  AtMostOne-update_where p q f [] keep u = tt
  AtMostOne-update_where p q f (r ∷ rows) keep u = (
    ground (arith, keep r, find_where-update_where p q f rows keep),
    AtMostOne-update_where p q f rows keep u.1,
  )

  -- An update with no row to change changes nothing.
  pub update_where-none :
      (q : A → Bool) (f : A → A) (rows : List A)
      → find_where q rows ≡ none
      → update_where q f rows ≡ rows
  update_where-none q f [] e = refl
  update_where-none q f (r ∷ rows) e = ground (arith, update_where-none q f rows)

  All-of_none :
      (p : A → Bool) (rows : List A) (s : A)
      → find_where p rows ≡ none
      → All (λ r. p r ≡ true → r ≡ s) rows
  All-of_none p [] s e = tt
  All-of_none p (r ∷ rows) s e = (λ h. ground arith, All-of_none p rows s (ground arith))

  -- Under a unique key, every row that meets it is the row that a SELECT finds.
  pub All-of_AtMostOne :
      (p : A → Bool) (rows : List A) (s : A)
      → AtMostOne p rows
      → find_where p rows ≡ some s
      → All (λ r. p r ≡ true → r ≡ s) rows
  All-of_AtMostOne p [] s u e = tt
  All-of_AtMostOne p (r ∷ rows) s u e = elim (Bool-cases (p r)) [
    | inl h ↦ (λ _. ground arith, All-of_none p rows s (u.0 h))
    | inr h ↦ (λ k. cc, All-of_AtMostOne p rows s u.1 (ground arith))
  ]

module _ {ℓ κ μ} {A : Type ℓ} (P : A → Type κ) (Q : A → Type μ) where
  pub All-update_where_to :
      (q : A → Bool) (f : A → A) (rows : List A)
      → ((r : A) → q r ≡ true → P r → Q (f r))
      → ((r : A) → P r → Q r)
      → All P rows
      → All Q (update_where q f rows)
  All-update_where_to q f [] change keep h = tt
  All-update_where_to q f (r ∷ rows) change keep h = elim (Bool-cases (q r)) [
    | inl e ↦ rw e (change r e h.0, All-update_where_to q f rows change keep h.1)
    | inr e ↦ rw e (keep r h.0, All-update_where_to q f rows change keep h.1)
  ]

  pub All-update_where_some :
      (q : A → Bool) (f : A → A) (rows : List A)
      → ((r : A) → q r ≡ true → P r → Q (f r))
      → ((r : A) → q r ≡ false → P r → Q r)
      → All P rows
      → All Q (update_where q f rows)
  All-update_where_some q f [] change keep h = tt
  All-update_where_some q f (r ∷ rows) change keep h = elim (Bool-cases (q r)) [
    | inl e ↦ rw e (change r e h.0, All-update_where_some q f rows change keep h.1)
    | inr e ↦ rw e (keep r e h.0, All-update_where_some q f rows change keep h.1)
  ]

module _ {ℓ κ μ} {A : Type ℓ} (P : A → Type κ) (Q : A → Type μ) where
  pub All-zip : (rows : List A) → All P rows → All Q rows → All (λ r. P r × Q r) rows
  All-zip [] h k = tt
  All-zip (r ∷ rows) h k = ((h.0, k.0), All-zip rows h.1 k.1)

module _ {ℓ κ} {A : Type ℓ} (P : A → Type κ) where
  pub All-update_where :
      (q : A → Bool) (f : A → A) (rows : List A)
      → ((r : A) → q r ≡ true → P r → P (f r))
      → All P rows
      → All P (update_where q f rows)
  All-update_where q f [] keep h = tt
  All-update_where q f (r ∷ rows) keep h = elim (Bool-cases (q r)) [
    | inl e ↦ rw e (keep r e h.0, All-update_where q f rows keep h.1)
    | inr e ↦ rw e (h.0, All-update_where q f rows keep h.1)
  ]

  pub All-find_where :
      (q : A → Bool) (rows : List A) {r : A} → All P rows → find_where q rows ≡ some r → P r
  All-find_where q [] h e = cc
  All-find_where q (s ∷ rows) {r} h e = elim (Bool-cases (q s)) [
    | inl k ↦ subst P (ground arith) h.0
    | inr k ↦ All-find_where q rows h.1 (ground arith)
  ]
