-- ===== src/Base/Maps.antt =====
-- A JavaScript Map as the list of its entries in the order of insertion. Setting a key that is there
-- changes its value in place.
use burning_space.Base.{subst, inr, inl, All}
use mathlib.Core.Path.{◌≡◌, refl}
use mathlib.Core.Bool.{Bool}
use mathlib.Core.Option.{Option, none, some}
use mathlib.Core.List.{List, [], ◌∷◌}
use Prim.Native.Nat.{ℕ}
use native.Mathlib.Omega.{arith}
use burning_space.Base.Tests.{Bool-cases, if◌then◌else◌, ◌==◌, is_some}

abbrev pub Map {ℓ} : Type ℓ → Type ℓ
Map V = List (ℕ × V)

module _ {ℓ} {V : Type ℓ} where
  unfoldable pub get : ℕ → Map V → Option V
  get key [] = none
  get key ((k, v) ∷ entries) = if k == key then some v else get key entries

  pub has : ℕ → Map V → Bool
  unfolding get
  has key entries = is_some (get key entries)

  unfoldable pub put : ℕ → V → Map V → Map V
  put key value [] = (key, value) ∷ []
  put key value ((k, v) ∷ entries) =
      if k == key then (k, value) ∷ entries else (k, v) ∷ put key value entries

  unfoldable pub delete : ℕ → Map V → Map V
  delete key [] = []
  delete key ((k, v) ∷ entries) =
      if k == key then delete key entries else (k, v) ∷ delete key entries

  pub get-put :
      (j k : ℕ) (v : V) (entries : Map V)
      → get j (put k v entries) ≡ (if k == j then some v else get j entries)
  unfolding get put
  get-put j k v [] = refl
  get-put j k v ((i, w) ∷ entries) = ground (arith, get-put j k v entries)

  pub get-put_same : (k : ℕ) (v : V) (entries : Map V) → get k (put k v entries) ≡ some v
  get-put_same k v entries = ground (arith, get-put k k v entries)

  pub get-delete :
      (j k : ℕ) (entries : Map V)
      → get j (delete k entries) ≡ (if k == j then none else get j entries)
  unfolding get delete
  get-delete j k [] = ground arith
  get-delete j k ((i, w) ∷ entries) = ground (arith, get-delete j k entries)

module _ {ℓ κ} {V : Type ℓ} (P : V → Type κ) where
  -- Every value meets a predicate.
  abbrev pub Values : Map V → Type κ
  Values entries = All (λ e. P e.1) entries

  pub Values-put :
      (k : ℕ) (v : V) (entries : Map V) → P v → Values entries → Values (put k v entries)
  unfolding put
  Values-put k v [] p h = (p, tt)
  Values-put k v ((i, w) ∷ entries) p h = elim (Bool-cases (i == k)) [
    | inl e ↦ rw e (p, h.1)
    | inr e ↦ rw e (h.0, Values-put k v entries p h.1)
  ]

  pub Values-delete : (k : ℕ) (entries : Map V) → Values entries → Values (delete k entries)
  unfolding delete
  Values-delete k [] h = tt
  Values-delete k ((i, w) ∷ entries) h = elim (Bool-cases (i == k)) [
    | inl e ↦ rw e (Values-delete k entries h.1)
    | inr e ↦ rw e (h.0, Values-delete k entries h.1)
  ]

  pub Values-get : (k : ℕ) (entries : Map V) {v : V} → Values entries → get k entries ≡ some v → P v
  unfolding get
  Values-get k [] h e = cc
  Values-get k ((i, w) ∷ entries) {v} h e = elim (Bool-cases (i == k)) [
    | inl f ↦ subst P (ground arith) h.0
    | inr f ↦ Values-get k entries h.1 (ground arith)
  ]
