-- ===== src/Persistence/RoomDependencies.antt =====
-- The stack of installations of apps/server/src/persistence/productionRoomDependencies.ts, whatever is
-- installed. The array has its last element first. A record is known by the number of its
-- installation, and `restored` has the installations whose `restore` has run.
pub mod Stack
use burning_space.Base.{
  ℕ, ◌+◌, Bool, true, false, ◌||◌, Option, none, some, List, [], ◌∷◌, ◌==◌, ltb, if◌then◌else◌,
}

module _ {ℓ} (D : Type ℓ) where
  pub record InstallationRecord : Type ℓ where
    pub id : ℕ
    pub dependencies : D
    pub active : Bool

  pub record Installations : Type ℓ where
    pub records : List InstallationRecord
    pub restored : List ℕ
    pub next : ℕ

  abbrev pub none_installed : Installations
  none_installed = record { records = []; restored = []; next = 0 }

  unfoldable pub compact_inactive_installations : List InstallationRecord → List InstallationRecord
  compact_inactive_installations [] = []
  compact_inactive_installations (r ∷ records) =
      if r.active then r ∷ records else compact_inactive_installations records

  -- `record.active = false`.
  unfoldable pub deactivate : ℕ → List InstallationRecord → List InstallationRecord
  deactivate id [] = []
  deactivate id (r ∷ records) =
      (if r.id == id then record r { active = false } else r) ∷ deactivate id records

  abbrev pub install : D → Installations → Installations
  install dependencies s = record s {
    records = record { id = s.next; dependencies = dependencies; active = true } ∷ s.records;
    next = s.next + 1;
  }

  abbrev pub has_restored : ℕ → List ℕ → Bool
  has_restored id [] = false
  has_restored id (r ∷ restored) = r == id || has_restored id restored

  abbrev pub restore : ℕ → Installations → Installations
  restore id s = if has_restored id s.restored then s else record s {
    records = compact_inactive_installations (deactivate id s.records);
    restored = id ∷ s.restored;
  }

  unfoldable pub first_active : List InstallationRecord → Option D
  first_active [] = none
  first_active (r ∷ records) = if r.active then some r.dependencies else first_active records

  pub get_active_production_room_dependencies : Installations → Option D
  unfolding first_active
  get_active_production_room_dependencies s = first_active s.records

  -- A call: an installation, or the `restore` of one that was made.
  pub data InstallationCall : Type ℓ where
    installs : D → InstallationCall
    restores : ℕ → InstallationCall

  abbrev pub after_call : InstallationCall → Installations → Installations
  after_call (installs dependencies) s = install dependencies s
  after_call (restores id) s = if ltb id s.next then restore id s else s

  unfoldable pub after_calls : List InstallationCall → Installations → Installations
  after_calls [] s = s
  after_calls (call ∷ calls) s = after_calls calls (after_call call s)
