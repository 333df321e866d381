-- ===== src/Game/OutpostRespawn.antt =====
-- apps/server/src/systems/outpostRespawn.ts.
use burning_space.Base.{
  ℕ, Bool, true, false, not, ◌&&◌, Option, none, some, List, [], ◌∷◌, ◌==◌, ltb, length,
}
use burning_space.Persistence.Schema.{Faction}
use burning_space.Game.Combat.{is_faction}

abbrev pub outpost_adjacent_sector_count : ℕ
outpost_adjacent_sector_count = 6

pub record AdjacentSectorControlState : Type 0 where
  pub owner_faction : Faction
  pub control_percent : ℕ

abbrev pub every {ℓ} : {A : Type ℓ} → (A → Bool) → List A → Bool
every p [] = true
every p (x ∷ xs) = p x && every p xs

abbrev pub is_controlled : Faction → AdjacentSectorControlState → Bool
is_controlled faction sector =
    is_faction sector.owner_faction faction && sector.control_percent == 100

pub has_outpost_respawn_territorial_eligibility : Faction → List AdjacentSectorControlState → Bool
has_outpost_respawn_territorial_eligibility faction sectors =
    length sectors == outpost_adjacent_sector_count && every (is_controlled faction) sectors

-- `combatLockUntilMs !== null && nowMs < combatLockUntilMs`.
abbrev pub is_locked : Option ℕ → ℕ → Bool
is_locked none now = false
is_locked (some until) now = ltb now until

pub is_outpost_respawn_eligible : Faction → List AdjacentSectorControlState → Option ℕ → ℕ → Bool
unfolding has_outpost_respawn_territorial_eligibility
is_outpost_respawn_eligible faction sectors lock now =
    has_outpost_respawn_territorial_eligibility faction sectors && not (is_locked lock now)
