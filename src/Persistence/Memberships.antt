-- ===== src/Persistence/Memberships.antt =====
-- apps/server/src/persistence/repositories/membershipsRepository.ts: the faction that a player has
-- in a world, chosen once.
pub mod Keeps
use mathlib.Core.Option
use burning_space.Base.{◌∷◌, if◌then◌else◌, none, some, true, false}
use burning_space.Base.{
  false, ◌&&◌, true, some, ℕ, ◌≡◌, Bool, Option, List, ◌==◌, find_where, update_where,
}
use burning_space.Persistence.Schema.{Faction, red, blue, MembershipRow, Db}
use burning_space.Persistence.Transaction.{◌>>=◌, fail, Tx, return, row_lost, no_row}

abbrev pub is_membership : ℕ → ℕ → MembershipRow → Bool
is_membership world player row = row.world_id == world && row.player_id == player

abbrev pub membership_of : ℕ → ℕ → Db → Option MembershipRow
membership_of world player db = find_where (is_membership world player) db.memberships

-- `lockMembership` and `findMembership`, which differ in the lock only.
unfoldable pub lock_membership : ℕ → ℕ → Tx (Option MembershipRow)
lock_membership world player db = return (membership_of world player db) db

unfoldable pub find_membership : ℕ → ℕ → Tx (Option MembershipRow)
find_membership world player db = return (membership_of world player db) db

pub data EstablishFactionOutcome : Type 0 where
  created assigned idempotent conflict : EstablishFactionOutcome

pub record EstablishFactionResult : Type 0 where
  pub outcome : EstablishFactionOutcome
  pub membership : MembershipRow

abbrev pub faction_eq : Faction → Faction → Bool
faction_eq red red = true
faction_eq blue blue = true
faction_eq _ _ = false

abbrev pub assign : Faction → ℕ → MembershipRow → MembershipRow
assign requested now row = record row { faction = some requested; faction_assigned_at = some now }

abbrev pub new_membership : ℕ → ℕ → Faction → ℕ → MembershipRow
new_membership world player requested now = record {
  world_id = world;
  player_id = player;
  faction = some requested;
  faction_assigned_at = some now;
}

-- `INSERT … ON CONFLICT (world_id, player_id) DO NOTHING RETURNING …`.
insert_membership : MembershipRow → Tx (Option MembershipRow)
insert_membership row db = elim (membership_of row.world_id row.player_id db) [
  | none ↦ return (some row) (record db { memberships = row ∷ db.memberships })
  | some _ ↦ return none db
]

assigned_row : Option MembershipRow → Tx EstablishFactionResult
assigned_row none = fail no_row
assigned_row (some row) = return (record { outcome = assigned; membership = row })

-- What follows `lockMembership`, by the faction that the row has.
settle : ℕ → ℕ → Faction → ℕ → MembershipRow → Option Faction → Tx EstablishFactionResult
unfolding assigned_row
settle world player requested now existing none db =
    assigned_row
      (Option.map (assign requested now) (find_where (is_membership world player) db.memberships))
      (record db {
        memberships =
            update_where (is_membership world player) (assign requested now) db.memberships;
      })
settle world player requested now existing (some faction) db =
    if faction_eq faction requested
    then return (record { outcome = idempotent; membership = existing }) db
    else return (record { outcome = conflict; membership = existing }) db

settle_locked : ℕ → ℕ → Faction → ℕ → Option MembershipRow → Tx EstablishFactionResult
unfolding settle
settle_locked world player requested now none = fail row_lost
settle_locked world player requested now (some existing) =
    settle world player requested now existing existing.faction

inserted_or : ℕ → ℕ → Faction → ℕ → Option MembershipRow → Tx EstablishFactionResult
unfolding settle_locked lock_membership
inserted_or world player requested now (some row) =
    return (record { outcome = created; membership = row })
inserted_or world player requested now none =
    lock_membership world player >>= settle_locked world player requested now

unfoldable pub establish_player_faction : ℕ → ℕ → Faction → ℕ → Tx EstablishFactionResult
unfolding insert_membership inserted_or
establish_player_faction world player requested now =
    insert_membership (new_membership world player requested now)
    >>= inserted_or world player requested now
