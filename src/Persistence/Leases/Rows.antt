-- ===== src/Persistence/Leases/Rows.antt =====
-- How an UPDATE of the table of leases shows at the row of a key.
use mathlib.Core.Option
use burning_space.Base.{
  update_where-none, ==_iff, Bool-cases, ◌∙◌, ℕ, ◌≡◌, Bool, true, false, none, some, arith,
  Option-cases, inl, inr, find_where, update_where, change_if, find_where-update_where,
  find_where_holds, find_where_narrow, ◌&&◌, ◌==◌, if◌then◌else◌,
}
use burning_space.Persistence.Schema.{Db, LeaseRow}
use burning_space.Persistence.Leases.{has_key, lease_of}
use burning_space.Persistence.Leases.Shape.{IsWellFormed}

-- No statement but a fresh INSERT moves a row to another key.
abbrev pub KeepsKey : (LeaseRow → LeaseRow) → Type 0
KeepsKey f =
    (world player : ℕ) (row : LeaseRow) → has_key world player (f row) ≡ has_key world player row

abbrev pub updated : (LeaseRow → Bool) → (LeaseRow → LeaseRow) → Db → Db
updated q f db = record db { leases = update_where q f db.leases }

module _ (world player : ℕ) (q : LeaseRow → Bool) (f : LeaseRow → LeaseRow)
    (keep : KeepsKey f) where
  pub lease_of-updated :
      (db : Db)
      → lease_of world player (updated q f db)
        ≡ Option.map (change_if q f) (lease_of world player db)
  lease_of-updated db =
      find_where-update_where (has_key world player) q f db.leases (keep world player)

  pub lease_of-updated-none :
      (db : Db) → lease_of world player db ≡ none → lease_of world player (updated q f db) ≡ none
  lease_of-updated-none db free = rw (lease_of-updated db, free)

  pub lease_of-updated-some :
      (db : Db) (row : LeaseRow)
      → lease_of world player db ≡ some row
      → lease_of world player (updated q f db) ≡ some (change_if q f row)
  lease_of-updated-some db row found = rw (lease_of-updated db, found)

  pub lease_of-updated_hit :
      (db : Db) (row : LeaseRow)
      → lease_of world player db ≡ some row
      → q row ≡ true
      → lease_of world player (updated q f db) ≡ some (f row)
  lease_of-updated_hit db row found hit = lease_of-updated-some db row found ∙ rw hit

  -- A statement about one key leaves the rows of the others alone.
  pub lease_of-updated_other :
      (db : Db) (world' player' : ℕ)
      → ((row : LeaseRow) → q row ≡ true → has_key world' player' row ≡ true)
      → (world == world' && player == player') ≡ false
      → lease_of world player (updated q f db) ≡ lease_of world player db
  lease_of-updated_other db world' player' narrow other =
      elim (Option-cases (lease_of world player db)) [
        | inl free ↦ rw (lease_of-updated-none db free, free)
        | inr (row, found) ↦
            rw (lease_of-updated-some db row found, found)
              (ground (arith, narrow row, find_where_holds (has_key world player) db.leases found))
      ]

-- The row that a narrower condition on a key selects.
pub find_in_key :
    (world player : ℕ) (q : LeaseRow → Bool) (db : Db) (row : LeaseRow)
    → IsWellFormed db
    → ((r : LeaseRow) → q r ≡ true → has_key world player r ≡ true)
    → lease_of world player db ≡ some row
    → find_where q db.leases ≡ (if q row then some row else none)
find_in_key world player q db row v narrow found =
    find_where_narrow (has_key world player) q db.leases row narrow (v.keyed world player) found

pub key_of_lease :
    (world player : ℕ) (db : Db) {row : LeaseRow}
    → lease_of world player db ≡ some row
    → (row.world_id ≡ world) × (row.player_id ≡ player)
key_of_lease world player db {row} found =
    ground (arith, find_where_holds (has_key world player) db.leases found)

pub find_in_key_hit :
    (world player : ℕ) (q : LeaseRow → Bool) (db : Db) (row : LeaseRow)
    → IsWellFormed db
    → ((r : LeaseRow) → q r ≡ true → has_key world player r ≡ true)
    → lease_of world player db ≡ some row
    → q row ≡ true
    → find_where q db.leases ≡ some row
find_in_key_hit world player q db row v narrow found hit =
    find_in_key world player q db row v narrow found ∙ rw hit

pub find_in_key_miss :
    (world player : ℕ) (q : LeaseRow → Bool) (db : Db) (row : LeaseRow)
    → IsWellFormed db
    → ((r : LeaseRow) → q r ≡ true → has_key world player r ≡ true)
    → lease_of world player db ≡ some row
    → q row ≡ false
    → find_where q db.leases ≡ none
find_in_key_miss world player q db row v narrow found miss =
    find_in_key world player q db row v narrow found ∙ rw miss

-- A fenced UPDATE in the key of a row that does not meet its condition.
module _ (world player : ℕ) (q : LeaseRow → Bool) (f : LeaseRow → LeaseRow) (db : Db)
    (row : LeaseRow) (v : IsWellFormed db)
    (narrow : (r : LeaseRow) → q r ≡ true → has_key world player r ≡ true)
    (found : lease_of world player db ≡ some row) where
  pub updated_miss : q row ≡ false → updated q f db ≡ db
  updated_miss miss =
      rw (
        update_where-none q f db.leases
          (find_in_key_miss world player q db row v narrow found miss))

-- The rows of all keys after a statement about one.
pub rows_after :
    (world' player' : ℕ) (db after : Db) (row : LeaseRow)
    → lease_of world' player' after ≡ some row
    → ((world player : ℕ)
        → (world == world' && player == player') ≡ false
        → lease_of world player after ≡ lease_of world player db)
    → (world player : ℕ)
    → lease_of world player after
      ≡ (if world == world' && player == player' then some row else lease_of world player db)
rows_after world' player' db after row found others world player =
    elim (Bool-cases (world == world' && player == player')) [
      | inl same ↦ rw same (ground (arith, found, ==_iff world world', ==_iff player player'))
      | inr other ↦ rw other (others world player other)
    ]
