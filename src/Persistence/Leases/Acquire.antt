-- ===== src/Persistence/Leases/Acquire.antt =====
-- Acquiring a gameplay lease: every outcome of `acquireGameplayLease`, told by what the row of the
-- player held before.
use burning_space.Base.{
  if◌then◌else◌, ℕ, ◌≡◌, Bool, true, false, Option, none, some, ◌&&◌, ◌||◌, ◌==◌,
}
use burning_space.Persistence.Schema.{LeaseRow, Db, Moment, get_time}
use burning_space.Persistence.Transaction.{throw, ok}
use burning_space.Persistence.Leases.{
  can_reclaim, query_failed, throw, can_insert, AcquireLeaseParams, AcquireLeaseResult, acquired,
  identity_in_use, lease_of, is_active, is_released, is_expired, is_same_session, new_lease,
  refresh, acquire_gameplay_lease,
}

abbrev pub has_lapsed : LeaseRow → ℕ → Bool
has_lapsed row now = is_released row.status || is_expired row now

-- What an acquisition answers and leaves in the player's row, from what the row held.
pub data Acquires (params : AcquireLeaseParams) (m : Moment) (db : Db) (before : Option LeaseRow)
    (answer : AcquireLeaseResult) (after : LeaseRow) : Type 0 where
  first :
      before ≡ none
      → can_insert (new_lease params m) db ≡ true
      → answer ≡ acquired m.fresh_id (get_time after.expires_at)
      → after ≡ new_lease params m
      → Acquires params m db before answer after
  taken_over :
      (old : LeaseRow)
      → before ≡ some old
      → has_lapsed old m.db_now ≡ true
      → can_reclaim params m old db ≡ true
      → answer ≡ acquired m.fresh_id (get_time after.expires_at)
      → after ≡ new_lease params m
      → Acquires params m db before answer after
  kept :
      (old : LeaseRow)
      → before ≡ some old
      → has_lapsed old m.db_now ≡ false
      → is_same_session params old ≡ true
      → is_active old.status ≡ true
      → answer ≡ acquired old.lease_id (get_time after.expires_at)
      → after ≡ refresh params.active_ttl_seconds m old
      → Acquires params m db before answer after
  refused :
      before ≡ some after
      → has_lapsed after m.db_now ≡ false
      → (is_same_session params after && is_active after.status) ≡ false
      → answer ≡ identity_in_use
      → Acquires params m db before answer after

-- The tables after it: the row of the key, and that no other key's row has changed.
pub record Outcome (params : AcquireLeaseParams) (m : Moment) (db : Db) : Type 0 where
  pub answer : AcquireLeaseResult
  pub after : Db
  pub row : LeaseRow
  pub runs : acquire_gameplay_lease params m db ≡ ok (answer, after)
  pub explained : Acquires params m db (lease_of params.world_id params.player_id db) answer row
  pub rows :
      (world player : ℕ)
      → lease_of world player after ≡ (
          if world == params.world_id && player == params.player_id
          then some row
          else lease_of world player db)

-- What a new or reclaimed lease of the player breaks of the constraints of the tables.
pub data Breaks (params : AcquireLeaseParams) (m : Moment) (db : Db) : Type 0 where
  on_insert :
      lease_of params.world_id params.player_id db ≡ none
      → can_insert (new_lease params m) db ≡ false
      → Breaks params m db
  on_reclaim :
      (old : LeaseRow)
      → lease_of params.world_id params.player_id db ≡ some old
      → has_lapsed old m.db_now ≡ true
      → can_reclaim params m old db ≡ false
      → Breaks params m db

-- The statement that the database refuses, which ends the transaction.
pub record Rejection (params : AcquireLeaseParams) (m : Moment) (db : Db) : Type 0 where
  pub breaks : Breaks params m db
  pub throws : acquire_gameplay_lease params m db ≡ throw query_failed
