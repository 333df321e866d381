-- ===== src/Persistence/Leases.antt =====
-- apps/server/src/persistence/repositories/sessionLeasesRepository.ts: one gameplay lease for each
-- world and player. Each statement is a SELECT, UPDATE or INSERT on the table of leases.
pub mod Shape
pub mod Rows
pub mod Keeps
pub mod Acquire
pub mod Recovery
pub mod Fencing
use mathlib.Core.Option
use burning_space.Base.{
  ℕ, ◌+◌, Bool, true, false, not, ◌&&◌, ◌||◌, Option, none, some, is_some, ◌∷◌, leb, ltb, ◌==◌,
  if◌then◌else◌, is_some_after, find_where, update_where,
}
use burning_space.Persistence.Schema.{
  LeaseStatus, LeaseRow, MembershipRow, CredentialRow, Db, Moment, seconds, get_time,
}
use burning_space.Persistence.Transaction.{
  Tx, throw, ◌>>=◌, return, fail, row_lost, no_row, require_positive_integer, query_failed,
}

pub record AcquireLeaseParams : Type 0 where
  pub world_id : ℕ
  pub player_id : ℕ
  pub credential_id : ℕ
  pub server_instance_id : ℕ
  pub writer_epoch : ℕ
  pub room_id : ℕ
  pub transport_session_id : ℕ
  pub active_ttl_seconds : ℕ

pub data AcquireLeaseResult : Type 0 where
  acquired : ℕ → ℕ → AcquireLeaseResult
  identity_in_use : AcquireLeaseResult

abbrev pub is_active : LeaseStatus → Bool
is_active LeaseStatus.active = true
is_active _ = false

abbrev pub is_recovering : LeaseStatus → Bool
is_recovering LeaseStatus.recovering = true
is_recovering _ = false

abbrev pub is_released : LeaseStatus → Bool
is_released LeaseStatus.released = true
is_released _ = false

-- `WHERE world_id = $1 AND player_id = $2`.
abbrev pub has_key : ℕ → ℕ → LeaseRow → Bool
has_key world player row = row.world_id == world && row.player_id == player

-- The row of the primary key.
abbrev pub lease_of : ℕ → ℕ → Db → Option LeaseRow
lease_of world player db = find_where (has_key world player) db.leases

-- `UPDATE active_session_leases SET f WHERE q RETURNING …`: the new row, if one was changed.
abbrev pub update_leases : (LeaseRow → Bool) → (LeaseRow → LeaseRow) → Tx (Option LeaseRow)
update_leases q f db =
    return (Option.map f (find_where q db.leases))
      (record db { leases = update_where q f db.leases })

-- The row that the INSERT writes, and the columns that a reclaim sets.
abbrev pub new_lease : AcquireLeaseParams → Moment → LeaseRow
new_lease params m = record {
  world_id = params.world_id;
  player_id = params.player_id;
  lease_id = m.fresh_id;
  credential_id = params.credential_id;
  server_instance_id = params.server_instance_id;
  writer_epoch = params.writer_epoch;
  room_id = params.room_id;
  transport_session_id = params.transport_session_id;
  status = LeaseStatus.active;
  updated_at = m.updated_at;
  expires_at = m.expires_from + seconds params.active_ttl_seconds;
  reconnect_deadline = none;
}

-- The constraints `active_session_leases_lease_id_unique` and `…_server_transport_unique` of
-- apps/server/db/migrations/001_persistent_identity_foundation.sql, between two rows.
abbrev pub collides : LeaseRow → LeaseRow → Bool
collides row other =
    other.lease_id == row.lease_id
    || (other.server_instance_id == row.server_instance_id
        && other.transport_session_id == row.transport_session_id)

-- The foreign keys `…_membership_fkey` and `…_credential_fkey`.
abbrev pub has_membership : ℕ → ℕ → Db → Bool
has_membership world player db = is_some (
    find_where (λ (row : MembershipRow). row.world_id == world && row.player_id == player)
      db.memberships)

abbrev pub has_credential : ℕ → ℕ → Db → Bool
has_credential player credential db = is_some (
    find_where (λ (row : CredentialRow). row.player_id == player && row.credential_id == credential)
      db.credentials)

abbrev pub can_insert : LeaseRow → Db → Bool
can_insert row db =
    not (is_some (find_where (collides row) db.leases))
    && has_membership row.world_id row.player_id db
    && has_credential row.player_id row.credential_id db

-- `INSERT … ON CONFLICT (world_id, player_id) DO NOTHING RETURNING …`: a row of the key stops it
-- silently, and a violation of another constraint is an error.
insert_lease : LeaseRow → Tx (Option LeaseRow)
insert_lease row db = elim (lease_of row.world_id row.player_id db) [
  | none ↦
      if can_insert row db
      then return (some row) (record db { leases = row ∷ db.leases })
      else throw query_failed
  | some _ ↦ return none db
]

abbrev pub is_passed : Option ℕ → ℕ → Bool
is_passed none now = false
is_passed (some t) now = leb (get_time t) (get_time now)

-- The `getTime()` comparisons against `db_now`.
abbrev pub is_expired : LeaseRow → ℕ → Bool
is_expired row now =
    is_active row.status && leb (get_time row.expires_at) (get_time now)
    || is_recovering row.status && is_passed row.reconnect_deadline now

abbrev pub is_same_session : AcquireLeaseParams → LeaseRow → Bool
is_same_session params row =
    row.server_instance_id == params.server_instance_id
    && row.writer_epoch == params.writer_epoch
    && row.room_id == params.room_id
    && row.transport_session_id == params.transport_session_id
    && row.credential_id == params.credential_id

abbrev pub reclaim : AcquireLeaseParams → Moment → LeaseRow → LeaseRow
reclaim params m row = record row {
  lease_id = m.fresh_id;
  credential_id = params.credential_id;
  server_instance_id = params.server_instance_id;
  writer_epoch = params.writer_epoch;
  room_id = params.room_id;
  transport_session_id = params.transport_session_id;
  status = LeaseStatus.active;
  reconnect_deadline = none;
  updated_at = m.updated_at;
  expires_at = m.expires_from + seconds params.active_ttl_seconds;
}

abbrev pub refresh : ℕ → Moment → LeaseRow → LeaseRow
refresh ttl m row = record row {
  updated_at = m.updated_at;
  expires_at = m.expires_from + seconds ttl;
}

-- The UPDATE of a reclaim meets the constraints: against the other rows, and for a credential that it
-- changes.
abbrev pub can_reclaim : AcquireLeaseParams → Moment → LeaseRow → Db → Bool
can_reclaim params m existing db =
    not (
      is_some (
        find_where
          (λ row.
            not (has_key params.world_id params.player_id row)
            && collides (reclaim params m existing) row)
          db.leases))
    && (existing.credential_id == params.credential_id
        || has_credential params.player_id params.credential_id db)

reclaim_lease : AcquireLeaseParams → Moment → LeaseRow → Tx (Option LeaseRow)
reclaim_lease params m existing db =
    if can_reclaim params m existing db
    then update_leases (has_key params.world_id params.player_id) (reclaim params m) db
    else throw query_failed

acquired_row : Option LeaseRow → Tx AcquireLeaseResult
acquired_row none = fail no_row
acquired_row (some row) = return (acquired row.lease_id (get_time row.expires_at))

refreshed_row : LeaseRow → Option LeaseRow → Tx AcquireLeaseResult
refreshed_row existing none = return (acquired existing.lease_id (get_time existing.expires_at))
refreshed_row existing (some row) = return (acquired existing.lease_id (get_time row.expires_at))

abbrev pub can_refresh : AcquireLeaseParams → LeaseRow → LeaseRow → Bool
can_refresh params existing row =
    has_key params.world_id params.player_id row && row.lease_id == existing.lease_id

-- What follows the SELECT … FOR UPDATE.
take_existing : AcquireLeaseParams → Moment → LeaseRow → Tx AcquireLeaseResult
unfolding reclaim_lease acquired_row refreshed_row
take_existing params m existing =
    if is_released existing.status || is_expired existing m.db_now
    then reclaim_lease params m existing >>= acquired_row
    else if is_same_session params existing && is_active existing.status
    then update_leases (can_refresh params existing) (refresh params.active_ttl_seconds m)
      >>= refreshed_row existing
    else return identity_in_use

select_existing : AcquireLeaseParams → Moment → Tx AcquireLeaseResult
unfolding take_existing
select_existing params m db = elim (lease_of params.world_id params.player_id db) [
  | none ↦ throw row_lost
  | some existing ↦ take_existing params m existing db
]

inserted_or : AcquireLeaseParams → Moment → Option LeaseRow → Tx AcquireLeaseResult
unfolding select_existing
inserted_or params m (some row) = return (acquired row.lease_id (get_time row.expires_at))
inserted_or params m none = select_existing params m

pub acquire_gameplay_lease : AcquireLeaseParams → Moment → Tx AcquireLeaseResult
unfolding insert_lease inserted_or
acquire_gameplay_lease params m =
    require_positive_integer params.active_ttl_seconds
      (insert_lease (new_lease params m) >>= inserted_or params m)

pub record LeaseIdentityParams : Type 0 where
  pub world_id : ℕ
  pub player_id : ℕ
  pub lease_id : ℕ
  pub server_instance_id : ℕ
  pub writer_epoch : ℕ

-- `WHERE world_id = $1 AND player_id = $2 AND lease_id = $3 AND server_instance_id = $4
-- AND writer_epoch = $5`.
abbrev pub is_identity : LeaseIdentityParams → LeaseRow → Bool
is_identity params row =
    has_key params.world_id params.player_id row
    && row.lease_id == params.lease_id
    && row.server_instance_id == params.server_instance_id
    && row.writer_epoch == params.writer_epoch

abbrev expiry : Option LeaseRow → Option ℕ
expiry = Option.map (λ row. get_time row.expires_at)

abbrev pub can_renew : LeaseIdentityParams → ℕ → LeaseRow → Bool
can_renew params now row = is_identity params row && is_active row.status && ltb now row.expires_at

pub renew_gameplay_lease : LeaseIdentityParams → ℕ → Moment → Tx (Option ℕ)
renew_gameplay_lease params ttl m =
    require_positive_integer ttl
      (update_leases (can_renew params m.checked_at) (refresh ttl m) >>= λ row. return (expiry row))

-- With the reconnect deadline that the statement returned.
pub data MarkRecoveringResult : Type 0 where
  now_recovering : Option ℕ → MarkRecoveringResult
  already_recovering : ℕ → MarkRecoveringResult
  not_found : MarkRecoveringResult

-- One reading of the clock for all columns: the common table expression `db_time`.
abbrev pub start_recovery : ℕ → ℕ → LeaseRow → LeaseRow
start_recovery grace now row = record row {
  status = LeaseStatus.recovering;
  reconnect_deadline = some (now + seconds grace);
  expires_at = now + seconds grace;
  updated_at = now;
}

-- What the second SELECT of `markRecovering` finds.
recovering_row : Option LeaseRow → MarkRecoveringResult
recovering_row none = not_found
recovering_row (some row) = elim row.reconnect_deadline [
  | none ↦ not_found
  | some deadline ↦
      if is_recovering row.status then already_recovering (get_time deadline) else not_found
]

-- The result, from the row that the UPDATE returned.
marked : LeaseIdentityParams → Option LeaseRow → Db → MarkRecoveringResult
unfolding recovering_row
marked params (some row) db = now_recovering (Option.map get_time row.reconnect_deadline)
marked params none db = recovering_row (find_where (is_identity params) db.leases)

abbrev pub can_mark : LeaseIdentityParams → LeaseRow → Bool
can_mark params row = is_identity params row && is_active row.status

pub mark_recovering : LeaseIdentityParams → ℕ → ℕ → Tx MarkRecoveringResult
unfolding marked
mark_recovering params grace now = require_positive_integer grace (
    update_leases (can_mark params) (start_recovery grace now) >>= λ row after.
    return (marked params row after) after)

abbrev pub resume : ℕ → ℕ → LeaseRow → LeaseRow
resume ttl now row = record row {
  status = LeaseStatus.active;
  reconnect_deadline = none;
  expires_at = now + seconds ttl;
  updated_at = now;
}

abbrev pub can_resume : LeaseIdentityParams → ℕ → ℕ → LeaseRow → Bool
can_resume params credential now row =
    is_identity params row
    && row.credential_id == credential
    && is_recovering row.status
    && is_some_after row.reconnect_deadline now

pub resume_recovering_lease : LeaseIdentityParams → ℕ → ℕ → ℕ → Tx (Option ℕ)
resume_recovering_lease params credential ttl now = require_positive_integer ttl (
    update_leases (can_resume params credential now) (resume ttl now) >>= λ row.
    return (expiry row))

abbrev pub release : ℕ → LeaseRow → LeaseRow
release now row = record row {
  status = LeaseStatus.released;
  reconnect_deadline = none;
  expires_at = now;
  updated_at = now;
}

abbrev pub can_release : ℕ → ℕ → ℕ → LeaseRow → Bool
can_release world player lease row =
    has_key world player row && row.lease_id == lease && not (is_released row.status)

pub release_gameplay_lease : ℕ → ℕ → ℕ → ℕ → Tx Bool
release_gameplay_lease world player lease now =
    update_leases (can_release world player lease) (release now) >>= λ row. return (is_some row)

-- `findGameplayLease`: the row as it stands.
pub find_gameplay_lease : ℕ → ℕ → Tx (Option LeaseRow)
find_gameplay_lease world player db = return (lease_of world player db) db
