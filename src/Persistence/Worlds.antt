-- ===== src/Persistence/Worlds.antt =====
-- apps/server/src/persistence/repositories/worldsRepository.ts: the world's row, its writer and the
-- writer's epoch.
pub mod Keeps
pub mod Claims
use mathlib.Core.Option
use burning_space.Base.{none, some, true, false}
use burning_space.Base.{
  not, false, ◌∷◌, is_some_after, is_some_eq, true, some, ◌+◌, none, ◌&&◌, if◌then◌else◌, is_some,
  ℕ, ◌≡◌, Bool, Option, List, ◌==◌, find_where, update_where,
}
use burning_space.Persistence.Schema.{
  LeaseRow, LifecycleStatus, WorldRow, Db, Moment, seconds, get_time,
}
use burning_space.Persistence.Transaction.{
  ◌>>◌, fail, ◌>>=◌, Tx, return, world_not_found, world_retired, domain_version_mismatch,
}
use burning_space.Persistence.Leases.{is_released, release}

abbrev pub supported_domain_version : ℕ
supported_domain_version = 1

abbrev pub world_writer_ttl_seconds : ℕ
world_writer_ttl_seconds = 15

abbrev pub is_world : ℕ → WorldRow → Bool
is_world world row = row.world_id == world

abbrev pub world_of : ℕ → Db → Option WorldRow
world_of world db = find_where (is_world world) db.worlds

abbrev pub is_slug : ℕ → WorldRow → Bool
is_slug slug row = row.world_slug == slug

-- `findWorldBySlug`.
pub find_world_by_slug : ℕ → Tx (Option WorldRow)
find_world_by_slug slug db = return (find_where (is_slug slug) db.worlds) db

abbrev pub status_is_active : LifecycleStatus → Bool
status_is_active LifecycleStatus.active = true
status_is_active LifecycleStatus.retired = false

-- `assertCompatible`.
pub assert_compatible : WorldRow → Tx (Unit {0})
assert_compatible row =
    if not (status_is_active row.lifecycle_status)
    then fail world_retired
    else if not (row.domain_version == supported_domain_version)
    then fail domain_version_mismatch
    else return tt

pub data BootstrapStatus : Type 0 where
  created existing : BootstrapStatus

-- The row that `INSERT INTO worlds …` writes, with the identifier that the database generates.
abbrev pub new_world : ℕ → ℕ → WorldRow
new_world fresh slug = record {
  world_id = fresh;
  world_slug = slug;
  lifecycle_status = LifecycleStatus.active;
  state_revision = 0;
  domain_version = 1;
  writer_instance_id = none;
  writer_expires_at = none;
  writer_epoch = 0;
}

-- The INSERT, and the SELECT if it met a conflict.
insert_or_find : ℕ → ℕ → Tx (BootstrapStatus × WorldRow)
insert_or_find fresh slug db = elim (find_where (is_slug slug) db.worlds) [
  | none ↦
      return (created, new_world fresh slug)
        (record db { worlds = new_world fresh slug ∷ db.worlds })
  | some row ↦ return (existing, row) db
]

compatible : BootstrapStatus × WorldRow → Tx (BootstrapStatus × WorldRow)
unfolding assert_compatible
compatible (status, row) = assert_compatible row >> return (status, row)

pub bootstrap_world : ℕ → ℕ → Tx (BootstrapStatus × WorldRow)
unfolding insert_or_find compatible
bootstrap_world fresh slug = insert_or_find fresh slug >>= compatible

pub record WriterClaim : Type 0 where
  pub world_id : ℕ
  pub server_instance_id : ℕ
  pub writer_epoch : ℕ
  pub writer_expires_at : ℕ

-- The claim that a claimant is told of.
abbrev pub granted : ℕ → ℕ → ℕ → Moment → WriterClaim
granted world instance_id epoch m = record {
  world_id = world;
  server_instance_id = instance_id;
  writer_epoch = epoch;
  writer_expires_at = get_time (m.expires_from + seconds world_writer_ttl_seconds);
}

pub data ClaimWorldWriterResult : Type 0 where
  claimed : WriterClaim → ClaimWorldWriterResult
  live_writer_conflict : Option ℕ → ClaimWorldWriterResult

-- A writer lease that `getTime()` puts after `db_now`.
abbrev pub is_live : WorldRow → ℕ → Bool
is_live row now = is_some_after (Option.map get_time row.writer_expires_at) (get_time now)

abbrev pub has_live_other_writer : WorldRow → ℕ → ℕ → Bool
has_live_other_writer row instance_id now =
    is_some row.writer_instance_id
    && is_live row now
    && not (is_some_eq row.writer_instance_id instance_id)

abbrev pub same_process_still_live : WorldRow → ℕ → ℕ → Bool
same_process_still_live row instance_id now =
    is_some_eq row.writer_instance_id instance_id && is_live row now

abbrev pub extend_writer : Moment → WorldRow → WorldRow
extend_writer m row = record row {
  writer_expires_at = some (m.expires_from + seconds world_writer_ttl_seconds);
}

abbrev pub take_over : ℕ → ℕ → Moment → WorldRow → WorldRow
take_over instance_id epoch m row = record row {
  writer_instance_id = some instance_id;
  writer_epoch = epoch;
  writer_expires_at = some (m.expires_from + seconds world_writer_ttl_seconds);
}

abbrev pub is_of_other_epoch : ℕ → ℕ → LeaseRow → Bool
is_of_other_epoch world epoch row =
    row.world_id == world && not (is_released row.status) && not (row.writer_epoch == epoch)

abbrev pub update_world : ℕ → (WorldRow → WorldRow) → Db → Db
update_world world f db = record db { worlds = update_where (is_world world) f db.worlds }

-- The takeover: the world's row, and the leases of earlier epochs released at one reading of the
-- clock, `db_time`.
abbrev pub taken_over : ℕ → ℕ → ℕ → Moment → ℕ → Db → Db
taken_over world instance_id epoch m db_time db =
    record (update_world world (take_over instance_id epoch m) db) {
      leases = update_where (is_of_other_epoch world epoch) (release db_time) db.leases;
    }

-- What follows the SELECT … FOR UPDATE and `assertCompatible`.
claim_row : ℕ → ℕ → Moment → ℕ → WorldRow → Tx ClaimWorldWriterResult
claim_row world instance_id m db_time row db =
    if has_live_other_writer row instance_id m.db_now
    then return (live_writer_conflict (Option.map get_time row.writer_expires_at)) db
    else if same_process_still_live row instance_id m.db_now
    then return (claimed (granted world instance_id row.writer_epoch m))
        (update_world world (extend_writer m) db)
    else return (claimed (granted world instance_id (row.writer_epoch + 1) m))
        (taken_over world instance_id (row.writer_epoch + 1) m db_time db)

claim_found : ℕ → ℕ → Moment → ℕ → Option WorldRow → Tx ClaimWorldWriterResult
unfolding claim_row assert_compatible
claim_found world instance_id m db_time none = fail world_not_found
claim_found world instance_id m db_time (some row) =
    assert_compatible row >> claim_row world instance_id m db_time row

pub claim_world_writer : ℕ → ℕ → Moment → ℕ → Tx ClaimWorldWriterResult
unfolding claim_found
claim_world_writer world instance_id m db_time db =
    claim_found world instance_id m db_time (world_of world db) db

-- `WHERE world_id = $1 AND writer_instance_id = $2 AND writer_epoch = $3`.
abbrev pub is_writer : ℕ → ℕ → ℕ → WorldRow → Bool
is_writer world instance_id epoch row =
    is_world world row && is_some_eq row.writer_instance_id instance_id && row.writer_epoch == epoch

abbrev pub can_renew_writer : ℕ → ℕ → ℕ → ℕ → WorldRow → Bool
can_renew_writer world instance_id epoch now row =
    is_writer world instance_id epoch row && is_some_after row.writer_expires_at now

abbrev pub update_worlds : (WorldRow → Bool) → (WorldRow → WorldRow) → Tx (Option WorldRow)
update_worlds q f db =
    return (Option.map f (find_where q db.worlds))
      (record db { worlds = update_where q f db.worlds })

abbrev pub writer_expiry : Option WorldRow → Option ℕ
writer_expiry none = none
writer_expiry (some row) = Option.map get_time row.writer_expires_at

pub renew_world_writer : ℕ → ℕ → ℕ → Moment → Tx (Option ℕ)
renew_world_writer world instance_id epoch m =
    update_worlds (can_renew_writer world instance_id epoch m.checked_at) (extend_writer m)
    >>= λ row. return (writer_expiry row)

-- `isVerified`.
abbrev pub is_verified : ℕ → ℕ → ℕ → WorldRow → Bool
is_verified instance_id epoch now row =
    status_is_active row.lifecycle_status
    && row.domain_version == supported_domain_version
    && is_some_eq row.writer_instance_id instance_id
    && row.writer_epoch == epoch
    && is_live row now

-- `lockAndVerifyCurrentWriter`: whether it returns a verified writer.
unfoldable pub lock_and_verify_current_writer : ℕ → ℕ → ℕ → ℕ → Tx Bool
lock_and_verify_current_writer world instance_id epoch now db = elim (world_of world db) [
  | none ↦ return false db
  | some row ↦ return (is_verified instance_id epoch now row) db
]

unfoldable pub increment_world_state_revision : ℕ → Tx (Unit {0})
increment_world_state_revision world db =
    return tt
      (update_world world (λ row. record row { state_revision = row.state_revision + 1 }) db)

abbrev pub clear_writer : WorldRow → WorldRow
clear_writer row = record row { writer_instance_id = none; writer_expires_at = none }

pub release_world_writer : ℕ → ℕ → ℕ → Tx Bool
release_world_writer world instance_id epoch =
    update_worlds (is_writer world instance_id epoch) clear_writer >>= λ row. return (is_some row)
