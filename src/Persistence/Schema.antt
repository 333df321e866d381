-- ===== src/Persistence/Schema.antt =====
-- The tables of apps/server/db/migrations/001_persistent_identity_foundation.sql, with the columns
-- that the repositories of apps/server/src/persistence/repositories read. Identifiers (UUIDs, room
-- and session ids) are only compared, and are numbers here. A time is in microseconds, as in
-- TIMESTAMPTZ; a JavaScript `Date` made of one is in milliseconds.
use burning_space.Base.{ℕ, ◌*◌, ◌/◌, List, Option}

pub data Faction : Type 0 where
  red blue : Faction

pub data LifecycleStatus : Type 0 where
  active retired : LifecycleStatus

pub data LeaseStatus : Type 0 where
  active recovering released : LeaseStatus

pub record WorldRow : Type 0 where
  pub world_id : ℕ
  pub world_slug : ℕ
  pub lifecycle_status : LifecycleStatus
  pub state_revision : ℕ
  pub domain_version : ℕ
  pub writer_instance_id : Option ℕ
  pub writer_expires_at : Option ℕ
  pub writer_epoch : ℕ

pub record PlayerRow : Type 0 where
  pub player_id : ℕ
  pub display_name : Option (List ℕ)

pub record CredentialRow : Type 0 where
  pub credential_id : ℕ
  pub player_id : ℕ
  pub credential_hash : ℕ
  pub revoked_at : Option ℕ

pub record MembershipRow : Type 0 where
  pub world_id : ℕ
  pub player_id : ℕ
  pub faction : Option Faction
  pub faction_assigned_at : Option ℕ

pub record LeaseRow : Type 0 where
  pub world_id : ℕ
  pub player_id : ℕ
  pub lease_id : ℕ
  pub credential_id : ℕ
  pub server_instance_id : ℕ
  pub writer_epoch : ℕ
  pub room_id : ℕ
  pub transport_session_id : ℕ
  pub status : LeaseStatus
  pub updated_at : ℕ
  pub expires_at : ℕ
  pub reconnect_deadline : Option ℕ

pub record Db : Type 0 where
  pub worlds : List WorldRow
  pub players : List PlayerRow
  pub credentials : List CredentialRow
  pub memberships : List MembershipRow
  pub leases : List LeaseRow

-- `interval 'n seconds'`.
abbrev pub seconds : ℕ → ℕ
seconds n = n * 1000000

-- `Date.getTime()` of a column's value: the driver drops what is below a millisecond.
abbrev pub get_time : ℕ → ℕ
get_time t = t / 1000

-- The readings of `clock_timestamp()` in one statement, by the column or the condition that takes
-- them, with the reading `db_now` of the SELECT before it, and what `gen_random_uuid()` returns.
-- PostgreSQL makes each reading anew, so nothing ties them together.
pub record Moment : Type 0 where
  pub db_now : ℕ
  pub checked_at : ℕ
  pub updated_at : ℕ
  pub expires_from : ℕ
  pub fresh_id : ℕ
