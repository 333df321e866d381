-- ===== src/Examples.antt =====
-- Small concrete tables, and the theorems applied to them.
pub mod LeaseCalls
pub mod Histories
pub mod Services
pub mod FixedPoint
pub mod Rooms
pub mod Sessions
pub mod Messages
use burning_space.Base.{ℕ, ◌≡◌, refl, none, some, [], ◌∷◌}
use burning_space.Persistence.Schema.{
  red, WorldRow, LeaseRow, Db, Moment, LifecycleStatus, LeaseStatus,
}
use burning_space.Persistence.Leases.Shape.{IsWellFormed}

-- A world held by the instance 5 under its first epoch, until second 20.
abbrev pub world_row : WorldRow
world_row = record {
  world_id = 1;
  world_slug = 7;
  lifecycle_status = LifecycleStatus.active;
  state_revision = 0;
  domain_version = 1;
  writer_instance_id = some 5;
  writer_expires_at = some 20000000;
  writer_epoch = 1;
}

-- The live lease of the player 2 in it.
abbrev pub lease_row : LeaseRow
lease_row = record {
  world_id = 1;
  player_id = 2;
  lease_id = 3;
  credential_id = 4;
  server_instance_id = 5;
  writer_epoch = 1;
  room_id = 6;
  transport_session_id = 7;
  status = LeaseStatus.active;
  updated_at = 1000000;
  expires_at = 46000000;
  reconnect_deadline = none;
}

abbrev pub tables : Db
tables = record {
  worlds = world_row ∷ [];
  players = record { player_id = 2; display_name = none } ∷ [];
  credentials =
      record { credential_id = 4; player_id = 2; credential_hash = 99; revoked_at = none } ∷ [];
  memberships =
      record { world_id = 1; player_id = 2; faction = some red; faction_assigned_at = some 0 } ∷ [];
  leases = lease_row ∷ [];
}

pub tables-IsWellFormed : IsWellFormed tables
tables-IsWellFormed = record { shaped = (refl, tt); keyed = λ world player. (λ h. refl, tt) }

-- Second 10, and second 50, when the lease and the writer have lapsed.
abbrev pub early : Moment
early = record {
  db_now = 10000000;
  checked_at = 10000000;
  updated_at = 10000000;
  expires_from = 10000000;
  fresh_id = 30;
}

abbrev pub late : Moment
late = record {
  db_now = 50000000;
  checked_at = 50000000;
  updated_at = 50000000;
  expires_from = 50000000;
  fresh_id = 31;
}
