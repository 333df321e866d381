-- ===== src/Persistence/History/Kept.antt =====
-- What each statement of the transactions may do to a condition on the tables, as the premises of the
-- rule for histories.
use burning_space.Base.{
  inr, inl, arith, ◌∙◌, find_where-update_where, change_if, refl, ℕ, ◌≡◌, ◌≢◌, ◌+◌, ◌⊎◌, Bool, true,
  none, some, List, ◌∷◌, find_where, update_where,
}
use burning_space.Persistence.Schema.{
  Faction, LeaseStatus, PlayerRow, WorldRow, LeaseRow, CredentialRow, MembershipRow, Db, Moment,
}
use burning_space.Persistence.Memberships.{membership_of, is_membership, new_membership, assign}
use burning_space.Persistence.Worlds.{
  world_of, taken_over, extend_writer, clear_writer, update_world, is_world,
}
use burning_space.Persistence.Credentials.{is_active_of, new_credential, revoked_db}
use burning_space.Persistence.Leases.{
  resume, start_recovery, can_mark, can_renew, can_resume, release, LeaseIdentityParams,
  AcquireLeaseParams, lease_of, has_key, new_lease, reclaim, refresh, can_refresh,
}
use burning_space.Persistence.Leases.Shape.{HasShape}
use burning_space.Persistence.Leases.Rows.{KeepsKey, updated}
use burning_space.Persistence.Authority.{AuthorityOptions, ApplyProfileContext, acquire_params}
use burning_space.Persistence.Authority.Keeps.{HasWriter}

-- A change of a world's row that leaves its identifier and its epoch alone.
pub record KeepsEpoch (f : WorldRow → WorldRow) : Type 0 where
  pub world_id : (row : WorldRow) → (f row).world_id ≡ row.world_id
  pub writer_epoch : (row : WorldRow) → (f row).writer_epoch ≡ row.writer_epoch

-- A change of a lease's row within its key: the CHECK stays true, and the row is released after it,
-- or was not released before and keeps its epoch.
pub record LeaseChange (q : LeaseRow → Bool) (f : LeaseRow → LeaseRow) : Type 0 where
  pub key : KeepsKey f
  pub shape : (row : LeaseRow) → q row ≡ true → HasShape row → HasShape (f row)
  pub epoch :
      (row : LeaseRow)
      → q row ≡ true
      → ((f row).status ≡ LeaseStatus.released)
        ⊎ ((row.status ≢ LeaseStatus.released)
            × ((f row).writer_epoch ≡ row.writer_epoch)
            × ((f row).world_id ≡ row.world_id))

pub record Kept (R : Db → Type 0) : Type 0 where
  pub players_changed : (db : Db) (rows : List PlayerRow) → R db → R (record db { players = rows })
  pub membership_inserted :
      (db : Db) (world player : ℕ) (faction : Faction) (now : ℕ)
      → membership_of world player db ≡ none
      → R db
      → R (record db { memberships = new_membership world player faction now ∷ db.memberships })
  pub membership_assigned :
      (db : Db) (world player : ℕ) (faction : Faction) (now : ℕ) (row : MembershipRow)
      → membership_of world player db ≡ some row
      → row.faction ≡ none
      → R db
      → R (record db {
        memberships = update_where (is_membership world player) (assign faction now) db.memberships;
      })
  pub worlds_updated :
      (db : Db) (q : WorldRow → Bool) (f : WorldRow → WorldRow)
      → KeepsEpoch f
      → R db
      → R (record db { worlds = update_where q f db.worlds })
  pub writer_taken :
      (db : Db) (world instance_id : ℕ) (m : Moment) (db_time : ℕ) (row : WorldRow)
      → world_of world db ≡ some row
      → R db
      → R (taken_over world instance_id (row.writer_epoch + 1) m db_time db)
  pub lease_inserted :
      (db : Db) (options : AuthorityOptions) (context : ApplyProfileContext) (m : Moment)
      → HasWriter options db
      → lease_of options.world_id context.player_id db ≡ none
      → R db
      → R (record db { leases = new_lease (acquire_params options context) m ∷ db.leases })
  pub lease_reclaimed :
      (db : Db) (options : AuthorityOptions) (context : ApplyProfileContext) (m : Moment)
      → HasWriter options db
      → R db
      → R (
          updated
            (has_key options.world_id context.player_id)
            (reclaim (acquire_params options context) m)
            db)
  pub lease_refreshed :
      (db : Db) (params : AcquireLeaseParams) (m : Moment) (existing : LeaseRow)
      → lease_of params.world_id params.player_id db ≡ some existing
      → existing.status ≡ LeaseStatus.active
      → R db
      → R (updated (can_refresh params existing) (refresh params.active_ttl_seconds m) db)
  pub leases_updated :
      (db : Db) (q : LeaseRow → Bool) (f : LeaseRow → LeaseRow)
      → LeaseChange q f
      → R db
      → R (updated q f db)
  pub credential_inserted :
      (db : Db) (fresh player hash : ℕ)
      → find_where (is_active_of player) db.credentials ≡ none
      → R db
      → R (record db { credentials = new_credential fresh player hash ∷ db.credentials })
  pub credential_revoked :
      (db : Db) (q : CredentialRow → Bool) (player credential revoked_at released_at : ℕ)
      → R db
      → R (revoked_db q player credential revoked_at released_at db)

pub KeepsEpoch-revision : KeepsEpoch (λ row. record row { state_revision = row.state_revision + 1 })
KeepsEpoch-revision = record { world_id = λ row. refl; writer_epoch = λ row. refl }

pub KeepsEpoch-extend_writer : (m : Moment) → KeepsEpoch (extend_writer m)
KeepsEpoch-extend_writer m = record { world_id = λ row. refl; writer_epoch = λ row. refl }

pub KeepsEpoch-clear_writer : KeepsEpoch clear_writer
KeepsEpoch-clear_writer = record { world_id = λ row. refl; writer_epoch = λ row. refl }

-- The writer's check looks at the worlds only, and the revision is not part of it.
pub HasWriter-same :
    (options : AuthorityOptions) (db : Db) (rows : List WorldRow)
    → rows ≡ db.worlds
    → HasWriter options db
    → (players : List PlayerRow) (credentials : List CredentialRow)
      (memberships : List MembershipRow) (leases : List LeaseRow)
    → HasWriter options (record {
      worlds = rows;
      players = players;
      credentials = credentials;
      memberships = memberships;
      leases = leases;
    })
HasWriter-same options db rows e w players credentials memberships leases = record {
  row = w.row;
  found = rw e w.found;
  epoch = w.epoch;
  instance_id = w.instance_id;
}

pub HasWriter-revision :
    (options : AuthorityOptions) (db : Db)
    → HasWriter options db
    → HasWriter options (
        update_world options.world_id
          (λ row. record row { state_revision = row.state_revision + 1 })
          db)
HasWriter-revision options db w = record {
  row =
      change_if (is_world options.world_id)
        (λ row. record row { state_revision = row.state_revision + 1 }) w.row;
  found =
      find_where-update_where (is_world options.world_id) (is_world options.world_id)
        (λ row. record row { state_revision = row.state_revision + 1 }) db.worlds (λ row. refl)
      ∙ rw w.found;
  epoch = ground (arith, w.epoch);
  instance_id = ground (arith, w.instance_id);
}

pub can_renew-LeaseChange :
    (params : LeaseIdentityParams) (ttl : ℕ) (m : Moment)
    → LeaseChange (can_renew params m.checked_at) (refresh ttl m)
can_renew-LeaseChange params ttl m = record {
  key = λ w p row. refl;
  shape = λ row q h. ground arith;
  epoch = λ row q. inr (ground arith, refl, refl);
}

pub can_mark-LeaseChange :
    (params : LeaseIdentityParams) (grace now : ℕ)
    → LeaseChange (can_mark params) (start_recovery grace now)
can_mark-LeaseChange params grace now = record {
  key = λ w p row. refl;
  shape = λ row q h. refl;
  epoch = λ row q. inr (ground arith, refl, refl);
}

pub can_resume-LeaseChange :
    (params : LeaseIdentityParams) (credential ttl now : ℕ)
    → LeaseChange (can_resume params credential now) (resume ttl now)
can_resume-LeaseChange params credential ttl now = record {
  key = λ w p row. refl;
  shape = λ row q h. refl;
  epoch = λ row q. inr (ground arith, refl, refl);
}

pub release-LeaseChange : (q : LeaseRow → Bool) (now : ℕ) → LeaseChange q (release now)
release-LeaseChange q now = record {
  key = λ w p row. refl;
  shape = λ row h s. (refl, omega arith);
  epoch = λ row h. inl refl;
}
