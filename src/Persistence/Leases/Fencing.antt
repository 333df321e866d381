-- ===== src/Persistence/Leases/Fencing.antt =====
-- The lease identifier as a fence: a call that names another lease than the row's touches nothing.
use burning_space.Base.{refl, arith, some, ℕ, zero, suc, ◌≡◌, ◌≢◌}
use burning_space.Persistence.Schema.{LeaseRow, Db, Moment}
use burning_space.Persistence.Transaction.{run_transaction}
use burning_space.Persistence.Leases.{
  LeaseIdentityParams, lease_of, can_mark, can_resume, can_renew, can_release, start_recovery,
  resume, refresh, release, renew_gameplay_lease, mark_recovering, resume_recovering_lease,
  release_gameplay_lease,
}
use burning_space.Persistence.Leases.Shape.{IsWellFormed}
use burning_space.Persistence.Leases.Rows.{updated_miss}

-- The calls that name a lease.
pub data FencedCall : Type 0 where
  renews : LeaseIdentityParams → ℕ → Moment → FencedCall
  marks : LeaseIdentityParams → ℕ → ℕ → FencedCall
  resumes : LeaseIdentityParams → ℕ → ℕ → ℕ → FencedCall
  releases : LeaseIdentityParams → ℕ → FencedCall

abbrev pub names : FencedCall → LeaseIdentityParams
names (renews params ttl m) = params
names (marks params grace now) = params
names (resumes params credential ttl now) = params
names (releases params now) = params

-- The tables after the call's transaction.
pub after_call : FencedCall → Db → Db
after_call (renews params ttl m) db = (run_transaction (renew_gameplay_lease params ttl m) db).1
after_call (marks params grace now) db = (run_transaction (mark_recovering params grace now) db).1
after_call (resumes params credential ttl now) db =
    (run_transaction (resume_recovering_lease params credential ttl now) db).1
after_call (releases params now) db =
    (run_transaction (release_gameplay_lease params.world_id params.player_id params.lease_id now)
      db).1

module _ (db : Db) (row : LeaseRow) (v : IsWellFormed db) where
  renew_stale :
      (params : LeaseIdentityParams) (ttl : ℕ) (m : Moment)
      → lease_of params.world_id params.player_id db ≡ some row
      → row.lease_id ≢ params.lease_id
      → after_call (renews params ttl m) db ≡ db
  unfolding after_call renew_gameplay_lease run_transaction
  renew_stale params zero m found stale = refl
  renew_stale params (suc ttl) m found stale =
      updated_miss params.world_id params.player_id (can_renew params m.checked_at)
        (refresh (suc ttl) m) db row v (λ r h. ground arith) found (ground arith)

  mark_stale :
      (params : LeaseIdentityParams) (grace now : ℕ)
      → lease_of params.world_id params.player_id db ≡ some row
      → row.lease_id ≢ params.lease_id
      → after_call (marks params grace now) db ≡ db
  unfolding after_call mark_recovering run_transaction
  mark_stale params zero now found stale = refl
  mark_stale params (suc grace) now found stale =
      updated_miss params.world_id params.player_id (can_mark params)
        (start_recovery (suc grace) now) db row v (λ r h. ground arith) found (ground arith)

  resume_stale :
      (params : LeaseIdentityParams) (credential ttl now : ℕ)
      → lease_of params.world_id params.player_id db ≡ some row
      → row.lease_id ≢ params.lease_id
      → after_call (resumes params credential ttl now) db ≡ db
  unfolding after_call resume_recovering_lease run_transaction
  resume_stale params credential zero now found stale = refl
  resume_stale params credential (suc ttl) now found stale =
      updated_miss params.world_id params.player_id (can_resume params credential now)
        (resume (suc ttl) now) db row v (λ r h. ground arith) found (ground arith)

  release_stale :
      (params : LeaseIdentityParams) (now : ℕ)
      → lease_of params.world_id params.player_id db ≡ some row
      → row.lease_id ≢ params.lease_id
      → after_call (releases params now) db ≡ db
  unfolding after_call release_gameplay_lease run_transaction
  release_stale params now found stale =
      updated_miss params.world_id params.player_id
        (can_release params.world_id params.player_id params.lease_id) (release now) db row v
        (λ r h. ground arith) found (ground arith)

-- On tables that meet the constraints, renewing, marking, resuming or releasing a lease that is not
-- the one in the player's row leaves all the tables as they are. So a late call of a session whose
-- lease was reclaimed never touches the lease of its successor.
pub after_call_stale :
    (call : FencedCall) (db : Db) (row : LeaseRow)
    → IsWellFormed db
    → lease_of (names call).world_id (names call).player_id db ≡ some row
    → row.lease_id ≢ (names call).lease_id
    → after_call call db ≡ db
after_call_stale (renews params ttl m) db row v = renew_stale db row v params ttl m
after_call_stale (marks params grace now) db row v = mark_stale db row v params grace now
after_call_stale (resumes params credential ttl now) db row v =
    resume_stale db row v params credential ttl now
after_call_stale (releases params now) db row v = release_stale db row v params now
