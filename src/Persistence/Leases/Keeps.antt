-- ===== src/Persistence/Leases/Keeps.antt =====
-- The rule for the operations on leases: a condition that the statement of an operation keeps is kept
-- by the operation, whatever it answers.
use burning_space.Base.{
  ◌∷◌, ℕ, zero, suc, ◌≡◌, Option, none, some, arith, inl, inr, Option-cases, Bool-cases, ◌&&◌, ◌||◌,
}
use burning_space.Persistence.Schema.{LeaseStatus, LeaseRow, Db, Moment}
use burning_space.Persistence.Transaction.{◌>>=◌}
use burning_space.Persistence.Transaction.Preserves.{
  Ends, Preserves, Preserves-bind, Preserves-require_positive_integer,
}
use burning_space.Persistence.Leases.{
  can_reclaim, can_insert, reclaim_lease, AcquireLeaseParams, LeaseIdentityParams, lease_of,
  has_key, can_refresh, can_renew, can_mark, can_resume, can_release, new_lease, reclaim, refresh,
  start_recovery, resume, release, is_released, is_expired, is_same_session, is_active,
  insert_lease, acquired_row, refreshed_row, take_existing, select_existing, inserted_or,
  acquire_gameplay_lease, renew_gameplay_lease, mark_recovering, resume_recovering_lease,
  release_gameplay_lease,
}
use burning_space.Persistence.Leases.Rows.{updated}

module _ (R : Db → Type 0) where
  module _ (params : AcquireLeaseParams) (m : Moment)
      (inserts : (db : Db)
        → lease_of params.world_id params.player_id db ≡ none
        → R db
        → R (record db { leases = new_lease params m ∷ db.leases }))
      (reclaims : (db : Db)
        → R db
        → R (updated (has_key params.world_id params.player_id) (reclaim params m) db))
      (refreshes : (existing : LeaseRow) (db : Db)
        → lease_of params.world_id params.player_id db ≡ some existing
        → existing.status ≡ LeaseStatus.active
        → R db
        → R (updated (can_refresh params existing) (refresh params.active_ttl_seconds m) db)) where
    acquired_row_Preserves : (o : Option LeaseRow) → Preserves R (acquired_row o)
    unfolding acquired_row
    acquired_row_Preserves none db r = tt
    acquired_row_Preserves (some row) db r = r

    refreshed_row_Preserves :
        (existing : LeaseRow) (o : Option LeaseRow) → Preserves R (refreshed_row existing o)
    unfolding refreshed_row
    refreshed_row_Preserves existing none db r = r
    refreshed_row_Preserves existing (some row) db r = r

    reclaim_lease_Preserves : (existing : LeaseRow) → Preserves R (reclaim_lease params m existing)
    unfolding reclaim_lease
    reclaim_lease_Preserves existing db r = elim (Bool-cases (can_reclaim params m existing db)) [
      | inl allowed ↦ rw (allowed, reclaim_lease) (reclaims db r)
      | inr refused ↦ rw (refused, reclaim_lease) tt
    ]

    take_existing_Preserves :
        (existing : LeaseRow) (db : Db)
        → lease_of params.world_id params.player_id db ≡ some existing
        → R db
        → Ends (λ _. R) (take_existing params m existing db)
    unfolding take_existing
    take_existing_Preserves existing db found r =
        elim (Bool-cases (is_released existing.status || is_expired existing m.db_now)) [
          | inl gone ↦ rw gone (
              Preserves-bind R (reclaim_lease params m existing) acquired_row
                (reclaim_lease_Preserves existing) acquired_row_Preserves db r)
          | inr held ↦
              rw held
                (elim (Bool-cases (is_same_session params existing && is_active existing.status)) [
                  | inl same ↦ rw same (
                      refreshed_row_Preserves existing _ _
                        (refreshes existing db found (ground arith) r))
                  | inr other ↦ rw other r
                ])
        ]

    inserted_or_Preserves : (o : Option LeaseRow) → Preserves R (inserted_or params m o)
    unfolding inserted_or
    inserted_or_Preserves (some row) db r = r
    inserted_or_Preserves none db r =
        elim (Option-cases (lease_of params.world_id params.player_id db)) [
          | inl free ↦ rw (free, select_existing) tt
          | inr (existing, found) ↦
              rw (found, select_existing) (take_existing_Preserves existing db found r)
        ]

    insert_lease_Preserves : Preserves R (insert_lease (new_lease params m))
    unfolding insert_lease
    insert_lease_Preserves db r =
        elim (Option-cases (lease_of params.world_id params.player_id db)) [
          | inl free ↦
              rw (free, insert_lease)
                (elim (Bool-cases (can_insert (new_lease params m) db)) [
                  | inl allowed ↦ rw allowed (inserts db free r)
                  | inr refused ↦ rw refused tt
                ])
          | inr (existing, found) ↦ rw (found, insert_lease) r
        ]

    pub acquire_gameplay_lease-Preserves : Preserves R (acquire_gameplay_lease params m)
    unfolding acquire_gameplay_lease
    acquire_gameplay_lease-Preserves =
        Preserves-require_positive_integer R params.active_ttl_seconds
          (insert_lease (new_lease params m) >>= inserted_or params m)
          (Preserves-bind R (insert_lease (new_lease params m)) (inserted_or params m)
            insert_lease_Preserves inserted_or_Preserves)

  pub renew_gameplay_lease-Preserves :
      (params : LeaseIdentityParams) (ttl : ℕ) (m : Moment)
      → ((db : Db) → R db → R (updated (can_renew params m.checked_at) (refresh ttl m) db))
      → Preserves R (renew_gameplay_lease params ttl m)
  unfolding renew_gameplay_lease
  renew_gameplay_lease-Preserves params zero m h db r = tt
  renew_gameplay_lease-Preserves params (suc ttl) m h db r = h db r

  pub mark_recovering-Preserves :
      (params : LeaseIdentityParams) (grace now : ℕ)
      → ((db : Db) → R db → R (updated (can_mark params) (start_recovery grace now) db))
      → Preserves R (mark_recovering params grace now)
  unfolding mark_recovering
  mark_recovering-Preserves params zero now h db r = tt
  mark_recovering-Preserves params (suc grace) now h db r = h db r

  pub resume_recovering_lease-Preserves :
      (params : LeaseIdentityParams) (credential ttl now : ℕ)
      → ((db : Db) → R db → R (updated (can_resume params credential now) (resume ttl now) db))
      → Preserves R (resume_recovering_lease params credential ttl now)
  unfolding resume_recovering_lease
  resume_recovering_lease-Preserves params credential zero now h db r = tt
  resume_recovering_lease-Preserves params credential (suc ttl) now h db r = h db r

  pub release_gameplay_lease-Preserves :
      (world player lease now : ℕ)
      → ((db : Db) → R db → R (updated (can_release world player lease) (release now) db))
      → Preserves R (release_gameplay_lease world player lease now)
  unfolding release_gameplay_lease
  release_gameplay_lease-Preserves world player lease now h db r = h db r
