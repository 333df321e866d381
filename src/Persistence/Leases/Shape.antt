-- ===== src/Persistence/Leases/Shape.antt =====
-- The constraints of the table of leases: the CHECK `active_session_leases_state_shape_check` and
-- the primary key. Every operation keeps them, so that the database never refuses a statement for
-- them.
use burning_space.Base.{
  ◌∷◌, zero, suc, update_where, refl, ◌&&◌, ◌||◌, Bool-cases, All-update_where_to, All-zip,
  All-of_AtMostOne, inr, ==_iff, inl, arith, Option-cases, ℕ, ◌≡◌, ◌≤◌, Bool, true, Option, none,
  some, All, All-update_where, AtMostOne, AtMostOne-update_where,
}
use burning_space.Persistence.Schema.{Db, LeaseRow, LeaseStatus}
use burning_space.Persistence.Transaction.Preserves.{
  Preserves-require_positive_integer, Preserves-bind, Preserves,
}
use burning_space.Persistence.Leases.{
  can_reclaim, can_insert, reclaim_lease, refreshed_row, acquired_row, ◌>>=◌, can_refresh,
  can_renew, can_mark, can_resume, can_release, select_existing, inserted_or, is_released,
  is_active, is_expired, is_same_session, reclaim, refresh, new_lease, start_recovery, resume,
  release, lease_of, Moment, AcquireLeaseParams, LeaseIdentityParams, mark_recovering,
  release_gameplay_lease, renew_gameplay_lease, insert_lease, acquire_gameplay_lease,
  resume_recovering_lease, has_key, update_leases,
}

abbrev Shape : LeaseStatus → Option ℕ → ℕ → ℕ → Type 0
Shape LeaseStatus.active deadline expires updated = deadline ≡ none
Shape LeaseStatus.recovering deadline expires updated = deadline ≡ some expires
Shape LeaseStatus.released deadline expires updated = (deadline ≡ none) × (expires ≤ updated)

-- The CHECK of one row.
abbrev pub HasShape : LeaseRow → Type 0
HasShape row = Shape row.status row.reconnect_deadline row.expires_at row.updated_at

pub record IsWellFormed (db : Db) : Type 0 where
  pub shaped : All HasShape db.leases
  pub keyed : (world player : ℕ) → AtMostOne (has_key world player) db.leases

pub update_leases-IsWellFormed :
    (q : LeaseRow → Bool) (f : LeaseRow → LeaseRow)
    → ((world player : ℕ) (row : LeaseRow)
        → has_key world player (f row) ≡ has_key world player row)
    → ((row : LeaseRow) → q row ≡ true → HasShape row → HasShape (f row))
    → Preserves IsWellFormed (update_leases q f)
update_leases-IsWellFormed q f key shape db v = record {
  shaped = All-update_where HasShape q f db.leases shape v.shaped;
  keyed = λ world player.
      AtMostOne-update_where (has_key world player) q f db.leases (key world player)
        (v.keyed world player);
}

-- A fresh key.
pub fresh-IsWellFormed :
    (row : LeaseRow) (db : Db)
    → HasShape row
    → lease_of row.world_id row.player_id db ≡ none
    → IsWellFormed db
    → IsWellFormed (record db { leases = row ∷ db.leases })
fresh-IsWellFormed row db h free v = record {
  shaped = (h, v.shaped);
  keyed = λ world player. (
    λ same.
        rw
          (
            ← (==_iff row.world_id world).0 (ground arith),
            ← (==_iff row.player_id player).0 (ground arith),
          )
          free,
    v.keyed world player,
  );
}

-- The releases of a takeover and of a revocation.
pub released-IsWellFormed :
    (q : LeaseRow → Bool) (now : ℕ) (db : Db)
    → IsWellFormed db
    → IsWellFormed (record db { leases = update_where q (release now) db.leases })
released-IsWellFormed q now db v =
    update_leases-IsWellFormed q (release now) (λ w p row. refl) (λ row h s. (refl, omega arith)) db
      v

insert_lease-IsWellFormed :
    (row : LeaseRow) → HasShape row → Preserves IsWellFormed (insert_lease row)
unfolding insert_lease
insert_lease-IsWellFormed row h db v =
    elim (Option-cases (lease_of row.world_id row.player_id db)) [
      | inl free ↦
          rw (free, insert_lease)
            (elim (Bool-cases (can_insert row db)) [
              | inl allowed ↦ rw allowed (fresh-IsWellFormed row db h free v)
              | inr refused ↦ rw refused tt
            ])
      | inr (old, taken) ↦ rw (taken, insert_lease) v
    ]

-- The refresh names no status: that the row is active follows from the SELECT before it.
pub refresh_existing-IsWellFormed :
    (params : AcquireLeaseParams) (m : Moment) (existing : LeaseRow) (db : Db)
    → lease_of params.world_id params.player_id db ≡ some existing
    → existing.status ≡ LeaseStatus.active
    → IsWellFormed db
    → IsWellFormed (record db {
      leases =
          update_where
            (can_refresh params existing)
            (refresh params.active_ttl_seconds m)
            db.leases;
    })
refresh_existing-IsWellFormed params m existing db found live v = record {
  shaped =
      All-update_where_to (λ r. HasShape r × (key r ≡ true → r ≡ existing)) HasShape
        (can_refresh params existing) (refresh params.active_ttl_seconds m) db.leases
        (λ r q h. ground (arith, h.1)) (λ r h. h.0)
        (All-zip HasShape (λ r. key r ≡ true → r ≡ existing) db.leases v.shaped
          (All-of_AtMostOne key db.leases existing (v.keyed params.world_id params.player_id)
            found));
  keyed = λ world player.
      AtMostOne-update_where (has_key world player) (can_refresh params existing)
        (refresh params.active_ttl_seconds m) db.leases (λ row. refl) (v.keyed world player);
}
  where
    key : LeaseRow → Bool
    key = has_key params.world_id params.player_id

acquired_row-IsWellFormed : (o : Option LeaseRow) → Preserves IsWellFormed (acquired_row o)
unfolding acquired_row
acquired_row-IsWellFormed none db v = tt
acquired_row-IsWellFormed (some row) db v = v

refreshed_row-IsWellFormed :
    (existing : LeaseRow) (o : Option LeaseRow) → Preserves IsWellFormed (refreshed_row existing o)
unfolding refreshed_row
refreshed_row-IsWellFormed existing none db v = v
refreshed_row-IsWellFormed existing (some row) db v = v

reclaim_lease-IsWellFormed :
    (params : AcquireLeaseParams) (m : Moment) (existing : LeaseRow)
    → Preserves IsWellFormed (reclaim_lease params m existing)
unfolding reclaim_lease
reclaim_lease-IsWellFormed params m existing db v =
    elim (Bool-cases (can_reclaim params m existing db)) [
      | inl allowed ↦
          rw (allowed, reclaim_lease)
            (update_leases-IsWellFormed (has_key params.world_id params.player_id)
              (reclaim params m) (λ w p row. refl) (λ row q h. refl) db v)
      | inr refused ↦ rw (refused, reclaim_lease) tt
    ]

select_existing-IsWellFormed :
    (params : AcquireLeaseParams) (m : Moment) → Preserves IsWellFormed (select_existing params m)
unfolding select_existing
select_existing-IsWellFormed params m db v =
    elim (Option-cases (lease_of params.world_id params.player_id db)) [
      | inl free ↦ rw (free, select_existing) tt
      | inr (existing, found) ↦
          rw (found, select_existing)
            (elim (Bool-cases (is_released existing.status || is_expired existing m.db_now)) [
              | inl gone ↦ rw gone (
                  Preserves-bind IsWellFormed (reclaim_lease params m existing) acquired_row
                    (reclaim_lease-IsWellFormed params m existing) acquired_row-IsWellFormed db v)
              | inr held ↦
                  rw held
                    (elim (Bool-cases
                      (is_same_session params existing && is_active existing.status)) [
                        | inl same ↦ rw same (
                            refreshed_row-IsWellFormed existing _ _ (
                              refresh_existing-IsWellFormed params m existing db found
                                (ground arith) v))
                        | inr other ↦ rw other v
                      ])
            ])
    ]

inserted_or-IsWellFormed :
    (params : AcquireLeaseParams) (m : Moment) (o : Option LeaseRow)
    → Preserves IsWellFormed (inserted_or params m o)
unfolding inserted_or
inserted_or-IsWellFormed params m none db v = select_existing-IsWellFormed params m db v
inserted_or-IsWellFormed params m (some row) db v = v

pub acquire-IsWellFormed :
    (params : AcquireLeaseParams) (m : Moment)
    → Preserves IsWellFormed (acquire_gameplay_lease params m)
unfolding acquire_gameplay_lease
acquire-IsWellFormed params m =
    Preserves-require_positive_integer IsWellFormed params.active_ttl_seconds
      (insert_lease (new_lease params m) >>= inserted_or params m)
      (Preserves-bind IsWellFormed (insert_lease (new_lease params m)) (inserted_or params m)
        (insert_lease-IsWellFormed (new_lease params m) refl) (inserted_or-IsWellFormed params m))

pub renew-IsWellFormed :
    (params : LeaseIdentityParams) (ttl : ℕ) (m : Moment)
    → Preserves IsWellFormed (renew_gameplay_lease params ttl m)
unfolding renew_gameplay_lease
renew-IsWellFormed params zero m db v = tt
renew-IsWellFormed params (suc ttl) m db v =
    update_leases-IsWellFormed (can_renew params m.checked_at) (refresh (suc ttl) m)
      (λ w p row. refl) (λ row q h. ground arith) db v

pub mark-IsWellFormed :
    (params : LeaseIdentityParams) (grace now : ℕ)
    → Preserves IsWellFormed (mark_recovering params grace now)
unfolding mark_recovering
mark-IsWellFormed params zero now db v = tt
mark-IsWellFormed params (suc grace) now db v =
    update_leases-IsWellFormed (can_mark params) (start_recovery (suc grace) now) (λ w p row. refl)
      (λ row q h. refl) db v

pub resume-IsWellFormed :
    (params : LeaseIdentityParams) (credential ttl now : ℕ)
    → Preserves IsWellFormed (resume_recovering_lease params credential ttl now)
unfolding resume_recovering_lease
resume-IsWellFormed params credential zero now db v = tt
resume-IsWellFormed params credential (suc ttl) now db v =
    update_leases-IsWellFormed (can_resume params credential now) (resume (suc ttl) now)
      (λ w p row. refl) (λ row q h. refl) db v

pub release-IsWellFormed :
    (world player lease now : ℕ)
    → Preserves IsWellFormed (release_gameplay_lease world player lease now)
unfolding release_gameplay_lease
release-IsWellFormed world player lease now db v =
    update_leases-IsWellFormed (can_release world player lease) (release now) (λ w p row. refl)
      (λ row q h. (refl, omega arith)) db v
