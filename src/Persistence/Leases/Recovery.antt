-- ===== src/Persistence/Leases/Recovery.antt =====
-- A connection that is lost and comes back: `markRecovering` and `resumeRecoveringLease`.
use burning_space.Base.{
  inr, inl, Bool-cases, ltb, if◌then◌else◌, none, ◌≤◌, update_where-none, update_where, refl, arith,
  ◌+◌, ◌<◌, true, some, ℕ, ◌≡◌,
}
use burning_space.Persistence.Schema.{LeaseStatus, LeaseRow, Db, seconds, get_time}
use burning_space.Persistence.Transaction.{return, ◌>>=◌, ok}
use burning_space.Persistence.Transaction.Preserves.{require_positive_integer_lem}
use burning_space.Persistence.Leases.{
  expiry, marked, return, LeaseIdentityParams, lease_of, is_identity, can_mark, can_resume,
  start_recovery, resume, mark_recovering, now_recovering, already_recovering,
  resume_recovering_lease, update_leases,
}
use burning_space.Persistence.Leases.Shape.{IsWellFormed, update_leases-IsWellFormed}
use burning_space.Persistence.Leases.Rows.{
  updated_miss, find_in_key_miss, updated, lease_of-updated_hit, find_in_key_hit,
}

module _ (params : LeaseIdentityParams) (db : Db) (row : LeaseRow) (v : IsWellFormed db)
    (found : lease_of params.world_id params.player_id db ≡ some row)
    (identity : is_identity params row ≡ true) where
  -- The row and the tables while the session is away.
  abbrev away : ℕ → ℕ → LeaseRow
  away grace now = start_recovery grace now row

  abbrev db_away : ℕ → ℕ → Db
  db_away grace now = updated (can_mark params) (start_recovery grace now) db

  module _ (live : row.status ≡ LeaseStatus.active) (grace now : ℕ) (positive : 0 < grace) where
    marks : can_mark params row ≡ true
    marks = ground arith

    mark_lem :
        mark_recovering params grace now db
        ≡ ok (now_recovering (some (get_time (now + seconds grace))), db_away grace now)
    unfolding mark_recovering
    mark_lem =
        rw
          (require_positive_integer_lem grace
            (update_leases (can_mark params) (start_recovery grace now) >>= λ r after.
              return (marked params r after) after)
            positive)
          (rw (
            find_in_key_hit params.world_id params.player_id (can_mark params) db row v
              (λ r h. ground arith) found marks))

    away-IsWellFormed : IsWellFormed (db_away grace now)
    away-IsWellFormed =
        update_leases-IsWellFormed (can_mark params) (start_recovery grace now) (λ w p r. refl)
          (λ r q h. refl) db v

    found_away :
        lease_of params.world_id params.player_id (db_away grace now) ≡ some (away grace now)
    found_away =
        lease_of-updated_hit params.world_id params.player_id (can_mark params)
          (start_recovery grace now) (λ w p r. refl) db row found marks

    still_away :
        (grace' now' : ℕ)
        → update_where (can_mark params) (start_recovery grace' now') (db_away grace now).leases
          ≡ (db_away grace now).leases
    still_away grace' now' =
        update_where-none (can_mark params) (start_recovery grace' now') (db_away grace now).leases
          (find_in_key_miss params.world_id params.player_id (can_mark params) (db_away grace now)
            (away grace now) away-IsWellFormed (λ r h. ground arith) found_away (ground arith))

    mark_again :
        (grace' now' : ℕ)
        → 0 < grace'
        → mark_recovering params grace' now' (db_away grace now)
          ≡ ok (already_recovering (get_time (now + seconds grace)), db_away grace now)
    unfolding mark_recovering
    mark_again grace' now' positive' =
        rw
          (require_positive_integer_lem grace'
            (update_leases (can_mark params) (start_recovery grace' now') >>= λ r after.
              return (marked params r after) after)
            positive')
          (rw
            (
              still_away grace' now',
              find_in_key_miss params.world_id params.player_id (can_mark params)
                  (db_away grace now) (away grace now) away-IsWellFormed (λ r h. ground arith)
                  found_away (ground arith),
            )
            (rw (
              find_in_key_hit params.world_id params.player_id (is_identity params)
                (db_away grace now) (away grace now) away-IsWellFormed (λ r h. ground arith)
                found_away identity)))

    deadline : ℕ
    deadline = now + seconds grace

    db_back : ℕ → ℕ → Db
    db_back ttl later =
        updated (can_resume params row.credential_id later) (resume ttl later) (db_away grace now)

    resume_in_time :
        (ttl later : ℕ)
        → 0 < ttl
        → later < now + seconds grace
        → resume_recovering_lease params row.credential_id ttl later (db_away grace now)
          ≡ ok (some (get_time (later + seconds ttl)), db_back ttl later)
    unfolding resume_recovering_lease db_back
    resume_in_time ttl later positive' early =
        rw
          (require_positive_integer_lem ttl
            (update_leases (can_resume params row.credential_id later) (resume ttl later) >>= λ r.
              return (expiry r))
            positive')
          (rw (
            find_in_key_hit params.world_id params.player_id
              (can_resume params row.credential_id later) (db_away grace now) (away grace now)
              away-IsWellFormed (λ r h. ground arith) found_away (ground arith)))

    found_back :
        (ttl later : ℕ)
        → later < now + seconds grace
        → lease_of params.world_id params.player_id (db_back ttl later)
          ≡ some (resume ttl later row)
    unfolding db_back
    found_back ttl later early =
        lease_of-updated_hit params.world_id params.player_id
          (can_resume params row.credential_id later) (resume ttl later) (λ w p r. refl)
          (db_away grace now) (away grace now) found_away (ground arith)

    resume_late :
        (ttl later : ℕ)
        → 0 < ttl
        → now + seconds grace ≤ later
        → resume_recovering_lease params row.credential_id ttl later (db_away grace now)
          ≡ ok (none, db_away grace now)
    unfolding resume_recovering_lease
    resume_late ttl later positive' late =
        rw
          (require_positive_integer_lem ttl
            (update_leases (can_resume params row.credential_id later) (resume ttl later) >>= λ r.
              return (expiry r))
            positive')
          (rw (
            find_in_key_miss params.world_id params.player_id
                (can_resume params row.credential_id later) (db_away grace now) (away grace now)
                away-IsWellFormed (λ r h. ground arith) found_away (ground arith),
            updated_miss params.world_id params.player_id
                (can_resume params row.credential_id later) (resume ttl later) (db_away grace now)
                (away grace now) away-IsWellFormed (λ r h. ground arith) found_away (ground arith),
          ))

module _ (params : LeaseIdentityParams) (db : Db) (row : LeaseRow) (v : IsWellFormed db)
    (found : lease_of params.world_id params.player_id db ≡ some row)
    (identity : is_identity params row ≡ true) (live : row.status ≡ LeaseStatus.active)
    (grace now : ℕ) (positive : 0 < grace) where
  -- For an active lease named exactly, on tables that meet the constraints and with positive grace
  -- times, marking it as recovering answers the deadline `now` plus the grace time; marking it a
  -- second time, at any time and with any grace, answers that same deadline and changes nothing.
  pub mark_recovering_idempotent :
      (grace' now' : ℕ)
      → 0 < grace'
      → (away : Db) × (mark_recovering params grace now db
          ≡ ok (now_recovering (some (get_time (now + seconds grace))), away))
        × (mark_recovering params grace' now' away
            ≡ ok (already_recovering (get_time (now + seconds grace)), away))
  mark_recovering_idempotent grace' now' positive' = (
    _,
    mark_lem params db row v found identity live grace now positive,
    mark_again params db row v found identity live grace now positive grace' now' positive',
  )

  -- For an active lease named exactly, on tables that meet the constraints and with a positive grace
  -- time, marking it as recovering and then resuming it with a positive time to live succeeds exactly
  -- before the deadline. Then the row is active again under the same lease and session, with the new
  -- expiry; otherwise the answer is null and the row stays as it was marked.
  pub resume-mark :
      (ttl later : ℕ)
      → 0 < ttl
      → (away back : Db) × (mark_recovering params grace now db
          ≡ ok (now_recovering (some (get_time (now + seconds grace))), away))
        × (resume_recovering_lease params row.credential_id ttl later away
            ≡ ok (
              (if ltb later (now + seconds grace)
                  then some (get_time (later + seconds ttl))
                  else none),
              back,
            ))
        × (lease_of params.world_id params.player_id back
            ≡ some (
                if ltb later (now + seconds grace)
                then resume ttl later row
                else start_recovery grace now row))
  resume-mark ttl later positive' = elim (Bool-cases (ltb later (now + seconds grace))) [
    | inl early ↦ (
      db_away params db row v found identity grace now,
      db_back params db row v found identity live grace now positive ttl later,
      mark_lem params db row v found identity live grace now positive,
      rw early (
          resume_in_time params db row v found identity live grace now positive ttl later positive'
            (ground arith)),
      rw early (
          found_back params db row v found identity live grace now positive ttl later
            (ground arith)),
    )
    | inr late ↦ (
      db_away params db row v found identity grace now,
      db_away params db row v found identity grace now,
      mark_lem params db row v found identity live grace now positive,
      rw late (
          resume_late params db row v found identity live grace now positive ttl later positive'
            (ground arith)),
      rw late (found_away params db row v found identity live grace now positive),
    )
  ]
