-- ===== src/Persistence/History/Keeps.antt =====
-- The rule for histories: a condition on the tables that each kind of statement keeps holds after any
-- sequence of transactions.
use burning_space.Persistence.History.Kept.{
  HasWriter-revision, KeepsEpoch-revision, KeepsEpoch-extend_writer, HasWriter-same,
  can_renew-LeaseChange, can_mark-LeaseChange, can_resume-LeaseChange, Kept, release-LeaseChange,
  KeepsEpoch-clear_writer,
}
use burning_space.Persistence.Players.{create_player, update_player_display_name}
use burning_space.Base.{refl, ℕ, ◌+◌, Bool, List, [], ◌∷◌}
use burning_space.Persistence.Schema.{Faction, Db, Moment}
use burning_space.Persistence.Transaction.Preserves.{Preserves, run_transaction-Preserves}
use burning_space.Persistence.Memberships.Keeps.{establish_player_faction-Preserves}
use burning_space.Persistence.Worlds.{
  claim_world_writer, is_writer, can_renew_writer, increment_world_state_revision, extend_writer,
  clear_writer, is_world,
}
use burning_space.Persistence.Worlds.Keeps.{
  claim_world_writer-Preserves, renew_world_writer-Preserves, release_world_writer-Preserves,
}
use burning_space.Persistence.Credentials.{is_pair, has_id, rotate_credential}
use burning_space.Persistence.Credentials.Keeps.{
  insert_credential-Preserves, revoke_credential-Preserves, rotate_credential-Preserves,
}
use burning_space.Persistence.Leases.{
  resume, start_recovery, can_mark, can_renew, can_release, can_resume, resume_recovering_lease,
  mark_recovering, release, renew_gameplay_lease, LeaseIdentityParams, refresh,
}
use burning_space.Persistence.Leases.Keeps.{
  acquire_gameplay_lease-Preserves, renew_gameplay_lease-Preserves, mark_recovering-Preserves,
  resume_recovering_lease-Preserves, release_gameplay_lease-Preserves,
}
use burning_space.Persistence.Authority.{
  identity_params, release_session_lease, renew_session_lease, compute_active_lease_ttl_seconds,
  resume_recovering_session, mark_session_recovering, apply_player_profile, apply_spectator_profile,
  AuthorityOptions, ApplyProfileContext, ProfileMoment, LeaseSessionParams, acquire_params,
}
use burning_space.Persistence.Authority.Keeps.{
  HasWriter, apply_player_profile-Preserves, apply_spectator_profile-Preserves,
  mark_session_recovering-Preserves, resume_recovering_session-Preserves,
  renew_session_lease-Preserves,
}
use burning_space.Persistence.History.{
  DbCall, plays, spectates, marks, resumes, releases, renews, claims, renews_writer,
  releases_writer, creates_player, inserts_credential, revokes, rotates, step, run,
}

module _ (R : Db → Type 0) (k : Kept R) where
  module _ (options : AuthorityOptions) (context : ApplyProfileContext) where
    abbrev WithWriter : Db → Type 0
    WithWriter db = R db × HasWriter options db

    named : Preserves WithWriter (update_player_display_name context.player_id context.nickname)
    unfolding update_player_display_name
    named db (r, w) = (k.players_changed db _ r, HasWriter-same options db db.worlds refl w _ _ _ _)

    revised : Preserves WithWriter (increment_world_state_revision options.world_id)
    unfolding increment_world_state_revision
    revised db (r, w) = (
      k.worlds_updated db (is_world options.world_id)
          (λ row. record row { state_revision = row.state_revision + 1 }) KeepsEpoch-revision r,
      HasWriter-revision options db w,
    )

    plays-kept :
        (faction : Faction) (m : ProfileMoment)
        → Preserves R (apply_player_profile options context faction m)
    plays-kept faction m =
        apply_player_profile-Preserves options R WithWriter (λ db h. h) (λ db h. h.0) context named
          faction m
          (establish_player_faction-Preserves WithWriter options.world_id context.player_id faction
            m.faction_at
            (λ db free h. (
              k.membership_inserted db options.world_id context.player_id faction m.faction_at free
                  h.0,
              HasWriter-same options db db.worlds refl h.1 _ _ _ _,
            ))
            (λ db row found e h. (
              k.membership_assigned db options.world_id context.player_id faction m.faction_at row
                  found e h.0,
              HasWriter-same options db db.worlds refl h.1 _ _ _ _,
            )))
          revised
          (acquire_gameplay_lease-Preserves WithWriter (acquire_params options context) m.lease
            (λ db free h. (
              k.lease_inserted db options context m.lease h.1 free h.0,
              HasWriter-same options db db.worlds refl h.1 _ _ _ _,
            ))
            (λ db h. (
              k.lease_reclaimed db options context m.lease h.1 h.0,
              HasWriter-same options db db.worlds refl h.1 _ _ _ _,
            ))
            (λ existing db found active h. (
              k.lease_refreshed db (acquire_params options context) m.lease existing found active
                  h.0,
              HasWriter-same options db db.worlds refl h.1 _ _ _ _,
            )))

    spectates-kept : (now : ℕ) → Preserves R (apply_spectator_profile options context now)
    spectates-kept now =
        apply_spectator_profile-Preserves options R WithWriter (λ db h. h) (λ db h. h.0) context
          named now

  module _ (options : AuthorityOptions) (params : LeaseSessionParams) where
    abbrev identity : LeaseIdentityParams
    identity = identity_params options params.player_id params.lease_id

    abbrev ttl : ℕ
    ttl = compute_active_lease_ttl_seconds params.grace_seconds

    marked : (now : ℕ) → Preserves R (mark_recovering identity params.grace_seconds now)
    marked now = mark_recovering-Preserves R identity params.grace_seconds now (λ db r.
        k.leases_updated db (can_mark identity) (start_recovery params.grace_seconds now)
          (can_mark-LeaseChange identity params.grace_seconds now) r)

    resumed_ok :
        (now : ℕ) → Preserves R (resume_recovering_lease identity params.credential_id ttl now)
    resumed_ok now =
        resume_recovering_lease-Preserves R identity params.credential_id ttl now (λ db r.
          k.leases_updated db (can_resume identity params.credential_id now) (resume ttl now)
            (can_resume-LeaseChange identity params.credential_id ttl now) r)

    renewed_ok : (m : Moment) → Preserves R (renew_gameplay_lease identity ttl m)
    renewed_ok m = renew_gameplay_lease-Preserves R identity ttl m (λ db r.
        k.leases_updated db (can_renew identity m.checked_at) (refresh ttl m)
          (can_renew-LeaseChange identity ttl m) r)

    marks-kept : (now : ℕ) → Preserves R (mark_session_recovering options params now)
    marks-kept =
        mark_session_recovering-Preserves options R R (λ db h. h.0) (λ db h. h) params marked
          resumed_ok renewed_ok

    resumes-kept :
        (required : Bool) (verified_at now : ℕ)
        → Preserves R (resume_recovering_session options params required verified_at now)
    resumes-kept =
        resume_recovering_session-Preserves options R R (λ db h. h.0) (λ db h. h) params marked
          resumed_ok renewed_ok

    renews-kept :
        (verified_at : ℕ) (m : Moment)
        → Preserves R (renew_session_lease options params verified_at m)
    renews-kept =
        renew_session_lease-Preserves options R R (λ db h. h.0) (λ db h. h) params marked resumed_ok
          renewed_ok

  releases-kept :
      (options : AuthorityOptions) (player lease now : ℕ)
      → Preserves R (release_session_lease options player lease now)
  unfolding release_session_lease
  releases-kept options player lease now =
      release_gameplay_lease-Preserves R options.world_id player lease now (λ db r.
        k.leases_updated db (can_release options.world_id player lease) (release now)
          (release-LeaseChange (can_release options.world_id player lease) now) r)

  claims-kept :
      (world instance_id : ℕ) (m : Moment) (db_time : ℕ)
      → Preserves R (claim_world_writer world instance_id m db_time)
  claims-kept world instance_id m db_time =
      claim_world_writer-Preserves R world instance_id m db_time
        (λ db row found r.
          k.worlds_updated db (is_world world) (extend_writer m) (KeepsEpoch-extend_writer m) r)
        (λ db row found r. k.writer_taken db world instance_id m db_time row found r)

  creates-kept : (fresh : ℕ) → Preserves R (create_player fresh)
  unfolding create_player
  creates-kept fresh db r = k.players_changed db _ r

  rotates-kept :
      (player credential hash fresh now released_at : ℕ)
      → Preserves R (rotate_credential player credential hash fresh now released_at)
  rotates-kept player credential hash fresh now released_at =
      rotate_credential-Preserves R player credential hash fresh now released_at
        (λ db r. k.credential_revoked db (has_id credential) player credential now released_at r)
        (λ db free r. k.credential_inserted db fresh player hash free r)

  pub step-kept : (call : DbCall) (db : Db) → R db → R (step call db)
  unfolding step
  step-kept (plays o context faction m) db =
      run_transaction-Preserves R _ db (plays-kept o context faction m)
  step-kept (spectates o context now) db =
      run_transaction-Preserves R _ db (spectates-kept o context now)
  step-kept (marks o params now) db = run_transaction-Preserves R _ db (marks-kept o params now)
  step-kept (resumes o params required verified_at now) db =
      run_transaction-Preserves R _ db (resumes-kept o params required verified_at now)
  step-kept (releases o player lease now) db =
      run_transaction-Preserves R _ db (releases-kept o player lease now)
  step-kept (renews o params verified_at m) db =
      run_transaction-Preserves R _ db (renews-kept o params verified_at m)
  step-kept (claims world instance_id m db_time) db =
      run_transaction-Preserves R _ db (claims-kept world instance_id m db_time)
  step-kept (renews_writer world instance_id epoch m) db = run_transaction-Preserves R _ db (
      renew_world_writer-Preserves R world instance_id epoch m (λ d r.
        k.worlds_updated d (can_renew_writer world instance_id epoch m.checked_at) (extend_writer m)
          (KeepsEpoch-extend_writer m) r))
  step-kept (releases_writer world instance_id epoch) db = run_transaction-Preserves R _ db (
      release_world_writer-Preserves R world instance_id epoch (λ d r.
        k.worlds_updated d (is_writer world instance_id epoch) clear_writer KeepsEpoch-clear_writer
          r))
  step-kept (creates_player fresh) db = run_transaction-Preserves R _ db (creates-kept fresh)
  step-kept (inserts_credential fresh player hash) db = run_transaction-Preserves R _ db (
      insert_credential-Preserves R fresh player hash
        (λ d free r. k.credential_inserted d fresh player hash free r))
  step-kept (revokes player credential now released_at) db = run_transaction-Preserves R _ db (
      revoke_credential-Preserves R player credential now released_at (λ d r.
        k.credential_revoked d (is_pair player credential) player credential now released_at r))
  step-kept (rotates player credential hash fresh now released_at) db =
      run_transaction-Preserves R _ db (rotates-kept player credential hash fresh now released_at)

  pub run-kept : (calls : List DbCall) (db : Db) → R db → R (run calls db)
  unfolding run
  run-kept [] db r = r
  run-kept (call ∷ calls) db r = run-kept calls (step call db) (step-kept call db r)
