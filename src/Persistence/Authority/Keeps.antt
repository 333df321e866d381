-- ===== src/Persistence/Authority/Keeps.antt =====
-- The rule for the transactions of the gameplay authority: a condition that every statement keeps,
-- given that the writer's check has passed, is kept by the whole transaction.
use burning_space.Base.{
  is_none, is_some, Bool-cases, refl, inr, inl, Option-cases, arith, ℕ, ◌≡◌, Bool, true, false,
  Option, none, some,
}
use burning_space.Persistence.Schema.{Faction, PlayerRow, MembershipRow, Moment, Db, WorldRow}
use burning_space.Persistence.Transaction.{return, ◌>>◌}
use burning_space.Persistence.Transaction.Preserves.{
  Leads, Preserves, OnBool, Leads-bind, Preserves-bind, Leads-weaken,
}
use burning_space.Persistence.Players.{update_player_display_name, lock_player}
use burning_space.Persistence.Memberships.{
  EstablishFactionOutcome, created, assigned, idempotent, conflict, establish_player_faction,
  find_membership,
}
use burning_space.Persistence.Credentials.{
  lock_active_credential_for_player, is_credential_active_for_player,
}
use burning_space.Persistence.Worlds.{
  world_of, is_verified, increment_world_state_revision, lock_and_verify_current_writer,
}
use burning_space.Persistence.Leases.{
  AcquireLeaseResult, acquired, identity_in_use, acquire_gameplay_lease, mark_recovering,
  resume_recovering_lease, renew_gameplay_lease,
}
use burning_space.Persistence.Authority.{
  LeaseSessionParams, identity_params, compute_active_lease_ttl_seconds, resume_answer,
  resume_lease, resume_member, resume_credential, resume_writer, resume_recovering_session,
  renew_credential, renew_writer, renew_session_lease, mark_session_recovering, spectator_result,
  spectator_result, return, AuthorityOptions, ApplyProfileContext, ProfileMoment, Prefix,
  writer_gone, credential_gone, prefix_ok, verify_current_writer, prefix_credential, prefix_player,
  prefix_writer, lock_profile_prefix, acquire_params, player_result, acquire_for, with_faction,
  player_after_prefix, apply_player_profile, apply_spectator_profile,
}

module _ (options : AuthorityOptions) where
  -- The world's row when the check passes.
  pub record HasWriter (db : Db) : Type 0 where
    pub row : WorldRow
    pub found : world_of options.world_id db ≡ some row
    pub epoch : row.writer_epoch ≡ options.writer_epoch
    pub instance_id : row.writer_instance_id ≡ some options.server_instance_id

  module _ (P : Db → Type 0) where
    verify_found :
        (db : Db) (now : ℕ) (row : WorldRow)
        → P db
        → world_of options.world_id db ≡ some row
        → (b : Bool) → is_verified options.server_instance_id options.writer_epoch now row ≡ b
        → OnBool (λ d. P d × HasWriter d) P b db
    verify_found db now row p found true e =
        (p, record { row = row; found = found; epoch = ground arith; instance_id = ground arith })
    verify_found db now row p found false e = p

    pub verify_Leads :
        (now : ℕ)
        → Leads P (OnBool (λ db. P db × HasWriter db) P) (verify_current_writer options now)
    unfolding verify_current_writer lock_and_verify_current_writer
    verify_Leads now db p = elim (Option-cases (world_of options.world_id db)) [
      | inl absent ↦ rw (absent, verify_current_writer, lock_and_verify_current_writer) p
      | inr (row, found) ↦
          rw (found, verify_current_writer, lock_and_verify_current_writer)
            (verify_found db now row p found _ refl)
    ]

module _ (options : AuthorityOptions) (P Q : Db → Type 0)
    (enter : (db : Db) → P db × HasWriter options db → Q db) (exit : (db : Db) → Q db → P db) where
  abbrev Checked : Bool → Db → Type 0
  Checked = OnBool (λ db. P db × HasWriter options db) P

  -- After the prefix: `Q` where it let the caller through, `P` where not.
  abbrev AtPrefix : Prefix → Db → Type 0
  AtPrefix writer_gone = P
  AtPrefix credential_gone = P
  AtPrefix prefix_ok = Q

  module _ (context : ApplyProfileContext)
      (named : Preserves Q (update_player_display_name context.player_id context.nickname)) where
    prefix_credential-Leads : (b : Bool) → Leads Q AtPrefix (prefix_credential options context b)
    unfolding prefix_credential
    prefix_credential-Leads false db q = exit db q
    prefix_credential-Leads true db q =
        Leads-bind Q (λ _. Q) AtPrefix
          (update_player_display_name context.player_id context.nickname) (λ _. return prefix_ok)
          named (λ a db q. q) db q

    prefix_player-Leads :
        (o : Option PlayerRow) → Leads Q AtPrefix (prefix_player options context o)
    unfolding prefix_player lock_active_credential_for_player
    prefix_player-Leads none db q = exit db q
    prefix_player-Leads (some player) db q = prefix_credential-Leads _ db q

    prefix_writer-Leads : (b : Bool) → Leads (Checked b) AtPrefix (prefix_writer options context b)
    unfolding prefix_writer lock_player
    prefix_writer-Leads false db p = p
    prefix_writer-Leads true db p = prefix_player-Leads _ db (enter db p)

    pub lock_profile_prefix-Leads :
        (now : ℕ) → Leads P AtPrefix (lock_profile_prefix options context now)
    unfolding lock_profile_prefix
    lock_profile_prefix-Leads now =
        Leads-bind P Checked AtPrefix (verify_current_writer options now)
          (prefix_writer options context) (verify_Leads options P now) prefix_writer-Leads

    of_prefix : (prefix : Prefix) (db : Db) → AtPrefix prefix db → P db
    of_prefix writer_gone db p = p
    of_prefix credential_gone db p = p
    of_prefix prefix_ok db q = exit db q

    pub apply_spectator_profile-Preserves :
        (now : ℕ) → Preserves P (apply_spectator_profile options context now)
    unfolding apply_spectator_profile
    apply_spectator_profile-Preserves now =
        Leads-bind P AtPrefix (λ _. P) (lock_profile_prefix options context now)
          (λ prefix. return (spectator_result options prefix)) (lock_profile_prefix-Leads now)
          of_prefix

    module _ (faction : Faction) (m : ProfileMoment)
        (established : Preserves Q
          (establish_player_faction options.world_id context.player_id faction m.faction_at))
        (revised : Preserves Q (increment_world_state_revision options.world_id))
        (leased : Preserves Q
          (acquire_gameplay_lease (acquire_params options context) m.lease)) where
      player_result_Preserves :
          (f : Option Faction) (answer : AcquireLeaseResult)
          → Preserves Q (player_result options f answer)
      unfolding player_result
      player_result_Preserves none identity_in_use db q = q
      player_result_Preserves (some f) identity_in_use db q = q
      player_result_Preserves none (acquired lease expires) db q = tt
      player_result_Preserves (some f) (acquired lease expires) db q = q

      acquire_for_Preserves :
          (membership : MembershipRow)
          → Preserves Q (acquire_for options context m.lease membership)
      unfolding acquire_for
      acquire_for_Preserves membership =
          Preserves-bind Q (acquire_gameplay_lease (acquire_params options context) m.lease)
            (player_result options membership.faction) leased
            (player_result_Preserves membership.faction)

      revised_acquire_Preserves :
          (membership : MembershipRow)
          → Preserves Q (
              increment_world_state_revision options.world_id
              >> acquire_for options context m.lease membership)
      revised_acquire_Preserves membership =
          Preserves-bind Q (increment_world_state_revision options.world_id)
            (λ _. acquire_for options context m.lease membership) revised
            (λ _. acquire_for_Preserves membership)

      with_outcome_Preserves :
          (outcome : EstablishFactionOutcome) (membership : MembershipRow)
          → Preserves Q (
              with_faction options context m.lease
                (record { outcome = outcome; membership = membership }))
      unfolding with_faction
      with_outcome_Preserves conflict membership db q = q
      with_outcome_Preserves idempotent membership db q = acquire_for_Preserves membership db q
      with_outcome_Preserves created membership db q = revised_acquire_Preserves membership db q
      with_outcome_Preserves assigned membership db q = revised_acquire_Preserves membership db q

      player_after_prefix-Leads :
          (prefix : Prefix)
          → Leads (AtPrefix prefix) (λ _. P) (player_after_prefix options context faction m prefix)
      unfolding player_after_prefix
      player_after_prefix-Leads writer_gone db p = p
      player_after_prefix-Leads credential_gone db p = p
      player_after_prefix-Leads prefix_ok db q =
          Leads-weaken Q (λ _. Q) (λ _. P) _
            (Preserves-bind Q
              (establish_player_faction options.world_id context.player_id faction m.faction_at)
              (with_faction options context m.lease) established
              (λ r. with_outcome_Preserves r.outcome r.membership))
            (λ _. exit) db q

      -- If `Q` holds whenever `P` does and the writer's check has passed, and each statement keeps
      -- `Q`, then the whole transaction keeps `P`.
      pub apply_player_profile-Preserves :
          Preserves P (apply_player_profile options context faction m)
      unfolding apply_player_profile
      apply_player_profile-Preserves =
          Leads-bind P AtPrefix (λ _. P) (lock_profile_prefix options context m.verified_at)
            (player_after_prefix options context faction m)
            (lock_profile_prefix-Leads m.verified_at) player_after_prefix-Leads

  module _ (params : LeaseSessionParams)
      (marked : (now : ℕ)
        → Preserves P (
            mark_recovering
              (identity_params options params.player_id params.lease_id)
              params.grace_seconds
              now))
      (resumed_ok : (now : ℕ)
        → Preserves P (
            resume_recovering_lease
              (identity_params options params.player_id params.lease_id)
              params.credential_id
              (compute_active_lease_ttl_seconds params.grace_seconds)
              now))
      (renewed_ok : (m : Moment)
        → Preserves P (
            renew_gameplay_lease
              (identity_params options params.player_id params.lease_id)
              (compute_active_lease_ttl_seconds params.grace_seconds)
              m)) where
    resume_lease_Preserves : (now : ℕ) → Preserves P (resume_lease options params now)
    unfolding resume_lease
    resume_lease_Preserves now =
        Preserves-bind P
          (resume_recovering_lease (identity_params options params.player_id params.lease_id)
            params.credential_id (compute_active_lease_ttl_seconds params.grace_seconds) now)
          (λ expires. return (resume_answer expires)) (resumed_ok now) (λ a db p. p)

    resume_member_Preserves :
        (now : ℕ) (o : Option MembershipRow) → Preserves P (resume_member options params now o)
    unfolding resume_member
    resume_member_Preserves now none db p = p
    resume_member_Preserves now (some membership) db p =
        elim (Bool-cases (is_none membership.faction)) [
          | inl unassigned ↦ rw unassigned p
          | inr assigned_before ↦ rw assigned_before (resume_lease_Preserves now db p)
        ]

    resume_credential_Preserves :
        (required : Bool) (now : ℕ) (b : Bool)
        → Preserves P (resume_credential options params required now b)
    unfolding resume_credential find_membership
    resume_credential_Preserves required now false db p = p
    resume_credential_Preserves true now true db p = resume_member_Preserves now _ db p
    resume_credential_Preserves false now true db p = resume_lease_Preserves now db p

    resume_writer-Leads :
        (required : Bool) (now : ℕ) (b : Bool)
        → Leads (Checked b) (λ _. P) (resume_writer options params required now b)
    unfolding resume_writer lock_active_credential_for_player
    resume_writer-Leads required now false db p = p
    resume_writer-Leads required now true db p = resume_credential_Preserves required now _ db p.0

    pub resume_recovering_session-Preserves :
        (required : Bool) (verified_at now : ℕ)
        → Preserves P (resume_recovering_session options params required verified_at now)
    unfolding resume_recovering_session
    resume_recovering_session-Preserves required verified_at now =
        Leads-bind P Checked (λ _. P) (verify_current_writer options verified_at)
          (resume_writer options params required now) (verify_Leads options P verified_at)
          (resume_writer-Leads required now)

    renew_credential_Preserves :
        (m : Moment) (b : Bool) → Preserves P (renew_credential options params m b)
    unfolding renew_credential
    renew_credential_Preserves m false db p = p
    renew_credential_Preserves m true db p =
        Preserves-bind P
          (renew_gameplay_lease (identity_params options params.player_id params.lease_id)
            (compute_active_lease_ttl_seconds params.grace_seconds) m)
          (λ expires. return (is_some expires)) (renewed_ok m) (λ a d q. q) db p

    renew_writer-Leads :
        (m : Moment) (b : Bool) → Leads (Checked b) (λ _. P) (renew_writer options params m b)
    unfolding renew_writer is_credential_active_for_player
    renew_writer-Leads m false db p = p
    renew_writer-Leads m true db p = renew_credential_Preserves m _ db p.0

    pub renew_session_lease-Preserves :
        (verified_at : ℕ) (m : Moment)
        → Preserves P (renew_session_lease options params verified_at m)
    unfolding renew_session_lease
    renew_session_lease-Preserves verified_at m =
        Leads-bind P Checked (λ _. P) (verify_current_writer options verified_at)
          (renew_writer options params m) (verify_Leads options P verified_at)
          (renew_writer-Leads m)

    pub mark_session_recovering-Preserves :
        (now : ℕ) → Preserves P (mark_session_recovering options params now)
    unfolding mark_session_recovering
    mark_session_recovering-Preserves now = marked now
