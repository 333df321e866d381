-- ===== src/Persistence/Authority.antt =====
-- apps/server/src/persistence/gameplayAuthority.ts: the transactions in which a session gains, keeps
-- and gives up its authority over a ship. Each is the body of one `withTransaction`.
pub mod Keeps
pub mod Superseded
pub mod Revoked
use mathlib.Core.Option
use burning_space.Base.{
  is_none, is_some, if◌then◌else◌, ℕ, Bool, true, false, Option, none, some, ◌+◌, List,
}
use burning_space.Persistence.Schema.{Faction, PlayerRow, MembershipRow, Moment}
use burning_space.Persistence.Transaction.{◌>>◌, fail, return, Tx, ◌>>=◌, no_faction}
use burning_space.Persistence.Players.{lock_player, update_player_display_name}
use burning_space.Persistence.Memberships.{
  EstablishFactionResult, created, assigned, idempotent, conflict, establish_player_faction,
  find_membership,
}
use burning_space.Persistence.Worlds.{
  lock_and_verify_current_writer, increment_world_state_revision,
}
use burning_space.Persistence.Credentials.{
  lock_active_credential_for_player, is_credential_active_for_player,
}
use burning_space.Persistence.Leases.{
  AcquireLeaseParams, AcquireLeaseResult, acquired, identity_in_use, acquire_gameplay_lease,
  LeaseIdentityParams, MarkRecoveringResult, mark_recovering, resume_recovering_lease,
  release_gameplay_lease, renew_gameplay_lease,
}

abbrev pub active_lease_ttl_extra_seconds : ℕ
active_lease_ttl_extra_seconds = 15

abbrev pub compute_active_lease_ttl_seconds : ℕ → ℕ
compute_active_lease_ttl_seconds grace = grace + active_lease_ttl_extra_seconds

pub record ApplyProfileContext : Type 0 where
  pub player_id : ℕ
  pub credential_id : ℕ
  pub transport_session_id : ℕ
  pub room_id : ℕ
  pub nickname : List ℕ
  pub reconnect_grace_seconds : ℕ

pub data ProfileTransactionResult : Type 0 where
  spectator_accepted : ProfileTransactionResult
  player_accepted : Faction → ℕ → ProfileTransactionResult
  faction_conflict identity_taken credential_invalid writer_authority_lost :
      ProfileTransactionResult

pub record LeaseSessionParams : Type 0 where
  pub player_id : ℕ
  pub credential_id : ℕ
  pub lease_id : ℕ
  pub grace_seconds : ℕ

pub data ResumeRejection : Type 0 where
  writer_lost credential_revoked membership_missing lease_invalid : ResumeRejection

pub data ResumeSessionResult : Type 0 where
  resumed : ℕ → ResumeSessionResult
  rejected : ResumeRejection → ResumeSessionResult

pub record AuthorityOptions : Type 0 where
  pub world_id : ℕ
  pub server_instance_id : ℕ
  pub writer_epoch : ℕ

-- The readings of the database's clock in a transaction: of the writer's check, of the membership
-- and of the lease.
pub record ProfileMoment : Type 0 where
  pub verified_at : ℕ
  pub faction_at : ℕ
  pub lease : Moment

pub data Prefix : Type 0 where
  writer_gone credential_gone prefix_ok : Prefix

abbrev pub resume_answer : Option ℕ → ResumeSessionResult
resume_answer none = rejected lease_invalid
resume_answer (some expires) = resumed expires

module _ (options : AuthorityOptions) where
  pub verify_current_writer : ℕ → Tx Bool
  verify_current_writer now =
      lock_and_verify_current_writer options.world_id options.server_instance_id
        options.writer_epoch now

  prefix_credential : ApplyProfileContext → Bool → Tx Prefix
  prefix_credential context false = return credential_gone
  prefix_credential context true =
      update_player_display_name context.player_id context.nickname >> return prefix_ok

  prefix_player : ApplyProfileContext → Option PlayerRow → Tx Prefix
  unfolding prefix_credential
  prefix_player context none = return credential_gone
  prefix_player context (some player) =
      lock_active_credential_for_player context.player_id context.credential_id
      >>= prefix_credential context

  prefix_writer : ApplyProfileContext → Bool → Tx Prefix
  unfolding prefix_player
  prefix_writer context false = return writer_gone
  prefix_writer context true = lock_player context.player_id >>= prefix_player context

  -- `lockProfilePrefix`.
  pub lock_profile_prefix : ApplyProfileContext → ℕ → Tx Prefix
  unfolding prefix_writer
  lock_profile_prefix context now = verify_current_writer now >>= prefix_writer context

  spectator_result : Prefix → ProfileTransactionResult
  spectator_result writer_gone = writer_authority_lost
  spectator_result credential_gone = credential_invalid
  spectator_result prefix_ok = spectator_accepted

  pub apply_spectator_profile : ApplyProfileContext → ℕ → Tx ProfileTransactionResult
  unfolding spectator_result
  apply_spectator_profile context now =
      lock_profile_prefix context now >>= λ prefix. return (spectator_result prefix)

  abbrev pub acquire_params : ApplyProfileContext → AcquireLeaseParams
  acquire_params context = record {
    world_id = options.world_id;
    player_id = context.player_id;
    credential_id = context.credential_id;
    server_instance_id = options.server_instance_id;
    writer_epoch = options.writer_epoch;
    room_id = context.room_id;
    transport_session_id = context.transport_session_id;
    active_ttl_seconds = compute_active_lease_ttl_seconds context.reconnect_grace_seconds;
  }

  -- `toFaction(factionResult.membership.faction)` in the accepted result.
  player_result : Option Faction → AcquireLeaseResult → Tx ProfileTransactionResult
  player_result faction identity_in_use = return identity_taken
  player_result none (acquired lease expires) = fail no_faction
  player_result (some faction) (acquired lease expires) = return (player_accepted faction lease)

  acquire_for : ApplyProfileContext → Moment → MembershipRow → Tx ProfileTransactionResult
  unfolding player_result
  acquire_for context m membership =
      acquire_gameplay_lease (acquire_params context) m >>= player_result membership.faction

  with_faction : ApplyProfileContext → Moment → EstablishFactionResult → Tx ProfileTransactionResult
  unfolding acquire_for
  with_faction context m established = elim established.outcome [
    | conflict ↦ return faction_conflict
    | idempotent ↦ acquire_for context m established.membership
    | created ↦
        increment_world_state_revision options.world_id
        >> acquire_for context m established.membership
    | assigned ↦
        increment_world_state_revision options.world_id
        >> acquire_for context m established.membership
  ]

  player_after_prefix :
      ApplyProfileContext → Faction → ProfileMoment → Prefix → Tx ProfileTransactionResult
  unfolding with_faction
  player_after_prefix context faction m writer_gone = return writer_authority_lost
  player_after_prefix context faction m credential_gone = return credential_invalid
  player_after_prefix context faction m prefix_ok =
      establish_player_faction options.world_id context.player_id faction m.faction_at
      >>= with_faction context m.lease

  pub apply_player_profile :
      ApplyProfileContext → Faction → ProfileMoment → Tx ProfileTransactionResult
  unfolding player_after_prefix
  apply_player_profile context faction m =
      lock_profile_prefix context m.verified_at >>= player_after_prefix context faction m

  abbrev pub identity_params : ℕ → ℕ → LeaseIdentityParams
  identity_params player lease = record {
    world_id = options.world_id;
    player_id = player;
    lease_id = lease;
    server_instance_id = options.server_instance_id;
    writer_epoch = options.writer_epoch;
  }

  pub mark_session_recovering : LeaseSessionParams → ℕ → Tx MarkRecoveringResult
  mark_session_recovering params now =
      mark_recovering (identity_params params.player_id params.lease_id) params.grace_seconds now

  resume_lease : LeaseSessionParams → ℕ → Tx ResumeSessionResult
  resume_lease params now =
      resume_recovering_lease (identity_params params.player_id params.lease_id)
        params.credential_id (compute_active_lease_ttl_seconds params.grace_seconds) now
      >>= λ expires. return (resume_answer expires)

  resume_member : LeaseSessionParams → ℕ → Option MembershipRow → Tx ResumeSessionResult
  unfolding resume_lease
  resume_member params now none = return (rejected membership_missing)
  resume_member params now (some membership) =
      if is_none membership.faction
      then return (rejected membership_missing)
      else resume_lease params now

  resume_credential : LeaseSessionParams → Bool → ℕ → Bool → Tx ResumeSessionResult
  unfolding resume_member resume_lease
  resume_credential params require_faction now false = return (rejected credential_revoked)
  resume_credential params require_faction now true =
      if require_faction
      then find_membership options.world_id params.player_id >>= resume_member params now
      else resume_lease params now

  resume_writer : LeaseSessionParams → Bool → ℕ → Bool → Tx ResumeSessionResult
  unfolding resume_credential
  resume_writer params require_faction now false = return (rejected writer_lost)
  resume_writer params require_faction now true =
      lock_active_credential_for_player params.player_id params.credential_id
      >>= resume_credential params require_faction now

  pub resume_recovering_session : LeaseSessionParams → Bool → ℕ → ℕ → Tx ResumeSessionResult
  unfolding resume_writer
  resume_recovering_session params require_faction verified_at now =
      verify_current_writer verified_at >>= resume_writer params require_faction now

  unfoldable pub release_session_lease : ℕ → ℕ → ℕ → Tx Bool
  release_session_lease player lease now = release_gameplay_lease options.world_id player lease now

  renew_credential : LeaseSessionParams → Moment → Bool → Tx Bool
  renew_credential params m false = return false
  renew_credential params m true =
      renew_gameplay_lease (identity_params params.player_id params.lease_id)
        (compute_active_lease_ttl_seconds params.grace_seconds) m
      >>= λ expires. return (is_some expires)

  renew_writer : LeaseSessionParams → Moment → Bool → Tx Bool
  unfolding renew_credential
  renew_writer params m false = return false
  renew_writer params m true =
      is_credential_active_for_player params.player_id params.credential_id
      >>= renew_credential params m

  pub renew_session_lease : LeaseSessionParams → ℕ → Moment → Tx Bool
  unfolding renew_writer
  renew_session_lease params verified_at m =
      verify_current_writer verified_at >>= renew_writer params m
