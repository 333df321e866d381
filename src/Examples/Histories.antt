-- ===== src/Examples/Histories.antt =====
-- The theorems on histories, on the example's tables: the instance 9 takes the world over from the
-- instance 5, whose player comes back late.
use burning_space.Persistence.Credentials.Revocation.{after_revocation}
use burning_space.Persistence.Authority.Revoked.{IsRefused, profile-after_revocation}
use burning_space.Base.{none, ◌≡◌, refl, arith, some, true, false, inr, List, [], ◌∷◌}
use burning_space.Persistence.Schema.{blue, red}
use burning_space.Persistence.Transaction.{ok}
use burning_space.Persistence.Authority.{
  AuthorityOptions, ApplyProfileContext, ProfileMoment, LeaseSessionParams, apply_player_profile,
  apply_spectator_profile, resume_recovering_session, renew_session_lease, writer_authority_lost,
  rejected, writer_lost,
}
use burning_space.Persistence.History.{DbCall, run, plays, claims, rotates}
use burning_space.Persistence.History.Constraints.{run-IsWellFormed}
use burning_space.Persistence.History.Epochs.{IsCurrent, run-IsCurrent}
use burning_space.Persistence.History.Takeovers.{HasEpochFrom, run-HasEpochFrom}
use burning_space.Persistence.History.Superseded.{superseded_calls}
use burning_space.Persistence.History.Members.{faction_of, run-faction_of}
use burning_space.Persistence.Credentials.Rotation.{IsRotated, rotate_credential-rotated}
use burning_space.Persistence.Credentials.{rotate_credential, rotated}
use burning_space.Persistence.Schema.{Db}
use burning_space.Persistence.Leases.Shape.{IsWellFormed}
use burning_space.Examples.{world_row, tables, tables-IsWellFormed, late}

abbrev options : AuthorityOptions
options = record { world_id = 1; server_instance_id = 5; writer_epoch = 1 }

abbrev newer_options : AuthorityOptions
newer_options = record { world_id = 1; server_instance_id = 9; writer_epoch = 2 }

abbrev context : ApplyProfileContext
context = record {
  player_id = 2;
  credential_id = 4;
  transport_session_id = 8;
  room_id = 6;
  nickname = 65 ∷ [];
  reconnect_grace_seconds = 30;
}

abbrev profile_moment : ProfileMoment
profile_moment = record { verified_at = 51000000; faction_at = 51000000; lease = late }

abbrev session : LeaseSessionParams
session = record { player_id = 2; credential_id = 4; lease_id = 3; grace_seconds = 30 }

-- A takeover, the player under it with the other faction, and a rotated credential.
abbrev calls : List DbCall
calls =
    claims 1 9 late 50000000
    ∷ plays newer_options context blue profile_moment
    ∷ rotates 2 4 98 5 52000000 52000000
    ∷ []

tables-HasEpochFrom : HasEpochFrom 1 1 tables
tables-HasEpochFrom = record { row = world_row; found = refl; reached = omega arith }

run-IsWellFormed_example : IsWellFormed (run calls tables)
run-IsWellFormed_example = run-IsWellFormed calls tables tables-IsWellFormed

run-IsCurrent_example : IsCurrent (run calls tables)
run-IsCurrent_example = run-IsCurrent calls tables (inr refl, tt)

run-faction_of_example : faction_of 1 2 (run calls tables) ≡ some (some red)
run-faction_of_example = run-faction_of calls tables 1 2 red refl

rotate_credential-rotated_example :
    (after : Db) × (rotate_credential 2 4 77 40 51000000 51000001 tables ≡ ok (rotated 40, after))
    × IsRotated 2 4 77 40 51000000 tables after
rotate_credential-rotated_example =
    rotate_credential-rotated 2 4 77 40 51000000 51000001 tables
      (record { credential_id = 4; player_id = 2; credential_hash = 99; revoked_at = none })
      (record { player_id = 2; display_name = none }) (λ h. refl, tt) refl refl refl refl refl

run-HasEpochFrom_example : HasEpochFrom 1 1 (run calls tables)
run-HasEpochFrom_example = run-HasEpochFrom calls tables 1 1 tables-HasEpochFrom

-- A process that still has the epoch 0.
abbrev stale_options : AuthorityOptions
stale_options = record { world_id = 1; server_instance_id = 5; writer_epoch = 0 }

superseded_calls_example :
    (apply_player_profile stale_options context blue profile_moment (run calls tables)
      ≡ ok (writer_authority_lost, run calls tables))
    × (apply_spectator_profile stale_options context 51000000 (run calls tables)
        ≡ ok (writer_authority_lost, run calls tables))
    × (resume_recovering_session stale_options session true 51000000 51000000 (run calls tables)
        ≡ ok (rejected writer_lost, run calls tables))
    × (renew_session_lease stale_options session 51000000 late (run calls tables)
        ≡ ok (false, run calls tables))
superseded_calls_example =
    superseded_calls stale_options 1 tables calls (omega arith) tables-HasEpochFrom context blue
      profile_moment session true 51000000 51000000 late

profile-after_revocation_example :
    IsRefused
      (apply_player_profile options context blue profile_moment
        (after_revocation 2 4 11000000 11000000 tables))
      (after_revocation 2 4 11000000 11000000 tables)
    × IsRefused
        (apply_spectator_profile options context 12000000
          (after_revocation 2 4 11000000 11000000 tables))
        (after_revocation 2 4 11000000 11000000 tables)
profile-after_revocation_example =
    profile-after_revocation options context blue profile_moment 11000000 11000000 12000000 tables
