-- ===== src/Persistence/History/Superseded.antt =====
-- A process whose epoch was superseded: what becomes of its calls.
use burning_space.Base.{◌≢◌, ℕ, ◌≡◌, ◌<◌, arith, Bool, false, List}
use burning_space.Persistence.Schema.{Faction, Db, Moment}
use burning_space.Persistence.Transaction.{ok}
use burning_space.Persistence.Authority.{
  AuthorityOptions, ApplyProfileContext, ProfileMoment, LeaseSessionParams, apply_player_profile,
  apply_spectator_profile, resume_recovering_session, renew_session_lease, writer_authority_lost,
  rejected, writer_lost,
}
use burning_space.Persistence.Authority.Superseded.{
  plays_superseded, spectates_superseded, resumes_superseded, renews_superseded,
}
use burning_space.Persistence.History.{DbCall, run}
use burning_space.Persistence.History.Takeovers.{HasEpochFrom, run-HasEpochFrom}

-- Once a world has reached an epoch, then after any further transactions a process with an earlier
-- epoch is refused: applying a profile, as a player or a spectator, answers that the writer's
-- authority is lost, resuming a session is rejected for the same reason, renewing a lease answers
-- false, and none of the four changes any table.
pub superseded_calls :
    (options : AuthorityOptions) (bound : ℕ) (db : Db) (calls : List DbCall)
    → options.writer_epoch < bound
    → HasEpochFrom options.world_id bound db
    → (context : ApplyProfileContext) (faction : Faction) (m : ProfileMoment)
      (params : LeaseSessionParams) (required : Bool) (verified_at now : ℕ) (lease : Moment)
    → (apply_player_profile options context faction m (run calls db)
        ≡ ok (writer_authority_lost, run calls db))
      × (apply_spectator_profile options context now (run calls db)
          ≡ ok (writer_authority_lost, run calls db))
      × (resume_recovering_session options params required verified_at now (run calls db)
          ≡ ok (rejected writer_lost, run calls db))
      × (renew_session_lease options params verified_at lease (run calls db)
          ≡ ok (false, run calls db))
superseded_calls options bound db calls newer h context faction m params required verified_at now
      lease =
    (
      plays_superseded options (run calls db) w.row w.found stale context faction m,
      spectates_superseded options (run calls db) w.row w.found stale context now,
      resumes_superseded options (run calls db) w.row w.found stale params required verified_at now,
      renews_superseded options (run calls db) w.row w.found stale params verified_at lease,
    )
  where
    w : HasEpochFrom options.world_id bound (run calls db)
    w = run-HasEpochFrom calls db options.world_id bound h

    stale : w.row.writer_epoch ≢ options.writer_epoch
    stale = omega (arith, newer, w.reached)
