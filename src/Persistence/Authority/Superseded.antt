-- ===== src/Persistence/Authority/Superseded.antt =====
-- The calls of a process whose epoch is not the world's.
use burning_space.Base.{ℕ, ◌≡◌, ◌≢◌, refl, ap, arith, Bool, false, some}
use burning_space.Persistence.Schema.{Faction, WorldRow, Db, Moment}
use burning_space.Persistence.Transaction.{return, ◌>>=◌, ok, Tx}
use burning_space.Persistence.Worlds.{world_of, lock_and_verify_current_writer}
use burning_space.Persistence.Authority.{
  writer_gone, return, AuthorityOptions, ApplyProfileContext, ProfileMoment, LeaseSessionParams,
  apply_player_profile, apply_spectator_profile, resume_recovering_session, renew_session_lease,
  verify_current_writer, lock_profile_prefix, prefix_writer, writer_authority_lost, rejected,
  writer_lost, player_after_prefix, spectator_result, resume_writer, renew_writer,
}

-- What follows a step that returns.
pub bind_ok :
    {A B : Type 0} (m : Tx A) (f : A → Tx B) (db : Db) (a : A) (after : Db)
    → m db ≡ ok (a, after)
    → (m >>= f) db ≡ f a after
bind_ok m f db a after e = rw (e, ◌>>=◌) refl

module _ (options : AuthorityOptions) (db : Db) (row : WorldRow)
    (found : world_of options.world_id db ≡ some row)
    (stale : row.writer_epoch ≢ options.writer_epoch) where
  superseded : (now : ℕ) → verify_current_writer options now db ≡ ok (false, db)
  unfolding verify_current_writer lock_and_verify_current_writer
  superseded now =
      rw (found, verify_current_writer, lock_and_verify_current_writer)
        (ap (λ b. ok (b, db)) (ground (arith, stale)))

  pub plays_superseded :
      (context : ApplyProfileContext) (faction : Faction) (m : ProfileMoment)
      → apply_player_profile options context faction m db ≡ ok (writer_authority_lost, db)
  unfolding apply_player_profile lock_profile_prefix
  plays_superseded context faction m =
      bind_ok (lock_profile_prefix options context m.verified_at)
        (player_after_prefix options context faction m) db writer_gone db
        (bind_ok (verify_current_writer options m.verified_at) (prefix_writer options context) db
          false db (superseded m.verified_at))

  pub spectates_superseded :
      (context : ApplyProfileContext) (now : ℕ)
      → apply_spectator_profile options context now db ≡ ok (writer_authority_lost, db)
  unfolding apply_spectator_profile lock_profile_prefix
  spectates_superseded context now =
      bind_ok (lock_profile_prefix options context now)
        (λ prefix. return (spectator_result options prefix)) db writer_gone db
        (bind_ok (verify_current_writer options now) (prefix_writer options context) db false db
          (superseded now))

  pub resumes_superseded :
      (params : LeaseSessionParams) (required : Bool) (verified_at now : ℕ)
      → resume_recovering_session options params required verified_at now db
        ≡ ok (rejected writer_lost, db)
  unfolding resume_recovering_session
  resumes_superseded params required verified_at now =
      bind_ok (verify_current_writer options verified_at)
        (resume_writer options params required now) db false db (superseded verified_at)

  pub renews_superseded :
      (params : LeaseSessionParams) (verified_at : ℕ) (m : Moment)
      → renew_session_lease options params verified_at m db ≡ ok (false, db)
  unfolding renew_session_lease
  renews_superseded params verified_at m =
      bind_ok (verify_current_writer options verified_at) (renew_writer options params m) db false
        db (superseded verified_at)
