-- ===== src/Persistence/History.antt =====
-- Histories of the database: any sequence of the transactions that the server's processes run, each
-- with the options of the process that runs it.
pub mod Kept
pub mod Keeps
pub mod Constraints
pub mod Epochs
pub mod Members
pub mod Superseded
pub mod Takeovers
use burning_space.Base.{ℕ, Bool, List, [], ◌∷◌}
use burning_space.Persistence.Schema.{Faction, Db, Moment}
use burning_space.Persistence.Transaction.{run_transaction}
use burning_space.Persistence.Players.{create_player}
use burning_space.Persistence.Worlds.{claim_world_writer, renew_world_writer, release_world_writer}
use burning_space.Persistence.Credentials.{insert_credential, revoke_credential, rotate_credential}
use burning_space.Persistence.Authority.{
  AuthorityOptions, ApplyProfileContext, ProfileMoment, LeaseSessionParams, apply_player_profile,
  apply_spectator_profile, mark_session_recovering, resume_recovering_session,
  release_session_lease, renew_session_lease,
}

pub data DbCall : Type 0 where
  plays : AuthorityOptions → ApplyProfileContext → Faction → ProfileMoment → DbCall
  spectates : AuthorityOptions → ApplyProfileContext → ℕ → DbCall
  marks : AuthorityOptions → LeaseSessionParams → ℕ → DbCall
  resumes : AuthorityOptions → LeaseSessionParams → Bool → ℕ → ℕ → DbCall
  releases : AuthorityOptions → ℕ → ℕ → ℕ → DbCall
  renews : AuthorityOptions → LeaseSessionParams → ℕ → Moment → DbCall
  claims : ℕ → ℕ → Moment → ℕ → DbCall
  renews_writer : ℕ → ℕ → ℕ → Moment → DbCall
  releases_writer : ℕ → ℕ → ℕ → DbCall
  creates_player : ℕ → DbCall
  inserts_credential : ℕ → ℕ → ℕ → DbCall
  revokes : ℕ → ℕ → ℕ → ℕ → DbCall
  rotates : ℕ → ℕ → ℕ → ℕ → ℕ → ℕ → DbCall

-- The tables after the call, whether it returns or throws.
pub step : DbCall → Db → Db
step (plays o context faction m) db =
    (run_transaction (apply_player_profile o context faction m) db).1
step (spectates o context now) db = (run_transaction (apply_spectator_profile o context now) db).1
step (marks o params now) db = (run_transaction (mark_session_recovering o params now) db).1
step (resumes o params required verified_at now) db =
    (run_transaction (resume_recovering_session o params required verified_at now) db).1
step (releases o player lease now) db =
    (run_transaction (release_session_lease o player lease now) db).1
step (renews o params verified_at m) db =
    (run_transaction (renew_session_lease o params verified_at m) db).1
step (claims world instance_id m db_time) db =
    (run_transaction (claim_world_writer world instance_id m db_time) db).1
step (renews_writer world instance_id epoch m) db =
    (run_transaction (renew_world_writer world instance_id epoch m) db).1
step (releases_writer world instance_id epoch) db =
    (run_transaction (release_world_writer world instance_id epoch) db).1
step (creates_player fresh) db = (run_transaction (create_player fresh) db).1
step (inserts_credential fresh player hash) db =
    (run_transaction (insert_credential fresh player hash) db).1
step (revokes player credential now released_at) db =
    (run_transaction (revoke_credential player credential now released_at) db).1
step (rotates player credential hash fresh now released_at) db =
    (run_transaction (rotate_credential player credential hash fresh now released_at) db).1

pub run : List DbCall → Db → Db
run [] db = db
run (call ∷ calls) db = run calls (step call db)
