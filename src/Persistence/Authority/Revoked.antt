-- ===== src/Persistence/Authority/Revoked.antt =====
-- A credential that is not active opens nothing and leaves no trace.
use burning_space.Base.{
  ap, Bool-cases, Option, ◌∙◌, ℕ, ◌≡◌, ◌⊎◌, refl, false, true, none, some, inl, inr, Option-cases,
  find_where,
}
use burning_space.Persistence.Schema.{Faction, Db}
use burning_space.Persistence.Transaction.{return, ok, Result}
use burning_space.Persistence.Players.{is_player, lock_player}
use burning_space.Persistence.Worlds.{world_of, is_verified, lock_and_verify_current_writer}
use burning_space.Persistence.Credentials.{
  is_pair, is_present_unrevoked, lock_active_credential_for_player,
}
use burning_space.Persistence.Credentials.Revocation.{after_revocation, after_revocation_lem}
use burning_space.Persistence.Authority.{
  PlayerRow, AuthorityOptions, ApplyProfileContext, ProfileMoment, ProfileTransactionResult,
  apply_player_profile, apply_spectator_profile, verify_current_writer, lock_profile_prefix,
  prefix_writer, prefix_player, prefix_credential, writer_authority_lost, credential_invalid,
  writer_gone, credential_gone, player_after_prefix, spectator_result,
}
use burning_space.Persistence.Authority.Superseded.{bind_ok}

-- The answer says why, and the tables are as they were.
abbrev pub IsRefused : Result (ProfileTransactionResult × Db) → Db → Type 0
IsRefused answer db =
    (answer ≡ ok (writer_authority_lost, db)) ⊎ (answer ≡ ok (credential_invalid, db))

module _ (options : AuthorityOptions) (context : ApplyProfileContext) (db : Db)
    (inactive : is_present_unrevoked
        (find_where (is_pair context.player_id context.credential_id) db.credentials)
      ≡ false) where
  verified_or_not :
      (now : ℕ)
      → (verify_current_writer options now db ≡ ok (false, db))
        ⊎ (verify_current_writer options now db ≡ ok (true, db))
  unfolding verify_current_writer lock_and_verify_current_writer
  verified_or_not now = elim (Option-cases (world_of options.world_id db)) [
    | inl absent ↦ inl (rw (absent, verify_current_writer, lock_and_verify_current_writer) refl)
    | inr (row, found) ↦
        elim (Bool-cases (is_verified options.server_instance_id options.writer_epoch now row)) [
          | inl current ↦
              inr (rw (found, verify_current_writer, lock_and_verify_current_writer, current) refl)
          | inr stale ↦
              inl (rw (found, verify_current_writer, lock_and_verify_current_writer, stale) refl)
        ]
  ]

  player_refused :
      (o : Option PlayerRow) → prefix_player options context o db ≡ ok (credential_gone, db)
  unfolding prefix_player prefix_credential lock_active_credential_for_player
  player_refused none = refl
  player_refused (some player) =
      bind_ok (lock_active_credential_for_player context.player_id context.credential_id)
        (prefix_credential options context) db false db (ap (λ b. ok (b, db)) inactive)

  prefix_refused :
      (now : ℕ)
      → (lock_profile_prefix options context now db ≡ ok (writer_gone, db))
        ⊎ (lock_profile_prefix options context now db ≡ ok (credential_gone, db))
  unfolding lock_profile_prefix prefix_writer lock_player
  prefix_refused now = elim (verified_or_not now) [
    | inl lost ↦ inl (
        bind_ok (verify_current_writer options now) (prefix_writer options context) db false db
          lost)
    | inr held ↦ inr (
        bind_ok (verify_current_writer options now) (prefix_writer options context) db true db held
        ∙ player_refused (find_where (is_player context.player_id) db.players))
  ]

  plays-IsRefused :
      (faction : Faction) (m : ProfileMoment)
      → IsRefused (apply_player_profile options context faction m db) db
  unfolding apply_player_profile player_after_prefix
  plays-IsRefused faction m = elim (prefix_refused m.verified_at) [
    | inl lost ↦ inl (
        bind_ok (lock_profile_prefix options context m.verified_at)
          (player_after_prefix options context faction m) db writer_gone db lost)
    | inr gone ↦ inr (
        bind_ok (lock_profile_prefix options context m.verified_at)
          (player_after_prefix options context faction m) db credential_gone db gone)
  ]

  spectates-IsRefused : (now : ℕ) → IsRefused (apply_spectator_profile options context now db) db
  unfolding apply_spectator_profile spectator_result
  spectates-IsRefused now = elim (prefix_refused now) [
    | inl lost ↦ inl (
        bind_ok (lock_profile_prefix options context now)
          (λ prefix. return (spectator_result options prefix)) db writer_gone db lost)
    | inr gone ↦ inr (
        bind_ok (lock_profile_prefix options context now)
          (λ prefix. return (spectator_result options prefix)) db credential_gone db gone)
  ]

-- After a revocation of a player's credential, whatever it found, applying a profile with that
-- credential, as a player or a spectator, by any process and at any time, is refused: it answers that
-- the credential is invalid, or that the writer's authority is lost, and changes no table, the display
-- name included.
pub profile-after_revocation :
    (options : AuthorityOptions) (context : ApplyProfileContext) (faction : Faction)
    (m : ProfileMoment) (revoked_at released_at now : ℕ) (db : Db)
    → IsRefused
        (apply_player_profile options context faction m
          (after_revocation context.player_id context.credential_id revoked_at released_at db))
        (after_revocation context.player_id context.credential_id revoked_at released_at db)
      × IsRefused
          (apply_spectator_profile options context now
            (after_revocation context.player_id context.credential_id revoked_at released_at db))
          (after_revocation context.player_id context.credential_id revoked_at released_at db)
profile-after_revocation options context faction m revoked_at released_at now db = (
  plays-IsRefused options context _
      (after_revocation_lem context.player_id context.credential_id revoked_at released_at db)
      faction m,
  spectates-IsRefused options context _
      (after_revocation_lem context.player_id context.credential_id revoked_at released_at db) now,
)
