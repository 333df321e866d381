-- ===== src/Game/Room/Generations.antt =====
-- The generations of a session's connection over runs of the room's handlers.
pub mod Ticks
pub mod Handlers
pub mod Runs
use burning_space.Base.{
  ℕ, ◌+◌, ◌++◌, Bool, true, false, not, Option, none, some, List, [], ◌∷◌, ◌≡◌, ◌≢◌, ◌≤◌, ◌==◌, inl,
  inr, arith, ap, refl, subst, sym, All, Bool-cases, Option-cases, All-update_where, is_some,
  if◌then◌else◌,
}
use burning_space.Base.Maps.{has, get}
use burning_space.Persistence.Schema.{Faction}
use burning_space.Persistence.Authority.{
  ProfileTransactionResult, spectator_accepted, player_accepted, faction_conflict, identity_taken,
  credential_invalid, writer_authority_lost,
}
use burning_space.Persistence.SessionBinding
use burning_space.Persistence.SessionBinding.{
  SessionBinding, Bindings, is_session, change, without, next_generation, BindFreshSessionAuth,
  bind_fresh_session, fresh_binding, set_lease, clear_lease, active, is_current_generation,
  has_generation,
}
use burning_space.Persistence.SessionBinding.Passed.{HasPassed, change-HasPassed, without-HasPassed}
use burning_space.Game.Numbers.{Numbers}
use burning_space.Game.Schema.{ParticipantState}
use burning_space.Game.Messages.{JsValue}
use burning_space.Game.Combat.{is_faction}
use burning_space.Game.Room.{BattleRoom, is_process_authority_safe, is_among, or_else}
use burning_space.Game.Room.Ships.{
  remove_ship, upsert_ship, finalize_session, neutralize_input, unbound,
}
use burning_space.Game.Room.Profiles.{PendingProfile, settle, complete_profile}

module _ (F : Numbers) where
  pub remove_ship-bindings :
      (session : ℕ) (room : BattleRoom F) → (remove_ship F session room).bindings ≡ room.bindings
  unfolding remove_ship
  remove_ship-bindings session room = ground arith

  pub upsert_ship-bindings :
      (codes_of : ℕ → List ℕ) (session : ℕ) (nickname : List ℕ) (faction : Faction)
      (room : BattleRoom F)
      → (upsert_ship F codes_of session nickname faction room).bindings ≡ room.bindings
  unfolding upsert_ship
  upsert_ship-bindings codes_of session nickname faction room =
      elim (Option-cases (get session room.ships)) [
        | inl e ↦ rw e refl
        | inr (ship, e) ↦ elim (Bool-cases (is_faction ship.faction faction)) [
          | inl s ↦ rw e (rw s refl)
          | inr s ↦ rw e (rw s refl)
        ]
      ]

  module _ (session bound : ℕ) where
    pub finalize_session-HasPassed :
        (other : ℕ) (room : BattleRoom F)
        → HasPassed session bound room.bindings
        → HasPassed session bound (finalize_session F other room).bindings
    unfolding finalize_session
    finalize_session-HasPassed other room h =
        elim (Bool-cases (is_among other room.finalized_sessions)) [
          | inl e ↦ rw e h
          | inr e ↦ rw e (
              subst (HasPassed session bound)
                (sym (remove_ship-bindings other (unbound F other room)))
                (without-HasPassed session bound other room.bindings h))
        ]

    set_lease-HasPassed :
        (other lease : ℕ) (bindings : Bindings)
        → HasPassed session bound bindings
        → HasPassed session bound (set_lease other lease active bindings)
    set_lease-HasPassed other lease bindings =
        change-HasPassed session bound other
          (λ b. record b { lease_id = some lease; lease_status = some active }) bindings (λ b. refl)
          (λ b. omega arith)

    pub clear_lease-HasPassed :
        (other : ℕ) (bindings : Bindings)
        → HasPassed session bound bindings
        → HasPassed session bound (clear_lease other bindings)
    clear_lease-HasPassed other bindings =
        change-HasPassed session bound other
          (λ b. record b { lease_id = none; lease_status = none }) bindings (λ b. refl)
          (λ b. omega arith)
