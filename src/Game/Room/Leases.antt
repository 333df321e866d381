-- ===== src/Game/Room/Leases.antt =====
-- What becomes of the lease that a profile transaction acquired.
use burning_space.Base.{
  ℕ, Bool, true, none, some, List, [], ◌∷◌, ◌≡◌, ◌⊎◌, inl, inr, arith, refl, Bool-cases,
  Option-cases,
}
use burning_space.Base.Maps.{get, get-put_same}
use burning_space.Persistence.Schema.{Faction, red, blue}
use burning_space.Persistence.Authority.{player_accepted}
use burning_space.Persistence.SessionBinding
use burning_space.Persistence.SessionBinding.{
  SessionBinding, active, is_current_generation, set_lease,
}
use burning_space.Game.Numbers.{Numbers}
use burning_space.Game.Schema.{ParticipantState, ShipState}
use burning_space.Game.Combat.{is_faction}
use burning_space.Game.Room.{BattleRoom, is_process_authority_safe}
use burning_space.Game.Room.Ships.{spawned_ship, upsert_ship}
use burning_space.Game.Room.Profiles.{
  PendingProfile, release_session_lease, settle, complete_profile,
}
use burning_space.Game.Room.Generations.{upsert_ship-bindings}
use burning_space.Game.Room.Reconnects.{get-change}

module _ (F : Numbers) where
  -- The session has a ship of the faction, and its binding the lease, as an active one.
  abbrev pub IsHolding : ℕ → Faction → ℕ → BattleRoom F → Type 0
  IsHolding session faction lease room =
      (ship : ShipState F) × (binding : SessionBinding) × (get session room.ships ≡ some ship)
      × (is_faction ship.faction faction ≡ true)
      × (SessionBinding.get session room.bindings ≡ some binding)
      × (binding.lease_id ≡ some lease)
      × (binding.lease_status ≡ some active)

  is_faction_refl : (faction : Faction) → is_faction faction faction ≡ true
  is_faction_refl red = refl
  is_faction_refl blue = refl

  upsert_ship-get :
      (codes_of : ℕ → List ℕ) (session : ℕ) (nickname : List ℕ) (faction : Faction)
      (room : BattleRoom F)
      → (ship : ShipState F) × (get session
            (upsert_ship F codes_of session nickname faction room).ships
          ≡ some ship)
        × (is_faction ship.faction faction ≡ true)
  unfolding upsert_ship
  upsert_ship-get codes_of session nickname faction room =
      let spawned = spawned_ship F codes_of session nickname faction in
      let here = λ (ship : ShipState F). get-put_same session ship room.ships in
      elim (Option-cases (get session room.ships)) [
        | inl e ↦ rw e (spawned, here spawned, is_faction_refl faction)
        | inr (ship, e) ↦ elim (Bool-cases (is_faction ship.faction faction)) [
          | inl s ↦ rw e (
              rw s (
                record ship { nickname = nickname },
                here (record ship { nickname = nickname }),
                s,
              ))
          | inr s ↦ rw e (rw s (spawned, here spawned, is_faction_refl faction))
        ]
      ]

  current-found :
      (session generation : ℕ) (room : BattleRoom F)
      → is_current_generation session generation room.bindings ≡ true
      → (binding : SessionBinding) × (SessionBinding.get session room.bindings ≡ some binding)
  current-found session generation room e =
      elim (Option-cases (SessionBinding.get session room.bindings)) [
        | inl g ↦ ground arith
        | inr found ↦ found
      ]

  settle-player :
      (codes_of : ℕ → List ℕ) (pending : PendingProfile) (participant : ParticipantState)
      (joined : Bool) (faction : Faction) (lease : ℕ) (room : BattleRoom F)
      (binding : SessionBinding)
      → SessionBinding.get pending.session_id room.bindings ≡ some binding
      → IsHolding pending.session_id faction lease
          (settle F codes_of pending participant joined true (player_accepted faction lease) room).0
  settle-player codes_of pending participant joined faction lease room binding found =
      let (ship, there, same) =
        upsert_ship-get codes_of pending.session_id pending.profile.nickname faction room in
      let kept =
        upsert_ship-bindings F codes_of pending.session_id pending.profile.nickname faction room in
      let held = record binding { lease_id = some lease; lease_status = some active } in
      (
        ship,
        held,
        there,
        same,
        rw kept (
            get-change pending.session_id
              (λ b. record b { lease_id = some lease; lease_status = some active }) room.bindings
              binding (λ b. refl) found),
        refl,
        refl,
      )

  answered :
      (codes_of : ℕ → List ℕ) (pending : PendingProfile) (participant : ParticipantState)
      (joined spawns safe : Bool) (faction : Faction) (lease : ℕ) (room : BattleRoom F)
      → let done =
          complete_profile F codes_of pending participant joined spawns safe
            (some (player_accepted faction lease))
            room in
        ((done.1 ≡ []) × IsHolding pending.session_id faction lease done.0)
        ⊎ (done.1 ≡ release_session_lease pending.player_id lease ∷ [])
  unfolding complete_profile
  answered codes_of pending participant joined spawns safe faction lease room =
      let checked = is_process_authority_safe F safe room in
      let bindings : checked.1.bindings ≡ room.bindings = ground arith in
      elim (Bool-cases
        (is_current_generation pending.session_id pending.generation room.bindings)) [
          | inr g ↦ rw g (inr refl)
          | inl g ↦
              let (binding, found) = current-found pending.session_id pending.generation room g in
              elim (Bool-cases checked.0) [
                | inr c ↦ rw g (rw c (inr refl))
                | inl c ↦ elim (Bool-cases spawns) [
                  | inr s ↦ rw g (rw c (rw s (inr refl)))
                  | inl s ↦ rw g (
                      rw c (
                        rw s (
                          inl (
                            refl,
                            settle-player codes_of pending participant joined faction lease
                                checked.1 binding (rw bindings found),
                          ))))
                ]
              ]
        ]

  -- When a profile transaction has answered that it acquired a lease, then at its completion either
  -- the session's binding has that lease as its active one and the session a ship of the durable
  -- faction, or the lease is released and nothing else is. When it gave no answer, as when that to
  -- its COMMIT was lost, the bindings and the ships stay as they are and nothing is released.
  pub complete_profile-lease :
      (codes_of : ℕ → List ℕ) (pending : PendingProfile) (participant : ParticipantState)
      (joined spawns safe : Bool) (faction : Faction) (lease : ℕ) (room : BattleRoom F)
      → let done =
          complete_profile F codes_of pending participant joined spawns safe
            (some (player_accepted faction lease))
            room in
        let unanswered =
          complete_profile F codes_of pending participant joined spawns safe none room in
        (((done.1 ≡ []) × IsHolding pending.session_id faction lease done.0)
          ⊎ (done.1 ≡ release_session_lease pending.player_id lease ∷ []))
        × (unanswered.1 ≡ [])
        × (unanswered.0.bindings ≡ room.bindings)
        × (unanswered.0.ships ≡ room.ships)
  unfolding complete_profile
  complete_profile-lease codes_of pending participant joined spawns safe faction lease room = (
    answered codes_of pending participant joined spawns safe faction lease room,
    refl,
    ground arith,
    ground arith,
  )
