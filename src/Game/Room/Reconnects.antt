-- ===== src/Game/Room/Reconnects.antt =====
-- What a session that comes back has to show before it controls its ship again.
use burning_space.Base.{
  ◌∙◌, ℕ, ◌+◌, Bool, true, false, none, some, [], ◌≡◌, arith, ap, refl, find_where-update_where,
  Bool-cases, ◌⊎◌, Option-cases, inl, inr, find_where_holds,
}
use burning_space.Base.Maps.{get}
use burning_space.Persistence.SessionBinding
use burning_space.Persistence.SessionBinding.{
  SessionBinding, Bindings, is_session, recovering, is_current_generation, is_control_allowed,
  set_lease, clear_lease, change, next_generation, set_control_allowed, has_generation,
}
use burning_space.Game.Numbers.{Numbers}
use burning_space.Game.Room.{BattleRoom}
use burning_space.Game.Room.Inputs.{is_player_in}
use burning_space.Game.Room.Sessions.{
  ReconnectQuery, resume_lease, PendingReconnect, revalidate_credential, leave_marked,
  begin_reconnect, complete_reconnect, pending_of, is_recovering,
}

-- The lookups of the session that a change of its binding leaves.
pub get-change :
    (session : ℕ) (f : SessionBinding → SessionBinding) (bindings : Bindings) (b : SessionBinding)
    → ((c : SessionBinding) → (f c).session_id ≡ c.session_id)
    → SessionBinding.get session bindings ≡ some b
    → SessionBinding.get session (change session f bindings) ≡ some (f b)
get-change session f bindings b key found =
    find_where-update_where (is_session session) (is_session session) f bindings
      (λ c. ground (arith, key c))
    ∙ rw found (rw (find_where_holds (is_session session) bindings found) refl)

-- The question of a reconnection: for the credential if the binding has no lease, and otherwise the
-- resumption of its lease, which is recovering.
abbrev pub AsksOf : SessionBinding → Bool → ReconnectQuery → Type 0
AsksOf binding is_player query =
    ((binding.lease_id ≡ none) × (query ≡ revalidate_credential))
    ⊎ ((lease : ℕ) × (binding.lease_id ≡ some lease)
        × (is_recovering binding.lease_status ≡ true)
        × (query ≡ resume_lease lease is_player))

module _ (F : Numbers) where
  -- A reconnection that opens control again, whether its binding had a lease or not, did so for the
  -- generation that it began itself, with the writer's authority safe before and after the question,
  -- and with the answer that it had asked for. The question named the lease of the binding, if it had
  -- one, which was recovering then; without a lease it was for the credential.
  pub reconnect-reopened :
      (world : ℕ) (safe answer safe_later : Bool) (session : ℕ) (room r1 r2 : BattleRoom F)
      (binding : SessionBinding) (pending : PendingReconnect)
      → SessionBinding.get session room.bindings ≡ some binding
      → begin_reconnect F world safe session room ≡ (r1, some pending)
      → (complete_reconnect F pending answer safe_later r2).reopened ≡ true
      → (AsksOf binding (is_player_in (get session room.participants)) pending.query)
        × (answer ≡ true)
        × (safe ≡ true)
        × (safe_later ≡ true)
        × (is_current_generation session (binding.connection_generation + 1) r2.bindings ≡ true)
  unfolding begin_reconnect complete_reconnect
  reconnect-reopened world safe answer safe_later session room r1 r2 binding pending found e
        reopened =
      elim (Option-cases binding.lease_id) [
        | inl n ↦
            let asked : pending.query ≡ revalidate_credential = ground (arith, found, n) in
            (
              inl (n, asked),
              ground (arith, found, n, asked),
              ground (arith, found),
              ground (arith, found, asked),
              ground (arith, found),
            )
        | inr (lease, l) ↦ elim (Bool-cases (is_recovering binding.lease_status)) [
          | inr s ↦ ground (arith, found, l, s)
          | inl s ↦
              let asked : pending.query
                  ≡ resume_lease lease (is_player_in (get session room.participants)) =
                ground (arith, found, l, s) in
              (
                inr (lease, l, s, asked),
                ground (arith, found, l, asked),
                ground (arith, found),
                ground (arith, found, asked),
                ground (arith, found),
              )
        ]
      ]

  -- When markSessionRecovering has not found the lease of a session that left, the session comes back
  -- like one that never had a lease: a reconnection while the authority is safe asks for nothing but
  -- its credential, and once that is confirmed it controls its ship again, without any lease.
  pub reconnect-without_lease :
      (world lease : ℕ) (session : ℕ) (room : BattleRoom F) (binding : SessionBinding)
      → SessionBinding.get session room.bindings ≡ some binding
      → binding.world_id ≡ world
      → (r1 : BattleRoom F) × (pending : PendingReconnect) × (begin_reconnect F world true session
            (leave_marked F session lease false room)
          ≡ (r1, some pending))
        × (pending.query ≡ revalidate_credential)
        × ((complete_reconnect F pending true true r1).reopened ≡ true)
        × (after : SessionBinding) × (SessionBinding.get session
              (complete_reconnect F pending true true r1).room.bindings
            ≡ some after)
        × (after.control_allowed ≡ true)
        × (after.lease_id ≡ none)
  unfolding begin_reconnect complete_reconnect leave_marked
  reconnect-without_lease world lease session room binding found same =
      let cleared = record binding { lease_id = none; lease_status = none } in
      let b1 = clear_lease session room.bindings in
      let f1 : SessionBinding.get session b1 ≡ some cleared =
        get-change session (λ b. record b { lease_id = none; lease_status = none }) room.bindings
          binding (λ b. refl) found in
      let begun = next_generation cleared in
      let b2 = change session next_generation b1 in
      let f2 : SessionBinding.get session b2 ≡ some begun =
        get-change session next_generation b1 cleared (λ b. refl) f1 in
      let opened = record begun { control_allowed = true } in
      let f3 : SessionBinding.get session (set_control_allowed session true b2) ≡ some opened =
        get-change session (λ b. record b { control_allowed = true }) b2 begun (λ b. refl) f2 in
      let r1 = record room { bindings = b2 } in
      let pending = pending_of F session cleared (get session room.participants) in
      let begins : begin_reconnect F world true session (leave_marked F session lease false room)
          ≡ (r1, some pending) =
        ground (arith, f1, same) in
      let completed : complete_reconnect F pending true true r1 ≡ record {
        reopened = true;
        room = record r1 { bindings = set_control_allowed session true b2 };
        effects = [];
      } =
        ground (arith, f2) in
      (
        r1,
        pending,
        begins,
        refl,
        ap (λ r. r.reopened) completed,
        opened,
        rw completed f3,
        refl,
        refl,
      )
