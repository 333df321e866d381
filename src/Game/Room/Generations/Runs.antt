-- ===== src/Game/Room/Generations/Runs.antt =====
-- A completion that a newer connection of its session has superseded.
use burning_space.Base.{
  All-of_AtMostOne, All-mono, AtMostOne, ℕ, ◌+◌, Bool, true, false, not, ◌&&◌, some, List, [], ◌∷◌,
  ◌≡◌, ◌==◌, inl, inr, arith, refl, subst, sym, Option-cases, &&-eq-true,
}
use burning_space.Persistence.Authority.{ProfileTransactionResult}
use burning_space.Persistence.SessionBinding
use burning_space.Persistence.SessionBinding.{
  Bindings, is_session, change, next_generation, set_control_allowed,
}
use burning_space.Game.Numbers.{Numbers}
use burning_space.Game.Schema.{ParticipantState}
use burning_space.Game.Messages.{JsValue}
use burning_space.Game.Room.{BattleRoom, or_else}
use burning_space.Game.Room.Ships.{neutralize_input}
use burning_space.Game.Room.Profiles.{PendingProfile, begin_profile, complete_profile, compensation}
use burning_space.Game.Room.Sessions.{begin_leave, leave_consented, leave_timed_out}
use burning_space.Game.Room.Events.{
  heartbeat_settles, reconnect_completes, reconnect_begins, lease_marked, leave_begins,
  profile_completes, profile_begins, inputs_arrive, joins, ticks, RoomSetting, RoomEvent,
  after_event, after_events, leaves, times_out,
}
use burning_space.Game.Room.Generations.{is_current_generation, finalize_session-HasPassed}
use burning_space.Persistence.SessionBinding.Passed.{
  HasPassed, begun-HasPassed, HasPassed-not_current,
}
use burning_space.Game.Room.Generations.Ticks.{update_simulation-bindings}
use burning_space.Game.Room.Generations.Handlers.{
  complete_profile-HasPassed, on_join-HasPassed, begin_reconnect-HasPassed,
  complete_reconnect-HasPassed, heartbeat_settled-HasPassed, leave_marked-HasPassed,
  begin_leave-HasPassed, begin_profile-bindings, handle_player_input-bindings, control-HasPassed,
}

module _ (F : Numbers) (setting : RoomSetting F) where
  -- Not a fresh join of the session.
  abbrev pub keeps_session : ℕ → RoomEvent F → Bool
  keeps_session session (joins world other auth wall_now) = not (other == session)
  keeps_session session _ = true

  abbrev pub keep_session : ℕ → List (RoomEvent F) → Bool
  keep_session session [] = true
  keep_session session (event ∷ events) = keeps_session session event && keep_session session events

  module _ (session bound : ℕ) where
    after_event-HasPassed :
        (event : RoomEvent F) (room after : BattleRoom F)
        → keeps_session session event ≡ true
        → HasPassed session bound room.bindings
        → after_event F setting event room ≡ some after
        → HasPassed session bound after.bindings
    unfolding after_event leave_consented leave_timed_out
    after_event-HasPassed (ticks safe delta runtime_now wall_now) room after k h e =
        subst (HasPassed session bound)
          (sym (update_simulation-bindings F setting safe delta runtime_now wall_now room after e))
          h
    after_event-HasPassed (inputs_arrive safe other monotonic_now now message) room after k h e =
        subst (HasPassed session bound)
          (sym (
            handle_player_input-bindings F setting session bound safe other monotonic_now now
              message room after e))
          h
    after_event-HasPassed (joins world other auth wall_now) room after k h e =
        subst (λ o. HasPassed session bound (or_else o room).bindings) e
          (on_join-HasPassed F setting session bound world other (setting.codes_of other) auth
            wall_now room (ground arith) h)
    after_event-HasPassed (profile_begins joined other now message) room after k h e =
        subst (λ o. HasPassed session bound (or_else o room).bindings) e
          (subst (HasPassed session bound)
            (sym (begin_profile-bindings F setting session bound joined other now message room)) h)
    after_event-HasPassed (profile_completes pending participant joined spawns safe result) room
          after k h e =
        subst (λ o. HasPassed session bound (or_else o room).bindings) e
          (complete_profile-HasPassed F setting session bound pending participant joined spawns safe
            result room h)
    after_event-HasPassed (leave_begins other) room after k h e =
        subst (λ o. HasPassed session bound (or_else o room).bindings) e
          (begin_leave-HasPassed F setting session bound other room h)
    after_event-HasPassed (leaves other) room after k h e =
        subst (λ o. HasPassed session bound (or_else o room).bindings) e
          (finalize_session-HasPassed F session bound other room h)
    after_event-HasPassed (lease_marked other lease found) room after k h e =
        subst (λ o. HasPassed session bound (or_else o room).bindings) e
          (leave_marked-HasPassed F setting session bound other lease found room h)
    after_event-HasPassed (times_out other player lease) room after k h e =
        subst (λ o. HasPassed session bound (or_else o room).bindings) e
          (finalize_session-HasPassed F session bound other room h)
    after_event-HasPassed (reconnect_begins world safe other) room after k h e =
        subst (λ o. HasPassed session bound (or_else o room).bindings) e
          (begin_reconnect-HasPassed F setting session bound world safe other room h)
    after_event-HasPassed (reconnect_completes pending answer safe) room after k h e =
        subst (λ o. HasPassed session bound (or_else o room).bindings) e
          (complete_reconnect-HasPassed F setting session bound pending answer safe room h)
    after_event-HasPassed (heartbeat_settles other lease renewed) room after k h e =
        subst (λ o. HasPassed session bound (or_else o room).bindings) e
          (heartbeat_settled-HasPassed F setting session bound other lease renewed room h)

    after_events-HasPassed :
        (events : List (RoomEvent F)) (room after : BattleRoom F)
        → keep_session session events ≡ true
        → HasPassed session bound room.bindings
        → after_events F setting events room ≡ some after
        → HasPassed session bound after.bindings
    unfolding after_events
    after_events-HasPassed [] room after k h e =
        subst (λ o. HasPassed session bound (or_else o room).bindings) e h
    after_events-HasPassed (event ∷ events) room after k h e =
        elim (Option-cases (after_event F setting event room)) [
          | inl s ↦ cc
          | inr (next, s) ↦
              let split =
                &&-eq-true (keeps_session session event) (keep_session session events) k in
              let rest : after_events F setting events next ≡ some after = ground arith in
              after_events-HasPassed events next after split.1
                (after_event-HasPassed event room next split.0 h s) rest
        ]

    begun_leave-HasPassed :
        (room : BattleRoom F)
        → HasPassed session bound room.bindings
        → HasPassed session (bound + 1) (begin_leave F session room).bindings
    unfolding begin_leave neutralize_input
    begun_leave-HasPassed room h =
        begun-HasPassed session bound (set_control_allowed session false room.bindings)
          (control-HasPassed F setting session bound session false room.bindings h)

  -- What the handler of a profile reads before its transaction.
  begin_profile-generation :
      (joined : Bool) (session now : ℕ) (message : JsValue F) (room r1 : BattleRoom F)
      (pending : PendingProfile)
      → begin_profile F setting.classes setting.profile_limit joined session now message room
        ≡ (r1, some pending)
      → (binding : SessionBinding.SessionBinding) × (SessionBinding.get session room.bindings
          ≡ some binding)
        × (pending.session_id ≡ session)
        × (pending.generation ≡ binding.connection_generation)
        × (r1.bindings ≡ room.bindings)
  unfolding begin_profile
  begin_profile-generation joined session now message room r1 pending e =
      elim (Option-cases (SessionBinding.get session room.bindings)) [
        | inl g ↦ ground (arith, g)
        | inr (binding, g) ↦ (binding, g, ground (arith, g), ground (arith, g), ground (arith, g))
      ]

  -- A profile transaction that began in a room whose bindings have at most one for the session, and
  -- that completes after the session has begun to leave, whatever the handlers did before and after
  -- that, short of a fresh join with the same identifier: it changes nothing in the room, and the
  -- lease that it acquired, if it did, is released.
  pub complete_profile-superseded :
      (joined : Bool) (session now : ℕ) (message : JsValue F) (room r1 r2 r3 : BattleRoom F)
      (pending : PendingProfile) (before later : List (RoomEvent F))
      (participant : ParticipantState) (still_joined spawns safe : Bool)
      (result : ProfileTransactionResult)
      → AtMostOne (is_session session) room.bindings
      → begin_profile F setting.classes setting.profile_limit joined session now message room
        ≡ (r1, some pending)
      → keep_session session before ≡ true
      → after_events F setting before r1 ≡ some r2
      → keep_session session later ≡ true
      → after_events F setting later (begin_leave F session r2) ≡ some r3
      → complete_profile F setting.codes_of pending participant still_joined spawns safe
          (some result)
          r3
        ≡ (r3, compensation pending.player_id result)
  unfolding complete_profile
  complete_profile-superseded joined session now message room r1 r2 r3 pending before later
        participant still_joined spawns safe result unique e k1 e1 k2 e2 =
      let (binding, found, same, generation, bindings) =
        begin_profile-generation joined session now message room r1 pending e in
      let g = binding.connection_generation in
      let started : HasPassed session g room.bindings =
        All-mono (λ b h p. ground (arith, h p)) room.bindings
          (All-of_AtMostOne (is_session session) room.bindings binding unique found) in
      let passed =
        after_events-HasPassed session (g + 1) later (begin_leave F session r2) r3 k2
          (begun_leave-HasPassed session g r2 (
            after_events-HasPassed session g before r1 r2 k1
              (subst (HasPassed session g) (sym bindings) started) e1))
          e2 in
      let stale : is_current_generation pending.session_id pending.generation r3.bindings ≡ false =
        rw same (
          rw generation
            (HasPassed-not_current session (g + 1) g r3.bindings (omega arith) passed)) in
      rw stale refl
