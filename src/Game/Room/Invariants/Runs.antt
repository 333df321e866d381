-- ===== src/Game/Room/Invariants/Runs.antt =====
-- Stable properties of ships over runs of the room's handlers.
use burning_space.Base.{ap, some, List, [], ◌∷◌, ◌≡◌, inl, inr, arith, sym, subst, Option-cases}
use burning_space.Base.Maps.{Values}
use burning_space.Game.Numbers.{Numbers}
use burning_space.Game.Schema.{ShipState}
use burning_space.Game.Room.{or_else, BattleRoom}
use burning_space.Game.Room.Events.{
  heartbeat_settles, reconnect_completes, reconnect_begins, times_out, lease_marked, leaves,
  leave_begins, profile_completes, profile_begins, joins, inputs_arrive, ticks, RoomSetting,
  RoomEvent, after_event, after_events,
}
use burning_space.Game.Room.Ships.{neutralize_input}
use burning_space.Game.Room.Sessions.{begin_leave, leave_consented, leave_marked, leave_timed_out}
use burning_space.Game.Room.Invariants.{IsStable}
use burning_space.Game.Room.Invariants.Handlers.{
  update_simulation_keeps, finalize_session_keeps, handle_player_input-ships,
  complete_profile_keeps, on_join-ships, begin_reconnect-ships, complete_reconnect-ships,
  heartbeat_settled-ships, begin_profile-ships,
}

module _ {κ} (F : Numbers) (setting : RoomSetting F) (P : ShipState F → Type κ)
    (stable : IsStable F setting P) where
  after_event_keeps :
      (event : RoomEvent F) (room : BattleRoom F) {after : BattleRoom F}
      → Values P room.ships
      → after_event F setting event room ≡ some after
      → Values P after.ships
  unfolding after_event begin_leave leave_marked neutralize_input leave_consented leave_timed_out
  after_event_keeps (ticks safe delta runtime_now wall_now) room h e =
      update_simulation_keeps F setting P stable safe delta runtime_now wall_now room h e
  after_event_keeps (inputs_arrive safe session monotonic_now now message) room h e =
      subst (Values P)
        (sym (
          handle_player_input-ships F setting P stable safe session monotonic_now now message room
            e))
        h
  after_event_keeps (joins world session auth wall_now) room {after} h e =
      let ships =
        on_join-ships F setting P stable world session (setting.codes_of session) auth wall_now
          room in
      let same : room.ships ≡ after.ships = ground arith in subst (Values P) same h
  after_event_keeps (profile_begins joined session now message) room {after} h e =
      let ships = begin_profile-ships F setting P stable joined session now message room in
      let same : room.ships ≡ after.ships = ground arith in subst (Values P) same h
  after_event_keeps (profile_completes pending participant joined spawns safe result) room {after} h
        e =
      subst (Values P) (ap (λ o. (or_else o room).ships) e) (
        complete_profile_keeps F setting P stable pending participant joined spawns safe result room
          h)
  after_event_keeps (leave_begins session) room {after} h e =
      subst (Values P) (ap (λ o. (or_else o room).ships) e) h
  after_event_keeps (leaves session) room {after} h e =
      subst (Values P) (ap (λ o. (or_else o room).ships) e)
        (finalize_session_keeps F setting P stable session room h)
  after_event_keeps (lease_marked session lease found) room {after} h e =
      subst (Values P) (ap (λ o. (or_else o room).ships) e) h
  after_event_keeps (times_out session player lease) room {after} h e =
      subst (Values P) (ap (λ o. (or_else o room).ships) e)
        (finalize_session_keeps F setting P stable session room h)
  after_event_keeps (reconnect_begins world safe session) room {after} h e =
      let ships = begin_reconnect-ships F setting P stable world safe session room in
      let same : room.ships ≡ after.ships = ground arith in subst (Values P) same h
  after_event_keeps (reconnect_completes pending answer safe) room {after} h e =
      let ships = complete_reconnect-ships F setting P stable pending answer safe room in
      let same : room.ships ≡ after.ships = ground arith in subst (Values P) same h
  after_event_keeps (heartbeat_settles session lease renewed) room {after} h e =
      let ships = heartbeat_settled-ships F setting P stable session lease renewed room in
      let same : room.ships ≡ after.ships = ground arith in subst (Values P) same h

  pub after_events_keeps :
      (events : List (RoomEvent F)) (room : BattleRoom F) {after : BattleRoom F}
      → Values P room.ships
      → after_events F setting events room ≡ some after
      → Values P after.ships
  unfolding after_events
  after_events_keeps [] room h e = subst (λ o. Values P (or_else o room).ships) e h
  after_events_keeps (event ∷ events) room {after} h e =
      elim (Option-cases (after_event F setting event room)) [
        | inl s ↦ cc
        | inr (next, s) ↦
            let rest : after_events F setting events next ≡ some after = ground arith in
            after_events_keeps events next (after_event_keeps event room h s) rest
      ]
