-- ===== src/Game/Room/Magazine/Runs.antt =====
-- The bound on the projectiles of a session over runs of the room's handlers.
use burning_space.Base.{some, List, [], ◌∷◌, ◌≡◌, inl, inr, arith, subst, Option-cases}
use burning_space.Game.Numbers.{Numbers}
use burning_space.Game.Room.{BattleRoom, or_else}
use burning_space.Game.Room.Events.{
  heartbeat_settles, lease_marked, leave_begins, profile_completes, profile_begins, inputs_arrive,
  ticks, RoomSetting, RoomEvent, after_event, after_events, leaves, times_out, reconnect_completes,
  joins, reconnect_begins,
}
use burning_space.Game.Room.Ships.{neutralize_input}
use burning_space.Game.Room.Inputs.{handle_player_input}
use burning_space.Game.Room.Profiles.{begin_profile}
use burning_space.Game.Room.Sessions.{
  begin_leave, leave_consented, leave_marked, leave_timed_out, begin_reconnect, complete_reconnect,
  heartbeat_settled,
}
use burning_space.Game.Room.Magazine.{IsLoaded}
use burning_space.Game.Room.Magazine.Handlers.{
  update_simulation-IsLoaded, finalize_session-projectiles, complete_profile-projectiles,
  on_join-projectiles,
}

module _ (F : Numbers) (setting : RoomSetting F) where
  IsLoaded-of_same :
      (room after : BattleRoom F)
      → after.projectiles ≡ room.projectiles
      → IsLoaded F room
      → IsLoaded F after
  IsLoaded-of_same room after same h owner = rw same (h owner)

  after_event-IsLoaded :
      (event : RoomEvent F) (room after : BattleRoom F)
      → IsLoaded F room
      → after_event F setting event room ≡ some after
      → IsLoaded F after
  unfolding after_event begin_leave leave_marked neutralize_input leave_consented leave_timed_out
      handle_player_input begin_profile begin_reconnect complete_reconnect heartbeat_settled
  after_event-IsLoaded (ticks safe delta runtime_now wall_now) room after h e =
      update_simulation-IsLoaded F setting safe delta runtime_now wall_now room after h e
  after_event-IsLoaded (inputs_arrive safe session monotonic_now now message) room after h e =
      IsLoaded-of_same room after (ground arith) h
  after_event-IsLoaded (joins world session auth wall_now) room after h e =
      let kept =
        on_join-projectiles F setting world session (setting.codes_of session) auth wall_now room in
      IsLoaded-of_same room after (ground arith) h
  after_event-IsLoaded (profile_begins joined session now message) room after h e =
      IsLoaded-of_same room after (ground arith) h
  after_event-IsLoaded (profile_completes pending participant joined spawns safe result) room after
        h e =
      let kept =
        complete_profile-projectiles F setting pending participant joined spawns safe result room in
      IsLoaded-of_same room after (ground arith) h
  after_event-IsLoaded (leave_begins session) room after h e =
      IsLoaded-of_same room after (ground arith) h
  after_event-IsLoaded (leaves session) room after h e =
      let kept = finalize_session-projectiles F setting session room in
      IsLoaded-of_same room after (ground arith) h
  after_event-IsLoaded (lease_marked session lease found) room after h e =
      IsLoaded-of_same room after (ground arith) h
  after_event-IsLoaded (times_out session player lease) room after h e =
      let kept = finalize_session-projectiles F setting session room in
      IsLoaded-of_same room after (ground arith) h
  after_event-IsLoaded (reconnect_begins world safe session) room after h e =
      IsLoaded-of_same room after (ground arith) h
  after_event-IsLoaded (reconnect_completes pending answer safe) room after h e =
      IsLoaded-of_same room after (ground arith) h
  after_event-IsLoaded (heartbeat_settles session lease renewed) room after h e =
      IsLoaded-of_same room after (ground arith) h

  -- After any sequence of the room's handlers no session has more than ten active projectiles, if
  -- none has at the start.
  pub after_events-IsLoaded :
      (events : List (RoomEvent F)) (room after : BattleRoom F)
      → IsLoaded F room
      → after_events F setting events room ≡ some after
      → IsLoaded F after
  unfolding after_events
  after_events-IsLoaded [] room after h e = subst (λ o. IsLoaded F (or_else o room)) e h
  after_events-IsLoaded (event ∷ events) room after h e =
      elim (Option-cases (after_event F setting event room)) [
        | inl s ↦ cc
        | inr (next, s) ↦
            let rest : after_events F setting events next ≡ some after = ground arith in
            after_events-IsLoaded events next after (after_event-IsLoaded event room next h s) rest
      ]
