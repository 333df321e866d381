-- ===== src/Game/Room/Fence.antt =====
-- A room that has seen the loss of the process' authority.
use burning_space.Base.{
  ℕ, true, none, some, List, [], ◌∷◌, ◌≡◌, inl, inr, arith, refl, subst, sym, Bool-cases,
  Option-cases, ◌∙◌,
}
use burning_space.Base.Maps.{Values, Values-delete, has}
use burning_space.Game.Numbers.{Numbers}
use burning_space.Game.Schema.{ShipState}
use burning_space.Game.Room.{BattleRoom, is_among, or_else}
use burning_space.Game.Room.Events.{
  heartbeat_settles, reconnect_completes, reconnect_begins, times_out, lease_marked, leave_begins,
  profile_completes, profile_begins, joins, inputs_arrive, ticks, RoomSetting, RoomEvent,
  after_event, after_events, leaves,
}
use burning_space.Game.Room.Ships.{remove_ship, finalize_session, neutralize_input, unbound}
use burning_space.Game.Room.Tick.{update_simulation}
use burning_space.Game.Room.Inputs.{handle_player_input}
use burning_space.Game.Room.Profiles.{begin_profile, complete_profile}
use burning_space.Game.Room.Sessions.{
  on_join, begin_leave, leave_consented, leave_marked, leave_timed_out, begin_reconnect,
  complete_reconnect, heartbeat_settled,
}

module _ {κ} (F : Numbers) (P : ShipState F → Type κ) where
  -- The fence is down in the second room too, which has the projectiles of the first, and no ship
  -- that the first has not.
  record IsFenced (room after : BattleRoom F) : Type κ where
    lost : after.process_authority_lost ≡ true
    projectiles : after.projectiles ≡ room.projectiles
    next : after.next_projectile_id ≡ room.next_projectile_id
    ships : Values P room.ships → Values P after.ships

  IsFenced-of_same :
      (room after : BattleRoom F)
      → (after.process_authority_lost ≡ true)
        × (after.projectiles ≡ room.projectiles)
        × (after.next_projectile_id ≡ room.next_projectile_id)
        × (after.ships ≡ room.ships)
      → IsFenced room after
  IsFenced-of_same room after same = record {
    lost = same.0;
    projectiles = same.1;
    next = same.2;
    ships = subst (Values P) (sym same.3);
  }

  remove_ship-IsFenced :
      (session : ℕ) (room : BattleRoom F)
      → room.process_authority_lost ≡ true
      → IsFenced room (remove_ship F session room)
  unfolding remove_ship
  remove_ship-IsFenced session room lost = elim (Bool-cases (has session room.ships)) [
    | inl e ↦ rw e (record {
      lost = lost;
      projectiles = refl;
      next = refl;
      ships = Values-delete P session room.ships;
    })
    | inr e ↦ rw e (IsFenced-of_same room room (lost, refl, refl, refl))
  ]

  finalize_session-IsFenced :
      (session : ℕ) (room : BattleRoom F)
      → room.process_authority_lost ≡ true
      → IsFenced room (finalize_session F session room)
  unfolding finalize_session
  finalize_session-IsFenced session room lost =
      elim (Bool-cases (is_among session room.finalized_sessions)) [
        | inl e ↦ rw e (IsFenced-of_same room room (lost, refl, refl, refl))
        | inr e ↦
            let h = remove_ship-IsFenced session (unbound F session room) lost in
            rw e (record {
              lost = h.lost;
              projectiles = h.projectiles;
              next = h.next;
              ships = h.ships;
            })
      ]

  module _ (setting : RoomSetting F) where
    -- Handlers that leave the ships, the projectiles and a lost authority as they are.
    after_event-IsFenced :
        (event : RoomEvent F) (room after : BattleRoom F)
        → room.process_authority_lost ≡ true
        → after_event F setting event room ≡ some after
        → IsFenced room after
    unfolding after_event begin_leave leave_marked neutralize_input leave_consented leave_timed_out
        update_simulation handle_player_input on_join begin_profile complete_profile begin_reconnect
        complete_reconnect heartbeat_settled
    after_event-IsFenced (ticks safe delta runtime_now wall_now) room after lost e =
        IsFenced-of_same room after (ground arith)
    after_event-IsFenced (inputs_arrive safe session monotonic_now now message) room after lost e =
        IsFenced-of_same room after (ground arith)
    after_event-IsFenced (joins none session auth wall_now) room after lost e =
        IsFenced-of_same room after (ground arith)
    after_event-IsFenced (joins (some world) session none wall_now) room after lost e =
        IsFenced-of_same room after (ground arith)
    after_event-IsFenced (joins (some world) session (some auth) wall_now) room after lost e =
        IsFenced-of_same room after (ground arith)
    after_event-IsFenced (profile_begins joined session now message) room after lost e =
        IsFenced-of_same room after (ground arith)
    after_event-IsFenced (profile_completes pending participant joined spawns safe none) room after
          lost e =
        IsFenced-of_same room after (ground arith)
    after_event-IsFenced (profile_completes pending participant joined spawns safe (some result))
          room after lost e =
        IsFenced-of_same room after (ground arith)
    after_event-IsFenced (leave_begins session) room after lost e =
        IsFenced-of_same room after (ground arith)
    after_event-IsFenced (leaves session) room after lost e =
        subst (λ o. IsFenced room (or_else o room)) e (finalize_session-IsFenced session room lost)
    after_event-IsFenced (lease_marked session lease found) room after lost e =
        IsFenced-of_same room after (ground arith)
    after_event-IsFenced (times_out session player lease) room after lost e =
        subst (λ o. IsFenced room (or_else o room)) e (finalize_session-IsFenced session room lost)
    after_event-IsFenced (reconnect_begins world safe session) room after lost e =
        IsFenced-of_same room after (ground arith)
    after_event-IsFenced (reconnect_completes pending answer safe) room after lost e =
        IsFenced-of_same room after (ground arith)
    after_event-IsFenced (heartbeat_settles session lease renewed) room after lost e =
        IsFenced-of_same room after (ground arith)

    -- Once the room has seen the authority of its process lost, after any sequence of the handlers it
    -- still is lost, the projectiles are the same and none was created, and every ship is one of the
    -- ships there were, unchanged: what held of each of those holds of each that is left.
    pub after_events-fenced :
        (events : List (RoomEvent F)) (room after : BattleRoom F)
        → room.process_authority_lost ≡ true
        → Values P room.ships
        → after_events F setting events room ≡ some after
        → (after.process_authority_lost ≡ true)
          × (after.projectiles ≡ room.projectiles)
          × (after.next_projectile_id ≡ room.next_projectile_id)
          × Values P after.ships
    unfolding after_events
    after_events-fenced [] room after lost h e =
        subst
          (λ o.
            ((or_else o room).process_authority_lost ≡ true)
            × ((or_else o room).projectiles ≡ room.projectiles)
            × ((or_else o room).next_projectile_id ≡ room.next_projectile_id)
            × Values P (or_else o room).ships)
          e (lost, refl, refl, h)
    after_events-fenced (event ∷ events) room after lost h e =
        elim (Option-cases (after_event F setting event room)) [
          | inl s ↦ cc
          | inr (next, s) ↦
              let fenced = after_event-IsFenced event room next lost s in
              let rest : after_events F setting events next ≡ some after = ground arith in
              let then = after_events-fenced events next after fenced.lost (fenced.ships h) rest in
              (then.0, then.1 ∙ fenced.projectiles, then.2 ∙ fenced.next, then.3)
        ]
