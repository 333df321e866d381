-- ===== src/Game/Room/Invariants/Handlers.antt =====
-- What the handlers of BattleRoom.ts do to the ships.
use burning_space.Base.{
  ℕ, Bool, true, false, Option, none, some, List, ◌≡◌, inl, inr, arith, refl, sym, subst,
  Bool-cases, Option-cases,
}
use burning_space.Base.Maps.{get, has, Values, Values-put, Values-delete, Values-get}
use burning_space.Persistence.Schema.{Faction}
use burning_space.Game.Numbers.{Numbers}
use burning_space.Game.Schema.{ShipState}
use burning_space.Game.Combat.{is_faction}
use burning_space.Game.Messages.{JsValue}
use burning_space.Game.Room.{BattleRoom, is_process_authority_safe, is_among}
use burning_space.Game.Room.Events.{RoomSetting}
use burning_space.Game.Room.Ships.{
  spawned_ship, upsert_ship, remove_ship, finalize_session, neutralize_input,
}
use burning_space.Game.Room.Tick.{TickTime, tick_time, run_tick, step_ships, update_simulation}
use burning_space.Persistence.Authority.{
  ProfileTransactionResult, spectator_accepted, player_accepted, faction_conflict, identity_taken,
  credential_invalid, writer_authority_lost,
}
use burning_space.Persistence.SessionBinding.{BindFreshSessionAuth, is_current_generation}
use burning_space.Game.Schema.{ParticipantState}
use burning_space.Game.Room.Ships.{unbound}
use burning_space.Game.Room.Profiles.{PendingProfile, settle, begin_profile, complete_profile}
use burning_space.Game.Room.Sessions.{
  PendingReconnect, on_join, begin_reconnect, complete_reconnect, heartbeat_settled,
}
use burning_space.Game.Room.Inputs.{handle_player_input}
use burning_space.Game.Room.Projectiles.{update_projectiles}
use burning_space.Game.Room.Invariants.{IsStable, step_ships_keeps, fly_keeps}

module _ {κ} (F : Numbers) (setting : RoomSetting F) (P : ShipState F → Type κ)
    (stable : IsStable F setting P) where
  run_tick_keeps :
      (time : TickTime F) (room : BattleRoom F) {after : BattleRoom F}
      → Values P room.ships
      → run_tick F setting.codes_of setting.fuel time room ≡ some after
      → Values P after.ships
  unfolding update_projectiles
  run_tick_keeps time room {after} h e =
      elim (Option-cases (step_ships F setting.codes_of setting.fuel time room.ships room)) [
        | inl s ↦ cc
        | inr (stepped, s) ↦
            let next = record stepped.1 { ships = stepped.0 } in
            let same : update_projectiles F time.wall_now time.runtime_now time.delta_seconds next
                ≡ after =
              cc in
            subst (λ r. Values P r.ships) same
              (fly_keeps F setting P stable time.wall_now time.runtime_now time.delta_seconds
                next.projectiles next
                (step_ships_keeps F setting P stable time room.ships room h s))
      ]

  pub update_simulation_keeps :
      (safe : Bool) (delta : F.Number) (runtime_now wall_now : ℕ) (room : BattleRoom F)
      {after : BattleRoom F}
      → Values P room.ships
      → update_simulation F setting.codes_of setting.fuel safe delta runtime_now wall_now room
        ≡ some after
      → Values P after.ships
  unfolding update_simulation
  update_simulation_keeps safe delta runtime_now wall_now room {after} h e =
      let checked = is_process_authority_safe F safe room in
      let ships : checked.1.ships ≡ room.ships = ground arith in
      elim (Bool-cases checked.0) [
        | inl c ↦
            let ran : run_tick F setting.codes_of setting.fuel
                  (tick_time F delta runtime_now wall_now) checked.1
                ≡ some after =
              ground arith in
            run_tick_keeps (tick_time F delta runtime_now wall_now) checked.1
              (subst (Values P) (sym ships) h) ran
        | inr c ↦
            let same : checked.1 ≡ after = ground arith in
            subst (λ r. Values P r.ships) same (subst (Values P) (sym ships) h)
      ]

  remove_ship_keeps :
      (session : ℕ) (room : BattleRoom F)
      → Values P room.ships
      → Values P (remove_ship F session room).ships
  unfolding remove_ship
  remove_ship_keeps session room h = elim (Bool-cases (has session room.ships)) [
    | inl e ↦ rw e (Values-delete P session room.ships h)
    | inr e ↦ rw e h
  ]

  upsert_ship_keeps :
      (session : ℕ) (nickname : List ℕ) (faction : Faction) (room : BattleRoom F)
      → Values P room.ships
      → Values P (upsert_ship F setting.codes_of session nickname faction room).ships
  unfolding upsert_ship
  upsert_ship_keeps session nickname faction room h =
      let spawned = spawned_ship F setting.codes_of session nickname faction in
      let fresh =
        Values-put P session spawned room.ships (stable.spawned session nickname faction) h in
      elim (Option-cases (get session room.ships)) [
        | inl e ↦ rw e fresh
        | inr (ship, e) ↦ elim (Bool-cases (is_faction ship.faction faction)) [
          | inl s ↦ rw e (
              rw s (
                Values-put P session (record ship { nickname = nickname }) room.ships
                  (stable.renamed ship nickname (Values-get P session room.ships h e)) h))
          | inr s ↦ rw e (rw s fresh)
        ]
      ]

  pub finalize_session_keeps :
      (session : ℕ) (room : BattleRoom F)
      → Values P room.ships
      → Values P (finalize_session F session room).ships
  unfolding finalize_session
  finalize_session_keeps session room h =
      elim (Bool-cases (is_among session room.finalized_sessions)) [
        | inl e ↦ rw e h
        | inr e ↦ rw e (remove_ship_keeps session (unbound F session room) h)
      ]

  pub handle_player_input-ships :
      (safe : Bool) (session monotonic_now now : ℕ) (message : JsValue F) (room : BattleRoom F)
      {after : BattleRoom F}
      → handle_player_input F setting.input_limit setting.fuel safe session monotonic_now now
          message room
        ≡ some after
      → after.ships ≡ room.ships
  unfolding handle_player_input
  handle_player_input-ships safe session monotonic_now now message room e = ground arith

  settle_keeps :
      (pending : PendingProfile) (participant : ParticipantState) (joined spawns : Bool)
      (result : ProfileTransactionResult) (room : BattleRoom F)
      → Values P room.ships
      → Values P (settle F setting.codes_of pending participant joined spawns result room).0.ships
  settle_keeps pending participant joined spawns spectator_accepted room h =
      remove_ship_keeps pending.session_id room h
  settle_keeps pending participant joined true (player_accepted faction lease) room h =
      upsert_ship_keeps pending.session_id pending.profile.nickname faction room h
  settle_keeps pending participant true false (player_accepted faction lease) room h = h
  settle_keeps pending participant false false (player_accepted faction lease) room h = h
  settle_keeps pending participant true spawns faction_conflict room h = h
  settle_keeps pending participant false spawns faction_conflict room h = h
  settle_keeps pending participant true spawns identity_taken room h = h
  settle_keeps pending participant false spawns identity_taken room h = h
  settle_keeps pending participant true spawns credential_invalid room h = h
  settle_keeps pending participant false spawns credential_invalid room h = h
  settle_keeps pending participant true spawns writer_authority_lost room h = h
  settle_keeps pending participant false spawns writer_authority_lost room h = h

  pub complete_profile_keeps :
      (pending : PendingProfile) (participant : ParticipantState) (joined spawns safe : Bool)
      (result : Option ProfileTransactionResult) (room : BattleRoom F)
      → Values P room.ships
      → Values P
          (complete_profile F setting.codes_of pending participant joined spawns safe result
            room).0.ships
  unfolding complete_profile
  complete_profile_keeps pending participant true spawns safe none room h = h
  complete_profile_keeps pending participant false spawns safe none room h = h
  complete_profile_keeps pending participant joined spawns safe (some result) room h =
      let checked = is_process_authority_safe F safe room in
      let ships : checked.1.ships ≡ room.ships = ground arith in
      let kept = subst (Values P) (sym ships) h in
      elim (Bool-cases
        (is_current_generation pending.session_id pending.generation room.bindings)) [
          | inr g ↦ rw g h
          | inl g ↦ elim (Bool-cases checked.0) [
            | inr c ↦ rw g (rw c kept)
            | inl c ↦
                rw g (rw c (settle_keeps pending participant joined spawns result checked.1 kept))
          ]
        ]

  pub on_join-ships :
      (world : Option ℕ) (session : ℕ) (codes : List ℕ) (auth : Option BindFreshSessionAuth)
      (now : ℕ) (room : BattleRoom F)
      → (on_join F world session codes auth now room).1.ships ≡ room.ships
  unfolding on_join
  on_join-ships none session codes auth now room = refl
  on_join-ships (some world) session codes none now room = refl
  on_join-ships (some world) session codes (some auth) now room = ground arith

  pub begin_reconnect-ships :
      (world : ℕ) (safe : Bool) (session : ℕ) (room : BattleRoom F)
      → (begin_reconnect F world safe session room).0.ships ≡ room.ships
  unfolding begin_reconnect
  begin_reconnect-ships world safe session room = ground arith

  pub complete_reconnect-ships :
      (pending : PendingReconnect) (answer safe : Bool) (room : BattleRoom F)
      → (complete_reconnect F pending answer safe room).room.ships ≡ room.ships
  unfolding complete_reconnect
  complete_reconnect-ships pending answer safe room = ground arith

  pub heartbeat_settled-ships :
      (session lease : ℕ) (renewed : Bool) (room : BattleRoom F)
      → (heartbeat_settled F session lease renewed room).ships ≡ room.ships
  unfolding heartbeat_settled neutralize_input
  heartbeat_settled-ships session lease renewed room = ground arith

  pub begin_profile-ships :
      (joined : Bool) (session now : ℕ) (message : JsValue F) (room : BattleRoom F)
      → (begin_profile F setting.classes setting.profile_limit joined session now message
          room).0.ships
        ≡ room.ships
  unfolding begin_profile
  begin_profile-ships joined session now message room = ground arith
