-- ===== src/Game/Room/Magazine/Handlers.antt =====
-- What the handlers of BattleRoom.ts do to the number of the projectiles of a session.
use burning_space.Base.{
  ℕ, Bool, true, false, Option, none, some, List, [], ◌∷◌, ◌≡◌, inl, inr, arith, refl, subst,
  Bool-cases, Option-cases,
}
use burning_space.Base.Maps.{Map, get}
use burning_space.Persistence.Schema.{Faction}
use burning_space.Persistence.Authority.{
  ProfileTransactionResult, spectator_accepted, player_accepted, faction_conflict, identity_taken,
  credential_invalid, writer_authority_lost,
}
use burning_space.Persistence.SessionBinding.{BindFreshSessionAuth}
use burning_space.Game.Numbers.{Numbers}
use burning_space.Game.Schema.{ShipState, ParticipantState}
use burning_space.Game.Combat.{is_faction}
use burning_space.Game.Movement.{simulate_ship_movement}
use burning_space.Game.Room.{BattleRoom, is_process_authority_safe}
use burning_space.Game.Room.Events.{RoomSetting}
use burning_space.Game.Room.Ships.{remove_ship, upsert_ship, finalize_session}
use burning_space.Game.Room.Profiles.{PendingProfile, settle, complete_profile}
use burning_space.Game.Room.Sessions.{on_join}
use burning_space.Game.Room.Projectiles.{fly, update_projectiles}
use burning_space.Game.Room.Tick.{
  TickTime, tick_time, get_runtime_input, step_ship, step_ships, run_tick, update_simulation,
}
use burning_space.Game.Room.Magazine.{
  try_fire_projectile, IsLoaded, try_fire_projectile-IsLoaded, count_active-delete_all,
  count_active-fly,
}

module _ (F : Numbers) (setting : RoomSetting F) where
  step_ship-IsLoaded :
      (time : TickTime F) (session : ℕ) (ship : ShipState F) (room : BattleRoom F)
      {after : ShipState F} {room' : BattleRoom F}
      → IsLoaded F room
      → step_ship F setting.codes_of setting.fuel time session ship room ≡ some (after, room')
      → IsLoaded F room'
  unfolding step_ship
  step_ship-IsLoaded time session ship room {after} {room'} h e = elim (Bool-cases ship.alive) [
    | inr dead ↦
        let same : room'.projectiles ≡ room.projectiles = ground arith in
        λ owner. ground (arith, h owner)
    | inl alive ↦ elim (Bool-cases ship.active) [
      | inr off ↦ let same : room ≡ room' = ground arith in subst (IsLoaded F) same h
      | inl on ↦
          let input = get_runtime_input F session ship time.runtime_now room in
          elim (Option-cases
            (simulate_ship_movement F setting.fuel ship.motion input time.delta_seconds)) [
              | inl t ↦ cc
              | inr (motion, t) ↦
                  let one = record ship { motion = motion } in
                  let same : try_fire_projectile F one input time.runtime_now time.wall_now room
                      ≡ room' =
                    ground arith in
                  subst (IsLoaded F) same
                    (try_fire_projectile-IsLoaded F one input time.runtime_now time.wall_now room h)
            ]
    ]
  ]

  step_ships-IsLoaded :
      (time : TickTime F) (ships : Map (ShipState F)) (room : BattleRoom F)
      {after : Map (ShipState F)} {room' : BattleRoom F}
      → IsLoaded F room
      → step_ships F setting.codes_of setting.fuel time ships room ≡ some (after, room')
      → IsLoaded F room'
  unfolding step_ships
  step_ships-IsLoaded time [] room {after} {room'} h e =
      let same : room ≡ room' = cc in subst (IsLoaded F) same h
  step_ships-IsLoaded time ((session, ship) ∷ ships) room {after} {room'} h e =
      elim (Option-cases (step_ship F setting.codes_of setting.fuel time session ship room)) [
        | inl s ↦ cc
        | inr (stepped, s) ↦
            elim (Option-cases (step_ships F setting.codes_of setting.fuel time ships stepped.1)) [
              | inl t ↦ cc
              | inr (others, t) ↦
                  let last : others.1 ≡ room' = ground arith in
                  subst (IsLoaded F) last (
                    step_ships-IsLoaded time ships stepped.1
                      (step_ship-IsLoaded time session ship room h s) t)
            ]
      ]

  run_tick-IsLoaded :
      (time : TickTime F) (room after : BattleRoom F)
      → IsLoaded F room
      → run_tick F setting.codes_of setting.fuel time room ≡ some after
      → IsLoaded F after
  unfolding update_projectiles
  run_tick-IsLoaded time room after h e =
      elim (Option-cases (step_ships F setting.codes_of setting.fuel time room.ships room)) [
        | inl s ↦ cc
        | inr (stepped, s) ↦
            let next = record stepped.1 { ships = stepped.0 } in
            let loaded = step_ships-IsLoaded time room.ships room h s in
            let flight =
              fly F time.wall_now time.runtime_now time.delta_seconds next.projectiles next in
            let same : update_projectiles F time.wall_now time.runtime_now time.delta_seconds next
                ≡ after =
              cc in
            subst (IsLoaded F) same (λ owner. ground (
              arith,
              loaded owner,
              count_active-delete_all F owner flight.to_remove flight.projectiles,
              count_active-fly F owner time.wall_now time.runtime_now time.delta_seconds
                  next.projectiles next,
            ))
      ]

  pub update_simulation-IsLoaded :
      (safe : Bool) (delta : F.Number) (runtime_now wall_now : ℕ) (room after : BattleRoom F)
      → IsLoaded F room
      → update_simulation F setting.codes_of setting.fuel safe delta runtime_now wall_now room
        ≡ some after
      → IsLoaded F after
  unfolding update_simulation
  update_simulation-IsLoaded safe delta runtime_now wall_now room after h e =
      let checked = is_process_authority_safe F safe room in
      let projectiles : checked.1.projectiles ≡ room.projectiles = ground arith in
      let loaded : IsLoaded F checked.1 = λ owner. rw projectiles (h owner) in
      elim (Bool-cases checked.0) [
        | inl c ↦
            let ran : run_tick F setting.codes_of setting.fuel
                  (tick_time F delta runtime_now wall_now) checked.1
                ≡ some after =
              ground arith in
            run_tick-IsLoaded (tick_time F delta runtime_now wall_now) checked.1 after loaded ran
        | inr c ↦ let same : checked.1 ≡ after = ground arith in subst (IsLoaded F) same loaded
      ]

  remove_ship-projectiles :
      (session : ℕ) (room : BattleRoom F)
      → (remove_ship F session room).projectiles ≡ room.projectiles
  unfolding remove_ship
  remove_ship-projectiles session room = ground arith

  upsert_ship-projectiles :
      (session : ℕ) (nickname : List ℕ) (faction : Faction) (room : BattleRoom F)
      → (upsert_ship F setting.codes_of session nickname faction room).projectiles
        ≡ room.projectiles
  unfolding upsert_ship
  upsert_ship-projectiles session nickname faction room =
      elim (Option-cases (get session room.ships)) [
        | inl e ↦ rw e refl
        | inr (ship, e) ↦ elim (Bool-cases (is_faction ship.faction faction)) [
          | inl s ↦ rw e (rw s refl)
          | inr s ↦ rw e (rw s refl)
        ]
      ]

  pub finalize_session-projectiles :
      (session : ℕ) (room : BattleRoom F)
      → (finalize_session F session room).projectiles ≡ room.projectiles
  unfolding finalize_session remove_ship
  finalize_session-projectiles session room = ground arith

  settle-projectiles :
      (pending : PendingProfile) (participant : ParticipantState) (joined spawns : Bool)
      (result : ProfileTransactionResult) (room : BattleRoom F)
      → (settle F setting.codes_of pending participant joined spawns result room).0.projectiles
        ≡ room.projectiles
  settle-projectiles pending participant joined spawns spectator_accepted room =
      remove_ship-projectiles pending.session_id room
  settle-projectiles pending participant joined true (player_accepted faction lease) room =
      upsert_ship-projectiles pending.session_id pending.profile.nickname faction room
  settle-projectiles pending participant joined false (player_accepted faction lease) room =
      ground arith
  settle-projectiles pending participant joined spawns faction_conflict room = ground arith
  settle-projectiles pending participant joined spawns identity_taken room = ground arith
  settle-projectiles pending participant joined spawns credential_invalid room = ground arith
  settle-projectiles pending participant joined spawns writer_authority_lost room = ground arith

  pub complete_profile-projectiles :
      (pending : PendingProfile) (participant : ParticipantState) (joined spawns safe : Bool)
      (result : Option ProfileTransactionResult) (room : BattleRoom F)
      → (complete_profile F setting.codes_of pending participant joined spawns safe result
          room).0.projectiles
        ≡ room.projectiles
  unfolding complete_profile
  complete_profile-projectiles pending participant joined spawns safe none room = ground arith
  complete_profile-projectiles pending participant joined spawns safe (some result) room =
      let checked = is_process_authority_safe F safe room in
      let settled = settle-projectiles pending participant joined spawns result checked.1 in
      ground (arith, settled)

  pub on_join-projectiles :
      (world : Option ℕ) (session : ℕ) (codes : List ℕ) (auth : Option BindFreshSessionAuth)
      (now : ℕ) (room : BattleRoom F)
      → (on_join F world session codes auth now room).1.projectiles ≡ room.projectiles
  unfolding on_join
  on_join-projectiles none session codes auth now room = refl
  on_join-projectiles (some world) session codes none now room = refl
  on_join-projectiles (some world) session codes (some auth) now room = ground arith
