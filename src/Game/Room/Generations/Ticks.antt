-- ===== src/Game/Room/Generations/Ticks.antt =====
-- A tick of the simulation and an input of a player leave the session bindings alone.
use burning_space.Base.{
  ℕ, Bool, Option, none, some, [], ◌∷◌, ◌≡◌, ◌∙◌, inl, inr, arith, ap, refl, sym, Bool-cases,
  Option-cases,
}
use burning_space.Base.Maps.{Map, get}
use burning_space.Game.Numbers.{Numbers}
use burning_space.Game.Constants.{network_projectile_damage}
use burning_space.Game.Schema.{ShipState, ProjectileState}
use burning_space.Game.Combat.{apply_damage}
use burning_space.Game.Movement.{PlayerInput, simulate_ship_movement}
use burning_space.Game.Room.{BattleRoom, is_process_authority_safe}
use burning_space.Game.Room.Tick.{
  TickTime, tick_time, get_runtime_input, step_ship, step_ships, run_tick, update_simulation,
}
use burning_space.Game.Room.Weapons.{try_fire_projectile}
use burning_space.Game.Room.Projectiles.{
  Impact, strike, moved, is_spent, step_projectile, find_projectile_hit, fly, update_projectiles,
}
use burning_space.Game.Room.Events.{RoomSetting}

module _ (F : Numbers) (setting : RoomSetting F) where
  try_fire_projectile-bindings :
      (ship : ShipState F) (input : PlayerInput F) (runtime_now wall_now : ℕ) (room : BattleRoom F)
      → (try_fire_projectile F ship input runtime_now wall_now room).bindings ≡ room.bindings
  unfolding try_fire_projectile
  try_fire_projectile-bindings ship input runtime_now wall_now room = ground arith

  step_ship-bindings :
      (time : TickTime F) (session : ℕ) (ship : ShipState F) (room : BattleRoom F)
      {after : ShipState F} {room' : BattleRoom F}
      → step_ship F setting.codes_of setting.fuel time session ship room ≡ some (after, room')
      → room'.bindings ≡ room.bindings
  unfolding step_ship
  step_ship-bindings time session ship room {after} {room'} e = elim (Bool-cases ship.alive) [
    | inr dead ↦ ground arith
    | inl alive ↦ elim (Bool-cases ship.active) [
      | inr off ↦ ground arith
      | inl on ↦
          let input = get_runtime_input F session ship time.runtime_now room in
          elim (Option-cases
            (simulate_ship_movement F setting.fuel ship.motion input time.delta_seconds)) [
              | inl t ↦ cc
              | inr (motion, t) ↦
                  let fired =
                    try_fire_projectile-bindings (record ship { motion = motion }) input
                      time.runtime_now time.wall_now room in
                  ground arith
            ]
    ]
  ]

  step_ships-bindings :
      (time : TickTime F) (ships : Map (ShipState F)) (room : BattleRoom F)
      {after : Map (ShipState F)} {room' : BattleRoom F}
      → step_ships F setting.codes_of setting.fuel time ships room ≡ some (after, room')
      → room'.bindings ≡ room.bindings
  unfolding step_ships
  step_ships-bindings time [] room e = ground arith
  step_ships-bindings time ((session, ship) ∷ ships) room {after} {room'} e =
      elim (Option-cases (step_ship F setting.codes_of setting.fuel time session ship room)) [
        | inl s ↦ cc
        | inr (stepped, s) ↦
            elim (Option-cases (step_ships F setting.codes_of setting.fuel time ships stepped.1)) [
              | inl t ↦ cc
              | inr (others, t) ↦
                  let first = step_ship-bindings time session ship room s in
                  let rest = step_ships-bindings time ships stepped.1 t in
                  let last : others.1 ≡ room' = ground arith in
                  ap (λ r. r.bindings) (sym last) ∙ rest ∙ first
            ]
      ]

  strike-bindings :
      (wall_now runtime_now : ℕ) (projectile : ProjectileState F) (impact : Option (Impact F))
      (room : BattleRoom F)
      → (strike F wall_now runtime_now projectile impact room).1.bindings ≡ room.bindings
  strike-bindings wall_now runtime_now projectile none room = refl
  strike-bindings wall_now runtime_now projectile (some impact) room =
      elim (Option-cases (get impact.ship_id room.ships)) [
        | inl e ↦ rw (e, strike) refl
        | inr (target, e) ↦
            elim (Bool-cases (apply_damage F target network_projectile_damage wall_now).0) [
              | inl k ↦ rw (e, strike) (rw k refl)
              | inr k ↦ rw (e, strike) (rw k refl)
            ]
      ]

  step_projectile-bindings :
      (wall_now runtime_now : ℕ) (projectile : ProjectileState F) (room : BattleRoom F)
      → (step_projectile F wall_now runtime_now projectile room).1.bindings ≡ room.bindings
  step_projectile-bindings wall_now runtime_now projectile room =
      elim (Bool-cases (is_spent F projectile)) [
        | inl e ↦ rw e refl
        | inr e ↦ rw e (
            strike-bindings wall_now runtime_now projectile
              (find_projectile_hit F projectile wall_now room.ships) room)
      ]

  fly-bindings :
      (wall_now runtime_now : ℕ) (delta : F.Number) (projectiles : Map (ProjectileState F))
      (room : BattleRoom F)
      → (fly F wall_now runtime_now delta projectiles room).room.bindings ≡ room.bindings
  unfolding fly
  fly-bindings wall_now runtime_now delta [] room = refl
  fly-bindings wall_now runtime_now delta ((id, projectile) ∷ projectiles) room =
      let after = step_projectile F wall_now runtime_now (moved F delta projectile) room in
      fly-bindings wall_now runtime_now delta projectiles after.1
      ∙ step_projectile-bindings wall_now runtime_now (moved F delta projectile) room

  run_tick-bindings :
      (time : TickTime F) (room after : BattleRoom F)
      → run_tick F setting.codes_of setting.fuel time room ≡ some after
      → after.bindings ≡ room.bindings
  unfolding update_projectiles
  run_tick-bindings time room after e =
      elim (Option-cases (step_ships F setting.codes_of setting.fuel time room.ships room)) [
        | inl s ↦ cc
        | inr (stepped, s) ↦
            let next = record stepped.1 { ships = stepped.0 } in
            let same : update_projectiles F time.wall_now time.runtime_now time.delta_seconds next
                ≡ after =
              cc in
            ap (λ r. r.bindings) (sym same)
            ∙ fly-bindings time.wall_now time.runtime_now time.delta_seconds next.projectiles next
            ∙ step_ships-bindings time room.ships room s
      ]

  pub update_simulation-bindings :
      (safe : Bool) (delta : F.Number) (runtime_now wall_now : ℕ) (room : BattleRoom F)
      (after : BattleRoom F)
      → update_simulation F setting.codes_of setting.fuel safe delta runtime_now wall_now room
        ≡ some after
      → after.bindings ≡ room.bindings
  unfolding update_simulation
  update_simulation-bindings safe delta runtime_now wall_now room after e =
      let checked = is_process_authority_safe F safe room in
      let bindings : checked.1.bindings ≡ room.bindings = ground arith in
      elim (Bool-cases checked.0) [
        | inl c ↦
            let ran : run_tick F setting.codes_of setting.fuel
                  (tick_time F delta runtime_now wall_now) checked.1
                ≡ some after =
              ground arith in
            run_tick-bindings (tick_time F delta runtime_now wall_now) checked.1 after ran
            ∙ bindings
        | inr c ↦ ground arith
      ]
