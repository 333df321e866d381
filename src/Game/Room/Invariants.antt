-- ===== src/Game/Room/Invariants.antt =====
-- A property of a ship that every change to a ship keeps holds of all ships of the room for ever.
pub mod Handlers
pub mod Runs
pub mod Health
pub mod Position
use burning_space.Base.{
  ℕ, Bool, true, false, not, ◌&&◌, ◌||◌, Option, none, some, List, [], ◌∷◌, ◌≡◌, if◌then◌else◌, leb,
  ltb, inl, inr, arith, refl, subst, Bool-cases, Option-cases,
}
use burning_space.Base.Maps.{Map, get, put, has, Values, Values-put, Values-delete, Values-get}
use burning_space.Persistence.Schema.{Faction}
use burning_space.Persistence.SessionBinding
use burning_space.Game.Numbers.{Numbers}
use burning_space.Game.Constants.{network_projectile_damage}
use burning_space.Game.Schema.{ShipState, ProjectileState}
use burning_space.Game.Combat.{apply_damage, respawn_ship, is_faction}
use burning_space.Game.Movement.{PlayerInput, MutableShipMotionState, simulate_ship_movement, ◌>>=◌}
use burning_space.Game.Room.{BattleRoom, is_process_authority_safe}
use burning_space.Game.Room.Events.{RoomSetting, RoomEvent, after_event, after_events}
use burning_space.Game.Room.Ships.{
  spawned_ship, upsert_ship, remove_ship, finalize_session, neutralize_input,
}
use burning_space.Game.Room.Tick.{
  TickTime, get_runtime_input, try_respawn_ship, act, step_ship, step_ships, update_simulation,
}
use burning_space.Game.Room.Weapons.{try_fire_projectile}
use burning_space.Game.Room.Projectiles.{
  Impact, find_projectile_hit, moved, is_spent, step_projectile, strike, fly, update_projectiles,
}

module _ (F : Numbers) (setting : RoomSetting F) where
  -- A property of a ship that its creation establishes and its changes keep.
  pub record IsStable {κ} (P : ShipState F → Type κ) : Type κ where
    pub spawned :
        (session : ℕ) (nickname : List ℕ) (faction : Faction)
        → P (spawned_ship F setting.codes_of session nickname faction)
    pub renamed :
        (ship : ShipState F) (nickname : List ℕ) → P ship → P (record ship { nickname = nickname })
    pub steered :
        (ship : ShipState F) (input : PlayerInput F) (delta : F.Number)
        (motion : MutableShipMotionState F)
        → P ship
        → ship.alive ≡ true
        → simulate_ship_movement F setting.fuel ship.motion input delta ≡ some motion
        → P (record ship { motion = motion })
    pub respawned :
        (ship : ShipState F) (now : ℕ) → P ship → P (respawn_ship F setting.codes_of ship now)
    pub struck :
        (ship : ShipState F) (now : ℕ)
        → P ship
        → P (apply_damage F ship network_projectile_damage now).1

  module _ {κ} (P : ShipState F → Type κ) (stable : IsStable P) where
    pub step_ship_keeps :
        (time : TickTime F) (session : ℕ) (ship : ShipState F) (room : BattleRoom F)
        {after : ShipState F} {room' : BattleRoom F}
        → P ship
        → step_ship F setting.codes_of setting.fuel time session ship room ≡ some (after, room')
        → P after
    unfolding step_ship
    step_ship_keeps time session ship room {after} {room'} p e = elim (Bool-cases ship.alive) [
      | inr dead ↦ elim (Bool-cases (leb ship.respawn_at 0 || ltb time.wall_now ship.respawn_at)) [
        | inl waits ↦ subst P (ground arith) p
        | inr due ↦ subst P (ground arith) (stable.respawned ship time.wall_now p)
      ]
      | inl alive ↦ elim (Bool-cases ship.active) [
        | inr off ↦ subst P (ground arith) p
        | inl on ↦
            let input = get_runtime_input F session ship time.runtime_now room in
            elim (Option-cases
              (simulate_ship_movement F setting.fuel ship.motion input time.delta_seconds)) [
                | inl t ↦ cc
                | inr (motion, t) ↦
                    subst P (ground arith)
                      (stable.steered ship input time.delta_seconds motion p alive t)
              ]
      ]
    ]

    pub step_ships_keeps :
        (time : TickTime F) (ships : Map (ShipState F)) (room : BattleRoom F)
        {after : Map (ShipState F)} {room' : BattleRoom F}
        → Values P ships
        → step_ships F setting.codes_of setting.fuel time ships room ≡ some (after, room')
        → Values P after
    unfolding step_ships
    step_ships_keeps time [] room {after} h e =
        let same : [] ≡ after = cc in subst (Values P) same tt
    step_ships_keeps time ((session, ship) ∷ ships) room {after} {room'} h e =
        elim (Option-cases (step_ship F setting.codes_of setting.fuel time session ship room)) [
          | inl s ↦ cc
          | inr (stepped, s) ↦
              elim (Option-cases
                (step_ships F setting.codes_of setting.fuel time ships stepped.1)) [
                  | inl t ↦ cc
                  | inr (others, t) ↦
                      let same : (session, stepped.0) ∷ others.0 ≡ after = ground arith in
                      subst (Values P) same (
                        step_ship_keeps time session ship room h.0 s,
                        step_ships_keeps time ships stepped.1 h.1 t,
                      )
                ]
        ]

    strike_keeps :
        (wall_now runtime_now : ℕ) (projectile : ProjectileState F) (impact : Option (Impact F))
        (room : BattleRoom F)
        → Values P room.ships
        → Values P (strike F wall_now runtime_now projectile impact room).1.ships
    strike_keeps wall_now runtime_now projectile none room h = h
    strike_keeps wall_now runtime_now projectile (some impact) room h =
        elim (Option-cases (get impact.ship_id room.ships)) [
          | inl e ↦ rw (e, strike) h
          | inr (target, e) ↦
              let struck = apply_damage F target network_projectile_damage wall_now in
              let kept =
                Values-put P impact.ship_id struck.1 room.ships
                  (stable.struck target wall_now (Values-get P impact.ship_id room.ships h e)) h in
              elim (Bool-cases struck.0) [
                | inl k ↦ rw (e, strike) (rw k kept)
                | inr k ↦ rw (e, strike) (rw k kept)
              ]
        ]

    step_projectile_keeps :
        (wall_now runtime_now : ℕ) (projectile : ProjectileState F) (room : BattleRoom F)
        → Values P room.ships
        → Values P (step_projectile F wall_now runtime_now projectile room).1.ships
    step_projectile_keeps wall_now runtime_now projectile room h =
        elim (Bool-cases (is_spent F projectile)) [
          | inl e ↦ rw e h
          | inr e ↦ rw e (
              strike_keeps wall_now runtime_now projectile
                (find_projectile_hit F projectile wall_now room.ships) room h)
        ]

    pub fly_keeps :
        (wall_now runtime_now : ℕ) (delta : F.Number) (projectiles : Map (ProjectileState F))
        (room : BattleRoom F)
        → Values P room.ships
        → Values P (fly F wall_now runtime_now delta projectiles room).room.ships
    unfolding fly
    fly_keeps wall_now runtime_now delta [] room h = h
    fly_keeps wall_now runtime_now delta ((id, projectile) ∷ projectiles) room h =
        let after = step_projectile F wall_now runtime_now (moved F delta projectile) room in
        fly_keeps wall_now runtime_now delta projectiles after.1
          (step_projectile_keeps wall_now runtime_now (moved F delta projectile) room h)
