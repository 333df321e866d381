-- ===== src/Game/Room/Magazine.antt =====
-- How many projectiles a session has in the air.
pub mod Handlers
pub mod Runs
use burning_space.Base.{
  ℕ, zero, suc, ◌+◌, ◌≤◌, Bool, true, false, not, ◌||◌, Option, none, some, List, [], ◌∷◌, ◌≡◌,
  ◌==◌, ◌∙◌, inl, inr, arith, ap, refl, subst, sym, Bool-cases, Option-cases, if◌then◌else◌,
}
use burning_space.Base.Maps.{Map, get, put, delete}
use burning_space.Game.Numbers.{Numbers}
use burning_space.Game.Constants.{
  network_max_active_projectiles_per_ship, network_projectile_damage,
}
use burning_space.Game.Schema.{ShipState, ProjectileState}
use burning_space.Game.Combat.{apply_damage}
use burning_space.Game.Movement.{PlayerInput, simulate_ship_movement, ◌>>=◌}
use burning_space.Game.Room.{BattleRoom, is_process_authority_safe}
use burning_space.Game.Room.Events.{RoomSetting, RoomEvent, after_event, after_events}
use burning_space.Game.Room.Weapons.{
  count_active, is_active_of, new_projectile, try_fire_projectile, may_fire,
}
use burning_space.Game.Room.Projectiles.{
  fly, delete_all, update_projectiles, step_projectile, moved, landed, flown,
}
use burning_space.Game.Room.Tick.{
  TickTime, tick_time, get_runtime_input, try_respawn_ship, step_ship, step_ships, run_tick,
  update_simulation,
}

module _ (F : Numbers) where
  count_active-put :
      (owner key : ℕ) (projectile : ProjectileState F) (projectiles : Map (ProjectileState F))
      → count_active F owner (put key projectile projectiles)
        ≤ count_active F owner projectiles + (if is_active_of F owner projectile then 1 else 0)
  unfolding count_active put
  count_active-put owner key projectile [] = ground arith
  count_active-put owner key projectile ((k, p) ∷ projectiles) =
      ground (arith, count_active-put owner key projectile projectiles)

  count_active-delete :
      (owner key : ℕ) (projectiles : Map (ProjectileState F))
      → count_active F owner (delete key projectiles) ≤ count_active F owner projectiles
  unfolding count_active delete
  count_active-delete owner key [] = ground arith
  count_active-delete owner key ((k, p) ∷ projectiles) =
      ground (arith, count_active-delete owner key projectiles)

  pub count_active-delete_all :
      (owner : ℕ) (keys : List ℕ) (projectiles : Map (ProjectileState F))
      → count_active F owner (delete_all F keys projectiles) ≤ count_active F owner projectiles
  unfolding delete_all
  count_active-delete_all owner [] projectiles = ground arith
  count_active-delete_all owner (key ∷ keys) projectiles = ground (
    arith,
    count_active-delete_all owner keys (delete key projectiles),
    count_active-delete owner key projectiles,
  )

  pub count_active-fly :
      (owner wall_now runtime_now : ℕ) (delta : F.Number) (projectiles : Map (ProjectileState F))
      (room : BattleRoom F)
      → count_active F owner (fly F wall_now runtime_now delta projectiles room).projectiles
        ≡ count_active F owner projectiles
  unfolding count_active fly
  count_active-fly owner wall_now runtime_now delta [] room = refl
  count_active-fly owner wall_now runtime_now delta ((id, projectile) ∷ projectiles) room =
      let after = step_projectile F wall_now runtime_now (moved F delta projectile) room in
      let rest = count_active-fly owner wall_now runtime_now delta projectiles after.1 in
      rw rest refl

  -- The bound on the projectiles of every session.
  abbrev pub IsLoaded : BattleRoom F → Type 0
  IsLoaded room =
      (owner : ℕ) → count_active F owner room.projectiles ≤ network_max_active_projectiles_per_ship

  pub try_fire_projectile-IsLoaded :
      (ship : ShipState F) (input : PlayerInput F) (runtime_now wall_now : ℕ) (room : BattleRoom F)
      → IsLoaded room
      → IsLoaded (try_fire_projectile F ship input runtime_now wall_now room)
  unfolding try_fire_projectile
  try_fire_projectile-IsLoaded ship input runtime_now wall_now room h owner =
      elim (Bool-cases (not input.shooting || not ship.alive || not ship.active)) [
        | inl c ↦ rw c (h owner)
        | inr c ↦ elim (Bool-cases (may_fire F ship.owner_session_id runtime_now room)) [
          | inr m ↦ rw c (rw m (h owner))
          | inl m ↦
              let one = new_projectile F room.next_projectile_id ship wall_now in
              rw c (
                rw m (
                  ground (
                    arith,
                    h owner,
                    h ship.owner_session_id,
                    count_active-put owner room.next_projectile_id one room.projectiles,
                  )))
        ]
      ]
