-- ===== src/Game/Room/Weapons.antt =====
-- BattleRoom.ts: tryFireProjectile and countActiveProjectilesForOwner.
use burning_space.Base.{
  ℕ, suc, ◌+◌, ◌-◌, Bool, true, false, not, ◌&&◌, ◌||◌, Option, none, some, [], ◌∷◌, ◌==◌, ltb, leb,
  if◌then◌else◌,
}
use burning_space.Base.Maps.{Map, get, put}
use burning_space.Game.Numbers.{Numbers}
use burning_space.Game.Constants.{
  network_weapon_fire_interval_ms, network_max_active_projectiles_per_ship,
  network_projectile_muzzle_offset, network_projectile_speed,
}
use burning_space.Game.Schema.{ShipState, ProjectileState}
use burning_space.Game.Movement.{PlayerInput}
use burning_space.Game.Room.{BattleRoom, or_else}

-- `runtimeNow - weapon.lastShotAt < NETWORK_WEAPON_FIRE_INTERVAL_MS`.
abbrev pub is_cooling : ℕ → Option ℕ → Bool
is_cooling now none = false
is_cooling now (some shot) = ltb (now - shot) network_weapon_fire_interval_ms

module _ (F : Numbers) where
  open F use {of_ℕ, add, mul, cos, sin}

  abbrev pub is_active_of : ℕ → ProjectileState F → Bool
  is_active_of owner projectile = projectile.owner_session_id == owner && projectile.active

  unfoldable pub count_active : ℕ → Map (ProjectileState F) → ℕ
  count_active owner [] = 0
  count_active owner ((id, projectile) ∷ projectiles) =
      if is_active_of owner projectile
      then suc (count_active owner projectiles)
      else count_active owner projectiles

  abbrev pub new_projectile : ℕ → ShipState F → ℕ → ProjectileState F
  new_projectile id ship wall_now =
      let muzzle_x =
        add ship.motion.x
          (mul (cos ship.motion.rotation) (of_ℕ network_projectile_muzzle_offset)) in
      let muzzle_y =
        add ship.motion.y
          (mul (sin ship.motion.rotation) (of_ℕ network_projectile_muzzle_offset)) in
      record {
        id = id;
        owner_session_id = ship.owner_session_id;
        faction = ship.faction;
        x = muzzle_x;
        y = muzzle_y;
        previous_x = muzzle_x;
        previous_y = muzzle_y;
        velocity_x = mul (cos ship.motion.rotation) (of_ℕ network_projectile_speed);
        velocity_y = mul (sin ship.motion.rotation) (of_ℕ network_projectile_speed);
        rotation = ship.motion.rotation;
        spawn_x = muzzle_x;
        spawn_y = muzzle_y;
        distance_traveled = of_ℕ 0;
        active = true;
        created_at = wall_now;
      }

  abbrev pub fire : ShipState F → ℕ → ℕ → BattleRoom F → BattleRoom F
  fire ship runtime_now wall_now room = record room {
    next_projectile_id = room.next_projectile_id + 1;
    projectiles =
        put room.next_projectile_id (new_projectile room.next_projectile_id ship wall_now)
          room.projectiles;
    weapons = put ship.owner_session_id (some runtime_now) room.weapons;
  }

  abbrev pub weapon_of : ℕ → BattleRoom F → Option ℕ
  weapon_of owner room = or_else (get owner room.weapons) none

  abbrev pub may_fire : ℕ → ℕ → BattleRoom F → Bool
  may_fire owner runtime_now room =
      not (is_cooling runtime_now (weapon_of owner room))
      && not (leb network_max_active_projectiles_per_ship (count_active owner room.projectiles))

  unfoldable pub try_fire_projectile :
      ShipState F → PlayerInput F → ℕ → ℕ → BattleRoom F → BattleRoom F
  try_fire_projectile ship input runtime_now wall_now room =
      if not input.shooting || not ship.alive || not ship.active
      then room
      else if may_fire ship.owner_session_id runtime_now room
      then fire ship runtime_now wall_now room
      else record room {
        weapons = put ship.owner_session_id (weapon_of ship.owner_session_id room) room.weapons;
      }
