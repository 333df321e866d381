-- ===== src/Game/Room/Projectiles.antt =====
-- BattleRoom.ts: updateProjectiles and findProjectileHit.
pub mod Hits
use burning_space.Base.{
  ℕ, ◌+◌, Bool, true, false, not, ◌&&◌, ◌||◌, Option, none, some, List, [], ◌∷◌, if◌then◌else◌,
}
use burning_space.Base.Maps.{Map, get, put, delete}
use burning_space.Game.Numbers.{Numbers, at_most}
use burning_space.Game.Constants.{
  network_projectile_damage, network_projectile_max_range, network_projectile_radius,
  network_ship_radius, world_width, world_height,
}
use burning_space.Game.Schema.{ShipState, ProjectileState}
use burning_space.Game.Combat.{can_damage_ship, segment_circle_intersection_t, apply_damage}
use burning_space.Game.Input.{create_neutral_input}
use burning_space.Game.Room.{BattleRoom, RoomMessage, hit_event, ship_destroyed, send}

module _ (F : Numbers) where
  open F use {Number, of_ℕ, add, sub, mul, less, hypot}

  -- A ship and the fraction of the projectile's last stretch at which it is hit.
  pub record Impact : Type 0 where
    pub ship_id : ℕ
    pub t : Number

  abbrev pub impact_of : ProjectileState F → ℕ → ShipState F → Option Number
  impact_of projectile now ship =
      if can_damage_ship F ship projectile.owner_session_id projectile.faction now
      then segment_circle_intersection_t F projectile.previous_x projectile.previous_y projectile.x
          projectile.y ship.motion.x ship.motion.y
          (of_ℕ (network_projectile_radius + network_ship_radius))
      else none

  -- The better of the best impact so far and one of this ship.
  abbrev pub better : Option Impact → ℕ → Option Number → Option Impact
  better best ship none = best
  better none ship (some t) = some (record { ship_id = ship; t = t })
  better (some best) ship (some t) =
      if at_most F best.t t then some best else some (record { ship_id = ship; t = t })

  unfoldable pub best_impact :
      ProjectileState F → ℕ → Option Impact → Map (ShipState F) → Option Impact
  best_impact projectile now best [] = best
  best_impact projectile now best ((id, ship) ∷ ships) =
      best_impact projectile now (better best id (impact_of projectile now ship)) ships

  unfoldable pub find_projectile_hit : ProjectileState F → ℕ → Map (ShipState F) → Option Impact
  unfolding best_impact
  find_projectile_hit projectile now ships = best_impact projectile now none ships

  abbrev pub impact_x : ProjectileState F → Number → Number
  impact_x projectile t = add projectile.previous_x (mul (sub projectile.x projectile.previous_x) t)

  abbrev pub impact_y : ProjectileState F → Number → Number
  impact_y projectile t = add projectile.previous_y (mul (sub projectile.y projectile.previous_y) t)

  abbrev pub moved : Number → ProjectileState F → ProjectileState F
  moved delta_seconds projectile =
      let x = add projectile.x (mul projectile.velocity_x delta_seconds) in
      let y = add projectile.y (mul projectile.velocity_y delta_seconds) in
      record projectile {
        previous_x = projectile.x;
        previous_y = projectile.y;
        x = x;
        y = y;
        distance_traveled =
            add projectile.distance_traveled (hypot (sub x projectile.x) (sub y projectile.y));
      }

  abbrev pub is_spent : ProjectileState F → Bool
  is_spent projectile =
      at_most F (of_ℕ network_projectile_max_range) projectile.distance_traveled
      || less projectile.x (of_ℕ 0)
      || less projectile.y (of_ℕ 0)
      || less (of_ℕ world_width) projectile.x
      || less (of_ℕ world_height) projectile.y

  abbrev pub destroyed : ℕ → ShipState F → ℕ → BattleRoom F → BattleRoom F
  destroyed ship target runtime_now room =
      send F (ship_destroyed ship target.motion.x target.motion.y target.respawn_at) (record room {
        inputs = put ship (create_neutral_input F target.motion.last_processed_input) room.inputs;
        weapons = put ship (some runtime_now) room.weapons;
      })

  abbrev pub after_damage :
      ℕ → ℕ → ProjectileState F → Number → Bool × ShipState F → BattleRoom F → BattleRoom F
  after_damage ship runtime_now projectile t (killed, target) room =
      let told =
        send F
          (hit_event projectile.id ship (impact_x projectile t) (impact_y projectile t)
            network_projectile_damage)
          (record room { ships = put ship target room.ships }) in
      if killed then destroyed ship target runtime_now told else told

  -- A target that was found, struck. The answer is whether the projectile is to be removed.
  abbrev pub strike : ℕ → ℕ → ProjectileState F → Option Impact → BattleRoom F → Bool × BattleRoom F
  strike wall_now runtime_now projectile none room = (false, room)
  strike wall_now runtime_now projectile (some impact) room = elim (get impact.ship_id room.ships) [
    | none ↦ (false, room)
    | some target ↦ (
      true,
      after_damage impact.ship_id runtime_now projectile impact.t
          (apply_damage F target network_projectile_damage wall_now) room,
    )
  ]

  abbrev pub step_projectile : ℕ → ℕ → ProjectileState F → BattleRoom F → Bool × BattleRoom F
  step_projectile wall_now runtime_now projectile room =
      if is_spent projectile
      then (true, room)
      else strike wall_now runtime_now projectile
          (find_projectile_hit projectile wall_now room.ships) room

  pub record Flight : Type 0 where
    pub projectiles : Map (ProjectileState F)
    pub to_remove : List ℕ
    pub room : BattleRoom F

  abbrev pub flown : ℕ → ProjectileState F → Bool → Flight → Flight
  flown id projectile removed flight = record flight {
    projectiles = (id, projectile) ∷ flight.projectiles;
    to_remove = if removed then id ∷ flight.to_remove else flight.to_remove;
  }

  -- The loop over the projectiles, each of them in its place.
  unfoldable pub fly : ℕ → ℕ → Number → Map (ProjectileState F) → BattleRoom F → Flight
  fly wall_now runtime_now delta_seconds [] room = record {
    projectiles = [];
    to_remove = [];
    room = room;
  }
  fly wall_now runtime_now delta_seconds ((id, projectile) ∷ projectiles) room =
      let after = step_projectile wall_now runtime_now (moved delta_seconds projectile) room in
      flown id (moved delta_seconds projectile) after.0
        (fly wall_now runtime_now delta_seconds projectiles after.1)

  unfoldable pub delete_all : List ℕ → Map (ProjectileState F) → Map (ProjectileState F)
  delete_all [] projectiles = projectiles
  delete_all (id ∷ ids) projectiles = delete_all ids (delete id projectiles)

  abbrev pub landed : Flight → BattleRoom F
  landed flight = record flight.room {
    projectiles = delete_all flight.to_remove flight.projectiles;
  }

  unfoldable pub update_projectiles : ℕ → ℕ → Number → BattleRoom F → BattleRoom F
  unfolding fly
  update_projectiles wall_now runtime_now delta_seconds room =
      landed (fly wall_now runtime_now delta_seconds room.projectiles room)
