-- ===== src/Game/Combat.antt =====
-- apps/server/src/systems/combat.ts. `codes_of` gives the text of a session identifier. Damage and
-- health are whole numbers, which they are at every call.
use burning_space.Base.{
  ◌||◌, ℕ, ◌+◌, ◌-◌, Bool, true, false, not, ◌&&◌, Option, none, some, List, ◌==◌, leb,
  if◌then◌else◌,
}
use burning_space.Persistence.Schema.{Faction, red, blue}
use burning_space.Game.Numbers.{Numbers, at_most, negate}
use burning_space.Game.Constants.{
  network_respawn_delay_ms, network_ship_max_health, network_spawn_invulnerability_ms,
}
use burning_space.Game.Schema.{ShipState}
use burning_space.Game.Spawn.{get_faction_spawn_position}

abbrev pub is_faction : Faction → Faction → Bool
is_faction red red = true
is_faction blue blue = true
is_faction _ _ = false

module _ (F : Numbers) where
  open F use {Number, of_ℕ, add, sub, mul, div, less, sqrt}

  -- `t` of the hit; none is `hit: false`, whose `t` no caller reads.
  abbrev pub SegmentCircleHit : Type 0
  SegmentCircleHit = Option Number

  abbrev pub is_fraction : Number → Bool
  is_fraction t = at_most F (of_ℕ 0) t && at_most F t (of_ℕ 1)

  abbrev pub squares : Number → Number → Number
  squares x y = add (mul x x) (mul y y)

  -- The segment has no length.
  abbrev pub point_hit : Number → Number → Number → SegmentCircleHit
  point_hit to_circle_x to_circle_y radius =
      if at_most F (squares to_circle_x to_circle_y) (mul radius radius)
      then some (of_ℕ 0)
      else none

  abbrev pub earlier_root : Number → Number → Number → SegmentCircleHit
  earlier_root a b root =
      if is_fraction (div (sub (negate F b) root) (mul (of_ℕ 2) a))
      then some (div (sub (negate F b) root) (mul (of_ℕ 2) a))
      else if is_fraction (div (add (negate F b) root) (mul (of_ℕ 2) a))
      then some (div (add (negate F b) root) (mul (of_ℕ 2) a))
      else none

  abbrev pub crossing : Number → Number → Number → SegmentCircleHit
  crossing a b discriminant =
      if less discriminant (of_ℕ 0) then none else earlier_root a b (sqrt discriminant)

  abbrev pub line_hit : Number → Number → Number → Number → Number → SegmentCircleHit
  line_hit segment_x segment_y to_circle_x to_circle_y radius =
      let a = squares segment_x segment_y in
      let b = mul (of_ℕ 2) (add (mul to_circle_x segment_x) (mul to_circle_y segment_y)) in
      let c = sub (squares to_circle_x to_circle_y) (mul radius radius) in
      crossing a b (sub (mul b b) (mul (mul (of_ℕ 4) a) c))

  unfoldable pub segment_circle_intersection_t :
      Number → Number → Number → Number → Number → Number → Number → SegmentCircleHit
  segment_circle_intersection_t start_x start_y end_x end_y circle_x circle_y radius =
      if at_most F (squares (sub end_x start_x) (sub end_y start_y)) (of_ℕ 0)
      then point_hit (sub start_x circle_x) (sub start_y circle_y) radius
      else line_hit (sub end_x start_x) (sub end_y start_y) (sub start_x circle_x)
          (sub start_y circle_y) radius

  abbrev pub can_damage_ship : ShipState F → ℕ → Faction → ℕ → Bool
  can_damage_ship ship owner projectile_faction now =
      ship.alive
      && ship.active
      && not (ship.owner_session_id == owner)
      && not (is_faction ship.faction projectile_faction)
      && leb ship.invulnerable_until now

  abbrev pub kill_ship : ShipState F → ℕ → ShipState F
  kill_ship ship now = record ship {
    alive = false;
    active = false;
    health = 0;
    motion = record ship.motion { velocity_x = of_ℕ 0; velocity_y = of_ℕ 0 };
    respawn_at = now + network_respawn_delay_ms;
    invulnerable_until = 0;
  }

  abbrev pub damaged : ShipState F → ℕ → ℕ → ShipState F
  damaged ship amount now = record ship { health = ship.health - amount; last_damage_at = now }

  -- `Math.max(0, health - amount)` is the subtraction that stops at 0. The answer is whether it killed.
  unfoldable pub apply_damage : ShipState F → ℕ → ℕ → Bool × ShipState F
  apply_damage ship amount now =
      if not ship.alive || leb amount 0
      then (false, ship)
      else if leb (ship.health - amount) 0
      then (true, kill_ship (damaged ship amount now) now)
      else (false, damaged ship amount now)

  module _ (codes_of : ℕ → List ℕ) where
    unfoldable pub respawn_ship : ShipState F → ℕ → ShipState F
    respawn_ship ship now =
        let spawn = get_faction_spawn_position F ship.faction (codes_of ship.owner_session_id) in
        record ship {
          motion = record ship.motion {
            x = spawn.x;
            y = spawn.y;
            rotation = spawn.rotation;
            velocity_x = of_ℕ 0;
            velocity_y = of_ℕ 0;
          };
          max_health = network_ship_max_health;
          health = network_ship_max_health;
          alive = true;
          active = true;
          respawn_at = 0;
          invulnerable_until = now + network_spawn_invulnerability_ms;
        }
