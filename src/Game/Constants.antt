-- ===== src/Game/Constants.antt =====
-- packages/shared/src/constants.ts. Readings of the clocks and intervals are in whole milliseconds.
use burning_space.Base.{ℕ, ◌-◌}

abbrev pub max_room_clients : ℕ
max_room_clients = 40

abbrev pub network_input_timeout_ms : ℕ
network_input_timeout_ms = 300

abbrev pub world_width : ℕ
world_width = 12000

abbrev pub world_height : ℕ
world_height = 12000

abbrev pub red_base_x : ℕ
red_base_x = 760

abbrev pub red_base_y : ℕ
red_base_y = 760

abbrev pub blue_base_x : ℕ
blue_base_x = world_width - 760

abbrev pub blue_base_y : ℕ
blue_base_y = world_height - 760

abbrev pub network_ship_max_speed : ℕ
network_ship_max_speed = 500

abbrev pub network_ship_acceleration : ℕ
network_ship_acceleration = 900

abbrev pub network_ship_deceleration : ℕ
network_ship_deceleration = 650

abbrev pub network_ship_turn_speed : ℕ
network_ship_turn_speed = 8

abbrev pub network_ship_radius : ℕ
network_ship_radius = 58

abbrev pub network_ship_max_health : ℕ
network_ship_max_health = 100

abbrev pub network_projectile_damage : ℕ
network_projectile_damage = 15

abbrev pub network_projectile_speed : ℕ
network_projectile_speed = 1200

abbrev pub network_projectile_max_range : ℕ
network_projectile_max_range = 1400

abbrev pub network_projectile_radius : ℕ
network_projectile_radius = 14

abbrev pub network_projectile_muzzle_offset : ℕ
network_projectile_muzzle_offset = 74

abbrev pub network_weapon_fire_interval_ms : ℕ
network_weapon_fire_interval_ms = 180

abbrev pub network_max_active_projectiles_per_ship : ℕ
network_max_active_projectiles_per_ship = 10

abbrev pub network_respawn_delay_ms : ℕ
network_respawn_delay_ms = 3000

abbrev pub network_spawn_invulnerability_ms : ℕ
network_spawn_invulnerability_ms = 2000
