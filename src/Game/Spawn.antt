-- ===== src/Game/Spawn.antt =====
-- apps/server/src/systems/spawn.ts. A session identifier is the list of its UTF-16 codes.
use burning_space.Base.{ℕ, List, [], ◌∷◌, ◌+◌, ◌*◌, ◌%◌, ◌^◌, ◌-◌}
use burning_space.Persistence.Schema.{Faction, red, blue}
use burning_space.Game.Numbers.{Numbers, negate}
use burning_space.Game.Constants.{
  world_width, world_height, red_base_x, red_base_y, blue_base_x, blue_base_y, network_ship_radius,
}
use burning_space.Game.Movement.{clamp}

-- The loop of `hashSessionId`: `>>> 0` leaves the low 32 bits.
unfoldable pub hash_on : ℕ → List ℕ → ℕ
hash_on hash [] = hash
hash_on hash (code ∷ codes) = hash_on ((hash * 31 + code) % 2 ^ 32) codes

abbrev pub hash_session_id : List ℕ → ℕ
hash_session_id codes = hash_on 0 codes

abbrev pub base_x : Faction → ℕ
base_x red = red_base_x
base_x blue = blue_base_x

abbrev pub base_y : Faction → ℕ
base_y red = red_base_y
base_y blue = blue_base_y

module _ (F : Numbers) where
  open F use {Number, of_ℕ, add, mul, div, cos, sin, pi}

  pub record SpawnPosition : Type 0 where
    pub x : Number
    pub y : Number
    pub rotation : Number

  abbrev pub spawn_angle : ℕ → Number
  spawn_angle hash = mul (div (of_ℕ (hash % 360)) (of_ℕ 180)) pi

  abbrev pub spawn_distance : ℕ → ℕ
  spawn_distance hash = 150 + hash % 120

  abbrev pub spawn_rotation : Faction → Number
  spawn_rotation red = div pi (of_ℕ 4)
  spawn_rotation blue = div (mul (negate F (of_ℕ 3)) pi) (of_ℕ 4)

  abbrev pub inside : ℕ → Number → Number
  inside extent coordinate =
      clamp F coordinate (of_ℕ network_ship_radius) (of_ℕ (extent - network_ship_radius))

  abbrev pub spawn_at : Faction → ℕ → SpawnPosition
  spawn_at faction hash = record {
    x =
        inside world_width
          (add (of_ℕ (base_x faction)) (mul (cos (spawn_angle hash)) (of_ℕ (spawn_distance hash))));
    y =
        inside world_height
          (add (of_ℕ (base_y faction)) (mul (sin (spawn_angle hash)) (of_ℕ (spawn_distance hash))));
    rotation = spawn_rotation faction;
  }

  abbrev pub get_faction_spawn_position : Faction → List ℕ → SpawnPosition
  get_faction_spawn_position faction codes = spawn_at faction (hash_session_id codes)
