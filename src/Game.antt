-- ===== src/Game.antt =====
-- The game of apps/server/src: ships, projectiles and their room.
pub mod Numbers
pub mod Constants
pub mod Movement
pub mod Schema
pub mod Spawn
pub mod Combat
pub mod OutpostRespawn
pub mod Messages
pub mod Input
pub mod Nickname
pub mod Profile
pub mod Room
