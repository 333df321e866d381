-- ===== src/Persistence.antt =====
-- The durable world: apps/server/src/persistence.
pub mod Schema
pub mod Transaction
pub mod Leases
pub mod Players
pub mod Memberships
pub mod Worlds
pub mod Credentials
pub mod Authority
pub mod WriterLifecycle
pub mod SessionBinding
pub mod History
pub mod RoomDependencies
