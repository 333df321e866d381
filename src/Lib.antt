-- ===== src/Lib.antt =====
-- BurningSpace: the server's durable authority over a shared world, modelled and verified.
--
-- The program. A server process claims the writer of a world in PostgreSQL, under an epoch that each
-- takeover raises, and holds it by heartbeats (apps/server/src/persistence/writerLifecycle.ts). A
-- session that joins with a credential gets its authority over a ship in one transaction
-- (persistence/gameplayAuthority.ts): the writer and the credential are verified, the player's faction
-- is settled, and one gameplay lease for the player is acquired. Losing the connection marks the lease
-- as recovering, a reconnect resumes it before its deadline, leaving releases it, and a heartbeat of
-- the room renews it. The repositories (persistence/repositories) hold the SQL of each step, and
-- persistence/pool.ts the transaction around them. Requests from outside pass the rate limiters of
-- apps/server/src/security. The room (apps/server/src/rooms/BattleRoom.ts) flies the ships: it takes the
-- players' inputs, ticks the simulation of apps/server/src/systems while the process's authority is
-- safe, and lets each session control a ship as long as its binding says so.
--
-- The files.
--   Base              shared helpers: Boolean tests, lists, and tables as lists of rows with the
--                     SELECT, UPDATE and uniqueness of the SQL.
--   Persistence/Schema        the tables of the migration, with the columns that the code reads.
--   Persistence/Transaction   the transactions of the repositories, whose body returns with the tables
--                     as it left them or throws, and withTransaction of persistence/pool.ts, with the
--                     committed tables apart from those of the open transaction. Transaction/Preserves
--                     has the proof rules, Transaction/Rollback every way out of withTransaction.
--   Persistence/Players, Memberships, Worlds, Credentials, Leases
--                     the five repositories, one definition for each exported function. Keeps, below
--                     each, has the rule for the conditions that its statements keep; Worlds/Claims,
--                     Leases/Shape, Acquire, Recovery and Fencing say what the operations do.
--   Persistence/Authority     gameplayAuthority.ts: applyPlayerProfile, applySpectatorProfile,
--                     markSessionRecovering, resumeRecoveringSession, releaseSessionLease,
--                     renewSessionLease.
--   Persistence/History       sequences of these transactions, by any processes with any options, and
--                     what they keep.
--   Persistence/WriterLifecycle   the process's view of its authority, with each method that awaits
--                     the database split at the await, so that other steps come between.
--   Persistence/SessionBinding    the registry of the sessions of the process.
--   Persistence/RoomDependencies   the installations of persistence/productionRoomDependencies.ts.
--   Security/TokenBucket, Security/PeerRateLimiter    the rate limiters.
--   Ops/RuntimeLifecycle      readiness and shutdown of the process (apps/server/src/ops).
--   Game/Numbers      the numbers of JavaScript that coordinates and angles are, as an interface: a type
--                     with its operations. A theorem that needs one of their laws has it as a
--                     hypothesis. Health, identifiers, sequence numbers and times are natural numbers.
--   Game/Constants    packages/shared/src/constants.ts.
--   Game/Schema       apps/server/src/schema.
--   Game/Movement, Combat, Spawn, OutpostRespawn    apps/server/src/systems.
--   Game/Messages, Input, Nickname, Profile         apps/server/src/validation, and validateProfile of
--                     BattleRoom.ts, on JavaScript values of any type.
--   Game/Room         BattleRoom.ts: Room has the state, Ships, Weapons, Projectiles, Tick, Inputs,
--                     Profiles and Sessions the handlers, split at their awaits, Auth the admission of a
--                     client, and Events any sequence of the handlers. Invariants,
--                     Magazine, Fence, Generations, Leases and Reconnects have the theorems on them.
--   Examples          concrete inputs for the theorems.
--
-- How the code is read. A transaction runs alone: the code takes row locks in one order (world,
-- player, credential, membership, lease), and transactions that hold them follow one another. A SQL
-- statement is a function on the list of rows; an INSERT with ON CONFLICT DO NOTHING inserts on a
-- free key only, and a row that breaks another unique or foreign key of the tables of leases or
-- credentials is an error. The foreign keys of the memberships, which follow the locks on the world
-- and the player, and the CHECKs that a text is not blank are left out. Each reading of
-- clock_timestamp() in a statement is an argument of its own (Moment), and nothing orders the
-- readings. Identifiers, hashes and slugs are only compared, and are natural numbers; a time is a
-- number of microseconds, and Date.getTime() drops to milliseconds. The numbers are unbounded: the
-- epochs and revisions are BIGINT columns and JavaScript bigints, which do not reach their bound.
-- The tokens, capacities and rates of the token bucket are numbers of Game/Numbers, so that its
-- rounding is the source's; its clock reads whole milliseconds. The loops of normalizeAngle are the
-- only ones that are not over a list: they run on fuel, a number of rounds, and a definition that
-- uses them answers none when it is not enough. An angle needs one round more than the turns that
-- bring it into range. A theorem on a run of the room is on a run in which no loop lacks fuel, for
-- any fuel.
-- A handler of the room runs to its next await without another in between. What it awaits, its clocks
-- and whether the writer's authority is safe are arguments of the step, and the transactions whose
-- answer it does not use are its effects. The room's limiters are those of Security/TokenBucket, and a
-- limiter that throws ends the handler. Both clocks of the room read whole milliseconds.
--
-- Not modelled: the queue of the profile operations of a session and the single flight of the
-- lease heartbeat in the room, the HTTP endpoints, the network boundary, the wiring of the process, its
-- logs and settings, migrations, cryptography, the balance and map data, and the client.
mod Base
pub mod Game
pub mod Ops
pub mod Persistence
pub mod Security
pub mod Examples
