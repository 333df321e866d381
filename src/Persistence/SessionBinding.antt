-- ===== src/Persistence/SessionBinding.antt =====
-- apps/server/src/persistence/sessionBinding.ts: which durable identity each session of the process
-- has. The `Map` is the list of its bindings in the order of insertion, which has one entry for a
-- session identifier.
pub mod Passed
pub mod Generations
use mathlib.Core.Option
use burning_space.Base.{
  ℕ, ◌+◌, ◌++◌, Bool, true, false, ◌&&◌, Option, none, some, is_some, List, [], ◌∷◌, ◌==◌,
  is_some_eq, if◌then◌else◌, find_where, update_where,
}

pub data HeldLeaseStatus : Type 0 where
  active recovering : HeldLeaseStatus

pub record SessionBinding : Type 0 where
  pub session_id : ℕ
  pub player_id : ℕ
  pub credential_id : ℕ
  pub world_id : ℕ
  pub connection_generation : ℕ
  pub control_allowed : Bool
  pub lease_id : Option ℕ
  pub lease_status : Option HeldLeaseStatus

pub record ActiveLeaseBinding : Type 0 where
  pub session_id : ℕ
  pub player_id : ℕ
  pub lease_id : ℕ

pub record BindFreshSessionAuth : Type 0 where
  pub player_id : ℕ
  pub credential_id : ℕ
  pub world_id : ℕ

abbrev pub Bindings : Type 0
Bindings = List SessionBinding

abbrev pub is_session : ℕ → SessionBinding → Bool
is_session session binding = binding.session_id == session

-- `get`.
abbrev pub get : ℕ → Bindings → Option SessionBinding
get session bindings = find_where (is_session session) bindings

-- `Map.set`: an entry of the key keeps its place.
abbrev pub set : SessionBinding → Bindings → Bindings
set binding bindings =
    if is_some (get binding.session_id bindings)
    then update_where (is_session binding.session_id) (λ _. binding) bindings
    else bindings ++ (binding ∷ [])

abbrev pub fresh_binding : ℕ → BindFreshSessionAuth → SessionBinding
fresh_binding session auth = record {
  session_id = session;
  player_id = auth.player_id;
  credential_id = auth.credential_id;
  world_id = auth.world_id;
  connection_generation = 0;
  control_allowed = true;
  lease_id = none;
  lease_status = none;
}

abbrev pub bind_fresh_session : ℕ → BindFreshSessionAuth → Bindings → Bindings
bind_fresh_session session auth bindings = set (fresh_binding session auth) bindings

-- A field of the session's binding, if it has one, set.
abbrev pub change : ℕ → (SessionBinding → SessionBinding) → Bindings → Bindings
change session f bindings = update_where (is_session session) f bindings

abbrev pub next_generation : SessionBinding → SessionBinding
next_generation binding = record binding {
  connection_generation = binding.connection_generation + 1;
}

abbrev pub begin_connection_generation : ℕ → Bindings → Option ℕ × Bindings
begin_connection_generation session bindings = (
  Option.map (λ binding. binding.connection_generation + 1) (get session bindings),
  change session next_generation bindings,
)

abbrev pub has_generation : ℕ → Option SessionBinding → Bool
has_generation generation none = false
has_generation generation (some binding) = binding.connection_generation == generation

abbrev pub is_current_generation : ℕ → ℕ → Bindings → Bool
is_current_generation session generation bindings = has_generation generation (get session bindings)

abbrev pub set_control_allowed : ℕ → Bool → Bindings → Bindings
set_control_allowed session allowed =
    change session (λ binding. record binding { control_allowed = allowed })

abbrev pub is_control_allowed : ℕ → Bindings → Bool
is_control_allowed session bindings = elim (get session bindings) [
  | none ↦ false
  | some binding ↦ binding.control_allowed
]

-- `remove`.
abbrev pub without : ℕ → Bindings → Bindings
without session [] = []
without session (binding ∷ bindings) =
    if is_session session binding then bindings else binding ∷ without session bindings

abbrev pub remove : ℕ → Bindings → Bool × Bindings
remove session bindings = (is_some (get session bindings), without session bindings)

abbrev pub set_lease : ℕ → ℕ → HeldLeaseStatus → Bindings → Bindings
set_lease session lease status =
    change session (λ binding. record binding { lease_id = some lease; lease_status = some status })

abbrev pub clear_lease : ℕ → Bindings → Bindings
clear_lease session =
    change session (λ binding. record binding { lease_id = none; lease_status = none })

abbrev pub renewable : SessionBinding → Option HeldLeaseStatus → Option ℕ → List ActiveLeaseBinding
renewable binding (some active) (some lease) =
    if binding.control_allowed
    then record { session_id = binding.session_id; player_id = binding.player_id; lease_id = lease }
      ∷ []
    else []
renewable binding _ _ = []

abbrev pub snapshot_active_lease_bindings : Bindings → List ActiveLeaseBinding
snapshot_active_lease_bindings [] = []
snapshot_active_lease_bindings (binding ∷ bindings) =
    renewable binding binding.lease_status binding.lease_id
    ++ snapshot_active_lease_bindings bindings
