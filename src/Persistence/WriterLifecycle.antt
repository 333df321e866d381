-- ===== src/Persistence/WriterLifecycle.antt =====
-- apps/server/src/persistence/writerLifecycle.ts: a process's view of its writer authority over the
-- world. A method that awaits the repository is two steps here, one up to the call and one from its
-- answer on, and other steps may come between them.
pub mod Authority
pub mod Losses
use burning_space.Base.{
  ℕ, ◌+◌, Bool, true, false, Option, none, some, List, [], ◌∷◌, leb, ltb, is_some, if◌then◌else◌,
}

-- The times of the clock are `MonotonicClock` readings, in milliseconds.
pub data WriterLifecycleState : Type 0 where
  claiming owning failed released : WriterLifecycleState

pub data WriterAuthorityLossReason : Type 0 where
  claim_error heartbeat_error heartbeat_zero_rows connection_error : WriterAuthorityLossReason
  connection_closed local_safety_deadline_expired : WriterAuthorityLossReason

-- The private fields, and the calls of `onAuthorityLost`, the latest first.
pub record WriterLifecycle : Type 0 where
  pub state_value : WriterLifecycleState
  pub writer_epoch_value : Option ℕ
  pub writer_expires_at_value : Option ℕ
  pub last_confirmed_heartbeat_at : Option ℕ
  pub has_heartbeat_timer : Bool
  pub authority_losses : List WriterAuthorityLossReason

abbrev pub initial : WriterLifecycle
initial = record {
  state_value = claiming;
  writer_epoch_value = none;
  writer_expires_at_value = none;
  last_confirmed_heartbeat_at = none;
  has_heartbeat_timer = false;
  authority_losses = [];
}

abbrev pub is_owning : WriterLifecycleState → Bool
is_owning owning = true
is_owning _ = false

abbrev pub is_failed : WriterLifecycleState → Bool
is_failed failed = true
is_failed _ = false

abbrev pub is_released : WriterLifecycleState → Bool
is_released released = true
is_released _ = false

-- The states in which `claim()` throws at once.
abbrev pub is_terminal : WriterLifecycleState → Bool
is_terminal failed = true
is_terminal released = true
is_terminal _ = false

-- `isHeartbeatWithinLocalSafetyDeadline`.
abbrev pub is_heartbeat_within_local_safety_deadline : ℕ → ℕ → ℕ → Bool
is_heartbeat_within_local_safety_deadline started response deadline =
    ltb response (started + deadline)

abbrev pub stop_heartbeat : WriterLifecycle → WriterLifecycle
stop_heartbeat s = record s { has_heartbeat_timer = false }

abbrev pub lose : WriterAuthorityLossReason → WriterLifecycle → WriterLifecycle
lose reason s = record s { state_value = failed; authority_losses = reason ∷ s.authority_losses }

-- `fail`.
abbrev pub fail : WriterAuthorityLossReason → WriterLifecycle → WriterLifecycle
fail reason s = if is_failed s.state_value then s else lose reason (stop_heartbeat s)

abbrev pub is_recent : Option ℕ → ℕ → ℕ → Bool
is_recent none now deadline = false
is_recent (some at) now deadline = ltb now (at + deadline)

-- `isControlSafe`, by the local safety deadline and the reading of the clock.
abbrev pub is_control_safe : ℕ → ℕ → WriterLifecycle → Bool
is_control_safe deadline now s =
    if is_owning s.state_value then is_recent s.last_confirmed_heartbeat_at now deadline else false

pub data ClaimAnswer : Type 0 where
  claim_throws conflict : ClaimAnswer
  -- The epoch and the expiry.
  claimed : ℕ → ℕ → ClaimAnswer

-- From an answer of `claimWorldWriter` on; after a conflict before the boot deadline the loop asks
-- again.
abbrev pub claim_answered : ℕ → ClaimAnswer → ℕ → WriterLifecycle → WriterLifecycle
claim_answered boot_deadline claim_throws now s = lose claim_error s
claim_answered boot_deadline (claimed epoch expires) now s = record s {
  writer_epoch_value = some epoch;
  writer_expires_at_value = some expires;
  state_value = owning;
  last_confirmed_heartbeat_at = some now;
}
claim_answered boot_deadline conflict now s =
    if leb boot_deadline now then lose claim_error s else s

abbrev pub start_heartbeat : WriterLifecycle → WriterLifecycle
start_heartbeat s = if is_owning s.state_value then record s { has_heartbeat_timer = true } else s

-- `performHeartbeat` up to the call of `renewWorldWriter`, and whether it makes the call.
abbrev pub heartbeat_begins : ℕ → ℕ → WriterLifecycle → Bool × WriterLifecycle
heartbeat_begins deadline now s =
    if is_owning s.state_value
    then (if is_control_safe deadline now s
        then (true, s)
        else (false, fail local_safety_deadline_expired s))
    else (false, s)

pub data RenewAnswer : Type 0 where
  renew_throws no_rows : RenewAnswer
  renewed : ℕ → RenewAnswer

-- From the answer on: the start of the request, and the reading of the clock after the answer.
abbrev pub heartbeat_answered : ℕ → RenewAnswer → ℕ → ℕ → WriterLifecycle → WriterLifecycle
heartbeat_answered deadline renew_throws started response s = fail heartbeat_error s
heartbeat_answered deadline no_rows started response s = fail heartbeat_zero_rows s
heartbeat_answered deadline (renewed expires) started response s =
    if is_heartbeat_within_local_safety_deadline started response deadline
    then record s {
      writer_expires_at_value = some expires;
      last_confirmed_heartbeat_at = some response;
    }
    else s

-- `release` up to the call of `releaseWorldWriter`, and whether it makes the call.
abbrev pub release_begins : WriterLifecycle → Bool × WriterLifecycle
release_begins s =
    (if is_released s.state_value then false else is_some s.writer_epoch_value, stop_heartbeat s)

abbrev pub release_answered : WriterLifecycle → WriterLifecycle
release_answered s = record s { state_value = released }

abbrev pub connection_ends : WriterLifecycle → WriterLifecycle
connection_ends s = elim s.state_value [
  | owning ↦ fail connection_closed s
  | claiming ↦ fail connection_closed s
  | failed ↦ s
  | released ↦ s
]

-- What may happen next in the process, with the clock's readings.
pub data WriterEvent : Type 0 where
  claim_answer : ClaimAnswer → ℕ → WriterEvent
  starts_heartbeat stops_heartbeat : WriterEvent
  heartbeat : ℕ → WriterEvent
  heartbeat_answer : RenewAnswer → ℕ → ℕ → WriterEvent
  release release_answer connection_error_event connection_end_event : WriterEvent

module _ (boot_deadline safety_deadline : ℕ) where
  unfoldable pub apply : WriterEvent → WriterLifecycle → WriterLifecycle
  apply (claim_answer answer now) s = claim_answered boot_deadline answer now s
  apply starts_heartbeat s = start_heartbeat s
  apply stops_heartbeat s = stop_heartbeat s
  apply (heartbeat now) s = (heartbeat_begins safety_deadline now s).1
  apply (heartbeat_answer answer started response) s =
      heartbeat_answered safety_deadline answer started response s
  apply release s = (release_begins s).1
  apply release_answer s = release_answered s
  apply connection_error_event s = fail connection_error s
  apply connection_end_event s = connection_ends s

  unfoldable pub apply_all : List WriterEvent → WriterLifecycle → WriterLifecycle
  apply_all [] s = s
  apply_all (event ∷ events) s = apply_all events (apply event s)
