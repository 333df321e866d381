-- ===== src/Ops/RuntimeLifecycle.antt =====
-- apps/server/src/ops/runtimeLifecycle.ts: readiness and shutdown of the process.
pub mod Shutdown
use burning_space.Base.{ℕ, Bool, true, false, List, [], ◌∷◌}

pub data RuntimeLifecycleState : Type 0 where
  starting ready draining stopped failed : RuntimeLifecycleState

-- The status of `readiness`; its body follows the status.
abbrev pub readiness : RuntimeLifecycleState → ℕ
readiness ready = 200
readiness _ = 503

abbrev pub mark_ready : RuntimeLifecycleState → Bool × RuntimeLifecycleState
mark_ready starting = (true, ready)
mark_ready state = (false, state)

abbrev pub begin_shutdown : RuntimeLifecycleState → Bool × RuntimeLifecycleState
begin_shutdown starting = (true, draining)
begin_shutdown ready = (true, draining)
begin_shutdown state = (false, state)

abbrev pub complete_shutdown : RuntimeLifecycleState → Bool × RuntimeLifecycleState
complete_shutdown draining = (true, stopped)
complete_shutdown state = (false, state)

abbrev pub mark_failed : RuntimeLifecycleState → RuntimeLifecycleState
mark_failed state = failed
