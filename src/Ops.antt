-- ===== src/Ops.antt =====
-- apps/server/src/ops: the process as its operator sees it.
pub mod RuntimeLifecycle
