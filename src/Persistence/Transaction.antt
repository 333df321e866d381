-- ===== src/Persistence/Transaction.antt =====
-- Transactions: `withTransaction` of apps/server/src/persistence/pool.ts, and the BEGIN, COMMIT and
-- ROLLBACK of the repositories that manage their own. The body of a transaction either returns with
-- the tables as it left them, or throws; a callback of `withTransaction` leaves tables in both cases.
pub mod Preserves
pub mod Rollback
use burning_space.Base.{
  ℕ, zero, suc, ◌+◌, ◌-◌, leb, if◌then◌else◌, Bool, true, false, not, Option, none, some,
}
use burning_space.Persistence.Schema.{Db}

pub data Failure : Type 0 where
  admission_limit connection_failed query_failed commit_unacknowledged : Failure
  not_positive world_not_found world_retired domain_version_mismatch : Failure
  row_lost no_row no_faction : Failure

pub data Result {ℓ} (A : Type ℓ) : Type ℓ where
  ok : A → Result A
  throw : Failure → Result A

abbrev pub Tx : Type 0 → Type 0
Tx A = Db → Result (A × Db)

infixl 5 ◌>>=◌ ◌>>◌
abbrev pub ◌>>=◌ : {A B : Type 0} → Tx A → (A → Tx B) → Tx B
◌>>=◌ m f db = elim (m db) [ ok (a, db') ↦ f a db' | throw e ↦ throw e ]

abbrev pub ◌>>◌ : {A B : Type 0} → Tx A → Tx B → Tx B
m >> k = m >>= λ _. k

abbrev pub return : {A : Type 0} → A → Tx A
return a db = ok (a, db)

abbrev pub fail : {A : Type 0} → Failure → Tx A
fail e db = throw e

-- `requirePositiveInteger`.
abbrev pub require_positive_integer : {A : Type 0} → ℕ → Tx A → Tx A
require_positive_integer zero k = fail not_positive
require_positive_integer (suc n) k = k

-- BEGIN, the body, COMMIT; ROLLBACK and rethrow if the body throws.
unfoldable pub run_transaction : {A : Type 0} → Tx A → Db → Result A × Db
run_transaction m db = elim (m db) [ ok (a, db') ↦ (ok a, db') | throw e ↦ (throw e, db) ]

-- `POOL_MAX_PENDING_OPERATIONS`.
abbrev pub pool_max_pending_operations : ℕ
pool_max_pending_operations = 50

-- The counter `pendingOperationCount`, the connections that are checked out, the committed tables,
-- and those that the transaction open on the connection works on.
pub record PoolState : Type 0 where
  pub pending_operation_count : ℕ
  pub checked_out : ℕ
  pub committed : Db
  pub open_tables : Option Db

-- A COMMIT is acknowledged, or its answer is lost, whether or not the server had applied it.
pub data CommitAnswer : Type 0 where
  acknowledged commit_lost commit_applied_unseen : CommitAnswer

-- What `pool.connect()` and the three statements answer; false is a rejection.
pub record PoolAnswers : Type 0 where
  pub connects : Bool
  pub begins : Bool
  pub commit : CommitAnswer
  pub rolls_back : Bool

-- A callback leaves the tables as its statements made them, also when it throws.
abbrev pub Callback : Type 0 → Type 0
Callback A = Db → Result A × Db

abbrev pub begin : PoolState → PoolState
begin s = record s { open_tables = some s.committed }

-- Statements outside a transaction commit by themselves.
abbrev pub call : {A : Type 0} → Callback A → PoolState → Result A × PoolState
call body s = elim s.open_tables [
  | none ↦ ((body s.committed).0, record s { committed = (body s.committed).1 })
  | some db ↦ ((body db).0, record s { open_tables = some (body db).1 })
]

abbrev pub publish : PoolState → PoolState
publish s = elim s.open_tables [
  | none ↦ s
  | some db ↦ record s { committed = db; open_tables = none }
]

abbrev pub rollback : Bool → PoolState → PoolState
rollback true s = record s { open_tables = none }
rollback false s = s

-- `COMMIT`, and the ROLLBACK of the catch when it rejects.
abbrev pub commit : {A : Type 0} → CommitAnswer → Bool → A → PoolState → Result A × PoolState
commit acknowledged rolls_back a s = (ok a, publish s)
commit commit_lost rolls_back a s = (throw commit_unacknowledged, rollback rolls_back s)
commit commit_applied_unseen rolls_back a s =
    (throw commit_unacknowledged, rollback rolls_back (publish s))

-- The inner `try` after the callback.
abbrev pub settle : {A : Type 0} → PoolAnswers → Result A × PoolState → Result A × PoolState
settle answers (ok a, s) = commit answers.commit answers.rolls_back a s
settle answers (throw e, s) = (throw e, rollback answers.rolls_back s)

-- The outer `try`: a BEGIN that rejects goes to `finally` at once.
unfoldable pub transact : {A : Type 0} → PoolAnswers → Callback A → PoolState → Result A × PoolState
transact answers body s =
    if answers.begins then settle answers (call body (begin s)) else (throw query_failed, s)

abbrev pub enter : PoolState → PoolState
enter s = record s { pending_operation_count = s.pending_operation_count + 1 }

abbrev pub leave : PoolState → PoolState
leave s = record s { pending_operation_count = s.pending_operation_count - 1 }

abbrev pub check_out : PoolState → PoolState
check_out s = record s { checked_out = s.checked_out + 1 }

abbrev pub release : PoolState → PoolState
release s = record s { checked_out = s.checked_out - 1 }

-- `withTransaction`: the counter comes down in the catch of `connect`, and in `finally`.
unfoldable pub with_transaction :
    {A : Type 0} → PoolAnswers → Callback A → PoolState → Result A × PoolState
unfolding transact
with_transaction answers body s =
    if leb pool_max_pending_operations s.pending_operation_count
    then (throw admission_limit, s)
    else if not answers.connects
    then (throw connection_failed, leave (enter s))
    else (
      (transact answers body (check_out (enter s))).0,
      leave (release (transact answers body (check_out (enter s))).1),
    )
