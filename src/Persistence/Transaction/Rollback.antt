-- ===== src/Persistence/Transaction/Rollback.antt =====
-- What `withTransaction` leaves behind.
use burning_space.Base.{
  if◌then◌else◌, ℕ, ◌+◌, ◌-◌, ◌≡◌, ◌⊎◌, refl, arith, inl, inr, Bool, true, false, none, some,
  Bool-cases, leb, not,
}
use burning_space.Persistence.Schema.{Db}
use burning_space.Persistence.Transaction.{
  connection_failed, admission_limit, rollback, query_failed, commit, Failure, Result, ok, throw,
  commit_unacknowledged, PoolState, PoolAnswers, CommitAnswer, acknowledged, commit_lost,
  commit_applied_unseen, Callback, begin, call, settle, transact, enter, leave, check_out, release,
  with_transaction, pool_max_pending_operations,
}

-- Why a call throws after it was admitted: no connection, no BEGIN, the callback's own failure, or a
-- COMMIT that was lost.
pub data FailsBy {A : Type 0} (answers : PoolAnswers) (body : Callback A) (db : Db)
    : Failure → Type 0 where
  unconnected : answers.connects ≡ false → FailsBy answers body db connection_failed
  not_begun : answers.begins ≡ false → FailsBy answers body db query_failed
  thrown_by : (e : Failure) (tables : Db) → body db ≡ (throw e, tables) → FailsBy answers body db e
  lost : answers.commit ≡ commit_lost → FailsBy answers body db commit_unacknowledged

-- How a call ends, by its result and the state after it. `s` is the state before.
pub data Ending {A : Type 0} (answers : PoolAnswers) (body : Callback A) (s : PoolState)
    : Result A → PoolState → Type 0 where
  returned :
      (a : A) (db : Db)
      → body s.committed ≡ (ok a, db)
      → answers.commit ≡ acknowledged
      → Ending answers body s (ok a) (record s { committed = db })
  undone : (e : Failure) → FailsBy answers body s.committed e → Ending answers body s (throw e) s
  unseen :
      (a : A) (db : Db)
      → body s.committed ≡ (ok a, db)
      → answers.commit ≡ commit_applied_unseen
      → Ending answers body s (throw commit_unacknowledged) (record s { committed = db })
  left_open :
      (e : Failure) (db : Db)
      → FailsBy answers body s.committed e
      → answers.rolls_back ≡ false
      → Ending answers body s (throw e) (record s { open_tables = some db })

-- No transaction is open.
abbrev pub resting : ℕ → ℕ → Db → PoolState
resting pending out db = record {
  pending_operation_count = pending;
  checked_out = out;
  committed = db;
  open_tables = none;
}

module _ {A : Type 0} (answers : PoolAnswers) (body : Callback A) where
  abbrev pub EndsIn : PoolState → Result A × PoolState → Type 0
  EndsIn s (r, after) = Ending answers body s r after

  module _ (pending out : ℕ) (db : Db) where
    thrown :
        (e : Failure) (d : Db) (b : Bool)
        → FailsBy answers body db e
        → answers.rolls_back ≡ b
        → Ending answers body
            (resting pending out db)
            (throw e)
            (rollback b (record (resting pending out db) { open_tables = some d }))
    thrown e d true why rolled = undone e why
    thrown e d false why rolled = left_open e d why rolled

    committed :
        (a : A) (d : Db) (k : CommitAnswer) (b : Bool)
        → body db ≡ (ok a, d)
        → answers.commit ≡ k
        → answers.rolls_back ≡ b
        → EndsIn
            (resting pending out db)
            (commit k b a (record (resting pending out db) { open_tables = some d }))
    committed a d acknowledged b e k rolled = returned a d e k
    committed a d commit_lost b e k rolled = thrown commit_unacknowledged d b (lost k) rolled
    committed a d commit_applied_unseen true e k rolled = unseen a d e k
    committed a d commit_applied_unseen false e k rolled = unseen a d e k

    settled :
        (r : Result A) (d : Db)
        → body db ≡ (r, d)
        → EndsIn
            (resting pending out db)
            (settle answers (r, record (resting pending out db) { open_tables = some d }))
    settled (ok a) d e = committed a d answers.commit answers.rolls_back e refl refl
    settled (throw f) d e = thrown f d answers.rolls_back (thrown_by f d e) refl

    begun :
        (b : Bool)
        → answers.begins ≡ b
        → EndsIn (resting pending out db) (
            if b
            then settle answers (call body (begin (resting pending out db)))
            else (throw query_failed, resting pending out db))
    begun true e = settled (body db).0 (body db).1 refl
    begun false e = undone query_failed (not_begun e)

    transact_ends : EndsIn (resting pending out db) (transact answers body (resting pending out db))
    unfolding transact
    transact_ends = begun answers.begins refl

    one_less : (n : ℕ) → (n + 1) - 1 ≡ n
    one_less n = omega arith

    left :
        (r : Result A) (after : PoolState)
        → Ending answers body (resting (pending + 1) (out + 1) db) r after
        → Ending answers body (resting pending out db) r (leave (release after))
    left r after (returned a d e k) = rw (one_less pending, one_less out) (returned a d e k)
    left r after (undone e why) = rw (one_less pending, one_less out) (undone e why)
    left r after (unseen a d e k) = rw (one_less pending, one_less out) (unseen a d e k)
    left r after (left_open e d why rolled) =
        rw (one_less pending, one_less out) (left_open e d why rolled)

module _ {A : Type 0} (answers : PoolAnswers) (body : Callback A) (pending out : ℕ) (db : Db) where
  entered :
      (connects : Bool)
      → answers.connects ≡ connects
      → EndsIn answers body (resting pending out db) (
          if not connects
          then (throw connection_failed, leave (enter (resting pending out db)))
          else (
            (transact answers body (check_out (enter (resting pending out db)))).0,
            leave (release (transact answers body (check_out (enter (resting pending out db)))).1),
          ))
  entered false e =
      rw (one_less answers body pending out db pending) (undone connection_failed (unconnected e))
  entered true e =
      left answers body pending out db _ _ (transact_ends answers body (pending + 1) (out + 1) db)

-- Every way out of `withTransaction`, from a state where no transaction is open, whatever the
-- connection answers and whatever the callback does to the tables before it returns or throws. At the
-- limit of pending operations it throws and changes nothing. Otherwise the counter of pending
-- operations and the number of connections checked out are at the end what they were before. If it
-- returns, COMMIT was acknowledged, the callback returned that value, and its tables are the committed
-- ones. If it throws, then for want of a connection, of BEGIN, by the callback's own failure or for a
-- lost COMMIT, and nothing has changed, but for two cases: the server applied a COMMIT whose answer was
-- lost; or the ROLLBACK was rejected, and the transaction may be open still, with the committed tables
-- as before.
pub with_transaction_ends :
    {A : Type 0} (answers : PoolAnswers) (body : Callback A) (pending out : ℕ) (db : Db)
    → ((leb pool_max_pending_operations pending ≡ true)
        × (with_transaction answers body (resting pending out db)
            ≡ (throw admission_limit, resting pending out db)))
      ⊎ ((leb pool_max_pending_operations pending ≡ false)
          × EndsIn answers body
              (resting pending out db)
              (with_transaction answers body (resting pending out db)))
unfolding with_transaction
with_transaction_ends answers body pending out db =
    elim (Bool-cases (leb pool_max_pending_operations pending)) [
      | inl full ↦ inl (full, rw (full, with_transaction) refl)
      | inr room ↦ inr (
        room,
        rw (room, with_transaction) (entered answers body pending out db answers.connects refl),
      )
    ]
