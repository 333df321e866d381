-- ===== src/Ops/RuntimeLifecycle/Shutdown.antt =====
-- A shutdown happens once, and is final.
use burning_space.Base.{◌≡◌, refl, Bool, true, false, List, [], ◌∷◌}
use burning_space.Ops.RuntimeLifecycle.{
  RuntimeLifecycleState, starting, ready, draining, stopped, failed, readiness, mark_ready,
  begin_shutdown, complete_shutdown, mark_failed,
}

pub data LifecycleCall : Type 0 where
  marks_ready begins_shutdown completes_shutdown marks_failed : LifecycleCall

-- What a call answers, and the state after it; `markFailed` answers nothing.
unfoldable pub call_result : LifecycleCall → RuntimeLifecycleState → Bool × RuntimeLifecycleState
call_result marks_ready state = mark_ready state
call_result begins_shutdown state = begin_shutdown state
call_result completes_shutdown state = complete_shutdown state
call_result marks_failed state = (false, mark_failed state)

unfoldable pub after_calls : List LifecycleCall → RuntimeLifecycleState → RuntimeLifecycleState
unfolding call_result
after_calls [] state = state
after_calls (call ∷ calls) state = after_calls calls (call_result call state).1

abbrev is_over : RuntimeLifecycleState → Bool
is_over starting = false
is_over ready = false
is_over _ = true

over_lem :
    (call : LifecycleCall) (state : RuntimeLifecycleState)
    → is_over state ≡ true
    → is_over (call_result call state).1 ≡ true
unfolding call_result
over_lem marks_ready starting e = cc
over_lem marks_ready ready e = cc
over_lem marks_ready draining e = refl
over_lem marks_ready stopped e = refl
over_lem marks_ready failed e = refl
over_lem begins_shutdown starting e = refl
over_lem begins_shutdown ready e = refl
over_lem begins_shutdown draining e = refl
over_lem begins_shutdown stopped e = refl
over_lem begins_shutdown failed e = refl
over_lem completes_shutdown starting e = e
over_lem completes_shutdown ready e = e
over_lem completes_shutdown draining e = refl
over_lem completes_shutdown stopped e = refl
over_lem completes_shutdown failed e = refl
over_lem marks_failed state e = refl

over_all :
    (calls : List LifecycleCall) (state : RuntimeLifecycleState)
    → is_over state ≡ true
    → is_over (after_calls calls state) ≡ true
unfolding after_calls
over_all [] state e = e
over_all (call ∷ calls) state e = over_all calls (call_result call state).1 (over_lem call state e)

over_refuses :
    (state : RuntimeLifecycleState)
    → is_over state ≡ true
    → (readiness state ≡ 503) × ((mark_ready state).0 ≡ false) × ((begin_shutdown state).0 ≡ false)
over_refuses starting e = cc
over_refuses ready e = cc
over_refuses draining e = (refl, refl, refl)
over_refuses stopped e = (refl, refl, refl)
over_refuses failed e = (refl, refl, refl)

begun_lem :
    (state : RuntimeLifecycleState)
    → (begin_shutdown state).0 ≡ true
    → is_over (begin_shutdown state).1 ≡ true
begun_lem starting e = refl
begun_lem ready e = refl
begun_lem draining e = refl
begun_lem stopped e = refl
begun_lem failed e = refl

-- Once `beginShutdown` has answered true, then after any further calls the process reports that it is
-- not ready, and neither `markReady` nor `beginShutdown` answers true again.
pub after_begin_shutdown :
    (state : RuntimeLifecycleState) (calls : List LifecycleCall)
    → (begin_shutdown state).0 ≡ true
    → (readiness (after_calls calls (begin_shutdown state).1) ≡ 503)
      × ((mark_ready (after_calls calls (begin_shutdown state).1)).0 ≡ false)
      × ((begin_shutdown (after_calls calls (begin_shutdown state).1)).0 ≡ false)
after_begin_shutdown state calls e =
    over_refuses (after_calls calls (begin_shutdown state).1)
      (over_all calls (begin_shutdown state).1 (begun_lem state e))
