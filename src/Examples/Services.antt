-- ===== src/Examples/Services.antt =====
-- The theorems on the writer's lifecycle, the sessions and the rate limiters, on small inputs.
use burning_space.Persistence.RoomDependencies
use burning_space.Persistence.RoomDependencies.{
  InstallationCall, installs, restores, none_installed, get_active_production_room_dependencies,
}
use burning_space.Persistence.RoomDependencies.Stack
use burning_space.Persistence.RoomDependencies.Stack.{after_calls-head}
use burning_space.Persistence.WriterLifecycle.Losses.{failed_told}
use burning_space.Ops.RuntimeLifecycle.Shutdown
use burning_space.Persistence.Transaction.Rollback.{EndsIn, resting, with_transaction_ends}
use burning_space.Persistence.Transaction.{
  throw, no_row, admission_limit, Callback, PoolAnswers, acknowledged, with_transaction,
  pool_max_pending_operations,
}
use burning_space.Persistence.Schema.{Db}
use burning_space.Ops.RuntimeLifecycle.{ready, draining, readiness, mark_ready, begin_shutdown}
use burning_space.Ops.RuntimeLifecycle.Shutdown.{
  marks_ready, completes_shutdown, after_begin_shutdown,
}
use burning_space.Base.{
  ◌≢◌, ◌⊎◌, leb, ℕ, ◌≡◌, ◌≤◌, refl, arith, none, some, true, false, List, [], ◌∷◌, length,
}
use burning_space.Persistence.WriterLifecycle.{
  claim_throws, apply, WriterEvent, WriterLifecycle, initial, failed, claimed, renewed, conflict,
  claim_answer, starts_heartbeat, heartbeat, heartbeat_answer, connection_error_event, apply_all,
  is_control_safe,
}
use burning_space.Persistence.WriterLifecycle.Authority.{
  IsBacked, is_control_safe-IsBacked, terminal_unsafe,
}
use burning_space.Persistence.SessionBinding.{
  Bindings, bind_fresh_session, begin_connection_generation, is_current_generation,
}
use burning_space.Persistence.SessionBinding.Generations.{
  RegistryCall, allows, binds, removes, after_calls, stale_generation,
}
use burning_space.Examples.FixedPoint.{fixed, fixed-IsAsymmetric}
use burning_space.Security.TokenBucket.{TokenBucketRateLimiterOptions, Buckets}
use burning_space.Security.TokenBucket.Bounds.{admitted, admitted_bound, CountsDown}
use burning_space.Security.PeerRateLimiter.{PeerRateLimiterOptions, PeerRateLimiter}
use burning_space.Security.PeerRateLimiter.Capacity.{consume_all, consume_all_bounded}

-- A claim after one conflict, and a heartbeat.
abbrev events : List WriterEvent
events =
    claim_answer conflict 1000
    ∷ claim_answer (claimed 4 16000) 2000
    ∷ starts_heartbeat
    ∷ heartbeat 7000
    ∷ heartbeat_answer (renewed 22000) 7000 7100
    ∷ []

is_control_safe-IsBacked_example : IsBacked 10000 12000 events
unfolding apply_all apply
is_control_safe-IsBacked_example = is_control_safe-IsBacked 30000 10000 12000 events refl

abbrev failed_lifecycle : WriterLifecycle
failed_lifecycle = record initial { state_value = failed; last_confirmed_heartbeat_at = some 7100 }

abbrev late_events : List WriterEvent
late_events =
    heartbeat_answer (renewed 23000) 7900 8000 ∷ starts_heartbeat ∷ connection_error_event ∷ []

terminal_unsafe_example :
    is_control_safe 10000 8100 (apply_all 30000 10000 late_events failed_lifecycle) ≡ false
terminal_unsafe_example =
    terminal_unsafe 30000 10000 8100 late_events failed_lifecycle (tt, (tt, (tt, tt))) refl

abbrev bound_session : Bindings
bound_session = bind_fresh_session 7 (record { player_id = 2; credential_id = 4; world_id = 1 }) []

-- The session 7 leaves, and another one comes and goes.
abbrev before_calls : List RegistryCall
before_calls =
    allows 7 false ∷ binds 8 (record { player_id = 3; credential_id = 5; world_id = 1 }) ∷ []

abbrev after_calls_of_8 : List RegistryCall
after_calls_of_8 = removes 8 ∷ allows 7 true ∷ []

stale_generation_example :
    is_current_generation 7 1 (
      after_calls after_calls_of_8
        (begin_connection_generation 7
          (after_calls before_calls (begin_connection_generation 7 bound_session).1)).1)
    ≡ false
stale_generation_example =
    stale_generation 7 1 bound_session before_calls after_calls_of_8 (λ h. refl, tt)
      (tt, (refl, tt)) (tt, (tt, tt)) refl

-- Two requests at once, and one a minute.
abbrev bucket_options : TokenBucketRateLimiterOptions fixed
bucket_options = record { capacity = (2000, 0); refill_rate_per_second = (17, 0) }

abbrev no_buckets : Buckets fixed
no_buckets key = none

fixed-CountsDown : CountsDown fixed 2
fixed-CountsDown = record {
  asymmetric = fixed-IsAsymmetric;
  transitive = λ a b c h k. ground (arith, h, k);
  refills_nothing = λ tokens rate. ground arith;
  takes_one = λ tokens k b h. ground (arith, h);
  none_left = λ tokens h. ground (arith, h);
}

admitted_bound_example : admitted fixed bucket_options 3 100 (3 ∷ 4 ∷ 3 ∷ 3 ∷ []) no_buckets ≤ 2
admitted_bound_example =
    admitted_bound fixed 2 fixed-CountsDown bucket_options 3 100 (3 ∷ 4 ∷ 3 ∷ 3 ∷ []) no_buckets
      refl

abbrev peer_options : PeerRateLimiterOptions fixed
peer_options = record { bucket = bucket_options; max_buckets = 1; idle_eviction_ms = 5000 }

abbrev no_peers : PeerRateLimiter fixed
no_peers = record { limiter = no_buckets; last_access_at = [] }

consume_all_bounded_example :
    length
      (consume_all fixed peer_options ((3, 100, 100) ∷ (4, 200, 200) ∷ []) no_peers).last_access_at
    ≤ 1
consume_all_bounded_example =
    consume_all_bounded fixed peer_options ((3, 100, 100) ∷ (4, 200, 200) ∷ []) no_peers
      (omega arith)

after_begin_shutdown_example :
    (readiness (Shutdown.after_calls (completes_shutdown ∷ marks_ready ∷ []) draining) ≡ 503)
    × ((mark_ready (Shutdown.after_calls (completes_shutdown ∷ marks_ready ∷ []) draining)).0
        ≡ false)
    × ((begin_shutdown (Shutdown.after_calls (completes_shutdown ∷ marks_ready ∷ []) draining)).0
        ≡ false)
after_begin_shutdown_example =
    after_begin_shutdown ready (completes_shutdown ∷ marks_ready ∷ []) refl

abbrev no_tables : Db
no_tables = record { worlds = []; players = []; credentials = []; memberships = []; leases = [] }

-- A callback that inserts a player and then throws.
abbrev failing : Callback ℕ
failing db =
    (throw no_row, record db { players = record { player_id = 2; display_name = none } ∷ [] })

abbrev pool_answers : PoolAnswers
pool_answers = record { connects = true; begins = true; commit = acknowledged; rolls_back = true }

with_transaction_ends_example :
    ((leb pool_max_pending_operations 3 ≡ true)
      × (with_transaction pool_answers failing (resting 3 1 no_tables)
          ≡ (throw admission_limit, resting 3 1 no_tables)))
    ⊎ ((leb pool_max_pending_operations 3 ≡ false)
        × EndsIn pool_answers failing
            (resting 3 1 no_tables)
            (with_transaction pool_answers failing (resting 3 1 no_tables)))
with_transaction_ends_example = with_transaction_ends pool_answers failing 3 1 no_tables

-- A claim that throws.
abbrev failing_events : List WriterEvent
failing_events = claim_answer conflict 1000 ∷ claim_answer claim_throws 2000 ∷ []

failed_told_example : (apply_all 30000 10000 failing_events initial).authority_losses ≢ []
unfolding apply_all apply
failed_told_example = failed_told 30000 10000 failing_events refl

-- Three installations, of which the second and the third are restored.
abbrev installation_calls : List (InstallationCall ℕ)
installation_calls =
    installs 70 ∷ installs 80 ∷ installs 90 ∷ restores 1 ∷ restores 2 ∷ restores 1 ∷ []

after_calls-head_example :
    get_active_production_room_dependencies ℕ
      (RoomDependencies.after_calls ℕ installation_calls (none_installed ℕ))
    ≡ some 70
unfolding Stack.apply_calls
after_calls-head_example = after_calls-head ℕ installation_calls
