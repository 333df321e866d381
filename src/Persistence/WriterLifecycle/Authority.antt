-- ===== src/Persistence/WriterLifecycle/Authority.antt =====
-- When a process may believe that it holds the world, and that it is told once it does not.
use burning_space.Base.{
  subst, ℕ, ◌≡◌, ◌<◌, ◌+◌, ◌⊎◌, refl, inl, inr, arith, true, false, Option, none, some, List, [],
  ◌∷◌, All, Bool-cases, Option-cases, ltb, leb,
}
use burning_space.Persistence.WriterLifecycle.{
  WriterLifecycle, WriterEvent, initial, apply, apply_all, is_control_safe, is_terminal,
  claim_answer, heartbeat_answer, claimed, claim_throws, conflict, renewed, renew_throws, no_rows,
  heartbeat, starts_heartbeat, stops_heartbeat, release, release_answer, connection_error_event,
  connection_end_event,
}

-- The event in which the database confirms the authority at a time: a claim, or a renewal that was
-- answered within the local safety deadline.
pub data Confirms (deadline at : ℕ) : WriterEvent → Type 0 where
  by_claim : (epoch expires : ℕ) → Confirms deadline at (claim_answer (claimed epoch expires) at)
  by_renewal :
      (expires started : ℕ)
      → at < started + deadline
      → Confirms deadline at (heartbeat_answer (renewed expires) started at)

pub data IsConfirmedIn (deadline at : ℕ) : List WriterEvent → Type 0 where
  here :
      (event : WriterEvent) (events : List WriterEvent)
      → Confirms deadline at event
      → IsConfirmedIn deadline at (event ∷ events)
  earlier :
      (event : WriterEvent) (events : List WriterEvent)
      → IsConfirmedIn deadline at events
      → IsConfirmedIn deadline at (event ∷ events)

module _ (boot deadline : ℕ) where
  abbrev last_of : WriterLifecycle → Option ℕ
  last_of s = s.last_confirmed_heartbeat_at

  apply_last :
      (event : WriterEvent) (s : WriterLifecycle) (at : ℕ)
      → last_of (apply boot deadline event s) ≡ some at
      → Confirms deadline at event ⊎ (last_of s ≡ some at)
  unfolding apply
  apply_last (claim_answer claim_throws now) s at e = inr e
  apply_last (claim_answer conflict now) s at e = elim (Bool-cases (leb boot now)) [
    | inl h ↦ inr (ground (arith, h, e))
    | inr h ↦ inr (ground (arith, h, e))
  ]
  apply_last (claim_answer (claimed epoch expires) now) s at e = inl (
      subst (λ n. Confirms deadline n (claim_answer (claimed epoch expires) now))
        (ground (arith, e)) (by_claim epoch expires))
  apply_last starts_heartbeat s at e = inr (ground (arith, e))
  apply_last stops_heartbeat s at e = inr e
  apply_last (heartbeat now) s at e = inr (ground (arith, e))
  apply_last (heartbeat_answer renew_throws started response) s at e = inr (ground (arith, e))
  apply_last (heartbeat_answer no_rows started response) s at e = inr (ground (arith, e))
  apply_last (heartbeat_answer (renewed expires) started response) s at e =
      elim (Bool-cases (ltb response (started + deadline))) [
        | inl h ↦ inl (
            subst (λ n. Confirms deadline n (heartbeat_answer (renewed expires) started response))
              (ground (arith, e, h)) (by_renewal expires started (ground (arith, h))))
        | inr h ↦ inr (ground (arith, h, e))
      ]
  apply_last release s at e = inr e
  apply_last release_answer s at e = inr e
  apply_last connection_error_event s at e = inr (ground (arith, e))
  apply_last connection_end_event s at e = inr (ground (arith, e))

  apply_all_last :
      (events : List WriterEvent) (s : WriterLifecycle) (at : ℕ)
      → last_of (apply_all boot deadline events s) ≡ some at
      → IsConfirmedIn deadline at events ⊎ (last_of s ≡ some at)
  unfolding apply_all
  apply_all_last [] s at e = inr e
  apply_all_last (event ∷ events) s at e =
      elim (apply_all_last events (apply boot deadline event s) at e) [
        | inl later ↦ inl (earlier event events later)
        | inr before ↦ elim (apply_last event s at before) [
          | inl now ↦ inl (here event events now)
          | inr old ↦ inr old
        ]
      ]

-- A confirmation within the deadline.
pub record IsBacked (deadline now : ℕ) (events : List WriterEvent) : Type 0 where
  pub at : ℕ
  pub recent : now < at + deadline
  pub confirmed : IsConfirmedIn deadline at events

-- Whenever a process considers its control safe, after any interleaving of claims, heartbeats,
-- answers, releases and connection failures since it started, then less than the local safety
-- deadline has passed since a time at which one of these events was the database's confirmation: a
-- granted claim, or a renewal whose answer came within the deadline of its request.
pub is_control_safe-IsBacked :
    (boot deadline now : ℕ) (events : List WriterEvent)
    → is_control_safe deadline now (apply_all boot deadline events initial) ≡ true
    → IsBacked deadline now events
is_control_safe-IsBacked boot deadline now events safe =
    backed (apply_all boot deadline events initial)
      (λ at e. apply_all_last boot deadline events initial at e) safe
  where
    backed :
        (s : WriterLifecycle)
        → ((at : ℕ)
            → s.last_confirmed_heartbeat_at ≡ some at
            → IsConfirmedIn deadline at events ⊎ (none ≡ some at))
        → is_control_safe deadline now s ≡ true
        → IsBacked deadline now events
    backed s found safe = elim (Option-cases s.last_confirmed_heartbeat_at) [
      | inl never ↦ ground (arith, never, safe)
      | inr (at, e) ↦ elim (found at e) [
        | inl confirmed ↦ record {
          at = at;
          recent = ground (arith, e, safe);
          confirmed = confirmed;
        }
        | inr impossible ↦ cc
      ]
    ]

-- An event that is not the answer to a claim.
abbrev pub IsNoClaim : WriterEvent → Type 0
IsNoClaim (claim_answer answer now) = ⊥
IsNoClaim _ = Unit

terminal_lem :
    (boot deadline : ℕ) (event : WriterEvent) (s : WriterLifecycle)
    → IsNoClaim event
    → is_terminal s.state_value ≡ true
    → is_terminal (apply boot deadline event s).state_value ≡ true
unfolding apply
terminal_lem boot deadline (claim_answer answer now) s h e = elim h [ ]
terminal_lem boot deadline starts_heartbeat s h e = ground (arith, e)
terminal_lem boot deadline stops_heartbeat s h e = e
terminal_lem boot deadline (heartbeat now) s h e = ground (arith, e)
terminal_lem boot deadline (heartbeat_answer renew_throws started response) s h e =
    ground (arith, e)
terminal_lem boot deadline (heartbeat_answer no_rows started response) s h e = ground (arith, e)
terminal_lem boot deadline (heartbeat_answer (renewed expires) started response) s h e =
    ground (arith, e)
terminal_lem boot deadline release s h e = e
terminal_lem boot deadline release_answer s h e = refl
terminal_lem boot deadline connection_error_event s h e = ground (arith, e)
terminal_lem boot deadline connection_end_event s h e = ground (arith, e)

stays_terminal :
    (boot deadline : ℕ) (events : List WriterEvent) (s : WriterLifecycle)
    → All IsNoClaim events
    → is_terminal s.state_value ≡ true
    → is_terminal (apply_all boot deadline events s).state_value ≡ true
unfolding apply_all
stays_terminal boot deadline [] s h e = e
stays_terminal boot deadline (event ∷ events) s h e =
    stays_terminal boot deadline events (apply boot deadline event s) h.1
      (terminal_lem boot deadline event s h.0 e)

-- Once a process's lifecycle has failed or was released, then whatever happens to it, but for the
-- answer to a claim that was still under way, its control is safe at no time: no late answer to a
-- heartbeat, and no later start of the heartbeat, opens it again.
pub terminal_unsafe :
    (boot deadline now : ℕ) (events : List WriterEvent) (s : WriterLifecycle)
    → All IsNoClaim events
    → is_terminal s.state_value ≡ true
    → is_control_safe deadline now (apply_all boot deadline events s) ≡ false
terminal_unsafe boot deadline now events s h e =
    ground (arith, stays_terminal boot deadline events s h e)
