-- ===== src/Persistence/SessionBinding/Generations.antt =====
-- The generation of a session's connection as a guard against late completions.
use burning_space.Base.{
  refl, subst, ℕ, ◌≡◌, ◌+◌, ◌==◌, inl, inr, arith, ap, Bool, true, false, none, some, List, [], ◌∷◌,
  All, AtMostOne, All-of_AtMostOne, Option-cases,
}
use burning_space.Persistence.SessionBinding.{
  SessionBinding, HeldLeaseStatus, Bindings, BindFreshSessionAuth, is_session, get,
  begin_connection_generation, is_current_generation, set_control_allowed, next_generation, change,
  set_lease, clear_lease, remove, bind_fresh_session,
}
use burning_space.Persistence.SessionBinding.Passed.{
  HasPassed, change-HasPassed, begun-HasPassed, without-HasPassed, bind_fresh_session-HasPassed,
  HasPassed-not_current,
}

-- The calls that change the registry.
pub data RegistryCall : Type 0 where
  binds : ℕ → BindFreshSessionAuth → RegistryCall
  begins : ℕ → RegistryCall
  allows : ℕ → Bool → RegistryCall
  sets_lease : ℕ → ℕ → HeldLeaseStatus → RegistryCall
  clears_lease : ℕ → RegistryCall
  removes : ℕ → RegistryCall

unfoldable pub after_call : RegistryCall → Bindings → Bindings
after_call (binds session auth) bindings = bind_fresh_session session auth bindings
after_call (begins session) bindings = (begin_connection_generation session bindings).1
after_call (allows session allowed) bindings = set_control_allowed session allowed bindings
after_call (sets_lease session lease status) bindings = set_lease session lease status bindings
after_call (clears_lease session) bindings = clear_lease session bindings
after_call (removes session) bindings = (remove session bindings).1

unfoldable pub after_calls : List RegistryCall → Bindings → Bindings
after_calls [] bindings = bindings
after_calls (call ∷ calls) bindings = after_calls calls (after_call call bindings)

-- Any call but a fresh binding of the session.
abbrev pub IsOther : ℕ → RegistryCall → Type 0
IsOther session (binds other auth) = (other == session) ≡ false
IsOther session _ = Unit

module _ (session bound : ℕ) where
  after_call-HasPassed :
      (call : RegistryCall) (bindings : Bindings)
      → IsOther session call
      → HasPassed session bound bindings
      → HasPassed session bound (after_call call bindings)
  unfolding after_call
  after_call-HasPassed (binds other auth) bindings different =
      bind_fresh_session-HasPassed session bound other auth bindings different
  after_call-HasPassed (begins other) bindings _ =
      change-HasPassed session bound other next_generation bindings (λ b. refl) (λ b. omega arith)
  after_call-HasPassed (allows other allowed) bindings _ =
      change-HasPassed session bound other (λ b. record b { control_allowed = allowed }) bindings
        (λ b. refl) (λ b. omega arith)
  after_call-HasPassed (sets_lease other lease status) bindings _ =
      change-HasPassed session bound other
        (λ b. record b { lease_id = some lease; lease_status = some status }) bindings (λ b. refl)
        (λ b. omega arith)
  after_call-HasPassed (clears_lease other) bindings _ =
      change-HasPassed session bound other (λ b. record b { lease_id = none; lease_status = none })
        bindings (λ b. refl) (λ b. omega arith)
  after_call-HasPassed (removes other) bindings _ = without-HasPassed session bound other bindings

  after_calls-HasPassed :
      (calls : List RegistryCall) (bindings : Bindings)
      → All (IsOther session) calls
      → HasPassed session bound bindings
      → HasPassed session bound (after_calls calls bindings)
  unfolding after_calls
  after_calls-HasPassed [] bindings _ h = h
  after_calls-HasPassed (call ∷ calls) bindings others h =
      after_calls-HasPassed calls (after_call call bindings) others.1
        (after_call-HasPassed call bindings others.0 h)

  -- The one binding of the session.
  found-HasPassed :
      (b : SessionBinding) (bindings : Bindings)
      → bound ≡ b.connection_generation
      → All (λ c. is_session session c ≡ true → c ≡ b) bindings
      → HasPassed session bound bindings
  found-HasPassed b [] e h = tt
  found-HasPassed b (c ∷ bindings) e h = (
    λ k. omega (arith, e, ap (λ d. d.connection_generation) (h.0 k)),
    found-HasPassed b bindings e h.1,
  )

begun_lem :
    (session generation : ℕ) (bindings : Bindings)
    → AtMostOne (is_session session) bindings
    → (begin_connection_generation session bindings).0 ≡ some generation
    → HasPassed session generation (begin_connection_generation session bindings).1
begun_lem session generation bindings single e = elim (Option-cases (get session bindings)) [
  | inl absent ↦ ground (arith, absent, e)
  | inr (b, found) ↦
      subst (λ n. HasPassed session n (change session next_generation bindings))
        (ground (arith, found, e))
        (begun-HasPassed session b.connection_generation bindings (
          found-HasPassed session b.connection_generation b bindings refl
            (All-of_AtMostOne (is_session session) bindings b single found)))
]

-- A generation that a session was given, in a registry with at most one binding for it, is no longer
-- current once another one has begun for the session, and never again after that, whatever calls come
-- before and after on this and other sessions, the removal of this one and fresh bindings of the
-- others among them, short of a fresh binding of this session.
pub stale_generation :
    (session generation : ℕ) (bindings : Bindings) (before after : List RegistryCall)
    → AtMostOne (is_session session) bindings
    → All (IsOther session) before
    → All (IsOther session) after
    → (begin_connection_generation session bindings).0 ≡ some generation
    → is_current_generation session generation (
        after_calls after
          (begin_connection_generation session
            (after_calls before (begin_connection_generation session bindings).1)).1)
      ≡ false
stale_generation session generation bindings before after single others later e =
    HasPassed-not_current session (generation + 1) generation _ (omega arith) (
      after_calls-HasPassed session (generation + 1) after _ later (
        begun-HasPassed session generation _ (
          after_calls-HasPassed session generation before _ others
            (begun_lem session generation bindings single e))))
