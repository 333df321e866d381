-- ===== src/Persistence/SessionBinding/Passed.antt =====
-- Bindings whose generation has reached a number, through the operations of the registry.
use burning_space.Base.{
  ℕ, ◌+◌, ◌++◌, true, false, [], ◌∷◌, ◌≡◌, ◌≤◌, ◌==◌, inl, inr, arith, All, Bool-cases,
  All-update_where, is_some, refl,
}
use burning_space.Persistence.SessionBinding.{
  SessionBinding, Bindings, is_session, get, change, without, next_generation, BindFreshSessionAuth,
  bind_fresh_session, fresh_binding, is_current_generation,
}

-- Every binding of the session has reached the generation.
abbrev pub HasPassed : ℕ → ℕ → Bindings → Type 0
HasPassed session bound =
    All (λ binding. is_session session binding ≡ true → bound ≤ binding.connection_generation)

pub change-HasPassed :
    (session bound other : ℕ) (f : SessionBinding → SessionBinding) (bindings : Bindings)
    → ((b : SessionBinding) → (f b).session_id ≡ b.session_id)
    → ((b : SessionBinding) → b.connection_generation ≤ (f b).connection_generation)
    → HasPassed session bound bindings
    → HasPassed session bound (change other f bindings)
change-HasPassed session bound other f bindings key grows =
    All-update_where (λ b. is_session session b ≡ true → bound ≤ b.connection_generation)
      (is_session other) f bindings (λ b _ h. ground (arith, key b, grows b, h))

-- A generation that begins is a later one.
pub begun-HasPassed :
    (session bound : ℕ) (bindings : Bindings)
    → HasPassed session bound bindings
    → HasPassed session (bound + 1) (change session next_generation bindings)
begun-HasPassed session bound [] h = tt
begun-HasPassed session bound (b ∷ bindings) h =
    (ground (arith, h.0), begun-HasPassed session bound bindings h.1)

pub without-HasPassed :
    (session bound other : ℕ) (bindings : Bindings)
    → HasPassed session bound bindings
    → HasPassed session bound (without other bindings)
without-HasPassed session bound other [] h = tt
without-HasPassed session bound other (b ∷ bindings) h = elim (Bool-cases (is_session other b)) [
  | inl e ↦ rw e h.1
  | inr e ↦ rw e (h.0, without-HasPassed session bound other bindings h.1)
]

appended-HasPassed :
    (session bound : ℕ) (b : SessionBinding) (bindings : Bindings)
    → is_session session b ≡ false
    → HasPassed session bound bindings
    → HasPassed session bound (bindings ++ (b ∷ []))
appended-HasPassed session bound b [] other h = (λ e. ground arith, tt)
appended-HasPassed session bound b (c ∷ bindings) other h =
    (h.0, appended-HasPassed session bound b bindings other h.1)

pub bind_fresh_session-HasPassed :
    (session bound other : ℕ) (auth : BindFreshSessionAuth) (bindings : Bindings)
    → (other == session) ≡ false
    → HasPassed session bound bindings
    → HasPassed session bound (bind_fresh_session other auth bindings)
bind_fresh_session-HasPassed session bound other auth bindings different h =
    elim (Bool-cases (is_some (get other bindings))) [
      | inl e ↦ rw e (
          All-update_where (λ b. is_session session b ≡ true → bound ≤ b.connection_generation)
            (is_session other) (λ _. fresh_binding other auth) bindings (λ b _ _ k. ground arith) h)
      | inr e ↦
          rw e (appended-HasPassed session bound (fresh_binding other auth) bindings different h)
    ]

-- A later generation is current no more.
pub HasPassed-not_current :
    (session bound generation : ℕ) (bindings : Bindings)
    → generation + 1 ≤ bound
    → HasPassed session bound bindings
    → is_current_generation session generation bindings ≡ false
HasPassed-not_current session bound generation [] later h = refl
HasPassed-not_current session bound generation (b ∷ bindings) later h =
    elim (Bool-cases (is_session session b)) [
      | inl e ↦ rw e (ground (arith, h.0))
      | inr e ↦ rw e (HasPassed-not_current session bound generation bindings later h.1)
    ]
