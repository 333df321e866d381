-- ===== src/Persistence/WriterLifecycle/Losses.antt =====
-- That a process is told when it loses its authority.
use burning_space.Base.{
  ap, ◌∙◌, sym, ℕ, ◌≡◌, ◌≢◌, refl, arith, Bool, true, false, List, [], ◌∷◌, inl, inr, Bool-cases,
  leb,
}
use burning_space.Persistence.WriterLifecycle.{
  WriterAuthorityLossReason, WriterLifecycle, WriterEvent, initial, apply, apply_all, is_failed,
  claim_answer, heartbeat_answer, claimed, claim_throws, conflict, renewed, renew_throws, no_rows,
  heartbeat, starts_heartbeat, stops_heartbeat, release, release_answer, connection_error_event,
  connection_end_event,
}

abbrev is_some_loss : List WriterAuthorityLossReason → Bool
is_some_loss [] = false
is_some_loss (reason ∷ reasons) = true

abbrev is_told : WriterLifecycle → Bool
is_told s = is_some_loss s.authority_losses

abbrev IsReported : WriterLifecycle → Type 0
IsReported s = is_failed s.state_value ≡ true → is_told s ≡ true

module _ (boot deadline : ℕ) where
  apply-IsReported :
      (event : WriterEvent) (s : WriterLifecycle)
      → IsReported s
      → IsReported (apply boot deadline event s)
  unfolding apply
  apply-IsReported (claim_answer claim_throws now) s h e = refl
  apply-IsReported (claim_answer conflict now) s h e = elim (Bool-cases (leb boot now)) [
    | inl late ↦ ground (arith, late)
    | inr early ↦ ground (arith, early, h, e)
  ]
  apply-IsReported (claim_answer (claimed epoch expires) now) s h e = cc
  apply-IsReported starts_heartbeat s h e = ground (arith, h, e)
  apply-IsReported stops_heartbeat s h e = h e
  apply-IsReported (heartbeat now) s h e = ground (arith, h, e)
  apply-IsReported (heartbeat_answer renew_throws started response) s h e = ground (arith, h, e)
  apply-IsReported (heartbeat_answer no_rows started response) s h e = ground (arith, h, e)
  apply-IsReported (heartbeat_answer (renewed expires) started response) s h e =
      ground (arith, h, e)
  apply-IsReported release s h e = h e
  apply-IsReported release_answer s h e = cc
  apply-IsReported connection_error_event s h e = ground (arith, h, e)
  apply-IsReported connection_end_event s h e = ground (arith, h, e)

  apply_all-IsReported :
      (events : List WriterEvent) (s : WriterLifecycle)
      → IsReported s
      → IsReported (apply_all boot deadline events s)
  unfolding apply_all
  apply_all-IsReported [] s h = h
  apply_all-IsReported (event ∷ events) s h =
      apply_all-IsReported events (apply boot deadline event s) (apply-IsReported event s h)

-- Whenever a process's lifecycle is in the state `failed`, after any interleaving of its steps since
-- it started, `onAuthorityLost` has been called.
pub failed_told :
    (boot deadline : ℕ) (events : List WriterEvent)
    → is_failed (apply_all boot deadline events initial).state_value ≡ true
    → (apply_all boot deadline events initial).authority_losses ≢ []
failed_told boot deadline events e none_told = true_not_false (
    sym (apply_all-IsReported boot deadline events initial (λ h. cc) e) ∙ ap is_some_loss none_told)
  where
    true_not_false : true ≢ false
    true_not_false h = cc
