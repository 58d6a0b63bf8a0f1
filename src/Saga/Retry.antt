-- ===== src/Saga/Retry.antt =====
-- FatalErr of saga/saga.go, which tells the errors that are worth a retry.
use scoot.Base.{
  ◌≡◌, String, true, false, List, [], ◌∷◌, arith, ok, err, Bool-cases, inl, inr, Result-cases,
  str_eq,
}
use scoot.Saga.Message.{
  SagaError, SagaMessage, SagaMessageType, fatal_err, start_saga, end_saga, abort_saga, start_task,
  end_task, start_comp_task, end_comp_task,
}
use scoot.Saga.State.{SagaState, validate_task_id, get_task_ids}
use scoot.Saga.Update
use scoot.Saga.Update.{
  check_ended, dispatch, apply_end_saga, apply_abort_saga, apply_start_task, apply_end_task,
  apply_start_comp_task, apply_end_comp_task,
}
use scoot.Saga.Invariant.{IsValid}
use scoot.Saga.Replay.{log_message_atomic}
use scoot.Saga.Log.{SagaLog, log_message}

check_ended_fatal :
    (s : SagaState) (is : List String) (e : SagaError)
    → check_ended s is ≡ err e
    → fatal_err e ≡ true
unfolding check_ended fatal_err
check_ended_fatal s [] e h = absurd (ground arith)
check_ended_fatal s (i ∷ is) e h = ground (arith, check_ended_fatal s is e)

dispatch_fatal :
    (ty : SagaMessageType) (s : SagaState) (m : SagaMessage) (e : SagaError)
    → dispatch ty s m ≡ err e
    → fatal_err e ≡ true
unfolding dispatch fatal_err validate_task_id
dispatch_fatal start_saga s m e h = ground arith
dispatch_fatal end_saga s m e h =
    unfold apply_end_saga in ground (arith, check_ended_fatal s (get_task_ids s) e)
dispatch_fatal abort_saga s m e h = unfold apply_abort_saga in ground arith
dispatch_fatal start_task s m e h = unfold apply_start_task in ground arith
dispatch_fatal end_task s m e h = unfold apply_end_task in ground arith
dispatch_fatal start_comp_task s m e h = unfold apply_start_comp_task in ground arith
dispatch_fatal end_comp_task s m e h = unfold apply_end_comp_task in ground arith

refused_fatal :
    (s : SagaState) (m : SagaMessage) (e : SagaError)
    → Update.update_saga_state s m ≡ err e
    → fatal_err e ≡ true
unfolding Update.update_saga_state fatal_err
refused_fatal s m e h = elim (Bool-cases (str_eq m.saga_id s.saga_id)) [
  | inl p ↦ dispatch_fatal m.msg_type s m e (ground arith)
  | inr p ↦ ground arith
]

log_message_transient :
    (log : SagaLog) (s : SagaState) (m : SagaMessage) (σ : log.Store) (e : SagaError)
    → (log_message log s m σ).2 ≡ err e
    → fatal_err e ≡ false
    → ((log.log_message m σ).1 ≡ err e) × ((t : SagaState) × (Update.update_saga_state s m ≡ ok t))
unfolding log_message
log_message_transient log s m σ e h transient = elim (Result-cases (Update.update_saga_state s m)) [
  | inr (x, f) ↦ absurd (ground (arith, refused_fatal s m x f))
  | inl (t, f) ↦ elim (Result-cases (log.log_message m σ).1) [
    | inl (u, g) ↦ absurd (ground arith)
    | inr (x, g) ↦ (ground arith, (t, f))
  ]
]

left_alone :
    (log : SagaLog) (s : SagaState) (m : SagaMessage) (σ : log.Store) (e : SagaError)
    → IsValid s
    → (log_message log s m σ).2 ≡ err e
    → (log_message log s m σ).1 ≡ s
left_alone log s m σ e v h = elim (log_message_atomic log s m σ "" v) [
  | inl (r, u, k) ↦ absurd (ground (arith, r, h))
  | inr (x, r, k, q) ↦ k
]

accepted :
    (log : SagaLog) (s t : SagaState) (m : SagaMessage) (τ : log.Store)
    → Update.update_saga_state s m ≡ ok t
    → (log.log_message m τ).1 ≡ ok tt
    → log_message log s m τ ≡ ((log.log_message m τ).0, t, ok tt)
unfolding log_message
accepted log s t m τ legal taken = ground arith

-- A message that logMessage refuses with an error that FatalErr calls transient was refused by the log alone, and
-- a retry over the state that logMessage returned succeeds as soon as the log takes the message, with the state
-- that the message leads to. The state before satisfies the invariant of saga states.
pub log_message-retry :
    (log : SagaLog) (s : SagaState) (m : SagaMessage) (σ τ : log.Store) (e : SagaError)
    → IsValid s
    → (log_message log s m σ).2 ≡ err e
    → fatal_err e ≡ false
    → (log.log_message m τ).1 ≡ ok tt
    → ((log.log_message m σ).1 ≡ err e)
      × ((t : SagaState) × (Update.update_saga_state s m ≡ ok t)
          × (log_message log (log_message log s m σ).1 m τ ≡ ((log.log_message m τ).0, t, ok tt)))
log_message-retry log s m σ τ e v h transient taken =
    let (refused, (t, legal)) = log_message_transient log s m σ e h transient in
    let kept = left_alone log s m σ e v h in
    (refused, (t, legal, rw kept (accepted log s t m τ legal taken)))
