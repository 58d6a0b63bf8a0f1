-- ===== src/Saga/Tests.antt =====
-- Sagas of one task at concrete inputs: the theorems of the saga package applied, and test runs.
use scoot.Base.{
  ◌≢◌, Bool, false, String, Result, arith, ◌≡◌, refl, ◌↔◌, ◌⊎◌, [], ◌∷◌, ◌++◌, none, some, true, ok,
  err, lookup, insert, str_eq, if◌then◌else◌,
}
use scoot.Saga.Message.{
  SagaMessage, SagaError, make_start_saga_message, make_start_task_message, make_end_task_message,
  make_end_saga_message, fatal_err, Bytes, internal_log, invalid_saga_state,
}
use scoot.Saga.State.{
  SagaState, initialize_saga_state, make_saga_state, validate_saga_id, validate_task_id, flags,
}
use scoot.Saga.Update.{
  update_saga_state, apply_start_task, apply_end_task, apply_end_saga, add_payload, mark, has_ended,
  check_ended,
}
use scoot.Saga.Transitions.{Step, update_saga_state-ok_iff}
use scoot.Saga.Invariant.{IsValid, make_saga_state-IsValid, update_saga_state-IsValid}
use scoot.Saga.Progress.{Grows, update_saga_state-Grows}
use scoot.Saga.Idempotence.{update_saga_state_idempotent}
use scoot.Saga.Log.{SagaLog, log_message}
use scoot.Saga.Recovery.{rollback_recovery, recover_state}
use scoot.Saga.Object.{
  Saga, returned, new_saga, end_saga as request_end, update_saga_state as request,
}
use scoot.Saga.Coordinator.{recover_saga_state}
use scoot.Saga.Replay.{log_message_atomic}
use scoot.Saga.Durability.{here, asks, recover_state-Run}
use scoot.Saga.Rollback.{IsSettled, recover_saga_state-IsSettled}
use scoot.Saga.Retry.{log_message-retry}
use scoot.Saga.Memory
use scoot.Saga.Memory.{InMemorySagaLog, make_in_memory_saga_log, gc_sagas}
use scoot.Saga.MemoryLaws.{in_memory_saga_log, memory_messages}

abbrev fresh : SagaState
fresh = record initialize_saga_state { saga_id = "s" }

abbrev begun : SagaState
begun = record fresh { task_state = ("t", 1) ∷ [] }

abbrev finished : SagaState
finished = record fresh { task_state = ("t", 3) ∷ [] }

abbrev closed : SagaState
closed = record finished { saga_completed = true }

abbrev start : SagaMessage
start = make_start_task_message "s" "t" none

abbrev finish : SagaMessage
finish = make_end_task_message "s" "t" none

fresh-IsValid : IsValid fresh
unfolding make_saga_state validate_saga_id
fresh-IsValid = make_saga_state-IsValid "s" none fresh refl

begins : update_saga_state fresh start ≡ ok begun
unfolding update_saga_state apply_start_task validate_task_id flags lookup insert add_payload
begins = refl

finishes : update_saga_state begun finish ≡ ok finished
unfolding update_saga_state apply_end_task validate_task_id flags lookup insert add_payload mark
finishes = refl

closes : update_saga_state finished (make_end_saga_message "s") ≡ ok closed
unfolding update_saga_state apply_end_saga check_ended has_ended flags lookup
closes = refl

begun-IsValid : IsValid begun
begun-IsValid = update_saga_state-IsValid fresh begun start fresh-IsValid begins

update_saga_state-IsValid_example : IsValid finished
update_saga_state-IsValid_example =
    update_saga_state-IsValid begun finished finish begun-IsValid finishes

update_saga_state-ok_iff_example :
    (update_saga_state begun finish ≡ ok finished)
    ↔ (("s" ≡ begun.saga_id) × Step begun finish finished)
update_saga_state-ok_iff_example = update_saga_state-ok_iff begun finish finished

update_saga_state-Grows_example : Grows begun finished
update_saga_state-Grows_example =
    update_saga_state-Grows begun finished finish begun-IsValid finishes

closes_again : update_saga_state closed (make_end_saga_message "s") ≡ ok closed
unfolding update_saga_state apply_end_saga check_ended has_ended flags lookup
closes_again = refl

update_saga_state_idempotent_example : update_saga_state begun start ≡ ok begun
update_saga_state_idempotent_example =
    update_saga_state_idempotent fresh begun start fresh-IsValid begins

abbrev empty_log : InMemorySagaLog
empty_log = make_in_memory_saga_log 100 5

abbrev one_saga : InMemorySagaLog
one_saga = record empty_log {
  sagas = ("s", record { messages = make_start_saga_message "s" none ∷ []; created = 5 }) ∷ [];
}

abbrev logged : InMemorySagaLog
logged = record empty_log {
  sagas =
      ("s", record { messages = make_start_saga_message "s" none ∷ start ∷ []; created = 5 }) ∷ [];
}

log_message_atomic_example :
    let (σ', s', result) = log_message in_memory_saga_log fresh start one_saga in
    ((result ≡ ok tt)
      × (update_saga_state fresh start ≡ ok s')
      × (memory_messages "s" σ' ≡ (
          if str_eq "s" "s"
          then memory_messages "s" one_saga ++ start ∷ []
          else memory_messages "s" one_saga)))
    ⊎ ((e : SagaError) × (result ≡ err e)
        × (s' ≡ fresh)
        × (memory_messages "s" σ' ≡ memory_messages "s" one_saga))
log_message_atomic_example =
    log_message_atomic in_memory_saga_log fresh start one_saga "s" fresh-IsValid

abbrev new : Saga
new = record { id = "s"; state = fresh; is_open = true; has_loop = true }

made : new_saga in_memory_saga_log "s" none empty_log ≡ (one_saga, ok new)
unfolding new_saga make_saga_state validate_saga_id Memory.start_saga insert
made = refl

recover_state-Run_example :
    recover_state in_memory_saga_log "s" (request in_memory_saga_log new start one_saga).0
    ≡ ok (some (request in_memory_saga_log new start one_saga).1.state)
unfolding Memory.get_messages memory_messages lookup
recover_state-Run_example =
    recover_state-Run in_memory_saga_log "s" none empty_log one_saga
      (request in_memory_saga_log new start one_saga).0 new
      (request in_memory_saga_log new start one_saga).1 _ refl made (asks here start) refl

-- The task had started and not ended, so that a rollback recovery aborts the saga.
recover_saga_state-IsSettled_example :
    IsSettled rollback_recovery
      (recover_saga_state in_memory_saga_log "s" rollback_recovery logged).1
recover_saga_state-IsSettled_example =
    recover_saga_state-IsSettled in_memory_saga_log "s" rollback_recovery logged

-- The saga of `begun` cannot end yet; the refused EndSaga closes it all the same.
abbrev running : Saga
running = record new { state = begun }

end_saga_refused :
    (request_end in_memory_saga_log running logged).2
    ≡ returned (
        err (
          invalid_saga_state
            "End Saga Message cannot be applied to a Saga where Task %s has not completed"))
unfolding request_end request log_message update_saga_state apply_end_saga check_ended has_ended
    flags lookup
end_saga_refused = refl

-- A log that may be down, over one that never is.
abbrev when_down :
    {S : Type 0}
    → Bool
    → S × Result SagaError (Unit {0})
    → S
    → (Bool × S) × Result SagaError (Unit {0})
when_down true (τ, result) σ = ((true, σ), err (internal_log "down"))
when_down false (τ, result) σ = ((false, τ), result)

module _ (M : SagaLog) where
  started :
      (d : Bool) (id : String) (job : Bytes) (σ : M.Store)
      → M.messages id σ ≡ []
      → (when_down d (M.start_saga id job σ) σ).1 ≡ ok tt
      → M.messages id (when_down d (M.start_saga id job σ) σ).0.1
        ≡ make_start_saga_message id job ∷ []
  started true id job σ h k = absurd (ground arith)
  started false id job σ h k = M.start_saga_logged id job σ h k

  started_other :
      (d : Bool) (id other : String) (job : Bytes) (σ : M.Store)
      → id ≢ other
      → M.messages other (when_down d (M.start_saga id job σ) σ).0.1 ≡ M.messages other σ
  started_other true id other job σ h = refl
  started_other false id other job σ h = M.start_saga_other id other job σ h

  logged_now :
      (d : Bool) (m : SagaMessage) (σ : M.Store)
      → (when_down d (M.log_message m σ) σ).1 ≡ ok tt
      → M.messages m.saga_id (when_down d (M.log_message m σ) σ).0.1
        ≡ M.messages m.saga_id σ ++ m ∷ []
  logged_now true m σ h = absurd (ground arith)
  logged_now false m σ h = M.log_message_logged m σ h

  not_logged :
      (d : Bool) (m : SagaMessage) (σ : M.Store) (e : SagaError)
      → (when_down d (M.log_message m σ) σ).1 ≡ err e
      → M.messages m.saga_id (when_down d (M.log_message m σ) σ).0.1 ≡ M.messages m.saga_id σ
  not_logged true m σ e h = refl
  not_logged false m σ e h = M.log_message_failed m σ e h

  logged_other :
      (d : Bool) (m : SagaMessage) (other : String) (σ : M.Store)
      → m.saga_id ≢ other
      → M.messages other (when_down d (M.log_message m σ) σ).0.1 ≡ M.messages other σ
  logged_other true m other σ h = refl
  logged_other false m other σ h = M.log_message_other m other σ h

abbrev flaky_log : SagaLog
flaky_log = record {
  Store = Bool × in_memory_saga_log.Store;
  start_saga = λ id job σ. when_down σ.0 (in_memory_saga_log.start_saga id job σ.1) σ.1;
  log_message = λ m σ. when_down σ.0 (in_memory_saga_log.log_message m σ.1) σ.1;
  get_messages = λ id σ. in_memory_saga_log.get_messages id σ.1;
  get_active_sagas = λ σ. in_memory_saga_log.get_active_sagas σ.1;
  messages = λ id σ. in_memory_saga_log.messages id σ.1;
  get_messages_exact = λ id σ. in_memory_saga_log.get_messages_exact id σ.1;
  start_saga_logged = λ id job σ. started in_memory_saga_log σ.0 id job σ.1;
  start_saga_other = λ id other job σ. started_other in_memory_saga_log σ.0 id other job σ.1;
  log_message_logged = λ m σ. logged_now in_memory_saga_log σ.0 m σ.1;
  log_message_failed = λ m σ. not_logged in_memory_saga_log σ.0 m σ.1;
  log_message_other = λ m other σ. logged_other in_memory_saga_log σ.0 m other σ.1;
}

lost : (log_message flaky_log fresh start (true, one_saga)).2 ≡ err (internal_log "down")
unfolding log_message update_saga_state apply_start_task validate_task_id flags lookup
lost = refl

taken : (flaky_log.log_message start (false, one_saga)).1 ≡ ok tt
unfolding Memory.log_message lookup
taken = refl

log_message-retry_example :
    ((flaky_log.log_message start (true, one_saga)).1 ≡ err (internal_log "down"))
    × ((t : SagaState) × (update_saga_state fresh start ≡ ok t)
        × (log_message flaky_log
              (log_message flaky_log fresh start (true, one_saga)).1
              start
              (false, one_saga)
            ≡ ((flaky_log.log_message start (false, one_saga)).0, t, ok tt)))
unfolding fatal_err
log_message-retry_example =
    log_message-retry flaky_log fresh start (true, one_saga) (false, one_saga) (internal_log "down")
      fresh-IsValid lost refl taken
