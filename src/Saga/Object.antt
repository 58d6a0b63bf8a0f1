-- ===== src/Saga/Object.antt =====
-- saga/saga.go: the Saga object. Its requests go through one unbuffered channel to one goroutine,
-- so they take effect one after another, and a caller waits for its own; a list of requests stands
-- for any interleaving of callers.
use scoot.Base.{String, Bool, true, not, Result, ok, err, if◌then◌else◌}
use scoot.Saga.Message.{
  Bytes, SagaError, SagaMessage, is_end_saga, make_end_saga_message, make_abort_saga_message,
  make_start_task_message, make_end_task_message, make_start_comp_task_message,
  make_end_comp_task_message,
}
use scoot.Saga.State.{SagaState, copy_saga_state, make_saga_state}
use scoot.Saga.Log.{SagaLog, log_message}

-- `is_open` says that updateCh is not closed, and `has_loop` that updateSagaStateLoop was started.
pub record Saga : Type 0 where
  pub id : String
  pub state : SagaState
  pub is_open : Bool
  pub has_loop : Bool

-- A send on a closed channel panics, and one that nobody receives blocks for ever.
pub data Outcome : Type 0 where
  returned : Result SagaError (Unit {0}) → Outcome
  panicked blocked : Outcome

abbrev pub get_state : Saga → SagaState
get_state s = copy_saga_state s.state

module _ (log : SagaLog) where
  -- The channel is closed after an EndSaga message, whatever its result.
  abbrev finish :
      Saga
      → SagaMessage
      → log.Store × SagaState × Result SagaError (Unit {0})
      → log.Store × Saga × Outcome
  finish s msg (σ, state, result) =
      (σ, record s { state = state; is_open = not (is_end_saga msg.msg_type) }, returned result)

  unfoldable pub update_saga_state : Saga → SagaMessage → log.Store → log.Store × Saga × Outcome
  update_saga_state s msg σ =
      if not s.is_open
      then (σ, s, panicked)
      else (if not s.has_loop
          then (σ, s, blocked)
          else finish s msg (log_message log s.state msg σ))

  unfoldable pub end_saga : Saga → log.Store → log.Store × Saga × Outcome
  end_saga s = update_saga_state s (make_end_saga_message s.id)

  unfoldable pub abort_saga : Saga → log.Store → log.Store × Saga × Outcome
  abort_saga s = update_saga_state s (make_abort_saga_message s.id)

  unfoldable pub start_task : Saga → String → Bytes → log.Store → log.Store × Saga × Outcome
  start_task s task_id payload = update_saga_state s (make_start_task_message s.id task_id payload)

  unfoldable pub end_task : Saga → String → Bytes → log.Store → log.Store × Saga × Outcome
  end_task s task_id results = update_saga_state s (make_end_task_message s.id task_id results)

  unfoldable pub start_compensating_task :
      Saga → String → Bytes → log.Store → log.Store × Saga × Outcome
  start_compensating_task s task_id payload =
      update_saga_state s (make_start_comp_task_message s.id task_id payload)

  unfoldable pub end_compensating_task :
      Saga → String → Bytes → log.Store → log.Store × Saga × Outcome
  end_compensating_task s task_id results =
      update_saga_state s (make_end_comp_task_message s.id task_id results)

  abbrev opened :
      String
      → SagaState
      → log.Store × Result SagaError (Unit {0})
      → log.Store × Result SagaError Saga
  opened saga_id state (σ, err e) = (σ, err e)
  opened saga_id state (σ, ok u) =
      (σ, ok (record { id = saga_id; state = state; is_open = true; has_loop = true }))

  unfoldable pub new_saga : String → Bytes → log.Store → log.Store × Result SagaError Saga
  new_saga saga_id job σ = elim (make_saga_state saga_id job) [
    | err e ↦ (σ, err e)
    | ok state ↦ opened saga_id state (log.start_saga saga_id job σ)
  ]

unfoldable pub rehydrate_saga : String → SagaState → Saga
rehydrate_saga saga_id state = record {
  id = saga_id;
  state = state;
  is_open = true;
  has_loop = not state.saga_completed;
}
