-- ===== src/Saga/Update.antt =====
-- saga/saga_state.go's updateSagaState: what each message does to the state, one handler for each
-- case of its switch. Every guard stands before the first write, so an error needs no state.
use scoot.Base.{
  ℕ, String, Bool, true, not, ◌&&◌, List, [], ◌∷◌, bit_or, str_eq, insert, none, some, Result, ok,
  err, ◌>>◌, fail_if, if◌then◌else◌,
}
use scoot.Saga.Message.{
  SagaError, SagaMessage, SagaMessageType, invalid_saga_state, invalid_saga_message, start_saga,
  end_saga, abort_saga, start_task, end_task, start_comp_task, end_comp_task,
}
use scoot.Saga.State.{
  SagaState, get_task_ids, flags, task_started, task_completed, comp_task_started,
  comp_task_completed, is_task_started, is_task_completed, is_comp_task_started,
  is_comp_task_completed, add_task_data, validate_task_id,
}

abbrev invalid : String → SagaError
invalid = invalid_saga_state

-- `if msg.Data != nil { state.addTaskData(...) }`.
unfoldable pub add_payload : SagaState → SagaMessage → SagaState
add_payload state msg = elim msg.payload [
  | none ↦ state
  | some p ↦ add_task_data state msg.task_id msg.msg_type (some p)
]

-- `state.taskState[taskId] = f`.
abbrev pub set_flags : SagaState → String → ℕ → SagaState
set_flags state task_id f = record state { task_state = insert task_id f state.task_state }

-- `state.taskState[taskId] = state.taskState[taskId] | bit`.
unfoldable pub mark : SagaState → String → ℕ → SagaState
mark state task_id bit = set_flags state task_id (bit_or (flags state task_id) bit)

-- Whether a task allows the saga to end.
unfoldable pub has_ended : SagaState → String → Bool
has_ended state task_id =
    if state.saga_aborted
    then is_comp_task_started state task_id && is_comp_task_completed state task_id
    else is_task_completed state task_id

abbrev not_ended : SagaState → SagaError
not_ended state =
    if state.saga_aborted
    then invalid
        "End Saga Message cannot be applied to an aborted Saga where Task %s has not completed its compensating Tasks"
    else invalid "End Saga Message cannot be applied to a Saga where Task %s has not completed"

-- The loop over the tasks.
unfoldable pub check_ended : SagaState → List String → Result SagaError (Unit {0})
check_ended state [] = ok tt
check_ended state (t ∷ ts) =
    let rest = check_ended state ts in if has_ended state t then rest else err (not_ended state)

unfoldable pub apply_end_saga : SagaState → Result SagaError SagaState
apply_end_saga state = do
  check_ended state (get_task_ids state)
  ok (record state { saga_completed = true })

unfoldable pub apply_abort_saga : SagaState → Result SagaError SagaState
apply_abort_saga state = do
  fail_if state.saga_completed (invalid "AbortSaga Message cannot be applied to a Completed Saga")
  ok (record state { saga_aborted = true })

unfoldable pub apply_start_task : SagaState → SagaMessage → Result SagaError SagaState
apply_start_task state msg = do
  validate_task_id msg.task_id
  fail_if state.saga_completed (invalid "Cannot StartTask after Saga has been completed: %s")
  fail_if state.saga_aborted (invalid "Cannot StartTask after Saga has been aborted")
  fail_if (is_task_completed state msg.task_id)
      (invalid "Cannot StartTask after it has been completed: %s")
  ok (set_flags (add_payload state msg) msg.task_id task_started)

unfoldable pub apply_end_task : SagaState → SagaMessage → Result SagaError SagaState
apply_end_task state msg = do
  validate_task_id msg.task_id
  fail_if state.saga_completed (invalid "Cannot EndTask after Saga has been completed")
  fail_if state.saga_aborted (invalid "Cannot EndTask after an Abort Saga Message")
  fail_if (not (is_task_started state msg.task_id))
      (invalid "Cannot have a EndTask Message Before a StartTask Message, taskId: %s")
  ok (add_payload (mark state msg.task_id task_completed) msg)

unfoldable pub apply_start_comp_task : SagaState → SagaMessage → Result SagaError SagaState
apply_start_comp_task state msg = do
  validate_task_id msg.task_id
  fail_if state.saga_completed (invalid "Cannot StartCompTask after Saga has been completed")
  fail_if (not state.saga_aborted)
      (invalid "Cannot have a StartCompTask Message when Saga has not been Aborted, taskId: %s")
  fail_if (not (is_task_started state msg.task_id))
      (invalid "Cannot have a StartCompTask Message Before a StartTask Message, taskId: %s")
  fail_if (is_comp_task_completed state msg.task_id)
      (invalid "Cannot StartCompTask after it has been completed, taskId: %s")
  ok (add_payload (mark state msg.task_id comp_task_started) msg)

unfoldable pub apply_end_comp_task : SagaState → SagaMessage → Result SagaError SagaState
apply_end_comp_task state msg = do
  validate_task_id msg.task_id
  fail_if state.saga_completed (invalid "Cannot EndCompTask after Saga has been completed")
  fail_if (not state.saga_aborted)
      (invalid "Cannot have a EndCompTask Message when Saga has not been Aborted, taskId: %s")
  fail_if (not (is_task_started state msg.task_id))
      (invalid "Cannot have a StartCompTask Message Before a StartTask Message, taskId: %s")
  fail_if (not (is_comp_task_started state msg.task_id))
      (invalid "Cannot have a EndCompTask Message Before a StartCompTaks Message, taskId: %s")
  ok (mark (add_payload state msg) msg.task_id comp_task_completed)

-- The switch on the message's type.
unfoldable pub dispatch : SagaMessageType → SagaState → SagaMessage → Result SagaError SagaState
dispatch start_saga state msg =
    err (invalid "Cannot apply a StartSaga Message to an already existing Saga")
dispatch end_saga state msg = apply_end_saga state
dispatch abort_saga state msg = apply_abort_saga state
dispatch start_task state msg = apply_start_task state msg
dispatch end_task state msg = apply_end_task state msg
dispatch start_comp_task state msg = apply_start_comp_task state msg
dispatch end_comp_task state msg = apply_end_comp_task state msg

unfoldable pub update_saga_state : SagaState → SagaMessage → Result SagaError SagaState
unfolding dispatch
update_saga_state state msg =
    if str_eq msg.saga_id state.saga_id
    then dispatch msg.msg_type state msg
    else err (invalid_saga_message "sagaId %s & SagaMessage sagaId %s do not match")
