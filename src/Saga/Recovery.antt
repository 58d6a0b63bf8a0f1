-- ===== src/Saga/Recovery.antt =====
-- saga/saga_recovery.go: a saga's state is rebuilt from its logged messages.
use scoot.Base.{
  String, Bool, true, false, not, ◌&&◌, Option, none, some, List, [], ◌∷◌, Result, ok, err, ◌>>=◌,
  if◌then◌else◌,
}
use scoot.Saga.Message.{SagaError, SagaMessage, other, is_start_saga}
use scoot.Saga.State.{SagaState, get_task_ids, is_task_started, is_task_completed, make_saga_state}
use scoot.Saga.Update.{update_saga_state}
use scoot.Saga.Log.{SagaLog}

pub data SagaRecoveryType : Type 0 where
  rollback_recovery forward_recovery : SagaRecoveryType

-- The loop over the messages; a StartSaga message is skipped.
unfoldable pub apply_messages : SagaState → List SagaMessage → Result SagaError SagaState
apply_messages state [] = ok state
apply_messages state (msg ∷ msgs) = elim (is_start_saga msg.msg_type) [
  | true ↦ apply_messages state msgs
  | false ↦ elim (update_saga_state state msg) [
    | ok next ↦ apply_messages next msgs
    | err e ↦ err e
  ]
]

-- `ok none` is the nil state of a saga that is not in the log.
unfoldable pub from_messages : String → List SagaMessage → Result SagaError (Option SagaState)
from_messages saga_id [] = ok none
from_messages saga_id (start_msg ∷ msgs) =
    if not (is_start_saga start_msg.msg_type)
    then err (other "InvalidMessages: first message must be StartSaga")
    else (do
      state ← make_saga_state saga_id start_msg.payload
      state ← apply_messages state (start_msg ∷ msgs)
      ok (some state))

unfoldable pub recover_state :
    (log : SagaLog) → String → log.Store → Result SagaError (Option SagaState)
recover_state log saga_id σ = do msgs ← log.get_messages saga_id σ; from_messages saga_id msgs

-- The loop over the tasks.
unfoldable pub all_ended : SagaState → List String → Bool
all_ended state [] = true
all_ended state (i ∷ is) =
    let rest = all_ended state is in
    if is_task_started state i && not (is_task_completed state i) then false else rest

unfoldable pub is_saga_in_safe_state : SagaState → Bool
is_saga_in_safe_state state =
    if state.saga_aborted then true else all_ended state (get_task_ids state)
