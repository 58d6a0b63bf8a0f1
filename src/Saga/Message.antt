-- ===== src/Saga/Message.antt =====
-- saga/saga_message.go: the entries of the saga log, and saga/saga_state.go's and saga/sagalog.go's
-- errors. A Go byte slice is `Bytes`: `none` is the nil slice, which the code tells from an empty one.
use scoot.Base.{ℕ, String, List, Bool, true, false, Option, none}

abbrev pub Bytes : Type 0
Bytes = Option (List ℕ)

-- The errors carry the format text of the source; the arguments are not spliced in. `other` stands
-- for an error of a type that the package does not know, as errors.New returns.
pub data SagaError : Type 0 where
  invalid_saga_state : String → SagaError
  invalid_saga_message : String → SagaError
  invalid_request : String → SagaError
  internal_log : String → SagaError
  corrupted_saga_log : String → SagaError
  other : String → SagaError

pub data SagaMessageType : Type 0 where
  start_saga end_saga abort_saga : SagaMessageType
  start_task end_task start_comp_task end_comp_task : SagaMessageType

unfoldable pub message_type_name : SagaMessageType → String
message_type_name start_saga = "Start Saga"
message_type_name end_saga = "End Saga"
message_type_name abort_saga = "Abort Saga"
message_type_name start_task = "Start Task"
message_type_name end_task = "End Task"
message_type_name start_comp_task = "Start Comp Task"
message_type_name end_comp_task = "End Comp Task"

-- The source calls `payload` Data.
pub record SagaMessage : Type 0 where
  pub saga_id : String
  pub msg_type : SagaMessageType
  pub payload : Bytes
  pub task_id : String

abbrev pub make_start_saga_message : String → Bytes → SagaMessage
make_start_saga_message saga_id job = record {
  saga_id = saga_id;
  msg_type = start_saga;
  payload = job;
  task_id = "";
}

abbrev pub make_end_saga_message : String → SagaMessage
make_end_saga_message saga_id = record {
  saga_id = saga_id;
  msg_type = end_saga;
  payload = none;
  task_id = "";
}

abbrev pub make_abort_saga_message : String → SagaMessage
make_abort_saga_message saga_id = record {
  saga_id = saga_id;
  msg_type = abort_saga;
  payload = none;
  task_id = "";
}

abbrev pub make_start_task_message : String → String → Bytes → SagaMessage
make_start_task_message saga_id task_id payload = record {
  saga_id = saga_id;
  msg_type = start_task;
  payload = payload;
  task_id = task_id;
}

abbrev pub make_end_task_message : String → String → Bytes → SagaMessage
make_end_task_message saga_id task_id results = record {
  saga_id = saga_id;
  msg_type = end_task;
  payload = results;
  task_id = task_id;
}

abbrev pub make_start_comp_task_message : String → String → Bytes → SagaMessage
make_start_comp_task_message saga_id task_id payload = record {
  saga_id = saga_id;
  msg_type = start_comp_task;
  payload = payload;
  task_id = task_id;
}

abbrev pub make_end_comp_task_message : String → String → Bytes → SagaMessage
make_end_comp_task_message saga_id task_id results = record {
  saga_id = saga_id;
  msg_type = end_comp_task;
  payload = results;
  task_id = task_id;
}

abbrev pub is_start_saga : SagaMessageType → Bool
is_start_saga start_saga = true
is_start_saga _ = false

abbrev pub is_end_saga : SagaMessageType → Bool
is_end_saga end_saga = true
is_end_saga _ = false

-- saga/saga.go's FatalErr: whether the error of an update is beyond a retry.
unfoldable pub fatal_err : SagaError → Bool
fatal_err (invalid_saga_state s) = true
fatal_err (invalid_saga_message s) = true
fatal_err (invalid_request s) = true
fatal_err (internal_log s) = false
fatal_err (corrupted_saga_log s) = true
fatal_err (other s) = true
