-- ===== src/Saga/State.antt =====
-- saga/saga_state.go: the state of one saga, its readers, and its copy. The Go maps are `Dict`; a
-- `*taskData` is the record that it points to, since no two keys or states share one.
use mathlib.Core.Option
use scoot.Base.{
  ℕ, String, Bool, false, not, Option, none, some, List, [], bit_and, ◌==◌, str_eq, Dict, lookup,
  insert, keys, copy_into, Result, ok, err, ◌>>◌, if◌then◌else◌,
}
use scoot.Saga.Message.{
  Bytes, SagaError, SagaMessageType, invalid_saga_message, start_task, end_task, start_comp_task,
  end_comp_task,
}

-- `flag` is a byte.
abbrev pub task_started : ℕ
task_started = 1

abbrev pub task_completed : ℕ
task_completed = 2

abbrev pub comp_task_started : ℕ
comp_task_started = 4

abbrev pub comp_task_completed : ℕ
comp_task_completed = 8

pub record TaskData : Type 0 where
  pub task_start : Bytes
  pub task_end : Bytes
  pub comp_task_start : Bytes
  pub comp_task_end : Bytes

pub record SagaState : Type 0 where
  pub saga_id : String
  pub job : Bytes
  pub task_data : Dict TaskData
  pub task_state : Dict ℕ
  pub saga_aborted : Bool
  pub saga_completed : Bool

abbrev pub initialize_saga_state : SagaState
initialize_saga_state = record {
  saga_id = "";
  job = none;
  task_data = [];
  task_state = [];
  saga_aborted = false;
  saga_completed = false;
}

abbrev pub get_task_ids : SagaState → List String
get_task_ids state = keys state.task_state

-- A missing key reads as the zero flag.
unfoldable pub flags : SagaState → String → ℕ
flags state task_id = Option.get_or (lookup task_id state.task_state) 0

abbrev pub is_set : ℕ → ℕ → Bool
is_set f bit = not (bit_and f bit == 0)

abbrev pub is_task_started : SagaState → String → Bool
is_task_started state task_id = is_set (flags state task_id) task_started

abbrev pub is_task_completed : SagaState → String → Bool
is_task_completed state task_id = is_set (flags state task_id) task_completed

abbrev pub is_comp_task_started : SagaState → String → Bool
is_comp_task_started state task_id = is_set (flags state task_id) comp_task_started

abbrev pub is_comp_task_completed : SagaState → String → Bool
is_comp_task_completed state task_id = is_set (flags state task_id) comp_task_completed

abbrev read_data : (TaskData → Bytes) → Option TaskData → Bytes
read_data field none = none
read_data field (some d) = field d

unfoldable pub get_start_task_data : SagaState → String → Bytes
get_start_task_data state task_id = read_data (λ d. d.task_start) (lookup task_id state.task_data)

unfoldable pub get_end_task_data : SagaState → String → Bytes
get_end_task_data state task_id = read_data (λ d. d.task_end) (lookup task_id state.task_data)

unfoldable pub get_start_comp_task_data : SagaState → String → Bytes
get_start_comp_task_data state task_id =
    read_data (λ d. d.comp_task_start) (lookup task_id state.task_data)

unfoldable pub get_end_comp_task_data : SagaState → String → Bytes
get_end_comp_task_data state task_id =
    read_data (λ d. d.comp_task_end) (lookup task_id state.task_data)

abbrev pub empty_task_data : TaskData
empty_task_data = record {
  task_start = none;
  task_end = none;
  comp_task_start = none;
  comp_task_end = none;
}

abbrev pub store_data : SagaMessageType → Bytes → TaskData → TaskData
store_data start_task payload d = record d { task_start = payload }
store_data end_task payload d = record d { task_end = payload }
store_data start_comp_task payload d = record d { comp_task_start = payload }
store_data end_comp_task payload d = record d { comp_task_end = payload }
store_data _ payload d = d

unfoldable pub add_task_data : SagaState → String → SagaMessageType → Bytes → SagaState
add_task_data state task_id msg_type payload =
    let t_data = Option.get_or (lookup task_id state.task_data) empty_task_data in
    record state { task_data = insert task_id (store_data msg_type payload t_data) state.task_data }

-- The maps are copied entry by entry, into new ones.
unfoldable pub copy_saga_state : SagaState → SagaState
copy_saga_state s = record {
  saga_id = s.saga_id;
  job = s.job;
  task_data = copy_into [] s.task_data;
  task_state = copy_into [] s.task_state;
  saga_aborted = s.saga_aborted;
  saga_completed = s.saga_completed;
}

unfoldable pub validate_saga_id : String → Result SagaError (Unit {0})
validate_saga_id saga_id =
    if str_eq saga_id ""
    then err (invalid_saga_message "sagaId cannot be the empty string")
    else ok tt

unfoldable pub validate_task_id : String → Result SagaError (Unit {0})
validate_task_id task_id =
    if str_eq task_id ""
    then err (invalid_saga_message "taskId cannot be the empty string")
    else ok tt

unfoldable pub make_saga_state : String → Bytes → Result SagaError SagaState
unfolding validate_saga_id
make_saga_state saga_id job = do
  validate_saga_id saga_id
  ok (record initialize_saga_state { saga_id = saga_id; job = job })
