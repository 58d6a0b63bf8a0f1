-- ===== src/Sched/TaskRunner.antt =====
-- sched/scheduler/task_runner.go: the run of a task on a worker, with what it writes to the saga. The worker
-- is a list of its answers, each with the abort request that came in meanwhile; a list that ends too soon is
-- a call that has not returned, `none`. Times are numbers. workerapi.SerializeProcessStatus is the parameter
-- `serialize`. A status that the source reads from a nil error is the zero status.
pub mod Run
pub mod Agreement
pub mod Kills
pub mod Retries
use scoot.Base.{
  ℕ, ◌+◌, String, ◌<>◌, Bool, true, false, not, ◌&&◌, ◌||◌, Option, none, some, List, [], ◌∷◌, leb,
  ltb, Result, ok, err, if◌then◌else◌, is_some,
}
use scoot.Saga.Message.{Bytes, SagaError, SagaMessageType}
use scoot.Saga.Message
use scoot.Saga.Log.{SagaLog}
use scoot.Saga.Object.{Saga, Outcome, returned, panicked, blocked, start_task, end_task}
use scoot.Runner.Status.{
  RunState, unknown, pending, preparing, running, complete, failed, aborted, timedout, badrequest,
  is_done, LogTags, RunStatus, no_status, abort_status,
}

pub record AbortReq : Type 0 where
  pub end_task : Bool
  pub err : String

pub data SagaErr : Type 0 where
  not_serialized : String → SagaErr
  refused : SagaError → SagaErr
  unexpected_type : SagaErr

pub record TaskError : Type 0 where
  pub saga_err : Option SagaErr
  pub runner_err : Option String
  pub result_err : Option String
  pub st : RunStatus

-- The fields that decide; `tags` has the ids of the job and of the task.
pub record TaskRunner : Type 0 where
  pub mark_complete_on_failure : Bool
  pub runner_retry_timeout : ℕ
  pub runner_retry_interval : ℕ
  pub tags : LogTags

-- An answer to Run, with the requests received before and after it.
pub record Try : Type 0 where
  pub before : Option AbortReq
  pub st : RunStatus
  pub error : Option String
  pub after : Option AbortReq

-- An answer to Query.
pub record Answer : Type 0 where
  pub sts : List RunStatus
  pub error : Option String
  pub abort : Option AbortReq

-- What runAndWait returns, and the runs whose abort was sent to the worker.
pub record Waited : Type 0 where
  pub st : RunStatus
  pub end : Bool
  pub error : Option String
  pub aborts : List String

abbrev pub aborted_status : TaskRunner → String → AbortReq → RunStatus
aborted_status r id req = record (abort_status id (record r.tags { tag = "" })) { error = req.err }

-- What the first loop ends with: a result, or the status of a run to wait for.
pub data Begun : Type 0 where
  ended : Waited → Begun
  begun : RunStatus → Begun

abbrev pub stop : RunStatus → Bool → Option String → List String → Begun
stop st end error aborts = ended (record { st = st; end = end; error = error; aborts = aborts })

-- The run is aborted that the worker has accepted.
abbrev pub accepted_run : Try → List String
accepted_run t = if is_some t.error then [] else t.st.run_id ∷ []

-- One round of the first loop; `retry` is what the rounds after it come to.
abbrev pub try_once :
    TaskRunner → ℕ → Try → Option AbortReq → Option AbortReq → Option Begun → Option Begun
try_once r elapsed t (some req) after retry =
    some (stop (aborted_status r "" req) req.end_task none [])
try_once r elapsed t none (some req) retry =
    some (stop (aborted_status r "" req) req.end_task none (accepted_run t))
try_once r elapsed t none none retry =
    if is_some t.error && ltb (elapsed + r.runner_retry_interval) r.runner_retry_timeout
    then retry
    else (if is_some t.error || is_done t.st.state
        then some (stop t.st false t.error [])
        else some (begun t.st))

unfoldable pub begin_run : TaskRunner → ℕ → List Try → Option Begun
begin_run r elapsed [] = none
begin_run r elapsed (t ∷ tries) =
    let retry = begin_run r (elapsed + r.runner_retry_interval) tries in
    try_once r elapsed t t.before t.after retry

-- `len(sts) == 1`, or else the query has timed out.
abbrev pub only_status : String → List RunStatus → RunStatus
only_status id (st ∷ []) = st
only_status id _ = record no_status { run_id = id; state = timedout }

-- queryWithTimeout, from the answer to its query.
abbrev pub query_with_timeout : TaskRunner → String → Answer → RunStatus × Bool × Option String
query_with_timeout r id a = elim a.abort [
  | some req ↦ (aborted_status r id req, req.end_task, none)
  | none ↦ elim a.error [
    | some e ↦ (no_status, false, some e)
    | none ↦ (only_status id a.sts, false, none)
  ]
]

abbrev pub is_complete : RunState → Bool
is_complete complete = true
is_complete _ = false

abbrev pub is_aborted : RunState → Bool
is_aborted aborted = true
is_aborted _ = false

abbrev pub is_failure : RunState → Bool
is_failure failed = true
is_failure unknown = true
is_failure badrequest = true
is_failure _ = false

abbrev pub no_error : TaskError
no_error = record { saga_err = none; runner_err = none; result_err = none; st = no_status }

abbrev pub is_erred : TaskError → Bool
is_erred e = is_some e.runner_err || is_some e.result_err

-- RunState's String.
abbrev pub state_name : RunState → String
state_name pending = "PENDING"
state_name preparing = "PREPARING"
state_name running = "RUNNING"
state_name complete = "COMPLETE"
state_name failed = "FAILED"
state_name aborted = "ABORTED"
state_name timedout = "TIMEDOUT"
state_name badrequest = "BADREQUEST"
state_name unknown = "UNKNOWN"

-- A message that came back may be an error too.
abbrev pub judged : Waited → TaskError
judged w =
    let e = record no_error { runner_err = w.error; st = w.st } in
    if is_some w.error || is_complete w.st.state
    then e
    else (if is_failure w.st.state
        then record e { runner_err = some w.st.error }
        else record e { result_err = some (state_name w.st.state) })

abbrev is_unknown : RunState → Bool
is_unknown unknown = true
is_unknown _ = false

abbrev empty_status_error : String
empty_status_error = "Empty run status, jobId: %s, taskId: %s, err: %s"

abbrev pub filled : RunStatus → RunStatus
filled st =
    if is_unknown st.state then record st { state = failed; error = empty_status_error } else st

abbrev dead_letter_trailer : String
dead_letter_trailer = " -> Error(s) encountered, canceling task."

abbrev pub lettered : Bool → RunStatus → RunStatus
lettered dead st = if dead then record st { error = st.error <> dead_letter_trailer } else st
