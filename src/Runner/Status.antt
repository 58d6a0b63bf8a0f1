-- ===== src/Runner/Status.antt =====
-- runner/status.go: the states of a run and its status. RunID is a text. The status's ActionResult is
-- carried along by the code here and never read, and is left out.
use scoot.Base.{String, Bool, true, false, ℤ, pos, Option}

pub data RunState : Type 0 where
  unknown pending preparing running complete failed aborted timedout badrequest : RunState

abbrev pub is_done : RunState → Bool
is_done complete = true
is_done failed = true
is_done aborted = true
is_done timedout = true
is_done unknown = true
is_done badrequest = true
is_done _ = false

-- common/log/tags's LogTags.
pub record LogTags : Type 0 where
  pub job_id : String
  pub task_id : String
  pub tag : String

pub record RunStatus : Type 0 where
  pub run_id : String
  pub state : RunState
  pub stdout_ref : String
  pub stderr_ref : String
  pub snapshot_id : String
  pub exit_code : ℤ
  pub error : String
  pub tags : LogTags

-- The zero value.
abbrev pub no_status : RunStatus
no_status = record {
  run_id = "";
  state = unknown;
  stdout_ref = "";
  stderr_ref = "";
  snapshot_id = "";
  exit_code = pos 0;
  error = "";
  tags = record { job_id = ""; task_id = ""; tag = "" };
}

abbrev pub in_state : RunState → String → LogTags → RunStatus
in_state state run_id tags = record no_status { run_id = run_id; state = state; tags = tags }

abbrev pub abort_status : String → LogTags → RunStatus
abort_status = in_state aborted

abbrev pub timeout_status : String → LogTags → RunStatus
timeout_status = in_state timedout

abbrev pub failed_status : String → String → LogTags → RunStatus
failed_status run_id message tags = record (in_state failed run_id tags) { error = message }

abbrev pub bad_request_status : String → String → LogTags → RunStatus
bad_request_status run_id message tags = record (in_state badrequest run_id tags) {
  error = message;
}

abbrev pub pending_status : String → LogTags → RunStatus
pending_status = in_state pending

abbrev pub running_status : String → String → String → LogTags → RunStatus
running_status run_id stdout_ref stderr_ref tags = record (in_state running run_id tags) {
  stdout_ref = stdout_ref;
  stderr_ref = stderr_ref;
}

abbrev pub complete_status : String → String → ℤ → LogTags → RunStatus
complete_status run_id snapshot_id exit_code tags = record (in_state complete run_id tags) {
  snapshot_id = snapshot_id;
  exit_code = exit_code;
}

abbrev pub preparing_status : String → LogTags → RunStatus
preparing_status = in_state preparing

-- The overall status of the runner; `error` is nil or the text of the error.
pub record ServiceStatus : Type 0 where
  pub initialized : Bool
  pub error : Option String
