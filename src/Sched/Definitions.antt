-- ===== src/Sched/Definitions.antt =====
-- sched/definitions.go: jobs and their tasks, their validation, and the conversions to and from the thrift
-- types of sched/gen-go/sched/ttypes.go. A pointer field of a thrift type is an `Option`, and a nil
-- slice or map an empty one. Durations are not negative.
pub mod RoundTrip
use Prim.Native.Nat.{◌%◌, ◌^◌}
use scoot.Base.{
  ℕ, suc, ◌-◌, String, Bool, true, false, Option, none, some, List, [], ◌∷◌, map, str_eq, ltb, ℤ,
  pos, negsuc, Dict, if◌then◌else◌, Result, ok, err, ◌>>◌, zero,
}
use scoot.Runner.Status.{LogTags}
use scoot.Runner.Command.{Command}
use scoot.Bazel.{ExecuteRequest, make_exec_req_domain_from_thrift, make_exec_req_thrift_from_domain}
use scoot.Bazel.Thrift as BazelThrift
use scoot.Sched.Thrift

-- TaskDefinition, which is a Command.
abbrev pub TaskDefinition : Type 0
TaskDefinition = Command

pub record JobDefinition : Type 0 where
  pub job_type : String
  pub requestor : String
  pub basis : String
  pub tag : String
  pub priority : ℤ
  pub tasks : List TaskDefinition

pub record Job : Type 0 where
  pub id : String
  pub def : JobDefinition

infixl 5 ◌>>=◌
abbrev ◌>>=◌ {ℓ κ} : {A : Type ℓ} {B : Type κ} → Option A → (A → Option B) → Option B
none >>= f = none
some a >>= f = f a

abbrev has_argv : List String → Bool
has_argv [] = false
has_argv (a ∷ rest) = true

abbrev validate_task : TaskDefinition → Result String (Unit {0})
validate_task task =
    if str_eq task.tags.task_id ""
    then err "invalid task id \"\"."
    else (if has_argv task.argv
        then ok tt
        else err "invalid task.Command.Argv. Must have at least one argument; was empty")

-- The loop of ValidateJob over the tasks.
unfoldable pub validate_tasks : List TaskDefinition → Result String (Unit {0})
validate_tasks [] = ok tt
validate_tasks (task ∷ tasks) = validate_task task >> validate_tasks tasks

unfoldable pub validate_job : JobDefinition → Result String (Unit {0})
validate_job job = elim job.tasks [
  | [] ↦ err "invalid job. Must have at least 1 task; was empty"
  | ◌∷◌ task tasks ↦ validate_tasks (task ∷ tasks)
]

-- `maxTasks < -1`.
unfoldable pub validate_max_tasks : ℤ → Result String (Unit {0})
validate_max_tasks (pos n) = ok tt
validate_max_tasks (negsuc zero) = ok tt
validate_max_tasks (negsuc (suc n)) = err "invalid tasks limit:%d. Must be >= -1."

-- The thrift types are those of `Sched.Thrift`. `int32(priority)` keeps 32 bits.
abbrev pub to_int32 : ℤ → ℤ
to_int32 (pos n) = let m = n % 2 ^ 32 in if ltb m (2 ^ 31) then pos m else negsuc (2 ^ 32 - 1 - m)
to_int32 (negsuc n) =
    let m = n % 2 ^ 32 in if ltb m (2 ^ 31) then negsuc m else pos (2 ^ 32 - 1 - m)

abbrev pub make_thrift_command : TaskDefinition → Thrift.Command
make_thrift_command task = record {
  argv = task.argv;
  env_vars = task.env_vars;
  timeout = some task.timeout;
  snapshot_id = task.snapshot_id;
}

abbrev pub thrift_task : TaskDefinition → Option BazelThrift.ExecuteRequest → Thrift.TaskDefinition
thrift_task task exec_req = record {
  command = some (make_thrift_command task);
  task_id = some task.tags.task_id;
  bazel_request = exec_req;
}

-- `none` is a panic: an execute request whose Request is nil.
unfoldable pub make_thrift_tasks : List TaskDefinition → Option (List Thrift.TaskDefinition)
make_thrift_tasks [] = some []
make_thrift_tasks (task ∷ tasks) = do
  exec_req ← make_exec_req_thrift_from_domain task.execute_request
  rest ← make_thrift_tasks tasks
  some (thrift_task task exec_req ∷ rest)

abbrev pub thrift_job : Job → List Thrift.TaskDefinition → Thrift.Job
thrift_job job tasks = record {
  id = job.id;
  job_definition = some (record {
    job_type = some job.def.job_type;
    tasks = tasks;
    priority = some (to_int32 job.def.priority);
    tag = some job.def.tag;
    basis = some job.def.basis;
    requestor = some job.def.requestor;
  });
}

unfoldable pub make_thrift_job_from_domain_job : Job → Option Thrift.Job
make_thrift_job_from_domain_job job = do
  tasks ← make_thrift_tasks job.def.tasks
  some (thrift_job job tasks)

-- The fields of a command that is not nil; following a nil one panics.
abbrev pub make_domain_command :
    String → String → String → Thrift.Command → Option ExecuteRequest → Command
make_domain_command job_id task_id tag cmd exec_req = record {
  argv = cmd.argv;
  env_vars = cmd.env_vars;
  timeout = Thrift.value 0 cmd.timeout;
  snapshot_id = cmd.snapshot_id;
  tags = record { job_id = job_id; task_id = task_id; tag = tag };
  execute_request = exec_req;
}

unfoldable pub make_domain_tasks :
    String → String → List Thrift.TaskDefinition → Option (List TaskDefinition)
make_domain_tasks job_id tag [] = some []
make_domain_tasks job_id tag (task ∷ tasks) = do
  cmd ← task.command
  rest ← make_domain_tasks job_id tag tasks
  some (
      make_domain_command job_id (Thrift.value "" task.task_id) tag cmd
        (make_exec_req_domain_from_thrift task.bazel_request)
      ∷ rest)

abbrev pub domain_job : String → Thrift.JobDefinition → List TaskDefinition → Job
domain_job id def tasks = record {
  id = id;
  def = record {
    job_type = Thrift.value "" def.job_type;
    requestor = Thrift.value "" def.requestor;
    basis = Thrift.value "" def.basis;
    tag = Thrift.value "" def.tag;
    priority = Thrift.value (pos 0) def.priority;
    tasks = tasks;
  };
}

-- `none` is a panic. A job with no definition has the zero values.
unfoldable pub make_domain_job_from_thrift_job : Thrift.Job → Option Job
make_domain_job_from_thrift_job job = elim job.job_definition [
  | none ↦ some (domain_job job.id Thrift.new_job_definition [])
  | some def ↦ do
    tasks ← make_domain_tasks job.id (Thrift.value "" def.tag) def.tasks
    some (domain_job job.id def tasks)
]
