-- ===== src/Sched/Thrift.antt =====
-- sched/gen-go/sched/ttypes.go: the thrift types of a job, as far as sched/definitions.go converts them.
use scoot.Base.{ℕ, String, Option, none, some, List, [], Dict, ℤ}
use scoot.Bazel.Thrift.{ExecuteRequest}

pub record Command : Type 0 where
  pub argv : List String
  pub env_vars : Dict String
  pub timeout : Option ℕ
  pub snapshot_id : String

pub record TaskDefinition : Type 0 where
  pub command : Option Command
  pub task_id : Option String
  pub bazel_request : Option ExecuteRequest

pub record JobDefinition : Type 0 where
  pub job_type : Option String
  pub tasks : List TaskDefinition
  pub priority : Option ℤ
  pub tag : Option String
  pub basis : Option String
  pub requestor : Option String

abbrev pub new_job_definition : JobDefinition
new_job_definition = record {
  job_type = none;
  tasks = [];
  priority = none;
  tag = none;
  basis = none;
  requestor = none;
}

pub record Job : Type 0 where
  pub id : String
  pub job_definition : Option JobDefinition

-- The getters of optional fields return the zero value for an unset one.
abbrev pub value {ℓ} : {A : Type ℓ} → A → Option A → A
value default none = default
value default (some v) = v
