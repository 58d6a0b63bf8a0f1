-- ===== src/Runner/Command.antt =====
-- runner/runner.go: a command to run. A nil slice or map is an empty one.
use scoot.Base.{ℕ, String, Option, List, Dict}
use scoot.Bazel.{ExecuteRequest}
use scoot.Runner.Status.{LogTags}

-- `timeout` is a duration in nanoseconds.
pub record Command : Type 0 where
  pub argv : List String
  pub env_vars : Dict String
  pub timeout : ℕ
  pub snapshot_id : String
  pub tags : LogTags
  pub execute_request : Option ExecuteRequest
