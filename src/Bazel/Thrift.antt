-- ===== src/Bazel/Thrift.antt =====
-- bazel/execution/bazelapi/gen-go/bazel/ttypes.go: the thrift types of an execute request.
use scoot.Base.{String, Bool, Option, none, some, ℤ}

pub record Digest : Type 0 where
  pub hash : Option String
  pub size_bytes : Option ℤ

pub record Timestamp : Type 0 where
  pub seconds : Option ℤ
  pub nanos : Option ℤ

-- ExecutionPolicy and ResultsCachePolicy.
pub record Policy : Type 0 where
  pub priority : Option ℤ

pub record ExecutedActionMetadata : Type 0 where
  pub worker : Option String
  pub queued : Option Timestamp
  pub worker_start : Option Timestamp
  pub worker_completed : Option Timestamp
  pub input_fetch_start : Option Timestamp
  pub input_fetch_completed : Option Timestamp
  pub execution_start : Option Timestamp
  pub execution_completed : Option Timestamp
  pub output_upload_start : Option Timestamp
  pub output_upload_completed : Option Timestamp

pub record ExecuteRequest : Type 0 where
  pub instance_name : Option String
  pub skip_cache : Option Bool
  pub action_digest : Option Digest
  pub execution_policy : Option Policy
  pub results_cache_policy : Option Policy
  pub execution_metadata : Option ExecutedActionMetadata

-- The getters of optional fields return the zero value for an unset one.
abbrev pub value {ℓ} : {A : Type ℓ} → A → Option A → A
value default none = default
value default (some v) = v
