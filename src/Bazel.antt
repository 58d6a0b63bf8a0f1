-- ===== src/Bazel.antt =====
-- bazel/execution/bazelapi/definitions.go: the execute request that a command carries, and its conversions to and
-- from thrift. A nil pointer is `none`. The types of bazel/remoteexecution are those of the fields that are
-- converted.
pub mod Thrift
pub mod RoundTrip
use scoot.Base.{String, Bool, false, Option, none, some, ℕ, ℤ, pos}

pub record Digest : Type 0 where
  pub hash : String
  pub size_bytes : ℤ

pub record Timestamp : Type 0 where
  pub seconds : ℤ
  pub nanos : ℤ

-- ExecutionPolicy and ResultsCachePolicy.
pub record Policy : Type 0 where
  pub priority : ℤ

pub record ExecutedActionMetadata : Type 0 where
  pub worker : String
  pub queued : Option Timestamp
  pub worker_start : Option Timestamp
  pub worker_completed : Option Timestamp
  pub input_fetch_start : Option Timestamp
  pub input_fetch_completed : Option Timestamp
  pub execution_start : Option Timestamp
  pub execution_completed : Option Timestamp
  pub output_upload_start : Option Timestamp
  pub output_upload_completed : Option Timestamp

-- remoteexecution.ExecuteRequest.
pub record Request : Type 0 where
  pub instance_name : String
  pub skip_cache_lookup : Bool
  pub action_digest : Option Digest
  pub execution_policy : Option Policy
  pub results_cache_policy : Option Policy

-- The action and the command, which no conversion reads, are pointers by their addresses.
pub record ExecuteRequest : Type 0 where
  pub request : Option Request
  pub execution_metadata : Option ExecutedActionMetadata
  pub action : Option ℕ
  pub command : Option ℕ

-- From thrift.
unfoldable pub make_digest_from_thrift : Option Thrift.Digest → Option Digest
make_digest_from_thrift none = none
make_digest_from_thrift (some d) =
    some (record { hash = Thrift.value "" d.hash; size_bytes = Thrift.value (pos 0) d.size_bytes })

unfoldable pub make_timestamp_from_thrift : Option Thrift.Timestamp → Option Timestamp
make_timestamp_from_thrift none = none
make_timestamp_from_thrift (some ts) =
    some
      (record { seconds = Thrift.value (pos 0) ts.seconds; nanos = Thrift.value (pos 0) ts.nanos })

unfoldable pub make_policy_from_thrift : Option Thrift.Policy → Option Policy
make_policy_from_thrift none = none
make_policy_from_thrift (some policy) =
    some (record { priority = Thrift.value (pos 0) policy.priority })

unfoldable pub make_execution_metadata_from_thrift :
    Option Thrift.ExecutedActionMetadata → Option ExecutedActionMetadata
make_execution_metadata_from_thrift none = none
make_execution_metadata_from_thrift (some em) = some (record {
  worker = Thrift.value "" em.worker;
  queued = make_timestamp_from_thrift em.queued;
  worker_start = make_timestamp_from_thrift em.worker_start;
  worker_completed = make_timestamp_from_thrift em.worker_completed;
  input_fetch_start = make_timestamp_from_thrift em.input_fetch_start;
  input_fetch_completed = make_timestamp_from_thrift em.input_fetch_completed;
  execution_start = make_timestamp_from_thrift em.execution_start;
  execution_completed = make_timestamp_from_thrift em.execution_completed;
  output_upload_start = make_timestamp_from_thrift em.output_upload_start;
  output_upload_completed = make_timestamp_from_thrift em.output_upload_completed;
})

unfoldable pub make_exec_req_domain_from_thrift :
    Option Thrift.ExecuteRequest → Option ExecuteRequest
make_exec_req_domain_from_thrift none = none
make_exec_req_domain_from_thrift (some r) = some (record {
  request = some (record {
    instance_name = Thrift.value "" r.instance_name;
    skip_cache_lookup = Thrift.value false r.skip_cache;
    action_digest = make_digest_from_thrift r.action_digest;
    execution_policy = make_policy_from_thrift r.execution_policy;
    results_cache_policy = make_policy_from_thrift r.results_cache_policy;
  });
  execution_metadata = make_execution_metadata_from_thrift r.execution_metadata;
  action = none;
  command = none;
})

-- To thrift.
unfoldable pub make_digest_thrift_from_domain : Option Digest → Option Thrift.Digest
make_digest_thrift_from_domain none = none
make_digest_thrift_from_domain (some d) =
    some (record { hash = some d.hash; size_bytes = some d.size_bytes })

unfoldable pub make_timestamp_thrift_from_domain : Option Timestamp → Option Thrift.Timestamp
make_timestamp_thrift_from_domain none = none
make_timestamp_thrift_from_domain (some ts) =
    some (record { seconds = some ts.seconds; nanos = some ts.nanos })

unfoldable pub make_policy_thrift_from_domain : Option Policy → Option Thrift.Policy
make_policy_thrift_from_domain none = none
make_policy_thrift_from_domain (some policy) = some (record { priority = some policy.priority })

unfoldable pub make_execution_metadata_thrift_from_domain :
    Option ExecutedActionMetadata → Option Thrift.ExecutedActionMetadata
make_execution_metadata_thrift_from_domain none = none
make_execution_metadata_thrift_from_domain (some em) = some (record {
  worker = some em.worker;
  queued = make_timestamp_thrift_from_domain em.queued;
  worker_start = make_timestamp_thrift_from_domain em.worker_start;
  worker_completed = make_timestamp_thrift_from_domain em.worker_completed;
  input_fetch_start = make_timestamp_thrift_from_domain em.input_fetch_start;
  input_fetch_completed = make_timestamp_thrift_from_domain em.input_fetch_completed;
  execution_start = make_timestamp_thrift_from_domain em.execution_start;
  execution_completed = make_timestamp_thrift_from_domain em.execution_completed;
  output_upload_start = make_timestamp_thrift_from_domain em.output_upload_start;
  output_upload_completed = make_timestamp_thrift_from_domain em.output_upload_completed;
})

-- A request that is nil is followed, which panics: the outer `none`.
abbrev pub make_request_thrift :
    Option Request → Option ExecutedActionMetadata → Option (Option Thrift.ExecuteRequest)
make_request_thrift none metadata = none
make_request_thrift (some r) metadata = some (
    some (record {
      instance_name = some r.instance_name;
      skip_cache = some r.skip_cache_lookup;
      action_digest = make_digest_thrift_from_domain r.action_digest;
      execution_policy = make_policy_thrift_from_domain r.execution_policy;
      results_cache_policy = make_policy_thrift_from_domain r.results_cache_policy;
      execution_metadata = make_execution_metadata_thrift_from_domain metadata;
    }))

unfoldable pub make_exec_req_thrift_from_domain :
    Option ExecuteRequest → Option (Option Thrift.ExecuteRequest)
make_exec_req_thrift_from_domain none = some none
make_exec_req_thrift_from_domain (some e) = make_request_thrift e.request e.execution_metadata
