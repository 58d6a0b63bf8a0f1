-- ===== src/Sched/RequestTests.antt =====
-- Tests and examples for the requests to the scheduler (sched/definitions.go, addJobs of
-- sched/scheduler/stateful_scheduler.go).
use scoot.Base.{◌≡◌, ◌≢◌, refl, true, String, some, none, [], ◌∷◌, map, arith, pos, negsuc, err, ok}
use scoot.Bazel.{Request}
use scoot.Sched.Thrift
use scoot.Sched.Definitions.{
  TaskDefinition, JobDefinition, Job, make_domain_job_from_thrift_job,
  make_thrift_job_from_domain_job, validate_job, validate_tasks, validate_max_tasks, to_int32,
}
use scoot.Sched.Definitions.RoundTrip.{retagged, make_domain_job-make_thrift_job}
use scoot.Sched.Admission.{
  Limits, check_job, check_limits, check_tag, has_dup, max_requestors, max_jobs, dup_task,
}
use scoot.Sched.Admission.Expiry.{check_jobs-refuses}

abbrev task : String → TaskDefinition
task id = record {
  argv = "ls" ∷ [];
  env_vars = [];
  timeout = 5;
  snapshot_id = "s";
  tags = record { job_id = ""; task_id = id; tag = "" };
  execute_request = none;
}

-- A request of the Bazel API, with the digest of its action.
abbrev bazel_request : Request
bazel_request = record {
  instance_name = "scoot";
  skip_cache_lookup = true;
  action_digest = some (record { hash = "abc"; size_bytes = pos 12 });
  execution_policy = none;
  results_cache_policy = some (record { priority = negsuc 0 });
}

abbrev bazel_task : TaskDefinition
bazel_task = record (task "b") {
  execute_request = some (record {
    request = some bazel_request;
    execution_metadata = none;
    action = some 3;
    command = none;
  });
}

abbrev def : String → JobDefinition
def tag = record {
  job_type = "t";
  requestor = "r";
  basis = "b";
  tag = tag;
  priority = pos 1;
  tasks = task "a" ∷ bazel_task ∷ [];
}

abbrev job : Job
job = record { id = "7"; def = def "x" }

abbrev limits : Limits
limits = record { max_requestors = 2; max_jobs_per_requestor = 1 }

job_is_valid : validate_job job.def ≡ ok tt
unfolding validate_job validate_tasks
job_is_valid = refl

no_tasks :
    validate_job (record (def "x") { tasks = [] })
    ≡ err "invalid job. Must have at least 1 task; was empty"
unfolding validate_job
no_tasks = refl

no_limit : validate_max_tasks (negsuc 0) ≡ ok tt
unfolding validate_max_tasks
no_limit = refl

wraps : to_int32 (pos 2147483648) ≡ negsuc 2147483647
wraps = refl

make_domain_job-make_thrift_job_example :
    (t : Thrift.Job) × (make_thrift_job_from_domain_job job ≡ some t)
    × (make_domain_job_from_thrift_job t
        ≡ some (record job { def = record job.def { tasks = map (retagged job) job.def.tasks } }))
make_domain_job-make_thrift_job_example =
    make_domain_job-make_thrift_job job (ground arith) (tt, ((bazel_request, refl), tt))

full : (check_job limits (("r", 0 ∷ []) ∷ []) [] (def "x")).1 ≡ some max_jobs
unfolding check_job check_limits scoot.Base.lookup
full = refl

crowded : (check_job limits (("p", []) ∷ ("q", []) ∷ []) [] (def "x")).1 ≡ some max_requestors
unfolding check_job check_limits scoot.Base.lookup
crowded = refl

twice :
    (check_job limits [] [] (record (def "x") { tasks = task "a" ∷ task "a" ∷ [] })).1
    ≡ some dup_task
unfolding check_job check_limits has_dup scoot.Base.lookup
twice = refl

x_accepted : (check_job limits [] [] (def "x")).1 ≡ none
unfolding check_job check_limits check_tag has_dup scoot.Base.lookup scoot.Base.insert
x_accepted = refl

y_accepted : (check_job limits [] (check_job limits [] [] (def "x")).0 (def "y")).1 ≡ none
unfolding check_job check_limits check_tag has_dup scoot.Base.lookup scoot.Base.insert
y_accepted = refl

check_jobs-refuses_example :
    (check_job limits []
      (check_job limits [] (check_job limits [] [] (def "x")).0 (def "y")).0
      (def "x")).1
    ≢ none
check_jobs-refuses_example =
    check_jobs-refuses limits [] [] [] [] [] [] (def "x") (def "y") (def "x") refl refl refl refl
      refl refl refl x_accepted y_accepted
