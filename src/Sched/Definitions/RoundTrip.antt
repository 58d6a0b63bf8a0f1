-- ===== src/Sched/Definitions/RoundTrip.antt =====
-- A job that sched/definitions.go turns into its thrift form and back.
use Prim.Native.Nat.{◌^◌}
use scoot.Base.{◌<◌, ◌≡◌, refl, some, List, [], ◌∷◌, map, ℤ, pos, negsuc, arith, All}
use scoot.Bazel.RoundTrip.{passed, HasRequest, make_exec_req-passed}
use scoot.Sched.Thrift
use scoot.Sched.Definitions.{
  TaskDefinition, Job, to_int32, make_thrift_tasks, make_thrift_job_from_domain_job, thrift_job,
  thrift_task, make_domain_tasks, make_domain_job_from_thrift_job, thrift_task,
}

-- The tags are those of the job and of the task itself, and an execute request loses what thrift has no
-- place for.
abbrev pub retagged : Job → TaskDefinition → TaskDefinition
retagged job task = record task {
  tags = record { job_id = job.id; task_id = task.tags.task_id; tag = job.def.tag };
  execute_request = passed task.execute_request;
}

make_domain_tasks-make_thrift_tasks :
    (job : Job) (tasks : List TaskDefinition)
    → All (λ task. HasRequest task.execute_request) tasks
    → (ts : List Thrift.TaskDefinition) × (make_thrift_tasks tasks ≡ some ts)
      × (make_domain_tasks job.id job.def.tag ts ≡ some (map (retagged job) tasks))
unfolding make_domain_tasks make_thrift_tasks
make_domain_tasks-make_thrift_tasks job [] h = ([], refl, refl)
make_domain_tasks-make_thrift_tasks job (task ∷ tasks) h =
    let (t, there, here) = make_exec_req-passed task.execute_request h.0 in
    let (ts, ins, outs) = make_domain_tasks-make_thrift_tasks job tasks h.1 in
    (thrift_task task t ∷ ts, rw (there, ins) refl, rw (outs, here) refl)

-- The priority fits in 32 bits.
abbrev pub Fits : ℤ → Type 0
Fits (pos n) = n < 2 ^ 31
Fits (negsuc n) = n < 2 ^ 31

to_int32-Fits : (z : ℤ) → Fits z → to_int32 z ≡ z
to_int32-Fits (pos n) h = ground arith
to_int32-Fits (negsuc n) h = ground arith

-- A job whose priority fits in 32 bits, and whose execute requests all have their Request, is turned into its
-- thrift form without a panic and comes back from it as it was, but for two things: the tags of each task are the
-- id and the tag of the job with the task's own id, and an execute request has lost the action and the command
-- that were fetched for it.
pub make_domain_job-make_thrift_job :
    (job : Job)
    → Fits job.def.priority
    → All (λ task. HasRequest task.execute_request) job.def.tasks
    → (t : Thrift.Job) × (make_thrift_job_from_domain_job job ≡ some t)
      × (make_domain_job_from_thrift_job t
          ≡ some (record job { def = record job.def { tasks = map (retagged job) job.def.tasks } }))
unfolding make_domain_job_from_thrift_job make_thrift_job_from_domain_job
make_domain_job-make_thrift_job job f h =
    let (ts, ins, outs) = make_domain_tasks-make_thrift_tasks job job.def.tasks h in
    (thrift_job job ts, rw ins refl, rw (outs, to_int32-Fits job.def.priority f) refl)
