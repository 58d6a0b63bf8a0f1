-- ===== src/Sched/Kill.antt =====
-- killJobs of sched/scheduler/stateful_scheduler.go for one job: the request, and what becomes of its tasks.
-- The ids of a job's tasks differ (addJobs), so that the loop over the tasks sees each as it was before.
-- `none` is a panic, or a send to the saga that blocks. workerapi.SerializeProcessStatus is `serialize`.
pub mod Tasks
use scoot.Base.{
  ℕ, String, Bool, true, false, Option, none, some, List, [], ◌∷◌, ◌++◌, Result, ok, err,
  if◌then◌else◌,
}
use scoot.Saga.Message.{Bytes}
use scoot.Saga.Log.{SagaLog}
use scoot.Saga.Object.{Saga, Outcome, returned, panicked, blocked, start_task, end_task}
use scoot.Runner.Status.{RunStatus, abort_status}
use scoot.Sched.Jobs.{Status, not_started, in_progress, TaskState, JobState}
use scoot.Sched.Jobs

-- UserRequestedErrStr.
abbrev pub user_requested : String
user_requested = "UserRequested"

-- The request, for the job that getJob finds.
unfoldable pub request_kill : Option JobState → Result String JobState
request_kill none = err "Cannot kill Job Id %s, not found."
request_kill (some j) =
    if j.job_killed
    then err "Job Id %s was already killed, request ignored"
    else ok (record j { job_killed = true })

-- The status of a task that was not started.
abbrev pub unstarted_status : TaskState → RunStatus
unstarted_status t =
    record (abort_status "" (record { job_id = t.job_id; task_id = t.task_id; tag = "" })) {
      error = user_requested;
    }

module _ (log : SagaLog) (serialize : RunStatus → Result String (List ℕ)) where
  -- The job with its saga, and the task runners that were told to abort.
  pub record Killing : Type 0 where
    pub store : log.Store
    pub saga : Saga
    pub job : JobState
    pub aborts : List ℕ

  -- An error is only logged.
  abbrev pub after : {A : Type 0} → Outcome → Option A → Option A
  after (returned result) next = next
  after panicked next = none
  after blocked next = none

  abbrev pub bytes_or_nil : RunStatus → Bytes
  bytes_or_nil st = elim (serialize st) [ err e ↦ none | ok b ↦ some b ]

  abbrev pub with_job : Killing → Option JobState → Option Killing
  with_job k none = none
  with_job k (some j) = some (record k { job = j })

  -- The saga's requests for a task that was not started.
  abbrev pub end_unstarted : Killing → TaskState → Option Killing
  end_unstarted k t =
      let (σ, s, o) = start_task log k.saga t.task_id none k.store in
      let (τ, u, p) = end_task log s t.task_id (bytes_or_nil (unstarted_status t)) σ in
      after o (
        after p
          (with_job (record k { store = τ; saga = u }) (Jobs.task_completed k.job t.task_id false)))

  abbrev pub tell_runner : Killing → Option ℕ → Option Killing
  tell_runner k none = none
  tell_runner k (some runner) = some (record k { aborts = k.aborts ++ (runner ∷ []) })

  abbrev pub kill_task : Status → Killing → TaskState → Option Killing
  kill_task in_progress k t = tell_runner k t.task_runner
  kill_task not_started k t = end_unstarted k t
  kill_task _ k t = some k

  unfoldable pub kill_tasks : List TaskState → Killing → Option Killing
  kill_tasks [] k = some k
  kill_tasks (t ∷ ts) k = elim (kill_task t.status k t) [ none ↦ none | some l ↦ kill_tasks ts l ]
