-- ===== src/Sched/RunTests.antt =====
-- Tests and examples for the run of a task and its end (sched/scheduler/task_runner.go,
-- sched/scheduler/stateful_scheduler.go).
use scoot.Base.{
  ℕ, ◌≡◌, refl, String, true, false, Option, none, some, List, [], ◌∷◌, arith, pos, lookup, insert,
  ok, err, Result,
}
use scoot.Saga.Message.{make_start_saga_message}
use scoot.Saga.State.{
  SagaState, initialize_saga_state, make_saga_state, validate_saga_id, validate_task_id, flags,
  is_task_completed, copy_saga_state, add_task_data,
}
use scoot.Saga.Update
use scoot.Saga.Update.{apply_start_task, apply_end_task, add_payload, mark}
use scoot.Saga.Invariant.{IsValid, make_saga_state-IsValid}
use scoot.Saga.Log
use scoot.Saga.Object.{Saga, start_task, end_task, update_saga_state}
use scoot.Saga.Recovery.{from_messages, apply_messages}
use scoot.Saga.Durability.{IsLogged}
use scoot.Saga.Memory.{InMemorySagaLog, make_in_memory_saga_log}
use scoot.Saga.MemoryLaws.{in_memory_saga_log, memory_messages}
use scoot.Runner.Status.{
  RunStatus, running_status, complete_status, pending_status, no_status, LogTags,
}
use scoot.Cluster.Node.{new_id_node, new_add, new_remove}
use scoot.Sched.Nodes.{NodeState, ClusterState, new_node_state, no_channel}
use scoot.Sched.Nodes.Update.{update}
use scoot.Sched.Jobs.{JobState, fresh, new_task, in_progress, change_task, task_completed}
use scoot.Sched.TaskRunner.{TaskError, TaskRunner, Try, Answer, Begun, begin_run}
use scoot.Sched.TaskRunner.Run.{log_task_status, wait_run, run_and_wait, conclude, run}
use scoot.Sched.TaskRunner.Retries.{begin_run-returns}
use scoot.Sched.Kill.{Killing, request_kill, kill_tasks}
use scoot.Sched.Kill.Tasks.{IsKilled, kill_tasks-IsKilled}
use scoot.Sched.Completion.{finish_task, end_in_job}
use scoot.Sched.Completion.Agreement.{run-completes}
use scoot.Sched.Completion.Lost.{update-finish_task}

abbrev tags : LogTags
tags = record { job_id = "s"; task_id = "t"; tag = "" }

abbrev runner : TaskRunner
runner = record {
  mark_complete_on_failure = false;
  runner_retry_timeout = 10;
  runner_retry_interval = 5;
  tags = tags;
}

-- The worker is busy, and then takes the command, runs it and completes it.
abbrev refusal : Try
refusal = record { before = none; st = no_status; error = some "busy"; after = none }

abbrev accepted : Try
accepted = record { before = none; st = pending_status "7" tags; error = none; after = none }

abbrev answer : RunStatus → Answer
answer st = record { sts = st ∷ []; error = none; abort = none }

abbrev finished : RunStatus
finished = complete_status "7" "" (pos 0) tags

abbrev answers : List Answer
answers = answer (running_status "7" "out" "err" tags) ∷ answer finished ∷ []

abbrev to_bytes : RunStatus → Result String (List ℕ)
to_bytes st = ok []

abbrev new_state : SagaState
new_state = record initialize_saga_state { saga_id = "s" }

abbrev new : Saga
new = record { id = "s"; state = new_state; is_open = true; has_loop = true }

abbrev sagas : InMemorySagaLog
sagas = record (make_in_memory_saga_log 100 5) {
  sagas = ("s", record { messages = make_start_saga_message "s" none ∷ []; created = 5 }) ∷ [];
}

new-IsValid : IsValid new_state
unfolding make_saga_state validate_saga_id
new-IsValid = make_saga_state-IsValid "s" none new_state refl

new-IsLogged : IsLogged in_memory_saga_log sagas new
unfolding from_messages apply_messages make_saga_state validate_saga_id lookup memory_messages
new-IsLogged = record { valid = new-IsValid; same_id = refl; replays = refl }

abbrev Outcome : Type 0
Outcome = Option (InMemorySagaLog × Saga × Option TaskError)

abbrev ran : Outcome
ran = run in_memory_saga_log to_bytes runner (refusal ∷ accepted ∷ []) answers new sagas

abbrev store_of : Outcome → InMemorySagaLog
store_of none = sagas
store_of (some (σ, s, e)) = σ

abbrev saga_of : Outcome → Saga
saga_of none = new
saga_of (some (σ, s, e)) = s

run_ends : ran ≡ some (store_of ran, saga_of ran, none)
unfolding run log_task_status run_and_wait begin_run wait_run conclude start_task end_task
    update_saga_state Log.log_message Update.update_saga_state apply_start_task apply_end_task
    validate_task_id flags add_payload mark add_task_data copy_saga_state lookup insert
    scoot.Saga.Memory.log_message
run_ends = refl

run-completes_example :
    (is_task_completed (saga_of ran).state "t" ≡ true)
    × IsLogged in_memory_saga_log (store_of ran) (saga_of ran)
run-completes_example =
    run-completes in_memory_saga_log to_bytes runner (refusal ∷ accepted ∷ []) answers new
      (saga_of ran) sagas (store_of ran) none ((refl, tt, tt), ((refl, tt, tt), tt))
      (((refl, tt), tt), (((refl, tt), tt), tt)) new-IsLogged run_ends refl refl

begin_run-returns_example : (b : Begun) × (begin_run runner 0 (refusal ∷ refusal ∷ []) ≡ some b)
begin_run-returns_example = begin_run-returns runner 0 refusal (refusal ∷ []) (ground arith)

-- A cluster of one node, which runs the task, of a job of that task alone.
abbrev cells : ℕ → NodeState
cells p = record (new_node_state (new_id_node "a")) { running_job = "s"; running_task = "t" }

abbrev cluster : ClusterState
cluster = record {
  nodes = ("a", 0) ∷ [];
  suspended_nodes = [];
  offlined_nodes = [];
  node_groups = ("", record { idle = []; busy = ("a", 0) ∷ [] }) ∷ [];
  max_lost_duration = 60;
  max_flaky_duration = 900;
  has_ready_fn = false;
  num_running = pos 1;
  cell = cells;
  next = 1;
}

abbrev job : JobState
job = record (fresh "s" [] [] 0) {
  tasks = record (new_task "s" [] "t") { status = in_progress } ∷ [];
  tasks_running = pos 1;
}

abbrev or_job : Option JobState → JobState
or_job none = job
or_job (some j) = j

job_ends : end_in_job job "t" true false ≡ some (or_job (end_in_job job "t" true false))
unfolding task_completed change_task
job_ends = refl

update-finish_task_example :
    (a : ClusterState) × (update cluster (new_remove "a" ∷ []) 5 ≡ some a)
    × (d : ClusterState) × (finish_task false none a "a" 0 job "t" 6
        ≡ some (d, or_job (end_in_job job "t" true false)))
    × (b : ClusterState) × (update d (new_add (new_id_node "a") ∷ []) 7 ≡ some b)
    × (lookup "a" b.nodes ≡ some 0)
    × (b.node_groups ≡ cluster.node_groups)
    × (b.cell 0 ≡ record (cluster.cell 0) { time_lost = none; ready_ch = no_channel })
    × (b.num_running ≡ pos 0)
unfolding lookup
update-finish_task_example =
    update-finish_task false none cluster "a" 0 job (or_job (end_in_job job "t" true false)) "t" 5 6
      7 refl refl refl refl refl job_ends

-- A job with one task that runs and one that was not started.
abbrev two_tasks : JobState
two_tasks = record job {
  tasks =
      record (new_task "s" [] "t") { status = in_progress; task_runner = some 3 }
      ∷ new_task "s" [] "u"
      ∷ [];
}

abbrev killing : Killing in_memory_saga_log to_bytes
killing = record { store = sagas; saga = new; job = two_tasks; aborts = [] }

killed_twice :
    request_kill (some (record two_tasks { job_killed = true }))
    ≡ err "Job Id %s was already killed, request ignored"
unfolding request_kill
killed_twice = refl

kill_tasks-IsKilled_example :
    (l : Killing in_memory_saga_log to_bytes) × (kill_tasks in_memory_saga_log to_bytes
        two_tasks.tasks killing
      ≡ some l)
    × IsKilled in_memory_saga_log to_bytes two_tasks.tasks killing l
kill_tasks-IsKilled_example =
    kill_tasks-IsKilled in_memory_saga_log to_bytes killing (record { done = refl; busy = refl })
      ((refl, tt), (tt, tt)) (refl, (refl, tt)) (refl, refl)
