-- ===== src/Sched/Jobs.antt =====
-- sched/scheduler/job_state.go: the tasks of a job and their counts. `none` is a panic: getTask returns nil
-- for an unknown task, which is then followed. The definition of a task is its id here; a task runner is a
-- number, and time.Now() an argument.
pub mod Counts
pub mod Recovery
use scoot.Base.{
  ℕ, suc, String, Bool, true, false, Option, none, some, List, [], ◌∷◌, str_eq, ◌==◌, length, ℤ,
  pos, negsuc, inc, dec, Dict, lookup, map, if◌then◌else◌,
}
use scoot.Saga.State.{SagaState, get_task_ids, is_task_completed}

-- sched/definitions.go's Status.
pub data Status : Type 0 where
  not_started in_progress completed rolling_back rolled_back : Status

pub record TaskState : Type 0 where
  pub job_id : String
  pub task_id : String
  pub status : Status
  pub time_started : Option ℕ
  pub num_times_tried : ℤ
  pub task_runner : Option ℕ
  pub avg_duration : ℕ

pub record JobState : Type 0 where
  pub tasks : List TaskState
  pub ending_saga : Bool
  pub tasks_completed : ℤ
  pub tasks_running : ℤ
  pub job_killed : Bool
  pub time_created : ℕ
  pub time_marker : ℕ

-- getTask, the first task with the id.
unfoldable pub get_task : String → List TaskState → Option TaskState
get_task id [] = none
get_task id (t ∷ ts) = if str_eq t.task_id id then some t else get_task id ts

abbrev pub with_head : TaskState → Option (List TaskState) → Option (List TaskState)
with_head t none = none
with_head t (some ts) = some (t ∷ ts)

-- A change through the pointer that getTask returns.
unfoldable pub change_task :
    (TaskState → TaskState) → String → List TaskState → Option (List TaskState)
change_task f id [] = none
change_task f id (t ∷ ts) =
    let rest = change_task f id ts in
    if str_eq t.task_id id then some (f t ∷ ts) else with_head t rest

abbrev pub is_status : Status → Status → Bool
is_status not_started not_started = true
is_status in_progress in_progress = true
is_status completed completed = true
is_status rolling_back rolling_back = true
is_status rolled_back rolled_back = true
is_status _ _ = false

unfoldable pub get_un_scheduled_tasks : List TaskState → List TaskState
get_un_scheduled_tasks [] = []
get_un_scheduled_tasks (t ∷ ts) =
    let rest = get_un_scheduled_tasks ts in
    if is_status t.status not_started then t ∷ rest else rest

abbrev pub started : ℕ → ℕ → TaskState → TaskState
started runner now t = record t {
  status = in_progress;
  time_started = some now;
  task_runner = some runner;
  num_times_tried = inc t.num_times_tried;
}

abbrev pub finished : TaskState → TaskState
finished t = record t { status = completed; time_started = none; task_runner = none }

abbrev pub failed : Bool → TaskState → TaskState
failed preempted t = record t {
  status = not_started;
  time_started = none;
  task_runner = none;
  num_times_tried = if preempted then dec t.num_times_tried else t.num_times_tried;
}

abbrev pub on_tasks : JobState → Option (List TaskState) → Option JobState
on_tasks j none = none
on_tasks j (some ts) = some (record j { tasks = ts })

unfoldable pub task_started : JobState → String → ℕ → ℕ → Option JobState
task_started j id runner now =
    on_tasks (record j { tasks_running = inc j.tasks_running })
      (change_task (started runner now) id j.tasks)

unfoldable pub task_completed : JobState → String → Bool → Option JobState
task_completed j id running =
    on_tasks
      (record j {
        tasks_completed = inc j.tasks_completed;
        tasks_running = if running then dec j.tasks_running else j.tasks_running;
      })
      (change_task finished id j.tasks)

unfoldable pub error_running_task : JobState → String → Bool → Option JobState
error_running_task j id preempted =
    on_tasks (record j { tasks_running = dec j.tasks_running })
      (change_task (failed preempted) id j.tasks)

-- The counter is a Go int, compared with the number of tasks.
abbrev pub equals : ℤ → ℕ → Bool
equals (pos n) k = n == k
equals (negsuc n) k = false

unfoldable pub get_job_status : JobState → Status
get_job_status j = if equals j.tasks_completed (length j.tasks) then completed else in_progress

-- The tasks of a job before any progress, from their ids and their average durations, where 0 is unknown.
abbrev pub duration_or_max : Option ℕ → ℕ
duration_or_max none = 9223372036854775807
duration_or_max (some d) = if d == 0 then 9223372036854775807 else d

abbrev pub new_task : String → Dict ℕ → String → TaskState
new_task job_id durations id = record {
  job_id = job_id;
  task_id = id;
  status = not_started;
  time_started = none;
  num_times_tried = pos 0;
  task_runner = none;
  avg_duration = duration_or_max (lookup id durations);
}

abbrev pub completed_before : TaskState → TaskState
completed_before t = record t { status = completed }

-- The tasks that the saga has as completed are so from the start.
unfoldable pub recover_tasks : SagaState → List String → JobState → Option JobState
recover_tasks saga [] j = some j
recover_tasks saga (id ∷ ids) j =
    let next =
      if is_task_completed saga id
      then on_tasks (record j { tasks_completed = inc j.tasks_completed })
          (change_task completed_before id j.tasks)
      else some j in
    elim next [ none ↦ none | some k ↦ recover_tasks saga ids k ]

abbrev pub fresh : String → List String → Dict ℕ → ℕ → JobState
fresh job_id ids durations now = record {
  tasks = map (new_task job_id durations) ids;
  ending_saga = false;
  tasks_completed = pos 0;
  tasks_running = pos 0;
  job_killed = false;
  time_created = now;
  time_marker = now;
}

unfoldable pub new_job_state : String → List String → SagaState → Dict ℕ → ℕ → Option JobState
new_job_state job_id ids saga durations now =
    recover_tasks saga (get_task_ids saga) (fresh job_id ids durations now)
