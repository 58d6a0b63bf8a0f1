-- ===== src/Sched/Stats.antt =====
-- updateStats, getSchedulerTaskCounts and GetSchedulerStatus of sched/scheduler/stateful_scheduler.go. The gauges
-- are left out, and so is the log line of a long-running job.
pub mod Counts
use scoot.Base.{
  ℕ, suc, ◌+◌, ltb, ◌==◌, String, Bool, true, false, ◌&&◌, Option, none, some, List, [], ◌∷◌,
  length, ℤ, pos, ◌+ℤ◌, ◌-ℤ◌, Dict, lookup, insert, if◌then◌else◌,
}
use scoot.Sched.Jobs.{in_progress, JobState, is_status, get_job_status}
use scoot.Sched.Shares.{JobEntry, requestor_of}
use scoot.Sched.Shares.Tasks.{is_zero}

-- An inner map of requestorsCounts, by its four keys.
pub record Activity : Type 0 where
  pub jobs_running : ℕ
  pub jobs_waiting_to_start : ℕ
  pub num_running_tasks : ℤ
  pub num_waiting_tasks : ℤ

abbrev pub no_activity : Activity
no_activity = record {
  jobs_running = 0;
  jobs_waiting_to_start = 0;
  num_running_tasks = pos 0;
  num_waiting_tasks = pos 0;
}

abbrev pub or_none : Option Activity → Activity
or_none none = no_activity
or_none (some c) = c

-- The first loop: every count is 0 again.
unfoldable pub reset : Dict Activity → Dict Activity
reset [] = []
reset ((r, c) ∷ m) = (r, no_activity) ∷ reset m

abbrev pub is_waiting : JobState → Bool
is_waiting j = is_zero (j.tasks_completed +ℤ j.tasks_running)

abbrev pub num_tasks : JobState → ℤ
num_tasks j = pos (length j.tasks)

unfoldable pub count_job : JobState → Activity → Activity
count_job j c =
    if is_waiting j
    then record c {
      jobs_waiting_to_start = suc c.jobs_waiting_to_start;
      num_waiting_tasks = c.num_waiting_tasks +ℤ num_tasks j;
    }
    else (if is_status (get_job_status j) in_progress
        then record c {
          jobs_running = suc c.jobs_running;
          num_running_tasks = c.num_running_tasks +ℤ j.tasks_running;
          num_waiting_tasks =
              c.num_waiting_tasks +ℤ (num_tasks j -ℤ j.tasks_completed -ℤ j.tasks_running);
        }
        else c)

-- The loop over the jobs, with a new entry for a requestor that has none.
unfoldable pub count_jobs : List JobEntry → Dict Activity → Dict Activity
count_jobs [] m = m
count_jobs (j ∷ js) m =
    let r = requestor_of j in count_jobs js (insert r (count_job j.state (or_none (lookup r m))) m)

abbrev pub is_inactive : Activity → Bool
is_inactive c =
    c.jobs_running == 0
    && (c.jobs_waiting_to_start == 0
        && (is_zero c.num_running_tasks && is_zero c.num_waiting_tasks))

-- The last loop deletes the requestors with no activity.
unfoldable pub delete_inactive : Dict Activity → Dict Activity
delete_inactive [] = []
delete_inactive ((r, c) ∷ m) =
    let rest = delete_inactive m in if is_inactive c then rest else (r, c) ∷ rest

-- requestorsCounts after updateStats.
unfoldable pub update_stats : List JobEntry → Dict Activity → Dict Activity
update_stats jobs m = delete_inactive (count_jobs jobs (reset m))

-- LongJobDuration, 4 hours in nanoseconds.
abbrev pub long_job_duration : ℕ
long_job_duration = 14400000000000

-- The mark of a job that has run for long since the last mark.
unfoldable pub mark_long : ℕ → JobState → JobState
mark_long now j =
    if ltb (j.time_marker + long_job_duration) now then record j { time_marker = now } else j

-- getSchedulerTaskCounts.
pub record TaskCounts : Type 0 where
  pub total : ℤ
  pub completed : ℤ
  pub running : ℤ

unfoldable pub get_scheduler_task_counts : List JobEntry → TaskCounts
get_scheduler_task_counts [] = record { total = pos 0; completed = pos 0; running = pos 0 }
get_scheduler_task_counts (j ∷ js) =
    let rest = get_scheduler_task_counts js in
    record {
      total = num_tasks j.state +ℤ rest.total;
      completed = j.state.tasks_completed +ℤ rest.completed;
      running = j.state.tasks_running +ℤ rest.running;
    }

-- GetSchedulerStatus: the tasks that are not completed, and the maximum.
unfoldable pub get_scheduler_status : List JobEntry → ℤ → ℤ × ℤ
get_scheduler_status jobs task_throttle =
    let counts = get_scheduler_task_counts jobs in (counts.total -ℤ counts.completed, task_throttle)
