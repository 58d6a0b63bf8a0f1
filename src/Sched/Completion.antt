-- ===== src/Sched/Completion.antt =====
-- sched/scheduler/stateful_scheduler.go: what scheduleTasks does when the run of a task has ended, in the
-- scheduler's loop. The node of the task was at the address `p` when it was scheduled; the node that has its
-- id now is the same one if it is at that address. The durations of tasks are left out.
pub mod Lost
pub mod Agreement
use scoot.Base.{
  ℕ, String, ◌<>◌, Bool, true, false, not, ◌&&◌, ◌||◌, Option, none, some, str_eq, ◌==◌,
  if◌then◌else◌, is_some, lookup,
}
use scoot.Sched.Nodes.{ClusterState, ◌>>=◌}
use scoot.Sched.Nodes
use scoot.Sched.Jobs.{JobState, error_running_task}
use scoot.Sched.Jobs
use scoot.Sched.TaskRunner.{TaskError, is_aborted}

-- getNodeState, which does not look among the suspended nodes.
abbrev pub get_node_state : ClusterState → String → Option ℕ
get_node_state c node_id = lookup node_id c.nodes

-- The task's run was aborted.
abbrev pub was_aborted : Option TaskError → Bool
was_aborted none = false
was_aborted (some e) = is_aborted e.st.state

abbrev pub is_flaky : Option TaskError → Bool
is_flaky none = false
is_flaky (some e) = is_some e.runner_err

-- The task will not be tried again.
abbrev pub ends_task : Bool → Option TaskError → Bool
ends_task prevent_retries err = not (is_some err) || was_aborted err || prevent_retries

abbrev pub is_absent : Option ℕ → Bool
is_absent found = not (is_some found)

abbrev pub is_readded : ℕ → Option ℕ → Bool
is_readded p none = false
is_readded p (some q) = not (q == p)

abbrev pub end_in_job : JobState → String → Bool → Bool → Option JobState
end_in_job j task_id ends readded =
    if ends then Jobs.task_completed j task_id true else error_running_task j task_id readded

-- The job and the cluster after the run.
unfoldable pub finish_task :
    Bool
    → Option TaskError
    → ClusterState
    → String
    → ℕ
    → JobState
    → String
    → ℕ
    → Option (ClusterState × JobState)
finish_task prevent_retries err c node_id p j task_id now =
    let found = get_node_state c node_id in
    let readded = is_readded p found in
    let key = if is_absent found || readded then node_id <> ":ERROR" else node_id in
    do
      k ← end_in_job j task_id (ends_task prevent_retries err) readded
      d ← Nodes.task_completed c key (is_flaky err) now
      some (d, k)
