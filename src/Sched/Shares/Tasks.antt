-- ===== src/Sched/Shares/Tasks.antt =====
-- getTaskAssignments of sched/scheduler/task_scheduler.go as a whole: its numbers, which are float32 in the
-- source, and the nodes for the tasks.
use scoot.Base.{
  ℕ, max, String, Option, none, some, List, [], ◌∷◌, ◌++◌, map, ◌==◌, length, ℤ, pos, ◌+ℤ◌, ◌-ℤ◌,
  pos_part, Dict, keys, Bool, true, false, ◌&&◌, if◌then◌else◌,
}
use scoot.Sched.Jobs.{TaskState}
use scoot.Sched.Nodes.{ClusterState, NodeGroup, num_free}
use scoot.Sched.Assign.{Task, TaskAssignment, assign}
use scoot.Sched.Shares.{
  Float32, Priority, p0, p1, p2, same, priority_of, JobEntry, Quota, adjusted, full, select, is_nil,
}

abbrev pub is_priority : Priority → Option Priority → Bool
is_priority p none = false
is_priority p (some q) = same p q

-- `priorityJobs[p]`.
unfoldable pub at_priority : Priority → List JobEntry → List (Priority × JobEntry)
at_priority p [] = []
at_priority p (j ∷ jobs) =
    let rest = at_priority p jobs in
    if is_priority p (priority_of j.job.def.priority) then (p, j) ∷ rest else rest

abbrev pub has_priority : Option Priority → Bool
has_priority none = false
has_priority (some p) = true

-- An index of priorityJobs out of range panics.
unfoldable pub are_sortable : List JobEntry → Bool
are_sortable [] = true
are_sortable (j ∷ jobs) = has_priority (priority_of j.job.def.priority) && are_sortable jobs

abbrev pub in_order : List JobEntry → List (Priority × JobEntry)
in_order jobs = at_priority p2 jobs ++ (at_priority p1 jobs ++ at_priority p0 jobs)

-- totalOutstandingTasks and totalUnschedTasks.
unfoldable pub total_outstanding : List JobEntry → ℤ
total_outstanding [] = pos 0
total_outstanding (j ∷ jobs) =
    (pos (length j.state.tasks) -ℤ j.state.tasks_completed) +ℤ total_outstanding jobs

unfoldable pub total_unsched : List JobEntry → ℤ
total_unsched [] = pos 0
total_unsched (j ∷ jobs) =
    (pos (length j.state.tasks) -ℤ j.state.tasks_completed -ℤ j.state.tasks_running)
    +ℤ total_unsched jobs

abbrev pub is_zero : ℤ → Bool
is_zero (pos n) = n == 0
is_zero _ = false

-- SoftMaxSchedulableTasks, which a configuration may set.
abbrev pub soft_max : Option ℕ → ℕ → List JobEntry → ℕ
soft_max (some n) num_nodes jobs = n
soft_max none num_nodes jobs = max (pos_part (total_outstanding jobs)) num_nodes

-- A task with the snapshot of its definition.
abbrev pub to_task : (TaskState → String) → TaskState → Task
to_task snapshot_of t = record {
  job_id = t.job_id;
  task_id = t.task_id;
  snapshot_id = snapshot_of t;
}

-- `none` is the pair of nils. Since the groups are values, a copy of them is the groups themselves.
abbrev pub assign_selected :
    (TaskState → String)
    → ClusterState
    → List TaskState
    → Option (List TaskAssignment × Dict NodeGroup)
assign_selected snapshot_of c tasks =
    if is_nil tasks
    then none
    else some
        (assign c.cell ("" ∷ keys c.node_groups) (map (to_task snapshot_of) tasks) c.node_groups)

module _ (F : Float32) where
  open F use {of_int, decimal, mul, div, ceil}

  -- NodeScaleAdjustment.
  abbrev pub node_scale_adjustment : Priority → F.Float
  node_scale_adjustment p0 = decimal 15 2
  node_scale_adjustment p1 = decimal 3 1
  node_scale_adjustment p2 = decimal 55 2

  unfoldable pub get_node_scale_factor : (soft_max num_nodes : ℕ) → Priority → F.Float
  get_node_scale_factor soft_max num_nodes p =
      mul (div (of_int num_nodes) (of_int soft_max)) (node_scale_adjustment p)

  unfoldable pub num_scaled_tasks : (soft_max num_nodes : ℕ) → ℕ → Priority → ℕ
  num_scaled_tasks soft_max num_nodes n p =
      ceil (mul (of_int n) (get_node_scale_factor soft_max num_nodes p))

  abbrev pub quota_of : Quota → Priority → F.Float
  quota_of adjusted p = node_scale_adjustment p
  quota_of full p = decimal 1 0

  unfoldable pub node_quota : ℕ → Quota → Priority → ℕ → ℕ
  node_quota basis q p lists = ceil (div (mul (of_int basis) (quota_of q p)) (of_int lists))

  -- The tasks of the jobs, which are sortable.
  unfoldable pub selected :
      ClusterState → List JobEntry → Dict (List JobEntry) → Option ℕ → List TaskState
  selected c jobs requestors config =
      let nodes = length c.nodes in
      (select requestors (num_scaled_tasks (soft_max config nodes jobs) nodes) node_quota
        (in_order jobs) (num_free c)).tasks

  unfoldable pub get_task_assignments :
      (TaskState → String)
      → ClusterState
      → List JobEntry
      → Dict (List JobEntry)
      → Option ℕ
      → Option (Option (List TaskAssignment × Dict NodeGroup))
  get_task_assignments snapshot_of c jobs requestors config =
      if is_zero (total_unsched jobs)
      then some none
      else (if are_sortable jobs
          then some (assign_selected snapshot_of c (selected c jobs requestors config))
          else none)
