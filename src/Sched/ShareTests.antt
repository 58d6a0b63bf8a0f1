-- ===== src/Sched/ShareTests.antt =====
-- Tests and examples for the shares of nodes (sched/scheduler/task_scheduler.go).
use scoot.Base.{
  ℕ, zero, suc, ◌+◌, ◌-◌, ◌*◌, ◌≤◌, ◌<◌, ◌≡◌, refl, inl, inr, String, false, none, some, List, [],
  ◌∷◌, arith, length, Dict, lookup, insert, delete, pos, str_eq,
}
use Prim.Native.Nat.{◌/◌, ◌^◌}
use scoot.Cluster.Node.{new_id_node}
use scoot.Sched.Jobs.{fresh, get_un_scheduled_tasks}
use scoot.Sched.Nodes.{NodeState, ClusterState, new_node_state, num_free}
use scoot.Sched.Assign.{TaskAssignment, first_free, find_free, occupy, assign}
use scoot.Sched.Shares.{
  Float32, Priority, p0, p2, JobEntry, Quota, gather, share, visit, visit_job, serve, serve_at,
  distribute, optional_rounds, start, select,
}
use scoot.Sched.Shares.Tasks.{
  at_priority, are_sortable, total_outstanding, total_unsched, get_node_scale_factor,
  num_scaled_tasks, node_quota, in_order, selected, get_task_assignments,
}
use scoot.Sched.Shares.Waiting.{waiting_all}
use scoot.Sched.Shares.Assigned.{times_assigned, get_task_assignments-once}
use scoot.Sched.Shares.Required.{select-optional}
use scoot.Sched.Shares.Progress.{select-progress}

-- Fractions in place of float32.
abbrev fractions : Float32
fractions = record {
  Float = ℕ × ℕ;
  of_int = λ n. (n, 1);
  decimal = λ m k. (m, 10 ^ k);
  mul = λ a b. (a.0 * b.0, a.1 * b.1);
  div = λ a b. (a.0 * b.1, a.1 * b.0);
  ceil = λ a. (a.0 + a.1 - 1) / a.1;
}

abbrev job : String → String → String → ℕ → List String → JobEntry
job id requestor tag priority tasks = record {
  job = record {
    id = id;
    def = record {
      job_type = "";
      requestor = requestor;
      basis = "";
      tag = tag;
      priority = pos priority;
      tasks = [];
    };
  };
  state = fresh id tasks [] 0;
}

-- A large job of low priority and a small one of high priority.
abbrev large : JobEntry
large = job "j" "r" "a" 0 ("t" ∷ "u" ∷ "v" ∷ "w" ∷ [])

abbrev small : JobEntry
small = job "k" "q" "b" 2 ("x" ∷ [])

abbrev jobs : List JobEntry
jobs = large ∷ small ∷ []

abbrev requestors : Dict (List JobEntry)
requestors = ("r", large ∷ []) ∷ ("q", small ∷ []) ∷ []

abbrev cells : ℕ → NodeState
cells zero = new_node_state (new_id_node "a")
cells (suc zero) = new_node_state (new_id_node "b")
cells (suc (suc n)) = new_node_state (new_id_node "c")

abbrev nodes : Dict ℕ
nodes = ("a", 0) ∷ ("b", 1) ∷ ("c", 2) ∷ []

abbrev cluster : ClusterState
cluster = record {
  nodes = nodes;
  suspended_nodes = [];
  offlined_nodes = [];
  node_groups = ("", record { idle = nodes; busy = [] }) ∷ [];
  max_lost_duration = 0;
  max_flaky_duration = 0;
  has_ready_fn = false;
  num_running = pos 0;
  cell = cells;
  next = 3;
}

abbrev given : ℕ → String → String → TaskAssignment
given p job_id task_id = record {
  node_st = p;
  task = record { job_id = job_id; task_id = task_id; snapshot_id = "" };
}

abbrev assignments : List TaskAssignment
assignments = given 0 "k" "x" ∷ given 1 "j" "t" ∷ given 2 "j" "u" ∷ []

-- The small job comes first, and the large one gets the nodes that are left.
shared :
    get_task_assignments fractions (λ t. "") cluster jobs requestors none
    ≡ some (some (assignments, ("", record { idle = []; busy = nodes }) ∷ []))
unfolding get_task_assignments selected select visit visit_job gather share distribute serve_at
    serve num_scaled_tasks get_node_scale_factor node_quota at_priority are_sortable
    total_outstanding total_unsched lookup insert delete assign find_free first_free occupy
    get_un_scheduled_tasks
shared = refl

get_task_assignments-once_example :
    (length assignments ≤ num_free cluster)
    × (times_assigned (λ t. str_eq t.task_id "t") assignments
        ≤ waiting_all (λ t. str_eq t.task_id "t") requestors)
get_task_assignments-once_example =
    get_task_assignments-once (λ t. str_eq t.task_id "t") (λ t. "") cluster assignments
      (("", record { idle = []; busy = nodes }) ∷ []) fractions jobs requestors none shared

-- One node for every task, and all free nodes for every list.
abbrev one_each : ℕ → Priority → ℕ
one_each n p = n

abbrev all_free : ℕ → Quota → Priority → ℕ → ℕ
all_free basis q p lists = basis

select-optional_example : select requestors one_each all_free (in_order jobs) 3 ≡ (
    let s = visit requestors one_each all_free (in_order jobs) (start 3) in
    distribute requestors one_each all_free s.num_free optional_rounds s)
select-optional_example = select-optional requestors one_each all_free (in_order jobs) 3

select-progress_example :
    0 < length (select requestors one_each all_free ((p0, large) ∷ (p2, small) ∷ []) 3).tasks
unfolding lookup get_un_scheduled_tasks
select-progress_example =
    select-progress requestors one_each all_free "q" "b" ((p0, large) ∷ (p2, small) ∷ []) 3
      (λ basis lists p f g. f) (omega arith) (inr (inl (refl, refl))) (omega arith)
