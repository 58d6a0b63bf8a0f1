-- ===== src/Sched/Tests.antt =====
-- The scheduler's cluster state on small inputs: runs of sched/scheduler/cluster_state.go, and the
-- theorems at them.
use scoot.Base.{
  List, subst, sym, ◌∙◌, some_inj, arith, zero, ℕ, ◌≡◌, refl, String, false, some, [], ◌∷◌, lookup,
  insert, delete, inr, ap, pos,
}
use scoot.Cluster.Node.{Node, NodeUpdate, new_id_node, new_add, new_remove}
use scoot.Sched.Nodes.{
  write, NodeState, NodeGroup, ClusterState, new_node_state, new_node_group, task_scheduled,
  task_completed,
}
use scoot.Sched.Nodes.Update.{
  update, apply_updates, apply_update, sweep, sweep_node, node_added_update, node_removed_update,
  lose, add_new,
}
use scoot.Sched.Nodes.Disjoint.{IsTracked}
use scoot.Sched.Nodes.Tracked.{Fits}
use scoot.Sched.Nodes.Sweep.{update-IsTracked}
use scoot.Sched.Nodes.Rounds.{IsFreed, IsRested, task_completed-task_scheduled}

-- A cluster of two healthy nodes; "b" last ran with the snapshot "s".
abbrev cells : ℕ → NodeState
cells zero = new_node_state (new_id_node "a")
cells _ = record (new_node_state (new_id_node "b")) { snapshot_id = "s" }

abbrev group_none : NodeGroup
group_none = record { idle = ("a", 0) ∷ []; busy = [] }

abbrev group_s : NodeGroup
group_s = record { idle = ("b", 1) ∷ []; busy = [] }

abbrev cluster : ClusterState
cluster = record {
  nodes = ("a", 0) ∷ ("b", 1) ∷ [];
  suspended_nodes = [];
  offlined_nodes = [];
  node_groups = ("", group_none) ∷ ("s", group_s) ∷ [];
  max_lost_duration = 60;
  max_flaky_duration = 900;
  has_ready_fn = false;
  num_running = pos 0;
  cell = cells;
  next = 2;
}

task_completed-task_scheduled_example :
    (d : ClusterState) × (e : ClusterState) × (task_scheduled cluster "b" "j" "t" "u" ≡ some d)
    × (task_completed d "b" false 5 ≡ some e)
    × IsFreed cluster e "b" "u" 1
unfolding lookup
task_completed-task_scheduled_example =
    task_completed-task_scheduled cluster "b" "j" "t" "u" 1 group_s 5 refl refl

-- "b" was flaky at 100.
abbrev flaky_cells : ℕ → NodeState
flaky_cells zero = new_node_state (new_id_node "a")
flaky_cells _ = record (new_node_state (new_id_node "b")) {
  snapshot_id = "s";
  time_flaky = some 100;
}

abbrev flaky_cluster : ClusterState
flaky_cluster = record cluster {
  nodes = ("a", 0) ∷ [];
  suspended_nodes = ("b", 1) ∷ [];
  cell = flaky_cells;
}

due : IsRested flaky_cluster 1 2000
due = record {
  since = 100;
  no_loop = refl;
  not_lost = refl;
  flaky = refl;
  is_due = refl;
  no_check = refl;
}

abbrev healthy_b : NodeState
healthy_b = record (new_node_state (new_id_node "b")) { snapshot_id = "" }

abbrev swept : ClusterState
swept = record cluster {
  nodes = insert "b" 1 (("a", 0) ∷ []);
  cell = write (write flaky_cells 1 (flaky_cells 1)) 1 healthy_b;
}

-- No node yet, and no readiness check.
abbrev empty_cluster : ClusterState
empty_cluster = record cluster {
  nodes = [];
  node_groups = ("", new_node_group) ∷ [];
  cell = λ q. new_node_state (new_id_node "");
  next = 0;
}

-- "a" joins, is lost, and "b" joins.
abbrev first : NodeUpdate
first = new_add (new_id_node "a")

abbrev second : NodeUpdate
second = new_remove "a"

abbrev with_a : ClusterState
with_a = record empty_cluster {
  nodes = ("a", 0) ∷ [];
  node_groups = ("", record { idle = ("a", 0) ∷ []; busy = [] }) ∷ [];
  cell = write empty_cluster.cell 0 (new_node_state (new_id_node "a"));
  next = 1;
}

abbrev lost_a : ClusterState
lost_a = record with_a {
  nodes = [];
  suspended_nodes = ("a", 0) ∷ [];
  cell = write with_a.cell 0 (record (new_node_state (new_id_node "a")) { time_lost = some 9 });
}

Fits-next :
    (c d : ClusterState) (u : NodeUpdate) (us : List NodeUpdate) (now : ℕ)
    → apply_update c u now ≡ some d
    → Fits d us now
    → (d' : ClusterState) → apply_update c u now ≡ some d'
    → Fits d' us now
Fits-next c d u us now h f d' k = subst (λ x. Fits x us now) (some_inj.0 (sym h ∙ k)) f

empty_cluster-IsTracked : IsTracked empty_cluster
unfolding lookup
empty_cluster-IsTracked = record {
  xy = λ id. refl;
  yz = λ id. refl;
  zx = λ id. refl;
  named_x = λ id p h. absurd (ground arith);
  named_y = λ id p h. absurd (ground arith);
  named_z = λ id p h. absurd (ground arith);
  distinct_x = tt;
  distinct_y = tt;
  distinct_z = tt;
}

abbrev id_of : Node → String
id_of n = n.id

joined : apply_update empty_cluster first 9 ≡ some with_a
unfolding apply_update node_added_update add_new lookup insert
joined = refl

batch-Fits : Fits empty_cluster (first ∷ second ∷ []) 9
unfolding lookup
batch-Fits = (
  (λ node h. sym (ap id_of (some_inj.0 h)), inr refl),
  Fits-next empty_cluster with_a first (second ∷ []) 9 joined
      ((λ node h. absurd (ground arith), inr refl), λ d h. tt),
)

abbrev swept_a : ClusterState
swept_a = record lost_a { cell = write lost_a.cell 0 (lost_a.cell 0) }

update-IsTracked_example : IsTracked swept_a
unfolding update apply_updates apply_update node_added_update add_new node_removed_update lose sweep
    sweep_node lookup insert delete
update-IsTracked_example =
    update-IsTracked empty_cluster swept_a (first ∷ second ∷ []) 9 empty_cluster-IsTracked
      batch-Fits refl
