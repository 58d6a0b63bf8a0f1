-- ===== src/Sched/AssignTests.antt =====
-- Tests and examples for the assignment of nodes to tasks (sched/scheduler/task_scheduler.go).
use scoot.Base.{
  ℕ, if-cases, ◌∙◌, zero, suc, ◌≡◌, refl, String, List, [], ◌∷◌, map, All, lookup, delete, insert,
  str_eq, Dict, eq_iff, arith, sym,
}
use scoot.Cluster.Node.{new_id_node}
use scoot.Sched.Nodes.{NodeState, NodeGroup, new_node_state}
use scoot.Sched.Assign.{Task, TaskAssignment, first_free, idle_of, find_free, occupy, assign}
use scoot.Sched.Assign.Distinct.{IsSorted, IsIdle, IsKeyed, WasFree, AreApart, assign-AreApart}

-- "a" is idle in the group of no snapshot, "b" in that of "s".
abbrev cells : ℕ → NodeState
cells zero = new_node_state (new_id_node "a")
cells (suc n) = record (new_node_state (new_id_node "b")) { snapshot_id = "s" }

abbrev groups : Dict NodeGroup
groups =
    ("", record { idle = ("a", 0) ∷ []; busy = [] })
    ∷ ("s", record { idle = ("b", 1) ∷ []; busy = [] })
    ∷ []

abbrev task : String → String → Task
task id snap = record { job_id = "j"; task_id = id; snapshot_id = snap }

abbrev tasks : List Task
tasks = task "t" "s" ∷ task "u" "s" ∷ task "v" "s" ∷ []

-- The second task takes the node of another group, and the third finds none.
two_assigned :
    map (λ (a : TaskAssignment). a.node_st) (assign cells ("" ∷ []) tasks groups).0 ≡ 1 ∷ 0 ∷ []
unfolding assign find_free first_free occupy lookup insert delete
two_assigned = refl

groups-IsKeyed : (snap : String) → IsKeyed cells (idle_of (lookup snap groups))
unfolding lookup
groups-IsKeyed snap =
    if-cases (λ o. IsKeyed cells (idle_of o)) (str_eq "" snap) _ _ (λ e. ((refl, refl), tt))
      (λ e.
        if-cases (λ o. IsKeyed cells (idle_of o)) (str_eq "s" snap) _ _ (λ f. ((refl, refl), tt))
          (λ f. tt))

-- An idle node is in the group of its snapshot.
idle_snapshot : (snap : String) (p : ℕ) → IsIdle cells groups snap p → (cells p).snapshot_id ≡ snap
unfolding lookup
idle_snapshot snap zero h = ground (arith, eq_iff "" snap, eq_iff "s" snap)
idle_snapshot snap (suc n) h = ground (arith, eq_iff "" snap, eq_iff "s" snap)

groups-IsSorted : IsSorted cells groups
unfolding lookup
groups-IsSorted = record {
  keyed = groups-IsKeyed;
  one = λ s t p h k. sym (idle_snapshot s p h) ∙ idle_snapshot t p k;
}

assign-AreApart_example :
    All (WasFree cells groups) (assign cells ("" ∷ []) tasks groups).0
    × AreApart cells (assign cells ("" ∷ []) tasks groups).0
assign-AreApart_example = assign-AreApart cells ("" ∷ []) tasks groups groups-IsSorted
