-- ===== src/Sched/Shares/Assigned.antt =====
-- The assignments of getTaskAssignments (sched/scheduler/task_scheduler.go), by their tasks.
use scoot.Base.{
  ℕ, ◌+◌, ◌≤◌, ◌≡◌, String, Bool, true, false, Option, none, some, some_inj, List, [], ◌∷◌, map,
  arith, subst, length, Dict, keys, if◌then◌else◌, Option-cases, inl, inr,
}
use scoot.Sched.Jobs.{TaskState}
use scoot.Sched.Nodes.{NodeState, NodeGroup, ClusterState, num_free}
use scoot.Sched.Assign.{Task, TaskAssignment, assign, find_free, occupy}
use scoot.Sched.Shares.{Float32, JobEntry}
use scoot.Sched.Shares.Counts.{one_if, count}
use scoot.Sched.Shares.Waiting.{waiting_all}
use scoot.Sched.Shares.Once.{select-length, select-count}
use scoot.Sched.Shares.Tasks.{
  get_task_assignments, selected, assign_selected, to_task, is_zero, total_unsched, are_sortable,
  soft_max, num_scaled_tasks, node_quota, in_order,
}

unwrap {ℓ} :
    {A : Type ℓ} (b d : Bool) (x : Option A) (y : A)
    → (if b then some none else (if d then some x else none)) ≡ some (some y)
    → x ≡ some y
unwrap true d x y h = absurd (ground (arith, h))
unwrap false true x y h = some_inj.0 h
unwrap false false x y h = absurd (ground (arith, h))

module _ (g : Task → Bool) where
  abbrev count_tasks : List Task → ℕ
  count_tasks [] = 0
  count_tasks (t ∷ ts) = one_if (g t) + count_tasks ts

  -- How many nodes a task is given.
  abbrev pub times_assigned : List TaskAssignment → ℕ
  times_assigned [] = 0
  times_assigned (a ∷ as_) = one_if (g a.task) + times_assigned as_

  assign-count :
      (cell : ℕ → NodeState) (snaps : List String) (tasks : List Task) (groups : Dict NodeGroup)
      → (times_assigned (assign cell snaps tasks groups).0 ≤ count_tasks tasks)
        × (length (assign cell snaps tasks groups).0 ≤ length tasks)
  unfolding assign
  assign-count cell snaps [] groups = omega arith
  assign-count cell snaps (t ∷ tasks) groups =
      elim (Option-cases (find_free cell groups (t.snapshot_id ∷ snaps))) [
        | inl e ↦
            let (c, l) = assign-count cell snaps tasks groups in
            rw (e, assign) (omega (arith, c, l))
        | inr ((snap, p), e) ↦
            let (c, l) = assign-count cell snaps tasks (occupy cell groups snap p) in
            rw (e, assign) (omega (arith, c, l))
      ]

  map-count :
      (h : TaskState → Task) (ts : List TaskState)
      → (count_tasks (map h ts) ≡ count (λ t. g (h t)) ts) × (length (map h ts) ≡ length ts)
  map-count h [] = omega arith
  map-count h (t ∷ ts) = let (c, l) = map-count h ts in omega (arith, c, l)

  module _ (snapshot_of : TaskState → String) (c : ClusterState) (as_ : List TaskAssignment)
      (groups : Dict NodeGroup) where
    assigned_from :
        (ts : List TaskState)
        → assign_selected snapshot_of c ts ≡ some (as_, groups)
        → (times_assigned as_ ≤ count (λ t. g (to_task snapshot_of t)) ts)
          × (length as_ ≤ length ts)
    assigned_from [] h = cc
    assigned_from (t ∷ ts) h =
        let us = map (to_task snapshot_of) (t ∷ ts) in
        let (n, l) = assign-count c.cell ("" ∷ keys c.node_groups) us c.node_groups in
        let (m, k) = map-count (to_task snapshot_of) (t ∷ ts) in
        subst
          (λ (x : List TaskAssignment × Dict NodeGroup).
            (times_assigned x.0 ≤ count (λ t. g (to_task snapshot_of t)) (t ∷ ts))
            × (length x.0 ≤ length (t ∷ ts)))
          (some_inj.0 h) (omega (arith, n, m), omega (arith, l, k))

    -- There are no more assignments than free nodes, and a task is assigned at most as often as it waits.
    pub get_task_assignments-once :
        (F : Float32) (jobs : List JobEntry) (requestors : Dict (List JobEntry)) (config : Option ℕ)
        → get_task_assignments F snapshot_of c jobs requestors config ≡ some (some (as_, groups))
        → (length as_ ≤ num_free c)
          × (times_assigned as_ ≤ waiting_all (λ t. g (to_task snapshot_of t)) requestors)
    unfolding get_task_assignments selected
    get_task_assignments-once F jobs requestors config h =
        let nodes = length c.nodes in
        let shares = num_scaled_tasks F (soft_max config nodes jobs) nodes in
        let ts = selected F c jobs requestors config in
        let (n, l) =
          assigned_from ts (unwrap (is_zero (total_unsched jobs)) (are_sortable jobs) _ _ h) in
        let once =
          select-count (λ t. g (to_task snapshot_of t)) requestors shares (node_quota F)
            (in_order jobs) (num_free c) in
        let few = select-length requestors shares (node_quota F) (in_order jobs) (num_free c) in
        (omega (arith, l, few), omega (arith, n, once))
