-- ===== src/Sched/Nodes/Rounds.antt =====
-- A task on a node, from sched/scheduler/cluster_state.go's taskScheduled to its taskCompleted, and what
-- becomes of nodes that are offlined or rest as flaky in between.
use scoot.Base.{
  ℕ, zero, suc, ◌≡◌, refl, ap, sym, subst, inl, inr, String, Bool, true, false, none, some, str_eq,
  eq_iff, eq_refl, arith, Dict, lookup, insert, delete, lookup-delete, lookup-insert, Bool-cases, ℤ,
  pos, negsuc, inc, dec,
}
use scoot.Sched.Nodes.{
  NodeGroup, ClusterState, write, suspended, left_group, group_or_new, task_scheduled,
  task_completed, no_channel,
}
use scoot.Sched.Nodes.Update.{offline, reinstate, sweep_node, is_past}

dec-inc : (z : ℤ) → dec (inc z) ≡ z
dec-inc (pos n) = refl
dec-inc (negsuc zero) = refl
dec-inc (negsuc (suc n)) = refl

-- Where a node is that a task has left.
pub record IsFreed (c d : ClusterState) (id snapshot_id : String) (p : ℕ) : Type 0 where
  pub group : NodeGroup
  pub present : lookup snapshot_id d.node_groups ≡ some group
  pub is_idle : lookup id group.idle ≡ some p
  pub not_busy : lookup id group.busy ≡ none
  pub same_nodes : d.nodes ≡ c.nodes
  pub same_running : d.num_running ≡ c.num_running
  pub same_cell :
      d.cell p
      ≡ record (c.cell p) { running_job = ""; running_task = ""; snapshot_id = snapshot_id }

-- The state that task_scheduled makes, for a node at `p` in the group `g`.
module _ (c : ClusterState) (id job task snap : String) (p : ℕ) (g : NodeGroup) (now : ℕ)
    (e : lookup id c.nodes ≡ some p)
    (h : lookup (c.cell p).snapshot_id c.node_groups ≡ some g) where
  abbrev groups : Dict NodeGroup
  groups = left_group c.node_groups (c.cell p).snapshot_id id g

  abbrev target : NodeGroup
  target = group_or_new (lookup snap groups)

  abbrev pub scheduled : ClusterState
  scheduled = record c {
    node_groups = insert snap (record target { busy = insert id p target.busy }) groups;
    cell =
        write c.cell p
          (record (c.cell p) { running_job = job; running_task = task; snapshot_id = snap });
    num_running = inc c.num_running;
  }

  task_scheduled-scheduled : task_scheduled c id job task snap ≡ some scheduled
  unfolding task_scheduled
  task_scheduled-scheduled = rw (e, h) refl

  snap_kept : (scheduled.cell p).snapshot_id ≡ snap
  snap_kept = ground arith

  abbrev filled : NodeGroup
  filled = record target { busy = insert id p target.busy }

  abbrev completed : ClusterState
  completed = record scheduled {
    cell =
        write scheduled.cell p (record (scheduled.cell p) { running_job = ""; running_task = "" });
    node_groups =
        insert snap (record filled { busy = delete id filled.busy; idle = insert id p filled.idle })
          scheduled.node_groups;
    num_running = dec (inc c.num_running);
  }

  task_completed-completed : task_completed scheduled id false now ≡ some completed
  unfolding task_completed
  task_completed-completed = ground (arith, lookup-insert snap snap filled groups, eq_refl snap)

  abbrev emptied : NodeGroup
  emptied = record filled { busy = delete id filled.busy; idle = insert id p filled.idle }

  completed-IsFreed : IsFreed c completed id snap p
  completed-IsFreed = record {
    group = emptied;
    present = rw (lookup-insert snap snap emptied scheduled.node_groups, eq_refl snap) refl;
    is_idle = rw (lookup-insert id id p filled.idle, eq_refl id) refl;
    not_busy = rw (lookup-delete id id filled.busy, eq_refl id) refl;
    same_nodes = refl;
    same_running = dec-inc c.num_running;
    same_cell = ground arith;
  }

-- A task that is scheduled on a healthy node, whose group is there, and that completes there without being
-- flaky leaves the count of running tasks and the healthy nodes as they were, and the node idle, with no
-- task, in the group of the task's snapshot.
pub task_completed-task_scheduled :
    (c : ClusterState) (id job task snap : String) (p : ℕ) (g : NodeGroup) (now : ℕ)
    → lookup id c.nodes ≡ some p
    → lookup (c.cell p).snapshot_id c.node_groups ≡ some g
    → (d : ClusterState) × (e : ClusterState) × (task_scheduled c id job task snap ≡ some d)
      × (task_completed d id false now ≡ some e)
      × IsFreed c e id snap p
task_completed-task_scheduled c id job task snap p g now e h = (
  scheduled c id job task snap p g now e h,
  completed c id job task snap p g now e h,
  task_scheduled-scheduled c id job task snap p g now e h,
  task_completed-completed c id job task snap p g now e h,
  completed-IsFreed c id job task snap p g now e h,
)

-- A healthy node that is offlined stays in its group and is not made suspended, so that an idle one is still
-- offered for tasks; a task that is scheduled on it is a panic.
offline_idle :
    (c : ClusterState) (id job task snap : String) (p : ℕ)
    → lookup id c.nodes ≡ some p
    → ((offline c id).node_groups ≡ c.node_groups)
      × (suspended ((offline c id).cell p) ≡ suspended (c.cell p))
      × (task_scheduled (offline c id) id job task snap ≡ none)
unfolding offline task_scheduled
offline_idle c id job task snap p e =
    (ground arith, ground arith, rw (e, offline, lookup-delete id id c.nodes, eq_refl id) refl)

abbrev gone : ClusterState → String → ℕ → ClusterState
gone c id p = record c { nodes = delete id c.nodes; offlined_nodes = insert id p c.offlined_nodes }

offline-gone :
    (c : ClusterState) (id : String) (p : ℕ)
    → lookup id c.nodes ≡ some p
    → offline c id ≡ gone c id p
unfolding offline
offline-gone c id p e = ground arith

-- For a healthy node that is not suspended too, being offlined, the completion of its task and being
-- reinstated change neither the groups nor the node's own state, so that one that was busy stays busy.
offline_busy :
    (c : ClusterState) (id : String) (p now : ℕ) (flaky : Bool)
    → lookup id c.nodes ≡ some p
    → lookup id c.suspended_nodes ≡ none
    → (d : ClusterState) × (task_completed (offline c id) id flaky now ≡ some d)
      × (lookup id (reinstate d id).nodes ≡ some p)
      × ((reinstate d id).node_groups ≡ c.node_groups)
      × ((reinstate d id).cell p ≡ c.cell p)
unfolding task_completed reinstate
offline_busy c id p now flaky e h = rw (offline-gone c id p e) (
  record (gone c id p) { num_running = dec c.num_running },
  rw (task_completed, lookup-delete id id c.nodes, eq_refl id, h) refl,
  rw (reinstate, lookup-insert id id p c.offlined_nodes, eq_refl id)
      (rw (lookup-insert id id p (delete id c.nodes), eq_refl id) refl),
  rw (reinstate, lookup-insert id id p c.offlined_nodes, eq_refl id) refl,
  rw (reinstate, lookup-insert id id p c.offlined_nodes, eq_refl id) refl,
)

-- A flaky node that is due to rest, in a cluster without a readiness check.
pub record IsRested (c : ClusterState) (p now : ℕ) : Type 0 where
  pub since : ℕ
  pub no_loop : (c.cell p).ready_ch ≡ no_channel
  pub not_lost : (c.cell p).time_lost ≡ none
  pub flaky : (c.cell p).time_flaky ≡ some since
  pub is_due : is_past (some since) now c.max_flaky_duration ≡ true
  pub no_check : c.has_ready_fn ≡ false

-- The node may be given a task, and its old group still offers it after that.
pub record IsOffered (d : ClusterState) (id job task snap old : String) (p : ℕ) : Type 0 where
  pub healthy : lookup id d.nodes ≡ some p
  pub after : ClusterState
  pub scheduled : task_scheduled d id job task snap ≡ some after
  pub old_group : NodeGroup
  pub present : lookup old after.node_groups ≡ some old_group
  pub is_idle : lookup id old_group.idle ≡ some p

-- The same groups, with the node out of the idle ones of the group of no snapshot, and busy for its task.
module _ (c : ClusterState) (id snap old : String) (p : ℕ) (g none_group : NodeGroup)
    (e : str_eq "" old ≡ false) (h : lookup old c.node_groups ≡ some g)
    (k : lookup id g.idle ≡ some p) where
  abbrev left : Dict NodeGroup
  left = insert "" (record none_group { idle = delete id none_group.idle }) c.node_groups

  abbrev target_group : NodeGroup
  target_group = group_or_new (lookup snap left)

  abbrev offered_groups : Dict NodeGroup
  offered_groups = insert snap (record target_group { busy = insert id p target_group.busy }) left

  old_left : lookup old left ≡ some g
  old_left =
      rw
        (
          lookup-insert "" old (record none_group { idle = delete id none_group.idle })
              c.node_groups,
          e,
        )
        h

  old_offered :
      (k' : NodeGroup) × (lookup old offered_groups ≡ some k') × (lookup id k'.idle ≡ some p)
  old_offered = elim (Bool-cases (str_eq snap old)) [
    | inr f ↦ (
      g,
      rw
          (
            lookup-insert snap old (record target_group { busy = insert id p target_group.busy })
                left,
            f,
          )
          old_left,
      k,
    )
    | inl f ↦
        let same = (eq_iff snap old).0 f in
        let target_old : target_group ≡ g =
          subst (λ x. group_or_new (lookup x left) ≡ g) (sym same) (ap group_or_new old_left) in
        (
          record target_group { busy = insert id p target_group.busy },
          rw
              (
                lookup-insert snap old
                    (record target_group { busy = insert id p target_group.busy }) left,
                f,
              )
              refl,
          rw target_old k,
        )
  ]

rest_nodes :
    (c d : ClusterState) (p now : ℕ)
    → IsRested c p now
    → sweep_node c p now ≡ some d
    → (d.nodes ≡ insert (c.cell p).node.id p c.nodes)
      × (d.node_groups ≡ c.node_groups)
      × ((d.cell p).snapshot_id ≡ "")
unfolding sweep_node
rest_nodes c d p now r h = (ground arith, ground arith, ground arith)

-- In a cluster without a readiness check, a flaky node with a snapshot, idle in the group of the snapshot,
-- that the sweep lets rest is healthy; after the next task has been scheduled on it, it is still idle in
-- that group, so that a second task may be assigned to it.
rest_flaky-IsOffered :
    (c d : ClusterState) (p now : ℕ) (g none_group : NodeGroup) (job task snap : String)
    → IsRested c p now
    → str_eq "" (c.cell p).snapshot_id ≡ false
    → lookup "" c.node_groups ≡ some none_group
    → lookup (c.cell p).snapshot_id c.node_groups ≡ some g
    → lookup (c.cell p).node.id g.idle ≡ some p
    → sweep_node c p now ≡ some d
    → IsOffered d (c.cell p).node.id job task snap (c.cell p).snapshot_id p
rest_flaky-IsOffered c d p now g none_group job task snap r e h k m s =
    let id = (c.cell p).node.id in
    let (en, eg, es) = rest_nodes c d p now r s in
    let (g', present, idle) = old_offered c id snap (c.cell p).snapshot_id p g none_group e k m in
    let found : lookup id d.nodes ≡ some p =
      rw en (rw (lookup-insert id id p c.nodes, eq_refl id) refl) in
    let grouped : lookup (d.cell p).snapshot_id d.node_groups ≡ some none_group = simp (es, eg) h in
    record {
      healthy = found;
      after = scheduled d id job task snap p none_group now found grouped;
      scheduled = task_scheduled-scheduled d id job task snap p none_group now found grouped;
      old_group = g';
      present = simp (es, eg) present;
      is_idle = idle;
    }
