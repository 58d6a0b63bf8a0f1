-- ===== src/Sched/Completion/Lost.antt =====
-- A node that goes away while its task runs (sched/scheduler/stateful_scheduler.go, with the whole update of
-- sched/scheduler/cluster_state.go).
use Prim.Native.String.count
use text.Mathlib.TextLemmas.{length-append as count-append}
use scoot.Base.{
  [], ◌∷◌, ◌==◌, ltb, ◌-◌, ℕ, ◌≡◌, refl, ap, inl, inr, String, ◌<>◌, Bool, true, false, Option,
  none, some, str_eq, eq_iff, eq_refl, lookup, insert, delete, lookup-insert, lookup-delete, arith,
  Bool-cases, dec,
}
use scoot.Cluster.Node.{new_remove, new_id_node, new_add}
use scoot.Sched.Nodes.{NodeState, no_channel, ClusterState, write, ready, task_completed}
use scoot.Sched.Nodes.Update.{
  seen_ready, sweep, sweep_node, update, apply_updates, node_removed_update, lose, apply_update,
  node_added_update, readd_suspended,
}
use scoot.Sched.Jobs.{JobState}
use scoot.Sched.TaskRunner.{TaskError}
use scoot.Sched.Completion.{finish_task, ends_task, end_in_job, is_flaky}

-- A text with an ending is another text.
longer : (s : String) → str_eq s (s <> ":ERROR") ≡ false
longer s = elim (Bool-cases (str_eq s (s <> ":ERROR"))) [
  | inr e ↦ e
  | inl e ↦
      let same : Prim.Native.String.count s ≡ Prim.Native.String.count (s <> ":ERROR") =
        ap Prim.Native.String.count ((eq_iff s (s <> ":ERROR")).0 e) in
      absurd (omega (arith, same, count-append s ":ERROR"))
]

-- A healthy node, by itself in its state: it is not flaky, its readiness loop has ended, and no node is suspended.
module _ (c : ClusterState) (id : String) (p now : ℕ) (e : lookup id c.nodes ≡ some p)
    (f : c.suspended_nodes ≡ []) (r : ready (c.cell p) ≡ true)
    (g : (c.cell p).time_flaky ≡ none) where
  abbrev away : NodeState
  away = record (c.cell p) { time_lost = some now; ready_ch = no_channel }

  -- The cluster without the node.
  abbrev lost : ClusterState
  lost = record c {
    cell = write (write c.cell p (record (c.cell p) { time_lost = some now })) p away;
    suspended_nodes = (id, p) ∷ [];
    nodes = delete id c.nodes;
  }

  seen_away : seen_ready (record (c.cell p) { time_lost = some now }) ≡ away
  seen_away = rw r refl

  abbrev losing : ClusterState
  losing = record c {
    cell = write c.cell p (record (c.cell p) { time_lost = some now });
    suspended_nodes = (id, p) ∷ [];
    nodes = delete id c.nodes;
  }

  lose-losing : lose c id now ≡ losing
  unfolding lose lookup insert
  lose-losing = ground arith

  sweep_node-lost : sweep_node losing p now ≡ some lost
  unfolding sweep_node
  sweep_node-lost =
      let self : (p == p) ≡ true = ground arith in
      let soon : ltb c.max_lost_duration (now - now) ≡ false = ground arith in
      let there : losing.cell p ≡ record (c.cell p) { time_lost = some now } = rw self refl in
      rw (there, seen_away, r, soon, g) refl

  update-lost : update c (new_remove id ∷ []) now ≡ some lost
  unfolding update apply_updates apply_update node_removed_update sweep
  update-lost = rw (lose-losing, sweep_node-lost) refl

  -- A task that ends meanwhile only counts down.
  lost_completed :
      (key : String) (flaky : Bool) (at : ℕ)
      → str_eq id key ≡ false
      → lookup key c.nodes ≡ none
      → task_completed lost key flaky at ≡ some (record lost { num_running = dec c.num_running })
  unfolding task_completed lookup
  lost_completed key flaky at n h =
      let gone : lookup key (delete id c.nodes) ≡ none = rw (lookup-delete id key c.nodes, n) h in
      rw (gone, n, task_completed) refl

  -- The node's state is kept as it was, with its task.
  abbrev back : ClusterState
  back = record c {
    cell = write lost.cell p (record (c.cell p) { time_lost = none; ready_ch = no_channel });
    suspended_nodes = [];
    nodes = insert id p (delete id c.nodes);
    num_running = dec c.num_running;
  }

  update-back :
      (later : ℕ)
      → update
          (record lost { num_running = dec c.num_running })
          (new_add (new_id_node id) ∷ [])
          later
        ≡ some back
  unfolding update apply_updates apply_update node_added_update readd_suspended sweep lookup delete
  update-back later =
      let self : (p == p) ≡ true = ground arith in
      let there : lost.cell p ≡ away = rw self refl in rw (eq_refl id, there) (rw (eq_refl id) refl)

-- A healthy node goes away while its task runs, the run of the task ends, and the node is added again, with no other
-- node suspended and no other update in between. The node is healthy again, but its state has the job and the
-- task still, every group of nodes is as it was when the node went away, so that a node that was busy then
-- stays busy, and the scheduler counts one running task less. The node was not flaky, its readiness loop had
-- ended, and no node has its id followed by ":ERROR".
pub update-finish_task :
    (prevent_retries : Bool) (err : Option TaskError) (c : ClusterState) (id : String) (p : ℕ)
    (j k : JobState) (task_id : String) (now at later : ℕ)
    → lookup id c.nodes ≡ some p
    → c.suspended_nodes ≡ []
    → ready (c.cell p) ≡ true
    → (c.cell p).time_flaky ≡ none
    → lookup (id <> ":ERROR") c.nodes ≡ none
    → end_in_job j task_id (ends_task prevent_retries err) false ≡ some k
    → (a : ClusterState) × (update c (new_remove id ∷ []) now ≡ some a)
      × (d : ClusterState) × (finish_task prevent_retries err a id p j task_id at ≡ some (d, k))
      × (b : ClusterState) × (update d (new_add (new_id_node id) ∷ []) later ≡ some b)
      × (lookup id b.nodes ≡ some p)
      × (b.node_groups ≡ c.node_groups)
      × (b.cell p ≡ record (c.cell p) { time_lost = none; ready_ch = no_channel })
      × (b.num_running ≡ dec c.num_running)
unfolding finish_task
update-finish_task prevent_retries err c id p j k task_id now at later e f r g h jobs =
    let gone : lookup id (delete id c.nodes) ≡ none =
      rw (lookup-delete id id c.nodes, eq_refl id) refl in
    let done = lost_completed c id p now e f r g (id <> ":ERROR") (is_flaky err) at (longer id) h in
    let self : (p == p) ≡ true = ground arith in
    (
      lost c id p now e f r g,
      update-lost c id p now e f r g,
      record (lost c id p now e f r g) { num_running = dec c.num_running },
      rw (gone, jobs, done) refl,
      back c id p now e f r g,
      update-back c id p now e f r g later,
      rw (lookup-insert id id p (delete id c.nodes), eq_refl id) refl,
      refl,
      rw self refl,
      refl,
    )
