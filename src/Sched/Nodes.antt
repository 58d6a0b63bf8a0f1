-- ===== src/Sched/Nodes.antt =====
-- sched/scheduler/cluster_state.go. A `*nodeState` is an address in `cell`, since several maps hold the
-- same one; a nil pointer that is followed is a panic, `none`. Times are numbers and time.Now() is an
-- argument `now`. The goroutine of startReadyLoop is the event `ready_loop_done`.
pub mod Update
pub mod Disjoint
pub mod Tracked
pub mod Sweep
pub mod Rounds
use scoot.Base.{
  ℕ, ◌-◌, suc, String, Bool, true, false, not, ◌&&◌, ◌||◌, Option, none, some, List, [], ◌∷◌,
  str_eq, ltb, ◌==◌, Dict, lookup, insert, delete, length, ℤ, pos, inc, dec, sub_at_zero,
  if◌then◌else◌,
}
use scoot.Cluster.Node.{Node, NodeUpdate, NodeUpdateType, node_added, node_removed, new_add}

-- `pending` is an open channel, and `closed` one that the readiness loop has closed.
pub data ReadyCh : Type 0 where
  no_channel pending closed : ReadyCh

pub record NodeState : Type 0 where
  pub node : Node
  pub running_job : String
  pub running_task : String
  pub snapshot_id : String
  pub time_lost : Option ℕ
  pub time_flaky : Option ℕ
  pub ready_ch : ReadyCh

pub record NodeGroup : Type 0 where
  pub idle : Dict ℕ
  pub busy : Dict ℕ

abbrev pub new_node_group : NodeGroup
new_node_group = record { idle = []; busy = [] }

-- `has_ready_fn` says that readyFn is not nil. `next` is the next free address.
pub record ClusterState : Type 0 where
  pub nodes : Dict ℕ
  pub suspended_nodes : Dict ℕ
  pub offlined_nodes : Dict ℕ
  pub node_groups : Dict NodeGroup
  pub max_lost_duration : ℕ
  pub max_flaky_duration : ℕ
  pub has_ready_fn : Bool
  pub num_running : ℤ
  pub cell : ℕ → NodeState
  pub next : ℕ

abbrev pub is_set : Option ℕ → Bool
is_set none = false
is_set (some t) = true

abbrev pub has_channel : ReadyCh → Bool
has_channel no_channel = false
has_channel _ = true

abbrev pub suspended : NodeState → Bool
suspended ns = has_channel ns.ready_ch || is_set ns.time_lost || is_set ns.time_flaky

abbrev pub is_ready : ReadyCh → Bool
is_ready pending = false
is_ready _ = true

abbrev pub ready : NodeState → Bool
ready ns = is_ready ns.ready_ch

abbrev pub new_node_state : Node → NodeState
new_node_state node = record {
  node = node;
  running_job = "";
  running_task = "";
  snapshot_id = "";
  time_lost = none;
  time_flaky = none;
  ready_ch = no_channel;
}

abbrev pub write : (ℕ → NodeState) → ℕ → NodeState → ℕ → NodeState
write cell p ns q = if p == q then ns else cell q

-- The readiness loop of the node at `p` has closed its channel.
abbrev pub ready_loop_done : ClusterState → ℕ → ClusterState
ready_loop_done c p = record c { cell = write c.cell p (record (c.cell p) { ready_ch = closed }) }

abbrev pub num_free : ClusterState → ℕ
num_free c = sub_at_zero (length c.nodes) c.num_running

-- `c.nodeGroups[id]`, which is followed.
infixl 5 ◌>>=◌
abbrev pub ◌>>=◌ {ℓ κ} : {A : Type ℓ} {B : Type κ} → Option A → (A → Option B) → Option B
none >>= f = none
some a >>= f = f a

abbrev is_empty : NodeGroup → Bool
is_empty g = length g.idle == 0 && length g.busy == 0

-- The groups after the node has left the idle ones of its old group.
abbrev pub left_group : Dict NodeGroup → String → String → NodeGroup → Dict NodeGroup
left_group groups snapshot_id node_id g =
    let rest = record g { idle = delete node_id g.idle } in
    if not (str_eq snapshot_id "") && is_empty rest
    then delete snapshot_id groups
    else insert snapshot_id rest groups

abbrev pub group_or_new : Option NodeGroup → NodeGroup
group_or_new none = new_node_group
group_or_new (some g) = g

unfoldable pub task_scheduled :
    ClusterState → String → String → String → String → Option ClusterState
task_scheduled c node_id job_id task_id snapshot_id = do
  p ← lookup node_id c.nodes
  let ns = c.cell p
  g ← lookup ns.snapshot_id c.node_groups
  let groups = left_group c.node_groups ns.snapshot_id node_id g
  let new_group = group_or_new (lookup snapshot_id groups)
  some (record c {
    node_groups =
        insert snapshot_id (record new_group { busy = insert node_id p new_group.busy }) groups;
    cell =
        write c.cell p
          (record ns { running_job = job_id; running_task = task_id; snapshot_id = snapshot_id });
    num_running = inc c.num_running;
  })

-- A flaky node that is not suspended yet is sidelined.
abbrev mark_flaky : ClusterState → String → ℕ → Bool → ℕ → ClusterState
mark_flaky c node_id p flaky now =
    if flaky && not (suspended (c.cell p))
    then record c {
      nodes = delete node_id c.nodes;
      suspended_nodes = insert node_id p c.suspended_nodes;
      cell = write c.cell p (record (c.cell p) { time_flaky = some now });
    }
    else c

abbrev freed : ClusterState → String → ℕ → Option ClusterState
freed c node_id p = do
  let ns = c.cell p
  g ← lookup ns.snapshot_id c.node_groups
  some (record c {
    cell = write c.cell p (record ns { running_job = ""; running_task = "" });
    node_groups =
        insert ns.snapshot_id
          (record g { busy = delete node_id g.busy; idle = insert node_id p g.idle }) c.node_groups;
    num_running = dec c.num_running;
  })

-- `c.nodes[id]`, or else `c.suspendedNodes[id]`.
abbrev pub find_node : ClusterState → String → Option ℕ
find_node c node_id = elim (lookup node_id c.nodes) [
  | some p ↦ some p
  | none ↦ lookup node_id c.suspended_nodes
]

unfoldable pub task_completed : ClusterState → String → Bool → ℕ → Option ClusterState
task_completed c node_id flaky now = elim (find_node c node_id) [
  | none ↦ some (record c { num_running = dec c.num_running })
  | some p ↦ freed (mark_flaky c node_id p flaky now) node_id p
]
