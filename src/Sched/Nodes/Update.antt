-- ===== src/Sched/Nodes/Update.antt =====
-- sched/scheduler/cluster_state.go's update: what each node update does, and the sweep over the
-- suspended nodes that follows. A range over suspendedNodes that deletes from it and adds nothing to it
-- visits each entry once.
use scoot.Base.{
  ℕ, ◌-◌, suc, String, Bool, false, not, Option, none, some, List, [], ◌∷◌, ltb, map, Dict, lookup,
  insert, delete, pos, if◌then◌else◌,
}
use scoot.Cluster.Node.{Node, NodeUpdate, NodeUpdateType, node_added, node_removed, new_add}
use scoot.Sched.Nodes.{
  pending, no_channel, NodeState, ClusterState, new_node_group, is_set, ready, suspended,
  new_node_state, write, ◌>>=◌,
}

-- ReinstateWorker.
unfoldable pub reinstate : ClusterState → String → ClusterState
reinstate c id = elim (lookup id c.offlined_nodes) [
  | none ↦ c
  | some p ↦ record c { nodes = insert id p c.nodes; offlined_nodes = delete id c.offlined_nodes }
]

-- A node that is suspended is added again.
unfoldable pub readd_suspended : ClusterState → String → ℕ → ClusterState
readd_suspended c id p =
    if not (ready (c.cell p))
    then c
    else (if is_set (c.cell p).time_lost
        then record c {
          cell = write c.cell p (record (c.cell p) { time_lost = none });
          nodes = insert id p c.nodes;
          suspended_nodes = delete id c.suspended_nodes;
        }
        else c)

-- `c.nodeGroups[""].idle[id] = newNode`.
abbrev pub join_idle : ClusterState → String → ℕ → Option ClusterState
join_idle c id p = do
  g ← lookup "" c.node_groups
  some (record c { node_groups = insert "" (record g { idle = insert id p g.idle }) c.node_groups })

unfoldable pub add_new : ClusterState → String → Node → Option ClusterState
add_new c id node =
    let p = c.next in
    let made = record c { cell = write c.cell p (new_node_state node); next = suc p } in
    if not c.has_ready_fn
    then join_idle (record made { nodes = insert id p c.nodes }) id p
    else join_idle
        (record made {
          suspended_nodes = insert id p c.suspended_nodes;
          cell = write c.cell p (record (new_node_state node) { ready_ch = pending });
        })
        id p

-- A plain update that adds carries a node; a nil one is taken as a panic at once.
unfoldable pub node_added_update : ClusterState → NodeUpdate → Option ClusterState
node_added_update c u =
    if u.user_initiated then some (reinstate c u.id) else elim (lookup u.id c.suspended_nodes) [
      | some p ↦ some (readd_suspended c u.id p)
      | none ↦ elim (lookup u.id c.nodes) [
        | some p ↦ some c
        | none ↦ elim u.node [ none ↦ none | some node ↦ add_new c u.id node ]
      ]
    ]

unfoldable pub offline : ClusterState → String → ClusterState
offline c id = elim (lookup id c.nodes) [
  | some p ↦ record c { offlined_nodes = insert id p c.offlined_nodes; nodes = delete id c.nodes }
  | none ↦ elim (lookup id c.suspended_nodes) [
    | some p ↦ record c {
      offlined_nodes = insert id p c.offlined_nodes;
      suspended_nodes = delete id c.suspended_nodes;
    }
    | none ↦ c
  ]
]

unfoldable pub lose : ClusterState → String → ℕ → ClusterState
lose c id now = elim (lookup id c.suspended_nodes) [
  | some p ↦ record c {
    cell = write c.cell p (record (c.cell p) { time_lost = some now; time_flaky = none });
  }
  | none ↦ elim (lookup id c.nodes) [
    | some p ↦ record c {
      cell = write c.cell p (record (c.cell p) { time_lost = some now });
      suspended_nodes = insert id p c.suspended_nodes;
      nodes = delete id c.nodes;
    }
    | none ↦ c
  ]
]

unfoldable pub node_removed_update : ClusterState → NodeUpdate → ℕ → ClusterState
node_removed_update c u now = if u.user_initiated then offline c u.id else lose c u.id now

abbrev pub by_type : NodeUpdateType → ClusterState → NodeUpdate → ℕ → Option ClusterState
by_type node_added c u now = node_added_update c u
by_type node_removed c u now = some (node_removed_update c u now)

unfoldable pub apply_update : ClusterState → NodeUpdate → ℕ → Option ClusterState
apply_update c u now = by_type u.update_type c u now

-- The loop over the updates; each reads the clock, which is taken to stand still meanwhile.
unfoldable pub apply_updates : ClusterState → List NodeUpdate → ℕ → Option ClusterState
apply_updates c [] now = some c
apply_updates c (u ∷ us) now = do next ← apply_update c u now; apply_updates next us now

-- `t != nilTime && now.Sub(t) > d`.
abbrev pub is_past : Option ℕ → ℕ → ℕ → Bool
is_past none now d = false
is_past (some t) now d = ltb d (now - t)

-- The node has been missing too long: all references to it go.
abbrev pub reap : ClusterState → String → String → Option ClusterState
reap c id snapshot_id = do
  g ← lookup snapshot_id c.node_groups
  some (record c {
    suspended_nodes = delete id c.suspended_nodes;
    node_groups =
        insert snapshot_id (record g { idle = delete id g.idle; busy = delete id g.busy })
          c.node_groups;
  })

abbrev pub rest_flaky : ClusterState → ℕ → NodeState → ClusterState
rest_flaky c p ns =
    let rested = record ns { time_flaky = none; snapshot_id = "" } in
    if c.has_ready_fn
    then record c { cell = write c.cell p (record rested { ready_ch = pending }) }
    else record c {
      cell = write c.cell p rested;
      suspended_nodes = delete ns.node.id c.suspended_nodes;
      nodes = insert ns.node.id p c.nodes;
    }

-- `if ns.ready() { ns.readyCh = nil }`.
abbrev pub seen_ready : NodeState → NodeState
seen_ready ns = record ns { ready_ch = if ready ns then no_channel else ns.ready_ch }

-- One suspended node.
unfoldable pub sweep_node : ClusterState → ℕ → ℕ → Option ClusterState
sweep_node c p now =
    let ns = seen_ready (c.cell p) in
    let seen = record c { cell = write c.cell p ns } in
    if not (suspended ns)
    then some (record seen {
      nodes = insert ns.node.id p c.nodes;
      suspended_nodes = delete ns.node.id c.suspended_nodes;
    })
    else (if is_past ns.time_lost now c.max_lost_duration
        then reap seen ns.node.id ns.snapshot_id
        else (if is_past ns.time_flaky now c.max_flaky_duration
            then some (rest_flaky seen p ns)
            else some seen))

unfoldable pub sweep : ClusterState → Dict ℕ → ℕ → Option ClusterState
sweep c [] now = some c
sweep c ((id, p) ∷ rest) now = do next ← sweep_node c p now; sweep next rest now

unfoldable pub update : ClusterState → List NodeUpdate → ℕ → Option ClusterState
update c updates now = do c' ← apply_updates c updates now; sweep c' c'.suspended_nodes now

-- The two durations are constants of the source: a minute and fifteen, in nanoseconds.
unfoldable pub new_cluster_state : List Node → Bool → ℕ → Option ClusterState
new_cluster_state initial has_ready_fn now =
    update
      (record {
        nodes = [];
        suspended_nodes = [];
        offlined_nodes = [];
        node_groups = ("", new_node_group) ∷ [];
        max_lost_duration = 60000000000;
        max_flaky_duration = 900000000000;
        has_ready_fn = has_ready_fn;
        num_running = pos 0;
        cell = λ p. new_node_state (record { id = "" });
        next = 0;
      })
      (map new_add initial) now
