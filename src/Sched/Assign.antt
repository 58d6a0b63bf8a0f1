-- ===== src/Sched/Assign.antt =====
-- assign of sched/scheduler/task_scheduler.go: free nodes for tasks. A task is its id and the snapshot that it
-- wants; the order of a map is one in which Go may range over it.
pub mod Distinct
use scoot.Base.{
  ℕ, String, Bool, true, false, Option, none, some, List, [], ◌∷◌, Dict, lookup, insert, delete,
  if◌then◌else◌,
}
use scoot.Sched.Nodes.{NodeState, NodeGroup, suspended, group_or_new}

pub record Task : Type 0 where
  pub job_id : String
  pub task_id : String
  pub snapshot_id : String

-- taskAssignment, whose node is an address.
pub record TaskAssignment : Type 0 where
  pub node_st : ℕ
  pub task : Task

-- The first idle node of a group that is not suspended.
unfoldable pub first_free : (ℕ → NodeState) → Dict ℕ → Option ℕ
first_free cell [] = none
first_free cell ((id, p) ∷ idle) =
    let rest = first_free cell idle in if suspended (cell p) then rest else some p

-- The idle nodes of the group that a snapshot has.
abbrev pub idle_of : Option NodeGroup → Dict ℕ
idle_of none = []
idle_of (some g) = g.idle

abbrev pub or_later : String → Option ℕ → Option (String × ℕ) → Option (String × ℕ)
or_later snap none rest = rest
or_later snap (some p) rest = some (snap, p)

-- SnapshotsLoop.
unfoldable pub find_free : (ℕ → NodeState) → Dict NodeGroup → List String → Option (String × ℕ)
find_free cell groups [] = none
find_free cell groups (snap ∷ snaps) =
    or_later snap (first_free cell (idle_of (lookup snap groups))) (find_free cell groups snaps)

-- The node is busy in its group then.
unfoldable pub occupy : (ℕ → NodeState) → Dict NodeGroup → String → ℕ → Dict NodeGroup
occupy cell groups snap p =
    let g = group_or_new (lookup snap groups) in
    let id = (cell p).node.id in
    insert snap (record g { busy = insert id p g.busy; idle = delete id g.idle }) groups

unfoldable pub assign :
    (ℕ → NodeState)
    → List String
    → List Task
    → Dict NodeGroup
    → List TaskAssignment × Dict NodeGroup
assign cell snap_ids [] groups = ([], groups)
assign cell snap_ids (t ∷ tasks) groups = elim (find_free cell groups (t.snapshot_id ∷ snap_ids)) [
  | none ↦ assign cell snap_ids tasks groups
  | some (snap, p) ↦
      let (rest, left) = assign cell snap_ids tasks (occupy cell groups snap p) in
      (record { node_st = p; task = t } ∷ rest, left)
]
