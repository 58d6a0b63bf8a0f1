-- ===== src/Cluster/State.antt =====
-- cloud/cluster/state.go: the view of the cluster's nodes that subscribers follow by updates. A node in
-- the map may be nil, as the one of an update may.
pub mod Replay
pub mod Ids
pub mod Diff
pub mod Follow
use scoot.Base.{
  ℕ, zero, suc, String, Bool, true, false, not, ◌||◌, Option, none, some, List, [], ◌∷◌, ◌++◌, map,
  ◌==◌, Dict, lookup, insert, delete, is_some, length, if◌then◌else◌,
}
use scoot.Cluster.Node.{
  Node, NodeUpdate, NodeUpdateType, node_added, node_removed, new_add, new_remove,
}

abbrev pub Nodes : Type 0
Nodes = Dict (Option Node)

-- Whether the update fits the view.
abbrev pub fits : NodeUpdateType → Bool → Bool
fits node_added present = not present
fits node_removed present = present

abbrev pub is_applicable : Nodes → NodeUpdate → Bool
is_applicable nodes u = fits u.update_type (is_some (lookup u.id nodes))

abbrev pub changed : NodeUpdateType → Nodes → NodeUpdate → Nodes
changed node_added nodes u = insert u.id u.node nodes
changed node_removed nodes u = delete u.id nodes

abbrev pub apply_node : Nodes → NodeUpdate → Nodes
apply_node nodes u = changed u.update_type nodes u

-- The loop over the updates: the nodes, the filtered updates and the unused ones.
unfoldable pub pass : Nodes → List NodeUpdate → Nodes × List NodeUpdate × List NodeUpdate
pass nodes [] = (nodes, [], [])
pass nodes (u ∷ us) =
    let used = is_applicable nodes u in
    let (after, filtered, unused) = pass (if used then apply_node nodes u else nodes) us in
    if used then (after, u ∷ filtered, unused) else (after, filtered, u ∷ unused)

-- The updates that the recursion applied come last.
abbrev pub with_more :
    List NodeUpdate → Option (Nodes × List NodeUpdate) → Option (Nodes × List NodeUpdate)
with_more filtered none = none
with_more filtered (some (last, more)) = some (last, filtered ++ more)

-- A recursion on the updates that are still unused, with fuel for each of them.
unfoldable pub filter_from : ℕ → Nodes → List NodeUpdate → Option (Nodes × List NodeUpdate)
filter_from zero nodes us = none
filter_from (suc fuel) nodes us =
    let (after, filtered, unused) = pass nodes us in
    let next = filter_from fuel after unused in
    if length unused == 0 || length unused == length us
    then some (after, filtered)
    else with_more filtered next

unfoldable pub filter_and_update : Nodes → List NodeUpdate → Option (Nodes × List NodeUpdate)
filter_and_update nodes us = filter_from (suc (length us)) nodes us

-- The loop of setAndDiff over the new state: the nodes that are left, and the added ones.
unfoldable pub take_known : Nodes → List Node → Nodes × List Node
take_known nodes [] = (nodes, [])
take_known nodes (n ∷ ns) =
    let exists = is_some (lookup n.id nodes) in
    let (left, added) = take_known (if exists then delete n.id nodes else nodes) ns in
    (left, if exists then added else n ∷ added)

abbrev pub with_first : Node → Option (List Node) → Option (List Node)
with_first n none = none
with_first n (some ns) = some (n ∷ ns)

-- The nodes of a view, whose ids are asked for: a nil one panics, `none`.
unfoldable pub node_values : Nodes → Option (List Node)
node_values [] = some []
node_values ((id, none) ∷ nodes) = none
node_values ((id, some n) ∷ nodes) = with_first n (node_values nodes)

unfoldable pub set_nodes : Nodes → List Node → Nodes
set_nodes nodes [] = nodes
set_nodes nodes (n ∷ ns) = set_nodes (insert n.id (some n) nodes) ns

abbrev pub removal : Node → NodeUpdate
removal n = new_remove n.id

-- sort.Sort by NodeSorter is `sort`.
abbrev pub diff :
    (List Node → List Node)
    → List Node
    → List Node
    → Option (List Node)
    → Option (Nodes × List NodeUpdate)
diff sort new_state added none = none
diff sort new_state added (some removed) =
    some (set_nodes [] new_state, map new_add (sort added) ++ map removal (sort removed))

unfoldable pub set_and_diff :
    (List Node → List Node) → Nodes → List Node → Option (Nodes × List NodeUpdate)
set_and_diff sort nodes new_state =
    let (left, added) = take_known nodes new_state in diff sort new_state added (node_values left)
