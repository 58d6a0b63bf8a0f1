-- ===== src/Cluster/Tests.antt =====
-- The cluster's view on small inputs: a run of cloud/cluster/state.go, and the theorems at it.
use scoot.Base.{◌≡◌, refl, List, [], ◌∷◌, some, lookup, insert, delete}
use scoot.Cluster.Node.{NodeUpdate, new_id_node, new_add, new_remove}
use scoot.Cluster.State.{Nodes, filter_and_update, filter_from, pass}
use scoot.Cluster.State.Replay.{Replays, filter_and_update-Replays}

abbrev view : Nodes
view = ("a", some (new_id_node "a")) ∷ []

abbrev updates : List NodeUpdate
updates = new_remove "b" ∷ new_add (new_id_node "b") ∷ new_add (new_id_node "a") ∷ []

-- The removal of "b" waits for its addition, and the addition of "a" is not applicable.
filtered :
    filter_and_update view updates ≡ some (view, new_add (new_id_node "b") ∷ new_remove "b" ∷ [])
unfolding filter_and_update filter_from pass lookup insert delete
filtered = refl

filter_and_update-Replays_example :
    (t : Nodes) × (out : List NodeUpdate) × (filter_and_update view updates ≡ some (t, out))
    × Replays view out t
filter_and_update-Replays_example = filter_and_update-Replays view updates
