-- ===== src/Cluster/Node.antt =====
-- cloud/cluster/node.go: nodes and node updates. A Node is known by its Id() alone.
use scoot.Base.{String, Bool, true, false, Option, none, some}

pub record Node : Type 0 where
  pub id : String

abbrev pub new_id_node : String → Node
new_id_node id = record { id = id }

pub data NodeUpdateType : Type 0 where
  node_added node_removed : NodeUpdateType

-- `node` is nil in an update that removes.
pub record NodeUpdate : Type 0 where
  pub update_type : NodeUpdateType
  pub id : String
  pub node : Option Node
  pub user_initiated : Bool

abbrev pub new_add : Node → NodeUpdate
new_add node = record {
  update_type = node_added;
  id = node.id;
  node = some node;
  user_initiated = false;
}

abbrev pub new_remove : String → NodeUpdate
new_remove id = record { update_type = node_removed; id = id; node = none; user_initiated = false }

abbrev pub new_user_initiated_add : Node → NodeUpdate
new_user_initiated_add node = record (new_add node) { user_initiated = true }

abbrev pub new_user_initiated_remove : String → NodeUpdate
new_user_initiated_remove id = record (new_remove id) { user_initiated = true }
