-- ===== src/Cluster/SubscriptionTests.antt =====
-- The cluster and its subscribers on small inputs (cloud/cluster/cluster.go), and the theorems at them.
use scoot.Base.{◌≡◌, refl, true, some, List, [], ◌∷◌, arith, lookup, insert, delete}
use mathlib.Core.List.{Permᴰ}
use mathlib.Core.List.Permᴰ
use scoot.Cluster.Node.{Node, NodeUpdate, new_id_node, new_add, new_remove}
use scoot.Cluster.State.{Nodes, set_and_diff, take_known, node_values, set_nodes}
use scoot.Cluster.State.Ids.{Follows, apply_nodes}
use scoot.Cluster.State.Diff.{set_and_diff-Follows}
use scoot.Cluster.Subscriptions.{Cluster, new_state, step}
use scoot.Cluster.Subscriptions.Broadcast.{IsServed}
use scoot.Cluster.Subscriptions.Served.{step-IsServed}

abbrev same_order : List Node → List Node
same_order ns = ns

same_order-perm : (ns : List Node) → Permᴰ (same_order ns) ns
same_order-perm ns = Permᴰ.refl ns

abbrev view : Nodes
view = ("a", some (new_id_node "a")) ∷ ("b", some (new_id_node "b")) ∷ []

abbrev fetched : List Node
fetched = new_id_node "b" ∷ new_id_node "c" ∷ []

view_diff :
    set_and_diff same_order view fetched
    ≡ some (
      ("b", some (new_id_node "b")) ∷ ("c", some (new_id_node "c")) ∷ [],
      new_add (new_id_node "c") ∷ new_remove "a" ∷ [],
    )
unfolding set_and_diff take_known node_values set_nodes lookup insert delete
view_diff = refl

set_and_diff-Follows_example :
    (t : Nodes) × (out : List NodeUpdate) × (set_and_diff same_order view fetched ≡ some (t, out))
    × Follows view out t
set_and_diff-Follows_example =
    set_and_diff-Follows same_order same_order-perm view fetched ((refl, tt), (tt, tt))
      (refl, (refl, tt)) (refl, (refl, tt))

-- A subscriber that joined when "a" was alone, and has not yet taken the addition of "b".
abbrev served : Cluster
served = record {
  nodes = view;
  subs = 0 ∷ [];
  subscriber = λ ch. record {
    initial = new_id_node "a" ∷ [];
    received = [];
    queue = new_add (new_id_node "b") ∷ [];
    is_open = true;
  };
  next = 1;
  has_requests = true;
  has_updates = true;
}

served-IsServed : IsServed served
unfolding apply_nodes set_nodes lookup insert delete
served-IsServed = record {
  view = (((refl, tt), (tt, tt)), (refl, (refl, tt)));
  apart = (refl, tt);
  known = (omega arith, tt);
  following = (((refl, tt), λ i. refl), tt);
}

step-IsServed_example :
    (d : Cluster) × (step same_order (new_state fetched) served ≡ some d) × IsServed d
step-IsServed_example =
    step-IsServed same_order same_order-perm (new_state fetched) served (refl, (refl, tt)) refl
      served-IsServed
