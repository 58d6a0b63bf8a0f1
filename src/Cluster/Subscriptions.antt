-- ===== src/Cluster/Subscriptions.antt =====
-- cloud/cluster/cluster.go and subscription.go: the cluster's goroutine and the goroutines of its subscribers, as
-- one state that events change in any order. A channel to a subscriber is a number; since the subscriber is
-- always ready to receive, a send on it is an entry of its queue. sort.Sort by NodeSorter is `sort`.
pub mod Broadcast
pub mod Served
use scoot.Base.{
  ℕ, suc, Bool, true, false, not, ◌&&◌, Option, none, some, List, [], ◌∷◌, ◌++◌, ◌==◌,
  if◌then◌else◌,
}
use scoot.Cluster.Node.{Node, NodeUpdate}
use scoot.Cluster.State.{Nodes, filter_and_update, set_and_diff, set_nodes, node_values}

-- subscriber: `received` is what the client took from outCh, and `is_open` says that inCh is not closed.
pub record Subscriber : Type 0 where
  pub initial : List Node
  pub received : List NodeUpdate
  pub queue : List NodeUpdate
  pub is_open : Bool

-- `has_requests` and `has_updates` say that reqCh and updateCh are not nil. `next` is the next channel.
pub record Cluster : Type 0 where
  pub nodes : Nodes
  pub subs : List ℕ
  pub subscriber : ℕ → Subscriber
  pub next : ℕ
  pub has_requests : Bool
  pub has_updates : Bool

abbrev pub write : ℕ → Subscriber → (ℕ → Subscriber) → ℕ → Subscriber
write ch s subscriber q = if ch == q then s else subscriber q

abbrev pub enqueue : List NodeUpdate → Subscriber → Subscriber
enqueue outgoing s = record s { queue = s.queue ++ outgoing }

-- `for _, sub := range c.subs { sub <- outgoing }`.
unfoldable pub broadcast : List NodeUpdate → List ℕ → (ℕ → Subscriber) → ℕ → Subscriber
broadcast outgoing [] subscriber = subscriber
broadcast outgoing (ch ∷ subs) subscriber =
    broadcast outgoing subs (write ch (enqueue outgoing (subscriber ch)) subscriber)

abbrev pub shut : Subscriber → Subscriber
shut s = record s { is_open = false }

unfoldable pub close_all : List ℕ → (ℕ → Subscriber) → ℕ → Subscriber
close_all [] subscriber = subscriber
close_all (ch ∷ subs) subscriber = close_all subs (write ch (shut (subscriber ch)) subscriber)

-- The goroutine ends once both of its channels are closed.
abbrev pub when_done : Cluster → Cluster
when_done c =
    if not c.has_requests && not c.has_updates
    then record c { subscriber = close_all c.subs c.subscriber }
    else c

abbrev pub outgoing : Cluster → Option (Nodes × List NodeUpdate) → Option Cluster
outgoing c none = none
outgoing c (some (nodes, us)) =
    some (record c { nodes = nodes; subscriber = broadcast us c.subs c.subscriber })

abbrev pub without : ℕ → List ℕ → List ℕ
without ch [] = []
without ch (q ∷ subs) = if q == ch then subs else q ∷ without ch subs

abbrev pub has_channel : ℕ → List ℕ → Bool
has_channel ch [] = false
has_channel ch (q ∷ subs) = if q == ch then true else has_channel ch subs

-- The close of a subscription.
abbrev pub close_subscription : Cluster → ℕ → Cluster
close_subscription c ch =
    if has_channel ch c.subs
    then record c {
      subs = without ch c.subs;
      subscriber = write ch (shut (c.subscriber ch)) c.subscriber;
    }
    else c

-- The client takes the queue.
abbrev pub take_queue : Cluster → ℕ → List NodeUpdate → Option Cluster
take_queue c ch [] = none
take_queue c ch (u ∷ us) =
    let s = c.subscriber ch in
    some (record c {
      subscriber =
          write ch (record s { received = s.received ++ (u ∷ us); queue = [] }) c.subscriber;
    })

pub data Event : Type 0 where
  updates : List NodeUpdate → Event
  new_state : List Node → Event
  subscribe : Event
  close_subscriber : ℕ → Event
  take_updates : ℕ → Event
  close_requests : Event
  close_updates : Event

-- makeSubscription.
abbrev pub new_subscriber : List Node → Subscriber
new_subscriber ns = record { initial = ns; received = []; queue = []; is_open = true }

abbrev pub subscribed : Cluster → List Node → Cluster
subscribed c ns = record c {
  subs = c.subs ++ (c.next ∷ []);
  subscriber = write c.next (new_subscriber ns) c.subscriber;
  next = suc c.next;
}

module _ (sort : List Node → List Node) where
  abbrev pub sorted : Option (List Node) → Option (List Node)
  sorted none = none
  sorted (some ns) = some (sort ns)

  -- Members().
  unfoldable pub current : Cluster → Option (List Node)
  current c = sorted (node_values c.nodes)

  abbrev pub make_subscription : Cluster → Option (List Node) → Option Cluster
  make_subscription c none = none
  make_subscription c (some ns) = some (subscribed c ns)

  -- `none` is a panic, or an event that cannot happen yet.
  unfoldable pub step : Event → Cluster → Option Cluster
  step (updates us) c = if c.has_updates then outgoing c (filter_and_update c.nodes us) else none
  step (new_state ns) c =
      if c.has_updates then outgoing c (set_and_diff sort c.nodes (sort ns)) else none
  step subscribe c = if c.has_requests then make_subscription c (current c) else none
  step (close_subscriber ch) c = if c.has_requests then some (close_subscription c ch) else none
  step (take_updates ch) c = take_queue c ch (c.subscriber ch).queue
  step close_requests c =
      if c.has_requests then some (when_done (record c { has_requests = false })) else none
  step close_updates c =
      if c.has_updates then some (when_done (record c { has_updates = false })) else none

  -- NewCluster.
  abbrev pub new_cluster : List Node → Option Cluster
  new_cluster ns = elim (set_and_diff sort [] ns) [
    | none ↦ none
    | some (nodes, us) ↦ some (record {
      nodes = nodes;
      subs = [];
      subscriber = λ ch. record { initial = []; received = []; queue = []; is_open = false };
      next = 0;
      has_requests = true;
      has_updates = true;
    })
  ]
