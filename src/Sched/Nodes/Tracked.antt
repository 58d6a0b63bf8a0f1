-- ===== src/Sched/Nodes/Tracked.antt =====
-- sched/scheduler/cluster_state.go keeps healthy, suspended and offlined nodes disjoint, as its comments
-- say, unless a node that is offlined is added by the cluster.
use scoot.Base.{
  ℕ, ◌≡◌, refl, ◌⊎◌, inl, inr, subst, String, true, none, some, List, [], ◌∷◌, arith, lookup,
  some_inj, Option-cases, Bool-cases,
}
use scoot.Cluster.Node.{Node, NodeUpdate, NodeUpdateType, node_added, node_removed}
use scoot.Sched.Nodes.{ClusterState, ready, is_set}
use scoot.Sched.Nodes.Update.{
  reinstate, readd_suspended, add_new, node_added_update, offline, lose, node_removed_update,
  apply_update, apply_updates, by_type, join_idle,
}
use scoot.Sched.Nodes.Disjoint.{IsTracked, turn, flip, move, rewrite, grow}

offline-IsTracked : (c : ClusterState) (id : String) → IsTracked c → IsTracked (offline c id)
unfolding offline
offline-IsTracked c id t = elim (Option-cases (lookup id c.nodes)) [
  | inr (p, e) ↦ rw (e, offline) (flip (turn (turn (move (turn (flip t)) id p e))))
  | inl e ↦ elim (Option-cases (lookup id c.suspended_nodes)) [
    | inr (p, f) ↦ rw (e, f, offline) (turn (turn (move (turn t) id p f)))
    | inl f ↦ rw (e, f, offline) t
  ]
]

reinstate-IsTracked : (c : ClusterState) (id : String) → IsTracked c → IsTracked (reinstate c id)
unfolding reinstate
reinstate-IsTracked c id t = elim (Option-cases (lookup id c.offlined_nodes)) [
  | inr (p, e) ↦ rw (e, reinstate) (turn (move (turn (turn t)) id p e))
  | inl e ↦ rw (e, reinstate) t
]

readd_suspended-IsTracked :
    (c : ClusterState) (id : String) (p : ℕ)
    → lookup id c.suspended_nodes ≡ some p
    → IsTracked c
    → IsTracked (readd_suspended c id p)
unfolding readd_suspended
readd_suspended-IsTracked c id p h t = elim (Bool-cases (ready (c.cell p))) [
  | inr e ↦ simp (e, readd_suspended) t
  | inl e ↦ elim (Bool-cases (is_set (c.cell p).time_lost)) [
    | inr f ↦ simp (e, f, readd_suspended) t
    | inl f ↦
        simp (e, f, readd_suspended)
          (rewrite (flip (move (flip t) id p h)) p (record (c.cell p) { time_lost = none }) refl)
  ]
]

lose-IsTracked :
    (c : ClusterState) (id : String) (now : ℕ) → IsTracked c → IsTracked (lose c id now)
unfolding lose
lose-IsTracked c id now t = elim (Option-cases (lookup id c.suspended_nodes)) [
  | inr (p, e) ↦ rw (e, lose) (rewrite t p _ refl)
  | inl e ↦ elim (Option-cases (lookup id c.nodes)) [
    | inr (p, f) ↦ rw (e, f, lose) (rewrite (move t id p f) p _ refl)
    | inl f ↦ rw (e, f, lose) t
  ]
]

-- A change of the groups alone.
framed :
    (c d : ClusterState)
    → d.cell ≡ c.cell
    → d.next ≡ c.next
    → d.nodes ≡ c.nodes
    → d.suspended_nodes ≡ c.suspended_nodes
    → d.offlined_nodes ≡ c.offlined_nodes
    → IsTracked c
    → IsTracked d
framed c d e f g h i t = rw (e, f, g, h, i) t

join_idle-IsTracked :
    (c d : ClusterState) (id : String) (p : ℕ)
    → join_idle c id p ≡ some d
    → IsTracked c
    → IsTracked d
join_idle-IsTracked c d id p h t =
    framed c d (ground arith) (ground arith) (ground arith) (ground arith) (ground arith) t

add_new-IsTracked :
    (c d : ClusterState) (id : String) (node : Node)
    → node.id ≡ id
    → lookup id c.nodes ≡ none
    → lookup id c.suspended_nodes ≡ none
    → lookup id c.offlined_nodes ≡ none
    → add_new c id node ≡ some d
    → IsTracked c
    → IsTracked d
unfolding add_new
add_new-IsTracked c d id node e hn hs ho h t = elim (Bool-cases c.has_ready_fn) [
  | inr f ↦ join_idle-IsTracked _ d id c.next (simp (f, add_new) at h) (grow t id _ e hs ho)
  | inl f ↦
      join_idle-IsTracked _ d id c.next (simp (f, add_new) at h) (flip (grow (flip t) id _ e hn ho))
]

-- What a batch of updates must not do: name a node otherwise than its update, or add a node that is
-- offlined unless the user asks for it.
abbrev pub IsFit : ClusterState → NodeUpdate → Type 0
IsFit c u =
    ((node : Node) → u.node ≡ some node → node.id ≡ u.id)
    × ((u.user_initiated ≡ true) ⊎ (lookup u.id c.offlined_nodes ≡ none))

abbrev pub Fits : ClusterState → List NodeUpdate → ℕ → Type 0
Fits c [] now = Unit
Fits c (u ∷ us) now =
    IsFit c u × ((d : ClusterState) → apply_update c u now ≡ some d → Fits d us now)

added-IsTracked :
    (c d : ClusterState) (u : NodeUpdate)
    → IsFit c u
    → node_added_update c u ≡ some d
    → IsTracked c
    → IsTracked d
unfolding node_added_update
added-IsTracked c d u fit h t = elim (Bool-cases u.user_initiated) [
  | inl e ↦
      let q : reinstate c u.id ≡ d = ground arith in
      subst IsTracked q (reinstate-IsTracked c u.id t)
  | inr e ↦ elim (Option-cases (lookup u.id c.suspended_nodes)) [
    | inr (p, f) ↦
        let q : readd_suspended c u.id p ≡ d = ground arith in
        subst IsTracked q (readd_suspended-IsTracked c u.id p f t)
    | inl f ↦ elim (Option-cases (lookup u.id c.nodes)) [
      | inr (p, g) ↦ let q : c ≡ d = ground arith in subst IsTracked q t
      | inl g ↦ elim (Option-cases u.node) [
        | inl n ↦ absurd (ground arith)
        | inr (node, n) ↦
            add_new-IsTracked c d u.id node (fit.0 node n) g f (ground arith) (ground arith) t
      ]
    ]
  ]
]

removed-IsTracked :
    (c : ClusterState) (u : NodeUpdate) (now : ℕ)
    → IsTracked c
    → IsTracked (node_removed_update c u now)
unfolding node_removed_update
removed-IsTracked c u now t = elim (Bool-cases u.user_initiated) [
  | inl e ↦ simp (e, node_removed_update) (offline-IsTracked c u.id t)
  | inr e ↦ simp (e, node_removed_update) (lose-IsTracked c u.id now t)
]

apply_update-IsTracked :
    (c d : ClusterState) (u : NodeUpdate) (now : ℕ)
    → IsFit c u
    → apply_update c u now ≡ some d
    → IsTracked c
    → IsTracked d
unfolding apply_update
apply_update-IsTracked c d u now fit h t = from u.update_type h
  where
    from : (ty : NodeUpdateType) → by_type ty c u now ≡ some d → IsTracked d
    from node_added k = added-IsTracked c d u fit k t
    from node_removed k = subst IsTracked (some_inj.0 k) (removed-IsTracked c u now t)

pub apply_updates-IsTracked :
    (c d : ClusterState) (us : List NodeUpdate) (now : ℕ)
    → Fits c us now
    → apply_updates c us now ≡ some d
    → IsTracked c
    → IsTracked d
unfolding apply_updates
apply_updates-IsTracked c d [] now fit h t = subst IsTracked (some_inj.0 h) t
apply_updates-IsTracked c d (u ∷ us) now fit h t = elim (Option-cases (apply_update c u now)) [
  | inl e ↦ absurd (ground arith)
  | inr (n, e) ↦
      apply_updates-IsTracked n d us now (fit.1 n e) (rw (e, apply_updates) at h)
        (apply_update-IsTracked c n u now fit.0 e t)
]
