-- ===== src/Cluster/State/Follow.antt =====
-- Updates that lead from one view of cloud/cluster/state.go to another, and views whose entries name their nodes.
use scoot.Base.{
  ℕ, suc, ◌≡◌, refl, sym, ◌∙◌, subst, inl, inr, String, ◌||◌, Option, Option-cases, zero, some,
  some_inj, List, [], ◌∷◌, ◌++◌, arith, ◌==◌, length, All, Bool-cases, Distinct, str_eq, eq_iff,
  insert, insert-Distinct, delete-Distinct,
}
use scoot.Cluster.Node.{Node, NodeUpdate, NodeUpdateType, node_added, node_removed}
use scoot.Cluster.State.{
  Nodes, is_applicable, apply_node, changed, take_known, diff, pass, filter_from, filter_and_update,
  set_and_diff, set_nodes, node_values,
}
use scoot.Cluster.State.Replay.{Replays}
use scoot.Cluster.State.Ids.{
  present, apply_nodes, Follows, present-insert, present-delete, apply_nodes-append,
  AreApplicable-append,
}
use scoot.Cluster.State.Diff.{All-delete-IsNamed, IsNamed}

-- Two views have the same ids.
abbrev SameIds : Nodes → Nodes → Type 0
SameIds a b = (i : String) → present i a ≡ present i b

changed-SameIds :
    (t : NodeUpdateType) (a b : Nodes) (u : NodeUpdate)
    → SameIds a b
    → SameIds (changed t a u) (changed t b u)
changed-SameIds node_added a b u h i =
    rw (present-insert i u.id u.node a, present-insert i u.id u.node b, h i)
changed-SameIds node_removed a b u h i = rw (present-delete i u.id a, present-delete i u.id b, h i)

pub Follows-SameIds :
    (a b t : Nodes) (us : List NodeUpdate) → SameIds a b → Follows b us t → Follows a us t
unfolding apply_nodes
Follows-SameIds a b t [] h f = (tt, λ i. h i ∙ f.1 i)
Follows-SameIds a b t (u ∷ us) h f =
    let (g, e) =
      Follows-SameIds (apply_node a u) (apply_node b u) t us (changed-SameIds u.update_type a b u h)
        (f.0.1, f.1) in
    ((rw (h u.id) f.0.0, g), e)

pub Follows-append :
    (a s t : Nodes) (us vs : List NodeUpdate)
    → Follows a us s
    → Follows s vs t
    → Follows a (us ++ vs) t
Follows-append a s t us vs f g =
    let (k, e) = Follows-SameIds (apply_nodes a us) s t vs f.1 g in
    (AreApplicable-append a us vs f.0 k, λ i. rw (apply_nodes-append a us vs) (e i))

pub Replays-Follows : (s t : Nodes) (us : List NodeUpdate) → Replays s us t → Follows s us t
unfolding apply_nodes
Replays-Follows s t [] e = (tt, λ i. rw e)
Replays-Follows s t (u ∷ us) h =
    let (g, e) = Replays-Follows (apply_node s u) t us h.1 in ((h.0, g), e)

-- The view is a map whose entries name their nodes.
abbrev pub IsView : Nodes → Type 0
IsView s = Distinct s × All IsNamed s

-- An update that adds has a node with its id.
abbrev pub IsProper : NodeUpdate → Type 0
IsProper u = (u.update_type ≡ node_added) → IsNamed (u.id, u.node)

All-insert-IsNamed :
    (k : String) (w : Option Node) (m : Nodes)
    → IsNamed (k, w)
    → All IsNamed m
    → All IsNamed (insert k w m)
unfolding insert
All-insert-IsNamed k w [] h a = (h, tt)
All-insert-IsNamed k w ((j, v) ∷ m) h a = elim (Bool-cases (str_eq j k)) [
  | inl e ↦ rw e (subst (λ x. IsNamed (x, w)) (sym ((eq_iff j k).0 e)) h, a.1)
  | inr e ↦ rw e (a.0, All-insert-IsNamed k w m h a.1)
]

changed-IsView :
    (t : NodeUpdateType) (s : Nodes) (u : NodeUpdate)
    → (t ≡ node_added → IsNamed (u.id, u.node))
    → IsView s
    → IsView (changed t s u)
changed-IsView node_added s u p (d, n) =
    (insert-Distinct u.id u.node s d, All-insert-IsNamed u.id u.node s (p refl) n)
changed-IsView node_removed s u p (d, n) = (delete-Distinct u.id s d, All-delete-IsNamed u.id s n)

pass-IsView :
    (s : Nodes) (us : List NodeUpdate)
    → All IsProper us
    → IsView s
    → IsView (pass s us).0 × All IsProper (pass s us).2
unfolding pass
pass-IsView s [] p v = (v, tt)
pass-IsView s (u ∷ us) p v = elim (Bool-cases (is_applicable s u)) [
  | inl e ↦
      rw (e, pass) (pass-IsView (apply_node s u) us p.1 (changed-IsView u.update_type s u p.0 v))
  | inr e ↦ let (w, q) = pass-IsView s us p.1 v in rw (e, pass) (w, (p.0, q))
]

pub filter_from-IsView :
    (fuel : ℕ) (s t : Nodes) (us out : List NodeUpdate)
    → All IsProper us
    → IsView s
    → filter_from fuel s us ≡ some (t, out)
    → IsView t
unfolding filter_from
filter_from-IsView zero s t us out p v h = absurd (ground (arith, h))
filter_from-IsView (suc fuel) s t us out p v h =
    let (after, filtered, unused) = pass s us in
    let (w, q) = pass-IsView s us p v in
    elim (Bool-cases (length unused == 0 || length unused == length us)) [
      | inl e ↦
          let same : (after, filtered) ≡ (t, out) = some_inj.0 (rw (e, filter_from) at h) in
          subst (λ (x : Nodes × List NodeUpdate). IsView x.0) same w
      | inr e ↦ elim (Option-cases (filter_from fuel after unused)) [
        | inl f ↦ absurd (ground (arith, (rw (e, f, filter_from) at h)))
        | inr ((last, more), f) ↦
            let same : (last, filtered ++ more) ≡ (t, out) =
              some_inj.0 (rw (e, f, filter_from) at h) in
            subst (λ (x : Nodes × List NodeUpdate). IsView x.0) same
              (filter_from-IsView fuel after last unused more q w f)
      ]
    ]

pub set_nodes-IsView : (s : Nodes) (ns : List Node) → IsView s → IsView (set_nodes s ns)
unfolding set_nodes
set_nodes-IsView s [] v = v
set_nodes-IsView s (n ∷ ns) (d, h) =
    set_nodes-IsView (insert n.id (some n) s) ns
      (insert-Distinct n.id (some n) s d, All-insert-IsNamed n.id (some n) s refl h)

pub filter_and_update-IsView :
    (s t : Nodes) (us out : List NodeUpdate)
    → All IsProper us
    → IsView s
    → filter_and_update s us ≡ some (t, out)
    → IsView t
unfolding filter_and_update
filter_and_update-IsView s t us out = filter_from-IsView (suc (length us)) s t us out

pub set_and_diff-IsView :
    (sort : List Node → List Node) (s t : Nodes) (ns : List Node) (out : List NodeUpdate)
    → set_and_diff sort s ns ≡ some (t, out)
    → IsView t
unfolding set_and_diff
set_and_diff-IsView sort s t ns out h = elim (Option-cases (node_values (take_known s ns).0)) [
  | inl e ↦ absurd (ground (arith, (rw e at h)))
  | inr (removed, e) ↦
      let same : diff sort ns (take_known s ns).1 (some removed) ≡ some (t, out) = rw e at h in
      subst (λ (x : Nodes × List NodeUpdate). IsView x.0) (some_inj.0 same)
        (set_nodes-IsView [] ns (tt, tt))
]
