-- ===== src/Cluster/State/Diff.antt =====
-- setAndDiff of cloud/cluster/state.go: its updates lead from the old view to the new one, as far as the ids go.
use scoot.Base.{
  ◌≡◌, refl, sym, ap, ◌∙◌, subst, inl, inr, String, true, false, not, ◌&&◌, ◌||◌, Option, none,
  some, List, [], ◌∷◌, ◌++◌, map, arith, str_eq, eq_iff, lookup, insert, delete, Distinct, Absent,
  delete-Distinct, All, Bool-cases, if◌then◌else◌, if-cases, some_inj,
}
use mathlib.Core.List.{Permᴰ}
use scoot.Cluster.Node.{Node, NodeUpdate, new_add}
use scoot.Cluster.State.{Nodes, take_known, node_values, set_nodes, removal, set_and_diff}
use scoot.Cluster.State.Ids.{
  present, has_id, HasDistinctIds, apply_nodes, Follows, present-insert, present-delete, or_assoc,
  or_swap, has_id-Permᴰ, HasDistinctIds-Permᴰ, adds-AreApplicable, apply_nodes-adds,
  removes-AreApplicable, apply_nodes-removes, apply_nodes-append, AreApplicable-append,
}

same_id :
    (i : String) (n : Node) (ns : List Node) (s : Nodes)
    → str_eq n.id i ≡ true
    → (has_id n.id ns ≡ has_id i ns) × (present n.id s ≡ present i s)
same_id i n ns s e =
    let same = (eq_iff n.id i).0 e in (ap (λ j. has_id j ns) same, ap (λ j. present j s) same)

-- The loop over the new state.
take_known-has_id :
    (i : String) (s : Nodes) (ns : List Node)
    → HasDistinctIds ns
    → (has_id i (take_known s ns).1 ≡ (has_id i ns && not (present i s)))
      × (present i (take_known s ns).0 ≡ (present i s && not (has_id i ns)))
unfolding take_known
take_known-has_id i s [] d = ground arith
take_known-has_id i s (n ∷ ns) d = elim (Bool-cases (present n.id s)) [
  | inl e ↦
      let (a, l) = take_known-has_id i (delete n.id s) ns d.1 in
      rw (e, take_known)
        (
          ground (arith, e, a, d.0, present-delete i n.id s, same_id i n ns s),
          ground (arith, e, l, present-delete i n.id s),
        )
  | inr e ↦
      let (a, l) = take_known-has_id i s ns d.1 in
      rw (e, take_known)
        (ground (arith, e, a, d.0, same_id i n ns s), ground (arith, e, l, d.0, same_id i n ns s))
]

take_known-HasDistinctIds :
    (s : Nodes) (ns : List Node) → HasDistinctIds ns → HasDistinctIds (take_known s ns).1
unfolding take_known
take_known-HasDistinctIds s [] d = tt
take_known-HasDistinctIds s (n ∷ ns) d = elim (Bool-cases (present n.id s)) [
  | inl e ↦ rw (e, take_known) (take_known-HasDistinctIds (delete n.id s) ns d.1)
  | inr e ↦
      rw (e, take_known)
        (
          ground (arith, d.0, (take_known-has_id n.id s ns d.1).0),
          take_known-HasDistinctIds s ns d.1,
        )
]

-- A view names each node by its id.
abbrev pub IsNamed : String × Option Node → Type 0
IsNamed (k, none) = ⊥
IsNamed (k, some n) = n.id ≡ k

pub All-delete-IsNamed : (k : String) (m : Nodes) → All IsNamed m → All IsNamed (delete k m)
unfolding delete
All-delete-IsNamed k [] h = tt
All-delete-IsNamed k ((j, w) ∷ m) h =
    if-cases (All IsNamed) (str_eq j k) (delete k m) ((j, w) ∷ delete k m)
      (λ e. All-delete-IsNamed k m h.1) (λ e. (h.0, All-delete-IsNamed k m h.1))

pub take_known-IsNamed :
    (s : Nodes) (ns : List Node)
    → Distinct s × All IsNamed s
    → Distinct (take_known s ns).0 × All IsNamed (take_known s ns).0
unfolding take_known
take_known-IsNamed s [] h = h
take_known-IsNamed s (n ∷ ns) h =
    take_known-IsNamed (if present n.id s then delete n.id s else s) ns (
      if-cases (λ x. Distinct x × All IsNamed x) (present n.id s) (delete n.id s) s
        (λ e. (delete-Distinct n.id s h.0, All-delete-IsNamed n.id s h.1)) (λ e. h))

-- The nodes of a view have its keys for ids.
pub node_values-has_id :
    (s : Nodes)
    → All IsNamed s
    → (ns : List Node) × (node_values s ≡ some ns) × ((i : String) → has_id i ns ≡ present i s)
unfolding node_values lookup
node_values-has_id [] h = ([], refl, λ i. refl)
node_values-has_id ((k, none) ∷ s) h = absurd h.0
node_values-has_id ((k, some n) ∷ s) h =
    let (ns, e, m) = node_values-has_id s h.1 in
    (n ∷ ns, rw e refl, λ i. rw h.0 (ground (arith, m i)))

Absent-present : (k : String) (s : Nodes) → Absent k s → present k s ≡ false
unfolding lookup
Absent-present k [] a = refl
Absent-present k ((j, w) ∷ s) a = rw a.0 (Absent-present k s a.1)

node_values-HasDistinctIds :
    (s : Nodes) (ns : List Node)
    → All IsNamed s
    → Distinct s
    → node_values s ≡ some ns
    → HasDistinctIds ns
unfolding node_values
node_values-HasDistinctIds [] ns h d e = subst HasDistinctIds (some_inj.0 e) tt
node_values-HasDistinctIds ((k, none) ∷ s) ns h d e = absurd h.0
node_values-HasDistinctIds ((k, some n) ∷ s) ns h d e =
    let (ms, f, m) = node_values-has_id s h.1 in
    let same : n ∷ ms ≡ ns = some_inj.0 (rw f at e) in
    subst HasDistinctIds same
      (rw (h.0, m k) (Absent-present k s d.0), node_values-HasDistinctIds s ms h.1 d.1 f)

pub set_nodes-present :
    (i : String) (s : Nodes) (ns : List Node)
    → present i (set_nodes s ns) ≡ (has_id i ns || present i s)
unfolding set_nodes
set_nodes-present i s [] = refl
set_nodes-present i s (n ∷ ns) =
    set_nodes-present i (insert n.id (some n) s) ns
    ∙ rw (present-insert i n.id (some n) s) (
        or_swap (has_id i ns) (str_eq n.id i) (present i s)
        ∙ or_assoc (str_eq n.id i) (has_id i ns) (present i s))

module _ (sort : List Node → List Node) (sorts : (ns : List Node) → Permᴰ (sort ns) ns) where
  nothing_else :
      (i : String) (new_state : List Node) (s : Nodes)
      → (has_id i new_state || present i []) ≡ (
          not (present i s && not (has_id i new_state))
          && (has_id i new_state && not (present i s) || present i s))
  unfolding lookup
  nothing_else i new_state s = ground arith

  -- Each removed node was in the view, and each added one was not.
  diff-Follows :
      (s : Nodes) (added removed new_state : List Node)
      → HasDistinctIds added
      → HasDistinctIds removed
      → ((i : String) → has_id i added ≡ (has_id i new_state && not (present i s)))
      → ((i : String) → has_id i removed ≡ (present i s && not (has_id i new_state)))
      → Follows s (map new_add (sort added) ++ map removal (sort removed)) (set_nodes [] new_state)
  diff-Follows s added removed new_state da dr ha hr =
      let adds = sort added in
      let removes = sort removed in
      let mid = apply_nodes s (map new_add adds) in
      let pa = λ (i : String). has_id-Permᴰ i (sorts added) ∙ ha i in
      let pr = λ (i : String). has_id-Permᴰ i (sorts removed) ∙ hr i in
      (
        AreApplicable-append s (map new_add adds) (map removal removes)
            (adds-AreApplicable s adds (HasDistinctIds-Permᴰ (sorts added) da)
              (λ i m. ground (arith, m, pa i)))
            (removes-AreApplicable mid removes (HasDistinctIds-Permᴰ (sorts removed) dr)
              (λ i m. rw (apply_nodes-adds i s adds) (ground (arith, m, pr i)))),
        λ i. rw (apply_nodes-append s (map new_add adds) (map removal removes)) (
            apply_nodes-removes i mid removes
            ∙ rw (apply_nodes-adds i s adds, pa i, pr i)
                (sym (set_nodes-present i [] new_state ∙ nothing_else i new_state s))),
      )

  -- The updates of setAndDiff lead from the old view to the new state.
  pub set_and_diff-Follows :
      (s : Nodes) (new_state : List Node)
      → Distinct s
      → All IsNamed s
      → HasDistinctIds new_state
      → (t : Nodes) × (out : List NodeUpdate) × (set_and_diff sort s new_state ≡ some (t, out))
        × Follows s out t
  unfolding set_and_diff
  set_and_diff-Follows s new_state d n h =
      let (left, added) = take_known s new_state in
      let (dl, nl) = take_known-IsNamed s new_state (d, n) in
      let (removed, e, m) = node_values-has_id left nl in
      (
        set_nodes [] new_state,
        map new_add (sort added) ++ map removal (sort removed),
        rw e refl,
        diff-Follows s added removed new_state (take_known-HasDistinctIds s new_state h)
            (node_values-HasDistinctIds left removed nl dl e)
            (λ i. (take_known-has_id i s new_state h).0)
            (λ i. m i ∙ (take_known-has_id i s new_state h).1),
      )
