-- ===== src/Cluster/State/Replay.antt =====
-- The updates that cloud/cluster/state.go hands to its subscribers lead them to its own view.
use scoot.Base.{
  ℕ, zero, suc, ◌≤◌, ◌≡◌, refl, sym, subst, inl, inr, true, false, ◌||◌, none, some, List, [], ◌∷◌,
  ◌++◌, ◌==◌, arith, lookup, insert, delete, length, Bool-cases, lookup-insert, lookup-delete,
  eq_refl,
}
use scoot.Cluster.Node.{Node, NodeUpdate, new_add, new_remove}
use scoot.Cluster.State.{Nodes, is_applicable, apply_node, pass, filter_from, filter_and_update}

-- A subscriber that applies the updates one after the other finds each of them applicable, and ends with
-- the nodes `t`.
abbrev pub Replays : Nodes → List NodeUpdate → Nodes → Type 0
Replays s [] t = s ≡ t
Replays s (u ∷ us) t = (is_applicable s u ≡ true) × Replays (apply_node s u) us t

Replays-append :
    (r s t : Nodes) (us vs : List NodeUpdate)
    → Replays r us s
    → Replays s vs t
    → Replays r (us ++ vs) t
Replays-append r s t [] vs h k = subst (λ x. Replays x vs t) (sym h) k
Replays-append r s t (u ∷ us) vs h k = (h.0, Replays-append (apply_node r u) s t us vs h.1 k)

pass_used :
    (s : Nodes) (u : NodeUpdate) (us : List NodeUpdate)
    → is_applicable s u ≡ true
    → let (t, filtered, unused) = pass (apply_node s u) us in
      pass s (u ∷ us) ≡ (t, u ∷ filtered, unused)
unfolding pass
pass_used s u us e = rw (e, pass) refl

pass_unused :
    (s : Nodes) (u : NodeUpdate) (us : List NodeUpdate)
    → is_applicable s u ≡ false
    → let (t, filtered, unused) = pass s us in pass s (u ∷ us) ≡ (t, filtered, u ∷ unused)
unfolding pass
pass_unused s u us e = rw (e, pass) refl

pass-Replays :
    (s : Nodes) (us : List NodeUpdate)
    → Replays s (pass s us).1 (pass s us).0 × (length (pass s us).2 ≤ length us)
unfolding pass
pass-Replays s [] = (refl, ground arith)
pass-Replays s (u ∷ us) = elim (Bool-cases (is_applicable s u)) [
  | inl e ↦
      let ih = pass-Replays (apply_node s u) us in
      subst (λ p. Replays s p.1 p.0 × (length p.2 ≤ suc (length us))) (sym (pass_used s u us e))
        ((e, ih.0), ground (arith, ih.1))
  | inr e ↦ let ih = pass-Replays s us in rw (e, pass) (ih.0, ground (arith, ih.1))
]

filter_from-Replays :
    (fuel : ℕ) (s : Nodes) (us : List NodeUpdate)
    → suc (length us) ≤ fuel
    → (t : Nodes) × (out : List NodeUpdate) × (filter_from fuel s us ≡ some (t, out))
      × Replays s out t
unfolding filter_from
filter_from-Replays zero s us b = absurd (ground arith)
filter_from-Replays (suc fuel) s us b =
    let p = pass-Replays s us in
    elim (Bool-cases (length (pass s us).2 == 0 || length (pass s us).2 == length us)) [
      | inl e ↦ ((pass s us).0, (pass s us).1, rw (e, filter_from) refl, p.0)
      | inr e ↦
          let (t, out, f, r) =
            filter_from-Replays fuel (pass s us).0 (pass s us).2 (ground (arith, p.1)) in
          (
            t,
            (pass s us).1 ++ out,
            rw (e, f, filter_from) refl,
            Replays-append s (pass s us).0 t (pass s us).1 out p.0 r,
          )
    ]

-- filterAndUpdate terminates, and the updates that it returns are applicable one after the other and lead
-- from the old view to the new one.
pub filter_and_update-Replays :
    (s : Nodes) (us : List NodeUpdate)
    → (t : Nodes) × (out : List NodeUpdate) × (filter_and_update s us ≡ some (t, out))
      × Replays s out t
unfolding filter_and_update
filter_and_update-Replays s us = filter_from-Replays (suc (length us)) s us (ground arith)

filter_stop :
    (fuel : ℕ) (s t : Nodes) (us filtered : List NodeUpdate)
    → pass s us ≡ (t, filtered, [])
    → filter_from (suc fuel) s us ≡ some (t, filtered)
unfolding filter_from
filter_stop fuel s t us filtered e = rw (filter_from, e) refl

filter_more :
    (fuel : ℕ) (s t last : Nodes) (us filtered unused more : List NodeUpdate)
    → pass s us ≡ (t, filtered, unused)
    → (length unused == 0 || length unused == length us) ≡ false
    → filter_from fuel t unused ≡ some (last, more)
    → filter_from (suc fuel) s us ≡ some (last, filtered ++ more)
unfolding filter_from
filter_more fuel s t last us filtered unused more e h k = rw (filter_from, e, h, k) refl

pass_nil : (s : Nodes) → pass s [] ≡ (s, [], [])
unfolding pass
pass_nil s = refl

-- A node that is unknown, is removed and then joins: the removal is put off until after the addition, so
-- that the node is not in the view.
filter_and_update_reorders :
    (s : Nodes) (node : Node)
    → lookup node.id s ≡ none
    → (t : Nodes) × (filter_and_update s (new_remove node.id ∷ new_add node ∷ [])
        ≡ some (t, new_add node ∷ new_remove node.id ∷ []))
      × (lookup node.id t ≡ none)
unfolding filter_and_update
filter_and_update_reorders s node e =
    let add = new_add node in
    let remove = new_remove node.id in
    let joined : Nodes = insert node.id (some node) s in
    let known : is_applicable joined remove ≡ true =
      rw (lookup-insert node.id node.id (some node) s, eq_refl node.id) refl in
    let first : pass s (remove ∷ add ∷ []) ≡ (joined, add ∷ [], remove ∷ []) =
      rw
        (
          pass_unused s remove (add ∷ []) (ground arith),
          pass_used s add [] (ground arith),
          pass_nil joined,
        )
        refl in
    let second : pass joined (remove ∷ []) ≡ (delete node.id joined, remove ∷ [], []) =
      rw (pass_used joined remove [] known, pass_nil (delete node.id joined)) refl in
    (
      delete node.id joined,
      filter_more 2 s joined (delete node.id joined) (remove ∷ add ∷ []) (add ∷ []) (remove ∷ [])
          (remove ∷ []) first refl
          (filter_stop 1 joined (delete node.id joined) (remove ∷ []) (remove ∷ []) second),
      rw (lookup-delete node.id node.id joined, eq_refl node.id) refl,
    )
