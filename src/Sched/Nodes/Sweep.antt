-- ===== src/Sched/Nodes/Sweep.antt =====
-- The sweep of sched/scheduler/cluster_state.go over the suspended nodes, and with it the whole update.
use scoot.Base.{
  ℕ, ◌≡◌, refl, ◌∙◌, subst, inl, inr, String, false, none, some, some_inj, List, [], ◌∷◌, str_eq,
  eq_iff, arith, Dict, lookup, insert, delete, lookup-delete, Option-cases, Bool-cases, Absent,
  Distinct, Distinct-entries, All,
}
use mathlib.Core.Path.{fun_ext}
use scoot.Cluster.Node.{NodeUpdate}
use scoot.Sched.Nodes.{NodeState, ClusterState, write, suspended, pending}
use scoot.Sched.Nodes.Update.{apply_updates, sweep_node, sweep, update, is_past, seen_ready}
use scoot.Sched.Nodes.Disjoint.{IsTracked, flip, move, rewrite, drop}
use scoot.Sched.Nodes.Tracked.{Fits, apply_updates-IsTracked}

-- What the sweep leaves alone, besides the node that it looks at.
record Leaves (c d : ClusterState) (id : String) : Type 0 where
  tracked : IsTracked d
  suspended_kept :
      (j : String) → str_eq id j ≡ false → lookup j d.suspended_nodes ≡ lookup j c.suspended_nodes
  nodes_kept : (q : ℕ) → (d.cell q).node ≡ (c.cell q).node

abbrev rested : NodeState → NodeState
rested ns = record (seen_ready ns) { time_flaky = none; snapshot_id = "" }

module _ (c : ClusterState) (p : ℕ) (e : lookup (c.cell p).node.id c.suspended_nodes ≡ some p)
    (t : IsTracked c) where
  abbrev id : String
  id = (c.cell p).node.id

  write_kept :
      (ns : NodeState)
      → ns.node ≡ (c.cell p).node
      → (q : ℕ) → (write c.cell p ns q).node ≡ (c.cell q).node
  write_kept ns h q = ground arith

  delete_kept :
      (j : String)
      → str_eq id j ≡ false
      → lookup j (delete id c.suspended_nodes) ≡ lookup j c.suspended_nodes
  delete_kept j h = rw (lookup-delete id j c.suspended_nodes, h)

  moved :
      (d : ClusterState) (ns : NodeState)
      → ns.node ≡ (c.cell p).node
      → d.cell ≡ write c.cell p ns
      → d.next ≡ c.next
      → d.nodes ≡ insert id p c.nodes
      → d.suspended_nodes ≡ delete id c.suspended_nodes
      → d.offlined_nodes ≡ c.offlined_nodes
      → Leaves c d id
  moved d ns h e₁ e₂ e₃ e₄ e₅ = record {
    tracked = rw (e₁, e₂, e₃, e₄, e₅) (rewrite (flip (move (flip t) id p e)) p ns h);
    suspended_kept = rw e₄ delete_kept;
    nodes_kept = rw e₁ (write_kept ns h);
  }

  stayed :
      (d : ClusterState) (ns : NodeState)
      → ns.node ≡ (c.cell p).node
      → d.cell ≡ write c.cell p ns
      → d.next ≡ c.next
      → d.nodes ≡ c.nodes
      → d.suspended_nodes ≡ c.suspended_nodes
      → d.offlined_nodes ≡ c.offlined_nodes
      → Leaves c d id
  stayed d ns h e₁ e₂ e₃ e₄ e₅ = record {
    tracked = rw (e₁, e₂, e₃, e₄, e₅) (rewrite t p ns h);
    suspended_kept = rw e₄ (λ j k. refl);
    nodes_kept = rw e₁ (write_kept ns h);
  }

  reaped :
      (d : ClusterState) (ns : NodeState)
      → ns.node ≡ (c.cell p).node
      → d.cell ≡ write c.cell p ns
      → d.next ≡ c.next
      → d.nodes ≡ c.nodes
      → d.suspended_nodes ≡ delete id c.suspended_nodes
      → d.offlined_nodes ≡ c.offlined_nodes
      → Leaves c d id
  reaped d ns h e₁ e₂ e₃ e₄ e₅ = record {
    tracked = rw (e₁, e₂, e₃, e₄, e₅) (rewrite (flip (drop (flip t) id)) p ns h);
    suspended_kept = rw e₄ delete_kept;
    nodes_kept = rw e₁ (write_kept ns h);
  }

  twice :
      (cell : ℕ → NodeState) (a b : NodeState)
      → cell ≡ write (write c.cell p a) p b
      → cell ≡ write c.cell p b
  twice cell a b h = h ∙ fun_ext (λ q. ground arith)

  sweep_node-Leaves : (d : ClusterState) (now : ℕ) → sweep_node c p now ≡ some d → Leaves c d id
  unfolding sweep_node
  sweep_node-Leaves d now h = elim (Bool-cases (suspended (seen_ready (c.cell p)))) [
    | inr f ↦
        moved d (seen_ready (c.cell p)) refl (ground arith) (ground arith) (ground arith)
          (ground arith) (ground arith)
    | inl f ↦ elim (Bool-cases (is_past (c.cell p).time_lost now c.max_lost_duration)) [
      | inl g ↦
          reaped d (seen_ready (c.cell p)) refl (ground arith) (ground arith) (ground arith)
            (ground arith) (ground arith)
      | inr g ↦ elim (Bool-cases (is_past (c.cell p).time_flaky now c.max_flaky_duration)) [
        | inr k ↦
            stayed d (seen_ready (c.cell p)) refl (ground arith) (ground arith) (ground arith)
              (ground arith) (ground arith)
        | inl k ↦ elim (Bool-cases c.has_ready_fn) [
          | inl m ↦
              stayed d (record (rested (c.cell p)) { ready_ch = pending }) refl
                (twice d.cell (seen_ready (c.cell p)) _ (ground arith)) (ground arith)
                (ground arith) (ground arith) (ground arith)
          | inr m ↦
              moved d (rested (c.cell p)) refl
                (twice d.cell (seen_ready (c.cell p)) (rested (c.cell p)) (ground arith))
                (ground arith) (ground arith) (ground arith) (ground arith)
        ]
      ]
    ]
  ]

-- The entries that are still to be looked at stay where they are.
still :
    (c d : ClusterState) (id : String) (p : ℕ) (es : Dict ℕ)
    → (c.cell p).node.id ≡ id
    → Absent id es
    → Leaves c d (c.cell p).node.id
    → All (λ e. lookup e.0 c.suspended_nodes ≡ some e.1) es
    → All (λ e. lookup e.0 d.suspended_nodes ≡ some e.1) es
still c d id p [] named a l h = tt
still c d id p ((j, q) ∷ es) named a l h = (
  l.suspended_kept j (rw named (ground (arith, eq_iff id j, eq_iff j id))) ∙ h.0,
  still c d id p es named a.1 l h.1,
)

sweep-IsTracked :
    (c d : ClusterState) (es : Dict ℕ) (now : ℕ)
    → Distinct es
    → All (λ e. lookup e.0 c.suspended_nodes ≡ some e.1) es
    → sweep c es now ≡ some d
    → IsTracked c
    → IsTracked d
unfolding sweep
sweep-IsTracked c d [] now ds all h t = subst IsTracked (some_inj.0 h) t
sweep-IsTracked c d ((id, p) ∷ es) now ds all h t = elim (Option-cases (sweep_node c p now)) [
  | inl e ↦ absurd (ground arith)
  | inr (n, e) ↦
      let named = (t.named_y id p all.0).0 in
      let l = sweep_node-Leaves c p (rw named all.0) t n now e in
      sweep-IsTracked n d es now ds.1 (still c n id p es named ds.0 l all.1) (rw (e, sweep) at h)
        l.tracked
]

-- An update keeps the three maps disjoint, each entry under its node's own id, whatever becomes ready,
-- lost or flaky meanwhile, provided that each update names the node that it carries by its id, and that
-- the cluster adds no node while it is offlined.
pub update-IsTracked :
    (c d : ClusterState) (us : List NodeUpdate) (now : ℕ)
    → IsTracked c
    → Fits c us now
    → update c us now ≡ some d
    → IsTracked d
unfolding update
update-IsTracked c d us now t fit h = elim (Option-cases (apply_updates c us now)) [
  | inl e ↦ absurd (ground arith)
  | inr (n, e) ↦
      let u = apply_updates-IsTracked c n us now fit e t in
      sweep-IsTracked n d n.suspended_nodes now u.distinct_y
        (Distinct-entries n.suspended_nodes u.distinct_y) (rw (e, update) at h) u
]
