-- ===== src/Sched/Assign/Distinct.antt =====
-- Which nodes assign of sched/scheduler/task_scheduler.go takes.
use scoot.Base.{
  ℕ, ◌≡◌, ◌≢◌, ◌⊎◌, refl, ap, subst, inl, inr, String, true, false, Option, none, some, some_inj,
  List, [], ◌∷◌, str_eq, eq_iff, arith, Dict, lookup, insert, delete, lookup-insert, lookup-delete,
  if◌then◌else◌, if-cases, All, All-map, Bool-cases, Option-cases,
}
use scoot.Sched.Nodes.{NodeState, NodeGroup, suspended, group_or_new}
use scoot.Sched.Assign.{Task, TaskAssignment, first_free, idle_of, find_free, occupy, assign}

module _ (cell : ℕ → NodeState) where
  -- Each idle node stands under its own id.
  abbrev pub IsKeyed : Dict ℕ → Type 0
  IsKeyed idle =
      All (λ (e : String × ℕ). (lookup e.0 idle ≡ some e.1) × ((cell e.1).node.id ≡ e.0)) idle

  -- The node is idle in the group of the snapshot.
  abbrev pub IsIdle : Dict NodeGroup → String → ℕ → Type 0
  IsIdle groups snap p = lookup (cell p).node.id (idle_of (lookup snap groups)) ≡ some p

  -- A node is idle in one group at most.
  pub record IsSorted (groups : Dict NodeGroup) : Type 0 where
    pub keyed : (snap : String) → IsKeyed (idle_of (lookup snap groups))
    pub one : (s t : String) (p : ℕ) → IsIdle groups s p → IsIdle groups t p → s ≡ t

  first_free-some :
      (all idle : Dict ℕ) (p : ℕ)
      → All (λ (e : String × ℕ). (lookup e.0 all ≡ some e.1) × ((cell e.1).node.id ≡ e.0)) idle
      → first_free cell idle ≡ some p
      → (lookup (cell p).node.id all ≡ some p) × (suspended (cell p) ≡ false)
  unfolding first_free
  first_free-some all [] p k h = absurd (ground arith)
  first_free-some all ((id, q) ∷ idle) p k h = elim (Bool-cases (suspended (cell q))) [
    | inl e ↦ first_free-some all idle p k.1 (rw (e, first_free) at h)
    | inr e ↦
        let same : q ≡ p = some_inj.0 (rw (e, first_free) at h) in
        subst (λ r. (lookup (cell r).node.id all ≡ some r) × (suspended (cell r) ≡ false)) same
          (rw k.0.1 k.0.0, e)
  ]

  find_free-some :
      (groups : Dict NodeGroup) (snaps : List String) (snap : String) (p : ℕ)
      → IsSorted groups
      → find_free cell groups snaps ≡ some (snap, p)
      → IsIdle groups snap p × (suspended (cell p) ≡ false)
  unfolding find_free
  find_free-some groups [] snap p v h = absurd (ground arith)
  find_free-some groups (s ∷ snaps) snap p v h =
      elim (Option-cases (first_free cell (idle_of (lookup s groups)))) [
        | inl e ↦ find_free-some groups snaps snap p v (rw (e, find_free) at h)
        | inr (q, e) ↦
            let same : (s, q) ≡ (snap, p) = some_inj.0 (rw (e, find_free) at h) in
            subst (λ (x : String × ℕ). IsIdle groups x.0 x.1 × (suspended (cell x.1) ≡ false)) same
              (first_free-some (idle_of (lookup s groups)) (idle_of (lookup s groups)) q (v.keyed s)
                e)
      ]

  group_idle : (o : Option NodeGroup) → (group_or_new o).idle ≡ idle_of o
  group_idle none = refl
  group_idle (some g) = refl

  -- What is idle after a node was taken.
  idle-occupy :
      (groups : Dict NodeGroup) (snap s : String) (p : ℕ)
      → idle_of (lookup s (occupy cell groups snap p)) ≡ (
          if str_eq snap s
          then delete (cell p).node.id (idle_of (lookup snap groups))
          else idle_of (lookup s groups))
  unfolding occupy
  idle-occupy groups snap s p =
      let g = group_or_new (lookup snap groups) in
      rw
        (lookup-insert snap s
          (record g {
            busy = insert (cell p).node.id p g.busy;
            idle = delete (cell p).node.id g.idle;
          })
          groups)
        (elim (Bool-cases (str_eq snap s)) [
          | inl e ↦ rw e (ap (delete (cell p).node.id) (group_idle (lookup snap groups)))
          | inr e ↦ rw e refl
        ])

  -- A node that is idle then was so before, and is another one.
  shrinks :
      (groups : Dict NodeGroup) (snap s : String) (p q : ℕ)
      → IsIdle (occupy cell groups snap p) s q
      → IsIdle groups s q × ((str_eq snap s ≡ false) ⊎ (p ≢ q))
  shrinks groups snap s p q h = elim (Bool-cases (str_eq snap s)) [
    | inr e ↦ (rw (idle-occupy groups snap s p, e) at h, inl e)
    | inl e ↦
        let there : lookup (cell q).node.id (delete (cell p).node.id (idle_of (lookup snap groups)))
            ≡ some q =
          rw (idle-occupy groups snap s p, e) at h in
        let same : snap ≡ s = (eq_iff snap s).0 e in
        elim (Bool-cases (str_eq (cell p).node.id (cell q).node.id)) [
          | inl f ↦ absurd (
              ground (
                arith,
                lookup-delete (cell p).node.id (cell q).node.id (idle_of (lookup snap groups)),
              ))
          | inr f ↦ (
            subst (λ u. IsIdle groups u q) same
                (ground (
                  arith,
                  lookup-delete (cell p).node.id (cell q).node.id (idle_of (lookup snap groups)),
                )),
            inr (λ x.
                let t : str_eq (cell p).node.id (cell q).node.id ≡ true =
                  (eq_iff (cell p).node.id (cell q).node.id).1 (ap (λ r. (cell r).node.id) x) in
                absurd (ground arith)),
          )
        ]
  ]

  All-delete {κ} :
      (P : String × ℕ → Type κ) (k : String) (m : Dict ℕ)
      → All P m
      → All (λ e. P e × (str_eq k e.0 ≡ false)) (delete k m)
  unfolding delete
  All-delete P k [] h = tt
  All-delete P k ((j, w) ∷ m) h = elim (Bool-cases (str_eq j k)) [
    | inl e ↦ rw (e, delete) (All-delete P k m h.1)
    | inr e ↦
        let away : str_eq k j ≡ false = ground (arith, eq_iff k j, eq_iff j k) in
        rw (e, delete) ((h.0, away), All-delete P k m h.1)
  ]

  delete-IsKeyed : (k : String) (m : Dict ℕ) → IsKeyed m → IsKeyed (delete k m)
  delete-IsKeyed k m h =
      All-map _ _ (delete k m) (λ e x. (rw (lookup-delete k e.0 m, x.1) x.0.0, x.0.1))
        (All-delete _ k m h)

  occupy-IsSorted :
      (groups : Dict NodeGroup) (snap : String) (p : ℕ)
      → IsSorted groups
      → IsSorted (occupy cell groups snap p)
  occupy-IsSorted groups snap p v = record {
    keyed = λ s. rw (idle-occupy groups snap s p) (
        if-cases IsKeyed (str_eq snap s) _ _
          (λ e. delete-IsKeyed (cell p).node.id (idle_of (lookup snap groups)) (v.keyed snap))
          (λ e. v.keyed s));
    one = λ s t q h k. v.one s t q (shrinks groups snap s p q h).0 (shrinks groups snap t p q k).0;
  }

  -- A node that was taken is idle nowhere.
  taken_once :
      (groups : Dict NodeGroup) (snap s : String) (p : ℕ)
      → IsSorted groups
      → IsIdle groups snap p
      → IsIdle (occupy cell groups snap p) s p
      → false ≡ true
  taken_once groups snap s p v h k =
      let (i, c) = shrinks groups snap s p p k in
      elim c [
        | inr n ↦ absurd (n refl)
        | inl n ↦
            let t : str_eq snap s ≡ true = (eq_iff snap s).1 (v.one snap s p h i) in
            absurd (ground arith)
      ]

  -- The node was idle in some group, and is not suspended.
  abbrev pub WasFree : Dict NodeGroup → TaskAssignment → Type 0
  WasFree groups a =
      (suspended (cell a.node_st) ≡ false) × (snap : String) × IsIdle groups snap a.node_st

  -- No two assignments have the same node.
  abbrev pub AreApart : List TaskAssignment → Type 0
  AreApart [] = Unit
  AreApart (a ∷ rest) = All (λ b. b.node_st ≢ a.node_st) rest × AreApart rest

  -- For groups of nodes in which each idle node stands under its own id, in one group only, every assignment
  -- has a node that was idle and is not suspended, and no node is assigned twice.
  pub assign-AreApart :
      (snap_ids : List String) (tasks : List Task) (groups : Dict NodeGroup)
      → IsSorted groups
      → All (WasFree groups) (assign cell snap_ids tasks groups).0
        × AreApart (assign cell snap_ids tasks groups).0
  unfolding assign
  assign-AreApart snap_ids [] groups v = (tt, tt)
  assign-AreApart snap_ids (t ∷ tasks) groups v =
      elim (Option-cases (find_free cell groups (t.snapshot_id ∷ snap_ids))) [
        | inl e ↦ rw (e, assign) (assign-AreApart snap_ids tasks groups v)
        | inr ((snap, p), e) ↦
            let (i, f) = find_free-some groups (t.snapshot_id ∷ snap_ids) snap p v e in
            let (free, apart) =
              assign-AreApart snap_ids tasks (occupy cell groups snap p)
                (occupy-IsSorted groups snap p v) in
            let rest = (assign cell snap_ids tasks (occupy cell groups snap p)).0 in
            rw (e, assign)
              (
                (
                  (f, snap, i),
                  All-map _ _ rest (λ a w. (w.0, w.1, (shrinks groups snap w.1 p a.node_st w.2).0))
                      free,
                ),
                (
                  All-map _ _ rest
                      (λ a w x.
                        let twice : false ≡ true =
                          taken_once groups snap w.1 p v i
                            (subst (IsIdle (occupy cell groups snap p) w.1) x w.2) in
                        absurd (ground arith))
                      free,
                  apart,
                ),
              )
      ]
