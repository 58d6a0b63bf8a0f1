-- ===== src/Cluster/State/Ids.antt =====
-- The ids of the views of cloud/cluster/state.go, and updates that a subscriber can apply.
use scoot.Base.{
  ◌≡◌, refl, sym, ap, ◌∙◌, subst, inl, inr, String, Bool, true, false, not, ◌&&◌, ◌||◌, Option,
  some, List, [], ◌∷◌, ◌++◌, map, arith, str_eq, eq_iff, eq_refl, lookup, insert, delete, is_some,
  lookup-insert, lookup-delete, Bool-cases,
}
use mathlib.Core.List.{Permᴰ}
use scoot.Cluster.Node.{Node, NodeUpdate, new_add}
use scoot.Cluster.State.{Nodes, is_applicable, apply_node, removal}

abbrev pub present : String → Nodes → Bool
present i nodes = is_some (lookup i nodes)

abbrev pub has_id : String → List Node → Bool
has_id i [] = false
has_id i (n ∷ ns) = str_eq n.id i || has_id i ns

abbrev pub HasDistinctIds : List Node → Type 0
HasDistinctIds [] = Unit
HasDistinctIds (n ∷ ns) = (has_id n.id ns ≡ false) × HasDistinctIds ns

-- A subscriber that applies the updates finds each of them applicable.
abbrev pub AreApplicable : Nodes → List NodeUpdate → Type 0
AreApplicable s [] = Unit
AreApplicable s (u ∷ us) = (is_applicable s u ≡ true) × AreApplicable (apply_node s u) us

unfoldable pub apply_nodes : Nodes → List NodeUpdate → Nodes
apply_nodes s [] = s
apply_nodes s (u ∷ us) = apply_nodes (apply_node s u) us

-- It ends with the ids of the nodes `t`.
abbrev pub Follows : Nodes → List NodeUpdate → Nodes → Type 0
Follows s us t = AreApplicable s us × ((i : String) → present i (apply_nodes s us) ≡ present i t)

pub present-insert :
    (i k : String) (v : Option Node) (s : Nodes)
    → present i (insert k v s) ≡ (str_eq k i || present i s)
present-insert i k v s = rw (lookup-insert k i v s) (ground arith)

pub present-delete :
    (i k : String) (s : Nodes) → present i (delete k s) ≡ (not (str_eq k i) && present i s)
present-delete i k s = rw (lookup-delete k i s) (ground arith)

pub or_assoc : (a b c : Bool) → (a || (b || c)) ≡ ((a || b) || c)
or_assoc a b c = ground arith

without_both : (a b c : Bool) → (not a && (not b && c)) ≡ (not (b || a) && c)
without_both a b c = ground arith

pub or_swap : (a b c : Bool) → (a || (b || c)) ≡ (b || (a || c))
or_swap a b c = ground arith

pub has_id-Permᴰ : (i : String) {xs ys : List Node} → Permᴰ xs ys → has_id i xs ≡ has_id i ys
has_id-Permᴰ i Permᴰ.nil = refl
has_id-Permᴰ i (Permᴰ.cons {b = b} e d) = rw e (ap (λ h. str_eq b.id i || h) (has_id-Permᴰ i d))
has_id-Permᴰ i (Permᴰ.swap {a' = a} {b' = b} {l = l} e f) =
    rw (e, f) (or_swap (str_eq b.id i) (str_eq a.id i) (has_id i l))
has_id-Permᴰ i (Permᴰ.trans d e) = has_id-Permᴰ i d ∙ has_id-Permᴰ i e

swapped : (a b : Node) (l : List Node) → HasDistinctIds (a ∷ b ∷ l) → HasDistinctIds (b ∷ a ∷ l)
swapped a b l h =
    (ground (arith, eq_iff a.id b.id, eq_iff b.id a.id, h.0, h.1.0), (ground (arith, h.0), h.1.1))

pub HasDistinctIds-Permᴰ : {xs ys : List Node} → Permᴰ xs ys → HasDistinctIds ys → HasDistinctIds xs
HasDistinctIds-Permᴰ Permᴰ.nil h = tt
HasDistinctIds-Permᴰ (Permᴰ.cons {b = b} e d) h =
    (rw (e, has_id-Permᴰ b.id d) h.0, HasDistinctIds-Permᴰ d h.1)
HasDistinctIds-Permᴰ (Permᴰ.swap {a = p} {b = q} {a' = a} {b' = b} {l = l} e f) h =
    subst (λ x. HasDistinctIds (x ∷ q ∷ l)) (sym e)
      (subst (λ y. HasDistinctIds (b ∷ y ∷ l)) (sym f) (swapped a b l h))
HasDistinctIds-Permᴰ (Permᴰ.trans d e) h = HasDistinctIds-Permᴰ d (HasDistinctIds-Permᴰ e h)

-- The id of a later node is another one.
other_id :
    (i : String) (x : Node) (xs : List Node)
    → has_id x.id xs ≡ false
    → has_id i xs ≡ true
    → str_eq x.id i ≡ false
other_id i x xs d m = elim (Bool-cases (str_eq x.id i)) [
  | inl e ↦
      let same : has_id x.id xs ≡ has_id i xs = ap (λ j. has_id j xs) ((eq_iff x.id i).0 e) in
      absurd (ground (arith, same))
  | inr e ↦ e
]

pub adds-AreApplicable :
    (s : Nodes) (xs : List Node)
    → HasDistinctIds xs
    → ((i : String) → has_id i xs ≡ true → present i s ≡ false)
    → AreApplicable s (map new_add xs)
adds-AreApplicable s [] d h = tt
adds-AreApplicable s (x ∷ xs) d h = (
  rw (h x.id (rw (eq_refl x.id))),
  adds-AreApplicable (insert x.id (some x) s) xs d.1 (λ i m.
      rw (present-insert i x.id (some x) s, other_id i x xs d.0 m)
        (h i (rw (other_id i x xs d.0 m) m))),
)

pub apply_nodes-adds :
    (i : String) (s : Nodes) (xs : List Node)
    → present i (apply_nodes s (map new_add xs)) ≡ (has_id i xs || present i s)
unfolding apply_nodes
apply_nodes-adds i s [] = refl
apply_nodes-adds i s (x ∷ xs) =
    apply_nodes-adds i (insert x.id (some x) s) xs
    ∙ rw (present-insert i x.id (some x) s) (
        or_swap (has_id i xs) (str_eq x.id i) (present i s)
        ∙ or_assoc (str_eq x.id i) (has_id i xs) (present i s))

pub removes-AreApplicable :
    (s : Nodes) (xs : List Node)
    → HasDistinctIds xs
    → ((i : String) → has_id i xs ≡ true → present i s ≡ true)
    → AreApplicable s (map removal xs)
removes-AreApplicable s [] d h = tt
removes-AreApplicable s (x ∷ xs) d h = (
  h x.id (rw (eq_refl x.id)),
  removes-AreApplicable (delete x.id s) xs d.1 (λ i m.
      rw (present-delete i x.id s, other_id i x xs d.0 m) (h i (rw (other_id i x xs d.0 m) m))),
)

pub apply_nodes-removes :
    (i : String) (s : Nodes) (xs : List Node)
    → present i (apply_nodes s (map removal xs)) ≡ (not (has_id i xs) && present i s)
unfolding apply_nodes
apply_nodes-removes i s [] = refl
apply_nodes-removes i s (x ∷ xs) =
    apply_nodes-removes i (delete x.id s) xs
    ∙ rw (present-delete i x.id s) (without_both (has_id i xs) (str_eq x.id i) (present i s))

pub apply_nodes-append :
    (s : Nodes) (us vs : List NodeUpdate)
    → apply_nodes s (us ++ vs) ≡ apply_nodes (apply_nodes s us) vs
unfolding apply_nodes
apply_nodes-append s [] vs = refl
apply_nodes-append s (u ∷ us) vs = apply_nodes-append (apply_node s u) us vs

pub AreApplicable-append :
    (s : Nodes) (us vs : List NodeUpdate)
    → AreApplicable s us
    → AreApplicable (apply_nodes s us) vs
    → AreApplicable s (us ++ vs)
unfolding apply_nodes
AreApplicable-append s [] vs h k = k
AreApplicable-append s (u ∷ us) vs h k = (h.0, AreApplicable-append (apply_node s u) us vs h.1 k)
