-- ===== src/Sched/Nodes/Disjoint.antt =====
-- sched/scheduler/cluster_state.go says that its maps of healthy, suspended and offlined nodes are
-- disjoint: what that means here, and the moves of a node that keep it.
use scoot.Base.{
  Distinct, insert-Distinct, delete-Distinct, ℕ, ◌≡◌, ◌<◌, inl, inr, String, false, ◌&&◌, none,
  some, str_eq, eq_iff, eq_refl, subst, arith, suc, Dict, lookup, insert, delete, is_some,
  if◌then◌else◌, lookup-insert, lookup-delete, Bool-cases,
}
use scoot.Sched.Nodes.{NodeState, ClusterState, write}

abbrev pub Cells : Type 0
Cells = ℕ → NodeState

abbrev pub Apart : Dict ℕ → Dict ℕ → Type 0
Apart m n = (id : String) → (is_some (lookup id m) && is_some (lookup id n)) ≡ false

-- Each entry holds an allocated node under its id.
abbrev pub Named : Cells → ℕ → Dict ℕ → Type 0
Named cell next m =
    (id : String) (p : ℕ) → lookup id m ≡ some p → ((cell p).node.id ≡ id) × (p < next)

-- Three maps with no id in common, over the same nodes.
pub record AreApart (cell : Cells) (next : ℕ) (x y z : Dict ℕ) : Type 0 where
  pub xy : Apart x y
  pub yz : Apart y z
  pub zx : Apart z x
  pub named_x : Named cell next x
  pub named_y : Named cell next y
  pub named_z : Named cell next z
  pub distinct_x : Distinct x
  pub distinct_y : Distinct y
  pub distinct_z : Distinct z

abbrev pub IsTracked : ClusterState → Type 0
IsTracked c = AreApart c.cell c.next c.nodes c.suspended_nodes c.offlined_nodes

Apart-symm : (m n : Dict ℕ) → Apart m n → Apart n m
Apart-symm m n a j = ground (arith, a j)

Apart-delete : (m n : Dict ℕ) (id : String) → Apart m n → Apart (delete id m) n
Apart-delete m n id a j = rw (lookup-delete id j m) (ground (arith, a j))

Apart-insert :
    (m n : Dict ℕ) (id : String) (p : ℕ) → Apart m n → lookup id n ≡ none → Apart (insert id p m) n
Apart-insert m n id p a h j = rw (lookup-insert id j p m) (elim (Bool-cases (str_eq id j)) [
  | inl e ↦
      subst
        (λ k.
          (is_some (if str_eq id k then some p else lookup k m) && is_some (lookup k n)) ≡ false)
        ((eq_iff id j).0 e) (rw (eq_refl id, h))
  | inr e ↦ rw e (a j)
])

other_none :
    (m n : Dict ℕ) (id : String) (p : ℕ) → Apart m n → lookup id m ≡ some p → lookup id n ≡ none
other_none m n id p a h = ground (arith, a id)

lookup-delete_self : (m : Dict ℕ) (id : String) → lookup id (delete id m) ≡ none
lookup-delete_self m id = rw (lookup-delete id id m, eq_refl id)

Named-insert :
    (cell : Cells) (next : ℕ) (m : Dict ℕ) (id : String) (p : ℕ)
    → Named cell next m
    → (cell p).node.id ≡ id
    → p < next
    → Named cell next (insert id p m)
Named-insert cell next m id p n e b j q h =
    ground (arith, lookup-insert id j p m, eq_iff id j, n j q)

Named-delete :
    (cell : Cells) (next : ℕ) (m : Dict ℕ) (id : String)
    → Named cell next m
    → Named cell next (delete id m)
Named-delete cell next m id n j q h = ground (arith, lookup-delete id j m, n j q)

module _ {cell : Cells} {next : ℕ} {x y z : Dict ℕ} (t : AreApart cell next x y z) where
  pub turn : AreApart cell next y z x
  turn = record {
    xy = t.yz;
    yz = t.zx;
    zx = t.xy;
    named_x = t.named_y;
    named_y = t.named_z;
    named_z = t.named_x;
    distinct_x = t.distinct_y;
    distinct_y = t.distinct_z;
    distinct_z = t.distinct_x;
  }

  pub flip : AreApart cell next y x z
  flip = record {
    xy = Apart-symm x y t.xy;
    yz = Apart-symm z x t.zx;
    zx = Apart-symm y z t.yz;
    named_x = t.named_y;
    named_y = t.named_x;
    named_z = t.named_z;
    distinct_x = t.distinct_y;
    distinct_y = t.distinct_x;
    distinct_z = t.distinct_z;
  }

  -- An entry moves from the first map to the second.
  pub move :
      (id : String) (p : ℕ)
      → lookup id x ≡ some p
      → AreApart cell next (delete id x) (insert id p y) z
  move id p h = record {
    xy = Apart-symm _ _ (
        Apart-insert y (delete id x) id p (Apart-symm _ _ (Apart-delete x y id t.xy))
          (lookup-delete_self x id));
    yz = Apart-insert y z id p t.yz (other_none x z id p (Apart-symm z x t.zx) h);
    zx = Apart-symm _ _ (Apart-delete x z id (Apart-symm z x t.zx));
    named_x = Named-delete cell next x id t.named_x;
    named_y = Named-insert cell next y id p t.named_y (t.named_x id p h).0 (t.named_x id p h).1;
    named_z = t.named_z;
    distinct_x = delete-Distinct id x t.distinct_x;
    distinct_y = insert-Distinct id p y t.distinct_y;
    distinct_z = t.distinct_z;
  }

  -- A write that keeps the node of a cell.
  pub rewrite :
      (p : ℕ) (ns : NodeState) → ns.node ≡ (cell p).node → AreApart (write cell p ns) next x y z
  rewrite p ns e = record {
    xy = t.xy;
    yz = t.yz;
    zx = t.zx;
    named_x = λ id q h. ground (arith, t.named_x id q h);
    named_y = λ id q h. ground (arith, t.named_y id q h);
    named_z = λ id q h. ground (arith, t.named_z id q h);
    distinct_x = t.distinct_x;
    distinct_y = t.distinct_y;
    distinct_z = t.distinct_z;
  }

  -- A new node under an id that no map has.
  pub grow :
      (id : String) (ns : NodeState)
      → ns.node.id ≡ id
      → lookup id y ≡ none
      → lookup id z ≡ none
      → AreApart (write cell next ns) (suc next) (insert id next x) y z
  grow id ns e ny nz = record {
    xy = Apart-insert x y id next t.xy ny;
    yz = t.yz;
    zx = Apart-symm _ _ (Apart-insert x z id next (Apart-symm z x t.zx) nz);
    named_x = λ j q h. ground (arith, lookup-insert id j next x, eq_iff id j, t.named_x j q);
    named_y = λ j q h. ground (arith, t.named_y j q h);
    named_z = λ j q h. ground (arith, t.named_z j q h);
    distinct_x = insert-Distinct id next x t.distinct_x;
    distinct_y = t.distinct_y;
    distinct_z = t.distinct_z;
  }

  -- An entry leaves the first map.
  pub drop : (id : String) → AreApart cell next (delete id x) y z
  drop id = record {
    xy = Apart-delete x y id t.xy;
    yz = t.yz;
    zx = Apart-symm _ _ (Apart-delete x z id (Apart-symm z x t.zx));
    named_x = Named-delete cell next x id t.named_x;
    named_y = t.named_y;
    named_z = t.named_z;
    distinct_x = delete-Distinct id x t.distinct_x;
    distinct_y = t.distinct_y;
    distinct_z = t.distinct_z;
  }
