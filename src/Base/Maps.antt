-- ===== src/Base/Maps.antt =====
-- A Go map with text keys, as an association list. A new key goes to the end and a known key keeps
-- its place, so that the list is one order in which Go may range over the map.
use Prim.Native.String.{String}
use text.Mathlib.Text.{◌==◌}
use text.Mathlib.TextEquality.{eq_iff}
use text.Mathlib.TextPositions.{eq_refl}
use mathlib.Core.Path.{◌≡◌, refl, sym, ◌∙◌, subst}
use mathlib.Core.Logic.{inl, inr}
use mathlib.Core.Bool.{Bool, true, false}
use mathlib.Core.Option.{Option, none, some}
use mathlib.Core.List.{List, [], ◌∷◌, ◌++◌, append-nil, append_assoc}
use native.Mathlib.Omega.{arith}
use scoot.Base.Tests.{if◌then◌else◌, Bool-cases}
use scoot.Base.Lists.{All}

abbrev pub Dict {ℓ} : Type ℓ → Type ℓ
Dict V = List (String × V)

module _ {ℓ} {V : Type ℓ} where
  unfoldable pub lookup : String → Dict V → Option V
  lookup key [] = none
  lookup key ((x, held) ∷ rest) = if x == key then some held else lookup key rest

  unfoldable pub insert : String → V → Dict V → Dict V
  insert k v [] = (k, v) ∷ []
  insert k v ((j, w) ∷ m) = if j == k then (j, v) ∷ m else (j, w) ∷ insert k v m

  unfoldable pub delete : String → Dict V → Dict V
  delete k [] = []
  delete k ((j, w) ∷ m) = let rest = delete k m in if j == k then rest else (j, w) ∷ rest

  abbrev pub keys : Dict V → List String
  keys [] = []
  keys ((j, w) ∷ m) = j ∷ keys m

  abbrev pub is_some : Option V → Bool
  is_some none = false
  is_some (some v) = true

  -- Reading back after a write.
  pub lookup-insert :
      (key other : String) (new : V) (d : Dict V)
      → lookup other (insert key new d) ≡ (if key == other then some new else lookup other d)
  unfolding insert lookup
  lookup-insert key other new [] = refl
  lookup-insert key other new ((x, old) ∷ rest) =
      let ih = lookup-insert key other new rest in
      ground (arith, ih, eq_iff x other, eq_iff x key, eq_iff key other)

  pub lookup-delete :
      (k j : String) (m : Dict V) → lookup j (delete k m) ≡ (if k == j then none else lookup j m)
  unfolding lookup delete
  lookup-delete k j [] = ground arith
  lookup-delete k j ((i, w) ∷ m) =
      ground (arith, eq_iff k j, eq_iff i k, eq_iff i j, lookup-delete k j m)

  pub insert-insert : (k : String) (v w : V) (m : Dict V) → insert k v (insert k w m) ≡ insert k v m
  unfolding insert
  insert-insert k v w [] = ground (arith, eq_refl k)
  insert-insert k v w ((i, u) ∷ m) = ground (arith, insert-insert k v w m)

  -- Writing what is there changes nothing.
  pub insert_known : (k : String) (v : V) (m : Dict V) → lookup k m ≡ some v → insert k v m ≡ m
  unfolding lookup insert
  insert_known k v [] h = ground arith
  insert_known k v ((i, w) ∷ m) h = ground (arith, insert_known k v m)

  pub All-insert {κ} :
      (P : V → Type κ) (k : String) (v : V) (m : Dict V)
      → P v
      → All (λ e. P e.1) m
      → All (λ e. P e.1) (insert k v m)
  unfolding insert
  All-insert P k v [] h a = (h, tt)
  All-insert P k v ((i, w) ∷ m) h a = elim (Bool-cases (i == k)) [
    | inl e ↦ rw e (h, a.1)
    | inr e ↦ rw e (a.0, All-insert P k v m h a.1)
  ]

  pub All-delete {κ} :
      (P : V → Type κ) (k : String) (m : Dict V)
      → All (λ e. P e.1) m
      → All (λ e. P e.1) (delete k m)
  unfolding delete
  All-delete P k [] a = tt
  All-delete P k ((i, w) ∷ m) a = elim (Bool-cases (i == k)) [
    | inl e ↦ rw e (All-delete P k m a.1)
    | inr e ↦ rw e (a.0, All-delete P k m a.1)
  ]

  pub All-lookup {κ} :
      (P : V → Type κ) (k : String) (v : V) (m : Dict V)
      → All (λ e. P e.1) m
      → lookup k m ≡ some v
      → P v
  unfolding lookup
  All-lookup P k v [] a h = ground arith
  All-lookup P k v ((i, w) ∷ m) a h = elim (Bool-cases (i == k)) [
    | inl e ↦ let q : w ≡ v = ground arith in subst P q a.0
    | inr e ↦ All-lookup P k v m a.1 (ground arith)
  ]

  -- The keys of a map are distinct: the list stands for a Go map.
  abbrev pub Absent : String → Dict V → Type 0
  Absent k [] = Unit
  Absent k ((j, w) ∷ m) = ((j == k) ≡ false) × Absent k m

  abbrev pub Distinct : Dict V → Type 0
  Distinct [] = Unit
  Distinct ((j, w) ∷ m) = Absent j m × Distinct m

  Absent-insert :
      (i k : String) (v : V) (m : Dict V) → (k == i) ≡ false → Absent i m → Absent i (insert k v m)
  unfolding insert
  Absent-insert i k v [] h a = (h, tt)
  Absent-insert i k v ((j, w) ∷ m) h a = elim (Bool-cases (j == k)) [
    | inl e ↦ rw e a
    | inr e ↦ rw e (a.0, Absent-insert i k v m h a.1)
  ]

  pub insert-Distinct : (k : String) (v : V) (m : Dict V) → Distinct m → Distinct (insert k v m)
  unfolding insert
  insert-Distinct k v [] d = (tt, tt)
  insert-Distinct k v ((j, w) ∷ m) d = elim (Bool-cases (j == k)) [
    | inl e ↦ rw e d
    | inr e ↦ rw e (
      Absent-insert j k v m (ground (arith, eq_iff j k, eq_iff k j)) d.0,
      insert-Distinct k v m d.1,
    )
  ]

  Absent-delete : (i k : String) (m : Dict V) → Absent i m → Absent i (delete k m)
  unfolding delete
  Absent-delete i k [] a = tt
  Absent-delete i k ((j, w) ∷ m) a = elim (Bool-cases (j == k)) [
    | inl e ↦ rw e (Absent-delete i k m a.1)
    | inr e ↦ rw e (a.0, Absent-delete i k m a.1)
  ]

  pub delete-Distinct : (k : String) (m : Dict V) → Distinct m → Distinct (delete k m)
  unfolding delete
  delete-Distinct k [] d = tt
  delete-Distinct k ((j, w) ∷ m) d = elim (Bool-cases (j == k)) [
    | inl e ↦ rw e (delete-Distinct k m d.1)
    | inr e ↦ rw e (Absent-delete j k m d.0, delete-Distinct k m d.1)
  ]

  -- `for key, value := range m { out[key] = value }`.
  pub copy_into : Dict V → Dict V → Dict V
  copy_into out [] = out
  copy_into out ((k, v) ∷ m) = copy_into (insert k v out) m

  insert_fresh : (k : String) (v : V) (m : Dict V) → Absent k m → insert k v m ≡ m ++ (k, v) ∷ []
  unfolding insert
  insert_fresh k v [] a = refl
  insert_fresh k v ((j, w) ∷ m) a = rw (a.0, insert_fresh k v m a.1)

  abbrev Apart : Dict V → Dict V → Type 0
  Apart out [] = Unit
  Apart out ((k, v) ∷ m) = Absent k out × Apart out m

  Absent-append :
      (i k : String) (v : V) (m : Dict V)
      → (k == i) ≡ false
      → Absent i m
      → Absent i (m ++ (k, v) ∷ [])
  Absent-append i k v [] h a = (h, tt)
  Absent-append i k v ((j, w) ∷ m) h a = (a.0, Absent-append i k v m h a.1)

  Apart-append :
      (k : String) (v : V) (out m : Dict V)
      → Absent k m
      → Apart out m
      → Apart (out ++ (k, v) ∷ []) m
  Apart-append k v out [] d a = tt
  Apart-append k v out ((i, w) ∷ m) d a = (
    Absent-append i k v out (ground (arith, eq_iff i k, eq_iff k i)) a.0,
    Apart-append k v out m d.1 a.1,
  )

  copy_into-append : (out m : Dict V) → Distinct m → Apart out m → copy_into out m ≡ out ++ m
  unfolding copy_into
  copy_into-append out [] d a = sym (append-nil out)
  copy_into-append out ((k, v) ∷ m) d a = rw (insert_fresh k v out a.0) (
      copy_into-append (out ++ (k, v) ∷ []) m d.1 (Apart-append k v out m d.0 a.1)
      ∙ append_assoc out ((k, v) ∷ []) m)

  Apart-nil : (m : Dict V) → Apart [] m
  Apart-nil [] = tt
  Apart-nil (x ∷ m) = (tt, Apart-nil m)

  -- A copy made by ranging over a map is the map.
  pub copy_into-nil : (m : Dict V) → Distinct m → copy_into [] m ≡ m
  copy_into-nil m d = copy_into-append [] m d (Apart-nil m)

  unshadow {κ} :
      (Q : V → Type κ) (i : String) (w : V) (m n : Dict V)
      → Absent i n
      → All (λ j. (v : V) → lookup j ((i, w) ∷ m) ≡ some v → Q v) (keys n)
      → All (λ j. (v : V) → lookup j m ≡ some v → Q v) (keys n)
  unfolding lookup
  unshadow Q i w m [] a h = tt
  unshadow Q i w m ((j, u) ∷ n) a h =
      (λ v e. h.0 v (ground (arith, eq_iff i j, eq_iff j i)), unshadow Q i w m n a.1 h.1)

  -- What holds of the value at each key holds of every entry.
  pub All-keys {κ} :
      (Q : V → Type κ) (m : Dict V)
      → Distinct m
      → All (λ j. (v : V) → lookup j m ≡ some v → Q v) (keys m)
      → All (λ e. Q e.1) m
  unfolding lookup
  All-keys Q [] d h = tt
  All-keys Q ((i, w) ∷ m) d h =
      (h.0 w (rw (eq_refl i)), All-keys Q m d.1 (unshadow Q i w m m d.0 h.1))

  shadowed :
      (i : String) (w : V) (m n : Dict V)
      → Absent i n
      → All (λ e. lookup e.0 m ≡ some e.1) n
      → All (λ e. lookup e.0 ((i, w) ∷ m) ≡ some e.1) n
  unfolding lookup
  shadowed i w m [] a h = tt
  shadowed i w m ((j, u) ∷ n) a h =
      (ground (arith, h.0, eq_iff i j, eq_iff j i), shadowed i w m n a.1 h.1)

  -- Each entry is what its key is mapped to.
  pub Distinct-entries : (m : Dict V) → Distinct m → All (λ e. lookup e.0 m ≡ some e.1) m
  unfolding lookup
  Distinct-entries [] d = tt
  Distinct-entries ((i, w) ∷ m) d = (rw (eq_refl i), shadowed i w m m d.0 (Distinct-entries m d.1))
