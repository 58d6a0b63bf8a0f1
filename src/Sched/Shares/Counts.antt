-- ===== src/Sched/Shares/Counts.antt =====
-- How often a task stands in the lists of getTaskAssignments (sched/scheduler/task_scheduler.go), for any test
-- of tasks.
use scoot.Base.{
  ℕ, zero, suc, ◌+◌, ◌≤◌, ◌≡◌, ◌||◌, not, Bool, true, false, List, [], ◌∷◌, ◌++◌, arith, take, drop,
  if-cases, ◌==◌, length, min, ◌-◌,
}
use native.Mathlib.Nat.{zero-add, suc-add}
use scoot.Sched.Jobs.{TaskState}
use scoot.Sched.Shares.{
  Priority, p0, p1, p2, Remaining, required, optional, Lists, set_at, add_at, put_back, serve,
  is_nil,
}

abbrev pub one_if : Bool → ℕ
one_if true = 1
one_if false = 0

module _ (f : TaskState → Bool) where
  abbrev pub count : List TaskState → ℕ
  count [] = 0
  count (t ∷ ts) = one_if (f t) + count ts

  abbrev pub count_all : List (List TaskState) → ℕ
  count_all [] = 0
  count_all (l ∷ ls) = count l + count_all ls

  pub count-append : (xs ys : List TaskState) → count (xs ++ ys) ≡ count xs + count ys
  count-append [] ys = omega arith
  count-append (x ∷ xs) ys = omega (arith, count-append xs ys)

  pub count_all-append :
      (xs ys : List (List TaskState)) → count_all (xs ++ ys) ≡ count_all xs + count_all ys
  count_all-append [] ys = omega arith
  count_all-append (x ∷ xs) ys = omega (arith, count_all-append xs ys)

  pub count-take-drop :
      (n : ℕ) (xs : List TaskState) → count (take n xs) + count (drop n xs) ≡ count xs
  count-take-drop zero xs = omega arith
  count-take-drop (suc n) [] = omega arith
  count-take-drop (suc n) (x ∷ xs) = omega (arith, count-take-drop n xs)

  pub count_slices :
      (n m : ℕ) (xs : List TaskState)
      → count (take n xs) + count (take m (drop n xs)) + count (drop (n + m) xs) ≡ count xs
  count_slices zero m xs = simp zero-add (count-take-drop m xs)
  count_slices (suc n) zero [] = rw (suc-add n zero) (omega arith)
  count_slices (suc n) (suc m) [] = rw (suc-add n (suc m)) (omega arith)
  count_slices (suc n) m (x ∷ xs) = rw (suc-add n m) (omega (arith, count_slices n m xs))

  -- In all lists together.
  abbrev pub held : Lists → ℕ
  held ls =
      count_all (ls required p0)
      + count_all (ls required p1)
      + count_all (ls required p2)
      + count_all (ls optional p0)
      + count_all (ls optional p1)
      + count_all (ls optional p2)

  pub held-set_at :
      (k : Remaining) (p : Priority) (xs : List (List TaskState)) (ls : Lists)
      → held (set_at k p xs ls) + count_all (ls k p) ≡ held ls + count_all xs
  held-set_at required p0 xs ls = omega arith
  held-set_at required p1 xs ls = omega arith
  held-set_at required p2 xs ls = omega arith
  held-set_at optional p0 xs ls = omega arith
  held-set_at optional p1 xs ls = omega arith
  held-set_at optional p2 xs ls = omega arith

  pub held-add_at :
      (b : Bool) (k : Remaining) (p : Priority) (xs : List TaskState) (ls : Lists)
      → held (add_at b k p xs ls) ≤ held ls + count xs
  held-add_at false k p xs ls = omega arith
  held-add_at true k p xs ls =
      omega (arith, held-set_at k p (ls k p ++ (xs ∷ [])) ls, count_all-append (ls k p) (xs ∷ []))

  put_back-count :
      (n : ℕ) (l : List TaskState) (left : List (List TaskState))
      → count_all (put_back n l left) ≤ count (drop n l) + count_all left
  put_back-count n l left =
      if-cases (λ x. count_all x ≤ count (drop n l) + count_all left)
        (n == 0 || not (is_nil (drop n l))) (drop n l ∷ left) left (λ e. omega arith)
        (λ e. omega arith)

  -- What is taken from the lists is no longer in them.
  pub serve-count :
      (quota : ℕ) (ls : List (List TaskState)) (free : ℕ)
      → count_all (serve quota ls free).0 + count (serve quota ls free).2 ≤ count_all ls
  unfolding serve
  serve-count quota [] free = omega arith
  serve-count quota (l ∷ ls) free =
      let n = min free (min quota (length l)) in
      let (left, rest, taken) = serve quota ls (free - n) in
      omega (
        arith,
        put_back-count n l left,
        count-append (take n l) taken,
        count-take-drop n l,
        serve-count quota ls (free - n),
      )
