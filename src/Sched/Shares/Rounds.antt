-- ===== src/Sched/Shares/Rounds.antt =====
-- LoopRemaining of getTaskAssignments (sched/scheduler/task_scheduler.go) selects a task if a node is free and an
-- optional task is left.
use scoot.Base.{
  ℕ, zero, suc, ◌+◌, ◌-◌, ◌<◌, ◌≡◌, ◌⊎◌, inl, inr, false, List, [], ◌∷◌, ◌++◌, arith, subst, sym,
  ltb, ltb→lt, ◌==◌, Dict, Bool-cases, length, length-append, take, min,
}
use scoot.Sched.Jobs.{TaskState}
use scoot.Sched.Shares.{
  Priority, Remaining, required, optional, Quota, full, Place, JobEntry, Shares, Lists, set_at,
  serve, put_back, serve_at, distribute, required_rounds, optional_rounds, p0, p1, p2,
}
use scoot.Sched.Shares.Loops.{distribute-keeps}

-- One of the lists has a task.
abbrev pub HasTask : List (List TaskState) → Type 0
HasTask [] = ⊥
HasTask (l ∷ ls) = (0 < length l) ⊎ HasTask ls

pub HasTask-append :
    (xs : List (List TaskState)) (u : List TaskState) → 0 < length u → HasTask (xs ++ (u ∷ []))
HasTask-append [] u h = inl h
HasTask-append (x ∷ xs) u h = inr (HasTask-append xs u h)

pub length-take-min : (n : ℕ) (xs : List TaskState) → length (take n xs) ≡ min n (length xs)
length-take-min zero xs = omega arith
length-take-min (suc n) [] = omega arith
length-take-min (suc n) (x ∷ xs) = omega (arith, length-take-min n xs)

-- Each task that is taken has a node.
serve-length :
    (quota : ℕ) (ls : List (List TaskState)) (free : ℕ)
    → length (serve quota ls free).2 + (serve quota ls free).1 ≡ free
unfolding serve
serve-length quota [] free = omega arith
serve-length quota (l ∷ ls) free =
    let n = min free (min quota (length l)) in
    omega (
      arith,
      length-append (take n l) (serve quota ls (free - n)).2,
      length-take-min n l,
      serve-length quota ls (free - n),
    )

-- Lists with a task give one up if the quota and the free nodes allow it.
serve-takes :
    (quota : ℕ) (ls : List (List TaskState)) (free : ℕ)
    → 0 < quota
    → 0 < free
    → HasTask ls
    → 0 < length (serve quota ls free).2
unfolding serve
serve-takes quota [] free q f h = absurd h
serve-takes quota ([] ∷ ls) free q f (inl h) = absurd (omega arith)
serve-takes quota ([] ∷ ls) free q f (inr h) =
    let n = min free (min quota 0) in
    omega (
      arith,
      length-append (take {A = TaskState} n []) (serve quota ls (free - n)).2,
      serve-takes quota ls (free - n) q (omega arith) h,
    )
serve-takes quota ((t ∷ l) ∷ ls) free q f h =
    let n = min free (min quota (length (t ∷ l))) in
    omega (
      arith,
      length-append (take n (t ∷ l)) (serve quota ls (free - n)).2,
      length-take-min n (t ∷ l),
    )

put_back-HasTask :
    (n : ℕ) (l : List TaskState) (left : List (List TaskState))
    → n ≡ 0
    → (0 < length l) ⊎ HasTask left
    → HasTask (put_back n l left)
put_back-HasTask n l left e h = subst (λ m. HasTask (put_back m l left)) (sym e) h

-- If none is taken, the lists keep their tasks.
serve-keeps :
    (quota : ℕ) (ls : List (List TaskState)) (free : ℕ)
    → HasTask ls
    → (0 < length (serve quota ls free).2) ⊎ HasTask (serve quota ls free).0
unfolding serve
serve-keeps quota [] free h = absurd h
serve-keeps quota (l ∷ ls) free h =
    let n = min free (min quota (length l)) in
    let taken = (serve quota ls (free - n)).2 in
    elim (Bool-cases (ltb 0 n)) [
      | inl e ↦
          inl (omega (arith, length-append (take n l) taken, length-take-min n l, ltb→lt 0 n e))
      | inr e ↦
          let none_here : n ≡ 0 = ground arith in
          elim h [
            | inl some_here ↦ inr (put_back-HasTask n l _ none_here (inl some_here))
            | inr later ↦ elim (serve-keeps quota ls (free - n) later) [
              | inl some_taken ↦ inl (omega (arith, length-append (take n l) taken, some_taken))
              | inr k ↦ inr (put_back-HasTask n l _ none_here (inr k))
            ]
          ]
    ]

pub HasTask-set_at :
    (k : Remaining) (r p : Priority) (xs : List (List TaskState)) (ls : Lists)
    → HasTask (ls optional p)
    → (HasTask (ls k r) → HasTask xs)
    → HasTask (set_at k r xs ls optional p)
HasTask-set_at required r p xs ls h g = h
HasTask-set_at optional p0 p0 xs ls h g = g h
HasTask-set_at optional p1 p1 xs ls h g = g h
HasTask-set_at optional p2 p2 xs ls h g = g h
HasTask-set_at optional p0 p1 xs ls h g = h
HasTask-set_at optional p0 p2 xs ls h g = h
HasTask-set_at optional p1 p0 xs ls h g = h
HasTask-set_at optional p1 p2 xs ls h g = h
HasTask-set_at optional p2 p0 xs ls h g = h
HasTask-set_at optional p2 p1 xs ls h g = h

module _ (requestors : Dict (List JobEntry)) (scaled_tasks : ℕ → Priority → ℕ)
    (node_quotas : ℕ → Quota → Priority → ℕ → ℕ) where
  -- A task is selected, or one of a priority can be.
  abbrev pub Ready : Priority → Shares → Type 0
  Ready p s = (0 < length s.tasks) ⊎ ((0 < s.num_free) × HasTask (s.remaining optional p))

  serve_at-Ready :
      (basis : ℕ) (place : Place) (p : Priority) (s : Shares)
      → Ready p s
      → Ready p (serve_at requestors scaled_tasks node_quotas basis place s)
  unfolding serve_at
  serve_at-Ready basis (k, q, r) p s h =
      let ls = s.remaining k r in
      let quota = node_quotas basis q r (length ls) in
      let (left, free, taken) = serve quota ls s.num_free in
      elim (Bool-cases (ltb 0 (length taken))) [
        | inl e ↦ inl (omega (arith, length-append s.tasks taken, ltb→lt 0 (length taken) e))
        | inr e ↦ elim h [
          | inl more ↦ inl (omega (arith, length-append s.tasks taken))
          | inr (f, t) ↦
              let none_taken : length taken ≡ 0 = ground arith in
              inr (
                omega (arith, none_taken, serve-length quota ls s.num_free),
                HasTask-set_at k r p left s.remaining t (λ u.
                    elim (serve-keeps quota ls s.num_free u) [
                      | inl m ↦ absurd (omega (arith, m, none_taken))
                      | inr m ↦ m
                    ]),
              )
        ]
      ]

  serve_at-grows :
      (basis : ℕ) (place : Place) (s : Shares)
      → 0 < length s.tasks
      → 0 < length (serve_at requestors scaled_tasks node_quotas basis place s).tasks
  unfolding serve_at
  serve_at-grows basis (k, q, r) s h = omega (
    arith,
    length-append s.tasks
        (serve (node_quotas basis q r (length (s.remaining k r))) (s.remaining k r) s.num_free).2,
  )

  serve_at-takes :
      (basis : ℕ) (p : Priority) (s : Shares)
      → 0 < node_quotas basis full p (length (s.remaining optional p))
      → Ready p s
      → 0 < length (serve_at requestors scaled_tasks node_quotas basis (optional, full, p) s).tasks
  unfolding serve_at
  serve_at-takes basis p s q h =
      let ls = s.remaining optional p in
      let quota = node_quotas basis full p (length ls) in
      elim h [
        | inl more ↦ omega (arith, length-append s.tasks (serve quota ls s.num_free).2)
        | inr (f, t) ↦ omega (
          arith,
          length-append s.tasks (serve quota ls s.num_free).2,
          serve-takes quota ls s.num_free q f t,
        )
      ]

  -- Where the priority has its full quota.
  abbrev pub Passes : Priority → List Place → Type 0
  Passes p [] = ⊥
  Passes p (place ∷ places) = (place ≡ (optional, full, p)) ⊎ Passes p places

  pub optional_rounds-Passes : (p : Priority) → Passes p (required_rounds ++ optional_rounds)
  optional_rounds-Passes p0 = search (inl, inr) depth 20
  optional_rounds-Passes p1 = search (inl, inr) depth 20
  optional_rounds-Passes p2 = search (inl, inr) depth 20

  pub tasks_grow :
      (basis : ℕ) (places : List Place) (s : Shares)
      → 0 < length s.tasks
      → 0 < length (distribute requestors scaled_tasks node_quotas basis places s).tasks
  tasks_grow basis places s h =
      distribute-keeps (λ r. 0 < length r.tasks) requestors scaled_tasks node_quotas basis
        (serve_at-grows basis) places s h

  -- The full quota for lists is not 0 while nodes are free.
  abbrev pub IsGenerous : Type 0
  IsGenerous =
      (basis lists : ℕ) (p : Priority) → 0 < basis → 0 < lists → 0 < node_quotas basis full p lists

  length-HasTask : (ls : List (List TaskState)) → HasTask ls → 0 < length ls
  length-HasTask [] h = absurd h
  length-HasTask (l ∷ ls) h = omega arith

  pub distribute-takes :
      (basis : ℕ) (p : Priority) (places : List Place) (s : Shares)
      → IsGenerous
      → 0 < basis
      → Passes p places
      → Ready p s
      → 0 < length (distribute requestors scaled_tasks node_quotas basis places s).tasks
  unfolding distribute
  distribute-takes basis p [] s g b h r = absurd h
  distribute-takes basis p (place ∷ places) s g b h (inl more) =
      tasks_grow basis (place ∷ places) s more
  distribute-takes basis p (place ∷ places) s g b h (inr (f, t)) =
      let running : (s.num_free == 0) ≡ false = ground arith in
      rw running (elim h [
        | inl e ↦
            tasks_grow basis places (serve_at requestors scaled_tasks node_quotas basis place s) (
              subst (λ x. 0 < length (serve_at requestors scaled_tasks node_quotas basis x s).tasks)
                (sym e)
                (serve_at-takes basis p s
                  (g basis (length (s.remaining optional p)) p b
                    (length-HasTask (s.remaining optional p) t))
                  (inr (f, t))))
        | inr later ↦
            distribute-takes basis p places _ g b later
              (serve_at-Ready basis place p s (inr (f, t)))
      ])
