-- ===== src/Sched/Shares/Groups.antt =====
-- getTaskAssignments of sched/scheduler/task_scheduler.go finds the tasks of a group, gives it nodes or
-- keeps its tasks.
use scoot.Base.{
  ℕ, ◌+◌, ◌≤◌, ◌<◌, ◌≡◌, ◌⊎◌, refl, inl, inr, String, Bool, true, false, List, [], ◌∷◌, ◌++◌, arith,
  subst, sym, ltb, ltb→lt, if◌then◌else◌, Bool-cases, length, length-append, take, drop, min, ℤ,
  pos, negsuc, pos_part, ◌-ℤ◌, eq_iff,
}
use scoot.Sched.Jobs.{TaskState, get_un_scheduled_tasks}
use scoot.Sched.Shares.{
  same, Priority, required, optional, JobEntry, tag_of, Batch, joined, Shares, Lists, gather,
  add_at, set_at, share, p0, p1, p2,
}
use scoot.Sched.Shares.Counts.{count}
use scoot.Sched.Shares.Waiting.{tagged}
use scoot.Sched.Shares.Rounds.{HasTask, HasTask-append, HasTask-set_at, length-take-min}

-- The tasks that wait in jobs with a tag.
abbrev pub waiting_with : String → List JobEntry → ℕ
waiting_with tag jobs = tagged (λ t. true) tag jobs

gather-grows :
    (tag : String) (avail : ℕ) (jobs : List JobEntry) (b : Batch)
    → length b.unsched ≤ length (gather tag avail jobs b).unsched
unfolding gather
gather-grows tag avail [] b = omega arith
gather-grows tag avail (j ∷ jobs) b = ground (
  arith,
  length-append (get_un_scheduled_tasks j.state.tasks) b.unsched,
  gather-grows tag avail jobs (joined j b),
  gather-grows tag avail jobs b,
)

count-true : (ts : List TaskState) → count (λ t. true) ts ≡ length ts
count-true [] = refl
count-true (t ∷ ts) = omega (arith, count-true ts)

pub gather-pos :
    (tag : String) (avail : ℕ) (jobs : List JobEntry) (b : Batch)
    → 0 < avail
    → 0 < waiting_with tag jobs
    → 0 < length (gather tag avail jobs b).unsched
unfolding gather
gather-pos tag avail [] b f h = absurd (omega arith)
gather-pos tag avail (j ∷ jobs) b f h = ground (
  arith,
  eq_iff tag (tag_of j),
  eq_iff (tag_of j) tag,
  count-true (get_un_scheduled_tasks j.state.tasks),
  length-append (get_un_scheduled_tasks j.state.tasks) b.unsched,
  gather-grows tag avail jobs (joined j b),
  gather-pos tag avail jobs (joined j b) f,
  gather-pos tag avail jobs b f,
)

no_unmet : (w : ℤ) (n : ℕ) → 0 < n → min n (pos_part w) ≡ 0 → pos_part (w -ℤ pos n) ≡ 0
no_unmet (pos k) n f h = ground arith
no_unmet (negsuc k) n f h = ground arith

lt→ltb : (a b : ℕ) → a < b → ltb a b ≡ true
lt→ltb a b h = ground arith

HasTask-left : (xs ys : List (List TaskState)) → HasTask xs → HasTask (xs ++ ys)
HasTask-left [] ys h = absurd h
HasTask-left (x ∷ xs) ys (inl h) = inl h
HasTask-left (x ∷ xs) ys (inr h) = inr (HasTask-left xs ys h)

same_self : (p : Priority) → same p p ≡ true
same_self p0 = refl
same_self p1 = refl
same_self p2 = refl

module _ (p : Priority) (b : Bool) (xs : List TaskState) (ls : Lists) where
  set_here :
      (us : List (List TaskState))
      → HasTask us
      → HasTask (set_at optional p us (add_at b required p xs ls) optional p)
  set_here us h =
      subst (λ x. HasTask (if x then us else add_at b required p xs ls optional p))
        (sym (same_self p)) h

  added-HasTask :
      (k : ℕ) (u : List TaskState)
      → k ≡ 0
      → 0 < length u
      → HasTask
          (add_at (ltb k (length u)) optional p (drop k u) (add_at b required p xs ls) optional p)
  added-HasTask k u e h =
      rw (e, lt→ltb 0 (length u) h)
        (set_here (add_at b required p xs ls optional p ++ (u ∷ []))
          (HasTask-append (add_at b required p xs ls optional p) u h))

required_apart :
    (b : Bool) (p q : Priority) (xs : List TaskState) (ls : Lists)
    → add_at b required p xs ls optional q ≡ ls optional q
required_apart true p q xs ls = refl
required_apart false p q xs ls = refl

kept-HasTask :
    (b c : Bool) (p q : Priority) (xs ys : List TaskState) (ls : Lists)
    → HasTask (ls optional q)
    → HasTask (add_at b optional p ys (add_at c required p xs ls) optional q)
kept-HasTask false c p q xs ys ls h = rw (required_apart c p q xs ls) h
kept-HasTask true c p q xs ys ls h =
    HasTask-set_at optional p q _ (add_at c required p xs ls) (rw (required_apart c p q xs ls) h)
      (λ k. HasTask-left _ (ys ∷ []) k)

-- A group with tasks gets a node or keeps its tasks.
pub share-Ready :
    (scaled_tasks : ℕ → Priority → ℕ) (p : Priority) (b : Batch) (s : Shares)
    → 0 < length b.unsched
    → (0 < length s.tasks) ⊎ (0 < s.num_free)
    → (0 < length (share scaled_tasks p b s).tasks)
      ⊎ ((0 < (share scaled_tasks p b s).num_free)
          × HasTask ((share scaled_tasks p b s).remaining optional p))
unfolding share
share-Ready scaled_tasks p b s u h =
    let wanted = pos (min (length b.unsched) (scaled_tasks b.num_tasks p)) -ℤ b.num_running in
    let m = pos_part (wanted -ℤ pos s.num_free) in
    let n = min s.num_free (pos_part wanted) in
    elim (Bool-cases (ltb 0 n)) [
      | inl e ↦ inl (
          omega (
            arith,
            ltb→lt 0 n e,
            length-append s.tasks (take n b.unsched),
            length-take-min n b.unsched,
          ))
      | inr e ↦
          let zero_n : n ≡ 0 = ground arith in
          elim h [
            | inl more ↦ inl (omega (arith, length-append s.tasks (take n b.unsched)))
            | inr f ↦ inr (
              omega (arith, zero_n),
              added-HasTask p (ltb 0 m) (take m (drop n b.unsched)) s.remaining (n + m) b.unsched
                  (omega (arith, zero_n, no_unmet wanted s.num_free f zero_n)) u,
            )
          ]
    ]

-- What was left for another group stays.
pub share-keeps :
    (scaled_tasks : ℕ → Priority → ℕ) (p q : Priority) (b : Batch) (s : Shares)
    → 0 < length b.unsched
    → (0 < length s.tasks) ⊎ ((0 < s.num_free) × HasTask (s.remaining optional q))
    → (0 < length (share scaled_tasks p b s).tasks)
      ⊎ ((0 < (share scaled_tasks p b s).num_free)
          × HasTask ((share scaled_tasks p b s).remaining optional q))
unfolding share
share-keeps scaled_tasks p q b s u h =
    let wanted = pos (min (length b.unsched) (scaled_tasks b.num_tasks p)) -ℤ b.num_running in
    let m = pos_part (wanted -ℤ pos s.num_free) in
    let n = min s.num_free (pos_part wanted) in
    elim (Bool-cases (ltb 0 n)) [
      | inl e ↦ inl (
          omega (
            arith,
            ltb→lt 0 n e,
            length-append s.tasks (take n b.unsched),
            length-take-min n b.unsched,
          ))
      | inr e ↦
          let zero_n : n ≡ 0 = ground arith in
          elim h [
            | inl more ↦ inl (omega (arith, length-append s.tasks (take n b.unsched)))
            | inr (f, t) ↦ inr (
              omega (arith, zero_n),
              kept-HasTask (ltb (n + m) (length b.unsched)) (ltb 0 m) p q
                  (take m (drop n b.unsched)) (drop (n + m) b.unsched) s.remaining t,
            )
          ]
    ]
