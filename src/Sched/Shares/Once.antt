-- ===== src/Sched/Shares/Once.antt =====
-- getTaskAssignments of sched/scheduler/task_scheduler.go selects no more tasks than there are free nodes, and
-- no task more often than it waits.
use scoot.Base.{
  ℕ, ◌+◌, ◌-◌, ◌≤◌, ◌≡◌, refl, Bool, List, [], ◌∷◌, ◌++◌, arith, subst, sym, ltb, Dict, lookup,
  if-cases, length, length-append, length-take, take, drop, min, pos, pos_part, ◌-ℤ◌,
}
use scoot.Sched.Jobs.{TaskState}
use scoot.Sched.Shares.{
  Priority, required, optional, Quota, Place, JobEntry, tag_of, requestor_of, Batch, Shares, gather,
  no_batch, jobs_or_none, mark_seen, is_seen, add_at, share, is_nil, visit_new, visit_job, visit,
  serve, serve_at, distribute, start, select, required_rounds, optional_rounds,
}
use scoot.Sched.Shares.Counts.{
  count, count-append, count_slices, held, held-add_at, held-set_at, serve-count,
}
use scoot.Sched.Shares.Loops.{visit-keeps, distribute-keeps}
use scoot.Sched.Shares.Waiting.{waiting_all, seen_all, seen_all-le, gather-seen}

pub share-tags_seen :
    (scaled_tasks : ℕ → Priority → ℕ) (p : Priority) (b : Batch) (s : Shares)
    → (share scaled_tasks p b s).tags_seen ≡ s.tags_seen
unfolding share
share-tags_seen scaled_tasks p b s = refl

-- The nodes are given to the tasks one by one.
abbrev pub IsWithin : ℕ → Shares → Type 0
IsWithin free s = length s.tasks + s.num_free ≤ free

share-IsWithin :
    (free : ℕ) (scaled_tasks : ℕ → Priority → ℕ) (p : Priority) (b : Batch) (s : Shares)
    → IsWithin free s
    → IsWithin free (share scaled_tasks p b s)
unfolding share
share-IsWithin free scaled_tasks p b s h =
    let n =
      min s.num_free
        (pos_part (pos (min (length b.unsched) (scaled_tasks b.num_tasks p)) -ℤ b.num_running)) in
    omega (arith, length-append s.tasks (take n b.unsched), length-take n b.unsched)

serve-length :
    (quota : ℕ) (ls : List (List TaskState)) (free : ℕ)
    → length (serve quota ls free).2 + (serve quota ls free).1 ≤ free
unfolding serve
serve-length quota [] free = omega arith
serve-length quota (l ∷ ls) free =
    let n = min free (min quota (length l)) in
    let (left, rest, taken) = serve quota ls (free - n) in
    omega (arith, length-append (take n l) taken, length-take n l, serve-length quota ls (free - n))

module _ (requestors : Dict (List JobEntry)) (scaled_tasks : ℕ → Priority → ℕ)
    (node_quotas : ℕ → Quota → Priority → ℕ → ℕ) where
  visit_job-IsWithin :
      (free : ℕ) (p : Priority) (j : JobEntry) (s : Shares)
      → IsWithin free s
      → IsWithin free (visit_job requestors scaled_tasks node_quotas p j s)
  unfolding visit_job
  visit_job-IsWithin free p j s h =
      let seen = mark_seen (requestor_of j) (tag_of j) s.tags_seen in
      let b =
        gather (tag_of j) s.num_free (jobs_or_none (lookup (requestor_of j) requestors)) no_batch in
      let marked = record s { tags_seen = seen } in
      if-cases (IsWithin free) (is_seen s.tags_seen (requestor_of j) (tag_of j)) s
        (visit_new requestors scaled_tasks node_quotas p j s) (λ e. h)
        (λ e.
          if-cases (IsWithin free) (is_nil b.unsched) marked (share scaled_tasks p b marked)
            (λ i. h) (λ i. share-IsWithin free scaled_tasks p b marked h))

  serve_at-IsWithin :
      (free basis : ℕ) (place : Place) (s : Shares)
      → IsWithin free s
      → IsWithin free (serve_at requestors scaled_tasks node_quotas basis place s)
  unfolding serve_at
  serve_at-IsWithin free basis (k, q, p) s h =
      let quota = node_quotas basis q p (length (s.remaining k p)) in
      let (left, rest, taken) = serve quota (s.remaining k p) s.num_free in
      omega (arith, length-append s.tasks taken, serve-length quota (s.remaining k p) s.num_free)

  -- No more tasks are selected than there are free nodes.
  pub select-length :
      (jobs : List (Priority × JobEntry)) (free : ℕ)
      → length (select requestors scaled_tasks node_quotas jobs free).tasks ≤ free
  unfolding select
  select-length jobs free =
      let s = visit requestors scaled_tasks node_quotas jobs (start free) in
      omega (
        arith,
        distribute-keeps (IsWithin free) requestors scaled_tasks node_quotas s.num_free
            (serve_at-IsWithin free s.num_free) (required_rounds ++ optional_rounds) s
            (visit-keeps (IsWithin free) requestors scaled_tasks node_quotas
              (visit_job-IsWithin free) jobs (start free) (omega arith)),
      )

module _ (f : TaskState → Bool) where
  -- How often the task stands in what the loops keep.
  abbrev kept : Shares → ℕ
  kept s = held f s.remaining + count f s.tasks

  share-count :
      (scaled_tasks : ℕ → Priority → ℕ) (p : Priority) (b : Batch) (s : Shares)
      → kept (share scaled_tasks p b s) ≤ kept s + count f b.unsched
  unfolding share
  share-count scaled_tasks p b s =
      let wanted = pos (min (length b.unsched) (scaled_tasks b.num_tasks p)) -ℤ b.num_running in
      let m = pos_part (wanted -ℤ pos s.num_free) in
      let n = min s.num_free (pos_part wanted) in
      let u = b.unsched in
      let ls = add_at (ltb 0 m) required p (take m (drop n u)) s.remaining in
      omega (
        arith,
        held-add_at f (ltb (n + m) (length u)) optional p (drop (n + m) u) ls,
        held-add_at f (ltb 0 m) required p (take m (drop n u)) s.remaining,
        count-append f s.tasks (take n u),
        count_slices f n m u,
      )

  module _ (requestors : Dict (List JobEntry)) (scaled_tasks : ℕ → Priority → ℕ)
      (node_quotas : ℕ → Quota → Priority → ℕ → ℕ) where
    -- What is kept was waiting in a job whose tag was seen.
    abbrev WasSeen : Shares → Type 0
    WasSeen s = kept s ≤ seen_all f s.tags_seen requestors

    shared-WasSeen :
        (p : Priority) (b : Batch) (s : Shares) (seen : Dict (Dict Bool))
        → seen_all f s.tags_seen requestors + count f b.unsched ≤ seen_all f seen requestors
        → WasSeen s
        → WasSeen (share scaled_tasks p b (record s { tags_seen = seen }))
    shared-WasSeen p b s seen more h =
        let marked = record s { tags_seen = seen } in
        subst (λ x. kept (share scaled_tasks p b marked) ≤ seen_all f x requestors)
          (sym (share-tags_seen scaled_tasks p b marked))
          (omega (arith, share-count scaled_tasks p b marked))

    visit_job-WasSeen :
        (p : Priority) (j : JobEntry) (s : Shares)
        → WasSeen s
        → WasSeen (visit_job requestors scaled_tasks node_quotas p j s)
    unfolding visit_job
    visit_job-WasSeen p j s h =
        let seen = mark_seen (requestor_of j) (tag_of j) s.tags_seen in
        let b =
          gather (tag_of j) s.num_free (jobs_or_none (lookup (requestor_of j) requestors))
            no_batch in
        let marked = record s { tags_seen = seen } in
        if-cases WasSeen (is_seen s.tags_seen (requestor_of j) (tag_of j)) s
          (visit_new requestors scaled_tasks node_quotas p j s) (λ e. h)
          (λ e.
            let more =
              gather-seen f (requestor_of j) (tag_of j) s.num_free s.tags_seen requestors e in
            if-cases WasSeen (is_nil b.unsched) marked (share scaled_tasks p b marked)
              (λ i. omega (arith, more)) (λ i. shared-WasSeen p b s seen more h))

    serve_at-count :
        (basis : ℕ) (place : Place) (s : Shares)
        → kept (serve_at requestors scaled_tasks node_quotas basis place s) ≤ kept s
    unfolding serve_at
    serve_at-count basis (k, q, p) s =
        let quota = node_quotas basis q p (length (s.remaining k p)) in
        let (left, free, taken) = serve quota (s.remaining k p) s.num_free in
        omega (
          arith,
          held-set_at f k p left s.remaining,
          count-append f s.tasks taken,
          serve-count f quota (s.remaining k p) s.num_free,
        )

    -- A task is selected at most as often as it waits in the jobs of the requestors.
    pub select-count :
        (jobs : List (Priority × JobEntry)) (free : ℕ)
        → count f (select requestors scaled_tasks node_quotas jobs free).tasks
          ≤ waiting_all f requestors
    unfolding select
    select-count jobs free =
        let s = visit requestors scaled_tasks node_quotas jobs (start free) in
        let d =
          distribute requestors scaled_tasks node_quotas s.num_free
            (required_rounds ++ optional_rounds) s in
        omega (
          arith,
          seen_all-le f s.tags_seen requestors,
          visit-keeps WasSeen requestors scaled_tasks node_quotas visit_job-WasSeen jobs
              (start free) (omega arith),
          distribute-keeps (λ r. kept r ≤ kept s) requestors scaled_tasks node_quotas s.num_free
              (λ place r h. omega (arith, h, serve_at-count s.num_free place r))
              (required_rounds ++ optional_rounds) s (omega arith),
        )
