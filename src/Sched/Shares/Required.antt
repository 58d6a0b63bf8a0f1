-- ===== src/Sched/Shares/Required.antt =====
-- LoopRemaining of getTaskAssignments (sched/scheduler/task_scheduler.go): no node is left for the tasks that
-- are required.
use scoot.Base.{
  ℕ, ◌≤◌, ◌<◌, ◌≡◌, ◌⊎◌, refl, sym, ◌∙◌, inl, inr, Bool, true, false, List, [], ◌∷◌, arith, ltb,
  ltb→lt, ◌==◌, ==_iff, Dict, lookup, if-cases, Bool-cases, length, min, ℤ, pos, negsuc, pos_part,
  ◌-ℤ◌,
}
use mathlib.Core.Path.{fun_ext}
use mathlib.Core.List.{append-nil}
use scoot.Sched.Jobs.{TaskState}
use scoot.Sched.Shares.{
  same, Priority, Remaining, required, optional, Quota, Place, JobEntry, tag_of, requestor_of,
  Batch, Shares, Lists, gather, no_batch, jobs_or_none, mark_seen, is_seen, add_at, set_at, share,
  is_nil, visit_new, visit_job, visit, serve, serve_at, distribute, start, select, optional_rounds,
  p0, p1, p2, adjusted, full,
}
use scoot.Sched.Shares.Loops.{visit-keeps}

-- While nodes are free no task is required.
abbrev pub NoneRequired : Shares → Type 0
NoneRequired s = (s.num_free ≡ 0) ⊎ ((p : Priority) → s.remaining required p ≡ [])

sub_pos : (w : ℤ) (n : ℕ) → 0 < pos_part (w -ℤ pos n) → n ≤ pos_part w
sub_pos (pos k) n h = ground arith
sub_pos (negsuc k) n h = ground arith

add_at-required :
    (b : Bool) (p q : Priority) (xs : List TaskState) (ls : Lists)
    → add_at b optional p xs ls required q ≡ ls required q
add_at-required true p q xs ls = refl
add_at-required false p q xs ls = refl

share-NoneRequired :
    (scaled_tasks : ℕ → Priority → ℕ) (p : Priority) (b : Batch) (s : Shares)
    → NoneRequired s
    → NoneRequired (share scaled_tasks p b s)
unfolding share
share-NoneRequired scaled_tasks p b s (inl e) = inl (omega arith)
share-NoneRequired scaled_tasks p b s (inr k) =
    let wanted = pos (min (length b.unsched) (scaled_tasks b.num_tasks p)) -ℤ b.num_running in
    let m = pos_part (wanted -ℤ pos s.num_free) in
    elim (Bool-cases (ltb 0 m)) [
      | inl e ↦ inl (omega (arith, sub_pos wanted s.num_free (ltb→lt 0 m e)))
      | inr e ↦ inr (λ q. rw e (add_at-required _ p q _ s.remaining ∙ k q))
    ]

module _ (requestors : Dict (List JobEntry)) (scaled_tasks : ℕ → Priority → ℕ)
    (node_quotas : ℕ → Quota → Priority → ℕ → ℕ) where
  visit_job-NoneRequired :
      (p : Priority) (j : JobEntry) (s : Shares)
      → NoneRequired s
      → NoneRequired (visit_job requestors scaled_tasks node_quotas p j s)
  unfolding visit_job
  visit_job-NoneRequired p j s h =
      let seen = mark_seen (requestor_of j) (tag_of j) s.tags_seen in
      let b =
        gather (tag_of j) s.num_free (jobs_or_none (lookup (requestor_of j) requestors)) no_batch in
      let marked = record s { tags_seen = seen } in
      if-cases NoneRequired (is_seen s.tags_seen (requestor_of j) (tag_of j)) s
        (visit_new requestors scaled_tasks node_quotas p j s) (λ e. h)
        (λ e.
          if-cases NoneRequired (is_nil b.unsched) marked (share scaled_tasks p b marked) (λ i. h)
            (λ i. share-NoneRequired scaled_tasks p b marked h))

  set_nil_at :
      (p : Priority) (ls : Lists)
      → ((q : Priority) → ls required q ≡ [])
      → (k : Remaining) (q : Priority) → set_at required p [] ls k q ≡ ls k q
  set_nil_at p ls h optional q = refl
  set_nil_at p ls h required q =
      if-cases (λ x. x ≡ ls required q) (same p q) [] (ls required q) (λ e. sym (h q)) (λ e. refl)

  set_nil :
      (p : Priority) (ls : Lists)
      → ((q : Priority) → ls required q ≡ [])
      → set_at required p [] ls ≡ ls
  set_nil p ls h = fun_ext (λ k. fun_ext (set_nil_at p ls h k))

  -- A place without lists changes nothing.
  serve_nothing :
      (basis : ℕ) (q : Quota) (p : Priority) (s : Shares)
      → ((r : Priority) → s.remaining required r ≡ [])
      → serve_at requestors scaled_tasks node_quotas basis (required, q, p) s ≡ s
  unfolding serve_at serve
  serve_nothing basis q p s h = rw (h p, append-nil s.tasks, set_nil p s.remaining h)

  distribute_done :
      (basis : ℕ) (places : List Place) (s : Shares)
      → s.num_free ≡ 0
      → distribute requestors scaled_tasks node_quotas basis places s ≡ s
  unfolding distribute
  distribute_done basis [] s e = refl
  distribute_done basis (place ∷ places) s e = rw ((==_iff s.num_free 0).1 e)

  skip_round :
      (basis : ℕ) (q : Quota) (p : Priority) (places : List Place) (s : Shares)
      → NoneRequired s
      → distribute requestors scaled_tasks node_quotas basis ((required, q, p) ∷ places) s
        ≡ distribute requestors scaled_tasks node_quotas basis places s
  unfolding distribute
  skip_round basis q p places s (inl e) =
      rw (distribute_done basis places s e, (==_iff s.num_free 0).1 e)
  skip_round basis q p places s (inr h) = rw (serve_nothing basis q p s h) (
      if-cases (λ x. x ≡ distribute requestors scaled_tasks node_quotas basis places s)
        (s.num_free == 0) s (distribute requestors scaled_tasks node_quotas basis places s)
        (λ e. sym (distribute_done basis places s ((==_iff s.num_free 0).0 e))) (λ e. refl))

  -- The rounds over the required tasks do nothing.
  pub select-optional :
      (jobs : List (Priority × JobEntry)) (free : ℕ)
      → select requestors scaled_tasks node_quotas jobs free ≡ (
          let s = visit requestors scaled_tasks node_quotas jobs (start free) in
          distribute requestors scaled_tasks node_quotas s.num_free optional_rounds s)
  unfolding select
  select-optional jobs free =
      let s = visit requestors scaled_tasks node_quotas jobs (start free) in
      let h : NoneRequired s =
        visit-keeps NoneRequired requestors scaled_tasks node_quotas visit_job-NoneRequired jobs
          (start free) (inr (λ p. refl)) in
      let n = s.num_free in
      skip_round n adjusted p2 _ s h
      ∙ skip_round n adjusted p1 _ s h
      ∙ skip_round n adjusted p0 _ s h
      ∙ skip_round n full p2 _ s h
      ∙ skip_round n full p1 _ s h
      ∙ skip_round n full p0 optional_rounds s h
