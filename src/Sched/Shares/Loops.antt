-- ===== src/Sched/Shares/Loops.antt =====
-- Invariants of the two loops of getTaskAssignments (sched/scheduler/task_scheduler.go).
use scoot.Base.{ℕ, List, [], ◌∷◌, Dict, ◌==◌, if-cases}
use scoot.Sched.Shares.{
  Priority, Quota, Place, JobEntry, Shares, visit_job, visit, serve_at, distribute,
}

module _ {ℓ} (P : Shares → Type ℓ) (requestors : Dict (List JobEntry))
    (scaled_tasks : ℕ → Priority → ℕ) (node_quotas : ℕ → Quota → Priority → ℕ → ℕ) where
  pub visit-keeps :
      ((p : Priority) (j : JobEntry) (s : Shares)
        → P s
        → P (visit_job requestors scaled_tasks node_quotas p j s))
      → (jobs : List (Priority × JobEntry)) (s : Shares) → P s
      → P (visit requestors scaled_tasks node_quotas jobs s)
  unfolding visit
  visit-keeps keep [] s h = h
  visit-keeps keep ((p, j) ∷ jobs) s h =
      if-cases P (s.num_free == 0) s
        (visit requestors scaled_tasks node_quotas jobs
          (visit_job requestors scaled_tasks node_quotas p j s))
        (λ e. h) (λ e. visit-keeps keep jobs _ (keep p j s h))

  pub distribute-keeps :
      (basis : ℕ)
      → ((place : Place) (s : Shares)
          → P s
          → P (serve_at requestors scaled_tasks node_quotas basis place s))
      → (places : List Place) (s : Shares) → P s
      → P (distribute requestors scaled_tasks node_quotas basis places s)
  unfolding distribute
  distribute-keeps basis keep [] s h = h
  distribute-keeps basis keep (place ∷ places) s h =
      if-cases P (s.num_free == 0) s
        (distribute requestors scaled_tasks node_quotas basis places
          (serve_at requestors scaled_tasks node_quotas basis place s))
        (λ e. h) (λ e. distribute-keeps basis keep places _ (keep place s h))
