-- ===== src/Sched/Shares/Progress.antt =====
-- getTaskAssignments of sched/scheduler/task_scheduler.go selects a task if a node is free and a task waits.
use scoot.Base.{
  ℕ, ◌<◌, ◌≡◌, ◌⊎◌, refl, inl, inr, String, Bool, true, false, ◌||◌, ◌&&◌, List, [], ◌∷◌, ◌++◌,
  arith, ◌==◌, ==_iff, Dict, lookup, if-cases, length, str_eq, eq_iff,
}
use scoot.Sched.Jobs.{TaskState}
use scoot.Sched.Shares.{
  Priority, Quota, JobEntry, tag_of, requestor_of, Shares, gather, no_batch, jobs_or_none,
  mark_seen, is_seen, share, is_nil, visit_new, visit_job, visit, start, select, required_rounds,
  optional_rounds,
}
use scoot.Sched.Shares.Groups.{waiting_with, gather-pos, share-Ready, share-keeps}
use scoot.Sched.Shares.Loops.{visit-keeps}
use scoot.Sched.Shares.Waiting.{is_seen-mark_seen}
use scoot.Sched.Shares.Once.{share-tags_seen}
use scoot.Sched.Shares.Rounds.{
  Ready, IsGenerous, distribute-takes, optional_rounds-Passes, tasks_grow,
}

nothing_seen : (q u : String) → is_seen [] q u ≡ true → ⊥
unfolding lookup
nothing_seen q u e = cc

either_first {ℓ κ μ} : {A : Type ℓ} {B : Type κ} {C : Type μ} → A ⊎ (B × C) → A ⊎ B
either_first (inl h) = inl h
either_first (inr h) = inr h.0

nil_empty : (u : List TaskState) → is_nil u ≡ true → 0 < length u → ⊥
nil_empty [] e h = omega arith
nil_empty (t ∷ u) e h = cc

not_nil : (u : List TaskState) → is_nil u ≡ false → 0 < length u
not_nil [] e = cc
not_nil (t ∷ u) e = omega arith

seen_before :
    (r t : String) (seen : Dict (Dict Bool)) (q u : String)
    → is_seen (mark_seen r t seen) q u ≡ true
    → ((r ≡ q) × (t ≡ u)) ⊎ (is_seen seen q u ≡ true)
seen_before r t seen q u h =
    both (str_eq r q) (str_eq t u) (is_seen seen q u) (eq_iff r q).0 (eq_iff t u).0
      (rw (is_seen-mark_seen r t seen q u) at h)
  where
    both :
        {P Q : Type 0} (a b c : Bool)
        → (a ≡ true → P)
        → (b ≡ true → Q)
        → (a && b || c) ≡ true
        → (P × Q) ⊎ (c ≡ true)
    both true true c f g h = inl (f refl, g refl)
    both true false c f g h = inr h
    both false b c f g h = inr h

module _ (requestors : Dict (List JobEntry)) (scaled_tasks : ℕ → Priority → ℕ)
    (node_quotas : ℕ → Quota → Priority → ℕ → ℕ) where
  abbrev IsReady : Shares → Type 0
  IsReady s = (p : Priority) × Ready requestors scaled_tasks node_quotas p s

  abbrev Waits : String → String → Type 0
  Waits r t = 0 < waiting_with t (jobs_or_none (lookup r requestors))

  -- A node is free or given away, and the tags that were seen had their share.
  abbrev IsFair : Shares → Type 0
  IsFair s =
      ((0 < length s.tasks) ⊎ (0 < s.num_free))
      × ((r t : String) → is_seen s.tags_seen r t ≡ true → Waits r t → IsReady s)

  some-Ready :
      (p : Priority) (s : Shares) → Ready requestors scaled_tasks node_quotas p s → IsReady s
  some-Ready p s h = (p, h)

  -- With a free node a group whose tasks wait has some.
  unless_nil :
      (p : Priority) (j : JobEntry) (s : Shares)
      → (0 < length s.tasks) ⊎ (0 < s.num_free)
      → is_nil
          (gather
            (tag_of j)
            s.num_free
            (jobs_or_none (lookup (requestor_of j) requestors))
            no_batch).unsched
        ≡ true
      → Waits (requestor_of j) (tag_of j)
      → IsReady (record s { tags_seen = mark_seen (requestor_of j) (tag_of j) s.tags_seen })
  unless_nil p j s (inl h) i w = (p, inl h)
  unless_nil p j s (inr f) i w = absurd (
      nil_empty _ i (
        gather-pos (tag_of j) s.num_free (jobs_or_none (lookup (requestor_of j) requestors))
          no_batch f w))

  marked-IsFair :
      (j : JobEntry) (s after : Shares)
      → after.tags_seen ≡ mark_seen (requestor_of j) (tag_of j) s.tags_seen
      → (0 < length after.tasks) ⊎ (0 < after.num_free)
      → (Waits (requestor_of j) (tag_of j) → IsReady after)
      → (IsReady s → IsReady after)
      → IsFair s
      → IsFair after
  marked-IsFair j s after e first own keep h = (
    first,
    λ r t x w. elim (seen_before (requestor_of j) (tag_of j) s.tags_seen r t (rw e at x)) [
      | inl (a, b) ↦ own (rw (a, b) w)
      | inr old ↦ keep (h.1 r t old w)
    ],
  )

  visit_job-IsFair :
      (p : Priority) (j : JobEntry) (s : Shares)
      → IsFair s
      → IsFair (visit_job requestors scaled_tasks node_quotas p j s)
        × (Waits (requestor_of j) (tag_of j)
            → IsReady (visit_job requestors scaled_tasks node_quotas p j s))
  unfolding visit_job
  visit_job-IsFair p j s h =
      let r = requestor_of j in
      let t = tag_of j in
      let seen = mark_seen r t s.tags_seen in
      let b = gather t s.num_free (jobs_or_none (lookup r requestors)) no_batch in
      let marked = record s { tags_seen = seen } in
      if-cases Done (is_seen s.tags_seen r t) s
        (visit_new requestors scaled_tasks node_quotas p j s) (λ e. (h, λ w. h.1 r t e w))
        (λ e.
          if-cases Done (is_nil b.unsched) marked (share scaled_tasks p b marked)
            (λ i.
              let own = unless_nil p j s h.0 i in
              (marked-IsFair j s marked refl h.0 own (λ x. x) h, own))
            (λ i.
              let u = not_nil b.unsched i in
              let ready = share-Ready scaled_tasks p b marked u h.0 in
              let own = λ (w : Waits r t). some-Ready p (share scaled_tasks p b marked) ready in
              (
                marked-IsFair j s (share scaled_tasks p b marked)
                    (share-tags_seen scaled_tasks p b marked) (either_first ready) own
                    (λ x. (x.0, share-keeps scaled_tasks p x.0 b marked u x.1)) h,
                own,
              )))
    where
      Done : Shares → Type 0
      Done x = IsFair x × (Waits (requestor_of j) (tag_of j) → IsReady x)

  visit_job-stays :
      (p : Priority) (j : JobEntry) (s : Shares)
      → IsReady s
      → IsReady (visit_job requestors scaled_tasks node_quotas p j s)
  unfolding visit_job
  visit_job-stays p j s (q, h) =
      let seen = mark_seen (requestor_of j) (tag_of j) s.tags_seen in
      let b =
        gather (tag_of j) s.num_free (jobs_or_none (lookup (requestor_of j) requestors)) no_batch in
      let marked = record s { tags_seen = seen } in
      if-cases IsReady (is_seen s.tags_seen (requestor_of j) (tag_of j)) s
        (visit_new requestors scaled_tasks node_quotas p j s) (λ e. (q, h))
        (λ e.
          if-cases IsReady (is_nil b.unsched) marked (share scaled_tasks p b marked) (λ i. (q, h))
            (λ i. (q, share-keeps scaled_tasks p q b marked (not_nil b.unsched i) h)))

  visit-stays :
      (jobs : List (Priority × JobEntry)) (s : Shares)
      → IsReady s
      → IsReady (visit requestors scaled_tasks node_quotas jobs s)
  visit-stays = visit-keeps IsReady requestors scaled_tasks node_quotas visit_job-stays

  -- Some job has the requestor and the tag.
  abbrev pub Visits : String → String → List (Priority × JobEntry) → Type 0
  Visits r t [] = ⊥
  Visits r t ((p, j) ∷ jobs) = ((requestor_of j ≡ r) × (tag_of j ≡ t)) ⊎ Visits r t jobs

  visit-IsReady :
      (r t : String) (jobs : List (Priority × JobEntry)) (s : Shares)
      → Waits r t
      → Visits r t jobs
      → IsFair s
      → IsReady (visit requestors scaled_tasks node_quotas jobs s)
  unfolding visit
  visit-IsReady r t [] s w v h = absurd v
  visit-IsReady r t ((p, j) ∷ jobs) s w v h =
      let next = visit_job requestors scaled_tasks node_quotas p j s in
      let (fair, own) = visit_job-IsFair p j s h in
      if-cases IsReady (s.num_free == 0) s (visit requestors scaled_tasks node_quotas jobs next)
        (λ e. elim h.0 [
          | inl more ↦ (p, inl more)
          | inr f ↦ absurd (omega (arith, f, (==_iff s.num_free 0).0 e))
        ])
        (λ e. elim v [
          | inl (a, b) ↦ visit-stays jobs next (own (rw (a, b) w))
          | inr later ↦ visit-IsReady r t jobs next w later fair
        ])

  -- A task is selected if a node is free and a task waits in the jobs of a requestor and a tag.
  pub select-progress :
      (r t : String) (jobs : List (Priority × JobEntry)) (free : ℕ)
      → IsGenerous requestors scaled_tasks node_quotas
      → 0 < free
      → Visits r t jobs
      → Waits r t
      → 0 < length (select requestors scaled_tasks node_quotas jobs free).tasks
  unfolding select
  select-progress r t jobs free g f v w =
      let s = visit requestors scaled_tasks node_quotas jobs (start free) in
      let (p, ready) =
        visit-IsReady r t jobs (start free) w v (inr f, λ q u e x. absurd (nothing_seen q u e)) in
      elim ready [
        | inl more ↦
            tasks_grow requestors scaled_tasks node_quotas s.num_free
              (required_rounds ++ optional_rounds) s more
        | inr (n, h) ↦
            distribute-takes requestors scaled_tasks node_quotas s.num_free p
              (required_rounds ++ optional_rounds) s g n
              (optional_rounds-Passes requestors scaled_tasks node_quotas p) (inr (n, h))
      ]
