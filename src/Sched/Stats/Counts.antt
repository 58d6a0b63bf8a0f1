-- ===== src/Sched/Stats/Counts.antt =====
-- What updateStats of sched/scheduler/stateful_scheduler.go counts for each requestor.
use scoot.Base.{
  ◌≡◌, refl, ◌∙◌, subst, ap, inl, inr, String, Option, none, some, List, [], ◌∷◌, str_eq, eq_iff,
  arith, Dict, lookup, insert, lookup-insert, Absent, Distinct, insert-Distinct, Bool-cases,
  if◌then◌else◌,
}
use scoot.Sched.Shares.{JobEntry, requestor_of}
use scoot.Sched.Stats.{
  Activity, no_activity, or_none, reset, count_job, count_jobs, is_inactive, delete_inactive,
  update_stats,
}

-- The activity of one requestor, from its jobs alone.
unfoldable pub activity : String → List JobEntry → Activity → Activity
activity r [] c = c
activity r (j ∷ js) c = activity r js (if str_eq (requestor_of j) r then count_job j.state c else c)

abbrev pub unless_inactive : Activity → Option Activity
unless_inactive c = if is_inactive c then none else some c

lookup-reset : (r : String) (m : Dict Activity) → or_none (lookup r (reset m)) ≡ no_activity
unfolding lookup reset
lookup-reset r [] = refl
lookup-reset r ((k, c) ∷ m) = elim (Bool-cases (str_eq k r)) [
  | inl e ↦ rw e refl
  | inr e ↦ rw e (lookup-reset r m)
]

Absent-reset : (k : String) (m : Dict Activity) → Absent k m → Absent k (reset m)
unfolding reset
Absent-reset k [] a = tt
Absent-reset k ((j, c) ∷ m) a = (a.0, Absent-reset k m a.1)

reset-Distinct : (m : Dict Activity) → Distinct m → Distinct (reset m)
unfolding reset
reset-Distinct [] d = tt
reset-Distinct ((k, c) ∷ m) d = (Absent-reset k m d.0, reset-Distinct m d.1)

count_jobs-Distinct :
    (js : List JobEntry) (m : Dict Activity) → Distinct m → Distinct (count_jobs js m)
unfolding count_jobs
count_jobs-Distinct [] m d = d
count_jobs-Distinct (j ∷ js) m d = count_jobs-Distinct js _ (insert-Distinct (requestor_of j) _ m d)

lookup-count_jobs :
    (r : String) (js : List JobEntry) (m : Dict Activity)
    → or_none (lookup r (count_jobs js m)) ≡ activity r js (or_none (lookup r m))
unfolding count_jobs activity
lookup-count_jobs r [] m = refl
lookup-count_jobs r (j ∷ js) m =
    let k = requestor_of j in
    let c = count_job j.state (or_none (lookup k m)) in
    lookup-count_jobs r js (insert k c m)
    ∙ ap (activity r js) (
        ap or_none (lookup-insert k r c m) ∙ elim (Bool-cases (str_eq k r)) [
          | inl e ↦
              let q : k ≡ r = ground (arith, eq_iff k r, e) in
              rw e (ap (λ t. count_job j.state (or_none (lookup t m))) q)
          | inr e ↦ rw e refl
        ])

Absent-lookup : (k : String) (m : Dict Activity) → Absent k m → lookup k (delete_inactive m) ≡ none
unfolding lookup delete_inactive
Absent-lookup k [] a = refl
Absent-lookup k ((j, c) ∷ m) a = elim (Bool-cases (is_inactive c)) [
  | inl e ↦ rw e (Absent-lookup k m a.1)
  | inr e ↦ rw (e, a.0) (Absent-lookup k m a.1)
]

lookup-delete_inactive :
    (r : String) (m : Dict Activity)
    → Distinct m
    → lookup r (delete_inactive m) ≡ unless_inactive (or_none (lookup r m))
unfolding lookup delete_inactive
lookup-delete_inactive r [] d = refl
lookup-delete_inactive r ((k, c) ∷ m) d = elim (Bool-cases (is_inactive c)) [
  | inl e ↦ elim (Bool-cases (str_eq k r)) [
    | inl w ↦
        let q : k ≡ r = ground (arith, eq_iff k r, w) in
        rw (e, w, e) (Absent-lookup r m (subst (λ t. Absent t m) q d.0))
    | inr w ↦ rw (e, w) (lookup-delete_inactive r m d.1)
  ]
  | inr e ↦ elim (Bool-cases (str_eq k r)) [
    | inl w ↦ rw (e, w, e) refl
    | inr w ↦ rw (e, w) (lookup-delete_inactive r m d.1)
  ]
]

-- After updateStats, whatever was counted before, a requestor has the counts of its own jobs in progress, or no
-- entry if they are all 0; the map before has distinct keys.
pub update_stats-count_job :
    (r : String) (jobs : List JobEntry) (m : Dict Activity)
    → Distinct m
    → lookup r (update_stats jobs m) ≡ unless_inactive (activity r jobs no_activity)
unfolding update_stats
update_stats-count_job r jobs m d =
    lookup-delete_inactive r (count_jobs jobs (reset m))
      (count_jobs-Distinct jobs (reset m) (reset-Distinct m d))
    ∙ ap unless_inactive
        (lookup-count_jobs r jobs (reset m) ∙ ap (activity r jobs) (lookup-reset r m))
