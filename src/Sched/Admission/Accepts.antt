-- ===== src/Sched/Admission/Accepts.antt =====
-- Which requests addJobs of sched/scheduler/stateful_scheduler.go accepts.
use scoot.Base.{
  ℕ, ◌≡◌, ◌≢◌, ◌⊎◌, ◌≤◌, ◌<◌, String, true, false, List, [], ◌∷◌, length, pos, Dict, lookup,
  is_some, All,
}
use scoot.Sched.Definitions.{JobDefinition, TaskDefinition}
use scoot.Sched.Admission.{Limits, string_in_slice, or_empty, history_key, is_expired}

-- No two of the tasks share an id.
abbrev pub AreDistinct : List TaskDefinition → Type 0
AreDistinct [] = Unit
AreDistinct (t ∷ ts) = All (λ u. u.tags.task_id ≢ t.tags.task_id) ts × AreDistinct ts

-- What the scheduler's limits and the history ask of a request.
pub record IsAdmissible (limits : Limits) (requestors : Dict (List ℕ))
    (history : Dict (List String)) (def : JobDefinition) : Type 0 where
  pub room :
      (is_some (lookup def.requestor requestors) ≡ true)
      ⊎ (length requestors < limits.max_requestors)
  pub jobs_room :
      length (or_empty (lookup def.requestor requestors)) < limits.max_jobs_per_requestor
  pub priority : (p : ℕ) × (def.priority ≡ pos p) × (p ≤ 2)
  pub distinct : AreDistinct def.tasks
  pub current :
      (def.basis ≡ "") ⊎ (is_expired def.tag (or_empty (lookup (history_key def) history)) ≡ false)

-- No task has an id that was seen.
abbrev Unseen : List String → List TaskDefinition → Type 0
Unseen seen ts = All (λ t. string_in_slice t.tags.task_id seen ≡ false) ts
