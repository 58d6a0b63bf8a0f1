-- ===== src/Sched/Admission.antt =====
-- sched/scheduler/stateful_scheduler.go: the requests that ScheduleJob puts on checkJobCh, as addJobs answers
-- them. The requestor map holds addresses of job states. The numbers of the configuration are not negative.
pub mod Accepts
pub mod Expiry
use scoot.Base.{
  ℕ, zero, suc, String, ◌<>◌, Bool, true, false, not, ◌&&◌, ◌||◌, Option, none, some, List, [], ◌∷◌,
  ◌++◌, str_eq, leb, ltb, length, ℤ, pos, negsuc, Dict, lookup, insert, is_some, if◌then◌else◌,
}
use scoot.Runner.Command.{Command}
use scoot.Sched.Definitions.{JobDefinition, TaskDefinition}

-- The limits of SchedulerConfig that addJobs reads.
pub record Limits : Type 0 where
  pub max_requestors : ℕ
  pub max_jobs_per_requestor : ℕ

pub data Refusal : Type 0 where
  max_requestors max_jobs invalid_priority dup_task expired_tag : Refusal

abbrev pub string_in_slice : String → List String → Bool
string_in_slice a [] = false
string_in_slice a (b ∷ list) = str_eq b a || string_in_slice a list

-- The loop over the tasks, with the ids seen so far.
unfoldable pub has_dup : List String → List TaskDefinition → Bool
has_dup seen [] = false
has_dup seen (task ∷ tasks) =
    string_in_slice task.tags.task_id seen || has_dup (task.tags.task_id ∷ seen) tasks

abbrev pub or_empty {ℓ} : {A : Type ℓ} → Option (List A) → List A
or_empty none = []
or_empty (some xs) = xs

-- `priority < P0 || priority > P2`.
abbrev pub is_invalid : ℤ → Bool
is_invalid (pos n) = ltb 2 n
is_invalid (negsuc n) = true

-- The tests before the basis is looked at.
unfoldable pub check_limits : Limits → Dict (List ℕ) → JobDefinition → Option Refusal
check_limits limits requestors def =
    let jobs = lookup def.requestor requestors in
    if not (is_some jobs) && leb limits.max_requestors (length requestors)
    then some max_requestors
    else (if leb limits.max_jobs_per_requestor (length (or_empty jobs))
        then some max_jobs
        else (if is_invalid def.priority
            then some invalid_priority
            else (if has_dup [] def.tasks then some dup_task else none)))

-- The key of the history: the two texts one after the other.
abbrev pub history_key : JobDefinition → String
history_key def = def.requestor <> def.basis

abbrev pub is_last : String → List String → Bool
is_last tag [] = false
is_last tag (t ∷ []) = str_eq t tag
is_last tag (t ∷ u ∷ tags) = is_last tag (u ∷ tags)

-- The tag was followed by another one.
abbrev pub is_expired : String → List String → Bool
is_expired tag tags = string_in_slice tag tags && not (is_last tag tags)

-- The history after an accepted request, or the refusal.
unfoldable pub check_tag : Dict (List String) → JobDefinition → Dict (List String) × Option Refusal
check_tag history def =
    let tags = or_empty (lookup (history_key def) history) in
    if str_eq def.basis ""
    then (history, none)
    else (if is_expired def.tag tags
        then (history, some expired_tag)
        else (insert (history_key def) (tags ++ (def.tag ∷ [])) history, none))

unfoldable pub check_job :
    Limits
    → Dict (List ℕ)
    → Dict (List String)
    → JobDefinition
    → Dict (List String) × Option Refusal
check_job limits requestors history def = elim (check_limits limits requestors def) [
  | some refusal ↦ (history, some refusal)
  | none ↦ check_tag history def
]
