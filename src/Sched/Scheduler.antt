-- ===== src/Sched/Scheduler.antt =====
-- sched/scheduler/stateful_scheduler.go: the jobs in progress, from the second loop of addJobs to the callback
-- of EndSaga. A *jobState is an address in a store; the ids of jobs are random, so that those in the list differ,
-- and the loops of deleteJob find one at most. `none` is a panic.
pub mod Index
pub mod Steps
pub mod Ending
pub mod Calls
use scoot.Base.{
  ℕ, ◌+◌, ◌≡◌, String, Bool, true, false, not, ◌&&◌, Option, none, some, List, [], ◌∷◌, ◌++◌, map,
  str_eq, ltb, ◌==◌, length, ℤ, pos, negsuc, ◌+ℤ◌, ◌-ℤ◌, Dict, lookup, insert, delete, is_some,
  Result, ok, err, if◌then◌else◌,
}
use scoot.Saga.State.{SagaState}
use scoot.Sched.Definitions.{JobDefinition, Job, TaskDefinition}
use scoot.Sched.Jobs.{
  Status, completed, TaskState, JobState, is_status, get_job_status, new_job_state,
}
use scoot.Sched.Admission.{or_empty, string_in_slice}
use scoot.Sched.Kill.{request_kill}
use scoot.Sched.Shares.{JobEntry}

-- The store of the job states, inProgressJobs, requestorMap, and the jobs whose EndSaga is under way.
pub record Scheduler : Type 0 where
  pub cell : ℕ → JobEntry
  pub in_progress : List ℕ
  pub requestor_map : Dict (List ℕ)
  pub ending : List ℕ

abbrev pub set_cell : ℕ → JobEntry → Scheduler → Scheduler
set_cell a j s = record s { cell = λ b. if b == a then j else s.cell b }

abbrev pub job_at : Scheduler → ℕ → Job
job_at s a = (s.cell a).job

abbrev pub equal_int : ℤ → ℤ → Bool
equal_int (pos m) (pos n) = m == n
equal_int (negsuc m) (negsuc n) = m == n
equal_int _ _ = false

-- The jobs of the requestor with the same basis and another tag, which `go s.KillJob` is called for.
abbrev pub is_replaced : JobDefinition → JobDefinition → Bool
is_replaced new old =
    not (str_eq new.basis "") && (str_eq old.basis new.basis && not (str_eq old.tag new.tag))

unfoldable pub replaced : (ℕ → Job) → JobDefinition → List ℕ → List String
replaced job_of new [] = []
replaced job_of new (a ∷ bs) =
    let rest = replaced job_of new bs in
    if is_replaced new (job_of a).def then (job_of a).id ∷ rest else rest

abbrev pub is_override : JobDefinition → JobDefinition → Bool
is_override new old =
    str_eq old.tag new.tag
    && (not (str_eq old.basis new.basis) && not (equal_int old.priority new.priority))

abbrev pub with_priority : ℤ → JobDefinition → JobDefinition
with_priority p def = record def { priority = p }

unfoldable pub override_priority : (ℕ → Job) → List ℕ → JobDefinition → JobDefinition
override_priority job_of [] new = new
override_priority job_of (a ∷ bs) new =
    let old = (job_of a).def in
    override_priority job_of bs
      (if is_override new old then with_priority old.priority new else new)

-- Of a requestor with no job, the priority is at most MaxPriority.
abbrev pub respect_max : ℤ → ℤ
respect_max (pos n) = if ltb 2 n then pos 2 else pos n
respect_max (negsuc n) = negsuc n

abbrev pub admitted : (ℕ → Job) → Option (List ℕ) → JobDefinition → JobDefinition
admitted job_of none new = with_priority (respect_max new.priority) new
admitted job_of (some bs) new = override_priority job_of bs new

abbrev pub task_id_of : TaskDefinition → String
task_id_of task = task.tags.task_id

-- The map and the list with the new job's address at their ends.
unfoldable pub put_job : ℕ → JobEntry → Scheduler → Scheduler
put_job a j s =
    let req = j.job.def.requestor in
    let jobs = or_empty (lookup req s.requestor_map) in
    record (set_cell a j s) {
      in_progress = s.in_progress ++ (a ∷ []);
      requestor_map = insert req (jobs ++ (a ∷ [])) s.requestor_map;
    }

abbrev pub entry : (List TaskState → List TaskState) → Job → JobState → JobEntry
entry sort job state = record { job = job; state = record state { tasks = sort state.tasks } }

-- A message of addJobCh: the ids to kill, and the state after it. The address is new, and `sort` is
-- sort.Sort by falling durations.
unfoldable pub add_job :
    (List TaskState → List TaskState)
    → Dict ℕ
    → ℕ
    → ℕ
    → SagaState
    → Job
    → Scheduler
    → Option (List String × Scheduler)
add_job sort durations now a saga job s =
    let priors = lookup job.def.requestor s.requestor_map in
    let new = record job { def = admitted (job_at s) priors job.def } in
    elim (new_job_state job.id (map task_id_of job.def.tasks) saga durations now) [
      | none ↦ none
      | some state ↦
          some (replaced (job_at s) job.def (or_empty priors), put_job a (entry sort new state) s)
    ]

-- getJob.
unfoldable pub get_job : (ℕ → Job) → String → List ℕ → Option ℕ
get_job job_of id [] = none
get_job job_of id (a ∷ bs) = if str_eq (job_of a).id id then some a else get_job job_of id bs

unfoldable pub remove_job : (ℕ → Job) → String → List ℕ → List ℕ
remove_job job_of id [] = []
remove_job job_of id (a ∷ bs) =
    let rest = remove_job job_of id bs in if str_eq (job_of a).id id then bs else a ∷ rest

-- The requestor that the first loop of deleteJob finds.
abbrev pub requestor_at : (ℕ → Job) → Option ℕ → String
requestor_at job_of none = ""
requestor_at job_of (some a) = (job_of a).def.requestor

-- An entry with no job left is deleted.
abbrev pub set_jobs : String → List ℕ → Dict (List ℕ) → Dict (List ℕ)
set_jobs r [] m = delete r m
set_jobs r (a ∷ bs) m = insert r (a ∷ bs) m

unfoldable pub delete_job : String → Scheduler → Scheduler
delete_job id s =
    let r = requestor_at (job_at s) (get_job (job_at s) id s.in_progress) in
    let jobs = remove_job (job_at s) id (or_empty (lookup r s.requestor_map)) in
    record s {
      in_progress = remove_job (job_at s) id s.in_progress;
      requestor_map = set_jobs r jobs s.requestor_map;
    }

abbrev pub set_state : ℕ → JobState → Scheduler → Scheduler
set_state a state s = set_cell a (record { job = job_at s a; state = state }) s

abbrev pub set_ending : ℕ → Bool → Scheduler → Scheduler
set_ending a b s = set_state a (record (s.cell a).state { ending_saga = b }) s

-- The call of EndSaga is handed to the async runner.
abbrev pub start_end : ℕ → Scheduler → Scheduler
start_end a s = record (set_ending a true s) { ending = s.ending ++ (a ∷ []) }

abbrev pub is_finished : JobState → Bool
is_finished j = is_status (get_job_status j) completed && not j.ending_saga

unfoldable pub check_for_completed_jobs : List ℕ → Scheduler → Scheduler
check_for_completed_jobs [] s = s
check_for_completed_jobs (a ∷ bs) s =
    check_for_completed_jobs bs (if is_finished (s.cell a).state then start_end a s else s)

unfoldable pub drop_call : ℕ → List ℕ → List ℕ
drop_call a [] = []
drop_call a (b ∷ bs) = let rest = drop_call a bs in if b == a then bs else b ∷ rest

-- The callback of EndSaga, with whether it returned no error.
unfoldable pub on_saga_ended : ℕ → Bool → Scheduler → Scheduler
on_saga_ended a true s = delete_job (job_at s a).id (record s { ending = drop_call a s.ending })
on_saga_ended a false s = set_ending a false (record s { ending = drop_call a s.ending })

abbrev pub state_at : Scheduler → Option ℕ → Option JobState
state_at s none = none
state_at s (some a) = some (s.cell a).state

abbrev pub killed_at : Scheduler → Option ℕ → Result String JobState → Result String Scheduler
killed_at s (some a) (ok j) = ok (set_state a j s)
killed_at s none (ok j) = err ""
killed_at s a (err e) = err e

-- A request of killJobCh, as the first loop of killJobs answers it.
unfoldable pub accept_kill : String → Scheduler → Result String Scheduler
accept_kill id s =
    let a = get_job (job_at s) id s.in_progress in killed_at s a (request_kill (state_at s a))
