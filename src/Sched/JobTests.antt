-- ===== src/Sched/JobTests.antt =====
-- Jobs on small inputs: runs of sched/scheduler/job_state.go, and the theorems at them.
use scoot.Base.{◌≡◌, ◌↔◌, refl, true, some, [], ◌∷◌, All, pos, lookup}
use scoot.Saga.State.{SagaState, initialize_saga_state}
use scoot.Sched.Jobs.{
  completed, JobState, fresh, finished, new_task, is_status, get_task, new_job_state,
  get_job_status,
}
use scoot.Sched.Jobs.Counts.{IsCounted, starts, step, step-IsCounted, get_job_status-completed_iff}
use scoot.Sched.Jobs.Recovery.{new_job_state-IsCounted}

-- A saga in which the task "a" has started and completed.
abbrev logged : SagaState
logged = record initialize_saga_state { saga_id = "s"; task_state = ("a", 3) ∷ [] }

new_job_state-IsCounted_example :
    (k : JobState) × (new_job_state "j" ("a" ∷ "b" ∷ []) logged [] 5 ≡ some k) × IsCounted k
unfolding get_task
new_job_state-IsCounted_example =
    new_job_state-IsCounted "j" ("a" ∷ "b" ∷ []) logged [] 5 (tt, tt) ((λ c. (_, refl)), tt)

-- The job of "b" alone, which has not started.
abbrev new : JobState
new = fresh "j" ("b" ∷ []) [] 5

new-IsCounted : IsCounted new
new-IsCounted = record { done = refl; busy = refl }

step-IsCounted_example : (k : JobState) × (step (starts "b" 1 6) new ≡ some k) × IsCounted k
unfolding get_task lookup
step-IsCounted_example = step-IsCounted (starts "b" 1 6) new _ refl refl new-IsCounted

abbrev over : JobState
over = record (fresh "j" [] [] 5) {
  tasks = finished (new_task "j" [] "b") ∷ [];
  tasks_completed = pos 1;
}

over-IsCounted : IsCounted over
over-IsCounted = record { done = refl; busy = refl }

get_job_status-completed_iff_example :
    (get_job_status over ≡ completed) ↔ All (λ t. is_status t.status completed ≡ true) over.tasks
get_job_status-completed_iff_example = get_job_status-completed_iff over over-IsCounted
