-- ===== src/Sched/SchedulerTests.antt =====
-- The jobs of the scheduler of sched/scheduler/stateful_scheduler.go, on concrete ones.
use scoot.Base.{
  ◌≡◌, refl, inl, inr, String, true, some, [], ◌∷◌, str_eq, arith, pos, lookup, ℤ, Bool-cases,
}
use scoot.Sched.Definitions.{JobDefinition, Job}
use scoot.Sched.Jobs.{get_job_status, JobState, fresh, new_job_state, recover_tasks}
use scoot.Saga.State.{SagaState, initialize_saga_state}
use scoot.Sched.Shares.{JobEntry}
use scoot.Sched.Scheduler.{
  Scheduler, job_at, on_saga_ended, put_job, add_job, entry, admitted, override_priority, replaced,
}
use scoot.Sched.Stats.{Activity, update_stats, no_activity, count_job}
use scoot.Sched.Stats.Counts.{activity, update_stats-count_job}
use scoot.Sched.Scheduler.Index.{IsIndexed, of_requestor}
use scoot.Sched.Scheduler.Steps.{adds, ends, Step-IsIndexed}
use scoot.Sched.Scheduler.Ending.{IsEnding, Step-IsEnding}

abbrev def : String → String → ℤ → JobDefinition
def basis tag priority = record {
  job_type = "";
  requestor = "r";
  basis = basis;
  tag = tag;
  priority = priority;
  tasks = [];
}

abbrev flagged : JobState
flagged = record (fresh "j" [] [] 5) { ending_saga = true }

-- One job, which ends.
abbrev busy : Scheduler
busy = record {
  cell = λ a. record { job = record { id = "j"; def = def "main" "t" (pos 1) }; state = flagged };
  in_progress = 0 ∷ [];
  requestor_map = ("r", 0 ∷ []) ∷ [];
  ending = 0 ∷ [];
}

busy-IsIndexed : IsIndexed busy
unfolding lookup of_requestor
busy-IsIndexed =
    (λ r. elim (Bool-cases (str_eq "r" r)) [ inl e ↦ rw e refl | inr e ↦ rw e refl ], (tt, tt))

busy-IsEnding : IsEnding busy
busy-IsEnding b = ground arith

abbrev newer : Job
newer = record { id = "k"; def = def "main" "u" (pos 2) }

abbrev saga : SagaState
saga = initialize_saga_state

-- The older job has the same basis and another tag: it is to be killed.
add_job_kills :
    add_job (λ ts. ts) [] 6 1 saga newer busy
    ≡ some ("j" ∷ [], put_job 1 (entry (λ ts. ts) newer (fresh "k" [] [] 6)) busy)
unfolding add_job new_job_state recover_tasks replaced override_priority lookup
add_job_kills = refl

Step-IsIndexed_example : IsIndexed (put_job 1 (entry (λ ts. ts) newer (fresh "k" [] [] 6)) busy)
Step-IsIndexed_example =
    Step-IsIndexed busy (put_job 1 (entry (λ ts. ts) newer (fresh "k" [] [] 6)) busy)
      (adds (λ ts. ts) [] 6 1 saga newer ("j" ∷ []) _ (refl, tt) (refl, tt) add_job_kills)
      busy-IsIndexed

Step-IsEnding_example : IsEnding (on_saga_ended 0 true busy)
Step-IsEnding_example =
    Step-IsEnding busy (on_saga_ended 0 true busy) (ends 0 true refl) busy-IsIndexed busy-IsEnding

-- A job of the same tag takes over the older priority only if its basis is another.
admitted_other_basis :
    admitted (job_at busy) (some (0 ∷ [])) (def "dev" "t" (pos 2)) ≡ def "dev" "t" (pos 1)
unfolding override_priority
admitted_other_basis = refl

admitted_same_basis :
    admitted (job_at busy) (some (0 ∷ [])) (def "main" "t" (pos 2)) ≡ def "main" "t" (pos 2)
unfolding override_priority
admitted_same_basis = refl

-- A job whose tasks wait.
abbrev waiting : JobEntry
waiting = record { job = newer; state = fresh "k" ("a" ∷ "b" ∷ []) [] 6 }

abbrev waiting_activity : Activity
waiting_activity = record no_activity { jobs_waiting_to_start = 1; num_waiting_tasks = pos 2 }

update_stats-count_job_example :
    lookup "r" (update_stats (waiting ∷ []) (("r", record no_activity { jobs_running = 4 }) ∷ []))
    ≡ some waiting_activity
unfolding activity count_job get_job_status
update_stats-count_job_example =
    update_stats-count_job "r" (waiting ∷ []) (("r", record no_activity { jobs_running = 4 }) ∷ [])
      (tt, tt)
