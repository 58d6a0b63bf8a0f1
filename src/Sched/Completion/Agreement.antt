-- ===== src/Sched/Completion/Agreement.antt =====
-- The completion of a task in its job and in its saga (sched/scheduler/task_runner.go,
-- sched/scheduler/stateful_scheduler.go).
use scoot.Base.{
  ℕ, ◌≡◌, refl, ap, ◌∙◌, subst, String, Bool, true, false, not, ◌&&◌, ◌||◌, Option, none, some,
  List, arith, Result, if-cases, is_some, All,
}
use scoot.Saga.Message
use scoot.Saga.State.{is_task_completed}
use scoot.Saga.Log.{SagaLog}
use scoot.Saga.Object.{Saga}
use scoot.Saga.Durability.{IsLogged}
use scoot.Runner.Status.{RunStatus}
use scoot.Sched.TaskRunner.{
  TaskError, TaskRunner, Try, Answer, Waited, is_aborted, is_erred, judged, filled, lettered,
  no_error,
}
use scoot.Sched.TaskRunner.Run.{
  Logged, logged, not_logged, stuck, log_task_status, Waiting, run_and_wait, Ran, task_error,
  ended_task, conclude, run,
}
use scoot.Sched.TaskRunner.Agreement.{log_task_status-IsLogged, logged_completes}
use scoot.Sched.TaskRunner.Kills.{
  IsPlainTry, IsPlainAnswer, IsKilled, run_and_wait-WaitsWell, WaitsWell,
}
use scoot.Sched.Completion.{ends_task}

-- The saga took what the run had to write.
abbrev pub is_written : Option TaskError → Bool
is_written none = true
is_written (some e) = not (is_some e.saga_err)

lettered_aborted :
    (b : Bool) (st : RunStatus) → is_aborted (lettered b st).state ≡ is_aborted st.state
lettered_aborted true st = refl
lettered_aborted false st = refl

filled_aborted : (st : RunStatus) → is_aborted (filled st).state ≡ is_aborted st.state
filled_aborted st = ground arith

judged_st : (w : Waited) → (judged w).st ≡ w.st
judged_st w = ground arith

judged_saga : (w : Waited) → (judged w).saga_err ≡ none
judged_saga w = ground arith

completed_agrees : (a b c : Bool) → c ≡ true → (a && b && not c) ≡ false
completed_agrees a b c h = ground arith

-- A task that is given back was not aborted, nor tried for the last time.
given_back :
    (x ab mark er is_end y : Bool)
    → (er && not (er && (is_end || mark))) ≡ true
    → (ab && not is_end) ≡ false
    → (x && (ab || mark) && y) ≡ false
given_back x ab mark er is_end y f k = ground arith

at_last : (a b c : Bool) → a ≡ true → b ≡ true → (a && b && not c) ≡ false → c ≡ true
at_last a b c g x h = ground arith

module _ (log : SagaLog) (serialize : RunStatus → Result String (List ℕ)) where
  -- The log is in step with the saga, and what ends the task in the job has completed it in the saga.
  abbrev pub Agrees : TaskRunner → Ran log serialize → Type 0
  Agrees r none = Unit
  Agrees r (some (σ, s, e)) =
      IsLogged log σ s
      × ((is_written e
            && ends_task r.mark_complete_on_failure e
            && not (is_task_completed s.state r.tags.task_id))
          ≡ false)

  ended_task-Agrees :
      (r : TaskRunner) (e : TaskError) (n : log.Store × Saga × Logged)
      → e.saga_err ≡ none
      → IsLogged log n.0 n.1
      → (n.2 ≡ logged → is_task_completed n.1.state r.tags.task_id ≡ true)
      → Agrees r (ended_task log serialize e n)
  ended_task-Agrees r e (σ, s, logged) h l c = (
    l,
    completed_agrees (is_written (task_error log serialize e))
        (ends_task r.mark_complete_on_failure (task_error log serialize e))
        (is_task_completed s.state r.tags.task_id) (c refl),
  )
  ended_task-Agrees r e (σ, s, not_logged x) h l c = (l, refl)
  ended_task-Agrees r e (σ, s, stuck) h l c = tt

  conclude-Agrees :
      (r : TaskRunner) (w : Waited) (s : Saga) (σ : log.Store)
      → IsLogged log σ s
      → IsKilled w.end (is_aborted w.st.state)
      → Agrees r (conclude log serialize r w s σ)
  unfolding conclude
  conclude-Agrees r w s σ l k =
      let dead = is_erred (judged w) && (w.end || r.mark_complete_on_failure) in
      let e : TaskError = record (judged w) { st = lettered dead (filled (judged w).st) } in
      let same : is_aborted e.st.state ≡ is_aborted w.st.state =
        lettered_aborted dead (filled (judged w).st)
        ∙ (filled_aborted (judged w).st
            ∙ ap (λ (st : RunStatus). is_aborted st.state) (judged_st w)) in
      if-cases (Agrees r) (is_erred (judged w) && not dead) _ _
        (λ f. (
          l,
          rw same (
              given_back (not (is_some (judged w).saga_err)) (is_aborted w.st.state)
                r.mark_complete_on_failure (is_erred (judged w)) w.end
                (not (is_task_completed s.state r.tags.task_id)) f k),
        ))
        (λ f.
          ended_task-Agrees r e (log_task_status log serialize r (some e.st) Message.end_task s σ)
            (judged_saga w)
            (log_task_status-IsLogged log serialize r (some e.st) Message.end_task s σ l)
            (λ g. logged_completes log serialize r e.st s σ l.valid g))

  run-Agrees :
      (r : TaskRunner) (tries : List Try) (answers : List Answer) (s : Saga) (σ : log.Store)
      → All IsPlainTry tries
      → All IsPlainAnswer answers
      → IsLogged log σ s
      → Agrees r (run log serialize r tries answers s σ)
  unfolding run
  run-Agrees r tries answers s σ h k l = go n.2
    where
      n : log.Store × Saga × Logged
      n = log_task_status log serialize r none Message.start_task s σ

      m : IsLogged log n.0 n.1
      m = log_task_status-IsLogged log serialize r none Message.start_task s σ l

      waited :
          (w : Waiting log serialize)
          → WaitsWell log serialize w
          → Agrees r (elim w [ none ↦ none | some (υ, u, w) ↦ conclude log serialize r w u υ ])
      waited none x = tt
      waited (some (υ, u, w)) x = conclude-Agrees r w u υ x.0 x.1

      go :
          (g : Logged)
          → Agrees r (elim g [
            | stuck ↦ none
            | not_logged x ↦ some (n.0, n.1, some (record no_error { saga_err = some x }))
            | logged ↦ elim (run_and_wait log serialize r tries answers n.1 n.0) [
              | none ↦ none
              | some (υ, u, w) ↦ conclude log serialize r w u υ
            ]
          ])
      go stuck = tt
      go (not_logged x) = (m, refl)
      go logged =
          waited (run_and_wait log serialize r tries answers n.1 n.0)
            (run_and_wait-WaitsWell log serialize r tries answers n.1 n.0 h k m)

  -- A run of a task over a saga that the log is in step with, where the worker reports no run as aborted on its
  -- own account and each request to abort is one that ends the task: if it returns with all of its writes to
  -- the saga taken, and the scheduler will not try the task again, then the task is completed in the saga, and
  -- recovery from the log gives that state of the saga.
  pub run-completes :
      (r : TaskRunner) (tries : List Try) (answers : List Answer) (s t : Saga) (σ τ : log.Store)
      (e : Option TaskError)
      → All IsPlainTry tries
      → All IsPlainAnswer answers
      → IsLogged log σ s
      → run log serialize r tries answers s σ ≡ some (τ, t, e)
      → is_written e ≡ true
      → ends_task r.mark_complete_on_failure e ≡ true
      → (is_task_completed t.state r.tags.task_id ≡ true) × IsLogged log τ t
  run-completes r tries answers s t σ τ e h k l f g x =
      let a : Agrees r (some (τ, t, e)) =
        subst (Agrees r) f (run-Agrees r tries answers s σ h k l) in
      (
        at_last (is_written e) (ends_task r.mark_complete_on_failure e)
            (is_task_completed t.state r.tags.task_id) g x a.1,
        a.0,
      )
