-- ===== src/Sched/TaskRunner/Kills.antt =====
-- Where the statuses come from that runAndWait of sched/scheduler/task_runner.go returns as aborted.
use scoot.Base.{
  ℕ, ◌+◌, ◌≡◌, refl, subst, inl, inr, String, Bool, true, false, not, ◌&&◌, ◌||◌, Option, none,
  some, List, [], ◌∷◌, leb, ltb, arith, Result, if-cases, is_some, All, Option-cases,
}
use scoot.Saga.Message
use scoot.Saga.Log.{SagaLog}
use scoot.Saga.Object.{Saga}
use scoot.Saga.Durability.{IsLogged}
use scoot.Runner.Status.{RunStatus, is_done}
use scoot.Sched.TaskRunner.{
  AbortReq, TaskRunner, Try, Answer, Begun, ended, begun, is_aborted, try_once, begin_run,
  query_with_timeout, only_status,
}
use scoot.Sched.TaskRunner.Run.{
  Logged, logged, not_logged, stuck, log_task_status, Waiting, wait_run, run_and_wait,
}
use scoot.Sched.TaskRunner.Agreement.{log_task_status-IsLogged}

-- A request ends the task, as killJobs asks for.
abbrev pub IsKill : Option AbortReq → Type 0
IsKill none = Unit
IsKill (some req) = req.end_task ≡ true

-- The worker never reports a run as aborted on its own account.
abbrev pub IsPlainTry : Try → Type 0
IsPlainTry t = (is_aborted t.st.state ≡ false) × IsKill t.before × IsKill t.after

abbrev pub IsPlainAnswer : Answer → Type 0
IsPlainAnswer a = All (λ (st : RunStatus). is_aborted st.state ≡ false) a.sts × IsKill a.abort

-- An aborted status comes with the end of the task.
abbrev pub IsKilled : Bool → Bool → Type 0
IsKilled is_end is_abort = (is_abort && not is_end) ≡ false

abbrev IsSettled : Begun → Type 0
IsSettled (ended w) = IsKilled w.end (is_aborted w.st.state)
IsSettled (begun st) = Unit

abbrev Settles : Option Begun → Type 0
Settles none = Unit
Settles (some b) = IsSettled b

try_once-Settles :
    (r : TaskRunner) (elapsed : ℕ) (t : Try) (before after : Option AbortReq) (retry : Option Begun)
    → is_aborted t.st.state ≡ false
    → IsKill before
    → IsKill after
    → Settles retry
    → Settles (try_once r elapsed t before after retry)
try_once-Settles r elapsed t (some req) after retry h b a k = ground arith
try_once-Settles r elapsed t none (some req) retry h b a k = ground arith
try_once-Settles r elapsed t none none retry h b a k =
    if-cases Settles
      (is_some t.error && ltb (elapsed + r.runner_retry_interval) r.runner_retry_timeout) _ _
      (λ e. k)
      (λ e.
        if-cases Settles (is_some t.error || is_done t.st.state) _ _ (λ f. ground arith) (λ f. tt))

begin_run-Settles :
    (r : TaskRunner) (elapsed : ℕ) (tries : List Try)
    → All IsPlainTry tries
    → Settles (begin_run r elapsed tries)
unfolding begin_run
begin_run-Settles r elapsed [] h = tt
begin_run-Settles r elapsed (t ∷ tries) h =
    try_once-Settles r elapsed t t.before t.after
      (begin_run r (elapsed + r.runner_retry_interval) tries) h.0.0 h.0.1 h.0.2
      (begin_run-Settles r (elapsed + r.runner_retry_interval) tries h.1)

only_status-plain :
    (id : String) (sts : List RunStatus)
    → All (λ (st : RunStatus). is_aborted st.state ≡ false) sts
    → is_aborted (only_status id sts).state ≡ false
only_status-plain id [] h = refl
only_status-plain id (st ∷ []) h = h.0
only_status-plain id (st ∷ u ∷ sts) h = refl

query-IsKilled :
    (r : TaskRunner) (id : String) (a : Answer)
    → IsPlainAnswer a
    → IsKilled (query_with_timeout r id a).1 (is_aborted (query_with_timeout r id a).0.state)
query-IsKilled r id a h = elim (Option-cases a.abort) [
  | inr (req, e) ↦ let kill : req.end_task ≡ true = subst IsKill e h.1 in rw e (ground arith)
  | inl e ↦ elim (Option-cases a.error) [
    | inr (x, f) ↦ rw (e, f) refl
    | inl f ↦ rw (e, f, only_status-plain id a.sts h.0) refl
  ]
]

module _ (log : SagaLog) (serialize : RunStatus → Result String (List ℕ)) where
  -- The log is in step with the saga after the run, and an aborted status ends the task.
  abbrev pub WaitsWell : Waiting log serialize → Type 0
  WaitsWell none = Unit
  WaitsWell (some (σ, s, w)) = IsLogged log σ s × IsKilled w.end (is_aborted w.st.state)

  unless_stuck :
      (l : Logged) (k : Waiting log serialize)
      → WaitsWell k
      → WaitsWell (elim l [ stuck ↦ none | _ ↦ k ])
  unless_stuck logged k h = h
  unless_stuck (not_logged x) k h = h
  unless_stuck stuck k h = tt

  wait_run-WaitsWell :
      (r : TaskRunner) (id : String) (elapsed : ℕ) (include_running : Bool) (answers : List Answer)
      (s : Saga) (σ : log.Store)
      → All IsPlainAnswer answers
      → IsLogged log σ s
      → WaitsWell (wait_run log serialize r id elapsed include_running answers s σ)
  unfolding wait_run
  wait_run-WaitsWell r id elapsed include_running [] s σ h l = tt
  wait_run-WaitsWell r id elapsed include_running (a ∷ answers) s σ h l =
      let q = query_with_timeout r id a in
      let later = elapsed + r.runner_retry_interval in
      let n = log_task_status log serialize r (some q.0) Message.start_task s σ in
      if-cases WaitsWell
        ((is_some q.2 && leb r.runner_retry_timeout later)
          || (not (is_some q.2) && is_done q.0.state))
        _ _ (λ e. (l, query-IsKilled r id a h.0))
        (λ e.
          if-cases WaitsWell (is_some q.2) _ _
            (λ f. wait_run-WaitsWell r id later include_running answers s σ h.1 l)
            (λ f.
              if-cases WaitsWell include_running _ _
                (λ g. unless_stuck n.2 (wait_run log serialize r id elapsed false answers n.1 n.0) (
                  wait_run-WaitsWell r id elapsed false answers n.1 n.0 h.1
                    (log_task_status-IsLogged log serialize r (some q.0) Message.start_task s σ l)))
                (λ g. wait_run-WaitsWell r id elapsed include_running answers s σ h.1 l)))

  pub run_and_wait-WaitsWell :
      (r : TaskRunner) (tries : List Try) (answers : List Answer) (s : Saga) (σ : log.Store)
      → All IsPlainTry tries
      → All IsPlainAnswer answers
      → IsLogged log σ s
      → WaitsWell (run_and_wait log serialize r tries answers s σ)
  unfolding run_and_wait
  run_and_wait-WaitsWell r tries answers s σ h k l =
      go (begin_run r 0 tries) (begin_run-Settles r 0 tries h)
    where
      go :
          (b : Option Begun)
          → Settles b
          → WaitsWell (elim b [
            | none ↦ none
            | some (ended w) ↦ some (σ, s, w)
            | some (begun st) ↦ wait_run log serialize r st.run_id 0 true answers s σ
          ])
      go none g = tt
      go (some (ended w)) g = (l, g)
      go (some (begun st)) g = wait_run-WaitsWell r st.run_id 0 true answers s σ k l
