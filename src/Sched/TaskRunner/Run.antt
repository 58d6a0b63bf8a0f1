-- ===== src/Sched/TaskRunner/Run.antt =====
-- run of sched/scheduler/task_runner.go, with what it writes to the saga. A send on the saga's channel that
-- panics or blocks is `stuck`, after which nothing is returned.
use scoot.Base.{
  ℕ, ◌+◌, String, Bool, true, false, not, ◌&&◌, ◌||◌, Option, none, some, List, [], ◌∷◌, leb,
  Result, ok, err, if◌then◌else◌, is_some,
}
use scoot.Saga.Message.{Bytes, SagaMessageType}
use scoot.Saga.Message
use scoot.Saga.Log.{SagaLog}
use scoot.Saga.Object.{Saga, Outcome, returned, panicked, blocked, start_task, end_task}
use scoot.Runner.Status.{is_done, RunStatus}
use scoot.Sched.TaskRunner.{
  SagaErr, not_serialized, refused, unexpected_type, TaskError, TaskRunner, Try, Answer, Waited,
  ended, begun, begin_run, query_with_timeout, is_complete, no_error, is_erred, judged, filled,
  lettered,
}

-- What came of writing to the saga; a send on the saga's channel may also panic or block.
pub data Logged : Type 0 where
  logged : Logged
  not_logged : SagaErr → Logged
  stuck : Logged

abbrev pub of_outcome : Outcome → Logged
of_outcome (returned (ok u)) = logged
of_outcome (returned (err e)) = not_logged (refused e)
of_outcome panicked = stuck
of_outcome blocked = stuck

module _ (log : SagaLog) (serialize : RunStatus → Result String (List ℕ)) where
  abbrev pub bytes_of : Option RunStatus → Result String Bytes
  bytes_of none = ok none
  bytes_of (some st) = elim (serialize st) [ err e ↦ err e | ok b ↦ ok (some b) ]

  abbrev pub outcome : log.Store × Saga × Outcome → log.Store × Saga × Logged
  outcome (σ, s, o) = (σ, s, of_outcome o)

  abbrev pub send :
      TaskRunner → SagaMessageType → Bytes → Saga → log.Store → log.Store × Saga × Logged
  send r Message.start_task bytes s σ = outcome (start_task log s r.tags.task_id bytes σ)
  send r Message.end_task bytes s σ = outcome (end_task log s r.tags.task_id bytes σ)
  send r _ bytes s σ = (σ, s, not_logged unexpected_type)

  unfoldable pub log_task_status :
      TaskRunner → Option RunStatus → SagaMessageType → Saga → log.Store → log.Store × Saga × Logged
  log_task_status r st msg_type s σ = elim (bytes_of st) [
    | err e ↦ (σ, s, not_logged (not_serialized e))
    | ok bytes ↦ send r msg_type bytes s σ
  ]

  -- The store and the saga, with what the run came to.
  abbrev pub Waiting : Type 0
  Waiting = Option (log.Store × Saga × Waited)

  abbrev pub aborts_of : String → RunStatus → List String
  aborts_of id st = if is_complete st.state then [] else id ∷ []

  -- The second loop of runAndWait. The first running status is written to the saga, whatever comes of it.
  unfoldable pub wait_run :
      TaskRunner → String → ℕ → Bool → List Answer → Saga → log.Store → Waiting
  wait_run r id elapsed include_running [] s σ = none
  wait_run r id elapsed include_running (a ∷ answers) s σ =
      let (st, end, error) = query_with_timeout r id a in
      let later = elapsed + r.runner_retry_interval in
      let retry = wait_run r id later include_running answers s σ in
      let again = wait_run r id elapsed include_running answers s σ in
      let (τ, t, l) = log_task_status r (some st) Message.start_task s σ in
      let noted = wait_run r id elapsed false answers t τ in
      if (is_some error && leb r.runner_retry_timeout later)
        || (not (is_some error) && is_done st.state)
      then some (σ, s, record { st = st; end = end; error = error; aborts = aborts_of id st })
      else (if is_some error
          then retry
          else (if include_running then elim l [ stuck ↦ none | _ ↦ noted ] else again))

  unfoldable pub run_and_wait : TaskRunner → List Try → List Answer → Saga → log.Store → Waiting
  run_and_wait r tries answers s σ = elim (begin_run r 0 tries) [
    | none ↦ none
    | some (ended w) ↦ some (σ, s, w)
    | some (begun st) ↦ wait_run r st.run_id 0 true answers s σ
  ]

  abbrev pub Ran : Type 0
  Ran = Option (log.Store × Saga × Option TaskError)

  -- The error of run, `none` for no error at all.
  abbrev pub task_error : TaskError → Option TaskError
  task_error e =
      if is_some e.saga_err || is_some e.runner_err || is_some e.result_err then some e else none

  abbrev pub ended_task : TaskError → log.Store × Saga × Logged → Ran
  ended_task e (σ, s, logged) = some (σ, s, task_error e)
  ended_task e (σ, s, not_logged x) = some (σ, s, task_error (record e { saga_err = some x }))
  ended_task e (σ, s, stuck) = none

  -- What run does with the result of runAndWait.
  unfoldable pub conclude : TaskRunner → Waited → Saga → log.Store → Ran
  conclude r w s σ =
      let e = judged w in
      let dead_letter = is_erred e && (w.end || r.mark_complete_on_failure) in
      let e = record e { st = lettered dead_letter (filled e.st) } in
      if is_erred e && not dead_letter
      then some (σ, s, some e)
      else ended_task e (log_task_status r (some e.st) Message.end_task s σ)

  unfoldable pub run : TaskRunner → List Try → List Answer → Saga → log.Store → Ran
  run r tries answers s σ =
      let (τ, t, l) = log_task_status r none Message.start_task s σ in
      let waited = run_and_wait r tries answers t τ in
      elim l [
        | stuck ↦ none
        | not_logged x ↦ some (τ, t, some (record no_error { saga_err = some x }))
        | logged ↦ elim waited [ none ↦ none | some (υ, u, w) ↦ conclude r w u υ ]
      ]
