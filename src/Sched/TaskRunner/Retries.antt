-- ===== src/Sched/TaskRunner/Retries.antt =====
-- How long runAndWait of sched/scheduler/task_runner.go tries to start a run.
use scoot.Base.{
  ℕ, ◌+◌, ◌≤◌, ◌≡◌, refl, true, ◌&&◌, ◌||◌, Option, none, some, List, [], ◌∷◌, ltb, arith, if-cases,
  is_some,
}
use scoot.Runner.Status.{is_done}
use scoot.Sched.TaskRunner.{AbortReq, TaskRunner, Try, Begun, try_once, begin_run}

-- The time that the rounds take.
abbrev pub spent : TaskRunner → List Try → ℕ
spent r [] = 0
spent r (t ∷ tries) = r.runner_retry_interval + spent r tries

-- The loop has ended.
abbrev Returns : Option Begun → Type 0
Returns o = (b : Begun) × (o ≡ some b)

-- A round ends the loop unless it may be tried again.
try_once-some :
    (r : TaskRunner) (elapsed : ℕ) (t : Try) (before after : Option AbortReq) (retry : Option Begun)
    → (ltb (elapsed + r.runner_retry_interval) r.runner_retry_timeout ≡ true
        → (b : Begun) × (retry ≡ some b))
    → (b : Begun) × (try_once r elapsed t before after retry ≡ some b)
try_once-some r elapsed t (some req) after retry h = (_, refl)
try_once-some r elapsed t none (some req) retry h = (_, refl)
try_once-some r elapsed t none none retry h =
    if-cases Returns
      (is_some t.error && ltb (elapsed + r.runner_retry_interval) r.runner_retry_timeout) retry _
      (λ e. h (ground arith))
      (λ e.
        if-cases Returns (is_some t.error || is_done t.st.state) _ _ (λ f. (_, refl))
          (λ f. (_, refl)))

-- When the rounds that the worker answers, at least one, take as long as the retry timeout, the loop that
-- starts the run ends in one of them, whatever the answers are.
pub begin_run-returns :
    (r : TaskRunner) (elapsed : ℕ) (t : Try) (tries : List Try)
    → r.runner_retry_timeout ≤ elapsed + spent r (t ∷ tries)
    → (b : Begun) × (begin_run r elapsed (t ∷ tries) ≡ some b)
unfolding begin_run
begin_run-returns r elapsed t [] h =
    try_once-some r elapsed t t.before t.after none (λ e. absurd (ground arith))
begin_run-returns r elapsed t (u ∷ tries) h =
    try_once-some r elapsed t t.before t.after
      (begin_run r (elapsed + r.runner_retry_interval) (u ∷ tries))
      (λ e. begin_run-returns r (elapsed + r.runner_retry_interval) u tries (omega (arith, h)))
