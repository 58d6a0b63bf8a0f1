-- ===== src/Sched/Jobs/Counts.antt =====
-- The counts of sched/scheduler/job_state.go agree with the states of the tasks.
use scoot.Base.{
  ℕ, suc, ◌+◌, ◌≤◌, ◌≡◌, ◌↔◌, refl, subst, inl, inr, String, Bool, true, false, Option, some,
  some_inj, List, [], ◌∷◌, str_eq, length, arith, All, pos, inc, dec, if◌then◌else◌, Bool-cases,
  Option-cases,
}
use scoot.Sched.Jobs.{
  Status, not_started, in_progress, completed, TaskState, JobState, get_task, change_task,
  is_status, started, finished, failed, task_started, task_completed, error_running_task,
  get_job_status,
}

abbrev one_if : Bool → ℕ
one_if true = 1
one_if false = 0

-- How many tasks have the status.
abbrev pub count : Status → List TaskState → ℕ
count s [] = 0
count s (t ∷ ts) = one_if (is_status t.status s) + count s ts

count-le : (s : Status) (ts : List TaskState) → count s ts ≤ length ts
count-le s [] = ground arith
count-le s (t ∷ ts) = ground (arith, count-le s ts)

-- A change of the first task with the id moves it from its old status to the new one.
pub count-change_task :
    (f : TaskState → TaskState) (id : String) (s : Status) (ts us : List TaskState) (t : TaskState)
    → get_task id ts ≡ some t
    → change_task f id ts ≡ some us
    → (one_if (is_status t.status s) + count s us ≡ one_if (is_status (f t).status s) + count s ts)
      × (length us ≡ length ts)
unfolding get_task change_task
count-change_task f id s [] us t h k = absurd (ground arith)
count-change_task f id s (x ∷ ts) us t h k = elim (Bool-cases (str_eq x.task_id id)) [
  | inl e ↦
      let same : x ≡ t = some_inj.0 (rw (e, get_task) at h) in
      let changed : f x ∷ ts ≡ us = some_inj.0 (rw (e, change_task) at k) in
      subst
        (λ vs.
          (one_if (is_status t.status s) + count s vs
            ≡ one_if (is_status (f t).status s) + count s (x ∷ ts))
          × (length vs ≡ suc (length ts)))
        changed
        (subst
          (λ y.
            (one_if (is_status y.status s) + (one_if (is_status (f x).status s) + count s ts)
              ≡ one_if (is_status (f y).status s) + (one_if (is_status x.status s) + count s ts))
            × (suc (length ts) ≡ suc (length ts)))
          same (omega arith, refl))
  | inr e ↦ elim (Option-cases (change_task f id ts)) [
    | inl m ↦ absurd (ground arith)
    | inr (vs, m) ↦
        let ih = count-change_task f id s ts vs t (rw (e, get_task) at h) m in
        let changed : x ∷ vs ≡ us = some_inj.0 (rw (e, m, change_task) at k) in
        subst
          (λ ws.
            (one_if (is_status t.status s) + count s ws
              ≡ one_if (is_status (f t).status s) + count s (x ∷ ts))
            × (length ws ≡ suc (length ts)))
          changed (omega (arith, ih.0), omega (arith, ih.1))
  ]
]

-- The change of a task that is there succeeds.
pub change_task-some :
    (f : TaskState → TaskState) (id : String) (ts : List TaskState) (t : TaskState)
    → get_task id ts ≡ some t
    → (us : List TaskState) × (change_task f id ts ≡ some us)
unfolding get_task change_task
change_task-some f id [] t h = absurd (ground arith)
change_task-some f id (x ∷ ts) t h = elim (Bool-cases (str_eq x.task_id id)) [
  | inl e ↦ (f x ∷ ts, rw (e, change_task) refl)
  | inr e ↦
      let (vs, m) = change_task-some f id ts t (rw (e, get_task) at h) in
      (x ∷ vs, rw (e, m, change_task) refl)
]

-- The counters are the numbers of tasks that are completed and in progress.
pub record IsCounted (j : JobState) : Type 0 where
  pub done : j.tasks_completed ≡ pos (count completed j.tasks)
  pub busy : j.tasks_running ≡ pos (count in_progress j.tasks)

-- What the scheduler tells a job of its tasks.
pub data TaskEvent : Type 0 where
  starts : String → ℕ → ℕ → TaskEvent
  completes : String → Bool → TaskEvent
  errs : String → Bool → TaskEvent

abbrev pub step : TaskEvent → JobState → Option JobState
step (starts id runner now) j = task_started j id runner now
step (completes id running) j = task_completed j id running
step (errs id preempted) j = error_running_task j id preempted

abbrev pub subject : TaskEvent → String
subject (starts id runner now) = id
subject (completes id running) = id
subject (errs id preempted) = id

-- The status that the task has before.
abbrev pub before : TaskEvent → Status
before (starts id runner now) = not_started
before (completes id running) = if running then in_progress else not_started
before (errs id preempted) = in_progress

-- An event for a task of the job that has the status which the event takes for granted does not panic, and
-- keeps the counts.
pub step-IsCounted :
    (e : TaskEvent) (j : JobState) (t : TaskState)
    → get_task (subject e) j.tasks ≡ some t
    → t.status ≡ before e
    → IsCounted j
    → (k : JobState) × (step e j ≡ some k) × IsCounted k
unfolding task_started task_completed error_running_task
step-IsCounted (starts id runner now) j t h b c =
    let (us, m) = change_task-some (started runner now) id j.tasks t h in
    let d = count-change_task (started runner now) id completed j.tasks us t h m in
    let p = count-change_task (started runner now) id in_progress j.tasks us t h m in
    (
      record j { tasks = us; tasks_running = inc j.tasks_running },
      rw (task_started, m) refl,
      record { done = ground (arith, d.0, b, c.done); busy = ground (arith, p.0, b, c.busy) },
    )
step-IsCounted (completes id running) j t h b c =
    let (us, m) = change_task-some finished id j.tasks t h in
    let d = count-change_task finished id completed j.tasks us t h m in
    let p = count-change_task finished id in_progress j.tasks us t h m in
    (
      record j {
        tasks = us;
        tasks_completed = inc j.tasks_completed;
        tasks_running = if running then dec j.tasks_running else j.tasks_running;
      },
      rw (task_completed, m) refl,
      record { done = ground (arith, d.0, b, c.done); busy = ground (arith, p.0, b, c.busy) },
    )
step-IsCounted (errs id preempted) j t h b c =
    let (us, m) = change_task-some (failed preempted) id j.tasks t h in
    let d = count-change_task (failed preempted) id completed j.tasks us t h m in
    let p = count-change_task (failed preempted) id in_progress j.tasks us t h m in
    (
      record j { tasks = us; tasks_running = dec j.tasks_running },
      rw (error_running_task, m) refl,
      record { done = ground (arith, d.0, b, c.done); busy = ground (arith, p.0, b, c.busy) },
    )

All-count :
    (ts : List TaskState)
    → count completed ts ≡ length ts
    → All (λ t. is_status t.status completed ≡ true) ts
All-count [] h = tt
All-count (t ∷ ts) h =
    (ground (arith, count-le completed ts), All-count ts (ground (arith, count-le completed ts)))

count-All :
    (ts : List TaskState)
    → All (λ t. is_status t.status completed ≡ true) ts
    → count completed ts ≡ length ts
count-All [] h = refl
count-All (t ∷ ts) h = ground (arith, h.0, count-All ts h.1)

-- A job whose counts agree is reported as completed if and only if each of its tasks is.
pub get_job_status-completed_iff :
    (j : JobState)
    → IsCounted j
    → (get_job_status j ≡ completed) ↔ All (λ t. is_status t.status completed ≡ true) j.tasks
unfolding get_job_status
get_job_status-completed_iff j c = (
  λ h. All-count j.tasks (ground (arith, c.done)),
  λ h. ground (arith, c.done, count-All j.tasks h),
)
