-- ===== src/Sched/Jobs/Recovery.antt =====
-- How sched/scheduler/job_state.go starts a job from the saga that logged its earlier progress.
use scoot.Base.{
  ℕ, ◌≡◌, refl, sym, ◌∙◌, subst, ap, inl, inr, String, true, false, some, some_inj, List, [], ◌∷◌,
  map, str_eq, eq_iff, arith, All, All-map, pos, inc, Dict, keys, Absent, Distinct, Bool-cases,
  Option-cases,
}
use scoot.Saga.State.{SagaState, is_task_completed}
use scoot.Sched.Jobs.{
  Status, not_started, in_progress, completed, TaskState, JobState, get_task, change_task,
  is_status, new_task, completed_before, recover_tasks, fresh, new_job_state,
}
use scoot.Sched.Jobs.Counts.{count, count-change_task, change_task-some, IsCounted}

-- A change of one task leaves the tasks with other ids alone.
get_task-change_task :
    (f : TaskState → TaskState) (id other : String) (ts us : List TaskState)
    → ((t : TaskState) → (f t).task_id ≡ t.task_id)
    → str_eq id other ≡ false
    → change_task f id ts ≡ some us
    → get_task other us ≡ get_task other ts
unfolding get_task change_task
get_task-change_task f id other [] us k n h = absurd (ground arith)
get_task-change_task f id other (x ∷ ts) us k n h = elim (Bool-cases (str_eq x.task_id id)) [
  | inl e ↦
      let changed : f x ∷ ts ≡ us = some_inj.0 (rw (e, change_task) at h) in
      subst (λ vs. get_task other vs ≡ get_task other (x ∷ ts)) changed
        (ground
          (arith, k x, eq_iff x.task_id id, eq_iff (f x).task_id other, eq_iff x.task_id other))
  | inr e ↦ elim (Option-cases (change_task f id ts)) [
    | inl m ↦ absurd (ground arith)
    | inr (vs, m) ↦
        let changed : x ∷ vs ≡ us = some_inj.0 (rw (e, m, change_task) at h) in
        let ih = get_task-change_task f id other ts vs k n m in
        subst (λ ws. get_task other ws ≡ get_task other (x ∷ ts)) changed (ground (arith, ih))
  ]
]

-- The task with the id is one that has not started.
abbrev Waits : List TaskState → String → Type 0
Waits ts id = (t : TaskState) × (get_task id ts ≡ some t) × (t.status ≡ not_started)

-- The same, if the saga has the task as completed.
abbrev Recoverable : SagaState → List TaskState → Dict ℕ → Type 0
Recoverable saga ts m = All (λ e. is_task_completed saga e.0 ≡ true → Waits ts e.0) m

kept :
    (saga : SagaState) (id : String) (ts us : List TaskState) (m : Dict ℕ)
    → change_task completed_before id ts ≡ some us
    → Absent id m
    → Recoverable saga ts m
    → Recoverable saga us m
kept saga id ts us [] h a r = tt
kept saga id ts us ((j, w) ∷ m) h a r = (
  λ c.
      let (t, g, s) = r.0 c in
      (
        t,
        get_task-change_task completed_before id j ts us (λ x. refl)
              (ground (arith, a.0, eq_iff id j, eq_iff j id)) h
            ∙ g,
        s,
      ),
  kept saga id ts us m h a.1 r.1,
)

recover_tasks-IsCounted :
    (saga : SagaState) (m : Dict ℕ) (j : JobState)
    → Distinct m
    → Recoverable saga j.tasks m
    → IsCounted j
    → (k : JobState) × (recover_tasks saga (keys m) j ≡ some k) × IsCounted k
unfolding recover_tasks
recover_tasks-IsCounted saga [] j d r c = (j, refl, c)
recover_tasks-IsCounted saga ((id, w) ∷ m) j d r c = elim (Bool-cases (is_task_completed saga id)) [
  | inr e ↦
      let (k, h, b) = recover_tasks-IsCounted saga m j d.1 r.1 c in (k, rw (e, recover_tasks) h, b)
  | inl e ↦
      let (t, g, s) = r.0 e in
      let (us, u) = change_task-some completed_before id j.tasks t g in
      let n = count-change_task completed_before id completed j.tasks us t g u in
      let p = count-change_task completed_before id in_progress j.tasks us t g u in
      let next : JobState = record j { tasks = us; tasks_completed = inc j.tasks_completed } in
      let counted : IsCounted next = record {
        done = ground (arith, n.0, s, c.done);
        busy = ground (arith, p.0, s, c.busy);
      } in
      let (k, h, b) =
        recover_tasks-IsCounted saga m next d.1 (kept saga id j.tasks us m u d.0 r.1) counted in
      (k, rw (e, u, recover_tasks) h, b)
]

new_task-Waits :
    (job_id : String) (durations : Dict ℕ) (ids : List String) (id : String) (t : TaskState)
    → get_task id (map (new_task job_id durations) ids) ≡ some t
    → t.status ≡ not_started
unfolding get_task
new_task-Waits job_id durations [] id t h = absurd (ground arith)
new_task-Waits job_id durations (i ∷ ids) id t h = elim (Bool-cases (str_eq i id)) [
  | inl e ↦
      let same : new_task job_id durations i ≡ t = some_inj.0 (rw (e, get_task) at h) in
      ap (λ x. x.status) (sym same)
  | inr e ↦ new_task-Waits job_id durations ids id t (rw (e, get_task) at h)
]

count-fresh :
    (s : Status) (job_id : String) (durations : Dict ℕ) (ids : List String)
    → is_status not_started s ≡ false
    → count s (map (new_task job_id durations) ids) ≡ 0
count-fresh s job_id durations [] h = refl
count-fresh s job_id durations (i ∷ ids) h = ground (arith, count-fresh s job_id durations ids h)

-- Every task that the saga has as completed is a task of the job.
abbrev pub IsPart : SagaState → List TaskState → Type 0
IsPart saga ts =
    All (λ e. is_task_completed saga e.0 ≡ true → (t : TaskState) × (get_task e.0 ts ≡ some t))
      saga.task_state

-- A job that is started from a saga whose completed tasks are among the job's does not panic, and its counts
-- agree with its tasks.
pub new_job_state-IsCounted :
    (job_id : String) (ids : List String) (saga : SagaState) (durations : Dict ℕ) (now : ℕ)
    → Distinct saga.task_state
    → IsPart saga (fresh job_id ids durations now).tasks
    → (k : JobState) × (new_job_state job_id ids saga durations now ≡ some k) × IsCounted k
unfolding new_job_state
new_job_state-IsCounted job_id ids saga durations now d part =
    recover_tasks-IsCounted saga saga.task_state (fresh job_id ids durations now) d
      (All-map _ _ saga.task_state
        (λ e h c. ((h c).0, (h c).1, new_task-Waits job_id durations ids e.0 (h c).0 (h c).1)) part)
      (record {
        done = ap pos (sym (count-fresh completed job_id durations ids refl));
        busy = ap pos (sym (count-fresh in_progress job_id durations ids refl));
      })
