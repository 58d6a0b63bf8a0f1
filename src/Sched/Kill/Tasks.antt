-- ===== src/Sched/Kill/Tasks.antt =====
-- What killJobs of sched/scheduler/stateful_scheduler.go leaves of a job's tasks.
use scoot.Base.{
  ℕ, ◌≡◌, refl, sym, ap, ◌∙◌, subst, inl, inr, String, true, false, not, ◌&&◌, Option, none, some,
  some_inj, List, [], ◌∷◌, ◌++◌, str_eq, eq_iff, eq_refl, arith, Result, is_some, All, All-map,
  All-zip, Bool-cases, Option-cases,
}
use mathlib.Core.List.{append-nil, append_assoc}
use scoot.Saga.Message.{
  SagaError, SagaMessage, is_end_saga, make_start_task_message, make_end_task_message,
}
use scoot.Saga.Log.{SagaLog, log_message}
use scoot.Saga.Object.{Saga, returned, update_saga_state, start_task, end_task}
use scoot.Runner.Status.{RunStatus}
use scoot.Sched.Jobs.{
  Status, not_started, in_progress, completed, rolling_back, rolled_back, TaskState, JobState,
  get_task, change_task, is_status, finished, task_completed,
}
use scoot.Sched.Jobs.Counts.{
  count, count-change_task, change_task-some, IsCounted, completes, step-IsCounted,
}
use scoot.Sched.Kill.{Killing, bytes_or_nil, end_unstarted, kill_task, kill_tasks, unstarted_status}

-- No two tasks share an id.
abbrev pub AreDistinct : List TaskState → Type 0
AreDistinct [] = Unit
AreDistinct (t ∷ ts) = All (λ u. str_eq t.task_id u.task_id ≡ false) ts × AreDistinct ts

-- Each of the tasks is found by its id.
abbrev AreFound : List TaskState → List TaskState → Type 0
AreFound all ts = All (λ t. get_task t.task_id all ≡ some t) ts

distinct-AreFound : (ts : List TaskState) → AreDistinct ts → AreFound ts ts
unfolding get_task
distinct-AreFound [] d = tt
distinct-AreFound (t ∷ ts) d = (
  rw (eq_refl t.task_id) refl,
  All-map _ _ ts (λ u h. rw h.0 h.1) (All-zip _ _ ts d.0 (distinct-AreFound ts d.1)),
)

-- The other tasks are found as before.
get_task-finished :
    (id other : String) (ts us : List TaskState)
    → str_eq id other ≡ false
    → change_task finished id ts ≡ some us
    → get_task other us ≡ get_task other ts
unfolding get_task change_task
get_task-finished id other [] us n h = absurd (ground arith)
get_task-finished id other (t ∷ ts) us n h = elim (Bool-cases (str_eq t.task_id id)) [
  | inl e ↦
      let made : finished t ∷ ts ≡ us = some_inj.0 (rw (e, change_task) at h) in
      let away : str_eq t.task_id other ≡ false = rw ((eq_iff t.task_id id).0 e) n in
      subst (λ vs. get_task other vs ≡ get_task other (t ∷ ts)) made (rw (away, get_task) refl)
  | inr e ↦ elim (Option-cases (change_task finished id ts)) [
    | inl m ↦ absurd (ground arith)
    | inr (vs, m) ↦
        let made : t ∷ vs ≡ us = some_inj.0 (rw (e, m, change_task) at h) in
        subst (λ ws. get_task other ws ≡ get_task other (t ∷ ts)) made
          (rw (get_task, get_task-finished id other ts vs n m) refl)
  ]
]

task_completed-tasks :
    (j k : JobState) (id : String) (us : List TaskState)
    → change_task finished id j.tasks ≡ some us
    → task_completed j id false ≡ some k
    → k.tasks ≡ us
unfolding task_completed
task_completed-tasks j k id us m f = ground arith

-- Every task in progress has its runner.
abbrev pub HasRunner : TaskState → Type 0
HasRunner t = (is_status t.status in_progress && not (is_some t.task_runner)) ≡ false

abbrev runner_of : Status → Option ℕ → List ℕ
runner_of in_progress (some n) = n ∷ []
runner_of _ _ = []

-- The runners of the tasks in progress.
abbrev pub runners : List TaskState → List ℕ
runners [] = []
runners (t ∷ ts) = runner_of t.status t.task_runner ++ runners ts

module _ (log : SagaLog) (serialize : RunStatus → Result String (List ℕ)) where
  abbrev pub Serves : Saga → Type 0
  Serves s = (s.is_open ≡ true) × (s.has_loop ≡ true)

  -- A saga that serves requests answers one that does not end it, and goes on.
  update_saga_state-Serves :
      (s : Saga) (m : SagaMessage) (σ : log.Store)
      → is_end_saga m.msg_type ≡ false
      → Serves s
      → (r : Result SagaError (Unit {0})) × ((update_saga_state log s m σ).2 ≡ returned r)
        × Serves (update_saga_state log s m σ).1
  unfolding update_saga_state
  update_saga_state-Serves s m σ e v =
      ((log_message log s.state m σ).2, ground arith, (ground arith, ground arith))

  end_unstarted-some :
      (k : Killing log serialize) (t : TaskState) (j : JobState)
      → Serves k.saga
      → task_completed k.job t.task_id false ≡ some j
      → (l : Killing log serialize) × (end_unstarted log serialize k t ≡ some l)
        × (l.job ≡ j)
        × (l.aborts ≡ k.aborts)
        × Serves l.saga
  unfolding start_task end_task
  end_unstarted-some k t j v e =
      let m = make_start_task_message k.saga.id t.task_id none in
      let begun = update_saga_state log k.saga m k.store in
      let (r, f, w) = update_saga_state-Serves k.saga m k.store refl v in
      let n =
        make_end_task_message begun.1.id t.task_id
          (bytes_or_nil log serialize (unstarted_status t)) in
      let done = update_saga_state log begun.1 n begun.0 in
      let (q, g, x) = update_saga_state-Serves begun.1 n begun.0 refl w in
      (record k { store = done.0; saga = done.1; job = j }, rw (f, g, e) refl, refl, refl, x)

  -- Where the loop is: the tasks that are left.
  record IsGoing (ts : List TaskState) (k : Killing log serialize) : Type 0 where
    counted : IsCounted k.job
    found : AreFound k.job.tasks ts
    left : count not_started k.job.tasks ≡ count not_started ts
    serves : Serves k.saga

  -- What the loop comes to.
  pub record IsKilled (ts : List TaskState) (k l : Killing log serialize) : Type 0 where
    pub counted : IsCounted l.job
    pub none_left : count not_started l.job.tasks ≡ 0
    pub told : l.aborts ≡ k.aborts ++ runners ts

  -- One task, which the loop then has behind it.
  kill_task-IsGoing :
      (s : Status) (t : TaskState) (ts : List TaskState) (k : Killing log serialize)
      → t.status ≡ s
      → HasRunner t
      → All (λ u. str_eq t.task_id u.task_id ≡ false) ts
      → IsGoing (t ∷ ts) k
      → (l : Killing log serialize) × (kill_task log serialize s k t ≡ some l)
        × IsGoing ts l
        × (l.aborts ≡ k.aborts ++ runner_of s t.task_runner)
  kill_task-IsGoing completed t ts k e h d g = (
    k,
    refl,
    record {
      counted = g.counted;
      found = g.found.1;
      left = ground (arith, g.left);
      serves = g.serves;
    },
    sym (append-nil k.aborts),
  )
  kill_task-IsGoing rolling_back t ts k e h d g = (
    k,
    refl,
    record {
      counted = g.counted;
      found = g.found.1;
      left = ground (arith, g.left);
      serves = g.serves;
    },
    sym (append-nil k.aborts),
  )
  kill_task-IsGoing rolled_back t ts k e h d g = (
    k,
    refl,
    record {
      counted = g.counted;
      found = g.found.1;
      left = ground (arith, g.left);
      serves = g.serves;
    },
    sym (append-nil k.aborts),
  )
  kill_task-IsGoing in_progress t ts k e h d g = elim (Option-cases t.task_runner) [
    | inl f ↦ absurd (ground arith)
    | inr (n, f) ↦ rw f (
      record k { aborts = k.aborts ++ (n ∷ []) },
      refl,
      record {
        counted = g.counted;
        found = g.found.1;
        left = ground (arith, g.left);
        serves = g.serves;
      },
      refl,
    )
  ]
  kill_task-IsGoing not_started t ts k e h d g =
      let (j, f, c) = step-IsCounted (completes t.task_id false) k.job t g.found.0 e g.counted in
      let (us, m) = change_task-some finished t.task_id k.job.tasks t g.found.0 in
      let made : j.tasks ≡ us = task_completed-tasks k.job j t.task_id us m f in
      let fewer = count-change_task finished t.task_id not_started k.job.tasks us t g.found.0 m in
      let there : AreFound us ts =
        All-map _ _ ts (λ u h. get_task-finished t.task_id u.task_id k.job.tasks us h.0 m ∙ h.1)
          (All-zip _ _ ts d g.found.1) in
      let (l, q, lj, la, lv) = end_unstarted-some k t j g.serves f in
      (
        l,
        q,
        record {
          counted = rw lj c;
          found = rw (lj, made) there;
          left = rw (lj, made) (ground (arith, fewer.0, e, g.left));
          serves = lv;
        },
        la ∙ sym (append-nil k.aborts),
      )

  kill_tasks-IsGoing :
      (ts : List TaskState) (k : Killing log serialize)
      → All HasRunner ts
      → AreDistinct ts
      → IsGoing ts k
      → (l : Killing log serialize) × (kill_tasks log serialize ts k ≡ some l) × IsKilled ts k l
  unfolding kill_tasks
  kill_tasks-IsGoing [] k h d g = (
    k,
    refl,
    record { counted = g.counted; none_left = g.left; told = sym (append-nil k.aborts) },
  )
  kill_tasks-IsGoing (t ∷ ts) k h d g =
      let (m, f, n, a) = kill_task-IsGoing t.status t ts k refl h.0 d.0 g in
      let (l, p, z) = kill_tasks-IsGoing ts m h.1 d.1 n in
      (
        l,
        rw (f, kill_tasks) p,
        record {
          counted = z.counted;
          none_left = z.none_left;
          told =
              z.told
              ∙ (ap (λ told. told ++ runners ts) a
                  ∙ append_assoc k.aborts (runner_of t.status t.task_runner) (runners ts));
        },
      )

  -- For a job whose counts agree, whose tasks have ids that differ and a runner each while in progress, and
  -- whose saga serves requests, the kill goes through all of its tasks whatever the saga answers: no task is
  -- left that was not started, the counts agree still, and the runners of the tasks in progress, and no
  -- others, are told to abort.
  pub kill_tasks-IsKilled :
      (k : Killing log serialize)
      → IsCounted k.job
      → AreDistinct k.job.tasks
      → All HasRunner k.job.tasks
      → Serves k.saga
      → (l : Killing log serialize) × (kill_tasks log serialize k.job.tasks k ≡ some l)
        × IsKilled k.job.tasks k l
  kill_tasks-IsKilled k c d h v =
      kill_tasks-IsGoing k.job.tasks k h d
        (record { counted = c; found = distinct-AreFound k.job.tasks d; left = refl; serves = v })
