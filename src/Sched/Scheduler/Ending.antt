-- ===== src/Sched/Scheduler/Ending.antt =====
-- The calls of EndSaga that are under way, of checkForCompletedJobs.
use scoot.Base.{
  ℕ, ◌≡◌, ◌+◌, ◌-◌, ◌≤◌, refl, sym, ◌∙◌, subst, ap, inl, inr, String, Bool, true, false, not, ◌&&◌,
  Option, none, some, some_inj, List, [], ◌∷◌, ◌++◌, arith, All, Dict, Bool-cases, Option-cases,
  if-cases, map, ok, if◌then◌else◌, ◌==◌, ==_iff,
}
use scoot.Sched.Definitions.{Job}
use scoot.Sched.Jobs.{completed, is_status, get_job_status, JobState, TaskState, new_job_state}
use scoot.Saga.State.{SagaState}
use scoot.Sched.Kill.{request_kill}
use scoot.Sched.Shares.{JobEntry}
use scoot.Sched.Scheduler.{
  Scheduler, set_cell, job_at, put_job, set_state, add_job, start_end, check_for_completed_jobs,
  delete_job, on_saga_ended, accept_kill, set_ending, is_finished, task_id_of, killed_at, state_at,
}
use scoot.Sched.Scheduler.Index.{IsIndexed}
use scoot.Sched.Scheduler.Steps.{IsNew, is_listed, Step, adds, checks, ends, kills, goes_on}
use scoot.Sched.Scheduler.Calls.{
  times, one_if, times-append, is_listed-append, times-drop_call, times-is_listed, IsNew-is_listed,
  is_listed-remove_job, self_eq, one_if_bound, one_if-both, new_job_state_flag,
}

-- One call is under way for each job in progress whose flag is set, and no other call.
abbrev pub IsEnding : Scheduler → Type 0
IsEnding s =
    (b : ℕ) → times b s.ending ≡ one_if (is_listed b s.in_progress && (s.cell b).state.ending_saga)

start_end-IsEnding :
    (a : ℕ) (s : Scheduler)
    → is_listed a s.in_progress ≡ true
    → (s.cell a).state.ending_saga ≡ false
    → IsEnding s
    → IsEnding (start_end a s)
start_end-IsEnding a s l e h b = times-append b a s.ending ∙ elim (Bool-cases (b == a)) [
  | inl w ↦
      let q : a ≡ b = ground (arith, ==_iff b a, w) in
      let z : times a s.ending ≡ 0 = h a ∙ rw (l, e) refl in
      subst
        (λ c.
          times c s.ending + one_if (a == c)
          ≡ one_if (is_listed c s.in_progress && ((start_end a s).cell c).state.ending_saga))
        q (rw (self_eq a, l, z) refl)
  | inr w ↦ let v : (a == b) ≡ false = ground (arith, w) in rw (w, v) (ground (arith, h b))
]

set_state-IsEnding :
    (a : ℕ) (j : JobState) (s : Scheduler)
    → j.ending_saga ≡ (s.cell a).state.ending_saga
    → IsEnding s
    → IsEnding (set_state a j s)
set_state-IsEnding a j s e h b = elim (Bool-cases (b == a)) [
  | inl w ↦
      let q : a ≡ b = ground (arith, ==_iff b a, w) in
      subst
        (λ c.
          times c s.ending
          ≡ one_if (is_listed c s.in_progress && ((set_state a j s).cell c).state.ending_saga))
        q (rw (self_eq a, e) (h a))
  | inr w ↦ rw w (h b)
]

no_flag : (b : Bool) → one_if (b && false) ≡ 0
no_flag true = refl
no_flag false = refl

-- What is left of the calls for a job after one of them.
times_left : (a : ℕ) (s : Scheduler) → IsEnding s → times a s.ending - 1 ≡ 0
times_left a s h =
    omega (arith, h a, one_if_bound (is_listed a s.in_progress && (s.cell a).state.ending_saga))

failed_end-IsEnding : (a : ℕ) (s : Scheduler) → IsEnding s → IsEnding (on_saga_ended a false s)
unfolding on_saga_ended
failed_end-IsEnding a s h b = times-drop_call b a s.ending ∙ elim (Bool-cases (b == a)) [
  | inl w ↦
      let q : a ≡ b = ground (arith, ==_iff b a, w) in
      subst
        (λ c.
          (if c == a then times c s.ending - 1 else times c s.ending)
          ≡ one_if (is_listed c s.in_progress && ((set_ending a false s).cell c).state.ending_saga))
        q (rw (self_eq a) (times_left a s h ∙ sym (no_flag (is_listed a s.in_progress))))
  | inr w ↦ rw w (h b)
]

successful_end-IsEnding :
    (a : ℕ) (s : Scheduler)
    → is_listed a s.ending ≡ true
    → IsIndexed s
    → IsEnding s
    → IsEnding (on_saga_ended a true s)
unfolding on_saga_ended delete_job
successful_end-IsEnding a s l i h b =
    let some_left : 1 ≤ one_if (is_listed a s.in_progress && (s.cell a).state.ending_saga) =
      omega (arith, h a, times-is_listed a s.ending l) in
    let m = one_if-both (is_listed a s.in_progress) (s.cell a).state.ending_saga some_left in
    times-drop_call b a s.ending ∙ elim (Bool-cases (b == a)) [
      | inl w ↦
          let q : a ≡ b = ground (arith, ==_iff b a, w) in
          rw (is_listed-remove_job (job_at s) a b s.in_progress i.1 m, w)
            (subst (λ c. times c s.ending - 1 ≡ 0) q (times_left a s h))
      | inr w ↦ rw (is_listed-remove_job (job_at s) a b s.in_progress i.1 m, w) (h b)
    ]

finished-flag : (b c : Bool) → (b && not c) ≡ true → c ≡ false
finished-flag b true h = ground arith
finished-flag b false h = refl

check-IsEnding :
    (xs : List ℕ) (s : Scheduler)
    → All (λ a. is_listed a s.in_progress ≡ true) xs
    → IsEnding s
    → IsEnding (check_for_completed_jobs xs s)
unfolding check_for_completed_jobs
check-IsEnding [] s l h = h
check-IsEnding (x ∷ xs) s l h =
    let next = if is_finished (s.cell x).state then start_end x s else s in
    let kept : (next.in_progress ≡ s.in_progress) × IsEnding next =
      if-cases (λ t. (t.in_progress ≡ s.in_progress) × IsEnding t) (is_finished (s.cell x).state)
        (start_end x s) s
        (λ e. (
          refl,
          start_end-IsEnding x s l.0
              (finished-flag (is_status (get_job_status (s.cell x).state) completed)
                (s.cell x).state.ending_saga e)
              h,
        ))
        (λ e. (refl, h)) in
    check-IsEnding xs next (subst (λ js. All (λ a. is_listed a js ≡ true) xs) (sym kept.0) l.1)
      kept.1

all_listed :
    (xs ys : List ℕ)
    → ((a : ℕ) → is_listed a xs ≡ true → is_listed a ys ≡ true)
    → All (λ a. is_listed a ys ≡ true) xs
all_listed [] ys f = tt
all_listed (x ∷ xs) ys f =
    (f x (rw (self_eq x) refl), all_listed xs ys (λ a l. f a (ground (arith, l))))

put_job-IsEnding :
    (a : ℕ) (j : JobEntry) (s : Scheduler)
    → IsNew a s.in_progress
    → j.state.ending_saga ≡ false
    → IsEnding s
    → IsEnding (put_job a j s)
unfolding put_job
put_job-IsEnding a j s n e h b = elim (Bool-cases (b == a)) [
  | inl w ↦
      let q : a ≡ b = ground (arith, ==_iff b a, w) in
      let z : times a s.ending ≡ 0 = h a ∙ rw (IsNew-is_listed a s.in_progress n) refl in
      subst
        (λ c.
          times c s.ending
          ≡ one_if (
              is_listed c (s.in_progress ++ a ∷ []) && ((set_cell a j s).cell c).state.ending_saga))
        q (rw (self_eq a, e, z) (sym (no_flag (is_listed a (s.in_progress ++ a ∷ [])))))
  | inr w ↦
      let v : (a == b) ≡ false = ground (arith, w) in
      rw (w, is_listed-append b a s.in_progress, v) (ground (arith, h b))
]

add_job-IsEnding :
    (sort : List TaskState → List TaskState) (durations : Dict ℕ) (now a : ℕ) (saga : SagaState)
    (job : Job) (ids : List String) (s t : Scheduler)
    → IsNew a s.in_progress
    → add_job sort durations now a saga job s ≡ some (ids, t)
    → IsEnding s
    → IsEnding t
unfolding add_job
add_job-IsEnding sort durations now a saga job ids s t new e h =
    elim (Option-cases (new_job_state job.id (map task_id_of job.def.tasks) saga durations now)) [
      | inl m ↦ absurd (ground (arith, rw (m, add_job) at e))
      | inr (state, m) ↦
          let q = ap (λ p. p.1) (some_inj.0 (rw (m, add_job) at e)) in
          let flag =
            new_job_state_flag job.id (map task_id_of job.def.tasks) saga durations now state m in
          subst IsEnding q (put_job-IsEnding a _ s new flag h)
    ]

killed_at-IsEnding :
    (s t : Scheduler) (a : Option ℕ)
    → killed_at s a (request_kill (state_at s a)) ≡ ok t
    → IsEnding s
    → IsEnding t
unfolding request_kill
killed_at-IsEnding s t none e h = absurd (ground arith)
killed_at-IsEnding s t (some a) e h = elim (Bool-cases (s.cell a).state.job_killed) [
  | inl k ↦ absurd (ground (arith, rw k at e))
  | inr k ↦
      let killed = record (s.cell a).state { job_killed = true } in
      let w : killed_at s (some a) (ok killed) ≡ ok t = rw k at e in
      let q : set_state a killed s ≡ t = ground (arith, w) in
      subst IsEnding q (set_state-IsEnding a killed s refl h)
]

-- Each change of the jobs keeps it so that one call of EndSaga is under way for each job in progress whose flag is
-- set, and that no other call is under way, provided that the requestor map and the ids are as they should be.
pub Step-IsEnding : (s t : Scheduler) → Step s t → IsIndexed s → IsEnding s → IsEnding t
unfolding accept_kill
Step-IsEnding s _ (adds sort durations now a saga job ids t new f e) i h =
    add_job-IsEnding sort durations now a saga job ids s t new e h
Step-IsEnding s _ checks i h =
    check-IsEnding s.in_progress s (all_listed s.in_progress s.in_progress (λ a l. l)) h
Step-IsEnding s _ (ends a true e) i h = successful_end-IsEnding a s e i h
Step-IsEnding s _ (ends a false e) i h = failed_end-IsEnding a s h
Step-IsEnding s _ (kills id t e) i h = killed_at-IsEnding s t _ e h
Step-IsEnding s _ (goes_on a j e) i h = set_state-IsEnding a j s e h
