-- ===== src/Sched/Scheduler/Calls.antt =====
-- The lists of calls and of jobs in progress, as addresses, and the flag of a new job: for the calls of EndSaga.
use scoot.Base.{
  inc, ℕ, ◌≡◌, ◌+◌, ◌-◌, ◌≤◌, refl, sym, ◌∙◌, subst, ap, inl, inr, String, Bool, true, false, not,
  ◌&&◌, ◌||◌, Option, none, some, some_inj, List, [], ◌∷◌, ◌++◌, str_eq, eq_iff, eq_refl, arith,
  Dict, Bool-cases, Option-cases, if-cases, if◌then◌else◌, ◌==◌, ==_iff,
}
use scoot.Sched.Definitions.{Job}
use scoot.Sched.Jobs.{
  JobState, TaskState, recover_tasks, new_job_state, on_tasks, change_task, completed_before, fresh,
}
use scoot.Saga.State.{SagaState, is_task_completed, get_task_ids}
use scoot.Sched.Scheduler.{remove_job, drop_call}
use scoot.Sched.Scheduler.Index.{IsFresh, HasDistinctIds}
use scoot.Sched.Scheduler.Steps.{IsNew, is_listed}

abbrev pub times : ℕ → List ℕ → ℕ
times a [] = 0
times a (b ∷ bs) = (if b == a then 1 else 0) + times a bs

abbrev pub one_if : Bool → ℕ
one_if true = 1
one_if false = 0

pub times-append : (b a : ℕ) (xs : List ℕ) → times b (xs ++ a ∷ []) ≡ times b xs + one_if (a == b)
times-append b a [] = ground arith
times-append b a (x ∷ xs) = ground (arith, times-append b a xs)

pub is_listed-append :
    (b a : ℕ) (xs : List ℕ) → is_listed b (xs ++ a ∷ []) ≡ (is_listed b xs || (a == b))
is_listed-append b a [] = ground arith
is_listed-append b a (x ∷ xs) = ground (arith, is_listed-append b a xs)

pub times-drop_call :
    (b a : ℕ) (xs : List ℕ)
    → times b (drop_call a xs) ≡ (if b == a then times b xs - 1 else times b xs)
unfolding drop_call
times-drop_call b a [] = ground arith
times-drop_call b a (x ∷ xs) = ground (arith, times-drop_call b a xs)

pub times-is_listed : (a : ℕ) (xs : List ℕ) → is_listed a xs ≡ true → 1 ≤ times a xs
times-is_listed a [] h = ground arith
times-is_listed a (x ∷ xs) h = ground (arith, times-is_listed a xs)

pub IsNew-is_listed : (a : ℕ) (xs : List ℕ) → IsNew a xs → is_listed a xs ≡ false
IsNew-is_listed a [] h = refl
IsNew-is_listed a (x ∷ xs) h = rw h.0 (IsNew-is_listed a xs h.1)

module _ (f : ℕ → Job) where
  IsFresh-is_listed :
      (a : ℕ) (id : String) (xs : List ℕ)
      → IsFresh f id xs
      → is_listed a xs ≡ true
      → str_eq (f a).id id ≡ false
  IsFresh-is_listed a id [] h l = ground arith
  IsFresh-is_listed a id (x ∷ xs) h l = elim (Bool-cases (x == a)) [
    | inl e ↦
        let q : x ≡ a = ground (arith, ==_iff x a, e) in
        subst (λ b. str_eq (f b).id id ≡ false) q h.0
    | inr e ↦ IsFresh-is_listed a id xs h.1 (ground (arith, e, l))
  ]

  IsFresh-is_listed_self : (x : ℕ) (xs : List ℕ) → IsFresh f (f x).id xs → is_listed x xs ≡ false
  IsFresh-is_listed_self x xs h = elim (Bool-cases (is_listed x xs)) [
    | inl m ↦
        let n = IsFresh-is_listed x (f x).id xs h m in absurd (ground (arith, n, eq_refl (f x).id))
    | inr m ↦ m
  ]

  -- The job of an address in the list is the one that is removed under its id.
  pub is_listed-remove_job :
      (a b : ℕ) (xs : List ℕ)
      → HasDistinctIds f xs
      → is_listed a xs ≡ true
      → is_listed b (remove_job f (f a).id xs) ≡ (not (b == a) && is_listed b xs)
  unfolding remove_job
  is_listed-remove_job a b [] d l = ground arith
  is_listed-remove_job a b (x ∷ xs) d l = elim (Bool-cases (x == a)) [
    | inl e ↦
        let q : x ≡ a = ground (arith, ==_iff x a, e) in
        let k : str_eq (f x).id (f a).id ≡ true =
          subst (λ c. str_eq (f x).id (f c).id ≡ true) q (eq_refl (f x).id) in
        let n : is_listed a xs ≡ false =
          subst (λ c. is_listed c xs ≡ false) q (IsFresh-is_listed_self x xs d.0) in
        rw k (elim (Bool-cases (b == a)) [
          | inl w ↦
              let v : a ≡ b = ground (arith, ==_iff b a, w) in
              rw w (subst (λ c. is_listed c xs ≡ false) v n)
          | inr w ↦ ground (arith, q, w)
        ])
    | inr e ↦
        let m : is_listed a xs ≡ true = ground (arith, e, l) in
        let n = IsFresh-is_listed a (f x).id xs d.0 m in
        let k : str_eq (f x).id (f a).id ≡ false =
          ground (arith, n, eq_iff (f x).id (f a).id, eq_iff (f a).id (f x).id) in
        rw k (ground (arith, e, is_listed-remove_job a b xs d.1 m))
  ]

pub self_eq : (a : ℕ) → (a == a) ≡ true
self_eq a = ground arith

pub one_if_bound : (b : Bool) → one_if b ≤ 1
one_if_bound true = omega arith
one_if_bound false = omega arith

pub one_if-both : (b c : Bool) → 1 ≤ one_if (b && c) → b ≡ true
one_if-both true c h = refl
one_if-both false c h = absurd (omega (arith, h))

on_tasks_flag :
    (j k : JobState) (o : Option (List TaskState))
    → on_tasks j o ≡ some k
    → k.ending_saga ≡ j.ending_saga
on_tasks_flag j k none e = absurd (ground arith)
on_tasks_flag j k (some ts) e = ap (λ x. x.ending_saga) (sym (some_inj.0 e))

recover_tasks_flag :
    (saga : SagaState) (ids : List String) (j k : JobState)
    → recover_tasks saga ids j ≡ some k
    → k.ending_saga ≡ j.ending_saga
unfolding recover_tasks
recover_tasks_flag saga [] j k e = ap (λ x. x.ending_saga) (sym (some_inj.0 e))
recover_tasks_flag saga (id ∷ ids) j k e =
    let next =
      if is_task_completed saga id
      then on_tasks (record j { tasks_completed = inc j.tasks_completed })
          (change_task completed_before id j.tasks)
      else some j in
    elim (Option-cases next) [
      | inl m ↦ absurd (ground (arith, rw (m, recover_tasks) at e))
      | inr (i, m) ↦
          recover_tasks_flag saga ids i k (rw (m, recover_tasks) at e)
          ∙ if-cases (λ o. o ≡ some i → i.ending_saga ≡ j.ending_saga) (is_task_completed saga id) _
              (some j)
              (λ c.
                on_tasks_flag (record j { tasks_completed = inc j.tasks_completed }) i
                  (change_task completed_before id j.tasks))
              (λ c n. ap (λ x. x.ending_saga) (sym (some_inj.0 n))) m
    ]

pub new_job_state_flag :
    (id : String) (ids : List String) (saga : SagaState) (durations : Dict ℕ) (now : ℕ)
    (j : JobState)
    → new_job_state id ids saga durations now ≡ some j
    → j.ending_saga ≡ false
unfolding new_job_state
new_job_state_flag id ids saga durations now j e =
    recover_tasks_flag saga (get_task_ids saga) (fresh id ids durations now) j e
