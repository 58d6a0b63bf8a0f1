-- ===== src/Sched/Scheduler/Steps.antt =====
-- What happens to the scheduler's jobs, one change at a time, in its loop and its callbacks.
use scoot.Base.{
  ◌||◌, ℕ, ◌≡◌, refl, sym, ◌∙◌, subst, ap, inl, inr, String, Bool, true, false, Option, none, some,
  some_inj, map, List, [], ◌∷◌, ◌++◌, str_eq, eq_iff, arith, All, All-append, All-map, Dict, lookup,
  lookup-insert, Bool-cases, if-cases, Option-cases, Result, ok, err, if◌then◌else◌, ◌==◌, ==_iff,
}
use mathlib.Core.List.{append-nil}
use scoot.Sched.Definitions.{Job}
use scoot.Sched.Jobs.{JobState, TaskState, new_job_state}
use scoot.Sched.Admission.{or_empty}
use scoot.Saga.State.{SagaState}
use scoot.Sched.Shares.{JobEntry}
use scoot.Sched.Scheduler.{
  Scheduler, set_cell, job_at, put_job, set_state, add_job, start_end, check_for_completed_jobs,
  on_saga_ended, accept_kill, is_finished, killed_at, drop_call, task_id_of,
}
use scoot.Sched.Scheduler.Index.{
  of_requestor, unless_nil, IsFresh, HasDistinctIds, IsIndexed, delete_job-IsIndexed,
  or_empty-unless_nil, of_requestor-append,
}

-- The address is not one of those.
abbrev pub IsNew : ℕ → List ℕ → Type 0
IsNew a bs = All (λ b. (b == a) ≡ false) bs

abbrev pub is_listed : ℕ → List ℕ → Bool
is_listed a [] = false
is_listed a (b ∷ bs) = (b == a) || is_listed a bs

-- A job is added at a new address and under a new id; the completed jobs are looked for; an EndSaga is over;
-- a kill is accepted; or the tasks of a job go on, which sets no flag of EndSaga.
pub data Step (s : Scheduler) : Scheduler → Type 0 where
  adds :
      (sort : List TaskState → List TaskState)
      → (durations : Dict ℕ) → (now a : ℕ) → (saga : SagaState) → (job : Job) → (ids : List String)
      → (t : Scheduler) → IsNew a s.in_progress
      → IsFresh (job_at s) job.id s.in_progress
      → add_job sort durations now a saga job s ≡ some (ids, t)
      → Step s t
  checks : Step s (check_for_completed_jobs s.in_progress s)
  ends : (a : ℕ) → (is_ok : Bool) → is_listed a s.ending ≡ true → Step s (on_saga_ended a is_ok s)
  kills : (id : String) → (t : Scheduler) → accept_kill id s ≡ ok t → Step s t
  goes_on :
      (a : ℕ)
      → (j : JobState) → j.ending_saga ≡ (s.cell a).state.ending_saga
      → Step s (set_state a j s)

module _ (f g : ℕ → Job) where
  of_requestor_ext :
      (r : String) (xs : List ℕ)
      → All (λ b. f b ≡ g b) xs
      → of_requestor f r xs ≡ of_requestor g r xs
  unfolding of_requestor
  of_requestor_ext r [] h = refl
  of_requestor_ext r (x ∷ xs) h = rw (h.0, of_requestor_ext r xs h.1)

  IsFresh-ext :
      (id : String) (xs : List ℕ) → All (λ b. f b ≡ g b) xs → IsFresh f id xs → IsFresh g id xs
  IsFresh-ext id [] h d = tt
  IsFresh-ext id (x ∷ xs) h d =
      (subst (λ j. str_eq j.id id ≡ false) h.0 d.0, IsFresh-ext id xs h.1 d.1)

  HasDistinctIds-ext :
      (xs : List ℕ) → All (λ b. f b ≡ g b) xs → HasDistinctIds f xs → HasDistinctIds g xs
  HasDistinctIds-ext [] h d = tt
  HasDistinctIds-ext (x ∷ xs) h d = (
    subst (λ j. IsFresh g j.id xs) h.0 (IsFresh-ext (f x).id xs h.1 d.0),
    HasDistinctIds-ext xs h.1 d.1,
  )

-- A change of the state of a job is none of its definition.
job_at-set_state :
    (a b : ℕ) (j : JobState) (s : Scheduler) → job_at s b ≡ job_at (set_state a j s) b
job_at-set_state a b j s = elim (Bool-cases (b == a)) [
  | inl e ↦
      let q : b ≡ a = ground (arith, ==_iff b a, e) in rw (e, job_at) (ap (λ c. (s.cell c).job) q)
  | inr e ↦ rw (e, job_at)
]

set_state-IsIndexed :
    (a : ℕ) (j : JobState) (s : Scheduler) → IsIndexed s → IsIndexed (set_state a j s)
set_state-IsIndexed a j s h =
    let e : job_at s ≡ job_at (set_state a j s) = λ i b. job_at-set_state a b j s i in
    subst
      (λ f.
        ((r : String) → lookup r s.requestor_map ≡ unless_nil (of_requestor f r s.in_progress))
        × HasDistinctIds f s.in_progress)
      e h

check-IsIndexed :
    (xs : List ℕ) (s : Scheduler) → IsIndexed s → IsIndexed (check_for_completed_jobs xs s)
unfolding check_for_completed_jobs
check-IsIndexed [] s h = h
check-IsIndexed (x ∷ xs) s h = check-IsIndexed xs _ (
    if-cases IsIndexed (is_finished (s.cell x).state) (start_end x s) s
      (λ e. set_state-IsIndexed x (record (s.cell x).state { ending_saga = true }) s h) (λ e. h))

HasDistinctIds-append :
    (f : ℕ → Job) (a : ℕ) (xs : List ℕ)
    → HasDistinctIds f xs
    → IsFresh f (f a).id xs
    → HasDistinctIds f (xs ++ a ∷ [])
HasDistinctIds-append f a [] d h = (tt, tt)
HasDistinctIds-append f a (x ∷ xs) d h = (
  All-append (λ b. str_eq (f b).id (f x).id ≡ false) xs (a ∷ []) d.0
      (ground (arith, h.0, eq_iff (f a).id (f x).id, eq_iff (f x).id (f a).id), tt),
  HasDistinctIds-append f a xs d.1 h.1,
)

unless_nil-append : (a : ℕ) (xs : List ℕ) → some (xs ++ a ∷ []) ≡ unless_nil (xs ++ a ∷ [])
unless_nil-append a [] = refl
unless_nil-append a (x ∷ xs) = refl

-- The jobs of a requestor once there is one more job.
of_requestor-put_job :
    (f g : ℕ → Job) (a : ℕ) (r : String) (xs : List ℕ)
    → All (λ b. f b ≡ g b) xs
    → of_requestor g r (xs ++ a ∷ [])
      ≡ of_requestor f r xs ++ (if str_eq (g a).def.requestor r then a ∷ [] else [])
unfolding of_requestor
of_requestor-put_job f g a r xs h =
    rw (of_requestor-append g r xs (a ∷ []), of_requestor_ext f g r xs h)

put_job-IsIndexed :
    (a : ℕ) (j : JobEntry) (s : Scheduler)
    → IsNew a s.in_progress
    → IsFresh (job_at s) j.job.id s.in_progress
    → IsIndexed s
    → IsIndexed (put_job a j s)
unfolding put_job of_requestor
put_job-IsIndexed a j s new h (i, d) =
    let f = job_at s in
    let g = job_at (set_cell a j s) in
    let xs = s.in_progress in
    let q = j.job.def.requestor in
    let kept : All (λ b. f b ≡ g b) xs =
      All-map (λ b. (b == a) ≡ false) (λ b. f b ≡ g b) xs (λ b e. rw (e, job_at)) new in
    let self : (a == a) ≡ true = ground arith in
    let at : g a ≡ j.job = rw (self, job_at) refl in
    (
      λ r.
          lookup-insert q r (or_empty (lookup q s.requestor_map) ++ (a ∷ [])) s.requestor_map
          ∙ elim (Bool-cases (str_eq q r)) [
            | inl e ↦
                let w : q ≡ r = ground (arith, eq_iff q r, e) in
                rw
                  (
                    e,
                    of_requestor-put_job f g a r xs kept,
                    at,
                    e,
                    i q,
                    or_empty-unless_nil (of_requestor f q xs),
                  )
                  (ap (λ t. some (of_requestor f t xs ++ a ∷ [])) w
                    ∙ unless_nil-append a (of_requestor f r xs))
            | inr e ↦
                rw
                  (e, of_requestor-put_job f g a r xs kept, at, e, append-nil (of_requestor f r xs))
                  (i r)
          ],
      HasDistinctIds-append g a xs (HasDistinctIds-ext f g xs kept d)
          (subst (λ k. IsFresh g k.id xs) (sym at) (IsFresh-ext f g j.job.id xs kept h)),
    )

add_job-IsIndexed :
    (sort : List TaskState → List TaskState) (durations : Dict ℕ) (now a : ℕ) (saga : SagaState)
    (job : Job) (ids : List String) (s t : Scheduler)
    → IsNew a s.in_progress
    → IsFresh (job_at s) job.id s.in_progress
    → add_job sort durations now a saga job s ≡ some (ids, t)
    → IsIndexed s
    → IsIndexed t
unfolding add_job
add_job-IsIndexed sort durations now a saga job ids s t new fresh e h =
    elim (Option-cases (new_job_state job.id (map task_id_of job.def.tasks) saga durations now)) [
      | inl m ↦ absurd (ground (arith, rw (m, add_job) at e))
      | inr (state, m) ↦
          let q = ap (λ p. p.1) (some_inj.0 (rw (m, add_job) at e)) in
          subst IsIndexed q (put_job-IsIndexed a _ s new fresh h)
    ]

killed_at-IsIndexed :
    (s t : Scheduler) (a : Option ℕ) (r : Result String JobState)
    → killed_at s a r ≡ ok t
    → IsIndexed s
    → IsIndexed t
killed_at-IsIndexed s t (some a) (ok j) e h =
    let q : set_state a j s ≡ t = cc in subst IsIndexed q (set_state-IsIndexed a j s h)
killed_at-IsIndexed s t none (ok j) e h = absurd (ground arith)
killed_at-IsIndexed s t (some a) (err m) e h = absurd (ground arith)
killed_at-IsIndexed s t none (err m) e h = absurd (ground arith)

-- Each change of the jobs keeps the requestor map: it has the jobs in progress of each requestor that has some,
-- in their order, and no other entry, and no two jobs in progress share an id; a job is added under a new address and a new id.
pub Step-IsIndexed : (s t : Scheduler) → Step s t → IsIndexed s → IsIndexed t
unfolding on_saga_ended accept_kill
Step-IsIndexed s _ (adds sort durations now a saga job ids t new fresh e) h =
    add_job-IsIndexed sort durations now a saga job ids s t new fresh e h
Step-IsIndexed s _ checks h = check-IsIndexed s.in_progress s h
Step-IsIndexed s _ (ends a true e) h =
    delete_job-IsIndexed (job_at s a).id (record s { ending = drop_call a s.ending }) h
Step-IsIndexed s _ (ends a false e) h =
    set_state-IsIndexed a (record (s.cell a).state { ending_saga = false })
      (record s { ending = drop_call a s.ending }) h
Step-IsIndexed s _ (kills id t e) h = killed_at-IsIndexed s t _ _ e h
Step-IsIndexed s _ (goes_on a j e) h = set_state-IsIndexed a j s h
