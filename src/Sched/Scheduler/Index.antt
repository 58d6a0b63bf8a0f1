-- ===== src/Sched/Scheduler/Index.antt =====
-- The maps of the scheduler's jobs: how the requestor map and inProgressJobs go together.
use scoot.Base.{
  ℕ, ◌≡◌, refl, sym, ◌∙◌, subst, ap, inl, inr, String, true, false, Option, none, some, List, [],
  ◌∷◌, ◌++◌, str_eq, eq_iff, arith, All, Dict, lookup, lookup-insert, lookup-delete, Bool-cases,
  if◌then◌else◌,
}
use scoot.Sched.Definitions.{Job}
use scoot.Sched.Admission.{or_empty}
use scoot.Sched.Scheduler.{
  Scheduler, job_at, get_job, remove_job, requestor_at, set_jobs, delete_job,
}

-- The jobs of a requestor, in the order of the list.
unfoldable pub of_requestor : (ℕ → Job) → String → List ℕ → List ℕ
of_requestor job_of r [] = []
of_requestor job_of r (a ∷ bs) =
    let rest = of_requestor job_of r bs in
    if str_eq (job_of a).def.requestor r then a ∷ rest else rest

abbrev pub unless_nil : List ℕ → Option (List ℕ)
unless_nil [] = none
unless_nil (a ∷ bs) = some (a ∷ bs)

pub or_empty-unless_nil : (xs : List ℕ) → or_empty (unless_nil xs) ≡ xs
or_empty-unless_nil [] = refl
or_empty-unless_nil (x ∷ xs) = refl

abbrev pub IsFresh : (ℕ → Job) → String → List ℕ → Type 0
IsFresh job_of id bs = All (λ b. str_eq (job_of b).id id ≡ false) bs

abbrev pub HasDistinctIds : (ℕ → Job) → List ℕ → Type 0
HasDistinctIds job_of [] = Unit
HasDistinctIds job_of (a ∷ bs) = IsFresh job_of (job_of a).id bs × HasDistinctIds job_of bs

-- The requestor map has, for each requestor with a job in progress and for no other, those jobs.
abbrev pub IsIndexed : Scheduler → Type 0
IsIndexed s =
    ((r : String) → lookup r s.requestor_map ≡ unless_nil (of_requestor (job_at s) r s.in_progress))
    × HasDistinctIds (job_at s) s.in_progress

module _ (f : ℕ → Job) where
  pub of_requestor-append :
      (r : String) (xs ys : List ℕ)
      → of_requestor f r (xs ++ ys) ≡ of_requestor f r xs ++ of_requestor f r ys
  unfolding of_requestor
  of_requestor-append r [] ys = refl
  of_requestor-append r (x ∷ xs) ys = elim (Bool-cases (str_eq (f x).def.requestor r)) [
    | inl e ↦ rw (e, of_requestor-append r xs ys)
    | inr e ↦ rw (e, of_requestor-append r xs ys)
  ]

  -- A job that is not among them is removed without effect.
  removed_absent :
      (id r : String) (xs : List ℕ)
      → IsFresh f id xs
      → remove_job f id (of_requestor f r xs) ≡ of_requestor f r xs
  unfolding of_requestor remove_job
  removed_absent id r [] h = refl
  removed_absent id r (x ∷ xs) h = elim (Bool-cases (str_eq (f x).def.requestor r)) [
    | inl e ↦ rw (e, h.0, removed_absent id r xs h.1)
    | inr e ↦ rw (e, removed_absent id r xs h.1)
  ]

  same_ids :
      (x : ℕ) (id : String) (xs : List ℕ)
      → str_eq (f x).id id ≡ true
      → IsFresh f (f x).id xs
      → IsFresh f id xs
  same_ids x id xs e h =
      let q : (f x).id ≡ id = ground (arith, eq_iff (f x).id id, e) in
      subst (λ i. IsFresh f i xs) q h

  -- The jobs of a requestor after a removal.
  of_requestor-remove_job :
      (id r : String) (xs : List ℕ)
      → HasDistinctIds f xs
      → of_requestor f r (remove_job f id xs) ≡ remove_job f id (of_requestor f r xs)
  unfolding of_requestor remove_job
  of_requestor-remove_job id r [] d = refl
  of_requestor-remove_job id r (x ∷ xs) d = elim (Bool-cases (str_eq (f x).id id)) [
    | inl e ↦ elim (Bool-cases (str_eq (f x).def.requestor r)) [
      | inl q ↦ rw (e, q, e)
      | inr q ↦ rw (e, q) (sym (removed_absent id r xs (same_ids x id xs e d.0)))
    ]
    | inr e ↦ elim (Bool-cases (str_eq (f x).def.requestor r)) [
      | inl q ↦ rw (e, q, e, of_requestor-remove_job id r xs d.1)
      | inr q ↦ rw (e, q) (of_requestor-remove_job id r xs d.1)
    ]
  ]

  -- A requestor that the removed job is not of keeps its jobs.
  removed_elsewhere :
      (id r : String) (xs : List ℕ)
      → HasDistinctIds f xs
      → str_eq (requestor_at f (get_job f id xs)) r ≡ false
      → remove_job f id (of_requestor f r xs) ≡ of_requestor f r xs
  unfolding of_requestor remove_job get_job
  removed_elsewhere id r [] d h = refl
  removed_elsewhere id r (x ∷ xs) d h = elim (Bool-cases (str_eq (f x).id id)) [
    | inl e ↦
        let q : str_eq (f x).def.requestor r ≡ false = rw e at h in
        rw q (removed_absent id r xs (same_ids x id xs e d.0))
    | inr e ↦
        let ih = removed_elsewhere id r xs d.1 (rw e at h) in
        elim (Bool-cases (str_eq (f x).def.requestor r)) [ inl q ↦ rw (q, e, ih) | inr q ↦ rw q ih ]
  ]

  remove_job-IsFresh :
      (id other : String) (xs : List ℕ) → IsFresh f other xs → IsFresh f other (remove_job f id xs)
  unfolding remove_job
  remove_job-IsFresh id other [] h = tt
  remove_job-IsFresh id other (x ∷ xs) h = elim (Bool-cases (str_eq (f x).id id)) [
    | inl e ↦ rw e h.1
    | inr e ↦ rw e (h.0, remove_job-IsFresh id other xs h.1)
  ]

  remove_job-HasDistinctIds :
      (id : String) (xs : List ℕ) → HasDistinctIds f xs → HasDistinctIds f (remove_job f id xs)
  unfolding remove_job
  remove_job-HasDistinctIds id [] d = tt
  remove_job-HasDistinctIds id (x ∷ xs) d = elim (Bool-cases (str_eq (f x).id id)) [
    | inl e ↦ rw e d.1
    | inr e ↦ rw e (remove_job-IsFresh id (f x).id xs d.0, remove_job-HasDistinctIds id xs d.1)
  ]

lookup-set_jobs :
    (r other : String) (xs : List ℕ) (m : Dict (List ℕ))
    → lookup other (set_jobs r xs m) ≡ (if str_eq r other then unless_nil xs else lookup other m)
lookup-set_jobs r other [] m = lookup-delete r other m
lookup-set_jobs r other (x ∷ xs) m = lookup-insert r other (x ∷ xs) m

pub delete_job-IsIndexed : (id : String) (s : Scheduler) → IsIndexed s → IsIndexed (delete_job id s)
unfolding delete_job
delete_job-IsIndexed id s (h, d) =
    let f = job_at s in
    let q = requestor_at f (get_job f id s.in_progress) in
    (
      λ r.
          lookup-set_jobs q r (remove_job f id (or_empty (lookup q s.requestor_map)))
            s.requestor_map
          ∙ elim (Bool-cases (str_eq q r)) [
            | inl e ↦
                let w : q ≡ r = ground (arith, eq_iff q r, e) in
                rw (e, h q, or_empty-unless_nil (of_requestor f q s.in_progress))
                  (ap unless_nil (
                    ap (λ t. remove_job f id (of_requestor f t s.in_progress)) w
                    ∙ sym (of_requestor-remove_job f id r s.in_progress d)))
            | inr e ↦ rw (
              e,
              h r,
              of_requestor-remove_job f id r s.in_progress d,
              removed_elsewhere f id r s.in_progress d e,
            )
          ],
      remove_job-HasDistinctIds f id s.in_progress d,
    )

IsFresh-get_job :
    (f : ℕ → Job) (id : String) (xs : List ℕ) → IsFresh f id xs → get_job f id xs ≡ none
unfolding get_job
IsFresh-get_job f id [] h = refl
IsFresh-get_job f id (x ∷ xs) h = rw h.0 (IsFresh-get_job f id xs h.1)

get_job-remove_job :
    (f : ℕ → Job) (id other : String) (xs : List ℕ)
    → HasDistinctIds f xs
    → get_job f other (remove_job f id xs) ≡ (if str_eq id other then none else get_job f other xs)
unfolding get_job remove_job
get_job-remove_job f id other [] d = ground arith
get_job-remove_job f id other (x ∷ xs) d = elim (Bool-cases (str_eq (f x).id id)) [
  | inl e ↦
      let q : (f x).id ≡ id = ground (arith, eq_iff (f x).id id, e) in
      elim (Bool-cases (str_eq id other)) [
        | inl w ↦
            let v : id ≡ other = ground (arith, eq_iff id other, w) in
            rw (e, w) (IsFresh-get_job f other xs (subst (λ i. IsFresh f i xs) (q ∙ v) d.0))
        | inr w ↦
            let n : str_eq (f x).id other ≡ false = subst (λ i. str_eq i other ≡ false) (sym q) w in
            rw (e, w, n) refl
      ]
  | inr e ↦ rw e (
      ground (
        arith,
        get_job-remove_job f id other xs d.1,
        eq_iff (f x).id id,
        eq_iff (f x).id other,
        eq_iff id other,
      ))
]

-- After deleteJob, getJob finds no job under the id, and finds under every other id what it found before, in a
-- scheduler whose requestor map and ids are as they should be.
get_job-delete_job :
    (id other : String) (s : Scheduler)
    → IsIndexed s
    → get_job (job_at s) other (delete_job id s).in_progress
      ≡ (if str_eq id other then none else get_job (job_at s) other s.in_progress)
unfolding delete_job
get_job-delete_job id other s h = get_job-remove_job (job_at s) id other s.in_progress h.1
