-- ===== src/Sched/Shares/Waiting.antt =====
-- The tasks that wait in the jobs of the requestors, by the tags that getTaskAssignments
-- (sched/scheduler/task_scheduler.go) has seen.
use scoot.Base.{
  ℕ, ◌+◌, ◌≤◌, ◌≡◌, refl, String, Bool, true, false, ◌&&◌, ◌||◌, Option, some, List, [], ◌∷◌, arith,
  str_eq, eq_iff, eq_refl, subst, sym, Dict, lookup, insert, lookup-insert, is_some, if◌then◌else◌,
  Bool-cases, inl, inr,
}
use scoot.Sched.Jobs.{TaskState, get_un_scheduled_tasks}
use scoot.Sched.Shares.{
  JobEntry, tag_of, Batch, joined, gather, no_batch, jobs_or_none, tags_of, is_seen, mark_seen,
}
use scoot.Sched.Shares.Counts.{count, count-append}

seen_if : (b : Bool) (o : Option Bool) → is_some (if b then some true else o) ≡ (b || is_some o)
seen_if true o = refl
seen_if false o = refl

pub is_seen-mark_seen :
    (r t : String) (seen : Dict (Dict Bool)) (q u : String)
    → is_seen (mark_seen r t seen) q u ≡ (str_eq r q && str_eq t u || is_seen seen q u)
is_seen-mark_seen r t seen q u =
    rw (lookup-insert r q (insert t true (tags_of (lookup r seen))) seen)
      (elim (Bool-cases (str_eq r q)) [
        | inl e ↦
            let same : r ≡ q = (eq_iff r q).0 e in
            rw (e, lookup-insert t u true (tags_of (lookup r seen)), same) (seen_if (str_eq t u) _)
        | inr e ↦ rw e
      ])

add_seen :
    (a b : Bool) (w x y z : ℕ)
    → (b ≡ true → a ≡ false)
    → x + y ≤ z
    → (if a then w else 0) + x + ((if b then w else 0) + y) ≤ (if b || a then w else 0) + z
add_seen false false w x y z h k = omega arith
add_seen false true w x y z h k = omega arith
add_seen true false w x y z h k = omega arith
add_seen true true w x y z h k = absurd (ground (arith, h refl))

keep_seen :
    (a b : Bool) (w x z : ℕ) → x ≤ z → (if a then w else 0) + x ≤ (if b || a then w else 0) + z
keep_seen false false w x z k = omega arith
keep_seen false true w x z k = omega arith
keep_seen true false w x z k = omega arith
keep_seen true true w x z k = omega arith

module _ (f : TaskState → Bool) where
  abbrev waiting_of : JobEntry → ℕ
  waiting_of j = count f (get_un_scheduled_tasks j.state.tasks)

  -- In all jobs.
  abbrev pub waiting : List JobEntry → ℕ
  waiting [] = 0
  waiting (j ∷ jobs) = waiting_of j + waiting jobs

  abbrev pub waiting_all : Dict (List JobEntry) → ℕ
  waiting_all [] = 0
  waiting_all ((r, jobs) ∷ rest) = waiting jobs + waiting_all rest

  -- In the jobs with a tag.
  abbrev pub tagged : String → List JobEntry → ℕ
  tagged tag [] = 0
  tagged tag (j ∷ jobs) = (if str_eq tag (tag_of j) then waiting_of j else 0) + tagged tag jobs

  gather-count :
      (tag : String) (avail : ℕ) (jobs : List JobEntry) (b : Batch)
      → count f (gather tag avail jobs b).unsched ≤ count f b.unsched + tagged tag jobs
  unfolding gather
  gather-count tag avail [] b = omega arith
  gather-count tag avail (j ∷ jobs) b = ground (
    arith,
    eq_iff tag (tag_of j),
    eq_iff (tag_of j) tag,
    count-append f (get_un_scheduled_tasks j.state.tasks) b.unsched,
    gather-count tag avail jobs (joined j b),
    gather-count tag avail jobs b,
  )

  -- In the jobs whose tag was seen.
  abbrev pub seen_in : Dict (Dict Bool) → String → List JobEntry → ℕ
  seen_in seen r [] = 0
  seen_in seen r (j ∷ jobs) =
      (if is_seen seen r (tag_of j) then waiting_of j else 0) + seen_in seen r jobs

  abbrev pub seen_all : Dict (Dict Bool) → Dict (List JobEntry) → ℕ
  seen_all seen [] = 0
  seen_all seen ((r, jobs) ∷ rest) = seen_in seen r jobs + seen_all seen rest

  seen_in-le :
      (seen : Dict (Dict Bool)) (r : String) (jobs : List JobEntry)
      → seen_in seen r jobs ≤ waiting jobs
  seen_in-le seen r [] = omega arith
  seen_in-le seen r (j ∷ jobs) = ground (arith, seen_in-le seen r jobs)

  pub seen_all-le :
      (seen : Dict (Dict Bool)) (m : Dict (List JobEntry)) → seen_all seen m ≤ waiting_all m
  seen_all-le seen [] = omega arith
  seen_all-le seen ((r, jobs) ∷ rest) = omega (arith, seen_in-le seen r jobs, seen_all-le seen rest)

  -- A tag that is seen now adds the tasks of its jobs.
  seen_in-mark :
      (r t : String) (seen : Dict (Dict Bool)) (jobs : List JobEntry)
      → is_seen seen r t ≡ false
      → seen_in seen r jobs + tagged t jobs ≤ seen_in (mark_seen r t seen) r jobs
  seen_in-mark r t seen [] h = omega arith
  seen_in-mark r t seen (j ∷ jobs) h =
      rw (is_seen-mark_seen r t seen r (tag_of j), eq_refl r)
        (add_seen (is_seen seen r (tag_of j)) (str_eq t (tag_of j)) (waiting_of j)
          (seen_in seen r jobs) (tagged t jobs) (seen_in (mark_seen r t seen) r jobs)
          (λ e. rw (← (eq_iff t (tag_of j)).0 e) h) (seen_in-mark r t seen jobs h))

  seen_in_mono :
      (r t : String) (seen : Dict (Dict Bool)) (q : String) (jobs : List JobEntry)
      → seen_in seen q jobs ≤ seen_in (mark_seen r t seen) q jobs
  seen_in_mono r t seen q [] = omega arith
  seen_in_mono r t seen q (j ∷ jobs) = rw (is_seen-mark_seen r t seen q (tag_of j)) (
      keep_seen (is_seen seen q (tag_of j)) (str_eq r q && str_eq t (tag_of j)) (waiting_of j)
        (seen_in seen q jobs) (seen_in (mark_seen r t seen) q jobs) (seen_in_mono r t seen q jobs))

  seen_all_mono :
      (r t : String) (seen : Dict (Dict Bool)) (m : Dict (List JobEntry))
      → seen_all seen m ≤ seen_all (mark_seen r t seen) m
  seen_all_mono r t seen [] = omega arith
  seen_all_mono r t seen ((q, jobs) ∷ rest) =
      omega (arith, seen_in_mono r t seen q jobs, seen_all_mono r t seen rest)

  seen_all-mark :
      (r t : String) (seen : Dict (Dict Bool)) (m : Dict (List JobEntry))
      → is_seen seen r t ≡ false
      → seen_all seen m + tagged t (jobs_or_none (lookup r m)) ≤ seen_all (mark_seen r t seen) m
  unfolding lookup
  seen_all-mark r t seen [] h = omega arith
  seen_all-mark r t seen ((q, jobs) ∷ rest) h = elim (Bool-cases (str_eq q r)) [
    | inl e ↦
        let same : q ≡ r = (eq_iff q r).0 e in
        rw e (
          let k =
            subst (λ x. seen_in seen x jobs + tagged t jobs ≤ seen_in (mark_seen r t seen) x jobs)
              (sym same) (seen_in-mark r t seen jobs h) in
          omega (arith, k, seen_all_mono r t seen rest))
    | inr e ↦ rw e (omega (arith, seen_in_mono r t seen q jobs, seen_all-mark r t seen rest h))
  ]

  -- A batch has tasks of its requestor and tag only.
  pub gather-seen :
      (r t : String) (avail : ℕ) (seen : Dict (Dict Bool)) (m : Dict (List JobEntry))
      → is_seen seen r t ≡ false
      → seen_all seen m + count f (gather t avail (jobs_or_none (lookup r m)) no_batch).unsched
        ≤ seen_all (mark_seen r t seen) m
  gather-seen r t avail seen m h =
      omega (
        arith,
        gather-count t avail (jobs_or_none (lookup r m)) no_batch,
        seen_all-mark r t seen m h,
      )
