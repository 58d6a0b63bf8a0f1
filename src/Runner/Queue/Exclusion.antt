-- ===== src/Runner/Queue/Exclusion.antt =====
-- The invariant of runner/runners/queue.go through each of its events.
use scoot.Base.{
  ℕ, ◌-◌, ◌≤◌, ◌≡◌, ◌≢◌, refl, subst, inl, inr, String, Bool, true, false, Option, none, some, List,
  [], ◌∷◌, str_eq, eq_iff, ◌==◌, length, arith, if◌then◌else◌, if-cases, Option-cases,
}
use scoot.Runner.Command.{Command}
use scoot.Runner.Status.{RunStatus, is_done}
use scoot.Runner.Queue.{
  CmdAndId, Updater, idle, spawned, updating, Watcher, unwatched, following, finishing, Phase, top,
  waiting, stopped, aborting, QueueController, new_queue_runner, try_run,
}
use scoot.Runner.Queue.Steps.{
  Event, initialized, ticked, update_read, filer_updated, turned, tick_taken, update_done,
  run_finished, released, run_requested, abort_requested, abort_answered, status_updated, asked,
  erased, sent_on, at_top, at_select, read_requests, next_filer, finish_update, drop_head,
  at_finished, finish_run, watch, answered, answer, step, steps,
}
use scoot.Runner.Queue.Invariant.{
  IsRunning, Held, IsValid, new_queue_runner-IsValid, try_update-IsValid, try_run-IsValid,
  turn-IsValid, enqueue-IsValid, abort-IsValid,
}

-- What an event leads to, if it can happen.
abbrev pub Leads {κ} : (QueueController → Type κ) → Option QueueController → Type κ
Leads P none = Unit
Leads P (some d) = P d

pub at_top-Leads {κ} :
    (P : QueueController → Type κ) (p : Phase) (d : QueueController) → P d → Leads P (at_top p d)
at_top-Leads P top d h = h
at_top-Leads P waiting d h = tt
at_top-Leads P stopped d h = tt
at_top-Leads P (aborting ch) d h = tt

pub at_select-Leads {κ} :
    (P : QueueController → Type κ) (p : Phase) (d : QueueController) → P d → Leads P (at_select p d)
at_select-Leads P top d h = tt
at_select-Leads P waiting d h = h
at_select-Leads P stopped d h = tt
at_select-Leads P (aborting ch) d h = tt

-- An update goes on only while nothing runs.
busy-Held :
    (w : Watcher) (u v : Updater) (q : List CmdAndId) (rid : String) (rcmd : Option Command)
    (ab : Bool)
    → u ≢ idle
    → Held w q u rid rcmd ab
    → Held w q v rid rcmd ab
busy-Held unwatched u v q rid rcmd ab n h = h
busy-Held (following id) u v [] rid rcmd ab n h = h
busy-Held (following id) u v (x ∷ q) rid rcmd ab n h = absurd (n h.quiet)
busy-Held (finishing st) u v [] rid rcmd ab n h = h
busy-Held (finishing st) u v (x ∷ q) rid rcmd ab n h = absurd (n h.quiet)

-- The updater goes on to another state.
moved :
    (c : QueueController) (v : Updater)
    → c.updater ≢ idle
    → IsValid c
    → Held c.watcher c.queue v c.running_id c.running_cmd c.running_abort
moved c v n k =
    busy-Held c.watcher c.updater v c.queue c.running_id c.running_cmd c.running_abort n k.held

read_requests-Leads :
    (c : QueueController) (u : Updater)
    → c.updater ≡ u
    → IsValid c
    → Leads IsValid (read_requests u c)
read_requests-Leads c idle e k = tt
read_requests-Leads c (updating ts) e k = tt
read_requests-Leads c spawned e k = record { fits = k.fits; held = moved c _ (λ f. ground arith) k }

next_filer-Leads :
    (c : QueueController) (u : Updater) → c.updater ≡ u → IsValid c → Leads IsValid (next_filer u c)
next_filer-Leads c idle e k = tt
next_filer-Leads c spawned e k = tt
next_filer-Leads c (updating []) e k = tt
next_filer-Leads c (updating (t ∷ ts)) e k = record {
  fits = k.fits;
  held = moved c (updating ts) (λ f. ground arith) k;
}

finish_update-Leads :
    (c : QueueController) (u : Updater)
    → c.updater ≡ u
    → IsValid c
    → Leads IsValid (finish_update u c)
finish_update-Leads c idle e k = tt
finish_update-Leads c spawned e k = tt
finish_update-Leads c (updating (t ∷ ts)) e k = tt
finish_update-Leads c (updating []) e k =
    at_select-Leads IsValid c.phase (try_run (record c { updater = idle; phase = top })) (
      try_run-IsValid (record c { updater = idle; phase = top })
        (record { fits = k.fits; held = moved c idle (λ f. ground arith) k }))

drop_head-Leads :
    (c : QueueController) (q : List CmdAndId)
    → c.queue ≡ q
    → IsValid c
    → Leads IsValid (drop_head q c)
drop_head-Leads c [] e k = tt
drop_head-Leads c (x ∷ q) e k = record {
  fits =
      let l : length (x ∷ q) ≤ c.capacity = subst (λ r. length r ≤ c.capacity) e k.fits in
      omega (arith, l);
  held = (refl, refl, refl);
}

finish_run-Leads : (c : QueueController) (w : Watcher) → IsValid c → Leads IsValid (finish_run w c)
finish_run-Leads c unwatched k = tt
finish_run-Leads c (following id) k = tt
finish_run-Leads c (finishing st) k = go c.phase
  where
    go : (p : Phase) → Leads IsValid (at_finished p c)
    go waiting = drop_head-Leads c c.queue refl k
    go top = tt
    go stopped = tt
    go (aborting ch) = tt

-- A final status of the run makes the watcher offer it.
offered :
    (id : String) (st : RunStatus) (b : Bool) (q : List CmdAndId) (u : Updater) (rid : String)
    (rcmd : Option Command) (ab : Bool)
    → st.run_id ≡ id
    → IsRunning id q u rid rcmd
    → Held (if b then finishing st else following id) q u rid rcmd ab
offered id st true q u rid rcmd ab e h = rw e h
offered id st false q u rid rcmd ab e h = h

watch-Leads :
    (c : QueueController) (w : Watcher) (st : RunStatus)
    → c.watcher ≡ w
    → IsValid c
    → Leads IsValid (watch w st c)
watch-Leads c unwatched st e k = tt
watch-Leads c (finishing s) st e k = tt
watch-Leads c (following id) st e k =
    if-cases (Leads IsValid) (str_eq st.run_id id) _ _
      (λ f. record {
        fits = k.fits;
        held =
            offered id st (is_done st.state) c.queue c.updater c.running_id c.running_cmd
              c.running_abort ((eq_iff st.run_id id).0 f)
              (subst (λ w. Held w c.queue c.updater c.running_id c.running_cmd c.running_abort) e
                k.held);
      })
      (λ f. tt)

answered-Leads :
    (c : QueueController) (o : Option RunStatus) → IsValid c → Leads IsValid (answered c o)
answered-Leads c none k = tt
answered-Leads c (some st) k = record { fits = k.fits; held = k.held }

answer-Leads : (c : QueueController) (p : Phase) → IsValid c → Leads IsValid (answer p c)
answer-Leads c top k = tt
answer-Leads c waiting k = tt
answer-Leads c stopped k = tt
answer-Leads c (aborting ch) k = answered-Leads c (sent_on ch c.status_manager.sent) k

module _ (format : ℕ → String) where
  pub step-Leads : (e : Event) (c : QueueController) → IsValid c → Leads IsValid (step format e c)
  unfolding step
  step-Leads (initialized svc) c k = record { fits = k.fits; held = k.held }
  step-Leads (ticked t) c k = record { fits = k.fits; held = k.held }
  step-Leads update_read c k = read_requests-Leads c c.updater refl k
  step-Leads filer_updated c k = next_filer-Leads c c.updater refl k
  step-Leads turned c k =
      let v = turn-IsValid c k in
      at_top-Leads IsValid c.phase _ (record { fits = v.fits; held = v.held })
  step-Leads tick_taken c k =
      if-cases (Leads IsValid) (c.ticks == 0) _ _ (λ e. tt)
        (λ e. at_select-Leads IsValid c.phase _ (
          try_update-IsValid (record c { ticks = c.ticks - 1; phase = top })
            (record { fits = k.fits; held = k.held })))
  step-Leads update_done c k = finish_update-Leads c c.updater refl k
  step-Leads run_finished c k = finish_run-Leads c c.watcher k
  step-Leads released c k =
      at_select-Leads IsValid c.phase _ (record { fits = k.fits; held = k.held })
  step-Leads (run_requested cmd) c k = at_select-Leads IsValid c.phase _ (
      enqueue-IsValid format (record c { phase = top }) cmd
        (record { fits = k.fits; held = k.held }))
  step-Leads (abort_requested run) c k = at_select-Leads IsValid c.phase _ (abort-IsValid c run k)
  step-Leads abort_answered c k = answer-Leads c c.phase k
  step-Leads (status_updated st) c k = watch-Leads c c.watcher st refl k
  step-Leads (asked q listen) c k = record { fits = k.fits; held = k.held }
  step-Leads (erased run) c k = record { fits = k.fits; held = k.held }

  -- What every event keeps holds after any events.
  pub steps-Leads {κ} :
      (P : QueueController → Type κ)
      → ((e : Event) (c : QueueController) → P c → Leads P (step format e c))
      → (es : List Event) (c : QueueController) → P c
      → Leads P (steps format es c)
  steps-Leads P h [] c k = k
  steps-Leads P h (e ∷ es) c k = elim (Option-cases (step format e c)) [
    | inl f ↦ rw (f, steps) tt
    | inr (d, f) ↦ rw (f, steps) (steps-Leads P h es d (subst (Leads P) f (h e c k)))
  ]

  -- Whatever events come, in whatever order, the queue never holds more than its capacity; while a command
  -- runs it is the head of the queue, its id is the running one and no filer is updated; and while none runs
  -- there is no running id and nothing to abort.
  pub steps-IsValid :
      (capacity : ℕ) (es : List Event) (c : QueueController)
      → steps format es (new_queue_runner capacity) ≡ some c
      → IsValid c
  steps-IsValid capacity es c f = subst (Leads IsValid) f (
      steps-Leads IsValid step-Leads es (new_queue_runner capacity)
        (new_queue_runner-IsValid capacity))
