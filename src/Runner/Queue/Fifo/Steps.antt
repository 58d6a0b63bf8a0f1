-- ===== src/Runner/Queue/Fifo/Steps.antt =====
-- Each event of runner/runners/queue.go moves the line of waiting commands as `Move` says.
use scoot.Base.{
  ℕ, ◌-◌, ◌≡◌, refl, subst, String, Bool, true, false, Option, none, some, List, [], ◌∷◌, str_eq,
  ◌==◌, if◌then◌else◌, if-cases,
}
use scoot.Runner.Status.{RunStatus, is_done}
use scoot.Runner.Queue.{
  CmdAndId, Updater, idle, spawned, updating, Watcher, unwatched, following, finishing, Phase, top,
  waiting, stopped, aborting, QueueController, turn,
}
use scoot.Runner.Queue.Steps.{
  Event, initialized, ticked, update_read, filer_updated, turned, tick_taken, update_done,
  run_finished, released, run_requested, abort_requested, abort_answered, status_updated, asked,
  erased, sent_on, read_requests, next_filer, finish_update, drop_head, at_finished, finish_run,
  watch, answered, answer, step,
}
use scoot.Runner.Queue.Invariant.{IsValid}
use scoot.Runner.Queue.Exclusion.{Leads, at_top-Leads, at_select-Leads}
use scoot.Runner.Queue.Fifo.{
  tail, waiting_of, stays, Moves, try_update-Moves, try_run-Moves, enqueue-Moves, abort-Moves,
}

turn-Moves : (c : QueueController) → Moves turned c (turn c)
unfolding turn
turn-Moves c =
    if-cases (Moves turned c) c.update_requested _ _ (λ f. try_update-Moves turned c)
      (λ f.
        if-cases (Moves turned c) (c.ticks == 0) _ _ (λ g. try_run-Moves turned c refl)
          (λ g. try_update-Moves turned (record c { ticks = c.ticks - 1 })))

read_requests-Moves :
    (e : Event) (c : QueueController) (u : Updater) → Leads (Moves e c) (read_requests u c)
read_requests-Moves e c idle = tt
read_requests-Moves e c spawned = stays e
read_requests-Moves e c (updating ts) = tt

next_filer-Moves :
    (e : Event) (c : QueueController) (u : Updater) → Leads (Moves e c) (next_filer u c)
next_filer-Moves e c idle = tt
next_filer-Moves e c spawned = tt
next_filer-Moves e c (updating []) = tt
next_filer-Moves e c (updating (t ∷ ts)) = stays e

finish_update-Moves :
    (c : QueueController) (u : Updater) → Leads (Moves update_done c) (finish_update u c)
finish_update-Moves c idle = tt
finish_update-Moves c spawned = tt
finish_update-Moves c (updating (t ∷ ts)) = tt
finish_update-Moves c (updating []) =
    at_select-Leads (Moves update_done c) c.phase _
      (try_run-Moves update_done (record c { updater = idle; phase = top }) refl)

drop_head-Moves :
    (e : Event) (c : QueueController) (st : RunStatus) (q : List CmdAndId)
    → c.watcher ≡ finishing st
    → c.queue ≡ q
    → Leads (Moves e c) (drop_head q c)
drop_head-Moves e c st [] f g = tt
drop_head-Moves e c st (x ∷ rest) f g = rw (f, g) (stays e)

at_finished-Moves :
    (e : Event) (c : QueueController) (st : RunStatus) (p : Phase)
    → c.watcher ≡ finishing st
    → Leads (Moves e c) (at_finished p c)
at_finished-Moves e c st top f = tt
at_finished-Moves e c st stopped f = tt
at_finished-Moves e c st (aborting ch) f = tt
at_finished-Moves e c st waiting f = drop_head-Moves e c st c.queue f refl

finish_run-Moves :
    (e : Event) (c : QueueController) (w : Watcher)
    → c.watcher ≡ w
    → Leads (Moves e c) (finish_run w c)
finish_run-Moves e c unwatched f = tt
finish_run-Moves e c (following id) f = tt
finish_run-Moves e c (finishing st) f = at_finished-Moves e c st c.phase f

offered :
    (id : String) (st : RunStatus) (b : Bool) (q : List CmdAndId)
    → waiting_of (if b then finishing st else following id) q ≡ tail q
offered id st true q = refl
offered id st false q = refl

watch-Moves :
    (e : Event) (c : QueueController) (w : Watcher) (st : RunStatus)
    → c.watcher ≡ w
    → Leads (Moves e c) (watch w st c)
watch-Moves e c unwatched st f = tt
watch-Moves e c (finishing s) st f = tt
watch-Moves e c (following id) st f =
    if-cases (Leads (Moves e c)) (str_eq st.run_id id) _ _
      (λ g. rw (f, offered id st (is_done st.state) c.queue) (stays e)) (λ g. tt)

answered-Moves :
    (e : Event) (c : QueueController) (o : Option RunStatus) → Leads (Moves e c) (answered c o)
answered-Moves e c none = tt
answered-Moves e c (some st) = stays e

answer-Moves : (e : Event) (c : QueueController) (p : Phase) → Leads (Moves e c) (answer p c)
answer-Moves e c top = tt
answer-Moves e c waiting = tt
answer-Moves e c stopped = tt
answer-Moves e c (aborting ch) = answered-Moves e c (sent_on ch c.status_manager.sent)

module _ (format : ℕ → String) where
  step-Moves : (e : Event) (c : QueueController) → IsValid c → Leads (Moves e c) (step format e c)
  unfolding step
  step-Moves (initialized svc) c k = stays (initialized svc)
  step-Moves (ticked t) c k = stays (ticked t)
  step-Moves update_read c k = read_requests-Moves update_read c c.updater
  step-Moves filer_updated c k = next_filer-Moves filer_updated c c.updater
  step-Moves turned c k = at_top-Leads (Moves turned c) c.phase _ (turn-Moves c)
  step-Moves tick_taken c k =
      if-cases (Leads (Moves tick_taken c)) (c.ticks == 0) _ _ (λ e. tt)
        (λ e.
          at_select-Leads (Moves tick_taken c) c.phase _
            (try_update-Moves tick_taken (record c { ticks = c.ticks - 1; phase = top })))
  step-Moves update_done c k = finish_update-Moves c c.updater
  step-Moves run_finished c k = finish_run-Moves run_finished c c.watcher refl
  step-Moves released c k = at_select-Leads (Moves released c) c.phase _ (stays released)
  step-Moves (run_requested cmd) c k = at_select-Leads (Moves (run_requested cmd) c) c.phase _ (
      enqueue-Moves format (record c { phase = top }) cmd (record { fits = k.fits; held = k.held }))
  step-Moves (abort_requested run) c k =
      at_select-Leads (Moves (abort_requested run) c) c.phase _ (abort-Moves c run k)
  step-Moves abort_answered c k = answer-Moves abort_answered c c.phase
  step-Moves (status_updated st) c k = watch-Moves (status_updated st) c c.watcher st refl
  step-Moves (asked q listen) c k = stays (asked q listen)
  step-Moves (erased run) c k = stays (erased run)

  -- Every event moves the commands that were started and those that wait as a line: in a valid state, a
  -- request may join the line at its end, a turn of the loop may start the first in it, an abort may take its
  -- own run out of it, and no other event changes what was started or waits.
  pub step-refines :
      (e : Event) (c d : QueueController) → IsValid c → step format e c ≡ some d → Moves e c d
  step-refines e c d k f = subst (Leads (Moves e c)) f (step-Moves e c k)
