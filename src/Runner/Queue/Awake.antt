-- ===== src/Runner/Queue/Awake.antt =====
-- When the loop of runner/runners/queue.go waits in its select.
use scoot.Base.{
  ℕ, ◌-◌, ◌≡◌, refl, subst, String, Bool, true, false, not, Option, none, some, List, [], ◌∷◌,
  str_eq, leb, ◌==◌, length, arith, if◌then◌else◌, if-cases, ok, err,
}
use scoot.Runner.Command.{Command}
use scoot.Runner.Status.{RunStatus, is_done}
use scoot.Runner.Manager.{StatusManager, Answer}
use scoot.Runner.Queue.{
  CmdAndId, Updater, idle, spawned, updating, Watcher, unwatched, following, finishing, Phase, top,
  waiting, stopped, aborting, QueueController, new_queue_runner, is_free, try_update, run_head,
  try_run, turn, enqueue, withdraw, final_status, abort,
}
use scoot.Runner.Queue.Steps.{
  Event, initialized, ticked, update_read, filer_updated, turned, tick_taken, update_done,
  run_finished, released, run_requested, abort_requested, abort_answered, status_updated, asked,
  erased, sent_on, read_requests, next_filer, finish_update, drop_head, at_finished, finish_run,
  watch, answered, answer, step, steps,
}
use scoot.Runner.Queue.Exclusion.{Leads, at_top-Leads, at_select-Leads, steps-Leads}

-- A waiting loop that is free has nothing to run, and no update to start.
abbrev pub Rests : Phase → Bool → List CmdAndId → Bool → Type 0
Rests waiting true q r = (q ≡ []) × (r ≡ false)
Rests _ _ q r = Unit

abbrev pub IsAwake : QueueController → Type 0
IsAwake c = Rests c.phase (is_free c.watcher c.updater) c.queue c.update_requested

busy-Rests : (p : Phase) (b : Bool) (q : List CmdAndId) (r : Bool) → b ≡ false → Rests p b q r
busy-Rests top b q r e = tt
busy-Rests stopped b q r e = tt
busy-Rests (aborting ch) b q r e = tt
busy-Rests waiting false q r e = tt
busy-Rests waiting true q r e = absurd (ground arith)

-- A loop that does not wait is awake.
abbrev Elsewhere : Phase → Type 0
Elsewhere waiting = false ≡ true
Elsewhere _ = Unit

Elsewhere-Rests :
    (p : Phase) (b : Bool) (q : List CmdAndId) (r : Bool) → Elsewhere p → Rests p b q r
Elsewhere-Rests top b q r e = tt
Elsewhere-Rests stopped b q r e = tt
Elsewhere-Rests (aborting ch) b q r e = tt
Elsewhere-Rests waiting b q r e = absurd (ground arith)

not_free : (w : Watcher) (ts : List String) → is_free w (updating ts) ≡ false
not_free unwatched ts = refl
not_free (following id) ts = refl
not_free (finishing st) ts = refl

not_free_spawned : (w : Watcher) → is_free w spawned ≡ false
not_free_spawned unwatched = refl
not_free_spawned (following id) = refl
not_free_spawned (finishing st) = refl

-- The controller once its loop waits.
abbrev at_rest : QueueController → QueueController
at_rest c = record c { phase = waiting }

try_update-IsAwake : (c : QueueController) → IsAwake (at_rest (try_update c))
unfolding try_update
try_update-IsAwake c =
    if-cases (λ d. IsAwake (at_rest d)) (is_free c.watcher c.updater) _ _
      (λ f.
        busy-Rests waiting (is_free c.watcher spawned) c.queue false (not_free_spawned c.watcher))
      (λ f. busy-Rests waiting (is_free c.watcher c.updater) c.queue true f)

run_head-IsAwake :
    (c : QueueController) (q : List CmdAndId)
    → c.queue ≡ q
    → c.update_requested ≡ false
    → IsAwake (at_rest (run_head c q))
run_head-IsAwake c [] e f = go (is_free c.watcher c.updater)
  where
    go : (b : Bool) → Rests waiting b c.queue c.update_requested
    go true = (e, f)
    go false = tt
run_head-IsAwake c (x ∷ q) e f = tt

try_run-IsAwake : (c : QueueController) → c.update_requested ≡ false → IsAwake (at_rest (try_run c))
unfolding try_run
try_run-IsAwake c e =
    if-cases (λ d. IsAwake (at_rest d)) (is_free c.watcher c.updater) _ _
      (λ f. run_head-IsAwake c c.queue refl e)
      (λ f. busy-Rests waiting (is_free c.watcher c.updater) c.queue c.update_requested f)

turn-IsAwake : (c : QueueController) → IsAwake (at_rest (turn c))
unfolding turn
turn-IsAwake c =
    if-cases (λ d. IsAwake (at_rest d)) c.update_requested _ _ (λ f. try_update-IsAwake c)
      (λ f.
        if-cases (λ d. IsAwake (at_rest d)) (c.ticks == 0) _ _ (λ g. try_run-IsAwake c f)
          (λ g. try_update-IsAwake (record c { ticks = c.ticks - 1 })))

-- Where a loop goes that was in its select.
try_update-Elsewhere : (c : QueueController) → Elsewhere c.phase → Elsewhere (try_update c).phase
unfolding try_update
try_update-Elsewhere c e =
    if-cases (λ (d : QueueController). Elsewhere d.phase) (is_free c.watcher c.updater) _ _ (λ f. e)
      (λ f. e)

run_head-Elsewhere :
    (c : QueueController) (q : List CmdAndId) → Elsewhere c.phase → Elsewhere (run_head c q).phase
run_head-Elsewhere c [] e = e
run_head-Elsewhere c (x ∷ q) e = e

try_run-Elsewhere : (c : QueueController) → Elsewhere c.phase → Elsewhere (try_run c).phase
unfolding try_run
try_run-Elsewhere c e =
    if-cases (λ (d : QueueController). Elsewhere d.phase) (is_free c.watcher c.updater) _ _
      (λ f. run_head-Elsewhere c c.queue e) (λ f. e)

enqueue-Elsewhere :
    (format : ℕ → String) (c : QueueController) (cmd : Command)
    → Elsewhere c.phase
    → Elsewhere (enqueue format c cmd).phase
unfolding enqueue
enqueue-Elsewhere format c cmd e =
    if-cases (λ (d : QueueController). Elsewhere d.phase)
      (not c.status_manager.svc_status.initialized) _ _ (λ f. e)
      (λ f.
        if-cases (λ (d : QueueController). Elsewhere d.phase) (leb c.capacity (length c.queue)) _ _
          (λ g. e) (λ g. e))

final_status-Elsewhere :
    (c : QueueController) (a : StatusManager × Answer) → Elsewhere (final_status c a).phase
final_status-Elsewhere c (m, err x) = tt
final_status-Elsewhere c (m, ok (st ∷ sts, ch)) = tt
final_status-Elsewhere c (m, ok ([], some ch)) = tt
final_status-Elsewhere c (m, ok ([], none)) = tt

elsewhere : (c : QueueController) → Elsewhere c.phase → IsAwake c
elsewhere c e = Elsewhere-Rests c.phase (is_free c.watcher c.updater) c.queue c.update_requested e

read_requests-IsAwake : (c : QueueController) (u : Updater) → Leads IsAwake (read_requests u c)
read_requests-IsAwake c idle = tt
read_requests-IsAwake c (updating ts) = tt
read_requests-IsAwake c spawned =
    busy-Rests c.phase _ c.queue c.update_requested (not_free c.watcher _)

next_filer-IsAwake : (c : QueueController) (u : Updater) → Leads IsAwake (next_filer u c)
next_filer-IsAwake c idle = tt
next_filer-IsAwake c spawned = tt
next_filer-IsAwake c (updating []) = tt
next_filer-IsAwake c (updating (t ∷ ts)) =
    busy-Rests c.phase _ c.queue c.update_requested (not_free c.watcher ts)

finish_update-IsAwake : (c : QueueController) (u : Updater) → Leads IsAwake (finish_update u c)
finish_update-IsAwake c idle = tt
finish_update-IsAwake c spawned = tt
finish_update-IsAwake c (updating (t ∷ ts)) = tt
finish_update-IsAwake c (updating []) =
    let d = record c { updater = idle; phase = top } in
    at_select-Leads IsAwake c.phase (try_run d) (elsewhere (try_run d) (try_run-Elsewhere d tt))

finish_run-IsAwake : (c : QueueController) (w : Watcher) → Leads IsAwake (finish_run w c)
finish_run-IsAwake c unwatched = tt
finish_run-IsAwake c (following id) = tt
finish_run-IsAwake c (finishing st) = go c.phase
  where
    drop : (q : List CmdAndId) → Leads IsAwake (drop_head q c)
    drop [] = tt
    drop (x ∷ q) = tt

    go : (p : Phase) → Leads IsAwake (at_finished p c)
    go waiting = drop c.queue
    go top = tt
    go stopped = tt
    go (aborting ch) = tt

offered :
    (id : String) (st : RunStatus) (b : Bool) (u : Updater)
    → is_free (if b then finishing st else following id) u ≡ false
offered id st true u = refl
offered id st false u = refl

watch-IsAwake : (c : QueueController) (w : Watcher) (st : RunStatus) → Leads IsAwake (watch w st c)
watch-IsAwake c unwatched st = tt
watch-IsAwake c (finishing s) st = tt
watch-IsAwake c (following id) st =
    if-cases (Leads IsAwake) (str_eq st.run_id id) _ _
      (λ f.
        busy-Rests c.phase _ c.queue c.update_requested
          (offered id st (is_done st.state) c.updater))
      (λ f. tt)

answer-IsAwake : (c : QueueController) (p : Phase) → Leads IsAwake (answer p c)
answer-IsAwake c top = tt
answer-IsAwake c waiting = tt
answer-IsAwake c stopped = tt
answer-IsAwake c (aborting ch) = go (sent_on ch c.status_manager.sent)
  where
    go : (o : Option RunStatus) → Leads IsAwake (answered c o)
    go none = tt
    go (some st) = tt

module _ (format : ℕ → String) where
  pub step-IsAwake : (e : Event) (c : QueueController) → IsAwake c → Leads IsAwake (step format e c)
  unfolding step abort
  step-IsAwake (initialized svc) c k = k
  step-IsAwake (ticked t) c k = k
  step-IsAwake update_read c k = read_requests-IsAwake c c.updater
  step-IsAwake filer_updated c k = next_filer-IsAwake c c.updater
  step-IsAwake turned c k = at_top-Leads IsAwake c.phase (at_rest (turn c)) (turn-IsAwake c)
  step-IsAwake tick_taken c k =
      let d = record c { ticks = c.ticks - 1; phase = top } in
      if-cases (Leads IsAwake) (c.ticks == 0) _ _ (λ e. tt)
        (λ e.
          at_select-Leads IsAwake c.phase (try_update d)
            (elsewhere (try_update d) (try_update-Elsewhere d tt)))
  step-IsAwake update_done c k = finish_update-IsAwake c c.updater
  step-IsAwake run_finished c k = finish_run-IsAwake c c.watcher
  step-IsAwake released c k = at_select-Leads IsAwake c.phase _ tt
  step-IsAwake (run_requested cmd) c k =
      let d = record c { phase = top } in
      at_select-Leads IsAwake c.phase (enqueue format d cmd)
        (elsewhere (enqueue format d cmd) (enqueue-Elsewhere format d cmd tt))
  step-IsAwake (abort_requested run) c k =
      at_select-Leads IsAwake c.phase (abort c run)
        (elsewhere (abort c run) (final_status-Elsewhere (withdraw c run) _))
  step-IsAwake abort_answered c k = answer-IsAwake c c.phase
  step-IsAwake (status_updated st) c k = watch-IsAwake c c.watcher st
  step-IsAwake (asked q listen) c k = k
  step-IsAwake (erased run) c k = k

  rests :
      (p : Phase) (b : Bool) (q : List CmdAndId) (r : Bool)
      → Rests p b q r
      → p ≡ waiting
      → b ≡ true
      → (q ≡ []) × (r ≡ false)
  rests waiting true q r h e f = h
  rests waiting false q r h e f = absurd (ground arith)
  rests top b q r h e f = absurd (ground arith)
  rests stopped b q r h e f = absurd (ground arith)
  rests (aborting ch) b q r h e f = absurd (ground arith)

  -- Whatever events came, whenever the loop waits in its select while nothing runs and no update goes on,
  -- the queue is empty and no update is asked for.
  pub steps-IsAwake :
      (capacity : ℕ) (es : List Event) (c : QueueController)
      → steps format es (new_queue_runner capacity) ≡ some c
      → c.phase ≡ waiting
      → is_free c.watcher c.updater ≡ true
      → (c.queue ≡ []) × (c.update_requested ≡ false)
  steps-IsAwake capacity es c f =
      rests c.phase (is_free c.watcher c.updater) c.queue c.update_requested (
        subst (Leads IsAwake) f
          (steps-Leads format IsAwake step-IsAwake es (new_queue_runner capacity) tt))
