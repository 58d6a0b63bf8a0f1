-- ===== src/Runner/Queue/Fifo.antt =====
-- runner/runners/queue.go as a line of waiting commands: what each event does to it.
pub mod Steps
use scoot.Base.{
  ℕ, zero, suc, ◌-◌, ◌≡◌, refl, sym, subst, inl, inr, String, Bool, true, false, not, Option, none,
  some, List, [], ◌∷◌, ◌++◌, str_eq, leb, ◌==◌, length, arith, if◌then◌else◌, if-cases, Result, ok,
  err,
}
use scoot.Runner.Command.{Command}
use scoot.Runner.Status.{RunStatus, is_done}
use scoot.Runner.Query.{done_mask}
use scoot.Runner.Manager.{StatusManager, new_run, Answer, query_and_listen}
use scoot.Runner.Queue.{
  CmdAndId, Updater, idle, spawned, updating, Watcher, unwatched, following, finishing, Phase, top,
  waiting, stopped, aborting, QueueController, is_free, try_update, run_head, try_run, turn,
  enqueue, remove, abort_queued, withdraw, final_status, abort,
}
use scoot.Runner.Queue.Steps.{
  Event, initialized, ticked, update_read, filer_updated, turned, tick_taken, update_done,
  run_finished, released, run_requested, abort_requested, abort_answered, status_updated, asked,
  erased, sent_on, read_requests, next_filer, finish_update, drop_head, at_finished, finish_run,
  watch, answered, answer, step,
}
use scoot.Runner.Queue.Invariant.{IsRunning, Held, IsValid}
use scoot.Runner.Queue.Exclusion.{Leads, at_top-Leads, at_select-Leads}

abbrev pub tail {ℓ} : {A : Type ℓ} → List A → List A
tail [] = []
tail (x ∷ xs) = xs

-- The commands that have not been started.
abbrev pub waiting_of : Watcher → List CmdAndId → List CmdAndId
waiting_of unwatched q = q
waiting_of (following id) q = tail q
waiting_of (finishing st) q = tail q

-- The events at which the loop may start a command.
abbrev pub is_turn : Event → Bool
is_turn turned = true
is_turn update_done = true
is_turn _ = false

-- A line of waiting commands beside those that were started: a request may join it at the end, the first
-- command may be started, an abort may take its run out, and nothing else changes it.
pub data Move (started line : List CmdAndId) : Event → List CmdAndId → List CmdAndId → Type 0 where
  stays : (e : Event) → Move started line e started line
  joins :
      (cmd : Command) (id : String)
      → Move started line (run_requested cmd) started (line ++ (record { cmd = cmd; id = id } ∷ []))
  starts :
      (e : Event)
      → is_turn e ≡ true
      → (x : CmdAndId) (rest : List CmdAndId) → line ≡ x ∷ rest
      → Move started line e (started ++ (x ∷ [])) rest
  leaves : (run : String) → Move started line (abort_requested run) started (remove run line).0

-- The move from one state of the controller to another.
abbrev pub Moves : Event → QueueController → QueueController → Type 0
Moves e c d =
    Move c.started (waiting_of c.watcher c.queue) e d.started (waiting_of d.watcher d.queue)

try_update-Moves : (e : Event) (c : QueueController) → Moves e c (try_update c)
unfolding try_update
try_update-Moves e c =
    if-cases (Moves e c) (is_free c.watcher c.updater) _ _ (λ f. stays e) (λ f. stays e)

free_unwatched : (w : Watcher) (u : Updater) → is_free w u ≡ true → w ≡ unwatched
free_unwatched unwatched u f = refl
free_unwatched (following id) u f = absurd (ground arith)
free_unwatched (finishing st) u f = absurd (ground arith)

run_head-Moves :
    (e : Event) (c : QueueController) (q : List CmdAndId)
    → is_turn e ≡ true
    → c.queue ≡ q
    → c.watcher ≡ unwatched
    → Moves e c (run_head c q)
run_head-Moves e c [] t f g = stays e
run_head-Moves e c (x ∷ rest) t f g = rw (f, g) (starts e t x rest refl)

try_run-Moves : (e : Event) (c : QueueController) → is_turn e ≡ true → Moves e c (try_run c)
unfolding try_run
try_run-Moves e c t =
    if-cases (Moves e c) (is_free c.watcher c.updater) _ _
      (λ f. run_head-Moves e c c.queue t refl (free_unwatched c.watcher c.updater f)) (λ f. stays e)

waiting_of-append :
    (w : Watcher) (q r : List CmdAndId) (u : Updater) (rid : String) (rcmd : Option Command)
    (ab : Bool)
    → Held w q u rid rcmd ab
    → waiting_of w (q ++ r) ≡ waiting_of w q ++ r
waiting_of-append unwatched q r u rid rcmd ab h = refl
waiting_of-append (following id) [] r u rid rcmd ab h = absurd (ground arith)
waiting_of-append (following id) (x ∷ q) r u rid rcmd ab h = refl
waiting_of-append (finishing st) [] r u rid rcmd ab h = absurd (ground arith)
waiting_of-append (finishing st) (x ∷ q) r u rid rcmd ab h = refl

enqueue-Moves :
    (format : ℕ → String) (c : QueueController) (cmd : Command)
    → IsValid c
    → Moves (run_requested cmd) c (enqueue format c cmd)
unfolding enqueue
enqueue-Moves format c cmd k =
    let e = run_requested cmd in
    let id = (new_run format c.status_manager).1.run_id in
    if-cases (Moves e c) (not c.status_manager.svc_status.initialized) _ _ (λ f. stays e)
      (λ f.
        if-cases (Moves e c) (leb c.capacity (length c.queue)) _ _ (λ g. stays e)
          (λ g.
            rw
              (waiting_of-append c.watcher c.queue (record { cmd = cmd; id = id } ∷ []) c.updater
                c.running_id c.running_cmd c.running_abort k.held)
              (joins cmd id)))

-- An abort that is not for the running command leaves the head alone.
waiting_of-remove :
    (run : String) (w : Watcher) (q : List CmdAndId) (u : Updater) (rid : String)
    (rcmd : Option Command) (ab : Bool)
    → str_eq run rid ≡ false
    → Held w q u rid rcmd ab
    → waiting_of w (remove run q).0 ≡ (remove run (waiting_of w q)).0
unfolding remove
waiting_of-remove run unwatched q u rid rcmd ab n h = refl
waiting_of-remove run (following id) [] u rid rcmd ab n h = absurd (ground arith)
waiting_of-remove run (following id) (y ∷ q) u rid rcmd ab n h =
    let e : str_eq run y.id ≡ false = rw (h.same, sym h.running) n in rw (e, remove) refl
waiting_of-remove run (finishing st) [] u rid rcmd ab n h = absurd (ground arith)
waiting_of-remove run (finishing st) (y ∷ q) u rid rcmd ab n h =
    let e : str_eq run y.id ≡ false = rw (h.same, sym h.running) n in rw (e, remove) refl

abort_queued-Moves :
    (c : QueueController) (run : String) (found : List CmdAndId × Option Command)
    → waiting_of c.watcher found.0 ≡ (remove run (waiting_of c.watcher c.queue)).0
    → Moves (abort_requested run) c (abort_queued c run found)
abort_queued-Moves c run (q, none) e = stays (abort_requested run)
abort_queued-Moves c run (q, some cmd) e = rw e (leaves run)

final_status-Moves :
    (e : Event) (c d : QueueController) (a : StatusManager × Answer)
    → Moves e c d
    → Moves e c (final_status d a)
final_status-Moves e c d (m, err x) v = v
final_status-Moves e c d (m, ok (st ∷ sts, ch)) v = v
final_status-Moves e c d (m, ok ([], some ch)) v = v
final_status-Moves e c d (m, ok ([], none)) v = v

abort-Moves :
    (c : QueueController) (run : String) → IsValid c → Moves (abort_requested run) c (abort c run)
unfolding abort
abort-Moves c run k =
    let e = abort_requested run in
    let d = withdraw c run in
    final_status-Moves e c d
      (query_and_listen d.status_manager
        (record { runs = run ∷ []; all_runs = false; states = done_mask }) true)
      (if-cases (Moves e c) (str_eq run c.running_id) _ _
        (λ f. if-cases (Moves e c) c.running_abort _ c (λ g. stays e) (λ g. stays e))
        (λ f. abort_queued-Moves c run (remove run c.queue) (
          waiting_of-remove run c.watcher c.queue c.updater c.running_id c.running_cmd
            c.running_abort f k.held)))
