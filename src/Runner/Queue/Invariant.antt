-- ===== src/Runner/Queue/Invariant.antt =====
-- The invariant of runner/runners/queue.go: what runs and what its queue holds.
use scoot.Base.{
  ℕ, ◌-◌, ◌≤◌, ◌≡◌, refl, sym, inl, inr, String, Bool, true, false, Option, none, some, List, [],
  ◌∷◌, ◌++◌, str_eq, leb, ◌==◌, length, length-append, arith, if-cases, ok, err, Bool-cases,
}
use scoot.Runner.Command.{Command}
use scoot.Runner.Manager.{StatusManager, new_run, Answer, query_and_listen}
use scoot.Runner.Query.{done_mask}
use scoot.Runner.Queue.{
  CmdAndId, Updater, idle, spawned, updating, Watcher, unwatched, following, finishing,
  QueueController, new_queue_runner, is_free, try_update, run_head, try_run, turn, enqueue, remove,
  abort_queued, withdraw, final_status, abort,
}

-- The run is the head of the queue, and no update goes on.
pub record IsHead (id : String) (head : CmdAndId) (updater : Updater) (running_id : String)
    (running_cmd : Option Command) : Type 0 where
  pub same : head.id ≡ id
  pub quiet : updater ≡ idle
  pub running : running_id ≡ id
  pub command : running_cmd ≡ some head.cmd

abbrev pub IsRunning : String → List CmdAndId → Updater → String → Option Command → Type 0
IsRunning id [] u rid rcmd = false ≡ true
IsRunning id (head ∷ rest) u rid rcmd = IsHead id head u rid rcmd

-- What the watcher watches.
abbrev pub Held : Watcher → List CmdAndId → Updater → String → Option Command → Bool → Type 0
Held unwatched q u rid rcmd ab = (rid ≡ "") × (rcmd ≡ none) × (ab ≡ false)
Held (following id) q u rid rcmd ab = IsRunning id q u rid rcmd
Held (finishing st) q u rid rcmd ab = IsRunning st.run_id q u rid rcmd

pub record IsValid (c : QueueController) : Type 0 where
  pub fits : length c.queue ≤ c.capacity
  pub held : Held c.watcher c.queue c.updater c.running_id c.running_cmd c.running_abort

pub new_queue_runner-IsValid : (capacity : ℕ) → IsValid (new_queue_runner capacity)
new_queue_runner-IsValid capacity = record { fits = ground arith; held = (refl, refl, refl) }

free-Held :
    (w : Watcher) (u v : Updater) (q : List CmdAndId) (rid : String) (rcmd : Option Command)
    (ab : Bool)
    → is_free w u ≡ true
    → Held w q u rid rcmd ab
    → Held w q v rid rcmd ab
free-Held unwatched u v q rid rcmd ab f h = h
free-Held (following id) u v q rid rcmd ab f h = absurd (ground arith)
free-Held (finishing st) u v q rid rcmd ab f h = absurd (ground arith)

free_idle : (w : Watcher) (u : Updater) → is_free w u ≡ true → u ≡ idle
free_idle unwatched idle f = refl
free_idle unwatched spawned f = absurd (ground arith)
free_idle unwatched (updating ts) f = absurd (ground arith)
free_idle (following id) u f = absurd (ground arith)
free_idle (finishing st) u f = absurd (ground arith)

pub try_update-IsValid : (c : QueueController) → IsValid c → IsValid (try_update c)
unfolding try_update
try_update-IsValid c v = elim (Bool-cases (is_free c.watcher c.updater)) [
  | inl f ↦
      rw (f, try_update)
        (record {
          fits = v.fits;
          held =
              free-Held c.watcher c.updater spawned c.queue c.running_id c.running_cmd
                c.running_abort f v.held;
        })
  | inr f ↦ rw (f, try_update) (record { fits = v.fits; held = v.held })
]

run_head_held :
    (c : QueueController) (q : List CmdAndId)
    → c.queue ≡ q
    → c.updater ≡ idle
    → IsValid c
    → IsValid (run_head c q)
run_head_held c [] e f v = v
run_head_held c (h ∷ rest) e f v = record {
  fits = v.fits;
  held = rw e (record { same = refl; quiet = f; running = refl; command = refl });
}

pub try_run-IsValid : (c : QueueController) → IsValid c → IsValid (try_run c)
unfolding try_run
try_run-IsValid c v = elim (Bool-cases (is_free c.watcher c.updater)) [
  | inl f ↦ rw (f, try_run) (run_head_held c c.queue refl (free_idle c.watcher c.updater f) v)
  | inr f ↦ rw (f, try_run) v
]

pub turn-IsValid : (c : QueueController) → IsValid c → IsValid (turn c)
unfolding turn
turn-IsValid c v =
    if-cases IsValid c.update_requested _ _ (λ f. try_update-IsValid c v)
      (λ f.
        if-cases IsValid (c.ticks == 0) _ _ (λ g. try_run-IsValid c v)
          (λ g.
            try_update-IsValid (record c { ticks = c.ticks - 1 })
              (record { fits = v.fits; held = v.held })))

append-Held :
    (w : Watcher) (q : List CmdAndId) (x : CmdAndId) (u : Updater) (rid : String)
    (rcmd : Option Command) (ab : Bool)
    → Held w q u rid rcmd ab
    → Held w (q ++ (x ∷ [])) u rid rcmd ab
append-Held unwatched q x u rid rcmd ab h = h
append-Held (following id) [] x u rid rcmd ab h = absurd (ground arith)
append-Held (following id) (y ∷ q) x u rid rcmd ab h = h
append-Held (finishing st) [] x u rid rcmd ab h = absurd (ground arith)
append-Held (finishing st) (y ∷ q) x u rid rcmd ab h = h

pub enqueue-IsValid :
    (format : ℕ → String) (c : QueueController) (cmd : Command)
    → IsValid c
    → IsValid (enqueue format c cmd)
unfolding enqueue
enqueue-IsValid format c cmd v = elim (Bool-cases c.status_manager.svc_status.initialized) [
  | inr f ↦ rw (f, enqueue) (record { fits = v.fits; held = v.held })
  | inl f ↦ elim (Bool-cases (leb c.capacity (length c.queue))) [
    | inl g ↦ rw (f, g, enqueue) (record { fits = v.fits; held = v.held })
    | inr g ↦
        rw (f, g, enqueue)
          (record {
            fits = ground (
              arith,
              length-append c.queue
                  (record { cmd = cmd; id = (new_run format c.status_manager).1.run_id } ∷ []),
            );
            held =
                append-Held c.watcher c.queue _ c.updater c.running_id c.running_cmd c.running_abort
                  v.held;
          })
  ]
]

remove-length : (run : String) (q : List CmdAndId) → length (remove run q).0 ≤ length q
unfolding remove
remove-length run [] = ground arith
remove-length run (x ∷ q) = ground (arith, remove-length run q)

-- The head stays that is not the run.
remove-Held :
    (run : String) (w : Watcher) (q : List CmdAndId) (u : Updater) (rid : String)
    (rcmd : Option Command) (ab : Bool)
    → str_eq run rid ≡ false
    → Held w q u rid rcmd ab
    → Held w (remove run q).0 u rid rcmd ab
unfolding remove
remove-Held run unwatched q u rid rcmd ab n h = h
remove-Held run (following id) [] u rid rcmd ab n h = absurd (ground arith)
remove-Held run (following id) (y ∷ q) u rid rcmd ab n h =
    let e : str_eq run y.id ≡ false = rw (h.same, sym h.running) n in rw (e, remove) h
remove-Held run (finishing st) [] u rid rcmd ab n h = absurd (ground arith)
remove-Held run (finishing st) (y ∷ q) u rid rcmd ab n h =
    let e : str_eq run y.id ≡ false = rw (h.same, sym h.running) n in rw (e, remove) h

abort_queued-IsValid :
    (c : QueueController) (run : String) (found : List CmdAndId × Option Command)
    → length found.0 ≤ length c.queue
    → Held c.watcher found.0 c.updater c.running_id c.running_cmd c.running_abort
    → IsValid c
    → IsValid (abort_queued c run found)
abort_queued-IsValid c run (q, none) l h v = v
abort_queued-IsValid c run (q, some cmd) l h v = record {
  fits = omega (arith, l, v.fits);
  held = h;
}

close-Held :
    (w : Watcher) (q : List CmdAndId) (u : Updater) (rid : String) (rcmd : Option Command)
    (ab : Bool)
    → Held w q u rid rcmd ab
    → Held w q u rid rcmd false
close-Held unwatched q u rid rcmd ab h = (h.0, h.1, refl)
close-Held (following id) q u rid rcmd ab h = h
close-Held (finishing st) q u rid rcmd ab h = h

withdraw-IsValid : (c : QueueController) (run : String) → IsValid c → IsValid (withdraw c run)
withdraw-IsValid c run v =
    if-cases IsValid (str_eq run c.running_id) _ _
      (λ e.
        if-cases IsValid c.running_abort _ c
          (λ f. record {
            fits = v.fits;
            held =
                close-Held c.watcher c.queue c.updater c.running_id c.running_cmd c.running_abort
                  v.held;
          })
          (λ f. v))
      (λ n.
        abort_queued-IsValid c run (remove run c.queue) (remove-length run c.queue)
          (remove-Held run c.watcher c.queue c.updater c.running_id c.running_cmd c.running_abort n
            v.held)
          v)

final_status-IsValid :
    (c : QueueController) (a : StatusManager × Answer) → IsValid c → IsValid (final_status c a)
final_status-IsValid c (m, err e) v = record { fits = v.fits; held = v.held }
final_status-IsValid c (m, ok (st ∷ sts, ch)) v = record { fits = v.fits; held = v.held }
final_status-IsValid c (m, ok ([], some ch)) v = record { fits = v.fits; held = v.held }
final_status-IsValid c (m, ok ([], none)) v = record { fits = v.fits; held = v.held }

pub abort-IsValid : (c : QueueController) (run : String) → IsValid c → IsValid (abort c run)
unfolding abort
abort-IsValid c run v =
    let d = withdraw c run in
    final_status-IsValid d
      (query_and_listen d.status_manager
        (record { runs = run ∷ []; all_runs = false; states = done_mask }) true)
      (withdraw-IsValid c run v)
