-- ===== src/Runner/Queue/Drain.antt =====
-- How the queue of runner/runners/queue.go runs dry, from a loop with nothing running or with one command.
use scoot.Base.{
  ℕ, zero, suc, ◌+◌, ◌-◌, ◌≤◌, ◌≡◌, refl, sym, subst, String, Bool, true, false, none, some, List,
  [], ◌∷◌, ◌++◌, ◌==◌, eq_refl, length, arith, All, pos,
}
use mathlib.Core.List.{append_assoc, append-nil}
use scoot.Runner.Status.{RunStatus, complete_status}
use scoot.Runner.Manager.{update}
use scoot.Runner.Queue.{
  CmdAndId, Updater, idle, spawned, updating, Watcher, unwatched, following, finishing, Phase, top,
  waiting, QueueController, try_update, try_run, turn,
}
use scoot.Runner.Queue.Steps.{
  Event, update_read, filer_updated, turned, update_done, run_finished, status_updated,
  types_to_update, none_requested, step, steps,
}

-- The events of the queue's own goroutines: the loop's turns, the updates that were asked for, and the
-- statuses and the end of the running command.
abbrev pub is_own : Event → Bool
is_own turned = true
is_own update_read = true
is_own filer_updated = true
is_own update_done = true
is_own (status_updated st) = true
is_own run_finished = true
is_own _ = false

-- The commands were started, after those before, and none waits or runs.
pub record Drained (all : List CmdAndId) (d : QueueController) : Type 0 where
  pub empty : d.queue ≡ []
  pub in_order : d.started ≡ all

-- The queue's own events can lead to a drained queue.
pub record Drains (format : ℕ → String) (all : List CmdAndId) (c : QueueController) : Type 0 where
  pub events : List Event
  pub end : QueueController
  pub own : All (λ e. is_own e ≡ true) events
  pub path : steps format events c ≡ some end
  pub drained : Drained all end

-- The controller in the given state.
abbrev pub at :
    QueueController → Phase → Watcher → Updater → Bool → ℕ → List CmdAndId → QueueController
at c p w u r t q = record c {
  phase = p;
  watcher = w;
  updater = u;
  update_requested = r;
  ticks = t;
  queue = q;
}

abbrev pub count : Bool → ℕ
count true = 1
count false = 0

-- The final status that the invoker reports.
abbrev pub final : String → RunStatus
final id = complete_status id "" (pos 0) (record { job_id = ""; task_id = ""; tag = "" })

pub some_ticks : (t : ℕ) → (suc t == 0) ≡ false
some_ticks t = ground arith

pub fewer_ticks : (t : ℕ) → suc t - 1 ≡ t
fewer_ticks t = omega arith

module _ (format : ℕ → String) where
  pub then-Drains :
      {all : List CmdAndId} (e : Event) (c d : QueueController)
      → is_own e ≡ true
      → step format e c ≡ some d
      → Drains format all d
      → Drains format all c
  then-Drains e c d o f k = record {
    events = e ∷ k.events;
    end = k.end;
    own = (o, k.own);
    path = rw (f, steps) k.path;
    drained = k.drained;
  }

  -- Up to that much work, a loop that comes round with nothing running drains.
  abbrev Below : ℕ → Type 0
  Below n =
      (c : QueueController) (r : Bool) (t : ℕ) (q : List CmdAndId)
      → count r + t + length q ≤ n
      → Drains format (c.started ++ q) (at c top unwatched idle r t q)

  pub finishing-Drains :
      (n : ℕ)
      → Below n
      → (c : QueueController) (st : RunStatus) (r : Bool) (t : ℕ) (x : CmdAndId) (q : List CmdAndId)
      → count r + t + length q ≤ n
      → Drains format (c.started ++ q) (at c waiting (finishing st) idle r t (x ∷ q))
  unfolding step
  finishing-Drains n k c st r t x q h =
      let d = record c { running_id = ""; running_cmd = none; running_abort = false } in
      then-Drains run_finished (at c waiting (finishing st) idle r t (x ∷ q))
        (at d top unwatched idle r t q) refl refl (k d r t q h)

  pub following-Drains :
      (n : ℕ)
      → Below n
      → (c : QueueController) (id : String) (r : Bool) (t : ℕ) (x : CmdAndId) (q : List CmdAndId)
      → count r + t + length q ≤ n
      → Drains format (c.started ++ q) (at c waiting (following id) idle r t (x ∷ q))
  unfolding step
  following-Drains n k c id r t x q h =
      let d = record c { status_manager = (update c.status_manager (final id)).0 } in
      then-Drains (status_updated (final id)) (at c waiting (following id) idle r t (x ∷ q))
        (at d waiting (finishing (final id)) idle r t (x ∷ q)) refl (rw (eq_refl id) refl)
        (finishing-Drains n k d (final id) r t x q h)

  -- A turn of the loop while a command runs.
  pub running-Drains :
      (n : ℕ)
      → Below n
      → (c : QueueController) (id : String) (r : Bool) (t : ℕ) (x : CmdAndId) (q : List CmdAndId)
      → count r + t + length q ≤ n
      → Drains format (c.started ++ q) (at c top (following id) idle r t (x ∷ q))
  unfolding step turn try_update try_run
  running-Drains n k c id true t x q h =
      then-Drains turned (at c top (following id) idle true t (x ∷ q))
        (at c waiting (following id) idle true t (x ∷ q)) refl refl
        (following-Drains n k c id true t x q h)
  running-Drains n k c id false zero x q h =
      then-Drains turned (at c top (following id) idle false 0 (x ∷ q))
        (at c waiting (following id) idle false 0 (x ∷ q)) refl refl
        (following-Drains n k c id false 0 x q h)
  running-Drains n k c id false (suc t) x q h =
      then-Drains turned (at c top (following id) idle false (suc t) (x ∷ q))
        (at c waiting (following id) idle true t (x ∷ q)) refl
        (rw (some_ticks t, fewer_ticks t) refl)
        (following-Drains n k c id true t x q (omega (arith, h)))

  pub offering-Drains :
      (n : ℕ)
      → Below n
      → (c : QueueController) (st : RunStatus) (r : Bool) (t : ℕ) (x : CmdAndId) (q : List CmdAndId)
      → count r + t + length q ≤ n
      → Drains format (c.started ++ q) (at c top (finishing st) idle r t (x ∷ q))
  unfolding step turn try_update try_run
  offering-Drains n k c st true t x q h =
      then-Drains turned (at c top (finishing st) idle true t (x ∷ q))
        (at c waiting (finishing st) idle true t (x ∷ q)) refl refl
        (finishing-Drains n k c st true t x q h)
  offering-Drains n k c st false zero x q h =
      then-Drains turned (at c top (finishing st) idle false 0 (x ∷ q))
        (at c waiting (finishing st) idle false 0 (x ∷ q)) refl refl
        (finishing-Drains n k c st false 0 x q h)
  offering-Drains n k c st false (suc t) x q h =
      then-Drains turned (at c top (finishing st) idle false (suc t) (x ∷ q))
        (at c waiting (finishing st) idle true t (x ∷ q)) refl
        (rw (some_ticks t, fewer_ticks t) refl)
        (finishing-Drains n k c st true t x q (omega (arith, h)))

  -- The head of the queue was just started.
  headed :
      {d : QueueController} (s : List CmdAndId) (x : CmdAndId) (q : List CmdAndId)
      → Drains format ((s ++ (x ∷ [])) ++ q) d
      → Drains format (s ++ (x ∷ q)) d
  headed {d} s x q k = subst (λ l. Drains format l d) (append_assoc s (x ∷ []) q) k

  -- The filers are updated one after the other, and the loop hears of it.
  pub updating-Drains :
      (n : ℕ)
      → Below n
      → (c : QueueController) (ts : List String) (r : Bool) (t : ℕ) (q : List CmdAndId)
      → count r + t + length q ≤ n
      → Drains format (c.started ++ q) (at c waiting unwatched (updating ts) r t q)
  unfolding step try_run
  updating-Drains n k c (u ∷ ts) r t q h =
      then-Drains filer_updated (at c waiting unwatched (updating (u ∷ ts)) r t q)
        (at c waiting unwatched (updating ts) r t q) refl refl (updating-Drains n k c ts r t q h)
  updating-Drains n k c [] r t [] h =
      then-Drains update_done (at c waiting unwatched (updating []) r t [])
        (at c top unwatched idle r t []) refl refl (k c r t [] h)
  updating-Drains n k c [] r t (x ∷ q) h =
      let d = record c {
        running_abort = true;
        running_id = x.id;
        running_cmd = some x.cmd;
        started = c.started ++ (x ∷ []);
      } in
      then-Drains update_done (at c waiting unwatched (updating []) r t (x ∷ q))
        (at d top (following x.id) idle r t (x ∷ q)) refl refl
        (headed c.started x q (running-Drains n k d x.id r t x q (omega (arith, h))))

  pub spawned-Drains :
      (n : ℕ)
      → Below n
      → (c : QueueController) (r : Bool) (t : ℕ) (q : List CmdAndId) → count r + t + length q ≤ n
      → Drains format (c.started ++ q) (at c waiting unwatched spawned r t q)
  unfolding step
  spawned-Drains n k c r t q h =
      let d = record c { update_req = none_requested c.update_req } in
      then-Drains update_read (at c waiting unwatched spawned r t q)
        (at d waiting unwatched (updating (types_to_update c.update_req)) r t q) refl refl
        (updating-Drains n k d (types_to_update c.update_req) r t q h)

  -- Whatever the amount of work.
  pub free-Drains : (n : ℕ) → Below n
  unfolding step turn try_update try_run
  free-Drains n c false zero [] h = record {
    events = [];
    end = at c top unwatched idle false 0 [];
    own = tt;
    path = refl;
    drained = record { empty = refl; in_order = sym (append-nil c.started) };
  }
  free-Drains zero c true t q h = absurd (omega (arith, h))
  free-Drains zero c false (suc t) q h = absurd (omega (arith, h))
  free-Drains zero c false zero (x ∷ q) h = absurd (omega (arith, h))
  free-Drains (suc n) c true t q h =
      then-Drains turned (at c top unwatched idle true t q)
        (at c waiting unwatched spawned false t q) refl refl
        (spawned-Drains n (free-Drains n) c false t q (omega (arith, h)))
  free-Drains (suc n) c false (suc t) q h =
      then-Drains turned (at c top unwatched idle false (suc t) q)
        (at c waiting unwatched spawned false t q) refl (rw (some_ticks t, fewer_ticks t) refl)
        (spawned-Drains n (free-Drains n) c false t q (omega (arith, h)))
  free-Drains (suc n) c false zero (x ∷ q) h =
      let d = record c {
        running_abort = true;
        running_id = x.id;
        running_cmd = some x.cmd;
        started = c.started ++ (x ∷ []);
      } in
      then-Drains turned (at c top unwatched idle false 0 (x ∷ q))
        (at d waiting (following x.id) idle false 0 (x ∷ q)) refl refl
        (headed c.started x q
          (following-Drains n (free-Drains n) d x.id false 0 x q (omega (arith, h))))
