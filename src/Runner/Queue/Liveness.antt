-- ===== src/Runner/Queue/Liveness.antt =====
-- How the queue of runner/runners/queue.go runs dry, from any place of its loop but an abort.
use scoot.Base.{
  ℕ, zero, suc, ◌+◌, ◌≡◌, ◌⊎◌, refl, sym, subst, inl, inr, String, Bool, true, false, some, List,
  [], ◌∷◌, ◌++◌, length, arith,
}
use mathlib.Core.List.{append-nil}
use scoot.Runner.Queue.{
  CmdAndId, Updater, idle, spawned, updating, Watcher, unwatched, following, finishing, Phase, top,
  waiting, stopped, aborting, QueueController, new_queue_runner, is_free, try_update, try_run, turn,
}
use scoot.Runner.Queue.Steps.{Event, turned, step, steps}
use scoot.Runner.Queue.Invariant.{Held}
use scoot.Runner.Queue.Exclusion.{Leads, steps-IsValid, steps-Leads}
use scoot.Runner.Queue.Awake.{Rests, IsAwake, step-IsAwake}
use scoot.Runner.Queue.Fifo.{waiting_of}
use scoot.Runner.Queue.Drain.{
  Drains, at, count, some_ticks, fewer_ticks, then-Drains, finishing-Drains, following-Drains,
  running-Drains, offering-Drains, updating-Drains, spawned-Drains, free-Drains,
}

-- An update is there.
abbrev busy : Bool → List String → Updater
busy true ts = spawned
busy false ts = updating ts

module _ (format : ℕ → String) where
  -- While an update goes on.
  at_update :
      (c : QueueController) (b : Bool) (ts : List String) (r : Bool) (t : ℕ) (q : List CmdAndId)
      → Drains format (c.started ++ q) (at c waiting unwatched (busy b ts) r t q)
  at_update c true ts r t q =
      let n = count r + t + length q in
      spawned-Drains format n (free-Drains format n) c r t q (omega arith)
  at_update c false ts r t q =
      let n = count r + t + length q in
      updating-Drains format n (free-Drains format n) c ts r t q (omega arith)

  turn_update :
      (c : QueueController) (b : Bool) (ts : List String) (r : Bool) (t : ℕ) (q : List CmdAndId)
      → Drains format (c.started ++ q) (at c top unwatched (busy b ts) r t q)
  unfolding step turn try_update try_run
  turn_update c true ts true t q =
      then-Drains format turned (at c top unwatched spawned true t q)
        (at c waiting unwatched spawned true t q) refl refl (at_update c true ts true t q)
  turn_update c false ts true t q =
      then-Drains format turned (at c top unwatched (updating ts) true t q)
        (at c waiting unwatched (updating ts) true t q) refl refl (at_update c false ts true t q)
  turn_update c true ts false zero q =
      then-Drains format turned (at c top unwatched spawned false 0 q)
        (at c waiting unwatched spawned false 0 q) refl refl (at_update c true ts false 0 q)
  turn_update c false ts false zero q =
      then-Drains format turned (at c top unwatched (updating ts) false 0 q)
        (at c waiting unwatched (updating ts) false 0 q) refl refl (at_update c false ts false 0 q)
  turn_update c true ts false (suc t) q =
      then-Drains format turned (at c top unwatched spawned false (suc t) q)
        (at c waiting unwatched spawned true t q) refl (rw (some_ticks t, fewer_ticks t) refl)
        (at_update c true ts true t q)
  turn_update c false ts false (suc t) q =
      then-Drains format turned (at c top unwatched (updating ts) false (suc t) q)
        (at c waiting unwatched (updating ts) true t q) refl (rw (some_ticks t, fewer_ticks t) refl)
        (at_update c false ts true t q)

  -- By the state of the loop, of the watcher and of the updater.
  any-Drains :
      (c : QueueController) (p : Phase) (w : Watcher) (u : Updater) (r : Bool) (t : ℕ)
      (q : List CmdAndId)
      → Held w q u c.running_id c.running_cmd c.running_abort
      → Rests p (is_free w u) q r
      → (p ≡ top) ⊎ (p ≡ waiting)
      → Drains format (c.started ++ waiting_of w q) (at c p w u r t q)
  any-Drains c stopped w u r t q h k (inl e) = absurd (ground arith)
  any-Drains c stopped w u r t q h k (inr e) = absurd (ground arith)
  any-Drains c (aborting ch) w u r t q h k (inl e) = absurd (ground arith)
  any-Drains c (aborting ch) w u r t q h k (inr e) = absurd (ground arith)
  any-Drains c top unwatched idle r t q h k e =
      free-Drains format (count r + t + length q) c r t q (omega arith)
  any-Drains c top unwatched spawned r t q h k e = turn_update c true [] r t q
  any-Drains c top unwatched (updating ts) r t q h k e = turn_update c false ts r t q
  any-Drains c waiting unwatched spawned r t q h k e = at_update c true [] r t q
  any-Drains c waiting unwatched (updating ts) r t q h k e = at_update c false ts r t q
  any-Drains c waiting unwatched idle r t [] h k e = record {
    events = [];
    end = at c waiting unwatched idle r t [];
    own = tt;
    path = refl;
    drained = record { empty = refl; in_order = sym (append-nil c.started) };
  }
  any-Drains c waiting unwatched idle r t (x ∷ q) h k e = absurd (ground arith)
  any-Drains c top (following id) u r t [] h k e = absurd (ground arith)
  any-Drains c top (finishing st) u r t [] h k e = absurd (ground arith)
  any-Drains c waiting (following id) u r t [] h k e = absurd (ground arith)
  any-Drains c waiting (finishing st) u r t [] h k e = absurd (ground arith)
  any-Drains c top (following id) u r t (x ∷ q) h k e =
      let n = count r + t + length q in
      subst (λ v. Drains format (c.started ++ q) (at c top (following id) v r t (x ∷ q)))
        (sym h.quiet) (running-Drains format n (free-Drains format n) c id r t x q (omega arith))
  any-Drains c top (finishing st) u r t (x ∷ q) h k e =
      let n = count r + t + length q in
      subst (λ v. Drains format (c.started ++ q) (at c top (finishing st) v r t (x ∷ q)))
        (sym h.quiet) (offering-Drains format n (free-Drains format n) c st r t x q (omega arith))
  any-Drains c waiting (following id) u r t (x ∷ q) h k e =
      let n = count r + t + length q in
      subst (λ v. Drains format (c.started ++ q) (at c waiting (following id) v r t (x ∷ q)))
        (sym h.quiet) (following-Drains format n (free-Drains format n) c id r t x q (omega arith))
  any-Drains c waiting (finishing st) u r t (x ∷ q) h k e =
      let n = count r + t + length q in
      subst (λ v. Drains format (c.started ++ q) (at c waiting (finishing st) v r t (x ∷ q)))
        (sym h.quiet) (finishing-Drains format n (free-Drains format n) c st r t x q (omega arith))

  -- Whatever events came, when the loop comes round or waits in its select, the queue's own events alone can
  -- lead to an empty queue, with every command that waited started, in the order of the queue.
  pub steps-drain :
      (capacity : ℕ) (es : List Event) (c : QueueController)
      → steps format es (new_queue_runner capacity) ≡ some c
      → (c.phase ≡ top) ⊎ (c.phase ≡ waiting)
      → Drains format (c.started ++ waiting_of c.watcher c.queue) c
  steps-drain capacity es c f e =
      any-Drains c c.phase c.watcher c.updater c.update_requested c.ticks c.queue
        (steps-IsValid format capacity es c f).held
        (subst (Leads IsAwake) f
          (steps-Leads format IsAwake (step-IsAwake format) es (new_queue_runner capacity) tt))
        e
