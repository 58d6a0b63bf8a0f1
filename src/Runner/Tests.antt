-- ===== src/Runner/Tests.antt =====
-- Run statuses on small inputs: runs of runner/runners/status_manager.go, and the theorems at them.
use Prim.Native.String.count
use Prim.Native.String.{count, ◌∷◌ as ◌<:◌}
use mathlib.Core.List.{Memᴰ}
use scoot.Base.{
  ℕ, zero, suc, ◌≡◌, ◌⊎◌, refl, ap, ◌∙◌, inl, inr, String, Bool-cases, sym, str_eq, some_inj,
  eq_iff, pos, true, false, none, some, List, [], ◌∷◌, arith, lookup, ok, err,
}
use scoot.Runner.Status.{pending, RunStatus, running_status, complete_status, LogTags, is_done}
use scoot.Runner.Query.{Query, query_matches, matches, done_mask, mask_for_state}
use scoot.Runner.Manager.{
  Listener, StatusManager, Event, created, updated, erased, step, new_status_manager, update,
}
use scoot.Runner.Manager.Wakeups.{NoneMissed, step-NoneMissed}
use scoot.Runner.Manager.Finality.{IsFinal, steps, steps-IsFinal}
use scoot.Runner.Manager.Delivery.{IsWritten, update-IsWritten}
use scoot.Runner.Manager.History.{IsBounded, step-IsBounded}

-- Numbers as texts: as many marks.
abbrev marks : ℕ → String
marks zero = ""
marks (suc n) = "|" <: marks n

mark_count : (n : ℕ) → count (marks n) ≡ n
mark_count zero = refl
mark_count (suc n) = count.cons _ (marks n) ∙ ap suc (mark_count n)

marks_injective : (i j : ℕ) → marks i ≡ marks j → i ≡ j
marks_injective i j e = sym (mark_count i) ∙ (ap count e ∙ mark_count j)

abbrev no_tags : LogTags
no_tags = record { job_id = "j"; task_id = "t"; tag = "" }

-- One run is running, and one client waits for it to be done.
abbrev for_done : Query
for_done = record { runs = "" ∷ []; all_runs = false; states = done_mask }

abbrev busy : StatusManager
busy = record (new_status_manager 2) {
  runs = ("", running_status "" "out" "err" no_tags) ∷ [];
  fifo = "" ∷ [];
  next_run_id = 1;
  listeners = record { q = for_done; ch = 0 } ∷ [];
  next_ch = 1;
}

abbrev finished : RunStatus
finished = complete_status "" "snap" (pos 0) no_tags

one_run :
    (id : String) (st : RunStatus)
    → lookup id busy.runs ≡ some st
    → (id ≡ "") × (st ≡ running_status "" "out" "err" no_tags)
unfolding lookup
one_run id st h = elim (Bool-cases (str_eq "" id)) [
  | inl e ↦ (sym ((eq_iff "" id).0 e), sym (some_inj.0 (rw e at h)))
  | inr e ↦ absurd (ground arith)
]

busy-NoneMissed : NoneMissed busy
unfolding query_matches matches
busy-NoneMissed = record {
  named = λ id st h. ap (λ s. s.run_id) (one_run id st h).1 ∙ sym (one_run id st h).0;
  waiting = ((λ id st h. rw (one_run id st h).1 (inl refl)), tt);
}

step-NoneMissed_example : NoneMissed (step marks (updated finished) busy)
step-NoneMissed_example = step-NoneMissed marks (updated finished) busy busy-NoneMissed

update-IsWritten_example :
    ((lookup "" busy.runs ≡ none)
      × (update busy finished ≡ (busy, err "Cannot update non-existing runID: %s")))
    ⊎ ((old : RunStatus) × (lookup "" busy.runs ≡ some old)
        × (((is_done old.state ≡ true) × (update busy finished ≡ (busy, ok tt)))
            ⊎ ((is_done old.state ≡ false)
                × ((update busy finished).1 ≡ ok tt)
                × IsWritten busy (update busy finished).0 old finished)))
update-IsWritten_example = update-IsWritten busy finished

-- The run is done: a new one, a late status and an erasure follow.
abbrev quiet : StatusManager
quiet = record busy { runs = ("", finished) ∷ []; listeners = [] }

quiet-IsFinal : IsFinal marks marks_injective "" finished quiet
unfolding lookup
quiet-IsFinal = record { number = 0; named = refl; given = ground arith; kept = inl refl }

abbrev events : List Event
events = created ∷ updated (running_status "" "o" "e" no_tags) ∷ erased "" ∷ []

steps-IsFinal_example :
    IsFinal marks marks_injective "" finished (steps marks marks_injective events quiet)
steps-IsFinal_example =
    steps-IsFinal marks marks_injective events "" finished quiet refl (ground arith) quiet-IsFinal

busy-IsBounded : IsBounded busy
busy-IsBounded = record {
  bound = inr (ground arith);
  held = λ id st h. Memᴰ.head (one_run id st h).0;
}

step-IsBounded_example : IsBounded (step marks created busy)
step-IsBounded_example = step-IsBounded marks created busy busy-IsBounded

-- A client that waits for a pending run.
abbrev for_pending : Listener
for_pending = record {
  q = record { runs = []; all_runs = true; states = mask_for_state (pending ∷ []) };
  ch = 0;
}

abbrev asked_pending : StatusManager
asked_pending = record (new_status_manager 0) { listeners = for_pending ∷ []; next_ch = 1 }
