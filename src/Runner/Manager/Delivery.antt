-- ===== src/Runner/Manager/Delivery.antt =====
-- What runner/runners/status_manager.go's Update writes and whom it tells, and what StatusNow reads.
use scoot.Base.{
  ℕ, ◌≡◌, ◌⊎◌, refl, ap, sym, ◌∙◌, subst, inl, inr, String, true, false, none, some, List, [], ◌∷◌,
  str_eq, arith, eq_refl, lookup, ok, err, All, All-map, lookup-insert, Bool-cases, Option-cases,
}
use mathlib.Core.List.{Memᴰ}
use mathlib.Core.List.Memᴰ
use scoot.Runner.Status.{RunState, pending, is_done, RunStatus, ServiceStatus}
use scoot.Runner.Query.{query_matches, matches, all_mask, matches_masks}
use scoot.Runner.Manager.{
  Listener, StatusManager, new_run, added, created_status, update, evict, written, with_refs,
  unheard, heard, of_runs, status_now, query_now,
}

-- A status that matches is sent to the listener, and a listener that it does not match keeps waiting.
abbrev Settled : RunStatus → List (ℕ × RunStatus) → List Listener → Listener → Type 0
Settled st sent rest l =
    ((query_matches l.q st ≡ true) × Memᴰ (l.ch, st) sent)
    ⊎ ((query_matches l.q st ≡ false) × Memᴰ l rest)

weaken :
    (st : RunStatus) (sent sent' : List (ℕ × RunStatus)) (rest rest' : List Listener)
    → ((x : ℕ × RunStatus) → Memᴰ x sent → Memᴰ x sent')
    → ((l : Listener) → Memᴰ l rest → Memᴰ l rest')
    → (l : Listener) → Settled st sent rest l
    → Settled st sent' rest' l
weaken st sent sent' rest rest' f g l (inl h) = inl (h.0, f _ h.1)
weaken st sent sent' rest rest' f g l (inr h) = inr (h.0, g l h.1)

heard-Settled :
    (st : RunStatus) (ls : List Listener) → All (Settled st (heard st ls) (unheard st ls)) ls
unfolding heard unheard
heard-Settled st [] = tt
heard-Settled st (l ∷ ls) = elim (Bool-cases (query_matches l.q st)) [
  | inl e ↦
      let told : heard st (l ∷ ls) ≡ (l.ch, st) ∷ heard st ls = rw (e, heard) refl in
      let rest : unheard st (l ∷ ls) ≡ unheard st ls = rw (e, unheard) refl in
      (
        inl (e, subst (Memᴰ (l.ch, st)) (sym told) (Memᴰ.head refl)),
        All-map _ _ ls
            (weaken st _ _ _ _ (λ x m. subst (Memᴰ x) (sym told) (Memᴰ.tail m))
              (λ x m. subst (Memᴰ x) (sym rest) m))
            (heard-Settled st ls),
      )
  | inr e ↦
      let told : heard st (l ∷ ls) ≡ heard st ls = rw (e, heard) refl in
      let rest : unheard st (l ∷ ls) ≡ l ∷ unheard st ls = rw (e, unheard) refl in
      (
        inr (e, subst (Memᴰ l) (sym rest) (Memᴰ.head refl)),
        All-map _ _ ls
            (weaken st _ _ _ _ (λ x m. subst (Memᴰ x) (sym told) m)
              (λ x m. subst (Memᴰ x) (sym rest) (Memᴰ.tail m)))
            (heard-Settled st ls),
      )
]

-- What Update leaves when it accepts a status for a run that is not done.
pub record IsWritten (m n : StatusManager) (old new : RunStatus) : Type 0 where
  pub st : RunStatus
  pub present : lookup new.run_id n.runs ≡ some st
  pub same_state : st.state ≡ new.state
  pub keeps_stdout : str_eq old.stdout_ref "" ≡ false → str_eq st.stdout_ref "" ≡ false
  pub keeps_stderr : str_eq old.stderr_ref "" ≡ false → str_eq st.stderr_ref "" ≡ false
  pub others : (id : String) → str_eq new.run_id id ≡ false → lookup id n.runs ≡ lookup id m.runs
  pub settles : All (Settled st n.sent n.listeners) m.listeners

written-IsWritten :
    (m : StatusManager) (old new : RunStatus) → IsWritten m (written m (with_refs old new)) old new
written-IsWritten m old new = record {
  st = with_refs old new;
  present =
      rw (lookup-insert new.run_id new.run_id (with_refs old new) m.runs, eq_refl new.run_id) refl;
  same_state = refl;
  keeps_stdout = λ h. ground arith;
  keeps_stderr = λ h. ground arith;
  others = λ id h. rw (lookup-insert new.run_id id (with_refs old new) m.runs, h) refl;
  settles =
      All-map _ _ m.listeners
        (weaken (with_refs old new) _ _ _ _ (λ x k. Memᴰ.append_right m.sent k) (λ l k. k))
        (heard-Settled (with_refs old new) m.listeners);
}

-- Update refuses a run that it does not know, leaves a run that is done as it is, and otherwise writes the
-- new state without losing a reference to the output, leaves every other run alone, and settles each
-- listener: it is sent the status if its query matches, and keeps waiting if not.
pub update-IsWritten :
    (m : StatusManager) (new : RunStatus)
    → ((lookup new.run_id m.runs ≡ none)
        × (update m new ≡ (m, err "Cannot update non-existing runID: %s")))
      ⊎ ((old : RunStatus) × (lookup new.run_id m.runs ≡ some old)
          × (((is_done old.state ≡ true) × (update m new ≡ (m, ok tt)))
              ⊎ ((is_done old.state ≡ false)
                  × ((update m new).1 ≡ ok tt)
                  × IsWritten m (update m new).0 old new)))
unfolding update
update-IsWritten m new = elim (Option-cases (lookup new.run_id m.runs)) [
  | inl e ↦ inl (e, rw (e, update) refl)
  | inr (old, e) ↦ inr (
    old,
    e,
    elim (Bool-cases (is_done old.state)) [
      | inl f ↦ inl (f, rw (e, f, update) refl)
      | inr f ↦ inr (f, rw (e, f, update) refl, rw (e, f, update) (written-IsWritten m old new))
    ],
  )
]

all_match : (state : RunState) → matches all_mask state ≡ true
all_match state = (matches_masks state pending).1

-- StatusNow never panics on an empty answer: it returns the status of the run as the manager has it, or an
-- error for a run that it does not know.
status_now-lookup :
    (m : StatusManager) (id : String)
    → ((lookup id m.runs ≡ none)
        × ((s : ServiceStatus) × (status_now m id ≡ some (err "unknown run id %v", s))))
      ⊎ ((st : RunStatus) × (lookup id m.runs ≡ some st)
          × (status_now m id ≡ some (ok st, m.svc_status)))
unfolding status_now query_now of_runs
status_now-lookup m id = elim (Option-cases (lookup id m.runs)) [
  | inl e ↦ inl (
    e,
    (record { initialized = false; error = none }, rw (e, status_now, query_now, of_runs) refl),
  )
  | inr (st, e) ↦ inr (st, e, rw (e, status_now, query_now, of_runs, all_match st.state) refl)
]

evict_none :
    (m : StatusManager) (fifo : List String)
    → m.capacity ≡ 0
    → ((evict m fifo).listeners ≡ m.listeners)
      × ((evict m fifo).sent ≡ m.sent)
      × ((evict m fifo).runs ≡ m.runs)
evict_none m [] z = (refl, refl, refl)
evict_none m (id ∷ ids) z = (ground arith, ground arith, ground arith)

-- In a manager whose history is unbounded, a listener for pending runs among all runs, the first in line, is
-- not told of a new run, which its query matches: it keeps waiting.
new_run_unheard :
    (format : ℕ → String) (m : StatusManager) (l : Listener) (ls : List Listener)
    → m.capacity ≡ 0
    → m.listeners ≡ l ∷ ls
    → l.q.all_runs ≡ true
    → matches l.q.states pending ≡ true
    → let (n, st) = new_run format m in
      (n.listeners ≡ l ∷ ls)
      × (n.sent ≡ m.sent)
      × (lookup st.run_id n.runs ≡ some st)
      × (query_matches l.q st ≡ true)
unfolding new_run query_matches
new_run_unheard format m l ls z e a h =
    let id = format m.next_run_id in
    let (waits, sent, runs) = evict_none (added format m) (added format m).fifo z in
    (
      waits ∙ e,
      sent,
      ap (lookup id) runs ∙ rw (lookup-insert id id (created_status id) m.runs, eq_refl id) refl,
      simp (a, h, query_matches) refl,
    )
