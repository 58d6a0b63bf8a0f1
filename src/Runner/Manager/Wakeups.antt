-- ===== src/Runner/Manager/Wakeups.antt =====
-- No listener of runner/runners/status_manager.go waits while a run that it asks for is there.
use scoot.Base.{
  ℕ, ◌≡◌, refl, sym, subst, ◌∙◌, ◌⊎◌, str_eq, some_inj, inl, inr, String, Bool, true, false, some,
  List, [], ◌∷◌, arith, eq_iff, Dict, lookup, insert, ok, All, All-append, All-map, lookup-insert,
  lookup-delete, Bool-cases, Option-cases, Result-cases,
}
use scoot.Runner.Status.{pending, is_done, RunStatus}
use scoot.Runner.Query.{Query, query_matches, matches, has_run}
use scoot.Runner.Manager.{
  Listener, StatusManager, Event, created, serviced, updated, erased, asked, step, new_run, added,
  created_status, update, update_service, erase, evict, written, with_refs, unheard, current,
  in_states, of_runs, query_and_listen, listened,
}

-- A status that the query does not match, unless its run is pending.
abbrev pub NotOwed : Query → RunStatus → Type 0
NotOwed q st = (query_matches q st ≡ false) ⊎ (st.state ≡ pending)

-- The query matches no status of the map but those of pending runs.
abbrev pub Misses : Dict RunStatus → Query → Type 0
Misses runs q = (id : String) (st : RunStatus) → lookup id runs ≡ some st → NotOwed q st

-- Each run is under its own id, and no listener is owed a status.
pub record NoneMissed (m : StatusManager) : Type 0 where
  pub named : (id : String) (st : RunStatus) → lookup id m.runs ≡ some st → st.run_id ≡ id
  pub waiting : All (λ l. Misses m.runs l.q) m.listeners

-- Fewer runs and the same listeners.
fewer :
    (m n : StatusManager)
    → ((id : String) (st : RunStatus) → lookup id n.runs ≡ some st → lookup id m.runs ≡ some st)
    → n.listeners ≡ m.listeners
    → NoneMissed m
    → NoneMissed n
fewer m n sub e k = record {
  named = λ id st h. k.named id st (sub id st h);
  waiting = rw e (
      All-map _ (λ l. Misses n.runs l.q) m.listeners (λ l w id st h. w id st (sub id st h))
        k.waiting);
}

unheard-All {ℓ} :
    (P : Listener → Type ℓ) (st : RunStatus) (ls : List Listener)
    → All P ls
    → All (λ l. P l × (query_matches l.q st ≡ false)) (unheard st ls)
unfolding unheard
unheard-All P st [] h = tt
unheard-All P st (l ∷ ls) h = elim (Bool-cases (query_matches l.q st)) [
  | inl e ↦ rw (e, unheard) (unheard-All P st ls h.1)
  | inr e ↦ rw (e, unheard) ((h.0, e), unheard-All P st ls h.1)
]

Misses-insert :
    (runs : Dict RunStatus) (q : Query) (id : String) (st : RunStatus)
    → NotOwed q st
    → Misses runs q
    → Misses (insert id st runs) q
Misses-insert runs q id st e w j s h = elim (Bool-cases (str_eq id j)) [
  | inl k ↦
      let same : st ≡ s = some_inj.0 (rw k at (sym (lookup-insert id j st runs) ∙ h)) in
      subst (NotOwed q) same e
  | inr k ↦ w j s (rw k at (sym (lookup-insert id j st runs) ∙ h))
]

named-insert :
    (m : StatusManager) (st : RunStatus)
    → NoneMissed m
    → (id : String) (s : RunStatus) → lookup id (insert st.run_id st m.runs) ≡ some s
    → s.run_id ≡ id
named-insert m st k id s h =
    ground (arith, lookup-insert st.run_id id st m.runs, k.named id s, eq_iff st.run_id id)

written-NoneMissed : (m : StatusManager) (st : RunStatus) → NoneMissed m → NoneMissed (written m st)
written-NoneMissed m st k = record {
  named = named-insert m st k;
  waiting =
      All-map _ (λ l. Misses (insert st.run_id st m.runs) l.q) (unheard st m.listeners)
        (λ l w. Misses-insert m.runs l.q st.run_id st (inl w.1) w.0)
        (unheard-All (λ l. Misses m.runs l.q) st m.listeners k.waiting);
}

update-NoneMissed : (m : StatusManager) (st : RunStatus) → NoneMissed m → NoneMissed (update m st).0
unfolding update
update-NoneMissed m st k = elim (Option-cases (lookup st.run_id m.runs)) [
  | inl e ↦ rw (e, update) k
  | inr (old, e) ↦ elim (Bool-cases (is_done old.state)) [
    | inl f ↦ rw (e, f, update) k
    | inr f ↦ rw (e, f, update) (written-NoneMissed m (with_refs old st) k)
  ]
]

erase-NoneMissed : (m : StatusManager) (run : String) → NoneMissed m → NoneMissed (erase m run)
unfolding erase
erase-NoneMissed m run k =
    fewer m (erase m run) (λ id st h. ground (arith, lookup-delete run id m.runs)) (ground arith) k

evict_runs :
    (m : StatusManager) (fifo : List String) (id : String) (st : RunStatus)
    → lookup id (evict m fifo).runs ≡ some st
    → lookup id m.runs ≡ some st
evict_runs m [] id st h = h
evict_runs m (j ∷ fifo) id st h = ground (arith, lookup-delete j id m.runs)

evict_listeners : (m : StatusManager) (fifo : List String) → (evict m fifo).listeners ≡ m.listeners
evict_listeners m [] = refl
evict_listeners m (j ∷ fifo) = ground arith

new_run-NoneMissed :
    (format : ℕ → String) (m : StatusManager) → NoneMissed m → NoneMissed (new_run format m).0
unfolding new_run
new_run-NoneMissed format m k =
    let id = format m.next_run_id in
    fewer (added format m) (new_run format m).0 (evict_runs (added format m) (added format m).fifo)
      (evict_listeners (added format m) (added format m).fifo)
      (record {
        named = named-insert m (created_status id) k;
        waiting =
            All-map _ (λ l. Misses (insert id (created_status id) m.runs) l.q) m.listeners
              (λ l w. Misses-insert m.runs l.q id (created_status id) (inr refl) w) k.waiting;
      })

in_states_none :
    (q : Query) (runs : Dict RunStatus) (id : String) (st : RunStatus)
    → in_states q.states runs ≡ []
    → lookup id runs ≡ some st
    → query_matches q st ≡ false
unfolding in_states lookup query_matches
in_states_none q [] j s h e = absurd (ground arith)
in_states_none q ((id, st) ∷ runs) j s h e =
    ground (arith, in_states_none q runs j s (ground arith))

of_runs_none :
    (q : Query) (ids : List String) (runs : Dict RunStatus) (id : String) (st : RunStatus)
    → of_runs q.states ids runs ≡ ok []
    → has_run ids id ≡ true
    → lookup id runs ≡ some st
    → matches q.states st.state ≡ false
unfolding of_runs
of_runs_none q [] runs id st h k e = absurd (ground arith)
of_runs_none q (i ∷ ids) runs id st h k e =
    ground (arith, of_runs_none q ids runs id st, eq_iff i id)

current_none :
    (m : StatusManager) (q : Query) → NoneMissed m → current q m.runs ≡ ok [] → Misses m.runs q
unfolding query_matches
current_none m q k h id st e = elim (Bool-cases q.all_runs) [
  | inl f ↦ inl (in_states_none q m.runs id st (ground arith) e)
  | inr f ↦ inl (ground (arith, of_runs_none q q.runs m.runs id st (ground arith), k.named id st e))
]

listened-NoneMissed :
    (m : StatusManager) (q : Query) (listen : Bool) (sts : List RunStatus)
    → NoneMissed m
    → current q m.runs ≡ ok sts
    → NoneMissed (listened m q listen sts).0
listened-NoneMissed m q false sts k h = k
listened-NoneMissed m q true (st ∷ sts) k h = k
listened-NoneMissed m q true [] k h = record {
  named = k.named;
  waiting = All-append _ m.listeners _ k.waiting (current_none m q k h, tt);
}

query_and_listen-NoneMissed :
    (m : StatusManager) (q : Query) (listen : Bool)
    → NoneMissed m
    → NoneMissed (query_and_listen m q listen).0
unfolding query_and_listen
query_and_listen-NoneMissed m q listen k = elim (Result-cases (current q m.runs)) [
  | inr (x, f) ↦ rw (f, query_and_listen) k
  | inl (sts, f) ↦ rw (f, query_and_listen) (listened-NoneMissed m q listen sts k f)
]

-- Whatever is called, no listener is left waiting while a run that its query matches is there, but for a
-- pending run, which NewRun tells no listener of.
pub step-NoneMissed :
    (format : ℕ → String) (e : Event) (m : StatusManager)
    → NoneMissed m
    → NoneMissed (step format e m)
step-NoneMissed format created m k = new_run-NoneMissed format m k
step-NoneMissed format (serviced s) m k =
    unfold update_service in record { named = k.named; waiting = k.waiting }
step-NoneMissed format (updated st) m k = update-NoneMissed m st k
step-NoneMissed format (erased run) m k = erase-NoneMissed m run k
step-NoneMissed format (asked q listen) m k = query_and_listen-NoneMissed m q listen k
