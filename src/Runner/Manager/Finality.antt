-- ===== src/Runner/Manager/Finality.antt =====
-- What runner/runners/status_manager.go keeps of a run: its final status, its references, its place in
-- the history, and what is heard of it.
use Prim.Native.Nat.{◌^◌}
use scoot.Base.{
  ℕ, suc, ◌+◌, ◌<◌, ◌≤◌, ◌≡◌, ◌⊎◌, refl, inl, inr, String, Bool, true, false, none, some, List, [],
  ◌∷◌, arith, eq_iff, lookup, length, lookup-insert, lookup-delete, Bool-cases, Option-cases,
  Result-cases,
}
use scoot.Runner.Status.{is_done, RunStatus}
use scoot.Runner.Query.{Query}
use scoot.Runner.Manager.{
  StatusManager, Event, created, serviced, updated, erased, asked, step, new_run, added,
  created_status, update, update_service, erase, evict, with_refs, current, query_and_listen,
  listened,
}

module _ (format : ℕ → String) (inj : (i j : ℕ) → format i ≡ format j → i ≡ j) where
  -- The run's number has been given away, and it has the status or is gone.
  pub record IsFinal (id : String) (st : RunStatus) (m : StatusManager) : Type 0 where
    pub number : ℕ
    pub named : id ≡ format number
    pub given : number < m.next_run_id
    pub kept : (lookup id m.runs ≡ some st) ⊎ (lookup id m.runs ≡ none)

  evict_kept :
      (m : StatusManager) (fifo : List String) (id : String) (st : RunStatus)
      → (lookup id m.runs ≡ some st) ⊎ (lookup id m.runs ≡ none)
      → (lookup id (evict m fifo).runs ≡ some st) ⊎ (lookup id (evict m fifo).runs ≡ none)
  evict_kept m [] id st h = h
  evict_kept m (j ∷ fifo) id st h = ground (arith, lookup-delete j id m.runs)

  evict_next : (m : StatusManager) (fifo : List String) → (evict m fifo).next_run_id ≡ m.next_run_id
  evict_next m [] = refl
  evict_next m (j ∷ fifo) = ground arith

  new_run-IsFinal :
      (id : String) (st : RunStatus) (m : StatusManager)
      → suc m.next_run_id < 2 ^ 64
      → IsFinal id st m
      → IsFinal id st (new_run format m).0
  unfolding new_run
  new_run-IsFinal id st m b f = record {
    number = f.number;
    named = f.named;
    given = rw (evict_next (added format m) (added format m).fifo) (ground arith);
    kept = evict_kept (added format m) (added format m).fifo id st (
        ground (
          arith,
          f.kept,
          f.named,
          f.given,
          lookup-insert (format m.next_run_id) id (created_status (format m.next_run_id)) m.runs,
          eq_iff (format m.next_run_id) id,
          inj m.next_run_id f.number,
        ));
  }

  update_kept :
      (m : StatusManager) (s : RunStatus) (id : String) (st : RunStatus)
      → is_done st.state ≡ true
      → (lookup id m.runs ≡ some st) ⊎ (lookup id m.runs ≡ none)
      → (lookup id (update m s).0.runs ≡ some st) ⊎ (lookup id (update m s).0.runs ≡ none)
  unfolding update
  update_kept m s id st d h = elim (Option-cases (lookup s.run_id m.runs)) [
    | inl e ↦ rw (e, update) h
    | inr (old, e) ↦ elim (Bool-cases (is_done old.state)) [
      | inl f ↦ rw (e, f, update) h
      | inr f ↦
          rw (e, f, update)
            (ground (arith, lookup-insert s.run_id id (with_refs old s) m.runs, eq_iff s.run_id id))
    ]
  ]

  erase_kept :
      (m : StatusManager) (run : String) (id : String) (st : RunStatus)
      → (lookup id m.runs ≡ some st) ⊎ (lookup id m.runs ≡ none)
      → (lookup id (erase m run).runs ≡ some st) ⊎ (lookup id (erase m run).runs ≡ none)
  unfolding erase
  erase_kept m run id st h = ground (arith, lookup-delete run id m.runs)

  carried :
      (m n : StatusManager) (id : String) (st : RunStatus)
      → IsFinal id st m
      → n.next_run_id ≡ m.next_run_id
      → (lookup id n.runs ≡ some st) ⊎ (lookup id n.runs ≡ none)
      → IsFinal id st n
  carried m n id st f e k = record {
    number = f.number;
    named = f.named;
    given = rw e f.given;
    kept = k;
  }

  listened_same :
      (m : StatusManager) (q : Query) (listen : Bool) (sts : List RunStatus)
      → ((listened m q listen sts).0.next_run_id ≡ m.next_run_id)
        × ((listened m q listen sts).0.runs ≡ m.runs)
  listened_same m q false sts = (refl, refl)
  listened_same m q true [] = (refl, refl)
  listened_same m q true (st ∷ sts) = (refl, refl)

  asked_same :
      (m : StatusManager) (q : Query) (listen : Bool)
      → ((query_and_listen m q listen).0.next_run_id ≡ m.next_run_id)
        × ((query_and_listen m q listen).0.runs ≡ m.runs)
  unfolding query_and_listen
  asked_same m q listen = elim (Result-cases (current q m.runs)) [
    | inl (sts, e) ↦ rw (e, query_and_listen) (listened_same m q listen sts)
    | inr (x, e) ↦ rw (e, query_and_listen) (refl, refl)
  ]

  step-IsFinal :
      (e : Event) (id : String) (st : RunStatus) (m : StatusManager)
      → is_done st.state ≡ true
      → suc m.next_run_id < 2 ^ 64
      → IsFinal id st m
      → IsFinal id st (step format e m)
  unfolding update_service update erase
  step-IsFinal created id st m d b f = new_run-IsFinal id st m b f
  step-IsFinal (serviced s) id st m d b f = carried m _ id st f refl f.kept
  step-IsFinal (updated s) id st m d b f =
      carried m _ id st f (ground arith) (update_kept m s id st d f.kept)
  step-IsFinal (erased run) id st m d b f =
      carried m _ id st f (ground arith) (erase_kept m run id st f.kept)
  step-IsFinal (asked q listen) id st m d b f =
      carried m _ id st f (asked_same m q listen).0 (rw (asked_same m q listen).1 f.kept)

  abbrev pub steps : List Event → StatusManager → StatusManager
  steps [] m = m
  steps (e ∷ es) m = steps es (step format e m)

  step_next :
      (e : Event) (m : StatusManager)
      → suc m.next_run_id < 2 ^ 64
      → (step format e m).next_run_id ≤ suc m.next_run_id
  unfolding new_run update_service update erase
  step_next created m b = rw (evict_next (added format m) (added format m).fifo) (ground arith)
  step_next (serviced s) m b = ground arith
  step_next (updated s) m b = ground arith
  step_next (erased run) m b = ground arith
  step_next (asked q listen) m b = ground (arith, (asked_same m q listen).0)

  -- A run that is done keeps its status or is gone, whatever is called, as long as the 64 bits of the
  -- run numbers do not wrap around, and if the texts of different numbers differ.
  pub steps-IsFinal :
      (es : List Event) (id : String) (st : RunStatus) (m : StatusManager)
      → is_done st.state ≡ true
      → m.next_run_id + length es < 2 ^ 64
      → IsFinal id st m
      → IsFinal id st (steps es m)
  steps-IsFinal [] id st m d b f = f
  steps-IsFinal (e ∷ es) id st m d b f =
      let n = step_next e m (ground arith) in
      steps-IsFinal es id st (step format e m) d (ground (arith, n))
        (step-IsFinal e id st m d (ground arith) f)
