-- ===== src/Runner/Manager/History.antt =====
-- The history of runner/runners/status_manager.go: how many runs it keeps.
use mathlib.Core.List.{Memᴰ}
use mathlib.Core.List.Memᴰ
use scoot.Base.{
  ℕ, suc, ◌≤◌, ◌≡◌, ◌⊎◌, refl, ap, sym, subst, inl, inr, String, Bool, true, false, not, ◌&&◌, some,
  List, [], ◌∷◌, str_eq, ltb, ◌==◌, arith, eq_iff, lookup, length, length-append, lookup-insert,
  lookup-delete, Bool-cases, Option-cases, Result-cases,
}
use scoot.Runner.Status.{RunStatus}
use scoot.Runner.Query.{Query}
use scoot.Runner.Manager.{
  StatusManager, Event, created, serviced, updated, erased, asked, step, new_run, added,
  created_status, update, update_service, erase, evict, with_refs, current, query_and_listen,
  listened,
}

-- At most `capacity` ids are in the history, unless it is unbounded, and every run is in it.
pub record IsBounded (m : StatusManager) : Type 0 where
  pub bound : (m.capacity ≡ 0) ⊎ (length m.fifo ≤ m.capacity)
  pub held : (id : String) (st : RunStatus) → lookup id m.runs ≡ some st → Memᴰ id m.fifo

-- The same history over no more runs.
carried :
    (m n : StatusManager)
    → n.capacity ≡ m.capacity
    → n.fifo ≡ m.fifo
    → ((id : String) (st : RunStatus)
        → lookup id n.runs ≡ some st
        → (s : RunStatus) × (lookup id m.runs ≡ some s))
    → IsBounded m
    → IsBounded n
carried m n e f sub b = record {
  bound = rw (e, f) b.bound;
  held = λ id st h. let (s, k) = sub id st h in subst (Memᴰ id) (sym f) (b.held id s k);
}

-- An id other than the first is in the rest.
later : (id j : String) (ids : List String) → str_eq j id ≡ false → Memᴰ id (j ∷ ids) → Memᴰ id ids
later id j ids e (Memᴰ.head k) = absurd (ground (arith, eq_iff j id))
later id j ids e (Memᴰ.tail k) = k

evict-IsBounded :
    (m : StatusManager)
    → ((m.capacity ≡ 0) ⊎ (length m.fifo ≤ suc m.capacity))
    → ((id : String) (st : RunStatus) → lookup id m.runs ≡ some st → Memᴰ id m.fifo)
    → IsBounded (evict m m.fifo)
evict-IsBounded m b h = from m.fifo refl
  where
    from : (fifo : List String) → m.fifo ≡ fifo → IsBounded (evict m fifo)
    from [] e = record { bound = rw e (inr (ground arith)); held = h }
    from (j ∷ ids) e =
        elim (Bool-cases (not (m.capacity == 0) && ltb m.capacity (suc (length ids)))) [
          | inr f ↦ rw f (record { bound = ground (arith, ap length e, b); held = h })
          | inl f ↦ rw f (record {
            bound = ground (arith, ap length e, b);
            held = λ id st k.
                later id j ids (ground (arith, lookup-delete j id m.runs))
                  (subst (Memᴰ id) e (h id st (ground (arith, lookup-delete j id m.runs))));
          })
        ]

new_run-IsBounded :
    (format : ℕ → String) (m : StatusManager) → IsBounded m → IsBounded (new_run format m).0
unfolding new_run
new_run-IsBounded format m b =
    let id = format m.next_run_id in
    evict-IsBounded (added format m) (ground (arith, b.bound, length-append m.fifo (id ∷ [])))
      (λ j st h. elim (Bool-cases (str_eq id j)) [
        | inl e ↦ Memᴰ.append_right m.fifo (Memᴰ.head (sym ((eq_iff id j).0 e)))
        | inr e ↦
            Memᴰ.append_left (id ∷ [])
              (b.held j st (ground (arith, lookup-insert id j (created_status id) m.runs)))
      ])

-- Update adds no run.
known :
    (m : StatusManager) (new : RunStatus) (id : String) (st : RunStatus)
    → lookup id (update m new).0.runs ≡ some st
    → (s : RunStatus) × (lookup id m.runs ≡ some s)
unfolding update
known m new id st h = elim (Option-cases (lookup id m.runs)) [
  | inr f ↦ f
  | inl f ↦ elim (Option-cases (lookup new.run_id m.runs)) [
    | inl e ↦ absurd (ground arith)
    | inr (old, e) ↦ absurd (
        ground
          (arith, lookup-insert new.run_id id (with_refs old new) m.runs, eq_iff new.run_id id))
  ]
]

update-IsBounded : (m : StatusManager) (new : RunStatus) → IsBounded m → IsBounded (update m new).0
unfolding update
update-IsBounded m new b = carried m (update m new).0 (ground arith) (ground arith) (known m new) b

erase-IsBounded : (m : StatusManager) (run : String) → IsBounded m → IsBounded (erase m run)
unfolding erase
erase-IsBounded m run b =
    carried m (erase m run) (ground arith) (ground arith)
      (λ id st h. (st, ground (arith, lookup-delete run id m.runs))) b

listened-IsBounded :
    (m : StatusManager) (q : Query) (listen : Bool) (sts : List RunStatus)
    → IsBounded m
    → IsBounded (listened m q listen sts).0
listened-IsBounded m q false sts b = b
listened-IsBounded m q true (st ∷ sts) b = b
listened-IsBounded m q true [] b = record { bound = b.bound; held = b.held }

asked-IsBounded :
    (m : StatusManager) (q : Query) (listen : Bool)
    → IsBounded m
    → IsBounded (query_and_listen m q listen).0
unfolding query_and_listen
asked-IsBounded m q listen b = elim (Result-cases (current q m.runs)) [
  | inl (sts, e) ↦ rw (e, query_and_listen) (listened-IsBounded m q listen sts b)
  | inr (x, e) ↦ rw (e, query_and_listen) b
]

-- The history never grows beyond the capacity, if there is one, and every run that has a status is in it.
pub step-IsBounded :
    (format : ℕ → String) (e : Event) (m : StatusManager)
    → IsBounded m
    → IsBounded (step format e m)
unfolding update_service
step-IsBounded format created m b = new_run-IsBounded format m b
step-IsBounded format (serviced s) m b = record { bound = b.bound; held = b.held }
step-IsBounded format (updated st) m b = update-IsBounded m st b
step-IsBounded format (erased run) m b = erase-IsBounded m run b
step-IsBounded format (asked q listen) m b = asked-IsBounded m q listen b
