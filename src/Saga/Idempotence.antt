-- ===== src/Saga/Idempotence.antt =====
-- saga/saga.go says that its requests are idempotent, and saga/saga_recovery.go that duplicate
-- messages do no harm.
use mathlib.Core.Option
use scoot.Base.{
  ℕ, ◌≡◌, refl, sym, ◌∙◌, ◌⊎◌, inl, inr, true, false, arith, eq_refl, Dict, none, some,
  Option-cases, lookup, insert, lookup-insert, insert-insert, bit_or, ok,
}
use scoot.Saga.Message.{
  Bytes, SagaMessage, SagaMessageType, start_saga, end_saga, abort_saga, start_task, end_task,
  start_comp_task, end_comp_task,
}
use scoot.Saga.State.{
  SagaState, TaskData, flags, is_set, add_task_data, store_data, empty_task_data,
}
use scoot.Saga.Update.{add_payload, set_flags, mark, has_ended, update_saga_state}
use scoot.Saga.Transitions.{
  Step, ends, aborts, starts, completes, starts_comp, completes_comp, update_saga_state-ok_iff,
}
use scoot.Saga.Invariant.{IsValid}
use scoot.Saga.Progress.{shown, IsShown, update_saga_state-Grows}

-- A message's effect on the task data, as a function of the data alone.
payload_data : Dict TaskData → SagaMessage → Dict TaskData
payload_data d m = elim m.payload [
  | none ↦ d
  | some p ↦
      insert m.task_id
        (store_data m.msg_type (some p) (Option.get_or (lookup m.task_id d) empty_task_data)) d
]

payload_data_lem :
    (s : SagaState) (m : SagaMessage)
    → add_payload s m ≡ record s { task_data = payload_data s.task_data m }
unfolding add_payload add_task_data payload_data
payload_data_lem s m = ground arith

store_data_twice :
    (ty : SagaMessageType) (p : Bytes) (d : TaskData)
    → store_data ty p (store_data ty p d) ≡ store_data ty p d
store_data_twice start_saga p d = refl
store_data_twice end_saga p d = refl
store_data_twice abort_saga p d = refl
store_data_twice start_task p d = refl
store_data_twice end_task p d = refl
store_data_twice start_comp_task p d = refl
store_data_twice end_comp_task p d = refl

payload_data_twice :
    (d : Dict TaskData) (m : SagaMessage) → payload_data (payload_data d m) m ≡ payload_data d m
unfolding payload_data
payload_data_twice d m = elim (Option-cases m.payload) [
  | inl e ↦ simp (e, payload_data)
  | inr (p, e) ↦ simp (e, payload_data, lookup-insert, eq_refl, store_data_twice, insert-insert)
]

or_twice : (f b : ℕ) → (b ≡ 2) ⊎ (b ≡ 4) ⊎ (b ≡ 8) → IsShown f → bit_or (bit_or f b) b ≡ bit_or f b
or_twice f b c d = ground arith

or_keeps_started :
    (f b bit : ℕ)
    → (b ≡ 2) ⊎ (b ≡ 4) ⊎ (b ≡ 8)
    → (bit ≡ 1) ⊎ (bit ≡ 4)
    → IsShown f
    → is_set f bit ≡ true
    → is_set (bit_or f b) bit ≡ true
or_keeps_started f b bit c e d h = ground arith

-- The state after a task message that leaves the flag `f`.
abbrev after : SagaState → SagaMessage → ℕ → SagaState
after s m f = record s {
  task_state = insert m.task_id f s.task_state;
  task_data = payload_data s.task_data m;
}

flags-after : (s : SagaState) (m : SagaMessage) (f : ℕ) → flags (after s m f) m.task_id ≡ f
unfolding flags
flags-after s m f = simp (lookup-insert, eq_refl)

mark-after :
    (s : SagaState) (m : SagaMessage) (f b : ℕ)
    → bit_or f b ≡ f
    → mark (after s m f) m.task_id b ≡ after s m f
unfolding mark
mark-after s m f b h = simp (flags-after, h, insert-insert)

add_payload-after :
    (s : SagaState) (m : SagaMessage) (f : ℕ) → add_payload (after s m f) m ≡ after s m f
add_payload-after s m f = payload_data_lem (after s m f) m ∙ simp payload_data_twice

or_after :
    (s : SagaState) (m : SagaMessage) (b : ℕ)
    → (b ≡ 2) ⊎ (b ≡ 4) ⊎ (b ≡ 8)
    → IsValid s
    → let f = bit_or (flags s m.task_id) b in
      (add_payload (mark (after s m f) m.task_id b) m ≡ after s m f)
      × (mark (add_payload (after s m f) m) m.task_id b ≡ after s m f)
or_after s m b c v =
    let e = or_twice (flags s m.task_id) b c (shown s m.task_id v) in
    (
      rw (mark-after s m _ b e) (add_payload-after s m _),
      rw (add_payload-after s m _) (mark-after s m _ b e),
    )

or_four : (f : ℕ) → IsShown f → is_set f 8 ≡ false → is_set (bit_or f 4) 8 ≡ false
or_four f d h = ground arith

after_set :
    (s : SagaState) (m : SagaMessage) (f : ℕ) → set_flags (after s m f) m.task_id f ≡ after s m f
after_set s m f = simp insert-insert

marked_payload :
    (s : SagaState) (m : SagaMessage) (b : ℕ)
    → mark (add_payload s m) m.task_id b ≡ after s m (bit_or (flags s m.task_id) b)
unfolding mark flags
marked_payload s m b = rw (payload_data_lem s m) refl

still_started :
    (s : SagaState) (m : SagaMessage) (b bit : ℕ)
    → (b ≡ 2) ⊎ (b ≡ 4) ⊎ (b ≡ 8)
    → (bit ≡ 1) ⊎ (bit ≡ 4)
    → IsValid s
    → is_set (flags s m.task_id) bit ≡ true
    → is_set (flags (after s m (bit_or (flags s m.task_id) b)) m.task_id) bit ≡ true
still_started s m b bit c d v h =
    rw (flags-after s m (bit_or (flags s m.task_id) b))
      (or_keeps_started (flags s m.task_id) b bit c d (shown s m.task_id v) h)

not_completed :
    (s : SagaState) (m : SagaMessage)
    → IsValid s
    → is_set (flags s m.task_id) 8 ≡ false
    → is_set (flags (after s m (bit_or (flags s m.task_id) 4)) m.task_id) 8 ≡ false
not_completed s m v h =
    rw (flags-after s m (bit_or (flags s m.task_id) 4))
      (or_four (flags s m.task_id) (shown s m.task_id v) h)

Step-again : (s : SagaState) (m : SagaMessage) (t : SagaState) → IsValid s → Step s m t → Step t m t
unfolding mark
Step-again s m t v (ends ty all e) = rw e (ends ty (unfold has_ended flags in all) refl)
Step-again s m t v (aborts ty open_ e) = rw e (aborts ty open_ refl)
Step-again s m t v (starts ty named open_ going todo e) =
    let q : t ≡ after s m 1 = e ∙ rw (payload_data_lem s m) refl in
    rw q (
      starts ty named open_ going (rw (flags-after s m 1) refl)
        (rw (add_payload-after s m 1) (sym (after_set s m 1))))
Step-again s m t v (completes ty named open_ going begun e) =
    let q : t ≡ after s m (bit_or (flags s m.task_id) 2) =
      e ∙ payload_data_lem (mark s m.task_id 2) m in
    rw q (
      completes ty named open_ going (still_started s m 2 1 (inl refl) (inl refl) v begun)
        (sym (or_after s m 2 (inl refl) v).0))
Step-again s m t v (starts_comp ty named open_ stopped begun todo e) =
    let q : t ≡ after s m (bit_or (flags s m.task_id) 4) =
      e ∙ payload_data_lem (mark s m.task_id 4) m in
    rw q (
      starts_comp ty named open_ stopped (still_started s m 4 1 (inr (inl refl)) (inl refl) v begun)
        (not_completed s m v todo) (sym (or_after s m 4 (inr (inl refl)) v).0))
Step-again s m t v (completes_comp ty named open_ stopped begun comp e) =
    let q : t ≡ after s m (bit_or (flags s m.task_id) 8) = e ∙ marked_payload s m 8 in
    rw q (
      completes_comp ty named open_ stopped
        (still_started s m 8 1 (inr (inr refl)) (inl refl) v begun)
        (still_started s m 8 4 (inr (inr refl)) (inr refl) v comp)
        (sym (or_after s m 8 (inr (inr refl)) v).1))

-- Every message is idempotent: accepted once, it is accepted again at once, and the second time it
-- changes neither the progress nor the data.
pub update_saga_state_idempotent :
    (s t : SagaState) (m : SagaMessage)
    → IsValid s
    → update_saga_state s m ≡ ok t
    → update_saga_state t m ≡ ok t
update_saga_state_idempotent s t m v h =
    let (mine, step) = (update_saga_state-ok_iff s m t).0 h in
    (update_saga_state-ok_iff t m t).1
      (mine ∙ sym (update_saga_state-Grows s t m v h).same_id, Step-again s m t v step)
