-- ===== src/Saga/Invariant.antt =====
-- What holds of every state that saga/saga_state.go builds, and that no message breaks it.
use scoot.Base.{
  ℕ, ◌≡◌, refl, ◌≢◌, ◌⊎◌, inl, inr, String, Bool, true, false, none, some, arith, eq_iff,
  Option-cases, All, All-map, lookup, Distinct, insert-Distinct, All-insert, All-lookup, bit_or, ok,
  All-keys, if◌then◌else◌, ◌&&◌,
}
use scoot.Saga.Message.{Bytes, SagaMessage}
use scoot.Saga.State.{
  SagaState, get_task_ids, flags, is_task_started, add_task_data, make_saga_state, validate_saga_id,
  is_set,
}
use scoot.Saga.Update.{add_payload, set_flags, mark, has_ended, update_saga_state}
use scoot.Saga.Transitions.{
  Step, ends, aborts, starts, completes, starts_comp, completes_comp, update_saga_state-ok_iff,
}

-- The progress that a task's flag may record, before and after an abort: bit 1 is "started", 2
-- "completed", 4 "compensation started" and 8 "compensation completed".
abbrev pub IsProgress : Bool → ℕ → Type 0
IsProgress false f = (f ≡ 1) ⊎ (f ≡ 3)
IsProgress true f = (f ≡ 1) ⊎ (f ≡ 3) ⊎ (f ≡ 5) ⊎ (f ≡ 7) ⊎ (f ≡ 13) ⊎ (f ≡ 15)

-- The flags with which a task lets the saga end.
abbrev pub IsEnded : Bool → ℕ → Type 0
IsEnded false f = f ≡ 3
IsEnded true f = (f ≡ 13) ⊎ (f ≡ 15)

pub record IsValid (s : SagaState) : Type 0 where
  pub named : s.saga_id ≢ ""
  pub distinct_state : Distinct s.task_state
  pub distinct_data : Distinct s.task_data
  pub progress : All (λ e. IsProgress s.saga_aborted e.1) s.task_state
  pub ended : s.saga_completed ≡ true → All (λ e. IsEnded s.saga_aborted e.1) s.task_state

-- A flag that is read is the zero flag of an unknown task, or one of the above.
pub flags_cases :
    (s : SagaState) (i : String)
    → IsValid s
    → ((flags s i ≡ 0) × (lookup i s.task_state ≡ none))
      ⊎ (IsProgress s.saga_aborted (flags s i) × (lookup i s.task_state ≡ some (flags s i)))
unfolding flags
flags_cases s i v = elim (Option-cases (lookup i s.task_state)) [
  | inl e ↦ inl (rw e, e)
  | inr (f, e) ↦
      inr (rw e (All-lookup (IsProgress s.saga_aborted) i f s.task_state v.progress e), rw e)
]

-- A message's payload changes the task data alone.
pub add_payload_lem :
    (s : SagaState) (m : SagaMessage)
    → add_payload s m ≡ record s { task_data = (add_payload s m).task_data }
unfolding add_payload add_task_data
add_payload_lem s m = ground arith

add_payload-Distinct :
    (s : SagaState) (m : SagaMessage) → Distinct s.task_data → Distinct (add_payload s m).task_data
unfolding add_payload add_task_data
add_payload-Distinct s m d = elim (Option-cases m.payload) [
  | inl e ↦ rw (e, add_payload) d
  | inr (p, e) ↦ rw (e, add_payload) (insert-Distinct _ _ s.task_data d)
]

pub add_payload-IsValid : (s : SagaState) (m : SagaMessage) → IsValid s → IsValid (add_payload s m)
add_payload-IsValid s m v = rw (add_payload_lem s m) (record {
  named = v.named;
  distinct_state = v.distinct_state;
  distinct_data = add_payload-Distinct s m v.distinct_data;
  progress = v.progress;
  ended = v.ended;
})

-- A write of a flag that the phase allows, before the saga has ended.
pub set_flags-IsValid :
    (s : SagaState) (i : String) (f : ℕ)
    → IsProgress s.saga_aborted f
    → s.saga_completed ≡ false
    → IsValid s
    → IsValid (set_flags s i f)
set_flags-IsValid s i f p open_ v = record {
  named = v.named;
  distinct_state = insert-Distinct i f s.task_state v.distinct_state;
  distinct_data = v.distinct_data;
  progress = All-insert (IsProgress s.saga_aborted) i f s.task_state p v.progress;
  ended = λ c. ground arith;
}

IsProgress-abort : (b : Bool) (f : ℕ) → IsProgress b f → IsProgress true f
IsProgress-abort true f p = p
IsProgress-abort false f p = ground arith

abort-IsValid :
    (s : SagaState)
    → s.saga_completed ≡ false
    → IsValid s
    → IsValid (record s { saga_aborted = true })
abort-IsValid s open_ v = record {
  named = v.named;
  distinct_state = v.distinct_state;
  distinct_data = v.distinct_data;
  progress =
      All-map (λ e. IsProgress s.saga_aborted e.1) (λ e. IsProgress true e.1) s.task_state
        (λ e. IsProgress-abort s.saga_aborted e.1) v.progress;
  ended = λ c. ground arith;
}

-- What each `|` makes of a flag.
completed_flag : (f : ℕ) → IsProgress false f → IsProgress false (bit_or f 2)
completed_flag f (inl e) = rw e (inr refl)
completed_flag f (inr e) = rw e (inr refl)

comp_started_flag : (f : ℕ) → IsProgress true f → is_set f 8 ≡ false → IsProgress true (bit_or f 4)
comp_started_flag f p h = ground arith

comp_completed_flag : (f : ℕ) → IsProgress true f → is_set f 4 ≡ true → IsProgress true (bit_or f 8)
comp_completed_flag f p h = ground arith

-- A task that lets the saga end has the flags for it.
flags-IsEnded :
    (s : SagaState) (i : String)
    → IsValid s
    → has_ended s i ≡ true
    → IsEnded s.saga_aborted (flags s i)
unfolding has_ended
flags-IsEnded s i v h = at_phase s.saga_aborted (flags s i) h (flags_cases s i v)
  where
    at_phase :
        (b : Bool) (f : ℕ)
        → (if b then is_set f 4 && is_set f 8 else is_set f 2) ≡ true
        → ((f ≡ 0) × (lookup i s.task_state ≡ none))
          ⊎ (IsProgress b f × (lookup i s.task_state ≡ some (flags s i)))
        → IsEnded b f
    at_phase true f h c = ground arith
    at_phase false f h c = ground arith

end-IsValid :
    (s : SagaState)
    → All (λ i. has_ended s i ≡ true) (get_task_ids s)
    → IsValid s
    → IsValid (record s { saga_completed = true })
unfolding flags
end-IsValid s all v = record {
  named = v.named;
  distinct_state = v.distinct_state;
  distinct_data = v.distinct_data;
  progress = v.progress;
  ended = λ _. All-keys (IsEnded s.saga_aborted) s.task_state v.distinct_state (
      All-map (λ i. has_ended s i ≡ true) _ (get_task_ids s)
        (λ i h f e. rw (e, flags) at (flags-IsEnded s i v h)) all);
}

flags-IsProgress :
    (s : SagaState) (i : String)
    → IsValid s
    → is_task_started s i ≡ true
    → IsProgress s.saga_aborted (flags s i)
flags-IsProgress s i v h = elim (flags_cases s i v) [ inl z ↦ absurd (ground arith) | inr p ↦ p.0 ]

-- A bit that is added to the flag of a task that has begun.
mark-IsValid :
    (s : SagaState) (i : String) (bit : ℕ) (b : Bool)
    → s.saga_aborted ≡ b
    → s.saga_completed ≡ false
    → is_task_started s i ≡ true
    → (IsProgress b (flags s i) → IsProgress b (bit_or (flags s i) bit))
    → IsValid s
    → IsValid (mark s i bit)
unfolding mark flags
mark-IsValid s i bit b phase open_ begun step v =
    set_flags-IsValid s i _ (rw phase (step (rw phase at (flags-IsProgress s i v begun)))) open_ v

Step-IsValid :
    (s : SagaState) (m : SagaMessage) (t : SagaState) → Step s m t → IsValid s → IsValid t
unfolding flags
Step-IsValid s m t (ends ty all e) v = rw e (end-IsValid s all v)
Step-IsValid s m t (aborts ty open_ e) v = rw e (abort-IsValid s open_ v)
Step-IsValid s m t (starts ty named open_ going todo e) v =
    rw (e, add_payload_lem s m)
      (set_flags-IsValid (record s { task_data = (add_payload s m).task_data }) m.task_id 1
        (rw going (inl refl)) open_ (rw (add_payload_lem s m) at (add_payload-IsValid s m v)))
Step-IsValid s m t (completes ty named open_ going begun e) v = rw e (
    add_payload-IsValid _ m
      (mark-IsValid s m.task_id 2 false going open_ begun (completed_flag _) v))
Step-IsValid s m t (starts_comp ty named open_ stopped begun todo e) v = rw e (
    add_payload-IsValid _ m
      (mark-IsValid s m.task_id 4 true stopped open_ begun (λ p. comp_started_flag _ p todo) v))
Step-IsValid s m t (completes_comp ty named open_ stopped begun comp e) v =
    rw (e, add_payload_lem s m)
      (mark-IsValid (record s { task_data = (add_payload s m).task_data }) m.task_id 8 true stopped
        open_ begun (λ p. comp_completed_flag _ p comp)
        (rw (add_payload_lem s m) at (add_payload-IsValid s m v)))

-- Every message that is accepted keeps the invariant.
pub update_saga_state-IsValid :
    (s t : SagaState) (m : SagaMessage) → IsValid s → update_saga_state s m ≡ ok t → IsValid t
update_saga_state-IsValid s t m v h = Step-IsValid s m t ((update_saga_state-ok_iff s m t).0 h).1 v

-- A new saga meets it.
pub make_saga_state-IsValid :
    (id : String) (job : Bytes) (s : SagaState) → make_saga_state id job ≡ ok s → IsValid s
unfolding make_saga_state validate_saga_id
make_saga_state-IsValid id job s h = ground (arith, eq_iff id "")
