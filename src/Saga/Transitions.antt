-- ===== src/Saga/Transitions.antt =====
-- The legal transitions of a saga, written out as a relation, and that saga/saga_state.go's
-- updateSagaState takes exactly these.
use scoot.Base.{
  ◌≡◌, refl, ◌≢◌, ◌↔◌, inl, inr, String, true, false, List, [], ◌∷◌, arith, str_eq, eq_iff, ok,
  Bool-cases, All,
}
use scoot.Saga.Message.{
  SagaMessage, SagaMessageType, start_saga, end_saga, abort_saga, start_task, end_task,
  start_comp_task, end_comp_task,
}
use scoot.Saga.State.{
  SagaState, get_task_ids, task_started, task_completed, comp_task_started, comp_task_completed,
  is_task_started, is_task_completed, is_comp_task_started, is_comp_task_completed,
  validate_task_id,
}
use scoot.Saga.Update.{
  add_payload, set_flags, mark, has_ended, check_ended, apply_end_saga, apply_abort_saga,
  apply_start_task, apply_end_task, apply_start_comp_task, apply_end_comp_task, dispatch,
  update_saga_state,
}

-- `Step s m t`: the message `m` takes the saga from `s` to `t`.
pub data Step (s : SagaState) (m : SagaMessage) (t : SagaState) : Type 0 where
  ends :
      m.msg_type ≡ end_saga
      → All (λ i. has_ended s i ≡ true) (get_task_ids s)
      → t ≡ record s { saga_completed = true }
      → Step s m t
  aborts :
      m.msg_type ≡ abort_saga
      → s.saga_completed ≡ false
      → t ≡ record s { saga_aborted = true }
      → Step s m t
  starts :
      m.msg_type ≡ start_task
      → m.task_id ≢ ""
      → s.saga_completed ≡ false
      → s.saga_aborted ≡ false
      → is_task_completed s m.task_id ≡ false
      → t ≡ set_flags (add_payload s m) m.task_id task_started
      → Step s m t
  completes :
      m.msg_type ≡ end_task
      → m.task_id ≢ ""
      → s.saga_completed ≡ false
      → s.saga_aborted ≡ false
      → is_task_started s m.task_id ≡ true
      → t ≡ add_payload (mark s m.task_id task_completed) m
      → Step s m t
  starts_comp :
      m.msg_type ≡ start_comp_task
      → m.task_id ≢ ""
      → s.saga_completed ≡ false
      → s.saga_aborted ≡ true
      → is_task_started s m.task_id ≡ true
      → is_comp_task_completed s m.task_id ≡ false
      → t ≡ add_payload (mark s m.task_id comp_task_started) m
      → Step s m t
  completes_comp :
      m.msg_type ≡ end_comp_task
      → m.task_id ≢ ""
      → s.saga_completed ≡ false
      → s.saga_aborted ≡ true
      → is_task_started s m.task_id ≡ true
      → is_comp_task_started s m.task_id ≡ true
      → t ≡ mark (add_payload s m) m.task_id comp_task_completed
      → Step s m t

check_ended-All :
    (s : SagaState) (ts : List String)
    → check_ended s ts ≡ ok tt
    → All (λ i. has_ended s i ≡ true) ts
unfolding check_ended
check_ended-All s [] h = tt
check_ended-All s (t ∷ ts) h = ground (arith, check_ended-All s ts)

check_ended_of_All :
    (s : SagaState) (ts : List String)
    → All (λ i. has_ended s i ≡ true) ts
    → check_ended s ts ≡ ok tt
unfolding check_ended
check_ended_of_All s [] h = refl
check_ended_of_All s (t ∷ ts) h = rw (h.0) (check_ended_of_All s ts h.1)

dispatch-Step :
    (ty : SagaMessageType) (s : SagaState) (m : SagaMessage) (t : SagaState)
    → m.msg_type ≡ ty
    → dispatch ty s m ≡ ok t
    → Step s m t
unfolding dispatch validate_task_id
dispatch-Step start_saga s m t e h = ground arith
dispatch-Step end_saga s m t e h =
    unfold apply_end_saga in
    ends e (check_ended-All s (get_task_ids s) (ground arith)) (ground arith)
dispatch-Step abort_saga s m t e h =
    unfold apply_abort_saga in aborts e (ground arith) (ground arith)
dispatch-Step start_task s m t e h =
    unfold apply_start_task in
    starts e (ground (arith, eq_iff m.task_id "")) (ground arith) (ground arith) (ground arith)
      (ground arith)
dispatch-Step end_task s m t e h =
    unfold apply_end_task in
    completes e (ground (arith, eq_iff m.task_id "")) (ground arith) (ground arith) (ground arith)
      (ground arith)
dispatch-Step start_comp_task s m t e h =
    unfold apply_start_comp_task in
    starts_comp e (ground (arith, eq_iff m.task_id "")) (ground arith) (ground arith) (ground arith)
      (ground arith) (ground arith)
dispatch-Step end_comp_task s m t e h =
    unfold apply_end_comp_task in
    completes_comp e (ground (arith, eq_iff m.task_id "")) (ground arith) (ground arith)
      (ground arith) (ground arith) (ground arith)

Step-dispatch :
    (s : SagaState) (m : SagaMessage) (t : SagaState) → Step s m t → dispatch m.msg_type s m ≡ ok t
unfolding dispatch validate_task_id
Step-dispatch s m t (ends ty all e) =
    rw (ty, dispatch)
      (unfold apply_end_saga in ground (arith, check_ended_of_All s (get_task_ids s) all))
Step-dispatch s m t (aborts ty open_ e) =
    rw (ty, dispatch) (unfold apply_abort_saga in ground arith)
Step-dispatch s m t (starts ty named open_ going todo e) =
    rw (ty, dispatch) (unfold apply_start_task in ground (arith, eq_iff m.task_id ""))
Step-dispatch s m t (completes ty named open_ going begun e) =
    rw (ty, dispatch) (unfold apply_end_task in ground (arith, eq_iff m.task_id ""))
Step-dispatch s m t (starts_comp ty named open_ stopped begun todo e) =
    rw (ty, dispatch) (unfold apply_start_comp_task in ground (arith, eq_iff m.task_id ""))
Step-dispatch s m t (completes_comp ty named open_ stopped begun comp e) =
    rw (ty, dispatch) (unfold apply_end_comp_task in ground (arith, eq_iff m.task_id ""))

-- updateSagaState succeeds with `t` exactly when the message is for this saga and the relation of
-- legal transitions leads from `s` to `t`.
pub update_saga_state-ok_iff :
    (s : SagaState) (m : SagaMessage) (t : SagaState)
    → (update_saga_state s m ≡ ok t) ↔ ((m.saga_id ≡ s.saga_id) × Step s m t)
unfolding update_saga_state
update_saga_state-ok_iff s m t = (
  λ h. elim (Bool-cases (str_eq m.saga_id s.saga_id)) [
    | inl e ↦ ((eq_iff m.saga_id s.saga_id).0 e, dispatch-Step m.msg_type s m t refl (ground arith))
    | inr e ↦ absurd (ground arith)
  ],
  λ h. rw ((eq_iff m.saga_id s.saga_id).1 h.0) (Step-dispatch s m t h.1),
)
