-- ===== src/Saga/Replay.antt =====
-- The log holds the saga: what saga/saga_recovery.go rebuilds from the messages is the state of the
-- live saga of saga/saga.go, after any requests and whatever other sagas do to the log.
use scoot.Base.{
  ◌≡◌, refl, subst, String, false, some, List, [], ◌∷◌, ◌++◌, arith, ok, err, copy_into-nil,
  Bool-cases, inl, inr, ◌⊎◌, if◌then◌else◌, str_eq, eq_iff, Result-cases,
}
use scoot.Saga.Message.{SagaError, SagaMessage, is_start_saga}
use scoot.Saga.State.{SagaState, copy_saga_state, make_saga_state}
use scoot.Saga.Update.{update_saga_state}
use scoot.Saga.Transitions.{
  Step, ends, aborts, starts, completes, starts_comp, completes_comp, update_saga_state-ok_iff,
}
use scoot.Saga.Invariant.{IsValid}
use scoot.Saga.Log.{SagaLog, log_message}
use scoot.Saga.Recovery.{apply_messages, from_messages}

-- The copy that a request keeps to fall back on is the state.
pub copy_saga_state_lem : (s : SagaState) → IsValid s → copy_saga_state s ≡ s
unfolding copy_saga_state
copy_saga_state_lem s v =
    rw (copy_into-nil s.task_data v.distinct_data, copy_into-nil s.task_state v.distinct_state)

accepted_not_start :
    (s t : SagaState) (m : SagaMessage) → Step s m t → is_start_saga m.msg_type ≡ false
accepted_not_start s t m (ends ty all e) = rw ty
accepted_not_start s t m (aborts ty open_ e) = rw ty
accepted_not_start s t m (starts ty named open_ going todo e) = rw ty
accepted_not_start s t m (completes ty named open_ going begun e) = rw ty
accepted_not_start s t m (starts_comp ty named open_ stopped begun todo e) = rw ty
accepted_not_start s t m (completes_comp ty named open_ stopped begun comp e) = rw ty

apply_messages-append :
    (r s t : SagaState) (ms : List SagaMessage) (m : SagaMessage)
    → apply_messages r ms ≡ ok s
    → is_start_saga m.msg_type ≡ false
    → update_saga_state s m ≡ ok t
    → apply_messages r (ms ++ m ∷ []) ≡ ok t
unfolding apply_messages
apply_messages-append r s t [] m h n u = ground arith
apply_messages-append r s t (x ∷ ms) m h n u = elim (Bool-cases (is_start_saga x.msg_type)) [
  | inl e ↦
      rw (e, apply_messages) (apply_messages-append r s t ms m (rw (e, apply_messages) at h) n u)
  | inr e ↦ elim (Result-cases (update_saga_state r x)) [
    | inl (q, f) ↦
        rw (e, f, apply_messages)
          (apply_messages-append q s t ms m (rw (e, f, apply_messages) at h) n u)
    | inr (q, f) ↦ absurd (ground arith)
  ]
]

pub from_messages-append :
    (id : String) (s t : SagaState) (ms : List SagaMessage) (m : SagaMessage)
    → from_messages id ms ≡ ok (some s)
    → update_saga_state s m ≡ ok t
    → from_messages id (ms ++ m ∷ []) ≡ ok (some t)
unfolding from_messages
from_messages-append id s t [] m h u = absurd (ground arith)
from_messages-append id s t (x ∷ ms) m h u = elim (Result-cases (make_saga_state id x.payload)) [
  | inl (r, f) ↦ ground (
    arith,
    apply_messages-append r s t (x ∷ ms) m,
    accepted_not_start s t m ((update_saga_state-ok_iff s m t).0 u).1,
  )
  | inr (e, f) ↦ absurd (ground arith)
]

-- What the log's laws say of one saga's messages when any message is written.
written_messages :
    (log : SagaLog) (m : SagaMessage) (σ : log.Store) (id : String)
    → (log.log_message m σ).1 ≡ ok tt
    → log.messages id (log.log_message m σ).0
      ≡ (if str_eq m.saga_id id then log.messages id σ ++ m ∷ [] else log.messages id σ)
written_messages log m σ id h = elim (Bool-cases (str_eq m.saga_id id)) [
  | inl e ↦ rw e (
      subst (λ i. log.messages i (log.log_message m σ).0 ≡ log.messages i σ ++ m ∷ [])
        ((eq_iff m.saga_id id).0 e) (log.log_message_logged m σ h))
  | inr e ↦ rw e (log.log_message_other m id σ (ground (arith, eq_iff m.saga_id id)))
]

refused_messages :
    (log : SagaLog) (m : SagaMessage) (σ : log.Store) (id : String) (e : SagaError)
    → (log.log_message m σ).1 ≡ err e
    → log.messages id (log.log_message m σ).0 ≡ log.messages id σ
refused_messages log m σ id e h = elim (Bool-cases (str_eq m.saga_id id)) [
  | inl p ↦
      subst (λ i. log.messages i (log.log_message m σ).0 ≡ log.messages i σ)
        ((eq_iff m.saga_id id).0 p) (log.log_message_failed m σ e h)
  | inr p ↦ log.log_message_other m id σ (ground (arith, eq_iff m.saga_id id))
]

-- logMessage is all or nothing. Either it returns the state after the message, and the log holds one
-- message more for the message's saga; or it returns an error with the state as it was, and the log
-- holds for every saga what it held.
pub log_message_atomic :
    (log : SagaLog) (s : SagaState) (m : SagaMessage) (σ : log.Store) (id : String)
    → IsValid s
    → let (σ', s', result) = log_message log s m σ in
      ((result ≡ ok tt)
        × (update_saga_state s m ≡ ok s')
        × (log.messages id σ'
            ≡ (if str_eq m.saga_id id then log.messages id σ ++ m ∷ [] else log.messages id σ)))
      ⊎ ((e : SagaError) × (result ≡ err e) × (s' ≡ s) × (log.messages id σ' ≡ log.messages id σ))
unfolding log_message
log_message_atomic log s m σ id v = elim (Result-cases (update_saga_state s m)) [
  | inr (e, f) ↦ rw (f, log_message) (inr (e, refl, copy_saga_state_lem s v, refl))
  | inl (t, f) ↦ elim (Result-cases (log.log_message m σ).1) [
    | inl (u, g) ↦ inl (ground arith, ground arith, ground (arith, written_messages log m σ id))
    | inr (e, g) ↦ inr (
      e,
      ground arith,
      ground (arith, copy_saga_state_lem s v),
      ground (arith, refused_messages log m σ id e),
    )
  ]
]
