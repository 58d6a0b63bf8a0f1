-- ===== src/Saga/Rollback.antt =====
-- saga/saga_coordinator.go's RecoverSagaState over what saga/saga_recovery.go rebuilds.
use scoot.Base.{
  Dict, keys, ℕ, str_eq, eq_iff, not, ◌&&◌, ◌≡◌, ap, refl, ◌∙◌, subst, String, true, false, some,
  List, [], ◌∷◌, arith, ok, err, Bool-cases, inl, inr, ◌⊎◌, Result-cases, Option-cases, lookup,
  All-lookup,
}
use scoot.Saga.Message.{SagaError, SagaMessage, make_abort_saga_message, is_start_saga}
use scoot.Saga.State.{
  is_task_started, is_task_completed, SagaState, make_saga_state, flags, get_task_ids,
}
use scoot.Saga.Update
use scoot.Saga.Invariant.{IsValid, IsEnded, update_saga_state-IsValid, make_saga_state-IsValid}
use scoot.Saga.Log.{SagaLog}
use scoot.Saga.Recovery.{
  SagaRecoveryType, rollback_recovery, forward_recovery, apply_messages, from_messages,
  recover_state, all_ended, is_saga_in_safe_state,
}
use scoot.Saga.Object.{returned, rehydrate_saga, update_saga_state, abort_saga}
use scoot.Saga.Coordinator.{
  Recovered, recovered, no_saga, failed, stuck, recover_saga_state, by_type,
}
use scoot.Saga.Replay.{log_message_atomic}

apply_messages-IsValid :
    (s t : SagaState) (ms : List SagaMessage) → IsValid s → apply_messages s ms ≡ ok t → IsValid t
unfolding apply_messages
apply_messages-IsValid s t [] v h = ground arith
apply_messages-IsValid s t (m ∷ ms) v h = elim (Bool-cases (is_start_saga m.msg_type)) [
  | inl e ↦ apply_messages-IsValid s t ms v (rw (e, apply_messages) at h)
  | inr e ↦ elim (Result-cases (Update.update_saga_state s m)) [
    | inl (q, f) ↦
        apply_messages-IsValid q t ms (update_saga_state-IsValid s q m v f)
          (rw (e, f, apply_messages) at h)
    | inr (x, f) ↦ absurd (ground arith)
  ]
]

-- Whatever the log holds, a state that is recovered from it is valid.
pub from_messages-IsValid :
    (id : String) (ms : List SagaMessage) (s : SagaState)
    → from_messages id ms ≡ ok (some s)
    → IsValid s
unfolding from_messages
from_messages-IsValid id [] s h = absurd (ground arith)
from_messages-IsValid id (x ∷ ms) s h = elim (Result-cases (make_saga_state id x.payload)) [
  | inl (r, f) ↦
      apply_messages-IsValid r s (x ∷ ms) (make_saga_state-IsValid id x.payload r f) (ground arith)
  | inr (e, f) ↦ absurd (ground arith)
]

all_ended_of_completed :
    (s : SagaState) (is : List String)
    → IsValid s
    → s.saga_completed ≡ true
    → s.saga_aborted ≡ false
    → all_ended s is ≡ true
unfolding all_ended flags
all_ended_of_completed s [] v done going = refl
all_ended_of_completed s (i ∷ is) v done going = elim (Option-cases (lookup i s.task_state)) [
  | inl e ↦ ground (arith, all_ended_of_completed s is v done going)
  | inr (f, e) ↦
      let three : IsEnded false f =
        subst (λ b. IsEnded b f) going
          (All-lookup (IsEnded s.saga_aborted) i f s.task_state (v.ended done) e) in
      ground (arith, all_ended_of_completed s is v done going)
]

completed_safe :
    (s : SagaState) → IsValid s → s.saga_completed ≡ true → is_saga_in_safe_state s ≡ true
unfolding is_saga_in_safe_state
completed_safe s v done = elim (Bool-cases s.saga_aborted) [
  | inl e ↦ simp (e, is_saga_in_safe_state)
  | inr e ↦ simp (e, is_saga_in_safe_state) (all_ended_of_completed s (get_task_ids s) v done e)
]

recover_state-IsValid :
    (log : SagaLog) (id : String) (σ : log.Store) (s : SagaState)
    → recover_state log id σ ≡ ok (some s)
    → IsValid s
unfolding recover_state
recover_state-IsValid log id σ s h = elim (Result-cases (log.get_messages id σ)) [
  | inl (ms, f) ↦ from_messages-IsValid id ms s (ground arith)
  | inr (e, f) ↦ absurd (ground arith)
]

abort_accepted :
    (s t : SagaState) (id : String)
    → Update.update_saga_state s (make_abort_saga_message id) ≡ ok t
    → t.saga_aborted ≡ true
unfolding Update.update_saga_state Update.apply_abort_saga
abort_accepted s t id h = ground arith

-- What the abort of a recovered saga comes to: it is served, and aborts the saga or fails.
abort_served :
    (log : SagaLog) (id : String) (s : SagaState) (σ : log.Store)
    → IsValid s
    → s.saga_completed ≡ false
    → let r = abort_saga log (rehydrate_saga id s) σ in
      ((r.2 ≡ returned (ok tt)) × (r.1.state.saga_aborted ≡ true))
      ⊎ ((e : SagaError) × (r.2 ≡ returned (err e)))
unfolding abort_saga update_saga_state rehydrate_saga
abort_served log id s σ v going =
    elim (log_message_atomic log s (make_abort_saga_message id) σ id v) [
      | inl (r, u, ms) ↦ inl (ground arith, ground (arith, abort_accepted s _ id u))
      | inr (e, r, same, ms) ↦ inr (e, ground arith)
    ]

-- Safe, said without the loop: aborted, or each task that has started has also completed.
abbrev pub IsSafe : SagaState → Type 0
IsSafe s =
    (s.saga_aborted ≡ true)
    ⊎ ((i : String) → (is_task_started s i && not (is_task_completed s i)) ≡ false)

all_ended-lookup :
    (s : SagaState) (m : Dict ℕ) (i : String) (f : ℕ)
    → all_ended s (keys m) ≡ true
    → lookup i m ≡ some f
    → (is_task_started s i && not (is_task_completed s i)) ≡ false
unfolding all_ended lookup
all_ended-lookup s [] i f h e = absurd (ground arith)
all_ended-lookup s ((j, g) ∷ m) i f h e = elim (Bool-cases (str_eq j i)) [
  | inl p ↦
      subst (λ k. (is_task_started s k && not (is_task_completed s k)) ≡ false) ((eq_iff j i).0 p)
        (ground arith)
  | inr p ↦ all_ended-lookup s m i f (ground arith) (rw (p, lookup) at e)
]

is_saga_in_safe_state-IsSafe : (s : SagaState) → is_saga_in_safe_state s ≡ true → IsSafe s
unfolding is_saga_in_safe_state flags
is_saga_in_safe_state-IsSafe s h = elim (Bool-cases s.saga_aborted) [
  | inl e ↦ inl e
  | inr e ↦ inr (λ i. elim (Option-cases (lookup i s.task_state)) [
    | inl n ↦ rw n
    | inr (f, q) ↦ all_ended-lookup s s.task_state i f (ground arith) q
  ])
]

-- What a caller may find: never a call that panics or blocks, and after a rollback recovery a saga in
-- a safe state.
abbrev pub IsSettled : SagaRecoveryType → Recovered → Type 0
IsSettled kind stuck = ⊥
IsSettled rollback_recovery (recovered g) = IsSafe g.state
IsSettled forward_recovery (recovered g) = Unit
IsSettled kind no_saga = Unit
IsSettled kind (failed e) = Unit

by_type-IsSettled :
    (log : SagaLog) (id : String) (kind : SagaRecoveryType) (s : SagaState) (σ : log.Store)
    → IsValid s
    → IsSettled kind (by_type log kind (rehydrate_saga id s) s σ).1
unfolding rehydrate_saga
by_type-IsSettled log id forward_recovery s σ v = tt
by_type-IsSettled log id rollback_recovery s σ v = elim (Bool-cases (is_saga_in_safe_state s)) [
  | inl safe ↦ rw safe (is_saga_in_safe_state-IsSafe s safe)
  | inr unsafe ↦ elim (Bool-cases s.saga_completed) [
    | inl done ↦ absurd (ground (arith, completed_safe s v done))
    | inr going ↦ elim (abort_served log id s σ v going) [
      | inl (r, stopped) ↦ rw unsafe (rw r (inl stopped))
      | inr (e, r) ↦ rw unsafe (rw r tt)
    ]
  ]
]

-- RecoverSagaState never blocks or panics, whatever the log holds and however it fails. After a
-- rollback recovery the saga that it returns is in a safe state: it is aborted, or each task that has
-- started has also completed.
pub recover_saga_state-IsSettled :
    (log : SagaLog) (id : String) (kind : SagaRecoveryType) (σ : log.Store)
    → IsSettled kind (recover_saga_state log id kind σ).1
unfolding recover_saga_state
recover_saga_state-IsSettled log id kind σ = elim (Result-cases (recover_state log id σ)) [
  | inr (e, f) ↦ rw f tt
  | inl (o, f) ↦ elim (Option-cases o) [
    | inl n ↦ rw (f, n) tt
    | inr (s, g) ↦
        rw (f, g)
          (by_type-IsSettled log id kind s σ (recover_state-IsValid log id σ s (f ∙ ap ok g)))
  ]
]
