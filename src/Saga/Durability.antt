-- ===== src/Saga/Durability.antt =====
-- A run of one saga over a shared log: its own requests (saga/saga.go) and what other sagas write
-- meanwhile, in any order. Whatever happens, the log rebuilds the state (saga/saga_recovery.go).
use scoot.Base.{
  ◌≡◌, refl, ◌≢◌, ◌∙◌, subst, String, some, List, [], ◌∷◌, arith, ok, Bool-cases, inl, inr, eq_iff,
  Result-cases,
}
use scoot.Saga.Message.{Bytes, SagaMessage, make_start_saga_message}
use scoot.Saga.State.{SagaState, make_saga_state, validate_saga_id}
use scoot.Saga.Transitions.{update_saga_state-ok_iff}
use scoot.Saga.Invariant.{IsValid, update_saga_state-IsValid, make_saga_state-IsValid}
use scoot.Saga.Progress.{update_saga_state-Grows}
use scoot.Saga.Log.{SagaLog, log_message}
use scoot.Saga.Recovery.{apply_messages, from_messages, recover_state}
use scoot.Saga.Object.{Saga, new_saga, update_saga_state}
use scoot.Saga.Replay.{from_messages-append, log_message_atomic}

made_id :
    (id : String) (job : Bytes) (s : SagaState) → make_saga_state id job ≡ ok s → s.saga_id ≡ id
unfolding make_saga_state validate_saga_id
made_id id job s h = ground arith

replays_start :
    (id : String) (job : Bytes) (s : SagaState)
    → make_saga_state id job ≡ ok s
    → from_messages id (make_start_saga_message id job ∷ []) ≡ ok (some s)
unfolding from_messages apply_messages
replays_start id job s h = ground arith

module _ (log : SagaLog) where
  -- `Run σ s τ t`: from the log `σ` and the saga `s`, events have led to `τ` and `t`.
  pub data Run (σ : log.Store) (s : Saga) : log.Store → Saga → Type 0 where
    here : Run σ s σ s
    asks :
        {τ : log.Store} {t : Saga}
        → Run σ s τ t
        → (m : SagaMessage)
        → Run σ s (update_saga_state log t m τ).0 (update_saga_state log t m τ).1
    other_writes :
        {τ : log.Store} {t : Saga}
        → Run σ s τ t
        → (m : SagaMessage) → m.saga_id ≢ t.id
        → Run σ s (log.log_message m τ).0 t
    other_starts :
        {τ : log.Store} {t : Saga}
        → Run σ s τ t
        → (id : String) → (job : Bytes) → id ≢ t.id
        → Run σ s (log.start_saga id job τ).0 t

  -- The log rebuilds the saga's state.
  pub record IsLogged (σ : log.Store) (s : Saga) : Type 0 where
    pub valid : IsValid s.state
    pub same_id : s.state.saga_id ≡ s.id
    pub replays : from_messages s.id (log.messages s.id σ) ≡ ok (some s.state)

  log_message-IsLogged :
      (s : Saga) (m : SagaMessage) (σ : log.Store)
      → IsLogged σ s
      → IsLogged
          (log_message log s.state m σ).0
          (record s { state = (log_message log s.state m σ).1 })
  log_message-IsLogged s m σ l = elim (log_message_atomic log s.state m σ s.id l.valid) [
    | inl (r, u, ms) ↦
        let mine : m.saga_id ≡ s.id = ((update_saga_state-ok_iff s.state m _).0 u).0 ∙ l.same_id in
        record {
          valid = update_saga_state-IsValid s.state _ m l.valid u;
          same_id = (update_saga_state-Grows s.state _ m l.valid u).same_id ∙ l.same_id;
          replays =
              rw (ms, (eq_iff m.saga_id s.id).1 mine)
                (from_messages-append s.id s.state _ _ m l.replays u);
        }
    | inr (e, r, same, ms) ↦ record {
      valid = rw same l.valid;
      same_id = rw same l.same_id;
      replays = rw (ms, same) l.replays;
    }
  ]

  pub update_saga_state-IsLogged :
      (s : Saga) (m : SagaMessage) (σ : log.Store)
      → IsLogged σ s
      → IsLogged (update_saga_state log s m σ).0 (update_saga_state log s m σ).1
  unfolding update_saga_state
  update_saga_state-IsLogged s m σ l = elim (Bool-cases s.is_open) [
    | inr shut ↦ simp (shut, update_saga_state) l
    | inl opened ↦ elim (Bool-cases s.has_loop) [
      | inr idle ↦ simp (opened, idle, update_saga_state) l
      | inl served ↦
          let k = log_message-IsLogged s m σ l in
          simp (opened, served, update_saga_state)
            (record { valid = k.valid; same_id = k.same_id; replays = k.replays })
    ]
  ]

  update_saga_state-id :
      (s : Saga) (m : SagaMessage) (σ : log.Store) → (update_saga_state log s m σ).1.id ≡ s.id
  unfolding update_saga_state
  update_saga_state-id s m σ = ground arith

  new_saga-IsLogged :
      (id : String) (job : Bytes) (σ τ : log.Store) (s : Saga)
      → log.messages id σ ≡ []
      → new_saga log id job σ ≡ (τ, ok s)
      → (s.id ≡ id) × IsLogged τ s
  unfolding new_saga
  new_saga-IsLogged id job σ τ s fresh h = elim (Result-cases (make_saga_state id job)) [
    | inr (e, f) ↦ absurd (ground arith)
    | inl (r, f) ↦ elim (Result-cases (log.start_saga id job σ).1) [
      | inr (e, g) ↦ absurd (ground arith)
      | inl (u, g) ↦
          let e₁ : s.id ≡ id = ground arith in
          let e₂ : s.state ≡ r = ground arith in
          let e₃ : τ ≡ (log.start_saga id job σ).0 = ground arith in
          (
            e₁,
            record {
              valid = rw e₂ (make_saga_state-IsValid id job r f);
              same_id = rw (e₂, e₁) (made_id id job r f);
              replays =
                  rw (e₁, e₂, e₃, log.start_saga_logged id job σ fresh g)
                    (replays_start id job r f);
            },
          )
    ]
  ]

  Run-IsLogged :
      {σ : log.Store} {s : Saga} {τ : log.Store} {t : Saga}
      → Run σ s τ t
      → IsLogged σ s
      → (t.id ≡ s.id) × IsLogged τ t
  Run-IsLogged here l = (refl, l)
  Run-IsLogged (asks {τ = τ} {t = t} r m) l =
      let (same, k) = Run-IsLogged r l in
      (update_saga_state-id t m τ ∙ same, update_saga_state-IsLogged t m τ k)
  Run-IsLogged (other_writes {τ = τ} {t = t} r m ne) l =
      let (same, k) = Run-IsLogged r l in
      (
        same,
        record {
          valid = k.valid;
          same_id = k.same_id;
          replays = rw (log.log_message_other m t.id τ ne) k.replays;
        },
      )
  Run-IsLogged (other_starts {τ = τ} {t = t} r id job ne) l =
      let (same, k) = Run-IsLogged r l in
      (
        same,
        record {
          valid = k.valid;
          same_id = k.same_id;
          replays = rw (log.start_saga_other id t.id job τ ne) k.replays;
        },
      )

-- A saga that was started under an id that the log did not know can be recovered at any time. After any
-- run of requests to it, be they accepted, refused or lost by the log, and of writes and starts of
-- sagas with other ids, if the messages can be read then recoverState returns exactly the state that
-- the live saga holds.
pub recover_state-Run :
    (log : SagaLog) (id : String) (job : Bytes) (σ₀ σ τ : log.Store) (s t : Saga)
    (ms : List SagaMessage)
    → log.messages id σ₀ ≡ []
    → new_saga log id job σ₀ ≡ (σ, ok s)
    → Run log σ s τ t
    → log.get_messages id τ ≡ ok ms
    → recover_state log id τ ≡ ok (some t.state)
unfolding recover_state
recover_state-Run log id job σ₀ σ τ s t ms fresh made run read =
    let (named, l) = new_saga-IsLogged log id job σ₀ σ s fresh made in
    let (same, k) = Run-IsLogged log run l in
    rw (read, recover_state)
      (rw (log.get_messages_exact id τ ms read) (
        subst (λ i. from_messages i (log.messages i τ) ≡ ok (some t.state)) (same ∙ named)
          k.replays))
