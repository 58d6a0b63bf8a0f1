-- ===== src/Saga/Log.antt =====
-- saga/sagalog.go's SagaLog interface, with what its comments promise as laws, and saga/saga.go's
-- logMessage, which applies a message and writes it to the log.
use scoot.Base.{◌≡◌, ◌≢◌, String, List, [], ◌∷◌, ◌++◌, Result, ok, err}
use scoot.Saga.Message.{Bytes, SagaError, SagaMessage, make_start_saga_message}
use scoot.Saga.State.{SagaState, copy_saga_state}
use scoot.Saga.Update.{update_saga_state}

-- `messages` is what has been logged for a saga. A write returns the store after it also when it fails.
pub record SagaLog : Type 1 where
  pub Store : Type 0
  pub start_saga : String → Bytes → Store → Store × Result SagaError (Unit {0})
  pub log_message : SagaMessage → Store → Store × Result SagaError (Unit {0})
  pub get_messages : String → Store → Result SagaError (List SagaMessage)
  pub get_active_sagas : Store → Result SagaError (List String)
  pub messages : String → Store → List SagaMessage
  -- A read that succeeds returns all that was logged.
  pub get_messages_exact :
      (id : String) (σ : Store) (ms : List SagaMessage)
      → get_messages id σ ≡ ok ms
      → ms ≡ messages id σ
  -- A saga that was not in the log has its start message in it.
  pub start_saga_logged :
      (id : String) (job : Bytes) (σ : Store)
      → messages id σ ≡ []
      → (start_saga id job σ).1 ≡ ok tt
      → messages id (start_saga id job σ).0 ≡ make_start_saga_message id job ∷ []
  pub start_saga_other :
      (id other : String) (job : Bytes) (σ : Store)
      → id ≢ other
      → messages other (start_saga id job σ).0 ≡ messages other σ
  -- A write that succeeds appends the message, and one that fails appends nothing.
  pub log_message_logged :
      (m : SagaMessage) (σ : Store)
      → (log_message m σ).1 ≡ ok tt
      → messages m.saga_id (log_message m σ).0 ≡ messages m.saga_id σ ++ m ∷ []
  pub log_message_failed :
      (m : SagaMessage) (σ : Store) (e : SagaError)
      → (log_message m σ).1 ≡ err e
      → messages m.saga_id (log_message m σ).0 ≡ messages m.saga_id σ
  pub log_message_other :
      (m : SagaMessage) (other : String) (σ : Store)
      → m.saga_id ≢ other
      → messages other (log_message m σ).0 ≡ messages other σ

module _ (log : SagaLog) where
  -- The result of the write decides between the new state and the copy of the old one.
  abbrev written :
      SagaState
      → SagaState
      → log.Store × Result SagaError (Unit {0})
      → log.Store × SagaState × Result SagaError (Unit {0})
  written old_state state (σ, ok u) = (σ, state, ok u)
  written old_state state (σ, err e) = (σ, old_state, err e)

  unfoldable pub log_message :
      SagaState → SagaMessage → log.Store → log.Store × SagaState × Result SagaError (Unit {0})
  log_message state msg σ =
      let old_state = copy_saga_state state in
      elim (update_saga_state state msg) [
        | err e ↦ (σ, old_state, err e)
        | ok new_state ↦ written old_state new_state (log.log_message msg σ)
      ]
