-- ===== src/Saga/Coordinator.antt =====
-- saga/saga_coordinator.go: makes sagas over one log, and recovers them from it.
use scoot.Base.{String, List, Option, none, some, Result, ok, err, if◌then◌else◌}
use scoot.Saga.Message.{Bytes, SagaError}
use scoot.Saga.State.{SagaState}
use scoot.Saga.Log.{SagaLog}
use scoot.Saga.Recovery.{
  SagaRecoveryType, rollback_recovery, forward_recovery, recover_state, is_saga_in_safe_state,
}
use scoot.Saga.Object.{
  Saga, Outcome, returned, panicked, blocked, new_saga, rehydrate_saga, abort_saga,
}

-- What RecoverSagaState does: it returns a saga, nil or an error, or it never returns.
pub data Recovered : Type 0 where
  recovered : Saga → Recovered
  no_saga : Recovered
  failed : SagaError → Recovered
  stuck : Recovered

module _ (log : SagaLog) where
  unfoldable pub make_saga : String → Bytes → log.Store → log.Store × Result SagaError Saga
  make_saga = new_saga log

  unfoldable pub get_saga_state : String → log.Store → Result SagaError (Option SagaState)
  get_saga_state = recover_state log

  unfoldable pub startup : log.Store → Result SagaError (List String)
  startup σ = log.get_active_sagas σ

  abbrev aborted : log.Store × Saga × Outcome → log.Store × Recovered
  aborted (σ, saga, returned (ok u)) = (σ, recovered saga)
  aborted (σ, saga, returned (err e)) = (σ, failed e)
  aborted (σ, saga, panicked) = (σ, stuck)
  aborted (σ, saga, blocked) = (σ, stuck)

  abbrev pub by_type : SagaRecoveryType → Saga → SagaState → log.Store → log.Store × Recovered
  by_type rollback_recovery saga state σ =
      if is_saga_in_safe_state state then (σ, recovered saga) else aborted (abort_saga log saga σ)
  by_type forward_recovery saga state σ = (σ, recovered saga)

  abbrev rehydrated :
      String
      → SagaRecoveryType
      → log.Store
      → Result SagaError (Option SagaState)
      → log.Store × Recovered
  rehydrated saga_id kind σ (err e) = (σ, failed e)
  rehydrated saga_id kind σ (ok none) = (σ, no_saga)
  rehydrated saga_id kind σ (ok (some state)) = by_type kind (rehydrate_saga saga_id state) state σ

  unfoldable pub recover_saga_state : String → SagaRecoveryType → log.Store → log.Store × Recovered
  recover_saga_state saga_id kind σ = rehydrated saga_id kind σ (recover_state log saga_id σ)
