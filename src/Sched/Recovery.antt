-- ===== src/Sched/Recovery.antt =====
-- sched/scheduler/recover_jobs.go: the recovery of one saga, and the delay between its attempts. The attempts
-- are a list of the stores that the log has at their times; a list that ends too soon is a recovery that goes
-- on, `none`. Floating-point numbers are exact for the delay up to 44 attempts.
pub mod Active
use Prim.Native.Nat.{◌%◌, ◌^◌}
use scoot.Base.{
  ℕ, ◌-◌, ◌*◌, String, Bool, true, false, Option, none, some, List, [], ◌∷◌, ltb, leb, ℤ, pos,
  negsuc, if◌then◌else◌,
}
use scoot.Saga.Message.{fatal_err}
use scoot.Saga.Log.{SagaLog}
use scoot.Saga.Recovery.{forward_recovery}
use scoot.Saga.Object.{Saga}
use scoot.Saga.Coordinator.{Recovered, recovered, no_saga, failed, stuck, recover_saga_state}

-- A completed saga is discarded.
abbrev pub if_active : Saga → Option Saga
if_active s = if s.state.saga_completed then none else some s

module _ (log : SagaLog) where
  -- What an attempt comes to; `later` is what the ones after it do.
  abbrev pub attempt : Recovered → Option (Option Saga) → Option (Option Saga)
  attempt (recovered s) later = some (if_active s)
  attempt no_saga later = some none
  attempt (failed e) later = if fatal_err e then some none else later
  attempt stuck later = none

  unfoldable pub recover_saga : String → List log.Store → Option (Option Saga)
  recover_saga saga_id [] = none
  recover_saga saga_id (σ ∷ stores) =
      attempt (recover_saga_state log saga_id forward_recovery σ).1 (recover_saga saga_id stores)

-- A number of 64 bits, as a duration in nanoseconds.
abbrev pub to_int64 : ℕ → ℤ
to_int64 n = let m = n % 2 ^ 64 in if ltb m (2 ^ 63) then pos m else negsuc (2 ^ 64 - 1 - m)

abbrev pub at_most : ℕ → ℤ → ℤ
at_most max_delay (pos n) = if ltb max_delay n then pos max_delay else pos n
at_most max_delay (negsuc n) = negsuc n

-- Half of 2 ^ attempt - 1 seconds is as many times 500 milliseconds.
unfoldable pub calculate_exponential_backoff : ℕ → ℕ → ℤ
calculate_exponential_backoff attempts max_delay =
    at_most max_delay (to_int64 ((2 ^ attempts - 1) * 500 * 1000000))
