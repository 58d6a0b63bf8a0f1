-- ===== src/Sched/RecoveryTests.antt =====
-- Tests and examples for the recovery of jobs (sched/scheduler/recover_jobs.go).
use scoot.Base.{◌≡◌, refl, true, none, some, [], ◌∷◌, pos, negsuc, lookup}
use scoot.Saga.Message.{make_start_saga_message}
use scoot.Saga.State.{initialize_saga_state, make_saga_state, validate_saga_id}
use scoot.Saga.Recovery.{recover_state, from_messages, apply_messages}
use scoot.Saga.Coordinator.{recover_saga_state}
use scoot.Saga.Object.{Saga, rehydrate_saga}
use scoot.Saga.Memory.{InMemorySagaLog, make_in_memory_saga_log, get_messages}
use scoot.Saga.MemoryLaws.{in_memory_saga_log}
use scoot.Sched.Recovery.{recover_saga, calculate_exponential_backoff}
use scoot.Sched.Recovery.Active.{IsActive, recover_saga-IsActive}

-- Half a second, and then never more than the minute.
first_delay : calculate_exponential_backoff 1 60000000000 ≡ pos 500000000
unfolding calculate_exponential_backoff
first_delay = refl

long_delay : calculate_exponential_backoff 34 60000000000 ≡ pos 60000000000
unfolding calculate_exponential_backoff
long_delay = refl

-- The duration is past 63 bits, and no time to sleep.
lost_delay : calculate_exponential_backoff 35 60000000000 ≡ negsuc 1266874890209551615
unfolding calculate_exponential_backoff
lost_delay = refl

abbrev sagas : InMemorySagaLog
sagas = record (make_in_memory_saga_log 100 5) {
  sagas = ("s", record { messages = make_start_saga_message "s" none ∷ []; created = 5 }) ∷ [];
}

abbrev active : Saga
active = record {
  id = "s";
  state = record initialize_saga_state { saga_id = "s" };
  is_open = true;
  has_loop = true;
}

gone_saga : recover_saga in_memory_saga_log "t" (sagas ∷ []) ≡ some none
unfolding recover_saga recover_saga_state recover_state get_messages lookup from_messages
gone_saga = refl

given_back : recover_saga in_memory_saga_log "s" (sagas ∷ []) ≡ some (some active)
unfolding recover_saga recover_saga_state recover_state rehydrate_saga from_messages apply_messages
    make_saga_state validate_saga_id get_messages lookup
given_back = refl

recover_saga-IsActive_example : IsActive in_memory_saga_log "s" (sagas ∷ []) active
recover_saga-IsActive_example =
    recover_saga-IsActive in_memory_saga_log "s" (sagas ∷ []) active given_back
