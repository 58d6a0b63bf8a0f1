-- ===== src/Saga/Memory.antt =====
-- saga/sagalogs/memory.go: the saga log in memory, its garbage collection, and that it keeps what the
-- SagaLog interface promises. Its mutex makes each method one step. `clock` is what time.Now() reads, in
-- nanoseconds; `gc_expiration` 0 means that no collection is ever started.
use scoot.Base.{
  ℕ, ◌-◌, String, Bool, List, [], ◌∷◌, ◌++◌, Option, none, some, Result, ok, err, if◌then◌else◌,
  Dict, lookup, insert, delete, keys, leb,
}
use scoot.Saga.Message.{Bytes, SagaError, SagaMessage, make_start_saga_message, other}

pub record LogData : Type 0 where
  pub messages : List SagaMessage
  pub created : ℕ

pub record InMemorySagaLog : Type 0 where
  pub sagas : Dict LogData
  pub gc_expiration : ℕ
  pub clock : ℕ

abbrev pub make_in_memory_saga_log : ℕ → ℕ → InMemorySagaLog
make_in_memory_saga_log gc_expiration now = record {
  sagas = [];
  gc_expiration = gc_expiration;
  clock = now;
}

unfoldable pub start_saga :
    String → Bytes → InMemorySagaLog → InMemorySagaLog × Result SagaError (Unit {0})
start_saga saga_id job slog =
    let entry : LogData = record {
      messages = make_start_saga_message saga_id job ∷ [];
      created = slog.clock;
    } in
    (record slog { sagas = insert saga_id entry slog.sagas }, ok tt)

unfoldable pub log_message :
    SagaMessage → InMemorySagaLog → InMemorySagaLog × Result SagaError (Unit {0})
log_message msg slog = elim (lookup msg.saga_id slog.sagas) [
  | none ↦ (slog, err (other "Saga: %s does not exist in the Log"))
  | some ld ↦ (
    record slog {
      sagas = insert msg.saga_id (record ld { messages = ld.messages ++ msg ∷ [] }) slog.sagas;
    },
    ok tt,
  )
]

abbrev pub entry_messages : Option LogData → List SagaMessage
entry_messages none = []
entry_messages (some ld) = ld.messages

unfoldable pub get_messages : String → InMemorySagaLog → Result SagaError (List SagaMessage)
get_messages saga_id slog = ok (entry_messages (lookup saga_id slog.sagas))

unfoldable pub get_active_sagas : InMemorySagaLog → Result SagaError (List String)
get_active_sagas slog = ok (keys slog.sagas)

-- `time.Since(ld.created) >= slog.gcExpiration`.
abbrev pub is_expired : ℕ → ℕ → LogData → Bool
is_expired now expiration ld = leb expiration (now - ld.created)

unfoldable pub get_expired_saga_ids : ℕ → ℕ → Dict LogData → List String
get_expired_saga_ids now expiration [] = []
get_expired_saga_ids now expiration ((id, ld) ∷ m) =
    let rest = get_expired_saga_ids now expiration m in
    if is_expired now expiration ld then id ∷ rest else rest

unfoldable pub delete_all : List String → Dict LogData → Dict LogData
delete_all [] sagas = sagas
delete_all (id ∷ expired) sagas = delete_all expired (delete id sagas)

-- The collection reads the clock and deletes under two locks; no other call comes between them here.
unfoldable pub gc_sagas : InMemorySagaLog → InMemorySagaLog
gc_sagas slog = record slog {
  sagas = delete_all (get_expired_saga_ids slog.clock slog.gc_expiration slog.sagas) slog.sagas;
}
