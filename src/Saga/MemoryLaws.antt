-- ===== src/Saga/MemoryLaws.antt =====
-- saga/sagalogs/memory.go keeps what the SagaLog interface promises, and its collection removes the
-- expired sagas alone.
use scoot.Base.{
  ℕ, ◌≡◌, refl, ◌≢◌, String, Bool, false, List, [], ◌∷◌, ◌++◌, arith, Option, none, some, ◌∙◌, ok,
  err, inl, inr, if◌then◌else◌, Option-cases, Dict, lookup, delete, ◌||◌, eq_iff, eq_refl,
  lookup-insert, lookup-delete, str_eq, Distinct, Absent,
}
use scoot.Saga.Message.{Bytes, SagaError, SagaMessage, make_start_saga_message}
use scoot.Saga.Log.{SagaLog}
use scoot.Saga.Memory.{
  InMemorySagaLog, LogData, start_saga, log_message, get_messages, get_active_sagas, entry_messages,
  is_expired, get_expired_saga_ids, delete_all, gc_sagas,
}

unfoldable pub memory_messages : String → InMemorySagaLog → List SagaMessage
memory_messages id slog = entry_messages (lookup id slog.sagas)

pub read_exact :
    (id : String) (σ : InMemorySagaLog) (ms : List SagaMessage)
    → get_messages id σ ≡ ok ms
    → ms ≡ memory_messages id σ
unfolding get_messages memory_messages
read_exact id σ ms h = cc

pub start_logged :
    (id : String) (job : Bytes) (σ : InMemorySagaLog)
    → memory_messages id σ ≡ []
    → (start_saga id job σ).1 ≡ ok tt
    → memory_messages id (start_saga id job σ).0 ≡ make_start_saga_message id job ∷ []
unfolding start_saga memory_messages
start_logged id job σ fresh h = simp (lookup-insert, eq_refl)

pub start_other :
    (id other : String) (job : Bytes) (σ : InMemorySagaLog)
    → id ≢ other
    → memory_messages other (start_saga id job σ).0 ≡ memory_messages other σ
unfolding start_saga memory_messages
start_other id other job σ ne = ground (
  arith,
  eq_iff id other,
  lookup-insert id other
      (record { messages = make_start_saga_message id job ∷ []; created = σ.clock }) σ.sagas,
)

pub write_logged :
    (m : SagaMessage) (σ : InMemorySagaLog)
    → (log_message m σ).1 ≡ ok tt
    → memory_messages m.saga_id (log_message m σ).0 ≡ memory_messages m.saga_id σ ++ m ∷ []
unfolding log_message memory_messages
write_logged m σ h = elim (Option-cases (lookup m.saga_id σ.sagas)) [
  | inl e ↦ absurd (ground arith)
  | inr (ld, e) ↦ rw (e, log_message) (simp (lookup-insert, eq_refl))
]

pub write_failed :
    (m : SagaMessage) (σ : InMemorySagaLog) (e : SagaError)
    → (log_message m σ).1 ≡ err e
    → memory_messages m.saga_id (log_message m σ).0 ≡ memory_messages m.saga_id σ
unfolding log_message memory_messages
write_failed m σ e h = ground arith

pub write_other :
    (m : SagaMessage) (other : String) (σ : InMemorySagaLog)
    → m.saga_id ≢ other
    → memory_messages other (log_message m σ).0 ≡ memory_messages other σ
unfolding log_message memory_messages
write_other m other σ ne = elim (Option-cases (lookup m.saga_id σ.sagas)) [
  | inl e ↦ rw (e, log_message)
  | inr (ld, e) ↦
      rw (e, log_message)
        (ground (
          arith,
          eq_iff m.saga_id other,
          lookup-insert m.saga_id other (record ld { messages = ld.messages ++ m ∷ [] }) σ.sagas,
        ))
]

-- The log in memory as a log of the saga package.
abbrev pub in_memory_saga_log : SagaLog
in_memory_saga_log = record {
  Store = InMemorySagaLog;
  start_saga = start_saga;
  log_message = log_message;
  get_messages = get_messages;
  get_active_sagas = get_active_sagas;
  messages = memory_messages;
  get_messages_exact = read_exact;
  start_saga_logged = start_logged;
  start_saga_other = start_other;
  log_message_logged = write_logged;
  log_message_failed = write_failed;
  log_message_other = write_other;
}

abbrev is_in : String → List String → Bool
is_in id [] = false
is_in id (x ∷ xs) = str_eq x id || is_in id xs

lookup-delete_all :
    (ids : List String) (id : String) (m : Dict LogData)
    → lookup id (delete_all ids m) ≡ (if is_in id ids then none else lookup id m)
unfolding delete_all
lookup-delete_all [] id m = refl
lookup-delete_all (x ∷ xs) id m =
    rw (lookup-delete_all xs id (delete x m), lookup-delete x id m) (ground arith)

-- What the collection leaves of an entry.
abbrev pub keep_fresh : ℕ → ℕ → Option LogData → Option LogData
keep_fresh now expiration none = none
keep_fresh now expiration (some ld) = if is_expired now expiration ld then none else some ld

is_in-Absent :
    (now expiration : ℕ) (id : String) (m : Dict LogData)
    → Absent id m
    → is_in id (get_expired_saga_ids now expiration m) ≡ false
unfolding get_expired_saga_ids
is_in-Absent now expiration id [] a = refl
is_in-Absent now expiration id ((j, ld) ∷ m) a =
    ground (arith, is_in-Absent now expiration id m a.1)

collected :
    (now expiration : ℕ) (id : String) (m : Dict LogData)
    → Distinct m
    → (if is_in id (get_expired_saga_ids now expiration m) then none else lookup id m)
      ≡ keep_fresh now expiration (lookup id m)
unfolding get_expired_saga_ids lookup
collected now expiration id [] d = refl
collected now expiration id ((j, ld) ∷ m) d =
    ground
      (arith, eq_iff j id, collected now expiration id m d.1, is_in-Absent now expiration j m d.0)

-- A collection removes the sagas that were created at least the expiration ago, whether or not they have
-- ended, and leaves every other saga with its messages.
gc_sagas-lookup :
    (slog : InMemorySagaLog) (id : String)
    → Distinct slog.sagas
    → lookup id (gc_sagas slog).sagas
      ≡ keep_fresh slog.clock slog.gc_expiration (lookup id slog.sagas)
unfolding gc_sagas
gc_sagas-lookup slog id d =
    lookup-delete_all (get_expired_saga_ids slog.clock slog.gc_expiration slog.sagas) id slog.sagas
    ∙ collected slog.clock slog.gc_expiration id slog.sagas d
