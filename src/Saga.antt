-- ===== src/Saga.antt =====
-- The saga package (saga/): the messages, the state that they build, the log and the recovery.
pub mod Message
pub mod State
pub mod Update
pub mod Transitions
pub mod Invariant
pub mod Progress
pub mod Log
pub mod Recovery
pub mod Object
pub mod Coordinator
pub mod Replay
pub mod Durability
pub mod Rollback
pub mod Retry
pub mod Memory
pub mod MemoryLaws
pub mod Idempotence
mod Tests
