-- ===== src/Runner.antt =====
-- The runner on a worker (runner/): the statuses of its runs, the manager that keeps them, and the
-- queue of commands.
pub mod Status
pub mod Command
pub mod Query
pub mod Manager
pub mod Queue
mod Tests
mod QueueTests
