-- ===== src/Sched.antt =====
-- The scheduler (sched/): the requests to it, the nodes that it may use, what runs on them, its jobs and the
-- runs of their tasks.
pub mod Thrift
pub mod Definitions
pub mod Admission
pub mod Nodes
pub mod Jobs
pub mod TaskRunner
pub mod Completion
pub mod Kill
pub mod Recovery
pub mod Assign
pub mod Scheduler
pub mod SchedulerTests
pub mod Stats
pub mod Shares
mod Tests
mod JobTests
mod RequestTests
mod RunTests
mod RecoveryTests
mod AssignTests
mod ShareTests
