-- ===== src/Lib.antt =====
-- Scoot runs jobs of many tasks on a cluster of workers. This library models the parts of it that
-- decide what happens: the saga package that logs and recovers the progress of a job (saga/), the
-- scheduler's requests, its view of the cluster, its jobs and its task runners (cloud/cluster/, sched/),
-- the queue of commands on a worker and the statuses of runs that it keeps for its clients (runner/),
-- and the mailbox through which the scheduler hears of finished goroutines (async/).
--
-- Saga (saga/). `Saga.Message` has the log's messages (saga/saga_message.go) and the package's errors,
-- `Saga.State` the state of a saga, `Saga.Update` updateSagaState with one function for each case of
-- its switch (saga/saga_state.go). `Saga.Log` is the SagaLog interface as a record of operations and
-- laws (saga/sagalog.go) and logMessage, `Saga.Object` the Saga object and its requests
-- (saga/saga.go), `Saga.Recovery` recoverState and isSagaInSafeState (saga/saga_recovery.go),
-- `Saga.Coordinator` the coordinator (saga/saga_coordinator.go), `Saga.Memory` the log in memory
-- (saga/sagalogs/memory.go). The other modules below `Saga` hold the proofs and are named for what
-- they prove. Requests to a saga pass through one channel to one goroutine, so that a sequence of
-- requests stands for any interleaving of callers; writes of other sagas to the shared log come
-- between them as events of their own (`Saga.Durability.Run`).
--
-- Scheduler (sched/scheduler/cluster_state.go). `Cluster.Node` has nodes and node updates
-- (cloud/cluster/node.go). `Sched.Nodes` is the clusterState with taskScheduled and taskCompleted,
-- `Sched.Nodes.Update` its update with the sweep over the suspended nodes. Since several maps share a
-- nodeState, one is an address in the field `cell`; following a nil pointer is a panic, `none`. Times
-- are numbers, and the clock is an argument. The goroutine that checks the readiness of a node is the
-- event `ready_loop_done`, which may come between any two operations. `Sched.Nodes.Disjoint`, `Tracked`
-- and `Sweep` hold what an update keeps, `Sched.Nodes.Rounds` the course of a task on a node.
--
-- `Sched.Jobs` is the jobState with the tasks of a job and their counts (sched/scheduler/job_state.go),
-- which starts from the saga of the job; `Sched.Jobs.Counts` and `Recovery` hold its proofs. A task
-- runner is a number there, and a task definition its id.
--
-- `Sched.Definitions` has jobs, their validation and their thrift forms (sched/definitions.go), whose
-- types are in `Sched.Thrift` (sched/gen-go/sched/ttypes.go); the bytes of the protocol are not modelled.
-- `Sched.Admission` is the check that addJobs makes of a request (sched/scheduler/stateful_scheduler.go),
-- with the history of tags. `Sched.Scheduler` has the jobs in progress, from addJobs to deleteJob, with the calls of
-- EndSaga that are under way; `Sched.Scheduler.Steps` has their changes as a step relation, and `Index`, `Calls` and
-- `Ending` the proofs. `Sched.Stats` has the counts of updateStats and `Sched.Stats.Counts` its proof.
--
-- `Sched.TaskRunner` and `Sched.TaskRunner.Run` are the taskRunner (sched/scheduler/task_runner.go). The
-- worker is a list of answers to Run and one of answers to Query, each with the request to abort that
-- came in meanwhile; the recursion is over these lists, and a list that ends too soon is a call that has
-- not returned. `Sched.TaskRunner.Retries` is about how many answers the first loop needs.
-- `Sched.Completion` is the callback with which the scheduler's loop hears of the end of a run
-- (sched/scheduler/stateful_scheduler.go): it joins the task runner, the saga, the jobState and the
-- clusterState. `Sched.Completion.Agreement` and `Lost` hold what follows of them together. `Sched.Kill` is
-- killJobs for one job, and `Sched.Kill.Tasks` its proofs. `Sched.Assign` is the choice of nodes for tasks
-- (assign of sched/scheduler/task_scheduler.go), with its proofs in `Sched.Assign.Distinct`. `Sched.Shares` is how
-- getTaskAssignments shares the free nodes among the jobs, `Sched.Shares.Tasks` getTaskAssignments as a whole over
-- Go's float32 as a parameter; `Once`, `Required`, `Progress` and the modules that they use hold the proofs.
-- `Sched.Recovery` is the recovery of one saga after a
-- restart (sched/scheduler/recover_jobs.go), over the stores that the log has at the attempts, and
-- `Sched.Recovery.Active` its proof.
--
-- Cluster (cloud/cluster/). `Cluster.State` is the view of the nodes with filterAndUpdate and setAndDiff
-- (cloud/cluster/state.go); filterAndUpdate recurses on fuel, one unit for each update and one more, which is
-- enough since fewer updates are left each time. `Cluster.State.Replay`, `Ids`, `Diff` and `Follow` hold the proofs.
-- `Cluster.Subscriptions` is the goroutine of the cluster with those of its subscribers
-- (cloud/cluster/cluster.go, cloud/cluster/subscription.go) as one state that events change in any order, and
-- `Broadcast` and `Served` below it hold the proofs. sort.Sort is a parameter that permutes.
--
-- Runner (runner/). `Runner.Status` has run states and statuses (runner/status.go), `Runner.Query` state
-- masks and queries (runner/status_rw.go), `Runner.Manager` the StatusManager with its history and its
-- listeners (runner/runners/status_manager.go) and StatusNow (runner/queries.go). A listener's channel
-- is a number, and `sent` records what was put on the channels. strconv.FormatInt is a parameter, which
-- is taken to be injective where run ids must differ. The 64 bits of the run counter wrap around.
-- `Runner.Manager.Wakeups`, `Finality`, `Delivery` and `History` hold the proofs.
--
-- `Runner.Queue` is the QueueController (runner/runners/queue.go), with the status manager in it;
-- `Runner.Queue.Steps` has its loop, the goroutines around it and the tickers as events that may come in
-- any order, each possible in some states only. The invoker is the event of a status of its run, and the
-- waiting of FinalStatus a phase of the loop. `Exclusion`, `Awake`, `Fifo`, `Drain` and `Liveness` hold the
-- proofs.
--
-- Async (async/). `Async` is the mailbox of callbacks (async/Mailbox.go, async/async_error.go), with the
-- errors as cells that other goroutines set at any time: the parameter `meanwhile` has the calls of SetValue
-- between two reads. `Async.Values` and `Async.Delivery` say what ProcessMessages does. What a callback does to
-- the mailbox is the parameter `spawns`.
--
-- Bazel (bazel/execution/bazelapi/). `Bazel` has the execute request that a command may carry, with its thrift
-- types in `Bazel.Thrift`, and its conversions (bazel/execution/bazelapi/definitions.go); `Bazel.RoundTrip` is
-- what becomes of it on the way to thrift and back.
--
-- Conventions. A Go map is an association list (`Base.Maps`), whose order is one in which Go may range
-- over it. A nil slice is told from an empty one by `Option`. A method that mutates its receiver
-- returns the new value; an error is a value of a result type and carries the format text of the
-- source without its arguments. Log lines, statistics and String methods for display are left out.
-- Every loop but the recursion of filterAndUpdate is a recursion over the list that it ranges over or over
-- the answers that it waits for, so that no fuel is needed.
--
-- Not modelled: the generated thrift and protobuf code but for the types above, the processes that run a
-- command (runner/execer/, runner/runners/invoke.go), the snapshots and their stores (snapshot/), the bazel
-- services (bazel/) but for the execute requests, the API servers (scootapi/, workerapi/), the file systems (fs/, fuse/), and the
-- gauges and the main loop of the scheduler.
pub mod Async
pub mod Base
pub mod Bazel
pub mod Cluster
pub mod Runner
pub mod Saga
pub mod Sched
