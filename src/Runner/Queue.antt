-- ===== src/Runner/Queue.antt =====
-- runner/runners/queue.go: the queue of commands on a worker. The goroutines are the loop, the one that
-- watches the running command, the one that updates the filers, and the tickers; a send on a channel
-- without a buffer is a step of its receiver. `started` has the commands given to the invoker, `closed` the
-- runs whose abort channel was closed, and `replies` what Run and Abort returned. The capacity is not
-- negative, the invoker's statuses carry the id of their run, and FinalStatus waits without end.
pub mod Steps
pub mod Invariant
pub mod Exclusion
pub mod Fifo
pub mod Awake
pub mod Drain
pub mod Liveness
use scoot.Base.{
  ℕ, suc, zero, ◌-◌, String, Bool, true, false, not, ◌&&◌, Option, none, some, List, [], ◌∷◌, ◌++◌,
  str_eq, leb, ltb, ◌==◌, length, Dict, insert, if◌then◌else◌, Result, ok, err,
}
use scoot.Runner.Command.{Command}
use scoot.Runner.Status.{RunStatus, no_status, is_done, abort_status, ServiceStatus}
use scoot.Runner.Query.{Query, done_mask}
use scoot.Runner.Manager.{
  StatusManager, new_status_manager, new_run, update, update_service, erase, query_and_listen,
  Answer,
}

pub record CmdAndId : Type 0 where
  pub cmd : Command
  pub id : String

-- The goroutine behind updateDoneCh: not there, started, or with the filers that it still has to update.
pub data Updater : Type 0 where
  idle spawned : Updater
  updating : List String → Updater

-- The goroutine behind watchCh: not there, following a run, or offering its final status.
pub data Watcher : Type 0 where
  unwatched : Watcher
  following : String → Watcher
  finishing : RunStatus → Watcher

-- Where the loop is: before its first test, in the select, in FinalStatus for an abort, or left.
pub data Phase : Type 0 where
  top waiting stopped : Phase
  aborting : ℕ → Phase

pub record QueueController : Type 0 where
  pub status_manager : StatusManager
  pub capacity : ℕ
  pub queue : List CmdAndId
  pub running_id : String
  pub running_cmd : Option Command
  pub running_abort : Bool
  pub update_req : Dict Bool
  pub ticks : ℕ
  pub watcher : Watcher
  pub updater : Updater
  pub update_requested : Bool
  pub phase : Phase
  pub started : List CmdAndId
  pub closed : List String
  pub replies : List (RunStatus × Option String)

abbrev pub new_queue_runner : ℕ → QueueController
new_queue_runner capacity = record {
  status_manager = new_status_manager (if ltb 0 capacity then 0 else 1);
  capacity = if capacity == 0 then 1 else capacity;
  queue = [];
  running_id = "";
  running_cmd = none;
  running_abort = false;
  update_req = [];
  ticks = 0;
  watcher = unwatched;
  updater = idle;
  update_requested = false;
  phase = top;
  started = [];
  closed = [];
  replies = [];
}

-- `watchCh == nil && updateDoneCh == nil`.
abbrev pub is_free : Watcher → Updater → Bool
is_free unwatched idle = true
is_free _ _ = false

unfoldable pub try_update : QueueController → QueueController
try_update c =
    if is_free c.watcher c.updater
    then record c { update_requested = false; updater = spawned }
    else record c { update_requested = true }

abbrev pub run_and_watch : QueueController → CmdAndId → QueueController
run_and_watch c cmd_id = record c {
  running_abort = true;
  running_id = cmd_id.id;
  running_cmd = some cmd_id.cmd;
  watcher = following cmd_id.id;
  started = c.started ++ (cmd_id ∷ []);
}

abbrev pub run_head : QueueController → List CmdAndId → QueueController
run_head c [] = c
run_head c (cmd_id ∷ rest) = run_and_watch c cmd_id

unfoldable pub try_run : QueueController → QueueController
try_run c = if is_free c.watcher c.updater then run_head c c.queue else c

-- The first test of the loop, with its select that does not wait.
unfoldable pub turn : QueueController → QueueController
turn c =
    if c.update_requested
    then try_update c
    else (if c.ticks == 0 then try_run c else try_update (record c { ticks = c.ticks - 1 }))

abbrev pub replied : QueueController → RunStatus → Option String → QueueController
replied c st error = record c { replies = c.replies ++ ((st, error) ∷ []) }

abbrev pub initing_msg : String
initing_msg = "Queue is still initializing. Please try later."

abbrev pub full_msg : String
full_msg = "No resources available. Please try later."

-- The text of the service's error, or the message that it still starts.
abbrev pub init_error : Option String → String
init_error none = initing_msg
init_error (some e) = e

abbrev pub with_run : QueueController → Command → StatusManager × RunStatus → QueueController
with_run c cmd (m, st) =
    replied
      (record c {
        status_manager = m;
        queue = c.queue ++ (record { cmd = cmd; id = st.run_id } ∷ []);
      })
      st none

unfoldable pub enqueue : (ℕ → String) → QueueController → Command → QueueController
enqueue format c cmd =
    if not c.status_manager.svc_status.initialized
    then replied c (record no_status { error = init_error c.status_manager.svc_status.error })
        (some initing_msg)
    else (if leb c.capacity (length c.queue)
        then replied c no_status (some full_msg)
        else with_run c cmd (new_run format c.status_manager))

-- The queue without the run, and its command. Run ids differ, so that at most one entry has it.
unfoldable pub remove : String → List CmdAndId → List CmdAndId × Option Command
remove run [] = ([], none)
remove run (cmd_id ∷ rest) =
    let found = remove run rest in
    if str_eq run cmd_id.id then (rest, some cmd_id.cmd) else (cmd_id ∷ found.0, found.1)

abbrev pub abort_queued :
    QueueController → String → List CmdAndId × Option Command → QueueController
abort_queued c run (queue, none) = c
abort_queued c run (queue, some cmd) = record c {
  queue = queue;
  status_manager = (update c.status_manager (abort_status run cmd.tags)).0;
}

abbrev pub abort_running : QueueController → QueueController
abort_running c =
    if c.running_abort
    then record c { running_abort = false; closed = c.closed ++ (c.running_id ∷ []) }
    else c

-- FinalStatus: the answer, or the channel to wait on.
abbrev pub final_status : QueueController → StatusManager × Answer → QueueController
final_status c (m, err e) =
    replied (record c { status_manager = m; phase = top }) no_status (some e)
final_status c (m, ok (st ∷ sts, ch)) =
    replied (record c { status_manager = m; phase = top }) st none
final_status c (m, ok ([], some ch)) = record c { status_manager = m; phase = aborting ch }
final_status c (m, ok ([], none)) = record c { status_manager = m; phase = top }

abbrev pub withdraw : QueueController → String → QueueController
withdraw c run =
    if str_eq run c.running_id then abort_running c else abort_queued c run (remove run c.queue)

unfoldable pub abort : QueueController → String → QueueController
abort c run =
    let d = withdraw c run in
    final_status d (
      query_and_listen d.status_manager
        (record { runs = run ∷ []; all_runs = false; states = done_mask }) true)
