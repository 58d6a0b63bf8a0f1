-- ===== src/Runner/Queue/Steps.antt =====
-- The steps of runner/runners/queue.go: what its loop and the goroutines around it do, one at a time, in
-- whatever order their events come. `none` says that the event cannot happen then.
use scoot.Base.{
  ℕ, suc, ◌-◌, String, Bool, true, false, Option, none, some, List, [], ◌∷◌, str_eq, ◌==◌, Dict,
  insert, if◌then◌else◌,
}
use scoot.Runner.Command.{Command}
use scoot.Runner.Status.{RunStatus, is_done, ServiceStatus}
use scoot.Runner.Query.{Query}
use scoot.Runner.Manager.{update, update_service, erase, query_and_listen}
use scoot.Runner.Queue.{
  CmdAndId, Updater, idle, spawned, updating, Watcher, unwatched, following, finishing, Phase, top,
  waiting, stopped, aborting, QueueController, try_update, try_run, turn, replied, enqueue, abort,
}

pub data Event : Type 0 where
  -- The goroutines of NewQueueRunner, startUpdateTickers and tryUpdate.
  initialized : ServiceStatus → Event
  ticked : String → Event
  update_read filer_updated : Event
  -- The loop.
  turned tick_taken update_done run_finished released : Event
  run_requested : Command → Event
  abort_requested : String → Event
  abort_answered : Event
  -- The watcher, and other users of the status manager.
  status_updated : RunStatus → Event
  asked : Query → Bool → Event
  erased : String → Event

abbrev pub at_top : Phase → QueueController → Option QueueController
at_top top c = some c
at_top _ c = none

-- The select, after which the loop comes round.
abbrev pub at_select : Phase → QueueController → Option QueueController
at_select waiting c = some c
at_select _ c = none

-- The types of the filers that asked for an update.
abbrev pub types_to_update : Dict Bool → List String
types_to_update [] = []
types_to_update ((t, u) ∷ reqs) = let rest = types_to_update reqs in if u then t ∷ rest else rest

abbrev pub none_requested : Dict Bool → Dict Bool
none_requested [] = []
none_requested ((t, u) ∷ reqs) = (t, false) ∷ none_requested reqs

abbrev pub read_requests : Updater → QueueController → Option QueueController
read_requests spawned c = some (record c {
  update_req = none_requested c.update_req;
  updater = updating (types_to_update c.update_req);
})
read_requests _ c = none

-- The next filer is updated; an error of it is only logged.
abbrev pub next_filer : Updater → QueueController → Option QueueController
next_filer (updating (t ∷ types)) c = some (record c { updater = updating types })
next_filer _ c = none

-- The goroutine of the update is ready to send.
abbrev pub finish_update : Updater → QueueController → Option QueueController
finish_update (updating []) c =
    at_select c.phase (try_run (record c { updater = idle; phase = top }))
finish_update _ c = none

-- Handle a finished run by resetting the state. `queue[1:]` of no queue panics.
abbrev pub drop_head : List CmdAndId → QueueController → Option QueueController
drop_head [] c = none
drop_head (cmd_id ∷ rest) c = some (record c {
  watcher = unwatched;
  running_id = "";
  running_cmd = none;
  running_abort = false;
  queue = rest;
  phase = top;
})

abbrev pub at_finished : Phase → QueueController → Option QueueController
at_finished waiting c = drop_head c.queue c
at_finished _ c = none

abbrev pub finish_run : Watcher → QueueController → Option QueueController
finish_run (finishing st) c = at_finished c.phase c
finish_run _ c = none

-- The watcher puts the status in the manager, and offers it to the loop if it is final.
abbrev pub watch : Watcher → RunStatus → QueueController → Option QueueController
watch (following id) st c =
    if str_eq st.run_id id
    then some (record c {
      status_manager = (update c.status_manager st).0;
      watcher = if is_done st.state then finishing st else following id;
    })
    else none
watch _ st c = none

abbrev pub sent_on : ℕ → List (ℕ × RunStatus) → Option RunStatus
sent_on ch [] = none
sent_on ch ((c, st) ∷ sent) = if c == ch then some st else sent_on ch sent

abbrev pub answered : QueueController → Option RunStatus → Option QueueController
answered c none = none
answered c (some st) = some (replied (record c { phase = top }) st none)

abbrev pub answer : Phase → QueueController → Option QueueController
answer (aborting ch) c = answered c (sent_on ch c.status_manager.sent)
answer _ c = none

unfoldable pub step : (ℕ → String) → Event → QueueController → Option QueueController
step format (initialized svc) c =
    some (record c { status_manager = update_service c.status_manager svc })
step format (ticked t) c =
    some (record c { update_req = insert t true c.update_req; ticks = suc c.ticks })
step format update_read c = read_requests c.updater c
step format filer_updated c = next_filer c.updater c
step format turned c = at_top c.phase (record (turn c) { phase = waiting })
step format tick_taken c =
    if c.ticks == 0
    then none
    else at_select c.phase (try_update (record c { ticks = c.ticks - 1; phase = top }))
step format update_done c = finish_update c.updater c
step format run_finished c = finish_run c.watcher c
step format released c = at_select c.phase (record c { phase = stopped })
step format (run_requested cmd) c =
    at_select c.phase (enqueue format (record c { phase = top }) cmd)
step format (abort_requested run) c = at_select c.phase (abort c run)
step format abort_answered c = answer c.phase c
step format (status_updated st) c = watch c.watcher st c
step format (asked q listen) c =
    some (record c { status_manager = (query_and_listen c.status_manager q listen).0 })
step format (erased run) c = some (record c { status_manager = erase c.status_manager run })

-- One event after the other.
abbrev pub steps : (ℕ → String) → List Event → QueueController → Option QueueController
steps format [] c = some c
steps format (e ∷ es) c = elim (step format e c) [ none ↦ none | some d ↦ steps format es d ]
