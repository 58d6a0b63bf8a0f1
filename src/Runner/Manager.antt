-- ===== src/Runner/Manager.antt =====
-- runner/runners/status_manager.go: the database of run statuses, with those who wait for one. A channel
-- of a listener is a number, and `sent` has what was put on the channels, each of which is closed then.
-- The lock makes each method one step. strconv.FormatInt is the parameter `format`, which takes the 64
-- bits of the number.
pub mod Wakeups
pub mod Finality
pub mod Delivery
pub mod History
use Prim.Native.Nat.{◌%◌, ◌^◌}
use scoot.Base.{
  ℕ, suc, String, Bool, true, false, not, ◌&&◌, ◌||◌, Option, none, some, List, [], ◌∷◌, ◌++◌,
  str_eq, ltb, ◌==◌, Dict, lookup, insert, delete, length, if◌then◌else◌, Result, ok, err,
}
use scoot.Runner.Status.{
  RunState, pending, is_done, RunStatus, pending_status, no_status, ServiceStatus,
}
use scoot.Runner.Query.{Query, query_matches, matches, all_mask}

-- queryAndCh.
pub record Listener : Type 0 where
  pub q : Query
  pub ch : ℕ

pub record StatusManager : Type 0 where
  pub runs : Dict RunStatus
  pub fifo : List String
  pub capacity : ℕ
  pub svc_status : ServiceStatus
  pub next_run_id : ℕ
  pub listeners : List Listener
  pub next_ch : ℕ
  pub sent : List (ℕ × RunStatus)

abbrev pub new_status_manager : ℕ → StatusManager
new_status_manager capacity = record {
  runs = [];
  fifo = [];
  capacity = capacity;
  svc_status = record { initialized = false; error = none };
  next_run_id = 0;
  listeners = [];
  next_ch = 0;
  sent = [];
}

-- The run leaves the map that is first in the queue, if the history is full.
abbrev pub evict : StatusManager → List String → StatusManager
evict m [] = m
evict m (id ∷ ids) =
    if not (m.capacity == 0) && ltb m.capacity (length (id ∷ ids))
    then record m { runs = delete id m.runs; fifo = ids }
    else m

abbrev pub created_status : String → RunStatus
created_status id = record no_status { run_id = id; state = pending }

-- The manager with the new run, before any older one is evicted.
abbrev pub added : (ℕ → String) → StatusManager → StatusManager
added format m =
    let id = format m.next_run_id in
    record m {
      next_run_id = suc m.next_run_id % 2 ^ 64;
      runs = insert id (created_status id) m.runs;
      fifo = m.fifo ++ (id ∷ []);
    }

unfoldable pub new_run : (ℕ → String) → StatusManager → StatusManager × RunStatus
new_run format m =
    (evict (added format m) (added format m).fifo, created_status (format m.next_run_id))

unfoldable pub update_service : StatusManager → ServiceStatus → StatusManager
update_service m svc_status = record m { svc_status = svc_status }

-- The listeners that keep waiting, and what the others receive.
unfoldable pub unheard : RunStatus → List Listener → List Listener
unheard st [] = []
unheard st (l ∷ ls) = let rest = unheard st ls in if query_matches l.q st then rest else l ∷ rest

unfoldable pub heard : RunStatus → List Listener → List (ℕ × RunStatus)
heard st [] = []
heard st (l ∷ ls) =
    let rest = heard st ls in if query_matches l.q st then (l.ch, st) ∷ rest else rest

abbrev pub keep_ref : String → String → String
keep_ref old new = if str_eq new "" then old else new

-- The new status with the references of the old one where it has none.
abbrev pub with_refs : RunStatus → RunStatus → RunStatus
with_refs old st = record st {
  stdout_ref = keep_ref old.stdout_ref st.stdout_ref;
  stderr_ref = keep_ref old.stderr_ref st.stderr_ref;
}

abbrev pub written : StatusManager → RunStatus → StatusManager
written m st = record m {
  runs = insert st.run_id st m.runs;
  listeners = unheard st m.listeners;
  sent = m.sent ++ heard st m.listeners;
}

unfoldable pub update : StatusManager → RunStatus → StatusManager × Result String (Unit {0})
update m new_status = elim (lookup new_status.run_id m.runs) [
  | none ↦ (m, err "Cannot update non-existing runID: %s")
  | some old ↦
      if is_done old.state then (m, ok tt) else (written m (with_refs old new_status), ok tt)
]

-- A run that is not there has the zero status, whose state is done.
unfoldable pub erase : StatusManager → String → StatusManager
erase m run = elim (lookup run m.runs) [
  | none ↦ record m { runs = delete run m.runs }
  | some st ↦ if is_done st.state then record m { runs = delete run m.runs } else m
]

-- The statuses in any of the states, in the order of the map.
unfoldable pub in_states : ℕ → Dict RunStatus → List RunStatus
in_states states [] = []
in_states states ((id, st) ∷ runs) =
    let rest = in_states states runs in if matches states st.state then st ∷ rest else rest

unfoldable pub of_runs : ℕ → List String → Dict RunStatus → Result String (List RunStatus)
of_runs states [] runs = ok []
of_runs states (id ∷ ids) runs =
    let rest = of_runs states ids runs in
    elim (lookup id runs) [
      | none ↦ err "unknown run id %v"
      | some st ↦ elim rest [
        | err e ↦ err e
        | ok sts ↦ ok (if matches states st.state then st ∷ sts else sts)
      ]
    ]

abbrev pub current : Query → Dict RunStatus → Result String (List RunStatus)
current q runs = if q.all_runs then ok (in_states q.states runs) else of_runs q.states q.runs runs

-- What queryAndListen returns: the current results, and the channel if there are none yet.
abbrev pub Answer : Type 0
Answer = Result String (List RunStatus × Option ℕ)

abbrev pub listened : StatusManager → Query → Bool → List RunStatus → StatusManager × Answer
listened m q false sts = (m, ok (sts, none))
listened m q true (st ∷ sts) = (m, ok (st ∷ sts, none))
listened m q true [] = (
  record m {
    listeners = m.listeners ++ (record { q = q; ch = m.next_ch } ∷ []);
    next_ch = suc m.next_ch;
  },
  ok ([], some m.next_ch),
)

unfoldable pub query_and_listen : StatusManager → Query → Bool → StatusManager × Answer
query_and_listen m q listen = elim (current q m.runs) [
  | err e ↦ (m, err e)
  | ok sts ↦ listened m q listen sts
]

-- The calls that change the manager.
pub data Event : Type 0 where
  created : Event
  serviced : ServiceStatus → Event
  updated : RunStatus → Event
  erased : String → Event
  asked : Query → Bool → Event

abbrev pub step : (ℕ → String) → Event → StatusManager → StatusManager
step format created m = (new_run format m).0
step format (serviced svc_status) m = update_service m svc_status
step format (updated st) m = (update m st).0
step format (erased run) m = erase m run
step format (asked q listen) m = (query_and_listen m q listen).0

-- QueryNow, which waits for nothing.
unfoldable pub query_now : StatusManager → Query → Result String (List RunStatus) × ServiceStatus
query_now m q = (current q m.runs, m.svc_status)

-- `statuses[0]`, which panics on no status.
abbrev pub first_status :
    List RunStatus → ServiceStatus → Option (Result String RunStatus × ServiceStatus)
first_status [] service = none
first_status (st ∷ sts) service = some (ok st, service)

abbrev no_service : ServiceStatus
no_service = record { initialized = false; error = none }

-- StatusNow, as runner/queries.go builds it.
unfoldable pub status_now :
    StatusManager → String → Option (Result String RunStatus × ServiceStatus)
status_now m id =
    let (statuses, service) =
      query_now m (record { runs = id ∷ []; all_runs = false; states = all_mask }) in
    elim statuses [ err e ↦ some (err e, no_service) | ok sts ↦ first_status sts service ]
