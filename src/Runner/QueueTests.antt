-- ===== src/Runner/QueueTests.antt =====
-- Tests and examples for the queue of commands (runner/runners/queue.go).
use scoot.Base.{
  ℕ, zero, suc, ◌≡◌, refl, inl, inr, String, true, false, Option, none, some, List, [], ◌∷◌, ◌++◌,
  map, pos, length,
}
use scoot.Runner.Command.{Command}
use scoot.Runner.Status.{RunStatus, abort_status}
use scoot.Runner.Query.{matches}
use scoot.Runner.Manager.{new_run, update, update_service, query_and_listen}
use scoot.Runner.Queue.{
  CmdAndId, QueueController, top, waiting, is_free, new_queue_runner, try_update, try_run, turn,
  enqueue, remove, abort, full_msg,
}
use scoot.Runner.Queue.Steps.{
  Event, initialized, ticked, turned, run_finished, run_requested, abort_requested, abort_answered,
  status_updated, step, steps,
}
use scoot.Runner.Queue.Invariant.{IsValid}
use scoot.Runner.Queue.Exclusion.{steps-IsValid}
use scoot.Runner.Queue.Fifo.{Moves, waiting_of}
use scoot.Runner.Queue.Fifo.Steps.{step-refines}
use scoot.Runner.Queue.Awake.{steps-IsAwake}
use scoot.Runner.Queue.Drain.{Drains}
use scoot.Runner.Queue.Liveness.{steps-drain}

abbrev name : ℕ → String
name zero = "0"
name (suc zero) = "1"
name (suc (suc n)) = "2"

abbrev ls : Command
ls = record {
  argv = "ls" ∷ [];
  env_vars = [];
  timeout = 0;
  snapshot_id = "";
  tags = record { job_id = "j"; task_id = "t"; tag = "" };
  execute_request = none;
}

abbrev ready : Event
ready = initialized (record { initialized = true; error = none })

abbrev or_new : Option QueueController → QueueController
or_new none = new_queue_runner 2
or_new (some c) = c

abbrev after : List Event → QueueController
after es = or_new (steps name es (new_queue_runner 2))

-- Two commands are accepted, the first runs, and an update is asked for.
abbrev two_in : List Event
two_in = ready ∷ turned ∷ run_requested ls ∷ turned ∷ run_requested ls ∷ ticked "git" ∷ []

two_run : steps name two_in (new_queue_runner 2) ≡ some (after two_in)
unfolding step turn try_run enqueue new_run update_service scoot.Base.insert
two_run = refl

two_waiting :
    map (λ (x : CmdAndId). x.id) (waiting_of (after two_in).watcher (after two_in).queue) ≡ "1" ∷ []
unfolding step turn try_run enqueue new_run update_service scoot.Base.insert
two_waiting = refl

abbrev ids : List CmdAndId → List String
ids q = map (λ (x : CmdAndId). x.id) q

-- A third command does not fit.
third_refused :
    map
      (λ (r : RunStatus × Option String). r.1)
      (after (two_in ++ (turned ∷ run_requested ls ∷ []))).replies
    ≡ none ∷ none ∷ some full_msg ∷ []
unfolding step turn try_run try_update enqueue abort remove new_run update update_service
    query_and_listen matches scoot.Base.insert scoot.Base.lookup scoot.Runner.Manager.of_runs
    scoot.Runner.Manager.unheard scoot.Runner.Manager.heard scoot.Runner.Query.query_matches
third_refused = refl

-- An abort takes the second command out, and the state of its run is final.
abbrev cancelled : List Event
cancelled = two_in ++ (turned ∷ abort_requested "1" ∷ [])

second_gone : ids (after cancelled).queue ≡ "0" ∷ []
unfolding step turn try_run try_update enqueue abort remove new_run update update_service
    query_and_listen matches scoot.Base.insert scoot.Base.lookup scoot.Runner.Manager.of_runs
    scoot.Runner.Manager.unheard scoot.Runner.Manager.heard scoot.Runner.Query.query_matches
second_gone = refl

-- An abort of the running command waits for its status, and goes on with it.
abbrev stopped_run : List Event
stopped_run =
    two_in
    ++ (turned
        ∷ abort_requested "0"
        ∷ status_updated (abort_status "0" ls.tags)
        ∷ abort_answered
        ∷ turned
        ∷ run_finished
        ∷ [])

abort_closes : (after stopped_run).closed ≡ "0" ∷ []
unfolding step turn try_run try_update enqueue abort remove new_run update update_service
    query_and_listen matches scoot.Base.insert scoot.Base.lookup scoot.Runner.Manager.of_runs
    scoot.Runner.Manager.unheard scoot.Runner.Manager.heard scoot.Runner.Query.query_matches
abort_closes = refl

second_left : ids (after stopped_run).queue ≡ "1" ∷ []
unfolding step turn try_run try_update enqueue abort remove new_run update update_service
    query_and_listen matches scoot.Base.insert scoot.Base.lookup scoot.Runner.Manager.of_runs
    scoot.Runner.Manager.unheard scoot.Runner.Manager.heard scoot.Runner.Query.query_matches
second_left = refl

steps-IsValid_example : IsValid (after two_in)
steps-IsValid_example = steps-IsValid name 2 two_in (after two_in) two_run

abbrev turned_again : QueueController
turned_again = after (two_in ++ (turned ∷ []))

turned_run : steps name (two_in ++ (turned ∷ [])) (new_queue_runner 2) ≡ some turned_again
unfolding step turn try_run try_update enqueue abort remove new_run update update_service
    query_and_listen matches scoot.Base.insert scoot.Base.lookup scoot.Runner.Manager.of_runs
    scoot.Runner.Manager.unheard scoot.Runner.Manager.heard scoot.Runner.Query.query_matches
turned_run = refl

cancels :
    step name (abort_requested "1") turned_again
    ≡ some (or_new (step name (abort_requested "1") turned_again))
unfolding step turn try_run try_update enqueue abort remove new_run update update_service
    query_and_listen matches scoot.Base.insert scoot.Base.lookup scoot.Runner.Manager.of_runs
    scoot.Runner.Manager.unheard scoot.Runner.Manager.heard scoot.Runner.Query.query_matches
cancels = refl

step-refines_example :
    Moves (abort_requested "1") turned_again (or_new (step name (abort_requested "1") turned_again))
step-refines_example =
    step-refines name (abort_requested "1") turned_again
      (or_new (step name (abort_requested "1") turned_again))
      (steps-IsValid name 2 (two_in ++ (turned ∷ [])) turned_again turned_run) cancels

abbrev at_ease : List Event
at_ease = ready ∷ turned ∷ []

ease_run : steps name at_ease (new_queue_runner 2) ≡ some (after at_ease)
unfolding step turn try_run try_update enqueue abort remove new_run update update_service
    query_and_listen matches scoot.Base.insert scoot.Base.lookup scoot.Runner.Manager.of_runs
    scoot.Runner.Manager.unheard scoot.Runner.Manager.heard scoot.Runner.Query.query_matches
ease_run = refl

ease_waits : (after at_ease).phase ≡ waiting
unfolding step turn try_run try_update enqueue abort remove new_run update update_service
    query_and_listen matches scoot.Base.insert scoot.Base.lookup scoot.Runner.Manager.of_runs
    scoot.Runner.Manager.unheard scoot.Runner.Manager.heard scoot.Runner.Query.query_matches
ease_waits = refl

ease_free : is_free (after at_ease).watcher (after at_ease).updater ≡ true
unfolding step turn try_run try_update enqueue abort remove new_run update update_service
    query_and_listen matches scoot.Base.insert scoot.Base.lookup scoot.Runner.Manager.of_runs
    scoot.Runner.Manager.unheard scoot.Runner.Manager.heard scoot.Runner.Query.query_matches
ease_free = refl

steps-IsAwake_example : ((after at_ease).queue ≡ []) × ((after at_ease).update_requested ≡ false)
steps-IsAwake_example = steps-IsAwake name 2 at_ease (after at_ease) ease_run ease_waits ease_free

two_top : (after two_in).phase ≡ top
unfolding step turn try_run try_update enqueue abort remove new_run update update_service
    query_and_listen matches scoot.Base.insert scoot.Base.lookup scoot.Runner.Manager.of_runs
    scoot.Runner.Manager.unheard scoot.Runner.Manager.heard scoot.Runner.Query.query_matches
two_top = refl

steps-drain_example :
    Drains name
      ((after two_in).started ++ waiting_of (after two_in).watcher (after two_in).queue)
      (after two_in)
steps-drain_example = steps-drain name 2 two_in (after two_in) two_run (inl two_top)
