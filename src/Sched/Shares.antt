-- ===== src/Sched/Shares.antt =====
-- getTaskAssignments of sched/scheduler/task_scheduler.go: how many tasks of each job are given nodes. An array
-- indexed by priority is a function. Go's float32 is the parameter `F`; the counts of a job that are only
-- logged are left out.
pub mod Tasks
pub mod Counts
pub mod Waiting
pub mod Loops
pub mod Once
pub mod Required
pub mod Rounds
pub mod Groups
pub mod Progress
pub mod Assigned
use scoot.Base.{
  ℕ, zero, suc, ◌+◌, ◌-◌, min, max, String, Bool, true, false, not, ◌&&◌, ◌||◌, Option, none, some,
  List, [], ◌∷◌, ◌++◌, map, str_eq, ltb, leb, ◌==◌, length, take, drop, ℤ, pos, negsuc, ◌+ℤ◌, ◌-ℤ◌,
  pos_part, Dict, lookup, insert, keys, is_some, if◌then◌else◌,
}
use scoot.Sched.Definitions.{Job}
use scoot.Sched.Jobs.{TaskState, JobState, get_un_scheduled_tasks}
use scoot.Sched.Nodes.{ClusterState, NodeGroup, num_free}
use scoot.Sched.Assign.{Task, TaskAssignment, assign}

-- Go's float32, as far as the shares need it. `decimal m k` is the literal m · 10⁻ᵏ, and `ceil` is
-- int(math.Ceil(float64(x))).
pub record Float32 : Type 1 where
  pub Float : Type 0
  pub of_int : ℕ → Float
  pub decimal : ℕ → ℕ → Float
  pub mul : Float → Float → Float
  pub div : Float → Float → Float
  pub ceil : Float → ℕ

-- sched.P0, sched.P1, sched.P2.
pub data Priority : Type 0 where
  p0 p1 p2 : Priority

abbrev pub same : Priority → Priority → Bool
same p0 p0 = true
same p1 p1 = true
same p2 p2 = true
same _ _ = false

-- The index of an array of three; any other panics.
abbrev pub priority_of : ℤ → Option Priority
priority_of (pos zero) = some p0
priority_of (pos (suc zero)) = some p1
priority_of (pos (suc (suc zero))) = some p2
priority_of _ = none

-- A *jobState with its Job.
pub record JobEntry : Type 0 where
  pub job : Job
  pub state : JobState

abbrev pub tag_of : JobEntry → String
tag_of j = j.job.def.tag

abbrev pub requestor_of : JobEntry → String
requestor_of j = j.job.def.requestor

-- remainingRequired and remainingOptional.
pub data Remaining : Type 0 where
  required optional : Remaining

abbrev pub same_remaining : Remaining → Remaining → Bool
same_remaining required required = true
same_remaining optional optional = true
same_remaining _ _ = false

abbrev pub Lists : Type 0
Lists = Remaining → Priority → List (List TaskState)

abbrev pub is_at : Remaining → Priority → Remaining → Priority → Bool
is_at k p l q = same_remaining k l && same p q

-- The array with new lists at one place.
abbrev pub set_at : Remaining → Priority → List (List TaskState) → Lists → Lists
set_at k p xs lists l q = if is_at k p l q then xs else lists l q

-- The jobs of one requestor and tag.
pub record Batch : Type 0 where
  pub num_tasks : ℕ
  pub num_running : ℤ
  pub unsched : List TaskState

-- What the loops change.
pub record Shares : Type 0 where
  pub num_free : ℕ
  pub tasks : List TaskState
  pub tags_seen : Dict (Dict Bool)
  pub remaining : Lists

abbrev pub joined : JobEntry → Batch → Batch
joined j b = record {
  num_tasks = b.num_tasks + length j.state.tasks;
  num_running = b.num_running +ℤ j.state.tasks_running;
  unsched = get_un_scheduled_tasks j.state.tasks ++ b.unsched;
}

-- The loop over the jobs of the requestor, which stops once there are enough tasks.
unfoldable pub gather : String → ℕ → List JobEntry → Batch → Batch
gather tag num_avail [] b = b
gather tag num_avail (j ∷ js) b =
    let here = joined j b in
    let more = gather tag num_avail js here in
    let others = gather tag num_avail js b in
    if str_eq (tag_of j) tag
    then (if leb num_avail (length here.unsched) then here else more)
    else others

abbrev pub no_batch : Batch
no_batch = record { num_tasks = 0; num_running = pos 0; unsched = [] }

abbrev pub tags_of : Option (Dict Bool) → Dict Bool
tags_of none = []
tags_of (some tags) = tags

abbrev pub is_seen : Dict (Dict Bool) → String → String → Bool
is_seen seen requestor tag = is_some (lookup tag (tags_of (lookup requestor seen)))

abbrev pub mark_seen : String → String → Dict (Dict Bool) → Dict (Dict Bool)
mark_seen requestor tag seen =
    insert requestor (insert tag true (tags_of (lookup requestor seen))) seen

-- `append(remaining[p], list)` under a test.
abbrev pub add_at : Bool → Remaining → Priority → List TaskState → Lists → Lists
add_at false k p xs lists = lists
add_at true k p xs lists = set_at k p (lists k p ++ (xs ∷ [])) lists

abbrev pub jobs_or_none : Option (List JobEntry) → List JobEntry
jobs_or_none none = []
jobs_or_none (some jobs) = jobs

abbrev pub is_nil {ℓ} : {A : Type ℓ} → List A → Bool
is_nil [] = true
is_nil (x ∷ xs) = false

-- One list of `taskLists`; a list that is used up is removed.
abbrev pub put_back : ℕ → List TaskState → List (List TaskState) → List (List TaskState)
put_back n l left = if n == 0 || not (is_nil (drop n l)) then drop n l ∷ left else left

-- The loop over `taskLists`: the lists that are left, the free nodes that are left, and the tasks taken.
unfoldable pub serve : ℕ → List (List TaskState) → ℕ → List (List TaskState) × ℕ × List TaskState
serve quota [] free = ([], free, [])
serve quota (l ∷ ls) free =
    let n = min free (min quota (length l)) in
    let (left, rest, taken) = serve quota ls (free - n) in
    (put_back n l left, rest, take n l ++ taken)

-- A group's tasks: those that get free nodes, and those that are left.
unfoldable pub share : (ℕ → Priority → ℕ) → Priority → Batch → Shares → Shares
share scaled_tasks p b s =
    let desired = min (length b.unsched) (scaled_tasks b.num_tasks p) in
    let wanted = pos desired -ℤ b.num_running in
    let unmet = pos_part (wanted -ℤ pos s.num_free) in
    let schedulable = min s.num_free (pos_part wanted) in
    record {
      num_free = s.num_free - min s.num_free schedulable;
      tasks = s.tasks ++ take schedulable b.unsched;
      tags_seen = s.tags_seen;
      remaining =
          add_at (ltb (schedulable + unmet) (length b.unsched)) optional p
            (drop (schedulable + unmet) b.unsched)
            (add_at (ltb 0 unmet) required p (take unmet (drop schedulable b.unsched)) s.remaining);
    }

-- The quota of a round: by NodeScaleAdjustment, or all of the free nodes.
pub data Quota : Type 0 where
  adjusted full : Quota

-- A place of LoopRemaining: one priority of one round.
abbrev pub Place : Type 0
Place = Remaining × Quota × Priority

abbrev pub round : Remaining → Quota → List Place
round k q = (k, q, p2) ∷ (k, q, p1) ∷ (k, q, p0) ∷ []

abbrev pub required_rounds : List Place
required_rounds = round required adjusted ++ round required full

abbrev pub optional_rounds : List Place
optional_rounds = round optional adjusted ++ round optional full

abbrev pub start : ℕ → Shares
start free = record { num_free = free; tasks = []; tags_seen = []; remaining = λ k p. [] }

abbrev pub served :
    Remaining → Priority → Shares → List (List TaskState) × ℕ × List TaskState → Shares
served k p s (left, free, taken) = record s {
  num_free = free;
  tasks = s.tasks ++ taken;
  remaining = set_at k p left s.remaining;
}

-- The jobs of each requestor, numScaledTasks of a number of tasks, and nodeQuota for the nodes that are free
-- when LoopRemaining begins and a number of lists.
module _ (requestors : Dict (List JobEntry)) (scaled_tasks : ℕ → Priority → ℕ)
    (node_quotas : ℕ → Quota → Priority → ℕ → ℕ) where
  -- A requestor's tag that was not seen before.
  abbrev pub visit_new : Priority → JobEntry → Shares → Shares
  visit_new p j s =
      let b =
        gather (tag_of j) s.num_free (jobs_or_none (lookup (requestor_of j) requestors)) no_batch in
      let marked = record s { tags_seen = mark_seen (requestor_of j) (tag_of j) s.tags_seen } in
      if is_nil b.unsched then marked else share scaled_tasks p b marked

  unfoldable pub visit_job : Priority → JobEntry → Shares → Shares
  visit_job p j s = if is_seen s.tags_seen (requestor_of j) (tag_of j) then s else visit_new p j s

  -- Loop.
  unfoldable pub visit : List (Priority × JobEntry) → Shares → Shares
  visit [] s = s
  visit ((p, j) ∷ jobs) s =
      let rest = visit jobs (visit_job p j s) in if s.num_free == 0 then s else rest

  unfoldable pub serve_at : ℕ → Place → Shares → Shares
  serve_at basis (k, q, p) s =
      served k p s
        (serve (node_quotas basis q p (length (s.remaining k p))) (s.remaining k p) s.num_free)

  -- LoopRemaining.
  unfoldable pub distribute : ℕ → List Place → Shares → Shares
  distribute basis [] s = s
  distribute basis (place ∷ places) s =
      let rest = distribute basis places (serve_at basis place s) in
      if s.num_free == 0 then s else rest

  -- The tasks that get nodes, for the jobs in the order in which they are visited.
  unfoldable pub select : List (Priority × JobEntry) → ℕ → Shares
  select jobs free =
      let s = visit jobs (start free) in
      distribute s.num_free (required_rounds ++ optional_rounds) s
