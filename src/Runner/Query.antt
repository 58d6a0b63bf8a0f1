-- ===== src/Runner/Query.antt =====
-- runner/status_rw.go: sets of states as bit masks, and queries.
use Prim.Native.Nat.{◌^◌}
use scoot.Base.{
  ℕ, ◌-◌, bit_and, bit_or, String, Bool, true, false, not, List, [], ◌∷◌, ◌==◌, str_eq,
  if◌then◌else◌, ◌≡◌, refl, ◌||◌, arith,
}
use scoot.Runner.Status.{
  RunState, unknown, pending, preparing, running, complete, failed, aborted, timedout, badrequest,
  is_done, RunStatus,
}

-- `int(state)`, by iota.
abbrev pub index : RunState → ℕ
index unknown = 0
index pending = 1
index preparing = 2
index running = 3
index complete = 4
index failed = 5
index aborted = 6
index timedout = 7
index badrequest = 8

-- `1 << uint(state)`.
abbrev pub bit : RunState → ℕ
bit state = 2 ^ index state

abbrev pub done_mask : ℕ
done_mask = bit_or (bit complete) (
    bit_or (bit failed)
      (bit_or (bit aborted) (bit_or (bit timedout) (bit_or (bit unknown) (bit badrequest)))))

-- math.MaxUint64.
abbrev pub all_mask : ℕ
all_mask = 2 ^ 64 - 1

abbrev or_all : ℕ → List RunState → ℕ
or_all mask [] = mask
or_all mask (s ∷ states) = or_all (bit_or mask (bit s)) states

abbrev pub mask_for_state : List RunState → ℕ
mask_for_state states = or_all 0 states

-- A StateMask's Matches.
unfoldable pub matches : ℕ → RunState → Bool
matches mask state = not (bit_and (mask_for_state (state ∷ [])) mask == 0)

pub record Query : Type 0 where
  pub runs : List String
  pub all_runs : Bool
  pub states : ℕ

abbrev pub has_run : List String → String → Bool
has_run [] run_id = false
has_run (id ∷ ids) run_id = str_eq id run_id || has_run ids run_id

-- A Query's Matches.
unfoldable pub query_matches : Query → RunStatus → Bool
query_matches q st =
    if not (matches q.states st.state)
    then false
    else (if q.all_runs then true else has_run q.runs st.run_id)

-- DONE_MASK has exactly the states that IsDone calls done, ALL_MASK has every state, and the mask of
-- one state has that state alone.
pub matches_masks :
    (state other : RunState)
    → (matches done_mask state ≡ is_done state)
      × (matches all_mask state ≡ true)
      × (matches (mask_for_state (other ∷ [])) state ≡ (index other == index state))
unfolding matches
matches_masks unknown other = (refl, refl, ground arith)
matches_masks pending other = (refl, refl, ground arith)
matches_masks preparing other = (refl, refl, ground arith)
matches_masks running other = (refl, refl, ground arith)
matches_masks complete other = (refl, refl, ground arith)
matches_masks failed other = (refl, refl, ground arith)
matches_masks aborted other = (refl, refl, ground arith)
matches_masks timedout other = (refl, refl, ground arith)
matches_masks badrequest other = (refl, refl, ground arith)
