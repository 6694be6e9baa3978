-- ===== src/Sharding/Schedule.antt =====
-- crates/protocol/onx-sharding/src/pipeline.rs: when a transition may be announced and committed.
use the_open_network_x.Prelude.{
  ℕ, ◌+◌, ◌-◌, ◌*◌, Bool, true, false, not, ◌&&◌, ◌||◌, none, some, List, [], ◌∷◌, length, Result,
  ok, err, ltb, leb, ◌==◌, if◌then◌else◌,
}
use the_open_network_x.Prelude.Words.{u64_max, checked_add}
use the_open_network_x.Sharding.Tree.{
  ShardingError, announcement_sequence_violation, task_group_drift_exceeded,
}

abbrev pub prepare_lead_blocks : ℕ
prepare_lead_blocks = 8

abbrev pub split_load_window_blocks : ℕ
split_load_window_blocks = 256

abbrev pub merge_load_window_blocks : ℕ
merge_load_window_blocks = 1_024

pub data TransitionKind : Type 0 where
  split merge : TransitionKind

pub record LoadSample : Type 0 where
  pub block_bytes : ℕ
  pub gas_used : ℕ

unfoldable pub at_least_percent : ℕ → ℕ → ℕ → Bool
at_least_percent value limit percent = not (limit == 0) && leb (limit * percent) (value * 100)

unfoldable pub at_most_percent : ℕ → ℕ → ℕ → Bool
at_most_percent value limit percent = not (limit == 0) && leb (value * 100) (limit * percent)

-- The loops over the samples.
unfoldable pub all_at_least : List LoadSample → ℕ → ℕ → Bool
all_at_least [] byte_limit gas_limit = true
all_at_least (sample ∷ samples) byte_limit gas_limit =
    (at_least_percent sample.block_bytes byte_limit 75
      && at_least_percent sample.gas_used gas_limit 75)
    && all_at_least samples byte_limit gas_limit

unfoldable pub all_at_most : List LoadSample → ℕ → ℕ → Bool
all_at_most [] byte_limit gas_limit = true
all_at_most (sample ∷ samples) byte_limit gas_limit =
    (at_most_percent sample.block_bytes byte_limit 20
      && at_most_percent sample.gas_used gas_limit 20)
    && all_at_most samples byte_limit gas_limit

unfoldable pub split_trigger_met : List LoadSample → ℕ → ℕ → Bool
split_trigger_met samples byte_limit gas_limit =
    length samples == split_load_window_blocks && all_at_least samples byte_limit gas_limit

unfoldable pub merge_trigger_met : List LoadSample → ℕ → ℕ → Bool
merge_trigger_met samples byte_limit gas_limit =
    length samples == merge_load_window_blocks && all_at_most samples byte_limit gas_limit

-- The prepare is not exactly eight blocks old, or the sum overflows.
unfoldable pub is_mistimed : ℕ → ℕ → Bool
is_mistimed commit_height height = elim (checked_add u64_max height prepare_lead_blocks) [
  | none ↦ true
  | some expected ↦ not (expected == commit_height)
]

unfoldable pub any_mistimed : ℕ → List ℕ → Bool
any_mistimed commit_height [] = false
any_mistimed commit_height (height ∷ heights) =
    is_mistimed commit_height height || any_mistimed commit_height heights

abbrev pub expected_prepares : TransitionKind → ℕ
expected_prepares TransitionKind.split = 1
expected_prepares TransitionKind.merge = 2

abbrev pub abs_diff : ℕ → ℕ → ℕ
abs_diff a b = (a - b) + (b - a)

unfoldable pub validate_transition_commit :
    TransitionKind → List ℕ → ℕ → ℕ → ℕ → Result ShardingError (Unit {0})
validate_transition_commit kind prepare_heights commit_height announced_epoch commit_epoch =
    if not (length prepare_heights == expected_prepares kind)
      || any_mistimed commit_height prepare_heights
    then err announcement_sequence_violation
    else if ltb 1 (abs_diff announced_epoch commit_epoch)
    then err task_group_drift_exceeded
    else ok tt
