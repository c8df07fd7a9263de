-- ===== src/Backtester/Decisions.antt =====
-- The decisions of apps/backtester/backtest_ml.py and of xgb_predictor.py beside it.
use exec_relay.Base.{ℕ, Bool, true, false, not, ◌&&◌, ◌||◌, Option, none, some, ◌==◌, if◌then◌else◌}

-- A whole number: n, or -(n + 1).
pub data ℤ : Type 0 where
  pos negsuc : ℕ → ℤ

pub data Direction : Type 0 where
  long short : Direction

unfoldable pub same : Direction → Direction → Bool
same long long = true
same long short = false
same short long = false
same short short = true

-- current_position == sig_dir
unfoldable pub holds : Option Direction → Direction → Bool
unfolding same
holds none d = false
holds (some c) d = same c d

unfoldable pub opposite : Option Direction → Direction → Bool
unfolding same
opposite none d = false
opposite (some c) d = not (same c d)

unfoldable pub is_none : {A : Type 0} → Option A → Bool
is_none none = true
is_none (some a) = false

pub record Decision : Type 0 where
  pub should_close : Bool
  pub should_open : Bool
  pub open_direction : Option Direction

-- _baseline_decision(sig_dir, current_position)
unfoldable pub baseline_decision : Direction → Option Direction → Decision
unfolding holds opposite is_none
baseline_decision sig_dir current =
    let should_close = opposite current sig_dir in
    let will_be_flat = is_none current || should_close in
    let should_open = not (holds current sig_dir) && will_be_flat in
    record {
      should_close = should_close;
      should_open = should_open;
      open_direction = if should_open then some sig_dir else none;
    }

-- direction == 1
unfoldable pub is_one : ℤ → Bool
is_one (pos n) = n == 1
is_one (negsuc n) = false

unfoldable pub is_minus_one : ℤ → Bool
is_minus_one (pos n) = false
is_minus_one (negsuc n) = n == 0

unfoldable pub sig_dir : ℤ → Direction
unfolding is_one
sig_dir d = if is_one d then long else short

-- The result that predict starts from, and that stands when an exception is caught
abbrev pub no_decision : Decision
no_decision = record { should_close = false; should_open = false; open_direction = none }

-- The logic of predict behind the score
unfoldable pub scored_decision : Direction → Bool → Option Direction → Decision
unfolding holds opposite is_none
scored_decision d pass current =
    let should_close = opposite current d in
    let will_be_flat = is_none current || should_close in
    let should_open = if holds current d then false else will_be_flat && pass in
    record {
      should_close = should_close;
      should_open = should_open;
      open_direction = if should_open then some d else none;
    }

-- XGBPredictor.predict(payload, current_position), where `filter_pass` is prob > threshold, none
-- where scoring the features raises
unfoldable pub predict : ℤ → Option Bool → Option Direction → Decision
unfolding is_one is_minus_one sig_dir scored_decision
predict direction filter_pass current =
    if not (is_one direction || is_minus_one direction) then no_decision else elim filter_pass [
      | none ↦ no_decision
      | some pass ↦ scored_decision (sig_dir direction) pass current
    ]
