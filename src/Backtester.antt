-- ===== src/Backtester.antt =====
-- The comparison run of apps/backtester/backtest_ml.py. Prices are a type F, times are numbers. The
-- features of a candle and the test of the model's score against the threshold are parameters.
pub mod Decisions
pub mod Counts
pub mod Filter
pub mod Bins
pub mod Indicators
pub mod Rows
pub mod Features
pub mod Tests
use exec_relay.Base.{
  ℕ, zero, suc, ◌+◌, ◌*◌, Bool, true, false, not, ◌&&◌, ◌||◌, Option, none, some, List, [], ◌∷◌,
  ◌++◌, ◌==◌, ltb, length, if◌then◌else◌,
}
use exec_relay.Backtester.Decisions.{
  Decision, Direction, baseline_decision, holds, is_minus_one, is_none, is_one, long, negsuc,
  no_decision, opposite, pos, predict, same, scored_decision, short, sig_dir, ℤ,
}

unfoldable pub get_elem? : {A : Type 0} → List A → ℕ → Option A
get_elem? [] n = none
get_elem? (a ∷ rows) zero = some a
get_elem? (a ∷ rows) (suc n) = get_elem? rows n

unfoldable pub update_at : {A : Type 0} → ℕ → (A → A) → List A → List A
update_at n f [] = []
update_at zero f (a ∷ rows) = f a ∷ rows
update_at (suc n) f (a ∷ rows) = a ∷ update_at n f rows

module _ (F : Type 0) where
  pub record Candle : Type 0 where
    pub timestamp : ℕ
    pub open_price : F
    pub high : F
    pub low : F
    pub close : F

  pub record Trade : Type 0 where
    pub direction : Direction
    pub entry_index : ℕ
    pub entry_time : ℕ
    pub entry_price : Option F
    pub exit_index : Option ℕ
    pub exit_time : Option ℕ
    pub exit_price : Option F

  pub record BranchState : Type 0 where
    pub current_position : Option Direction
    -- the place in `trades` of the trade that both refer to
    pub open_trade : Option ℕ
    pub trades : List Trade
    pub signals_seen : ℕ
    pub opened : ℕ
    pub closed : ℕ
    pub skipped_pyramid : ℕ
    pub skipped_filter : ℕ

pub record RawSignal : Type 0 where
  pub timestamp : ℕ
  pub direction : ℤ

module _ {F : Type 0} where
  abbrev pub empty_branch : BranchState F
  empty_branch = record {
    current_position = none;
    open_trade = none;
    trades = [];
    signals_seen = 0;
    opened = 0;
    closed = 0;
    skipped_pyramid = 0;
    skipped_filter = 0;
  }

  -- if should_close and self.open_trade is not None: …
  unfoldable pub close_trade : Bool → ℕ → ℕ → Option F → BranchState F → BranchState F
  unfolding update_at
  close_trade false index ts price st = st
  close_trade true index ts price st = elim st.open_trade [
    | none ↦ st
    | some i ↦ record st {
      trades =
          update_at i
            (λ t. record t { exit_index = some index; exit_time = some ts; exit_price = price })
            st.trades;
      closed = st.closed + 1;
      open_trade = none;
      current_position = none;
    }
  ]

  unfoldable pub open_new : Direction → ℕ → ℕ → Option F → BranchState F → BranchState F
  open_new d index ts price st = record st {
    open_trade = some (length st.trades);
    trades =
        st.trades
        ++ record {
          direction = d;
          entry_index = index;
          entry_time = ts;
          entry_price = price;
          exit_index = none;
          exit_time = none;
          exit_price = none;
        }
          ∷ [];
    current_position = some d;
    opened = st.opened + 1;
  }

  -- BranchState.apply(sig_dir, …)
  unfoldable pub apply :
      Direction → Decision → Bool → ℕ → ℕ → Option F → BranchState F → BranchState F
  unfolding close_trade open_new holds
  apply d decision blocked index ts price st =
      let seen = record st { signals_seen = st.signals_seen + 1 } in
      let shut = close_trade decision.should_close index ts price seen in
      let skipped =
        if not decision.should_close && holds st.current_position d
        then record shut { skipped_pyramid = shut.skipped_pyramid + 1 }
        else if blocked
        then record shut { skipped_filter = shut.skipped_filter + 1 }
        else shut in
      if decision.should_open
      then elim decision.open_direction [ none ↦ skipped | some o ↦ open_new o index ts price shut ]
      else skipped

  -- {c.timestamp: i for i, c in enumerate(candles)}.get(ts), from the place of the first candle on
  unfoldable pub ts_index : ℕ → List (Candle F) → ℕ → Option ℕ
  ts_index i [] ts = none
  ts_index i (c ∷ candles) ts = elim (ts_index (suc i) candles ts) [
    | some j ↦ some j
    | none ↦ if c.timestamp == ts then some i else none
  ]

pub record Comparison (F : Type 0) : Type 0 where
  pub unfiltered : BranchState F
  pub filtered : BranchState F
  pub scored : ℕ
  pub skipped_missing_candle : ℕ
  pub skipped_incomplete_features : ℕ

module _ {F X : Type 0} (build_at : ℕ → Option X) (filter_pass : X → ℤ → Option Bool)
    (candles : List (Candle F)) where
  -- The body of the loop behind the lookup of the candle
  unfoldable pub compare_at : RawSignal → ℕ → Comparison F → Comparison F
  unfolding sig_dir get_elem? baseline_decision predict apply
  compare_at sig idx run =
      let d = sig_dir sig.direction in
      let next = get_elem? candles (suc idx) in
      let price : Option F = elim next [ none ↦ none | some c ↦ some c.open_price ] in
      let ts : ℕ = elim next [ none ↦ sig.timestamp | some c ↦ c.timestamp ] in
      let base =
        apply d (baseline_decision d run.unfiltered.current_position) false (suc idx) ts price
          run.unfiltered in
      elim (build_at idx) [
        | none ↦ record run {
          unfiltered = base;
          skipped_incomplete_features = run.skipped_incomplete_features + 1;
        }
        | some feats ↦
            let current = run.filtered.current_position in
            let decision = predict sig.direction (filter_pass feats sig.direction) current in
            let blocked = (baseline_decision d current).should_open && not decision.should_open in
            record run {
              unfiltered = base;
              filtered = apply d decision blocked (suc idx) ts price run.filtered;
              scored = run.scored + 1;
            }
      ]

  unfoldable pub compare_signal : RawSignal → Comparison F → Comparison F
  unfolding ts_index compare_at
  compare_signal sig run = elim (ts_index 0 candles sig.timestamp) [
    | none ↦ record run { skipped_missing_candle = run.skipped_missing_candle + 1 }
    | some idx ↦ compare_at sig idx run
  ]

  unfoldable pub compare_all : List RawSignal → Comparison F → Comparison F
  unfolding compare_signal
  compare_all [] run = run
  compare_all (sig ∷ signals) run = compare_all signals (compare_signal sig run)

  -- run_comparison(candles, signals, predictor), less the statistics
  unfoldable pub run_comparison : List RawSignal → Comparison F
  unfolding compare_all
  run_comparison signals = compare_all signals (record {
    unfiltered = empty_branch;
    filtered = empty_branch;
    scored = 0;
    skipped_missing_candle = 0;
    skipped_incomplete_features = 0;
  })
