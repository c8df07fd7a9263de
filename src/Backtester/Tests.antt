-- ===== src/Backtester/Tests.antt =====
-- A comparison run over three candles, with whole numbers for prices.
use exec_relay.Base.{
  map, none, some, ℕ, zero, suc, sym, ap, if◌then◌else◌, ◌+◌, ◌-◌, ◌*◌, ◌/◌, ◌==◌, ltb, ◌≡◌, refl,
  Bool, true, Option, some, List, [], ◌∷◌, ◌++◌, arith,
}
use mathlib.Core.Option.{some-injective}
use exec_relay.Backtester.Decisions.{
  ℤ, pos, negsuc, sig_dir, is_one, is_minus_one, baseline_decision, predict, scored_decision, holds,
  opposite, same, is_none,
}
use exec_relay.Backtester.{
  Candle, RawSignal, run_comparison, compare_all, compare_signal, compare_at, ts_index, get_elem?,
  apply, open_new, close_trade, update_at,
}
use exec_relay.Backtester.Counts.{IsCounted, run_comparison-IsCounted}
use exec_relay.Backtester.Filter.{IsPassed, run_comparison-passed}
use exec_relay.Backtester.Indicators.{Numbers, atr, dmi, align, stdev}
use exec_relay.Backtester.Features.{assembled, build, build_at, returns}
use exec_relay.Backtester.Rows.{Calendar, Builder}
use exec_relay.Backtester.Features.Lookahead.{build_at-no_lookahead}

abbrev candle : ℕ → ℕ → Candle ℕ
candle at price = record {
  timestamp = at;
  open_price = price;
  high = price;
  low = price;
  close = price;
}

abbrev candles : List (Candle ℕ)
candles = candle 1 10 ∷ candle 2 12 ∷ candle 3 11 ∷ []

abbrev buy : ℕ → RawSignal
buy at = record { timestamp = at; direction = pos 1 }

abbrev sell : ℕ → RawSignal
sell at = record { timestamp = at; direction = negsuc 0 }

abbrev signals : List RawSignal
signals = buy 1 ∷ sell 3 ∷ buy 7 ∷ []

abbrev features : ℕ → Option ℕ
features idx = some idx

abbrev passes : ℕ → ℤ → Option Bool
passes feats direction = some true

run_comparison-IsCounted_example :
    let run = run_comparison features passes candles signals in
    IsCounted run.unfiltered × IsCounted run.filtered
run_comparison-IsCounted_example = run_comparison-IsCounted features passes candles signals

-- A builder without features at the first candle, for the warm-up, and behind the last one.
abbrev warm_features : ℕ → Option ℕ
warm_features zero = none
warm_features (suc idx) = if ltb idx 2 then some idx else none

abbrev warm_signals : List RawSignal
warm_signals = buy 2 ∷ sell 3 ∷ buy 7 ∷ []

run_comparison-passed_example :
    let run = run_comparison warm_features passes candles warm_signals in
    run.filtered ≡ run.unfiltered
run_comparison-passed_example =
    run_comparison-passed warm_features passes candles warm_signals
      (at_second, (at_third, (beside, tt)))
  where
    at_second : IsPassed warm_features passes candles (buy 2)
    at_second =
        unfold is_one is_minus_one ts_index in
        (refl, λ idx e. (0, ap warm_features (sym (some-injective _ _ e)), refl))

    at_third : IsPassed warm_features passes candles (sell 3)
    at_third =
        unfold is_one is_minus_one ts_index in
        (refl, λ idx e. (1, ap warm_features (sym (some-injective _ _ e)), refl))

    beside : IsPassed warm_features passes candles (buy 7)
    beside = unfold is_one is_minus_one ts_index in (refl, λ idx e. absurd (cc e))

instance nat_numbers : Numbers ℕ
nat_numbers = record {
  of_nat = λ n. n;
  add = λ a b. a + b;
  sub = λ a b. a - b;
  mul = λ a b. a * b;
  div = λ a b. a / b;
  abs = λ a. a;
  root = λ a. a;
  lt = ltb;
  is_zero = λ a. a == 0;
  same = λ a b. a == b;
}

abbrev calendar : Calendar
calendar = record { hour = λ t. t; minute = λ t. 0; month = λ t. 1; weekday = λ t. 0 }

abbrev blank : List (Option ℕ)
blank = none ∷ none ∷ none ∷ none ∷ none ∷ none ∷ []

abbrev built : Builder ℕ
built =
    assembled 2 2 (candles ++ candles) blank
      (record { plus_di = blank; minus_di = blank; adx = blank }) blank blank

is_built : build 2 2 (candles ++ candles) ≡ some built
unfolding build atr dmi returns align stdev nat_numbers
is_built = refl

build_at-no_lookahead_example :
    (a : Builder ℕ) × (build 2 2 candles ≡ some a)
    × (build_at calendar 2 2 built 1 ≡ build_at calendar 2 2 a 1)
build_at-no_lookahead_example =
    build_at-no_lookahead 1 1 1 candles candles (omega arith) calendar built is_built

-- A trade that is closed by a signal of the last candle is counted as closed and has no exit price.
closed_without_price :
    let run = run_comparison features passes candles signals in
    (run.unfiltered.closed ≡ 1)
    × (map (λ t. t.exit_index) run.unfiltered.trades ≡ some 3 ∷ none ∷ [])
    × (map (λ t. t.exit_price) run.unfiltered.trades ≡ none ∷ none ∷ [])
unfolding run_comparison compare_all compare_signal compare_at ts_index get_elem? sig_dir is_one
    is_minus_one baseline_decision predict scored_decision apply open_new close_trade update_at
    holds opposite same is_none
closed_without_price = (refl, refl, refl)
