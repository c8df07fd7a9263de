-- ===== src/Backtester/Filter.antt =====
-- The two branches of apps/backtester/backtest_ml.py differ by the filter only.
use exec_relay.Base.{
  ℕ, suc, ◌≡◌, refl, ap, ◌∙◌, Bool, true, false, not, ◌&&◌, ◌||◌, Option, none, some, List, [], ◌∷◌,
  All, Option-cases, inl, inr,
}
use exec_relay.Backtester.{
  BranchState, apply, Candle, RawSignal, ts_index, Comparison, compare_at, compare_signal,
  compare_all, run_comparison,
}
use exec_relay.Backtester.Decisions.{
  ℤ, Direction, long, short, same, holds, opposite, is_none, baseline_decision, is_one,
  is_minus_one, sig_dir, Decision, scored_decision, predict,
}

-- A score above the threshold decides as the baseline does.
scored_decision-passed :
    (d : Direction) (current : Option Direction)
    → scored_decision d true current ≡ baseline_decision d current
unfolding scored_decision baseline_decision holds opposite is_none same
scored_decision-passed d none = refl
scored_decision-passed long (some long) = refl
scored_decision-passed long (some short) = refl
scored_decision-passed short (some long) = refl
scored_decision-passed short (some short) = refl

predict-passed :
    (sig : ℤ) (current : Option Direction)
    → (is_one sig || is_minus_one sig) ≡ true
    → predict sig (some true) current ≡ baseline_decision (sig_dir sig) current
unfolding predict
predict-passed sig current e = rw e (scored_decision-passed (sig_dir sig) current)

and_not : (b : Bool) → (b && not b) ≡ false
and_not true = refl
and_not false = refl

-- A branch with the baseline's decision, which its filter did not block, and the baseline.
applied :
    {F : Type 0} (d : Direction) (decision : Decision) (index ts : ℕ) (price : Option F)
    (f u : BranchState F)
    → decision ≡ baseline_decision d f.current_position
    → f ≡ u
    → apply d decision
        ((baseline_decision d f.current_position).should_open && not decision.should_open)
        index
        ts
        price
        f
      ≡ apply d (baseline_decision d u.current_position) false index ts price u
applied d decision index ts price f u e h =
    rw (e, and_not (baseline_decision d f.current_position).should_open, h) refl

module _ {F X : Type 0} (build_at : ℕ → Option X) (filter_pass : X → ℤ → Option Bool)
    (candles : List (Candle F)) where
  compare_at-passed :
      (sig : RawSignal) (idx : ℕ) (feats : X) (run : Comparison F)
      → build_at idx ≡ some feats
      → filter_pass feats sig.direction ≡ some true
      → (is_one sig.direction || is_minus_one sig.direction) ≡ true
      → run.filtered ≡ run.unfiltered
      → (let after = compare_at build_at filter_pass candles sig idx run in
          after.filtered ≡ after.unfiltered)
  unfolding compare_at
  compare_at-passed sig idx feats run built passed valid h =
      rw (built, compare_at)
        (applied (sig_dir sig.direction) _ (suc idx) _ _ run.filtered run.unfiltered
          (ap (λ p. predict sig.direction p run.filtered.current_position) passed
            ∙ predict-passed sig.direction run.filtered.current_position valid)
          h)

  -- The direction is 1 or -1, and the candle of the signal, if there is one, has its features, with a
  -- score above the threshold.
  abbrev pub IsPassed : RawSignal → Type 0
  IsPassed sig =
      ((is_one sig.direction || is_minus_one sig.direction) ≡ true)
      × ((idx : ℕ)
          → ts_index 0 candles sig.timestamp ≡ some idx
          → (feats : X) × (build_at idx ≡ some feats)
            × (filter_pass feats sig.direction ≡ some true))

  compare_signal-passed :
      (sig : RawSignal) (run : Comparison F)
      → IsPassed sig
      → run.filtered ≡ run.unfiltered
      → (let after = compare_signal build_at filter_pass candles sig run in
          after.filtered ≡ after.unfiltered)
  unfolding compare_signal
  compare_signal-passed sig run (valid, scores) h =
      elim (Option-cases (ts_index 0 candles sig.timestamp)) [
        | inl e ↦ rw (e, compare_signal) h
        | inr (idx, e) ↦
            let (feats, built, passed) = scores idx e in
            rw (e, compare_signal) (compare_at-passed sig idx feats run built passed valid h)
      ]

  compare_all-passed :
      (signals : List RawSignal) (run : Comparison F)
      → All IsPassed signals
      → run.filtered ≡ run.unfiltered
      → (let after = compare_all build_at filter_pass candles signals run in
          after.filtered ≡ after.unfiltered)
  unfolding compare_all
  compare_all-passed [] run passed h = h
  compare_all-passed (sig ∷ signals) run (one, passed) h =
      compare_all-passed signals _ passed (compare_signal-passed sig run one h)

  -- When every signal has direction 1 or -1 and falls outside the candles or on one that has its features
  -- and a score above the threshold, the filtered branch ends in the state of the unfiltered one. Nothing
  -- is asked of the candles without a signal, such as those of the warm-up.
  pub run_comparison-passed :
      (signals : List RawSignal)
      → All IsPassed signals
      → (let run = run_comparison build_at filter_pass candles signals in
          run.filtered ≡ run.unfiltered)
  unfolding run_comparison
  run_comparison-passed signals passed = compare_all-passed signals _ passed refl
