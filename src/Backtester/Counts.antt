-- ===== src/Backtester/Counts.antt =====
-- The counters of a branch of apps/backtester/backtest_ml.py fit its trades and its position.
use exec_relay.Base.{
  ℕ, zero, suc, ◌+◌, ◌≡◌, refl, sym, ◌∙◌, Bool, true, false, not, ◌&&◌, ◌||◌, Option, none, some,
  List, [], ◌∷◌, length, length-append, arith, Bool-cases, Option-cases, inl, inr, ◌⊎◌,
}
use exec_relay.Backtester.{
  update_at, Candle, Trade, BranchState, RawSignal, empty_branch, close_trade, open_new, apply,
  ts_index, Comparison, compare_at, compare_signal, compare_all, run_comparison,
}
use exec_relay.Backtester.Decisions.{
  ℤ, Direction, long, short, same, holds, opposite, is_none, Decision, baseline_decision, is_one,
  is_minus_one, sig_dir, no_decision, scored_decision, predict,
}

length-update_at :
    {A : Type 0} (n : ℕ) (f : A → A) (rows : List A) → length (update_at n f rows) ≡ length rows
unfolding update_at
length-update_at n f [] = refl
length-update_at zero f (a ∷ rows) = refl
length-update_at (suc n) f (a ∷ rows) = omega (arith, length-update_at n f rows)

-- A position and an open trade go together, the open trade is the last one that was opened, and all
-- the others are closed.
abbrev pub IsPlaced :
    (position : Option Direction) (open_trade : Option ℕ) (opened closed : ℕ) → Type 0
IsPlaced none none opened closed = opened ≡ closed
IsPlaced none (some i) opened closed = ⊥
IsPlaced (some d) none opened closed = ⊥
IsPlaced (some d) (some i) opened closed = (opened ≡ suc closed) × (opened ≡ suc i)

-- Every signal opened a trade, met a position of its own direction or was stopped by the filter.
pub record IsCounted {F : Type 0} (st : BranchState F) : Type 0 where
  pub seen : st.signals_seen ≡ st.opened + st.skipped_pyramid + st.skipped_filter
  pub traded : length st.trades ≡ st.opened
  pub placed : IsPlaced st.current_position st.open_trade st.opened st.closed

-- A decision for a position: nothing in a position of the signal's direction, no entry that the filter
-- stopped, or an entry from no position or with a close.
abbrev pub IsFit : Direction → Decision → Bool → Option Direction → Type 0
IsFit d decision blocked current =
    ((holds current d ≡ true) × (decision.should_close ≡ false) × (decision.should_open ≡ false))
    ⊎ ((holds current d ≡ false) × (decision.should_open ≡ false) × (blocked ≡ true))
    ⊎ ((o : Direction) × (decision.should_open ≡ true)
        × (decision.open_direction ≡ some o)
        × ((is_none current || decision.should_close) ≡ true))

baseline_decision-IsFit :
    (d : Direction) (current : Option Direction)
    → IsFit d (baseline_decision d current) false current
unfolding baseline_decision holds opposite is_none same
baseline_decision-IsFit d none = inr (inr (d, refl, refl, refl))
baseline_decision-IsFit long (some long) = inl (refl, refl, refl)
baseline_decision-IsFit long (some short) = inr (inr (long, refl, refl, refl))
baseline_decision-IsFit short (some long) = inr (inr (short, refl, refl, refl))
baseline_decision-IsFit short (some short) = inl (refl, refl, refl)

abbrev pub blocked_by : Direction → Option Direction → Decision → Bool
blocked_by d current decision =
    (baseline_decision d current).should_open && not decision.should_open

no_decision-IsFit :
    (d : Direction) (current : Option Direction)
    → IsFit d no_decision (blocked_by d current no_decision) current
unfolding baseline_decision holds opposite is_none same
no_decision-IsFit d none = inr (inl (refl, refl, refl))
no_decision-IsFit long (some long) = inl (refl, refl, refl)
no_decision-IsFit long (some short) = inr (inl (refl, refl, refl))
no_decision-IsFit short (some long) = inr (inl (refl, refl, refl))
no_decision-IsFit short (some short) = inl (refl, refl, refl)

scored_decision-IsFit :
    (d : Direction) (pass : Bool) (current : Option Direction)
    → IsFit d
        (scored_decision d pass current)
        (blocked_by d current (scored_decision d pass current))
        current
unfolding scored_decision baseline_decision holds opposite is_none same
scored_decision-IsFit d true none = inr (inr (d, refl, refl, refl))
scored_decision-IsFit d false none = inr (inl (refl, refl, refl))
scored_decision-IsFit long pass (some long) = inl (refl, refl, refl)
scored_decision-IsFit long true (some short) = inr (inr (long, refl, refl, refl))
scored_decision-IsFit long false (some short) = inr (inl (refl, refl, refl))
scored_decision-IsFit short true (some long) = inr (inr (short, refl, refl, refl))
scored_decision-IsFit short false (some long) = inr (inl (refl, refl, refl))
scored_decision-IsFit short pass (some short) = inl (refl, refl, refl)

predict-IsFit :
    (sig : ℤ) (filter_pass : Option Bool) (current : Option Direction)
    → (let decision = predict sig filter_pass current in
        IsFit (sig_dir sig) decision (blocked_by (sig_dir sig) current decision) current)
unfolding predict
predict-IsFit sig filter_pass current = elim (Bool-cases (not (is_one sig || is_minus_one sig))) [
  | inl e ↦ rw e (no_decision-IsFit (sig_dir sig) current)
  | inr e ↦ rw e (by_score filter_pass)
]
  where
    by_score :
        (score : Option Bool)
        → (let decision : Decision = elim score [
          | none ↦ no_decision
          | some pass ↦ scored_decision (sig_dir sig) pass current
        ] in
            IsFit (sig_dir sig) decision (blocked_by (sig_dir sig) current decision) current)
    by_score none = no_decision-IsFit (sig_dir sig) current
    by_score (some pass) = scored_decision-IsFit (sig_dir sig) pass current

Bool-and_false : (b : Bool) → (b && false) ≡ false
Bool-and_false true = refl
Bool-and_false false = refl

module _ {F : Type 0} where
  -- Closing a trade counts it, and leaves no position when a close was due.
  close_trade-IsCounted :
      (shut : Bool) (index ts : ℕ) (price : Option F) (st : BranchState F)
      → length st.trades ≡ st.opened
      → IsPlaced st.current_position st.open_trade st.opened st.closed
      → let after = close_trade shut index ts price st in
        (after.signals_seen ≡ st.signals_seen)
        × (after.opened ≡ st.opened)
        × (after.skipped_pyramid ≡ st.skipped_pyramid)
        × (after.skipped_filter ≡ st.skipped_filter)
        × (length after.trades ≡ after.opened)
        × IsPlaced after.current_position after.open_trade after.opened after.closed
        × ((is_none st.current_position || shut) ≡ true → after.closed ≡ after.opened)
  unfolding close_trade is_none
  close_trade-IsCounted shut index ts price st h p =
      by_place shut st.current_position st.open_trade p
    where
      by_place :
          (shut : Bool) (position : Option Direction) (place : Option ℕ)
          → IsPlaced position place st.opened st.closed
          → let before = record st { current_position = position; open_trade = place } in
            let after = close_trade shut index ts price before in
            (after.signals_seen ≡ st.signals_seen)
            × (after.opened ≡ st.opened)
            × (after.skipped_pyramid ≡ st.skipped_pyramid)
            × (after.skipped_filter ≡ st.skipped_filter)
            × (length after.trades ≡ after.opened)
            × IsPlaced after.current_position after.open_trade after.opened after.closed
            × ((is_none position || shut) ≡ true → after.closed ≡ after.opened)
      by_place shut none (some i) p = absurd p
      by_place shut (some d) none p = absurd p
      by_place true none none p = (refl, refl, refl, refl, h, p, λ e. sym p)
      by_place false none none p = (refl, refl, refl, refl, h, p, λ e. sym p)
      by_place false (some d) (some i) p = (refl, refl, refl, refl, h, p, λ e. cc)
      by_place true (some d) (some i) p = (
        refl,
        refl,
        refl,
        refl,
        length-update_at i _ st.trades ∙ h,
        omega (arith, p),
        λ e. omega (arith, p),
      )

  apply-IsCounted :
      (d : Direction) (decision : Decision) (blocked : Bool) (index ts : ℕ) (price : Option F)
      (st : BranchState F)
      → IsFit d decision blocked st.current_position
      → IsCounted st
      → IsCounted (apply d decision blocked index ts price st)
  unfolding apply open_new
  apply-IsCounted d decision blocked index ts price st fit h =
      let seen : BranchState F = record st { signals_seen = st.signals_seen + 1 } in
      let (a, b, c, e, f, g, k) =
        close_trade-IsCounted decision.should_close index ts price seen h.traded h.placed in
      elim fit [
        | inl (held, shut, stays) ↦
            rw (stays, shut, held)
              record { seen = omega (arith, h.seen); traded = h.traded; placed = h.placed }
        | inr (inl (other, stays, stopped)) ↦
            rw (stays, stopped, other, Bool-and_false (not decision.should_close))
              record { seen = omega (arith, h.seen, a, b, c, e); traded = f; placed = g }
        | inr (inr (o, opens, direction, due)) ↦
            rw (opens, direction)
              record {
                seen = omega (arith, h.seen, a, b, c, e);
                traded = omega (arith, length-append {A = Trade F}, f);
                placed = (omega (arith, k due), omega (arith, f));
              }
      ]

module _ {F X : Type 0} (build_at : ℕ → Option X) (filter_pass : X → ℤ → Option Bool)
    (candles : List (Candle F)) where
  -- Both branches are counted.
  abbrev pub IsBooked : Comparison F → Type 0
  IsBooked run = IsCounted run.unfiltered × IsCounted run.filtered

  compare_at-IsBooked :
      (sig : RawSignal) (idx : ℕ) (run : Comparison F)
      → IsBooked run
      → IsBooked (compare_at build_at filter_pass candles sig idx run)
  unfolding compare_at
  compare_at-IsBooked sig idx run (u, f) =
      let base =
        apply-IsCounted (sig_dir sig.direction) _ false _ _ _ run.unfiltered
          (baseline_decision-IsFit _ _) u in
      elim (Option-cases (build_at idx)) [
        | inl e ↦ rw (e, compare_at) (base, f)
        | inr (feats, e) ↦
            rw (e, compare_at)
              (
                base,
                apply-IsCounted (sig_dir sig.direction) _ _ _ _ _ run.filtered
                    (predict-IsFit sig.direction (filter_pass feats sig.direction) _) f,
              )
      ]

  compare_all-IsBooked :
      (signals : List RawSignal) (run : Comparison F)
      → IsBooked run
      → IsBooked (compare_all build_at filter_pass candles signals run)
  unfolding compare_all compare_signal
  compare_all-IsBooked [] run h = h
  compare_all-IsBooked (sig ∷ signals) run h = compare_all-IsBooked signals _ (one sig run h)
    where
      one :
          (sig : RawSignal) (run : Comparison F)
          → IsBooked run
          → IsBooked (compare_signal build_at filter_pass candles sig run)
      one sig run h = elim (Option-cases (ts_index 0 candles sig.timestamp)) [
        | inl e ↦ rw (e, compare_signal) h
        | inr (idx, e) ↦ rw (e, compare_signal) (compare_at-IsBooked sig idx run h)
      ]

  -- After a run, in each branch, every signal seen opened a trade, met a position of its own direction
  -- or was stopped by the filter; as many trades are kept as were opened; and either there is a position,
  -- the open trade is the last one and one more was opened than closed, or there is neither and as many
  -- were closed as opened.
  pub run_comparison-IsCounted :
      (signals : List RawSignal)
      → let run = run_comparison build_at filter_pass candles signals in
        IsCounted run.unfiltered × IsCounted run.filtered
  unfolding run_comparison
  run_comparison-IsCounted signals =
      let start : IsCounted {F = F} empty_branch = record {
        seen = refl;
        traded = refl;
        placed = refl;
      } in
      compare_all-IsBooked signals _ (start, start)
