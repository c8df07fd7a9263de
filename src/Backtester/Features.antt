-- ===== src/Backtester/Features.antt =====
-- `FeatureBuilder` of apps/backtester/feature_builder.py: the rows that are computed once, and the
-- features of a candle. The parts of a time stamp are the standard library's.
pub mod Starts
pub mod Places
pub mod Lookahead
use exec_relay.Base.{
  ℕ, zero, suc, ◌+◌, ◌-◌, ◌*◌, ◌≡◌, refl, Bool, true, false, not, ◌&&◌, Option, none, some, List,
  [], ◌∷◌, map, ◌==◌, ltb, leb, if◌then◌else◌,
}
use exec_relay.Base.Text.{Text, codes}
use exec_relay.Backtester.{get_elem?, Candle}
use exec_relay.Backtester.Bins.{last_closed_bin, resample_closes}
use exec_relay.Backtester.Indicators.{
  Numbers, pairwise, align, sma, stdev, ema, rsi_from_closes, atr, Dmi, dmi, larger, smaller, ◌>>=◌,
}
use exec_relay.Backtester.Rows.{
  Builder, Calendar, Features, View, before, complete, defined_at, htf_before, incomplete,
  index_error, session, traverse,
}

module _ {F : Type 0} ⦃num : Numbers F⦄ where
  open num use {of_nat, add, sub, mul, div, is_zero, same}

  -- The entry of ret1 behind a previous close; `none` is the ZeroDivisionError.
  unfoldable pub change : F → F → Option F
  change prev close = if is_zero prev then none else some (div (sub close prev) prev)

  -- ret1[0] is None
  unfoldable pub or_undefined : Option (Option F) → Option (Option F)
  or_undefined none = some none
  or_undefined (some none) = none
  or_undefined (some (some r)) = some (some r)

  unfoldable pub returns : List F → Option (List (Option F))
  unfolding change or_undefined traverse pairwise
  returns closes = traverse or_undefined (pairwise change closes)

  unfoldable pub activity : Candle F → F
  activity c = if same c.high c.low then of_nat 0 else of_nat 1

  -- The attributes, from the rows that may have failed.
  unfoldable pub assembled :
      (h1 h4 : ℕ)
      → List (Candle F)
      → List (Option F)
      → Dmi F
      → List (Option F)
      → List (Option F)
      → Builder F
  unfolding activity sma ema stdev rsi_from_closes resample_closes
  assembled h1 h4 candles ranges moves vol72 vol288 =
      let closes = map (λ (c : Candle F). c.close) candles in
      record {
        candles = candles;
        closes = closes;
        ema9 = ema 9 closes;
        ema21 = ema 21 closes;
        ema50 = ema 50 closes;
        ema200 = ema 200 closes;
        atr14 = ranges;
        rsi14 = rsi_from_closes 14 closes;
        plus_di = moves.plus_di;
        minus_di = moves.minus_di;
        adx14 = moves.adx;
        sma20 = sma 20 closes;
        stdev20 = stdev 20 closes;
        vol72 = vol72;
        vol288 = vol288;
        active_bar = map activity candles;
        active_rate288 = sma 288 (map activity candles);
        h1_closes = resample_closes candles h1;
        h1_ema50 = ema 50 (resample_closes candles h1);
        h4_closes = resample_closes candles h4;
        h4_ema50 = ema 50 (resample_closes candles h4);
      }

  -- FeatureBuilder(candles, h1_factor, h4_factor); `none` is an exception
  unfoldable pub build : (h1 h4 : ℕ) → List (Candle F) → Option (Builder F)
  build h1 h4 candles = do
    ranges ← atr 14 candles
    moves ← dmi 14 candles
    ret1 ← returns (map (λ (c : Candle F). c.close) candles)
    vol72 ← align (stdev 72) ret1
    vol288 ← align (stdev 288) ret1
    some (assembled h1 h4 candles ranges moves vol72 vol288)

  unfoldable pub view : (h1 h4 : ℕ) → Builder F → ℕ → View F
  unfolding get_elem? defined_at before htf_before
  view h1 h4 b i = record {
    candle = get_elem? b.candles i;
    back = λ lag. before lag b.closes i;
    ema9 = get_elem? b.ema9 i;
    ema21 = get_elem? b.ema21 i;
    ema50 = get_elem? b.ema50 i;
    ema200 = get_elem? b.ema200 i;
    ema50_back = before 12 b.ema50 i;
    ema200_back = before 48 b.ema200 i;
    atr14 = defined_at b.atr14 i;
    rsi14 = defined_at b.rsi14 i;
    plus_di = defined_at b.plus_di i;
    minus_di = defined_at b.minus_di i;
    adx14 = defined_at b.adx14 i;
    sma20 = defined_at b.sma20 i;
    stdev20 = defined_at b.stdev20 i;
    vol72 = defined_at b.vol72 i;
    vol288 = defined_at b.vol288 i;
    active_bar = get_elem? b.active_bar i;
    active_rate288 = defined_at b.active_rate288 i;
    h1_close = htf_before 0 h1 b.h1_closes i;
    h1_ema50 = htf_before 0 h1 b.h1_ema50 i;
    h1_back = htf_before 24 h1 b.h1_closes i;
    h4_close = htf_before 0 h4 b.h4_closes i;
    h4_ema50 = htf_before 0 h4 b.h4_ema50 i;
  }

  -- x / y if y else None
  unfoldable pub ratio : F → F → Option F
  ratio x y = if is_zero y then none else some (div x y)

  -- (x - prev) / prev if prev else None
  unfoldable pub growth : F → Option F → Option F
  unfolding ratio
  growth x none = none
  growth x (some prev) = ratio (sub x prev) prev

  -- (x - y) / x if x else None
  unfoldable pub distance : Option F → Option F → Option F
  unfolding ratio
  distance x y = do x ← x; y ← y; ratio (sub x y) x

  unfoldable pub htf_growth : Option F → Option F → Option F
  unfolding growth
  htf_growth x prev = do x ← x; growth x prev

  -- `x / close`, if both are there
  unfoldable pub share : Option F → F → Option F
  unfolding ratio
  share x close = do x ← x; ratio x close

  unfoldable pub bb_z : F → Option F → Option F → Option F
  unfolding ratio
  bb_z close basis sd = do basis ← basis; sd ← sd; ratio (sub close basis) sd

  unfoldable pub bb_width : Option F → Option F → Option F
  unfolding ratio
  bb_width basis sd = do basis ← basis; sd ← sd; ratio (mul (of_nat 4) sd) basis

  -- `feats`, in its order.
  unfoldable pub feature_list : Calendar → Candle F → View F → List (Text × Option F)
  unfolding growth ratio share distance htf_growth bb_z bb_width session
  feature_list cal c v =
      let hour = cal.hour c.timestamp in
      (codes "ret_1", growth c.close (v.back 1))
      ∷ (codes "ret_3", growth c.close (v.back 3))
      ∷ (codes "ret_12", growth c.close (v.back 12))
      ∷ (codes "ret_36", growth c.close (v.back 36))
      ∷ (codes "ret_72", growth c.close (v.back 72))
      ∷ (codes "ret_288", growth c.close (v.back 288))
      ∷ (codes "range_pct", ratio (sub c.high c.low) c.close)
      ∷ (codes "body_pct", ratio (sub c.close c.open_price) c.close)
      ∷ (codes "upper_wick", ratio (sub c.high (larger c.open_price c.close)) c.close)
      ∷ (codes "lower_wick", ratio (sub (smaller c.open_price c.close) c.low) c.close)
      ∷ (codes "atr_pct", share v.atr14 c.close)
      ∷ (codes "vol_72", v.vol72)
      ∷ (codes "vol_288", v.vol288)
      ∷ (codes "dist_ema_9", distance (some c.close) v.ema9)
      ∷ (codes "dist_ema_21", distance (some c.close) v.ema21)
      ∷ (codes "dist_ema_50", distance (some c.close) v.ema50)
      ∷ (codes "ema_50_slope", distance v.ema50 v.ema50_back)
      ∷ (codes "dist_ema_200", distance (some c.close) v.ema200)
      ∷ (codes "ema_200_slope", distance v.ema200 v.ema200_back)
      ∷ (codes "rsi_14", v.rsi14)
      ∷ (codes "plus_di", v.plus_di)
      ∷ (codes "minus_di", v.minus_di)
      ∷ (codes "adx_14", v.adx14)
      ∷ (codes "bb_z", bb_z c.close v.sma20 v.stdev20)
      ∷ (codes "bb_width", bb_width v.sma20 v.stdev20)
      ∷ (codes "active_bar", v.active_bar)
      ∷ (codes "active_rate_288", v.active_rate288)
      ∷ (codes "h1_dist_ema50", distance v.h1_close v.h1_ema50)
      ∷ (codes "h1_ret_24", htf_growth v.h1_close v.h1_back)
      ∷ (codes "h4_dist_ema50", distance v.h4_close v.h4_ema50)
      ∷ (codes "hour_utc", some (of_nat hour))
      ∷ (codes "dow", some (of_nat (cal.weekday c.timestamp)))
      ∷ (codes "month", some (of_nat (cal.month c.timestamp)))
      ∷ (codes "minute_of_day", some (of_nat (hour * 60 + cal.minute c.timestamp)))
      ∷ (codes "session", some (of_nat (session hour)))
      ∷ []

  -- any(v is None for v in feats.values())
  unfoldable pub completed : List (Text × Option F) → Option (List (Text × F))
  completed [] = some []
  completed ((name, none) ∷ feats) = none
  completed ((name, some x) ∷ feats) = elim (completed feats) [
    | none ↦ none
    | some rest ↦ some ((name, x) ∷ rest)
  ]

  unfoldable pub features_of : Calendar → View F → Features F
  unfolding feature_list completed
  features_of cal v = elim v.candle [
    | none ↦ index_error
    | some c ↦ elim (completed (feature_list cal c v)) [
      | none ↦ incomplete
      | some feats ↦ complete feats
    ]
  ]

  -- build_at(i), for a builder that was made with the two factors
  unfoldable pub build_at : Calendar → (h1 h4 : ℕ) → Builder F → ℕ → Features F
  unfolding features_of view
  build_at cal h1 h4 b i = features_of cal (view h1 h4 b i)
