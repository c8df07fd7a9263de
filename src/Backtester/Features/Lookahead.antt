-- ===== src/Backtester/Features/Lookahead.antt =====
-- The features of apps/backtester/feature_builder.py at a bar do not depend on later bars.
use mathlib.Core.Option.{some-injective}
use mathlib.Core.Path.{subst}
use exec_relay.Base.{ℕ, suc, ◌<◌, ◌≡◌, refl, ap, ◌∙◌, Option, some, List, ◌++◌, map, length}
use exec_relay.Backtester.{Candle}
use exec_relay.Backtester.Bins.{resample_closes, get_elem?-append}
use exec_relay.Backtester.Indicators.{
  >>=-eq-some, Numbers, align, sma, stdev, ema, rsi_from_closes, atr, Dmi, dmi,
}
use exec_relay.Backtester.Indicators.Causal.{
  IsCausal, IsPrefix, after-IsCausal, align-IsCausalOr, sma-IsCausal, stdev-IsCausal, ema-IsCausal,
  rsi_from_closes-IsCausal,
}
use exec_relay.Backtester.Features.{
  returns, activity, assembled, build, view, features_of, build_at,
}
use exec_relay.Backtester.Rows.{Calendar, Builder, htf_before}
use exec_relay.Backtester.Features.Starts.{
  IsStart, map-IsCausal, causal-IsStart, causal_or-IsStart, DmiStart, dmi_start, atr_start,
  returns-IsCausalOr,
}
use exec_relay.Backtester.Features.Places.{
  resample-prefix, start_at, start_before, start_defined, htf_before-start,
}

module _ {F : Type 0} ⦃num : Numbers F⦄ (k1 k4 i : ℕ) (one two : List (Candle F))
    (inside : i < length one) where
  abbrev all_closes : List (Candle F) → List F
  all_closes = map (λ c. c.close)

  causal_at :
      {B : Type 0} (f : List (Candle F) → List B)
      → IsCausal f
      → IsStart (length one) (f one) (f (one ++ two))
  causal_at f c = causal-IsStart f c one two

  of_closes :
      {B : Type 0} (f : List F → List B)
      → IsCausal f
      → IsStart (length one) (f (all_closes one)) (f (all_closes (one ++ two)))
  of_closes f c =
      causal_at (λ xs. f (all_closes xs)) (after-IsCausal all_closes f (map-IsCausal _) c)

  htf_at :
      (lag k : ℕ)
      → htf_before lag (suc k) (resample_closes (one ++ two) (suc k)) i
        ≡ htf_before lag (suc k) (resample_closes one (suc k)) i
  htf_at lag k =
      htf_before-start lag k i one (resample_closes one (suc k))
        (resample_closes (one ++ two) (suc k)) inside (resample-prefix k one two) refl

  htf_ema_at :
      (k : ℕ)
      → htf_before 0 (suc k) (ema 50 (resample_closes (one ++ two) (suc k))) i
        ≡ htf_before 0 (suc k) (ema 50 (resample_closes one (suc k))) i
  htf_ema_at k =
      let (r, e) = resample-prefix k one two in
      let c = ema-IsCausal 50 in
      htf_before-start 0 k i one (ema 50 (resample_closes one (suc k)))
        (ema 50 (resample_closes (one ++ two) (suc k))) inside
        (
          c.rest (resample_closes one (suc k)) r,
          ap (ema 50) e ∙ c.on_more (resample_closes one (suc k)) r,
        )
        (c.same_length (resample_closes one (suc k)))

  module _ (ranges ranges' vol72 vol72' vol288 vol288' : List (Option F)) (moves moves' : Dmi F)
      (r : IsStart (length one) ranges ranges') (v : IsStart (length one) vol72 vol72')
      (w : IsStart (length one) vol288 vol288') (m : DmiStart (length one) moves moves') where
    -- What is read at a bar is the same of fewer and of more candles.
    view-same :
        view
          (suc k1)
          (suc k4)
          (assembled (suc k1) (suc k4) (one ++ two) ranges' moves' vol72' vol288')
          i
        ≡ view (suc k1) (suc k4) (assembled (suc k1) (suc k4) one ranges moves vol72 vol288) i
    unfolding view assembled
    view-same =
        let n = length one in
        let close = causal_at all_closes (map-IsCausal _) in
        let row =
          λ (p out : List (Option F)) (s : IsStart n p out). start_defined n i inside p out s in
        let e50 = of_closes (ema 50) (ema-IsCausal 50) in
        λ j. record {
          candle = get_elem?-append one two i inside j;
          back =
              λ lag. start_before n i inside lag (all_closes one) (all_closes (one ++ two)) close j;
          ema9 = start_at n i inside _ _ (of_closes (ema 9) (ema-IsCausal 9)) j;
          ema21 = start_at n i inside _ _ (of_closes (ema 21) (ema-IsCausal 21)) j;
          ema50 = start_at n i inside _ _ (of_closes (ema 50) (ema-IsCausal 50)) j;
          ema200 = start_at n i inside _ _ (of_closes (ema 200) (ema-IsCausal 200)) j;
          ema50_back = start_before n i inside 12 _ _ (of_closes (ema 50) (ema-IsCausal 50)) j;
          ema200_back = start_before n i inside 48 _ _ (of_closes (ema 200) (ema-IsCausal 200)) j;
          atr14 = row ranges ranges' r j;
          rsi14 = row _ _ (of_closes (rsi_from_closes 14) (rsi_from_closes-IsCausal 14)) j;
          plus_di = row moves.plus_di moves'.plus_di m.0 j;
          minus_di = row moves.minus_di moves'.minus_di m.1 j;
          adx14 = row moves.adx moves'.adx m.2 j;
          sma20 = row _ _ (of_closes (sma 20) (sma-IsCausal 20)) j;
          stdev20 = row _ _ (of_closes (stdev 20) (stdev-IsCausal 20)) j;
          vol72 = row vol72 vol72' v j;
          vol288 = row vol288 vol288' w j;
          active_bar = start_at n i inside _ _ (causal_at (map activity) (map-IsCausal activity)) j;
          active_rate288 =
              row _ _
                (causal_at (λ xs. sma 288 (map activity xs))
                  (after-IsCausal (map activity) (sma 288) (map-IsCausal activity)
                    (sma-IsCausal 288)))
                j;
          h1_close = htf_at 0 k1 j;
          h1_ema50 = htf_ema_at k1 j;
          h1_back = htf_at 24 k1 j;
          h4_close = htf_at 0 k4 j;
          h4_ema50 = htf_ema_at k4 j;
        }

  aligned_from :
      (n : ℕ) (ret ret' out : List (Option F))
      → IsStart (length one) ret ret'
      → align (stdev n) ret' ≡ some out
      → (p : List (Option F)) × (align (stdev n) ret ≡ some p)
        × IsPrefix p out
        × (length p ≡ length one)
  aligned_from n ret ret' out s h =
      causal_or-IsStart (align (stdev n)) (align-IsCausalOr (stdev n) (stdev-IsCausal n))
        (length one) ret ret' out s h

  -- Where the features of a longer series of candles can be computed, so can those of the series that
  -- ends earlier, and at each of its bars every feature is the same: none depends on a later candle.
  pub build_at-no_lookahead :
      (cal : Calendar) (b : Builder F)
      → build (suc k1) (suc k4) (one ++ two) ≡ some b
      → (a : Builder F) × (build (suc k1) (suc k4) one ≡ some a)
        × (build_at cal (suc k1) (suc k4) b i ≡ build_at cal (suc k1) (suc k4) a i)
  unfolding build build_at
  build_at-no_lookahead cal b h =
      let all = one ++ two in
      let (r', e, h_atr) = >>=-eq-some (atr 14 all) _ h in
      let (m', f, h_dmi) = >>=-eq-some (dmi 14 all) _ h_atr in
      let (t', g, h_returns) = >>=-eq-some (returns (all_closes all)) _ h_dmi in
      let (v', q, h_day) = >>=-eq-some (align (stdev 72) t') _ h_returns in
      let (w', z, here) = >>=-eq-some (align (stdev 288) t') _ h_day in
      let same : assembled (suc k1) (suc k4) all r' m' v' w' ≡ b = some-injective _ _ here in
      let (r, qr, rs, rl) = atr_start 14 one two r' e in
      let (m, qm, ms) = dmi_start 14 one two m' f in
      let (t, qt, tp, tl) =
        causal_or-IsStart returns returns-IsCausalOr (length one) (all_closes one) (all_closes all)
          t' (causal_at all_closes (map-IsCausal _)) g in
      let (v, qv, vp, vl) = aligned_from 72 t t' v' (tp, tl) q in
      let (w, qw, wp, wl) = aligned_from 288 t t' w' (tp, tl) z in
      let a = assembled (suc k1) (suc k4) one r m v w in
      let features = λ (o : Builder F). build_at cal (suc k1) (suc k4) o i in
      (
        a,
        rw (qr, qm, qt, qv, qw, build) refl,
        subst (λ o. features o ≡ features a) same
            (ap (features_of cal) (view-same r r' v v' w w' m m' (rs, rl) (vp, vl) (wp, wl) ms)),
      )
