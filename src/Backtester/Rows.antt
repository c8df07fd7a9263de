-- ===== src/Backtester/Rows.antt =====
-- The state and the row look-ups of `FeatureBuilder` in apps/backtester/feature_builder.py. The parts
-- of a time stamp are the standard library's.
use exec_relay.Base.{ℕ, ◌-◌, Option, none, some, List, [], ◌∷◌, ltb, if◌then◌else◌}
use exec_relay.Base.Text.{Text}
use exec_relay.Backtester.{get_elem?, Candle}
use exec_relay.Backtester.Bins.{last_closed_bin}

-- ts.hour, ts.minute, ts.month and ts.weekday()
pub record Calendar : Type 0 where
  pub hour : ℕ → ℕ
  pub minute : ℕ → ℕ
  pub month : ℕ → ℕ
  pub weekday : ℕ → ℕ

-- _session(hour_utc)
unfoldable pub session : ℕ → ℕ
session hour = if ltb hour 7 then 0 else if ltb hour 13 then 1 else if ltb hour 20 then 2 else 3

-- The attributes of a FeatureBuilder.
pub record Builder (F : Type 0) : Type 0 where
  pub candles : List (Candle F)
  pub closes : List F
  pub ema9 : List F
  pub ema21 : List F
  pub ema50 : List F
  pub ema200 : List F
  pub atr14 : List (Option F)
  pub rsi14 : List (Option F)
  pub plus_di : List (Option F)
  pub minus_di : List (Option F)
  pub adx14 : List (Option F)
  pub sma20 : List (Option F)
  pub stdev20 : List (Option F)
  pub vol72 : List (Option F)
  pub vol288 : List (Option F)
  pub active_bar : List F
  pub active_rate288 : List (Option F)
  pub h1_closes : List F
  pub h1_ema50 : List F
  pub h4_closes : List F
  pub h4_ema50 : List F

-- What `build_at` reads of the rows at a bar; `back lag` is the close `lag` bars before.
pub record View (F : Type 0) : Type 0 where
  pub candle : Option (Candle F)
  pub back : ℕ → Option F
  pub ema9 : Option F
  pub ema21 : Option F
  pub ema50 : Option F
  pub ema200 : Option F
  pub ema50_back : Option F
  pub ema200_back : Option F
  pub atr14 : Option F
  pub rsi14 : Option F
  pub plus_di : Option F
  pub minus_di : Option F
  pub adx14 : Option F
  pub sma20 : Option F
  pub stdev20 : Option F
  pub vol72 : Option F
  pub vol288 : Option F
  pub active_bar : Option F
  pub active_rate288 : Option F
  pub h1_close : Option F
  pub h1_ema50 : Option F
  pub h1_back : Option F
  pub h4_close : Option F
  pub h4_ema50 : Option F

-- The features of a bar, `incomplete` where one is None, and the IndexError.
pub data Features (F : Type 0) : Type 0 where
  index_error incomplete : Features F
  complete : List (Text × F) → Features F

-- Each result, if none of them is an exception.
unfoldable pub traverse : {A B : Type 0} → (A → Option B) → List A → Option (List B)
traverse f [] = some []
traverse f (a ∷ rows) = elim (f a) [
  | none ↦ none
  | some b ↦ elim (traverse f rows) [ none ↦ none | some bs ↦ some (b ∷ bs) ]
]

-- rows[i], None also where the row is shorter
unfoldable pub defined_at : {A : Type 0} → List (Option A) → ℕ → Option A
unfolding get_elem?
defined_at rows i = elim (get_elem? rows i) [ none ↦ none | some v ↦ v ]

-- rows[i - lag] if i >= lag
unfoldable pub before : {A : Type 0} → ℕ → List A → ℕ → Option A
unfolding get_elem?
before lag rows i = if ltb i lag then none else get_elem? rows (i - lag)

-- The value of a higher time frame's row `lag` bins before the last closed one.
unfoldable pub htf_before : {A : Type 0} → (lag factor : ℕ) → List A → ℕ → Option A
unfolding last_closed_bin before
htf_before lag factor rows i = elim (last_closed_bin i factor) [
  | none ↦ none
  | some b ↦ before lag rows b
]
