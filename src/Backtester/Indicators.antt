-- ===== src/Backtester/Indicators.antt =====
-- The indicators of apps/backtester/feature_builder.py. Each loop that fills `out` from the left is a
-- scan: its state is what the loop has read and kept so far.
pub mod Causal
use exec_relay.Base.{
  ℕ, zero, suc, ◌+◌, ◌-◌, ◌≡◌, refl, Bool, true, false, not, ◌&&◌, Option, none, some, List, [],
  ◌∷◌, ◌++◌, map, ◌==◌, leb, ltb, length, take, if◌then◌else◌,
}
use mathlib.Core.List.{reverse}
use exec_relay.Backtester.{get_elem?, Candle}

-- What the indicators do with floats: `is_zero x` is `x == 0`, `root x` is `x ** 0.5`.
pub record Numbers (F : Type 0) : Type 0 where
  pub of_nat : ℕ → F
  pub add : F → F → F
  pub sub : F → F → F
  pub mul : F → F → F
  pub div : F → F → F
  pub abs : F → F
  pub root : F → F
  pub lt : F → F → Bool
  pub is_zero : F → Bool
  pub same : F → F → Bool

infixl 5 ◌>>=◌
abbrev pub ◌>>=◌ : {A B : Type 0} → Option A → (A → Option B) → Option B
none >>= f = none
some a >>= f = f a

-- A chain that succeeds has a step that did.
pub >>=-eq-some :
    {A B : Type 0} (m : Option A) (f : A → Option B) {b : B}
    → (m >>= f) ≡ some b
    → (a : A) × (m ≡ some a) × (f a ≡ some b)
>>=-eq-some none f h = absurd (cc h)
>>=-eq-some (some a) f h = (a, refl, h)

unfoldable pub scan : {A B S : Type 0} → (S → A → S × B) → S → List A → List B
scan step s [] = []
scan step s (a ∷ as') = let (s', b) = step s a in b ∷ scan step s' as'

-- [op(x, y) for x, y in zip(xs, ys)]
unfoldable pub zip_with : {A B C : Type 0} → (A → B → C) → List A → List B → List C
zip_with op [] ys = []
zip_with op (x ∷ xs) [] = []
zip_with op (x ∷ xs) (y ∷ ys) = op x y ∷ zip_with op xs ys

-- out[0] = None, and out[i] from the elements i - 1 and i.
unfoldable pub pairwise : {A B : Type 0} → (A → A → B) → List A → List (Option B)
pairwise op = scan (λ prev a. (some a, elim prev [ none ↦ none | some p ↦ some (op p a) ])) none

-- The elements, if all are defined.
unfoldable pub all_defined : {A : Type 0} → List (Option A) → Option (List A)
all_defined [] = some []
all_defined (none ∷ vs) = none
all_defined (some v ∷ vs) = elim (all_defined vs) [ none ↦ none | some rest ↦ some (v ∷ rest) ]

-- _align_from_first_defined(values, length, fn); `none` is the ValueError
unfoldable pub align :
    {A B : Type 0} → (List A → List (Option B)) → List (Option A) → Option (List (Option B))
unfolding all_defined
align fn [] = some []
align fn (none ∷ vs) = elim (align fn vs) [ none ↦ none | some out ↦ some (none ∷ out) ]
align fn (some v ∷ vs) = elim (all_defined (some v ∷ vs)) [
  | none ↦ none
  | some clean ↦ some (fn clean)
]

unfoldable pub first_of3 : {A : Type 0} → A × A × A → A
first_of3 (p, m, x) = p

unfoldable pub second_of3 : {A : Type 0} → A × A × A → A
second_of3 (p, m, x) = m

unfoldable pub third_of3 : {A : Type 0} → A × A × A → A
third_of3 (p, m, x) = x

-- The three rows that `dmi` returns.
pub record Dmi (F : Type 0) : Type 0 where
  pub plus_di : List (Option F)
  pub minus_di : List (Option F)
  pub adx : List (Option F)

module _ {F : Type 0} ⦃num : Numbers F⦄ where
  open num use {of_nat, add, sub, mul, div, abs, root, lt, is_zero}

  abbrev pub larger : F → F → F
  larger a b = if lt a b then b else a

  abbrev pub smaller : F → F → F
  smaller a b = if lt b a then b else a

  unfoldable pub sum_onto : F → List F → F
  sum_onto acc [] = acc
  sum_onto acc (x ∷ xs) = sum_onto (add acc x) xs

  unfoldable pub sum : List F → F
  unfolding sum_onto
  sum xs = sum_onto (of_nat 0) xs

  -- One round of `sma`: the values read, the latest first, and `window_sum`. The value that leaves the
  -- window, values[i - length], is there from i = length on.
  unfoldable pub sma_step : ℕ → List F × F → F → (List F × F) × Option F
  unfolding get_elem?
  sma_step n (seen, window_sum) v =
      let more = add window_sum v in
      let kept : F = elim (get_elem? seen (n - 1)) [ none ↦ more | some old ↦ sub more old ] in
      ((v ∷ seen, kept), if leb (n - 1) (length seen) then some (div kept (of_nat n)) else none)

  unfoldable pub sma : ℕ → List F → List (Option F)
  unfolding sma_step scan
  sma n = scan (sma_step n) ([], of_nat 0)

  unfoldable pub deviation : ℕ → List F → F
  unfolding sum
  deviation n window =
      let mean = div (sum window) (of_nat n) in
      root (div (sum (map (λ x. mul (sub x mean) (sub x mean)) window)) (of_nat n))

  -- One round of `stdev`; the window is values[i - length + 1 : i + 1].
  unfoldable pub stdev_step : ℕ → List F → F → List F × Option F
  unfolding deviation
  stdev_step n seen v = (
    v ∷ seen,
    if leb (n - 1) (length seen) then some (deviation n (reverse (take n (v ∷ seen)))) else none,
  )

  unfoldable pub stdev : ℕ → List F → List (Option F)
  unfolding stdev_step scan
  stdev n = scan (stdev_step n) []

  -- One round of `ema`: out[i - 1], and out[0] = values[0].
  unfoldable pub ema_step : ℕ → Option F → F → Option F × F
  ema_step n none v = (some v, v)
  ema_step n (some prev) v =
      let alpha = div (of_nat 2) (of_nat (n + 1)) in
      let next = add (mul alpha v) (mul (sub (of_nat 1) alpha) prev) in (some next, next)

  unfoldable pub ema : ℕ → List F → List F
  unfolding ema_step scan
  ema n = scan (ema_step n) none

  -- One round of `rma`: the values read, the latest first, and `prev` once the seed is there. The seed,
  -- the mean of the first `length` values, is out[length - 1].
  unfoldable pub rma_step : ℕ → List F × Option F → F → (List F × Option F) × Option F
  unfolding sum
  rma_step n (seen, some prev) v =
      let next = add prev (div (sub v prev) (of_nat n)) in ((v ∷ seen, some next), some next)
  rma_step n (seen, none) v =
      let seed = div (sum (reverse (v ∷ seen))) (of_nat n) in
      if length seen == n - 1 then ((v ∷ seen, some seed), some seed) else ((v ∷ seen, none), none)

  unfoldable pub rma : ℕ → List F → List (Option F)
  unfolding rma_step scan
  rma n = scan (rma_step n) ([], none)

  unfoldable pub rsi_of : Option F → Option F → Option F
  rsi_of none d = none
  rsi_of (some u) none = none
  rsi_of (some u) (some d) =
      if is_zero d
      then some (if lt (of_nat 0) u then of_nat 100 else of_nat 50)
      else some (sub (of_nat 100) (div (of_nat 100) (add (of_nat 1) (div u d))))

  -- rsi_from_closes(closes, length); the gains and losses of the bars behind `prev`
  unfoldable pub rsi_behind : ℕ → F → List F → List (Option F)
  unfolding rsi_of rma zip_with scan
  rsi_behind n prev cs =
      zip_with rsi_of (rma n (scan (λ p c. (c, larger (sub c p) (of_nat 0))) prev cs))
        (rma n (scan (λ p c. (c, larger (sub p c) (of_nat 0))) prev cs))

  unfoldable pub rsi_from_closes : ℕ → List F → List (Option F)
  unfolding rsi_behind
  rsi_from_closes n [] = []
  rsi_from_closes n (c ∷ cs) = none ∷ rsi_behind n c cs

  unfoldable pub range_of : Candle F → Candle F → F
  range_of prev c =
      larger (larger (sub c.high c.low) (abs (sub c.high prev.close))) (abs (sub c.low prev.close))

  unfoldable pub true_range : List (Candle F) → List (Option F)
  unfolding range_of pairwise
  true_range = pairwise range_of

  unfoldable pub atr : ℕ → List (Candle F) → Option (List (Option F))
  unfolding true_range rma align
  atr n candles = align (rma n) (true_range candles)

  unfoldable pub plus_move : Candle F → Candle F → F
  plus_move prev c =
      let up = sub c.high prev.high in
      let down = sub prev.low c.low in if lt down up && lt (of_nat 0) up then up else of_nat 0

  unfoldable pub minus_move : Candle F → Candle F → F
  minus_move prev c =
      let up = sub c.high prev.high in
      let down = sub prev.low c.low in if lt up down && lt (of_nat 0) down then down else of_nat 0

  -- plus_di[i], minus_di[i] and dx[i]
  unfoldable pub di_of : Option F → Option F × Option F → Option F × Option F × Option F
  di_of none moves = (none, none, none)
  di_of (some tr) (none, minus) = (none, none, none)
  di_of (some tr) (some plus, none) = (none, none, none)
  di_of (some tr) (some plus, some minus) =
      if is_zero tr
      then (none, none, none)
      else let pdi = div (mul (of_nat 100) plus) tr in
        let mdi = div (mul (of_nat 100) minus) tr in
        let denom = add pdi mdi in
        (
          some pdi,
          some mdi,
          some (
              if is_zero denom then of_nat 0 else div (mul (of_nat 100) (abs (sub pdi mdi))) denom),
        )

  -- The loop of `dmi` over the smoothed moves.
  unfoldable pub di_rows :
      List (Option F) → List (Option F) → List (Option F) → List (Option F × Option F × Option F)
  unfolding zip_with di_of
  di_rows tr plus minus = zip_with di_of tr (zip_with (λ p m. (p, m)) plus minus)

  unfoldable pub dmi : ℕ → List (Candle F) → Option (Dmi F)
  unfolding true_range plus_move minus_move pairwise align rma di_rows first_of3 second_of3
      third_of3
  dmi n candles = do
    tr ← align (rma n) (true_range candles)
    plus ← align (rma n) (pairwise plus_move candles)
    minus ← align (rma n) (pairwise minus_move candles)
    let rows = di_rows tr plus minus
    adx ← align (rma n) (map third_of3 rows)
    some (record { plus_di = map first_of3 rows; minus_di = map second_of3 rows; adx = adx })
