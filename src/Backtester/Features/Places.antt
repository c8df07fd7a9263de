-- ===== src/Backtester/Features/Places.antt =====
-- What is read at a place of a row of apps/backtester/feature_builder.py, by bars and by the bins of a
-- higher time frame.
use exec_relay.Base.{
  ℕ, zero, suc, ◌+◌, ◌-◌, ◌*◌, ◌<◌, ◌≡◌, refl, sym, ap, ◌∙◌, Option, none, some, List, [], ◌∷◌,
  ◌++◌, length, arith, ltb, if◌then◌else◌, Option-cases, inl, inr,
}
use exec_relay.Backtester.{get_elem?, Candle}
use exec_relay.Backtester.Bins.{
  last_closed_bin, resample_closes, last_closed_bin-IsLastClosed, get_elem?-append, close_of,
  get_elem?-within, resample_closes-get_elem?,
}
use exec_relay.Backtester.Indicators.Causal.{IsPrefix}
use exec_relay.Backtester.Rows.{defined_at, before, htf_before}
use exec_relay.Backtester.Features.Starts.{IsStart}

prefix_of_points :
    {A : Type 0} (p out : List A)
    → ((b : ℕ) → b < length p → get_elem? out b ≡ get_elem? p b)
    → IsPrefix p out
unfolding get_elem?
prefix_of_points [] out h = (out, refl)
prefix_of_points (a ∷ p) [] h = absurd (cc (h 0 (omega arith)))
prefix_of_points (a ∷ p) (b ∷ out) h =
    let here : some b ≡ some a = h 0 (omega arith) in
    let same : b ≡ a = cc in
    let (r, e) = prefix_of_points p out (λ j l. h (suc j) (omega (arith, l))) in
    (r, rw same (ap (λ t. a ∷ t) e))

prefix_at :
    {A : Type 0} (p out : List A) (j : ℕ)
    → IsPrefix p out
    → j < length p
    → get_elem? out j ≡ get_elem? p j
prefix_at p out j (r, e) l = ap (λ t. get_elem? t j) e ∙ get_elem?-append p r j l

-- A row with a value at a place is longer than that.
place_lt :
    {A : Type 0} (rows : List A) (n : ℕ) (a : A) → get_elem? rows n ≡ some a → n < length rows
unfolding get_elem?
place_lt [] n a h = absurd (cc h)
place_lt (b ∷ rows) zero a h = omega arith
place_lt (b ∷ rows) (suc n) a h = omega (arith, place_lt rows n a h)

module _ {F : Type 0} where
  closed_place :
      (o : Option (Candle F)) (x : F) → close_of o ≡ some x → (c : Candle F) × (o ≡ some c)
  closed_place none x h = absurd (cc h)
  closed_place (some c) x h = (c, refl)

  pub resample-prefix :
      (k : ℕ) (one two : List (Candle F))
      → IsPrefix (resample_closes one (suc k)) (resample_closes (one ++ two) (suc k))
  resample-prefix k one two = prefix_of_points _ _ (λ b l.
      let (x, here) = get_elem?-within (resample_closes one (suc k)) b l in
      let (c, at) =
        closed_place (get_elem? one (b * suc k + k)) x
          (sym (resample_closes-get_elem? one k b) ∙ here) in
      resample_closes-get_elem? (one ++ two) k b
      ∙ ap close_of (get_elem?-append one two (b * suc k + k) (place_lt one (b * suc k + k) c at))
      ∙ sym (resample_closes-get_elem? one k b))

  -- A bin that has ended has a close.
  bin_lt :
      (k b : ℕ) (one : List (Candle F))
      → b * suc k + k < length one
      → b < length (resample_closes one (suc k))
  bin_lt k b one h =
      let (c, here) = get_elem?-within one (b * suc k + k) h in
      place_lt (resample_closes one (suc k)) b c.close
        (resample_closes-get_elem? one k b ∙ ap close_of here)

module _ {A : Type 0} (n i : ℕ) (inside : i < n) where
  pub start_at : (p out : List A) → IsStart n p out → get_elem? out i ≡ get_elem? p i
  start_at p out (r, l) = prefix_at p out i r (omega (arith, l, inside))

  pub start_before :
      (lag : ℕ) (p out : List A) → IsStart n p out → before lag out i ≡ before lag p i
  unfolding before
  start_before lag p out (r, l) =
      ap (λ o. if ltb i lag then none else o)
        (prefix_at p out (i - lag) r (omega (arith, l, inside)))

  pub start_defined :
      (p out : List (Option A)) → IsStart n p out → defined_at out i ≡ defined_at p i
  unfolding defined_at
  start_defined p out (r, l) =
      ap (λ o. elim o as (λ _. Option A) [ none ↦ none | some v ↦ v ])
        (prefix_at p out i r (omega (arith, l, inside)))

pub htf_before-start :
    {F A : Type 0} (lag k i : ℕ) (one : List (Candle F)) (p out : List A)
    → i < length one
    → IsPrefix p out
    → length p ≡ length (resample_closes one (suc k))
    → htf_before lag (suc k) out i ≡ htf_before lag (suc k) p i
unfolding htf_before before
htf_before-start lag k i one p out inside r l = elim (Option-cases (last_closed_bin i (suc k))) [
  | inl e ↦ rw (e, htf_before) refl
  | inr (b, e) ↦
      let (ended, _) = last_closed_bin-IsLastClosed i k b e in
      let there = bin_lt k b one (omega (arith, ended, inside)) in
      rw (e, htf_before)
        (ap (λ o. if ltb b lag then none else o)
          (prefix_at p out (b - lag) r (omega (arith, l, there))))
]
