-- ===== src/Backtester/Bins.antt =====
-- The bins of a higher time frame of apps/backtester/feature_builder.py, and that they look at closed
-- bars only.
use exec_relay.Base.{
  ℕ, zero, suc, ◌+◌, ◌-◌, ◌*◌, ◌/◌, ◌%◌, ◌≤◌, ◌<◌, ◌≡◌, refl, sym, ap, ◌∙◌, Option, none, some,
  List, [], ◌∷◌, ◌++◌, ◌==◌, ltb, length, if◌then◌else◌, arith, Bool-cases, Option-cases, ==_iff,
  ◌≢◌, inl, inr,
}
use native.Mathlib.Omega.{div_fact, mod_fact}
use exec_relay.Backtester.{get_elem?, Candle}

-- _last_closed_bin(i, factor); bin_idx - 1 is negative for the first bin
unfoldable pub last_closed_bin : ℕ → ℕ → Option ℕ
last_closed_bin i factor =
    if i % factor == factor - 1
    then some (i / factor)
    else if i / factor == 0
    then none
    else some (i / factor - 1)

module _ {F : Type 0} where
  -- resample_closes(candles, factor), from `start` on; there are at most as many rounds as candles
  unfoldable pub closes_from : (rounds : ℕ) → List (Candle F) → (factor start : ℕ) → List F
  unfolding get_elem?
  closes_from zero candles factor start = []
  closes_from (suc n) candles factor start =
      let rest = closes_from n candles factor (start + factor) in
      if ltb start (length candles + 1 - factor)
      then elim (get_elem? candles (start + factor - 1)) [ none ↦ rest | some c ↦ c.close ∷ rest ]
      else []

  unfoldable pub resample_closes : List (Candle F) → ℕ → List F
  unfolding closes_from
  resample_closes candles factor = closes_from (length candles) candles factor 0

  -- The close of _htf(i, factor, closes, ema50)
  unfoldable pub htf_close : ℕ → ℕ → List F → Option F
  unfolding last_closed_bin get_elem?
  htf_close i factor closes = elim (last_closed_bin i factor) [
    | none ↦ none
    | some b ↦ get_elem? closes b
  ]

-- The last bar of bin b is bar b * factor + factor - 1.
abbrev pub IsLastClosed : (i factor b : ℕ) → Type 0
IsLastClosed i factor b = (b * suc factor + factor ≤ i) × (i < suc b * suc factor + factor)

whole_bin : (i factor b r : ℕ) → suc factor * b + r ≡ i → r ≡ factor → IsLastClosed i factor b
whole_bin i factor b r e h = (omega (arith, e, h), omega (arith, e, h))

part_bin :
    (i factor b r : ℕ)
    → suc factor * suc b + r ≡ i
    → r < suc factor
    → r ≢ factor
    → IsLastClosed i factor b
part_bin i factor b r e lt ne = (omega (arith, e), omega (arith, e, lt, ne))

-- The bin that it answers with has ended at bar i, and the bin behind it has not.
pub last_closed_bin-IsLastClosed :
    (i factor b : ℕ) → last_closed_bin i (suc factor) ≡ some b → IsLastClosed i factor b
unfolding last_closed_bin
last_closed_bin-IsLastClosed i factor b h = elim (Bool-cases (i % suc factor == factor)) [
  | inl e ↦
      let whole : i / suc factor ≡ b = ground (arith, h, e) in
      whole_bin i factor b (i % suc factor)
        (ap (λ q. suc factor * q + i % suc factor) (sym whole) ∙ div_fact i factor)
        ((==_iff (i % suc factor) factor).0 e)
  | inr e ↦
      let part : i / suc factor ≡ suc b = ground (arith, h, e) in
      part_bin i factor b (i % suc factor)
        (ap (λ q. suc factor * q + i % suc factor) (sym part) ∙ div_fact i factor)
        (mod_fact i factor) (λ same. ground (arith, same, e, ==_iff (i % suc factor) factor))
]

pub get_elem?-beyond :
    {A : Type 0} (rows : List A) (n : ℕ) → length rows ≤ n → get_elem? rows n ≡ none
unfolding get_elem?
get_elem?-beyond [] n h = refl
get_elem?-beyond (a ∷ rows) zero h = absurd (omega (arith, h))
get_elem?-beyond (a ∷ rows) (suc n) h = get_elem?-beyond rows n (omega (arith, h))

pub get_elem?-within :
    {A : Type 0} (rows : List A) (n : ℕ) → n < length rows → (a : A) × (get_elem? rows n ≡ some a)
unfolding get_elem?
get_elem?-within [] n h = absurd (omega (arith, h))
get_elem?-within (a ∷ rows) zero h = (a, refl)
get_elem?-within (a ∷ rows) (suc n) h = get_elem?-within rows n (omega (arith, h))

pub get_elem?-append :
    {A : Type 0} (one two : List A) (n : ℕ)
    → n < length one
    → get_elem? (one ++ two) n ≡ get_elem? one n
unfolding get_elem?
get_elem?-append [] two n h = absurd (omega (arith, h))
get_elem?-append (a ∷ one) two zero h = refl
get_elem?-append (a ∷ one) two (suc n) h = get_elem?-append one two n (omega (arith, h))

module _ {F : Type 0} where
  abbrev pub close_of : Option (Candle F) → Option F
  close_of none = none
  close_of (some c) = some c.close

  closes_from-get_elem? :
      (n : ℕ) (candles : List (Candle F)) (k start b : ℕ)
      → length candles ≤ start + n * suc k
      → get_elem? (closes_from n candles (suc k) start) b
        ≡ close_of (get_elem? candles (start + b * suc k + k))
  unfolding closes_from get_elem?
  closes_from-get_elem? zero candles k start b h =
      rw (get_elem?-beyond candles (start + b * suc k + k) (omega (arith, h))) refl
  closes_from-get_elem? (suc n) candles k start b h =
      elim (Bool-cases (ltb start (length candles + 1 - suc k))) [
        | inl e ↦
            let at : start + suc k - 1 ≡ start + k = omega arith in
            let (c, here) = get_elem?-within candles (start + k) (ground (arith, e)) in
            rw (e, at, here)
              (by_bin b c here
                (λ j. closes_from-get_elem? n candles k (start + suc k) j (omega (arith, h))))
        | inr e ↦ rw (e, get_elem?-beyond candles (start + b * suc k + k) (ground (arith, e))) refl
      ]
    where
      by_bin :
          (b : ℕ) (c : Candle F)
          → get_elem? candles (start + k) ≡ some c
          → ((j : ℕ)
              → get_elem? (closes_from n candles (suc k) (start + suc k)) j
                ≡ close_of (get_elem? candles (start + suc k + j * suc k + k)))
          → get_elem? (c.close ∷ closes_from n candles (suc k) (start + suc k)) b
            ≡ close_of (get_elem? candles (start + b * suc k + k))
      by_bin zero c here ih =
          let at : start + 0 * suc k + k ≡ start + k = omega arith in rw (at, here) refl
      by_bin (suc j) c here ih =
          let at : start + suc j * suc k + k ≡ start + suc k + j * suc k + k = omega arith in
          ih j ∙ ap (λ m. close_of (get_elem? candles m)) (sym at)

  -- Each bin's close is that of the bin's last candle.
  pub resample_closes-get_elem? :
      (candles : List (Candle F)) (k b : ℕ)
      → get_elem? (resample_closes candles (suc k)) b ≡ close_of (get_elem? candles (b * suc k + k))
  unfolding resample_closes
  resample_closes-get_elem? candles k b =
      let at : 0 + b * suc k + k ≡ b * suc k + k = omega arith in
      closes_from-get_elem? (length candles) candles k 0 b (omega arith)
      ∙ ap (λ m. close_of (get_elem? candles m)) at

  -- The close of a higher time frame that is served at a bar does not depend on the candles behind that
  -- bar, whatever they are.
  pub htf_close-no_lookahead :
      (i k : ℕ) (one two : List (Candle F))
      → i < length one
      → (htf_close i (suc k) (resample_closes (one ++ two) (suc k))
          ≡ htf_close i (suc k) (resample_closes one (suc k)))
  unfolding htf_close
  htf_close-no_lookahead i k one two h = elim (Option-cases (last_closed_bin i (suc k))) [
    | inl e ↦ rw (e, htf_close) refl
    | inr (b, e) ↦
        let (ended, _) = last_closed_bin-IsLastClosed i k b e in
        rw (e, htf_close)
          (resample_closes-get_elem? (one ++ two) k b
            ∙ ap close_of (get_elem?-append one two (b * suc k + k) (omega (arith, ended, h)))
            ∙ sym (resample_closes-get_elem? one k b))
  ]
