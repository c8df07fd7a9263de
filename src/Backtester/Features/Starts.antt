-- ===== src/Backtester/Features/Starts.antt =====
-- The rows of apps/backtester/feature_builder.py on fewer candles are the starts of those on more.
use mathlib.Core.Option.{some-injective}
use mathlib.Core.Path.{subst}
use exec_relay.Base.{
  ℕ, suc, ◌≡◌, refl, sym, ap, ◌∙◌, Option, some, List, [], ◌∷◌, ◌++◌, map, length, Option-cases,
  inl, inr,
}
use exec_relay.Backtester.{Candle}
use exec_relay.Backtester.Indicators.{
  Numbers, pairwise, align, rma, true_range, range_of, atr, Dmi, dmi, di_rows, di_of, zip_with,
  plus_move, minus_move, first_of3, second_of3, third_of3, >>=-eq-some,
}
use exec_relay.Backtester.Indicators.Causal.{
  IsCausal, IsCausalOr, IsPrefix, after-IsCausalOr, align-IsCausalOr, rma-IsCausal,
  pairwise-IsCausal, smoothed-IsCausalOr, length-map, map-split, zip_with-append, length-zip_with,
}
use exec_relay.Backtester.Features.{change, or_undefined, returns}
use exec_relay.Backtester.Rows.{traverse}

-- A row on fewer bars, with the same values as the row on more.
abbrev pub IsStart : {A : Type 0} → ℕ → List A → List A → Type 0
IsStart n p out = IsPrefix p out × (length p ≡ n)

traverse-IsCausalOr : {A B : Type 0} (f : A → Option B) → IsCausalOr (traverse f)
unfolding traverse
traverse-IsCausalOr {A} {B} f = record { on_more = go }
  where
    go :
        (xs ys : List A) (out : List B)
        → traverse f (xs ++ ys) ≡ some out
        → (p : List B) × (traverse f xs ≡ some p) × IsPrefix p out × (length p ≡ length xs)
    go [] ys out h = ([], refl, (out, refl), refl)
    go (a ∷ xs) ys out h = elim (Option-cases (f a)) [
      | inl e ↦ absurd (cc (rw (e, traverse) at h))
      | inr (b, e) ↦ elim (Option-cases (traverse f (xs ++ ys))) [
        | inl g ↦ absurd (cc (rw (e, g, traverse) at h))
        | inr (more, g) ↦
            let (p, q, (r, s), l) = go xs ys more g in
            let here : some (b ∷ more) ≡ some out = rw (e, g, traverse) at h in
            let same : b ∷ more ≡ out = cc in
            (b ∷ p, rw (e, q, traverse) refl, (r, sym same ∙ ap (λ t. b ∷ t) s), ap suc l)
      ]
    ]

pub map-IsCausal : {A B : Type 0} (f : A → B) → IsCausal (map f)
map-IsCausal f = record {
  rest = λ xs ys. map f ys;
  same_length = length-map f;
  on_more = map-split f;
}

pub causal-IsStart :
    {A B : Type 0} (f : List A → List B)
    → IsCausal f
    → (xs ys : List A) → IsStart (length xs) (f xs) (f (xs ++ ys))
causal-IsStart f c xs ys = ((c.rest xs ys, c.on_more xs ys), c.same_length xs)

pub causal_or-IsStart :
    {A B : Type 0} (f : List A → Option (List B))
    → IsCausalOr f
    → (n : ℕ) (xs out_xs : List A) (out : List B) → IsStart n xs out_xs
    → f out_xs ≡ some out
    → (p : List B) × (f xs ≡ some p) × IsPrefix p out × (length p ≡ n)
causal_or-IsStart f c n xs out_xs out ((ys, e), l) h =
    let (p, q, r, k) = c.on_more xs ys out (ap f (sym e) ∙ h) in (p, q, r, k ∙ l)

zip_with-IsStart :
    {A B C : Type 0} (op : A → B → C) (n : ℕ) (xs xs' : List A) (ys ys' : List B)
    → IsStart n xs xs'
    → IsStart n ys ys'
    → IsStart n (zip_with op xs ys) (zip_with op xs' ys')
zip_with-IsStart op n xs xs' ys ys' ((r, e), l) ((s, f), k) = (
  (zip_with op r s, (λ i. zip_with op (e i) (f i)) ∙ zip_with-append op xs ys r s (l ∙ sym k)),
  length-zip_with op xs ys (l ∙ sym k) ∙ l,
)

map-IsStart :
    {A B : Type 0} (f : A → B) (n : ℕ) (xs xs' : List A)
    → IsStart n xs xs'
    → IsStart n (map f xs) (map f xs')
map-IsStart f n xs xs' ((r, e), l) =
    ((map f r, ap (map f) e ∙ map-split f xs r), length-map f xs ∙ l)

module _ {F : Type 0} ⦃num : Numbers F⦄ where
  abbrev pub DmiStart : ℕ → Dmi F → Dmi F → Type 0
  DmiStart n d out =
      IsStart n d.plus_di out.plus_di × IsStart n d.minus_di out.minus_di × IsStart n d.adx out.adx

  di_rows-IsStart :
      (n : ℕ) (t t' p p' m m' : List (Option F))
      → IsStart n t t'
      → IsStart n p p'
      → IsStart n m m'
      → IsStart n (di_rows t p m) (di_rows t' p' m')
  unfolding di_rows
  di_rows-IsStart n t t' p p' m m' ts ps ms =
      zip_with-IsStart di_of n t t' (zip_with _ p m) (zip_with _ p' m') ts
        (zip_with-IsStart _ n p p' m m' ps ms)

  abbrev made : List (Option F) → List (Option F) → List (Option F) → List (Option F) → Dmi F
  made t p m adx = record {
    plus_di = map first_of3 (di_rows t p m);
    minus_di = map second_of3 (di_rows t p m);
    adx = adx;
  }

  pub dmi_start :
      (n : ℕ) (xs ys : List (Candle F)) (out : Dmi F)
      → dmi n (xs ++ ys) ≡ some out
      → (d : Dmi F) × (dmi n xs ≡ some d) × DmiStart (length xs) d out
  unfolding dmi true_range
  dmi_start n xs ys out h =
      let smooth = align (rma n) in
      let k = length xs in
      let (t', e, h_plus) = >>=-eq-some (smooth (pairwise range_of (xs ++ ys))) _ h in
      let (p', f, h_minus) = >>=-eq-some (smooth (pairwise plus_move (xs ++ ys))) _ h_plus in
      let (m', g, h_adx) = >>=-eq-some (smooth (pairwise minus_move (xs ++ ys))) _ h_minus in
      let (x', z, here) = >>=-eq-some (smooth (map third_of3 (di_rows t' p' m'))) _ h_adx in
      let (t, qt, ts, tl) = (smoothed-IsCausalOr n range_of).on_more xs ys t' e in
      let (p, qp, ps, pl) = (smoothed-IsCausalOr n plus_move).on_more xs ys p' f in
      let (m, qm, ms, ml) = (smoothed-IsCausalOr n minus_move).on_more xs ys m' g in
      let rows = di_rows-IsStart k t t' p p' m m' (ts, tl) (ps, pl) (ms, ml) in
      let part = λ (get : Option F × Option F × Option F → Option F).
        map-IsStart get k (di_rows t p m) (di_rows t' p' m') rows in
      let (x, qx, xr, xl) =
        causal_or-IsStart smooth (align-IsCausalOr (rma n) (rma-IsCausal n)) k
          (map third_of3 (di_rows t p m)) (map third_of3 (di_rows t' p' m')) x' (part third_of3)
          z in
      let same : made t' p' m' x' ≡ out = some-injective _ _ here in
      (
        made t p m x,
        rw (qt, qp, qm, qx, dmi) refl,
        subst (λ o. DmiStart k (made t p m x) o) same (part first_of3, part second_of3, (xr, xl)),
      )

  pub atr_start :
      (n : ℕ) (xs ys : List (Candle F)) (out : List (Option F))
      → atr n (xs ++ ys) ≡ some out
      → (p : List (Option F)) × (atr n xs ≡ some p) × IsPrefix p out × (length p ≡ length xs)
  unfolding atr true_range
  atr_start n = (smoothed-IsCausalOr n range_of).on_more

  pub returns-IsCausalOr : IsCausalOr {A = F} returns
  unfolding returns
  returns-IsCausalOr =
      after-IsCausalOr (pairwise change) (traverse or_undefined) (pairwise-IsCausal change)
        (traverse-IsCausalOr or_undefined)
