-- ===== src/Backtester/Indicators/Causal.antt =====
-- The indicators of apps/backtester/feature_builder.py look at no later bar: on more values, the values
-- that they give for the earlier ones stay.
use exec_relay.Base.{
  ℕ, suc, ◌≡◌, refl, sym, ap, ◌∙◌, Option, none, some, List, [], ◌∷◌, ◌++◌, map, length, arith,
  Option-cases, inl, inr,
}
use exec_relay.Backtester.Indicators.{
  Numbers, scan, zip_with, pairwise, all_defined, align, sma_step, sma, stdev_step, stdev, ema_step,
  ema, rma_step, rma, rsi_of, rsi_behind, rsi_from_closes,
}

-- A row has one value for each input, and only more behind them on more inputs.
pub record IsCausal {A B : Type 0} (f : List A → List B) : Type 0 where
  pub rest : List A → List A → List B
  pub same_length : (xs : List A) → length (f xs) ≡ length xs
  pub on_more : (xs ys : List A) → f (xs ++ ys) ≡ f xs ++ rest xs ys

module _ {A B S : Type 0} (step : S → A → S × B) where
  final : S → List A → S
  final s [] = s
  final s (a ∷ xs) = final (step s a).0 xs

  scan-append :
      (s : S) (xs ys : List A)
      → scan step s (xs ++ ys) ≡ scan step s xs ++ scan step (final s xs) ys
  unfolding scan final
  scan-append s [] ys = refl
  scan-append s (a ∷ xs) ys = let (s', b) = step s a in ap (λ t. b ∷ t) (scan-append s' xs ys)

  length-scan : (s : S) (xs : List A) → length (scan step s xs) ≡ length xs
  unfolding scan
  length-scan s [] = refl
  length-scan s (a ∷ xs) = ap suc (length-scan (step s a).0 xs)

  pub scan-IsCausal : (s : S) → IsCausal (scan step s)
  scan-IsCausal s = record {
    rest = λ xs ys. scan step (final s xs) ys;
    same_length = length-scan s;
    on_more = scan-append s;
  }

pub length-map : {A B : Type 0} (f : A → B) (xs : List A) → length (map f xs) ≡ length xs
length-map f [] = refl
length-map f (x ∷ xs) = ap suc (length-map f xs)

pub map-split :
    {A B : Type 0} (f : A → B) (xs ys : List A) → map f (xs ++ ys) ≡ map f xs ++ map f ys
map-split f [] ys = refl
map-split f (x ∷ xs) ys = ap (λ t. f x ∷ t) (map-split f xs ys)

module _ {A B C : Type 0} (op : A → B → C) where
  pub zip_with-append :
      (as' : List A) (bs : List B) (more : List A) (others : List B)
      → length as' ≡ length bs
      → zip_with op (as' ++ more) (bs ++ others) ≡ zip_with op as' bs ++ zip_with op more others
  unfolding zip_with
  zip_with-append [] [] more others h = refl
  zip_with-append [] (b ∷ bs) more others h = absurd (omega (arith, h))
  zip_with-append (a ∷ as') [] more others h = absurd (omega (arith, h))
  zip_with-append (a ∷ as') (b ∷ bs) more others h =
      ap (λ t. op a b ∷ t) (zip_with-append as' bs more others (omega (arith, h)))

  pub length-zip_with :
      (as' : List A) (bs : List B)
      → length as' ≡ length bs
      → length (zip_with op as' bs) ≡ length as'
  unfolding zip_with
  length-zip_with [] bs h = refl
  length-zip_with (a ∷ as') [] h = absurd (omega (arith, h))
  length-zip_with (a ∷ as') (b ∷ bs) h = ap suc (length-zip_with as' bs (omega (arith, h)))

module _ {A B C : Type 0} where
  pub after-IsCausal :
      (f : List A → List B) (g : List B → List C)
      → IsCausal f
      → IsCausal g
      → IsCausal (λ xs. g (f xs))
  after-IsCausal f g cf cg = record {
    rest = λ xs ys. cg.rest (f xs) (cf.rest xs ys);
    same_length = λ xs. cg.same_length (f xs) ∙ cf.same_length xs;
    on_more = λ xs ys. ap g (cf.on_more xs ys) ∙ cg.on_more (f xs) (cf.rest xs ys);
  }

module _ {A B C D : Type 0} where
  pub zip_with-IsCausal :
      (op : B → C → D) (f : List A → List B) (g : List A → List C)
      → IsCausal f
      → IsCausal g
      → IsCausal (λ xs. zip_with op (f xs) (g xs))
  zip_with-IsCausal op f g cf cg =
      let level = λ (xs : List A). cf.same_length xs ∙ sym (cg.same_length xs) in
      record {
        rest = λ xs ys. zip_with op (cf.rest xs ys) (cg.rest xs ys);
        same_length = λ xs. length-zip_with op (f xs) (g xs) (level xs) ∙ cf.same_length xs;
        on_more = λ xs ys.
            (λ i. zip_with op (cf.on_more xs ys i) (cg.on_more xs ys i))
            ∙ zip_with-append op (f xs) (g xs) (cf.rest xs ys) (cg.rest xs ys) (level xs);
      }

abbrev pub IsPrefix : {A : Type 0} → List A → List A → Type 0
IsPrefix {A} p out = (r : List A) × (out ≡ p ++ r)

-- The same of a function that may fail: where it succeeds on more inputs, it has succeeded on fewer.
pub record IsCausalOr {A B : Type 0} (f : List A → Option (List B)) : Type 0 where
  pub on_more :
      (xs ys : List A) (out : List B)
      → f (xs ++ ys) ≡ some out
      → (p : List B) × (f xs ≡ some p) × IsPrefix p out × (length p ≡ length xs)

all_defined-append :
    {A : Type 0} (xs ys : List (Option A)) (out : List A)
    → all_defined (xs ++ ys) ≡ some out
    → (p : List A) × (all_defined xs ≡ some p) × IsPrefix p out × (length p ≡ length xs)
unfolding all_defined
all_defined-append [] ys out h = ([], refl, (out, refl), refl)
all_defined-append (none ∷ xs) ys out h = absurd (cc h)
all_defined-append (some v ∷ xs) ys out h = elim (Option-cases (all_defined (xs ++ ys))) [
  | inl e ↦ absurd (cc (rw (e, all_defined) at h))
  | inr (more, e) ↦
      let (p, q, (r, s), l) = all_defined-append xs ys more e in
      let here : some (v ∷ more) ≡ some out = rw (e, all_defined) at h in
      let same : v ∷ more ≡ out = cc in
      (v ∷ p, rw (q, all_defined) refl, (r, sym same ∙ ap (λ t. v ∷ t) s), ap suc l)
]

pub align-IsCausalOr :
    {A B : Type 0} (fn : List A → List (Option B)) → IsCausal fn → IsCausalOr (align fn)
unfolding align
align-IsCausalOr {A} {B} fn c = record { on_more = go }
  where
    go :
        (xs ys : List (Option A)) (out : List (Option B))
        → align fn (xs ++ ys) ≡ some out
        → (p : List (Option B)) × (align fn xs ≡ some p) × IsPrefix p out × (length p ≡ length xs)
    go [] ys out h = ([], refl, (out, refl), refl)
    go (none ∷ xs) ys out h = elim (Option-cases (align fn (xs ++ ys))) [
      | inl e ↦ absurd (cc (rw (e, align) at h))
      | inr (more, e) ↦
          let (p, q, (r, s), l) = go xs ys more e in
          let here : some (none ∷ more) ≡ some out = rw (e, align) at h in
          let same : none ∷ more ≡ out = cc in
          (none ∷ p, rw (q, align) refl, (r, sym same ∙ ap (λ t. none ∷ t) s), ap suc l)
    ]
    go (some v ∷ xs) ys out h = elim (Option-cases (all_defined (some v ∷ xs ++ ys))) [
      | inl e ↦ absurd (cc (rw (e, align) at h))
      | inr (clean, e) ↦
          let (p, q, (r, s), l) = all_defined-append (some v ∷ xs) ys clean e in
          let here : some (fn clean) ≡ some out = rw (e, align) at h in
          let same : fn clean ≡ out = cc in
          (
            fn p,
            rw (q, align) refl,
            (c.rest p r, sym same ∙ ap fn s ∙ c.on_more p r),
            c.same_length p ∙ l,
          )
    ]

pub after-IsCausalOr :
    {A B C : Type 0} (f : List A → List B) (g : List B → Option (List C))
    → IsCausal f
    → IsCausalOr g
    → IsCausalOr (λ xs. g (f xs))
after-IsCausalOr f g cf cg = record {
  on_more = λ xs ys out h.
      let (p, q, r, l) =
        cg.on_more (f xs) (cf.rest xs ys) out (ap g (sym (cf.on_more xs ys)) ∙ h) in
      (p, q, r, l ∙ cf.same_length xs);
}

pub pairwise-IsCausal : {A B : Type 0} (op : A → A → B) → IsCausal (pairwise op)
unfolding pairwise
pairwise-IsCausal op = scan-IsCausal _ none

module _ {F : Type 0} ⦃num : Numbers F⦄ where
  pub sma-IsCausal : (n : ℕ) → IsCausal {A = F} (sma n)
  unfolding sma
  sma-IsCausal n = scan-IsCausal (sma_step n) ([], num.of_nat 0)

  pub stdev-IsCausal : (n : ℕ) → IsCausal {A = F} (stdev n)
  unfolding stdev
  stdev-IsCausal n = scan-IsCausal (stdev_step n) []

  pub ema-IsCausal : (n : ℕ) → IsCausal {A = F} (ema n)
  unfolding ema
  ema-IsCausal n = scan-IsCausal (ema_step n) none

  pub rma-IsCausal : (n : ℕ) → IsCausal {A = F} (rma n)
  unfolding rma
  rma-IsCausal n = scan-IsCausal (rma_step n) ([], none)

  rsi_behind-IsCausal : (n : ℕ) (prev : F) → IsCausal (rsi_behind n prev)
  unfolding rsi_behind
  rsi_behind-IsCausal n prev =
      zip_with-IsCausal rsi_of _ _
        (after-IsCausal _ (rma n) (scan-IsCausal _ prev) (rma-IsCausal n))
        (after-IsCausal _ (rma n) (scan-IsCausal _ prev) (rma-IsCausal n))

  pub rsi_from_closes-IsCausal : (n : ℕ) → IsCausal {A = F} (rsi_from_closes n)
  unfolding rsi_from_closes
  rsi_from_closes-IsCausal n = record { rest = rest; same_length = level; on_more = more }
    where
      rest : List F → List F → List (Option F)
      rest [] ys = rsi_from_closes n ys
      rest (c ∷ cs) ys = (rsi_behind-IsCausal n c).rest cs ys

      level : (xs : List F) → length (rsi_from_closes n xs) ≡ length xs
      level [] = refl
      level (c ∷ cs) = ap suc ((rsi_behind-IsCausal n c).same_length cs)

      more : (xs ys : List F) → rsi_from_closes n (xs ++ ys) ≡ rsi_from_closes n xs ++ rest xs ys
      more [] ys = refl
      more (c ∷ cs) ys = ap (λ t. none ∷ t) ((rsi_behind-IsCausal n c).on_more cs ys)

  pub smoothed-IsCausalOr :
      {A : Type 0} (n : ℕ) (op : A → A → F) → IsCausalOr (λ xs. align (rma n) (pairwise op xs))
  smoothed-IsCausalOr n op =
      after-IsCausalOr (pairwise op) (align (rma n)) (pairwise-IsCausal op)
        (align-IsCausalOr (rma n) (rma-IsCausal n))
