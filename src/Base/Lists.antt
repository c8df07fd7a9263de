-- ===== src/Base/Lists.antt =====
-- Lists measured by native numbers, predicates on all or some elements, and their laws.
use Prim.Native.Nat.{ℕ, zero, suc, ◌+◌, ◌-◌, ◌≤◌}
use mathlib.Core.Path.{◌≡◌, refl, ap}
use mathlib.Core.Logic.{◌⊎◌, inl, inr}
use mathlib.Core.Bool.{Bool, true, false}
use mathlib.Core.List.{List, [], ◌∷◌, ◌++◌}
use native.Mathlib.Omega.{arith}
use exec_relay.Base.Tests.{if◌then◌else◌}

module _ {ℓ} {A : Type ℓ} where
  abbrev pub length : List A → ℕ
  length [] = 0
  length (x ∷ xs) = suc (length xs)

  abbrev pub take : ℕ → List A → List A
  take zero xs = []
  take (suc n) [] = []
  take (suc n) (x ∷ xs) = x ∷ take n xs

  abbrev pub drop : ℕ → List A → List A
  drop zero xs = xs
  drop (suc n) [] = []
  drop (suc n) (x ∷ xs) = drop n xs

  pub length-append : (xs ys : List A) → length (xs ++ ys) ≡ length xs + length ys
  length-append [] ys = omega arith
  length-append (x ∷ xs) ys = omega (arith, length-append xs ys)

  pub take-append_length : (xs ys : List A) → take (length xs) (xs ++ ys) ≡ xs
  take-append_length [] ys = refl
  take-append_length (x ∷ xs) ys = ap (λ t. x ∷ t) (take-append_length xs ys)

  pub drop-append_length : (xs ys : List A) → drop (length xs) (xs ++ ys) ≡ ys
  drop-append_length [] ys = refl
  drop-append_length (x ∷ xs) ys = drop-append_length xs ys

  pub length-drop : (n : ℕ) (xs : List A) → length (drop n xs) ≡ length xs - n
  length-drop zero xs = omega arith
  length-drop (suc n) [] = omega arith
  length-drop (suc n) (x ∷ xs) = omega (arith, length-drop n xs)

  pub length-take_le : (n : ℕ) (xs : List A) → length (take n xs) ≤ n
  length-take_le zero xs = omega arith
  length-take_le (suc n) [] = omega arith
  length-take_le (suc n) (x ∷ xs) = omega (arith, length-take_le n xs)

  abbrev pub All {κ} : (A → Type κ) → List A → Type κ
  All P [] = Unit {κ}
  All P (x ∷ xs) = P x × All P xs

-- Membership with its place, over small types.
abbrev pub In : {A : Type 0} → A → List A → Type 0
In a [] = ⊥
In a (x ∷ xs) = (a ≡ x) ⊎ In a xs

module _ {A : Type 0} where
  -- [x for x in xs if p(x)]
  unfoldable pub keep : (A → Bool) → List A → List A
  keep p [] = []
  keep p (x ∷ xs) = let rest = keep p xs in if p x then x ∷ rest else rest

  pub In-keep : (p : A → Bool) (a : A) (xs : List A) → In a (keep p xs) → In a xs × (p a ≡ true)
  unfolding keep
  In-keep p a [] h = absurd h
  In-keep p a (x ∷ xs) h = ground (arith, In-keep p a xs)

module _ {A : Type 0} where
  pub keep-append_one :
      (q : A → Bool) (a : A) (rows : List A) → q a ≡ false → keep q (rows ++ a ∷ []) ≡ keep q rows
  unfolding keep
  keep-append_one q a [] h = rw h refl
  keep-append_one q a (b ∷ rows) h = rw (keep-append_one q a rows h) refl

  pub All-weaken :
      (P Q : A → Type 0) (rows : List A) → ((a : A) → P a → Q a) → All P rows → All Q rows
  All-weaken P Q [] f h = tt
  All-weaken P Q (a ∷ rows) f (h, hs) = (f a h, All-weaken P Q rows f hs)

  pub All-at : (P : A → Type 0) (a : A) (rows : List A) → All P rows → In a rows → P a
  All-at P a [] h m = absurd m
  All-at P a (b ∷ rows) (h, hs) (inl e) = rw e h
  All-at P a (b ∷ rows) (h, hs) (inr m) = All-at P a rows hs m

-- Some element satisfies the predicate, with its place.
abbrev pub Some : {A : Type 0} → (A → Type 0) → List A → Type 0
Some P [] = ⊥
Some P (x ∷ xs) = P x ⊎ Some P xs

-- UPDATE … SET … WHERE, on each row that the test picks
module _ {A : Type 0} where
  unfoldable pub update_where : (A → Bool) → (A → A) → List A → List A
  update_where p f [] = []
  update_where p f (a ∷ rows) =
      let rest = update_where p f rows in if p a then f a ∷ rest else a ∷ rest

  -- Two updates of the same rows are one.
  pub update_where-update_where :
      (q : A → Bool) (f g : A → A) (rows : List A)
      → ((a : A) → q (f a) ≡ q a)
      → update_where q g (update_where q f rows) ≡ update_where q (λ a. g (f a)) rows
  unfolding update_where
  update_where-update_where q f g [] same = refl
  update_where-update_where q f g (a ∷ rows) same =
      ground (arith, update_where-update_where q f g rows same, same a)
