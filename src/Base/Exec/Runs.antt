-- ===== src/Base/Exec/Runs.antt =====
-- What code that may raise does when it cannot raise: a relation between the state before, the value
-- returned and the state after, with one rule for each way to build it.
use mathlib.Core.Path.{◌≡◌, refl}
use mathlib.Core.Bool.{Bool, true, false}
use exec_relay.Base.Tests.{if◌then◌else◌}
use exec_relay.Base.Exec.{Result, ok, err, Exec, pure, gets, modify, continue, ◌>>=◌, catch}

abbrev pub Ends : {S E A : Type 0} → (A → S → Type 0) → Result E A → S → Type 0
Ends R (ok a) s = R a s
Ends R (err e) s = ⊥

-- From every state `m` returns, and the relation holds.
pub record Runs {S E A : Type 0} (R : S → A → S → Type 0) (m : Exec S E A) : Type 0 where
  pub at : (s : S) → Ends (R s) (m s).0 (m s).1

module _ {S E A : Type 0} {R : S → A → S → Type 0} where
  pub Runs-pure : (a : A) → ((s : S) → R s a s) → Runs {E = E} R (pure a)
  unfolding pure
  Runs-pure a h = record { at = h }

  pub Runs-gets : (f : S → A) → ((s : S) → R s (f s) s) → Runs {E = E} R (gets f)
  unfolding gets
  Runs-gets f h = record { at = h }

  pub Runs-if :
      (b : Bool) (m n : Exec S E A)
      → (b ≡ true → Runs R m)
      → (b ≡ false → Runs R n)
      → Runs R (if b then m else n)
  Runs-if true m n rm rn = rm refl
  Runs-if false m n rm rn = rn refl

  -- What returns is not handled.
  pub Runs-catch : (m : Exec S E A) (f : E → Exec S E A) → Runs R m → Runs R (catch m f)
  unfolding catch
  Runs-catch m f rm = record { at = λ s. passed (m s).0 (m s).1 s (rm.at s) }
    where
      passed :
          (r : Result E A) (t s : S)
          → Ends (R s) r t
          → Ends
              (R s)
              (elim r as (λ _. Result E A × S) [ ok a ↦ (ok a, t) | err e ↦ f e t ]).0
              (elim r as (λ _. Result E A × S) [ ok a ↦ (ok a, t) | err e ↦ f e t ]).1
      passed (ok a) t s h = h
      passed (err e) t s h = absurd h

module _ {S E : Type 0} {R : S → Unit {0} → S → Type 0} where
  pub Runs-modify : (f : S → S) → ((s : S) → R s tt (f s)) → Runs {E = E} R (modify f)
  unfolding modify
  Runs-modify f h = record { at = h }

module _ {S E A B : Type 0} {R : S → A → S → Type 0} {Q : A → S → B → S → Type 0}
    {T : S → B → S → Type 0} where
  pub Runs-bind :
      (m : Exec S E A) (f : A → Exec S E B)
      → Runs R m
      → ((a : A) → Runs (Q a) (f a))
      → ((s t u : S) (a : A) (b : B) → R s a t → Q a t b u → T s b u)
      → Runs T (m >>= f)
  unfolding ◌>>=◌
  Runs-bind m f rm rf join = record { at = λ s. went_on (m s).0 (m s).1 s (rm.at s) }
    where
      joined : (r : Result E B) (s t u : S) (a : A) → R s a t → Ends (Q a t) r u → Ends (T s) r u
      joined (ok b) s t u a h k = join s t u a b h k
      joined (err e) s t u a h k = k

      went_on :
          (r : Result E A) (t s : S)
          → Ends (R s) r t
          → Ends (T s) (continue r f t).0 (continue r f t).1
      went_on (ok a) t s h = joined (f a t).0 s t (f a t).1 a h ((rf a).at t)
      went_on (err e) t s h = absurd h

-- A relation that holds is kept under a weaker one.
pub Runs-weaken :
    {S E A : Type 0} {R Q : S → A → S → Type 0} (m : Exec S E A)
    → Runs R m
    → ((s t : S) (a : A) → R s a t → Q s a t)
    → Runs Q m
Runs-weaken {S} {E} {A} {R} {Q} m rm w = record { at = λ s. on (m s).0 (m s).1 s (rm.at s) }
  where
    on : (r : Result E A) (t s : S) → Ends (R s) r t → Ends (Q s) r t
    on (ok a) t s h = w s t a h
    on (err e) t s h = h
