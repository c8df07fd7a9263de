-- ===== src/Base/Exec/Keeps.antt =====
-- Invariants of code that changes a state and may raise: one rule for each way to build it.
use mathlib.Core.Path.{◌≡◌, refl}
use mathlib.Core.Bool.{Bool, true, false}
use exec_relay.Base.Tests.{if◌then◌else◌}
use exec_relay.Base.Exec.{Result, ok, err, Exec, pure, raise, gets, continue, ◌>>=◌, catch}

-- The state satisfies `P` after `m` if it did before, whether `m` returns or raises.
pub record Keeps {S E A : Type 0} (P : S → Type 0) (m : Exec S E A) : Type 0 where
  pub at : (s : S) → P s → P (m s).1

module _ {S E A : Type 0} {P : S → Type 0} where
  pub Keeps-pure : (a : A) → Keeps {E = E} P (pure a)
  unfolding pure
  Keeps-pure a = record { at = λ s h. h }

  pub Keeps-raise : (e : E) → Keeps {A = A} P (raise e)
  unfolding raise
  Keeps-raise e = record { at = λ s h. h }

  pub Keeps-gets : (f : S → A) → Keeps {E = E} P (gets f)
  unfolding gets
  Keeps-gets f = record { at = λ s h. h }

  -- Each branch may use what the test said.
  pub Keeps-if :
      (test : Bool) (one two : Exec S E A)
      → (test ≡ true → Keeps P one)
      → (test ≡ false → Keeps P two)
      → Keeps P (if test then one else two)
  Keeps-if true one two k_one k_two = k_one refl
  Keeps-if false one two k_one k_two = k_two refl

  pub Keeps-catch :
      (m : Exec S E A) (f : E → Exec S E A)
      → Keeps P m
      → ((e : E) → Keeps P (f e))
      → Keeps P (catch m f)
  unfolding catch
  Keeps-catch m f km kf = record { at = λ s h. handled (m s).0 (m s).1 (km.at s h) }
    where
      handled :
          (r : Result E A) (t : S)
          → P t
          → P (elim r as (λ _. Result E A × S) [ ok a ↦ (ok a, t) | err e ↦ f e t ]).1
      handled (ok a) t h = h
      handled (err e) t h = (kf e).at t h

module _ {S E A B : Type 0} {P : S → Type 0} where
  pub Keeps-bind :
      (first : Exec S E A) (next : A → Exec S E B)
      → Keeps P first
      → ((a : A) → Keeps P (next a))
      → Keeps P (first >>= next)
  unfolding ◌>>=◌
  Keeps-bind first next kept then_kept = record {
    at = λ s p. went_on (first s).0 (first s).1 (kept.at s p);
  }
    where
      went_on : (r : Result E A) (t : S) → P t → P (continue r next t).1
      went_on (ok a) t p = (then_kept a).at t p
      went_on (err e) t p = p

pub ruleset keeps_rules = (Keeps-pure, Keeps-raise, Keeps-gets, Keeps-if, Keeps-catch, Keeps-bind)
