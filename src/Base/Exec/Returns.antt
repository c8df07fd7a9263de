-- ===== src/Base/Exec/Returns.antt =====
-- What code that may raise returns when it returns: one rule for each way to build it.
use mathlib.Core.Path.{◌≡◌, refl}
use mathlib.Core.Bool.{Bool, true, false}
use exec_relay.Base.Tests.{if◌then◌else◌}
use exec_relay.Base.Exec.{Result, ok, err, Exec, pure, raise, continue, ◌>>=◌}

abbrev pub Holds : {E A : Type 0} → (A → Type 0) → Result E A → Type 0
Holds Q (ok a) = Q a
Holds Q (err e) = Unit {0}

-- A value that `m` returns satisfies `Q`, from any state.
pub record Returns {S E A : Type 0} (Q : A → Type 0) (m : Exec S E A) : Type 0 where
  pub at : (s : S) → Holds Q (m s).0

module _ {S E A : Type 0} {Q : A → Type 0} where
  pub Returns-pure : (a : A) → Q a → Returns {S = S} {E = E} Q (pure a)
  unfolding pure
  Returns-pure a q = record { at = λ s. q }

  pub Returns-raise : (e : E) → Returns {S = S} Q (raise e)
  unfolding raise
  Returns-raise e = record { at = λ s. tt }

  pub Returns-if :
      (b : Bool) (m n : Exec S E A)
      → (b ≡ true → Returns Q m)
      → (b ≡ false → Returns Q n)
      → Returns Q (if b then m else n)
  Returns-if true m n rm rn = rm refl
  Returns-if false m n rm rn = rn refl

module _ {S E A B : Type 0} {R : A → Type 0} {Q : B → Type 0} where
  Holds-continue :
      (r : Result E A) (f : A → Exec S E B) (s : S)
      → Holds R r
      → ((a : A) → R a → Returns Q (f a))
      → Holds Q (continue r f s).0
  Holds-continue (ok a) f s h k = (k a h).at s
  Holds-continue (err e) f s h k = tt

  pub Returns-bind :
      (m : Exec S E A) (f : A → Exec S E B)
      → Returns R m
      → ((a : A) → R a → Returns Q (f a))
      → Returns Q (m >>= f)
  unfolding ◌>>=◌
  Returns-bind m f rm k = record {
    at = λ s. let (r, s') = m s in Holds-continue r f s' (rm.at s) k;
  }

-- Where nothing is asked of the first value.
abbrev pub Any : {A : Type 0} → A → Type 0
Any a = Unit {0}

Holds-Any : {E A : Type 0} (r : Result E A) → Holds Any r
Holds-Any (ok a) = tt
Holds-Any (err e) = tt

module _ {S E A B : Type 0} {Q : B → Type 0} where
  pub Returns-then :
      (m : Exec S E A) (f : A → Exec S E B) → ((a : A) → Returns Q (f a)) → Returns Q (m >>= f)
  Returns-then m f k =
      Returns-bind {R = Any} m f (record { at = λ s. Holds-Any (m s).0 }) (λ a _. k a)
