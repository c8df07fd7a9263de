-- ===== src/Wire/Parse/Writable.antt =====
-- The texts of an accepted signal were decoded from UTF-8, so they can be encoded again.
use Prim.Native.Nat.{bit_and}
use exec_relay.Base.{
  ℕ, zero, suc, ◌/◌, ◌^◌, ◌≡◌, refl, Bool, true, false, Option, none, some, List, [], ◌∷◌, ◌++◌,
  arith, ltb, ◌==◌, if◌then◌else◌, length, take, All,
}
use mathlib.Core.Path.{subst}
use exec_relay.Base.Text.{Text}
use exec_relay.Wire.Varint.{varint}
use exec_relay.Wire.Utf8.{IsScalar, decode}
use exec_relay.Wire.Utf8.RoundTrip.{decode-IsScalar}
use exec_relay.Wire.Signal.{
  Param, Signal, empty, empty_param, StringField, string_field, set_field, set_param, set_number,
  IsWritableParam, IsWritableSignal,
}
use exec_relay.Wire.Parse.{
  ParseError, Parsed, ok, err, ◌>>=◌, or_raise, parse_param_text, parse_param_field, parse_param,
  store_as, store_bytes, parse_field, parse_fields, check_required, parse_signal,
}

abbrev Ensures : {A : Type 0} → (A → Type 0) → Parsed A → Type 0
Ensures P (ok a) = P a
Ensures P (err e) = Unit {0}

Ensures-bind :
    {A B : Type 0} (P : A → Type 0) (Q : B → Type 0) (m : Parsed A) (f : A → Parsed B)
    → Ensures P m
    → ((a : A) → P a → Ensures Q (f a))
    → Ensures Q (m >>= f)
Ensures-bind P Q (ok a) f h k = k a h
Ensures-bind P Q (err e) f h k = tt

-- What follows an operation of whose result nothing is known.
Ensures-after :
    {A B : Type 0} (Q : B → Type 0) (m : Parsed A) (f : A → Parsed B)
    → ((a : A) → Ensures Q (f a))
    → Ensures Q (m >>= f)
Ensures-after Q (ok a) f k = k a
Ensures-after Q (err e) f k = tt

Ensures-decode :
    {B : Type 0} (Q : B → Type 0) (raw : List ℕ) (e : ParseError) (f : Text → Parsed B)
    → ((v : Text) → All IsScalar v → Ensures Q (f v))
    → Ensures Q (or_raise (decode raw) e >>= f)
Ensures-decode Q raw e f k =
    Ensures-bind (All IsScalar) Q (or_raise (decode raw) e) f
      (scalar (decode raw) (decode-IsScalar raw)) k
  where
    scalar :
        (o : Option Text)
        → ((v : Text) → o ≡ some v → All IsScalar v)
        → Ensures (All IsScalar) (or_raise o e)
    scalar none h = unfold or_raise in tt
    scalar (some v) h = unfold or_raise in h v refl

Ensures-if :
    {A : Type 0} (P : A → Type 0) (b : Bool) (m n : Parsed A)
    → Ensures P m
    → Ensures P n
    → Ensures P (if b then m else n)
Ensures-if P true m n h k = h
Ensures-if P false m n h k = k

abbrev First : {A : Type 0} → (A → Type 0) → A × List ℕ → Type 0
First P (a, _) = P a

if-holds : {A : Type 0} (P : A → Type 0) (b : Bool) (x y : A) → P x → P y → P (if b then x else y)
if-holds P true x y h k = h
if-holds P false x y h k = k

set_param-IsWritableParam :
    (fn : ℕ) (v : Text) (p : Param)
    → All IsScalar v
    → IsWritableParam p
    → IsWritableParam (set_param fn v p)
unfolding set_param
set_param-IsWritableParam fn v p hv h =
    if-holds IsWritableParam (fn == 1) _ _ (assumption)
      (if-holds IsWritableParam (fn == 2) _ p (assumption) h)

param_text :
    (fn : ℕ) (raw : List ℕ) (p : Param)
    → IsWritableParam p
    → Ensures (First IsWritableParam) (parse_param_text fn raw p)
unfolding parse_param_text
param_text fn raw p h =
    Ensures-after (First IsWritableParam) (or_raise (varint raw) _) _ λ (ln, rest).
      Ensures-if (First IsWritableParam) (ltb (length rest) ln) (err _) _ tt (
        Ensures-decode (First IsWritableParam) (take ln rest) _ _
          (λ v hv. set_param-IsWritableParam fn v p hv h))

param_field :
    (raw : List ℕ) (p : Param)
    → IsWritableParam p
    → Ensures (First IsWritableParam) (parse_param_field raw p)
unfolding parse_param_field
param_field raw p h = Ensures-after (First IsWritableParam) (or_raise (varint raw) _) _ λ (t, rest).
    Ensures-if (First IsWritableParam) (bit_and t 0x7 == 2) _ (err _)
      (param_text (t / 2 ^ 3) rest p h) tt

param_loop :
    (fuel : ℕ) (raw : List ℕ) (p : Param)
    → IsWritableParam p
    → Ensures IsWritableParam (parse_param fuel raw p)
unfolding parse_param
param_loop fuel [] p h = h
param_loop zero (b ∷ raw) p h = tt
param_loop (suc fuel) (b ∷ raw) p h =
    Ensures-bind (First IsWritableParam) IsWritableParam (parse_param_field (b ∷ raw) p) _
      (param_field (b ∷ raw) p h) (λ (q, rest) hq. param_loop fuel rest q hq)

set_field-IsWritableSignal :
    (f : StringField) (v : Text) (s : Signal)
    → All IsScalar v
    → IsWritableSignal s
    → IsWritableSignal (set_field f v s)
unfolding set_field
set_field-IsWritableSignal StringField.trace_id v s hv h = assumption
set_field-IsWritableSignal StringField.license_id v s hv h = assumption
set_field-IsWritableSignal StringField.instance_id v s hv h = assumption
set_field-IsWritableSignal StringField.command v s hv h = assumption
set_field-IsWritableSignal StringField.raw_command v s hv h = assumption
set_field-IsWritableSignal StringField.symbol v s hv h = assumption
set_field-IsWritableSignal StringField.ingress_region v s hv h = assumption
set_field-IsWritableSignal StringField.body_sha256 v s hv h = assumption

All-snoc :
    {A : Type 0} (P : A → Type 0) (xs : List A) (a : A) → All P xs → P a → All P (xs ++ a ∷ [])
All-snoc P [] a h k = (k, tt)
All-snoc P (x ∷ xs) a h k = (h.0, All-snoc P xs a h.1 k)

params-IsWritableSignal :
    (s : Signal) (p : Param)
    → IsWritableSignal s
    → IsWritableParam p
    → IsWritableSignal (record s { params = s.params ++ p ∷ [] })
params-IsWritableSignal s p h hp =
    let more : All IsWritableParam (s.params ++ p ∷ []) =
      All-snoc IsWritableParam s.params p h.params hp in
    assumption more

stored :
    (f : Option StringField) (n : ℕ) (raw : List ℕ) (s : Signal)
    → IsWritableSignal s
    → Ensures IsWritableSignal (store_as f n raw s)
unfolding store_as
stored (some f) n raw s h =
    Ensures-decode IsWritableSignal raw _ _ (λ v hv. set_field-IsWritableSignal f v s hv h)
stored none n raw s h =
    Ensures-if IsWritableSignal (n == 10) _ (ok s)
      (Ensures-bind IsWritableParam IsWritableSignal (parse_param (length raw) raw empty_param) _
        (param_loop (length raw) raw empty_param (record { key = tt; value = tt }))
        (λ p hp. params-IsWritableSignal s p h hp))
      h

numbered : (n v : ℕ) (s : Signal) → IsWritableSignal s → IsWritableSignal (set_number n v s)
unfolding set_number
numbered n v s h = if-holds IsWritableSignal (n == 8) _ s (assumption) h

field :
    (bs : List ℕ) (s : Signal)
    → IsWritableSignal s
    → Ensures (First IsWritableSignal) (parse_field bs s)
unfolding parse_field store_bytes
field bs s h = Ensures-after (First IsWritableSignal) (or_raise (varint bs) _) _ λ (tag, rest).
    Ensures-if (First IsWritableSignal) (bit_and tag 0x7 == 0) _ _
      (Ensures-after (First IsWritableSignal) (or_raise (varint rest) _) _
        (λ (v, r). numbered (tag / 2 ^ 3) v s h))
      (Ensures-if (First IsWritableSignal) (bit_and tag 0x7 == 2) _ (err _)
        (Ensures-after (First IsWritableSignal) (or_raise (varint rest) _) _ (λ (len, r).
          Ensures-if (First IsWritableSignal) (ltb (length r) len) (err _) _ tt (
            Ensures-bind IsWritableSignal (First IsWritableSignal)
              (store_as (string_field (tag / 2 ^ 3)) (tag / 2 ^ 3) (take len r) s) _
              (stored (string_field (tag / 2 ^ 3)) (tag / 2 ^ 3) (take len r) s h) (λ t ht. ht))))
        tt)

fields :
    (fuel : ℕ) (bs : List ℕ) (s : Signal)
    → IsWritableSignal s
    → Ensures IsWritableSignal (parse_fields fuel bs s)
unfolding parse_fields
fields fuel [] s h = h
fields zero (b ∷ bs) s h = tt
fields (suc fuel) (b ∷ bs) s h =
    Ensures-bind (First IsWritableSignal) IsWritableSignal (parse_field (b ∷ bs) s) _
      (field (b ∷ bs) s h) (λ (t, rest) ht. fields fuel rest t ht)

checked : (s : Signal) → IsWritableSignal s → Ensures IsWritableSignal (check_required s)
unfolding check_required
checked s h = Ensures-if IsWritableSignal _ (ok s) (err _) h tt

payload : (bs : List ℕ) → Ensures IsWritableSignal (parse_signal bs)
unfolding parse_signal
payload [] = tt
payload (b ∷ bs) =
    Ensures-bind IsWritableSignal IsWritableSignal (parse_fields (suc (length bs)) (b ∷ bs) empty) _
      (fields (suc (length bs)) (b ∷ bs) empty (omega arith)) checked

-- Every text of a signal that `parse_signal` accepts consists of Unicode scalar values.
pub parse_signal-IsWritableSignal :
    (bs : List ℕ) (s : Signal) → parse_signal bs ≡ ok s → IsWritableSignal s
parse_signal-IsWritableSignal bs s e = subst (Ensures IsWritableSignal) e (payload bs)
