-- ===== src/Wire/Agreement.antt =====
-- The strict reader of the persist service and the lax one of the portal: where the first accepts,
-- the second returns the same signal.
use Prim.Native.Nat.{bit_and}
use exec_relay.Base.{
  ℕ, zero, suc, ◌/◌, ◌^◌, ◌≡◌, refl, ap, ◌∙◌, Bool, true, false, Option, none, some, List, [], ◌∷◌,
  arith, ltb, ◌==◌, if◌then◌else◌, length, take, drop, Option-cases, inl, inr,
}
use exec_relay.Wire.Varint.{varint}
use exec_relay.Wire.Utf8.{decode, decode_replace}
use exec_relay.Wire.Utf8.RoundTrip.{decode_replace-decode}
use exec_relay.Wire.Signal.{
  Param, Signal, empty, empty_param, StringField, string_field, set_field, set_param,
}
use exec_relay.Wire.Parse.{
  ParseError, Parsed, ok, err, ◌>>=◌ as ◌⟫=◌, or_raise, parse_param_text, parse_param_field,
  parse_param, store_as, store_bytes, parse_number, parse_bytes, parse_field, parse_fields,
  check_required, parse_signal,
}
use exec_relay.Wire.Portal.{
  ◌>>=◌, decode_param_text, decode_param_field, decode_param, decode_as, decode_bytes,
  decode_number, decode_sized, decode_field, decode_fields, decode_signal_proto,
}

-- What the strict code accepts, the lax code accepts with the same result.
abbrev Agrees : {A : Type 0} → Parsed A → Option A → Type 0
Agrees (ok a) o = o ≡ some a
Agrees (err e) o = Unit {0}

Agrees-bind :
    {A B : Type 0} (m : Parsed A) (o : Option A) (f : A → Parsed B) (g : A → Option B)
    → Agrees m o
    → ((a : A) → Agrees (f a) (g a))
    → Agrees (m ⟫= f) (o >>= g)
Agrees-bind (ok a) o f g h k = rw h (k a)
Agrees-bind (err e) o f g h k = tt

Agrees-or_raise : {A : Type 0} (o : Option A) (e : ParseError) → Agrees (or_raise o e) o
unfolding or_raise
Agrees-or_raise none e = tt
Agrees-or_raise (some a) e = refl

Agrees-if :
    {A : Type 0} (b : Bool) (m n : Parsed A) (o p : Option A)
    → Agrees m o
    → Agrees n p
    → Agrees (if b then m else n) (if b then o else p)
Agrees-if true m n o p h k = h
Agrees-if false m n o p h k = k

Agrees-guard :
    {A : Type 0} (b : Bool) (e : ParseError) (m : Parsed A) (o : Option A)
    → Agrees m o
    → Agrees (if b then err e else m) o
Agrees-guard true e m o h = tt
Agrees-guard false e m o h = h

-- Accepted texts read the same whether errors are raised or replaced.
Agrees-decode :
    {B : Type 0} (raw : List ℕ) (e : ParseError) (f : List ℕ → Parsed B) (g : List ℕ → Option B)
    → ((v : List ℕ) → Agrees (f v) (g v))
    → Agrees (or_raise (decode raw) e ⟫= f) (g (decode_replace raw))
unfolding or_raise
Agrees-decode raw e f g k = elim (Option-cases (decode raw)) [
  | inl failed ↦ rw failed tt
  | inr (v, found) ↦ rw (found, decode_replace-decode raw v found) (k v)
]

Agrees-param_text :
    (fn : ℕ) (raw : List ℕ) (param : Param)
    → Agrees (parse_param_text fn raw param) (decode_param_text fn raw param)
unfolding parse_param_text decode_param_text
Agrees-param_text fn raw param =
    Agrees-bind (or_raise (varint raw) _) (varint raw) _ _ (Agrees-or_raise (varint raw) _)
      λ (ln, rest). Agrees-guard (ltb (length rest) ln) _ _ _ (
        Agrees-decode (take ln rest) _ _ (λ v. some (set_param fn v param, drop ln rest))
          (λ v. refl))

Agrees-param_field :
    (raw : List ℕ) (param : Param)
    → Agrees (parse_param_field raw param) (decode_param_field raw param)
unfolding parse_param_field decode_param_field
Agrees-param_field raw param =
    Agrees-bind (or_raise (varint raw) _) (varint raw) _ _ (Agrees-or_raise (varint raw) _)
      λ (t, rest).
        Agrees-if (bit_and t 0x7 == 2) _ _ _ _ (Agrees-param_text (t / 2 ^ 3) rest param) tt

Agrees-param :
    (fuel : ℕ) (raw : List ℕ) (param : Param)
    → Agrees (parse_param fuel raw param) (decode_param fuel raw param)
unfolding parse_param decode_param
Agrees-param fuel [] param = refl
Agrees-param zero (b ∷ raw) param = tt
Agrees-param (suc fuel) (b ∷ raw) param =
    Agrees-bind (parse_param_field (b ∷ raw) param) (decode_param_field (b ∷ raw) param) _ _
      (Agrees-param_field (b ∷ raw) param) (λ (p, rest). Agrees-param fuel rest p)

Agrees-as :
    (f : Option StringField) (field_num : ℕ) (raw : List ℕ) (sig : Signal)
    → Agrees (store_as f field_num raw sig) (decode_as f field_num raw sig)
unfolding store_as decode_as
Agrees-as (some f) field_num raw sig =
    Agrees-decode raw _ _ (λ v. some (set_field f v sig)) (λ v. refl)
Agrees-as none field_num raw sig =
    Agrees-if (field_num == 10) _ _ _ _
      (Agrees-bind (parse_param (length raw) raw empty_param) _ _ _
        (Agrees-param (length raw) raw empty_param) (λ p. refl))
      refl

Agrees-number :
    (field_num : ℕ) (bs : List ℕ) (sig : Signal)
    → Agrees (parse_number field_num bs sig) (decode_number field_num bs sig)
unfolding parse_number decode_number
Agrees-number field_num bs sig =
    Agrees-bind (or_raise (varint bs) _) (varint bs) _ _ (Agrees-or_raise (varint bs) _)
      (λ (n, rest). refl)

Agrees-sized :
    (field_num : ℕ) (bs : List ℕ) (sig : Signal)
    → Agrees (parse_bytes field_num bs sig) (decode_sized field_num bs sig)
unfolding parse_bytes decode_sized store_bytes decode_bytes
Agrees-sized field_num bs sig =
    Agrees-bind (or_raise (varint bs) _) (varint bs) _ _ (Agrees-or_raise (varint bs) _)
      λ (len, rest). Agrees-guard (ltb (length rest) len) _ _ _ (
        Agrees-bind (store_as (string_field field_num) field_num (take len rest) sig) _ _ _
          (Agrees-as (string_field field_num) field_num (take len rest) sig) (λ s. refl))

Agrees-field : (bs : List ℕ) (sig : Signal) → Agrees (parse_field bs sig) (decode_field bs sig)
unfolding parse_field decode_field
Agrees-field bs sig =
    Agrees-bind (or_raise (varint bs) _) (varint bs) _ _ (Agrees-or_raise (varint bs) _)
      λ (tag, rest).
        Agrees-if (bit_and tag 0x7 == 0) _ _ _ _ (Agrees-number (tag / 2 ^ 3) rest sig)
          (Agrees-if (bit_and tag 0x7 == 2) _ _ _ _ (Agrees-sized (tag / 2 ^ 3) rest sig) tt)

Agrees-fields :
    (fuel : ℕ) (bs : List ℕ) (sig : Signal)
    → Agrees (parse_fields fuel bs sig) (decode_fields fuel bs sig)
unfolding parse_fields decode_fields
Agrees-fields fuel [] sig = refl
Agrees-fields zero (b ∷ bs) sig = tt
Agrees-fields (suc fuel) (b ∷ bs) sig =
    Agrees-bind (parse_field (b ∷ bs) sig) (decode_field (b ∷ bs) sig) _ _
      (Agrees-field (b ∷ bs) sig) (λ (s, rest). Agrees-fields fuel rest s)

check_required-eq : (sig s : Signal) → check_required sig ≡ ok s → sig ≡ s
unfolding check_required
check_required-eq sig s e = ground arith

ok-of-bind :
    (m : Parsed Signal) (o : Option Signal) (s : Signal)
    → Agrees m o
    → (m ⟫= check_required) ≡ ok s
    → o ≡ some s
ok-of-bind (ok t) o s h e = h ∙ ap (λ (u : Signal). some u) (check_required-eq t s e)
ok-of-bind (err _) o s h e = cc

-- Every payload that `parse_signal` accepts is read by `decode_signal_proto` as the same signal.
pub decode_signal_proto-parse_signal :
    (bs : List ℕ) (s : Signal) → parse_signal bs ≡ ok s → decode_signal_proto bs ≡ some s
unfolding parse_signal decode_signal_proto
decode_signal_proto-parse_signal [] s e = cc
decode_signal_proto-parse_signal (b ∷ bs) s e =
    ok-of-bind (parse_fields (suc (length bs)) (b ∷ bs) empty)
      (decode_fields (suc (length bs)) (b ∷ bs) empty) s
      (Agrees-fields (suc (length bs)) (b ∷ bs) empty) e
