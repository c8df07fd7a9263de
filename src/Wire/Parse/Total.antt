-- ===== src/Wire/Parse/Total.antt =====
-- Every loop of `parse_signal` ends: a round takes a byte at least, so no call runs out of fuel.
use Prim.Native.Nat.{bit_and}
use exec_relay.Base.{
  ℕ, Bool, true, false, zero, suc, ◌/◌, ◌^◌, ◌≤◌, ◌<◌, ◌≡◌, ◌≢◌, refl, ◌&&◌, Option, none, some,
  List, [], ◌∷◌, arith, ltb, ◌==◌, if◌then◌else◌, length, take, length-drop, Bool-cases, inl, inr,
}
use exec_relay.Wire.Varint.{varint, varint-shrinks}
use exec_relay.Wire.Utf8.{decode}
use exec_relay.Wire.Signal.{
  Param, Signal, empty, empty_param, StringField, string_field, present, IsComplete,
}
use exec_relay.Wire.Parse.{
  ParseError, stuck, truncated, truncated_varint, truncated_length, overruns, not_utf8, nested_tag,
  nested_length, nested_overruns, nested_not_utf8, nested_wire_type, wire_type, missing, Parsed, ok,
  err, ◌>>=◌, or_raise, parse_param_text, parse_param_field, parse_param, store_as, store_bytes,
  parse_number, parse_bytes, parse_field, parse_fields, check_required, parse_signal,
}

-- A result of which `P` holds, or one of the errors that Python raises.
abbrev pub Yields : {A : Type 0} → (A → Type 0) → Parsed A → Type 0
Yields P (ok a) = P a
Yields P (err e) = e ≢ stuck

pub Yields-bind :
    {A B : Type 0} (P : A → Type 0) (Q : B → Type 0) (m : Parsed A) (f : A → Parsed B)
    → Yields P m
    → ((a : A) → P a → Yields Q (f a))
    → Yields Q (m >>= f)
Yields-bind P Q (ok a) f h k = k a h
Yields-bind P Q (err e) f h k = h

pub Yields-or_raise :
    {A : Type 0} (P : A → Type 0) (o : Option A) (e : ParseError)
    → e ≢ stuck
    → ((a : A) → o ≡ some a → P a)
    → Yields P (or_raise o e)
unfolding or_raise
Yields-or_raise P none e h k = h
Yields-or_raise P (some a) e h k = k a refl

abbrev Shorter : {A : Type 0} → List ℕ → A × List ℕ → Type 0
Shorter bs (_, rest) = length rest < length bs

varint-Shorter :
    (bs : List ℕ) (e : ParseError) → e ≢ stuck → Yields (Shorter bs) (or_raise (varint bs) e)
varint-Shorter bs e h =
    Yields-or_raise (Shorter bs) (varint bs) e h (λ (n, rest) found. varint-shrinks bs n rest found)

Yields-weaken :
    {A : Type 0} (P Q : A → Type 0) (m : Parsed A) → ((a : A) → P a → Q a) → Yields P m → Yields Q m
Yields-weaken P Q (ok a) f h = f a h
Yields-weaken P Q (err e) f h = h

Yields-if :
    {A : Type 0} (P : A → Type 0) (b : Bool) (m n : Parsed A)
    → Yields P m
    → Yields P n
    → Yields P (if b then m else n)
Yields-if P true m n h k = h
Yields-if P false m n h k = k

parse_param_text-Shorter :
    (fn : ℕ) (raw : List ℕ) (param : Param) → Yields (Shorter raw) (parse_param_text fn raw param)
unfolding parse_param_text
parse_param_text-Shorter fn raw param =
    Yields-bind (Shorter raw) (Shorter raw) (or_raise (varint raw) nested_length) _
      (varint-Shorter raw nested_length (λ e. cc))
      λ (ln, rest) short.
        Yields-if (Shorter raw) (ltb (length rest) ln) (err nested_overruns) _ (λ e. cc)
          (Yields-bind (λ _. Unit {0}) (Shorter raw)
            (or_raise (decode (take ln rest)) nested_not_utf8) _
            (Yields-or_raise (λ _. Unit {0}) (decode (take ln rest)) nested_not_utf8 (λ e. cc)
              (λ _ _. tt))
            (λ v _. omega (arith, length-drop ln rest)))

parse_param_field-Shorter :
    (raw : List ℕ) (param : Param) → Yields (Shorter raw) (parse_param_field raw param)
unfolding parse_param_field
parse_param_field-Shorter raw param =
    Yields-bind (Shorter raw) (Shorter raw) (or_raise (varint raw) nested_tag) _
      (varint-Shorter raw nested_tag (λ e. cc))
      λ (t, rest) short.
        Yields-if (Shorter raw) (bit_and t 0x7 == 2) (parse_param_text (t / 2 ^ 3) rest param)
          (err nested_wire_type)
          (Yields-weaken (Shorter rest) (Shorter raw) (parse_param_text (t / 2 ^ 3) rest param)
            (λ (p, r) h. omega arith) (parse_param_text-Shorter (t / 2 ^ 3) rest param))
          (λ e. cc)

parse_param-Yields :
    (fuel : ℕ) (raw : List ℕ) (param : Param)
    → length raw ≤ fuel
    → Yields (λ _. Unit {0}) (parse_param fuel raw param)
unfolding parse_param
parse_param-Yields fuel [] param h = tt
parse_param-Yields zero (b ∷ raw) param h = absurd (omega arith)
parse_param-Yields (suc fuel) (b ∷ raw) param h =
    Yields-bind (Shorter (b ∷ raw)) (λ _. Unit {0}) (parse_param_field (b ∷ raw) param) _
      (parse_param_field-Shorter (b ∷ raw) param)
      (λ (p, rest) short. parse_param-Yields fuel rest p (omega arith))

store_as-Yields :
    (f : Option StringField) (field_num : ℕ) (raw : List ℕ) (sig : Signal)
    → Yields (λ _. Unit {0}) (store_as f field_num raw sig)
unfolding store_as
store_as-Yields (some f) field_num raw sig =
    Yields-bind (λ _. Unit {0}) (λ _. Unit {0}) (or_raise (decode raw) not_utf8) _
      (Yields-or_raise (λ _. Unit {0}) (decode raw) not_utf8 (λ e. cc) (λ _ _. tt)) (λ _ _. tt)
store_as-Yields none field_num raw sig =
    Yields-if (λ _. Unit {0}) (field_num == 10) _ (ok sig)
      (Yields-bind (λ _. Unit {0}) (λ _. Unit {0}) (parse_param (length raw) raw empty_param) _
        (parse_param-Yields (length raw) raw empty_param (omega arith)) (λ _ _. tt))
      tt

store_bytes-Yields :
    (field_num : ℕ) (raw : List ℕ) (sig : Signal)
    → Yields (λ _. Unit {0}) (store_bytes field_num raw sig)
unfolding store_bytes
store_bytes-Yields field_num raw sig = store_as-Yields (string_field field_num) field_num raw sig

parse_number-Shorter :
    (field_num : ℕ) (bs : List ℕ) (sig : Signal)
    → Yields (Shorter bs) (parse_number field_num bs sig)
unfolding parse_number
parse_number-Shorter field_num bs sig =
    Yields-bind (Shorter bs) (Shorter bs) (or_raise (varint bs) truncated_varint) _
      (varint-Shorter bs truncated_varint (λ e. cc)) (λ (n, rest) short. short)

parse_bytes-Shorter :
    (field_num : ℕ) (bs : List ℕ) (sig : Signal)
    → Yields (Shorter bs) (parse_bytes field_num bs sig)
unfolding parse_bytes
parse_bytes-Shorter field_num bs sig =
    Yields-bind (Shorter bs) (Shorter bs) (or_raise (varint bs) truncated_length) _
      (varint-Shorter bs truncated_length (λ e. cc))
      λ (len, rest) short.
        Yields-if (Shorter bs) (ltb (length rest) len) (err overruns) _ (λ e. cc)
          (Yields-bind (λ _. Unit {0}) (Shorter bs) (store_bytes field_num (take len rest) sig) _
            (store_bytes-Yields field_num (take len rest) sig)
            (λ s _. omega (arith, length-drop len rest)))

pub parse_field-Shorter : (bs : List ℕ) (sig : Signal) → Yields (Shorter bs) (parse_field bs sig)
unfolding parse_field
parse_field-Shorter bs sig =
    Yields-bind (Shorter bs) (Shorter bs) (or_raise (varint bs) truncated) _
      (varint-Shorter bs truncated (λ e. cc))
      λ (tag, rest) short.
        Yields-if (Shorter bs) (bit_and tag 0x7 == 0) _ _
          (Yields-weaken (Shorter rest) (Shorter bs) (parse_number (tag / 2 ^ 3) rest sig)
            (λ (p, r) h. omega arith) (parse_number-Shorter (tag / 2 ^ 3) rest sig))
          (Yields-if (Shorter bs) (bit_and tag 0x7 == 2) _ (err wire_type)
            (Yields-weaken (Shorter rest) (Shorter bs) (parse_bytes (tag / 2 ^ 3) rest sig)
              (λ (p, r) h. omega arith) (parse_bytes-Shorter (tag / 2 ^ 3) rest sig))
            (λ e. cc))

parse_fields-Yields :
    (fuel : ℕ) (bs : List ℕ) (sig : Signal)
    → length bs ≤ fuel
    → Yields (λ _. Unit {0}) (parse_fields fuel bs sig)
unfolding parse_fields
parse_fields-Yields fuel [] sig h = tt
parse_fields-Yields zero (b ∷ bs) sig h = absurd (omega arith)
parse_fields-Yields (suc fuel) (b ∷ bs) sig h =
    Yields-bind (Shorter (b ∷ bs)) (λ _. Unit {0}) (parse_field (b ∷ bs) sig) _
      (parse_field-Shorter (b ∷ bs) sig)
      (λ (s, rest) short. parse_fields-Yields fuel rest s (omega arith))

check_required-Yields : (sig : Signal) → Yields IsComplete (check_required sig)
unfolding check_required
check_required-Yields sig =
    elim (Bool-cases (
      present sig.trace_id
      && present sig.license_id
      && present sig.command
      && present sig.symbol)) [
        | inl e ↦ rw e (ground arith)
        | inr e ↦ rw e (λ (x : missing ≡ stuck). cc)
      ]

-- Whatever the payload, an accepted signal has a trace id, a license, a command and a symbol that
-- are not empty, and a refusal is one of the errors that the source raises: no loop runs out of
-- fuel.
pub parse_signal-Yields : (bs : List ℕ) → Yields IsComplete (parse_signal bs)
unfolding parse_signal
parse_signal-Yields [] = λ e. cc
parse_signal-Yields (b ∷ bs) =
    Yields-bind (λ _. Unit {0}) IsComplete (parse_fields (suc (length bs)) (b ∷ bs) empty) _
      (parse_fields-Yields (suc (length bs)) (b ∷ bs) empty (omega arith))
      (λ sig _. check_required-Yields sig)
