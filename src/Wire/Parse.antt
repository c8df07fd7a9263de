-- ===== src/Wire/Parse.antt =====
-- `parse_signal` of apps/persist/app.py: the strict reader of a Signal in protobuf wire format.
pub mod Total
pub mod Reads
pub mod Writable
use Prim.Native.Nat.{bit_and}
use exec_relay.Base.{
  ℕ, zero, suc, ◌/◌, ◌^◌, Bool, ◌&&◌, Option, none, some, List, [], ◌∷◌, ◌++◌, ltb, ◌==◌,
  if◌then◌else◌, length, take, drop,
}
use exec_relay.Base.Text.{Text}
use exec_relay.Wire.Varint.{varint}
use exec_relay.Wire.Utf8.{decode}
use exec_relay.Wire.Signal.{
  Param, Signal, empty, empty_param, StringField, string_field, set_field, present, set_param,
  set_number,
}

-- One constructor for each `raise ProtoParseError(…)`. `stuck` is no Python exception: a loop ran
-- out of fuel.
pub data ParseError : Type 0 where
  empty_payload : ParseError
  truncated truncated_varint truncated_length overruns not_utf8 : ParseError
  nested_tag nested_length nested_overruns nested_not_utf8 nested_wire_type : ParseError
  wire_type missing stuck : ParseError

pub data Parsed (A : Type 0) : Type 0 where
  ok : A → Parsed A
  err : ParseError → Parsed A

infixl 10 ◌>>=◌
abbrev pub ◌>>=◌ : {A B : Type 0} → Parsed A → (A → Parsed B) → Parsed B
ok a >>= f = f a
err e >>= f = err e

-- try: …  except IndexError (or UnicodeDecodeError): raise e
unfoldable pub or_raise : {A : Type 0} → Option A → ParseError → Parsed A
or_raise none e = err e
or_raise (some a) e = ok a

unfoldable pub parse_param_text : ℕ → List ℕ → Param → Parsed (Param × List ℕ)
unfolding or_raise
parse_param_text fn raw param = do
  (ln, raw) ← or_raise (varint raw) nested_length
  if ltb (length raw) ln then err nested_overruns else do
    v ← or_raise (decode (take ln raw)) nested_not_utf8
    ok (set_param fn v param, drop ln raw)

-- One field of the nested SignalParam message, and what follows it.
unfoldable pub parse_param_field : List ℕ → Param → Parsed (Param × List ℕ)
unfolding or_raise parse_param_text
parse_param_field raw param = do
  (t, raw) ← or_raise (varint raw) nested_tag
  if bit_and t 0x7 == 2 then parse_param_text (t / 2 ^ 3) raw param else err nested_wire_type

-- while p < len(raw)
unfoldable pub parse_param : ℕ → List ℕ → Param → Parsed Param
parse_param fuel [] param = ok param
parse_param zero (b ∷ raw) param = err stuck
parse_param (suc fuel) (b ∷ raw) param = do
  (param, raw) ← parse_param_field (b ∷ raw) param
  parse_param fuel raw param

-- The branches on `string_fields` and on field 10, for the bytes of a field.
unfoldable pub store_as : Option StringField → ℕ → List ℕ → Signal → Parsed Signal
unfolding or_raise
store_as (some f) field_num raw sig = do v ← or_raise (decode raw) not_utf8; ok (set_field f v sig)
store_as none field_num raw sig =
    if field_num == 10
    then (do
      param ← parse_param (length raw) raw empty_param
      ok (record sig { params = sig.params ++ param ∷ [] }))
    else ok sig

unfoldable pub store_bytes : ℕ → List ℕ → Signal → Parsed Signal
unfolding store_as
store_bytes field_num raw sig = store_as (string_field field_num) field_num raw sig

-- Wire type 0: a number.
unfoldable pub parse_number : ℕ → List ℕ → Signal → Parsed (Signal × List ℕ)
unfolding or_raise
parse_number field_num data_ sig = do
  (val, data_) ← or_raise (varint data_) truncated_varint
  ok (set_number field_num val sig, data_)

-- Wire type 2: a length and as many bytes.
unfoldable pub parse_bytes : ℕ → List ℕ → Signal → Parsed (Signal × List ℕ)
unfolding or_raise
parse_bytes field_num data_ sig = do
  (len, data_) ← or_raise (varint data_) truncated_length
  if ltb (length data_) len
      then err overruns
      else do sig ← store_bytes field_num (take len data_) sig; ok (sig, drop len data_)

-- One round of the loop: a tag, the field behind it, and what follows.
unfoldable pub parse_field : List ℕ → Signal → Parsed (Signal × List ℕ)
unfolding or_raise parse_number parse_bytes
parse_field data_ sig = do
  (tag, data_) ← or_raise (varint data_) truncated
  if bit_and tag 0x7 == 0
      then parse_number (tag / 2 ^ 3) data_ sig
      else if bit_and tag 0x7 == 2
      then parse_bytes (tag / 2 ^ 3) data_ sig
      else err wire_type

-- while pos < n
unfoldable pub parse_fields : ℕ → List ℕ → Signal → Parsed Signal
parse_fields fuel [] sig = ok sig
parse_fields zero (b ∷ data_) sig = err stuck
parse_fields (suc fuel) (b ∷ data_) sig = do
  (sig, data_) ← parse_field (b ∷ data_) sig
  parse_fields fuel data_ sig

-- The test on `_REQUIRED_SIGNAL_FIELDS`.
unfoldable pub check_required : Signal → Parsed Signal
check_required sig =
    if present sig.trace_id && present sig.license_id && present sig.command && present sig.symbol
    then ok sig
    else err missing

-- Each round takes a byte at least, so the length of the payload is fuel enough.
unfoldable pub parse_signal : List ℕ → Parsed Signal
parse_signal [] = err empty_payload
parse_signal (b ∷ data_) = do
  sig ← parse_fields (suc (length data_)) (b ∷ data_) empty
  check_required sig
