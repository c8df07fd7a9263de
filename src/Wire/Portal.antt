-- ===== src/Wire/Portal.antt =====
-- The Signal writer and the lax reader of apps/portal-api/app.py, and the payload that
-- `replay_signal` builds with the two.
use Prim.Native.Nat.{bit_and, bit_or}
use exec_relay.Base.{
  ℕ, zero, suc, ◌*◌, ◌/◌, ◌^◌, Option, none, some, List, [], ◌∷◌, ◌++◌, ◌==◌, if◌then◌else◌, length,
  take, drop,
}
use exec_relay.Base.Text.{Text, codes}
use exec_relay.Wire.Varint.{varint, pb_varint}
use exec_relay.Wire.Utf8.{encode, decode_replace}
use exec_relay.Wire.Signal.{
  Param, Signal, empty, empty_param, StringField, string_field, set_field, present, get_or,
  set_param, set_number,
}

-- `none` is an exception: UnicodeEncodeError in the writer, IndexError in the reader.
infixl 10 ◌>>=◌
abbrev pub ◌>>=◌ : {A B : Type 0} → Option A → (A → Option B) → Option B
none >>= f = none
some a >>= f = f a

-- _pb_str_field(field_num, s)
unfoldable pub pb_str_field : ℕ → Text → Option (List ℕ)
pb_str_field field_num s = do
  enc ← encode s
  some (pb_varint (bit_or (field_num * 2 ^ 3) 2) ++ pb_varint (length enc) ++ enc)

-- _pb_int64_field(field_num, n)
unfoldable pub pb_int64_field : ℕ → ℕ → List ℕ
pb_int64_field field_num n = pb_varint (bit_or (field_num * 2 ^ 3) 0) ++ pb_varint n

-- _pb_bytes_field(field_num, data)
unfoldable pub pb_bytes_field : ℕ → List ℕ → List ℕ
pb_bytes_field field_num data_ =
    pb_varint (bit_or (field_num * 2 ^ 3) 2) ++ pb_varint (length data_) ++ data_

-- if sig.get(name): out += _pb_str_field(field_num, sig[name])
unfoldable pub add_str : ℕ → Option Text → List ℕ → Option (List ℕ)
add_str field_num none out = some out
add_str field_num (some s) out =
    if present (some s) then (do f ← pb_str_field field_num s; some (out ++ f)) else some out

-- if sig.get("received_unix_nano"): …
unfoldable pub add_nano : Option ℕ → List ℕ → List ℕ
add_nano none out = out
add_nano (some n) out = if n == 0 then out else out ++ pb_int64_field 8 n

-- for param in sig.get("params", []): …
unfoldable pub add_params : List Param → List ℕ → Option (List ℕ)
add_params [] out = some out
add_params (param ∷ params) out = do
  key ← pb_str_field 1 (get_or param.key [])
  value ← pb_str_field 2 (get_or param.value [])
  add_params params (out ++ pb_bytes_field 10 (key ++ value))

unfoldable pub encode_signal_proto : Signal → Option (List ℕ)
encode_signal_proto sig = do
  out ← add_str 1 sig.trace_id []
  out ← add_str 2 sig.license_id out
  out ← add_str 3 sig.instance_id out
  out ← add_str 4 sig.command out
  out ← add_str 5 sig.raw_command out
  out ← add_str 6 sig.symbol out
  out ← add_str 7 sig.ingress_region out
  out ← add_str 9 sig.body_sha256 (add_nano sig.received_unix_nano out)
  add_params sig.params out

-- A slice stops at the end of the bytes.
unfoldable pub decode_param_text : ℕ → List ℕ → Param → Option (Param × List ℕ)
decode_param_text fn raw param = do
  (ln, raw) ← varint raw
  some (set_param fn (decode_replace (take ln raw)) param, drop ln raw)

-- One round of the loop over a nested SignalParam.
unfoldable pub decode_param_field : List ℕ → Param → Option (Param × List ℕ)
unfolding decode_param_text
decode_param_field raw param = do
  (t, raw) ← varint raw
  if bit_and t 0x7 == 2 then decode_param_text (t / 2 ^ 3) raw param else some (param, raw)

-- while p < len(raw), on fuel; each round takes a byte at least
unfoldable pub decode_param : ℕ → List ℕ → Param → Option Param
decode_param fuel [] param = some param
decode_param zero (b ∷ raw) param = some param
decode_param (suc fuel) (b ∷ raw) param = do
  (param, raw) ← decode_param_field (b ∷ raw) param
  decode_param fuel raw param

unfoldable pub decode_as : Option StringField → ℕ → List ℕ → Signal → Option Signal
decode_as (some f) field_num raw sig = some (set_field f (decode_replace raw) sig)
decode_as none field_num raw sig =
    if field_num == 10
    then (do
      param ← decode_param (length raw) raw empty_param
      some (record sig { params = sig.params ++ param ∷ [] }))
    else some sig

unfoldable pub decode_bytes : ℕ → List ℕ → Signal → Option Signal
unfolding decode_as
decode_bytes field_num raw sig = decode_as (string_field field_num) field_num raw sig

unfoldable pub decode_number : ℕ → List ℕ → Signal → Option (Signal × List ℕ)
decode_number field_num data_ sig = do
  (val, data_) ← varint data_
  some (set_number field_num val sig, data_)

unfoldable pub decode_sized : ℕ → List ℕ → Signal → Option (Signal × List ℕ)
decode_sized field_num data_ sig = do
  (len, data_) ← varint data_
  sig ← decode_bytes field_num (take len data_) sig
  some (sig, drop len data_)

-- One round of the loop; `break` on an unknown wire type leaves nothing to read.
unfoldable pub decode_field : List ℕ → Signal → Option (Signal × List ℕ)
unfolding decode_number decode_sized
decode_field data_ sig = do
  (tag, data_) ← varint data_
  if bit_and tag 0x7 == 0
      then decode_number (tag / 2 ^ 3) data_ sig
      else if bit_and tag 0x7 == 2
      then decode_sized (tag / 2 ^ 3) data_ sig
      else some (sig, [])

-- while pos < len(data), on fuel
unfoldable pub decode_fields : ℕ → List ℕ → Signal → Option Signal
decode_fields fuel [] sig = some sig
decode_fields zero (b ∷ data_) sig = some sig
decode_fields (suc fuel) (b ∷ data_) sig = do
  (sig, data_) ← decode_field (b ∷ data_) sig
  decode_fields fuel data_ sig

unfoldable pub decode_signal_proto : List ℕ → Option Signal
decode_signal_proto data_ = decode_fields (length data_) data_ empty

-- The payload of `replay_signal`: a new trace id and the present time in the original message.
unfoldable pub replay_payload : List ℕ → ℕ → Option (List ℕ)
replay_payload raw_payload now = do
  original ← decode_signal_proto raw_payload
  encode_signal_proto (record original {
    trace_id = some (get_or original.trace_id [] ++ codes "-r");
    received_unix_nano = some now;
  })
