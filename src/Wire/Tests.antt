-- ===== src/Wire/Tests.antt =====
-- Runs of the wire code of apps/persist/app.py and apps/portal-api/app.py on one short payload.
use exec_relay.Base.{ℕ, ◌≡◌, refl, none, some, List, [], ◌∷◌, arith, inl}
use exec_relay.Base.Text.{truthy}
use exec_relay.Wire.Varint.{varint, varint_loop}
use exec_relay.Wire.Utf8.{
  encode, encode_char, is_scalar, decode, decode_loop, decode_char, strict_step,
}
use exec_relay.Wire.Signal.{
  Signal, normal, IsWritableSignal, IsComplete, present, string_field, set_field, set_param,
  set_number,
}
use exec_relay.Wire.Parse.{
  ok, parse_signal, parse_fields, parse_field, check_required, parse_number, parse_bytes,
  store_bytes, store_as, parse_param, parse_param_field, parse_param_text, or_raise,
}
use exec_relay.Wire.Parse.Total.{Yields, parse_signal-Yields}
use exec_relay.Wire.Portal.{encode_signal_proto, decode_signal_proto, replay_payload}
use exec_relay.Wire.Agreement.{decode_signal_proto-parse_signal}
use exec_relay.Wire.RoundTrip.{parse_signal-encode_signal_proto}
use exec_relay.Wire.Replay.{replayed, parse_signal-replay_payload}

-- Trace id t, license l, command b, symbol E, time 300, parameter s = 1.
abbrev pub payload : List ℕ
payload =
    0x0A ∷ 1 ∷ 116 ∷ 0x12 ∷ 1 ∷ 108 ∷ 0x22 ∷ 1 ∷ 98 ∷ 0x32 ∷ 1 ∷ 69 ∷ 0x40 ∷ 0xAC ∷ 2 ∷ 0x52 ∷ 6
    ∷ 0x0A ∷ 1 ∷ 115 ∷ 0x12 ∷ 1 ∷ 49 ∷ []

abbrev pub signal : Signal
signal = record {
  trace_id = some (116 ∷ []);
  license_id = some (108 ∷ []);
  instance_id = none;
  command = some (98 ∷ []);
  raw_command = none;
  symbol = some (69 ∷ []);
  ingress_region = none;
  body_sha256 = none;
  received_unix_nano = some 300;
  params = (record { key = some (115 ∷ []); value = some (49 ∷ []) }) ∷ [];
}

payload_read : parse_signal payload ≡ ok signal
unfolding parse_signal parse_fields parse_field check_required parse_number parse_bytes store_bytes
    store_as string_field parse_param parse_param_field parse_param_text or_raise set_field
    set_param set_number present truthy varint varint_loop decode decode_loop decode_char
    strict_step
payload_read = refl

signal-IsWritable : IsWritableSignal signal
signal-IsWritable = record {
  trace_id = (inl (omega arith), tt);
  license_id = (inl (omega arith), tt);
  instance_id = tt;
  command = (inl (omega arith), tt);
  raw_command = tt;
  symbol = (inl (omega arith), tt);
  ingress_region = tt;
  body_sha256 = tt;
  params = (record { key = (inl (omega arith), tt); value = (inl (omega arith), tt) }, tt);
}

signal-IsComplete : IsComplete signal
unfolding present truthy
signal-IsComplete = record { trace_id = refl; license_id = refl; command = refl; symbol = refl }

parse_signal-encode_signal_proto_example :
    (bs : List ℕ) × (encode_signal_proto signal ≡ some bs) × (parse_signal bs ≡ ok (normal signal))
parse_signal-encode_signal_proto_example =
    parse_signal-encode_signal_proto signal signal-IsWritable signal-IsComplete

decode_signal_proto-parse_signal_example : decode_signal_proto payload ≡ some signal
decode_signal_proto-parse_signal_example =
    decode_signal_proto-parse_signal payload signal payload_read

parse_signal-replay_payload_example :
    (bs : List ℕ) × (replay_payload payload 7 ≡ some bs)
    × (parse_signal bs ≡ ok (normal (replayed signal 7)))
parse_signal-replay_payload_example = parse_signal-replay_payload payload signal 7 payload_read

parse_signal-Yields_example : Yields IsComplete (parse_signal payload)
parse_signal-Yields_example = parse_signal-Yields payload

abbrev euro : List ℕ
euro = 0xE2 ∷ 0x82 ∷ 0xAC ∷ []

euro_written : encode (0x20AC ∷ []) ≡ some euro
unfolding encode encode_char is_scalar
euro_written = refl
