-- ===== src/Wire/Replay.antt =====
-- `replay_signal` of apps/portal-api/app.py: what it publishes is read by the strict parser
-- of the persist service.
use mathlib.Core.Path.{subst}
use exec_relay.Base.{ℕ, ◌≡◌, refl, true, Option, none, some, List, [], ◌∷◌, ◌++◌, All, inl, arith}
use exec_relay.Base.Text.{Text, codes, truthy}
use exec_relay.Wire.Utf8.{IsScalar}
use exec_relay.Wire.Signal.{
  Signal, present, get_or, normal, IsWritable, IsWritableSignal, IsComplete,
}
use exec_relay.Wire.Parse.{ok, parse_signal}
use exec_relay.Wire.Parse.Total.{Yields, parse_signal-Yields}
use exec_relay.Wire.Parse.Writable.{parse_signal-IsWritableSignal}
use exec_relay.Wire.Portal.{replay_payload}
use exec_relay.Wire.Agreement.{decode_signal_proto-parse_signal}
use exec_relay.Wire.RoundTrip.{parse_signal-encode_signal_proto}

-- The signal that a replay stands for.
abbrev pub replayed : Signal → ℕ → Signal
replayed s now = record s {
  trace_id = some (get_or s.trace_id [] ++ codes "-r");
  received_unix_nano = some now;
}

suffix-IsScalar : (t : Text) → All IsScalar t → All IsScalar (t ++ codes "-r")
suffix-IsScalar [] h = (inl (omega arith), (inl (omega arith), tt))
suffix-IsScalar (c ∷ t) h = (h.0, suffix-IsScalar t h.1)

suffixed-IsWritable : (o : Option Text) → IsWritable o → All IsScalar (get_or o [] ++ codes "-r")
suffixed-IsWritable none h = suffix-IsScalar [] tt
suffixed-IsWritable (some t) h = suffix-IsScalar t h

suffixed-present : (t : Text) → present (some (t ++ codes "-r")) ≡ true
unfolding present truthy
suffixed-present [] = refl
suffixed-present (c ∷ t) = refl

replayed-IsWritableSignal :
    (s : Signal) (now : ℕ) → IsWritableSignal s → IsWritableSignal (replayed s now)
replayed-IsWritableSignal s now h = assumption (suffixed-IsWritable s.trace_id h.trace_id)

replayed-IsComplete : (s : Signal) (now : ℕ) → IsComplete s → IsComplete (replayed s now)
replayed-IsComplete s now h = assumption (suffixed-present (get_or s.trace_id []))

-- The replay of a payload that the strict parser reads is encoded without an exception, and the strict
-- parser reads the replay as the same signal with `-r` behind its trace id and the new time, up to what
-- a message cannot carry: a field with an empty text or a time of 0 is read as absent, and a key or value
-- that a parameter lacks is read as the empty text.
pub parse_signal-replay_payload :
    (raw : List ℕ) (s : Signal) (now : ℕ)
    → parse_signal raw ≡ ok s
    → (payload : List ℕ) × (replay_payload raw now ≡ some payload)
      × (parse_signal payload ≡ ok (normal (replayed s now)))
unfolding replay_payload
parse_signal-replay_payload raw s now e =
    let complete : IsComplete s = subst (Yields IsComplete) e (parse_signal-Yields raw) in
    let writable : IsWritableSignal s = parse_signal-IsWritableSignal raw s e in
    let (payload, encoded, parsed) =
      parse_signal-encode_signal_proto (replayed s now) (replayed-IsWritableSignal s now writable)
        (replayed-IsComplete s now complete) in
    (payload, rw (decode_signal_proto-parse_signal raw s e) encoded, parsed)
