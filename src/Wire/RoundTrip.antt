-- ===== src/Wire/RoundTrip.antt =====
-- What `encode_signal_proto` writes, `parse_signal` reads back.
pub mod Fields
use Prim.Native.Nat.{bit_or}
use mathlib.Core.Path.{subst}
use mathlib.Core.Option.{some-injective}
use exec_relay.Base.{
  ℕ, zero, suc, ◌*◌, ◌^◌, ◌≤◌, ◌<◌, ◌≡◌, refl, sym, ◌∙◌, true, Option, none, some, List, [], ◌∷◌,
  ◌++◌, arith, ◌==◌, length, map, append_assoc, append-nil, length-append, All, Bool-cases, inl,
  inr,
}
use exec_relay.Base.Text.{Text}
use exec_relay.Wire.Varint.{pb_varint, varint-pb_varint, varint-shrinks}
use exec_relay.Wire.Utf8.{IsScalar, encode}
use exec_relay.Wire.Utf8.RoundTrip.{encode_total, decode-encode}
use exec_relay.Wire.Signal.{
  Param, Signal, empty, empty_param, StringField, string_field, set_field, set_param, set_number,
  present, get_or, normal_text, normal_nano, normal_param, normal, IsWritable, IsWritableParam,
  IsWritableSignal, IsComplete,
}
use exec_relay.Wire.Parse.{
  ok, err, missing, parse_param, parse_param_field, store_bytes, parse_fields, check_required,
  parse_signal,
}
use exec_relay.Wire.Parse.Reads.{
  Reads, Reads-append, Reads-field, parse_field-written, parse_param_field-written,
  parse_field-nano,
}
use exec_relay.Wire.Portal.{
  ◌>>=◌, pb_str_field, pb_int64_field, pb_bytes_field, add_str, add_nano, add_params,
  encode_signal_proto,
}
use exec_relay.Wire.RoundTrip.Fields.{
  Reads-refl, add_nano-Writes, add_params-Writes, add_str-Writes, merge, put, put_nano, put_params,
}

present-normal_text : (o : Option Text) → present o ≡ true → present (normal_text o) ≡ true
present-normal_text none h = h
present-normal_text (some t) h = rw h h

check_required-normal : (s : Signal) → IsComplete s → check_required (normal s) ≡ ok (normal s)
unfolding check_required
check_required-normal s h = rw (
  present-normal_text s.trace_id h.trace_id,
  present-normal_text s.license_id h.license_id,
  present-normal_text s.command h.command,
  present-normal_text s.symbol h.symbol,
)

ok-injective : (s t : Signal) → ok s ≡ ok t → s ≡ t
ok-injective s t e = cc

-- From the fields read to the signal accepted.
parse_signal-Reads :
    (bs : List ℕ) (s : Signal) → Reads bs empty s → check_required s ≡ ok s → parse_signal bs ≡ ok s
unfolding parse_fields
parse_signal-Reads bs s h k = accepted bs (rw append-nil at (h []))
  where
    refuses_empty : check_required empty ≡ err missing
    refuses_empty = unfold check_required present in refl

    accepted :
        (cs : List ℕ)
        → parse_fields (length cs) cs empty ≡ parse_fields 0 [] s
        → parse_signal cs ≡ ok s
    accepted [] e = cc (k, refuses_empty, ok-injective empty s e)
    accepted (c ∷ cs) e = unfold parse_signal in rw (e, k)

merge-none : {A : Type 0} (o : Option A) → merge o none ≡ o
merge-none none = refl
merge-none (some a) = refl

-- The writes of `encode_signal_proto`, in order.
abbrev built : Signal → Signal
built s = put_params s.params (
    put StringField.body_sha256 (normal_text s.body_sha256) (
      put_nano (normal_nano s.received_unix_nano) (
        put StringField.ingress_region (normal_text s.ingress_region) (
          put StringField.symbol (normal_text s.symbol) (
            put StringField.raw_command (normal_text s.raw_command) (
              put StringField.command (normal_text s.command) (
                put StringField.instance_id (normal_text s.instance_id) (
                  put StringField.license_id (normal_text s.license_id)
                    (put StringField.trace_id (normal_text s.trace_id) empty)))))))))

built-eq-normal : (s : Signal) → built s ≡ normal s
built-eq-normal s = simp merge-none

encode_signal_proto-Writes :
    (s : Signal)
    → IsWritableSignal s
    → (bs : List ℕ) × (encode_signal_proto s ≡ some bs) × Reads bs empty (normal s)
unfolding encode_signal_proto string_field
encode_signal_proto-Writes s h =
    let (b1, e1, r1) =
      add_str-Writes 1 StringField.trace_id s.trace_id _ refl h.trace_id [] (Reads-refl empty) in
    let (b2, e2, r2) =
      add_str-Writes 2 StringField.license_id s.license_id _ refl h.license_id b1 r1 in
    let (b3, e3, r3) =
      add_str-Writes 3 StringField.instance_id s.instance_id _ refl h.instance_id b2 r2 in
    let (b4, e4, r4) = add_str-Writes 4 StringField.command s.command _ refl h.command b3 r3 in
    let (b5, e5, r5) =
      add_str-Writes 5 StringField.raw_command s.raw_command _ refl h.raw_command b4 r4 in
    let (b6, e6, r6) = add_str-Writes 6 StringField.symbol s.symbol _ refl h.symbol b5 r5 in
    let (b7, e7, r7) =
      add_str-Writes 7 StringField.ingress_region s.ingress_region _ refl h.ingress_region b6 r6 in
    let (b8, e8, r8) = add_nano-Writes s.received_unix_nano _ b7 r7 in
    let (b9, e9, r9) =
      add_str-Writes 9 StringField.body_sha256 s.body_sha256 _ refl h.body_sha256 b8 r8 in
    let (b10, e10, r10) = add_params-Writes s.params _ h.params b9 r9 in
    (
      b10,
      rw (e1, e2, e3, e4, e5, e6, e7, some-injective _ _ e8, e9, e10),
      subst (Reads b10 empty) (built-eq-normal s) r10,
    )

-- A signal whose texts can be written, and whose required fields are there, is encoded by the
-- portal to bytes that the persist service reads back as the same signal, up to keys with an empty
-- value.
pub parse_signal-encode_signal_proto :
    (s : Signal)
    → IsWritableSignal s
    → IsComplete s
    → (bs : List ℕ) × (encode_signal_proto s ≡ some bs) × (parse_signal bs ≡ ok (normal s))
parse_signal-encode_signal_proto s h k =
    let (bs, e, r) = encode_signal_proto-Writes s h in
    (bs, e, parse_signal-Reads bs (normal s) r (check_required-normal s k))
