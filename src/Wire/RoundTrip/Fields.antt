-- ===== src/Wire/RoundTrip/Fields.antt =====
-- What each field that `encode_signal_proto` writes changes in the signal that `parse_signal` reads.
use Prim.Native.Nat.{bit_or}
use mathlib.Core.Path.{subst}
use exec_relay.Base.{
  ℕ, zero, suc, ◌*◌, ◌^◌, ◌≤◌, ◌<◌, ◌≡◌, refl, sym, ◌∙◌, Option, none, some, List, [], ◌∷◌, ◌++◌,
  arith, ◌==◌, length, map, append_assoc, append-nil, length-append, All, Bool-cases, inl, inr,
}
use exec_relay.Base.Text.{Text}
use exec_relay.Wire.Varint.{pb_varint, varint-pb_varint, varint-shrinks}
use exec_relay.Wire.Utf8.{IsScalar, encode}
use exec_relay.Wire.Utf8.RoundTrip.{encode_total, decode-encode}
use exec_relay.Wire.Signal.{
  Param, Signal, empty, empty_param, StringField, string_field, set_field, set_param, set_number,
  present, get_or, normal_text, normal_nano, normal_param, IsWritable, IsWritableParam,
}
use exec_relay.Wire.Parse.{ok, parse_param, parse_param_field, store_bytes}
use exec_relay.Wire.Parse.Reads.{
  Reads, Reads-append, Reads-field, parse_field-written, parse_param_field-written,
  parse_field-nano,
}
use exec_relay.Wire.Portal.{
  ◌>>=◌, pb_str_field, pb_int64_field, pb_bytes_field, add_str, add_nano, add_params,
}

pb_varint-pos : (n : ℕ) → 0 < length (pb_varint n)
pb_varint-pos n = omega (
  arith,
  length-append (pb_varint n) [],
  varint-shrinks (pb_varint n ++ []) n [] (varint-pb_varint n []),
)

-- The bytes of a length-delimited field.
abbrev sized : ℕ → List ℕ → List ℕ
sized n bs = pb_varint (bit_or (n * 2 ^ 3) 2) ++ pb_varint (length bs) ++ bs

sized-pos : (n : ℕ) (bs : List ℕ) → 0 < length (sized n bs)
sized-pos n bs = omega (
  arith,
  pb_varint-pos (bit_or (n * 2 ^ 3) 2),
  length-append (pb_varint (bit_or (n * 2 ^ 3) 2) ++ pb_varint (length bs)) bs,
  length-append (pb_varint (bit_or (n * 2 ^ 3) 2)) (pb_varint (length bs)),
)

Reads-sized :
    (n : ℕ) (bs : List ℕ) (s t : Signal) → store_bytes n bs s ≡ ok t → Reads (sized n bs) s t
Reads-sized n bs s t h =
    Reads-field (sized n bs) s t (sized-pos n bs) (λ rest. parse_field-written n bs rest s t h)

pub Reads-refl : (s : Signal) → Reads [] s s
Reads-refl s rest = refl

-- A writer that goes on from `out`, read from the empty signal to `s`, ends with bytes that are
-- read to `t`.
abbrev Writes : (List ℕ → Option (List ℕ)) → Signal → Signal → Type 0
Writes w s t =
    (out : List ℕ) → Reads out empty s → (out' : List ℕ) × (w out ≡ some out') × Reads out' empty t

Writes-bind :
    (v w : List ℕ → Option (List ℕ)) (s t u : Signal)
    → Writes v s t
    → Writes w t u
    → Writes (λ out. v out >>= w) s u
Writes-bind v w s t u h k out r =
    let (mid, e, r') = h out r in let (out', e', r'') = k mid r' in (out', rw e e', r'')

-- The dict entry for a key that the writer may have left out.
abbrev pub merge : {A : Type 0} → Option A → Option A → Option A
merge none old = old
merge (some a) old = some a

abbrev pub put : StringField → Option Text → Signal → Signal
put StringField.trace_id o s = record s { trace_id = merge o s.trace_id }
put StringField.license_id o s = record s { license_id = merge o s.license_id }
put StringField.instance_id o s = record s { instance_id = merge o s.instance_id }
put StringField.command o s = record s { command = merge o s.command }
put StringField.raw_command o s = record s { raw_command = merge o s.raw_command }
put StringField.symbol o s = record s { symbol = merge o s.symbol }
put StringField.ingress_region o s = record s { ingress_region = merge o s.ingress_region }
put StringField.body_sha256 o s = record s { body_sha256 = merge o s.body_sha256 }

put-some : (f : StringField) (t : Text) (s : Signal) → set_field f t s ≡ put f (some t) s
unfolding set_field
put-some StringField.trace_id t s = refl
put-some _ t s = refl

put-none : (f : StringField) (s : Signal) → s ≡ put f none s
put-none StringField.trace_id s = refl
put-none _ s = refl

store_bytes-string :
    (n : ℕ) (f : StringField) (t : Text) (enc : List ℕ) (s : Signal)
    → string_field n ≡ some f
    → All IsScalar t
    → encode t ≡ some enc
    → store_bytes n enc s ≡ ok (put f (some t) s)
unfolding store_bytes
store_bytes-string n f t enc s known valid e =
    rw (known, decode-encode t enc valid e, put-some f t s)

pub add_str-Writes :
    (n : ℕ) (f : StringField) (o : Option Text) (s : Signal)
    → string_field n ≡ some f
    → IsWritable o
    → Writes (add_str n o) s (put f (normal_text o) s)
unfolding add_str pb_str_field
add_str-Writes n f none s known valid out r = (out, refl, subst (Reads out empty) (put-none f s) r)
add_str-Writes n f (some t) s known valid out r = elim (Bool-cases (present (some t))) [
  | inl there ↦
      let (enc, e) = encode_total t valid in
      (
        out ++ sized n enc,
        rw (there, e),
        rw there (
            Reads-append out (sized n enc) empty s (put f (some t) s) r (
              Reads-sized n enc s (put f (some t) s)
                (store_bytes-string n f t enc s known valid e))),
      )
  | inr gone ↦ (out, rw gone, rw gone (subst (Reads out empty) (put-none f s) r))
]

abbrev pub put_nano : Option ℕ → Signal → Signal
put_nano o s = record s { received_unix_nano = merge o s.received_unix_nano }

Reads-nano : (n : ℕ) (s : Signal) → Reads (pb_int64_field 8 n) s (put_nano (some n) s)
unfolding pb_int64_field
Reads-nano n s =
    Reads-field (pb_varint (bit_or (8 * 2 ^ 3) 0) ++ pb_varint n) s (put_nano (some n) s)
      (omega
        (arith, pb_varint-pos n, length-append (pb_varint (bit_or (8 * 2 ^ 3) 0)) (pb_varint n)))
      (λ rest. parse_field-nano n rest s ∙ unfold set_number in refl)

pub add_nano-Writes :
    (o : Option ℕ) (s : Signal)
    → Writes (λ out. some (add_nano o out)) s (put_nano (normal_nano o) s)
unfolding add_nano
add_nano-Writes none s out r = (out, refl, r)
add_nano-Writes (some n) s out r = elim (Bool-cases (n == 0)) [
  | inl nought ↦ (out, rw nought, rw nought r)
  | inr there ↦ (
    out ++ pb_int64_field 8 n,
    rw there,
    rw there (Reads-append out (pb_int64_field 8 n) empty s _ r (Reads-nano n s)),
  )
]

parse_param-two :
    (f : ℕ) (a b : List ℕ) (p q r : Param)
    → 0 < length a
    → 0 < length b
    → length (a ++ b) ≤ f
    → ((rest : List ℕ) → parse_param_field (a ++ rest) p ≡ ok (q, rest))
    → ((rest : List ℕ) → parse_param_field (b ++ rest) q ≡ ok (r, rest))
    → parse_param f (a ++ b) p ≡ ok r
parse_param-two f [] b p q r h k l first second = absurd (omega arith)
parse_param-two f (x ∷ a) [] p q r h k l first second = absurd (omega arith)
parse_param-two zero (x ∷ a) (y ∷ b) p q r h k l first second = absurd (omega arith)
parse_param-two (suc zero) (x ∷ a) (y ∷ b) p q r h k l first second =
    absurd (omega (arith, length-append a (y ∷ b)))
parse_param-two (suc (suc f)) (x ∷ a) (y ∷ b) p q r h k l first second =
    unfold parse_param in rw (first (y ∷ b), rw (append-nil b) at (second []))

IsWritable-get_or : (o : Option Text) → IsWritable o → All IsScalar (get_or o [])
IsWritable-get_or none h = tt
IsWritable-get_or (some t) h = h

-- A parameter is read back with both keys, an absent one as the empty text.
store_bytes-param :
    (p : Param) (k v : List ℕ) (s : Signal)
    → IsWritableParam p
    → encode (get_or p.key []) ≡ some k
    → encode (get_or p.value []) ≡ some v
    → store_bytes 10 (sized 1 k ++ sized 2 v) s
      ≡ ok (record s { params = s.params ++ normal_param p ∷ [] })
unfolding store_bytes string_field
store_bytes-param p k v s h ek ev =
    rw
      (parse_param-two (length (sized 1 k ++ sized 2 v)) (sized 1 k) (sized 2 v) empty_param
        (set_param 1 (get_or p.key []) empty_param)
        (set_param 2 (get_or p.value []) (set_param 1 (get_or p.key []) empty_param))
        (sized-pos 1 k) (sized-pos 2 v) (omega arith)
        (λ rest.
          parse_param_field-written 1 k rest _ empty_param
            (decode-encode _ k (IsWritable-get_or p.key h.key) ek))
        (λ rest.
          parse_param_field-written 2 v rest _ (set_param 1 (get_or p.key []) empty_param)
            (decode-encode _ v (IsWritable-get_or p.value h.value) ev)))
      (unfold set_param in refl)

abbrev pub put_params : List Param → Signal → Signal
put_params ps s = record s { params = s.params ++ map normal_param ps }

pub add_params-Writes :
    (ps : List Param) (s : Signal)
    → All IsWritableParam ps
    → Writes (add_params ps) s (put_params ps s)
unfolding add_params pb_str_field pb_bytes_field
add_params-Writes [] s h out r = (
  out,
  refl,
  subst (λ (ps : List Param). Reads out empty (record s { params = ps }))
      (sym (append-nil s.params)) r,
)
add_params-Writes (p ∷ ps) s (hp, hps) out r =
    let (k, ek) = encode_total (get_or p.key []) (IsWritable-get_or p.key hp.key) in
    let (v, ev) = encode_total (get_or p.value []) (IsWritable-get_or p.value hp.value) in
    let (out', e, r') =
      add_params-Writes ps (put_params (p ∷ []) s) hps (out ++ sized 10 (sized 1 k ++ sized 2 v)) (
        Reads-append out (sized 10 (sized 1 k ++ sized 2 v)) empty s (put_params (p ∷ []) s) r (
          Reads-sized 10 (sized 1 k ++ sized 2 v) s (put_params (p ∷ []) s)
            (store_bytes-param p k v s hp ek ev))) in
    (
      out',
      rw (ek, ev) e,
      subst (λ (qs : List Param). Reads out' empty (record s { params = qs }))
          (append_assoc s.params (normal_param p ∷ []) (map normal_param ps)) r',
    )
