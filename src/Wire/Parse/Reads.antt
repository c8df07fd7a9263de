-- ===== src/Wire/Parse/Reads.antt =====
-- How `parse_fields` moves over bytes that a writer put down: `Reads bs s t` says that it takes the
-- signal `s` to `t` over `bs`, whatever follows.
use Prim.Native.Nat.{bit_or}
use exec_relay.Base.{
  ℕ, zero, suc, ◌*◌, ◌^◌, ◌≤◌, ◌<◌, ◌≡◌, refl, ◌∙◌, some, List, [], ◌∷◌, ◌++◌, arith, length,
  append_assoc, take-append_length, drop-append_length, length-append,
}
use exec_relay.Base.Text.{Text}
use exec_relay.Wire.Bits.{bit_and_seven, tag_two}
use exec_relay.Wire.Varint.{pb_varint, varint-pb_varint}
use exec_relay.Wire.Utf8.{decode}
use exec_relay.Wire.Signal.{Param, Signal, set_param, set_number}
use exec_relay.Wire.Parse.{
  Parsed, ok, err, ◌>>=◌, parse_param_text, parse_param_field, store_bytes, parse_bytes,
  parse_field, parse_fields,
}
use exec_relay.Wire.Parse.Total.{Yields, parse_field-Shorter}

same_after :
    (n : ℕ) (r : Parsed (Signal × List ℕ)) (f g : Signal × List ℕ → Parsed Signal)
    → Yields (λ (_, rest). length rest < n) r
    → ((t : Signal) (rest : List ℕ) → length rest < n → f (t, rest) ≡ g (t, rest))
    → (r >>= f) ≡ (r >>= g)
same_after n (ok (t, rest)) f g short same = same t rest short
same_after n (err e) f g _ same = refl

fields_fuel :
    (f g : ℕ) (bs : List ℕ) (s : Signal)
    → length bs ≤ f
    → length bs ≤ g
    → parse_fields f bs s ≡ parse_fields g bs s
unfolding parse_fields
fields_fuel f g [] s h k = ground arith
fields_fuel zero g (b ∷ bs) s h k = absurd (omega arith)
fields_fuel (suc f) zero (b ∷ bs) s h k = absurd (omega arith)
fields_fuel (suc f) (suc g) (b ∷ bs) s h k =
    same_after (length (b ∷ bs)) (parse_field (b ∷ bs) s) _ _ (parse_field-Shorter (b ∷ bs) s)
      (λ t rest short. fields_fuel f g rest t (omega arith) (omega arith))

abbrev pub Reads : List ℕ → Signal → Signal → Type 0
Reads bs s t =
    (rest : List ℕ)
    → parse_fields (length (bs ++ rest)) (bs ++ rest) s ≡ parse_fields (length rest) rest t

pub Reads-append : (a b : List ℕ) (s t u : Signal) → Reads a s t → Reads b t u → Reads (a ++ b) s u
Reads-append a b s t u h k rest = rw (append_assoc a b rest) (h (b ++ rest) ∙ k rest)

-- One round over a field.
pub Reads-field :
    (bs : List ℕ) (s t : Signal)
    → 0 < length bs
    → ((rest : List ℕ) → parse_field (bs ++ rest) s ≡ ok (t, rest))
    → Reads bs s t
unfolding parse_fields
Reads-field [] s t h k rest = absurd (omega arith)
Reads-field (b ∷ bs) s t h k rest = rw (k rest) (
    fields_fuel (length (bs ++ rest)) (length rest) rest t (omega (arith, length-append bs rest))
      (omega arith))

module _ (n : ℕ) (bs rest : List ℕ) where
  parse_bytes-written :
      (s t : Signal)
      → store_bytes n bs s ≡ ok t
      → parse_bytes n (pb_varint (length bs) ++ (bs ++ rest)) s ≡ ok (t, rest)
  unfolding parse_bytes
  parse_bytes-written s t h = ground (
    arith,
    varint-pb_varint (length bs) (bs ++ rest),
    length-append bs rest,
    take-append_length bs rest,
    drop-append_length bs rest,
  )

  pub parse_field-written :
      (s t : Signal)
      → store_bytes n bs s ≡ ok t
      → parse_field (pb_varint (bit_or (n * 2 ^ 3) 2) ++ pb_varint (length bs) ++ bs ++ rest) s
        ≡ ok (t, rest)
  unfolding parse_field
  parse_field-written s t h =
      rw
        (
          append_assoc (pb_varint (bit_or (n * 2 ^ 3) 2) ++ pb_varint (length bs)) bs rest,
          append_assoc (pb_varint (bit_or (n * 2 ^ 3) 2)) (pb_varint (length bs)) (bs ++ rest),
        )
        (ground (
          arith,
          varint-pb_varint (bit_or (n * 2 ^ 3) 2) (pb_varint (length bs) ++ (bs ++ rest)),
          tag_two n,
          bit_and_seven (bit_or (n * 2 ^ 3) 2),
          parse_bytes-written s t h,
        ))

  parse_param_text-written :
      (v : Text) (p : Param)
      → decode bs ≡ some v
      → parse_param_text n (pb_varint (length bs) ++ (bs ++ rest)) p ≡ ok (set_param n v p, rest)
  unfolding parse_param_text
  parse_param_text-written v p h = ground (
    arith,
    varint-pb_varint (length bs) (bs ++ rest),
    length-append bs rest,
    take-append_length bs rest,
    drop-append_length bs rest,
  )

  pub parse_param_field-written :
      (v : Text) (p : Param)
      → decode bs ≡ some v
      → parse_param_field
          (pb_varint (bit_or (n * 2 ^ 3) 2) ++ pb_varint (length bs) ++ bs ++ rest)
          p
        ≡ ok (set_param n v p, rest)
  unfolding parse_param_field
  parse_param_field-written v p h =
      rw
        (
          append_assoc (pb_varint (bit_or (n * 2 ^ 3) 2) ++ pb_varint (length bs)) bs rest,
          append_assoc (pb_varint (bit_or (n * 2 ^ 3) 2)) (pb_varint (length bs)) (bs ++ rest),
        )
        (ground (
          arith,
          varint-pb_varint (bit_or (n * 2 ^ 3) 2) (pb_varint (length bs) ++ (bs ++ rest)),
          tag_two n,
          bit_and_seven (bit_or (n * 2 ^ 3) 2),
          parse_param_text-written v p h,
        ))

-- A number in field 8.
pub parse_field-nano :
    (n : ℕ) (rest : List ℕ) (s : Signal)
    → parse_field (pb_varint (bit_or (8 * 2 ^ 3) 0) ++ pb_varint n ++ rest) s
      ≡ ok (set_number 8 n s, rest)
unfolding parse_field
parse_field-nano n rest s =
    rw
      (
        append_assoc (pb_varint (bit_or (8 * 2 ^ 3) 0)) (pb_varint n) rest,
        varint-pb_varint 64 (pb_varint n ++ rest),
      )
      (ground (arith, varint-pb_varint n rest))
