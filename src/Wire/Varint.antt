-- ===== src/Wire/Varint.antt =====
-- Variable-length integers: `_varint` of apps/persist/app.py (apps/portal-api/app.py has the same
-- text) and `_pb_varint` of apps/portal-api/app.py. A position in a byte string is the rest of the
-- bytes from there on, and `none` is the IndexError of a read past the end.
use Prim.Native.Nat.{bit_and, bit_or}
use exec_relay.Base.{
  ℕ, zero, suc, ◌+◌, ◌*◌, ◌/◌, ◌%◌, ◌^◌, ◌<◌, ◌≡◌, ap, ◌∙◌, Option, none, some, List, [], ◌∷◌, ◌++◌,
  arith, ◌==◌, if◌then◌else◌, length,
}
use exec_relay.Wire.Bits.{low_bits, top_bit, bit_or_disjoint}
use native.Mathlib.Nat.{div-add-mod}
use native.Mathlib.Numerals.{towards_suc}

unfoldable pub varint_loop : List ℕ → ℕ → ℕ → Option (ℕ × List ℕ)
varint_loop [] result shift = none
varint_loop (b ∷ rest) result shift =
    let result' = bit_or result (bit_and b 0x7F * 2 ^ shift) in
    let more = varint_loop rest result' (shift + 7) in
    if bit_and b 0x80 == 0 then some (result', rest) else more

-- _varint(data, pos)
unfoldable pub varint : List ℕ → Option (ℕ × List ℕ)
varint data_ = varint_loop data_ 0 0

-- The loop of `_pb_varint`, with fuel for its rounds; `n` rounds and one more are enough.
pb_varint_loop : ℕ → ℕ → List ℕ
pb_varint_loop zero n = []
pb_varint_loop (suc fuel) n =
    let b = bit_and n 0x7F in
    let more = bit_or b 0x80 ∷ pb_varint_loop fuel (n / 2 ^ 7) in
    if n / 2 ^ 7 == 0 then b ∷ [] else more

-- _pb_varint(n)
pub pb_varint : ℕ → List ℕ
pb_varint n = pb_varint_loop (suc n) n

set_top_bit : (b : ℕ) → b < 128 → bit_or b 0x80 ≡ b + 128
set_top_bit b h = omega (arith, bit_or_disjoint 7 b 1 (omega arith))

-- Seven places further.
shift_seven : (s : ℕ) → 2 ^ (s + 7) ≡ 2 ^ s * 128
shift_seven s = simp towards_suc (omega arith)

-- A number in units of `t` is its lowest seven bits, and the rest in units of 128 times that.
split_group : (t w : ℕ) → w * t ≡ w % 128 * t + w / 128 * (t * 128)
split_group t w = omega (arith, ap (λ (k : ℕ). k * t) (div-add-mod w 128))

last_byte :
    (w result shift : ℕ) (rest : List ℕ)
    → w < 128
    → result < 2 ^ shift
    → varint_loop (w ∷ rest) result shift ≡ some (result + w * 2 ^ shift, rest)
unfolding varint_loop
last_byte w result shift rest h r =
    ground (arith, low_bits w, top_bit w, bit_or_disjoint shift result w r)

group_bound :
    (g result shift : ℕ) → g < 128 → result < 2 ^ shift → result + g * 2 ^ shift < 2 ^ (shift + 7)
group_bound g result shift h r = rw (shift_seven shift) (grind arith)

inner_byte :
    (g result shift : ℕ) (rest : List ℕ)
    → g < 128
    → result < 2 ^ shift
    → varint_loop ((g + 128) ∷ rest) result shift
      ≡ varint_loop rest (result + g * 2 ^ shift) (shift + 7)
unfolding varint_loop
inner_byte g result shift rest h r =
    ground (arith, low_bits (g + 128), top_bit (g + 128), bit_or_disjoint shift result g r)

varint_loop-pb_varint_loop :
    (fuel w result shift : ℕ) (rest : List ℕ)
    → w < fuel
    → result < 2 ^ shift
    → varint_loop (pb_varint_loop fuel w ++ rest) result shift ≡ some (result + w * 2 ^ shift, rest)
unfolding pb_varint_loop
varint_loop-pb_varint_loop zero w result shift rest h r = absurd (omega arith)
varint_loop-pb_varint_loop (suc fuel) w result shift rest h r = ground (
  arith,
  low_bits w,
  set_top_bit (w % 128) (omega arith),
  last_byte w result shift rest,
  inner_byte (w % 128) result shift (pb_varint_loop fuel (w / 128) ++ rest) (omega arith) r,
  split_group (2 ^ shift) w,
  shift_seven shift,
  group_bound (w % 128) result shift (omega arith) r,
  varint_loop-pb_varint_loop fuel (w / 128) (result + w % 128 * 2 ^ shift) (shift + 7) rest,
)

-- The reader returns the number that the writer wrote, and stands behind its last byte.
pub varint-pb_varint : (n : ℕ) (rest : List ℕ) → varint (pb_varint n ++ rest) ≡ some (n, rest)
unfolding varint pb_varint
varint-pb_varint n rest =
    varint_loop-pb_varint_loop (suc n) n 0 0 rest (omega arith) (omega arith)
    ∙ ap (λ (t : ℕ). some (t, rest)) (omega arith)

varint_loop-shrinks :
    (bs : List ℕ) (result shift n : ℕ) (rest : List ℕ)
    → varint_loop bs result shift ≡ some (n, rest)
    → length rest < length bs
unfolding varint_loop
varint_loop-shrinks [] result shift n rest e = cc
varint_loop-shrinks (b ∷ bs) result shift n rest e =
    ground (
      arith,
      varint_loop-shrinks bs (bit_or result (bit_and b 0x7F * 2 ^ shift)) (shift + 7) n rest,
    )

-- A successful read takes a byte at least.
pub varint-shrinks :
    (bs : List ℕ) (n : ℕ) (rest : List ℕ) → varint bs ≡ some (n, rest) → length rest < length bs
unfolding varint
varint-shrinks bs n rest e = varint_loop-shrinks bs 0 0 n rest e
