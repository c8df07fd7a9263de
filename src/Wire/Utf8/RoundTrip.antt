-- ===== src/Wire/Utf8/RoundTrip.antt =====
-- Decoding what was encoded, and the agreement of the strict with the replacing decoder.
use exec_relay.Base.{
  ℕ, zero, suc, ◌+◌, ◌/◌, ◌%◌, ◌≤◌, ◌<◌, ◌≡◌, refl, ap, ◌∙◌, Option, some, List, [], ◌∷◌, ◌++◌,
  arith, ltb, length, All, Bool-cases, inl, inr,
}
use mathlib.Core.Path.{subst}
use mathlib.Core.Option.{some-injective}
use exec_relay.Base.Text.{Text}
use exec_relay.Wire.Utf8.{
  IsScalar, encode_char, encode, Decoded, char, bad, two, three, four, decode_char, cons?,
  strict_step, decode_loop, decode, replace_step, replace_loop, decode_replace,
}

module _ (c : ℕ) (bs : List ℕ) where
  two-encoded :
      0x80 ≤ c → c < 0x800 → decode_char (0xC0 + c / 0x40) ((0x80 + c % 0x40) ∷ bs) ≡ char c bs
  unfolding decode_char
  two-encoded lo hi = ground arith

  three-encoded :
      0x800 ≤ c
      → c < 0x10000
      → IsScalar c
      → decode_char (0xE0 + c / 0x1000) ((0x80 + c / 0x40 % 0x40) ∷ (0x80 + c % 0x40) ∷ bs)
        ≡ char c bs
  unfolding decode_char
  three-encoded lo hi s = ground arith

  four-encoded :
      0x10000 ≤ c
      → c < 0x110000
      → decode_char
          (0xF0 + c / 0x40000)
          ((0x80 + c / 0x1000 % 0x40) ∷ (0x80 + c / 0x40 % 0x40) ∷ (0x80 + c % 0x40) ∷ bs)
        ≡ char c bs
  unfolding decode_char
  four-encoded lo hi = ground arith

abbrev front : List ℕ → Decoded
front [] = bad []
front (b ∷ r) = decode_char b r

front-encode_char : (c : ℕ) (bs : List ℕ) → IsScalar c → front (encode_char c ++ bs) ≡ char c bs
unfolding encode_char
front-encode_char c bs s = elim (Bool-cases (ltb c 0x80)) [
  | inl one ↦ rw one (unfold decode_char in rw one)
  | inr more ↦ elim (Bool-cases (ltb c 0x800)) [
    | inl small ↦ rw (more, small) (two-encoded c bs (ground arith) (ground arith))
    | inr large ↦ elim (Bool-cases (ltb c 0x10000)) [
      | inl medium ↦ rw (more, large, medium) (three-encoded c bs (ground arith) (ground arith) s)
      | inr huge ↦ rw (more, large, huge) (four-encoded c bs (ground arith) (ground arith))
    ]
  ]
]

decode_loop_step :
    (fuel : ℕ) (bs : List ℕ) (c : ℕ) (rest : List ℕ)
    → front bs ≡ char c rest
    → decode_loop (suc fuel) bs ≡ cons? c (decode_loop fuel rest)
decode_loop_step fuel [] c rest e = cc
decode_loop_step fuel (b ∷ r) c rest e = unfold decode_loop in ap (strict_step (decode_loop fuel)) e

encode_char-length : (c : ℕ) (bs : List ℕ) → length bs < length (encode_char c ++ bs)
unfolding encode_char
encode_char-length c bs = ground arith

encode-cons :
    (c : ℕ) (s : Text) (bs : List ℕ)
    → encode (c ∷ s) ≡ some bs
    → (rest : List ℕ) × (encode s ≡ some rest) × (bs ≡ encode_char c ++ rest)
unfolding encode
encode-cons c s bs e = ground arith

decode_loop-encode :
    (s : Text) (bs : List ℕ) (fuel : ℕ)
    → All IsScalar s
    → encode s ≡ some bs
    → length bs ≤ fuel
    → decode_loop fuel bs ≡ some s
decode_loop-encode [] bs fuel h e f = unfold encode decode_loop in ground arith
decode_loop-encode (c ∷ s) bs zero h e f =
    let (rest, _, shape) = encode-cons c s bs e in
    absurd (omega (arith, ap (length {A = ℕ}) shape, encode_char-length c rest))
decode_loop-encode (c ∷ s) bs (suc fuel) h e f =
    let (rest, tail, shape) = encode-cons c s bs e in
    let short : length rest ≤ fuel =
      omega (arith, ap (length {A = ℕ}) shape, encode_char-length c rest) in
    rw shape (
      decode_loop_step fuel (encode_char c ++ rest) c rest (front-encode_char c rest h.0)
      ∙ rw (decode_loop-encode s rest fuel h.1 tail short) (unfold cons? in refl))

-- Every text of scalar values has an encoding.
pub encode_total : (s : Text) → All IsScalar s → (bs : List ℕ) × (encode s ≡ some bs)
unfolding encode
encode_total [] h = ([], refl)
encode_total (c ∷ s) (hc, hs) =
    let (bs, e) = encode_total s hs in (encode_char c ++ bs, ground arith)

-- Decoding gives back what was encoded.
pub decode-encode :
    (s : Text) (bs : List ℕ) → All IsScalar s → encode s ≡ some bs → decode bs ≡ some s
unfolding decode
decode-encode s bs h e = decode_loop-encode s bs (length bs) h e (omega arith)

two-IsScalar :
    (b : ℕ) (r : List ℕ) (c : ℕ) (rest : List ℕ) → b < 0xE0 → two b r ≡ char c rest → IsScalar c
unfolding two
two-IsScalar b [] c rest h e = cc
two-IsScalar b (d ∷ r) c rest h e = ground arith

three-IsScalar :
    (b : ℕ) (r : List ℕ) (c : ℕ) (rest : List ℕ)
    → 0xE0 ≤ b
    → b < 0xF0
    → three b r ≡ char c rest
    → IsScalar c
unfolding three
three-IsScalar b [] c rest h k e = cc
three-IsScalar b (d ∷ []) c rest h k e = ground arith
three-IsScalar b (d ∷ f ∷ r) c rest h k e = ground arith

four-IsScalar :
    (b : ℕ) (r : List ℕ) (c : ℕ) (rest : List ℕ)
    → 0xF0 ≤ b
    → b < 0xF5
    → four b r ≡ char c rest
    → IsScalar c
unfolding four
four-IsScalar b [] c rest h k e = cc
four-IsScalar b (d ∷ []) c rest h k e = ground arith
four-IsScalar b (d ∷ f ∷ []) c rest h k e = ground arith
four-IsScalar b (d ∷ f ∷ g ∷ r) c rest h k e = ground arith

decode_char-IsScalar :
    (b : ℕ) (r : List ℕ) (c : ℕ) (rest : List ℕ) → decode_char b r ≡ char c rest → IsScalar c
unfolding decode_char
decode_char-IsScalar b r c rest e =
    ground (arith, two-IsScalar b r c rest, three-IsScalar b r c rest, four-IsScalar b r c rest)

cons?-eq-some :
    (c : ℕ) (o : Option Text) (s : Text)
    → cons? c o ≡ some s
    → (t : Text) × (o ≡ some t) × (c ∷ t ≡ s)
unfolding cons?
cons?-eq-some c o s e = ground arith

strict_step-IsScalar :
    (more : List ℕ → Option Text) (d : Decoded) (s : Text)
    → ((bs : List ℕ) (t : Text) → more bs ≡ some t → All IsScalar t)
    → ((c : ℕ) (rest : List ℕ) → d ≡ char c rest → IsScalar c)
    → strict_step more d ≡ some s
    → All IsScalar s
unfolding strict_step
strict_step-IsScalar more (char c rest) s ih scalar e =
    let (t, found, shape) = cons?-eq-some c (more rest) s e in
    subst (All IsScalar) shape (scalar c rest refl, ih rest t found)
strict_step-IsScalar more (bad rest) s ih scalar e = cc

decode_loop-IsScalar :
    (fuel : ℕ) (bs : List ℕ) (s : Text) → decode_loop fuel bs ≡ some s → All IsScalar s
unfolding decode_loop
decode_loop-IsScalar fuel [] s e = subst (All IsScalar) (some-injective _ _ e) tt
decode_loop-IsScalar zero (b ∷ r) s e = cc
decode_loop-IsScalar (suc fuel) (b ∷ r) s e =
    strict_step-IsScalar (decode_loop fuel) (decode_char b r) s (decode_loop-IsScalar fuel)
      (decode_char-IsScalar b r) e

-- What the strict decoder accepts is made of scalar values.
pub decode-IsScalar : (bs : List ℕ) (s : Text) → decode bs ≡ some s → All IsScalar s
unfolding decode
decode-IsScalar bs s e = decode_loop-IsScalar (length bs) bs s e

replace_step-strict_step :
    (more : List ℕ → Option Text) (lax : List ℕ → Text) (d : Decoded) (s : Text)
    → ((bs : List ℕ) (t : Text) → more bs ≡ some t → lax bs ≡ t)
    → strict_step more d ≡ some s
    → replace_step lax d ≡ s
unfolding strict_step replace_step
replace_step-strict_step more lax (char c rest) s ih e =
    let (t, found, shape) = cons?-eq-some c (more rest) s e in
    ap (λ (u : Text). c ∷ u) (ih rest t found) ∙ shape
replace_step-strict_step more lax (bad rest) s ih e = cc

replace_loop-decode_loop :
    (fuel : ℕ) (bs : List ℕ) (s : Text) → decode_loop fuel bs ≡ some s → replace_loop fuel bs ≡ s
unfolding decode_loop replace_loop
replace_loop-decode_loop fuel [] s e = ground arith
replace_loop-decode_loop zero (b ∷ r) s e = cc
replace_loop-decode_loop (suc fuel) (b ∷ r) s e =
    replace_step-strict_step (decode_loop fuel) (replace_loop fuel) (decode_char b r) s
      (replace_loop-decode_loop fuel) e

-- On bytes that the strict decoder accepts, the replacing one gives the same text.
pub decode_replace-decode : (bs : List ℕ) (s : Text) → decode bs ≡ some s → decode_replace bs ≡ s
unfolding decode decode_replace
decode_replace-decode bs s e = replace_loop-decode_loop (length bs) bs s e
