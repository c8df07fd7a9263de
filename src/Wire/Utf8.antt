-- ===== src/Wire/Utf8.antt =====
-- UTF-8 as `str.encode("utf-8")` and `bytes.decode("utf-8")` do it, strictly and with
-- `errors="replace"`. A str is the list of its code points.
pub mod RoundTrip
use exec_relay.Base.{
  ℕ, zero, suc, ◌+◌, ◌-◌, ◌*◌, ◌/◌, ◌%◌, ◌≤◌, ◌<◌, ◌⊎◌, Bool, ◌&&◌, ◌||◌, Option, none, some, List,
  [], ◌∷◌, ◌++◌, arith, ltb, leb, ◌==◌, if◌then◌else◌, length,
}
use exec_relay.Base.Text.{Text}

-- A code point that UTF-8 can write: no surrogate, and in the range of Unicode.
abbrev pub IsScalar : ℕ → Type 0
IsScalar c = (c < 0xD800) ⊎ ((0xDFFF < c) × (c < 0x110000))

unfoldable pub is_scalar : ℕ → Bool
is_scalar c = ltb c 0xD800 || (ltb 0xDFFF c && ltb c 0x110000)

unfoldable pub encode_char : ℕ → List ℕ
encode_char c =
    if ltb c 0x80
    then c ∷ []
    else if ltb c 0x800
    then (0xC0 + c / 0x40) ∷ (0x80 + c % 0x40) ∷ []
    else if ltb c 0x10000
    then (0xE0 + c / 0x1000) ∷ (0x80 + c / 0x40 % 0x40) ∷ (0x80 + c % 0x40) ∷ []
    else (0xF0 + c / 0x40000)
      ∷ (0x80 + c / 0x1000 % 0x40)
      ∷ (0x80 + c / 0x40 % 0x40)
      ∷ (0x80 + c % 0x40)
      ∷ []

-- s.encode("utf-8"); `none` is the UnicodeEncodeError.
unfoldable pub encode : Text → Option (List ℕ)
unfolding is_scalar encode_char
encode [] = some []
encode (c ∷ s) =
    let rest = encode s in
    if is_scalar c then elim rest [ none ↦ none | some bs ↦ some (encode_char c ++ bs) ] else none

-- One character off the front, or an error with what stands behind the bytes that it spoils.
pub data Decoded : Type 0 where
  char : ℕ → List ℕ → Decoded
  bad : List ℕ → Decoded

unfoldable pub within : ℕ → ℕ → ℕ → Bool
within lo hi c = leb lo c && leb c hi

unfoldable pub two : ℕ → List ℕ → Decoded
unfolding within
two b [] = bad []
two b (c ∷ r) = if within 0x80 0xBF c then char ((b - 0xC0) * 0x40 + (c - 0x80)) r else bad (c ∷ r)

-- The second byte of three: no overlong form, no surrogate.
unfoldable pub second_of_three : ℕ → ℕ → Bool
unfolding within
second_of_three b c =
    if b == 0xE0
    then within 0xA0 0xBF c
    else if b == 0xED
    then within 0x80 0x9F c
    else within 0x80 0xBF c

unfoldable pub three : ℕ → List ℕ → Decoded
unfolding within second_of_three
three b [] = bad []
three b (c ∷ []) = if second_of_three b c then bad [] else bad (c ∷ [])
three b (c ∷ d ∷ r) =
    if second_of_three b c
    then (if within 0x80 0xBF d
        then char ((b - 0xE0) * 0x1000 + (c - 0x80) * 0x40 + (d - 0x80)) r
        else bad (d ∷ r))
    else bad (c ∷ d ∷ r)

-- The second byte of four: no overlong form, nothing above U+10FFFF.
unfoldable pub second_of_four : ℕ → ℕ → Bool
unfolding within
second_of_four b c =
    if b == 0xF0
    then within 0x90 0xBF c
    else if b == 0xF4
    then within 0x80 0x8F c
    else within 0x80 0xBF c

unfoldable pub four : ℕ → List ℕ → Decoded
unfolding within second_of_four
four b [] = bad []
four b (c ∷ []) = if second_of_four b c then bad [] else bad (c ∷ [])
four b (c ∷ d ∷ []) =
    if second_of_four b c
    then (if within 0x80 0xBF d then bad [] else bad (d ∷ []))
    else bad (c ∷ d ∷ [])
four b (c ∷ d ∷ e ∷ r) =
    if second_of_four b c
    then (if within 0x80 0xBF d
        then (if within 0x80 0xBF e
            then char ((b - 0xF0) * 0x40000 + (c - 0x80) * 0x1000 + (d - 0x80) * 0x40 + (e - 0x80))
                r
            else bad (e ∷ r))
        else bad (d ∷ e ∷ r))
    else bad (c ∷ d ∷ e ∷ r)

unfoldable pub decode_char : ℕ → List ℕ → Decoded
unfolding two three four
decode_char b r =
    if ltb b 0x80
    then char b r
    else if ltb b 0xC2
    then bad r
    else if ltb b 0xE0
    then two b r
    else if ltb b 0xF0
    then three b r
    else if ltb b 0xF5
    then four b r
    else bad r

cons? : ℕ → Option Text → Option Text
cons? c none = none
cons? c (some s) = some (c ∷ s)

unfoldable pub strict_step : (List ℕ → Option Text) → Decoded → Option Text
unfolding cons?
strict_step more (char c rest) = cons? c (more rest)
strict_step more (bad rest) = none

unfoldable pub decode_loop : ℕ → List ℕ → Option Text
unfolding strict_step
decode_loop fuel [] = some []
decode_loop zero (b ∷ r) = none
decode_loop (suc fuel) (b ∷ r) = strict_step (decode_loop fuel) (decode_char b r)

-- raw.decode("utf-8"); `none` is the UnicodeDecodeError. Each character takes a byte at least.
unfoldable pub decode : List ℕ → Option Text
decode bs = decode_loop (length bs) bs

replace_step : (List ℕ → Text) → Decoded → Text
replace_step more (char c rest) = c ∷ more rest
replace_step more (bad rest) = 0xFFFD ∷ more rest

replace_loop : ℕ → List ℕ → Text
unfolding replace_step
replace_loop fuel [] = []
replace_loop zero (b ∷ r) = []
replace_loop (suc fuel) (b ∷ r) = replace_step (replace_loop fuel) (decode_char b r)

-- raw.decode("utf-8", errors="replace")
pub decode_replace : List ℕ → Text
decode_replace bs = replace_loop (length bs) bs
