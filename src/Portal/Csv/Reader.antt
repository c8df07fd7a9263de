-- ===== src/Portal/Csv/Reader.antt =====
-- A reader of comma-separated rows, and what it reads of the CSV export of apps/portal-api/app.py. Quotes
-- are those of RFC 4180; outside of them a carriage return, a line feed or both end a row, since the export
-- ends its rows with a line feed.
use exec_relay.Base.{
  ℕ, ◌≡◌, refl, ap, ◌∙◌, false, List, [], ◌∷◌, ◌++◌, append_assoc, append-nil, ◌==◌, ==_iff,
  if◌then◌else◌, arith, Bool-cases, inl, inr,
}
use exec_relay.Base.Text.{Text}
use exec_relay.Portal.Csv.{
  has_char, double_quotes, needs_quotes, csv_escape, join_fields, FillRow, csv_fields, csv_row,
}

-- Where the reader stands: in front of a field, in one without quotes, inside quotes, behind a quote.
pub data Place : Type 0 where
  at_start in_plain in_quotes at_quote : Place

-- What a character does: it belongs to the field, only changes the place, or ends the field or the row.
pub data Act : Type 0 where
  take_char turn : Place → Act
  end_field end_row end_return : Act

unfoldable pub delimiter : ℕ → Act → Act
delimiter c other =
    if c == b','
    then end_field
    else if c == 10
    then end_row
    else if c == 13
    then end_return
    else other

unfoldable pub act : Place → ℕ → Act
unfolding delimiter
act at_start c = if c == b'"' then turn in_quotes else delimiter c (take_char in_plain)
act in_plain c = delimiter c (take_char in_plain)
act in_quotes c = if c == b'"' then turn at_quote else take_char in_quotes
act at_quote c = if c == b'"' then take_char in_quotes else delimiter c (take_char in_plain)

-- A line feed behind the carriage return that ended a row belongs to the same line end.
unfoldable pub after_return : Text → Text
after_return [] = []
after_return (c ∷ s) = if c == 10 then s else c ∷ s

-- The fields of the first row, where `field` is what was read of the present one, and what follows it.
unfoldable pub read_row : Place → Text → Text → List Text × Text
read_row p field [] = (field ∷ [], [])
read_row p field (c ∷ s) = elim (act p c) [
  | take_char q ↦ read_row q (field ++ c ∷ []) s
  | turn q ↦ read_row q field s
  | end_field ↦ let (fields, rest) = read_row at_start [] s in (field ∷ fields, rest)
  | end_row ↦ (field ∷ [], s)
  | end_return ↦ (field ∷ [], after_return s)
]

-- What is no delimiter belongs to a field without quotes.
plain_char :
    (c : ℕ) (t : Text)
    → needs_quotes (c ∷ t) ≡ false
    → (act in_plain c ≡ take_char in_plain)
      × (act at_start c ≡ take_char in_plain)
      × (needs_quotes t ≡ false)
unfolding needs_quotes has_char act delimiter
plain_char c t h = (ground (arith, h), ground (arith, h), ground (arith, h))

read_row-take_char :
    (p q : Place) (c : ℕ) (field s : Text)
    → act p c ≡ take_char q
    → read_row p field (c ∷ s) ≡ read_row q (field ++ c ∷ []) s
unfolding read_row
read_row-take_char p q c field s e = ground (arith, e)

read_row-plain :
    (t field rest : Text)
    → needs_quotes t ≡ false
    → read_row in_plain field (t ++ rest) ≡ read_row in_plain (field ++ t) rest
read_row-plain [] field rest h = rw (append-nil field) refl
read_row-plain (c ∷ t) field rest h =
    let (plain, _, more) = plain_char c t h in
    read_row-take_char in_plain in_plain c field (t ++ rest) plain
    ∙ read_row-plain t (field ++ c ∷ []) rest more
    ∙ ap (λ f. read_row in_plain f rest) (append_assoc field (c ∷ []) t)

in_quotes_char : (c : ℕ) → c == b'"' ≡ false → act in_quotes c ≡ take_char in_quotes
unfolding act
in_quotes_char c h = rw h refl

-- Two quotes are one of the field.
doubled :
    (field s : Text)
    → read_row in_quotes field (b'"' ∷ b'"' ∷ s) ≡ read_row in_quotes (field ++ b'"' ∷ []) s
unfolding read_row act
doubled field s = refl

read_row-quoted :
    (t field rest : Text)
    → read_row in_quotes field (double_quotes t ++ (b'"' ∷ rest))
      ≡ read_row at_quote (field ++ t) rest
unfolding double_quotes
read_row-quoted [] field rest = rw (append-nil field) (unfold read_row act in refl)
read_row-quoted (c ∷ t) field rest =
    let ih = λ (d : ℕ).
      read_row-quoted t (field ++ d ∷ []) rest
      ∙ ap (λ f. read_row at_quote f rest) (append_assoc field (d ∷ []) t) in
    elim (Bool-cases (c == b'"')) [
      | inl e ↦ rw (e, (==_iff c b'"').0 e) (doubled field _ ∙ ih b'"')
      | inr e ↦ rw e (read_row-take_char in_quotes in_quotes c field _ (in_quotes_char c e) ∙ ih c)
    ]

-- A delimiter ends a field wherever it is no text.
module _ (rest field : Text) where
  IsEnded : List Text × Text → Type 0
  IsEnded out =
      (read_row at_start field rest ≡ out)
      × (read_row in_plain field rest ≡ out)
      × (read_row at_quote field rest ≡ out)

IsEnded-comma :
    (rest field : Text)
    → IsEnded
        (b',' ∷ rest)
        field
        (field ∷ (read_row at_start [] rest).0, (read_row at_start [] rest).1)
unfolding IsEnded read_row act delimiter
IsEnded-comma rest field = (refl, refl, refl)

IsEnded-row : (rest field : Text) → IsEnded (10 ∷ rest) field (field ∷ [], rest)
unfolding IsEnded read_row act delimiter
IsEnded-row rest field = (refl, refl, refl)

-- An escaped field is read back in front of a delimiter.
read_row-csv_escape :
    (t rest : Text) (out : List Text × Text)
    → IsEnded rest t out
    → read_row at_start [] (csv_escape t ++ rest) ≡ out
unfolding IsEnded csv_escape
read_row-csv_escape t rest out (start, plain, quote) = elim (Bool-cases (needs_quotes t)) [
  | inl e ↦
      rw (e, append_assoc (double_quotes t) (b'"' ∷ []) rest)
        (unfold read_row act in (read_row-quoted t [] rest ∙ quote))
  | inr e ↦ rw e (unquoted t e start plain)
]
  where
    unquoted :
        (t : Text)
        → needs_quotes t ≡ false
        → read_row at_start t rest ≡ out
        → read_row in_plain t rest ≡ out
        → read_row at_start [] (t ++ rest) ≡ out
    unquoted [] e start plain = start
    unquoted (c ∷ t) e start plain =
        let (_, first, more) = plain_char c t e in
        read_row-take_char at_start in_plain c [] (t ++ rest) first
        ∙ read_row-plain t (c ∷ []) rest more
        ∙ plain

read_row-join_fields :
    (t : Text) (ts : List Text) (rest : Text)
    → read_row at_start [] (join_fields (t ∷ ts) ++ 10 ∷ rest) ≡ (t ∷ ts, rest)
unfolding join_fields
read_row-join_fields t [] rest = read_row-csv_escape t (10 ∷ rest) _ (IsEnded-row rest t)
read_row-join_fields t (u ∷ ts) rest =
    rw (append_assoc (csv_escape t) (b',' ∷ join_fields (u ∷ ts)) (10 ∷ rest)) (
      read_row-csv_escape t _ _ (IsEnded-comma (join_fields (u ∷ ts) ++ 10 ∷ rest) t)
      ∙ ap (λ r. (t ∷ r.0, r.1)) (read_row-join_fields u ts rest))

-- A reader for which quotes are those of RFC 4180 and an unquoted carriage return, line feed or both end
-- a row reads, in front of a row of the export, the ten values of the row back, whatever quotes, commas,
-- carriage returns and line feeds they hold, and stops in front of what follows the row.
pub read_row-csv_row :
    (row : FillRow) (rest : Text)
    → read_row at_start [] (csv_row row ++ rest) ≡ (csv_fields row, rest)
unfolding csv_row csv_fields
read_row-csv_row row rest =
    rw (append_assoc (join_fields (csv_fields row)) (10 ∷ []) rest) (read_row-join_fields _ _ rest)
