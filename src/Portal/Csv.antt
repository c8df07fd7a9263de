-- ===== src/Portal/Csv.antt =====
-- The CSV export of fills of apps/portal-api/app.py.
pub mod Reader
use exec_relay.Base.{
  ℕ, Bool, true, false, ◌||◌, Option, none, some, List, [], ◌∷◌, ◌++◌, ◌==◌, if◌then◌else◌,
}
use exec_relay.Base.Text.{Text, codes}

-- c in s, for one character
unfoldable pub has_char : ℕ → Text → Bool
has_char c [] = false
has_char c (d ∷ s) = d == c || has_char c s

-- s.replace('"', '""')
unfoldable pub double_quotes : Text → Text
double_quotes [] = []
double_quotes (c ∷ s) =
    let rest = double_quotes s in if c == b'"' then b'"' ∷ b'"' ∷ rest else c ∷ rest

-- any(c in s for c in (",", '"', "\n", "\r"))
unfoldable pub needs_quotes : Text → Bool
unfolding has_char
needs_quotes s = has_char b',' s || has_char b'"' s || has_char 10 s || has_char 13 s

-- _csv_escape(s)
unfoldable pub csv_escape : Text → Text
unfolding double_quotes needs_quotes
csv_escape s = if needs_quotes s then b'"' ∷ (double_quotes s ++ b'"' ∷ []) else s

-- ",".join(_csv_escape(f) for f in fields)
unfoldable pub join_fields : List Text → Text
unfolding csv_escape
join_fields [] = []
join_fields (t ∷ []) = csv_escape t
join_fields (t ∷ u ∷ ts) = csv_escape t ++ b',' ∷ join_fields (u ∷ ts)

-- A row of the query, each value as the text that str, isoformat or json.dumps makes of it.
pub record FillRow : Type 0 where
  pub fill_id : Text
  pub trace_id : Option Text
  pub broker_order_id : Option Text
  pub status : Text
  pub error_code : Option Text
  pub error_message : Option Text
  pub license_key : Text
  pub instance_key : Option Text
  pub created_at : Text
  pub payload : Option Text

-- value or ""
unfoldable pub or_empty : Option Text → Text
or_empty none = []
or_empty (some t) = t

unfoldable pub csv_fields : FillRow → List Text
unfolding or_empty
csv_fields row =
    row.fill_id
    ∷ or_empty row.trace_id
    ∷ or_empty row.broker_order_id
    ∷ row.status
    ∷ or_empty row.error_code
    ∷ or_empty row.error_message
    ∷ row.license_key
    ∷ or_empty row.instance_key
    ∷ row.created_at
    ∷ or_empty row.payload
    ∷ []

-- _csv_row(row)
unfoldable pub csv_row : FillRow → Text
unfolding join_fields csv_fields
csv_row row = join_fields (csv_fields row) ++ 10 ∷ []
