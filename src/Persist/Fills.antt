-- ===== src/Persist/Fills.antt =====
-- JSON objects as apps/persist/app.py reads them, and its `persist_fill`.
use exec_relay.Base.{ℕ, Bool, false, ◌&&◌, Option, none, some, List, [], ◌∷◌, ◌==◌, if◌then◌else◌}
use exec_relay.Base.Text.{Text, codes, text_eq}
use exec_relay.Base.Exec.{pure, raise, gets, modify, ◌>>=◌, ◌>>◌}
use exec_relay.TradeStore.Settings.{lookup}
use exec_relay.Persist.Tables.{License, Instance, bad_argument, Work, statement}

pub data Loaded (V : Type 0) : Type 0 where
  -- json.loads raises, or gives no object
  invalid not_object : Loaded V
  object : List (Text × V) → Loaded V

-- What the json module and asyncpg do with values, which are parameters.
pub record Json (V : Type 0) : Type 0 where
  -- json.loads(data)
  pub loads : List ℕ → Loaded V
  pub of_text : Text → V
  pub truth : V → Bool
  -- str(value)
  pub str : V → Text
  -- int(value), `none` where it raises
  pub int : V → Option ℕ
  -- The text that a value is bound as, `none` where asyncpg refuses it.
  pub text : V → Option Text

unfoldable pub license_active : ℕ → List License → Bool
license_active id [] = false
license_active id (l ∷ rows) = if l.id == id then l.active else license_active id rows

-- … FROM instances i JOIN licenses l … WHERE i.instance_key = $1 AND l.active = TRUE LIMIT 1
unfoldable pub active_instance : Text → List License → List Instance → Option Instance
unfolding license_active
active_instance key licenses [] = none
active_instance key licenses (i ∷ rows) =
    if text_eq i.instance_key key && license_active i.license_id licenses
    then some i
    else active_instance key licenses rows

module _ {V : Type 0} ⦃js : Json V⦄ where
  unfoldable pub bound : Option Text → Work V Text
  bound none = raise bad_argument
  bound (some t) = pure t

  unfoldable pub bound_or_empty : Option V → Work V Text
  unfolding bound
  bound_or_empty none = pure []
  bound_or_empty (some v) = bound (js.text v)

  -- evt.get(key, ""), bound as a text
  unfoldable pub text_of : List (Text × V) → Text → Work V Text
  unfolding bound_or_empty
  text_of evt key = bound_or_empty (lookup key evt)

  unfoldable pub some_bound : Option Text → Work V (Option Text)
  some_bound none = raise bad_argument
  some_bound (some t) = pure (some t)

  unfoldable pub bound_or_none : Option V → Work V (Option Text)
  unfolding some_bound
  bound_or_none none = pure none
  bound_or_none (some v) = if js.truth v then some_bound (js.text v) else pure none

  -- fill.get(key) or None, bound as a text
  unfoldable pub text_or_none : List (Text × V) → Text → Work V (Option Text)
  unfolding bound_or_none
  text_or_none evt key = bound_or_none (lookup key evt)

  unfoldable pub insert_fill : Option Instance → List (Text × V) → Work V (Unit {0})
  unfolding text_of text_or_none statement
  insert_fill none fill = pure tt
  insert_fill (some i) fill = do
    trace_id ← text_of fill (codes "trace_id")
    status ← text_of fill (codes "status")
    broker_order_id ← text_or_none fill (codes "broker_order_id")
    error_code ← text_or_none fill (codes "error_code")
    error_message ← text_or_none fill (codes "error_message")
    statement
    modify (λ s. record s {
      fills =
          record {
            license_id = i.license_id;
            trace_id = trace_id;
            status = status;
            broker_order_id = broker_order_id;
            error_code = error_code;
            error_message = error_message;
            payload = fill;
          }
          ∷ s.fills;
    })

  -- persist_fill(pool, fill)
  unfoldable pub persist_fill : List (Text × V) → Work V (Unit {0})
  unfolding active_instance insert_fill text_of statement
  persist_fill fill = do
    statement
    key ← text_of fill (codes "instance_id")
    statement
    row ← gets (λ s. active_instance key s.licenses s.instances)
    insert_fill row fill
