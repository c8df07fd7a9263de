-- ===== src/TradeStore/Siblings.antt =====
-- `sibling_order_rows`, `sibling_broker_order_ids` and `channel_flags` of scripts/_tradestore.py.
pub mod Sound
use exec_relay.Base.{
  ℕ, ◌≡◌, ◌≢◌, refl, ap, Bool, true, false, not, ◌&&◌, ◌||◌, Option, none, some, List, [], ◌∷◌,
  ◌++◌, map, arith, if◌then◌else◌, Bool-cases, Option-cases, inl, inr, In, keep, In-keep, ◌⊎◌,
}
use exec_relay.Base.Text.{Text, codes, text_eq, text_eq_iff, text_eq_refl, truthy, lower, mem}
use exec_relay.TradeStore.Db.{SignalRow, OrderRow, Channel, Db}

pub record Flags : Type 0 where
  pub partial_book : Bool
  pub breakeven : Bool

abbrev pub no_flags : Flags
no_flags = record { partial_book = false; breakeven = false }

-- WHERE title = ? COLLATE NOCASE; a NULL title equals nothing.
unfoldable pub titled : Text → Channel → Bool
titled name c = elim c.title [ none ↦ false | some t ↦ text_eq (lower t) (lower name) ]

unfoldable pub first_flags : List Channel → Flags
first_flags [] = no_flags
first_flags (c ∷ rows) = record { partial_book = c.partial_book; breakeven = c.breakeven }

unfoldable pub flag_rows : Option Text → List Channel → List Channel
unfolding titled
flag_rows none channels = keep (λ c. text_eq c.chat_id (codes "direct")) channels
flag_rows (some name) channels =
    if truthy name
    then keep (titled name) channels
    else keep (λ c. text_eq c.chat_id (codes "direct")) channels

module _ {F : Type 0} where
  -- channel_flags(channel_name); a query that fails returns no rows
  unfoldable pub channel_flags : Bool → Option Text → Db F → Flags
  unfolding flag_rows first_flags
  channel_flags works name db = first_flags (if works then flag_rows name db.channels else [])

-- One leg of a signal, with the channel of the signal.
pub record Sibling (F : Type 0) : Type 0 where
  pub broker_order_id : Text
  pub trace_id : Text
  pub command : Option Text
  pub tp : Option F
  pub channel : Option Text

module _ {F : Type 0} where
  unfoldable pub placed_as : Text → OrderRow F → Bool
  placed_as id o = elim o.broker_order_id [ none ↦ false | some b ↦ text_eq b id ]

  unfoldable pub first_trace : List (OrderRow F) → Text
  first_trace [] = []
  first_trace (o ∷ rows) = o.trace_id

  unfoldable pub ids_of : SignalRow F → List Text
  ids_of r = elim r.trace_ids [ none ↦ [] | some ids ↦ ids ]

  -- The loop over `sig_rows`: the first signal that lists the trace id.
  unfoldable pub find_signal : Text → List (SignalRow F) → Option (SignalRow F)
  unfolding ids_of
  find_signal trace [] = none
  find_signal trace (r ∷ rows) = if mem trace (ids_of r) then some r else find_signal trace rows

  -- A row of the last query, `none` where the broker order id is NULL or ''.
  unfoldable pub leg_of : Option Text → OrderRow F → Option (Sibling F)
  leg_of channel o = elim o.broker_order_id [
    | none ↦ none
    | some b ↦
        if truthy b
        then some record {
          broker_order_id = b;
          trace_id = o.trace_id;
          command = o.command;
          tp = o.tp;
          channel = channel;
        }
        else none
  ]

  unfoldable pub push_leg : Option (Sibling F) → List (Sibling F) → List (Sibling F)
  push_leg none legs = legs
  push_leg (some l) legs = l ∷ legs

  unfoldable pub legs : Option Text → List Text → List (OrderRow F) → List (Sibling F)
  unfolding leg_of push_leg
  legs channel traces [] = []
  legs channel traces (o ∷ rows) =
      let rest = legs channel traces rows in
      if mem o.trace_id traces then push_leg (leg_of channel o) rest else rest

  unfoldable pub legs_of_signal : Option (SignalRow F) → List (OrderRow F) → List (Sibling F)
  unfolding legs ids_of
  legs_of_signal none orders = []
  legs_of_signal (some r) orders = legs r.channel (ids_of r) orders

  -- sibling_order_rows(broker_order_id). `like` is SQLite's LIKE test of the second query, on a trace
  -- id and the row that may list it.
  unfoldable pub sibling_order_rows : (Text → SignalRow F → Bool) → Text → Db F → List (Sibling F)
  unfolding placed_as first_trace find_signal legs_of_signal
  sibling_order_rows like id db =
      let trace = first_trace (keep (placed_as id) db.orders) in
      if not (truthy id) || not (truthy trace)
      then []
      else legs_of_signal (find_signal trace (keep (like trace) db.signals)) db.orders

  unfoldable pub ids_except : Text → List (Sibling F) → List Text
  ids_except id [] = []
  ids_except id (s ∷ rows) =
      let rest = ids_except id rows in
      if text_eq s.broker_order_id id then rest else s.broker_order_id ∷ rest

  -- sibling_broker_order_ids(broker_order_id)
  unfoldable pub sibling_broker_order_ids : (Text → SignalRow F → Bool) → Text → Db F → List Text
  unfolding ids_except
  sibling_broker_order_ids like id db = ids_except id (sibling_order_rows like id db)
