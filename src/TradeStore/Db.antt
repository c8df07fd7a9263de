-- ===== src/TradeStore/Db.antt =====
-- The tables of scripts/_tradestore.py. A table is the list of its rows in the order of insertion,
-- a NULL is `none`, and the REAL columns hold values of `F`. Identifiers that are only compared are
-- numbers, and the JSON array in `trace_ids` is the list that it stands for (`none` where the column
-- does not hold one).
use exec_relay.Base.{ℕ, Bool, Option, List, if◌then◌else◌}
use exec_relay.Base.Text.{Text}

pub record SignalRow (F : Type 0) : Type 0 where
  pub ts : Text
  pub chat_id : ℕ
  pub message_id : ℕ
  pub channel : Option Text
  pub outcome : Text
  pub symbol : Option Text
  pub side : Option Text
  pub entry : Option F
  pub sl : Option F
  pub tp : Option F
  pub n_commands : ℕ
  pub trace_ids : Option (List Text)
  pub raw : Option Text

pub record OrderRow (F : Type 0) : Type 0 where
  pub ts : Text
  pub trace_id : Text
  pub source : Option Text
  pub command : Option Text
  pub symbol : Option Text
  pub requested_risk : Option F
  pub volume : Option F
  pub sl : Option F
  pub tp : Option F
  pub entry : Option F
  pub status : Option Text
  pub broker_order_id : Option Text
  pub comment : Option Text
  pub error : Option Text

pub record ClosedTrade (F : Type 0) : Type 0 where
  pub position_id : ℕ
  pub close_ts : Text
  pub symbol : Text
  pub side : Text
  pub volume : F
  pub entry_price : Option F
  pub close_price : F
  pub profit : F
  pub magic : ℕ
  pub comment : Option Text
  pub source : Text

pub record EquitySnapshot (F : Type 0) : Type 0 where
  pub ts : Text
  pub balance : F
  pub equity : F
  pub margin : F
  pub margin_free : F
  pub floating : F

pub record Channel : Type 0 where
  pub chat_id : Text
  pub title : Option Text
  pub partial_book : Bool
  pub breakeven : Bool

-- A value of the `meta` table: a text, or the JSON object of the symbol map.
pub data Cell : Type 0 where
  plain : Text → Cell
  json : List (Text × Text) → Cell

pub record Db (F : Type 0) : Type 0 where
  pub signals : List (SignalRow F)
  pub orders : List (OrderRow F)
  pub closed_trades : List (ClosedTrade F)
  pub equity_snapshots : List (EquitySnapshot F)
  pub channels : List Channel
  pub meta : List (Text × Cell)

-- The frame of every write helper: where the connection or the statement fails, the exception is
-- swallowed and nothing is stored.
abbrev pub guarded : {F : Type 0} → Bool → (Db F → Db F) → Db F → Db F
guarded works write db = if works then write db else db
