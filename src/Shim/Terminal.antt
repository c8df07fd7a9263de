-- ===== src/Shim/Terminal.antt =====
-- The MetaTrader 5 terminal as scripts/ea_shim.py talks to it. The terminal is a parameter: a state
-- of its own, and for each call what it answers and its next state. Every request handed to
-- `order_send` is noted in `sent`, the latest first.
use exec_relay.Base.{ℕ, Bool, true, false, Option, List, ◌∷◌}
use exec_relay.Base.Text.{Text}
use exec_relay.Base.Exec.{Exec, ok}

-- The retcodes that the shim tells apart: DONE, INVALID_FILL, INVALID_PRICE.
pub data Retcode : Type 0 where
  done invalid_fill invalid_price : Retcode
  failed : ℕ → Retcode

unfoldable pub is_done : Retcode → Bool
is_done done = true
is_done _ = false

unfoldable pub is_invalid_fill : Retcode → Bool
is_invalid_fill invalid_fill = true
is_invalid_fill _ = false

unfoldable pub is_invalid_price : Retcode → Bool
is_invalid_price invalid_price = true
is_invalid_price _ = false

pub data OrderType : Type 0 where
  buy sell buy_limit sell_limit buy_stop sell_stop : OrderType

-- POSITION_TYPE_BUY and POSITION_TYPE_SELL
pub data Side : Type 0 where
  long short : Side

unfoldable pub same_side : Side → Side → Bool
same_side long long = true
same_side short short = true
same_side _ _ = false

pub data Filling : Type 0 where
  ioc fok : Filling

-- A field that the source leaves out of the request is `none`.
pub record Deal (F : Type 0) : Type 0 where
  pub symbol : Text
  pub volume : F
  pub order_type : OrderType
  pub position : Option ℕ
  pub price : F
  pub magic : ℕ
  pub comment : Text
  pub filling : Filling
  pub sl : Option F
  pub tp : Option F

pub record Pending (F : Type 0) : Type 0 where
  pub symbol : Text
  pub volume : F
  pub order_type : OrderType
  pub price : F
  pub magic : ℕ
  pub comment : Text
  pub sl : Option F
  pub tp : Option F

pub record Sltp (F : Type 0) : Type 0 where
  pub symbol : Text
  pub position : ℕ
  pub sl : F
  pub tp : F
  pub magic : ℕ

pub data Request (F : Type 0) : Type 0 where
  deal : Deal F → Request F
  pending : Pending F → Request F
  sltp : Sltp F → Request F
  remove : ℕ → Request F

pub record Reply : Type 0 where
  pub retcode : Retcode
  pub order : ℕ

pub record SymbolInfo (F : Type 0) : Type 0 where
  pub tick_value : F
  pub tick_size : F
  pub volume_step : F
  pub volume_min : F
  pub volume_max : F

pub record Tick (F : Type 0) : Type 0 where
  pub ask : F
  pub bid : F

pub record Position (F : Type 0) : Type 0 where
  pub ticket : ℕ
  pub symbol : Text
  pub side : Side
  pub volume : F
  pub price_open : F
  pub sl : F
  pub tp : F
  pub magic : ℕ
  pub comment : Text

pub record PendingOrder : Type 0 where
  pub ticket : ℕ
  pub magic : ℕ

-- The calls, and the constants of the shim that come from the environment.
pub record Terminal (F S : Type 0) : Type 0 where
  pub order_send : Request F → S → Option Reply × S
  pub symbol_info : Text → S → Option (SymbolInfo F) × S
  pub symbol_select : Text → S → Unit {0} × S
  pub symbol_info_tick : Text → S → Option (Tick F) × S
  pub positions_get : S → List (Position F) × S
  pub positions_of : Text → S → List (Position F) × S
  pub orders_get : S → List PendingOrder × S
  pub magic : ℕ
  pub pending_fallback : Bool
  pub risk_usd : F

pub record World (F S : Type 0) : Type 0 where
  pub mt5 : S
  pub sent : List (Request F)

-- The exception that the order code can raise: an attribute of None.
pub data Exc : Type 0 where
  attribute_error : Exc

abbrev pub Action : (F S A : Type 0) → Type 0
Action F S A = Exec (World F S) Exc A

module _ {F S : Type 0} where
  -- A call that reads.
  unfoldable pub ask : {A : Type 0} → (S → A × S) → Action F S A
  ask f w = let (a, s) = f w.mt5 in (ok a, record w { mt5 = s })

  unfoldable pub send : Terminal F S → Request F → Action F S (Option Reply)
  send t req w =
      let (a, s) = t.order_send req w.mt5 in (ok a, record w { mt5 = s; sent = req ∷ w.sent })
