-- ===== src/Shim/Watched.antt =====
-- What `position_monitor` of scripts/ea_shim.py reads and keeps: the deals, the account, the local
-- variables of its loop and the list of the positions that it knows.
use exec_relay.Base.{ℕ, Bool, true, false, Option, none, some, List, [], ◌∷◌, ◌==◌, if◌then◌else◌}
use exec_relay.Base.Text.{Text, codes}
use exec_relay.Base.Exec.{Result, Exec}
use exec_relay.TradeStore.Db.{SignalRow, Db}
use exec_relay.Shim.Terminal.{Side, long, short, Position, Terminal, World, Exc}
use exec_relay.Shim.Close.{Reason, take_profit, stop_loss, other}

-- A deal of `history_deals_get`: `entry_in` is `d.entry == mt5.DEAL_ENTRY_IN`.
pub record HistoryDeal (F : Type 0) : Type 0 where
  pub entry_in : Bool
  pub profit : F
  pub commission : F
  pub swap : F
  pub price : F
  pub reason : Reason

pub record Account (F : Type 0) : Type 0 where
  pub login : ℕ
  pub is_demo : Bool
  pub balance : F
  pub equity : F
  pub margin : F
  pub margin_free : F

-- `hb_state`; what needs the account is `none` without one.
pub record Heartbeat : Type 0 where
  pub mt5 : Bool
  pub account : Option ℕ
  pub demo : Option Bool

-- An entry "position_closed" of the transaction log.
pub record CloseNote (F : Type 0) : Type 0 where
  pub position : ℕ
  pub symbol : Text
  pub side : Text
  pub volume : F
  pub open_price : F
  pub close_price : F
  pub profit : F

-- What the monitor calls besides the order code: the terminal's lists (`none` is None), of which the
-- history may raise, the clock, `json.dumps`, a sum of floats, `round(x, 2)`, LIKE, whether the trade
-- store works, and the switch CANCEL_SIBLINGS_ON_CLOSE.
pub record Desk (F S : Type 0) : Type 0 where
  pub terminal : Terminal F S
  pub positions_get : S → Option (List (Position F)) × S
  pub history_deals_get : ℕ → S → Result Exc (Option (List (HistoryDeal F))) × S
  pub account_info : S → Option (Account F) × S
  pub now : S → Text × S
  pub dumps : Heartbeat → Text
  pub add : F → F → F
  pub round2 : F → F
  pub like : Text → SignalRow F → Bool
  pub works : Bool
  pub cancel_siblings_on_close : Bool

-- The local variables of the loop, with the stores it writes. `log` has the latest entry first.
pub record Monitor (F S : Type 0) : Type 0 where
  pub world : World F S
  pub db : Db F
  pub log : List (CloseNote F)
  pub known : Option (List (Position F))
  pub iteration : ℕ

abbrev pub Watch : (F S A : Type 0) → Type 0
Watch F S A = Exec (Monitor F S) Exc A

abbrev pub equity_snapshot_every : ℕ
equity_snapshot_every = 60

abbrev pub heartbeat_every : ℕ
heartbeat_every = 6

-- xs or []
unfoldable pub or_empty : {A : Type 0} → Option (List A) → List A
or_empty none = []
or_empty (some xs) = xs

unfoldable pub side_word : Side → Text
side_word long = codes "buy"
side_word short = codes "sell"

-- close_reason in (DEAL_REASON_TP, DEAL_REASON_SL)
unfoldable pub by_level : Reason → Bool
by_level take_profit = true
by_level stop_loss = true
by_level other = false

module _ {F : Type 0} where
  -- book[p.ticket] = p, for a dict by ticket
  unfoldable pub enter : Position F → List (Position F) → List (Position F)
  enter p [] = p ∷ []
  enter p (q ∷ book) = if p.ticket == q.ticket then p ∷ book else q ∷ enter p book

  unfoldable pub enter_own : ℕ → List (Position F) → List (Position F) → List (Position F)
  unfolding enter
  enter_own magic [] book = book
  enter_own magic (p ∷ ps) book =
      enter_own magic ps (if p.magic == magic then enter p book else book)

  -- {p.ticket: p for p in ps if p.magic == MAGIC}
  unfoldable pub book_of : ℕ → List (Position F) → List (Position F)
  unfolding enter_own
  book_of magic ps = enter_own magic ps []

  -- ticket in book
  unfoldable pub has : ℕ → List (Position F) → Bool
  has ticket [] = false
  has ticket (p ∷ book) = if ticket == p.ticket then true else has ticket book

  -- The reason and the price of `out[-1]`
  unfoldable pub last_price : F → List (HistoryDeal F) → F
  last_price default [] = default
  last_price default (d ∷ ds) = last_price d.price ds

  unfoldable pub last_reason : Reason → List (HistoryDeal F) → Reason
  last_reason default [] = default
  last_reason default (d ∷ ds) = last_reason d.reason ds

  unfoldable pub is_out : HistoryDeal F → Bool
  is_out d = if d.entry_in then false else true
