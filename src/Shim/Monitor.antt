-- ===== src/Shim/Monitor.antt =====
-- `position_monitor` of scripts/ea_shim.py: one round of its loop, and a number of rounds. Console lines
-- and the sleep between the rounds are left out.
pub mod Books
pub mod Adds
pub mod Reported
pub mod Careful
pub mod Tests
use exec_relay.Base.{
  ℕ, zero, suc, ◌+◌, ◌%◌, ◌≡◌, refl, Bool, true, false, ◌&&◌, Option, none, some, List, [], ◌∷◌,
  ◌==◌, if◌then◌else◌, keep,
}
use exec_relay.Base.Text.{Text, codes}
use exec_relay.Base.Exec.{Result, Exec, pure, lift, gets, modify, ◌>>=◌, ◌>>◌, catch}
use exec_relay.TradeStore.Db.{SignalRow, ClosedTrade, EquitySnapshot, plain, Db}
use exec_relay.TradeStore.Orders.{record_closed_trade, record_equity}
use exec_relay.TradeStore.Settings.{meta_set}
use exec_relay.Shim.Floats.{Floats}
use exec_relay.Shim.Terminal.{Side, long, short, Position, Terminal, World, Exc, Action}
use exec_relay.Shim.Close.{Reason, take_profit, stop_loss, other, handle_close_oco}
use exec_relay.Shim.Watched.{
  Account, CloseNote, Desk, Heartbeat, HistoryDeal, Monitor, Watch, book_of, by_level, enter,
  enter_own, equity_snapshot_every, has, heartbeat_every, is_out, last_price, last_reason, or_empty,
  side_word,
}

module _ {F S : Type 0} where
  unfoldable pub on_world : {A : Type 0} → Action F S A → Watch F S A
  on_world m s = let (r, w) = m s.world in (r, record s { world = w })

  unfoldable pub look : {A : Type 0} → (S → A × S) → Watch F S A
  look f s =
      let (a, mt5) = f s.world.mt5 in pure a (record s { world = record s.world { mt5 = mt5 } })

  unfoldable pub look_or_raise : {A : Type 0} → (S → Result Exc A × S) → Watch F S A
  look_or_raise f s =
      let (r, mt5) = f s.world.mt5 in (r, record s { world = record s.world { mt5 = mt5 } })

  unfoldable pub note : CloseNote F → Monitor F S → Monitor F S
  note n s = record s { log = n ∷ s.log }

  unfoldable pub store : (Db F → Db F) → Monitor F S → Monitor F S
  store write s = record s { db = write s.db }

  unfoldable pub advance : List (Position F) → Monitor F S → Monitor F S
  advance current s = record s { known = some current; iteration = s.iteration + 1 }

module _ {F S : Type 0} ⦃fl : Floats F⦄ (d : Desk F S) where
  -- sum(d.profit + d.commission + d.swap for d in out)
  unfoldable pub realized : F → List (HistoryDeal F) → F
  realized acc [] = acc
  realized acc (x ∷ xs) = realized (d.add acc (d.add (d.add x.profit x.commission) x.swap)) xs

  -- _closed_result(ticket)
  unfoldable pub closed_result : ℕ → Watch F S (F × F × Reason)
  unfolding realized last_price last_reason is_out or_empty look_or_raise
  closed_result ticket = do
    deals ← look_or_raise (d.history_deals_get ticket)
    let out = keep is_out (or_empty deals)
    pure (realized fl.zero out, last_price fl.zero out, last_reason other out)

  unfoldable pub note_of : Position F → F → F → CloseNote F
  unfolding side_word
  note_of p profit close_price = record {
    position = p.ticket;
    symbol = p.symbol;
    side = side_word p.side;
    volume = p.volume;
    open_price = p.price_open;
    close_price = close_price;
    profit = d.round2 profit;
  }

  unfoldable pub trade_of : Position F → F → F → Text → ClosedTrade F
  unfolding side_word
  trade_of p profit close_price close_ts = record {
    position_id = p.ticket;
    close_ts = close_ts;
    symbol = p.symbol;
    side = side_word p.side;
    volume = p.volume;
    entry_price = some p.price_open;
    close_price = close_price;
    profit = d.round2 profit;
    magic = p.magic;
    comment = some p.comment;
    source = codes "tradingview";
  }

  unfoldable pub cancel_others : ℕ → Reason → Watch F S (Unit {0})
  unfolding handle_close_oco on_world by_level
  cancel_others ticket reason =
      if d.cancel_siblings_on_close && by_level reason
      then (do
        db ← gets (λ s. s.db)
        on_world (handle_close_oco d.terminal d.like db d.works ticket reason))
      else pure tt

  -- What is done for a position that has left the book.
  unfoldable pub report_close : Position F → Watch F S (Unit {0})
  unfolding closed_result note_of trade_of cancel_others note store look
  report_close p = do
    (profit, close_price, reason) ← closed_result p.ticket
    modify (note (note_of p profit close_price))
    close_ts ← look d.now
    modify (store (record_closed_trade d.works (trade_of p profit close_price close_ts)))
    cancel_others p.ticket reason

  unfoldable pub report_gone : List (Position F) → List (Position F) → Watch F S (Unit {0})
  unfolding report_close has
  report_gone current [] = pure tt
  report_gone current (p ∷ ps) =
      if has p.ticket current
      then report_gone current ps
      else (do report_close p; report_gone current ps)

  -- if known is not None
  unfoldable pub report_known :
      List (Position F) → Option (List (Position F)) → Watch F S (Unit {0})
  unfolding report_gone
  report_known current none = pure tt
  report_known current (some known) = report_gone current known

  unfoldable pub snapshot_of : Account F → Text → EquitySnapshot F
  snapshot_of a ts = record {
    ts = ts;
    balance = a.balance;
    equity = a.equity;
    margin = a.margin;
    margin_free = a.margin_free;
    floating = d.round2 (fl.sub a.equity a.balance);
  }

  unfoldable pub keep_snapshot : Option (Account F) → Watch F S (Unit {0})
  unfolding snapshot_of look store
  keep_snapshot none = pure tt
  keep_snapshot (some a) = do
    ts ← look d.now
    modify (store (record_equity d.works (snapshot_of a ts)))

  unfoldable pub snapshot : ℕ → Watch F S (Unit {0})
  unfolding keep_snapshot look
  snapshot iteration =
      if iteration % equity_snapshot_every == 0
      then (do a ← look d.account_info; keep_snapshot a)
      else pure tt

  unfoldable pub heartbeat_of : Option (Account F) → Heartbeat
  heartbeat_of none = record { mt5 = false; account = none; demo = none }
  heartbeat_of (some a) = record { mt5 = true; account = some a.login; demo = some a.is_demo }

  unfoldable pub heartbeat : ℕ → Watch F S (Unit {0})
  unfolding heartbeat_of look store
  heartbeat iteration =
      if iteration % heartbeat_every == 0
      then (do
        a ← look d.account_info
        ts ← look d.now
        modify (store (meta_set d.works (codes "hb_ea_shim") (plain ts)))
        modify (
            store (meta_set d.works (codes "hb_ea_shim_state") (plain (d.dumps (heartbeat_of a))))))
      else pure tt

  -- The body of the try, once the positions are listed.
  unfoldable pub poll_with : List (Position F) → Watch F S (Unit {0})
  unfolding report_known advance snapshot heartbeat
  poll_with current = do
    known ← gets (λ s. s.known)
    report_known current known
    modify (advance current)
    iteration ← gets (λ s. s.iteration)
    snapshot iteration
    heartbeat iteration

  -- The body of the try
  unfoldable pub poll : Watch F S (Unit {0})
  unfolding poll_with book_of or_empty look
  poll = do listed ← look d.positions_get; poll_with (book_of d.terminal.magic (or_empty listed))

  -- One round of `while True`: an exception is logged to the console.
  unfoldable pub round : Monitor F S → Monitor F S
  unfolding poll
  round s = (catch poll (λ e. pure tt) s).1

  -- So many rounds.
  unfoldable pub rounds : ℕ → Monitor F S → Monitor F S
  unfolding round
  rounds zero s = s
  rounds (suc n) s = rounds n (round s)
