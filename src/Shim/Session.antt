-- ===== src/Shim/Session.antt =====
-- `run_session` of scripts/ea_shim.py: what the shim does with each message of the bridge, in the order
-- in which they arrive. The socket gives the messages; the heartbeat task beside the loop, the log lines
-- and the transaction log are left out.
pub mod Replies
pub mod Tests
use exec_relay.Base.{
  ℕ, ◌≡◌, refl, Bool, true, false, ◌&&◌, Option, none, some, List, [], ◌∷◌, ◌++◌, if◌then◌else◌,
}
use exec_relay.Base.Text.{Text, codes, truthy}
use exec_relay.Base.Exec.{Exec, pure, gets, modify, ◌>>=◌, ◌>>◌}
use exec_relay.TradeStore.Db.{OrderRow, Db}
use exec_relay.TradeStore.Orders.{record_order}
use exec_relay.TradeStore.Settings.{get_symbol_map}
use exec_relay.Shim.Floats.{Floats}
use exec_relay.Shim.Terminal.{Terminal, World, Exc, Action}
use exec_relay.Shim.Params.{Params, fnum}
use exec_relay.Shim.Orders.{Error}
use exec_relay.Shim.Close.{decimal}
use exec_relay.Shim.Execute.{execute}
use exec_relay.Shim.Outcome.{Status, filled, placed, rejected, Execution, entry_keys, Fill, fill_of}

-- A message by its `type`; a missing `trace_id`, `command` or `symbol` is the empty text.
pub data Message (F : Type 0) : Type 0 where
  registered ping other : Message F
  signal : Text → Text → Text → Params F → Message F

pub data Reply : Type 0 where
  fill : Text → Fill → Reply
  pong : Reply

-- The terminal, whether the trade store works, the clock, and the text of an error message, whose
-- figures Python prints.
pub record Host (F S : Type 0) : Type 0 where
  pub terminal : Terminal F S
  pub works : Bool
  pub now : S → Text × S
  pub error_text : Error → Text

-- `outbox` holds what was sent to the bridge, the latest first; `beating` is `hb is not None`.
pub record Session (F S : Type 0) : Type 0 where
  pub world : World F S
  pub db : Db F
  pub outbox : List Reply
  pub beating : Bool

abbrev pub Talk : (F S A : Type 0) → Type 0
Talk F S A = Exec (Session F S) Exc A

unfoldable pub status_word : Status → Text
status_word filled = codes "filled"
status_word placed = codes "placed"
status_word rejected = codes "rejected"

-- ",".join(tickets)
unfoldable pub joined : List ℕ → Text
unfolding decimal
joined [] = []
joined (n ∷ []) = decimal n
joined (n ∷ m ∷ ns) = decimal n ++ (codes "," ++ joined (m ∷ ns))

-- text or None
unfoldable pub or_none : Text → Option Text
unfolding truthy
or_none t = if truthy t then some t else none

-- x or None, for a float
unfoldable pub nonzero : {F : Type 0} ⦃fl : Floats F⦄ → F → Option F
nonzero ⦃fl⦄ x = if fl.le x fl.zero && fl.le fl.zero x then none else some x

module _ {F S : Type 0} where
  unfoldable pub on_world : {A : Type 0} → Action F S A → Talk F S A
  on_world m s = let (r, w) = m s.world in (r, record s { world = w })

  unfoldable pub look : {A : Type 0} → (S → A × S) → Talk F S A
  look f s =
      let (a, mt5) = f s.world.mt5 in pure a (record s { world = record s.world { mt5 = mt5 } })

  unfoldable pub send_reply : Reply → Session F S → Session F S
  send_reply r s = record s { outbox = r ∷ s.outbox }

  unfoldable pub set_beating : Bool → Session F S → Session F S
  set_beating b s = record s { beating = b }

module _ {F S : Type 0} ⦃fl : Floats F⦄ (h : Host F S) where
  unfoldable pub error_message : Option Error → Option Text
  error_message none = none
  error_message (some e) = some (h.error_text e)

  unfoldable pub comment_text : Option Text → Text
  comment_text none = []
  comment_text (some c) = c

  -- The arguments of `record_order`
  unfoldable pub order_of : Text → Text → Text → Params F → Execution F → Text → OrderRow F
  unfolding error_message comment_text nonzero or_none joined status_word fill_of
  order_of trace_id command symbol params e ts = record {
    ts = ts;
    trace_id = trace_id;
    source = some (codes "tradingview");
    command = some command;
    symbol = some symbol;
    requested_risk = nonzero (fnum params (codes "risk" ∷ []) fl.zero);
    volume = some e.volume;
    sl = nonzero (fnum params (codes "sl" ∷ []) fl.zero);
    tp = nonzero (fnum params (codes "tp" ∷ []) fl.zero);
    entry = nonzero (fnum params entry_keys fl.zero);
    status = some (status_word (fill_of e).status);
    broker_order_id = or_none (joined e.orders);
    comment = or_none (comment_text params.comment);
    error = error_message e.error;
  }

  unfoldable pub store_order : OrderRow F → Session F S → Session F S
  store_order row s = record s { db = record_order h.works row s.db }

  -- What follows `execute`: the fill goes out, and the order is stored.
  unfoldable pub report_fill : Text → Text → Text → Params F → Execution F → Talk F S (Unit {0})
  unfolding send_reply fill_of order_of store_order look
  report_fill trace_id command symbol params e = do
    modify (send_reply (fill trace_id (fill_of e)))
    ts ← look h.now
    modify (store_order (order_of trace_id command symbol params e ts))

  unfoldable pub on_signal : Text → Text → Text → Params F → Talk F S (Unit {0})
  unfolding execute get_symbol_map on_world report_fill
  on_signal trace_id command symbol params = do
    db ← gets (λ s. s.db)
    e ← on_world (execute h.terminal (get_symbol_map h.works db) command symbol params)
    report_fill trace_id command symbol params e

  unfoldable pub on_message : Message F → Talk F S (Unit {0})
  unfolding on_signal send_reply set_beating
  on_message registered = modify (set_beating true)
  on_message ping = modify (send_reply pong)
  on_message other = pure tt
  on_message (signal trace_id command symbol params) = on_signal trace_id command symbol params

  -- async for raw in ws
  unfoldable pub each_message : List (Message F) → Talk F S (Unit {0})
  unfolding on_message
  each_message [] = pure tt
  each_message (m ∷ ms) = on_message m >> each_message ms

  -- The loop with its `finally`: the heartbeat task is cancelled however the loop ends.
  unfoldable pub run_session : List (Message F) → Talk F S (Unit {0})
  unfolding each_message set_beating
  run_session ms s = let (r, s') = each_message ms s in (r, set_beating false s')
