-- ===== src/Shim/Close.antt =====
-- What scripts/ea_shim.py does when a position leaves the book at its TP or its SL: the one-cancels-other
-- and breakeven code. Log lines are left out.
pub mod Judged
pub mod Legs
use exec_relay.Base.{
  ℕ, zero, suc, ◌+◌, ◌/◌, ◌%◌, ◌≡◌, refl, Bool, true, false, not, ◌&&◌, ◌||◌, Option, none, some,
  List, [], ◌∷◌, ◌++◌, ◌==◌, ltb, if◌then◌else◌,
}
use exec_relay.Base.Text.{Text, codes, text_eq, truthy, lower, contains, mem}
use exec_relay.Base.Exec.{Exec, pure, ◌>>=◌, ◌>>◌, catch}
use exec_relay.TradeStore.Db.{SignalRow, Db}
use exec_relay.TradeStore.Siblings.{
  Sibling, sibling_order_rows, sibling_broker_order_ids, channel_flags, ids_except,
}
use exec_relay.Shim.Floats.{Floats}
use exec_relay.Shim.Terminal.{
  is_done, Sltp, Request, sltp, remove, Reply, Position, PendingOrder, Terminal, Action, ask, send,
}

-- The reason of the closing deal: DEAL_REASON_TP, DEAL_REASON_SL, any other one or None.
pub data Reason : Type 0 where
  take_profit stop_loss other : Reason

-- str(n)
unfoldable pub digits : ℕ → ℕ → Text
digits zero n = []
digits (suc fuel) n = elim (ltb n 10) [
  | true ↦ (48 + n) ∷ []
  | false ↦ digits fuel (n / 10) ++ (48 + n % 10) ∷ []
]

unfoldable pub decimal : ℕ → Text
unfolding digits
decimal n = digits (suc n) n

unfoldable pub accepted : Option Reply → Bool
unfolding is_done
accepted none = false
accepted (some res) = is_done res.retcode

-- "half" or "full"; (None, None) is `none`
pub data Kind : Type 0 where
  half full : Kind

unfoldable pub is_half : Option Kind → Bool
is_half none = false
is_half (some half) = true
is_half (some full) = false

-- `profit_is_up`, `none` for a command that says neither buy nor sell
unfoldable pub profit_is_up : Text → Option Bool
profit_is_up command =
    if contains (codes "buy") command
    then some true
    else if contains (codes "sell") command
    then some false
    else none

module _ {F : Type 0} where
  -- next((r for r in rows if …), None)
  unfoldable pub own_row : Text → List (Sibling F) → Option (Sibling F)
  own_row id [] = none
  own_row id (r ∷ rows) = if text_eq r.broker_order_id id then some r else own_row id rows

  -- decimal(own.get("command") or "").lower()
  unfoldable pub row_command : Sibling F → Text
  row_command r = elim r.command [ none ↦ [] | some c ↦ lower c ]

module _ {F : Type 0} ⦃fl : Floats F⦄ where
  open fl use {lt}

  unfoldable pub further : Bool → F → F → Bool
  further up sib_tp own_tp = if up then lt own_tp sib_tp else lt sib_tp own_tp

  -- A leg of another ticket whose tp is further than `own_tp`.
  unfoldable pub beats : Text → Bool → F → Sibling F → Bool
  unfolding further
  beats id up own_tp r = elim r.tp [
    | none ↦ false
    | some tp ↦ not (text_eq r.broker_order_id id) && further up tp own_tp
  ]

  unfoldable pub judge : Text → Bool → F → List (Sibling F) → Kind
  unfolding beats
  judge id up own_tp [] = full
  judge id up own_tp (r ∷ rows) = if beats id up own_tp r then half else judge id up own_tp rows

  unfoldable pub kind_by : Text → Option F → Option Bool → List (Sibling F) → Option Kind
  unfolding judge
  kind_by id none up rows = none
  kind_by id (some own_tp) none rows = none
  kind_by id (some own_tp) (some up) rows = some (judge id up own_tp rows)

  unfoldable pub kind_of : Text → Option (Sibling F) → List (Sibling F) → Option Kind
  unfolding kind_by profit_is_up row_command
  kind_of id none rows = none
  kind_of id (some own) rows = kind_by id own.tp (profit_is_up (row_command own)) rows

  -- _classify_tp_close(ticket, rows), its first component
  unfoldable pub classify_tp_close : Text → List (Sibling F) → Option Kind
  unfolding own_row kind_of
  classify_tp_close id rows = kind_of id (own_row id rows) rows

-- own.get("channel"), the second component of `_classify_tp_close`
unfoldable pub channel_of : {F : Type 0} → Option (Sibling F) → Option Text
channel_of none = none
channel_of (some own) = own.channel

module _ {F S : Type 0} (t : Terminal F S) where
  unfoldable pub cancel_loop :
      List Text → List PendingOrder → List Text → List ℕ → Action F S (List Text × List ℕ)
  unfolding decimal accepted
  cancel_loop wanted [] removed failures = pure (removed, failures)
  cancel_loop wanted (o ∷ os) removed failures =
      if not (mem (decimal o.ticket) wanted) || not (o.magic == t.magic)
      then cancel_loop wanted os removed failures
      else (do
        res ← send t (remove o.ticket)
        if accepted res
            then cancel_loop wanted os (removed ++ decimal o.ticket ∷ []) failures
            else cancel_loop wanted os removed (failures ++ o.ticket ∷ []))

  -- cancel_pending_orders(tickets)
  unfoldable pub cancel_pending_orders : List Text → Action F S (List Text × List ℕ)
  unfolding cancel_loop
  cancel_pending_orders [] = pure ([], [])
  cancel_pending_orders (id ∷ ids) = do os ← ask t.orders_get; cancel_loop (id ∷ ids) os [] []

  unfoldable pub to_breakeven : Position F → Sltp F
  to_breakeven p = record {
    symbol = p.symbol;
    position = p.ticket;
    sl = p.price_open;
    tp = p.tp;
    magic = t.magic;
  }

  unfoldable pub move_loop :
      List Text → List (Position F) → List Text → List ℕ → Action F S (List Text × List ℕ)
  unfolding decimal accepted to_breakeven
  move_loop wanted [] moved failures = pure (moved, failures)
  move_loop wanted (p ∷ ps) moved failures =
      if not (p.magic == t.magic) || not (mem (decimal p.ticket) wanted)
      then move_loop wanted ps moved failures
      else (do
        res ← send t (sltp (to_breakeven p))
        if accepted res
            then move_loop wanted ps (moved ++ decimal p.ticket ∷ []) failures
            else move_loop wanted ps moved (failures ++ p.ticket ∷ []))

  -- _move_siblings_to_breakeven(ticket, position, sibling_ids)
  unfoldable pub move_siblings_to_breakeven : List Text → Action F S (Unit {0})
  unfolding move_loop
  move_siblings_to_breakeven [] = pure tt
  move_siblings_to_breakeven (id ∷ ids) =
      catch (do ps ← ask t.positions_get; move_loop (id ∷ ids) ps [] []; pure tt) (λ e. pure tt)

module _ {F S : Type 0} ⦃fl : Floats F⦄ (t : Terminal F S) (like : Text → SignalRow F → Bool)
    (db : Db F) where
  -- _cancel_siblings_after_close(ticket, position, close_reason)
  unfoldable pub cancel_siblings_after_close : ℕ → Action F S (Unit {0})
  unfolding decimal cancel_pending_orders
  cancel_siblings_after_close ticket =
      catch
        (do cancel_pending_orders t (sibling_broker_order_ids like (decimal ticket) db); pure tt)
        (λ e. pure tt)

  -- The half-TP leg closed: the siblings move to breakeven where the channel has that on.
  unfoldable pub after_half : Bool → ℕ → List (Sibling F) → Action F S (Unit {0})
  unfolding decimal own_row channel_of move_siblings_to_breakeven
  after_half works ticket rows =
      if (channel_flags works (channel_of (own_row (decimal ticket) rows)) db).breakeven
      then move_siblings_to_breakeven t (ids_except (decimal ticket) rows)
      else pure tt

  unfoldable pub after_tp : Bool → ℕ → List (Sibling F) → Action F S (Unit {0})
  unfolding decimal classify_tp_close is_half cancel_siblings_after_close after_half
  after_tp works ticket [] = cancel_siblings_after_close ticket
  after_tp works ticket (r ∷ rows) =
      if is_half (classify_tp_close (decimal ticket) (r ∷ rows))
      then after_half works ticket (r ∷ rows)
      else cancel_siblings_after_close ticket

  -- _handle_close_oco(ticket, position, close_reason)
  unfoldable pub handle_close_oco : Bool → ℕ → Reason → Action F S (Unit {0})
  unfolding after_tp
  handle_close_oco works ticket stop_loss = cancel_siblings_after_close ticket
  handle_close_oco works ticket take_profit =
      after_tp works ticket (sibling_order_rows like (decimal ticket) db)
  handle_close_oco works ticket other = pure tt
