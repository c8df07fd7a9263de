-- ===== src/Shim/Orders.antt =====
-- The functions of scripts/ea_shim.py that send orders: market, pending, close and modify.
pub mod Requests
pub mod Market
use exec_relay.Base.{
  ℕ, ◌≡◌, refl, Bool, true, false, not, ◌&&◌, ◌||◌, Option, none, some, List, [], ◌∷◌, ◌++◌, ◌==◌,
  if◌then◌else◌, take,
}
use exec_relay.Base.Text.{Text, codes, truthy, starts_with}
use exec_relay.Base.Exec.{Exec, pure, raise, ◌>>=◌}
use exec_relay.Shim.Floats.{Floats}
use exec_relay.Shim.Terminal.{
  Retcode, is_done, is_invalid_fill, OrderType, buy, sell, Side, long, short, same_side, Filling,
  ioc, fok, Deal, Pending, Sltp, Request, deal, pending, sltp, remove, Reply, Tick, Position,
  Terminal, attribute_error, Action, ask, send,
}

-- The error messages, by what they say.
pub data Error : Type 0 where
  no_market_data : Text → Error
  no_reply : Error
  retcode : Retcode → Error
  not_closed not_modified : ℕ → Error
  min_lot entry_required newsltp_empty unknown_command : Error
  fallback_failed : Error → Error

unfoldable pub is_buy : OrderType → Bool
is_buy buy = true
is_buy _ = false

-- (comment or "execrelay-shim")[:26]
unfoldable pub order_comment : Text → Text
order_comment c = take 26 (if truthy c then c else codes "execrelay-shim")

-- if v > 0: req[key] = v
unfoldable pub if_set : {F : Type 0} ⦃fl : Floats F⦄ → F → Option F
if_set ⦃fl⦄ v = if fl.lt fl.zero v then some v else none

module _ {F S : Type 0} ⦃fl : Floats F⦄ (t : Terminal F S) where
  open fl use {zero, lt}

  -- The last test of `send_market`: (res, err).
  unfoldable pub judged : Option Reply → Action F S (Option Reply × Option Error)
  judged none = raise attribute_error
  judged (some res) =
      pure (if is_done res.retcode then (some res, none) else (none, some (retcode res.retcode)))

  -- One more try with FOK where the broker does not take IOC.
  unfoldable pub market_reply : Deal F → Option Reply → Action F S (Option Reply × Option Error)
  unfolding judged
  market_reply req none = pure (none, some no_reply)
  market_reply req (some res) =
      if is_invalid_fill res.retcode
      then (do res' ← send t (deal (record req { filling = fok })); judged res')
      else judged (some res)

  unfoldable pub market_deal : OrderType → Text → F → Text → F → F → Tick F → Deal F
  unfolding is_buy order_comment if_set
  market_deal action_type symbol volume comment sl tp tick = record {
    symbol = symbol;
    volume = volume;
    order_type = action_type;
    position = none;
    price = if is_buy action_type then tick.ask else tick.bid;
    magic = t.magic;
    comment = order_comment comment;
    filling = ioc;
    sl = if_set sl;
    tp = if_set tp;
  }

  unfoldable pub market_at :
      Option (Tick F)
      → OrderType
      → Text
      → F
      → Text
      → F
      → F
      → Action F S (Option Reply × Option Error)
  unfolding market_reply market_deal
  market_at none action_type symbol volume comment sl tp = pure (none, some (no_market_data symbol))
  market_at (some tick) action_type symbol volume comment sl tp = do
    let req = market_deal action_type symbol volume comment sl tp tick
    res ← send t (deal req)
    market_reply req res

  -- send_market(action_type, symbol, volume, comment, sl, tp)
  unfoldable pub send_market :
      OrderType → Text → F → Text → F → F → Action F S (Option Reply × Option Error)
  unfolding market_at
  send_market action_type symbol volume comment sl tp = do
    tick ← ask (t.symbol_info_tick symbol)
    market_at tick action_type symbol volume comment sl tp

  -- (result, err, retcode); the retcode of a missing reply is -1, here `none`
  unfoldable pub pending_reply : Option Reply → Option Reply × Option Error × Option Retcode
  pending_reply none = (none, some no_reply, none)
  pending_reply (some res) =
      if is_done res.retcode
      then (some res, none, some res.retcode)
      else (none, some (retcode res.retcode), some res.retcode)

  unfoldable pub send_pending :
      OrderType
      → Text
      → F
      → F
      → F
      → F
      → Text
      → Action F S (Option Reply × Option Error × Option Retcode)
  unfolding pending_reply order_comment if_set
  send_pending pending_type symbol volume entry sl tp comment = do
    res ← send t (
        pending (record {
          symbol = symbol;
          volume = volume;
          order_type = pending_type;
          price = entry;
          magic = t.magic;
          comment = order_comment comment;
          sl = if_set sl;
          tp = if_set tp;
        }))
    pure (pending_reply res)

  unfoldable pub opposite : Side → OrderType
  opposite long = sell
  opposite short = buy

  unfoldable pub close_deal : Text → Position F → Tick F → Deal F
  unfolding opposite is_buy
  close_deal symbol p tick = record {
    symbol = symbol;
    volume = p.volume;
    order_type = opposite p.side;
    position = some p.ticket;
    price = if is_buy (opposite p.side) then tick.ask else tick.bid;
    magic = t.magic;
    comment = codes "execrelay-close";
    filling = ioc;
    sl = none;
    tp = none;
  }

  -- The retry with FOK; a missing reply is left as it is.
  unfoldable pub close_retry : Deal F → Option Reply → Action F S (Option Reply)
  close_retry req none = pure none
  close_retry req (some res) =
      if is_invalid_fill res.retcode
      then send t (deal (record req { filling = fok }))
      else pure (some res)

  unfoldable pub closed_as : Position F → Option Reply → Option Reply × Option Error
  closed_as p none = (none, some (not_closed p.ticket))
  closed_as p (some r) =
      if is_done r.retcode then (some r, none) else (none, some (not_closed p.ticket))

  unfoldable pub close_one :
      Text → Position F → Option (Tick F) → Action F S (Option Reply × Option Error)
  unfolding close_retry close_deal closed_as
  close_one symbol p none = pure (none, some (no_market_data symbol))
  close_one symbol p (some tick) = do
    let req = close_deal symbol p tick
    res ← send t (deal req)
    res ← close_retry req res
    pure (closed_as p res)

  -- The positions that `close_positions` and `modify_positions_sltp` pass over.
  unfoldable pub skipped : Side → Position F → Bool
  skipped side p = not (p.magic == t.magic) || not (same_side p.side side)

  unfoldable pub close_next :
      Option Reply × Option Error
      → List ℕ
      → (List ℕ → Action F S (List ℕ × Option Error))
      → Action F S (List ℕ × Option Error)
  close_next (some res, none) closed go_on = go_on (closed ++ res.order ∷ [])
  close_next (some res, some e) closed go_on = pure (closed, some e)
  close_next (none, err) closed go_on = pure (closed, err)

  -- The first failure ends the loop with what was closed so far.
  unfoldable pub close_loop :
      Text → Side → List (Position F) → List ℕ → Action F S (List ℕ × Option Error)
  unfolding skipped close_one close_next
  close_loop symbol side [] closed = pure (closed, none)
  close_loop symbol side (p ∷ ps) closed =
      if skipped side p then close_loop symbol side ps closed else do
        tick ← ask (t.symbol_info_tick symbol)
        answer ← close_one symbol p tick
        close_next answer closed (close_loop symbol side ps)

  -- close_positions(symbol, pos_type)
  unfoldable pub close_positions : Text → Side → Action F S (List ℕ × Option Error)
  unfolding close_loop
  close_positions symbol side = do ps ← ask (t.positions_of symbol); close_loop symbol side ps []

  -- A level that is not given is carried over from the position.
  unfoldable pub amended : Text → F → F → Position F → Sltp F
  amended symbol tp sl p = record {
    symbol = symbol;
    position = p.ticket;
    sl = if lt zero sl then sl else p.sl;
    tp = if lt zero tp then tp else p.tp;
    magic = t.magic;
  }

  unfoldable pub out_of_scope : Text → Position F → Bool
  out_of_scope scope p = truthy scope && not (starts_with p.comment scope)

  unfoldable pub modify_next :
      Position F
      → Option Reply
      → List ℕ
      → (List ℕ → Action F S (List ℕ × Option Error))
      → Action F S (List ℕ × Option Error)
  modify_next p none changed go_on = pure (changed, some (not_modified p.ticket))
  modify_next p (some res) changed go_on =
      if is_done res.retcode
      then go_on (changed ++ p.ticket ∷ [])
      else pure (changed, some (not_modified p.ticket))

  unfoldable pub modify_loop :
      Text → Side → F → F → Text → List (Position F) → List ℕ → Action F S (List ℕ × Option Error)
  unfolding skipped out_of_scope amended modify_next
  modify_loop symbol side tp sl scope [] changed = pure (changed, none)
  modify_loop symbol side tp sl scope (p ∷ ps) changed =
      if skipped side p || out_of_scope scope p
      then modify_loop symbol side tp sl scope ps changed
      else (do
        res ← send t (sltp (amended symbol tp sl p))
        modify_next p res changed (modify_loop symbol side tp sl scope ps))

  -- modify_positions_sltp(symbol, pos_type, tp, sl, comment_scope)
  unfoldable pub modify_positions_sltp :
      Text → Side → F → F → Text → Action F S (List ℕ × Option Error)
  unfolding modify_loop
  modify_positions_sltp symbol side tp sl scope = do
    ps ← ask (t.positions_of symbol)
    modify_loop symbol side tp sl scope ps []
