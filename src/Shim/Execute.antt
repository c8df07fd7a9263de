-- ===== src/Shim/Execute.antt =====
-- `execute` of scripts/ea_shim.py.
pub mod Requests
pub mod Fills
pub mod Refusals
use exec_relay.Base.{
  ℕ, ◌≡◌, refl, Bool, true, false, not, ◌&&◌, ◌||◌, Option, none, some, List, [], ◌∷◌, ◌++◌,
  if◌then◌else◌,
}
use exec_relay.Base.Text.{Text, codes, text_eq, truthy, lower, upper, strip}
use exec_relay.Base.Exec.{Exec, pure, ◌>>=◌, ◌>>◌}
use exec_relay.TradeStore.Settings.{lookup}
use exec_relay.Shim.Floats.{Floats}
use exec_relay.Shim.Terminal.{
  Retcode, is_invalid_price, OrderType, Side, long, short, Reply, Tick, Terminal, Action, ask,
}
use exec_relay.Shim.Params.{
  Params, first_or, fnum, Command, buylimit, selllimit, buystop, sellstop, closelong, closeshort,
  closelongopenshort, closeshortopenlong, newsltplong, newsltpshort, unknown, command_of,
  pending_types, opens_at_market, buys,
}
use exec_relay.Shim.Sizing.{sized_volume}
use exec_relay.Shim.Orders.{
  Error, min_lot, entry_required, newsltp_empty, unknown_command, fallback_failed, send_market,
  send_pending, close_positions, modify_positions_sltp,
}
use exec_relay.Shim.Outcome.{
  Execution, Status, entry_keys, filled, is_some, mapped, placed, rejected, tickets,
}

module _ {F S : Type 0} ⦃fl : Floats F⦄ (t : Terminal F S) where
  open fl use {zero, cent, lt, le}

  -- The first variant that the broker knows, or the symbol itself.
  unfoldable pub first_known : Text → List Text → Action F S Text
  first_known symbol [] = pure symbol
  first_known symbol (v ∷ variants) = do
    info ← ask (t.symbol_info v)
    if is_some info then pure v else first_known symbol variants

  unfoldable pub resolve_symbol : List (Text × Text) → Text → Action F S Text
  unfolding mapped first_known is_some
  resolve_symbol symbol_map symbol = do
    let name = mapped symbol_map symbol
    info ← ask (t.symbol_info name)
    if is_some info
        then pure name
        else first_known name ((name ++ codes "_") ∷ (name ++ codes ".") ∷ (name ++ codes "m") ∷ [])

  -- (t.ask if buys else t.bid) if t else 0.0
  unfoldable pub market_ref : Command → Option (Tick F) → F
  unfolding buys
  market_ref cmd none = zero
  market_ref cmd (some tick) = if buys cmd then tick.ask else tick.bid

  unfoldable pub reference_price : Command → Text → Params F → Action F S F
  unfolding market_ref pending_types is_some
  reference_price cmd symbol params =
      if is_some (pending_types cmd)
      then pure (fnum params entry_keys zero)
      else do tick ← ask (t.symbol_info_tick symbol); pure (market_ref cmd tick)

  unfoldable pub market_result : F → Option Reply × Option Error → Execution F
  unfolding is_some tickets
  market_result volume (res, err) = record {
    status = if is_some res then filled else rejected;
    orders = tickets res;
    error = err;
    volume = volume;
  }

  unfoldable pub fallback_result : F → Option Reply × Option Error → Execution F
  fallback_result volume (some res, err) = record {
    status = filled;
    orders = res.order ∷ [];
    error = none;
    volume = volume;
  }
  fallback_result volume (none, none) = record {
    status = filled;
    orders = [];
    error = none;
    volume = volume;
  }
  fallback_result volume (none, some e) = record {
    status = filled;
    orders = [];
    error = some (fallback_failed e);
    volume = volume;
  }

  unfoldable pub price_invalid : Option Retcode → Bool
  price_invalid none = false
  price_invalid (some r) = is_invalid_price r

  -- What follows `send_pending`: the order rests, or it goes to the market, or it failed.
  unfoldable pub after_pending :
      OrderType
      → Text
      → F
      → F
      → F
      → Text
      → Option Reply × Option Error × Option Retcode
      → Action F S (Execution F)
  unfolding price_invalid fallback_result
  after_pending market_type symbol volume sl tp comment (some res, err, code) =
      pure (record { status = placed; orders = res.order ∷ []; error = none; volume = volume })
  after_pending market_type symbol volume sl tp comment (none, err, code) =
      if t.pending_fallback && price_invalid code
      then (do
        answer ← send_market t market_type symbol volume (comment ++ codes "_M") sl tp
        pure (fallback_result volume answer))
      else pure (record { status = filled; orders = []; error = err; volume = volume })

  unfoldable pub place_pending :
      OrderType → OrderType → Text → F → F → F → F → Text → Action F S (Execution F)
  unfolding after_pending
  place_pending pending_type market_type symbol volume entry sl tp comment =
      if le entry zero
      then pure
          (record { status = rejected; orders = []; error = some entry_required; volume = volume })
      else (do
        answer ← send_pending t pending_type symbol volume entry sl tp comment
        after_pending market_type symbol volume sl tp comment answer)

  unfoldable pub close_result : F → List ℕ × Option Error → Execution F
  close_result volume (closed, err) = record {
    status = filled;
    orders = closed;
    error = err;
    volume = volume;
  }

  -- The opening half of a reversal, once the closing half has returned.
  unfoldable pub reverse_after :
      OrderType → Text → F → F → F → Text → List ℕ × Option Error → Action F S (Execution F)
  unfolding tickets
  reverse_after order_type symbol volume sl tp comment (closed, some e) =
      pure (record { status = filled; orders = closed; error = some e; volume = volume })
  reverse_after order_type symbol volume sl tp comment (closed, none) = do
    (res, err) ← send_market t order_type symbol volume comment sl tp
    pure (record { status = filled; orders = closed ++ tickets res; error = err; volume = volume })

  unfoldable pub modify_result : F → List ℕ × Option Error → Execution F
  modify_result volume (changed, some e) = record {
    status = rejected;
    orders = changed;
    error = some e;
    volume = volume;
  }
  modify_result volume (changed, none) = record {
    status = filled;
    orders = changed;
    error = none;
    volume = volume;
  }

  unfoldable pub amend : Side → Text → F → F → F → Text → Action F S (Execution F)
  unfolding modify_result
  amend side symbol volume sl tp scope =
      if le tp zero && le sl zero
      then pure
          (record { status = rejected; orders = []; error = some newsltp_empty; volume = volume })
      else (do
        answer ← modify_positions_sltp t symbol side tp sl scope
        pure (modify_result volume answer))

  -- params.get("comment", "execrelay-shim")
  unfoldable pub comment_of : Params F → Text
  unfolding first_or
  comment_of params = first_or params.comment (codes "execrelay-shim")

  unfoldable pub at_market : OrderType → Text → Params F → F → F → F → Action F S (Execution F)
  unfolding market_result
  at_market order_type symbol params volume sl tp = do
    answer ← send_market t order_type symbol volume (comment_of params) sl tp
    pure (market_result volume answer)

  unfoldable pub resting :
      OrderType → OrderType → Text → Params F → F → F → F → Action F S (Execution F)
  unfolding place_pending
  resting pending_type market_type symbol params volume sl tp =
      place_pending pending_type market_type symbol volume (fnum params entry_keys zero) sl tp
        (comment_of params)

  unfoldable pub closing : Side → Text → F → Action F S (Execution F)
  unfolding close_result
  closing side symbol volume = do
    answer ← close_positions t symbol side
    pure (close_result volume answer)

  unfoldable pub reversing :
      Side → OrderType → Text → Params F → F → F → F → Action F S (Execution F)
  unfolding reverse_after
  reversing side order_type symbol params volume sl tp = do
    answer ← close_positions t symbol side
    reverse_after order_type symbol volume sl tp (comment_of params) answer

  unfoldable pub rejected_with : Error → F → Execution F
  rejected_with e volume = record {
    status = rejected;
    orders = [];
    error = some e;
    volume = volume;
  }

  -- The branches on `cmd`, with the final volume.
  unfoldable pub dispatch : Command → Text → Params F → F → F → F → Action F S (Execution F)
  unfolding at_market resting closing reversing amend rejected_with
  dispatch Command.buy symbol params volume sl tp =
      at_market OrderType.buy symbol params volume sl tp
  dispatch Command.sell symbol params volume sl tp =
      at_market OrderType.sell symbol params volume sl tp
  dispatch buylimit symbol params volume sl tp =
      resting OrderType.buy_limit OrderType.buy symbol params volume sl tp
  dispatch selllimit symbol params volume sl tp =
      resting OrderType.sell_limit OrderType.sell symbol params volume sl tp
  dispatch buystop symbol params volume sl tp =
      resting OrderType.buy_stop OrderType.buy symbol params volume sl tp
  dispatch sellstop symbol params volume sl tp =
      resting OrderType.sell_stop OrderType.sell symbol params volume sl tp
  dispatch closelong symbol params volume sl tp = closing long symbol volume
  dispatch closeshort symbol params volume sl tp = closing short symbol volume
  dispatch closelongopenshort symbol params volume sl tp =
      reversing long OrderType.sell symbol params volume sl tp
  dispatch closeshortopenlong symbol params volume sl tp =
      reversing short OrderType.buy symbol params volume sl tp
  dispatch newsltplong symbol params volume sl tp =
      amend long symbol volume sl tp (first_or params.comment [])
  dispatch newsltpshort symbol params volume sl tp =
      amend short symbol volume sl tp (first_or params.comment [])
  dispatch unknown symbol params volume sl tp = pure (rejected_with unknown_command volume)

  -- cmd in _opens or cmd in _PENDING_TYPES
  unfoldable pub opens : Command → Bool
  unfolding opens_at_market pending_types is_some
  opens cmd = opens_at_market cmd || is_some (pending_types cmd)

  unfoldable pub sized_dispatch : Command → Text → Params F → F → F → F → Action F S (Execution F)
  unfolding reference_price dispatch rejected_with
  sized_dispatch cmd symbol params volume sl tp = do
    ref ← reference_price cmd symbol params
    sized ← sized_volume t symbol ref sl volume (fnum params (codes "risk" ∷ []) t.risk_usd)
    if le sized zero
        then pure (rejected_with min_lot sized)
        else dispatch cmd symbol params sized sl tp

  -- execute(trace_id, command, symbol, params), with what `get_symbol_map` returns
  unfoldable pub execute : List (Text × Text) → Text → Text → Params F → Action F S (Execution F)
  unfolding resolve_symbol sized_dispatch opens
  execute symbol_map command symbol params = do
    symbol ← resolve_symbol symbol_map symbol
    ask (t.symbol_select symbol)
    let volume = fnum params (codes "volume" ∷ codes "vol_lots" ∷ []) cent
    let sl = fnum params (codes "sl" ∷ []) zero
    let tp = fnum params (codes "tp" ∷ []) zero
    let cmd = command_of (lower command)
    if opens cmd
        then sized_dispatch cmd symbol params volume sl tp
        else dispatch cmd symbol params volume sl tp
