-- ===== src/Shim/Tests.antt =====
-- Runs of the shim's order code against a small broker whose prices and lots are natural numbers.
use exec_relay.Base.{
  ℕ, suc, ◌+◌, ◌-◌, ◌*◌, ◌/◌, ◌≡◌, ◌↔◌, refl, Bool, true, false, Option, none, some, List, [], ◌∷◌,
  arith, ltb, leb, if◌then◌else◌, Some, keep,
}
use exec_relay.Base.Text.{Text, codes, text_eq, truthy, lower, contains, mem, starts_with}
use exec_relay.Base.Exec.{err}
use exec_relay.Base.Exec.Returns.{Holds}
use exec_relay.TradeStore.Db.{SignalRow}
use exec_relay.TradeStore.Siblings.{
  Sibling, placed_as, first_trace, ids_of, find_signal, leg_of, push_leg, legs, legs_of_signal,
  sibling_order_rows, sibling_broker_order_ids,
}
use exec_relay.TradeStore.Tests.{two_legs}
use exec_relay.Shim.Floats.{Floats}
use exec_relay.Shim.Terminal.{
  done, invalid_fill, is_invalid_fill, OrderType, Deal, ioc, deal, Request, Reply, SymbolInfo,
  Terminal, World, attribute_error, long,
}
use exec_relay.Shim.Params.{Params, num, command_of, unknown}
use exec_relay.Shim.Sent.{AllSent}
use exec_relay.Shim.Sizing.{sized_by}
use exec_relay.Shim.Sizing.Bounds.{IsWithin, sized_by-IsWithin}
use exec_relay.Shim.Orders.{send_market, market_reply}
use exec_relay.Shim.Orders.Requests.{IsTagged}
use exec_relay.Shim.Orders.Market.{
  IsMarketRun, send_market-IsMarketRun, second_reply, market_reply-raises_iff,
}
use exec_relay.Shim.Execute.{execute}
use exec_relay.Shim.Execute.Requests.{execute-IsTagged}
use exec_relay.Shim.Execute.Fills.{IsBacked, places, execute-IsBacked}
use exec_relay.Shim.Close.{
  decimal, digits, handle_close_oco, take_profit, stop_loss, classify_tp_close, own_row,
  row_command, profit_is_up, half, full, kind_of, kind_by, judge, beats, further,
}
use exec_relay.Shim.Close.Legs.{
  IsForLeg, IsMoveOf, handle_close_oco-IsForLeg, handle_close_oco-half,
}
use exec_relay.Shim.Close.Judged.{Points, IsFurtherLeg, classify_tp_close_iff}

instance unfoldable pub nat_floats : Floats ℕ
nat_floats = record {
  zero = 0;
  cent = 1;
  lt = ltb;
  le = leb;
  sub = λ a b. (a - b) + (b - a);
  mul = λ a b. a * b;
  div = λ a b. a / b;
  abs = λ a. a;
  floor = λ a. a;
  round8 = λ a. a;
  parse = λ t. none;
}

abbrev info : SymbolInfo ℕ
info = record { tick_value = 1; tick_size = 1; volume_step = 1; volume_min = 1; volume_max = 50 }

-- A broker with one position of the shim that answers as `answer` says; its state counts the requests.
abbrev pub broker : (Request ℕ → ℕ → Option Reply) → Terminal ℕ ℕ
broker answer = record {
  order_send = λ req n. (answer req n, suc n);
  symbol_info = λ symbol n. (some info, n);
  symbol_select = λ symbol n. (tt, n);
  symbol_info_tick = λ symbol n. (some (record { ask = 101; bid = 100 }), n);
  positions_get = λ n. (
    record {
      ticket = 12;
      symbol = codes "EURUSD";
      side = long;
      volume = 1;
      price_open = 90;
      sl = 80;
      tp = 110;
      magic = 5;
      comment = codes "tg";
    }
        ∷ [],
    n,
  );
  positions_of = λ symbol n. ([], n);
  orders_get = λ n. (record { ticket = 12; magic = 5 } ∷ [], n);
  magic = 5;
  pending_fallback = true;
  risk_usd = 100;
}

abbrev pub good : Request ℕ → ℕ → Option Reply
good req n = some (record { retcode = done; order = 7 })

-- Refuses the fill policy once, and then does not answer.
abbrev silent : Request ℕ → ℕ → Option Reply
silent req n = if ltb n 1 then some (record { retcode = invalid_fill; order = 0 }) else none

abbrev pub start : World ℕ ℕ
start = record { mt5 = 0; sent = [] }

abbrev pub params : Params ℕ
params = record { values = (codes "sl", num 95) ∷ []; comment = some (codes "tg-VGTA") }

is_buy : places (command_of (lower (codes "BUY"))) ≡ true
unfolding places command_of lower text_eq
is_buy = refl

execute-IsBacked_example :
    Holds IsBacked (execute (broker good) [] (codes "BUY") (codes "EURUSD") params start).0
execute-IsBacked_example =
    execute-IsBacked (broker good) [] (codes "BUY") (codes "EURUSD") params start is_buy

execute-IsTagged_example :
    AllSent (IsTagged 5) (execute (broker good) [] (codes "BUY") (codes "EURUSD") params start).1
execute-IsTagged_example =
    execute-IsTagged (broker good) [] (codes "BUY") (codes "EURUSD") params start tt

is_unknown : command_of (lower (codes "HOLD")) ≡ unknown
unfolding command_of lower text_eq
is_unknown = refl

send_market-IsMarketRun_example :
    IsMarketRun
      (broker good)
      OrderType.buy
      (codes "EURUSD")
      2
      []
      (send_market (broker good) OrderType.buy (codes "EURUSD") 2 (codes "c") 0 0 start).1.sent
send_market-IsMarketRun_example =
    send_market-IsMarketRun (broker good) OrderType.buy (codes "EURUSD") 2 (codes "c") 0 0 start

abbrev some_deal : Deal ℕ
some_deal = record {
  symbol = codes "EURUSD";
  volume = 1;
  order_type = OrderType.buy;
  position = none;
  price = 101;
  magic = 5;
  comment = codes "c";
  filling = ioc;
  sl = none;
  tp = none;
}

abbrev refusal : Reply
refusal = record { retcode = invalid_fill; order = 0 }

abbrev once_sent : World ℕ ℕ
once_sent = record { mt5 = 1; sent = deal some_deal ∷ [] }

market_reply-raises_iff_example :
    ((market_reply (broker silent) some_deal (some refusal) once_sent).0 ≡ err attribute_error) ↔ (
      (r : Reply) × (some refusal ≡ some r)
      × (is_invalid_fill r.retcode ≡ true)
      × (second_reply (broker silent) some_deal once_sent ≡ none))
market_reply-raises_iff_example =
    market_reply-raises_iff (broker silent) some_deal (some refusal) once_sent

irreflexive : (a : ℕ) → ltb a a ≡ false
irreflexive a = ground arith

sized_by-IsWithin_example : IsWithin info (sized_by (some info) 100 95 1 1000)
unfolding nat_floats
sized_by-IsWithin_example = sized_by-IsWithin info 100 95 1 1000 irreflexive refl (refl, refl)

abbrev pub any_row : Text → SignalRow ℕ → Bool
any_row trace row = true

handle_close_oco-IsForLeg_example :
    AllSent
      (IsForLeg 5 (sibling_broker_order_ids any_row (decimal 11) two_legs))
      (handle_close_oco (broker good) any_row two_legs true 11 stop_loss start).1
handle_close_oco-IsForLeg_example =
    handle_close_oco-IsForLeg (broker good) any_row two_legs true 11 stop_loss start tt

half_leg :
    classify_tp_close (decimal 11) (sibling_order_rows any_row (decimal 11) two_legs) ≡ some half
unfolding classify_tp_close own_row kind_of kind_by judge beats further profit_is_up row_command
    decimal digits sibling_order_rows keep placed_as first_trace ids_of find_signal leg_of push_leg
    legs legs_of_signal text_eq truthy mem lower contains starts_with nat_floats
half_leg = refl

handle_close_oco-half_example :
    AllSent
      (IsMoveOf 5 (sibling_broker_order_ids any_row (decimal 11) two_legs))
      (handle_close_oco (broker good) any_row two_legs true 11 take_profit start).1
handle_close_oco-half_example =
    handle_close_oco-half (broker good) any_row two_legs true 11 start half_leg tt

abbrev leg : Text → ℕ → Sibling ℕ
leg id tp = record {
  broker_order_id = id;
  trace_id = codes "a";
  command = some (codes "BUYLIMIT");
  tp = some tp;
  channel = none;
}

abbrev near : Sibling ℕ
near = leg (codes "11") 5

abbrev both : List (Sibling ℕ)
both = near ∷ leg (codes "12") 9 ∷ []

near_first : own_row (codes "11") both ≡ some near
unfolding own_row text_eq
near_first = refl

is_long : Points long (codes "BUYLIMIT")
unfolding lower contains starts_with
is_long = refl

classify_tp_close_iff_example :
    ((classify_tp_close (codes "11") both ≡ some half)
      ↔ Some (IsFurtherLeg (codes "11") long 5) both)
    × ((classify_tp_close (codes "11") both ≡ some full)
        ↔ ¬ Some (IsFurtherLeg (codes "11") long 5) both)
classify_tp_close_iff_example =
    classify_tp_close_iff (codes "11") both near 5 (codes "BUYLIMIT") long near_first refl refl
      is_long
