-- ===== src/TradeStore/Tests.antt =====
-- Runs of the trade store on a signal with two legs.
use exec_relay.Base.{ℕ, ◌≡◌, ◌≢◌, refl, true, none, some, [], ◌∷◌, inl, In, Some, keep}
use exec_relay.Base.Text.{Text, codes, text_eq, truthy, mem}
use exec_relay.TradeStore.Db.{SignalRow, OrderRow, Db}
use exec_relay.TradeStore.Siblings.{
  placed_as, first_trace, ids_of, find_signal, leg_of, push_leg, legs, legs_of_signal,
  sibling_order_rows, ids_except, sibling_broker_order_ids,
}
use exec_relay.TradeStore.Siblings.Sound.{IsLeg, sibling_broker_order_ids_sound}

abbrev order : Text → Text → ℕ → OrderRow ℕ
order trace broker tp = record {
  ts = codes "now";
  trace_id = trace;
  source = none;
  command = some (codes "buylimit");
  symbol = none;
  requested_risk = none;
  volume = none;
  sl = none;
  tp = some tp;
  entry = none;
  status = none;
  broker_order_id = some broker;
  comment = none;
  error = none;
}

abbrev message : SignalRow ℕ
message = record {
  ts = codes "now";
  chat_id = 1;
  message_id = 2;
  channel = none;
  outcome = codes "ok";
  symbol = none;
  side = none;
  entry = none;
  sl = none;
  tp = none;
  n_commands = 2;
  trace_ids = some (codes "a" ∷ codes "b" ∷ []);
  raw = none;
}

abbrev pub two_legs : Db ℕ
two_legs = record {
  signals = message ∷ [];
  orders = order (codes "a") (codes "11") 5 ∷ order (codes "b") (codes "12") 9 ∷ [];
  closed_trades = [];
  equity_snapshots = [];
  channels = [];
  meta = [];
}

listed : In (codes "12") (sibling_broker_order_ids (λ trace row. true) (codes "11") two_legs)
unfolding sibling_broker_order_ids sibling_order_rows keep placed_as first_trace ids_of find_signal
    leg_of push_leg legs legs_of_signal ids_except text_eq truthy mem
listed = inl refl

sibling_broker_order_ids_sound_example :
    (codes "12" ≢ codes "11")
    × Some
        (λ o.
          (placed_as (codes "11") o ≡ true)
          × Some
              (λ q.
                (mem o.trace_id (ids_of q) ≡ true)
                × Some (IsLeg (ids_of q) (codes "12")) two_legs.orders)
              two_legs.signals)
        two_legs.orders
sibling_broker_order_ids_sound_example =
    sibling_broker_order_ids_sound (λ trace row. true) (codes "11") (codes "12") two_legs listed
