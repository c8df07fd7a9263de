-- ===== src/TradeStore/Orders.antt =====
-- `record_order`, `record_closed_trade` and `record_equity` of scripts/_tradestore.py: upserts.
use exec_relay.Base.{
  ◌≡◌, refl, ◌≢◌, Bool, true, false, Option, none, some, List, [], ◌∷◌, arith, ◌==◌, if◌then◌else◌,
  Bool-cases, inl, inr,
}
use exec_relay.Base.Text.{Text, text_eq, text_eq_iff, text_eq-ne}
use exec_relay.TradeStore.Db.{OrderRow, ClosedTrade, EquitySnapshot, Db, guarded}

-- INSERT … ON CONFLICT DO UPDATE: `update` combines the row that is there with the new one.
unfoldable pub upsert : {A : Type 0} → (A → A → Bool) → (A → A → A) → A → List A → List A
upsert same update new [] = new ∷ []
upsert same update new (old ∷ rows) =
    if same new old then update new old ∷ rows else old ∷ upsert same update new rows

-- COALESCE(excluded.c, orders.c)
abbrev pub coalesce : {A : Type 0} → Option A → Option A → Option A
coalesce none old = old
coalesce (some a) old = some a

module _ {F : Type 0} where
  unfoldable pub same_order : OrderRow F → OrderRow F → Bool
  same_order new old = text_eq new.trace_id old.trace_id

  unfoldable pub merge_order : OrderRow F → OrderRow F → OrderRow F
  merge_order new old = record old {
    ts = new.ts;
    source = coalesce new.source old.source;
    command = coalesce new.command old.command;
    symbol = coalesce new.symbol old.symbol;
    requested_risk = coalesce new.requested_risk old.requested_risk;
    volume = coalesce new.volume old.volume;
    sl = coalesce new.sl old.sl;
    tp = coalesce new.tp old.tp;
    entry = coalesce new.entry old.entry;
    status = coalesce new.status old.status;
    broker_order_id = coalesce new.broker_order_id old.broker_order_id;
    comment = coalesce new.comment old.comment;
    error = coalesce new.error old.error;
  }

  -- record_order(…), called with the fields of `new` at the time `new.ts`
  unfoldable pub record_order : Bool → OrderRow F → Db F → Db F
  unfolding same_order merge_order upsert
  record_order works new =
      guarded works λ db. record db { orders = upsert same_order merge_order new db.orders }

  unfoldable pub record_closed_trade : Bool → ClosedTrade F → Db F → Db F
  unfolding upsert
  record_closed_trade works new = guarded works λ db. record db {
    closed_trades = upsert (λ a b. a.position_id == b.position_id) (λ a b. a) new db.closed_trades;
  }

  unfoldable pub record_equity : Bool → EquitySnapshot F → Db F → Db F
  unfolding upsert
  record_equity works new = guarded works λ db. record db {
    equity_snapshots = upsert (λ a b. text_eq a.ts b.ts) (λ a b. a) new db.equity_snapshots;
  }

  -- The row of a trace id.
  unfoldable pub find_order : Text → List (OrderRow F) → Option (OrderRow F)
  find_order id [] = none
  find_order id (o ∷ rows) = if text_eq id o.trace_id then some o else find_order id rows

  abbrev pub merged : OrderRow F → Option (OrderRow F) → OrderRow F
  merged new none = new
  merged new (some old) = merge_order new old

  find_order-upsert :
      (id : Text) (new : OrderRow F) (rows : List (OrderRow F))
      → find_order id (upsert same_order merge_order new rows) ≡ (
          if text_eq id new.trace_id
          then some (merged new (find_order new.trace_id rows))
          else find_order id rows)
  unfolding find_order upsert same_order merge_order
  find_order-upsert id new [] = refl
  find_order-upsert id new (o ∷ rows) = ground (
    arith,
    text_eq_iff id new.trace_id,
    text_eq_iff id o.trace_id,
    text_eq_iff new.trace_id o.trace_id,
    find_order-upsert id new rows,
  )

  -- After `record_order` the row of its trace id holds each field that was given, and the earlier
  -- value of each that was not, and the row of every other trace id is as before. If the store fails,
  -- nothing changes.
  pub find_order-record_order :
      (works : Bool) (id : Text) (new : OrderRow F) (db : Db F)
      → find_order id (record_order works new db).orders ≡ (
          if works
          then (if text_eq id new.trace_id
              then some (merged new (find_order new.trace_id db.orders))
              else find_order id db.orders)
          else find_order id db.orders)
  unfolding record_order
  find_order-record_order true id new db = find_order-upsert id new db.orders
  find_order-record_order false id new db = refl

  abbrev pub IsFresh : Text → List (OrderRow F) → Type 0
  IsFresh id [] = Unit {0}
  IsFresh id (o ∷ rows) = (id ≢ o.trace_id) × IsFresh id rows

  -- trace_id TEXT UNIQUE
  abbrev pub IsUnique : List (OrderRow F) → Type 0
  IsUnique [] = Unit {0}
  IsUnique (o ∷ rows) = IsFresh o.trace_id rows × IsUnique rows

  IsFresh-upsert :
      (id : Text) (new : OrderRow F) (rows : List (OrderRow F))
      → id ≢ new.trace_id
      → IsFresh id rows
      → IsFresh id (upsert same_order merge_order new rows)
  unfolding upsert merge_order
  IsFresh-upsert id new [] h k = (h, tt)
  IsFresh-upsert id new (o ∷ rows) h k = elim (Bool-cases (same_order new o)) [
    | inl e ↦ rw e k
    | inr e ↦ rw e (k.0, IsFresh-upsert id new rows h k.1)
  ]

  upsert-IsUnique :
      (new : OrderRow F) (rows : List (OrderRow F))
      → IsUnique rows
      → IsUnique (upsert same_order merge_order new rows)
  unfolding upsert merge_order same_order
  upsert-IsUnique new [] h = (tt, tt)
  upsert-IsUnique new (o ∷ rows) h = elim (Bool-cases (text_eq new.trace_id o.trace_id)) [
    | inl e ↦ rw e h
    | inr e ↦ rw e (
      IsFresh-upsert o.trace_id new rows (text_eq-ne new.trace_id o.trace_id e) h.0,
      upsert-IsUnique new rows h.1,
    )
  ]

  -- No call of `record_order` makes a second row for a trace id.
  pub record_order-IsUnique :
      (works : Bool) (new : OrderRow F) (db : Db F)
      → IsUnique db.orders
      → IsUnique (record_order works new db).orders
  unfolding record_order
  record_order-IsUnique true new db h = upsert-IsUnique new db.orders h
  record_order-IsUnique false new db h = h
