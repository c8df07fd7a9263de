-- ===== src/TradeStore/Signals.antt =====
-- `record_signal` and `append_signal_trace` of scripts/_tradestore.py.
use exec_relay.Base.{
  ℕ, ◌≡◌, refl, Bool, true, false, ◌&&◌, Option, none, some, List, [], ◌∷◌, ◌++◌, arith, ◌==◌,
  if◌then◌else◌,
}
use exec_relay.Base.Text.{Text, mem}
use exec_relay.TradeStore.Db.{SignalRow, Db, guarded}
use exec_relay.TradeStore.Orders.{upsert}

-- json.loads(row["trace_ids"] or "[]"), and [] where that is no list
unfoldable pub read_ids : Option (List Text) → List Text
read_ids none = []
read_ids (some ids) = ids

-- if trace_id not in ids: ids.append(trace_id)
unfoldable pub add_id : Text → List Text → List Text
add_id id ids = if mem id ids then ids else ids ++ id ∷ []

abbrev pub added : Text → Option (List Text) → Option (List Text)
added id none = none
added id (some ids) = some (add_id id ids)

abbrev pub or_empty : Option (List Text) → Option (List Text)
or_empty none = some []
or_empty (some ids) = some ids

module _ {F : Type 0} where
  unfoldable pub has_key : ℕ → ℕ → SignalRow F → Bool
  has_key chat message r = r.chat_id == chat && r.message_id == message

  unfoldable pub merge_signal : SignalRow F → SignalRow F → SignalRow F
  merge_signal new old = record new {
    chat_id = old.chat_id;
    message_id = old.message_id;
    trace_ids = old.trace_ids;
  }

  -- record_signal(…), called with the fields of `new`, whose `trace_ids` is '[]' in the statement
  unfoldable pub record_signal : Bool → SignalRow F → Db F → Db F
  unfolding has_key merge_signal upsert
  record_signal works new = guarded works λ db. record db {
    signals =
        upsert (λ a b. has_key a.chat_id a.message_id b) merge_signal
          (record new { trace_ids = some [] }) db.signals;
  }

  unfoldable pub append_at : ℕ → ℕ → Text → List (SignalRow F) → List (SignalRow F)
  unfolding has_key read_ids add_id
  append_at chat message id [] = []
  append_at chat message id (r ∷ rows) =
      if has_key chat message r
      then record r { trace_ids = some (add_id id (read_ids r.trace_ids)) } ∷ rows
      else r ∷ append_at chat message id rows

  -- append_signal_trace(chat_id, message_id, trace_id); without a row it rolls back
  unfoldable pub append_signal_trace : Bool → ℕ → ℕ → Text → Db F → Db F
  unfolding append_at
  append_signal_trace works chat message id =
      guarded works λ db. record db { signals = append_at chat message id db.signals }

  -- The trace ids on the row of a message.
  unfoldable pub traces_of : ℕ → ℕ → List (SignalRow F) → Option (List Text)
  unfolding has_key read_ids
  traces_of chat message [] = none
  traces_of chat message (r ∷ rows) =
      if has_key chat message r then some (read_ids r.trace_ids) else traces_of chat message rows

  traces_of-append_at :
      (c m c' m' : ℕ) (id : Text) (rows : List (SignalRow F))
      → traces_of c' m' (append_at c m id rows)
        ≡ (if c == c' && m == m' then added id (traces_of c' m' rows) else traces_of c' m' rows)
  unfolding traces_of append_at
  traces_of-append_at c m c' m' id [] = ground arith
  traces_of-append_at c m c' m' id (r ∷ rows) =
      ground (arith, traces_of-append_at c m c' m' id rows)

  -- Appending a trace id adds it to the ids of its own message, once, behind those that are there,
  -- and changes no other message; a message with no row stays without one.
  pub traces_of-append_signal_trace :
      (c m c' m' : ℕ) (id : Text) (db : Db F)
      → traces_of c' m' (append_signal_trace true c m id db).signals ≡ (
          if c == c' && m == m'
          then added id (traces_of c' m' db.signals)
          else traces_of c' m' db.signals)
  unfolding append_signal_trace
  traces_of-append_signal_trace c m c' m' id db = traces_of-append_at c m c' m' id db.signals

  traces_of-upsert :
      (new : SignalRow F) (c m : ℕ) (rows : List (SignalRow F))
      → traces_of c m (
          upsert
            (λ a b. has_key a.chat_id a.message_id b)
            merge_signal
            (record new { trace_ids = some [] })
            rows)
        ≡ (if new.chat_id == c && new.message_id == m
            then or_empty (traces_of c m rows)
            else traces_of c m rows)
  unfolding traces_of upsert merge_signal
  traces_of-upsert new c m [] = ground arith
  traces_of-upsert new c m (r ∷ rows) = ground (arith, traces_of-upsert new c m rows)

  -- Recording a message again never clobbers the trace ids that it has; a new message starts with
  -- none, and other messages keep theirs.
  pub traces_of-record_signal :
      (works : Bool) (new : SignalRow F) (c m : ℕ) (db : Db F)
      → traces_of c m (record_signal works new db).signals ≡ (
          if works && (new.chat_id == c && new.message_id == m)
          then or_empty (traces_of c m db.signals)
          else traces_of c m db.signals)
  unfolding record_signal
  traces_of-record_signal true new c m db = traces_of-upsert new c m db.signals
  traces_of-record_signal false new c m db = refl
