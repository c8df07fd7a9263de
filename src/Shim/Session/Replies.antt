-- ===== src/Shim/Session/Replies.antt =====
-- What a session of scripts/ea_shim.py sends back and stores.
use exec_relay.Base.{
  ◌∙◌, ◌≡◌, refl, ap, Bool, true, false, Option, none, some, List, [], ◌∷◌, ◌++◌, map, All,
  All-weaken, if◌then◌else◌,
}
use exec_relay.Base.Text.{Text, text_eq, text_eq_refl}
use exec_relay.Base.Exec.{Result, ok, err, pure, modify, continue, ◌>>=◌}
use exec_relay.Base.Exec.Keeps.{Keeps, Keeps-pure, Keeps-gets, Keeps-bind}
use exec_relay.TradeStore.Db.{OrderRow, Db}
use exec_relay.TradeStore.Orders.{record_order, find_order, merged, find_order-record_order}
use exec_relay.TradeStore.Settings.{get_symbol_map}
use exec_relay.Shim.Floats.{Floats}
use exec_relay.Shim.Terminal.{World, Exc}
use exec_relay.Shim.Params.{Params}
use exec_relay.Shim.Execute.{execute}
use exec_relay.Shim.Outcome.{Execution, Fill, fill_of}
use exec_relay.Shim.Session.{
  Message, registered, ping, other, signal, Reply, fill, pong, Host, Session, on_world, look,
  send_reply, set_beating, order_of, store_order, report_fill, on_signal, on_message, each_message,
  run_session,
}

-- The trace id of a fill; `none` for a pong.
abbrev pub tag : Reply → Option Text
tag (fill trace_id f) = some trace_id
tag pong = none

-- The replies that a message calls for.
abbrev pub owed : {F : Type 0} → Message F → List (Option Text)
owed registered = []
owed ping = none ∷ []
owed other = []
owed (signal trace_id command symbol params) = some trace_id ∷ []

-- … and those of a list of messages, the latest first, before the earlier ones.
abbrev pub owed_onto : {F : Type 0} → List (Message F) → List (Option Text) → List (Option Text)
owed_onto [] tags = tags
owed_onto (m ∷ ms) tags = owed_onto ms (owed m ++ tags)

-- A fill that was sent back has its order in the store.
abbrev pub IsBooked : {F : Type 0} → Db F → Reply → Type 0
IsBooked db pong = Unit {0}
IsBooked {F} db (fill trace_id f) = (row : OrderRow F) × (find_order trace_id db.orders ≡ some row)

module _ {F S : Type 0} where
  abbrev pub tags : Session F S → List (Option Text)
  tags s = map tag s.outbox

  abbrev pub AllBooked : Session F S → Type 0
  AllBooked s = All (IsBooked s.db) s.outbox

module _ {F S : Type 0} ⦃fl : Floats F⦄ (h : Host F S) where
  -- On this message, `execute` raises in that session.
  abbrev pub Raises : Exc → Message F → Session F S → Type 0
  Raises e registered s = ⊥
  Raises e ping s = ⊥
  Raises e other s = ⊥
  Raises e (signal trace_id command symbol params) s =
      (execute h.terminal (get_symbol_map h.works s.db) command symbol params s.world).0 ≡ err e

  -- The messages were all replied to in their order, or those before a signal were, after which
  -- `execute` raised on it.
  abbrev pub IsAnswered :
      List (Message F) → Session F S → Result Exc (Unit {0}) → Session F S → Type 0
  IsAnswered ms s (ok a) after = tags after ≡ owed_onto ms (tags s)
  IsAnswered ms s (err e) after =
      (before : List (Message F)) × (m : Message F) × (rest : List (Message F)) × (ms
        ≡ before ++ m ∷ rest)
      × ((each_message h before s).0 ≡ ok tt)
      × Raises e m (each_message h before s).1
      × (tags after ≡ owed_onto before (tags s))

  -- One message: what it calls for is sent, or nothing when `execute` raises.
  abbrev Replied : Message F → Session F S → Result Exc (Unit {0}) → Session F S → Type 0
  Replied m s (ok a) t = tags t ≡ owed m ++ tags s
  Replied m s (err e) t = Raises e m s × (tags t ≡ tags s)

  Replied-execute :
      (trace_id command symbol : Text) (params : Params F) (s : Session F S)
      (r : Result Exc (Execution F)) (w : World F S)
      → (execute h.terminal (get_symbol_map h.works s.db) command symbol params s.world).0 ≡ r
      → (let run =
            continue r (report_fill h trace_id command symbol params) (record s { world = w }) in
          Replied (signal trace_id command symbol params) s run.0 run.1)
  unfolding report_fill send_reply store_order look ◌>>=◌
  Replied-execute trace_id command symbol params s (ok e) w q = refl
  Replied-execute trace_id command symbol params s (err e) w q = (q, refl)

  Replied-on_message :
      (m : Message F) (s : Session F S) → Replied m s (on_message h m s).0 (on_message h m s).1
  unfolding on_message on_signal on_world send_reply set_beating ◌>>=◌
  Replied-on_message registered s = refl
  Replied-on_message ping s = refl
  Replied-on_message other s = refl
  Replied-on_message (signal trace_id command symbol params) s =
      let (r, w) = execute h.terminal (get_symbol_map h.works s.db) command symbol params s.world in
      Replied-execute trace_id command symbol params s r w refl

  -- A message that is done with leaves the rest to the others.
  each_message-ok :
      (m : Message F) (ms : List (Message F)) (s t : Session F S)
      → on_message h m s ≡ (ok tt, t)
      → each_message h (m ∷ ms) s ≡ each_message h ms t
  unfolding each_message ◌>>=◌
  each_message-ok m ms s t e = rw e refl

  each_message-err :
      (m : Message F) (ms : List (Message F)) (s t : Session F S) (e : Exc)
      → on_message h m s ≡ (err e, t)
      → each_message h (m ∷ ms) s ≡ (err e, t)
  unfolding each_message ◌>>=◌
  each_message-err m ms s t e q = rw q refl

  IsAnswered-later :
      (m : Message F) (ms : List (Message F)) (s t : Session F S) (r : Result Exc (Unit {0}))
      (after : Session F S)
      → on_message h m s ≡ (ok tt, t)
      → tags t ≡ owed m ++ tags s
      → IsAnswered ms t r after
      → IsAnswered (m ∷ ms) s r after
  IsAnswered-later m ms s t (ok a) after q k i = i ∙ ap (owed_onto ms) k
  IsAnswered-later m ms s t (err e) after q k (before, last, rest, split, done, raised, i) = (
    m ∷ before,
    last,
    rest,
    ap (λ l. m ∷ l) split,
    rw (each_message-ok m before s t q) done,
    rw (each_message-ok m before s t q) raised,
    i ∙ ap (owed_onto before) k,
  )

  each_message-IsAnswered :
      (ms : List (Message F)) (s : Session F S)
      → IsAnswered ms s (each_message h ms s).0 (each_message h ms s).1
  each_message-IsAnswered [] s = unfold each_message pure in refl
  each_message-IsAnswered (m ∷ ms) s =
      went_on (on_message h m s).0 (on_message h m s).1 refl (Replied-on_message m s)
        (λ t. each_message-IsAnswered ms t)
    where
      went_on :
          (r : Result Exc (Unit {0})) (t : Session F S)
          → on_message h m s ≡ (r, t)
          → Replied m s r t
          → ((u : Session F S) → IsAnswered ms u (each_message h ms u).0 (each_message h ms u).1)
          → IsAnswered (m ∷ ms) s (each_message h (m ∷ ms) s).0 (each_message h (m ∷ ms) s).1
      went_on (err e) t q (raised, k) ih =
          rw (each_message-err m ms s t e q) (
            [],
            m,
            ms,
            refl,
            unfold each_message pure in refl,
            unfold each_message pure in raised,
            k,
          )
      went_on (ok a) t q k ih =
          rw (each_message-ok m ms s t q)
            (IsAnswered-later m ms s t (each_message h ms t).0 (each_message h ms t).1 q k (ih t))

  -- A session that ends without an error has replied to the messages in their order, with a fill under its
  -- own trace id for each signal and a pong for each ping, and has sent nothing else. One that ends with
  -- an error does so on a signal on which `execute` raised that error, in the session that the messages
  -- before it leave; it has replied to those in their order, and to none from that signal on.
  pub run_session-IsAnswered :
      (ms : List (Message F)) (s : Session F S)
      → IsAnswered ms s (run_session h ms s).0 (run_session h ms s).1
  unfolding run_session set_beating
  run_session-IsAnswered ms s = set_free (each_message h ms s).0 (each_message-IsAnswered ms s)
    where
      set_free :
          (r : Result Exc (Unit {0}))
          → IsAnswered ms s r (each_message h ms s).1
          → IsAnswered ms s r (record (each_message h ms s).1 { beating = false })
      set_free (ok a) i = i
      set_free (err e) i = i

still_found :
    {A : Type 0} (works q : Bool) (m row : A) (o : Option A)
    → o ≡ some row
    → (x : A) × ((if works then (if q then some m else o) else o) ≡ some x)
still_found false q m row o e = (row, e)
still_found true false m row o e = (row, e)
still_found true true m row o e = (m, refl)

IsBooked-record_order :
    {F : Type 0} (works : Bool) (new : OrderRow F) (db : Db F) (r : Reply)
    → IsBooked db r
    → IsBooked (record_order works new db) r
IsBooked-record_order works new db pong b = tt
IsBooked-record_order works new db (fill id f) (row, e) =
    rw (find_order-record_order works id new db) (
      still_found works (text_eq id new.trace_id) (merged new (find_order new.trace_id db.orders))
        row (find_order id db.orders) e)

-- While the trade store works, the order that was recorded is found.
IsBooked-new :
    {F : Type 0} (new : OrderRow F) (db : Db F) (f : Fill)
    → IsBooked (record_order true new db) (fill new.trace_id f)
IsBooked-new new db f =
    rw (find_order-record_order true new.trace_id new db)
      (rw (text_eq_refl new.trace_id) (merged new (find_order new.trace_id db.orders), refl))

module _ {F S : Type 0} ⦃fl : Floats F⦄ (h : Host F S) (works : h.works ≡ true) where
  Keeps-report_fill :
      (trace_id command symbol : Text) (params : Params F) (e : Execution F)
      → Keeps (AllBooked {F = F} {S = S}) (report_fill h trace_id command symbol params e)
  unfolding report_fill send_reply store_order look order_of ◌>>=◌
  Keeps-report_fill trace_id command symbol params e = record {
    at = λ s b.
        let ts = (h.now s.world.mt5).0 in
        let new = order_of h trace_id command symbol params e ts in
        (
          rw works (IsBooked-new new s.db (fill_of e)),
          All-weaken _ _ s.outbox (IsBooked-record_order h.works new s.db) b,
        );
  }

  Keeps-on_message : (m : Message F) → Keeps (AllBooked {F = F} {S = S}) (on_message h m)
  unfolding on_message on_signal on_world send_reply set_beating modify
  Keeps-on_message registered = record { at = λ s b. b }
  Keeps-on_message ping = record { at = λ s b. (tt, b) }
  Keeps-on_message other = Keeps-pure tt
  Keeps-on_message (signal trace_id command symbol params) =
      Keeps-bind _ _ (Keeps-gets (λ s. s.db)) (λ db.
        Keeps-bind _ _ (record { at = λ s b. b })
          (λ e. Keeps-report_fill trace_id command symbol params e))

  Keeps-each_message :
      (ms : List (Message F)) → Keeps (AllBooked {F = F} {S = S}) (each_message h ms)
  unfolding each_message
  Keeps-each_message [] = Keeps-pure tt
  Keeps-each_message (m ∷ ms) = Keeps-bind _ _ (Keeps-on_message m) (λ _. Keeps-each_message ms)

  -- While the trade store works, whatever a session does and however it ends, every fill that it has
  -- sent to the bridge has an order under its trace id in the store, if that held before.
  pub run_session-AllBooked :
      (ms : List (Message F)) (s : Session F S) → AllBooked s → AllBooked (run_session h ms s).1
  unfolding run_session set_beating
  run_session-AllBooked ms s b = (Keeps-each_message ms).at s b
