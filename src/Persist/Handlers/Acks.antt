-- ===== src/Persist/Handlers/Acks.antt =====
-- The handlers of apps/persist/app.py return, and acknowledge each message once.
use exec_relay.Base.{ℕ, suc, ◌≡◌, refl, ap, Bool, true, false, List}
use exec_relay.Base.Text.{Text}
use exec_relay.Base.Exec.{Result, ok, err, pure, ◌>>=◌, ◌>>◌, catch}
use exec_relay.Base.Exec.Keeps.{Keeps-pure, Keeps-catch}
use exec_relay.Wire.Signal.{Signal}
use exec_relay.Wire.Parse.{ParseError, Parsed, parse_signal}
use exec_relay.Persist.Tables.{Store, Failure, Work, ack}
use exec_relay.Persist.Signals.{deadletter}
use exec_relay.Persist.Fills.{Json, Loaded, invalid, not_object, object}
use exec_relay.Persist.Handlers.{
  Message, attempt, signal_parsed, on_signal, not_json, fill_loaded, on_fill, event_loaded,
  on_event,
}
use exec_relay.Persist.Handlers.Quiet.{
  Quiet, Quiet-deadletter, Quiet-persist_signal, Quiet-persist_fill, Quiet-store_event,
}

-- Returns, and acknowledges once.
abbrev pub IsSettled : {V : Type 0} → Work V (Unit {0}) → Store V → Type 0
IsSettled m s = ((m s).0 ≡ ok tt) × ((m s).1.acks ≡ suc s.acks)

module _ {V : Type 0} where
  caught : (m : Work V (Unit {0})) (s : Store V) → (catch m (λ e. pure tt) s).0 ≡ ok tt
  unfolding catch pure
  caught m s = at_result (m s).0 (m s).1
    where
      at_result :
          (r : Result Failure (Unit {0})) (s' : Store V)
          → (elim r as (λ _. Result Failure (Unit {0}) × Store V) [
            | ok a ↦ (ok a, s')
            | err e ↦ (ok tt, s')
          ]).0
            ≡ ok tt
      at_result (ok a) s' = refl
      at_result (err e) s' = refl

  then_ack :
      (m : Work V (Unit {0})) (s : Store V)
      → (m s).0 ≡ ok tt
      → ((n : ℕ) → Quiet n m)
      → IsSettled (m >> ack) s
  unfolding ◌>>=◌ ack
  then_ack m s e q = rw e (refl, ap suc ((q s.acks).at s refl))

  attempt-IsSettled :
      (has_pool : Bool) (m : Work V (Unit {0})) (s : Store V)
      → ((n : ℕ) → Quiet n m)
      → IsSettled (attempt has_pool m >> ack) s
  unfolding attempt pure
  attempt-IsSettled true m s q =
      then_ack _ s (caught m s) (λ n. Keeps-catch _ _ (q n) (λ e. Keeps-pure tt))
  attempt-IsSettled false m s q = then_ack (pure tt) s refl (λ n. Keeps-pure tt)

  deadletter-returns :
      (has_pool : Bool) (subject : Text) (raw : List ℕ) (reason error : Text) (s : Store V)
      → (deadletter has_pool subject raw reason error s).0 ≡ ok tt
  unfolding deadletter pure
  deadletter-returns true subject raw reason error s = caught _ s
  deadletter-returns false subject raw reason error s = refl

module _ {V : Type 0} (str_error : ParseError → Text) where
  signal_parsed-IsSettled :
      (has_pool : Bool) (msg : Message) (parsed : Parsed Signal) (s : Store V)
      → IsSettled (signal_parsed str_error has_pool msg parsed) s
  unfolding signal_parsed
  signal_parsed-IsSettled has_pool msg (Parsed.err e) s =
      then_ack _ s (deadletter-returns _ _ _ _ _ s) (λ n. Quiet-deadletter n _ _ _ _ _)
  signal_parsed-IsSettled has_pool msg (Parsed.ok sig) s =
      attempt-IsSettled has_pool _ s (λ n. Quiet-persist_signal n sig msg.payload)

  -- Whatever the message, the database and its faults, `on_signal` returns and acknowledges the message
  -- exactly once.
  pub on_signal-IsSettled :
      (has_pool : Bool) (msg : Message) (s : Store V)
      → IsSettled (on_signal str_error has_pool msg) s
  unfolding on_signal
  on_signal-IsSettled has_pool msg s =
      signal_parsed-IsSettled has_pool msg (parse_signal msg.payload) s

module _ {V : Type 0} ⦃js : Json V⦄ (repr : Loaded V → Text) where
  not_json-IsSettled :
      (error : Text) (has_pool : Bool) (msg : Message) (s : Store V)
      → IsSettled (not_json error has_pool msg) s
  unfolding not_json
  not_json-IsSettled error has_pool msg s =
      then_ack _ s (deadletter-returns _ _ _ _ _ s) (λ n. Quiet-deadletter n _ _ _ _ _)

  fill_loaded-IsSettled :
      (has_pool : Bool) (msg : Message) (loaded : Loaded V) (s : Store V)
      → IsSettled (fill_loaded repr has_pool msg loaded) s
  unfolding fill_loaded
  fill_loaded-IsSettled has_pool msg (object fill) s =
      attempt-IsSettled has_pool _ s (λ n. Quiet-persist_fill n _)
  fill_loaded-IsSettled has_pool msg invalid s = not_json-IsSettled _ has_pool msg s
  fill_loaded-IsSettled has_pool msg not_object s = not_json-IsSettled _ has_pool msg s

  event_loaded-IsSettled :
      (has_pool : Bool) (msg : Message) (loaded : Loaded V) (s : Store V)
      → IsSettled (event_loaded repr has_pool msg loaded) s
  unfolding event_loaded
  event_loaded-IsSettled has_pool msg (object evt) s =
      attempt-IsSettled has_pool _ s (λ n. Quiet-store_event n msg.subject evt)
  event_loaded-IsSettled has_pool msg invalid s = not_json-IsSettled _ has_pool msg s
  event_loaded-IsSettled has_pool msg not_object s = not_json-IsSettled _ has_pool msg s

  -- Whatever the message, the JSON reader, the database and its faults, `on_fill` and `on_event` return
  -- and acknowledge the message exactly once.
  pub on_fill-on_event-IsSettled :
      (has_pool : Bool) (msg : Message) (s : Store V)
      → IsSettled (on_fill repr has_pool msg) s × IsSettled (on_event repr has_pool msg) s
  unfolding on_fill on_event
  on_fill-on_event-IsSettled has_pool msg s = (
    fill_loaded-IsSettled has_pool msg (js.loads msg.payload) s,
    event_loaded-IsSettled has_pool msg (js.loads msg.payload) s,
  )
