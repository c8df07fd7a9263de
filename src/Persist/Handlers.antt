-- ===== src/Persist/Handlers.antt =====
-- The handlers of bus messages of apps/persist/app.py. Metrics, log lines and the trace id of the log
-- are left out.
pub mod Replayed
pub mod Quiet
pub mod Acks
pub mod Accepted
pub mod Duplicates
use exec_relay.Base.{ℕ, Bool, true, false, Option, none, some, List, [], ◌∷◌, ◌==◌, if◌then◌else◌}
use exec_relay.Base.Text.{Text, codes, text_eq}
use exec_relay.Base.Exec.{Exec, pure, ◌>>=◌, ◌>>◌, catch}
use exec_relay.TradeStore.Settings.{insert}
use exec_relay.Wire.Signal.{Signal}
use exec_relay.Wire.Parse.{ParseError, Parsed, ok, err, parse_signal}
use exec_relay.Persist.Tables.{Store, Failure, Work, ack}
use exec_relay.Persist.Signals.{deadletter, persist_signal}
use exec_relay.Persist.Fills.{Json, Loaded, invalid, not_object, object, persist_fill}
use exec_relay.Persist.Events.{
  persist_request_log, persist_ea_connected, persist_ea_disconnected, persist_rejection,
}

pub record Message : Type 0 where
  pub subject : Text
  pub payload : List ℕ

-- subject.split(".")[1], or "" where there is no such part
unfoldable pub until_dot : Text → Text
until_dot [] = []
until_dot (c ∷ s) = let rest = until_dot s in if c == b'.' then [] else c ∷ rest

unfoldable pub second_part : Text → Text
unfolding until_dot
second_part [] = []
second_part (c ∷ s) = let rest = second_part s in if c == b'.' then until_dot s else rest

module _ {V : Type 0} where
  -- if pool: try: …  except Exception: log
  unfoldable pub attempt : Bool → Work V (Unit {0}) → Work V (Unit {0})
  attempt has_pool m = if has_pool then catch m (λ e. pure tt) else pure tt

  -- The text of an exception is a parameter.
  unfoldable pub signal_parsed :
      (ParseError → Text) → Bool → Message → Parsed Signal → Work V (Unit {0})
  unfolding attempt persist_signal deadletter ack
  signal_parsed str_error has_pool msg (err e) = do
    deadletter has_pool msg.subject msg.payload (codes "parse_error") (str_error e)
    ack
  signal_parsed str_error has_pool msg (ok sig) = do
    attempt has_pool (persist_signal sig msg.payload)
    ack

  -- on_signal(pool, msg); `parse_signal` raises nothing but ProtoParseError
  unfoldable pub on_signal : (ParseError → Text) → Bool → Message → Work V (Unit {0})
  unfolding signal_parsed
  on_signal str_error has_pool msg = signal_parsed str_error has_pool msg (parse_signal msg.payload)

module _ {V : Type 0} ⦃js : Json V⦄ where
  unfoldable pub not_json : Text → Bool → Message → Work V (Unit {0})
  unfolding deadletter ack
  not_json error has_pool msg = do
    deadletter has_pool msg.subject msg.payload (codes "invalid_json") error
    ack

  unfoldable pub fill_loaded : (Loaded V → Text) → Bool → Message → Loaded V → Work V (Unit {0})
  unfolding attempt persist_fill not_json second_part ack
  fill_loaded repr has_pool msg (object fill) = do
    attempt has_pool
        (persist_fill (insert (codes "instance_id") (js.of_text (second_part msg.subject)) fill))
    ack
  fill_loaded repr has_pool msg bad = not_json (repr bad) has_pool msg

  -- on_fill(pool, msg)
  unfoldable pub on_fill : (Loaded V → Text) → Bool → Message → Work V (Unit {0})
  unfolding fill_loaded
  on_fill repr has_pool msg = fill_loaded repr has_pool msg (js.loads msg.payload)

  -- The branches on the subject; any other subject stores nothing.
  unfoldable pub store_event : Text → List (Text × V) → Work V (Unit {0})
  unfolding persist_ea_connected persist_ea_disconnected persist_rejection persist_request_log
  store_event subject evt =
      if text_eq subject (codes "events.ea.connected")
      then persist_ea_connected evt
      else if text_eq subject (codes "events.ea.disconnected")
      then persist_ea_disconnected evt
      else if text_eq subject (codes "events.ingress.rejection")
      then persist_rejection evt
      else if text_eq subject (codes "events.ingress.request")
      then persist_request_log evt
      else pure tt

  unfoldable pub event_loaded : (Loaded V → Text) → Bool → Message → Loaded V → Work V (Unit {0})
  unfolding attempt store_event not_json ack
  event_loaded repr has_pool msg (object evt) = do
    attempt has_pool (store_event msg.subject evt)
    ack
  event_loaded repr has_pool msg bad = not_json (repr bad) has_pool msg

  -- on_event(pool, msg)
  unfoldable pub on_event : (Loaded V → Text) → Bool → Message → Work V (Unit {0})
  unfolding event_loaded
  on_event repr has_pool msg = event_loaded repr has_pool msg (js.loads msg.payload)
