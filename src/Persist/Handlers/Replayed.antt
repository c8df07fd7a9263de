-- ===== src/Persist/Handlers/Replayed.antt =====
-- What the portal of apps/portal-api/app.py can do with the rows that apps/persist/app.py stores.
use exec_relay.Base.{ℕ, ◌≡◌, Bool, some, List, [], ◌∷◌, All, All-weaken}
use exec_relay.Base.Text.{Text}
use exec_relay.Wire.Signal.{Signal, normal}
use exec_relay.Wire.Parse.{ParseError, Parsed, parse_signal}
use exec_relay.Wire.Portal.{replay_payload}
use exec_relay.Wire.Replay.{replayed, parse_signal-replay_payload}
use exec_relay.Persist.Tables.{AcceptedSignal, Store}
use exec_relay.Persist.Signals.{accepted_row}
use exec_relay.Persist.Handlers.{Message, on_signal}
use exec_relay.Persist.Handlers.Accepted.{IsReading, on_signal-IsReading}

-- The row is that of the signal which the strict parser reads in its payload, the portal encodes a
-- replay of it, and the strict parser reads the replay as that signal with -r behind its trace id
-- and the new time, where `normal` makes a field with an empty text or a time of 0 absent and fills
-- a missing key or value of a parameter with the empty text.
abbrev pub IsReplayable : ℕ → AcceptedSignal → Type 0
IsReplayable now row =
    (sig : Signal) × (payload : List ℕ) × (parse_signal row.raw_payload ≡ Parsed.ok sig)
    × (row ≡ accepted_row row.license_id row.instance_id sig row.raw_payload)
    × (replay_payload row.raw_payload now ≡ some payload)
    × (parse_signal payload ≡ Parsed.ok (normal (replayed sig now)))

IsReading-IsReplayable : (now : ℕ) (row : AcceptedSignal) → IsReading row → IsReplayable now row
IsReading-IsReplayable now row (sig, read, same, complete) =
    let (payload, encoded, parsed) = parse_signal-replay_payload row.raw_payload sig now read in
    (sig, payload, read, same, encoded, parsed)

module _ {V : Type 0} (str_error : ParseError → Text) (has_pool : Bool) where
  -- The store after a sequence of messages.
  unfoldable pub after_messages : List Message → Store V → Store V
  unfolding on_signal
  after_messages [] s = s
  after_messages (msg ∷ messages) s = after_messages messages (on_signal str_error has_pool msg s).1

  after_messages-IsReading :
      (messages : List Message) (s : Store V)
      → All IsReading s.accepted
      → All IsReading (after_messages messages s).accepted
  unfolding after_messages
  after_messages-IsReading [] s h = h
  after_messages-IsReading (msg ∷ messages) s h =
      after_messages-IsReading messages _ (on_signal-IsReading str_error has_pool msg s h)

  -- From a store without accepted signals, after any sequence of messages and whatever statements
  -- fail, every row of `accepted_signals` is that of the signal which the strict parser reads in its
  -- payload, and can be replayed at any time: the portal encodes the replay, and the strict parser
  -- reads it as that signal with -r behind its trace id and the new time, where a field with an empty
  -- text or a time of 0 is read as absent, and a key or value that a parameter lacks as the empty
  -- text. This is about parsing only, not about what is then stored.
  pub after_messages-IsReplayable :
      (messages : List Message) (s : Store V) (now : ℕ)
      → s.accepted ≡ []
      → All (IsReplayable now) (after_messages messages s).accepted
  after_messages-IsReplayable messages s now e =
      All-weaken _ _ (after_messages messages s).accepted (IsReading-IsReplayable now)
        (after_messages-IsReading messages s (rw e tt))
