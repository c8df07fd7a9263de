-- ===== src/Persist/Tests.antt =====
-- Runs of the persist handlers on an empty store with one license.
use exec_relay.Base.{◌≡◌, refl, true, false, none, some, [], ◌∷◌, All}
use exec_relay.Base.Text.{Text, codes, text_eq, truthy}
use exec_relay.Wire.Signal.{Signal, get_or}
use exec_relay.Wire.Parse.{ParseError}
use exec_relay.Wire.Tests.{payload, signal}
use exec_relay.Persist.Tables.{Store}
use exec_relay.Persist.Signals.{persist_signal, active_license, claimed}
use exec_relay.Persist.Fills.{Json, object}
use exec_relay.Persist.Handlers.{Message, on_signal}
use exec_relay.Persist.Handlers.Acks.{IsSettled, on_signal-IsSettled}
use exec_relay.Persist.Handlers.Accepted.{IsReading, on_signal-IsReading}
use exec_relay.Persist.Handlers.Replayed.{IsReplayable, after_messages, after_messages-IsReplayable}
use exec_relay.Persist.Handlers.Duplicates.{persist_signal-claimed}

-- Values are texts, and every payload is the object with the status "filled".
instance text_json : Json Text
text_json = record {
  loads = λ data_. object ((codes "status", codes "filled") ∷ []);
  of_text = λ t. t;
  truth = truthy;
  str = λ t. t;
  int = λ t. none;
  text = λ t. some t;
}

abbrev store : Store Text
store = record {
  licenses = record { id = 3; license_key = codes "l"; active = true } ∷ [];
  instances = record { id = 4; license_id = 3; instance_key = codes "i" } ∷ [];
  fingerprints = (3, codes "abc") ∷ [];
  accepted = [];
  dead_letters = [];
  fills = [];
  request_log = [];
  sessions = [];
  rejections = [];
  faults = false ∷ true ∷ [];
  acks = 0;
}

abbrev hashed : Signal
hashed = record signal { body_sha256 = some (codes "abc") }

abbrev message : Message
message = record { subject = codes "signals.l.i"; payload = payload }

abbrev text_error : ParseError → Text
text_error e = codes "error"

on_signal-IsSettled_example : IsSettled (on_signal text_error true message) store
on_signal-IsSettled_example = on_signal-IsSettled text_error true message store

on_signal-IsReading_example : All IsReading (on_signal text_error true message store).1.accepted
on_signal-IsReading_example = on_signal-IsReading text_error true message store tt

license_found : active_license (get_or hashed.license_id []) store.licenses ≡ some 3
unfolding active_license text_eq
license_found = refl

hash_there : truthy (get_or hashed.body_sha256 []) ≡ true
unfolding truthy
hash_there = refl

hash_claimed : claimed 3 (get_or hashed.body_sha256 []) store.fingerprints ≡ true
unfolding claimed text_eq
hash_claimed = refl

persist_signal-claimed_example : (persist_signal hashed payload store).1.accepted ≡ []
persist_signal-claimed_example =
    persist_signal-claimed 3 hashed payload store license_found hash_there hash_claimed

after_messages-IsReplayable_example :
    All (IsReplayable 7) (after_messages text_error true (message ∷ message ∷ []) store).accepted
after_messages-IsReplayable_example =
    after_messages-IsReplayable text_error true (message ∷ message ∷ []) store 7 refl
