-- ===== src/Persist/Handlers/Accepted.antt =====
-- What `on_signal` of apps/persist/app.py puts into `accepted_signals`.
use exec_relay.Base.{ℕ, ◌≡◌, refl, Bool, true, false, Option, none, some, List, [], ◌∷◌, All}
use exec_relay.Base.Text.{Text, truthy}
use exec_relay.Base.Exec.{modify}
use exec_relay.Base.Exec.Keeps.{Keeps, Keeps-pure, Keeps-gets, Keeps-if, Keeps-bind, Keeps-catch}
use exec_relay.Wire.Signal.{Signal, get_or, IsComplete}
use exec_relay.Wire.Parse.{ParseError, Parsed, parse_signal}
use exec_relay.Wire.Parse.Total.{Yields, parse_signal-Yields}
use exec_relay.Persist.Tables.{AcceptedSignal, Store, Failure, Work, next_fault, statement, ack}
use exec_relay.Persist.Signals.{
  deadletter, insert_fingerprint, claim, claimed, insert_accepted, store_signal, persist_signal,
  accepted_row,
}
use exec_relay.Persist.Handlers.{Message, attempt, signal_parsed, on_signal}

-- The row is what its own raw payload says, and the signal in it is complete.
abbrev pub IsReading : AcceptedSignal → Type 0
IsReading row =
    (sig : Signal) × (parse_signal row.raw_payload ≡ Parsed.ok sig)
    × (row ≡ accepted_row row.license_id row.instance_id sig row.raw_payload)
    × IsComplete sig

module _ {V : Type 0} where
  abbrev Sound : {A : Type 0} → Work V A → Type 0
  Sound m = Keeps {E = Failure} (λ s. All IsReading s.accepted) m

  Sound-next_fault : (faults : List Bool) → Sound (next_fault faults)
  unfolding next_fault
  Sound-next_fault [] = record { at = λ s h. h }
  Sound-next_fault (false ∷ faults) = record { at = λ s h. h }
  Sound-next_fault (true ∷ faults) = record { at = λ s h. h }

  Sound-statement : Sound statement
  unfolding statement
  Sound-statement = record { at = λ s h. (Sound-next_fault s.faults).at s h }

  Sound-deadletter :
      (has_pool : Bool) (subject : Text) (raw : List ℕ) (reason error : Text)
      → Sound (deadletter has_pool subject raw reason error)
  unfolding deadletter modify
  Sound-deadletter has_pool subject raw reason error =
      Keeps-if has_pool _ _
        (λ _.
          Keeps-catch _ _
            (Keeps-bind _ _ Sound-statement
              (λ _. Keeps-bind _ _ Sound-statement (λ _. record { at = λ s h. h })))
            (λ e. Keeps-pure tt))
        (λ _. Keeps-pure tt)

  Sound-claim : (license : ℕ) (sha : Text) → Sound (claim license sha)
  unfolding claim insert_fingerprint modify
  Sound-claim license sha =
      Keeps-if (truthy sha) _ _
        (λ _. Keeps-bind _ _ Sound-statement (λ _.
          Keeps-bind _ _ (Keeps-gets (λ s. claimed license sha s.fingerprints)) (λ taken.
            Keeps-if taken _ _ (λ _. Keeps-pure false)
              (λ _. Keeps-bind _ _ (record { at = λ s h. h }) (λ _. Keeps-pure true)))))
        (λ _. Keeps-pure true)

  Sound-insert_accepted :
      (license : ℕ) (sig : Signal) (raw : List ℕ)
      → parse_signal raw ≡ Parsed.ok sig
      → IsComplete sig
      → Sound (insert_accepted license sig raw)
  unfolding insert_accepted modify accepted_row
  Sound-insert_accepted license sig raw e c = Keeps-bind _ _ Sound-statement (λ _.
      Keeps-bind _ _ (Keeps-gets _) (λ inst.
        Keeps-bind _ _ Sound-statement (λ _. record { at = λ s h. ((sig, e, refl, c), h) })))

  Sound-store_signal :
      (lic : Option ℕ) (sig : Signal) (raw : List ℕ)
      → parse_signal raw ≡ Parsed.ok sig
      → IsComplete sig
      → Sound (store_signal lic sig raw)
  unfolding store_signal
  Sound-store_signal none sig raw e c = Keeps-pure tt
  Sound-store_signal (some license) sig raw e c =
      Keeps-bind _ _ (Sound-claim license (get_or sig.body_sha256 [])) (λ fresh.
        Keeps-if fresh _ _ (λ _. Sound-insert_accepted license sig raw e c) (λ _. Keeps-pure tt))

  Sound-persist_signal :
      (sig : Signal) (raw : List ℕ)
      → parse_signal raw ≡ Parsed.ok sig
      → IsComplete sig
      → Sound (persist_signal sig raw)
  unfolding persist_signal
  Sound-persist_signal sig raw e c = Keeps-bind _ _ Sound-statement (λ _.
      Keeps-bind _ _ Sound-statement
        (λ _. Keeps-bind _ _ (Keeps-gets _) (λ lic. Sound-store_signal lic sig raw e c)))

  Sound-ack : Sound ack
  unfolding ack
  Sound-ack = record { at = λ s h. h }

module _ {V : Type 0} (str_error : ParseError → Text) where
  Sound-signal_parsed :
      (has_pool : Bool) (msg : Message) (parsed : Parsed Signal)
      → parse_signal msg.payload ≡ parsed
      → Yields IsComplete parsed
      → Sound {V = V} (signal_parsed str_error has_pool msg parsed)
  unfolding signal_parsed attempt
  Sound-signal_parsed has_pool msg (Parsed.err x) e y =
      Keeps-bind _ _ (Sound-deadletter _ _ _ _ _) (λ _. Sound-ack)
  Sound-signal_parsed has_pool msg (Parsed.ok sig) e y =
      Keeps-bind _ _
        (Keeps-if has_pool _ _
          (λ _. Keeps-catch _ _ (Sound-persist_signal sig msg.payload e y) (λ x. Keeps-pure tt))
          (λ _. Keeps-pure tt))
        (λ _. Sound-ack)

  -- After any message, every row of `accepted_signals` is what the strict parser reads from the row's own
  -- raw payload, with a trace id, a license, a command and a symbol that are not empty, when that held
  -- before.
  pub on_signal-IsReading :
      (has_pool : Bool) (msg : Message) (s : Store V)
      → All IsReading s.accepted
      → All IsReading (on_signal str_error has_pool msg s).1.accepted
  unfolding on_signal
  on_signal-IsReading has_pool msg =
      (Sound-signal_parsed has_pool msg (parse_signal msg.payload) refl
        (parse_signal-Yields msg.payload)).at
