-- ===== src/Persist/Signals.antt =====
-- `deadletter` and `persist_signal` of apps/persist/app.py.
use exec_relay.Base.{
  ℕ, Bool, true, false, ◌&&◌, ◌||◌, Option, none, some, List, [], ◌∷◌, ◌==◌, if◌then◌else◌, take,
}
use exec_relay.Base.Text.{Text, text_eq, truthy}
use exec_relay.Base.Exec.{pure, gets, modify, ◌>>=◌, ◌>>◌, catch}
use exec_relay.Wire.Signal.{Signal, get_or}
use exec_relay.Persist.Tables.{License, Instance, AcceptedSignal, Work, statement}

-- SELECT id FROM licenses WHERE license_key = $1 AND active = TRUE
unfoldable pub active_license : Text → List License → Option ℕ
active_license key [] = none
active_license key (l ∷ rows) =
    if text_eq l.license_key key && l.active then some l.id else active_license key rows

-- SELECT id FROM instances WHERE license_id = $1 AND instance_key = $2
unfoldable pub instance_of : ℕ → Text → List Instance → Option ℕ
instance_of license key [] = none
instance_of license key (i ∷ rows) =
    if i.license_id == license && text_eq i.instance_key key
    then some i.id
    else instance_of license key rows

unfoldable pub claimed : ℕ → Text → List (ℕ × Text) → Bool
claimed license sha [] = false
claimed license sha ((l, h) ∷ rows) = (l == license && text_eq h sha) || claimed license sha rows

unfoldable pub accepted_row : ℕ → Option ℕ → Signal → List ℕ → AcceptedSignal
accepted_row license instance_id sig raw = record {
  received_unix_nano = get_or sig.received_unix_nano 0;
  license_id = license;
  instance_id = instance_id;
  trace_id = get_or sig.trace_id [];
  ingress_region = get_or sig.ingress_region [];
  command = get_or sig.command [];
  symbol = get_or sig.symbol [];
  raw_command = sig.raw_command;
  params = sig.params;
  raw_payload = raw;
}

module _ {V : Type 0} where
  -- The part of `deadletter` that stores the row; the counter and the log line are left out.
  unfoldable pub deadletter : Bool → Text → List ℕ → Text → Text → Work V (Unit {0})
  unfolding statement
  deadletter has_pool subject raw reason error =
      if has_pool
      then catch
          (do
            statement
            statement
            modify (λ s. record s {
              dead_letters =
                  record {
                    subject = subject;
                    reason = reason;
                    error_detail = take 2000 error;
                    payload = raw;
                  }
                  ∷ s.dead_letters;
            }))
          (λ e. pure tt)
      else pure tt

  -- INSERT … ON CONFLICT (license_id, body_sha256) DO NOTHING RETURNING TRUE
  unfoldable pub insert_fingerprint : ℕ → Text → Work V Bool
  unfolding claimed
  insert_fingerprint license sha = do
    statement
    taken ← gets (λ s. claimed license sha s.fingerprints)
    if taken
        then pure false
        else do modify (λ s. record s { fingerprints = (license, sha) ∷ s.fingerprints }); pure true

  -- A signal without a hash is never a duplicate.
  unfoldable pub claim : ℕ → Text → Work V Bool
  unfolding insert_fingerprint
  claim license sha = if truthy sha then insert_fingerprint license sha else pure true

  unfoldable pub insert_accepted : ℕ → Signal → List ℕ → Work V (Unit {0})
  unfolding instance_of accepted_row
  insert_accepted license sig raw = do
    statement
    inst ← gets (λ s. instance_of license (get_or sig.instance_id []) s.instances)
    statement
    modify (λ s. record s { accepted = accepted_row license inst sig raw ∷ s.accepted })

  unfoldable pub store_signal : Option ℕ → Signal → List ℕ → Work V (Unit {0})
  unfolding claim insert_accepted
  store_signal none sig raw = pure tt
  store_signal (some license) sig raw = do
    fresh ← claim license (get_or sig.body_sha256 [])
    if fresh then insert_accepted license sig raw else pure tt

  -- persist_signal(pool, sig, raw_data)
  unfoldable pub persist_signal : Signal → List ℕ → Work V (Unit {0})
  unfolding active_license store_signal statement
  persist_signal sig raw = do
    statement
    statement
    lic ← gets (λ s. active_license (get_or sig.license_id []) s.licenses)
    store_signal lic sig raw
