-- ===== src/Persist/Events.antt =====
-- The handlers of single events of apps/persist/app.py: request log, EA sessions and rejections.
use exec_relay.Base.{
  ℕ, true, false, not, ◌&&◌, Option, none, some, List, [], ◌∷◌, ◌==◌, if◌then◌else◌, keep, take,
}
use exec_relay.Base.Text.{Text, codes, text_eq, truthy, mem}
use exec_relay.Base.Exec.{pure, raise, gets, modify, ◌>>=◌, ◌>>◌}
use exec_relay.TradeStore.Settings.{lookup}
use exec_relay.Persist.Tables.{Instance, RequestLog, Session, bad_number, Work, statement}
use exec_relay.Persist.Fills.{Json, text_of, text_or_none, active_instance}

abbrev pub detail_keys : List Text
detail_keys =
    codes "request_id"
    ∷ codes "trace_id"
    ∷ codes "license_key"
    ∷ codes "method"
    ∷ codes "path"
    ∷ codes "client_ip"
    ∷ codes "status"
    ∷ codes "outcome"
    ∷ codes "reason_code"
    ∷ codes "latency_ms"
    ∷ codes "body_sha256"
    ∷ codes "user_agent"
    ∷ codes "received_at"
    ∷ codes "region"
    ∷ codes "service"
    ∷ []

-- text or None
unfoldable pub or_none : Text → Option Text
or_none t = if truthy t then some t else none

-- SELECT id FROM instances WHERE instance_key = $1 LIMIT 1
unfoldable pub any_instance : Text → List Instance → Option ℕ
any_instance key [] = none
any_instance key (i ∷ rows) =
    if text_eq i.instance_key key then some i.id else any_instance key rows

-- The UPDATE: the open session of the instance that connected last.
unfoldable pub close_latest : ℕ → List Session → List Session
close_latest id [] = []
close_latest id (s ∷ rows) =
    let rest = close_latest id rows in
    if s.instance_id == id && s.is_open then record s { is_open = false } ∷ rows else s ∷ rest

module _ {V : Type 0} ⦃js : Json V⦄ where
  -- str(evt.get(key, "") or "")
  unfoldable pub str_of : List (Text × V) → Text → Text
  str_of evt key = elim (lookup key evt) [
    | none ↦ []
    | some v ↦ if js.truth v then js.str v else []
  ]

  unfoldable pub number : Option ℕ → Work V ℕ
  number none = raise bad_number
  number (some n) = pure n

  unfoldable pub number_or_zero : Option V → Work V ℕ
  unfolding number
  number_or_zero none = pure 0
  number_or_zero (some v) = if js.truth v then number (js.int v) else pure 0

  -- int(evt.get(key) or 0)
  unfoldable pub int_of : List (Text × V) → Text → Work V ℕ
  unfolding number_or_zero
  int_of evt key = number_or_zero (lookup key evt)

  unfoldable pub request_row : List (Text × V) → Option Text → ℕ → ℕ → RequestLog V
  unfolding str_of or_none
  request_row evt received_at status latency = record {
    received_at = received_at;
    request_id = str_of evt (codes "request_id");
    trace_id = str_of evt (codes "trace_id");
    service = take 32 (str_of evt (codes "service"));
    route = take 128 (str_of evt (codes "path"));
    method = take 8 (str_of evt (codes "method"));
    client_ip = str_of evt (codes "client_ip");
    license_key = or_none (take 64 (str_of evt (codes "license_key")));
    status_code = status;
    outcome = take 32 (str_of evt (codes "outcome"));
    reason_code = or_none (take 64 (str_of evt (codes "reason_code")));
    latency_ms = latency;
    body_sha256 = or_none (take 64 (str_of evt (codes "body_sha256")));
    user_agent = or_none (take 256 (str_of evt (codes "user_agent")));
    detail = keep (λ kv. not (mem kv.0 detail_keys)) evt;
  }

  -- _persist_request_log(pool, evt); a cast that the database refuses is a failed statement
  unfoldable pub persist_request_log : List (Text × V) → Work V (Unit {0})
  unfolding text_or_none int_of request_row statement
  persist_request_log evt = do
    statement
    received_at ← text_or_none evt (codes "received_at")
    status ← int_of evt (codes "status")
    latency ← int_of evt (codes "latency_ms")
    statement
    modify
        (λ s. record s { request_log = request_row evt received_at status latency ∷ s.request_log })

  unfoldable pub open_session : Option Instance → List (Text × V) → Work V (Unit {0})
  unfolding text_of statement
  open_session none evt = pure tt
  open_session (some i) evt = do
    account ← text_of evt (codes "account_number")
    broker ← text_of evt (codes "broker")
    platform ← text_of evt (codes "platform")
    ea_version ← text_of evt (codes "ea_version")
    bridge_region ← text_of evt (codes "bridge_region")
    statement
    modify (λ s. record s {
      sessions =
          record {
            license_id = i.license_id;
            instance_id = i.id;
            account_number = account;
            broker_name = broker;
            platform = platform;
            ea_version = ea_version;
            bridge_region = bridge_region;
            is_open = true;
          }
          ∷ s.sessions;
    })

  -- _persist_ea_connected(pool, evt)
  unfoldable pub persist_ea_connected : List (Text × V) → Work V (Unit {0})
  unfolding text_of active_instance open_session statement
  persist_ea_connected evt = do
    statement
    key ← text_of evt (codes "instance_id")
    statement
    row ← gets (λ s. active_instance key s.licenses s.instances)
    open_session row evt

  unfoldable pub close_session : Option ℕ → Work V (Unit {0})
  unfolding close_latest statement
  close_session none = pure tt
  close_session (some id) = do
    statement
    modify (λ s. record s { sessions = close_latest id s.sessions })

  -- _persist_ea_disconnected(pool, evt)
  unfoldable pub persist_ea_disconnected : List (Text × V) → Work V (Unit {0})
  unfolding text_of any_instance close_session statement
  persist_ea_disconnected evt = do
    statement
    key ← text_of evt (codes "instance_id")
    statement
    row ← gets (λ s. any_instance key s.instances)
    close_session row

  -- _persist_rejection(pool, evt)
  unfoldable pub persist_rejection : List (Text × V) → Work V (Unit {0})
  unfolding text_of statement
  persist_rejection evt = do
    statement
    license_id ← text_of evt (codes "license_id")
    reason_code ← text_of evt (codes "reason_code")
    region ← text_of evt (codes "region")
    payload_hash ← text_of evt (codes "payload_hash")
    statement
    modify (λ s. record s {
      rejections =
          record {
            license_id = license_id;
            reason_code = reason_code;
            ingress_region = region;
            payload_hash = payload_hash;
          }
          ∷ s.rejections;
    })
