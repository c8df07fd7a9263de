-- ===== src/Persist/Tables.antt =====
-- The tables that apps/persist/app.py writes, the latest row first, and the statements on them. A
-- statement can fail: `faults` says which of the next ones do.
use exec_relay.Base.{ℕ, suc, Bool, true, false, Option, List, [], ◌∷◌}
use exec_relay.Base.Text.{Text}
use exec_relay.Base.Exec.{Exec, Result, ok, err}
use exec_relay.Wire.Signal.{Param}

pub record License : Type 0 where
  pub id : ℕ
  pub license_key : Text
  pub active : Bool

pub record Instance : Type 0 where
  pub id : ℕ
  pub license_id : ℕ
  pub instance_key : Text

pub record AcceptedSignal : Type 0 where
  pub received_unix_nano : ℕ
  pub license_id : ℕ
  pub instance_id : Option ℕ
  pub trace_id : Text
  pub ingress_region : Text
  pub command : Text
  pub symbol : Text
  pub raw_command : Option Text
  pub params : List Param
  pub raw_payload : List ℕ

pub record DeadLetter : Type 0 where
  pub subject : Text
  pub reason : Text
  pub error_detail : Text
  pub payload : List ℕ

pub record FillRow (V : Type 0) : Type 0 where
  pub license_id : ℕ
  pub trace_id : Text
  pub status : Text
  pub broker_order_id : Option Text
  pub error_code : Option Text
  pub error_message : Option Text
  pub payload : List (Text × V)

pub record RequestLog (V : Type 0) : Type 0 where
  pub received_at : Option Text
  pub request_id : Text
  pub trace_id : Text
  pub service : Text
  pub route : Text
  pub method : Text
  pub client_ip : Text
  pub license_key : Option Text
  pub status_code : ℕ
  pub outcome : Text
  pub reason_code : Option Text
  pub latency_ms : ℕ
  pub body_sha256 : Option Text
  pub user_agent : Option Text
  pub detail : List (Text × V)

pub record Session : Type 0 where
  pub license_id : ℕ
  pub instance_id : ℕ
  pub account_number : Text
  pub broker_name : Text
  pub platform : Text
  pub ea_version : Text
  pub bridge_region : Text
  -- disconnected_at IS NULL
  pub is_open : Bool

pub record Rejection : Type 0 where
  pub license_id : Text
  pub reason_code : Text
  pub ingress_region : Text
  pub payload_hash : Text

pub record Store (V : Type 0) : Type 0 where
  pub licenses : List License
  pub instances : List Instance
  pub fingerprints : List (ℕ × Text)
  pub accepted : List AcceptedSignal
  pub dead_letters : List DeadLetter
  pub fills : List (FillRow V)
  pub request_log : List (RequestLog V)
  pub sessions : List Session
  pub rejections : List Rejection
  pub faults : List Bool
  pub acks : ℕ

-- The exceptions that the helpers let through.
pub data Failure : Type 0 where
  database bad_argument bad_number : Failure

abbrev pub Work : (V A : Type 0) → Type 0
Work V A = Exec (Store V) Failure A

module _ {V : Type 0} where
  unfoldable pub next_fault : List Bool → Store V → Result Failure (Unit {0}) × Store V
  next_fault [] s = (ok tt, s)
  next_fault (false ∷ faults) s = (ok tt, record s { faults = faults })
  next_fault (true ∷ faults) s = (err database, record s { faults = faults })

  -- One call of the database, before what it does.
  unfoldable pub statement : Work V (Unit {0})
  unfolding next_fault
  statement s = next_fault s.faults s

  unfoldable pub ack : Work V (Unit {0})
  ack s = (ok tt, record s { acks = suc s.acks })
