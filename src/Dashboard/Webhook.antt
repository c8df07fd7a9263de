-- ===== src/Dashboard/Webhook.antt =====
-- The sample signal of scripts/trade_dashboard.py: `build_test_signal_command`, `_redact` and
-- `send_test_signal`. The ingress that gets the command is a parameter.
pub mod Redact
pub mod Gate
use exec_relay.Base.{
  ℕ, ◌≡◌, refl, Bool, true, false, not, ◌&&◌, Option, none, some, List, [], ◌∷◌, ◌++◌, ◌==◌,
  if◌then◌else◌, take,
}
use exec_relay.Base.Text.{Text, codes, text_eq, truthy, upper, strip, starts_with, mem}
use exec_relay.TradeStore.Db.{Db}
use exec_relay.Dashboard.DryRun.{Field, is_true, Settings, effective_dry_run}

-- The payload: for a field of the command, `str(v)` of its value, `none` where it is missing or falsy.
pub record TestPayload : Type 0 where
  pub command : Option Text
  pub symbol : Option Text
  pub vol_lots : Option Text
  pub risk_mode : Option Text
  pub risk : Option Text
  pub sl : Option Text
  pub tp : Option Text
  pub comment : Option Text
  pub confirm : Field

pub data BuildError : Type 0 where
  bad_command no_symbol no_volume no_risk bad_risk_mode no_levels : BuildError

pub data Parts : Type 0 where
  parts : List Text → Parts
  refused : BuildError → Parts

pub data Built : Type 0 where
  command : Text → Built
  failed : BuildError → Built

-- str(fields.get(key) or default).strip()
unfoldable pub field_or : Text → Option Text → Text
field_or default none = strip default
field_or default (some t) = strip t

unfoldable pub join : List Text → Text
join [] = []
join (t ∷ []) = t
join (t ∷ u ∷ ts) = t ++ (codes "," ++ join (u ∷ ts))

unfoldable pub is_open : Text → Bool
is_open cmd = mem cmd (codes "BUY" ∷ codes "SELL" ∷ [])

unfoldable pub is_test_command : Text → Bool
is_test_command cmd =
    mem cmd (codes "BUY" ∷ codes "SELL" ∷ codes "CLOSELONG" ∷ codes "CLOSESHORT" ∷ [])

unfoldable pub risk_part : Text → Text → Parts
risk_part mode risk =
    if text_eq mode (codes "bypass")
    then parts (codes "risk=0" ∷ [])
    else if text_eq mode (codes "custom")
    then if truthy risk then parts ((codes "risk=" ++ risk) ∷ []) else refused no_risk
    else if text_eq mode (codes "stack")
    then parts []
    else refused bad_risk_mode

unfoldable pub with_levels : Text → Parts → Text → Text → Parts
with_levels vol (refused e) sl tp = refused e
with_levels vol (parts risk) sl tp =
    if not (truthy sl && truthy tp)
    then refused no_levels
    else parts ((codes "vol_lots=" ++ vol) ∷ risk ++ (codes "sl=" ++ sl) ∷ (codes "tp=" ++ tp) ∷ [])

-- What a command that opens a position adds.
unfoldable pub open_parts : TestPayload → Parts
unfolding field_or risk_part with_levels
open_parts p =
    let vol = field_or [] p.vol_lots in
    if truthy vol
    then with_levels vol (risk_part (field_or (codes "bypass") p.risk_mode) (field_or [] p.risk))
        (field_or [] p.sl) (field_or [] p.tp)
    else refused no_volume

unfoldable pub comment_part : TestPayload → List Text
unfolding field_or
comment_part p =
    let comment = field_or (codes "webhook-test") p.comment in
    if truthy comment then (codes "comment=" ++ comment) ∷ [] else []

-- The secret is the last part.
unfoldable pub secret_part : Text → List Text
secret_part secret = if truthy secret then (codes "secret=" ++ secret) ∷ [] else []

module _ (license secret : Text) where
  unfoldable pub finished : Text → Text → TestPayload → Parts → Built
  unfolding join comment_part secret_part
  finished cmd symbol p (refused e) = failed e
  finished cmd symbol p (parts more) =
      command (join (license ∷ cmd ∷ symbol ∷ more ++ comment_part p ++ secret_part secret))

  unfoldable pub build_test_signal_command : TestPayload → Built
  unfolding field_or is_test_command is_open open_parts finished
  build_test_signal_command p =
      let cmd = upper (field_or [] p.command) in
      let symbol = field_or [] p.symbol in
      if not (is_test_command cmd)
      then failed bad_command
      else if truthy symbol
      then finished cmd symbol p (if is_open cmd then open_parts p else parts [])
      else failed no_symbol

-- re.sub(r"secret=[^,]*", "secret=***", cmd): inside a match everything up to a comma is dropped.
unfoldable pub redact_from : Bool → Text → Text
redact_from inside [] = []
redact_from inside (c ∷ s) =
    let dropped = redact_from true s in
    let kept = redact_from false s in
    if inside
    then if c == b',' then c ∷ kept else dropped
    else if starts_with (c ∷ s) (codes "secret=")
    then codes "secret=***" ++ dropped
    else c ∷ kept

unfoldable pub redact : Text → Text
unfolding redact_from
redact cmd = redact_from false cmd

-- What `_post_to_ingress` returns, or the text of the exception that it raises.
pub data Posted : Type 0 where
  answered : ℕ → Text → Text → Posted
  raised : Text → Posted

-- The `results` entry of the response.
pub record Sent : Type 0 where
  pub http_status : ℕ
  pub response : Text
  pub trace_id : Text

unfoldable pub sent_of : Posted → Sent
sent_of (answered status text trace_id) = record {
  http_status = status;
  response = text;
  trace_id = trace_id;
}
sent_of (raised text) = record { http_status = 0; response = text; trace_id = [] }

pub record TestLog : Type 0 where
  pub command : Text
  pub http_status : ℕ
  pub trace_id : Text
  pub ok : Bool

pub record Warnings : Type 0 where
  pub dry_run : Bool
  pub no_license : Bool

-- The status and body of the response.
pub data TestResponse : Type 0 where
  bad_request : Warnings → BuildError → TestResponse
  preview : Warnings → Text → TestResponse
  in_dry_run : Warnings → Text → TestResponse
  done : Bool → Sent → Warnings → TestResponse

-- With the command that was posted, if one was, and the entry of the audit log.
pub record TestOutcome : Type 0 where
  pub response : TestResponse
  pub posted : Option Text
  pub log : Option TestLog

unfoldable pub quiet : TestResponse → TestOutcome
quiet r = record { response = r; posted = none; log = none }

unfoldable pub after_post : Warnings → Text → Sent → TestOutcome
unfolding redact
after_post warnings cmd s =
    let ok = s.http_status == 200 in
    record {
      response = done ok (record s { response = take 300 s.response }) warnings;
      posted = some cmd;
      log = some record {
        command = redact cmd;
        http_status = s.http_status;
        trace_id = s.trace_id;
        ok = ok;
      };
    }

module _ (post : Text → Posted) where
  unfoldable pub send_built : Warnings → Field → Bool → Built → TestOutcome
  unfolding quiet redact is_true after_post sent_of
  send_built warnings confirm dry_run (failed e) = quiet (bad_request warnings e)
  send_built warnings confirm dry_run (command cmd) =
      if not (is_true confirm)
      then quiet (preview warnings (redact cmd))
      else if dry_run
      then quiet (in_dry_run warnings (redact cmd))
      else after_post warnings cmd (sent_of (post cmd))

module _ {F : Type 0} (env : Settings) (secret : Text) (post : Text → Posted) where
  -- send_test_signal(payload), with the trade store at the first and at the second reading of the
  -- dry-run switch.
  unfoldable pub send_test_signal : TestPayload → Db F → Db F → TestOutcome
  unfolding send_built build_test_signal_command
  send_test_signal p first second =
      let warnings : Warnings = record {
        dry_run = effective_dry_run env first;
        no_license = not (truthy env.license_id);
      } in
      send_built post warnings p.confirm (effective_dry_run env second)
        (build_test_signal_command env.license_id secret p)
