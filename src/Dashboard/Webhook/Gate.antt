-- ===== src/Dashboard/Webhook/Gate.antt =====
-- When scripts/trade_dashboard.py posts a sample signal to the ingress.
use exec_relay.Base.{◌≡◌, ◌↔◌, Bool, true, false, some, arith}
use exec_relay.Base.Text.{Text}
use exec_relay.TradeStore.Db.{Db}
use exec_relay.Dashboard.DryRun.{Field, is_true, Settings, effective_dry_run}
use exec_relay.Dashboard.Webhook.{
  TestPayload, Built, command, failed, Posted, Warnings, quiet, after_post, send_built,
  build_test_signal_command, send_test_signal,
}

module _ (post : Text → Posted) where
  posted_iff :
      (warnings : Warnings) (confirm : Field) (dry_run : Bool) (built : Built) (cmd : Text)
      → ((send_built post warnings confirm dry_run built).posted ≡ some cmd)
        ↔ ((is_true confirm ≡ true) × (dry_run ≡ false) × (built ≡ command cmd))
  unfolding send_built quiet after_post
  posted_iff warnings confirm dry_run (failed e) cmd = ground (arith)
  posted_iff warnings confirm dry_run (command c) cmd = ground (arith)

-- A command is posted to the ingress exactly when `confirm` is true, the dry-run switch is off at its
-- second reading, and it is the command that the payload builds.
pub send_test_signal-posted_iff :
    {F : Type 0} (env : Settings) (secret : Text) (post : Text → Posted) (p : TestPayload)
    (first second : Db F) (cmd : Text)
    → ((send_test_signal env secret post p first second).posted ≡ some cmd) ↔ (
        (is_true p.confirm ≡ true)
        × (effective_dry_run env second ≡ false)
        × (build_test_signal_command env.license_id secret p ≡ command cmd))
unfolding send_test_signal
send_test_signal-posted_iff env secret post p first second cmd =
    posted_iff post _ p.confirm (effective_dry_run env second)
      (build_test_signal_command env.license_id secret p) cmd
