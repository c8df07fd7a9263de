-- ===== src/Dashboard/DryRun.antt =====
-- `set_dry_run_mode` of scripts/trade_dashboard.py: the switch between dry run and live trading.
use exec_relay.Base.{ℕ, ◌≡◌, Bool, true, false, not, ◌&&◌, Option, none, some, arith, if◌then◌else◌}
use exec_relay.Base.Text.{Text, truthy}
use exec_relay.TradeStore.Db.{Db}
use exec_relay.TradeStore.Settings.{get_dry_run, set_dry_run, get_dry_run-set_dry_run}

-- A value in the JSON payload: a boolean, or anything else, a missing key too.
pub data Field : Type 0 where
  bool : Bool → Field
  other : Field

pub record DryRunPayload : Type 0 where
  pub enabled : Field
  pub confirm : Field

-- The status and what the body says of the dry-run state (`none` where it does not say).
pub record Response : Type 0 where
  pub status : ℕ
  pub success : Bool
  pub dry_run : Option Bool

-- An entry of the control audit log.
pub record Audit : Type 0 where
  pub before : Bool
  pub after : Bool
  pub requested : Bool
  pub success : Bool

pub record Outcome (F : Type 0) : Type 0 where
  pub response : Response
  pub db : Db F
  pub audit : Option Audit

unfoldable pub is_true : Field → Bool
is_true (bool b) = b
is_true other = false

unfoldable pub same_bool : Bool → Bool → Bool
same_bool true b = b
same_bool false b = not b

-- The environment: whether the store works, the default of the switch, DASHBOARD_LICENSE_ID, the time.
pub record Settings : Type 0 where
  pub works : Bool
  pub default : Bool
  pub license_id : Text
  pub now : Text

module _ {F : Type 0} (env : Settings) where
  unfoldable pub effective_dry_run : Db F → Bool
  effective_dry_run db = get_dry_run env.works env.default db

  unfoldable pub refused : ℕ → Option Bool → Db F → Outcome F
  refused status dry_run db = record {
    response = record { status = status; success = false; dry_run = dry_run };
    db = db;
    audit = none;
  }

  unfoldable pub accepted : Bool → Db F → Outcome F
  unfolding effective_dry_run same_bool
  accepted enabled db =
      let db' = set_dry_run env.works enabled env.now db in
      let before = effective_dry_run db in
      let after = effective_dry_run db' in
      record {
        response = record { status = 200; success = same_bool after enabled; dry_run = some after };
        db = db';
        audit = some record {
          before = before;
          after = after;
          requested = enabled;
          success = same_bool after enabled;
        };
      }

  unfoldable pub switch_to : Field → Field → Db F → Outcome F
  unfolding is_true refused accepted
  switch_to other confirm db = refused 400 none db
  switch_to (bool enabled) confirm db =
      if not enabled && not (is_true confirm)
      then refused 400 (some (effective_dry_run db)) db
      else if not enabled && not (truthy env.license_id)
      then refused 409 (some (effective_dry_run db)) db
      else accepted enabled db

  -- set_dry_run_mode(payload)
  unfoldable pub set_dry_run_mode : DryRunPayload → Db F → Outcome F
  unfolding switch_to
  set_dry_run_mode payload db = switch_to payload.enabled payload.confirm db

  effective-accepted :
      (enabled : Bool) (db : Db F)
      → effective_dry_run (accepted enabled db).db ≡ (if env.works then enabled else env.default)
  unfolding accepted
  effective-accepted enabled db =
      ground (arith, get_dry_run-set_dry_run env.works env.works env.default enabled env.now db)

  effective-broken : (db : Db F) → env.works ≡ false → effective_dry_run db ≡ env.default
  unfolding effective_dry_run get_dry_run
  effective-broken db e = ground arith

  switch_to-live :
      (enabled confirm : Field) (db : Db F)
      → effective_dry_run db ≡ true
      → effective_dry_run (switch_to enabled confirm db).db ≡ false
      → (enabled ≡ bool false)
        × (confirm ≡ bool true)
        × (truthy env.license_id ≡ true)
        × ((switch_to enabled confirm db).audit
            ≡ some (record { before = true; after = false; requested = false; success = true }))
  unfolding switch_to
  switch_to-live other confirm db h k = absurd (cc)
  switch_to-live (bool true) confirm db h k =
      absurd (ground (arith, effective-accepted true db, effective-broken db))
  switch_to-live (bool false) other db h k = absurd (cc)
  switch_to-live (bool false) (bool false) db h k = absurd (cc)
  switch_to-live (bool false) (bool true) db h k =
      ground (arith, effective-accepted false db, effective-broken db)

  -- A call goes from dry run to live trading only if `enabled` is exactly false, `confirm` is exactly
  -- true and the license id is set, and then it is written to the audit log.
  pub set_dry_run_mode-live :
      (payload : DryRunPayload) (db : Db F)
      → effective_dry_run db ≡ true
      → effective_dry_run (set_dry_run_mode payload db).db ≡ false
      → (payload.enabled ≡ bool false)
        × (payload.confirm ≡ bool true)
        × (truthy env.license_id ≡ true)
        × ((set_dry_run_mode payload db).audit
            ≡ some (record { before = true; after = false; requested = false; success = true }))
  unfolding set_dry_run_mode
  set_dry_run_mode-live payload db h k = switch_to-live payload.enabled payload.confirm db h k
