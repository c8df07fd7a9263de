-- ===== src/Dashboard/Pipeline.antt =====
-- `pipeline_status` of scripts/trade_dashboard.py: whether a signal that is posted now reaches MT5. The
-- texts of the details, the time stamp of the switch and that of the answer are left out.
pub mod Verdict
use exec_relay.Base.{
  ℕ, ◌≡◌, refl, Bool, true, false, not, ◌&&◌, Option, none, some, List, [], ◌∷◌, ◌++◌, ◌==◌,
  if◌then◌else◌,
}
use exec_relay.Base.Text.{Text, codes, truthy}
use exec_relay.TradeStore.Db.{Cell, plain, json, Db}
use exec_relay.TradeStore.Settings.{meta_get, dry_run_key}
use exec_relay.Shim.Floats.{Floats}
use exec_relay.Shim.Watched.{Heartbeat}
use exec_relay.Dashboard.DryRun.{Settings, effective_dry_run}

pub data Link : Type 0 where
  ingress bridge ea_shim mt5 dry_run : Link

pub data Health : Type 0 where
  ok warn down : Health

pub data Reason : Type 0 where
  link_down : Link → Reason
  dry_run_on : Reason

-- What is known of the MT5 account.
pub record AccountInfo : Type 0 where
  pub account : Option ℕ
  pub demo : Option Bool

pub record Status : Type 0 where
  pub green : Bool
  pub reasons : List Reason
  pub ingress_state : Health
  pub bridge_state : Health
  pub ea_shim_state : Health
  pub mt5_state : Health
  pub dry_run_state : Health
  pub mt5_account : AccountInfo
  pub overridden : Bool

-- The answers of the two health pages (`none` is unreachable), the age in seconds of an ISO time stamp
-- (`none` where it is not one), 90.0, and what `json.loads` reads of the shim's state (`none` where it
-- raises).
pub record Surroundings (F : Type 0) : Type 0 where
  pub ingress_answer : Option ℕ
  pub bridge_answer : Option ℕ
  pub age_of : Text → Option F
  pub stale_after : F
  pub read_state : Text → Option Heartbeat

unfoldable pub answers_ok : Option ℕ → Bool
answers_ok none = false
answers_ok (some status) = status == 200

unfoldable pub up_if : Bool → Health
up_if test = if test then ok else down

-- `_meta_get(key)`, as a text that is not empty; no heartbeat is a symbol map.
unfoldable pub text_of : Option Cell → Option Text
text_of none = none
text_of (some (json m)) = none
text_of (some (plain t)) = if truthy t then some t else none

-- ea_state: {} where there is none or it is not JSON
unfoldable pub state_of : (Text → Option Heartbeat) → Option Text → Heartbeat
state_of read none = record { mt5 = false; account = none; demo = none }
state_of read (some t) = elim (read t) [
  | none ↦ record { mt5 = false; account = none; demo = none }
  | some hb ↦ hb
]

unfoldable pub reason_if : Health → Link → List Reason
reason_if ok link = []
reason_if warn link = []
reason_if down link = link_down link ∷ []

unfoldable pub no_reason : List Reason → Bool
no_reason [] = true
no_reason (r ∷ rs) = false

unfoldable pub is_stored : Option Cell → Bool
is_stored none = false
is_stored (some c) = true

module _ {F : Type 0} ⦃fl : Floats F⦄ (env : Settings) (world : Surroundings F) where
  -- ea_age is not None and ea_age < _HB_STALE_AFTER_SEC
  unfoldable pub is_fresh : Option Text → Bool
  is_fresh none = false
  is_fresh (some t) = elim (world.age_of t) [
    | none ↦ false
    | some age ↦ fl.lt age world.stale_after
  ]

  unfoldable pub status_with : Bool → Heartbeat → Bool → Bool → Status
  unfolding answers_ok up_if reason_if no_reason
  status_with fresh hb dry_on stored =
      let shim_ok = fresh && hb.mt5 in
      let reasons =
        reason_if (up_if (answers_ok world.ingress_answer)) ingress
        ++ (reason_if (up_if (answers_ok world.bridge_answer)) bridge
            ++ (reason_if (up_if shim_ok) ea_shim
                ++ (reason_if (up_if shim_ok) mt5 ++ (if dry_on then dry_run_on ∷ [] else [])))) in
      record {
        green = no_reason reasons;
        reasons = reasons;
        ingress_state = up_if (answers_ok world.ingress_answer);
        bridge_state = up_if (answers_ok world.bridge_answer);
        ea_shim_state = up_if shim_ok;
        mt5_state = up_if shim_ok;
        dry_run_state = if dry_on then warn else ok;
        mt5_account =
            if shim_ok
            then record { account = hb.account; demo = hb.demo }
            else record { account = none; demo = none };
        overridden = stored;
      }

  unfoldable pub pipeline_status : Db F → Status
  unfolding is_fresh text_of state_of status_with is_stored
  pipeline_status db =
      status_with (is_fresh (text_of (meta_get env.works (codes "hb_ea_shim") db)))
        (state_of world.read_state (text_of (meta_get env.works (codes "hb_ea_shim_state") db)))
        (effective_dry_run env db) (is_stored (meta_get env.works dry_run_key db))
