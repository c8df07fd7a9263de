-- ===== src/Dashboard/Tests.antt =====
-- Runs of the dashboard's controls, of its handler, and of its reports.
use exec_relay.Base.{
  String, if◌then◌else◌, ℕ, ◌+◌, ◌*◌, ◌/◌, ◌≡◌, refl, ◌≢◌, ◌↔◌, ◌⊎◌, true, false, some, none, List,
  [], ◌∷◌, map, ltb, In,
}
use exec_relay.Base.Text.{
  Text, codes, truthy, contains, starts_with, text_eq, lower, strip, lstrip, rstrip, upper, mem,
  is_space,
}
use exec_relay.TradeStore.Db.{Db}
use exec_relay.TradeStore.Settings.{
  get_dry_run, set_dry_run, insert, lookup, meta_get, switch_of, read_switch, get_symbol_map,
  set_symbol_map, clean_onto, add_alias, map_of,
}
use exec_relay.Dashboard.SymbolMap.{
  MapPayload, update_symbol_map, symbol_ok, symbol_rest, symbol_char, set_alias, written, maps_to,
}
use exec_relay.Dashboard.DryRun.{
  is_true, DryRunPayload, bool, Settings, effective_dry_run, set_dry_run_mode, switch_to, accepted,
  refused, set_dry_run_mode-live,
}
use exec_relay.Shim.Tests.{nat_floats}
use exec_relay.Dashboard.Http.{
  GetRequest, PostRequest, Site, Page, GetAnswer, called, host_ok, is_json, route_of, do_get,
  do_post,
}
use exec_relay.Dashboard.Http.{dry_run}
use exec_relay.Dashboard.Http.Guards.{MayPass, do_get-MayPass, do_post-called_iff}
use exec_relay.Dashboard.Webhook.{
  TestPayload, Posted, answered, command, build_test_signal_command, send_test_signal,
}
use exec_relay.Dashboard.Webhook.Gate.{send_test_signal-posted_iff}
use exec_relay.Dashboard.Webhook.Redact.{
  AnswersAlike, IsSecret, ShowsSame, send_test_signal-ShowsSame,
}
use exec_relay.Dashboard.Pipeline.{Surroundings, text_of, pipeline_status}
use exec_relay.Dashboard.Pipeline.Verdict.{IsRecent, IsAttached, pipeline_status-green_iff}
use exec_relay.Dashboard.Closed.{
  DealType, DealEntry, opening, closing, AccountDeal, Arith, group_closed,
}
use exec_relay.Dashboard.Closed.Rows.{
  opens, closes, of_position, positions_onto, IsDistinct, rows_for, group_closed-rows_for,
}

abbrev env : Settings
env = record { works = true; default = true; license_id = codes "lic"; now = codes "now" }

abbrev empty_store : Db ℕ
empty_store = record {
  signals = [];
  orders = [];
  closed_trades = [];
  equity_snapshots = [];
  channels = [];
  meta = [];
}

abbrev go_live : DryRunPayload
go_live = record { enabled = bool false; confirm = bool true }

abbrev gold : MapPayload
gold = record { alias = codes " gold "; broker = codes "XAUUSD_"; delete = bool false }

gold_is_set : (update_symbol_map true (codes "now") gold empty_store).status ≡ 200
unfolding update_symbol_map symbol_ok symbol_rest symbol_char set_alias written maps_to is_true
    lookup insert get_symbol_map set_symbol_map clean_onto add_alias meta_get map_of upper strip
    lstrip rstrip is_space truthy text_eq
gold_is_set = refl

dry_before : effective_dry_run env empty_store ≡ true
unfolding effective_dry_run get_dry_run meta_get lookup switch_of
dry_before = refl

live_after : effective_dry_run env (set_dry_run_mode env go_live empty_store).db ≡ false
unfolding effective_dry_run get_dry_run meta_get lookup switch_of set_dry_run_mode switch_to
    accepted refused set_dry_run insert read_switch text_eq is_space truthy lower strip mem
live_after = refl

set_dry_run_mode-live_example :
    (go_live.enabled ≡ bool false)
    × (go_live.confirm ≡ bool true)
    × (truthy env.license_id ≡ true)
    × ((set_dry_run_mode env go_live empty_store).audit
        ≡ some (record { before = true; after = false; requested = false; success = true }))
set_dry_run_mode-live_example = set_dry_run_mode-live env go_live empty_store dry_before live_after

abbrev ask_state : GetRequest
ask_state = record {
  host = some (codes "LOCALHOST:8090 ");
  token_header = some (codes "t");
  path = codes "/api/pipeline";
  token = none;
  days = none;
  source = none;
  month = none;
  stack_only = none;
}

abbrev site : Site
site = record { token = codes "t"; addr = codes "0.0.0.0:8090"; int = λ t. none }

pipeline_is_served : do_get site ask_state ≡ GetAnswer.served Page.pipeline
unfolding do_get text_eq mem lower strip lstrip rstrip is_space truthy
pipeline_is_served = refl

do_get-MayPass_example :
    (host_ok site ask_state ≡ true) × ((Page.pipeline ≡ Page.health) ⊎ MayPass site ask_state)
do_get-MayPass_example = do_get-MayPass site ask_state Page.pipeline pipeline_is_served

abbrev switch_off : PostRequest DryRunPayload
switch_off = record { get = ask_state; content_type = none; payload = some go_live }

do_post-called_iff_example : (do_post site switch_off ≡ called dry_run go_live) ↔ (
    (host_ok site ask_state ≡ true)
    × MayPass site ask_state
    × (is_json none ≡ true)
    × (route_of (codes "/api/pipeline") ≡ some dry_run)
    × (some go_live ≡ some go_live))
do_post-called_iff_example = do_post-called_iff site switch_off dry_run go_live

abbrev sample : TestPayload
sample = record {
  command = some (codes "closelong");
  symbol = some (codes "EURUSD");
  vol_lots = none;
  risk_mode = none;
  risk = none;
  sl = none;
  tp = none;
  comment = none;
  confirm = bool true;
}

abbrev accepts : Text → Posted
accepts cmd = answered 200 (codes "ok") (codes "t1")

abbrev live_env : Settings
live_env = record { works = true; default = false; license_id = codes "lic"; now = codes "now" }

abbrev sample_command : Text
sample_command = codes "lic,CLOSELONG,EURUSD,comment=webhook-test,secret=k"

send_test_signal-posted_iff_example :
    ((send_test_signal live_env (codes "k") accepts sample empty_store empty_store).posted
      ≡ some sample_command)
    ↔ ((is_true (bool true) ≡ true)
        × (effective_dry_run live_env empty_store ≡ false)
        × (build_test_signal_command live_env.license_id (codes "k") sample
            ≡ command sample_command))
send_test_signal-posted_iff_example =
    send_test_signal-posted_iff live_env (codes "k") accepts sample empty_store empty_store
      sample_command

one_letter : IsSecret (codes "k")
unfolding truthy
one_letter = (refl, (refl, tt))

two_letters : IsSecret (codes "pq")
unfolding truthy
two_letters = (refl, (refl, (refl, tt)))

-- An ingress that refuses a command without its own secret.
abbrev knows : String → Text → Posted
knows secret cmd =
    if contains (codes secret) cmd
    then answered 200 (codes "ok") (codes "t1")
    else answered 401 (codes "secret_rejected") (codes "t1")

alike :
    AnswersAlike
      (build_test_signal_command live_env.license_id (codes "k") sample)
      (build_test_signal_command live_env.license_id (codes "pq") sample)
      (knows "secret=k")
      (knows "secret=pq")
unfolding build_test_signal_command contains starts_with mem text_eq upper strip is_space truthy
alike = refl

send_test_signal-ShowsSame_example :
    ShowsSame
      (send_test_signal live_env (codes "k") (knows "secret=k") sample empty_store empty_store)
      (send_test_signal live_env (codes "pq") (knows "secret=pq") sample empty_store empty_store)
send_test_signal-ShowsSame_example =
    send_test_signal-ShowsSame live_env (knows "secret=k") (knows "secret=pq") (codes "k")
      (codes "pq") sample empty_store empty_store one_letter two_letters alike

abbrev around : Surroundings ℕ
around = record {
  ingress_answer = some 200;
  bridge_answer = some 200;
  age_of = λ t. some 5;
  stale_after = 90;
  read_state = λ t. some (record { mt5 = true; account = some 1; demo = some true });
}

pipeline_status-green_iff_example : ((pipeline_status live_env around empty_store).green ≡ true) ↔ (
    (around.ingress_answer ≡ some 200)
    × (around.bridge_answer ≡ some 200)
    × IsRecent live_env around (text_of (meta_get true (codes "hb_ea_shim") empty_store))
    × IsAttached live_env around (text_of (meta_get true (codes "hb_ea_shim_state") empty_store))
    × (effective_dry_run live_env empty_store ≡ false))
pipeline_status-green_iff_example = pipeline_status-green_iff live_env around empty_store

abbrev money : Arith ℕ
money = record {
  zero = 0;
  add = λ a b. a + b;
  mul = λ a b. a * b;
  div = λ a b. a / b;
  round2 = λ a. a;
  round4 = λ a. a;
  round5 = λ a. a;
  nonzero = λ a. ltb 0 a;
}

abbrev deal_of : DealEntry → ℕ → ℕ → AccountDeal ℕ
deal_of entry position time = record {
  deal_type = DealType.buy;
  entry = entry;
  position_id = position;
  time = time;
  symbol = codes "EURUSD";
  volume = 1;
  price = 100;
  profit = 7;
  commission = 0;
  swap = 0;
  magic = 5;
  comment = [];
}

abbrev deals : List (AccountDeal ℕ)
deals = deal_of opening 1 3 ∷ deal_of closing 1 6 ∷ deal_of closing 2 5 ∷ deal_of closing 1 4 ∷ []

group_closed-rows_for_example :
    (group_closed money 5 deals
      ≡ rows_for money 5
          (of_position closes deals)
          (of_position opens deals)
          (positions_onto [] deals))
    × IsDistinct (positions_onto [] deals)
    × ((k : ℕ) → of_position closes deals k ≢ [] → In k (positions_onto [] deals))
group_closed-rows_for_example = group_closed-rows_for money 5 deals

two_rows : map (λ r. r.profit) (group_closed money 5 deals) ≡ 14 ∷ 7 ∷ []
unfolding group_closed
two_rows = refl
