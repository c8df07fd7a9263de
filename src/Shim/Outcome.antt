-- ===== src/Shim/Outcome.antt =====
-- What `execute` of scripts/ea_shim.py returns, its look-ups, and the fill that `run_session` reports.
use exec_relay.Base.{ℕ, Bool, true, false, Option, none, some, List, [], ◌∷◌, if◌then◌else◌}
use exec_relay.Base.Text.{Text, codes, truthy, upper, strip}
use exec_relay.TradeStore.Settings.{lookup}
use exec_relay.Shim.Terminal.{Reply}
use exec_relay.Shim.Orders.{Error}

pub data Status : Type 0 where
  filled placed rejected : Status

-- The four values that `execute` returns; the order id is the list of the tickets that it joins.
pub record Execution (F : Type 0) : Type 0 where
  pub status : Status
  pub orders : List ℕ
  pub error : Option Error
  pub volume : F

unfoldable pub is_some : {A : Type 0} → Option A → Bool
is_some none = false
is_some (some a) = true

-- alias = get_symbol_map().get(symbol.strip().upper()); an empty alias is not used
unfoldable pub mapped : List (Text × Text) → Text → Text
mapped symbol_map symbol = elim (lookup (upper (strip symbol)) symbol_map) [
  | none ↦ symbol
  | some alias ↦ if truthy alias then alias else symbol
]

-- [str(res.order)] if res else []
unfoldable pub tickets : Option Reply → List ℕ
tickets none = []
tickets (some res) = res.order ∷ []

abbrev pub entry_keys : List Text
entry_keys = codes "entry" ∷ codes "entry_price" ∷ []

-- The fill that `run_session` sends back: "rejected" if err else ok_status.
pub record Fill : Type 0 where
  pub status : Status
  pub broker_order_id : List ℕ
  pub failed : Bool

unfoldable pub fill_of : {F : Type 0} → Execution F → Fill
unfolding is_some
fill_of e = record {
  status = if is_some e.error then rejected else e.status;
  broker_order_id = e.orders;
  failed = is_some e.error;
}
