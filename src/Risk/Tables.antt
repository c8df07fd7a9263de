-- ===== src/Risk/Tables.antt =====
-- The tables of apps/risk/app.py, and the values that its handler works on.
use exec_relay.Base.{ℕ, Bool, Option, List}
use exec_relay.Base.Text.{Text}

pub record Amounts (F : Type 0) : Type 0 where
  pub zero : F
  pub hundred : F
  pub add : F → F → F
  pub sub : F → F → F
  pub mul : F → F → F
  pub div : F → F → F
  pub gt : F → F → Bool
  -- x != 0
  pub nonzero : F → Bool

pub record LicenseRow : Type 0 where
  pub id : ℕ
  pub active : Bool

pub record InstanceRow : Type 0 where
  pub license_id : ℕ
  pub instance_key : Text

module _ (F : Type 0) where
  pub record PositionRow : Type 0 where
    pub license_id : ℕ
    pub account_id : Text
    pub symbol : Text
    pub position_size : F
    pub entry_price : Option F
    pub current_price : Option F

  pub record LimitRow : Type 0 where
    pub license_id : ℕ
    pub account_id : Text
    pub max_notional_usd : Option F

  pub record DrawdownRow : Type 0 where
    pub license_id : ℕ
    pub account_id : Text
    pub peak_equity : F
    pub current_equity : F
    pub drawdown_pct : F

  pub record BreachRow : Type 0 where
    pub license_id : ℕ
    pub account_id : Text
    pub current_value : F
    pub limit_value : Option F

  pub record Db : Type 0 where
    pub licenses : List LicenseRow
    pub instances : List InstanceRow
    pub positions : List PositionRow
    pub limits : List LimitRow
    pub drawdowns : List DrawdownRow
    pub breaches : List BreachRow
    -- the subject and the value of each alert
    pub alerts : List (Text × F)
    pub faults : List Bool
    pub acks : ℕ

  -- The values of the message that the handler reads, with its defaults.
  pub record Fill : Type 0 where
    pub symbol : Text
    pub entry_price : Option F
    pub current_price : Option F
    -- none for a null, which the column refuses
    pub position_size : Option F

-- json.loads(msg.data): it raises, gives no object (`get` raises), or an object.
pub data Loaded (F : Type 0) : Type 0 where
  no_json no_object : Loaded F
  object : Fill F → Loaded F

pub record Exposure (F : Type 0) : Type 0 where
  pub total_notional : F
  pub limit : Option F
  pub breached : Bool

pub data Failure : Type 0 where
  database not_null attribute : Failure
