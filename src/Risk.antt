-- ===== src/Risk.antt =====
-- The handler of apps/risk/app.py and the tables that it writes. Amounts are a type F with its operations
-- as a parameter, and reading JSON is a parameter. A statement can fail: `faults` says which of the next
-- ones do. Publishing an alert can fail too, which is caught.
pub mod Tables
pub mod Settled
pub mod Exposed
pub mod Positions
pub mod Tests
use exec_relay.Base.{
  ℕ, suc, ◌+◌, Bool, true, false, not, ◌&&◌, ◌||◌, Option, none, some, List, [], ◌∷◌, ◌++◌, ◌==◌,
  if◌then◌else◌, keep,
}
use exec_relay.Base.Text.{Text, codes, text_eq, truthy}
use exec_relay.Base.Exec.{Exec, Result, ok, err, pure, raise, gets, modify, catch, ◌>>=◌, ◌>>◌}
use exec_relay.Risk.Tables.{
  Amounts, BreachRow, Db, DrawdownRow, Exposure, Failure, Fill, InstanceRow, LicenseRow, LimitRow,
  Loaded, PositionRow, attribute, database, no_json, no_object, not_null, object,
}

-- text.split(".")
unfoldable pub split_dots : Text → List Text
split_dots [] = [] ∷ []
split_dots (c ∷ s) =
    let parts = split_dots s in
    if c == b'.' then [] ∷ parts else elim parts [ [] ↦ (c ∷ []) ∷ [] | p ∷ rest ↦ (c ∷ p) ∷ rest ]

-- parts[1] if len(parts) > 1 else "", and parts[2] likewise
unfoldable pub second : List Text → Text
second [] = []
second (a ∷ []) = []
second (a ∷ b ∷ parts) = b

unfoldable pub third : List Text → Text
third [] = []
third (a ∷ []) = []
third (a ∷ b ∷ []) = []
third (a ∷ b ∷ c ∷ parts) = c

unfoldable pub find : {A : Type 0} → (A → Bool) → List A → Option A
find p [] = none
find p (a ∷ rows) = if p a then some a else find p rows

-- SELECT l.id … JOIN … WHERE i.instance_key = $1 AND l.active = TRUE LIMIT 1
unfoldable pub active : ℕ → List LicenseRow → Bool
active id [] = false
active id (l ∷ rows) = (l.id == id && l.active) || active id rows

-- WHERE license_id = $1 AND account_id = $2
unfoldable pub at_account : ℕ → Text → ℕ → Text → Bool
at_account license account license' account' = license' == license && text_eq account' account

module _ {F : Type 0} where
  unfoldable pub next_fault : List Bool → Db F → Result Failure (Unit {0}) × Db F
  next_fault [] db = (ok tt, db)
  next_fault (false ∷ faults) db = (ok tt, record db { faults = faults })
  next_fault (true ∷ faults) db = (err database, record db { faults = faults })

  -- One call of the database or the broker, before what it does.
  unfoldable pub statement : Exec (Db F) Failure (Unit {0})
  unfolding next_fault
  statement db = next_fault db.faults db

  unfoldable pub ack : Exec (Db F) Failure (Unit {0})
  ack db = (ok tt, record db { acks = suc db.acks })

  unfoldable pub license_of : Text → Db F → Option ℕ
  unfolding find active
  license_of instance_id db =
      elim (find (λ i. text_eq i.instance_key instance_id && active i.license_id db.licenses)
        db.instances) [ none ↦ none | some i ↦ some i.license_id ]

  unfoldable pub at_key : ℕ → Text → Text → PositionRow F → Bool
  at_key license account symbol p =
      p.license_id == license && (text_eq p.account_id account && text_eq p.symbol symbol)

  -- INSERT … ON CONFLICT (license_id, account_id, symbol) DO UPDATE
  unfoldable pub upsert_position : PositionRow F → List (PositionRow F) → List (PositionRow F)
  unfolding at_key
  upsert_position new [] = new ∷ []
  upsert_position new (p ∷ rows) =
      let rest = upsert_position new rows in
      if at_key new.license_id new.account_id new.symbol p then new ∷ rows else p ∷ rest

  -- update_position(pool, …)
  unfoldable pub update_position :
      ℕ → Text → Text → Option F → Option F → Option F → Exec (Db F) Failure (Unit {0})
  unfolding statement upsert_position
  update_position license account symbol none entry current = do statement; raise not_null
  update_position license account symbol (some size) entry current = do
    statement
    modify (λ db. record db {
      positions =
          upsert_position
            record {
              license_id = license;
              account_id = account;
              symbol = symbol;
              position_size = size;
              entry_price = entry;
              current_price = current;
            }
            db.positions;
    })

module _ {F : Type 0} (am : Amounts F) where
  -- sum((size or 0) * (price or 0) for p in positions)
  unfoldable pub total_notional : List (PositionRow F) → F
  total_notional [] = am.zero
  total_notional (p ∷ rows) =
      am.add (am.mul p.position_size (elim p.current_price [ none ↦ am.zero | some c ↦ c ]))
        (total_notional rows)

  unfoldable pub open_positions : ℕ → Text → List (PositionRow F) → List (PositionRow F)
  unfolding at_account
  open_positions license account =
      keep (λ p. at_account license account p.license_id p.account_id && am.nonzero p.position_size)

  -- limit["max_notional_usd"] and total_notional > limit["max_notional_usd"]
  unfoldable pub exceeds : F → Option F → Bool
  exceeds total none = false
  exceeds total (some limit) = am.nonzero limit && am.gt total limit

  unfoldable pub limit_of : ℕ → Text → List (LimitRow F) → Option F
  unfolding find at_account
  limit_of license account limits =
      elim (find (λ l. at_account license account l.license_id l.account_id) limits) [
        | none ↦ none
        | some l ↦ l.max_notional_usd
      ]

  -- The result of check_exposure_limits
  unfoldable pub exposure_of : ℕ → Text → List (PositionRow F) → List (LimitRow F) → Exposure F
  unfolding total_notional open_positions exceeds limit_of
  exposure_of license account positions limits =
      let total = total_notional (open_positions license account positions) in
      let limit = limit_of license account limits in
      record { total_notional = total; limit = limit; breached = exceeds total limit }

  -- check_exposure_limits(pool, license_id, account_id)
  unfoldable pub check_exposure_limits : ℕ → Text → Exec (Db F) Failure (Exposure F)
  unfolding statement exposure_of
  check_exposure_limits license account = do
    statement
    positions ← gets (λ db. db.positions)
    statement
    gets (λ db. exposure_of license account positions db.limits)

  -- record_drawdown(pool, …)
  unfoldable pub drawdown_pct : F → F → F
  drawdown_pct peak current =
      if am.gt peak am.zero then am.mul (am.div (am.sub peak current) peak) am.hundred else am.zero

  unfoldable pub upsert_drawdown : DrawdownRow F → List (DrawdownRow F) → List (DrawdownRow F)
  unfolding at_account
  upsert_drawdown new [] = new ∷ []
  upsert_drawdown new (d ∷ rows) =
      let rest = upsert_drawdown new rows in
      if at_account new.license_id new.account_id d.license_id d.account_id
      then new ∷ rows
      else d ∷ rest

  unfoldable pub record_drawdown : ℕ → Text → F → F → Exec (Db F) Failure (Unit {0})
  unfolding statement drawdown_pct upsert_drawdown
  record_drawdown license account peak current = do
    statement
    modify (λ db. record db {
      drawdowns =
          upsert_drawdown
            record {
              license_id = license;
              account_id = account;
              peak_equity = peak;
              current_equity = current;
              drawdown_pct = drawdown_pct peak current;
            }
            db.drawdowns;
    })

  -- The branch of a breach: the log and the alert
  unfoldable pub report_breach : ℕ → Text → Exposure F → Exec (Db F) Failure (Unit {0})
  unfolding statement catch
  report_breach license account exposure = do
    statement
    modify (λ db. record db {
      breaches =
          db.breaches
          ++ record {
            license_id = license;
            account_id = account;
            current_value = exposure.total_notional;
            limit_value = exposure.limit;
          }
            ∷ [];
    })
    catch
        (do
          statement
          modify (λ db. record db {
            alerts =
                db.alerts ++ (codes "events.risk.breach." ++ account, exposure.total_notional) ∷ [];
          }))
        (λ e. pure tt)

  -- From the symbol and the account on
  unfoldable pub apply_fill : ℕ → Text → Fill F → Exec (Db F) Failure (Unit {0})
  unfolding update_position check_exposure_limits report_breach
  apply_fill license account fill =
      if not (truthy fill.symbol && truthy account) then pure tt else do
        update_position license account fill.symbol fill.position_size fill.entry_price
            fill.current_price
        exposure ← check_exposure_limits license account
        if exposure.breached then report_breach license account exposure else pure tt

  -- The body of the try, behind the early return for an unknown instance
  unfoldable pub process_fill : Text → Text → Loaded F → Exec (Db F) Failure (Unit {0})
  unfolding statement license_of apply_fill
  process_fill instance_id account loaded = do
    statement
    license ← gets (license_of instance_id)
    elim license [
      | none ↦ pure tt
      | some id ↦ elim loaded [
        | no_json ↦ pure tt
        | no_object ↦ raise attribute
        | object fill ↦ apply_fill id account fill
      ]
    ]

  -- What on_fill does with a message that is JSON; the test for a pool and a stream comes first
  unfoldable pub on_json : Bool → Text → Loaded F → Exec (Db F) Failure (Unit {0})
  unfolding process_fill ack catch split_dots second third
  on_json false subject loaded = ack
  on_json true subject loaded = do
    catch (process_fill (second (split_dots subject)) (third (split_dots subject)) loaded)
        (λ e. pure tt)
    ack

  -- on_fill(pool, js, msg), where `connected` is whether there are a pool and a stream
  unfoldable pub on_fill : Bool → Text → Loaded F → Exec (Db F) Failure (Unit {0})
  unfolding on_json ack
  on_fill connected subject no_json = ack
  on_fill connected subject no_object = on_json connected subject no_object
  on_fill connected subject (object fill) = on_json connected subject (object fill)
