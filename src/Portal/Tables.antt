-- ===== src/Portal/Tables.antt =====
-- The tables that the license routes of apps/portal-api/app.py write, and the answers of a request
-- that fails.
use exec_relay.Base.{ℕ, Bool, Option, none, some, List, [], ◌∷◌, ◌++◌, if◌then◌else◌}
use exec_relay.Base.Text.{Text}
use exec_relay.Base.Exec.{Exec, pure, raise, modify}

pub record LicenseRow : Type 0 where
  pub id : ℕ
  pub user_id : ℕ
  pub license_key : Text
  pub hmac_secret : Text
  pub pending_hmac_secret : Option Text
  pub active : Bool

pub record InstanceRow : Type 0 where
  pub id : ℕ
  pub license_id : ℕ
  pub instance_key : Text
  pub platform : Text
  pub active : Bool

pub record AuditRow : Type 0 where
  pub actor_user_id : ℕ
  pub action : Text

pub record Db : Type 0 where
  pub licenses : List LicenseRow
  pub instances : List InstanceRow
  pub audit_log : List AuditRow

-- The status of an HTTPException; `internal` is an exception that no handler catches.
pub data HttpError : Type 0 where
  bad_request not_found conflict unprocessable internal : HttpError

abbrev pub Route : Type 0 → Type 0
Route A = Exec Db HttpError A

-- The first row of a result.
unfoldable pub first : {A : Type 0} → List A → Option A
first [] = none
first (a ∷ rows) = some a

-- if row is None: raise HTTPException(404)
unfoldable pub or_404 : {A : Type 0} → Option A → Route A
or_404 none = raise not_found
or_404 (some a) = pure a

-- _audit(pool, actor_id, action, …), where `works` says whether the insert does; a failure is logged
unfoldable pub audit : Bool → ℕ → Text → Route (Unit {0})
audit works actor action =
    if works
    then modify (λ db. record db {
      audit_log = db.audit_log ++ record { actor_user_id = actor; action = action } ∷ [];
    })
    else pure tt
