-- ===== src/Risk/Settled.antt =====
-- Every message of apps/risk/app.py is acknowledged once.
use exec_relay.Base.{
  ℕ, suc, ◌≡◌, refl, ap, Bool, true, false, not, ◌&&◌, Option, none, some, List, [], ◌∷◌,
}
use exec_relay.Base.Text.{Text, truthy}
use exec_relay.Base.Exec.{Exec, Result, ok, err, pure, raise, modify, catch, ◌>>=◌, ◌>>◌}
use exec_relay.Base.Exec.Keeps.{
  Keeps, Keeps-pure, Keeps-raise, Keeps-gets, Keeps-if, Keeps-catch, Keeps-bind,
}
use exec_relay.Risk.{
  split_dots, second, third, next_fault, statement, ack, update_position, check_exposure_limits,
  report_breach, apply_fill, process_fill, on_json, on_fill,
}
use exec_relay.Risk.Tables.{
  Amounts, Db, Fill, Loaded, no_json, no_object, object, Exposure, Failure, attribute,
}

module _ {F : Type 0} where
  -- No message is acknowledged.
  abbrev Quiet : {A : Type 0} → ℕ → Exec (Db F) Failure A → Type 0
  Quiet n = Keeps (λ db. db.acks ≡ n)

  Quiet-statement : (n : ℕ) → Quiet n statement
  unfolding statement
  Quiet-statement n = record { at = λ db h. by_faults db.faults db h }
    where
      by_faults : (faults : List Bool) (db : Db F) → db.acks ≡ n → (next_fault faults db).1.acks ≡ n
      by_faults [] db h = h
      by_faults (false ∷ faults) db h = h
      by_faults (true ∷ faults) db h = h

  -- Returns, and acknowledges once.
  abbrev pub IsSettled : Exec (Db F) Failure (Unit {0}) → Db F → Type 0
  IsSettled m db = ((m db).0 ≡ ok tt) × ((m db).1.acks ≡ suc db.acks)

  caught_ack :
      (m : Exec (Db F) Failure (Unit {0})) (db : Db F)
      → ((n : ℕ) → Quiet n m)
      → IsSettled (catch m (λ e. pure tt) >> ack) db
  unfolding catch pure ack ◌>>=◌
  caught_ack m db quiet = by_result (m db).0 (m db).1 ((quiet db.acks).at db refl)
    where
      by_result :
          (r : Result Failure (Unit {0})) (after : Db F)
          → after.acks ≡ db.acks
          → IsSettled (catch (λ d. (r, after)) (λ e. pure tt) >> ack) db
      by_result (ok a) after h = (refl, ap suc h)
      by_result (err e) after h = (refl, ap suc h)

module _ {F : Type 0} (am : Amounts F) where
  Quiet-update_position :
      (n license : ℕ) (account symbol : Text) (size entry current : Option F)
      → Quiet n (update_position license account symbol size entry current)
  unfolding update_position modify
  Quiet-update_position n license account symbol none entry current =
      Keeps-bind _ _ (Quiet-statement n) (λ u. Keeps-raise _)
  Quiet-update_position n license account symbol (some size) entry current =
      Keeps-bind _ _ (Quiet-statement n) (λ u. record { at = λ db h. h })

  Quiet-check_exposure_limits :
      (n license : ℕ) (account : Text) → Quiet n (check_exposure_limits am license account)
  unfolding check_exposure_limits
  Quiet-check_exposure_limits n license account = Keeps-bind _ _ (Quiet-statement n) (λ u.
      Keeps-bind _ _ (Keeps-gets _)
        (λ positions. Keeps-bind _ _ (Quiet-statement n) (λ u. Keeps-gets _)))

  Quiet-report_breach :
      (n license : ℕ) (account : Text) (exposure : Exposure F)
      → Quiet n (report_breach am license account exposure)
  unfolding report_breach modify
  Quiet-report_breach n license account exposure = Keeps-bind _ _ (Quiet-statement n) (λ u.
      Keeps-bind _ _ record { at = λ db h. h }
        (λ u.
          Keeps-catch _ _ (Keeps-bind _ _ (Quiet-statement n) (λ u. record { at = λ db h. h }))
            (λ e. Keeps-pure tt)))

  Quiet-apply_fill :
      (n license : ℕ) (account : Text) (fill : Fill F)
      → Quiet n (apply_fill am license account fill)
  unfolding apply_fill
  Quiet-apply_fill n license account fill =
      Keeps-if (not (truthy fill.symbol && truthy account)) _ _ (λ e. Keeps-pure tt)
        (λ e.
          Keeps-bind _ _
            (Quiet-update_position n license account fill.symbol fill.position_size fill.entry_price
              fill.current_price)
            (λ u. Keeps-bind _ _ (Quiet-check_exposure_limits n license account) (λ exposure.
              Keeps-if exposure.breached _ _ (λ e. Quiet-report_breach n license account exposure)
                (λ e. Keeps-pure tt))))

  Quiet-process_fill :
      (n : ℕ) (instance_id account : Text) (loaded : Loaded F)
      → Quiet n (process_fill am instance_id account loaded)
  unfolding process_fill
  Quiet-process_fill n instance_id account loaded =
      Keeps-bind _ _ (Quiet-statement n)
        (λ u. Keeps-bind _ _ (Keeps-gets _) (λ license. by_license license loaded))
    where
      by_license :
          (license : Option ℕ) (loaded : Loaded F)
          → Keeps
              (λ (db : Db F). db.acks ≡ n)
              (elim license as (λ _. Exec (Db F) Failure (Unit {0})) [
                | none ↦ pure tt
                | some id ↦ elim loaded as (λ _. Exec (Db F) Failure (Unit {0})) [
                  | no_json ↦ pure tt
                  | no_object ↦ raise attribute
                  | object fill ↦ apply_fill am id account fill
                ]
              ])
      by_license none loaded = Keeps-pure tt
      by_license (some id) no_json = Keeps-pure tt
      by_license (some id) no_object = Keeps-raise _
      by_license (some id) (object fill) = Quiet-apply_fill n id account fill

  on_json-IsSettled :
      (connected : Bool) (subject : Text) (loaded : Loaded F) (db : Db F)
      → IsSettled (on_json am connected subject loaded) db
  unfolding on_json ack
  on_json-IsSettled false subject loaded db = (refl, refl)
  on_json-IsSettled true subject loaded db =
      caught_ack _ db (λ n.
        Quiet-process_fill n (second (split_dots subject)) (third (split_dots subject)) loaded)

  -- Whatever the message, the tables and the statements that fail, on_fill returns and acknowledges the
  -- message exactly once.
  pub on_fill-IsSettled :
      (connected : Bool) (subject : Text) (loaded : Loaded F) (db : Db F)
      → IsSettled (on_fill am connected subject loaded) db
  unfolding on_fill ack
  on_fill-IsSettled connected subject no_json db = (refl, refl)
  on_fill-IsSettled connected subject no_object db =
      on_json-IsSettled connected subject no_object db
  on_fill-IsSettled connected subject (object fill) db =
      on_json-IsSettled connected subject (object fill) db
