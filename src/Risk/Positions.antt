-- ===== src/Risk/Positions.antt =====
-- What a fill that apps/risk/app.py applies leaves in the tables.
use exec_relay.Base.{
  ℕ, suc, ◌≡◌, refl, sym, ap, true, false, ◌&&◌, Option, some, List, [], ◌∷◌, ◌++◌, ==_iff, arith,
  append-nil, Bool-cases, inl, inr,
}
use exec_relay.Base.Text.{Text, truthy, text_eq, text_eq_refl, text_eq_iff}
use exec_relay.Base.Exec.{Exec, Result, ok, err, pure, gets, modify, catch, ◌>>=◌, ◌>>◌}
use exec_relay.Risk.{
  split_dots, second, third, find, next_fault, statement, ack, license_of, at_key, upsert_position,
  update_position, exposure_of, check_exposure_limits, report_breach, apply_fill, process_fill,
  on_json, on_fill, total_notional, open_positions,
}
use exec_relay.Risk.Exposed.{
  breach_rows, IsNotional, IsLogged, total_notional-IsNotional, exposure_of-IsLogged,
}
use exec_relay.Risk.Tables.{Amounts, PositionRow, Db, Fill, object, Failure}

module _ {F : Type 0} where
  -- The row of an account and a symbol.
  unfoldable pub position_at : ℕ → Text → Text → List (PositionRow F) → Option (PositionRow F)
  unfolding find at_key
  position_at license account symbol = find (at_key license account symbol)

  at_key_refl : (p : PositionRow F) → at_key p.license_id p.account_id p.symbol p ≡ true
  unfolding at_key
  at_key_refl p =
      ground
        (arith, ==_iff p.license_id p.license_id, text_eq_refl p.account_id, text_eq_refl p.symbol)

  position_at-upsert_position :
      (new : PositionRow F) (rows : List (PositionRow F))
      → position_at new.license_id new.account_id new.symbol (upsert_position new rows) ≡ some new
  unfolding position_at upsert_position find
  position_at-upsert_position new [] = rw (at_key_refl new) refl
  position_at-upsert_position new (p ∷ rows) =
      ground (arith, at_key_refl new, position_at-upsert_position new rows)

  -- Two keys of one row are the same key.
  one_key :
      (new p : PositionRow F) (license : ℕ) (account symbol : Text)
      → at_key license account symbol new ≡ false
      → at_key new.license_id new.account_id new.symbol p ≡ true
      → at_key license account symbol p ≡ false
  unfolding at_key
  one_key new p license account symbol other here = ground (
    arith,
    other,
    here,
    text_eq_iff p.account_id new.account_id,
    text_eq_iff p.symbol new.symbol,
    ap (λ t. text_eq t account),
  )

  position_at-upsert_position_other :
      (new : PositionRow F) (license : ℕ) (account symbol : Text) (rows : List (PositionRow F))
      → at_key license account symbol new ≡ false
      → position_at license account symbol (upsert_position new rows)
        ≡ position_at license account symbol rows
  unfolding position_at upsert_position find
  position_at-upsert_position_other new license account symbol [] h = rw h refl
  position_at-upsert_position_other new license account symbol (p ∷ rows) h = ground (
    arith,
    h,
    one_key new p license account symbol h,
    position_at-upsert_position_other new license account symbol rows h,
  )

  -- The row that a fill sets.
  abbrev pub position_of : ℕ → Text → Fill F → F → PositionRow F
  position_of license account fill size = record {
    license_id = license;
    account_id = account;
    symbol = fill.symbol;
    position_size = size;
    entry_price = fill.entry_price;
    current_price = fill.current_price;
  }

module _ {F : Type 0} (am : Amounts F) where
  -- The tables after a fill, while no statement fails.
  abbrev pub IsRecorded : ℕ → Text → Fill F → F → Db F → Db F → Type 0
  IsRecorded license account fill size db after =
      let positions = upsert_position (position_of license account fill size) db.positions in
      (after.positions ≡ positions)
      × (after.breaches
          ≡ db.breaches
            ++ breach_rows license account (exposure_of am license account positions db.limits))

  apply_fill-IsRecorded :
      (license : ℕ) (account : Text) (fill : Fill F) (size : F) (db : Db F)
      → db.faults ≡ []
      → (truthy fill.symbol && truthy account) ≡ true
      → fill.position_size ≡ some size
      → ((apply_fill am license account fill db).0 ≡ ok tt)
        × IsRecorded license account fill size db (apply_fill am license account fill db).1
  unfolding apply_fill update_position check_exposure_limits report_breach statement next_fault
      modify gets pure catch ◌>>=◌
  apply_fill-IsRecorded license account fill size db quiet named sized =
      let exposure =
        exposure_of am license account
          (upsert_position (position_of license account fill size) db.positions) db.limits in
      elim (Bool-cases exposure.breached) [
        | inl e ↦ rw (named, sized, quiet, e) (refl, (refl, refl))
        | inr e ↦ rw (named, sized, quiet, e) (refl, (refl, sym (append-nil db.breaches)))
      ]

  process_fill-IsRecorded :
      (instance_id account : Text) (license : ℕ) (fill : Fill F) (size : F) (db : Db F)
      → db.faults ≡ []
      → license_of instance_id db ≡ some license
      → (truthy fill.symbol && truthy account) ≡ true
      → fill.position_size ≡ some size
      → ((process_fill am instance_id account (object fill) db).0 ≡ ok tt)
        × IsRecorded license account fill size db
            (process_fill am instance_id account (object fill) db).1
  unfolding process_fill statement next_fault gets ◌>>=◌
  process_fill-IsRecorded instance_id account license fill size db quiet known named sized =
      rw (quiet, known) (apply_fill-IsRecorded license account fill size _ refl named sized)

  handled :
      (m : Exec (Db F) Failure (Unit {0})) (db : Db F)
      → (m db).0 ≡ ok tt
      → ((catch m (λ e. pure tt) >> ack) db).1 ≡ record (m db).1 { acks = suc (m db).1.acks }
  unfolding catch ack pure ◌>>=◌
  handled m db = by_result (m db).0 (m db).1
    where
      by_result :
          (r : Result Failure (Unit {0})) (after : Db F)
          → r ≡ ok tt
          → ((catch (λ d. (r, after)) (λ e. pure tt) >> ack) db).1
            ≡ record after { acks = suc after.acks }
      by_result (ok a) after e = refl
      by_result (err c) after e = ground (arith, e)

  -- While no statement fails, a fill of an instance with an active license, with a symbol, an account and
  -- a size, sets the position of its account and symbol and leaves every other position as it was. The
  -- breach log gets a row, with the notional of the account's open positions, the new one among them,
  -- when the account has a limit that is not 0 and the notional is above it, and no row otherwise.
  pub on_fill-recorded :
      (subject : Text) (license : ℕ) (fill : Fill F) (size : F) (db : Db F)
      → (license' : ℕ) (account' symbol' : Text) → db.faults ≡ []
      → license_of (second (split_dots subject)) db ≡ some license
      → (truthy fill.symbol && truthy (third (split_dots subject))) ≡ true
      → fill.position_size ≡ some size
      → at_key license' account' symbol'
          (position_of license (third (split_dots subject)) fill size)
        ≡ false
      → let account = third (split_dots subject) in
        let after = (on_fill am true subject (object fill) db).1 in
        (position_at license account fill.symbol after.positions
          ≡ some (position_of license account fill size))
        × (position_at license' account' symbol' after.positions
            ≡ position_at license' account' symbol' db.positions)
        × (total : F) × IsNotional am license account after.positions total
        × IsLogged am license account total db.limits db.breaches after.breaches
  unfolding on_fill on_json ack catch ◌>>=◌
  on_fill-recorded subject license fill size db license' account' symbol' quiet known named sized
        other =
      let account = third (split_dots subject) in
      let (done, (positions, breaches)) =
        process_fill-IsRecorded (second (split_dots subject)) account license fill size db quiet
          known named sized in
      let now = upsert_position (position_of license account fill size) db.positions in
      let ended : (on_fill am true subject (object fill) db).1 ≡ (
          let after = (process_fill am (second (split_dots subject)) account (object fill) db).1 in
          record after { acks = suc after.acks }) =
        handled (process_fill am (second (split_dots subject)) account (object fill)) db done in
      rw (ended, positions, breaches)
        (
          position_at-upsert_position (position_of license account fill size) db.positions,
          position_at-upsert_position_other (position_of license account fill size) license'
              account' symbol' db.positions other,
          total_notional am (open_positions am license account now),
          total_notional-IsNotional am license account now,
          exposure_of-IsLogged am license account now db.limits db.breaches,
        )
