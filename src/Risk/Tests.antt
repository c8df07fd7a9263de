-- ===== src/Risk/Tests.antt =====
-- Fills of the risk service on a small book, with whole numbers for amounts.
use exec_relay.Base.{
  ℕ, ◌+◌, ◌-◌, ◌*◌, ◌/◌, ◌≡◌, refl, not, ◌&&◌, true, false, some, [], ◌∷◌, ◌==◌, ltb,
}
use exec_relay.Base.Text.{Text, codes, text_eq, truthy}
use exec_relay.Risk.{active, split_dots, second, third, find, license_of, at_key, on_fill}
use exec_relay.Risk.Tables.{Amounts, Db, Fill, object, no_object}
use exec_relay.Risk.Settled.{IsSettled, on_fill-IsSettled}
use exec_relay.Risk.Exposed.{IsNotional, IsLogged}
use exec_relay.Risk.Positions.{position_at, position_of, on_fill-recorded}

abbrev amounts : Amounts ℕ
amounts = record {
  zero = 0;
  hundred = 100;
  add = λ a b. a + b;
  sub = λ a b. a - b;
  mul = λ a b. a * b;
  div = λ a b. a / b;
  gt = λ a b. ltb b a;
  nonzero = λ a. not (a == 0);
}

abbrev fill : Fill ℕ
fill = record {
  symbol = codes "EURUSD";
  entry_price = some 10;
  current_price = some 12;
  position_size = some 5;
}

abbrev db : Db ℕ
db = record {
  licenses = record { id = 3; active = true } ∷ [];
  instances = record { license_id = 3; instance_key = codes "i" } ∷ [];
  positions = [];
  limits = record { license_id = 3; account_id = codes "a"; max_notional_usd = some 50 } ∷ [];
  drawdowns = [];
  breaches = [];
  alerts = [];
  faults = [];
  acks = 0;
}

abbrev subject : Text
subject = codes "fills.i.a"

on_fill-IsSettled_example : IsSettled (on_fill amounts true subject no_object) db
on_fill-IsSettled_example = on_fill-IsSettled amounts true subject no_object db

on_fill-recorded_example :
    let account = third (split_dots subject) in
    let after = (on_fill amounts true subject (object fill) db).1 in
    (position_at 3 account fill.symbol after.positions ≡ some (position_of 3 account fill 5))
    × (position_at 3 (codes "b") (codes "EURUSD") after.positions
        ≡ position_at 3 (codes "b") (codes "EURUSD") db.positions)
    × (total : ℕ) × IsNotional amounts 3 account after.positions total
    × IsLogged amounts 3 account total db.limits db.breaches after.breaches
on_fill-recorded_example =
    on_fill-recorded amounts subject 3 fill 5 db 3 (codes "b") (codes "EURUSD") refl known named
      refl another
  where
    known : license_of (second (split_dots subject)) db ≡ some 3
    known = unfold license_of find active second split_dots text_eq in refl

    named : (truthy fill.symbol && truthy (third (split_dots subject))) ≡ true
    named = unfold truthy third split_dots in refl

    another :
        at_key 3 (codes "b") (codes "EURUSD") (position_of 3 (third (split_dots subject)) fill 5)
        ≡ false
    another = unfold at_key third split_dots text_eq in refl
