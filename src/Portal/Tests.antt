-- ===== src/Portal/Tests.antt =====
-- Requests and exports of the portal on small tables.
use exec_relay.Base.{
  ℕ, ◌≡◌, refl, true, Option, none, some, [], ◌∷◌, ◌++◌, ◌==◌, keep, update_where, arith,
}
use exec_relay.Base.Text.{Text, codes, truthy}
use exec_relay.Base.Exec.{ok}
use exec_relay.Portal.Tables.{LicenseRow, Db, first}
use exec_relay.Portal.Licenses.{
  owned_by, instance_key_ok, key_char, key_rest, rotate_hmac, confirm_rotation, start_rotation,
  route,
}
use exec_relay.Portal.Licenses.Isolation.{IsUntouched, route-IsUntouched}
use exec_relay.Portal.Licenses.Rotation.{in_force, rotation-confirmed}
use exec_relay.Portal.Csv.{FillRow, csv_row, csv_fields}
use exec_relay.Portal.Csv.Reader.{at_start, read_row, read_row-csv_row}

-- Every text is the identifier 7.
abbrev seven : Text → Option ℕ
seven t = some 7

abbrev own : LicenseRow
own = record {
  id = 7;
  user_id = 1;
  license_key = codes "lic";
  hmac_secret = codes "old";
  pending_hmac_secret = none;
  active = true;
}

abbrev other : LicenseRow
other = record own { id = 8; user_id = 2 }

abbrev db : Db
db = record {
  licenses = own ∷ other ∷ [];
  instances =
      record {
        id = 3;
        license_id = 8;
        instance_key = codes "i";
        platform = codes "mt5";
        active = true;
      }
      ∷ [];
  audit_log = [];
}

route-IsUntouched_example :
    IsUntouched 1 db (route seven true (start_rotation (codes "x") (codes "new")) 1 db).1
route-IsUntouched_example =
    route-IsUntouched seven true (start_rotation (codes "x") (codes "new")) 1 db
      ((λ e. omega (arith, e), tt), (tt, tt))

rotation-confirmed_example :
    let started = rotate_hmac seven true (codes "x") (codes "new") 1 db in
    let ended = confirm_rotation seven true (codes "x") 1 started.1 in
    (started.0 ≡ ok (codes "new"))
    × (ended.0 ≡ ok tt)
    × (ended.1.licenses ≡ update_where (λ l. l.id == 7) (in_force (codes "new")) db.licenses)
    × (ended.1.instances ≡ db.instances)
rotation-confirmed_example =
    rotation-confirmed seven true (codes "x") (codes "new") 7 1 own db refl own_found named
  where
    named : truthy (codes "new") ≡ true
    named = unfold truthy in refl

    own_found : first (keep (owned_by 7 1) db.licenses) ≡ some own
    own_found = unfold first keep owned_by in refl

abbrev fill_row : FillRow
fill_row = record {
  fill_id = codes "1";
  trace_id = none;
  broker_order_id = some (codes "a,b");
  status = codes "said \"no\"";
  error_code = none;
  error_message = some (10 ∷ []);
  license_key = codes "lic";
  instance_key = none;
  created_at = codes "t";
  payload = some (codes "{}");
}

read_row-csv_row_example :
    read_row at_start [] (csv_row fill_row ++ codes "2,") ≡ (csv_fields fill_row, codes "2,")
read_row-csv_row_example = read_row-csv_row fill_row (codes "2,")

-- A line feed may end an instance key.
newline_key : instance_key_ok (codes "ea-1" ++ 10 ∷ []) ≡ true
unfolding instance_key_ok key_char key_rest
newline_key = refl
