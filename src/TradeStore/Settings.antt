-- ===== src/TradeStore/Settings.antt =====
-- The `meta` table of scripts/_tradestore.py: heartbeats, the dry-run switch and the symbol map.
use exec_relay.Base.{
  ◌≡◌, refl, ◌∙◌, Bool, true, false, ◌&&◌, Option, none, some, List, [], ◌∷◌, arith, if◌then◌else◌,
}
use exec_relay.Base.Text.{
  Text, codes, text_eq, text_eq_iff, truthy, lower, upper, strip, is_space, mem,
}
use exec_relay.TradeStore.Db.{Cell, plain, json, Db, guarded}

module _ {V : Type 0} where
  unfoldable pub lookup : Text → List (Text × V) → Option V
  lookup k [] = none
  lookup k ((j, v) ∷ m) = if text_eq j k then some v else lookup k m

  -- d[k] = v, and INSERT … ON CONFLICT(key) DO UPDATE SET value=excluded.value
  unfoldable pub insert : Text → V → List (Text × V) → List (Text × V)
  insert k v [] = (k, v) ∷ []
  insert k v ((j, w) ∷ m) = if text_eq j k then (j, v) ∷ m else (j, w) ∷ insert k v m

  -- d.pop(k)
  unfoldable pub remove : Text → List (Text × V) → List (Text × V)
  remove k [] = []
  remove k ((j, w) ∷ m) = let rest = remove k m in if text_eq j k then rest else (j, w) ∷ rest

  pub lookup-insert :
      (k j : Text) (v : V) (m : List (Text × V))
      → lookup j (insert k v m) ≡ (if text_eq k j then some v else lookup j m)
  unfolding lookup insert
  lookup-insert k j v [] = refl
  lookup-insert k j v ((i, w) ∷ m) =
      ground (arith, text_eq_iff k j, text_eq_iff i k, text_eq_iff i j, lookup-insert k j v m)

module _ {F : Type 0} where
  -- meta_set(key, value)
  unfoldable pub meta_set : Bool → Text → Cell → Db F → Db F
  unfolding insert
  meta_set works key value = guarded works λ db. record db { meta = insert key value db.meta }

  -- query("SELECT value FROM meta WHERE key=?"); a query that fails returns no rows
  unfoldable pub meta_get : Bool → Text → Db F → Option Cell
  unfolding lookup
  meta_get works key db = if works then lookup key db.meta else none

abbrev pub trueish : List Text
trueish = codes "1" ∷ codes "true" ∷ codes "yes" ∷ codes "on" ∷ []

abbrev pub falseish : List Text
falseish = codes "0" ∷ codes "false" ∷ codes "no" ∷ codes "off" ∷ []

unfoldable pub read_switch : Text → Bool → Bool
read_switch val default =
    if mem val trueish then true else if mem val falseish then false else default

unfoldable pub switch_of : Option Cell → Bool → Bool
unfolding read_switch
switch_of none default = default
switch_of (some (plain t)) default = read_switch (lower (strip t)) default
switch_of (some (json m)) default = default

abbrev pub dry_run_key : Text
dry_run_key = codes "dry_run"

abbrev pub dry_run_ts_key : Text
dry_run_ts_key = codes "dry_run_updated_ts"

lookup-stored :
    (c : Cell) (now : Text) (m : List (Text × Cell))
    → lookup dry_run_key (insert dry_run_ts_key (plain now) (insert dry_run_key c m)) ≡ some c
unfolding text_eq
lookup-stored c now m =
    lookup-insert dry_run_ts_key dry_run_key (plain now) (insert dry_run_key c m)
    ∙ lookup-insert dry_run_key dry_run_key c m

switch_of-stored :
    (enabled default : Bool)
    → switch_of (some (plain (if enabled then codes "1" else codes "0"))) default ≡ enabled
unfolding switch_of lower strip mem text_eq is_space
switch_of-stored true default = refl
switch_of-stored false default = refl

module _ {F : Type 0} where
  -- get_dry_run(default)
  unfoldable pub get_dry_run : Bool → Bool → Db F → Bool
  unfolding meta_get switch_of
  get_dry_run works default db = switch_of (meta_get works dry_run_key db) default

  -- set_dry_run(enabled), at the time `now`
  unfoldable pub set_dry_run : Bool → Bool → Text → Db F → Db F
  unfolding insert
  set_dry_run works enabled now = guarded works λ db. record db {
    meta =
        insert dry_run_ts_key (plain now)
          (insert dry_run_key (plain (if enabled then codes "1" else codes "0")) db.meta);
  }

  -- What the operator sets is what is read back, whatever the default; where the write or the read
  -- fails, the earlier state or the default is read.
  pub get_dry_run-set_dry_run :
      (writes reads default enabled : Bool) (now : Text) (db : Db F)
      → get_dry_run reads default (set_dry_run writes enabled now db)
        ≡ (if reads then (if writes then enabled else get_dry_run true default db) else default)
  unfolding get_dry_run set_dry_run
  get_dry_run-set_dry_run writes false default enabled now db = refl
  get_dry_run-set_dry_run false true default enabled now db = refl
  get_dry_run-set_dry_run true true default enabled now db =
      rw (lookup-stored (plain (if enabled then codes "1" else codes "0")) now db.meta)
        (switch_of-stored enabled default)

-- One step of the comprehension that keeps the entries whose two texts are not blank.
unfoldable pub add_alias : Text × Text → List (Text × Text) → List (Text × Text)
add_alias (k, v) m =
    if truthy (strip k) && truthy (strip v) then insert (upper (strip k)) (strip v) m else m

unfoldable pub clean_onto : List (Text × Text) → List (Text × Text) → List (Text × Text)
unfolding add_alias
clean_onto [] m = m
clean_onto (e ∷ rest) m = clean_onto rest (add_alias e m)

abbrev pub symbol_map_key : Text
symbol_map_key = codes "symbol_map"

unfoldable pub map_of : Option Cell → List (Text × Text)
unfolding clean_onto
map_of none = []
map_of (some (plain t)) = []
map_of (some (json m)) = clean_onto m []

module _ {F : Type 0} where
  -- get_symbol_map(); a text that is no JSON object gives {}
  unfoldable pub get_symbol_map : Bool → Db F → List (Text × Text)
  unfolding meta_get map_of
  get_symbol_map works db = map_of (meta_get works symbol_map_key db)

  -- set_symbol_map(mapping), at the time `now`
  unfoldable pub set_symbol_map : Bool → List (Text × Text) → Text → Db F → Db F
  unfolding insert clean_onto
  set_symbol_map works mapping now = guarded works λ db. record db {
    meta =
        insert (codes "symbol_map_updated_ts") (plain now)
          (insert symbol_map_key (json (clean_onto mapping [])) db.meta);
  }
