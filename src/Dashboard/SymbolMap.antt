-- ===== src/Dashboard/SymbolMap.antt =====
-- `update_symbol_map` of scripts/trade_dashboard.py: the aliases of broker symbols.
use exec_relay.Base.{
  ℕ, ◌-◌, ◌≡◌, ◌↔◌, refl, Bool, true, false, not, ◌&&◌, ◌||◌, Option, none, some, List, [], ◌∷◌,
  ◌==◌, leb, if◌then◌else◌, ◌⊎◌,
}
use exec_relay.Base.Text.{Text, strip, upper, text_eq}
use exec_relay.TradeStore.Db.{Db}
use exec_relay.TradeStore.Settings.{lookup, insert, remove, get_symbol_map, set_symbol_map}
use exec_relay.Dashboard.DryRun.{Field, is_true}

-- str(payload.get(key) or "") for two keys, and the value of the third.
pub record MapPayload : Type 0 where
  pub alias : Text
  pub broker : Text
  pub delete : Field

-- An entry of the control audit log: the alias, the target that was removed and `ok`, or the alias, the
-- target that is set, the earlier one and `ok`.
pub data MapAudit : Type 0 where
  symbol_map_delete : (alias broker : Text) (success : Bool) → MapAudit
  symbol_map_set : (alias broker : Text) (before : Option Text) (success : Bool) → MapAudit

-- The status, whether the body says ok, the store and the entry of the audit log.
pub record MapOutcome (F : Type 0) : Type 0 where
  pub status : ℕ
  pub success : Bool
  pub db : Db F
  pub audit : Option MapAudit

-- A letter, a digit or one of . _ # -
unfoldable pub symbol_char : ℕ → Bool
symbol_char c =
    (leb b'A' c && leb c b'Z')
    || (leb b'a' c && leb c b'z')
    || (leb b'0' c && leb c b'9')
    || c == b'.'
    || c == b'_'
    || c == b'#'
    || c == b'-'

-- {1,24}$, where `room` characters may come; $ matches in front of a line feed at the end too
unfoldable pub symbol_rest : ℕ → Text → Bool
unfolding symbol_char
symbol_rest room [] = true
symbol_rest room (c ∷ []) = c == 10 || (symbol_char c && leb 1 room)
symbol_rest room (c ∷ d ∷ s) = symbol_char c && (leb 1 room && symbol_rest (room - 1) (d ∷ s))

-- _SYMBOL_NAME_RE.match(text)
unfoldable pub symbol_ok : Text → Bool
unfolding symbol_char symbol_rest
symbol_ok [] = false
symbol_ok (c ∷ s) = symbol_char c && symbol_rest 23 s

-- after.get(alias) == broker, and alias not in after where nothing is requested
unfoldable pub maps_to : Option Text → Option Text → Bool
maps_to none none = true
maps_to none (some t) = false
maps_to (some s) none = false
maps_to (some s) (some t) = text_eq s t

module _ {F : Type 0} (works : Bool) (now : Text) where
  unfoldable pub map_refused : ℕ → Db F → MapOutcome F
  map_refused status db = record { status = status; success = false; db = db; audit = none }

  -- The map is written, read again and compared with what was asked for.
  unfoldable pub written :
      Text → Option Text → ℕ → (Bool → MapAudit) → List (Text × Text) → Db F → MapOutcome F
  unfolding lookup get_symbol_map set_symbol_map maps_to
  written alias requested broken entry mapping db =
      let after = set_symbol_map works mapping now db in
      let success = maps_to (lookup alias (get_symbol_map works after)) requested in
      record {
        status = if success then 200 else broken;
        success = success;
        db = after;
        audit = some (entry success);
      }

  -- The branch of a deletion answers 200 even where the alias is still there.
  unfoldable pub delete_alias : Text → Db F → MapOutcome F
  unfolding lookup remove get_symbol_map map_refused written
  delete_alias alias db =
      let current = get_symbol_map works db in
      elim (lookup alias current) [
        | none ↦ map_refused 404 db
        | some removed ↦
            written alias none 200 (symbol_map_delete alias removed) (remove alias current) db
      ]

  unfoldable pub set_alias : Text → Text → Db F → MapOutcome F
  unfolding insert get_symbol_map map_refused written symbol_ok
  set_alias alias broker db =
      let current = get_symbol_map works db in
      if not (symbol_ok broker)
      then map_refused 400 db
      else written alias (some broker) 500 (symbol_map_set alias broker (lookup alias current))
          (insert alias broker current) db

  -- update_symbol_map(payload)
  unfoldable pub update_symbol_map : MapPayload → Db F → MapOutcome F
  unfolding map_refused delete_alias set_alias symbol_ok is_true
  update_symbol_map payload db =
      let alias = upper (strip payload.alias) in
      if not (symbol_ok alias)
      then map_refused 400 db
      else if is_true payload.delete
      then delete_alias alias db
      else set_alias alias (strip payload.broker) db

  abbrev pub target : Text → Db F → Option Text
  target alias db = lookup alias (get_symbol_map works db)

  -- Nothing is done, or the entry and the answer tell whether the store maps the alias no longer, or to
  -- the target, where `deletes` says what was asked for.
  abbrev pub IsAuditedAs : (alias broker : Text) (deletes : Bool) → MapOutcome F → Db F → Type 0
  IsAuditedAs alias broker deletes out db =
      (((symbol_ok alias ≡ false)
          ⊎ ((deletes ≡ true) × (target alias db ≡ none))
          ⊎ ((deletes ≡ false) × (symbol_ok broker ≡ false)))
        × (out.audit ≡ none)
        × (out.db ≡ db)
        × (out.success ≡ false))
      ⊎ ((deletes ≡ true)
          × (removed : Text) × (target alias db ≡ some removed)
          × (out.audit ≡ some (symbol_map_delete alias removed out.success))
          × ((out.success ≡ true) ↔ (target alias out.db ≡ none)))
      ⊎ ((deletes ≡ false)
          × (out.audit ≡ some (symbol_map_set alias broker (target alias db) out.success))
          × ((out.success ≡ true) ↔ (target alias out.db ≡ some broker)))

  abbrev pub IsAudited : MapPayload → MapOutcome F → Db F → Type 0
  IsAudited payload =
      IsAuditedAs (upper (strip payload.alias)) (strip payload.broker) (is_true payload.delete)

  module _ (payload : MapPayload) (db : Db F) where
    refused :
        symbol_ok (upper (strip payload.alias)) ≡ false
        → update_symbol_map payload db
          ≡ record { status = 400; success = false; db = db; audit = none }
    unfolding update_symbol_map map_refused
    refused e = rw e refl

    deletes :
        symbol_ok (upper (strip payload.alias)) ≡ true
        → is_true payload.delete ≡ true
        → update_symbol_map payload db ≡ delete_alias (upper (strip payload.alias)) db
    unfolding update_symbol_map
    deletes e d = rw (e, d) refl
