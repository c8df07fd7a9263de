-- ===== src/Shim/Close/Judged.antt =====
-- Which leg of a signal scripts/ea_shim.py takes a close at the take-profit for.
use exec_relay.Base.{◌≡◌, refl, Bool, true, false, some, List, [], ◌∷◌, arith, ◌↔◌, Some}
use exec_relay.Base.Text.{Text, codes, contains, lower, text_eq}
use exec_relay.Shim.Terminal.{Side, long, short}
use exec_relay.TradeStore.Siblings.{Sibling}
use exec_relay.Shim.Floats.{Floats}
use exec_relay.Shim.Close.{
  classify_tp_close, own_row, Kind, half, full, judge, beats, kind_by, kind_of, profit_is_up,
  row_command, further,
}

kind_iff :
    (k : Kind) (P : Type 0)
    → ((k ≡ half) ↔ P)
    → ((some k ≡ some half) ↔ P) × ((some k ≡ some full) ↔ ¬ P)
kind_iff half P h = ground (arith, h)
kind_iff full P h = ground (arith, h)

-- The way a leg's command points: a command that has "buy" in it, whatever the case of its letters, is a
-- long one, and any other that has "sell" in it a short one.
abbrev pub Points : Side → Text → Type 0
Points long command = contains (codes "buy") (lower command) ≡ true
Points short command =
    (contains (codes "buy") (lower command) ≡ false)
    × (contains (codes "sell") (lower command) ≡ true)

goes_up : Side → Bool
goes_up long = true
goes_up short = false

module _ {F : Type 0} ⦃fl : Floats F⦄ where
  open fl use {lt}

  -- Further in the profit direction: above for a long leg, below for a short one.
  abbrev pub IsBeyond : Side → F → F → Type 0
  IsBeyond long own_tp tp = lt own_tp tp ≡ true
  IsBeyond short own_tp tp = lt tp own_tp ≡ true

  -- A leg of another ticket whose take-profit lies further in the profit direction.
  abbrev pub IsFurtherLeg : Text → Side → F → Sibling F → Type 0
  IsFurtherLeg id side own_tp r =
      (text_eq r.broker_order_id id ≡ false) × (tp : F) × (r.tp ≡ some tp) × IsBeyond side own_tp tp

  beats_iff :
      (id : Text) (side : Side) (own_tp : F) (r : Sibling F)
      → (beats id (goes_up side) own_tp r ≡ true) ↔ IsFurtherLeg id side own_tp r
  unfolding beats further goes_up
  beats_iff id long own_tp r = ground (arith)
  beats_iff id short own_tp r = ground (arith)

  judge_iff :
      (id : Text) (side : Side) (own_tp : F) (rows : List (Sibling F))
      → (judge id (goes_up side) own_tp rows ≡ half) ↔ Some (IsFurtherLeg id side own_tp) rows
  unfolding judge
  judge_iff id side own_tp [] = ground (arith)
  judge_iff id side own_tp (r ∷ rows) =
      ground (arith, beats_iff id side own_tp r, judge_iff id side own_tp rows)

  row_command-Points :
      (side : Side) (own : Sibling F) (command : Text)
      → own.command ≡ some command
      → Points side command
      → profit_is_up (row_command own) ≡ some (goes_up side)
  unfolding profit_is_up row_command goes_up
  row_command-Points long own command c p = rw (c, p) refl
  row_command-Points short own command c p = rw (c, p.0, p.1) refl

  classified :
      (id : Text) (rows : List (Sibling F)) (own : Sibling F) (own_tp : F) (up : Bool)
      → own_row id rows ≡ some own
      → own.tp ≡ some own_tp
      → profit_is_up (row_command own) ≡ some up
      → classify_tp_close id rows ≡ some (judge id up own_tp rows)
  unfolding classify_tp_close kind_of kind_by
  classified id rows own own_tp up o e u = rw (o, e, u) refl

  -- A close at the TP of a leg with a take-profit and a buy or sell command counts as the half leg exactly
  -- when another leg of the signal has a take-profit above its own, for a buy, or below it, for a sell,
  -- and as the full leg otherwise.
  pub classify_tp_close_iff :
      (id : Text) (rows : List (Sibling F)) (own : Sibling F) (own_tp : F) (command : Text)
      (side : Side)
      → own_row id rows ≡ some own
      → own.tp ≡ some own_tp
      → own.command ≡ some command
      → Points side command
      → ((classify_tp_close id rows ≡ some half) ↔ Some (IsFurtherLeg id side own_tp) rows)
        × ((classify_tp_close id rows ≡ some full) ↔ ¬ Some (IsFurtherLeg id side own_tp) rows)
  classify_tp_close_iff id rows own own_tp command side o e c p =
      rw
        (classified id rows own own_tp (goes_up side) o e (row_command-Points side own command c p))
        (kind_iff (judge id (goes_up side) own_tp rows) _ (judge_iff id side own_tp rows))
