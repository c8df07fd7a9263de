-- ===== src/Dashboard/Closed.antt =====
-- `_group_closed` of scripts/trade_dashboard.py: one row for each closed position.
pub mod Rows
use exec_relay.Base.{
  ℕ, ◌≡◌, refl, Bool, true, false, not, ◌&&◌, ◌||◌, Option, none, some, List, [], ◌∷◌, ◌++◌, map,
  ◌==◌, ltb, if◌then◌else◌,
}
use exec_relay.Base.Text.{Text, codes}
use exec_relay.Shim.Close.{decimal}

-- DEAL_TYPE_BUY, DEAL_TYPE_SELL or another type, such as a balance operation.
pub data DealType : Type 0 where
  buy sell other : DealType

-- DEAL_ENTRY_IN, DEAL_ENTRY_OUT, DEAL_ENTRY_OUT_BY or another one.
pub data DealEntry : Type 0 where
  opening closing closing_by reversing : DealEntry

pub record AccountDeal (F : Type 0) : Type 0 where
  pub deal_type : DealType
  pub entry : DealEntry
  pub position_id : ℕ
  pub time : ℕ
  pub symbol : Text
  pub volume : F
  pub price : F
  pub profit : F
  pub commission : F
  pub swap : F
  pub magic : ℕ
  pub comment : Text

-- The arithmetic of floats: `round(x, 2)`, `round(x, 4)`, `round(x, 5)`, and the test `if x`.
pub record Arith (F : Type 0) : Type 0 where
  pub zero : F
  pub add : F → F → F
  pub mul : F → F → F
  pub div : F → F → F
  pub round2 : F → F
  pub round4 : F → F
  pub round5 : F → F
  pub nonzero : F → Bool

pub data SourceName : Type 0 where
  tradingview other : SourceName

pub record ClosedRow (F : Type 0) : Type 0 where
  pub ticket : Text
  pub time_raw : ℕ
  pub symbol : Text
  pub side : Text
  pub volume : F
  pub close : F
  pub entry : Option F
  pub entry_time_raw : Option ℕ
  pub profit : F
  pub commission : F
  pub swap : F
  pub source : SourceName
  pub comment : Text
  pub magic : ℕ

-- A dict of lists, by position.
abbrev pub Groups : Type 0 → Type 0
Groups F = List (ℕ × List (AccountDeal F))

unfoldable pub is_trade : DealType → Bool
is_trade buy = true
is_trade sell = true
is_trade other = false

module _ {F : Type 0} where
  -- d.entry == mt5.DEAL_ENTRY_IN
  unfoldable pub is_opening : AccountDeal F → Bool
  is_opening d = elim d.entry [ opening ↦ true | _ ↦ false ]

  -- d.entry in out_entries
  unfoldable pub is_closing : AccountDeal F → Bool
  is_closing d = elim d.entry [ closing ↦ true | closing_by ↦ true | _ ↦ false ]

  -- groups.setdefault(k, []).append(d)
  unfoldable pub append_to : ℕ → AccountDeal F → Groups F → Groups F
  append_to k d [] = (k, d ∷ []) ∷ []
  append_to k d ((j, ds) ∷ groups) =
      if k == j then (j, ds ++ d ∷ []) ∷ groups else (j, ds) ∷ append_to k d groups

  -- The loop over the deals; the deals that open and those that close.
  unfoldable pub collect : List (AccountDeal F) → Groups F → Groups F → Groups F × Groups F
  unfolding append_to is_trade is_opening is_closing
  collect [] ins outs = (ins, outs)
  collect (d ∷ ds) ins outs =
      let trade = is_trade d.deal_type in
      collect ds (if trade && is_opening d then append_to d.position_id d ins else ins) (
        if trade && (not (is_opening d) && is_closing d)
        then append_to d.position_id d outs
        else outs)

  -- groups.get(k, [])
  unfoldable pub group_at : ℕ → Groups F → List (AccountDeal F)
  group_at k [] = []
  group_at k ((j, ds) ∷ groups) = if k == j then ds else group_at k groups

  -- sorted(ds, key=lambda x: x.time), which leaves deals of one time in their order
  unfoldable pub insert_by_time : AccountDeal F → List (AccountDeal F) → List (AccountDeal F)
  insert_by_time d [] = d ∷ []
  insert_by_time d (e ∷ ds) = if ltb e.time d.time then e ∷ insert_by_time d ds else d ∷ e ∷ ds

  unfoldable pub by_time : List (AccountDeal F) → List (AccountDeal F)
  unfolding insert_by_time
  by_time [] = []
  by_time (d ∷ ds) = insert_by_time d (by_time ds)

  unfoldable pub last_of : AccountDeal F → List (AccountDeal F) → AccountDeal F
  last_of d [] = d
  last_of d (e ∷ ds) = last_of e ds

  unfoldable pub first_time : List (AccountDeal F) → Option ℕ
  first_time [] = none
  first_time (d ∷ ds) = some d.time

module _ {F : Type 0} (arith : Arith F) (magic : ℕ) where
  -- sum(f(x) for x in ds)
  unfoldable pub sum_from : F → (AccountDeal F → F) → List (AccountDeal F) → F
  sum_from acc f [] = acc
  sum_from acc f (d ∷ ds) = sum_from (arith.add acc (f d)) f ds

  unfoldable pub total : (AccountDeal F → F) → List (AccountDeal F) → F
  unfolding sum_from
  total f ds = sum_from arith.zero f ds

  -- The volume-weighted price of the deals that opened the position.
  unfoldable pub entry_price : List (AccountDeal F) → Option F
  unfolding total
  entry_price [] = none
  entry_price (d ∷ ds) =
      let volume = total (λ x. x.volume) (d ∷ ds) in
      if arith.nonzero volume
      then some (arith.round5 (arith.div (total (λ x. arith.mul x.price x.volume) (d ∷ ds)) volume))
      else none

  -- The side of the position is not that of the deal that closed it.
  unfoldable pub side_of_close : DealType → Text
  side_of_close buy = codes "sell"
  side_of_close sell = codes "buy"
  side_of_close other = codes "buy"

  -- _deal_source(magic, comment)
  unfoldable pub deal_source : ℕ → SourceName
  deal_source m = if m == magic then tradingview else other

  unfoldable pub row_with :
      ℕ → AccountDeal F → List (AccountDeal F) → List (AccountDeal F) → ClosedRow F
  unfolding total entry_price side_of_close deal_source decimal first_time
  row_with k last outs ins = record {
    ticket = decimal k;
    time_raw = last.time;
    symbol = last.symbol;
    side = side_of_close last.deal_type;
    volume = arith.round4 (total (λ x. x.volume) outs);
    close = last.price;
    entry = entry_price ins;
    entry_time_raw = first_time ins;
    profit = arith.round2 (total (λ x. arith.add (arith.add x.profit x.commission) x.swap) outs);
    commission = arith.round2 (total (λ x. x.commission) outs);
    swap = arith.round2 (total (λ x. x.swap) outs);
    source = deal_source last.magic;
    comment = last.comment;
    magic = last.magic;
  }

  -- The row of a position; no group is empty.
  unfoldable pub row_of : ℕ → List (AccountDeal F) → List (AccountDeal F) → List (ClosedRow F)
  unfolding row_with last_of
  row_of k [] ins = []
  row_of k (d ∷ outs) ins = row_with k (last_of d outs) (d ∷ outs) ins ∷ []

  unfoldable pub rows_of : Groups F → Groups F → List (ClosedRow F)
  unfolding row_of by_time group_at
  rows_of ins [] = []
  rows_of ins ((k, outs) ∷ groups) =
      row_of k (by_time outs) (by_time (group_at k ins)) ++ rows_of ins groups

  unfoldable pub group_closed : List (AccountDeal F) → List (ClosedRow F)
  unfolding collect rows_of
  group_closed deals = let (ins, outs) = collect deals [] [] in rows_of ins outs
