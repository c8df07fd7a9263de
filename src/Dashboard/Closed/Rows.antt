-- ===== src/Dashboard/Closed/Rows.antt =====
-- Which rows scripts/trade_dashboard.py makes of the closing deals.
use exec_relay.Base.{
  ℕ, ◌≡◌, refl, ◌≢◌, sym, ap, ◌∙◌, Bool, true, false, not, ◌&&◌, List, [], ◌∷◌, ◌++◌, append-nil,
  append_assoc, arith, ◌==◌, if◌then◌else◌, keep, All, In, All-weaken, Bool-cases, inl, inr,
}
use exec_relay.Dashboard.Closed.{
  AccountDeal, Arith, ClosedRow, Groups, is_trade, is_opening, is_closing, append_to, collect,
  group_at, by_time, row_of, rows_of, group_closed,
}

-- The ids in their order, each once.
unfoldable pub add_new : ℕ → List ℕ → List ℕ
add_new k [] = k ∷ []
add_new k (j ∷ js) = if k == j then j ∷ js else j ∷ add_new k js

module _ {F : Type 0} where
  -- A buy or sell that opens, and one that closes.
  abbrev pub opens : AccountDeal F → Bool
  opens d = is_trade d.deal_type && is_opening d

  abbrev pub closes : AccountDeal F → Bool
  closes d = is_trade d.deal_type && (not (is_opening d) && is_closing d)

  -- The deals of a position that satisfy a test.
  abbrev pub of_position : (AccountDeal F → Bool) → List (AccountDeal F) → ℕ → List (AccountDeal F)
  of_position p ds k = keep (λ d. p d && (k == d.position_id)) ds

  -- The positions with a closing deal, in the order of their first one, each once.
  unfoldable pub positions_onto : List ℕ → List (AccountDeal F) → List ℕ
  positions_onto ks [] = ks
  positions_onto ks (d ∷ ds) = positions_onto (if closes d then add_new d.position_id ks else ks) ds

  abbrev keys : Groups F → List ℕ
  keys [] = []
  keys ((j, ds) ∷ groups) = j ∷ keys groups

  group_onto : (AccountDeal F → Bool) → List (AccountDeal F) → Groups F → Groups F
  group_onto p [] groups = groups
  group_onto p (d ∷ ds) groups =
      group_onto p ds (if p d then append_to d.position_id d groups else groups)

  collect-eq :
      (ds : List (AccountDeal F)) (ins outs : Groups F)
      → collect ds ins outs ≡ (group_onto opens ds ins, group_onto closes ds outs)
  unfolding collect group_onto
  collect-eq [] ins outs = refl
  collect-eq (d ∷ ds) ins outs = collect-eq ds _ _

  group_at-append_to :
      (j k : ℕ) (d : AccountDeal F) (groups : Groups F)
      → group_at j (append_to k d groups)
        ≡ (if j == k then group_at j groups ++ d ∷ [] else group_at j groups)
  unfolding group_at append_to
  group_at-append_to j k d [] = refl
  group_at-append_to j k d ((i, ds) ∷ groups) = ground (arith, group_at-append_to j k d groups)

  grow :
      (b : Bool) (d : AccountDeal F) (xs ys : List (AccountDeal F))
      → (if b then xs ++ d ∷ [] else xs) ++ ys ≡ xs ++ (if b then d ∷ ys else ys)
  grow true d xs ys = append_assoc xs (d ∷ []) ys
  grow false d xs ys = refl

  group_at-group_onto :
      (p : AccountDeal F → Bool) (j : ℕ) (ds : List (AccountDeal F)) (groups : Groups F)
      → group_at j (group_onto p ds groups) ≡ group_at j groups ++ of_position p ds j
  unfolding group_onto keep
  group_at-group_onto p j [] groups = sym (append-nil (group_at j groups))
  group_at-group_onto p j (d ∷ ds) groups = elim (Bool-cases (p d)) [
    | inr e ↦ rw e (group_at-group_onto p j ds groups)
    | inl e ↦ rw e (
        group_at-group_onto p j ds (append_to d.position_id d groups)
        ∙ ap (λ g. g ++ of_position p ds j) (group_at-append_to j d.position_id d groups)
        ∙ grow (j == d.position_id) d (group_at j groups) (of_position p ds j))
  ]

  keys-append_to :
      (k : ℕ) (d : AccountDeal F) (groups : Groups F)
      → keys (append_to k d groups) ≡ add_new k (keys groups)
  unfolding append_to add_new
  keys-append_to k d [] = refl
  keys-append_to k d ((j, ds) ∷ groups) = ground (arith, keys-append_to k d groups)

  keys-group_onto :
      (ds : List (AccountDeal F)) (groups : Groups F)
      → keys (group_onto closes ds groups) ≡ positions_onto (keys groups) ds
  unfolding group_onto positions_onto
  keys-group_onto [] groups = refl
  keys-group_onto (d ∷ ds) groups = elim (Bool-cases (closes d)) [
    | inr e ↦ rw e (keys-group_onto ds groups)
    | inl e ↦ rw e (
        keys-group_onto ds (append_to d.position_id d groups)
        ∙ ap (λ ks. positions_onto ks ds) (keys-append_to d.position_id d groups))
  ]

In-keys : {F : Type 0} (k : ℕ) (groups : Groups F) → group_at k groups ≢ [] → In k (keys groups)
unfolding group_at
In-keys k [] h = absurd (h refl)
In-keys k ((j, ds) ∷ groups) h = ground (arith, In-keys k groups)

abbrev IsNew : ℕ → List ℕ → Type 0
IsNew j ks = All (λ k. (k == j) ≡ false) ks

-- No id twice.
abbrev pub IsDistinct : List ℕ → Type 0
IsDistinct [] = Unit {0}
IsDistinct (j ∷ ks) = IsNew j ks × IsDistinct ks

IsNew-add_new : (j k : ℕ) (ks : List ℕ) → (k == j) ≡ false → IsNew j ks → IsNew j (add_new k ks)
unfolding add_new
IsNew-add_new j k [] e h = (e, tt)
IsNew-add_new j k (i ∷ ks) e h = elim (Bool-cases (k == i)) [
  | inl q ↦ rw q h
  | inr q ↦ rw q (h.0, IsNew-add_new j k ks e h.1)
]

add_new-IsDistinct : (k : ℕ) (ks : List ℕ) → IsDistinct ks → IsDistinct (add_new k ks)
unfolding add_new
add_new-IsDistinct k [] h = (tt, tt)
add_new-IsDistinct k (i ∷ ks) h = elim (Bool-cases (k == i)) [
  | inl q ↦ rw q h
  | inr q ↦ rw q (IsNew-add_new i k ks q h.0, add_new-IsDistinct k ks h.1)
]

positions_onto-IsDistinct :
    {F : Type 0} (ds : List (AccountDeal F)) (ks : List ℕ)
    → IsDistinct ks
    → IsDistinct (positions_onto ks ds)
unfolding positions_onto
positions_onto-IsDistinct [] ks h = h
positions_onto-IsDistinct (d ∷ ds) ks h = elim (Bool-cases (closes d)) [
  | inl e ↦ rw e (
      positions_onto-IsDistinct ds (add_new d.position_id ks)
        (add_new-IsDistinct d.position_id ks h))
  | inr e ↦ rw e (positions_onto-IsDistinct ds ks h)
]

module _ {F : Type 0} (money : Arith F) (magic : ℕ) where
  -- The rows of some positions, by the deals that close and open each.
  unfoldable pub rows_for :
      (ℕ → List (AccountDeal F)) → (ℕ → List (AccountDeal F)) → List ℕ → List (ClosedRow F)
  rows_for outs ins [] = []
  rows_for outs ins (k ∷ ks) =
      row_of money magic k (by_time (outs k)) (by_time (ins k)) ++ rows_for outs ins ks

  rows_for-congruent :
      (f g ins : ℕ → List (AccountDeal F)) (ks : List ℕ)
      → All (λ k. f k ≡ g k) ks
      → rows_for f ins ks ≡ rows_for g ins ks
  unfolding rows_for
  rows_for-congruent f g ins [] h = refl
  rows_for-congruent f g ins (k ∷ ks) (e, h) = rw e (rw (rows_for-congruent f g ins ks h) refl)

  -- A dict with distinct keys gives its rows by looking each key up.
  rows_of-rows_for :
      (ins groups : Groups F)
      → IsDistinct (keys groups)
      → rows_of money magic ins groups
        ≡ rows_for (λ k. group_at k groups) (λ k. group_at k ins) (keys groups)
  unfolding rows_of rows_for group_at
  rows_of-rows_for ins [] h = refl
  rows_of-rows_for ins ((j, ds) ∷ groups) (new, h) =
      let same : (j == j) ≡ true = ground arith in
      let rest =
        rows_of-rows_for ins groups h
        ∙ rows_for-congruent (λ k. group_at k groups) (λ k. group_at k ((j, ds) ∷ groups))
            (λ k. group_at k ins) (keys groups)
            (All-weaken (λ k. (k == j) ≡ false)
              (λ k. group_at k groups ≡ group_at k ((j, ds) ∷ groups)) (keys groups)
              (λ k e. rw e refl) new) in
      rw same
        (ap (λ rows. row_of money magic j (by_time ds) (by_time (group_at j ins)) ++ rows) rest)

  -- Every position with a closing deal has exactly one row, and no other has one: the rows are made, in
  -- the order of the positions' first closing deals, each from all deals of its position that close and
  -- all that open, and no position stands twice.
  pub group_closed-rows_for :
      (deals : List (AccountDeal F))
      → (group_closed money magic deals
          ≡ rows_for (of_position closes deals) (of_position opens deals) (positions_onto [] deals))
        × IsDistinct (positions_onto [] deals)
        × ((k : ℕ) → of_position closes deals k ≢ [] → In k (positions_onto [] deals))
  unfolding group_closed group_at
  group_closed-rows_for deals =
      let ins = group_onto opens deals [] in
      let outs = group_onto closes deals [] in
      let ks = keys-group_onto deals [] in
      let distinct = positions_onto-IsDistinct deals [] tt in
      (
        rw (collect-eq deals [] []) (
            rows_of-rows_for ins outs (rw ks distinct) ∙ λ i.
            rows_for (λ k. group_at-group_onto closes k deals [] i)
              (λ k. group_at-group_onto opens k deals [] i) (ks i)),
        distinct,
        λ k some. rw (← ks) (In-keys k outs (rw (group_at-group_onto closes k deals []) some)),
      )
