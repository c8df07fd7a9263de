-- ===== src/Risk/Exposed.antt =====
-- What `check_exposure_limits` of apps/risk/app.py finds: the notional of an account and its limit, said
-- without the code's functions.
use exec_relay.Base.{
  ℕ, ◌≡◌, refl, ◌↔◌, ◌⊎◌, true, ◌&&◌, Option, some, none, List, [], ◌∷◌, ◌++◌, ==_iff, arith,
  Bool-cases, Option-cases, inl, inr, if◌then◌else◌, keep, append-nil,
}
use exec_relay.Base.Text.{Text, text_eq_iff}
use exec_relay.Risk.{
  find, at_account, open_positions, total_notional, limit_of, exceeds, exposure_of,
}
use exec_relay.Risk.Tables.{Amounts, PositionRow, LimitRow, BreachRow, Exposure}

abbrev pub breach_row : {F : Type 0} → ℕ → Text → F → Option F → BreachRow F
breach_row license account total limit = record {
  license_id = license;
  account_id = account;
  current_value = total;
  limit_value = limit;
}

-- The rows of the breach log that an exposure asks for.
abbrev pub breach_rows : {F : Type 0} → ℕ → Text → Exposure F → List (BreachRow F)
breach_rows license account exposure =
    if exposure.breached
    then breach_row license account exposure.total_notional exposure.limit ∷ []
    else []

module _ {F : Type 0} (am : Amounts F) (license : ℕ) (account : Text) where
  -- A position of the account that is open.
  abbrev pub IsOpen : PositionRow F → Type 0
  IsOpen p =
      (p.license_id ≡ license) × (p.account_id ≡ account) × (am.nonzero p.position_size ≡ true)

  -- The price that a position counts with: 0 where there is none.
  abbrev pub IsPrice : PositionRow F → F → Type 0
  IsPrice p price = (p.current_price ≡ some price) ⊎ ((p.current_price ≡ none) × (price ≡ am.zero))

  -- The sum of size times price over the open positions of the account.
  pub data IsNotional : List (PositionRow F) → F → Type 0 where
    nothing : IsNotional [] am.zero
    counted :
        {p : PositionRow F} {rows : List (PositionRow F)} {price total : F}
        → IsOpen p
        → IsPrice p price
        → IsNotional rows total
        → IsNotional (p ∷ rows) (am.add (am.mul p.position_size price) total)
    passed :
        {p : PositionRow F} {rows : List (PositionRow F)} {total : F}
        → ¬ IsOpen p
        → IsNotional rows total
        → IsNotional (p ∷ rows) total

  -- The first row of limits for the account has this notional.
  abbrev pub IsLimit : F → List (LimitRow F) → Type 0
  IsLimit limit [] = ⊥
  IsLimit limit (l ∷ rows) =
      ((l.license_id ≡ license) × (l.account_id ≡ account) × (l.max_notional_usd ≡ some limit))
      ⊎ (¬ ((l.license_id ≡ license) × (l.account_id ≡ account)) × IsLimit limit rows)

  -- The limit is there, it is not 0, and the notional is above it.
  abbrev pub IsOver : F → List (LimitRow F) → F → Type 0
  IsOver total limits limit =
      IsLimit limit limits × (am.nonzero limit ≡ true) × (am.gt total limit ≡ true)

  counts_iff :
      (p : PositionRow F)
      → ((at_account license account p.license_id p.account_id && am.nonzero p.position_size)
          ≡ true)
        ↔ IsOpen p
  unfolding at_account
  counts_iff p = ground (arith, ==_iff p.license_id license, text_eq_iff p.account_id account)

  current_price-IsPrice :
      (p : PositionRow F) → IsPrice p (elim p.current_price [ none ↦ am.zero | some c ↦ c ])
  current_price-IsPrice p = elim (Option-cases p.current_price) [
    | inl e ↦ rw e (inr (refl, refl))
    | inr (c, e) ↦ rw e (inl refl)
  ]

  pub total_notional-IsNotional :
      (rows : List (PositionRow F))
      → IsNotional rows (total_notional am (open_positions am license account rows))
  unfolding total_notional open_positions keep
  total_notional-IsNotional [] = nothing
  total_notional-IsNotional (p ∷ rows) =
      let ih = total_notional-IsNotional rows in
      elim (Bool-cases
        (at_account license account p.license_id p.account_id && am.nonzero p.position_size)) [
          | inl e ↦ rw e (counted ((counts_iff p).0 e) (current_price-IsPrice p) ih)
          | inr e ↦ rw e (passed (λ o. cc (e, (counts_iff p).1 o)) ih)
        ]

  limit_of_iff :
      (limit : F) (rows : List (LimitRow F))
      → (limit_of am license account rows ≡ some limit) ↔ IsLimit limit rows
  unfolding limit_of find at_account
  limit_of_iff limit [] = ground (arith)
  limit_of_iff limit (l ∷ rows) = ground (
    arith,
    ==_iff l.license_id license,
    text_eq_iff l.account_id account,
    limit_of_iff limit rows,
  )

  pub exceeds_iff :
      (total : F) (limits : List (LimitRow F))
      → (exceeds am total (limit_of am license account limits) ≡ true)
        ↔ ((limit : F) × IsOver total limits limit)
  unfolding exceeds
  exceeds_iff total limits = by_limit (limit_of am license account limits) refl
    where
      by_limit :
          (o : Option F)
          → limit_of am license account limits ≡ o
          → (exceeds am total o ≡ true) ↔ ((limit : F) × IsOver total limits limit)
      by_limit none q =
          (λ e. absurd (cc e), λ (v, (l, _, _)). absurd (cc (q, (limit_of_iff v limits).1 l)))
      by_limit (some v) q = (
        λ e.
            (let above : (am.nonzero v ≡ true) × (am.gt total v ≡ true) = ground (arith, e) in
              (v, ((limit_of_iff v limits).0 q, above.0, above.1))),
        λ (u, (l, z, g)).
            (let same : u ≡ v = cc (q, (limit_of_iff u limits).1 l) in
              rw (← same) (rw (z, g) refl)),
      )

  -- The log of breaches has grown by the row of this notional and the limit where it is over, and else is
  -- as it was.
  abbrev pub IsLogged : F → List (LimitRow F) → List (BreachRow F) → List (BreachRow F) → Type 0
  IsLogged total limits before after =
      ((limit : F) × IsOver total limits limit
        × (after ≡ before ++ breach_row license account total (some limit) ∷ []))
      ⊎ (¬ ((limit : F) × IsOver total limits limit) × (after ≡ before))

  pub exposure_of-IsLogged :
      (positions : List (PositionRow F)) (limits : List (LimitRow F)) (before : List (BreachRow F))
      → IsLogged
          (total_notional am (open_positions am license account positions))
          limits
          before
          (before ++ breach_rows license account (exposure_of am license account positions limits))
  unfolding exposure_of
  exposure_of-IsLogged positions limits before =
      let total = total_notional am (open_positions am license account positions) in
      let over = exceeds_iff total limits in
      elim (Bool-cases (exceeds am total (limit_of am license account limits))) [
        | inl e ↦
            let (limit, is_over) = over.0 e in
            inl (limit, is_over, rw (e, (limit_of_iff limit limits).1 is_over.0) refl)
        | inr e ↦ inr (λ o. cc (e, over.1 o), rw e (append-nil before))
      ]
