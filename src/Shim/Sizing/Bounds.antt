-- ===== src/Shim/Sizing/Bounds.antt =====
-- The lot that `sized_volume` of scripts/ea_shim.py computes, against the limits of the broker.
use exec_relay.Base.{◌≡◌, refl, false, ◌||◌, some, if◌then◌else◌, ◌⊎◌, inl, inr, Bool-cases}
use exec_relay.Shim.Floats.{Floats, min}
use exec_relay.Shim.Terminal.{SymbolInfo}
use exec_relay.Shim.Sizing.{lots, sized_by}

module _ {F : Type 0} ⦃fl : Floats F⦄ where
  open fl use {zero, lt, le, sub, abs}

  -- Nothing is traded, or a lot within the limits.
  abbrev pub IsWithin : SymbolInfo F → F → Type 0
  IsWithin info v = (v ≡ zero) ⊎ ((lt v info.volume_min ≡ false) × (lt info.volume_max v ≡ false))

  -- The broker quotes what the sizing divides by, and the entry differs from the stop.
  abbrev pub IsSizable : SymbolInfo F → F → F → Type 0
  IsSizable info ref_price sl =
      ((le info.tick_value zero || le info.tick_size zero) ≡ false)
      × (le (abs (sub ref_price sl)) zero ≡ false)

  capped :
      (info : SymbolInfo F) (v : F)
      → ((a : F) → lt a a ≡ false)
      → lt info.volume_max info.volume_min ≡ false
      → IsWithin info (if lt v info.volume_min then zero else min v info.volume_max)
  capped info v irreflexive limits = elim (Bool-cases (lt v info.volume_min)) [
    | inl e ↦ rw e (inl refl)
    | inr e ↦ elim (Bool-cases (lt info.volume_max v)) [
      | inl m ↦ rw (e, m) (inr (limits, irreflexive info.volume_max))
      | inr m ↦ rw (e, m) (inr (e, m))
    ]
  ]

  -- Where the broker's figures allow sizing, the lot is 0 or between the smallest and the largest lot,
  -- whatever the money at risk and the volume that was asked for. The order test is irreflexive and the
  -- limits are the right way round.
  pub sized_by-IsWithin :
      (info : SymbolInfo F) (ref_price sl requested risk_usd : F)
      → ((a : F) → lt a a ≡ false)
      → lt info.volume_max info.volume_min ≡ false
      → IsSizable info ref_price sl
      → IsWithin info (sized_by (some info) ref_price sl requested risk_usd)
  unfolding sized_by
  sized_by-IsWithin info ref_price sl requested risk_usd irreflexive limits (quoted, apart) =
      rw (quoted, apart) (capped info (lots info ref_price sl risk_usd) irreflexive limits)
