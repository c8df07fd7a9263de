-- ===== src/Shim/Sizing.antt =====
-- `sized_volume` of scripts/ea_shim.py: the lot from the money at risk.
pub mod Bounds
use exec_relay.Base.{Bool, ◌||◌, Option, none, some, if◌then◌else◌}
use exec_relay.Base.Text.{Text}
use exec_relay.Base.Exec.{pure, ◌>>=◌}
use exec_relay.Shim.Floats.{Floats, min}
use exec_relay.Shim.Terminal.{SymbolInfo, Terminal, Action, ask}

module _ {F : Type 0} ⦃fl : Floats F⦄ where
  open fl use {zero, cent, lt, le, sub, mul, div, abs, floor, round8}

  -- info.volume_step or 0.01
  unfoldable pub step_of : F → F
  step_of step = if le step zero then (if le zero step then cent else step) else step

  unfoldable pub loss_per_lot : SymbolInfo F → F → F → F
  loss_per_lot info ref_price sl = mul (div (abs (sub ref_price sl)) info.tick_size) info.tick_value

  unfoldable pub lots : SymbolInfo F → F → F → F → F
  unfolding step_of loss_per_lot
  lots info ref_price sl risk_usd =
      let step = step_of info.volume_step in
      round8 (mul (floor (div (div risk_usd (loss_per_lot info ref_price sl)) step)) step)

  -- `sized_volume` once `symbol_info` has answered.
  unfoldable pub sized_by : Option (SymbolInfo F) → F → F → F → F → F
  unfolding lots
  sized_by none ref_price sl requested risk_usd = requested
  sized_by (some info) ref_price sl requested risk_usd =
      if le info.tick_value zero || le info.tick_size zero
      then requested
      else if le (abs (sub ref_price sl)) zero
      then requested
      else let vol = lots info ref_price sl risk_usd in
        if lt vol info.volume_min then zero else min vol info.volume_max

  -- sized_volume(symbol, ref_price, sl, requested, risk_usd)
  unfoldable pub sized_volume : {S : Type 0} → Terminal F S → Text → F → F → F → F → Action F S F
  unfolding sized_by
  sized_volume t symbol ref_price sl requested risk_usd =
      if le risk_usd zero || le sl zero || le ref_price zero then pure requested else do
        info ← ask (t.symbol_info symbol)
        pure (sized_by info ref_price sl requested risk_usd)
