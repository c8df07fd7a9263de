-- ===== src/Shim/Floats.antt =====
-- What scripts/ea_shim.py does with floats. The type and its operations are parameters; the theorems
-- that compute with them name the laws that they need.
use exec_relay.Base.{Bool, Option, if◌then◌else◌}
use exec_relay.Base.Text.{Text}

pub record Floats (F : Type 0) : Type 0 where
  pub zero : F
  -- 0.01
  pub cent : F
  pub lt : F → F → Bool
  pub le : F → F → Bool
  pub sub : F → F → F
  pub mul : F → F → F
  pub div : F → F → F
  pub abs : F → F
  -- math.floor(x), as a float
  pub floor : F → F
  -- round(x, 8)
  pub round8 : F → F
  -- float(text), `none` where it raises ValueError
  pub parse : Text → Option F

-- min(a, b)
abbrev pub min : {F : Type 0} ⦃fl : Floats F⦄ → F → F → F
min ⦃fl⦄ a b = if fl.lt b a then b else a
