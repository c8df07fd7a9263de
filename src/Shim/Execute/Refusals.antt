-- ===== src/Shim/Execute/Refusals.antt =====
-- What `execute` of scripts/ea_shim.py does with a command that it does not know.
use exec_relay.Base.{◌≡◌, refl, Bool, true, false, List, [], ◌∷◌, if◌then◌else◌}
use exec_relay.Base.Text.{Text, codes, lower}
use exec_relay.Base.Exec.{ok, pure, ◌>>=◌}
use exec_relay.Shim.Floats.{Floats}
use exec_relay.Shim.Terminal.{Terminal, World, Action, ask}
use exec_relay.Shim.Params.{
  Params, Command, unknown, command_of, fnum, pending_types, opens_at_market,
}
use exec_relay.Shim.Orders.{unknown_command}
use exec_relay.Shim.Execute.{
  rejected_with, dispatch, opens, execute, resolve_symbol, first_known, sized_dispatch,
}
use exec_relay.Shim.Outcome.{mapped, is_some}

-- Sends nothing, and returns.
record IsSilent {F S A : Type 0} (m : Action F S A) : Type 0 where
  at : (w : World F S) → (a : A) × (s : S) × (m w ≡ (ok a, record w { mt5 = s }))

module _ {F S A : Type 0} where
  IsSilent-pure : (a : A) → IsSilent {F = F} {S = S} (pure a)
  unfolding pure
  IsSilent-pure a = record { at = λ w. (a, w.mt5, refl) }

  IsSilent-ask : (f : S → A × S) → IsSilent {F = F} (ask f)
  unfolding ask
  IsSilent-ask f = record { at = λ w. ((f w.mt5).0, (f w.mt5).1, refl) }

  IsSilent-if :
      (b : Bool) (m n : Action F S A) → IsSilent m → IsSilent n → IsSilent (if b then m else n)
  IsSilent-if true m n sm sn = sm
  IsSilent-if false m n sm sn = sn

module _ {F S A B : Type 0} where
  IsSilent-bind :
      (m : Action F S A) (f : A → Action F S B)
      → IsSilent m
      → ((a : A) → IsSilent (f a))
      → IsSilent (m >>= f)
  unfolding ◌>>=◌
  IsSilent-bind m f sm sf = record {
    at = λ w.
        let (a, s, e) = sm.at w in
        let (b, s', e') = (sf a).at (record w { mt5 = s }) in (b, s', rw e e');
  }

module _ {F S : Type 0} ⦃fl : Floats F⦄ (t : Terminal F S) where
  open fl use {cent}

  first_known-IsSilent : (symbol : Text) (vs : List Text) → IsSilent (first_known t symbol vs)
  unfolding first_known
  first_known-IsSilent symbol [] = IsSilent-pure symbol
  first_known-IsSilent symbol (v ∷ vs) =
      IsSilent-bind _ _ (IsSilent-ask (t.symbol_info v))
        (λ info. IsSilent-if (is_some info) _ _ (IsSilent-pure v) (first_known-IsSilent symbol vs))

  resolve_symbol-IsSilent :
      (m : List (Text × Text)) (symbol : Text) → IsSilent (resolve_symbol t m symbol)
  unfolding resolve_symbol
  resolve_symbol-IsSilent m symbol =
      IsSilent-bind _ _ (IsSilent-ask (t.symbol_info (mapped m symbol)))
        (λ info. IsSilent-if (is_some info) _ _ (IsSilent-pure _) (search first_known-IsSilent))

  not_dispatched :
      (symbol : Text) (cmd : Command) (params : Params F) (v sl tp : F)
      → cmd ≡ unknown
      → (if opens t cmd
          then sized_dispatch t cmd symbol params v sl tp
          else dispatch t cmd symbol params v sl tp)
        ≡ pure (rejected_with t unknown_command v)
  unfolding dispatch opens pending_types opens_at_market is_some
  not_dispatched symbol cmd params v sl tp h = rw h refl

  -- A command that `execute` does not know is rejected with the requested volume and no ticket, and no
  -- request is sent.
  pub execute-unknown :
      (m : List (Text × Text)) (command symbol : Text) (params : Params F) (w : World F S)
      → command_of (lower command) ≡ unknown
      → ((execute t m command symbol params w).0
          ≡ ok (
              rejected_with t unknown_command
                (fnum params (codes "volume" ∷ codes "vol_lots" ∷ []) cent)))
        × ((execute t m command symbol params w).1.sent ≡ w.sent)
  unfolding execute pure ask ◌>>=◌
  execute-unknown m command symbol params w h =
      let (a, s, e) = (resolve_symbol-IsSilent m symbol).at w in
      rw (e, not_dispatched a (command_of (lower command)) params _ _ _ h) (refl, refl)
