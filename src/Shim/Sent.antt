-- ===== src/Shim/Sent.antt =====
-- Which requests a run of scripts/ea_shim.py hands to `order_send`: the invariant that every one noted
-- satisfies a predicate, with a rule for each call of the terminal.
use exec_relay.Base.{All}
use exec_relay.Base.Exec.Keeps.{Keeps}
use exec_relay.Shim.Terminal.{Request, Terminal, World, Exc, ask, send}

abbrev pub AllSent : {F S : Type 0} → (Request F → Type 0) → World F S → Type 0
AllSent P w = All P w.sent

module _ {F S : Type 0} {P : Request F → Type 0} where
  pub Keeps-ask : {A : Type 0} (f : S → A × S) → Keeps {E = Exc} (AllSent {S = S} P) (ask f)
  unfolding ask
  Keeps-ask f = record { at = λ w h. h }

  pub Keeps-send :
      (t : Terminal F S) (req : Request F)
      → P req
      → Keeps {E = Exc} (AllSent {S = S} P) (send t req)
  unfolding send
  Keeps-send t req p = record { at = λ w h. (p, h) }
