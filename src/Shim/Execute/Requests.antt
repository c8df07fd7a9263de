-- ===== src/Shim/Execute/Requests.antt =====
-- Every request that `execute` of scripts/ea_shim.py hands to the terminal.
use exec_relay.Base.{ℕ, ◌&&◌, ◌||◌, Option, none, some, List, [], ◌∷◌, ◌++◌}
use exec_relay.Base.Text.{Text, codes, lower}
use exec_relay.Base.Exec.Keeps.{Keeps, Keeps-pure, Keeps-if, Keeps-bind}
use exec_relay.Shim.Floats.{Floats}
use exec_relay.Shim.Terminal.{Retcode, OrderType, Side, Reply, Terminal, Exc, World, Action}
use exec_relay.Shim.Params.{
  Params, Command, buylimit, selllimit, buystop, sellstop, closelong, closeshort,
  closelongopenshort, closeshortopenlong, newsltplong, newsltpshort, unknown, command_of,
  pending_types,
}
use exec_relay.Shim.Sent.{AllSent, Keeps-ask}
use exec_relay.Shim.Sizing.{sized_volume}
use exec_relay.Shim.Orders.{Error}
use exec_relay.Shim.Orders.Requests.{
  IsTagged, Tagged, Keeps-send_market, Keeps-send_pending, Keeps-close_positions,
  Keeps-modify_positions_sltp,
}
use exec_relay.Shim.Execute.{
  first_known, resolve_symbol, reference_price, price_invalid, after_pending, place_pending,
  reverse_after, amend, comment_of, at_market, resting, closing, reversing, dispatch, opens,
  sized_dispatch, execute,
}
use exec_relay.Shim.Outcome.{is_some, mapped}

module _ {F S : Type 0} ⦃fl : Floats F⦄ (t : Terminal F S) where
  open fl use {zero, le}

  abbrev Safe : {A : Type 0} → Action F S A → Type 0
  Safe m = Keeps {E = Exc} (Tagged t) m

  Safe-first_known : (symbol : Text) (variants : List Text) → Safe (first_known t symbol variants)
  unfolding first_known
  Safe-first_known symbol [] = Keeps-pure symbol
  Safe-first_known symbol (v ∷ variants) = Keeps-bind _ _ (Keeps-ask (t.symbol_info v)) (λ info.
      Keeps-if (is_some info) _ _ (λ _. Keeps-pure v) (λ _. Safe-first_known symbol variants))

  Safe-resolve_symbol : (m : List (Text × Text)) (symbol : Text) → Safe (resolve_symbol t m symbol)
  unfolding resolve_symbol
  Safe-resolve_symbol m symbol =
      Keeps-bind _ _ (Keeps-ask (t.symbol_info (mapped m symbol)))
        (λ info. Keeps-if (is_some info) _ _ (λ _. Keeps-pure _) (λ _. search Safe-first_known))

  Safe-reference_price :
      (cmd : Command) (symbol : Text) (params : Params F)
      → Safe (reference_price t cmd symbol params)
  unfolding reference_price
  Safe-reference_price cmd symbol params =
      Keeps-if (is_some (pending_types cmd)) _ _ (λ _. Keeps-pure _)
        (λ _. Keeps-bind _ _ (Keeps-ask (t.symbol_info_tick symbol)) (λ tick. Keeps-pure _))

  Safe-sized_volume :
      (symbol : Text) (ref sl requested risk : F)
      → Safe (sized_volume t symbol ref sl requested risk)
  unfolding sized_volume
  Safe-sized_volume symbol ref sl requested risk =
      Keeps-if (le risk zero || le sl zero || le ref zero) _ _ (λ _. Keeps-pure _)
        (λ _. Keeps-bind _ _ (Keeps-ask (t.symbol_info symbol)) (λ info. Keeps-pure _))

  Safe-after_pending :
      (o : OrderType) (symbol : Text) (v sl tp : F) (c : Text)
      (answer : Option Reply × Option Error × Option Retcode)
      → Safe (after_pending t o symbol v sl tp c answer)
  unfolding after_pending
  Safe-after_pending o symbol v sl tp c (some res, err, code) = Keeps-pure _
  Safe-after_pending o symbol v sl tp c (none, err, code) =
      Keeps-if (t.pending_fallback && price_invalid t code) _ _
        (λ _.
          Keeps-bind _ _ (Keeps-send_market t o symbol v (c ++ codes "_M") sl tp)
            (λ answer. Keeps-pure _))
        (λ _. Keeps-pure _)

  Safe-place_pending :
      (o m : OrderType) (symbol : Text) (v entry sl tp : F) (c : Text)
      → Safe (place_pending t o m symbol v entry sl tp c)
  unfolding place_pending
  Safe-place_pending o m symbol v entry sl tp c =
      Keeps-if (le entry zero) _ _ (λ _. Keeps-pure _)
        (λ _.
          Keeps-bind _ _ (Keeps-send_pending t o symbol v entry sl tp c)
            (Safe-after_pending m symbol v sl tp c))

  Safe-reverse_after :
      (o : OrderType) (symbol : Text) (v sl tp : F) (c : Text) (answer : List ℕ × Option Error)
      → Safe (reverse_after t o symbol v sl tp c answer)
  unfolding reverse_after
  Safe-reverse_after o symbol v sl tp c (closed, some e) = Keeps-pure _
  Safe-reverse_after o symbol v sl tp c (closed, none) =
      Keeps-bind _ _ (Keeps-send_market t o symbol v c sl tp) (λ answer. Keeps-pure _)

  Safe-amend :
      (side : Side) (symbol : Text) (v sl tp : F) (scope : Text)
      → Safe (amend t side symbol v sl tp scope)
  unfolding amend
  Safe-amend side symbol v sl tp scope =
      Keeps-if (le tp zero && le sl zero) _ _ (λ _. Keeps-pure _)
        (λ _.
          Keeps-bind _ _ (Keeps-modify_positions_sltp t symbol side tp sl scope)
            (λ answer. Keeps-pure _))

  Safe-at_market :
      (o : OrderType) (symbol : Text) (params : Params F) (v sl tp : F)
      → Safe (at_market t o symbol params v sl tp)
  unfolding at_market
  Safe-at_market o symbol params v sl tp =
      Keeps-bind _ _ (Keeps-send_market t o symbol v (comment_of t params) sl tp)
        (λ answer. Keeps-pure _)

  Safe-closing : (side : Side) (symbol : Text) (v : F) → Safe (closing t side symbol v)
  unfolding closing
  Safe-closing side symbol v =
      Keeps-bind _ _ (Keeps-close_positions t symbol side) (λ answer. Keeps-pure _)

  Safe-reversing :
      (side : Side) (o : OrderType) (symbol : Text) (params : Params F) (v sl tp : F)
      → Safe (reversing t side o symbol params v sl tp)
  unfolding reversing
  Safe-reversing side o symbol params v sl tp =
      Keeps-bind _ _ (Keeps-close_positions t symbol side)
        (Safe-reverse_after o symbol v sl tp (comment_of t params))

  Safe-dispatch :
      (cmd : Command) (symbol : Text) (params : Params F) (v sl tp : F)
      → Safe (dispatch t cmd symbol params v sl tp)
  unfolding dispatch resting
  Safe-dispatch Command.buy symbol params v sl tp = Safe-at_market _ _ _ _ _ _
  Safe-dispatch Command.sell symbol params v sl tp = Safe-at_market _ _ _ _ _ _
  Safe-dispatch buylimit symbol params v sl tp = Safe-place_pending _ _ _ _ _ _ _ _
  Safe-dispatch selllimit symbol params v sl tp = Safe-place_pending _ _ _ _ _ _ _ _
  Safe-dispatch buystop symbol params v sl tp = Safe-place_pending _ _ _ _ _ _ _ _
  Safe-dispatch sellstop symbol params v sl tp = Safe-place_pending _ _ _ _ _ _ _ _
  Safe-dispatch closelong symbol params v sl tp = Safe-closing _ _ _
  Safe-dispatch closeshort symbol params v sl tp = Safe-closing _ _ _
  Safe-dispatch closelongopenshort symbol params v sl tp = Safe-reversing _ _ _ _ _ _ _
  Safe-dispatch closeshortopenlong symbol params v sl tp = Safe-reversing _ _ _ _ _ _ _
  Safe-dispatch newsltplong symbol params v sl tp = Safe-amend _ _ _ _ _ _
  Safe-dispatch newsltpshort symbol params v sl tp = Safe-amend _ _ _ _ _ _
  Safe-dispatch unknown symbol params v sl tp = Keeps-pure _

  Safe-sized_dispatch :
      (cmd : Command) (symbol : Text) (params : Params F) (v sl tp : F)
      → Safe (sized_dispatch t cmd symbol params v sl tp)
  unfolding sized_dispatch
  Safe-sized_dispatch cmd symbol params v sl tp =
      Keeps-bind _ _ (Safe-reference_price cmd symbol params) (λ ref.
        Keeps-bind _ _ (Safe-sized_volume symbol ref sl v _) (λ sized.
          Keeps-if (le sized zero) _ _ (λ _. Keeps-pure _)
            (λ _. Safe-dispatch cmd symbol params sized sl tp)))

  -- Every deal and every pending order that a run of `execute` sends carries the shim's magic number, a
  -- comment of at most 26 characters and no level of 0; every change of a position's levels carries the
  -- magic number; and no request removes an order. This holds of all that was sent when it held before
  -- the run, whether the run returns or raises.
  pub execute-IsTagged :
      (m : List (Text × Text)) (command symbol : Text) (params : Params F) (w : World F S)
      → AllSent (IsTagged t.magic) w
      → AllSent (IsTagged t.magic) (execute t m command symbol params w).1
  unfolding execute
  execute-IsTagged m command symbol params =
      (Keeps-bind _ _ (Safe-resolve_symbol m symbol) (λ symbol.
        Keeps-bind _ _ (Keeps-ask (t.symbol_select symbol)) (λ _.
          Keeps-if (opens t (command_of (lower command))) _ _ (λ _. Safe-sized_dispatch _ _ _ _ _ _)
            (λ _. Safe-dispatch _ _ _ _ _ _)))).at
