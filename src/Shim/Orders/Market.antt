-- ===== src/Shim/Orders/Market.antt =====
-- What `send_market` of scripts/ea_shim.py sends, and when it raises.
use exec_relay.Base.{
  ◌≡◌, refl, true, false, Option, none, some, List, ◌∷◌, ◌⊎◌, inl, inr, ◌↔◌, Bool-cases, arith, ap,
  ◌≢◌,
}
use exec_relay.Base.Text.{Text}
use exec_relay.Base.Exec.{err, pure, raise, ◌>>=◌}
use exec_relay.Shim.Floats.{Floats}
use exec_relay.Shim.Terminal.{
  is_invalid_fill, OrderType, Deal, Request, deal, fok, Reply, Tick, Terminal, World,
  attribute_error, ask, send,
}
use exec_relay.Shim.Orders.{judged, market_reply, market_deal, market_at, send_market}

module _ {F S : Type 0} ⦃fl : Floats F⦄ (t : Terminal F S) where
  judged-sent : (res : Option Reply) (w : World F S) → (judged t res w).1 ≡ w
  unfolding judged pure raise
  judged-sent none w = refl
  judged-sent (some res) w = refl

  judged-raises_iff :
      (res : Option Reply) (w : World F S)
      → ((judged t res w).0 ≡ err attribute_error) ↔ (res ≡ none)
  unfolding judged pure raise
  judged-raises_iff none w = ground (arith)
  judged-raises_iff (some res) w = ground (arith)

  -- The reply of the terminal to one more try under FOK, from the state after the first try.
  abbrev pub second_reply : Deal F → World F S → Option Reply
  second_reply req w = (t.order_send (deal (record req { filling = fok })) w.mt5).0

  retried-raises_iff :
      (req : Deal F) (r : Reply) (w : World F S)
      → is_invalid_fill r.retcode ≡ true
      → ((market_reply t req (some r) w).0 ≡ err attribute_error) ↔ (second_reply req w ≡ none)
  unfolding market_reply ◌>>=◌ send
  retried-raises_iff req r w e = rw e (judged-raises_iff _ _)

  settled-returns :
      (req : Deal F) (r : Reply) (w : World F S)
      → is_invalid_fill r.retcode ≡ false
      → (market_reply t req (some r) w).0 ≢ err attribute_error
  unfolding market_reply pure
  settled-returns req r w e = rw e (ground (arith))

  -- `send_market` raises after its first reply exactly when that reply refuses the fill policy and the
  -- second try, under FOK, gets no reply.
  pub market_reply-raises_iff :
      (req : Deal F) (res : Option Reply) (w : World F S)
      → ((market_reply t req res w).0 ≡ err attribute_error) ↔ (
          (r : Reply) × (res ≡ some r)
          × (is_invalid_fill r.retcode ≡ true)
          × (second_reply req w ≡ none))
  unfolding market_reply pure
  market_reply-raises_iff req none w = ground (arith)
  market_reply-raises_iff req (some r) w = elim (Bool-cases (is_invalid_fill r.retcode)) [
    | inl e ↦ ground (arith, retried-raises_iff req r w e)
    | inr e ↦ ground (arith, settled-returns req r w e)
  ]

  -- The requests that a market order can add to `rest`: none, one deal, or the deal and the same deal
  -- again under FOK.
  abbrev pub IsMarketRun : OrderType → Text → F → List (Request F) → List (Request F) → Type 0
  IsMarketRun action_type symbol volume rest now =
      (now ≡ rest)
      ⊎ ((d : Deal F) × (d.order_type ≡ action_type)
          × (d.symbol ≡ symbol)
          × (d.volume ≡ volume)
          × ((now ≡ deal d ∷ rest) ⊎ (now ≡ deal (record d { filling = fok }) ∷ deal d ∷ rest)))

  market_reply-sent :
      (req : Deal F) (res : Option Reply) (w : World F S)
      → ((market_reply t req res w).1.sent ≡ w.sent)
        ⊎ ((market_reply t req res w).1.sent ≡ deal (record req { filling = fok }) ∷ w.sent)
  unfolding market_reply pure ◌>>=◌ send
  market_reply-sent req none w = inl refl
  market_reply-sent req (some r) w = elim (Bool-cases (is_invalid_fill r.retcode)) [
    | inl e ↦ inr (rw e (ap (λ v. v.sent) (judged-sent _ _)))
    | inr e ↦ inl (rw e (ap (λ v. v.sent) (judged-sent (some r) w)))
  ]

  -- A market order sends at most two requests, whether it returns or raises: one deal for the asked side,
  -- symbol and volume, and at most once more the same deal under FOK.
  pub send_market-IsMarketRun :
      (o : OrderType) (symbol : Text) (v : F) (c : Text) (sl tp : F) (w : World F S)
      → IsMarketRun o symbol v w.sent (send_market t o symbol v c sl tp w).1.sent
  unfolding send_market market_at market_deal pure ◌>>=◌ send ask
  send_market-IsMarketRun o symbol v c sl tp w =
      at_tick (t.symbol_info_tick symbol w.mt5).0 (t.symbol_info_tick symbol w.mt5).1
    where
      at_tick :
          (tick : Option (Tick F)) (s : S)
          → IsMarketRun o symbol v w.sent
              (market_at t tick o symbol v c sl tp (record w { mt5 = s })).1.sent
      at_tick none s = inl refl
      at_tick (some tick) s =
          let d = market_deal t o symbol v c sl tp tick in
          inr (d, refl, refl, refl, market_reply-sent d _ _)
