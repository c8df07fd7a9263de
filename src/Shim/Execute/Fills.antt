-- ===== src/Shim/Execute/Fills.antt =====
-- Which tickets go with the status that `execute` of scripts/ea_shim.py returns and `run_session`
-- reports.
use exec_relay.Base.{
  ℕ, ◌≡◌, ◌≢◌, Bool, true, false, ◌&&◌, Option, none, some, List, [], ◌∷◌, ◌++◌, arith, inl, inr,
  Bool-cases,
}
use exec_relay.Base.Text.{Text, codes, lower}
use exec_relay.Base.Exec.Returns.{
  Holds, Returns, Returns-pure, Returns-raise, Returns-if, Returns-bind, Returns-then,
}
use exec_relay.Shim.Floats.{Floats}
use exec_relay.Shim.Terminal.{
  Retcode, is_done, is_invalid_fill, OrderType, Deal, Tick, Reply, Terminal, Exc, attribute_error,
  World, Action,
}
use exec_relay.Shim.Params.{
  Params, Command, buylimit, selllimit, buystop, sellstop, closelong, closeshort,
  closelongopenshort, closeshortopenlong, newsltplong, newsltpshort, unknown, command_of, fnum,
}
use exec_relay.Shim.Orders.{
  Error, judged, market_reply, market_at, market_deal, send_market, pending_reply, send_pending,
  min_lot,
}
use exec_relay.Shim.Execute.{
  market_result, fallback_result, price_invalid, after_pending, place_pending, reverse_after,
  at_market, resting, reversing, rejected_with, dispatch, opens, sized_dispatch, execute,
  comment_of,
}
use exec_relay.Shim.Outcome.{filled, rejected, Execution, is_some, tickets, entry_keys, fill_of}

-- What `send_market` returns: a reply that says DONE, or an error and no reply.
abbrev IsAnswer : Option Reply × Option Error → Type 0
IsAnswer (none, none) = ⊥
IsAnswer (none, some e) = Unit {0}
IsAnswer (some res, none) = is_done res.retcode ≡ true
IsAnswer (some res, some e) = ⊥

abbrev IsPendingAnswer : Option Reply × Option Error × Option Retcode → Type 0
IsPendingAnswer (res, error, code) = IsAnswer (res, error)

-- A report that is not "rejected" names at least one order.
abbrev pub IsBacked : {F : Type 0} → Execution F → Type 0
IsBacked e = ((fill_of e).status ≢ rejected) → e.orders ≢ []

-- The commands that send a new order.
unfoldable pub places : Command → Bool
places Command.buy = true
places Command.sell = true
places buylimit = true
places selllimit = true
places buystop = true
places sellstop = true
places closelongopenshort = true
places closeshortopenlong = true
places _ = false

append-nonempty : (xs : List ℕ) (n : ℕ) → (xs ++ n ∷ []) ≢ []
append-nonempty [] n = ground arith
append-nonempty (x ∷ xs) n = ground arith

module _ {F S : Type 0} ⦃fl : Floats F⦄ (t : Terminal F S) where
  open fl use {zero, le}

  abbrev Gives : {A : Type 0} → (A → Type 0) → Action F S A → Type 0
  Gives Q m = Returns {E = Exc} Q m

  Gives-judged : (res : Option Reply) → Gives IsAnswer (judged t res)
  unfolding judged
  Gives-judged none = Returns-raise attribute_error
  Gives-judged (some res) =
      Returns-pure _ (elim (Bool-cases (is_done res.retcode)) [ inl e ↦ rw e e | inr e ↦ rw e tt ])

  Gives-market_reply : (req : Deal F) (res : Option Reply) → Gives IsAnswer (market_reply t req res)
  unfolding market_reply
  Gives-market_reply req none = Returns-pure _ tt
  Gives-market_reply req (some res) =
      Returns-if (is_invalid_fill res.retcode) _ _ (λ _. Returns-then _ _ Gives-judged)
        (λ _. Gives-judged (some res))

  Gives-send_market :
      (o : OrderType) (symbol : Text) (v : F) (c : Text) (sl tp : F)
      → Gives IsAnswer (send_market t o symbol v c sl tp)
  unfolding send_market market_at
  Gives-send_market o symbol v c sl tp = Returns-then _ _ at_tick
    where
      at_tick : (tick : Option (Tick F)) → Gives IsAnswer (market_at t tick o symbol v c sl tp)
      at_tick none = Returns-pure _ tt
      at_tick (some tick) =
          Returns-then _ _ (λ res. Gives-market_reply (market_deal t o symbol v c sl tp tick) res)

  pending_reply-IsAnswer : (res : Option Reply) → IsPendingAnswer (pending_reply t res)
  unfolding pending_reply
  pending_reply-IsAnswer none = tt
  pending_reply-IsAnswer (some res) = elim (Bool-cases (is_done res.retcode)) [
    | inl e ↦ rw e e
    | inr e ↦ rw e tt
  ]

  Gives-send_pending :
      (o : OrderType) (symbol : Text) (v entry sl tp : F) (c : Text)
      → Gives IsPendingAnswer (send_pending t o symbol v entry sl tp c)
  unfolding send_pending
  Gives-send_pending o symbol v entry sl tp c =
      Returns-then _ _ (λ res. Returns-pure _ (pending_reply-IsAnswer res))

  market_result-IsBacked :
      (v : F) (answer : Option Reply × Option Error)
      → IsAnswer answer
      → IsBacked (market_result t v answer)
  unfolding market_result tickets is_some fill_of
  market_result-IsBacked v (none, none) h = absurd h
  market_result-IsBacked v (none, some e) h = ground (arith)
  market_result-IsBacked v (some res, none) h = ground (arith)
  market_result-IsBacked v (some res, some e) h = absurd h

  fallback_result-IsBacked :
      (v : F) (answer : Option Reply × Option Error)
      → IsAnswer answer
      → IsBacked (fallback_result t v answer)
  unfolding fallback_result is_some fill_of
  fallback_result-IsBacked v (none, none) h = absurd h
  fallback_result-IsBacked v (none, some e) h = ground (arith)
  fallback_result-IsBacked v (some res, none) h = ground (arith)
  fallback_result-IsBacked v (some res, some e) h = absurd h

  Gives-after_pending :
      (o : OrderType) (symbol : Text) (v sl tp : F) (c : Text)
      (answer : Option Reply × Option Error × Option Retcode)
      → IsPendingAnswer answer
      → Gives IsBacked (after_pending t o symbol v sl tp c answer)
  unfolding after_pending is_some fill_of
  Gives-after_pending o symbol v sl tp c (some res, error, code) h = Returns-pure _ (ground (arith))
  Gives-after_pending o symbol v sl tp c (none, none, code) h = absurd h
  Gives-after_pending o symbol v sl tp c (none, some e, code) h =
      Returns-if (t.pending_fallback && price_invalid t code) _ _
        (λ _.
          Returns-bind _ _ (Gives-send_market o symbol v (c ++ codes "_M") sl tp)
            (λ answer a. Returns-pure _ (fallback_result-IsBacked v answer a)))
        (λ _. Returns-pure _ (ground (arith)))

  rejected_with-IsBacked : (e : Error) (v : F) → IsBacked (rejected_with t e v)
  unfolding rejected_with is_some fill_of
  rejected_with-IsBacked e v = ground (arith)

  Gives-resting :
      (o m : OrderType) (symbol : Text) (params : Params F) (v sl tp : F)
      → Gives IsBacked (resting t o m symbol params v sl tp)
  unfolding resting place_pending is_some fill_of
  Gives-resting o m symbol params v sl tp =
      Returns-if (le (fnum params entry_keys zero) zero) _ _ (λ _. Returns-pure _ (ground (arith)))
        (λ _.
          Returns-bind _ _
            (Gives-send_pending o symbol v (fnum params entry_keys zero) sl tp
              (comment_of t params))
            (Gives-after_pending m symbol v sl tp (comment_of t params)))

  Gives-at_market :
      (o : OrderType) (symbol : Text) (params : Params F) (v sl tp : F)
      → Gives IsBacked (at_market t o symbol params v sl tp)
  unfolding at_market
  Gives-at_market o symbol params v sl tp =
      Returns-bind _ _ (Gives-send_market o symbol v (comment_of t params) sl tp)
        (λ answer a. Returns-pure _ (market_result-IsBacked v answer a))

  reversed-IsBacked :
      (v : F) (closed : List ℕ) (answer : Option Reply × Option Error)
      → IsAnswer answer
      → IsBacked (record {
        status = filled;
        orders = closed ++ tickets answer.0;
        error = answer.1;
        volume = v;
      })
  unfolding tickets is_some fill_of
  reversed-IsBacked v closed (none, none) h = absurd h
  reversed-IsBacked v closed (none, some e) h = ground (arith)
  reversed-IsBacked v closed (some res, none) h = λ _. append-nonempty closed res.order
  reversed-IsBacked v closed (some res, some e) h = absurd h

  Gives-reverse_after :
      (o : OrderType) (symbol : Text) (v sl tp : F) (c : Text) (answer : List ℕ × Option Error)
      → Gives IsBacked (reverse_after t o symbol v sl tp c answer)
  unfolding reverse_after is_some fill_of
  Gives-reverse_after o symbol v sl tp c (closed, some e) = Returns-pure _ (ground (arith))
  Gives-reverse_after o symbol v sl tp c (closed, none) =
      Returns-bind _ _ (Gives-send_market o symbol v c sl tp)
        (λ answer a. Returns-pure _ (reversed-IsBacked v closed answer a))

  Gives-dispatch :
      (cmd : Command) (symbol : Text) (params : Params F) (v sl tp : F)
      → places cmd ≡ true
      → Gives IsBacked (dispatch t cmd symbol params v sl tp)
  unfolding dispatch places reversing
  Gives-dispatch Command.buy symbol params v sl tp h = Gives-at_market _ _ _ _ _ _
  Gives-dispatch Command.sell symbol params v sl tp h = Gives-at_market _ _ _ _ _ _
  Gives-dispatch buylimit symbol params v sl tp h = Gives-resting _ _ _ _ _ _ _
  Gives-dispatch selllimit symbol params v sl tp h = Gives-resting _ _ _ _ _ _ _
  Gives-dispatch buystop symbol params v sl tp h = Gives-resting _ _ _ _ _ _ _
  Gives-dispatch sellstop symbol params v sl tp h = Gives-resting _ _ _ _ _ _ _
  Gives-dispatch closelongopenshort symbol params v sl tp h =
      Returns-then _ _ (Gives-reverse_after OrderType.sell symbol v sl tp (comment_of t params))
  Gives-dispatch closeshortopenlong symbol params v sl tp h =
      Returns-then _ _ (Gives-reverse_after OrderType.buy symbol v sl tp (comment_of t params))
  Gives-dispatch closelong symbol params v sl tp h = ground (arith, h)
  Gives-dispatch closeshort symbol params v sl tp h = ground (arith, h)
  Gives-dispatch newsltplong symbol params v sl tp h = ground (arith, h)
  Gives-dispatch newsltpshort symbol params v sl tp h = ground (arith, h)
  Gives-dispatch unknown symbol params v sl tp h = ground (arith, h)

  Gives-sized_dispatch :
      (cmd : Command) (symbol : Text) (params : Params F) (v sl tp : F)
      → places cmd ≡ true
      → Gives IsBacked (sized_dispatch t cmd symbol params v sl tp)
  unfolding sized_dispatch
  Gives-sized_dispatch cmd symbol params v sl tp h = Returns-then _ _ (λ ref.
      Returns-then _ _ (λ sized.
        Returns-if (le sized zero) _ _ (λ _. Returns-pure _ (rejected_with-IsBacked min_lot sized))
          (λ _. Gives-dispatch cmd symbol params sized sl tp h)))

  -- When `execute` returns for a command that sends a new order, a fill that `run_session` reports as
  -- "filled" or "placed" names at least one order of the broker.
  pub execute-IsBacked :
      (m : List (Text × Text)) (command symbol : Text) (params : Params F) (w : World F S)
      → places (command_of (lower command)) ≡ true
      → Holds IsBacked (execute t m command symbol params w).0
  unfolding execute
  execute-IsBacked m command symbol params w h =
      (Returns-then _ _ (λ symbol. Returns-then _ _ (λ _.
          Returns-if (opens t (command_of (lower command))) _ _
            (λ _. Gives-sized_dispatch _ _ _ _ _ _ h) (λ _. Gives-dispatch _ _ _ _ _ _ h)))).at
        w
