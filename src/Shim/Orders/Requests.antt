-- ===== src/Shim/Orders/Requests.antt =====
-- The requests that the order functions of scripts/ea_shim.py hand to the terminal.
use exec_relay.Base.{
  ℕ, ◌≡◌, refl, true, ◌||◌, Option, none, some, List, [], ◌∷◌, ◌≤◌, arith, length, length-take_le,
  if◌then◌else◌, Bool-cases, inl, inr,
}
use exec_relay.Base.Text.{Text, codes, truthy}
use exec_relay.Base.Exec.Keeps.{Keeps, Keeps-pure, Keeps-raise, Keeps-if, Keeps-bind}
use exec_relay.Shim.Floats.{Floats}
use exec_relay.Shim.Terminal.{
  is_done, is_invalid_fill, OrderType, Side, Deal, Request, deal, pending, sltp, remove, Reply,
  Tick, Position, Terminal, Exc, attribute_error, World, Action, fok,
}
use exec_relay.Shim.Sent.{AllSent, Keeps-ask, Keeps-send}
use exec_relay.Shim.Orders.{
  Error, order_comment, if_set, judged, market_reply, market_deal, market_at, send_market,
  pending_reply, send_pending, close_deal, close_retry, closed_as, close_one, close_next,
  close_loop, close_positions, amended, modify_next, modify_loop, modify_positions_sltp, skipped,
  out_of_scope,
}

module _ {F : Type 0} ⦃fl : Floats F⦄ where
  open fl use {zero, lt}

  -- An order level that is sent is positive.
  abbrev pub IsLevel : Option F → Type 0
  IsLevel none = Unit {0}
  IsLevel (some v) = lt zero v ≡ true

  -- Carries the magic number of the shim; a deal or a pending order has at most 26 characters of comment
  -- and no level of 0 besides. The levels of a position are set to what it has where none is given.
  abbrev pub IsTagged : ℕ → Request F → Type 0
  IsTagged magic (deal d) =
      (d.magic ≡ magic) × (length d.comment ≤ 26) × IsLevel d.sl × IsLevel d.tp
  IsTagged magic (pending p) =
      (p.magic ≡ magic) × (length p.comment ≤ 26) × IsLevel p.sl × IsLevel p.tp
  IsTagged magic (sltp r) = r.magic ≡ magic
  IsTagged magic (remove n) = ⊥

  if_set-IsLevel : (v : F) → IsLevel (if_set v)
  unfolding if_set
  if_set-IsLevel v = elim (Bool-cases (lt zero v)) [ inl e ↦ rw e e | inr e ↦ rw e tt ]

order_comment-length : (c : Text) → length (order_comment c) ≤ 26
unfolding order_comment
order_comment-length c = length-take_le 26 (if truthy c then c else codes "execrelay-shim")

module _ {F S : Type 0} ⦃fl : Floats F⦄ (t : Terminal F S) where
  abbrev pub Tagged : World F S → Type 0
  Tagged = AllSent (IsTagged t.magic)

  market_deal-IsTagged :
      (o : OrderType) (symbol : Text) (v : F) (c : Text) (sl tp : F) (tick : Tick F)
      → IsTagged t.magic (deal (market_deal t o symbol v c sl tp tick))
  unfolding market_deal
  market_deal-IsTagged o symbol v c sl tp tick =
      (refl, order_comment-length c, if_set-IsLevel sl, if_set-IsLevel tp)

  Keeps-judged : (res : Option Reply) → Keeps {E = Exc} Tagged (judged t res)
  unfolding judged
  Keeps-judged none = Keeps-raise attribute_error
  Keeps-judged (some res) = Keeps-pure _

  Keeps-market_reply :
      (req : Deal F) (res : Option Reply)
      → IsTagged t.magic (deal req)
      → Keeps {E = Exc} Tagged (market_reply t req res)
  unfolding market_reply
  Keeps-market_reply req none ok = Keeps-pure _
  Keeps-market_reply req (some res) ok =
      Keeps-if (is_invalid_fill res.retcode) _ _
        (λ _. Keeps-bind _ _ (Keeps-send t (deal (record req { filling = fok })) ok) Keeps-judged)
        (λ _. Keeps-judged (some res))

  pub Keeps-send_market :
      (o : OrderType) (symbol : Text) (v : F) (c : Text) (sl tp : F)
      → Keeps {E = Exc} Tagged (send_market t o symbol v c sl tp)
  unfolding send_market market_at
  Keeps-send_market o symbol v c sl tp =
      Keeps-bind _ _ (Keeps-ask (t.symbol_info_tick symbol)) at_tick
    where
      at_tick :
          (tick : Option (Tick F)) → Keeps {E = Exc} Tagged (market_at t tick o symbol v c sl tp)
      at_tick none = Keeps-pure _
      at_tick (some tick) =
          let ok = market_deal-IsTagged o symbol v c sl tp tick in
          Keeps-bind _ _ (Keeps-send t (deal (market_deal t o symbol v c sl tp tick)) ok)
            (λ res. Keeps-market_reply (market_deal t o symbol v c sl tp tick) res ok)

  pub Keeps-send_pending :
      (o : OrderType) (symbol : Text) (v entry sl tp : F) (c : Text)
      → Keeps {E = Exc} Tagged (send_pending t o symbol v entry sl tp c)
  unfolding send_pending
  Keeps-send_pending o symbol v entry sl tp c =
      Keeps-bind _ _
        (Keeps-send t _ (refl, order_comment-length c, if_set-IsLevel sl, if_set-IsLevel tp))
        (λ res. Keeps-pure (pending_reply t res))

  close_deal-IsTagged :
      (symbol : Text) (p : Position F) (tick : Tick F)
      → IsTagged t.magic (deal (close_deal t symbol p tick))
  unfolding close_deal
  close_deal-IsTagged symbol p tick = (refl, omega arith, tt, tt)

  Keeps-close_retry :
      (req : Deal F) (res : Option Reply)
      → IsTagged t.magic (deal req)
      → Keeps {E = Exc} Tagged (close_retry t req res)
  unfolding close_retry
  Keeps-close_retry req none ok = Keeps-pure none
  Keeps-close_retry req (some res) ok =
      Keeps-if (is_invalid_fill res.retcode) _ _
        (λ _. Keeps-send t (deal (record req { filling = fok })) ok) (λ _. Keeps-pure (some res))

  Keeps-close_one :
      (symbol : Text) (p : Position F) (tick : Option (Tick F))
      → Keeps {E = Exc} Tagged (close_one t symbol p tick)
  unfolding close_one
  Keeps-close_one symbol p none = Keeps-pure _
  Keeps-close_one symbol p (some tick) =
      let ok = close_deal-IsTagged symbol p tick in
      Keeps-bind _ _ (Keeps-send t (deal (close_deal t symbol p tick)) ok) (λ res.
        Keeps-bind _ _ (Keeps-close_retry (close_deal t symbol p tick) res ok)
          (λ res. Keeps-pure (closed_as t p res)))

  Keeps-close_next :
      (answer : Option Reply × Option Error) (closed : List ℕ)
      (go_on : List ℕ → Action F S (List ℕ × Option Error))
      → ((l : List ℕ) → Keeps {E = Exc} Tagged (go_on l))
      → Keeps {E = Exc} Tagged (close_next t answer closed go_on)
  unfolding close_next
  Keeps-close_next (some res, none) closed go_on k = k _
  Keeps-close_next (some res, some e) closed go_on k = Keeps-pure _
  Keeps-close_next (none, err) closed go_on k = Keeps-pure _

  Keeps-close_loop :
      (symbol : Text) (side : Side) (ps : List (Position F)) (closed : List ℕ)
      → Keeps {E = Exc} Tagged (close_loop t symbol side ps closed)
  unfolding close_loop
  Keeps-close_loop symbol side [] closed = Keeps-pure _
  Keeps-close_loop symbol side (p ∷ ps) closed =
      Keeps-if (skipped t side p) _ _ (λ _. Keeps-close_loop symbol side ps closed)
        (λ _. Keeps-bind _ _ (Keeps-ask (t.symbol_info_tick symbol)) (λ tick.
          Keeps-bind _ _ (Keeps-close_one symbol p tick)
            (λ answer. Keeps-close_next answer closed _ (Keeps-close_loop symbol side ps))))

  pub Keeps-close_positions :
      (symbol : Text) (side : Side) → Keeps {E = Exc} Tagged (close_positions t symbol side)
  unfolding close_positions
  Keeps-close_positions symbol side =
      Keeps-bind _ _ (Keeps-ask (t.positions_of symbol)) (λ ps. Keeps-close_loop symbol side ps [])

  Keeps-modify_next :
      (p : Position F) (res : Option Reply) (changed : List ℕ)
      (go_on : List ℕ → Action F S (List ℕ × Option Error))
      → ((l : List ℕ) → Keeps {E = Exc} Tagged (go_on l))
      → Keeps {E = Exc} Tagged (modify_next t p res changed go_on)
  unfolding modify_next
  Keeps-modify_next p none changed go_on k = Keeps-pure _
  Keeps-modify_next p (some res) changed go_on k =
      Keeps-if (is_done res.retcode) _ _ (λ _. k _) (λ _. Keeps-pure _)

  Keeps-modify_loop :
      (symbol : Text) (side : Side) (tp sl : F) (scope : Text) (ps : List (Position F))
      (changed : List ℕ)
      → Keeps {E = Exc} Tagged (modify_loop t symbol side tp sl scope ps changed)
  unfolding modify_loop amended
  Keeps-modify_loop symbol side tp sl scope [] changed = Keeps-pure _
  Keeps-modify_loop symbol side tp sl scope (p ∷ ps) changed =
      Keeps-if (skipped t side p || out_of_scope t scope p) _ _
        (λ _. Keeps-modify_loop symbol side tp sl scope ps changed)
        (λ _.
          Keeps-bind _ _ (Keeps-send t _ refl) (λ res.
            Keeps-modify_next p res changed _ (Keeps-modify_loop symbol side tp sl scope ps)))

  pub Keeps-modify_positions_sltp :
      (symbol : Text) (side : Side) (tp sl : F) (scope : Text)
      → Keeps {E = Exc} Tagged (modify_positions_sltp t symbol side tp sl scope)
  unfolding modify_positions_sltp
  Keeps-modify_positions_sltp symbol side tp sl scope =
      Keeps-bind _ _ (Keeps-ask (t.positions_of symbol))
        (λ ps. Keeps-modify_loop symbol side tp sl scope ps [])
