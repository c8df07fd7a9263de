-- ===== src/Shim/Close/Legs.antt =====
-- Which requests the one-cancels-other code of scripts/ea_shim.py sends.
use exec_relay.Base.{
  ℕ, ◌≡◌, refl, Bool, true, false, not, ◌||◌, some, List, [], ◌∷◌, ◌++◌, arith, ◌==◌, ap,
}
use exec_relay.Base.Text.{Text, mem}
use exec_relay.Base.Exec.Keeps.{Keeps, Keeps-pure, Keeps-if, Keeps-bind, Keeps-catch}
use exec_relay.TradeStore.Db.{SignalRow, Db}
use exec_relay.TradeStore.Siblings.{
  Sibling, sibling_order_rows, sibling_broker_order_ids, channel_flags, ids_except,
}
use exec_relay.Shim.Floats.{Floats}
use exec_relay.Shim.Terminal.{
  Request, deal, pending, sltp, remove, Position, PendingOrder, Terminal, Exc, World,
}
use exec_relay.Shim.Sent.{AllSent, Keeps-ask, Keeps-send}
use exec_relay.Shim.Close.{
  decimal, accepted, cancel_loop, cancel_pending_orders, to_breakeven, move_loop,
  move_siblings_to_breakeven, cancel_siblings_after_close, after_half, after_tp, handle_close_oco,
  Reason, take_profit, stop_loss, other, classify_tp_close, is_half, own_row, channel_of, half,
  kind_of,
}

-- A request that can only touch a listed leg of this signal.
abbrev pub IsForLeg : {F : Type 0} → ℕ → List Text → Request F → Type 0
IsForLeg magic ids (deal d) = ⊥
IsForLeg magic ids (pending p) = ⊥
IsForLeg magic ids (sltp r) = (mem (decimal r.position) ids ≡ true) × (r.magic ≡ magic)
IsForLeg magic ids (remove n) = mem (decimal n) ids ≡ true

-- … and only to move its levels.
abbrev pub IsMoveOf : {F : Type 0} → ℕ → List Text → Request F → Type 0
IsMoveOf magic ids (deal d) = ⊥
IsMoveOf magic ids (pending p) = ⊥
IsMoveOf magic ids (sltp r) = (mem (decimal r.position) ids ≡ true) × (r.magic ≡ magic)
IsMoveOf magic ids (remove n) = ⊥

not-or_left : (a b : Bool) → (not a || not b) ≡ false → a ≡ true
not-or_left a b h = ground arith

not-or_right : (a b : Bool) → (not a || not b) ≡ false → b ≡ true
not-or_right a b h = ground arith

module _ {F S : Type 0} (t : Terminal F S) where
  Keeps-cancel_loop :
      (P : Request F → Type 0) (ids : List Text)
      → ((n : ℕ) → mem (decimal n) ids ≡ true → P (remove n))
      → (os : List PendingOrder) (removed : List Text) (failures : List ℕ)
      → Keeps {E = Exc} (AllSent {S = S} P) (cancel_loop t ids os removed failures)
  unfolding cancel_loop
  Keeps-cancel_loop P ids ok [] removed failures = Keeps-pure (removed, failures)
  Keeps-cancel_loop P ids ok (o ∷ os) removed failures =
      let skip = not (mem (decimal o.ticket) ids) || not (o.magic == t.magic) in
      Keeps-if skip _ _ (λ e. Keeps-cancel_loop P ids ok os removed failures)
        (λ e.
          Keeps-bind _ _
            (Keeps-send t (remove o.ticket)
              (ok o.ticket (not-or_left (mem (decimal o.ticket) ids) (o.magic == t.magic) e)))
            (λ res.
              Keeps-if (accepted res) _ _
                (λ _. Keeps-cancel_loop P ids ok os (removed ++ decimal o.ticket ∷ []) failures)
                (λ _. Keeps-cancel_loop P ids ok os removed (failures ++ o.ticket ∷ []))))

  Keeps-move_loop :
      (P : Request F → Type 0) (ids : List Text)
      → ((p : Position F) → mem (decimal p.ticket) ids ≡ true → P (sltp (to_breakeven t p)))
      → (ps : List (Position F)) (moved : List Text) (failures : List ℕ)
      → Keeps {E = Exc} (AllSent {S = S} P) (move_loop t ids ps moved failures)
  unfolding move_loop
  Keeps-move_loop P ids ok [] moved failures = Keeps-pure (moved, failures)
  Keeps-move_loop P ids ok (p ∷ ps) moved failures =
      let skip = not (p.magic == t.magic) || not (mem (decimal p.ticket) ids) in
      Keeps-if skip _ _ (λ e. Keeps-move_loop P ids ok ps moved failures)
        (λ e.
          Keeps-bind _ _
            (Keeps-send t (sltp (to_breakeven t p))
              (ok p (not-or_right (p.magic == t.magic) (mem (decimal p.ticket) ids) e)))
            (λ res.
              Keeps-if (accepted res) _ _
                (λ _. Keeps-move_loop P ids ok ps (moved ++ decimal p.ticket ∷ []) failures)
                (λ _. Keeps-move_loop P ids ok ps moved (failures ++ p.ticket ∷ []))))

  Keeps-cancel_pending_orders :
      (P : Request F → Type 0) (ids : List Text)
      → ((n : ℕ) → mem (decimal n) ids ≡ true → P (remove n))
      → Keeps {E = Exc} (AllSent {S = S} P) (cancel_pending_orders t ids)
  unfolding cancel_pending_orders
  Keeps-cancel_pending_orders P [] ok = Keeps-pure ([], [])
  Keeps-cancel_pending_orders P (id ∷ ids) ok =
      Keeps-bind _ _ (Keeps-ask t.orders_get) (λ os. Keeps-cancel_loop P (id ∷ ids) ok os [] [])

  Keeps-move_siblings :
      (P : Request F → Type 0) (ids : List Text)
      → ((p : Position F) → mem (decimal p.ticket) ids ≡ true → P (sltp (to_breakeven t p)))
      → Keeps {E = Exc} (AllSent {S = S} P) (move_siblings_to_breakeven t ids)
  unfolding move_siblings_to_breakeven
  Keeps-move_siblings P [] ok = Keeps-pure tt
  Keeps-move_siblings P (id ∷ ids) ok =
      Keeps-catch _ _
        (Keeps-bind _ _ (Keeps-ask t.positions_get)
          (λ ps. Keeps-bind _ _ (Keeps-move_loop P (id ∷ ids) ok ps [] []) (λ _. Keeps-pure tt)))
        (λ e. Keeps-pure tt)

siblings-rows :
    {F : Type 0} (like : Text → SignalRow F → Bool) (db : Db F) (id leg : Text)
    (rows : List (Sibling F))
    → sibling_order_rows like id db ≡ rows
    → mem leg (ids_except id rows) ≡ true
    → mem leg (sibling_broker_order_ids like id db) ≡ true
unfolding sibling_broker_order_ids
siblings-rows like db id leg rows e m = rw e m

module _ {F S : Type 0} ⦃fl : Floats F⦄ (t : Terminal F S) (like : Text → SignalRow F → Bool)
    (db : Db F) where
  Keeps-cancel_siblings :
      (P : Request F → Type 0) (ticket : ℕ)
      → ((n : ℕ)
          → mem (decimal n) (sibling_broker_order_ids like (decimal ticket) db) ≡ true
          → P (remove n))
      → Keeps {E = Exc} (AllSent {S = S} P) (cancel_siblings_after_close t like db ticket)
  unfolding cancel_siblings_after_close
  Keeps-cancel_siblings P ticket ok =
      Keeps-catch _ _
        (Keeps-bind _ _
          (Keeps-cancel_pending_orders t P (sibling_broker_order_ids like (decimal ticket) db) ok)
          (λ _. Keeps-pure tt))
        (λ e. Keeps-pure tt)

  Keeps-after_half :
      (P : Request F → Type 0) (works : Bool) (ticket : ℕ) (rows : List (Sibling F))
      → ((p : Position F)
          → mem (decimal p.ticket) (ids_except (decimal ticket) rows) ≡ true
          → P (sltp (to_breakeven t p)))
      → Keeps {E = Exc} (AllSent {S = S} P) (after_half t like db works ticket rows)
  unfolding after_half
  Keeps-after_half P works ticket rows ok =
      let flags = channel_flags works (channel_of (own_row (decimal ticket) rows)) db in
      Keeps-if flags.breakeven _ _
        (λ _. Keeps-move_siblings t P (ids_except (decimal ticket) rows) ok) (λ _. Keeps-pure tt)

  -- What a predicate asks of the requests about the other legs of a signal.
  pub record Allows (P : Request F → Type 0) (ticket : ℕ) : Type 0 where
    pub removal :
        (n : ℕ)
        → mem (decimal n) (sibling_broker_order_ids like (decimal ticket) db) ≡ true
        → P (remove n)
    pub move :
        (p : Position F)
        → mem (decimal p.ticket) (sibling_broker_order_ids like (decimal ticket) db) ≡ true
        → P (sltp (to_breakeven t p))

  Keeps-after_tp :
      (P : Request F → Type 0) (works : Bool) (ticket : ℕ) (rows : List (Sibling F))
      → Allows P ticket
      → sibling_order_rows like (decimal ticket) db ≡ rows
      → Keeps {E = Exc} (AllSent {S = S} P) (after_tp t like db works ticket rows)
  unfolding after_tp
  Keeps-after_tp P works ticket [] ok e = Keeps-cancel_siblings P ticket ok.removal
  Keeps-after_tp P works ticket (r ∷ rows) ok e =
      Keeps-if (is_half (classify_tp_close (decimal ticket) (r ∷ rows))) _ _
        (λ _. Keeps-after_half P works ticket (r ∷ rows) (λ p m.
          ok.move p (siblings-rows like db (decimal ticket) (decimal p.ticket) (r ∷ rows) e m)))
        (λ _. Keeps-cancel_siblings P ticket ok.removal)

  pub Keeps-handle_close_oco :
      (P : Request F → Type 0) (works : Bool) (ticket : ℕ) (reason : Reason)
      → Allows P ticket
      → Keeps {E = Exc} (AllSent {S = S} P) (handle_close_oco t like db works ticket reason)
  unfolding handle_close_oco
  Keeps-handle_close_oco P works ticket stop_loss ok = Keeps-cancel_siblings P ticket ok.removal
  Keeps-handle_close_oco P works ticket other ok = Keeps-pure tt
  Keeps-handle_close_oco P works ticket take_profit ok =
      Keeps-after_tp P works ticket (sibling_order_rows like (decimal ticket) db) ok refl

  IsForLeg-Allows :
      (ticket : ℕ)
      → Allows (IsForLeg t.magic (sibling_broker_order_ids like (decimal ticket) db)) ticket
  unfolding to_breakeven
  IsForLeg-Allows ticket = record { removal = λ n m. m; move = λ p m. (m, refl) }

  -- Whatever the reason of the close, the requests sent remove pending orders or move levels, and each
  -- is for a ticket among the siblings that the trade store gives: no deal is sent, no order placed.
  pub handle_close_oco-IsForLeg :
      (works : Bool) (ticket : ℕ) (reason : Reason) (w : World F S)
      → AllSent (IsForLeg t.magic (sibling_broker_order_ids like (decimal ticket) db)) w
      → AllSent
          (IsForLeg t.magic (sibling_broker_order_ids like (decimal ticket) db))
          (handle_close_oco t like db works ticket reason w).1
  handle_close_oco-IsForLeg works ticket reason w h =
      (Keeps-handle_close_oco _ works ticket reason (IsForLeg-Allows ticket)).at w h

  after_tp_half :
      (works : Bool) (ticket : ℕ) (rows : List (Sibling F))
      → is_half (classify_tp_close (decimal ticket) rows) ≡ true
      → after_tp t like db works ticket rows ≡ after_half {S = S} t like db works ticket rows
  unfolding after_tp after_half classify_tp_close own_row kind_of is_half
  after_tp_half works ticket [] h = ground (arith, h)
  after_tp_half works ticket (r ∷ rows) h = rw h refl

  -- When the store says that the half-TP leg closed, no pending order is removed: every request sent
  -- moves the levels of an open sibling of this signal, under the shim's magic number.
  pub handle_close_oco-half :
      (works : Bool) (ticket : ℕ) (w : World F S)
      → classify_tp_close (decimal ticket) (sibling_order_rows like (decimal ticket) db) ≡ some half
      → AllSent (IsMoveOf t.magic (sibling_broker_order_ids like (decimal ticket) db)) w
      → AllSent
          (IsMoveOf t.magic (sibling_broker_order_ids like (decimal ticket) db))
          (handle_close_oco t like db works ticket take_profit w).1
  unfolding handle_close_oco sibling_broker_order_ids to_breakeven is_half
  handle_close_oco-half works ticket w h sent =
      let rows = sibling_order_rows like (decimal ticket) db in
      rw (after_tp_half works ticket rows (ap is_half h))
        ((Keeps-after_half _ works ticket rows (λ p m. (m, refl))).at w sent)
