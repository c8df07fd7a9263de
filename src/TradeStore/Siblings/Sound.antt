-- ===== src/TradeStore/Siblings/Sound.antt =====
-- Which orders `sibling_broker_order_ids` may name.
use exec_relay.Base.{
  ◌≡◌, ◌≢◌, refl, ◌∙◌, ap, Bool, true, false, not, ◌||◌, Option, some, List, [], ◌∷◌, arith,
  Bool-cases, Option-cases, inl, inr, In, Some, keep, ◌⊎◌, sym,
}
use exec_relay.Base.Text.{Text, text_eq, text_eq-ne, truthy, mem}
use exec_relay.TradeStore.Db.{SignalRow, OrderRow, Db}
use exec_relay.TradeStore.Siblings.{
  Sibling, placed_as, first_trace, ids_of, find_signal, leg_of, push_leg, legs, legs_of_signal,
  sibling_order_rows, ids_except, sibling_broker_order_ids,
}

Some-keep :
    {A : Type 0} (P : A → Type 0) (p : A → Bool) (xs : List A) → Some P (keep p xs) → Some P xs
unfolding keep
Some-keep P p [] h = absurd h
Some-keep P p (x ∷ xs) h = elim (Bool-cases (p x)) [
  | inl e ↦ split (rw e at h) (Some-keep P p xs)
  | inr e ↦ inr (Some-keep P p xs (rw e at h))
]
  where
    split : P x ⊎ Some P (keep p xs) → (Some P (keep p xs) → Some P xs) → P x ⊎ Some P xs
    split (inl a) ih = inl a
    split (inr m) ih = inr (ih m)

known : (a b : Bool) → (not a || not b) ≡ false → b ≡ true
known a b e = ground arith

Some-map :
    {A : Type 0} (P Q : A → Type 0) → ((a : A) → P a → Q a) → (xs : List A) → Some P xs → Some Q xs
Some-map P Q f [] h = absurd h
Some-map P Q f (x ∷ xs) (inl h) = inl (f x h)
Some-map P Q f (x ∷ xs) (inr h) = inr (Some-map P Q f xs h)

module _ {F : Type 0} where
  In-ids_except :
      (id r : Text) (rows : List (Sibling F))
      → In r (ids_except id rows)
      → (text_eq r id ≡ false) × Some (λ s. s.broker_order_id ≡ r) rows
  unfolding ids_except
  In-ids_except id r [] h = absurd h
  In-ids_except id r (s ∷ rows) h = elim (Bool-cases (text_eq s.broker_order_id id)) [
    | inl same ↦ let (ne, at) = In-ids_except id r rows (rw same at h) in (ne, inr at)
    | inr other ↦ picked other (rw other at h) (In-ids_except id r rows)
  ]
    where
      picked :
          text_eq s.broker_order_id id ≡ false
          → (r ≡ s.broker_order_id) ⊎ In r (ids_except id rows)
          → (In r (ids_except id rows)
              → (text_eq r id ≡ false) × Some (λ t. t.broker_order_id ≡ r) rows)
          → (text_eq r id ≡ false)
            × ((s.broker_order_id ≡ r) ⊎ Some (λ t. t.broker_order_id ≡ r) rows)
      picked ne (inl e) ih = (rw e ne, inl (sym e))
      picked ne (inr m) ih = let (ne', at) = ih m in (ne', inr at)

  leg_of-some :
      (channel : Option Text) (o : OrderRow F) (s : Sibling F)
      → leg_of channel o ≡ some s
      → o.broker_order_id ≡ some s.broker_order_id
  unfolding leg_of
  leg_of-some channel o s e = ground arith

  -- A leg placed with the broker id `r`, whose trace id the signal lists.
  abbrev pub IsLeg : List Text → Text → OrderRow F → Type 0
  IsLeg traces r o = (mem o.trace_id traces ≡ true) × (o.broker_order_id ≡ some r)

  Some-push_leg :
      (channel : Option Text) (traces : List Text) (r : Text) (o : OrderRow F)
      (rest : List (Sibling F)) (rows : List (OrderRow F))
      → mem o.trace_id traces ≡ true
      → Some (λ s. s.broker_order_id ≡ r) (push_leg (leg_of channel o) rest)
      → (Some (λ s. s.broker_order_id ≡ r) rest → Some (IsLeg traces r) rows)
      → Some (IsLeg traces r) (o ∷ rows)
  unfolding push_leg
  Some-push_leg channel traces r o rest rows listed h ih = elim (Option-cases (leg_of channel o)) [
    | inl e ↦ inr (ih (rw e at h))
    | inr (s, e) ↦ first s e (rw e at h)
  ]
    where
      first :
          (s : Sibling F)
          → leg_of channel o ≡ some s
          → (s.broker_order_id ≡ r) ⊎ Some (λ t. t.broker_order_id ≡ r) rest
          → IsLeg traces r o ⊎ Some (IsLeg traces r) rows
      first s e (inl q) = inl (listed, leg_of-some channel o s e ∙ ap (λ (t : Text). some t) q)
      first s e (inr m) = inr (ih m)

  Some-legs :
      (channel : Option Text) (traces : List Text) (r : Text) (rows : List (OrderRow F))
      → Some (λ s. s.broker_order_id ≡ r) (legs channel traces rows)
      → Some (IsLeg traces r) rows
  unfolding legs
  Some-legs channel traces r [] h = absurd h
  Some-legs channel traces r (o ∷ rows) h = elim (Bool-cases (mem o.trace_id traces)) [
    | inl e ↦
        Some-push_leg channel traces r o (legs channel traces rows) rows e (rw e at h)
          (Some-legs channel traces r rows)
    | inr e ↦ inr (Some-legs channel traces r rows (rw e at h))
  ]

  Some-legs_of_signal :
      (trace r : Text) (signals : List (SignalRow F)) (orders : List (OrderRow F))
      → Some (λ s. s.broker_order_id ≡ r) (legs_of_signal (find_signal trace signals) orders)
      → Some (λ q. (mem trace (ids_of q) ≡ true) × Some (IsLeg (ids_of q) r) orders) signals
  unfolding legs_of_signal find_signal
  Some-legs_of_signal trace r [] orders h = absurd h
  Some-legs_of_signal trace r (q ∷ signals) orders h = elim (Bool-cases (mem trace (ids_of q))) [
    | inl e ↦ inl (e, Some-legs q.channel (ids_of q) r orders (rw e at h))
    | inr e ↦ inr (Some-legs_of_signal trace r signals orders (rw e at h))
  ]

  Some-first_trace :
      (p : OrderRow F → Bool) (t : Text) (rows : List (OrderRow F))
      → first_trace (keep p rows) ≡ t
      → truthy t ≡ true
      → Some (λ o. (p o ≡ true) × (o.trace_id ≡ t)) rows
  unfolding keep first_trace truthy
  Some-first_trace p t [] e h = ground arith
  Some-first_trace p t (o ∷ rows) e h = elim (Bool-cases (p o)) [
    | inl k ↦ inl (k, rw k at e)
    | inr k ↦ inr (Some-first_trace p t rows (rw k at e) h)
  ]

  -- A broker order id that `sibling_broker_order_ids` returns is another one than that asked about,
  -- and both are those of legs of one signal: an order placed with `id` has a trace id that some
  -- signal lists, and an order placed with `r` has a trace id that the same signal lists.
  pub sibling_broker_order_ids_sound :
      (like : Text → SignalRow F → Bool) (id r : Text) (db : Db F)
      → In r (sibling_broker_order_ids like id db)
      → (r ≢ id)
        × Some
            (λ o.
              (placed_as id o ≡ true)
              × Some
                  (λ q. (mem o.trace_id (ids_of q) ≡ true) × Some (IsLeg (ids_of q) r) db.orders)
                  db.signals)
            db.orders
  unfolding sibling_broker_order_ids sibling_order_rows
  sibling_broker_order_ids_sound like id r db h =
      let trace : Text = first_trace (keep (placed_as id) db.orders) in
      let rows : List (SignalRow F) = keep (like trace) db.signals in
      let (ne, at) = In-ids_except id r (sibling_order_rows like id db) h in
      let differs : r ≢ id = λ q. text_eq-ne r id ne (sym q) in
      elim (Bool-cases (not (truthy id) || not (truthy trace))) [
        | inl e ↦ absurd (rw e at at)
        | inr e ↦ (
          differs,
          Some-map _ _
              (λ o (q, same). (
                q,
                rw same (
                    Some-keep _ (like trace) db.signals
                      (Some-legs_of_signal trace r rows db.orders (rw e at at))),
              ))
              db.orders
              (Some-first_trace (placed_as id) trace db.orders refl
                (known (truthy id) (truthy trace) e)),
        )
      ]
