-- ===== src/Shim/Monitor/Careful.antt =====
-- Which requests the loop of scripts/ea_shim.py hands to `order_send`.
use exec_relay.Base.{ℕ, zero, suc, ◌%◌, ◌≡◌, refl, ◌&&◌, Option, none, some, List, [], ◌∷◌, ◌==◌}
use exec_relay.Base.Exec.{Result, pure, modify}
use exec_relay.Base.Exec.Keeps.{Keeps, Keeps-pure, Keeps-gets, Keeps-if, Keeps-bind, Keeps-catch}
use exec_relay.TradeStore.Db.{Db}
use exec_relay.Shim.Floats.{Floats}
use exec_relay.Shim.Terminal.{Request, deal, pending, sltp, remove, Position, Exc, Action}
use exec_relay.Shim.Sent.{AllSent}
use exec_relay.Shim.Close.{Reason, to_breakeven}
use exec_relay.Shim.Close.Legs.{Keeps-handle_close_oco}
use exec_relay.Shim.Monitor.{
  on_world, look, look_or_raise, note, store, advance, closed_result, note_of, cancel_others,
  report_close, report_gone, report_known, keep_snapshot, snapshot, heartbeat, poll_with, poll,
  round, rounds,
}
use exec_relay.Shim.Watched.{
  Account, CloseNote, Desk, Monitor, Watch, or_empty, by_level, book_of, has,
}

-- It withdraws a pending order, or sets the levels of a position under the shim's magic number.
abbrev pub IsCareful : {F : Type 0} → ℕ → Request F → Type 0
IsCareful magic (deal d) = ⊥
IsCareful magic (pending p) = ⊥
IsCareful magic (sltp r) = r.magic ≡ magic
IsCareful magic (remove n) = Unit {0}

abbrev Sends : {F S : Type 0} → (Request F → Type 0) → Monitor F S → Type 0
Sends P s = AllSent P s.world

module _ {F S : Type 0} {P : Request F → Type 0} where
  Sends-on_world :
      {A : Type 0} (m : Action F S A)
      → Keeps {E = Exc} (AllSent {S = S} P) m
      → Keeps {E = Exc} (Sends {S = S} P) (on_world m)
  unfolding on_world
  Sends-on_world m km = record { at = λ s h. km.at s.world h }

  Sends-look : {A : Type 0} (f : S → A × S) → Keeps {E = Exc} (Sends {S = S} P) (look {F = F} f)
  unfolding look pure
  Sends-look f = record { at = λ s h. h }

  Sends-look_or_raise :
      {A : Type 0} (f : S → Result Exc A × S)
      → Keeps {E = Exc} (Sends {S = S} P) (look_or_raise {F = F} f)
  unfolding look_or_raise
  Sends-look_or_raise f = record { at = λ s h. h }

  Sends-store : (write : Db F → Db F) → Keeps {E = Exc} (Sends {S = S} P) (modify (store write))
  unfolding store modify
  Sends-store write = record { at = λ s h. h }

  Sends-note : (n : CloseNote F) → Keeps {E = Exc} (Sends {S = S} P) (modify (note n))
  unfolding note modify
  Sends-note n = record { at = λ s h. h }

  Sends-advance :
      (book : List (Position F)) → Keeps {E = Exc} (Sends {S = S} P) (modify (advance book))
  unfolding advance modify
  Sends-advance book = record { at = λ s h. h }

module _ {F S : Type 0} ⦃fl : Floats F⦄ (d : Desk F S) where
  abbrev Calm : {A : Type 0} → Watch F S A → Type 0
  Calm m = Keeps {E = Exc} (Sends {S = S} (IsCareful d.terminal.magic)) m

  Calm-cancel_others : (ticket : ℕ) (reason : Reason) → Calm (cancel_others d ticket reason)
  unfolding cancel_others to_breakeven
  Calm-cancel_others ticket reason =
      Keeps-if (d.cancel_siblings_on_close && by_level reason) _ _
        (λ _. Keeps-bind _ _ (Keeps-gets (λ s. s.db)) (λ db. Sends-on_world _ (
          Keeps-handle_close_oco d.terminal d.like db _ d.works ticket reason
            (record { removal = λ n m. tt; move = λ p m. refl }))))
        (λ _. Keeps-pure tt)

  Calm-report_close : (p : Position F) → Calm (report_close d p)
  unfolding report_close closed_result
  Calm-report_close p =
      Keeps-bind _ _
        (Keeps-bind _ _ (Sends-look_or_raise (d.history_deals_get p.ticket))
          (λ deals. Keeps-pure _))
        (λ (profit, price, reason). Keeps-bind _ _ (Sends-note (note_of d p profit price)) (λ _.
          Keeps-bind _ _ (Sends-look d.now)
            (λ ts. Keeps-bind _ _ (Sends-store _) (λ _. Calm-cancel_others p.ticket reason))))

  Calm-report_gone : (current ps : List (Position F)) → Calm (report_gone d current ps)
  unfolding report_gone
  Calm-report_gone current [] = Keeps-pure tt
  Calm-report_gone current (p ∷ ps) =
      Keeps-if (has p.ticket current) _ _ (λ _. Calm-report_gone current ps)
        (λ _. Keeps-bind _ _ (Calm-report_close p) (λ _. Calm-report_gone current ps))

  Calm-report_known :
      (current : List (Position F)) (known : Option (List (Position F)))
      → Calm (report_known d current known)
  unfolding report_known
  Calm-report_known current none = Keeps-pure tt
  Calm-report_known current (some known) = Calm-report_gone current known

  Calm-keep_snapshot : (a : Option (Account F)) → Calm (keep_snapshot d a)
  unfolding keep_snapshot
  Calm-keep_snapshot none = Keeps-pure tt
  Calm-keep_snapshot (some a) = Keeps-bind _ _ (Sends-look d.now) (λ ts. Sends-store _)

  Calm-snapshot : (n : ℕ) → Calm (snapshot d n)
  unfolding snapshot
  Calm-snapshot n =
      Keeps-if (n % 60 == 0) _ _
        (λ _. Keeps-bind _ _ (Sends-look d.account_info) (λ a. Calm-keep_snapshot a))
        (λ _. Keeps-pure tt)

  Calm-heartbeat : (n : ℕ) → Calm (heartbeat d n)
  unfolding heartbeat
  Calm-heartbeat n =
      Keeps-if (n % 6 == 0) _ _
        (λ _. Keeps-bind _ _ (Sends-look d.account_info) (λ a.
          Keeps-bind _ _ (Sends-look d.now)
            (λ ts. Keeps-bind _ _ (Sends-store _) (λ _. Sends-store _))))
        (λ _. Keeps-pure tt)

  Calm-poll : Calm (poll d)
  unfolding poll poll_with
  Calm-poll = Keeps-bind _ _ (Sends-look d.positions_get) (λ listed.
      Keeps-bind _ _ (Keeps-gets (λ s. s.known)) (λ known.
        Keeps-bind _ _ (Calm-report_known (book_of d.terminal.magic (or_empty listed)) known) (λ _.
          Keeps-bind _ _ (Sends-advance _) (λ _.
            Keeps-bind _ _ (Keeps-gets (λ s. s.iteration))
              (λ n. Keeps-bind _ _ (Calm-snapshot n) (λ _. Calm-heartbeat n))))))

  -- Whatever the terminal answers or raises, over any number of rounds every request that the loop
  -- hands to order_send withdraws a pending order, or sets levels under the shim's magic number: it
  -- opens, closes and places nothing.
  pub rounds-AllSent :
      (n : ℕ) (s : Monitor F S)
      → AllSent (IsCareful d.terminal.magic) s.world
      → AllSent (IsCareful d.terminal.magic) (rounds d n s).world
  unfolding rounds round
  rounds-AllSent zero s h = h
  rounds-AllSent (suc n) s h =
      rounds-AllSent n (round d s) ((Keeps-catch _ _ Calm-poll (λ e. Keeps-pure tt)).at s h)
