-- ===== src/Shim/Monitor/Adds.antt =====
-- How many reports each part of a round of scripts/ea_shim.py adds to the log.
use native.Mathlib.Nat.{zero-add}
use exec_relay.Base.{
  ℕ, ◌+◌, ◌%◌, ◌≡◌, refl, ◌∙◌, Bool, ◌&&◌, Option, none, some, List, [], ◌∷◌, arith, ◌==◌,
  if◌then◌else◌, Bool-cases, inl, inr,
}
use exec_relay.Base.Exec.{Result, ok, err, pure, gets, modify, ◌>>=◌, catch}
use exec_relay.Base.Exec.Runs.{Ends, Runs, Runs-pure, Runs-gets, Runs-if, Runs-modify, Runs-bind}
use exec_relay.Base.Text.{Text}
use exec_relay.TradeStore.Db.{SignalRow, Db}
use exec_relay.TradeStore.Siblings.{Sibling, channel_flags, ids_except}
use exec_relay.Shim.Floats.{Floats}
use exec_relay.Shim.Terminal.{Position, Terminal, World, Exc, Action}
use exec_relay.Shim.Close.{
  decimal, own_row, channel_of, Reason, take_profit, stop_loss, other, cancel_siblings_after_close,
  move_siblings_to_breakeven, after_half, after_tp, handle_close_oco, is_half, classify_tp_close,
}
use exec_relay.Shim.Monitor.{
  on_world, look, look_or_raise, note, store, advance, closed_result, note_of, cancel_others,
  report_close, report_gone, report_known, keep_snapshot, snapshot, heartbeat, poll_with,
}
use exec_relay.Shim.Watched.{Account, CloseNote, Desk, Monitor, Watch, by_level, has}
use exec_relay.Shim.Monitor.Books.{reports, gone, gone_known}

-- `history_deals_get` answers, with deals or with None.
pub record Answers {F S : Type 0} (d : Desk F S) : Type 0 where
  pub at : (ticket : ℕ) (s : S) → Ends (λ a t. Unit {0}) (d.history_deals_get ticket s).0 s

module _ {F S : Type 0} where
  -- The run returns, adds so many reports of the position, and leaves the known book alone.
  abbrev pub Adds : ℕ → ℕ → {A : Type 0} → Monitor F S → A → Monitor F S → Type 0
  Adds k n s a t = (reports k t.log ≡ reports k s.log + n) × (t.known ≡ s.known)

  abbrev pub Moved : ℕ → ℕ → List (Position F) → Monitor F S → Unit {0} → Monitor F S → Type 0
  Moved k n current s a t = (reports k t.log ≡ reports k s.log + n) × (t.known ≡ some current)

  Adds-bind :
      {A B : Type 0} (k n j total : ℕ) (m : Watch F S A) (f : A → Watch F S B)
      → n + j ≡ total
      → Runs (Adds k n) m
      → ((a : A) → Runs (Adds k j) (f a))
      → Runs (Adds k total) (m >>= f)
  Adds-bind k n j total m f e rm rf =
      Runs-bind m f rm rf (λ s t u a b h i. (omega (arith, h.0, i.0, e), i.1 ∙ h.1))

  Adds-pure : {A : Type 0} (k : ℕ) (a : A) → Runs (Adds k 0) (pure {E = Exc} a)
  Adds-pure k a = Runs-pure a (λ s. (omega arith, refl))

  pub Adds-look : {A : Type 0} (k : ℕ) (f : S → A × S) → Runs (Adds k 0) (look {F = F} f)
  unfolding look pure
  Adds-look k f = record { at = λ s. (omega arith, refl) }

  Adds-look_or_raise :
      {A : Type 0} (k : ℕ) (f : S → Result Exc A × S)
      → ((s : S) → Ends (λ a t. Unit {0}) (f s).0 s)
      → Runs (Adds k 0) (look_or_raise {F = F} f)
  unfolding look_or_raise
  Adds-look_or_raise {A} k f h = record {
    at = λ s. passed (f s.world.mt5).0 (f s.world.mt5).1 s (h s.world.mt5);
  }
    where
      passed :
          (r : Result Exc A) (t : S) (s : Monitor F S)
          → Ends (λ a u. Unit {0}) r s.world.mt5
          → Ends (Adds k 0 s) r (record s { world = record s.world { mt5 = t } })
      passed (ok a) t s h = (omega arith, refl)
      passed (err e) t s h = absurd h

  Adds-store : (k : ℕ) (write : Db F → Db F) → Runs {E = Exc} (Adds k 0) (modify (store write))
  unfolding store
  Adds-store k write = Runs-modify (store write) (λ s. (omega arith, refl))

  Adds-note :
      (k : ℕ) (n : CloseNote F)
      → Runs {E = Exc} (Adds k (if k == n.position then 1 else 0)) (modify (note n))
  unfolding note
  Adds-note k n = Runs-modify (note n) (λ s. (omega arith, refl))

  abbrev AnyRun : {A : Type 0} → World F S → A → World F S → Type 0
  AnyRun s a t = Unit {0}

  Adds-on_world :
      {A : Type 0} (k : ℕ) (m : Action F S A) → Runs AnyRun m → Runs (Adds k 0) (on_world m)
  unfolding on_world
  Adds-on_world {A} k m rm = record {
    at = λ s. passed (m s.world).0 (m s.world).1 s (rm.at s.world);
  }
    where
      passed :
          (r : Result Exc A) (w : World F S) (s : Monitor F S)
          → Ends (λ a t. Unit {0}) r w
          → Ends (Adds k 0 s) r (record s { world = w })
      passed (ok a) w s h = (omega arith, refl)
      passed (err e) w s h = absurd h

  -- An exception that is swallowed.
  caught : (m : Action F S (Unit {0})) → Runs AnyRun (catch m (λ e. pure tt))
  unfolding catch pure
  caught m = record { at = λ w. swallowed (m w).0 (m w).1 }
    where
      swallowed :
          (r : Result Exc (Unit {0})) (t : World F S)
          → Ends
              (λ a u. Unit {0})
              (elim r as (λ _. Result Exc (Unit {0}) × World F S) [
                | ok a ↦ (ok a, t)
                | err e ↦ pure tt t
              ]).0
              (elim r as (λ _. Result Exc (Unit {0}) × World F S) [
                | ok a ↦ (ok a, t)
                | err e ↦ pure tt t
              ]).1
      swallowed (ok a) t = tt
      swallowed (err e) t = tt

module _ {F S : Type 0} ⦃fl : Floats F⦄ (t : Terminal F S) (like : Text → SignalRow F → Bool)
    (db : Db F) where
  move_siblings-Runs : (ids : List Text) → Runs (AnyRun {S = S}) (move_siblings_to_breakeven t ids)
  unfolding move_siblings_to_breakeven
  move_siblings-Runs [] = Runs-pure tt (λ s. tt)
  move_siblings-Runs (id ∷ ids) = caught _

  cancel_siblings-Runs :
      (ticket : ℕ) → Runs (AnyRun {S = S}) (cancel_siblings_after_close t like db ticket)
  unfolding cancel_siblings_after_close
  cancel_siblings-Runs ticket = caught _

  after_half-Runs :
      (works : Bool) (ticket : ℕ) (rows : List (Sibling F))
      → Runs (AnyRun {S = S}) (after_half t like db works ticket rows)
  unfolding after_half
  after_half-Runs works ticket rows =
      Runs-if (channel_flags works (channel_of (own_row (decimal ticket) rows)) db).breakeven _ _
        (λ _. move_siblings-Runs (ids_except (decimal ticket) rows)) (λ _. Runs-pure tt (λ s. tt))

  after_tp-Runs :
      (works : Bool) (ticket : ℕ) (rows : List (Sibling F))
      → Runs (AnyRun {S = S}) (after_tp t like db works ticket rows)
  unfolding after_tp
  after_tp-Runs works ticket [] = cancel_siblings-Runs ticket
  after_tp-Runs works ticket (r ∷ rows) =
      Runs-if (is_half (classify_tp_close (decimal ticket) (r ∷ rows))) _ _
        (λ _. after_half-Runs works ticket (r ∷ rows)) (λ _. cancel_siblings-Runs ticket)

  handle_close-Runs :
      (works : Bool) (ticket : ℕ) (reason : Reason)
      → Runs (AnyRun {S = S}) (handle_close_oco t like db works ticket reason)
  unfolding handle_close_oco
  handle_close-Runs works ticket stop_loss = cancel_siblings-Runs ticket
  handle_close-Runs works ticket take_profit = after_tp-Runs works ticket _
  handle_close-Runs works ticket other = Runs-pure tt (λ s. tt)

module _ {F S : Type 0} ⦃fl : Floats F⦄ (d : Desk F S) where
  Adds-cancel_others :
      (k ticket : ℕ) (reason : Reason) → Runs (Adds k 0) (cancel_others d ticket reason)
  unfolding cancel_others gets
  Adds-cancel_others k ticket reason =
      Runs-if (d.cancel_siblings_on_close && by_level reason) _ _
        (λ _.
          Adds-bind k 0 0 0 _ _ refl (Runs-gets (λ s. s.db) (λ s. (omega arith, refl))) (λ db.
            Adds-on_world k _ (handle_close-Runs d.terminal d.like db d.works ticket reason)))
        (λ _. Adds-pure k tt)

  Adds-keep_snapshot : (k : ℕ) (a : Option (Account F)) → Runs (Adds k 0) (keep_snapshot d a)
  unfolding keep_snapshot
  Adds-keep_snapshot k none = Adds-pure k tt
  Adds-keep_snapshot k (some a) =
      Adds-bind k 0 0 0 _ _ refl (Adds-look k d.now) (λ ts. Adds-store k _)

  Adds-snapshot : (k n : ℕ) → Runs (Adds k 0) (snapshot d n)
  unfolding snapshot
  Adds-snapshot k n =
      Runs-if (n % 60 == 0) _ _
        (λ _. Adds-bind k 0 0 0 _ _ refl (Adds-look k d.account_info) (λ a. Adds-keep_snapshot k a))
        (λ _. Adds-pure k tt)

  Adds-heartbeat : (k n : ℕ) → Runs (Adds k 0) (heartbeat d n)
  unfolding heartbeat
  Adds-heartbeat k n =
      Runs-if (n % 6 == 0) _ _
        (λ _. Adds-bind k 0 0 0 _ _ refl (Adds-look k d.account_info) (λ a.
          Adds-bind k 0 0 0 _ _ refl (Adds-look k d.now)
            (λ ts. Adds-bind k 0 0 0 _ _ refl (Adds-store k _) (λ _. Adds-store k _))))
        (λ _. Adds-pure k tt)

  module _ (answers : Answers d) where
    Adds-closed_result : (k ticket : ℕ) → Runs (Adds k 0) (closed_result d ticket)
    unfolding closed_result
    Adds-closed_result k ticket =
        Adds-bind k 0 0 0 _ _ refl
          (Adds-look_or_raise k (d.history_deals_get ticket) (answers.at ticket))
          (λ deals. Adds-pure k _)

    Adds-report_close :
        (k : ℕ) (p : Position F) → Runs (Adds k (if k == p.ticket then 1 else 0)) (report_close d p)
    unfolding report_close note_of
    Adds-report_close k p =
        let one : ℕ = if k == p.ticket then 1 else 0 in
        Adds-bind k 0 one one _ _ (zero-add one) (Adds-closed_result k p.ticket)
          (λ (profit, price, reason).
            Adds-bind k one 0 one _ _ (omega arith) (Adds-note k (note_of d p profit price)) (λ _.
              Adds-bind k 0 0 0 _ _ refl (Adds-look k d.now) (λ ts.
                Adds-bind k 0 0 0 _ _ refl (Adds-store k _)
                  (λ _. Adds-cancel_others k p.ticket reason))))

    Adds-report_gone :
        (k : ℕ) (current ps : List (Position F))
        → Runs (Adds k (gone k current ps)) (report_gone d current ps)
    unfolding report_gone gone
    Adds-report_gone k current [] = Adds-pure k tt
    Adds-report_gone k current (p ∷ ps) = elim (Bool-cases (has p.ticket current)) [
      | inl e ↦ rw e (rw (zero-add (gone k current ps)) (Adds-report_gone k current ps))
      | inr e ↦
          rw e (
            Adds-bind k _ _ _ _ _ refl (Adds-report_close k p) (λ _. Adds-report_gone k current ps))
    ]

    Adds-report_known :
        (k : ℕ) (current : List (Position F)) (known : Option (List (Position F)))
        → Runs (Adds k (gone_known k current known)) (report_known d current known)
    unfolding report_known gone_known
    Adds-report_known k current none = Adds-pure k tt
    Adds-report_known k current (some known) = Adds-report_gone k current known

    Moved-advance :
        (k : ℕ) (current : List (Position F))
        → Runs {E = Exc} (Moved {S = S} k 0 current) (modify (advance current))
    unfolding advance
    Moved-advance k current = Runs-modify (advance current) (λ s. (omega arith, refl))

    pub poll_with-Runs :
        (k : ℕ) (current : List (Position F))
        → Runs (λ s a t. Moved k (gone_known k current s.known) current s a t) (poll_with d current)
    unfolding poll_with gets
    poll_with-Runs k current =
        Runs-bind {R = λ s a t. (a ≡ s.known) × (t ≡ s)}
          {Q = λ a. Moved k (gone_known k current a) current} _ _
          (Runs-gets (λ s. s.known) (λ s. (refl, refl)))
          (λ known.
            Runs-bind {Q = λ a. Moved k 0 current} _ _ (Adds-report_known k current known)
              (λ _.
                Runs-bind {Q = λ a. Adds k 0} _ _ (Moved-advance k current)
                  (λ _.
                    Adds-bind k 0 0 0 _ _ refl
                      (Runs-gets (λ s. s.iteration) (λ s. (omega arith, refl)))
                      (λ n.
                        Adds-bind k 0 0 0 _ _ refl (Adds-snapshot k n) (λ _. Adds-heartbeat k n)))
                  (λ s t u a b h i. (omega (arith, h.0, i.0), i.1 ∙ h.1)))
              (λ s t u a b h i. (omega (arith, h.0, i.0), i.1)))
          (λ s t u a b h i. rw (← h.0) (rw (← h.1) i))
