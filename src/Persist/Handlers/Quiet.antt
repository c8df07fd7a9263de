-- ===== src/Persist/Handlers/Quiet.antt =====
-- No helper of apps/persist/app.py acknowledges a message: that is left to the handlers.
use exec_relay.Base.{ℕ, ◌≡◌, refl, Bool, true, false, Option, none, some, List, [], ◌∷◌}
use exec_relay.Base.Text.{Text, codes, truthy, text_eq}
use exec_relay.Base.Exec.{modify}
use exec_relay.Base.Exec.Keeps.{
  Keeps, Keeps-pure, Keeps-raise, Keeps-gets, Keeps-if, Keeps-bind, Keeps-catch,
}
use exec_relay.TradeStore.Settings.{lookup}
use exec_relay.Wire.Signal.{Signal, get_or}
use exec_relay.Persist.Tables.{
  Instance, Store, Failure, bad_argument, bad_number, Work, next_fault, statement,
}
use exec_relay.Persist.Signals.{
  deadletter, insert_fingerprint, claim, claimed, insert_accepted, store_signal, persist_signal,
}
use exec_relay.Persist.Fills.{
  Json, bound, bound_or_empty, text_of, some_bound, bound_or_none, text_or_none, insert_fill,
  persist_fill,
}
use exec_relay.Persist.Events.{
  number, number_or_zero, int_of, persist_request_log, open_session, persist_ea_connected,
  close_session, persist_ea_disconnected, persist_rejection,
}
use exec_relay.Persist.Handlers.{store_event}

module _ {V : Type 0} (n : ℕ) where
  -- As many acknowledgements as before.
  abbrev pub Quiet : {A : Type 0} → Work V A → Type 0
  Quiet m = Keeps {E = Failure} (λ s. s.acks ≡ n) m

  Quiet-next_fault : (faults : List Bool) → Quiet (next_fault faults)
  unfolding next_fault
  Quiet-next_fault [] = record { at = λ s h. h }
  Quiet-next_fault (false ∷ faults) = record { at = λ s h. h }
  Quiet-next_fault (true ∷ faults) = record { at = λ s h. h }

  pub Quiet-statement : Quiet statement
  unfolding statement
  Quiet-statement = record { at = λ s h. (Quiet-next_fault s.faults).at s h }

  pub Quiet-modify :
      (f : Store V → Store V) → ((s : Store V) → (f s).acks ≡ s.acks) → Quiet (modify f)
  unfolding modify
  Quiet-modify f e = record { at = λ s h. rw (e s) h }

  pub Quiet-deadletter :
      (has_pool : Bool) (subject : Text) (raw : List ℕ) (reason error : Text)
      → Quiet (deadletter has_pool subject raw reason error)
  unfolding deadletter
  Quiet-deadletter has_pool subject raw reason error =
      Keeps-if has_pool _ _
        (λ _.
          Keeps-catch _ _
            (Keeps-bind _ _ Quiet-statement
              (λ _. Keeps-bind _ _ Quiet-statement (λ _. Quiet-modify _ (λ s. refl))))
            (λ e. Keeps-pure tt))
        (λ _. Keeps-pure tt)

  Quiet-claim : (license : ℕ) (sha : Text) → Quiet (claim license sha)
  unfolding claim insert_fingerprint
  Quiet-claim license sha =
      Keeps-if (truthy sha) _ _
        (λ _. Keeps-bind _ _ Quiet-statement (λ _.
          Keeps-bind _ _ (Keeps-gets (λ s. claimed license sha s.fingerprints)) (λ taken.
            Keeps-if taken _ _ (λ _. Keeps-pure false)
              (λ _. Keeps-bind _ _ (Quiet-modify _ (λ s. refl)) (λ _. Keeps-pure true)))))
        (λ _. Keeps-pure true)

  Quiet-insert_accepted :
      (license : ℕ) (sig : Signal) (raw : List ℕ) → Quiet (insert_accepted license sig raw)
  unfolding insert_accepted
  Quiet-insert_accepted license sig raw = Keeps-bind _ _ Quiet-statement (λ _.
      Keeps-bind _ _ (Keeps-gets _)
        (λ inst. Keeps-bind _ _ Quiet-statement (λ _. Quiet-modify _ (λ s. refl))))

  Quiet-store_signal :
      (lic : Option ℕ) (sig : Signal) (raw : List ℕ) → Quiet (store_signal lic sig raw)
  unfolding store_signal
  Quiet-store_signal none sig raw = Keeps-pure tt
  Quiet-store_signal (some license) sig raw =
      Keeps-bind _ _ (Quiet-claim license (get_or sig.body_sha256 [])) (λ fresh.
        Keeps-if fresh _ _ (λ _. Quiet-insert_accepted license sig raw) (λ _. Keeps-pure tt))

  pub Quiet-persist_signal : (sig : Signal) (raw : List ℕ) → Quiet (persist_signal sig raw)
  unfolding persist_signal
  Quiet-persist_signal sig raw = Keeps-bind _ _ Quiet-statement (λ _.
      Keeps-bind _ _ Quiet-statement
        (λ _. Keeps-bind _ _ (Keeps-gets _) (λ lic. Quiet-store_signal lic sig raw)))

module _ {V : Type 0} ⦃js : Json V⦄ (n : ℕ) where
  Quiet-bound : (t : Option Text) → Quiet {V = V} n (bound t)
  unfolding bound
  Quiet-bound none = Keeps-raise bad_argument
  Quiet-bound (some t) = Keeps-pure t

  Quiet-bound_or_empty : (o : Option V) → Quiet n (bound_or_empty o)
  unfolding bound_or_empty
  Quiet-bound_or_empty none = Keeps-pure []
  Quiet-bound_or_empty (some v) = Quiet-bound (js.text v)

  Quiet-text_of : (evt : List (Text × V)) (key : Text) → Quiet n (text_of evt key)
  unfolding text_of
  Quiet-text_of evt key = Quiet-bound_or_empty (lookup key evt)

  Quiet-some_bound : (t : Option Text) → Quiet {V = V} n (some_bound t)
  unfolding some_bound
  Quiet-some_bound none = Keeps-raise bad_argument
  Quiet-some_bound (some t) = Keeps-pure (some t)

  Quiet-bound_or_none : (o : Option V) → Quiet n (bound_or_none o)
  unfolding bound_or_none
  Quiet-bound_or_none none = Keeps-pure none
  Quiet-bound_or_none (some v) =
      Keeps-if (js.truth v) _ _ (λ _. Quiet-some_bound (js.text v)) (λ _. Keeps-pure none)

  Quiet-text_or_none : (evt : List (Text × V)) (key : Text) → Quiet n (text_or_none evt key)
  unfolding text_or_none
  Quiet-text_or_none evt key = Quiet-bound_or_none (lookup key evt)

  Quiet-number : (o : Option ℕ) → Quiet {V = V} n (number o)
  unfolding number
  Quiet-number none = Keeps-raise bad_number
  Quiet-number (some k) = Keeps-pure k

  Quiet-number_or_zero : (o : Option V) → Quiet n (number_or_zero o)
  unfolding number_or_zero
  Quiet-number_or_zero none = Keeps-pure 0
  Quiet-number_or_zero (some v) =
      Keeps-if (js.truth v) _ _ (λ _. Quiet-number (js.int v)) (λ _. Keeps-pure 0)

  Quiet-int_of : (evt : List (Text × V)) (key : Text) → Quiet n (int_of evt key)
  unfolding int_of
  Quiet-int_of evt key = Quiet-number_or_zero (lookup key evt)

  pub Quiet-persist_fill : (fill : List (Text × V)) → Quiet n (persist_fill fill)
  unfolding persist_fill insert_fill
  Quiet-persist_fill fill = Keeps-bind _ _ (Quiet-statement n) (λ _.
      Keeps-bind _ _ (Quiet-text_of fill _)
        (λ key. Keeps-bind _ _ (Quiet-statement n) (λ _. Keeps-bind _ _ (Keeps-gets _) at_row)))
    where
      at_row : (row : Option Instance) → Quiet n (insert_fill row fill)
      at_row none = Keeps-pure tt
      at_row (some i) = Keeps-bind _ _ (Quiet-text_of fill _) (λ _.
          Keeps-bind _ _ (Quiet-text_of fill _) (λ _.
            Keeps-bind _ _ (Quiet-text_or_none fill _) (λ _.
              Keeps-bind _ _ (Quiet-text_or_none fill _) (λ _.
                Keeps-bind _ _ (Quiet-text_or_none fill _)
                  (λ _. Keeps-bind _ _ (Quiet-statement n) (λ _. Quiet-modify n _ (λ s. refl)))))))

  Quiet-persist_ea_connected : (evt : List (Text × V)) → Quiet n (persist_ea_connected evt)
  unfolding persist_ea_connected open_session
  Quiet-persist_ea_connected evt = Keeps-bind _ _ (Quiet-statement n) (λ _.
      Keeps-bind _ _ (Quiet-text_of evt _)
        (λ key. Keeps-bind _ _ (Quiet-statement n) (λ _. Keeps-bind _ _ (Keeps-gets _) at_row)))
    where
      at_row : (row : Option Instance) → Quiet n (open_session row evt)
      at_row none = Keeps-pure tt
      at_row (some i) = Keeps-bind _ _ (Quiet-text_of evt _) (λ _.
          Keeps-bind _ _ (Quiet-text_of evt _) (λ _. Keeps-bind _ _ (Quiet-text_of evt _) (λ _.
            Keeps-bind _ _ (Quiet-text_of evt _) (λ _.
              Keeps-bind _ _ (Quiet-text_of evt _)
                (λ _. Keeps-bind _ _ (Quiet-statement n) (λ _. Quiet-modify n _ (λ s. refl)))))))

  Quiet-persist_ea_disconnected : (evt : List (Text × V)) → Quiet n (persist_ea_disconnected evt)
  unfolding persist_ea_disconnected close_session
  Quiet-persist_ea_disconnected evt = Keeps-bind _ _ (Quiet-statement n) (λ _.
      Keeps-bind _ _ (Quiet-text_of evt _)
        (λ key. Keeps-bind _ _ (Quiet-statement n) (λ _. Keeps-bind _ _ (Keeps-gets _) at_row)))
    where
      at_row : (row : Option ℕ) → Quiet {V = V} n (close_session row)
      at_row none = Keeps-pure tt
      at_row (some i) = Keeps-bind _ _ (Quiet-statement n) (λ _. Quiet-modify n _ (λ s. refl))

  Quiet-persist_rejection : (evt : List (Text × V)) → Quiet n (persist_rejection evt)
  unfolding persist_rejection
  Quiet-persist_rejection evt = Keeps-bind _ _ (Quiet-statement n) (λ _.
      Keeps-bind _ _ (Quiet-text_of evt _) (λ _. Keeps-bind _ _ (Quiet-text_of evt _) (λ _.
        Keeps-bind _ _ (Quiet-text_of evt _) (λ _.
          Keeps-bind _ _ (Quiet-text_of evt _)
            (λ _. Keeps-bind _ _ (Quiet-statement n) (λ _. Quiet-modify n _ (λ s. refl)))))))

  Quiet-persist_request_log : (evt : List (Text × V)) → Quiet n (persist_request_log evt)
  unfolding persist_request_log
  Quiet-persist_request_log evt = Keeps-bind _ _ (Quiet-statement n) (λ _.
      Keeps-bind _ _ (Quiet-text_or_none evt _) (λ _. Keeps-bind _ _ (Quiet-int_of evt _) (λ _.
        Keeps-bind _ _ (Quiet-int_of evt _)
          (λ _. Keeps-bind _ _ (Quiet-statement n) (λ _. Quiet-modify n _ (λ s. refl))))))

  pub Quiet-store_event :
      (subject : Text) (evt : List (Text × V)) → Quiet n (store_event subject evt)
  unfolding store_event
  Quiet-store_event subject evt =
      Keeps-if (text_eq subject (codes "events.ea.connected")) _ _
        (λ _. Quiet-persist_ea_connected evt)
        (λ _.
          Keeps-if (text_eq subject (codes "events.ea.disconnected")) _ _
            (λ _. Quiet-persist_ea_disconnected evt)
            (λ _.
              Keeps-if (text_eq subject (codes "events.ingress.rejection")) _ _
                (λ _. Quiet-persist_rejection evt)
                (λ _.
                  Keeps-if (text_eq subject (codes "events.ingress.request")) _ _
                    (λ _. Quiet-persist_request_log evt) (λ _. Keeps-pure tt))))
