-- ===== src/Tasks/Timeouts.antt =====
-- What the check for fills of apps/tasks/app.py and its data retention do to the tables.
use exec_relay.Base.{
  ℕ, zero, suc, ◌≤◌, ◌≡◌, refl, sym, ap, ◌∙◌, Bool, true, false, not, ◌&&◌, ◌||◌, some, List, [],
  ◌∷◌, ◌++◌, keep, map, take, length, In, append_assoc, append-nil, arith, inl, inr, Bool-cases,
}
use exec_relay.Base.Text.{Text, codes, text_eq, text_eq_refl}
use exec_relay.Base.Exec.{ok, pure, gets, modify, ◌>>=◌}
use exec_relay.Tasks.{
  SignalRow, FillRow, EventRow, Db, next_fault, statement, for_each, reported, overdue, time_out,
  fill_timeout_check,
}

-- The rows that one overdue signal gets.
abbrev pub timeout_fill : ℕ → SignalRow → FillRow
timeout_fill now s = record {
  signal_id = some s.id;
  license_id = s.license_id;
  instance_id = s.instance_id;
  trace_id = s.trace_id;
  status = codes "timeout";
  created_at = now;
}

abbrev pub timeout_event : SignalRow → EventRow
timeout_event s = record { trace_id = s.trace_id; event_type = codes "fill_timeout" }

abbrev pub timed_out : ℕ → List SignalRow → Db → Db
timed_out now rows db = record db {
  fills = db.fills ++ map (timeout_fill now) rows;
  events = db.events ++ map timeout_event rows;
}

for_each-timed_out :
    (now : ℕ) (rows : List SignalRow) (db : Db)
    → for_each (time_out now) rows (record db { faults = [] })
      ≡ (ok tt, timed_out now rows (record db { faults = [] }))
unfolding for_each time_out statement next_fault modify pure ◌>>=◌
for_each-timed_out now [] db = λ i. (
  ok tt,
  record db {
    fills = sym (append-nil db.fills) i;
    events = sym (append-nil db.events) i;
    faults = [];
  },
)
for_each-timed_out now (s ∷ rows) db =
    for_each-timed_out now rows (record db {
      fills = db.fills ++ timeout_fill now s ∷ [];
      events = db.events ++ timeout_event s ∷ [];
    })
    ∙ (λ i. (
      ok tt,
      record db {
        fills = append_assoc db.fills (timeout_fill now s ∷ []) (map (timeout_fill now) rows) i;
        events = append_assoc db.events (timeout_event s ∷ []) (map timeout_event rows) i;
        faults = [];
      },
    ))

reported-append :
    (trace : Text) (one two : List FillRow)
    → reported trace (one ++ two) ≡ (reported trace one || reported trace two)
unfolding reported
reported-append trace [] two = refl
reported-append trace (f ∷ one) two = ground (arith, reported-append trace one two)

reported-timeout_fill :
    (now : ℕ) (s : SignalRow) (rows : List SignalRow)
    → In s rows
    → reported s.trace_id (map (timeout_fill now) rows) ≡ true
unfolding reported
reported-timeout_fill now s [] m = absurd m
reported-timeout_fill now s (r ∷ rows) (inl e) =
    ground (arith, ap (λ x. text_eq x.trace_id s.trace_id) (sym e) ∙ text_eq_refl s.trace_id)
reported-timeout_fill now s (r ∷ rows) (inr m) = ground (arith, reported-timeout_fill now s rows m)

module _ {A : Type 0} where
  take_all : (n : ℕ) (found : List A) → length found ≤ n → take n found ≡ found
  take_all zero [] h = refl
  take_all zero (a ∷ found) h = absurd (omega (arith, h))
  take_all (suc n) [] h = refl
  take_all (suc n) (a ∷ found) h = ap (λ l. a ∷ l) (take_all n found (omega (arith, h)))

  keep-In : (p : A → Bool) (a : A) (found : List A) → In a found → p a ≡ true → In a (keep p found)
  unfolding keep
  keep-In p a [] m e = absurd m
  keep-In p a (b ∷ found) (inl same) e = rw (ap p (sym same) ∙ e) (inl same)
  keep-In p a (b ∷ found) (inr m) e = elim (Bool-cases (p b)) [
    | inl t ↦ rw t (inr (keep-In p a found m e))
    | inr t ↦ rw t (keep-In p a found m e)
  ]

  keep-none :
      (p : A → Bool) (found : List A) → ((a : A) → In a found → p a ≡ false) → keep p found ≡ []
  unfolding keep
  keep-none p [] h = refl
  keep-none p (a ∷ found) h = rw (h a (inl refl)) (keep-none p found (λ b m. h b (inr m)))

module _ (timeout now : ℕ) where
  -- What is overdue with more fills was overdue without them.
  overdue-append :
      (s : SignalRow) (one two : List FillRow)
      → overdue timeout now (one ++ two) s
        ≡ (overdue timeout now one s && not (reported s.trace_id two))
  unfolding overdue
  overdue-append s one two = ground (arith, reported-append s.trace_id one two)

  none_overdue :
      (db : Db) (s : SignalRow)
      → In s db.accepted
      → overdue timeout now
          (db.fills ++ map (timeout_fill now) (keep (overdue timeout now db.fills) db.accepted))
          s
        ≡ false
  none_overdue db s m = elim (Bool-cases (overdue timeout now db.fills s)) [
    | inl e ↦ ground (
      arith,
      e,
      overdue-append s db.fills
          (map (timeout_fill now) (keep (overdue timeout now db.fills) db.accepted)),
      reported-timeout_fill now s _ (keep-In (overdue timeout now db.fills) s db.accepted m e),
    )
    | inr e ↦ ground (
      arith,
      e,
      overdue-append s db.fills
          (map (timeout_fill now) (keep (overdue timeout now db.fills) db.accepted)),
    )
  ]

  -- While the database works a run of fill_timeout_check returns and gives each of the first hundred
  -- overdue signals one fill with the status "timeout" and one event; when no more than a hundred are
  -- overdue, none is afterwards.
  pub fill_timeout_check-timed_out :
      (db : Db)
      → db.faults ≡ []
      → let found = keep (overdue timeout now db.fills) db.accepted in
        let after = fill_timeout_check timeout now db in
        (after ≡ (ok tt, timed_out now (take 100 found) db))
        × (length found ≤ 100 → keep (overdue timeout now after.1.fills) after.1.accepted ≡ [])
  unfolding fill_timeout_check statement next_fault gets ◌>>=◌
  fill_timeout_check-timed_out db e =
      let found = keep (overdue timeout now db.fills) db.accepted in
      let ran : fill_timeout_check timeout now db ≡ (ok tt, timed_out now (take 100 found) db) =
        rw e (for_each-timed_out now (take 100 found) db) in
      (ran, λ few. rw (ran, take_all 100 found few) (keep-none _ db.accepted (none_overdue db)))
