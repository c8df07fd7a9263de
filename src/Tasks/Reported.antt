-- ===== src/Tasks/Reported.antt =====
-- The check for fills of apps/tasks/app.py leaves the traces alone that have a fill.
use exec_relay.Base.{
  keep-append_one, ℕ, zero, suc, ◌≡◌, refl, ◌∙◌, Bool, true, false, List, [], ◌∷◌, keep, take, All,
  arith, inl, inr, Bool-cases,
}
use exec_relay.Base.Text.{Text, text_eq, text_eq_iff}
use exec_relay.Base.Exec.{gets, modify, ◌>>=◌}
use exec_relay.Base.Exec.Keeps.{Keeps, Keeps-pure, Keeps-bind}
use exec_relay.Tasks.{
  SignalRow, FillRow, Db, next_fault, statement, for_each, reported, overdue, time_out,
  fill_timeout_check,
}

-- The fills of a trace.
abbrev pub of_trace : Text → FillRow → Bool
of_trace trace f = text_eq f.trace_id trace

HasFills : Text → List FillRow → Db → Type 0
HasFills trace known db = keep (of_trace trace) db.fills ≡ known

Keeps-statement : (trace : Text) (known : List FillRow) → Keeps (HasFills trace known) statement
unfolding statement HasFills
Keeps-statement trace known = record { at = λ db h. by_faults db.faults db h }
  where
    by_faults :
        (faults : List Bool) (db : Db)
        → keep (of_trace trace) db.fills ≡ known
        → keep (of_trace trace) (next_fault faults db).1.fills ≡ known
    by_faults [] db h = h
    by_faults (false ∷ faults) db h = h
    by_faults (true ∷ faults) db h = h

Keeps-time_out :
    (trace : Text) (known : List FillRow) (now : ℕ) (s : SignalRow)
    → text_eq s.trace_id trace ≡ false
    → Keeps (HasFills trace known) (time_out now s)
unfolding time_out HasFills modify
Keeps-time_out trace known now s other = Keeps-bind _ _ (Keeps-statement trace known) (λ u.
    Keeps-bind _ _ record { at = λ db h. keep-append_one (of_trace trace) _ db.fills other ∙ h }
      (λ u. Keeps-bind _ _ (Keeps-statement trace known) (λ u. record { at = λ db h. h })))

Keeps-for_each :
    (trace : Text) (known : List FillRow) (now : ℕ) (rows : List SignalRow)
    → All (λ s. text_eq s.trace_id trace ≡ false) rows
    → Keeps (HasFills trace known) (for_each (time_out now) rows)
unfolding for_each
Keeps-for_each trace known now [] h = Keeps-pure tt
Keeps-for_each trace known now (s ∷ rows) (other, hs) =
    Keeps-bind _ _ (Keeps-time_out trace known now s other)
      (λ u. Keeps-for_each trace known now rows hs)

-- What is found overdue has another trace.
found_other :
    (timeout now n : ℕ) (trace : Text) (fills : List FillRow) (accepted : List SignalRow)
    → reported trace fills ≡ true
    → All
        (λ s. text_eq s.trace_id trace ≡ false)
        (take n (keep (overdue timeout now fills) accepted))
unfolding keep overdue
found_other timeout now zero trace fills accepted h = tt
found_other timeout now (suc n) trace fills [] h = tt
found_other timeout now (suc n) trace fills (s ∷ accepted) h =
    elim (Bool-cases (overdue timeout now fills s)) [
      | inl e ↦ rw e (other s e, found_other timeout now n trace fills accepted h)
      | inr e ↦ rw e (found_other timeout now (suc n) trace fills accepted h)
    ]
  where
    other : (s : SignalRow) → overdue timeout now fills s ≡ true → text_eq s.trace_id trace ≡ false
    other s e = elim (Bool-cases (text_eq s.trace_id trace)) [
      | inl t ↦
          let known : reported s.trace_id fills ≡ true =
            rw ((text_eq_iff s.trace_id trace).0 t) h in
          ground (arith, e, known)
      | inr t ↦ t
    ]

-- A run of fill_timeout_check gives no signal a timeout whose trace has a fill already: the fills of
-- that trace are the same afterwards, whichever statements fail.
pub fill_timeout_check-reported :
    (timeout now : ℕ) (trace : Text) (db : Db)
    → reported trace db.fills ≡ true
    → keep (of_trace trace) (fill_timeout_check timeout now db).1.fills
      ≡ keep (of_trace trace) db.fills
unfolding fill_timeout_check HasFills gets ◌>>=◌
fill_timeout_check-reported timeout now trace db h = by_faults db.faults refl
  where
    kept :
        (d : Db)
        → keep
            (of_trace trace)
            (for_each
              (time_out now)
              (take 100 (keep (overdue timeout now db.fills) db.accepted))
              (record db { faults = d.faults })).1.fills
          ≡ keep (of_trace trace) db.fills
    kept d =
        (Keeps-for_each trace _ now _ (found_other timeout now 100 trace db.fills db.accepted h)).at
          (record db { faults = d.faults }) refl

    by_faults :
        (faults : List Bool)
        → db.faults ≡ faults
        → keep (of_trace trace) (fill_timeout_check timeout now db).1.fills
          ≡ keep (of_trace trace) db.fills
    by_faults [] e = rw e (kept (record db { faults = [] }))
    by_faults (false ∷ faults) e = rw e (kept (record db { faults = faults }))
    by_faults (true ∷ faults) e = rw e refl
