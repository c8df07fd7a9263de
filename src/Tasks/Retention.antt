-- ===== src/Tasks/Retention.antt =====
-- What the data retention of apps/tasks/app.py never deletes.
use exec_relay.Base.{ℕ, ◌≡◌, refl, ◌∙◌, Bool, true, false, not, List, [], ◌∷◌, keep, arith}
use exec_relay.Base.Exec.{modify}
use exec_relay.Base.Exec.Keeps.{Keeps, Keeps-bind, Keeps-catch}
use exec_relay.Tasks.{SignalRow, FillRow, Db, next_fault, statement, data_retention, expired}

keep-keep : {A : Type 0} (p : A → Bool) (rows : List A) → keep p (keep p rows) ≡ keep p rows
unfolding keep
keep-keep p [] = refl
keep-keep p (a ∷ rows) = ground (arith, keep-keep p rows)

-- The rows that are not older than the retention.
abbrev pub recent_fills : ℕ → ℕ → List FillRow → List FillRow
recent_fills days now = keep (λ f. not (expired days now f.created_at))

abbrev pub recent_signals : ℕ → ℕ → List SignalRow → List SignalRow
recent_signals days now = keep (λ s. not (expired days now s.received_at))

abbrev pub recent_times : ℕ → ℕ → List ℕ → List ℕ
recent_times days now = keep (λ t. not (expired days now t))

-- The recent rows of the three tables are those of `db`.
abbrev pub HasRecent : ℕ → ℕ → Db → Db → Type 0
HasRecent days now db d =
    (recent_fills days now d.fills ≡ recent_fills days now db.fills)
    × (recent_times days now d.fingerprints ≡ recent_times days now db.fingerprints)
    × (recent_signals days now d.accepted ≡ recent_signals days now db.accepted)

module _ (drop_chunks : ℕ → List SignalRow → List SignalRow) (days now : ℕ) where
  Keeps-statement : (db : Db) → Keeps (HasRecent days now db) statement
  unfolding statement
  Keeps-statement db = record { at = λ d h. by_faults d.faults d h }
    where
      by_faults :
          (faults : List Bool) (d : Db)
          → HasRecent days now db d
          → HasRecent days now db (next_fault faults d).1
      by_faults [] d h = h
      by_faults (false ∷ faults) d h = h
      by_faults (true ∷ faults) d h = h

  -- A run of data_retention deletes no fill, fingerprint or signal within the retention, whichever
  -- statements fail, given that drop_chunks drops no such signal.
  pub data_retention-recent :
      ((signals : List SignalRow)
        → recent_signals days now (drop_chunks days signals) ≡ recent_signals days now signals)
      → (db : Db) → HasRecent days now db (data_retention drop_chunks days now db).1
  unfolding data_retention modify
  data_retention-recent dropped db = kept.at db (refl, refl, refl)
    where
      kept : Keeps (HasRecent days now db) (data_retention drop_chunks days now)
      kept = Keeps-bind _ _ (Keeps-statement db) (λ u.
          Keeps-bind _ _ record { at = λ d (f, t, s). (keep-keep _ d.fills ∙ f, t, s) }
            (λ u. Keeps-bind _ _ (Keeps-statement db) (λ u.
              Keeps-bind _ _ record { at = λ d (f, t, s). (f, keep-keep _ d.fingerprints ∙ t, s) }
                (λ u.
                  Keeps-catch _ _
                    (Keeps-bind _ _ (Keeps-statement db)
                      (λ u. record { at = λ d (f, t, s). (f, t, dropped d.accepted ∙ s) }))
                    (λ e.
                      Keeps-bind _ _ (Keeps-statement db) (λ u. record {
                        at = λ d (f, t, s). (f, t, keep-keep _ d.accepted ∙ s);
                      }))))))
