-- ===== src/Persist/Handlers/Duplicates.antt =====
-- The fingerprints by which apps/persist/app.py recognises a signal that it has seen.
use exec_relay.Base.{ℕ, ◌≡◌, refl, Bool, true, false, some, List, [], ◌∷◌, inl, inr, ◌⊎◌}
use exec_relay.Base.Text.{Text, truthy}
use exec_relay.Base.Exec.{ok, err, pure, gets, ◌>>=◌, ◌>>◌}
use exec_relay.Wire.Signal.{Signal, get_or}
use exec_relay.Persist.Tables.{Store, database, Work, next_fault, statement}
use exec_relay.Persist.Signals.{
  insert_fingerprint, claim, claimed, store_signal, persist_signal, active_license,
}

module _ {V : Type 0} where
  -- A statement fails or not, and uses up what `faults` says of it.
  statement-cases :
      (s : Store V)
      → (faults : List Bool) × ((statement s ≡ (ok tt, record s { faults = faults }))
          ⊎ (statement s ≡ (err database, record s { faults = faults })))
  unfolding statement next_fault
  statement-cases s = by_faults s.faults s
    where
      by_faults :
          (fs : List Bool) (s : Store V)
          → (faults : List Bool) × ((next_fault fs s ≡ (ok tt, record s { faults = faults }))
              ⊎ (next_fault fs s ≡ (err database, record s { faults = faults })))
      by_faults [] s = (s.faults, inl refl)
      by_faults (false ∷ fs) s = (fs, inl refl)
      by_faults (true ∷ fs) s = (fs, inr refl)

  after_statement :
      {A : Type 0} (m : Work V A) (s : Store V) (P : Store V → Type 0)
      → ((faults : List Bool) → P (record s { faults = faults }))
      → ((faults : List Bool) → P (m (record s { faults = faults })).1)
      → P ((statement >> m) s).1
  unfolding ◌>>=◌
  after_statement m s P failed went_on = elim (statement-cases s).1 [
    | inl e ↦ rw e (went_on (statement-cases s).0)
    | inr e ↦ rw e (failed (statement-cases s).0)
  ]

  claim-claimed :
      (license : ℕ) (sha : Text) (s : Store V)
      → truthy sha ≡ true
      → claimed license sha s.fingerprints ≡ true
      → (faults : List Bool) × ((claim license sha s ≡ (ok false, record s { faults = faults }))
          ⊎ (claim license sha s ≡ (err database, record s { faults = faults })))
  unfolding claim insert_fingerprint ◌>>=◌ gets pure
  claim-claimed license sha s t c = elim (statement-cases s).1 [
    | inl e ↦ ((statement-cases s).0, inl (rw (t, e, c) refl))
    | inr e ↦ ((statement-cases s).0, inr (rw (t, e) refl))
  ]

  claimed-dropped :
      (license : ℕ) (sig : Signal) (raw : List ℕ) (s : Store V)
      → truthy (get_or sig.body_sha256 []) ≡ true
      → claimed license (get_or sig.body_sha256 []) s.fingerprints ≡ true
      → (store_signal (some license) sig raw s).1.accepted ≡ s.accepted
  unfolding store_signal ◌>>=◌ pure
  claimed-dropped license sig raw s t c =
      elim (claim-claimed license (get_or sig.body_sha256 []) s t c).1 [
        | inl e ↦ rw e refl
        | inr e ↦ rw e refl
      ]

  -- A signal with a hash that its active license has already claimed is not stored again, whatever
  -- statements fail.
  pub persist_signal-claimed :
      (license : ℕ) (sig : Signal) (raw : List ℕ) (s : Store V)
      → active_license (get_or sig.license_id []) s.licenses ≡ some license
      → truthy (get_or sig.body_sha256 []) ≡ true
      → claimed license (get_or sig.body_sha256 []) s.fingerprints ≡ true
      → (persist_signal sig raw s).1.accepted ≡ s.accepted
  unfolding persist_signal ◌>>=◌ gets
  persist_signal-claimed license sig raw s l t c =
      after_statement _ s (λ s'. s'.accepted ≡ s.accepted) (λ f. refl)
        (λ f.
          after_statement _ (record s { faults = f }) (λ s'. s'.accepted ≡ s.accepted) (λ g. refl)
            (λ g. rw l (claimed-dropped license sig raw (record s { faults = g }) t c)))
