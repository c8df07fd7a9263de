-- ===== src/Portal/Licenses/Rotation.antt =====
-- How a new secret of a license of apps/portal-api/app.py becomes the secret.
use exec_relay.Base.{
  update_where, update_where-update_where, ℕ, ◌≡◌, refl, ap, ◌∙◌, Bool, true, Option, none, some,
  List, [], ◌∷◌, ◌==◌, keep, map, arith, inl, inr, Bool-cases,
}
use exec_relay.Base.Text.{Text, truthy}
use exec_relay.Base.Exec.{ok, pure, raise, gets, modify, ◌>>=◌}
use exec_relay.Wire.Signal.{present}
use exec_relay.Portal.Tables.{LicenseRow, Db, first, or_404, audit}
use exec_relay.Portal.Licenses.{
  owned_by, as_uuid, own_license, rotate_hmac, promote, confirm_rotation,
}

-- The license with a new secret that waits for its confirmation, and with it in force.
abbrev pub pending : Text → LicenseRow → LicenseRow
pending secret l = record l { pending_hmac_secret = some secret }

abbrev pub in_force : Text → LicenseRow → LicenseRow
in_force secret l = record l { hmac_secret = secret; pending_hmac_secret = none }

module _ {A : Type 0} where
  -- Rows that are all changed by an update that keeps what they are found by.
  keep-update_where_all :
      (p q : A → Bool) (f : A → A) (rows : List A)
      → ((a : A) → p a ≡ true → q a ≡ true)
      → ((a : A) → p (f a) ≡ p a)
      → keep p (update_where q f rows) ≡ map f (keep p rows)
  unfolding keep update_where
  keep-update_where_all p q f [] pq same = refl
  keep-update_where_all p q f (a ∷ rows) pq same =
      ground (arith, keep-update_where_all p q f rows pq same, pq a, same a)

  first-map :
      (f : A → A) (a : A) (rows : List A) → first rows ≡ some a → first (map f rows) ≡ some (f a)
  unfolding first
  first-map f a [] h = ground (arith, h)
  first-map f a (b ∷ rows) h = ground (arith, h)

own_id : (lid user : ℕ) (l : LicenseRow) → owned_by lid user l ≡ true → l.id ≡ lid
unfolding owned_by
own_id lid user l h = ground (arith, h)

owned_by-id :
    (lid user : ℕ) (lic : LicenseRow) (rows : List LicenseRow)
    → first (keep (owned_by lid user) rows) ≡ some lic
    → lic.id ≡ lid
unfolding first keep owned_by
owned_by-id lid user lic [] h = ground (arith, h)
owned_by-id lid user lic (l ∷ rows) h = ground (arith, h, owned_by-id lid user lic rows)

own_license-found :
    (uuid : Text → Option ℕ) (license_id : Text) (lid user : ℕ) (lic : LicenseRow) (db : Db)
    → uuid license_id ≡ some lid
    → first (keep (owned_by lid user) db.licenses) ≡ some lic
    → own_license uuid license_id user db ≡ (ok lic, db)
unfolding own_license as_uuid or_404 ◌>>=◌ pure raise gets
own_license-found uuid license_id lid user lic db e h = rw (e, h) refl

promote-pending : (secret : Text) → (λ l. promote (pending secret l)) ≡ in_force secret
unfolding promote
promote-pending secret = refl

module _ (uuid : Text → Option ℕ) (works : Bool) where
  rotate_hmac-found :
      (license_id secret : Text) (lid user : ℕ) (lic : LicenseRow) (db : Db)
      → uuid license_id ≡ some lid
      → first (keep (owned_by lid user) db.licenses) ≡ some lic
      → (rotate_hmac uuid works license_id secret user db).0 ≡ ok secret
        × ((rotate_hmac uuid works license_id secret user db).1.licenses
            ≡ update_where (λ l. l.id == lic.id) (pending secret) db.licenses)
        × ((rotate_hmac uuid works license_id secret user db).1.instances ≡ db.instances)
  unfolding rotate_hmac ◌>>=◌ modify audit pure
  rotate_hmac-found license_id secret lid user lic db e h =
      rw (own_license-found uuid license_id lid user lic db e h) (elim (Bool-cases works) [
        | inl w ↦ rw w (refl, refl, refl)
        | inr w ↦ rw w (refl, refl, refl)
      ])

  confirm_rotation-found :
      (license_id : Text) (lid user : ℕ) (lic : LicenseRow) (db : Db)
      → uuid license_id ≡ some lid
      → first (keep (owned_by lid user) db.licenses) ≡ some lic
      → present lic.pending_hmac_secret ≡ true
      → ((confirm_rotation uuid works license_id user db).0 ≡ ok tt)
        × ((confirm_rotation uuid works license_id user db).1.licenses
            ≡ update_where (λ l. l.id == lic.id) promote db.licenses)
        × ((confirm_rotation uuid works license_id user db).1.instances ≡ db.instances)
  unfolding confirm_rotation ◌>>=◌ modify audit pure
  confirm_rotation-found license_id lid user lic db e h p =
      rw (own_license-found uuid license_id lid user lic db e h, p)
        (elim (Bool-cases works) [
          | inl w ↦ rw w (refl, refl, refl)
          | inr w ↦ rw w (refl, refl, refl)
        ])

  -- A user starts the rotation of the secret of an own license and confirms it: both requests succeed,
  -- the start answers with the new secret, and afterwards the license has that secret and none that
  -- waits, every other license and every instance is as it was. The identifier reads as that license's
  -- and the new secret is not empty.
  pub rotation-confirmed :
      (license_id secret : Text) (lid user : ℕ) (lic : LicenseRow) (db : Db)
      → uuid license_id ≡ some lid
      → first (keep (owned_by lid user) db.licenses) ≡ some lic
      → truthy secret ≡ true
      → let started = rotate_hmac uuid works license_id secret user db in
        let ended = confirm_rotation uuid works license_id user started.1 in
        (started.0 ≡ ok secret)
        × (ended.0 ≡ ok tt)
        × (ended.1.licenses ≡ update_where (λ l. l.id == lid) (in_force secret) db.licenses)
        × (ended.1.instances ≡ db.instances)
  unfolding present
  rotation-confirmed license_id secret lid user lic db e h t =
      let same = owned_by-id lid user lic db.licenses h in
      let (answer, rows, kept) = rotate_hmac-found license_id secret lid user lic db e h in
      let found =
        ap first (
          ap (keep (owned_by lid user)) rows
          ∙ keep-update_where_all (owned_by lid user) _ (pending secret) db.licenses
              (λ l own. ground (arith, own_id lid user l own, same)) (λ l. unfold owned_by in refl))
        ∙ first-map (pending secret) lic _ h in
      let (done, rows', kept') =
        confirm_rotation-found license_id lid user (pending secret lic) _ e found t in
      (
        answer,
        done,
        rows'
            ∙ ap (update_where _ promote) rows
            ∙ update_where-update_where _ (pending secret) promote db.licenses (λ l. refl)
            ∙ ap (λ f. update_where (λ l. l.id == lic.id) f db.licenses) (promote-pending secret)
            ∙ ap (λ k. update_where (λ l. l.id == k) (in_force secret) db.licenses) same,
        kept' ∙ kept,
      )
