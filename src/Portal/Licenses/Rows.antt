-- ===== src/Portal/Licenses/Rows.antt =====
-- The rows of a user and of all others in the tables of apps/portal-api/app.py.
use exec_relay.Base.{
  All-weaken, All-at, update_where, ℕ, ◌≡◌, ◌≢◌, refl, sym, ap, Bool, true, false, not, ◌&&◌, ◌||◌,
  Option, none, some, List, [], ◌∷◌, ◌==◌, keep, In-keep, In, All, arith, inl, inr, ◌⊎◌, Bool-cases,
}
use exec_relay.Base.Text.{Text}
use exec_relay.Base.Exec.{ok, err, pure, raise, gets, ◌>>=◌}
use exec_relay.Portal.Tables.{LicenseRow, InstanceRow, Db, not_found, first, or_404}
use exec_relay.Portal.Licenses.{owned_by, as_uuid, own_license}

-- Primary keys.
abbrev pub IsKeyed : List LicenseRow → Type 0
IsKeyed [] = Unit {0}
IsKeyed (l ∷ rows) = All (λ m. l.id ≢ m.id) rows × IsKeyed rows

-- The license rows of all other users.
unfoldable pub foreign : ℕ → List LicenseRow → List LicenseRow
foreign user = keep (λ l. not (l.user_id == user))

unfoldable pub owns : ℕ → List LicenseRow → ℕ → Bool
owns user [] lid = false
owns user (l ∷ rows) lid = (l.id == lid && l.user_id == user) || owns user rows lid

-- The instance rows of licenses that are not the user's.
unfoldable pub foreign_instances : ℕ → List LicenseRow → List InstanceRow → List InstanceRow
unfolding owns
foreign_instances user licenses = keep (λ i. not (owns user licenses i.license_id))

module _ {A : Type 0} where
  pub keep-update_where :
      (p q : A → Bool) (f : A → A) (rows : List A)
      → All (λ a. p a ≡ true → (q a ≡ false) × (q (f a) ≡ false)) rows
      → keep q (update_where p f rows) ≡ keep q rows
  unfolding keep update_where
  keep-update_where p q f [] h = refl
  keep-update_where p q f (a ∷ rows) (h, hs) = elim (Bool-cases (p a)) [
    | inl e ↦ let (out, out') = h e in rw (e, out, out') (keep-update_where p q f rows hs)
    | inr e ↦ rw (e, keep-update_where p q f rows hs) refl
  ]

  In-first : (a : A) (rows : List A) → first rows ≡ some a → In a rows
  unfolding first
  In-first a [] h = ground (arith, h)
  In-first a (b ∷ rows) h = ground (arith, h)

In-owned :
    (lid user : ℕ) (lic : LicenseRow) (rows : List LicenseRow)
    → first (keep (owned_by lid user) rows) ≡ some lic
    → In lic rows × (lic.user_id ≡ user)
unfolding owned_by
In-owned lid user lic rows h =
    let (at, own) =
      In-keep (owned_by lid user) lic rows (In-first lic (keep (owned_by lid user) rows) h) in
    (at, ground (arith, own))

-- A row with the key of a row of this table belongs to the same user.
pub keyed :
    (lic : LicenseRow) (rows : List LicenseRow)
    → IsKeyed rows
    → In lic rows
    → All (λ l. (l.id == lic.id) ≡ true → l.user_id ≡ lic.user_id) rows
keyed lic [] h m = absurd m
keyed lic (l ∷ rows) (h, hs) (inl e) = (
  λ q. ap (λ x. x.user_id) (sym e),
  All-weaken (λ m. l.id ≢ m.id) _ rows (λ m ne q. ground (arith, ne, q, e)) h,
)
keyed lic (l ∷ rows) (h, hs) (inr m) =
    (λ q. ground (arith, All-at (λ m. l.id ≢ m.id) lic rows h m, q), keyed lic rows hs m)

module _ (uuid : Text → Option ℕ) where
  -- What `own_license` answers: nothing is changed, and the row is one of the user's.
  pub own_license-cases :
      (license_id : Text) (user : ℕ) (db : Db)
      → (own_license uuid license_id user db ≡ (err not_found, db))
        ⊎ ((lic : LicenseRow) × (own_license uuid license_id user db ≡ (ok lic, db))
            × In lic db.licenses
            × (lic.user_id ≡ user))
  unfolding own_license as_uuid or_404 ◌>>=◌ pure raise gets
  own_license-cases license_id user db = by_uuid (uuid license_id)
    where
      by_row :
          (lid : ℕ) (o : Option LicenseRow)
          → first (keep (owned_by lid user) db.licenses) ≡ o
          → (or_404 o db ≡ (err not_found, db))
            ⊎ ((lic : LicenseRow) × (or_404 o db ≡ (ok lic, db))
                × In lic db.licenses
                × (lic.user_id ≡ user))
      by_row lid none e = inl refl
      by_row lid (some lic) e =
          let (at, own) = In-owned lid user lic db.licenses e in inr (lic, refl, at, own)

      by_uuid :
          (o : Option ℕ)
          → ((do
            lid ← as_uuid o (raise not_found)
            row ← gets (λ db. first (keep (owned_by lid user) db.licenses))
            or_404 row)
                db
              ≡ (err not_found, db))
            ⊎ ((lic : LicenseRow) × ((do
              lid ← as_uuid o (raise not_found)
              row ← gets (λ db. first (keep (owned_by lid user) db.licenses))
              or_404 row)
                    db
                  ≡ (ok lic, db))
                × In lic db.licenses
                × (lic.user_id ≡ user))
      by_uuid none = inl refl
      by_uuid (some lid) = by_row lid _ refl
