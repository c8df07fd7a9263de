-- ===== src/Portal/Licenses/Isolation.antt =====
-- No route of apps/portal-api/app.py changes what belongs to another user.
use exec_relay.Base.{
  keep-append_one, All-weaken, update_where, ℕ, ◌≡◌, refl, ap, ◌∙◌, Bool, true, false, not, ◌&&◌,
  Option, none, some, List, [], ◌∷◌, ◌==◌, In, All, arith, inl, inr, Bool-cases, Option-cases,
}
use exec_relay.Base.Text.{Text}
use exec_relay.Base.Exec.{Result, ok, err, pure, raise, gets, modify, continue, ◌>>=◌, ◌>>◌}
use exec_relay.Wire.Signal.{present}
use exec_relay.Portal.Tables.{LicenseRow, InstanceRow, Db, HttpError, Route, or_404, audit}
use exec_relay.Portal.Licenses.{
  owned_by, as_uuid, instance_key_ok, platform_ok, taken_key, used_key, own_license, create_license,
  patch_license, rotate_hmac, promote, confirm_rotation, create_instance, patch_instance, Call,
  new_license, set_license, start_rotation, end_rotation, new_instance, set_instance, route,
}
use exec_relay.Portal.Licenses.Rows.{
  IsKeyed, foreign_instances, own_license-cases, keep-update_where, foreign, owns, keyed,
}

-- Other users' licenses, and the instances of licenses that are not the user's.
abbrev pub IsUntouched : ℕ → Db → Db → Type 0
IsUntouched user db db' =
    (foreign user db'.licenses ≡ foreign user db.licenses)
    × (foreign_instances user db.licenses db'.instances
        ≡ foreign_instances user db.licenses db.instances)

foreign-update_where :
    (user : ℕ) (p : LicenseRow → Bool) (f : LicenseRow → LicenseRow) (rows : List LicenseRow)
    → ((l : LicenseRow) → (f l).user_id ≡ l.user_id)
    → All (λ l. p l ≡ true → l.user_id ≡ user) rows
    → foreign user (update_where p f rows) ≡ foreign user rows
unfolding foreign
foreign-update_where user p f rows same h =
    keep-update_where p _ f rows (All-weaken _ _ rows (λ l own e. ground (arith, own e, same l)) h)

owns-In :
    (user : ℕ) (lic : LicenseRow) (rows : List LicenseRow)
    → In lic rows
    → lic.user_id ≡ user
    → owns user rows lic.id ≡ true
unfolding owns
owns-In user lic [] m own = absurd m
owns-In user lic (l ∷ rows) (inl e) own =
    ground (arith, ap (λ x. x.id) e, ap (λ x. x.user_id) e, own)
owns-In user lic (l ∷ rows) (inr m) own = ground (arith, owns-In user lic rows m own)

module _ (works : Bool) where
  audit-IsUntouched :
      {A : Type 0} (user : ℕ) (action : Text) (x : A) (db db' : Db)
      → IsUntouched user db db'
      → IsUntouched user db ((audit works user action >>= λ _. pure x) db').1
        × IsUntouched user db (audit works user action db').1
  unfolding audit modify pure ◌>>=◌
  audit-IsUntouched user action x db db' h = elim (Bool-cases works) [
    | inl e ↦ rw e (h, h)
    | inr e ↦ rw e (h, h)
  ]

promote-user_id : (l : LicenseRow) → (promote l).user_id ≡ l.user_id
unfolding promote
promote-user_id l = ground (arith)

module _ (uuid : Text → Option ℕ) (works : Bool) where
  own_license-IsUntouched :
      {A : Type 0} (license_id : Text) (user : ℕ) (db : Db) (next : LicenseRow → Route A)
      → ((lic : LicenseRow)
          → In lic db.licenses
          → lic.user_id ≡ user
          → IsUntouched user db (next lic db).1)
      → IsUntouched user db ((own_license uuid license_id user >>= next) db).1
  unfolding ◌>>=◌
  own_license-IsUntouched license_id user db next h =
      elim (own_license-cases uuid license_id user db) [
        | inl e ↦ rw e (refl, refl)
        | inr (lic, e, at, own) ↦ rw e (h lic at own)
      ]

  create_license-IsUntouched :
      (id : ℕ) (key secret : Text) (user : ℕ) (db : Db)
      → IsUntouched user db (create_license uuid works id key secret user db).1
  unfolding create_license ◌>>=◌ modify gets raise foreign
  create_license-IsUntouched id key secret user db = elim (Bool-cases (used_key key db.licenses)) [
    | inl e ↦ rw e (refl, refl)
    | inr e ↦ rw e (
        (audit-IsUntouched works user _ tt db _
          (keep-append_one _ _ db.licenses (ground (arith)), refl)).1)
  ]

  -- The rows with the key of an own license are the user's.
  own_rows :
      (user : ℕ) (lic : LicenseRow) (rows : List LicenseRow)
      → IsKeyed rows
      → In lic rows
      → lic.user_id ≡ user
      → All (λ l. (l.id == lic.id) ≡ true → l.user_id ≡ user) rows
  own_rows user lic rows h at own =
      All-weaken _ _ rows (λ l same e. same e ∙ own) (keyed lic rows h at)

  rotate_hmac-IsUntouched :
      (license_id secret : Text) (user : ℕ) (db : Db)
      → IsKeyed db.licenses
      → IsUntouched user db (rotate_hmac uuid works license_id secret user db).1
  unfolding rotate_hmac ◌>>=◌ modify
  rotate_hmac-IsUntouched license_id secret user db h =
      own_license-IsUntouched license_id user db _ (λ lic at own.
        (audit-IsUntouched works user _ secret db _ (
          foreign-update_where user _ _ db.licenses (λ l. refl)
              (own_rows user lic db.licenses h at own),
          refl,
        )).0)

  confirm_rotation-IsUntouched :
      (license_id : Text) (user : ℕ) (db : Db)
      → IsKeyed db.licenses
      → IsUntouched user db (confirm_rotation uuid works license_id user db).1
  unfolding confirm_rotation ◌>>=◌ modify raise
  confirm_rotation-IsUntouched license_id user db h =
      own_license-IsUntouched license_id user db _ (λ lic at own.
        elim (Bool-cases (not (present lic.pending_hmac_secret))) [
          | inl e ↦ rw e (refl, refl)
          | inr e ↦ rw e (
              (audit-IsUntouched works user _ tt db _ (
                foreign-update_where user _ _ db.licenses promote-user_id
                    (own_rows user lic db.licenses h at own),
                refl,
              )).1)
        ])

  forget : {A : Type 0} (m : Route A) (db : Db) → ((m >>= λ _. pure tt) db).1 ≡ (m db).1
  unfolding ◌>>=◌ pure
  forget m db = by_result (m db).0 (m db).1
    where
      by_result :
          {A : Type 0} (r : Result HttpError A) (db : Db)
          → (continue r (λ _. pure {E = HttpError} tt) db).1 ≡ db
      by_result (ok a) db = refl
      by_result (err e) db = refl

  -- The rows that a request of an owner picks by id and owner are the owner's.
  picked_own :
      (lid user : ℕ) (rows : List LicenseRow)
      → All (λ l. owned_by lid user l ≡ true → l.user_id ≡ user) rows
  unfolding owned_by
  picked_own lid user [] = tt
  picked_own lid user (l ∷ rows) = (λ e. ground (arith, e), picked_own lid user rows)

  or_404-IsUntouched :
      {A : Type 0} (user : ℕ) (action : Text) (row : Option A) (db db' : Db)
      → IsUntouched user db db'
      → IsUntouched user db ((or_404 row >> audit works user action) db').1
  unfolding or_404 raise pure ◌>>=◌
  or_404-IsUntouched user action none db db' h = h
  or_404-IsUntouched user action (some a) db db' h =
      (audit-IsUntouched works user action tt db db' h).1

  patch_license-IsUntouched :
      (license_id : Text) (active : Bool) (user : ℕ) (db : Db)
      → IsUntouched user db (patch_license uuid works license_id active user db).1
  unfolding patch_license ◌>>=◌ modify gets as_uuid raise pure
  patch_license-IsUntouched license_id active user db = elim (Option-cases (uuid license_id)) [
    | inl e ↦ rw e (refl, refl)
    | inr (lid, e) ↦ rw e (
        or_404-IsUntouched user _ _ db _ (
          foreign-update_where user _ _ db.licenses (λ l. refl) (picked_own lid user db.licenses),
          refl,
        ))
  ]

  create_instance-IsUntouched :
      (license_id : Text) (id : ℕ) (key platform : Text) (user : ℕ) (db : Db)
      → IsUntouched user db (create_instance uuid works license_id id key platform user db).1
  unfolding create_instance ◌>>=◌ modify gets raise foreign_instances
  create_instance-IsUntouched license_id id key platform user db =
      elim (Bool-cases (not (platform_ok platform))) [
        | inl e ↦ rw e (refl, refl)
        | inr e ↦ rw e (elim (Bool-cases (not (instance_key_ok key))) [
          | inl e' ↦ rw e' (refl, refl)
          | inr e' ↦ rw e' (
              own_license-IsUntouched license_id user db _ (λ lic at own.
                elim (Bool-cases (taken_key lic.id key db.instances)) [
                  | inl t ↦ rw t (refl, refl)
                  | inr t ↦ rw t (
                      (audit-IsUntouched works user _ tt db _ (
                        refl,
                        keep-append_one _ _ db.instances
                            (ap not (owns-In user lic db.licenses at own)),
                      )).1)
                ]))
        ])
      ]

  patch_instance-IsUntouched :
      (license_id instance_id : Text) (active : Bool) (user : ℕ) (db : Db)
      → IsUntouched user db (patch_instance uuid works license_id instance_id active user db).1
  unfolding patch_instance ◌>>=◌ modify gets as_uuid raise pure foreign_instances
  patch_instance-IsUntouched license_id instance_id active user db =
      own_license-IsUntouched license_id user db _ (λ lic at own.
        elim (Option-cases (uuid instance_id)) [
          | inl e ↦ rw e (refl, refl)
          | inr (iid, e) ↦ rw e (
              or_404-IsUntouched user _ _ db _ (
                refl,
                keep-update_where _ _ _ db.instances (
                    of_own user lic.id db.licenses (owns-In user lic db.licenses at own) iid
                      db.instances),
              ))
        ])
    where
      of_own :
          (user lid : ℕ) (licenses : List LicenseRow)
          → owns user licenses lid ≡ true
          → (iid : ℕ) (rows : List InstanceRow)
          → All
              (λ i.
                (i.id == iid && i.license_id == lid) ≡ true
                → (not (owns user licenses i.license_id) ≡ false)
                  × (not (owns user licenses i.license_id) ≡ false))
              rows
      of_own user lid licenses o iid [] = tt
      of_own user lid licenses o iid (i ∷ rows) = (
        λ e. let same : i.license_id ≡ lid = ground (arith, e) in rw (same, o) (refl, refl),
        of_own user lid licenses o iid rows,
      )

  -- A request changes no license of another user, and no instance of a license that is not the caller's,
  -- whatever it answers, for a table of licenses with distinct ids.
  pub route-IsUntouched :
      (call : Call) (user : ℕ) (db : Db)
      → IsKeyed db.licenses
      → IsUntouched user db (route uuid works call user db).1
  unfolding route ◌>>=◌ pure
  route-IsUntouched (new_license id key secret) user db h =
      create_license-IsUntouched id key secret user db
  route-IsUntouched (set_license lid active) user db h =
      patch_license-IsUntouched lid active user db
  route-IsUntouched (start_rotation lid secret) user db h =
      rw (forget (rotate_hmac uuid works lid secret user) db)
        (rotate_hmac-IsUntouched lid secret user db h)
  route-IsUntouched (end_rotation lid) user db h = confirm_rotation-IsUntouched lid user db h
  route-IsUntouched (new_instance lid id key platform) user db h =
      create_instance-IsUntouched lid id key platform user db
  route-IsUntouched (set_instance lid iid active) user db h =
      patch_instance-IsUntouched lid iid active user db
