-- ===== src/Portal/Licenses.antt =====
-- The routes of apps/portal-api/app.py that change licenses and instances. Reading an identifier as a
-- UUID is a parameter, new identifiers and secrets are arguments, and `works` says whether the audit log
-- can be written.
pub mod Rows
pub mod Isolation
pub mod Rotation
use exec_relay.Base.{
  update_where, ℕ, Bool, true, false, not, ◌&&◌, ◌||◌, Option, none, some, List, [], ◌∷◌, ◌++◌,
  ◌==◌, leb, if◌then◌else◌, keep,
}
use exec_relay.Base.Text.{Text, codes, text_eq, truthy}
use exec_relay.Base.Exec.{Exec, pure, raise, gets, modify, ◌>>=◌, ◌>>◌}
use exec_relay.Wire.Signal.{present}
use exec_relay.Portal.Tables.{
  LicenseRow, InstanceRow, Db, not_found, bad_request, conflict, unprocessable, internal, Route,
  first, or_404, audit,
}

-- WHERE id = $1 AND user_id = $2
unfoldable pub owned_by : ℕ → ℕ → LicenseRow → Bool
owned_by lid user l = l.id == lid && l.user_id == user

-- uuid.UUID(text), with an answer for the ValueError
unfoldable pub as_uuid : Option ℕ → Route ℕ → Route ℕ
as_uuid none other = other
as_uuid (some lid) other = pure lid

-- A letter, a digit, _ or -
unfoldable pub key_char : ℕ → Bool
key_char c =
    (leb b'A' c && leb c b'Z')
    || (leb b'a' c && leb c b'z')
    || (leb b'0' c && leb c b'9')
    || c == b'_'
    || c == b'-'

-- _INSTANCE_KEY_RE.match(key); its $ matches in front of a line feed at the end too
unfoldable pub key_rest : Text → Bool
unfolding key_char
key_rest [] = true
key_rest (c ∷ []) = key_char c || c == 10
key_rest (c ∷ d ∷ s) = key_char c && key_rest (d ∷ s)

unfoldable pub instance_key_ok : Text → Bool
unfolding key_char key_rest
instance_key_ok [] = false
instance_key_ok (c ∷ s) = key_char c && key_rest s

-- body.platform in ("mt4", "mt5", "dxtrade")
unfoldable pub platform_ok : Text → Bool
platform_ok p = text_eq p (codes "mt4") || text_eq p (codes "mt5") || text_eq p (codes "dxtrade")

-- UNIQUE (license_id, instance_key)
unfoldable pub taken_key : ℕ → Text → List InstanceRow → Bool
taken_key lid key [] = false
taken_key lid key (i ∷ rows) =
    (i.license_id == lid && text_eq i.instance_key key) || taken_key lid key rows

-- license_key TEXT NOT NULL UNIQUE
unfoldable pub used_key : Text → List LicenseRow → Bool
used_key key [] = false
used_key key (l ∷ rows) = text_eq l.license_key key || used_key key rows

-- _own_license(pool, license_id, user_id)
unfoldable pub own_license : (Text → Option ℕ) → Text → ℕ → Route LicenseRow
unfolding owned_by as_uuid first or_404
own_license uuid license_id user = do
  lid ← as_uuid (uuid license_id) (raise not_found)
  row ← gets (λ db. first (keep (owned_by lid user) db.licenses))
  or_404 row

-- hmac_secret = pending_hmac_secret, pending_hmac_secret = NULL
unfoldable pub promote : LicenseRow → LicenseRow
promote l = elim l.pending_hmac_secret [
  | none ↦ l
  | some secret ↦ record l { hmac_secret = secret; pending_hmac_secret = none }
]

module _ (uuid : Text → Option ℕ) (works : Bool) where
  -- create_license(user, pool), with the new key and the new secret; a key that is taken is not caught
  unfoldable pub create_license : ℕ → Text → Text → ℕ → Route (Unit {0})
  unfolding used_key audit
  create_license id license_key hmac_secret user = do
    used ← gets (λ db. used_key license_key db.licenses)
    if used then raise internal else do
      modify (λ db. record db {
        licenses =
            db.licenses
            ++ record {
              id = id;
              user_id = user;
              license_key = license_key;
              hmac_secret = hmac_secret;
              pending_hmac_secret = none;
              active = true;
            }
              ∷ [];
      })
      audit works user (codes "create_license")

  -- patch_license(license_id, body, user, pool); a license id that is no UUID is not caught
  unfoldable pub patch_license : Text → Bool → ℕ → Route (Unit {0})
  unfolding owned_by as_uuid first or_404 update_where audit
  patch_license license_id active user = do
    lid ← as_uuid (uuid license_id) (raise internal)
    row ← gets (λ db. first (keep (owned_by lid user) db.licenses))
    modify (λ db. record db {
      licenses = update_where (owned_by lid user) (λ l. record l { active = active }) db.licenses;
    })
    or_404 row
    audit works user (codes "patch_license")

  -- rotate_hmac(license_id, user, pool), with the new secret
  unfoldable pub rotate_hmac : Text → Text → ℕ → Route Text
  unfolding own_license update_where audit
  rotate_hmac license_id secret user = do
    lic ← own_license uuid license_id user
    modify (λ db. record db {
      licenses =
          update_where (λ l. l.id == lic.id) (λ l. record l { pending_hmac_secret = some secret })
            db.licenses;
    })
    audit works user (codes "rotate_hmac_start")
    pure secret

  -- confirm_rotation(license_id, user, pool)
  unfoldable pub confirm_rotation : Text → ℕ → Route (Unit {0})
  unfolding own_license update_where promote audit present
  confirm_rotation license_id user = do
    lic ← own_license uuid license_id user
    if not (present lic.pending_hmac_secret) then raise bad_request else do
      modify (λ db. record db { licenses = update_where (λ l. l.id == lic.id) promote db.licenses })
      audit works user (codes "rotate_hmac_confirm")

  -- create_instance(license_id, body, user, pool)
  unfoldable pub create_instance : Text → ℕ → Text → Text → ℕ → Route (Unit {0})
  unfolding own_license instance_key_ok platform_ok taken_key audit
  create_instance license_id id instance_key platform user =
      if not (platform_ok platform)
      then raise unprocessable
      else if not (instance_key_ok instance_key)
      then raise unprocessable
      else do
        lic ← own_license uuid license_id user
        taken ← gets (λ db. taken_key lic.id instance_key db.instances)
        if taken then raise conflict else do
          modify (λ db. record db {
            instances =
                db.instances
                ++ record {
                  id = id;
                  license_id = lic.id;
                  instance_key = instance_key;
                  platform = platform;
                  active = true;
                }
                  ∷ [];
          })
          audit works user (codes "create_instance")

  -- patch_instance(license_id, instance_id, body, user, pool)
  unfoldable pub patch_instance : Text → Text → Bool → ℕ → Route (Unit {0})
  unfolding own_license as_uuid first or_404 update_where audit
  patch_instance license_id instance_id active user = do
    lic ← own_license uuid license_id user
    iid ← as_uuid (uuid instance_id) (raise internal)
    row ← gets (λ db. first (keep (λ i. i.id == iid && i.license_id == lic.id) db.instances))
    modify (λ db. record db {
      instances =
          update_where (λ i. i.id == iid && i.license_id == lic.id)
            (λ i. record i { active = active }) db.instances;
    })
    or_404 row
    audit works user (codes "patch_instance")

-- f"{license_key}::{hmac_secret}:{instance_key}:{platform}:{pending}"
unfoldable pub config_line : LicenseRow → InstanceRow → Text
config_line l i =
    l.license_key
    ++ codes "::"
    ++ l.hmac_secret
    ++ codes ":"
    ++ i.instance_key
    ++ codes ":"
    ++ i.platform
    ++ codes ":"
    ++ elim l.pending_hmac_secret [ none ↦ [] | some secret ↦ secret ]

-- ";".join(parts)
unfoldable pub join_lines : List Text → Text
join_lines [] = []
join_lines (t ∷ []) = t
join_lines (t ∷ u ∷ ts) = t ++ codes ";" ++ join_lines (u ∷ ts)

unfoldable pub config_lines : LicenseRow → List InstanceRow → List Text
unfolding config_line
config_lines l [] = []
config_lines l (i ∷ rows) =
    let rest = config_lines l rows in
    if i.license_id == l.id && i.active then config_line l i ∷ rest else rest

-- export_config(license_id, user, pool)
unfoldable pub export_config : (Text → Option ℕ) → Text → ℕ → Route Text
unfolding own_license join_lines config_lines
export_config uuid license_id user = do
  lic ← own_license uuid license_id user
  gets (λ db. join_lines (config_lines lic db.instances))

-- A request of one of the routes that write.
pub data Call : Type 0 where
  new_license : ℕ → Text → Text → Call
  set_license : Text → Bool → Call
  start_rotation : Text → Text → Call
  end_rotation : Text → Call
  new_instance : Text → ℕ → Text → Text → Call
  set_instance : Text → Text → Bool → Call

module _ (uuid : Text → Option ℕ) (works : Bool) where
  -- The handler that the request is routed to, for the user whom the token names.
  unfoldable pub route : Call → ℕ → Route (Unit {0})
  unfolding create_license patch_license rotate_hmac confirm_rotation create_instance patch_instance
  route (new_license id key secret) user = create_license uuid works id key secret user
  route (set_license lid active) user = patch_license uuid works lid active user
  route (start_rotation lid secret) user = do rotate_hmac uuid works lid secret user; pure tt
  route (end_rotation lid) user = confirm_rotation uuid works lid user
  route (new_instance lid id key platform) user =
      create_instance uuid works lid id key platform user
  route (set_instance lid iid active) user = patch_instance uuid works lid iid active user
