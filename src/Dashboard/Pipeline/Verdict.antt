-- ===== src/Dashboard/Pipeline/Verdict.antt =====
-- What the verdict of scripts/trade_dashboard.py on the pipeline means.
use exec_relay.Base.{
  ℕ, ◌≡◌, refl, ◌↔◌, Bool, true, false, ◌&&◌, Option, none, some, [], ◌∷◌, ◌++◌, arith,
  if◌then◌else◌, Option-cases, inl, inr,
}
use exec_relay.Base.Text.{Text, codes}
use exec_relay.TradeStore.Db.{Db}
use exec_relay.TradeStore.Settings.{meta_get}
use exec_relay.Shim.Floats.{Floats}
use exec_relay.Shim.Watched.{Heartbeat}
use exec_relay.Dashboard.DryRun.{Settings, effective_dry_run}
use exec_relay.Dashboard.Pipeline.{
  Link, Reason, Surroundings, answers_ok, up_if, text_of, state_of, reason_if, no_reason, is_fresh,
  status_with, pipeline_status,
}

answers_ok_iff : (o : Option ℕ) → (answers_ok o ≡ true) ↔ (o ≡ some 200)
unfolding answers_ok
answers_ok_iff none = ground (arith)
answers_ok_iff (some n) = ground (arith)

green_iff :
    (a b c d : Bool)
    → (no_reason (
          reason_if (up_if a) Link.ingress
          ++ (reason_if (up_if b) Link.bridge
              ++ (reason_if (up_if c) Link.ea_shim
                  ++ (reason_if (up_if c) Link.mt5 ++ (if d then Reason.dry_run_on ∷ [] else [])))))
        ≡ true)
      ↔ ((a ≡ true) × (b ≡ true) × (c ≡ true) × (d ≡ false))
unfolding no_reason reason_if up_if
green_iff true true true true = ground (arith)
green_iff true true true false = ground (arith)
green_iff true true false d = ground (arith)
green_iff true false c d = ground (arith)
green_iff false b c d = ground (arith)

module _ {F : Type 0} ⦃fl : Floats F⦄ (env : Settings) (world : Surroundings F) where
  -- The heartbeat is a recent time stamp.
  abbrev pub IsRecent : Option Text → Type 0
  IsRecent o =
      (t : Text) × (age : F) × (o ≡ some t)
      × (world.age_of t ≡ some age)
      × (fl.lt age world.stale_after ≡ true)

  -- The state that came with it says that the terminal is attached.
  abbrev pub IsAttached : Option Text → Type 0
  IsAttached o =
      (s : Text) × (hb : Heartbeat) × (o ≡ some s)
      × (world.read_state s ≡ some hb)
      × (hb.mt5 ≡ true)

  is_fresh_iff : (o : Option Text) → (is_fresh env world o ≡ true) ↔ IsRecent o
  unfolding is_fresh
  is_fresh_iff none = (λ h. absurd (cc), λ (t, age, e, f, g). absurd (cc))
  is_fresh_iff (some t) = (
    λ h. elim (Option-cases (world.age_of t)) [
      | inl e ↦ absurd (cc (rw (e, is_fresh) at h))
      | inr (age, e) ↦ (t, age, refl, e, rw (e, is_fresh) at h)
    ],
    λ (u, age, e, f, g). let same : t ≡ u = cc in rw same (rw (f, is_fresh) g),
  )

  state_of-mt5_iff : (o : Option Text) → ((state_of world.read_state o).mt5 ≡ true) ↔ IsAttached o
  unfolding state_of
  state_of-mt5_iff none = (λ h. absurd (cc), λ (t, age, e, f, g). absurd (cc))
  state_of-mt5_iff (some s) = (
    λ h. elim (Option-cases (world.read_state s)) [
      | inl e ↦ absurd (cc (rw (e, state_of) at h))
      | inr (hb, e) ↦ (s, hb, refl, e, rw (e, state_of) at h)
    ],
    λ (u, hb, e, f, g). let same : s ≡ u = cc in rw same (rw (f, state_of) g),
  )

  -- The verdict is green exactly when the health pages of ingress and bridge answer 200, the shim's last
  -- heartbeat is recent and said that the terminal is attached, and the dry-run switch is off.
  pub pipeline_status-green_iff :
      (db : Db F)
      → ((pipeline_status env world db).green ≡ true) ↔ (
          (world.ingress_answer ≡ some 200)
          × (world.bridge_answer ≡ some 200)
          × IsRecent (text_of (meta_get env.works (codes "hb_ea_shim") db))
          × IsAttached (text_of (meta_get env.works (codes "hb_ea_shim_state") db))
          × (effective_dry_run env db ≡ false))
  unfolding pipeline_status status_with
  pipeline_status-green_iff db =
      let beat = text_of (meta_get env.works (codes "hb_ea_shim") db) in
      let state = text_of (meta_get env.works (codes "hb_ea_shim_state") db) in
      let up = (state_of world.read_state state).mt5 in
      ground (
        arith,
        green_iff (answers_ok world.ingress_answer) (answers_ok world.bridge_answer)
            (is_fresh env world beat && up) (effective_dry_run env db),
        answers_ok_iff world.ingress_answer,
        answers_ok_iff world.bridge_answer,
        is_fresh_iff beat,
        state_of-mt5_iff state,
      )
