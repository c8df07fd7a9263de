-- ===== src/Dashboard/Webhook/Redact.antt =====
-- What scripts/trade_dashboard.py shows of the webhook secret: nothing.
use exec_relay.Base.{
  ◌≡◌, refl, sym, ap, ◌∙◌, Bool, true, false, List, [], ◌∷◌, ◌++◌, append_assoc, arith, ◌==◌,
  if◌then◌else◌, All, Bool-cases, inl, inr,
}
use exec_relay.Base.Text.{Text, codes, truthy, starts_with, upper}
use exec_relay.TradeStore.Db.{Db}
use exec_relay.Dashboard.DryRun.{Field, Settings, effective_dry_run}
use exec_relay.Dashboard.Webhook.{
  TestPayload, Parts, parts, refused, Built, command, failed, join, open_parts, comment_part,
  secret_part, finished, build_test_signal_command, redact_from, redact, Posted, Warnings, quiet,
  after_post, send_built, send_test_signal, is_open, is_test_command, field_or, TestOutcome,
}

-- No comma in it, which ends a part of a command.
abbrev pub IsPart : Text → Type 0
IsPart = All (λ c. (c == b',') ≡ false)

starts_with-comma : (xs r p : Text) → IsPart p → starts_with (xs ++ b',' ∷ r) p ≡ starts_with xs p
unfolding starts_with
starts_with-comma [] r [] h = refl
starts_with-comma (c ∷ xs) r [] h = refl
starts_with-comma [] r (d ∷ p) h = ground (arith, h.0)
starts_with-comma (c ∷ xs) r (d ∷ p) h = rw (starts_with-comma xs r p h.1) refl

-- What the scan compares behind the first letter.
word_rest : IsPart (codes "ecret=")
word_rest = (refl, (refl, (refl, (refl, (refl, (refl, tt))))))

if-append : (b : Bool) (x y z : Text) → (if b then x else y) ++ z ≡ (if b then x ++ z else y ++ z)
if-append true x y z = refl
if-append false x y z = refl

-- A comma ends what is dropped, so the parts of a command are redacted one by one.
redact_from-comma :
    (inside : Bool) (xs r : Text)
    → redact_from inside (xs ++ b',' ∷ r) ≡ redact_from inside xs ++ b',' ∷ redact_from false r
unfolding redact_from starts_with
redact_from-comma true [] r = refl
redact_from-comma false [] r = refl
redact_from-comma true (c ∷ xs) r = elim (Bool-cases (c == b',')) [
  | inl e ↦ rw e (rw (redact_from-comma false xs r) refl)
  | inr e ↦ rw e (redact_from-comma true xs r)
]
redact_from-comma false (c ∷ xs) r = rw (starts_with-comma xs r (codes "ecret=") word_rest) (
    rw (redact_from-comma true xs r) (
      rw (redact_from-comma false xs r) (
        sym (
          if-append (starts_with (c ∷ xs) (codes "secret="))
            (codes "secret=***" ++ redact_from true xs) (c ∷ redact_from false xs)
            (b',' ∷ redact_from false r)))))

redact_from-inside : (k : Text) → IsPart k → redact_from true k ≡ []
unfolding redact_from
redact_from-inside [] h = refl
redact_from-inside (c ∷ k) h = rw (h.0) (redact_from-inside k h.1)

redact-secret : (k : Text) → IsPart k → redact (codes "secret=" ++ k) ≡ codes "secret=***"
unfolding redact redact_from starts_with
redact-secret k h = ap (λ t. codes "secret=***" ++ t) (redact_from-inside k h)

join-last : (t s : Text) (ts : List Text) → join (t ∷ ts ++ s ∷ []) ≡ join (t ∷ ts) ++ b',' ∷ s
unfolding join
join-last t s [] = refl
join-last t s (u ∷ ts) =
    rw (join-last u s ts) (sym (append_assoc t (b',' ∷ join (u ∷ ts)) (b',' ∷ s)))

module _ (license k : Text) (long : truthy k ≡ true) (part : IsPart k) where
  -- The command with the secret as its last part.
  with_secret :
      (rest : List Text)
      → redact (join (license ∷ rest ++ secret_part k))
        ≡ redact (join (license ∷ rest)) ++ b',' ∷ codes "secret=***"
  unfolding redact secret_part
  with_secret rest = rw (long) (
      rw (join-last license (codes "secret=" ++ k) rest) (
        redact_from-comma false (join (license ∷ rest)) (codes "secret=" ++ k)
        ∙ ap (λ t. redact (join (license ∷ rest)) ++ b',' ∷ t) (redact-secret k part)))

-- The same refusal, or commands that are shown as the same.
abbrev LooksSame : Built → Built → Type 0
LooksSame (failed e) (failed f) = e ≡ f
LooksSame (command c) (command d) = redact c ≡ redact d
LooksSame (failed e) (command d) = ⊥
LooksSame (command c) (failed f) = ⊥

abbrev pub ShowsSame : TestOutcome → TestOutcome → Type 0
ShowsSame one two = (one.response ≡ two.response) × (one.log ≡ two.log)

-- A secret of at least one character without a comma.
abbrev pub IsSecret : Text → Type 0
IsSecret k = (truthy k ≡ true) × IsPart k

module _ (license k j : Text) (is_k : IsSecret k) (is_j : IsSecret j) where
  finished-LooksSame :
      (cmd symbol : Text) (p : TestPayload) (more : Parts)
      → LooksSame (finished license k cmd symbol p more) (finished license j cmd symbol p more)
  unfolding finished
  finished-LooksSame cmd symbol p (refused e) = refl
  finished-LooksSame cmd symbol p (parts more) =
      let rest = cmd ∷ symbol ∷ more ++ comment_part p in
      with_secret license k is_k.0 is_k.1 rest ∙ sym (with_secret license j is_j.0 is_j.1 rest)

  build-LooksSame :
      (p : TestPayload)
      → LooksSame (build_test_signal_command license k p) (build_test_signal_command license j p)
  unfolding build_test_signal_command
  build-LooksSame p =
      let cmd = upper (field_or [] p.command) in
      let symbol = field_or [] p.symbol in
      elim (Bool-cases (is_test_command cmd)) [
        | inr e ↦ rw e refl
        | inl e ↦ elim (Bool-cases (truthy symbol)) [
          | inr f ↦ rw (e, f) refl
          | inl f ↦
              rw (e, f)
                (finished-LooksSame cmd symbol p (if is_open cmd then open_parts p else parts []))
        ]
      ]

-- Each of two ingresses answers its own command, and the answers are the same.
abbrev pub AnswersAlike : (one two : Built) → (Text → Posted) → (Text → Posted) → Type 0
AnswersAlike (command c) (command d) post post' = post c ≡ post' d
AnswersAlike (failed e) two post post' = Unit {0}
AnswersAlike (command c) (failed f) post post' = Unit {0}

send_built-ShowsSame :
    (post post' : Text → Posted) (warnings : Warnings) (confirm : Field) (dry_run : Bool)
    (one two : Built)
    → AnswersAlike one two post post'
    → LooksSame one two
    → ShowsSame
        (send_built post warnings confirm dry_run one)
        (send_built post' warnings confirm dry_run two)
unfolding send_built quiet after_post
send_built-ShowsSame post post' warnings confirm dry_run (failed e) (failed f) h s =
    rw s (refl, refl)
send_built-ShowsSame post post' warnings confirm dry_run (failed e) (command d) h s = absurd s
send_built-ShowsSame post post' warnings confirm dry_run (command c) (failed f) h s = absurd s
send_built-ShowsSame post post' warnings confirm dry_run (command c) (command d) h s =
    ground (arith, h, s)

-- Take two installations that differ in the webhook secret, each of at least one character without a
-- comma, and in the ingress, which knows its own secret. Where the two ingresses give the same answer to
-- the two commands, if there are commands, the two calls answer the same and write the same to the audit
-- log: neither shows anything of the secret but what the ingress itself tells.
pub send_test_signal-ShowsSame :
    {F : Type 0} (env : Settings) (post post' : Text → Posted) (k j : Text) (p : TestPayload)
    (first second : Db F)
    → IsSecret k
    → IsSecret j
    → AnswersAlike
        (build_test_signal_command env.license_id k p)
        (build_test_signal_command env.license_id j p)
        post
        post'
    → ShowsSame
        (send_test_signal env k post p first second)
        (send_test_signal env j post' p first second)
unfolding send_test_signal
send_test_signal-ShowsSame env post post' k j p first second is_k is_j h =
    send_built-ShowsSame post post' _ p.confirm (effective_dry_run env second) _ _ h
      (build-LooksSame env.license_id k j is_k is_j p)
