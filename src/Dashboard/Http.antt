-- ===== src/Dashboard/Http.antt =====
-- `Handler` of scripts/trade_dashboard.py: which request is refused, and what is served for the others.
-- `urlsplit`, `parse_qs`, `int` and `json.loads` are the standard library's, so a request comes with its
-- path, the first value of each query key and its parsed body. What a route computes is left out.
pub mod Guards
use exec_relay.Base.{
  ℕ, ◌≤◌, ◌≡◌, refl, Bool, true, false, not, ◌&&◌, ◌||◌, Option, none, some, List, [], ◌∷◌, ◌++◌,
  ◌==◌, ltb, leb, if◌then◌else◌,
}
use exec_relay.Base.Text.{Text, codes, text_eq, truthy, lower, strip, mem}

-- What `int` makes of a text.
pub data Whole : Type 0 where
  negative : Whole
  natural : ℕ → Whole

-- A header or a query value that is missing is `none`.
pub record GetRequest : Type 0 where
  pub host : Option Text
  pub token_header : Option Text
  pub path : Text
  pub token : Option Text
  pub days : Option Text
  pub source : Option Text
  pub month : Option Text
  pub stack_only : Option Text

-- `payload` is `none` where the length or the JSON raises ValueError.
pub record PostRequest (J : Type 0) : Type 0 where
  pub get : GetRequest
  pub content_type : Option Text
  pub payload : Option J

-- DASHBOARD_TOKEN, DASHBOARD_ADDR and `int`, `none` where it raises ValueError.
pub record Site : Type 0 where
  pub token : Text
  pub addr : Text
  pub int : Text → Option Whole

pub data Source : Type 0 where
  tradingview other : Source

pub data Page : Type 0 where
  health pipeline symbol_map journal_csv favicon index : Page
  scorecard : ℕ → Page
  summary ignored actioned risk trades_csv weekly : ℕ → Option Source → Page
  calendar : Text → Bool → Option Source → Page

-- `crashed` is an exception that nothing catches.
pub data GetAnswer : Type 0 where
  refused : ℕ → GetAnswer
  crashed : GetAnswer
  served : Page → GetAnswer

pub data PostRoute : Type 0 where
  journal dry_run webhook_test set_symbol_map : PostRoute

pub data PostAnswer (J : Type 0) : Type 0 where
  refused : ℕ → PostAnswer J
  crashed : PostAnswer J
  called : PostRoute → J → PostAnswer J

unfoldable pub or_blank : Option Text → Text
or_blank none = []
or_blank (some t) = t

unfoldable pub has_colon : Text → Bool
has_colon [] = false
has_colon (c ∷ s) = c == b':' || has_colon s

-- addr.rpartition(":")[2]
unfoldable pub after_colon : Text → Text
unfolding has_colon
after_colon [] = []
after_colon (c ∷ s) =
    let later = after_colon s in if has_colon s then later else if c == b':' then s else c ∷ s

unfoldable pub allowed_hosts : Text → List Text
unfolding after_colon
allowed_hosts addr =
    let port = if truthy (after_colon addr) then after_colon addr else codes "8090" in
    (codes "127.0.0.1:" ++ port) ∷ (codes "localhost:" ++ port) ∷ []

unfoldable pub host_ok : Site → GetRequest → Bool
unfolding allowed_hosts or_blank
host_ok site r = mem (lower (strip (or_blank r.host))) (allowed_hosts site.addr)

unfoldable pub is_ascii : Text → Bool
is_ascii [] = true
is_ascii (c ∷ s) = ltb c 128 && is_ascii s

-- The header, or the token of the query if the header is empty.
unfoldable pub supplied : GetRequest → Text
unfolding or_blank
supplied r = if truthy (or_blank r.token_header) then or_blank r.token_header else or_blank r.token

-- `_token_ok`, `none` where `hmac.compare_digest` raises TypeError on a text that is not ASCII.
unfoldable pub token_ok : Site → GetRequest → Option Bool
unfolding supplied is_ascii
token_ok site r =
    if not (truthy site.token)
    then some true
    else if not (truthy (supplied r))
    then some false
    else if is_ascii (supplied r) && is_ascii site.token
    then some (text_eq (supplied r) site.token)
    else none

unfoldable pub clamp_days : Whole → ℕ
clamp_days negative = 1
clamp_days (natural n) = if ltb n 1 then 1 else if ltb 120 n then 120 else n

unfoldable pub asked_days : Site → Option Text → Option Whole
asked_days site none = site.int (codes "7")
asked_days site (some t) = site.int t

-- _parse_days
unfoldable pub parse_days : Site → GetRequest → ℕ
unfolding clamp_days asked_days
parse_days site r = elim (asked_days site r.days) [ none ↦ 7 | some d ↦ clamp_days d ]

-- _parse_source
unfoldable pub parse_source : GetRequest → Option Source
unfolding or_blank
parse_source r =
    let raw = lower (strip (or_blank r.source)) in
    if text_eq raw (codes "tradingview")
    then some tradingview
    else if text_eq raw (codes "other")
    then some other
    else none

unfoldable pub stack_only : Option Text → Bool
stack_only none = true
stack_only (some t) = not (mem (lower t) (codes "0" ∷ codes "false" ∷ [] ∷ []))

module _ (site : Site) (r : GetRequest) where
  -- The routes behind the token.
  unfoldable pub page_of : GetAnswer
  unfolding parse_days parse_source stack_only or_blank
  page_of =
      let days = parse_days site r in
      let source = parse_source r in
      if text_eq r.path (codes "/api/summary")
      then served (summary days source)
      else if text_eq r.path (codes "/api/scorecard")
      then served (scorecard days)
      else if text_eq r.path (codes "/api/ignored")
      then served (ignored days source)
      else if text_eq r.path (codes "/api/actioned")
      then served (actioned days source)
      else if text_eq r.path (codes "/api/risk")
      then served (risk days source)
      else if text_eq r.path (codes "/api/calendar")
      then served (calendar (or_blank r.month) (stack_only r.stack_only) source)
      else if text_eq r.path (codes "/api/export/trades.csv")
      then served (trades_csv days source)
      else if text_eq r.path (codes "/api/export/journal.csv")
      then served journal_csv
      else if text_eq r.path (codes "/api/pipeline")
      then served pipeline
      else if text_eq r.path (codes "/api/symbol-map")
      then served symbol_map
      else if text_eq r.path (codes "/api/export/weekly.xlsx")
      then served (weekly days source)
      else if text_eq r.path (codes "/assets/favicon.png")
      then served favicon
      else if text_eq r.path (codes "/")
      then served index
      else refused 404

  unfoldable pub if_token : Option Bool → GetAnswer
  unfolding page_of
  if_token none = crashed
  if_token (some false) = refused 401
  if_token (some true) = page_of

  unfoldable pub do_get : GetAnswer
  unfolding host_ok token_ok if_token
  do_get =
      if not (host_ok site r)
      then refused 403
      else if mem r.path (codes "/health" ∷ codes "/healthz" ∷ [])
      then served health
      else if_token (token_ok site r)

unfoldable pub route_of : Text → Option PostRoute
route_of path =
    if text_eq path (codes "/api/journal")
    then some journal
    else if text_eq path (codes "/api/dryrun")
    then some dry_run
    else if text_eq path (codes "/api/webhook-test/send")
    then some webhook_test
    else if text_eq path (codes "/api/symbol-map")
    then some set_symbol_map
    else none

unfoldable pub before_semicolon : Text → Text
before_semicolon [] = []
before_semicolon (c ∷ s) = if c == b';' then [] else c ∷ before_semicolon s

unfoldable pub is_json : Option Text → Bool
unfolding or_blank before_semicolon
is_json t = text_eq (lower (strip (before_semicolon (or_blank t)))) (codes "application/json")

module _ {J : Type 0} where
  unfoldable pub call : PostRoute → Option J → PostAnswer J
  call route none = refused 400
  call route (some payload) = called route payload

  unfoldable pub post_if_token : PostRequest J → PostRoute → Option Bool → PostAnswer J
  unfolding is_json call
  post_if_token r route none = crashed
  post_if_token r route (some false) = refused 401
  post_if_token r route (some true) =
      if is_json r.content_type then call route r.payload else refused 403

  unfoldable pub post_route : Site → PostRequest J → Option PostRoute → PostAnswer J
  unfolding token_ok post_if_token
  post_route site r none = refused 404
  post_route site r (some route) = post_if_token r route (token_ok site r.get)

  unfoldable pub do_post : Site → PostRequest J → PostAnswer J
  unfolding host_ok route_of post_route
  do_post site r =
      if not (host_ok site r.get) then refused 403 else post_route site r (route_of r.get.path)
