-- ===== src/Dashboard/Http/Guards.antt =====
-- Who is served by the handler of scripts/trade_dashboard.py.
use exec_relay.Base.{
  ◌≡◌, refl, ◌↔◌, ◌⊎◌, inl, inr, Bool, true, false, not, Option, none, some, [], ◌∷◌, arith,
  if◌then◌else◌,
}
use exec_relay.Base.Text.{Text, codes, text_eq_iff, truthy, mem}
use exec_relay.Dashboard.Http.{
  GetRequest, PostRequest, Site, Page, health, GetAnswer, PostRoute, PostAnswer, call, host_ok,
  is_ascii, supplied, token_ok, if_token, do_get, route_of, is_json, post_if_token, post_route,
  do_post, called,
}

-- No token is set, or the request has the token that is set, in ASCII.
abbrev pub MayPass : Site → GetRequest → Type 0
MayPass site r = (site.token ≡ []) ⊎ ((supplied r ≡ site.token) × (is_ascii site.token ≡ true))

truthy_iff : (t : Text) → (truthy t ≡ false) ↔ (t ≡ [])
unfolding truthy
truthy_iff [] = ground (arith)
truthy_iff (c ∷ t) = ground (arith)

token_ok_iff : (site : Site) (r : GetRequest) → (token_ok site r ≡ some true) ↔ MayPass site r
unfolding token_ok is_ascii
token_ok_iff site r =
    ground
      (arith, truthy_iff site.token, truthy_iff (supplied r), text_eq_iff (supplied r) site.token)

if_token-served :
    (site : Site) (r : GetRequest) (o : Option Bool) (page : Page)
    → if_token site r o ≡ GetAnswer.served page
    → o ≡ some true
unfolding if_token
if_token-served site r none page h = cc
if_token-served site r (some false) page h = cc
if_token-served site r (some true) page h = refl

get_passed :
    (site : Site) (r : GetRequest) (host alive : Bool) (o : Option Bool) (page : Page)
    → (if not host
        then GetAnswer.refused 403
        else if alive
        then GetAnswer.served health
        else if_token site r o)
      ≡ GetAnswer.served page
    → (host ≡ true) × ((page ≡ health) ⊎ (o ≡ some true))
get_passed site r false alive o page h = cc
get_passed site r true true o page h = (refl, inl (cc))
get_passed site r true false o page h = (refl, inr (if_token-served site r o page h))

-- A page is served only to a request whose Host header names an allowed host, and, unless it is the
-- health page, only where no token is set or the request has the token.
pub do_get-MayPass :
    (site : Site) (r : GetRequest) (page : Page)
    → do_get site r ≡ GetAnswer.served page
    → (host_ok site r ≡ true) × ((page ≡ health) ⊎ MayPass site r)
unfolding do_get
do_get-MayPass site r page h =
    let alive = mem r.path (codes "/health" ∷ codes "/healthz" ∷ []) in
    let (host, pass) = get_passed site r (host_ok site r) alive (token_ok site r) page h in
    (host, elim pass [ inl e ↦ inl e | inr e ↦ inr ((token_ok_iff site r).0 e) ])

post_iff :
    {J : Type 0} (r : PostRequest J) (o : Option Bool) (route : PostRoute) (payload : J)
    (asked : PostRoute)
    → (post_if_token r asked o ≡ called route payload) ↔ (
        (o ≡ some true)
        × (is_json r.content_type ≡ true)
        × (asked ≡ route)
        × (r.payload ≡ some payload))
unfolding post_if_token call
post_iff r none route payload asked = ground (arith)
post_iff r (some false) route payload asked = ground (arith)
post_iff r (some true) route payload asked = ground (arith)

post_passed :
    {J : Type 0} (site : Site) (r : PostRequest J) (host : Bool) (found : Option PostRoute)
    (route : PostRoute) (payload : J)
    → ((if not host then PostAnswer.refused 403 else post_route site r found)
        ≡ called route payload)
      ↔ ((host ≡ true)
          × MayPass site r.get
          × (is_json r.content_type ≡ true)
          × (found ≡ some route)
          × (r.payload ≡ some payload))
unfolding post_route
post_passed site r false found route payload = ground (arith)
post_passed site r true none route payload = ground (arith)
post_passed site r true (some asked) route payload =
    ground (arith, post_iff r (token_ok site r.get) route payload asked, token_ok_iff site r.get)

-- A control route is called with a payload exactly when the Host header names an allowed host, no token
-- is set or the request has the token, the content type is JSON, the path is that of the route, and the
-- body is read as that payload.
pub do_post-called_iff :
    {J : Type 0} (site : Site) (r : PostRequest J) (route : PostRoute) (payload : J)
    → (do_post site r ≡ called route payload) ↔ (
        (host_ok site r.get ≡ true)
        × MayPass site r.get
        × (is_json r.content_type ≡ true)
        × (route_of r.get.path ≡ some route)
        × (r.payload ≡ some payload))
unfolding do_post
do_post-called_iff site r route payload =
    post_passed site r (host_ok site r.get) (route_of r.get.path) route payload
