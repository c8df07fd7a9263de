-- ===== src/Shim/Params.antt =====
-- The parameters of a signal, `fnum`, and the commands.
use exec_relay.Base.{Bool, true, false, Option, none, some, List, [], ◌∷◌, if◌then◌else◌}
use exec_relay.Base.Text.{Text, codes, text_eq, truthy}
use exec_relay.Shim.Floats.{Floats}
use exec_relay.Shim.Terminal.{OrderType, buy_limit, sell_limit, buy_stop, sell_stop}

-- A JSON value; `other` stands for arrays and objects.
pub data Value (F : Type 0) : Type 0 where
  null : Value F
  text : Text → Value F
  num : F → Value F
  bool : Bool → Value F
  other : Value F

-- The dict `params`. Its `comment` is a text or absent.
pub record Params (F : Type 0) : Type 0 where
  pub values : List (Text × Value F)
  pub comment : Option Text

unfoldable pub get : {F : Type 0} → Text → List (Text × Value F) → Value F
get k [] = null
get k ((j, v) ∷ m) = if text_eq j k then v else get k m

-- float(v) for a value that is neither None nor '', `none` where that is passed over or raises. A
-- JSON boolean is 0 or 1, which `parse` reads off its digit.
unfoldable pub as_float : {F : Type 0} ⦃fl : Floats F⦄ → Value F → Option F
as_float null = none
as_float ⦃fl⦄ (text t) = if truthy t then fl.parse t else none
as_float (num x) = some x
as_float ⦃fl⦄ (bool true) = fl.parse (codes "1")
as_float ⦃fl⦄ (bool false) = fl.parse (codes "0")
as_float other = none

unfoldable pub first_or : {A : Type 0} → Option A → A → A
first_or none d = d
first_or (some a) d = a

-- fnum(params, *keys, default)
unfoldable pub fnum : {F : Type 0} ⦃fl : Floats F⦄ → Params F → List Text → F → F
unfolding get as_float first_or
fnum params [] default = default
fnum params (k ∷ keys) default =
    first_or (as_float (get k params.values)) (fnum params keys default)

pub data Command : Type 0 where
  buy sell buylimit selllimit buystop sellstop : Command
  closelong closeshort closelongopenshort closeshortopenlong : Command
  newsltplong newsltpshort unknown : Command

-- The comparisons of `cmd` in `execute`.
unfoldable pub command_of : Text → Command
command_of c =
    if text_eq c (codes "buy")
    then Command.buy
    else if text_eq c (codes "sell")
    then Command.sell
    else if text_eq c (codes "buylimit")
    then buylimit
    else if text_eq c (codes "selllimit")
    then selllimit
    else if text_eq c (codes "buystop")
    then buystop
    else if text_eq c (codes "sellstop")
    then sellstop
    else if text_eq c (codes "closelong")
    then closelong
    else if text_eq c (codes "closeshort")
    then closeshort
    else if text_eq c (codes "closelongopenshort")
    then closelongopenshort
    else if text_eq c (codes "closeshortopenlong")
    then closeshortopenlong
    else if text_eq c (codes "newsltplong")
    then newsltplong
    else if text_eq c (codes "newsltpshort")
    then newsltpshort
    else unknown

-- _PENDING_TYPES: the pending order type and the market order type that it falls back to.
unfoldable pub pending_types : Command → Option (OrderType × OrderType)
pending_types buylimit = some (buy_limit, OrderType.buy)
pending_types selllimit = some (sell_limit, OrderType.sell)
pending_types buystop = some (buy_stop, OrderType.buy)
pending_types sellstop = some (sell_stop, OrderType.sell)
pending_types _ = none

-- cmd in _opens
unfoldable pub opens_at_market : Command → Bool
opens_at_market Command.buy = true
opens_at_market Command.sell = true
opens_at_market closelongopenshort = true
opens_at_market closeshortopenlong = true
opens_at_market _ = false

-- cmd in ("buy", "closeshortopenlong")
unfoldable pub buys : Command → Bool
buys Command.buy = true
buys closeshortopenlong = true
buys _ = false
