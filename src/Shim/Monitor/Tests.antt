-- ===== src/Shim/Monitor/Tests.antt =====
-- Runs of the monitor loop at a terminal that lists one position of the shim twice, and then none.
use exec_relay.Base.{ℕ, suc, ◌+◌, ◌≡◌, refl, true, none, some, [], ◌∷◌, ltb, if◌then◌else◌, keep}
use exec_relay.Base.Text.{codes}
use exec_relay.Base.Exec.{ok, catch, ◌>>=◌}
use exec_relay.TradeStore.Tests.{two_legs}
use exec_relay.Shim.Terminal.{Position, long}
use exec_relay.Shim.Sent.{AllSent}
use exec_relay.Shim.Tests.{nat_floats, broker, good, start, any_row}
use exec_relay.Shim.Monitor.{rounds}
use exec_relay.Shim.Watched.{Desk, Monitor}
use exec_relay.Shim.Monitor.Books.{reports, present}
use exec_relay.Shim.Monitor.Adds.{Answers}
use exec_relay.Shim.Monitor.Reported.{arrivals, rounds-balance}
use exec_relay.Shim.Monitor.Careful.{IsCareful, rounds-AllSent}

abbrev opened : Position ℕ
opened = record {
  ticket = 12;
  symbol = codes "EURUSD";
  side = long;
  volume = 1;
  price_open = 90;
  sl = 80;
  tp = 110;
  magic = 5;
  comment = codes "tg";
}

-- The state of the terminal counts the calls.
abbrev desk : Desk ℕ ℕ
desk = record {
  terminal = broker good;
  positions_get = λ n. (if ltb n 2 then some (opened ∷ []) else none, suc n);
  history_deals_get = λ ticket n. (ok none, suc n);
  account_info = λ n. (none, suc n);
  now = λ n. (codes "2026-07-01", suc n);
  dumps = λ hb. [];
  add = λ a b. a + b;
  round2 = λ a. a;
  like = any_row;
  works = true;
  cancel_siblings_on_close = true;
}

desk_answers : Answers desk
desk_answers = record { at = λ ticket s. tt }

abbrev fresh : Monitor ℕ ℕ
fresh = record { world = start; db = two_legs; log = []; known = none; iteration = 0 }

rounds-balance_example :
    reports 12 (rounds desk 3 fresh).log + present 12 (rounds desk 3 fresh).known
    ≡ 0 + 0 + arrivals desk desk_answers 12 3 fresh
rounds-balance_example = rounds-balance desk desk_answers 12 3 fresh tt

-- The position comes once, and is reported once.
reported_once : reports 12 (rounds desk 3 fresh).log ≡ 1
unfolding rounds nat_floats catch ◌>>=◌ keep
reported_once = refl

rounds-AllSent_example : AllSent (IsCareful 5) (rounds desk 3 fresh).world
rounds-AllSent_example = rounds-AllSent desk 3 fresh tt
