-- ===== src/Shim/Session/Tests.antt =====
-- A session of the shim with a small broker.
use exec_relay.Base.{ℕ, suc, ◌≡◌, refl, true, none, some, List, [], ◌∷◌}
use exec_relay.Base.Text.{codes, text_eq, lower}
use exec_relay.Base.Exec.{◌>>=◌}
use exec_relay.Shim.Terminal.{ask, send, is_invalid_fill}
use exec_relay.Shim.Params.{command_of, fnum}
use exec_relay.Shim.Sizing.{sized_volume}
use exec_relay.Shim.Orders.{send_market}
use exec_relay.TradeStore.Tests.{two_legs}
use exec_relay.Shim.Tests.{nat_floats, broker, good, start, params}
use exec_relay.Shim.Session.{Message, registered, ping, signal, Host, Session, run_session}
use exec_relay.Shim.Session.Replies.{
  IsAnswered, AllBooked, tags, run_session-IsAnswered, run_session-AllBooked,
}

abbrev host : Host ℕ ℕ
host = record {
  terminal = broker good;
  works = true;
  now = λ n. (codes "2026-07-01", suc n);
  error_text = λ e. codes "error";
}

abbrev idle : Session ℕ ℕ
idle = record { world = start; db = two_legs; outbox = []; beating = true }

abbrev messages : List (Message ℕ)
messages = registered ∷ signal (codes "t1") (codes "BUY") (codes "EURUSD") params ∷ ping ∷ []

run_session-IsAnswered_example :
    IsAnswered host messages idle
      (run_session host messages idle).0
      (run_session host messages idle).1
run_session-IsAnswered_example = run_session-IsAnswered host messages idle

answered : tags (run_session host messages idle).1 ≡ none ∷ some (codes "t1") ∷ []
unfolding run_session nat_floats ◌>>=◌ ask command_of text_eq lower sized_volume fnum send_market
    send is_invalid_fill
answered = refl

run_session-AllBooked_example : AllBooked (run_session host messages idle).1
run_session-AllBooked_example = run_session-AllBooked host refl messages idle tt
