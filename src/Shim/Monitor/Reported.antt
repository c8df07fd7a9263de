-- ===== src/Shim/Monitor/Reported.antt =====
-- How often the loop of scripts/ea_shim.py reports a position as closed.
use exec_relay.Base.{ℕ, zero, suc, ◌+◌, ◌≡◌, Option, some, List, arith}
use exec_relay.Base.Exec.{Result, ok, err, pure, catch}
use exec_relay.Base.Exec.Runs.{Ends, Runs, Runs-bind}
use exec_relay.Shim.Floats.{Floats}
use exec_relay.Shim.Terminal.{Position, Exc}
use exec_relay.Shim.Monitor.{poll, round, rounds}
use exec_relay.Shim.Watched.{Desk, Monitor, or_empty, book_of}
use exec_relay.Shim.Monitor.Books.{
  reports, present, arrival, IsBook, IsKnown, gone_known, balance, book_of-IsBook,
}
use exec_relay.Shim.Monitor.Adds.{Answers, Adds, Adds-look, Moved, poll_with-Runs}

module _ {F S : Type 0} ⦃fl : Floats F⦄ (d : Desk F S) (answers : Answers d) where
  -- What a round does to the reports of a position.
  abbrev Polled : ℕ → Monitor F S → Unit {0} → Monitor F S → Type 0
  Polled k s a t =
      IsKnown t.known
      × (IsKnown s.known
          → reports k t.log + present k t.known
            ≡ reports k s.log + present k s.known + arrival k s.known t.known)

  Polled-of :
      (k : ℕ) (current : List (Position F)) (s t u : Monitor F S)
      → IsBook current
      → Adds k 0 s tt t
      → Moved k (gone_known k current t.known) current t tt u
      → Polled k s tt u
  Polled-of k current s t u book (same, kept) (more, now) =
      let e : u.known ≡ some current = now in
      rw e (
        book,
        λ known.
            balance k current s.known (reports k s.log) (reports k u.log) known
              (rw (← kept) (omega (arith, same, more))),
      )

  poll-Runs : (k : ℕ) → Runs (Polled k) (poll d)
  unfolding poll
  poll-Runs k =
      let book =
        λ (listed : Option (List (Position F))). book_of d.terminal.magic (or_empty listed) in
      Runs-bind {Q = λ a s b u. Moved k (gone_known k (book a) s.known) (book a) s b u} _ _
        (Adds-look k d.positions_get) (λ listed. poll_with-Runs d answers k (book listed))
        (λ s t u a b h i.
          Polled-of k (book a) s t u (book_of-IsBook d.terminal.magic (or_empty a)) h i)

  round_lem : (k : ℕ) (s : Monitor F S) → Polled k s tt (round d s)
  unfolding round catch
  round_lem k s = ended (poll d s).0 (poll d s).1 ((poll-Runs k).at s)
    where
      ended :
          (r : Result Exc (Unit {0})) (t : Monitor F S)
          → Ends (Polled k s) r t
          → Polled k s tt
              (elim r as (λ _. Result Exc (Unit {0}) × Monitor F S) [
                | ok a ↦ (ok a, t)
                | err e ↦ pure tt t
              ]).1
      ended (ok a) t h = h
      ended (err e) t h = absurd h

  -- How often the position comes into the book during so many rounds.
  pub arrivals : ℕ → ℕ → Monitor F S → ℕ
  arrivals k zero s = 0
  arrivals k (suc n) s = arrival k s.known (round d s).known + arrivals k n (round d s)

  -- While the history answers, over any number of rounds from a state whose known book has one entry
  -- for each ticket: the reports of a position in the log, with one more while it is in the known
  -- book, grow by as many as the rounds in which it came into the book. So each position is reported
  -- closed once for each time that it left.
  pub rounds-balance :
      (k n : ℕ) (s : Monitor F S)
      → IsKnown s.known
      → reports k (rounds d n s).log + present k (rounds d n s).known
        ≡ reports k s.log + present k s.known + arrivals k n s
  unfolding rounds arrivals
  rounds-balance k zero s h = omega arith
  rounds-balance k (suc n) s h =
      let (known, one) = round_lem k s in omega (arith, one h, rounds-balance k n (round d s) known)
