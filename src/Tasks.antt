-- ===== src/Tasks.antt =====
-- The periodic jobs of apps/tasks/app.py on the tables that they share. A statement can fail: `faults`
-- says which of the next ones do. Times are in seconds. Where a query names no order its rows come in the
-- table's, and `locked` says which rows another worker holds.
pub mod Reported
pub mod Kept
pub mod Completed
pub mod Timeouts
pub mod Retention
pub mod Tests
use exec_relay.Base.{
  update_where, ℕ, ◌+◌, ◌*◌, Bool, true, false, not, ◌&&◌, ◌||◌, Option, none, some, List, [], ◌∷◌,
  ◌++◌, ◌==◌, ltb, leb, if◌then◌else◌, keep, map, take,
}
use exec_relay.Base.Text.{Text, codes, text_eq}
use exec_relay.Base.Exec.{Exec, Result, ok, err, pure, gets, modify, catch, ◌>>=◌, ◌>>◌}

pub data Status : Type 0 where
  pending processing completed failed : Status

pub record TaskRow : Type 0 where
  pub id : ℕ
  pub status : Status
  pub created_at : ℕ

pub record SignalRow : Type 0 where
  pub id : ℕ
  pub trace_id : Text
  pub license_id : ℕ
  pub instance_id : Option ℕ
  pub received_at : ℕ

pub record FillRow : Type 0 where
  pub signal_id : Option ℕ
  pub license_id : ℕ
  pub instance_id : Option ℕ
  pub trace_id : Text
  pub status : Text
  pub created_at : ℕ

pub record EventRow : Type 0 where
  pub trace_id : Text
  pub event_type : Text

pub record Db : Type 0 where
  pub tasks : List TaskRow
  pub accepted : List SignalRow
  pub fills : List FillRow
  -- received_at of each row of signal_fingerprints
  pub fingerprints : List ℕ
  pub events : List EventRow
  pub faults : List Bool

pub data DbError : Type 0 where
  db_error : DbError

abbrev pub Job : Type 0 → Type 0
Job A = Exec Db DbError A

unfoldable pub next_fault : List Bool → Db → Result DbError (Unit {0}) × Db
next_fault [] db = (ok tt, db)
next_fault (false ∷ faults) db = (ok tt, record db { faults = faults })
next_fault (true ∷ faults) db = (err db_error, record db { faults = faults })

-- One call of the database, before what it does.
unfoldable pub statement : Job (Unit {0})
unfolding next_fault
statement db = next_fault db.faults db

-- for row in rows: body(row)
unfoldable pub for_each : {A : Type 0} → (A → Job (Unit {0})) → List A → Job (Unit {0})
for_each body [] = pure tt
for_each body (a ∷ rows) = do body a; for_each body rows

-- LEFT JOIN fills f ON f.trace_id = s.trace_id … WHERE f.id IS NULL
unfoldable pub reported : Text → List FillRow → Bool
reported trace [] = false
reported trace (f ∷ rows) = text_eq f.trace_id trace || reported trace rows

unfoldable pub overdue : ℕ → ℕ → List FillRow → SignalRow → Bool
unfolding reported
overdue timeout now fills s = ltb (s.received_at + timeout) now && not (reported s.trace_id fills)

-- The two inserts for one signal. No unique constraint of the table covers a fill's columns.
unfoldable pub time_out : ℕ → SignalRow → Job (Unit {0})
unfolding statement
time_out now s = do
  statement
  modify (λ db. record db {
    fills =
        db.fills
        ++ record {
          signal_id = some s.id;
          license_id = s.license_id;
          instance_id = s.instance_id;
          trace_id = s.trace_id;
          status = codes "timeout";
          created_at = now;
        }
          ∷ [];
  })
  statement
  modify (λ db. record db {
    events = db.events ++ record { trace_id = s.trace_id; event_type = codes "fill_timeout" } ∷ [];
  })

-- fill_timeout_check(pool), with FILL_TIMEOUT_SECS and the time
unfoldable pub fill_timeout_check : ℕ → ℕ → Job (Unit {0})
unfolding statement overdue for_each time_out
fill_timeout_check timeout now = do
  statement
  rows ← gets (λ db. take 100 (keep (overdue timeout now db.fills) db.accepted))
  for_each (time_out now) rows

-- DELETE … WHERE column < NOW() - days
unfoldable pub expired : ℕ → ℕ → ℕ → Bool
expired days now time = ltb (time + days * 86400) now

module _ (drop_chunks : ℕ → List SignalRow → List SignalRow) where
  -- data_retention(pool), with RETENTION_DAYS and the time; what drop_chunks drops is a parameter
  unfoldable pub data_retention : ℕ → ℕ → Job (Unit {0})
  unfolding statement expired catch
  data_retention days now = do
    statement
    modify (λ db. record db { fills = keep (λ f. not (expired days now f.created_at)) db.fills })
    statement
    modify (λ db. record db { fingerprints = keep (λ t. not (expired days now t)) db.fingerprints })
    catch (do statement; modify (λ db. record db { accepted = drop_chunks days db.accepted }))
        (λ e. do
          statement
          modify (λ db. record db {
            accepted = keep (λ s. not (expired days now s.received_at)) db.accepted;
          }))

-- ORDER BY created_at
unfoldable pub insert_by_age : TaskRow → List TaskRow → List TaskRow
insert_by_age t [] = t ∷ []
insert_by_age t (u ∷ rows) =
    let rest = insert_by_age t rows in
    if leb t.created_at u.created_at then t ∷ u ∷ rows else u ∷ rest

unfoldable pub by_age : List TaskRow → List TaskRow
unfolding insert_by_age
by_age [] = []
by_age (t ∷ rows) = insert_by_age t (by_age rows)

unfoldable pub is_pending : Status → Bool
is_pending pending = true
is_pending processing = false
is_pending completed = false
is_pending failed = false

-- SELECT id FROM tasks WHERE status = 'pending' ORDER BY created_at LIMIT 10 FOR UPDATE SKIP LOCKED
unfoldable pub claimable : (ℕ → Bool) → List TaskRow → List ℕ
unfolding by_age is_pending
claimable locked tasks =
    map (λ t. t.id) (take 10 (by_age (keep (λ t. is_pending t.status && not (locked t.id)) tasks)))

-- id IN (…)
unfoldable pub is_in : List ℕ → ℕ → Bool
is_in [] id = false
is_in (k ∷ ids) id = k == id || is_in ids id

unfoldable pub set_status : Status → TaskRow → TaskRow
set_status status t = record t { status = status }

-- UPDATE tasks SET status = … WHERE id = …
unfoldable pub mark : Status → ℕ → Job (Unit {0})
unfolding statement update_where set_status
mark status id = do
  statement
  modify (λ db. record db { tasks = update_where (λ t. t.id == id) (set_status status) db.tasks })

-- The body of the loop; no type of task does anything yet in the source.
unfoldable pub run_task : ℕ → Job (Unit {0})
unfolding mark catch
run_task id = catch (mark completed id) (λ e. mark failed id)

-- The UPDATE … RETURNING of task_processor
unfoldable pub claim : (ℕ → Bool) → Job (List ℕ)
unfolding statement claimable is_in update_where set_status
claim locked = do
  statement
  ids ← gets (λ db. claimable locked db.tasks)
  modify (λ db. record db {
    tasks = update_where (λ t. is_in ids t.id) (set_status processing) db.tasks;
  })
  pure ids

-- task_processor(pool)
unfoldable pub task_processor : (ℕ → Bool) → Job (Unit {0})
unfolding claim for_each run_task
task_processor locked = do ids ← claim locked; for_each run_task ids

-- One round of run_periodically: an exception is logged.
unfoldable pub one_round : Job (Unit {0}) → Job (Unit {0})
unfolding catch
one_round job = catch job (λ e. pure tt)
