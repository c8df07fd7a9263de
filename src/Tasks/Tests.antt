-- ===== src/Tasks/Tests.antt =====
-- Runs of the periodic jobs on small tables.
use exec_relay.Base.{
  ℕ, ◌≤◌, ◌≡◌, refl, Bool, true, false, not, ◌&&◌, none, [], ◌∷◌, keep, take, length, update_where,
  arith, inl, In,
}
use exec_relay.Base.Text.{codes}
use exec_relay.Base.Exec.{ok}
use exec_relay.Tasks.{
  TaskRow, SignalRow, FillRow, Db, pending, processing, completed, claimable, is_in, set_status,
  overdue, is_pending, task_processor, fill_timeout_check,
}
use exec_relay.Tasks.Kept.{task_processor-kept}
use exec_relay.Tasks.Completed.{task_processor-completed}
use exec_relay.Tasks.Timeouts.{timed_out, fill_timeout_check-timed_out}

abbrev held : TaskRow
held = record { id = 2; status = processing; created_at = 1 }

abbrev waiting : TaskRow
waiting = record { id = 3; status = pending; created_at = 5 }

abbrev signal_row : SignalRow
signal_row = record {
  id = 1;
  trace_id = codes "a";
  license_id = 9;
  instance_id = none;
  received_at = 10;
}

abbrev fill_row : FillRow
fill_row = record {
  signal_id = none;
  license_id = 9;
  instance_id = none;
  trace_id = codes "b";
  status = codes "filled";
  created_at = 4;
}

abbrev db : Db
db = record {
  tasks = held ∷ waiting ∷ [];
  accepted = signal_row ∷ [];
  fills = fill_row ∷ [];
  fingerprints = 3 ∷ [];
  events = [];
  faults = [];
}

abbrev unlocked : ℕ → Bool
unlocked id = false

task_processor-kept_example :
    In held (task_processor unlocked (record db { faults = true ∷ [] })).1.tasks
task_processor-kept_example =
    task_processor-kept unlocked (record db { faults = true ∷ [] }) held
      ((λ e. omega (arith, e), tt), (tt, tt)) (inl refl) busy
  where
    busy : (is_pending held.status && not (unlocked held.id)) ≡ false
    busy = unfold is_pending in refl

task_processor-completed_example : task_processor unlocked db ≡ (
  ok tt,
  record db {
    tasks =
        update_where
          (λ t. is_in (claimable unlocked db.tasks) t.id)
          (set_status completed)
          db.tasks;
  },
)
task_processor-completed_example = task_processor-completed unlocked db refl

fill_timeout_check-timed_out_example :
    let found = keep (overdue 30 100 db.fills) db.accepted in
    let after = fill_timeout_check 30 100 db in
    (after ≡ (ok tt, timed_out 100 (take 100 found) db))
    × (length found ≤ 100 → keep (overdue 30 100 after.1.fills) after.1.accepted ≡ [])
fill_timeout_check-timed_out_example = fill_timeout_check-timed_out 30 100 db refl
