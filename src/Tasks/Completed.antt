-- ===== src/Tasks/Completed.antt =====
-- What task_processor of apps/tasks/app.py does while the database works.
use exec_relay.Base.{
  ℕ, ◌≡◌, refl, sym, ap, ◌∙◌, Bool, List, [], ◌∷◌, ◌==◌, update_where, update_where-update_where,
  arith,
}
use exec_relay.Base.Exec.{ok, pure, modify, gets, catch, ◌>>=◌}
use exec_relay.Tasks.Kept.{claimed_tables}
use exec_relay.Tasks.{
  TaskRow, Db, processing, completed, next_fault, statement, for_each, claimable, is_in, set_status,
  mark, run_task, claim, task_processor,
}

set_rows :
    (k : ℕ) (ids : List ℕ) (tasks : List TaskRow)
    → update_where
        (λ t. is_in ids t.id)
        (set_status completed)
        (update_where (λ t. t.id == k) (set_status completed) tasks)
      ≡ update_where (λ t. is_in (k ∷ ids) t.id) (set_status completed) tasks
unfolding update_where set_status is_in
set_rows k ids [] = refl
set_rows k ids (t ∷ tasks) = ground (arith, set_rows k ids tasks)

set_none :
    (tasks : List TaskRow) → update_where (λ t. is_in [] t.id) (set_status completed) tasks ≡ tasks
unfolding update_where is_in
set_none [] = refl
set_none (t ∷ tasks) = ap (λ rows. t ∷ rows) (set_none tasks)

run_task-completed :
    (k : ℕ) (db : Db)
    → db.faults ≡ []
    → run_task k db
      ≡ (ok tt, record db { tasks = update_where (λ t. t.id == k) (set_status completed) db.tasks })
unfolding run_task mark statement next_fault catch modify ◌>>=◌
run_task-completed k db e = rw e refl

for_each-completed :
    (ids : List ℕ) (db : Db)
    → db.faults ≡ []
    → for_each run_task ids db ≡ (
      ok tt,
      record db { tasks = update_where (λ t. is_in ids t.id) (set_status completed) db.tasks },
    )
unfolding for_each pure ◌>>=◌
for_each-completed [] db e =
    ap (λ rows. (ok tt, record db { tasks = rows })) (sym (set_none db.tasks))
for_each-completed (k ∷ ids) db e = rw (run_task-completed k db e) (
    for_each-completed ids _ e
    ∙ ap (λ rows. (ok tt, record db { tasks = rows })) (set_rows k ids db.tasks))

claim-works :
    (locked : ℕ → Bool) (db : Db)
    → db.faults ≡ []
    → claim locked db ≡ (ok (claimable locked db.tasks), claimed_tables locked db [])
unfolding claim statement next_fault ◌>>=◌ modify gets pure
claim-works locked db e = rw e refl

-- While the database works a run of task_processor returns, the tasks that it claims are completed
-- afterwards, and it changes nothing else of any table.
pub task_processor-completed :
    (locked : ℕ → Bool) (db : Db)
    → db.faults ≡ []
    → task_processor locked db ≡ (
      ok tt,
      record db {
        tasks =
            update_where
              (λ t. is_in (claimable locked db.tasks) t.id)
              (set_status completed)
              db.tasks;
      },
    )
unfolding task_processor set_status ◌>>=◌
task_processor-completed locked db e = rw (claim-works locked db e) (
    for_each-completed (claimable locked db.tasks) (claimed_tables locked db []) refl ∙ (λ i. (
      ok tt,
      record db {
        tasks =
            update_where-update_where (λ t. is_in (claimable locked db.tasks) t.id)
              (set_status processing) (set_status completed) db.tasks (λ t. refl) i;
        faults = sym e i;
      },
    )))
