-- ===== src/Tasks/Kept.antt =====
-- What the jobs of apps/tasks/app.py leave as it is.
use exec_relay.Base.{
  All-at, update_where, ℕ, zero, suc, ◌≡◌, ◌≢◌, refl, sym, ap, ◌∙◌, Bool, true, false, not, ◌&&◌,
  List, [], ◌∷◌, In-keep, map, take, In, All, arith, inl, inr, ◌⊎◌, Bool-cases,
}
use exec_relay.Base.Exec.{ok, err, pure, gets, modify, ◌>>=◌}
use exec_relay.Base.Exec.Keeps.{Keeps, Keeps-pure, Keeps-bind, Keeps-catch}
use exec_relay.Tasks.{
  Status, TaskRow, Db, next_fault, statement, for_each, insert_by_age, by_age, is_pending,
  claimable, is_in, set_status, mark, run_task, processing, completed, failed, db_error, claim,
  task_processor,
}

module _ {A : Type 0} where
  In-update_where :
      (p : A → Bool) (f : A → A) (a : A) (rows : List A)
      → p a ≡ false
      → In a rows
      → In a (update_where p f rows)
  unfolding update_where
  In-update_where p f a [] e m = absurd m
  In-update_where p f a (b ∷ rows) e (inl same) = rw (sym same, e) (inl refl)
  In-update_where p f a (b ∷ rows) e (inr m) = elim (Bool-cases (p b)) [
    | inl t ↦ rw t (inr (In-update_where p f a rows e m))
    | inr t ↦ rw t (inr (In-update_where p f a rows e m))
  ]

  In-take : (n : ℕ) (a : A) (rows : List A) → In a (take n rows) → In a rows
  In-take zero a rows m = absurd m
  In-take (suc n) a [] m = absurd m
  In-take (suc n) a (b ∷ rows) (inl e) = inl e
  In-take (suc n) a (b ∷ rows) (inr m) = inr (In-take n a rows m)

In-insert_by_age :
    (t u : TaskRow) (rows : List TaskRow) → In u (insert_by_age t rows) → In u (t ∷ rows)
unfolding insert_by_age
In-insert_by_age t u [] m = m
In-insert_by_age t u (v ∷ rows) m = ground (arith, m, In-insert_by_age t u rows)

In-by_age : (u : TaskRow) (rows : List TaskRow) → In u (by_age rows) → In u rows
unfolding by_age
In-by_age u [] m = m
In-by_age u (t ∷ rows) m = ground (arith, In-insert_by_age t u (by_age rows) m, In-by_age u rows)

-- Primary keys.
abbrev pub IsKeyed : List TaskRow → Type 0
IsKeyed [] = Unit {0}
IsKeyed (t ∷ rows) = All (λ u. t.id ≢ u.id) rows × IsKeyed rows

one_row :
    (t u : TaskRow) (rows : List TaskRow)
    → IsKeyed rows
    → In t rows
    → In u rows
    → t.id ≡ u.id
    → t ≡ u
one_row t u [] h m n e = absurd m
one_row t u (v ∷ rows) (h, hs) (inl p) (inl q) e = p ∙ sym q
one_row t u (v ∷ rows) (h, hs) (inl p) (inr n) e =
    absurd (All-at _ u rows h n (ap (λ x. x.id) (sym p) ∙ e))
one_row t u (v ∷ rows) (h, hs) (inr m) (inl q) e =
    absurd (All-at _ t rows h m (ap (λ x. x.id) (sym q) ∙ sym e))
one_row t u (v ∷ rows) (h, hs) (inr m) (inr n) e = one_row t u rows hs m n e

claimable_sound :
    (locked : ℕ → Bool) (id : ℕ) (tasks : List TaskRow)
    → In id (claimable locked tasks)
    → (t : TaskRow) × In t tasks × (t.id ≡ id) × ((is_pending t.status && not (locked t.id)) ≡ true)
unfolding claimable
claimable_sound locked id tasks m =
    let (t, at, e) = from_map _ m in
    let (own, test) = In-keep _ t tasks (In-by_age t _ (In-take 10 t _ at)) in (t, own, e, test)
  where
    from_map :
        (rows : List TaskRow)
        → In id (map (λ t. t.id) rows)
        → (t : TaskRow) × In t rows × (t.id ≡ id)
    from_map [] m = absurd m
    from_map (t ∷ rows) (inl e) = (t, inl refl, sym e)
    from_map (t ∷ rows) (inr m) = let (u, at, e) = from_map rows m in (u, inr at, e)

pub is_in_sound : (ids : List ℕ) (id : ℕ) → is_in ids id ≡ true → In id ids
unfolding is_in
is_in_sound [] id e = ground (arith, e)
is_in_sound (k ∷ ids) id e = ground (arith, e, is_in_sound ids id)

-- The row is there, whatever else the tables hold.
HasTask : TaskRow → Db → Type 0
HasTask t db = In t db.tasks

pub statement-tasks : (db : Db) → (statement db).1.tasks ≡ db.tasks
unfolding statement
statement-tasks db = by_faults db.faults
  where
    by_faults : (faults : List Bool) → (next_fault faults db).1.tasks ≡ db.tasks
    by_faults [] = refl
    by_faults (false ∷ faults) = refl
    by_faults (true ∷ faults) = refl

Keeps-mark :
    (t : TaskRow) (status : Status) (id : ℕ) → id ≢ t.id → Keeps (HasTask t) (mark status id)
unfolding mark HasTask modify
Keeps-mark t status id ne =
    Keeps-bind _ _ record { at = λ db h. rw (statement-tasks db) h }
      (λ u. record { at = λ db h. In-update_where _ _ t db.tasks (ground (arith, ne)) h })

Keeps-for_each :
    (t : TaskRow) (ids : List ℕ)
    → All (λ id. id ≢ t.id) ids
    → Keeps (HasTask t) (for_each run_task ids)
unfolding for_each run_task
Keeps-for_each t [] h = Keeps-pure tt
Keeps-for_each t (id ∷ ids) (ne, hs) =
    Keeps-bind _ _ (Keeps-catch _ _ (Keeps-mark t completed id ne) (λ e. Keeps-mark t failed id ne))
      (λ u. Keeps-for_each t ids hs)

-- What the claim does to the tables.
abbrev pub claimed_tables : (ℕ → Bool) → Db → List Bool → Db
claimed_tables locked db faults = record db {
  tasks =
      update_where (λ t. is_in (claimable locked db.tasks) t.id) (set_status processing) db.tasks;
  faults = faults;
}

pub claim-cases :
    (locked : ℕ → Bool) (db : Db)
    → ((faults : List Bool) × (claim locked db ≡ (err db_error, record db { faults = faults })))
      ⊎ ((faults : List Bool) × (claim locked db
            ≡ (ok (claimable locked db.tasks), claimed_tables locked db faults)))
unfolding claim statement next_fault ◌>>=◌ pure modify gets
claim-cases locked db = by_faults db.faults refl
  where
    by_faults :
        (faults : List Bool)
        → db.faults ≡ faults
        → ((faults : List Bool) × (claim locked db ≡ (err db_error, record db { faults = faults })))
          ⊎ ((faults : List Bool) × (claim locked db
                ≡ (ok (claimable locked db.tasks), claimed_tables locked db faults)))
    by_faults [] e = inr ([], rw e refl)
    by_faults (false ∷ faults) e = inr (faults, rw e refl)
    by_faults (true ∷ faults) e = inl (faults, rw e refl)

-- A run of task_processor leaves a row as it is whose task is not pending, or that another worker has
-- locked, whichever statements fail, for a table of tasks with distinct ids.
pub task_processor-kept :
    (locked : ℕ → Bool) (db : Db) (t : TaskRow)
    → IsKeyed db.tasks
    → In t db.tasks
    → (is_pending t.status && not (locked t.id)) ≡ false
    → In t (task_processor locked db).1.tasks
unfolding task_processor HasTask ◌>>=◌
task_processor-kept locked db t keyed at other = elim (claim-cases locked db) [
  | inl (faults, e) ↦ rw e at
  | inr (faults, e) ↦ rw e (
      (Keeps-for_each t (claimable locked db.tasks) not_claimed).at _ (
        In-update_where _ _ t db.tasks
          (Bool-not _ (λ e. All-at _ t.id _ not_claimed (is_in_sound _ t.id e) refl)) at))
]
  where
    others :
        (ids : List ℕ)
        → ((id : ℕ) → In id ids → In id (claimable locked db.tasks))
        → All (λ id. id ≢ t.id) ids
    others [] sub = tt
    others (id ∷ ids) sub = (
      λ e.
          let (u, own, same, test) = claimable_sound locked id db.tasks (sub id (inl refl)) in
          let row : u ≡ t = one_row u t db.tasks keyed own at (same ∙ e) in
          ground (arith, other, test, ap (λ x. x.status) row, ap (λ x. x.id) row),
      others ids (λ k m. sub k (inr m)),
    )

    not_claimed : All (λ id. id ≢ t.id) (claimable locked db.tasks)
    not_claimed = others _ (λ k m. m)

    Bool-not : (b : Bool) → (b ≢ true) → b ≡ false
    Bool-not true h = absurd (h refl)
    Bool-not false h = refl
