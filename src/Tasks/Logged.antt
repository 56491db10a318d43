-- ===== src/Tasks/Logged.antt =====
-- The transactions of ergonomos/internal/task/task.go: each writes one audit event with its change.
use peristera.Prelude.{
  ℕ, ◌≡◌, ◌≢◌, refl, sym, ap, subst, ◌∙◌, String, Bool, Option, none, some, List, [], ◌∷◌, ◌++◌,
  str_eq, eq_iff, eq_refl, Bool-cases, inl, inr, Result, ok,
}
use peristera.Prelude.Exec.{Keeps, Keeps-raise, Keeps-if}
use peristera.Pii.{Subject}
use peristera.Database.Rules.{
  On, Leads, Leads-stmt, Leads-bind, Leads-mono, Leads-pure, Keeps-stmt, Keeps-Leads,
}
use peristera.Conventions as Shared
use peristera.Conventions.{SearchDoc, on_tables, emit, feed, upsert_doc, remove_doc, delete_doc}
use peristera.Conventions.Frame.{emit-Frame}
use peristera.Conventions.Audit.{events, IsRecorded, emit_records}
use peristera.Tasks.{
  Task, TaskTables, task_tables, find_task, insert_task, with_done, set_done_row, without_task,
  delete_task_row, task_object, found_task, create_rows, done_action, set_done_rows,
  delete_task_rows, insert_unless,
}

find_task-append : (k : Task) (tasks : List Task) → find_task k.task_id (tasks ++ k ∷ []) ≢ none
unfolding find_task
find_task-append k [] q = cc (rw (eq_refl k.task_id) at q)
find_task-append k (t ∷ tasks) q = elim (Bool-cases (str_eq k.task_id t.task_id)) [
  | inl hit ↦ cc (rw hit at q)
  | inr miss ↦ find_task-append k tasks (rw miss at q)
]

find_task-without : (id : String) (tasks : List Task) → find_task id (without_task id tasks) ≡ none
unfolding find_task without_task
find_task-without id [] = refl
find_task-without id (t ∷ tasks) = elim (Bool-cases (str_eq id t.task_id)) [
  | inl hit ↦ rw hit (find_task-without id tasks)
  | inr miss ↦ rw (miss, miss) (find_task-without id tasks)
]

-- The row of the identifier, with the mark.
abbrev pub IsMarked : String → Bool → List Task → Type 0
IsMarked id done tasks =
    (t : Task) × (find_task id tasks ≡ some t) × (t.task_id ≡ id) × (t.done ≡ done)

find_task-with_done :
    (id : String) (done : Bool) (now : ℕ) (tasks : List Task) (t : Task)
    → find_task id (with_done id done now tasks) ≡ some t
    → (t.task_id ≡ id) × (t.done ≡ done)
unfolding find_task with_done
find_task-with_done id done now [] t q = cc
find_task-with_done id done now (k ∷ tasks) t q = elim (Bool-cases (str_eq id k.task_id)) [
  | inl hit ↦
      let same : record k { done = done; updated = now } ≡ t = some-inj (rw (hit, hit) at q) in
      (
        ap (λ (x : Task). x.task_id) (sym same) ∙ sym ((eq_iff id k.task_id).0 hit),
        ap (λ (x : Task). x.done) (sym same),
      )
  | inr miss ↦ find_task-with_done id done now tasks t (rw (miss, miss) at q)
]
  where
    some-inj : {a b : Task} → some a ≡ some b → a ≡ b
    some-inj e = cc

-- The tables are those of before, with one audit event more, and with the tasks that the change makes.
pub record IsLogged (t0 : TaskTables) (actor : Subject) (action id : String)
    (P : List Task → Type 0) (t : TaskTables) : Type 0 where
  pub recorded : IsRecorded task_tables (events task_tables t0) actor action (task_object id) t
  pub changed : P t.tasks

-- Statements on the search documents keep it.
module _ (t0 : TaskTables) (actor : Subject) (action id : String) (P : List Task → Type 0) where
  shared-IsLogged :
      {A : Type 0} (f : Shared.Tables → Result A × Shared.Tables)
      → ((c : Shared.Tables)
          → ((f c).1.audit_events ≡ c.audit_events) × ((f c).1.pseudonyms ≡ c.pseudonyms))
      → Keeps (On (IsLogged t0 actor action id P)) (on_tables task_tables f)
  unfolding on_tables
  shared-IsLogged f same = Keeps-stmt _ _ (λ t h. record {
    recorded = record {
      event = h.recorded.event;
      appended = (same t.shared).0 ∙ h.recorded.appended;
      by = rw (same t.shared).1 h.recorded.by;
      did = h.recorded.did;
      to_object = h.recorded.to_object;
    };
    changed = h.changed;
  })

  feed-IsLogged : (d : SearchDoc) → Keeps (On (IsLogged t0 actor action id P)) (feed task_tables d)
  unfolding feed upsert_doc
  feed-IsLogged d = search (Keeps-if, Keeps-raise, shared-IsLogged)

  remove_doc-IsLogged :
      (doc : String) → Keeps (On (IsLogged t0 actor action id P)) (remove_doc task_tables doc)
  unfolding remove_doc delete_doc
  remove_doc-IsLogged doc = search (Keeps-if, Keeps-raise, shared-IsLogged)

  emit-IsLogged :
      Leads
        (λ t. (events task_tables t ≡ events task_tables t0) × P t.tasks)
        (emit task_tables actor action (task_object id))
        (λ _ t. IsLogged t0 actor action id P t)
  emit-IsLogged = record {
    run = λ db u h e. record {
      recorded = rw (← h.0) (emit_records task_tables actor action (task_object id) db e);
      changed =
          (emit-Frame task_tables (λ t. P t.tasks) (λ t x k. k) actor action (task_object id)).at db
            h.1;
    };
  }

pub create_rows-IsLogged :
    (t0 : TaskTables) (k : Task)
    → Leads
        (λ t. t ≡ t0)
        (create_rows k)
        (λ _ t.
          IsLogged t0 k.owner "ergonomos.task.created" k.task_id
            (λ tasks. find_task k.task_id tasks ≢ none)
            t)
unfolding create_rows insert_task
create_rows-IsLogged t0 k =
    Leads-bind
      (λ _ t. (events task_tables t ≡ events task_tables t0) × (find_task k.task_id t.tasks ≢ none))
      _ _ (Leads-stmt _ _ _ (λ t a same e. inserted t (find_task k.task_id t.tasks) same e))
      (λ _.
        Leads-bind
          (λ _.
            IsLogged t0 k.owner "ergonomos.task.created" k.task_id
              (λ tasks. find_task k.task_id tasks ≢ none))
          _ _
          (emit-IsLogged t0 k.owner "ergonomos.task.created" k.task_id
            (λ tasks. find_task k.task_id tasks ≢ none))
          (λ _. Keeps-Leads _ _ (
            feed-IsLogged t0 k.owner "ergonomos.task.created" k.task_id
              (λ tasks. find_task k.task_id tasks ≢ none) _)))
  where
    inserted :
        (t : TaskTables) (taken : Option Task)
        → t ≡ t0
        → (insert_unless taken k t).0 ≡ ok tt
        → (events task_tables (insert_unless taken k t).1 ≡ events task_tables t0)
          × (find_task k.task_id (insert_unless taken k t).1.tasks ≢ none)
    inserted t (some x) same e = absurd (cc)
    inserted t none same e = (ap (events task_tables) same, find_task-append k t.tasks)

pub delete_task_rows-IsLogged :
    (t0 : TaskTables) (caller : Subject) (id : String)
    → Leads
        (λ t. t ≡ t0)
        (delete_task_rows caller id)
        (λ _ t.
          IsLogged t0 caller "ergonomos.task.deleted" id (λ tasks. find_task id tasks ≡ none) t)
unfolding delete_task_rows delete_task_row
delete_task_rows-IsLogged t0 caller id =
    Leads-bind (λ _. IsLogged t0 caller "ergonomos.task.deleted" id (λ tasks. Unit {0})) _ _
      (Leads-mono _ _ _ (λ t same. (ap (events task_tables) same, tt)) (λ u t h. h)
        (emit-IsLogged t0 caller "ergonomos.task.deleted" id (λ tasks. Unit {0})))
      (λ _.
        Leads-bind
          (λ _. IsLogged t0 caller "ergonomos.task.deleted" id (λ tasks. find_task id tasks ≡ none))
          _ _
          (Leads-stmt _ _ _ (λ t a h e. record {
            recorded = record {
              event = h.recorded.event;
              appended = h.recorded.appended;
              by = h.recorded.by;
              did = h.recorded.did;
              to_object = h.recorded.to_object;
            };
            changed = find_task-without id t.tasks;
          }))
          (λ _. Keeps-Leads _ _ (
            remove_doc-IsLogged t0 caller "ergonomos.task.deleted" id
              (λ tasks. find_task id tasks ≡ none) id)))

pub set_done_rows-IsLogged :
    (t0 : TaskTables) (caller : Subject) (id : String) (done : Bool)
    → Leads
        (λ t. t ≡ t0)
        (set_done_rows caller id done)
        (λ _ t. IsLogged t0 caller (done_action done) id (IsMarked id done) t)
unfolding set_done_rows set_done_row
set_done_rows-IsLogged t0 caller id done =
    Leads-bind Marked _ _
      (record {
        run = λ db k same e.
            (Leads-stmt _ Marked _ (λ t a q f.
                marked db.now t a (find_task id (with_done id done db.now t.tasks)) refl q f)).run
              db k same e;
      })
      (λ k.
        Leads-bind (λ _. IsLogged t0 caller (done_action done) id (IsMarked id done)) _ _
          (record {
            run = λ db u h e.
                subst
                  (λ i.
                    IsLogged t0 caller (done_action done) i (IsMarked id done)
                      (emit task_tables caller (done_action done) (task_object k.task_id)
                        db).1.tables)
                  h.2
                  ((emit-IsLogged t0 caller (done_action done) k.task_id (IsMarked id done)).run db
                    u (h.0, h.1) e);
          })
          (λ _.
            Leads-bind (λ _. IsLogged t0 caller (done_action done) id (IsMarked id done)) _ _
              (Keeps-Leads _ _ (feed-IsLogged t0 caller (done_action done) id (IsMarked id done) _))
              (λ _. Leads-pure _ _ k (λ t h. h))))
  where
    Marked : Task → TaskTables → Type 0
    Marked k t =
        (events task_tables t ≡ events task_tables t0) × IsMarked id done t.tasks × (k.task_id ≡ id)

    marked :
        (now : ℕ) (t : TaskTables) (k : Task) (o : Option Task)
        → find_task id (with_done id done now t.tasks) ≡ o
        → t ≡ t0
        → found_task o ≡ ok k
        → Marked k (record t { tasks = with_done id done now t.tasks })
    marked now t k none q same e = absurd (cc)
    marked now t k (some x) q same e =
        let (its, is) = find_task-with_done id done now t.tasks x q in
        let row : x ≡ k = cc in
        (
          ap (events task_tables) same,
          (x, q, its, is),
          ap (λ (y : Task). y.task_id) (sym row) ∙ its,
        )
