-- ===== src/Tasks/Erasure.antt =====
-- After an erasure of ergonomos/internal/task/subject_data.go neither the person's tasks nor their search
-- entries are left.
use peristera.Prelude.{
  ℕ, ◌≡◌, refl, subst, String, Bool, false, ◌||◌, List, [], ◌∷◌, All, str_eq, ltb, arith,
  Bool-cases, inl, inr, ok,
}
use peristera.Pii.{Subject, same_subject}
use peristera.Database.{Db}
use peristera.Database.Rules.{Leads, Leads-stmt, Leads-bind, Leads-pure, Leads-mono}
use peristera.Conventions.{SearchDoc, without_doc, on_tables, remove_doc, delete_doc}
use peristera.Kamara.Listings.{insert_by_key, order_by_key}
use peristera.Tasks.{
  Task, TaskTables, task_tables, tasks_of, tasks_by_owner, tasks_without_owner, delete_by_owner,
  remove_docs, erase_tasks,
}

has_doc : String → List SearchDoc → Bool
has_doc id [] = false
has_doc id (d ∷ docs) = str_eq id d.doc_id || has_doc id docs

has_doc-without : (id : String) (docs : List SearchDoc) → has_doc id (without_doc id docs) ≡ false
unfolding has_doc without_doc
has_doc-without id [] = refl
has_doc-without id (d ∷ docs) = ground (arith, has_doc-without id docs)

has_doc-still :
    (x id : String) (docs : List SearchDoc)
    → has_doc x docs ≡ false
    → has_doc x (without_doc id docs) ≡ false
unfolding has_doc without_doc
has_doc-still x id [] h = refl
has_doc-still x id (d ∷ docs) h = ground (arith, has_doc-still x id docs)

tasks_of-without : (s : Subject) (tasks : List Task) → tasks_of s (tasks_without_owner s tasks) ≡ []
unfolding tasks_of tasks_without_owner
tasks_of-without s [] = refl
tasks_of-without s (t ∷ tasks) = elim (Bool-cases (same_subject s t.owner)) [
  | inl mine ↦ rw mine (tasks_of-without s tasks)
  | inr other ↦ rw (other, other) (tasks_of-without s tasks)
]

module _ (P : Task → Type 0) (rank : Task → ℕ) where
  insert_by_key-All : (x : Task) (xs : List Task) → All P (insert_by_key rank x xs) → P x × All P xs
  unfolding insert_by_key
  insert_by_key-All x [] h = h
  insert_by_key-All x (y ∷ ys) h = elim (Bool-cases (ltb (rank y) (rank x))) [
    | inl less ↦
        let k = rw less at h in
        let (first, rest) = insert_by_key-All x ys k.1 in (first, (k.0, rest))
    | inr more ↦ rw more at h
  ]

  order_by_key-All : (xs : List Task) → All P (order_by_key rank xs) → All P xs
  unfolding order_by_key
  order_by_key-All [] h = tt
  order_by_key-All (x ∷ xs) h =
      let (first, rest) = insert_by_key-All x (order_by_key rank xs) h in
      (first, order_by_key-All xs rest)

-- No search entry is left of the tasks.
pub Unindexed : List Task → TaskTables → Type 0
Unindexed tasks t = All (λ (k : Task). has_doc k.task_id t.shared.search_documents ≡ false) tasks

pub record IsErased (s : Subject) (t0 t : TaskTables) : Type 0 where
  pub no_tasks : tasks_of s t.tasks ≡ []
  pub unindexed : Unindexed (tasks_of s t0.tasks) t

Unindexed-still :
    (id : String) (docs : List SearchDoc) (tasks : List Task)
    → All (λ (k : Task). has_doc k.task_id docs ≡ false) tasks
    → All (λ (k : Task). has_doc k.task_id (without_doc id docs) ≡ false) tasks
Unindexed-still id docs [] h = tt
Unindexed-still id docs (k ∷ tasks) h =
    (has_doc-still k.task_id id docs h.0, Unindexed-still id docs tasks h.1)

-- No task is left, and these have no entry.
abbrev Clear : Subject → List Task → TaskTables → Type 0
Clear s tasks t = (tasks_of s t.tasks ≡ []) × Unindexed tasks t

remove_doc-Clear :
    (s : Subject) (k : Task) (earlier : List Task)
    → Leads (Clear s earlier) (remove_doc task_tables k.task_id) (λ _. Clear s (k ∷ earlier))
unfolding remove_doc delete_doc on_tables Unindexed
remove_doc-Clear s k earlier = elim (Bool-cases (str_eq k.task_id "")) [
  | inl empty ↦ rw empty (record { run = λ db u h e. absurd (cc) })
  | inr named ↦ rw named (
      Leads-stmt _ _ _ (λ t u h e. (
        h.0,
        (
          has_doc-without k.task_id t.shared.search_documents,
          Unindexed-still k.task_id t.shared.search_documents earlier h.1,
        ),
      )))
]

remove_docs-Clear :
    (s : Subject) (tasks earlier : List Task)
    → Leads (Clear s earlier) (remove_docs tasks) (λ _. Clear s tasks)
unfolding remove_docs Unindexed
remove_docs-Clear s tasks earlier =
    Leads-mono _ _ _ (λ t h. h) (λ u t h. (h.0, h.2)) (all_removed tasks earlier)
  where
    all_removed :
        (tasks earlier : List Task)
        → Leads
            (Clear s earlier)
            (remove_docs tasks)
            (λ _ t. (tasks_of s t.tasks ≡ []) × Unindexed earlier t × Unindexed tasks t)
    all_removed [] earlier = Leads-pure _ _ tt (λ t h. (h.0, h.1, tt))
    all_removed (k ∷ tasks) earlier =
        Leads-bind (λ _. Clear s (k ∷ earlier)) _ _ (remove_doc-Clear s k earlier)
          (λ _.
            Leads-mono _ _ _ (λ t h. h) (λ u t h. (h.0, h.1.1, (h.1.0, h.2)))
              (all_removed tasks (k ∷ earlier)))

erase_tasks-Leads :
    (s : Subject) (t0 : TaskTables) → Leads (λ t. t ≡ t0) (erase_tasks s) (λ _. IsErased s t0)
unfolding erase_tasks tasks_by_owner delete_by_owner Unindexed
erase_tasks-Leads s t0 =
    Leads-bind (λ tasks t. tasks ≡ order_by_key (λ (k : Task). k.created) (tasks_of s t0.tasks)) _ _
      (Leads-stmt _ _ _ (λ t tasks same e. rw (← same) (cc)))
      (λ tasks.
        Leads-bind
          (λ _ t.
            (tasks ≡ order_by_key (λ (k : Task). k.created) (tasks_of s t0.tasks)) × Clear s [] t)
          _ _ (Leads-stmt _ _ _ (λ t u q e. (q, (tasks_of-without s t.tasks, tt))))
          (λ _. record {
            run = λ db u h e.
                let cleared = (remove_docs-Clear s tasks []).run db u h.1 e in
                record {
                  no_tasks = cleared.0;
                  unindexed =
                      order_by_key-All _ (λ (k : Task). k.created) (tasks_of s t0.tasks)
                        (subst (All (λ (k : Task). has_doc k.task_id _ ≡ false)) h.0 cleared.1);
                };
          }))

-- If EraseSubject of the tasks returns no error, the person has no task afterwards, and the search index
-- has no entry of any task that the person had.
pub erase_tasks-IsErased :
    (s : Subject) (db : Db TaskTables)
    → (erase_tasks s db).0 ≡ ok tt
    → IsErased s db.tables (erase_tasks s db).1.tables
erase_tasks-IsErased s db e = (erase_tasks-Leads s db.tables).run db tt refl e
