-- ===== src/Tasks.antt =====
-- The task app Ergonomos: the service (ergonomos/internal/task/task.go), its personal data hooks
-- (subject_data.go) and the statements of its table (ergonomos/internal/store/stores.go).
pub mod Logged
pub mod Audited
pub mod Erasure
use Prim.Native.String.{◌++◌ as join}
use peristera.Prelude.{
  ℕ, refl, String, Bool, true, false, Option, none, some, List, [], ◌∷◌, ◌++◌, map, str_eq,
  if◌then◌else◌, Result, ok, err, Error, not_found, unique_violation, message, wrapped,
}
use peristera.Prelude.Exec.{Exec, pure, raise, ◌>>=◌, ◌>>◌}
use peristera.Pii.{Subject, same_subject, print_subject}
use peristera.Database.{Db, stmt, in_tx, fresh_id}
use peristera.Conventions as Shared
use peristera.Conventions.{Lens, AuditObject, SearchDoc, emit, feed, remove_doc}
use peristera.Kamara.Tables.{member}
use peristera.Kamara.Listings.{order_by_key}

-- Task
pub record Task : Type 0 where
  pub task_id : String
  pub owner : Subject
  pub title : String
  pub done : Bool
  pub created : ℕ
  pub updated : ℕ

pub record TaskTables : Type 0 where
  pub tasks : List Task
  pub shared : Shared.Tables

abbrev pub task_tables : Lens TaskTables
task_tables = record {
  view = λ t. t.shared;
  replace = λ t c. record t { shared = c };
  view-replace = λ t c. refl;
}

abbrev pub TaskStore : Type 0 → Type 0
TaskStore = Exec (Db TaskTables)

-- Task.Permalink
unfoldable pub task_permalink : String → String
task_permalink id = join "/tasks/" id

-- obj
unfoldable pub task_name : String → String
task_name id = join "ergonomos/task:" id

unfoldable pub find_task : String → List Task → Option Task
find_task id [] = none
find_task id (t ∷ tasks) = if str_eq id t.task_id then some t else find_task id tasks

-- The primary key.
abbrev pub insert_unless : Option Task → Task → TaskTables → Result (Unit {0}) × TaskTables
insert_unless (some taken) task t = (err unique_violation, t)
insert_unless none task t = (ok tt, record t { tasks = t.tasks ++ task ∷ [] })

-- TaskRepo.Insert
unfoldable pub insert_task : Task → TaskStore (Unit {0})
insert_task task = stmt (λ t. insert_unless (find_task task.task_id t.tasks) task t)

-- TaskRepo.Get
unfoldable pub get_task : String → TaskStore (Option Task)
get_task id = stmt (λ t. (ok (find_task id t.tasks), t))

unfoldable pub tasks_with : List String → List Task → List Task
tasks_with ids [] = []
tasks_with ids (t ∷ tasks) =
    let rest = tasks_with ids tasks in if member t.task_id ids then t ∷ rest else rest

-- TaskRepo.ByIDs
unfoldable pub tasks_by_ids : List String → TaskStore (List Task)
tasks_by_ids [] = pure []
tasks_by_ids (id ∷ ids) =
    stmt (λ t. (ok (order_by_key (λ (k : Task). k.created) (tasks_with (id ∷ ids) t.tasks)), t))

unfoldable pub tasks_of : Subject → List Task → List Task
tasks_of owner [] = []
tasks_of owner (t ∷ tasks) =
    let rest = tasks_of owner tasks in if same_subject owner t.owner then t ∷ rest else rest

-- TaskRepo.ByOwner
unfoldable pub tasks_by_owner : Subject → TaskStore (List Task)
tasks_by_owner owner =
    stmt (λ t. (ok (order_by_key (λ (k : Task). k.created) (tasks_of owner t.tasks)), t))

unfoldable pub with_done : String → Bool → ℕ → List Task → List Task
with_done id done now [] = []
with_done id done now (t ∷ tasks) =
    let rest = with_done id done now tasks in
    if str_eq id t.task_id then record t { done = done; updated = now } ∷ rest else t ∷ rest

abbrev pub found_task : Option Task → Result Task
found_task none = err not_found
found_task (some t) = ok t

-- TaskRepo.SetDone: the row that the update returns, or ErrNotFound.
unfoldable pub set_done_row : String → Bool → TaskStore Task
set_done_row id done db =
    stmt
      (λ t.
        let tasks = with_done id done db.now t.tasks in
        (found_task (find_task id tasks), record t { tasks = tasks }))
      db

unfoldable pub without_task : String → List Task → List Task
without_task id [] = []
without_task id (t ∷ tasks) =
    let rest = without_task id tasks in if str_eq id t.task_id then rest else t ∷ rest

-- TaskRepo.Delete
unfoldable pub delete_task_row : String → TaskStore (Unit {0})
delete_task_row id = stmt (λ t. (ok tt, record t { tasks = without_task id t.tasks }))

unfoldable pub tasks_without_owner : Subject → List Task → List Task
tasks_without_owner owner [] = []
tasks_without_owner owner (t ∷ tasks) =
    let rest = tasks_without_owner owner tasks in
    if same_subject owner t.owner then rest else t ∷ rest

-- TaskRepo.DeleteByOwner
unfoldable pub delete_by_owner : Subject → TaskStore (Unit {0})
delete_by_owner owner = stmt (λ t. (ok tt, record t { tasks = tasks_without_owner owner t.tasks }))

abbrev pub task_object : String → AuditObject
task_object id = record {
  type_name = "ergonomos/task";
  object_id = id;
  permalink = task_permalink id;
}

-- doc
unfoldable pub task_doc : Task → SearchDoc
task_doc t = record {
  doc_id = t.task_id;
  doc_type = "ergonomos/task";
  permalink = task_permalink t.task_id;
  owner = t.owner;
  text = t.title;
}

-- The transactions of Create, SetDone and Delete.
unfoldable pub create_rows : Task → TaskStore (Unit {0})
create_rows t = do
  insert_task t
  emit task_tables t.owner "ergonomos.task.created" (task_object t.task_id)
  feed task_tables (task_doc t)

abbrev pub done_action : Bool → String
done_action true = "ergonomos.task.completed"
done_action false = "ergonomos.task.reopened"

unfoldable pub set_done_rows : Subject → String → Bool → TaskStore Task
set_done_rows caller id done = do
  t ← set_done_row id done
  emit task_tables caller (done_action done) (task_object t.task_id)
  feed task_tables (task_doc t)
  pure t

unfoldable pub delete_task_rows : Subject → String → TaskStore (Unit {0})
delete_task_rows caller id = do
  emit task_tables caller "ergonomos.task.deleted" (task_object id)
  delete_task_row id
  remove_doc task_tables id

-- EraseSubject removes the search entries of the tasks that it has read, in no transaction.
unfoldable pub remove_docs : List Task → TaskStore (Unit {0})
remove_docs [] = pure tt
remove_docs (t ∷ tasks) = do remove_doc task_tables t.task_id; remove_docs tasks

unfoldable pub erase_tasks : Subject → TaskStore (Unit {0})
erase_tasks s = do tasks ← tasks_by_owner s; delete_by_owner s; remove_docs tasks

-- What ExportSubject tells of a task.
pub record TaskExport : Type 0 where
  pub id : String
  pub title : String
  pub done : Bool
  pub created : ℕ
  pub permalink : String

abbrev task_export : Task → TaskExport
task_export t = record {
  id = t.task_id;
  title = t.title;
  done = t.done;
  created = t.created;
  permalink = task_permalink t.task_id;
}

abbrev exported : List Task → Option (List TaskExport)
exported [] = none
exported (t ∷ tasks) = some (map task_export (t ∷ tasks))

-- ExportSubject
unfoldable pub export_tasks : Subject → TaskStore (Option (List TaskExport))
export_tasks s = do tasks ← tasks_by_owner s; pure (exported tasks)

-- Authorizer
pub record TaskAuthorizer : Type 1 where
  pub State : Type 0
  pub write : Subject → String → String → State → Result (Unit {0}) × State
  pub delete : Subject → String → String → State → Result (Unit {0}) × State
  pub check : Subject → String → String → State → Result Bool × State
  pub list_objects : Subject → String → String → State → Result (List String) × State

module _ (az : TaskAuthorizer) where
  pub record TaskWorld : Type 0 where
    pub db : Db TaskTables
    pub authz : az.State

  unfoldable pub in_db : {A : Type 0} → TaskStore A → Exec TaskWorld A
  in_db m w = let (r, d) = m w.db in (r, record w { db = d })

  unfoldable pub in_authz : {A : Type 0} → (az.State → Result A × az.State) → Exec TaskWorld A
  in_authz m w = let (r, s) = m w.authz in (r, record w { authz = s })

  abbrev owner_tuple : Result (Unit {0}) → Result (Unit {0})
  owner_tuple (ok u) = ok u
  owner_tuple (err e) = err (wrapped "task: writing owner tuple" e)

  abbrev write_owner : Subject → String → Exec TaskWorld (Unit {0})
  write_owner owner id w =
      let (r, s) = az.write owner "owner" (task_name id) w.authz in
      (owner_tuple r, record w { authz = s })

  abbrev pub new_task : String → Subject → String → ℕ → Task
  new_task id owner title now = record {
    task_id = id;
    owner = owner;
    title = title;
    done = false;
    created = now;
    updated = now;
  }

  -- Create
  unfoldable pub create_task : Subject → String → Exec TaskWorld Task
  create_task owner title = if str_eq title "" then raise (message "task: title required") else do
    now ← (λ w. (ok w.db.now, w))
    id ← in_db fresh_id
    in_db (in_tx (create_rows (new_task id owner title now)))
    write_owner owner id
    pure (new_task id owner title now)

  -- List
  unfoldable pub list_tasks : Subject → Exec TaskWorld (List Task)
  list_tasks caller = do
    ids ← in_authz (az.list_objects caller "owner" "ergonomos/task")
    in_db (tasks_by_ids ids)

  -- The text of the error names the caller.
  abbrev pub permitted : Subject → String → Bool → Exec TaskWorld (Unit {0})
  permitted caller id true = pure tt
  permitted caller id false =
      raise (message (join "task: " (join (print_subject caller) (join " not authorized on " id))))

  -- authorize
  unfoldable pub authorize_task : Subject → String → Exec TaskWorld (Unit {0})
  authorize_task caller id = do
    allowed ← in_authz (az.check caller "owner" (task_name id))
    permitted caller id allowed

  -- SetDone
  unfoldable pub set_done : Subject → String → Bool → Exec TaskWorld Task
  set_done caller id done = do
    authorize_task caller id
    in_db (in_tx (set_done_rows caller id done))

  -- Delete
  unfoldable pub delete_task : Subject → String → Exec TaskWorld (Unit {0})
  delete_task caller id = do
    authorize_task caller id
    in_db (in_tx (delete_task_rows caller id))
    in_authz (az.delete caller "owner" (task_name id))
