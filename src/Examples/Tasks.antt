-- ===== src/Examples/Tasks.antt =====
-- The theorems on tasks (ergonomos/internal/task) at a database with two tasks.
use peristera.Prelude.{◌≡◌, refl, true, false, [], ◌∷◌, none, ok}
use peristera.Prelude.Exec.{◌>>=◌}
use peristera.Conventions as Shared
use peristera.Database.{Db, stmt}
use peristera.Tasks.{
  Task, TaskTables, TaskAuthorizer, TaskWorld, erase_tasks, delete_by_owner, remove_docs,
  tasks_by_owner, tasks_of,
}
use peristera.Tasks.Audited.{IsAudited, operations-IsAudited}
use peristera.Tasks.Erasure.{IsErased, erase_tasks-IsErased}
use peristera.Kamara.Listings.{insert_by_key, order_by_key}
use peristera.Examples.Base.{ada, bob, nth_id}

abbrev errand : Task
errand = record {
  task_id = "t1";
  owner = ada;
  title = "errand";
  done = false;
  created = 2;
  updated = 2;
}

abbrev chores : Db TaskTables
chores = record {
  tables = record {
    tasks = errand ∷ record errand { task_id = "t2"; owner = bob } ∷ [];
    shared = record {
      pseudonyms = [];
      audit_events = [];
      search_documents =
          record {
            doc_id = "t1";
            doc_type = "ergonomos/task";
            permalink = "/tasks/t1";
            owner = ada;
            text = "errand";
          }
          ∷ [];
    };
  };
  now = 10;
  calls = 0;
  faults = λ n. none;
  ids = nth_id;
  drawn = 0;
}

abbrev lenient : TaskAuthorizer
lenient = record {
  State = Unit {0};
  write = λ user relation name s. (ok tt, s);
  delete = λ user relation name s. (ok tt, s);
  check = λ user relation name s. (ok true, s);
  list_objects = λ user relation type s. (ok [], s);
}

abbrev task_world : TaskWorld lenient
task_world = record { db = chores; authz = tt }

operations-IsAudited_example : IsAudited lenient ada task_world
operations-IsAudited_example = operations-IsAudited lenient ada task_world

erase_run : (erase_tasks ada chores).0 ≡ ok tt
unfolding erase_tasks ◌>>=◌ tasks_by_owner stmt delete_by_owner remove_docs order_by_key tasks_of
    insert_by_key Shared.remove_doc Shared.delete_doc Shared.on_tables
erase_run = refl

erase_tasks-IsErased_example : IsErased ada chores.tables (erase_tasks ada chores).1.tables
erase_tasks-IsErased_example = erase_tasks-IsErased ada chores erase_run
