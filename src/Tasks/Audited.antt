-- ===== src/Tasks/Audited.antt =====
-- No task is created, changed or deleted (ergonomos/internal/task/task.go) without its audit event, and none
-- by a caller to whom it is not permitted.
use peristera.Prelude.{
  ◌+◌, ◌≡◌, ◌≢◌, refl, sym, subst, ◌∙◌, String, Bool, true, false, none, str_eq, Bool-cases, inl,
  inr, ◌⊎◌, Result, ok, err,
}
use peristera.Prelude.Exec.{Exec, ◌>>=◌, continue}
use peristera.Pii.{Subject}
use peristera.Database.{Db, in_tx, fresh_id}
use peristera.Database.Rules.{Leads}
use peristera.Database.Atomic.{in_tx-Outcome}
use peristera.Tasks.{
  TaskTables, find_task, new_task, done_action, set_done_rows, TaskAuthorizer, TaskWorld, in_db,
  in_authz, create_task, permitted, authorize_task, set_done, delete_task, task_name,
}
use peristera.Tasks.Logged.{
  IsMarked, IsLogged, create_rows-IsLogged, delete_task_rows-IsLogged, set_done_rows-IsLogged,
}

-- A transaction leaves the tables alone or does what its body leads to.
in_tx_or :
    {A : Type 0} (fn : Exec (Db TaskTables) A) (P : TaskTables → Type 0) (db : Db TaskTables)
    → Leads (λ t. t ≡ db.tables) fn (λ _. P)
    → ((in_tx fn db).1.tables ≡ db.tables) ⊎ P (in_tx fn db).1.tables
in_tx_or fn P db leads = elim (in_tx-Outcome fn db) [
  | inl (e, _, same) ↦ inl same
  | inr (a, _, ran, same) ↦ inr (rw same (leads.run _ a refl ran))
]

module _ (az : TaskAuthorizer) where
  -- Code that follows, when it leaves the database alone.
  Leaves : {A : Type 0} → Exec (TaskWorld az) A → Type 0
  Leaves m = (w : TaskWorld az) → (m w).1.db ≡ w.db

  continue-Leaves :
      {A C : Type 0} (P : TaskTables → Type 0) (r : Result A) (f : A → Exec (TaskWorld az) C)
      (w : TaskWorld az)
      → ((a : A) → Leaves (f a))
      → P w.db.tables
      → P (continue r f w).1.db.tables
  unfolding Leaves
  continue-Leaves P (err e) f w k h = h
  continue-Leaves P (ok a) f w k h = subst (λ (d : Db TaskTables). P d.tables) (sym (k a w)) h

  module _ (caller : Subject) (id : String) (w : TaskWorld az) where
    abbrev pub IsPermitted : Type 0
    IsPermitted = (az.check caller "owner" (task_name id) w.authz).0 ≡ ok true

    after_check :
        {A : Type 0} (P : TaskTables → Type 0) (rest : Exec (TaskWorld az) A) (r : Result Bool)
        (w' : TaskWorld az)
        → (az.check caller "owner" (task_name id) w.authz).0 ≡ r
        → P w'.db.tables
        → (IsPermitted → P (rest w').1.db.tables)
        → P
            (continue
              (continue r (permitted az caller id) w').0
              (λ _. rest)
              (continue r (permitted az caller id) w').1).1.db.tables
    after_check P rest (err e) w' q h k = h
    after_check P rest (ok false) w' q h k = h
    after_check P rest (ok true) w' q h k = k q

    authorized :
        {A : Type 0} (P : TaskTables → Type 0) (rest : Exec (TaskWorld az) A)
        → P w.db.tables
        → ((w' : TaskWorld az) → w'.db ≡ w.db → IsPermitted → P (rest w').1.db.tables)
        → P ((authorize_task az caller id >>= λ _. rest) w).1.db.tables
    unfolding authorize_task in_authz ◌>>=◌
    authorized P rest h k =
        after_check P rest (az.check caller "owner" (task_name id) w.authz).0 _ refl h (k _ refl)

  Leaves-bind :
      {A C : Type 0} (m : Exec (TaskWorld az) A) (f : A → Exec (TaskWorld az) C)
      → Leaves m
      → ((a : A) → Leaves (f a))
      → Leaves (m >>= f)
  unfolding Leaves ◌>>=◌
  Leaves-bind m f h k w = go (m w).0 (m w).1 (h w)
    where
      go : (r : Result _) (v : TaskWorld az) → v.db ≡ w.db → (continue r f v).1.db ≡ w.db
      go (ok a) v e = k a v ∙ e
      go (err x) v e = e

  logged_after :
      {A C : Type 0} (fn : Exec (Db TaskTables) A) (P : TaskTables → Type 0) (db : Db TaskTables)
      (w : TaskWorld az) (f : A → Exec (TaskWorld az) C)
      → Leads (λ t. t ≡ db.tables) fn (λ _. P)
      → ((a : A) → Leaves (f a))
      → w.db ≡ db
      → let t = ((in_db az (in_tx fn) >>= f) w).1.db.tables in (t ≡ db.tables) ⊎ P t
  unfolding in_db ◌>>=◌
  logged_after fn P db w f leads k same =
      continue-Leaves (λ t. (t ≡ db.tables) ⊎ P t) (in_tx fn w.db).0 f
        (record w { db = (in_tx fn w.db).1 }) k
        (subst
          (λ (d : Db TaskTables). ((in_tx fn d).1.tables ≡ db.tables) ⊎ P (in_tx fn d).1.tables)
          (sym same) (in_tx_or fn P db leads))

  with_permission : {P Q R : Type 0} → P → Q ⊎ R → Q ⊎ (P × R)
  with_permission p (inl q) = inl q
  with_permission p (inr r) = inr (p, r)

  create_task-IsLogged :
      (caller : Subject) (title : String) (w : TaskWorld az)
      → let id = w.db.ids w.db.drawn in
        let t = (create_task az caller title w).1.db.tables in
        (t ≡ w.db.tables)
        ⊎ IsLogged w.db.tables caller "ergonomos.task.created" id
            (λ tasks. find_task id tasks ≢ none)
            t
  unfolding create_task in_db fresh_id ◌>>=◌ Leaves
  create_task-IsLogged caller title w = elim (Bool-cases (str_eq title "")) [
    | inl empty ↦ rw empty (inl refl)
    | inr given ↦ rw given (
        logged_after _ _ (record w.db { drawn = w.db.drawn + 1 }) _ _
          (create_rows-IsLogged w.db.tables
            (new_task az (w.db.ids w.db.drawn) caller title w.db.now))
          (λ u. Leaves-bind _ _ (λ v. refl) (λ a v. refl)) refl)
  ]

  set_done-IsLogged :
      (caller : Subject) (id : String) (done : Bool) (w : TaskWorld az)
      → let t = (set_done az caller id done w).1.db.tables in
        (t ≡ w.db.tables)
        ⊎ (IsPermitted caller id w
            × IsLogged w.db.tables caller (done_action done) id (IsMarked id done) t)
  unfolding set_done in_db
  set_done-IsLogged caller id done w =
      authorized caller id w
        (λ t.
          (t ≡ w.db.tables)
          ⊎ (IsPermitted caller id w
              × IsLogged w.db.tables caller (done_action done) id (IsMarked id done) t))
        _ (inl refl)
        λ v same permitted. with_permission permitted (
          subst
            (λ (d : Db TaskTables).
              let t = (in_tx (set_done_rows caller id done) d).1.tables in
              (t ≡ w.db.tables)
              ⊎ IsLogged w.db.tables caller (done_action done) id (IsMarked id done) t)
            (sym same) (in_tx_or _ _ w.db (set_done_rows-IsLogged w.db.tables caller id done)))

  delete_task-IsLogged :
      (caller : Subject) (id : String) (w : TaskWorld az)
      → let t = (delete_task az caller id w).1.db.tables in
        (t ≡ w.db.tables)
        ⊎ (IsPermitted caller id w
            × IsLogged w.db.tables caller "ergonomos.task.deleted" id
                (λ tasks. find_task id tasks ≡ none)
                t)
  unfolding delete_task in_authz Leaves
  delete_task-IsLogged caller id w =
      authorized caller id w
        (λ t.
          (t ≡ w.db.tables)
          ⊎ (IsPermitted caller id w
              × IsLogged w.db.tables caller "ergonomos.task.deleted" id
                  (λ tasks. find_task id tasks ≡ none) t))
        _ (inl refl)
        λ v same permitted. with_permission permitted (
          logged_after _ _ w.db v _ (delete_task_rows-IsLogged w.db.tables caller id) (λ u v. refl)
            same)

  -- Each operation leaves the tables as they were, or makes its change together with its audit event.
  pub record IsAudited (caller : Subject) (w : TaskWorld az) : Type 0 where
    pub creates :
        (title : String)
        → let id = w.db.ids w.db.drawn in
          let t = (create_task az caller title w).1.db.tables in
          (t ≡ w.db.tables)
          ⊎ IsLogged w.db.tables caller "ergonomos.task.created" id
              (λ tasks. find_task id tasks ≢ none)
              t
    pub marks :
        (id : String) (done : Bool)
        → let t = (set_done az caller id done w).1.db.tables in
          (t ≡ w.db.tables)
          ⊎ (IsPermitted caller id w
              × IsLogged w.db.tables caller (done_action done) id (IsMarked id done) t)
    pub deletes :
        (id : String)
        → let t = (delete_task az caller id w).1.db.tables in
          (t ≡ w.db.tables)
          ⊎ (IsPermitted caller id w
              × IsLogged w.db.tables caller "ergonomos.task.deleted" id
                  (λ tasks. find_task id tasks ≡ none)
                  t)

  -- Create, SetDone and Delete, whatever fails and whatever they return, either leave every table as it
  -- was, or leave the log of before with one event more, of their action, task and actor, and the task
  -- there, with the new mark, or gone. SetDone and Delete do so only if the authorization service has
  -- said that the caller owns the task.
  pub operations-IsAudited : (caller : Subject) (w : TaskWorld az) → IsAudited caller w
  operations-IsAudited caller w = record {
    creates = λ title. create_task-IsLogged caller title w;
    marks = λ id done. set_done-IsLogged caller id done w;
    deletes = λ id. delete_task-IsLogged caller id w;
  }
