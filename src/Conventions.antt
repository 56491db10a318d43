-- ===== src/Conventions.antt =====
-- The stores that every app shares (lib/pgconv/pgconv.go), and the code over them: pseudonyms
-- (lib/pii/pseudonym.go), audit events (lib/audit/audit.go) and the search feed (lib/search/search.go).
-- An app's database has the three tables among its own, which a `Lens` shows.
pub mod Frame
pub mod Pseudonym
pub mod Audit
use peristera.Prelude.{
  ℕ, ◌≡◌, String, Bool, true, false, ◌&&◌, ◌||◌, Option, none, some, List, [], ◌∷◌, ◌++◌, str_eq,
  if◌then◌else◌, Result, ok, err, Error, message, unique_violation,
}
use peristera.Prelude.Exec.{Exec, pure, raise, lift, ◌>>=◌, ◌>>◌}
use peristera.Pii.{Subject, same_subject, is_zero}
use peristera.Database.{Db, stmt, fresh_id}

pub record PseudonymRow : Type 0 where
  pub token : String
  pub subject : Subject

-- audit.Object
pub record AuditObject : Type 0 where
  pub type_name : String
  pub object_id : String
  pub permalink : String

-- audit.Event; the code of the two apps passes no detail.
pub record AuditEvent : Type 0 where
  pub event_id : String
  pub time : ℕ
  pub actor_token : String
  pub action : String
  pub object : AuditObject

-- search.Doc
pub record SearchDoc : Type 0 where
  pub doc_id : String
  pub doc_type : String
  pub permalink : String
  pub owner : Subject
  pub text : String

pub record Tables : Type 0 where
  pub pseudonyms : List PseudonymRow
  pub audit_events : List AuditEvent
  pub search_documents : List SearchDoc

-- The three tables within an app's.
pub record Lens (T : Type 0) : Type 0 where
  pub view : T → Tables
  pub replace : T → Tables → T
  pub view-replace : (t : T) (c : Tables) → view (replace t c) ≡ c

unfoldable pub find_token : Subject → List PseudonymRow → Option String
find_token s [] = none
find_token s (r ∷ rows) = if same_subject s r.subject then some r.token else find_token s rows

unfoldable pub find_subject : String → List PseudonymRow → Option Subject
find_subject token [] = none
find_subject token (r ∷ rows) =
    if str_eq token r.token then some r.subject else find_subject token rows

unfoldable pub without_subject : Subject → List PseudonymRow → List PseudonymRow
without_subject s [] = []
without_subject s (r ∷ rows) =
    let rest = without_subject s rows in if same_subject s r.subject then rest else r ∷ rest

unfoldable pub has_event : String → List AuditEvent → Bool
has_event id [] = false
has_event id (e ∷ events) = str_eq id e.event_id || has_event id events

unfoldable pub without_doc : String → List SearchDoc → List SearchDoc
without_doc id [] = []
without_doc id (d ∷ docs) =
    let rest = without_doc id docs in if str_eq id d.doc_id then rest else d ∷ rest

-- INSERT … ON CONFLICT (instance, user_id) DO NOTHING; no row affected is errSubjectMapped. A token
-- that is taken violates the primary key.
unfoldable pub inserted :
    String
    → Subject
    → List PseudonymRow
    → Option String
    → Option Subject
    → Result (Unit {0}) × List PseudonymRow
inserted token s rows (some mapped) taken = (err (message "pgconv: subject already mapped"), rows)
inserted token s rows none (some other) = (err unique_violation, rows)
inserted token s rows none none = (ok tt, rows ++ record { token = token; subject = s } ∷ [])

unfoldable pub insert_pseudonym :
    String → Subject → List PseudonymRow → Result (Unit {0}) × List PseudonymRow
insert_pseudonym token s rows = inserted token s rows (find_token s rows) (find_subject token rows)

unfoldable pub insert_event : AuditEvent → List AuditEvent → Result (Unit {0}) × List AuditEvent
insert_event e events =
    if has_event e.event_id events
    then (err unique_violation, events)
    else (ok tt, events ++ e ∷ [])

module _ {T : Type 0} (l : Lens T) where
  -- A statement on the three tables.
  unfoldable pub on_tables : {A : Type 0} → (Tables → Result A × Tables) → Exec (Db T) A
  on_tables f = stmt (λ t. let (r, c) = f (l.view t) in (r, l.replace t c))

  -- PseudonymStore.Lookup
  unfoldable pub lookup_token : Subject → Exec (Db T) (Option String)
  lookup_token s = on_tables (λ c. (ok (find_token s c.pseudonyms), c))

  -- PseudonymStore.Save
  unfoldable pub save_token : String → Subject → Exec (Db T) (Unit {0})
  save_token token s = on_tables (λ c.
      let (r, rows) = insert_pseudonym token s c.pseudonyms in (r, record c { pseudonyms = rows }))

  -- PseudonymStore.Resolve
  unfoldable pub resolve_token : String → Exec (Db T) (Option Subject)
  resolve_token token = on_tables (λ c. (ok (find_subject token c.pseudonyms), c))

  -- PseudonymStore.Delete
  unfoldable pub erase_subject : Subject → Exec (Db T) (Unit {0})
  erase_subject s =
      on_tables (λ c. (ok tt, record c { pseudonyms = without_subject s c.pseudonyms }))

  -- The read of the winner after a Save that failed with `e`.
  unfoldable pub winner : Error → Result (Option String) → Result String
  winner e (ok (some existing)) = ok existing
  winner e (ok none) = err e
  winner e (err x) = err e

  unfoldable pub after_save : Subject → String → Result (Unit {0}) → Exec (Db T) String
  after_save s tok (ok u) db = (ok tok, db)
  after_save s tok (err e) db = let (r, db') = lookup_token s db in (winner e r, db')

  unfoldable pub save_new : Subject → String → Exec (Db T) String
  save_new s tok db = let (r, db') = save_token tok s db in after_save s tok r db'

  unfoldable pub token_or_new : Subject → Option String → Exec (Db T) String
  token_or_new s (some tok) = pure tok
  token_or_new s none = do tok ← fresh_id; save_new s tok

  -- TokenFor
  unfoldable pub token_for : Subject → Exec (Db T) String
  token_for s = do found ← lookup_token s; token_or_new s found

  -- AuditSink.Append
  unfoldable pub append_event : AuditEvent → Exec (Db T) (Unit {0})
  append_event e = on_tables (λ c.
      let (r, events) = insert_event e c.audit_events in (r, record c { audit_events = events }))

  unfoldable pub record_event : String → AuditObject → String → Exec (Db T) (Unit {0})
  record_event action obj token = do
    id ← fresh_id
    now ← (λ db. (ok db.now, db))
    append_event
        (record { event_id = id; time = now; actor_token = token; action = action; object = obj })

  -- Emit
  unfoldable pub emit : Subject → String → AuditObject → Exec (Db T) (Unit {0})
  emit actor action obj =
      if is_zero actor
      then raise (message "audit: event needs an actor")
      else if str_eq action "" || str_eq obj.type_name "" || str_eq obj.object_id ""
      then raise (message "audit: event needs action, object type and id")
      else do token ← token_for actor; record_event action obj token

  -- SearchIndex.Upsert and Delete
  unfoldable pub upsert_doc : SearchDoc → Exec (Db T) (Unit {0})
  upsert_doc d = on_tables (λ c.
      (ok tt, record c { search_documents = without_doc d.doc_id c.search_documents ++ d ∷ [] }))

  unfoldable pub delete_doc : String → Exec (Db T) (Unit {0})
  delete_doc id =
      on_tables (λ c. (ok tt, record c { search_documents = without_doc id c.search_documents }))

  -- Feed and Remove
  unfoldable pub feed : SearchDoc → Exec (Db T) (Unit {0})
  feed d =
      if str_eq d.doc_id "" || str_eq d.doc_type ""
      then raise (message "search: doc needs ID and Type")
      else if is_zero d.owner
      then raise (message "search: doc needs an Owner")
      else if str_eq d.permalink ""
      then raise (message "search: doc needs a Permalink")
      else upsert_doc d

  unfoldable pub remove_doc : String → Exec (Db T) (Unit {0})
  remove_doc id =
      if str_eq id "" then raise (message "search: Remove needs an id") else delete_doc id
