-- ===== src/Kamara/Files.antt =====
-- The file service (kamara/internal/file/file.go) over the database, the blob store and the
-- authorization service, which is a parameter. What each call reaches is in one `World`.
pub mod Access
pub mod Counted
pub mod Reclaim
pub mod Saves
use Prim.Native.Char.{Char, code}
use Prim.Native.String.{◌++◌ as join}
use peristera.Prelude.{
  ◌*◌, ℕ, suc, zero, ◌+◌, ◌-◌, String, Bool, true, false, not, ◌&&◌, ◌||◌, Option, none, some, List,
  [], ◌∷◌, str_eq, ◌==◌, ltb, if◌then◌else◌, Result, ok, err, Error, message, wrapped, forbidden,
  not_found, version_conflict, modified, not_empty, would_cycle, invalid_session, not_exist,
  unique_violation, foreign_key_violation, external,
}
use peristera.Prelude.Exec.{Exec, pure, raise, lift, attempt, ◌>>=◌, ◌>>◌}
use peristera.Pii.{Subject}
use peristera.Database.{Db, fresh_id, in_tx}
use peristera.Conventions.{AuditObject, emit, feed, remove_doc}
use peristera.Kamara.Blob.{BlobStore}
use peristera.Kamara.Chunk.{Sizes}
use peristera.Kamara.Chunk.Split.{Reader}
use peristera.Kamara.Crypto.{Primitives, Cipher}
use peristera.Kamara.ContentType.{content_type_of}
use peristera.Kamara.Engine.{ChunkRef, Writer, ingest, reassemble}
use peristera.Kamara.Tables.{member, FileObject, FileTables, file_tables}
use peristera.Kamara.Store.{
  Store, insert_object, get_object, insert_version, max_ordinal, set_object_size, reclaim_object,
}

-- The client of the authorization service (`file.Authorizer`).
pub record Authorizer : Type 1 where
  pub State : Type 0
  pub check : Subject → String → String → State → Result Bool × State
  pub write : Subject → String → String → State → Result (Unit {0}) × State
  pub delete : Subject → String → String → State → Result (Unit {0}) × State
  pub write_object_tuple : String → String → String → State → Result (Unit {0}) × State
  pub delete_object_tuple : String → String → String → State → Result (Unit {0}) × State

abbrev pub file_type : String
file_type = "kamara/file"

abbrev pub folder_type : String
folder_type = "kamara/folder"

-- obj and folderObj
unfoldable pub file_name : String → String
file_name id = join file_type (join ":" id)

unfoldable pub folder_name : String → String
folder_name id = join folder_type (join ":" id)

-- Object.Permalink
unfoldable pub permalink : String → String
permalink id = join "/files/" id

abbrev pub audit_object : String → AuditObject
audit_object id = record { type_name = file_type; object_id = id; permalink = permalink id }

-- errors.Is(err, ErrVersionConflict)
unfoldable pub is_conflict : Error → Bool
is_conflict (wrapped text e) = is_conflict e
is_conflict version_conflict = true
is_conflict not_found = false
is_conflict forbidden = false
is_conflict modified = false
is_conflict not_empty = false
is_conflict would_cycle = false
is_conflict invalid_session = false
is_conflict not_exist = false
is_conflict (message text) = false
is_conflict unique_violation = false
is_conflict foreign_key_violation = false
is_conflict (external n) = false

-- What `create` of a file in one transaction writes.
unfoldable pub create_object : FileObject → String → List ChunkRef → Store (Unit {0})
create_object o version refs = do
  insert_object o
  insert_version o.object_id version 0 o.size refs o.created
  emit file_tables o.owner "kamara.file.created" (audit_object o.object_id)
  feed file_tables (record {
    doc_id = o.object_id;
    doc_type = file_type;
    permalink = permalink o.object_id;
    owner = o.owner;
    text = o.name;
  })

-- The ordinal after the latest, unless the caller's base is another.
unfoldable pub next_ordinal : Option ℕ → Option ℕ → Result ℕ
next_ordinal base none = err not_found
next_ordinal none (some latest) = ok (latest + 1)
next_ordinal (some b) (some latest) = if latest == b then ok (latest + 1) else err modified

-- The transaction of writeVersion, which sets `ordinal`.
unfoldable pub save_version : Subject → String → Option ℕ → String → ℕ → List ChunkRef → Store ℕ
save_version caller id base version total refs = do
  latest ← max_ordinal id
  ordinal ← lift (next_ordinal base latest)
  now ← (λ db. (ok db.now, db))
  insert_version id version ordinal total refs now
  set_object_size id total now
  emit file_tables caller "kamara.file.version_written" (audit_object id)
  pure ordinal

abbrev pub folder_of : Option FileObject → Option String
folder_of none = none
folder_of (some o) = o.folder_id

-- The transaction of Delete, with the variables that it sets: `orphans` and `folderID`.
unfoldable pub delete_rows : Subject → String → Store (List String × Option String)
delete_rows caller id = do
  emit file_tables caller "kamara.file.deleted" (audit_object id)
  found ← get_object id
  orphans ← reclaim_object id
  remove_doc file_tables id
  pure (orphans, folder_of found)

abbrev pub known {ℓ} : {A : Type ℓ} → Option A → Result A
known none = err not_found
known (some a) = ok a

abbrev pub max_attempts : ℕ
max_attempts = 5

module _ (B : BlobStore) (prim : Primitives) (c : Cipher) (sz : Sizes) (az : Authorizer) where
  pub record World : Type 0 where
    pub db : Db FileTables
    pub blobs : B.State
    pub drawn : ℕ
    pub authz : az.State

  -- A call of the database, of the authorization service, of the blob store, of the engine.
  unfoldable pub on_db : {A : Type 0} → Store A → Exec World A
  on_db m w = let (r, d) = m w.db in (r, record w { db = d })

  unfoldable pub on_authz : {A : Type 0} → (az.State → Result A × az.State) → Exec World A
  on_authz m w = let (r, s) = m w.authz in (r, record w { authz = s })

  unfoldable pub on_blobs : {A : Type 0} → (B.State → Result A × B.State) → Exec World A
  on_blobs m w = let (r, s) = m w.blobs in (r, record w { blobs = s })

  unfoldable pub ingest_from : Reader → Exec World (List ChunkRef × ℕ)
  ingest_from r w =
      let (x, p) = ingest B prim c sz r w.blobs w.drawn in
      (x, record w { blobs = p.blobs; drawn = p.drawn })

  abbrev pub allowed : String → Bool → Exec World (Unit {0})
  allowed name true = pure tt
  allowed name false = raise (wrapped name forbidden)

  -- authorizeAccess
  unfoldable pub authorize_access : Subject → String → Exec World (Unit {0})
  authorize_access caller name = do
    allowed? ← on_authz (az.check caller "can_access" name)
    allowed name allowed?

  unfoldable pub authorize : Subject → String → Exec World (Unit {0})
  authorize caller id = authorize_access caller (file_name id)

  unfoldable pub authorize_folder : Subject → Option String → Exec World (Unit {0})
  authorize_folder caller none = pure tt
  authorize_folder caller (some folder) = authorize_access caller (folder_name folder)

  abbrev rewrap : {A : Type 0} → String → Result A → Result A
  rewrap text (ok a) = ok a
  rewrap text (err e) = err (wrapped text e)

  -- fmt.Errorf("…: %w", err) around the error of a call.
  abbrev pub annotate : {A : Type 0} → String → Exec World A → Exec World A
  annotate text m w = let (r, w') = m w in (rewrap text r, w')

  unfoldable pub contain : Option String → String → Exec World (Unit {0})
  contain none child = pure tt
  contain (some folder) child =
      annotate "file: writing parent tuple"
        (on_authz (az.write_object_tuple (folder_name folder) "parent" child))

  abbrev pub clock : Exec World ℕ
  clock w = (ok w.db.now, w)

  -- Upload after the chunks are stored.
  unfoldable pub upload_object : FileObject → String → List ChunkRef → Exec World FileObject
  upload_object o version refs = do
    on_db (in_tx (create_object o version refs))
    annotate "file: writing owner tuple"
        (on_authz (az.write o.owner "owner" (file_name o.object_id)))
    contain o.folder_id (file_name o.object_id)
    pure o

  -- Upload
  unfoldable pub upload :
      (String → String) → Subject → Option String → String → Reader → Exec World FileObject
  upload types owner folder name r =
      if str_eq name "" then raise (message "file: name required") else do
        authorize_folder owner folder
        (refs, total) ← ingest_from r
        now ← clock
        id ← on_db fresh_id
        version ← on_db fresh_id
        upload_object
            (record {
              object_id = id;
              owner = owner;
              name = name;
              size = total;
              folder_id = folder;
              content_type = content_type_of types name;
              created = now;
              updated = now;
            })
            version refs

  -- LatestOrdinal
  unfoldable pub latest_ordinal : Subject → String → Exec World ℕ
  latest_ordinal caller id = do
    authorize caller id
    latest ← on_db (max_ordinal id)
    lift (known latest)

  -- Get
  unfoldable pub get_file : Subject → String → Exec World FileObject
  get_file caller id = do authorize caller id; found ← on_db (get_object id); lift (known found)

  -- One round of the loop of writeVersion.
  unfoldable pub save_round : Subject → String → Option ℕ → ℕ → List ChunkRef → Exec World ℕ
  save_round caller id base total refs = do
    version ← on_db fresh_id
    on_db (in_tx (save_version caller id base version total refs))

  abbrev retried : (World → Result ℕ × World) → Bool → Result ℕ → Exec World ℕ
  retried again more (ok ordinal) w = (ok ordinal, w)
  retried again more (err e) w = if more && is_conflict e then again w else (err e, w)

  -- The loop of writeVersion, with the rounds that are left after this one.
  unfoldable pub save_rounds : ℕ → Subject → String → Option ℕ → ℕ → List ChunkRef → Exec World ℕ
  save_rounds zero caller id base total refs w =
      let (r, w') = save_round caller id base total refs w in retried (raise not_found) false r w'
  save_rounds (suc n) caller id base total refs w =
      let (r, w') = save_round caller id base total refs w in
      retried (save_rounds n caller id base total refs) true r w'

  -- writeVersion: WriteVersion without a base, WriteVersionAt with one. The code returns the ordinal's
  -- decimal digits.
  unfoldable pub write_version : Subject → String → Reader → Option ℕ → Exec World ℕ
  write_version caller id r base = do
    authorize caller id
    (refs, total) ← ingest_from r
    save_rounds (max_attempts - 1) caller id base total refs

  unfoldable pub delete_blobs : List String → Exec World (Unit {0})
  delete_blobs [] = pure tt
  delete_blobs (h ∷ hs) = attempt (on_blobs (B.delete h)) >> delete_blobs hs

  unfoldable pub release : Option String → String → Exec World (Unit {0})
  release none child = pure tt
  release (some folder) child =
      attempt (on_authz (az.delete_object_tuple (folder_name folder) "parent" child))

  unfoldable pub revoke_sessions :
      Option (String → Store (Unit {0})) → String → Exec World (Unit {0})
  revoke_sessions none id = pure tt
  revoke_sessions (some revoke) id = attempt (on_db (revoke id))

  -- Delete
  unfoldable pub delete_file :
      Option (String → Store (Unit {0})) → Subject → String → Exec World (Unit {0})
  delete_file revoker caller id = do
    authorize caller id
    (orphans, folder) ← on_db (in_tx (delete_rows caller id))
    delete_blobs orphans
    release folder (file_name id)
    revoke_sessions revoker id
    on_authz (az.delete caller "owner" (file_name id))
