-- ===== src/Kamara/Folders.antt =====
-- The folders of the file service (kamara/internal/file/folder.go).
pub mod Rooted
pub mod Forest
pub mod Walk
use Prim.Native.String.{◌++◌ as join}
use peristera.Prelude.{
  ℕ, suc, zero, ◌+◌, String, Bool, true, false, not, ◌&&◌, ◌||◌, Option, none, some, List, [], ◌∷◌,
  ◌++◌, length, str_eq, if◌then◌else◌, Result, ok, err, Error, message, wrapped, not_found,
  not_empty, would_cycle as cyclic_move,
}
use peristera.Prelude.Exec.{Exec, pure, raise, lift, attempt, ◌>>=◌, ◌>>◌}
use peristera.Pii.{Subject}
use peristera.Database.{Db, fresh_id, in_tx}
use peristera.Conventions.{AuditObject, SearchDoc, emit, feed, remove_doc}
use peristera.Kamara.Blob.{BlobStore}
use peristera.Kamara.Chunk.{Sizes}
use peristera.Kamara.Crypto.{Primitives, Cipher}
use peristera.Kamara.Tables.{FileObject, Folder, FileTables, file_tables, member}
use peristera.Kamara.Store.{Store, get_object, set_object_folder, set_object_name}
use peristera.Kamara.FolderStore.{
  insert_folder, get_folder, folder_has_children, set_folder_parent, set_folder_name, delete_folder,
}
use peristera.Kamara.Files.{
  Authorizer, World, file_type, folder_type, file_name, folder_name, permalink, audit_object, known,
  on_db, on_authz, authorize, authorize_access, authorize_folder, annotate, clock,
}

-- Folder.Permalink
unfoldable pub folder_permalink : String → String
folder_permalink id = join "/folders/" id

abbrev pub audit_folder : String → AuditObject
audit_folder id = record {
  type_name = folder_type;
  object_id = id;
  permalink = folder_permalink id;
}

abbrev folder_doc : String → Subject → String → SearchDoc
folder_doc id owner name = record {
  doc_id = id;
  doc_type = folder_type;
  permalink = folder_permalink id;
  owner = owner;
  text = name;
}

abbrev file_doc : String → Subject → String → SearchDoc
file_doc id owner name = record {
  doc_id = id;
  doc_type = file_type;
  permalink = permalink id;
  owner = owner;
  text = name;
}

-- The transaction of CreateFolder.
unfoldable pub create_folder_rows : Folder → Store (Unit {0})
create_folder_rows f = do
  insert_folder f
  emit file_tables f.owner "kamara.folder.created" (audit_folder f.folder_id)
  feed file_tables (folder_doc f.folder_id f.owner f.name)

-- The transactions of RenameFile, MoveFile, RenameFolder, MoveFolder and DeleteFolder. The row that
-- was read has the identifier `id`, so its permalink is that of `id`.
unfoldable pub rename_file_rows : Subject → String → FileObject → String → Store (Unit {0})
rename_file_rows caller id o name = do
  now ← (λ db. (ok db.now, db))
  set_object_name id name now
  emit file_tables caller "kamara.file.renamed" (audit_object id)
  feed file_tables (file_doc id o.owner name)

unfoldable pub move_file_rows : Subject → String → Option String → Store (Unit {0})
move_file_rows caller id dest = do
  now ← (λ db. (ok db.now, db))
  set_object_folder id dest now
  emit file_tables caller "kamara.file.moved" (audit_object id)

unfoldable pub rename_folder_rows : Subject → String → Folder → String → Store (Unit {0})
rename_folder_rows caller id f name = do
  now ← (λ db. (ok db.now, db))
  set_folder_name id name now
  emit file_tables caller "kamara.folder.renamed" (audit_folder id)
  feed file_tables (folder_doc id f.owner name)

unfoldable pub move_folder_rows : Subject → String → Option String → Store (Unit {0})
move_folder_rows caller id dest = do
  now ← (λ db. (ok db.now, db))
  set_folder_parent id dest now
  emit file_tables caller "kamara.folder.moved" (audit_folder id)

unfoldable pub delete_folder_rows : Subject → String → Store (Unit {0})
delete_folder_rows caller id = do
  emit file_tables caller "kamara.folder.deleted" (audit_folder id)
  delete_folder id
  remove_doc file_tables id

-- The rest of a walk towards the root, after GetFolder.
abbrev climb : (Option String → Store Bool) → Option Folder → Store Bool
climb rest none = pure false
climb rest (some f) = rest f.parent_id

-- The loop of wouldCycle, whose rounds `fuel` bounds.
unfoldable pub walk : ℕ → String → List String → Option String → Store Bool
walk zero moving seen cur = raise (message "wouldCycle: out of fuel")
walk (suc fuel) moving seen none = pure false
walk (suc fuel) moving seen (some id) =
    let rest = walk fuel moving (id ∷ seen) in
    if str_eq id moving || member id seen
    then pure true
    else do found ← get_folder id; climb rest found

-- wouldCycle: a round for each folder, and two more, are enough.
unfoldable pub would_cycle : String → String → Store Bool
would_cycle moving dest db = walk (suc (suc (length db.tables.folders))) moving [] (some dest) db

abbrev climb_from :
    (Option String → List Folder → Store (List Folder))
    → List Folder
    → Option Folder
    → Store (List Folder)
climb_from rest chain none = pure chain
climb_from rest chain (some f) = rest f.parent_id (f ∷ chain)

-- The loop of Ancestors. The code appends to the chain and reverses it at the end.
unfoldable pub ancestors_from : ℕ → List String → Option String → List Folder → Store (List Folder)
ancestors_from zero seen cur chain = raise (message "Ancestors: out of fuel")
ancestors_from (suc fuel) seen none chain = pure chain
ancestors_from (suc fuel) seen (some id) chain =
    let rest = ancestors_from fuel (id ∷ seen) in
    if member id seen then pure chain else do found ← get_folder id; climb_from rest chain found

module _ (B : BlobStore) (prim : Primitives) (c : Cipher) (sz : Sizes) (az : Authorizer) where
  abbrev Service : Type 0 → Type 0
  Service A = Exec (World B prim c sz az) A

  unfoldable pub found_folder : String → Service Folder
  found_folder id = do found ← on_db B prim c sz az (get_folder id); lift (known found)

  unfoldable pub found_object : String → Service FileObject
  found_object id = do found ← on_db B prim c sz az (get_object id); lift (known found)

  unfoldable pub clear_parent : Option String → String → Service (Unit {0})
  clear_parent none child = pure tt
  clear_parent (some folder) child =
      annotate B prim c sz az "file: clearing old parent tuple"
        (on_authz B prim c sz az (az.delete_object_tuple (folder_name folder) "parent" child))

  unfoldable pub set_parent : Option String → String → Service (Unit {0})
  set_parent none child = pure tt
  set_parent (some folder) child =
      annotate B prim c sz az "file: writing parent tuple"
        (on_authz B prim c sz az (az.write_object_tuple (folder_name folder) "parent" child))

  -- reparent
  unfoldable pub reparent : String → Option String → Option String → Service (Unit {0})
  reparent child old dest = clear_parent old child >> set_parent dest child

  unfoldable pub link_folder : Option String → String → Service (Unit {0})
  link_folder none child = pure tt
  link_folder (some folder) child =
      annotate B prim c sz az "folder: writing parent tuple"
        (on_authz B prim c sz az (az.write_object_tuple (folder_name folder) "parent" child))

  unfoldable pub store_folder : Folder → Service Folder
  store_folder f = do
    on_db B prim c sz az (in_tx (create_folder_rows f))
    annotate B prim c sz az "folder: writing owner tuple"
        (on_authz B prim c sz az (az.write f.owner "owner" (folder_name f.folder_id)))
    link_folder f.parent_id (folder_name f.folder_id)
    pure f

  -- CreateFolder
  unfoldable pub create_folder : Subject → Option String → String → Service Folder
  create_folder owner parent name =
      if str_eq name "" then raise (message "file: folder name required") else do
        authorize_folder B prim c sz az owner parent
        now ← clock B prim c sz az
        id ← on_db B prim c sz az fresh_id
        store_folder (record {
          folder_id = id;
          owner = owner;
          parent_id = parent;
          name = name;
          created = now;
          updated = now;
        })

  -- Service.GetFolder
  unfoldable pub read_folder : Subject → String → Service Folder
  read_folder caller id = do
    authorize_access B prim c sz az caller (folder_name id)
    found_folder id

  -- Ancestors
  unfoldable pub ancestors : Subject → String → Service (List Folder)
  ancestors caller id = do
    authorize_access B prim c sz az caller (folder_name id)
    on_db B prim c sz az
        (λ db. ancestors_from (suc (suc (length db.tables.folders))) [] (some id) [] db)

  -- RenameFile
  unfoldable pub rename_file : Subject → String → String → Service (Unit {0})
  rename_file caller id name = if str_eq name "" then raise (message "file: name required") else do
    authorize B prim c sz az caller id
    o ← found_object id
    on_db B prim c sz az (in_tx (rename_file_rows caller id o name))

  -- MoveFile
  unfoldable pub move_file : Subject → String → Option String → Service (Unit {0})
  move_file caller id dest = do
    authorize B prim c sz az caller id
    authorize_folder B prim c sz az caller dest
    o ← found_object id
    on_db B prim c sz az (in_tx (move_file_rows caller id dest))
    reparent (file_name id) o.folder_id dest

  -- RenameFolder
  unfoldable pub rename_folder : Subject → String → String → Service (Unit {0})
  rename_folder caller id name =
      if str_eq name "" then raise (message "file: folder name required") else do
        authorize_access B prim c sz az caller (folder_name id)
        f ← found_folder id
        on_db B prim c sz az (in_tx (rename_folder_rows caller id f name))

  abbrev refuse_cycle : Bool → Service (Unit {0})
  refuse_cycle true = raise cyclic_move
  refuse_cycle false = pure tt

  unfoldable pub check_dest : Subject → String → Option String → Service (Unit {0})
  check_dest caller id none = pure tt
  check_dest caller id (some dest) = do
    authorize_access B prim c sz az caller (folder_name dest)
    cyclic ← on_db B prim c sz az (would_cycle id dest)
    refuse_cycle cyclic

  unfoldable pub move_checked : Subject → String → Option String → Service (Unit {0})
  move_checked caller id dest = do
    f ← found_folder id
    on_db B prim c sz az (in_tx (move_folder_rows caller id dest))
    reparent (folder_name id) f.parent_id dest

  -- MoveFolder
  unfoldable pub move_folder : Subject → String → Option String → Service (Unit {0})
  move_folder caller id dest = do
    authorize_access B prim c sz az caller (folder_name id)
    check_dest caller id dest
    move_checked caller id dest

  abbrev refuse_full : Bool → Service (Unit {0})
  refuse_full true = raise not_empty
  refuse_full false = pure tt

  unfoldable pub forget_parent : Option String → String → Service (Unit {0})
  forget_parent none child = pure tt
  forget_parent (some folder) child =
      attempt (on_authz B prim c sz az (az.delete_object_tuple (folder_name folder) "parent" child))

  -- Service.DeleteFolder
  unfoldable pub remove_folder : Subject → String → Service (Unit {0})
  remove_folder caller id = do
    authorize_access B prim c sz az caller (folder_name id)
    has ← on_db B prim c sz az (folder_has_children id)
    refuse_full has
    f ← found_folder id
    on_db B prim c sz az (in_tx (delete_folder_rows caller id))
    forget_parent f.parent_id (folder_name id)
    on_authz B prim c sz az (az.delete caller "owner" (folder_name id))
