-- ===== src/Kamara/FolderTree.antt =====
-- DeleteFolderTree of kamara/internal/file/folder.go, with the two listings of repos.go that it reads. The
-- order of names is the database's collation, and a parameter.
pub mod Counted
use peristera.Prelude.{
  ℕ, suc, zero, String, Bool, true, false, not, ◌&&◌, Option, none, some, List, [], ◌∷◌, ◌++◌,
  length, str_eq, if◌then◌else◌, Result, ok, err, Error, message,
}
use peristera.Prelude.Exec.{Exec, pure, raise, lift, attempt, ◌>>=◌, ◌>>◌}
use peristera.Pii.{Subject, same_subject}
use peristera.Database.{Db, stmt, in_tx}
use peristera.Conventions.{emit, remove_doc}
use peristera.Kamara.Blob.{BlobStore}
use peristera.Kamara.Chunk.{Sizes}
use peristera.Kamara.Crypto.{Primitives, Cipher}
use peristera.Kamara.Tables.{FileObject, Folder, FileTables, file_tables, member}
use peristera.Kamara.Store.{Store, reclaim_object}
use peristera.Kamara.FolderStore.{delete_folder}
use peristera.Kamara.Files.{
  Authorizer, World, file_name, folder_name, audit_object, on_db, on_authz, authorize_access,
  delete_blobs, release, revoke_sessions,
}
use peristera.Kamara.Folders.{audit_folder, found_folder, forget_parent}

abbrev pub Collation : Type 0
Collation = String → String → Bool

-- IS NOT DISTINCT FROM
unfoldable pub same_place : Option String → Option String → Bool
same_place none none = true
same_place (some a) (some b) = str_eq a b
same_place none (some b) = false
same_place (some a) none = false

module _ {A : Type 0} (name_of : A → String) (before : Collation) where
  unfoldable pub insert_by_name : A → List A → List A
  insert_by_name x [] = x ∷ []
  insert_by_name x (y ∷ ys) =
      let rest = insert_by_name x ys in
      if before (name_of y) (name_of x) then y ∷ rest else x ∷ y ∷ ys

  -- ORDER BY name
  unfoldable pub order_by_name : List A → List A
  order_by_name [] = []
  order_by_name (x ∷ xs) = insert_by_name x (order_by_name xs)

unfoldable pub objects_at : Subject → Option String → List FileObject → List FileObject
objects_at owner place [] = []
objects_at owner place (o ∷ objects) =
    let rest = objects_at owner place objects in
    if same_subject owner o.owner && same_place place o.folder_id then o ∷ rest else rest

unfoldable pub folders_at : Subject → Option String → List Folder → List Folder
folders_at owner place [] = []
folders_at owner place (f ∷ folders) =
    let rest = folders_at owner place folders in
    if same_subject owner f.owner && same_place place f.parent_id then f ∷ rest else rest

-- ObjectsInFolder
unfoldable pub objects_in_folder : Collation → Subject → Option String → Store (List FileObject)
objects_in_folder before owner place = stmt (λ t.
    (ok (order_by_name (λ (o : FileObject). o.name) before (objects_at owner place t.objects)), t))

-- FoldersInParent
unfoldable pub folders_in_parent : Collation → Subject → Option String → Store (List Folder)
folders_in_parent before owner place = stmt (λ t.
    (ok (order_by_name (λ (f : Folder). f.name) before (folders_at owner place t.folders)), t))

-- What the walk collects: the folders that it has listed, those that it has not, and the files.
pub record Collected : Type 0 where
  pub seen : List String
  pub listed : List Folder
  pub queue : List Folder
  pub files : List FileObject

-- The loop over the child folders of one folder.
unfoldable pub enqueue : List Folder → Collected → Collected
enqueue [] s = s
enqueue (f ∷ subs) s =
    let skip = enqueue subs s in
    let take_it =
      enqueue subs (record s { seen = f.folder_id ∷ s.seen; queue = s.queue ++ f ∷ [] }) in
    if member f.folder_id s.seen then skip else take_it

-- One round of the breadth-first loop.
unfoldable pub list_folder : Collation → Subject → Folder → Collected → Store Collected
list_folder before caller f s = do
  files ← objects_in_folder before caller (some f.folder_id)
  subs ← folders_in_parent before caller (some f.folder_id)
  pure (enqueue subs (record s { listed = s.listed ++ f ∷ []; files = s.files ++ files }))

-- The head of the queue is listed, and `rest` goes on.
abbrev pub next_folder :
    Collation → Subject → Collected → (Collected → Store Collected) → List Folder → Store Collected
next_folder before caller s rest [] = pure s
next_folder before caller s rest (f ∷ queue) = do
  s' ← list_folder before caller f (record s { queue = queue })
  rest s'

-- The breadth-first loop, whose rounds `fuel` bounds.
unfoldable pub collect_tree : ℕ → Collation → Subject → Collected → Store Collected
collect_tree zero before caller s = raise (message "DeleteFolderTree: out of fuel")
collect_tree (suc fuel) before caller s =
    next_folder before caller s (collect_tree fuel before caller) s.queue

-- The files of the tree, with the orphans of each.
unfoldable pub delete_files : Subject → List FileObject → Store (List String)
delete_files caller [] = pure []
delete_files caller (o ∷ files) = do
  emit file_tables caller "kamara.file.deleted" (audit_object o.object_id)
  gone ← reclaim_object o.object_id
  remove_doc file_tables o.object_id
  orphans ← delete_files caller files
  pure (gone ++ orphans)

-- The folders of the tree, children first: the last one listed is the first to go.
unfoldable pub delete_folders : Subject → List Folder → Store (Unit {0})
delete_folders caller [] = pure tt
delete_folders caller (f ∷ folders) = do
  delete_folders caller folders
  emit file_tables caller "kamara.folder.deleted" (audit_folder f.folder_id)
  delete_folder f.folder_id
  remove_doc file_tables f.folder_id

-- The transaction, with the variables that it sets. A round for each folder and two more are given.
unfoldable pub delete_tree_rows : Collation → Subject → Folder → Store (Collected × List String)
delete_tree_rows before caller top db =
    (do
      s ←
          collect_tree (suc (suc (length db.tables.folders))) before caller
            (record { seen = top.folder_id ∷ []; listed = []; queue = top ∷ []; files = [] })
      orphans ← delete_files caller s.files
      delete_folders caller s.listed
      pure (s, orphans))
      db

-- The first error of the ownership tuples is the one that is returned.
abbrev first_error : Result (Unit {0}) → Result (Unit {0}) → Result (Unit {0})
first_error (err e) r = err e
first_error (ok u) r = r

module _ (B : BlobStore) (prim : Primitives) (c : Cipher) (sz : Sizes) (az : Authorizer) where
  -- `keep`: the rest is done whatever this call returns.
  abbrev keep :
      Exec (World B prim c sz az) (Unit {0})
      → Exec (World B prim c sz az) (Unit {0})
      → Exec (World B prim c sz az) (Unit {0})
  keep m rest w = let (r, w') = m w in let (r', w'') = rest w' in (first_error r r', w'')

  unfoldable pub forget_folders : Subject → List Folder → Exec (World B prim c sz az) (Unit {0})
  forget_folders caller [] = pure tt
  forget_folders caller (f ∷ folders) =
      forget_parent B prim c sz az f.parent_id (folder_name f.folder_id)
      >> keep (on_authz B prim c sz az (az.delete caller "owner" (folder_name f.folder_id)))
          (forget_folders caller folders)

  unfoldable pub forget_files :
      Option (String → Store (Unit {0}))
      → Subject
      → List FileObject
      → Exec (World B prim c sz az) (Unit {0})
      → Exec (World B prim c sz az) (Unit {0})
  forget_files revoker caller [] rest = rest
  forget_files revoker caller (o ∷ files) rest = do
    revoke_sessions B prim c sz az revoker o.object_id
    release B prim c sz az o.folder_id (file_name o.object_id)
    keep (on_authz B prim c sz az (az.delete caller "owner" (file_name o.object_id)))
        (forget_files revoker caller files rest)

  -- DeleteFolderTree
  unfoldable pub delete_folder_tree :
      Collation
      → Option (String → Store (Unit {0}))
      → Subject
      → String
      → Exec (World B prim c sz az) (Unit {0})
  delete_folder_tree before revoker caller id = do
    authorize_access B prim c sz az caller (folder_name id)
    top ← found_folder B prim c sz az id
    (s, orphans) ← on_db B prim c sz az (in_tx (delete_tree_rows before caller top))
    delete_blobs B prim c sz az orphans
    forget_files revoker caller s.files (forget_folders caller s.listed)
