-- ===== src/Kamara/SubjectData.antt =====
-- The personal data hooks of files (kamara/internal/file/subject_data.go): what is exported of a person,
-- and what an erasure deletes. The statements of an erasure are in no transaction.
pub mod Keys
pub mod Left
pub mod Erasure
pub mod Depth
use peristera.Prelude.{
  ℕ, zero, suc, String, Bool, true, false, Option, none, some, List, [], ◌∷◌, map, length, Result,
  ok, err, if◌then◌else◌,
}
use peristera.Prelude.Exec.{Exec, pure, attempt, ◌>>=◌, ◌>>◌}
use peristera.Pii.{Subject}
use peristera.Conventions.{remove_doc}
use peristera.Kamara.Blob.{BlobStore}
use peristera.Kamara.Chunk.{Sizes}
use peristera.Kamara.Crypto.{Primitives, Cipher}
use peristera.Kamara.Tables.{FileObject, Folder, FileTables, file_tables, find_folder, member}
use peristera.Kamara.Store.{chunk_hashes_of, delete_object, dec_ref, delete_chunks}
use peristera.Kamara.FolderStore.{delete_folder}
use peristera.Kamara.Listings.{by_owner, folders_by_owner, order_by_key_desc}
use peristera.Kamara.Files.{
  Authorizer, World, on_db, on_authz, delete_blobs, release, file_name, folder_name, permalink,
}
use peristera.Kamara.Folders.{folder_permalink}

pub record FileExport : Type 0 where
  pub id : String
  pub name : String
  pub size : ℕ
  pub folder : Option String
  pub created : ℕ
  pub permalink : String

pub record FolderExport : Type 0 where
  pub id : String
  pub name : String
  pub parent : Option String
  pub created : ℕ
  pub permalink : String

abbrev pub Export : Type 0
Export = List FileExport × List FolderExport

abbrev file_export : FileObject → FileExport
file_export o = record {
  id = o.object_id;
  name = o.name;
  size = o.size;
  folder = o.folder_id;
  created = o.created;
  permalink = permalink o.object_id;
}

abbrev folder_export : Folder → FolderExport
folder_export f = record {
  id = f.folder_id;
  name = f.name;
  parent = f.parent_id;
  created = f.created;
  permalink = folder_permalink f.folder_id;
}

-- No export if there is nothing.
unfoldable pub export_of : List FileObject → List Folder → Option Export
export_of [] [] = none
export_of objects folders = some (map file_export objects, map folder_export folders)

-- The steps from a folder towards a root among `folders`, with the rounds that are left. The identifiers
-- of `folders` are a key, so that the first of them is the one that the map of the code has.
unfoldable pub depth_from : List Folder → ℕ → List String → Option String → ℕ
depth_from folders zero seen cur = 0
depth_from folders (suc n) seen none = 0
depth_from folders (suc n) seen (some id) =
    if member id seen then 0 else elim (find_folder id folders) [
      | none ↦ 0
      | some p ↦ suc (depth_from folders n (id ∷ seen) p.parent_id)
    ]

unfoldable pub depth : List Folder → Folder → ℕ
unfolding depth_from
depth folders f = depth_from folders (length folders) (f.folder_id ∷ []) f.parent_id

-- deepestFirst
unfoldable pub deepest_first : List Folder → List Folder
unfolding depth order_by_key_desc
deepest_first folders = order_by_key_desc (depth folders) folders

module _ (B : BlobStore) (prim : Primitives) (c : Cipher) (sz : Sizes) (az : Authorizer) where
  -- ExportSubject
  unfoldable pub export_subject : Subject → Exec (World B prim c sz az) (Option Export)
  export_subject s = do
    objects ← on_db B prim c sz az (by_owner s)
    folders ← on_db B prim c sz az (folders_by_owner s)
    pure (export_of objects folders)

  unfoldable pub erase_files : Subject → List FileObject → Exec (World B prim c sz az) (Unit {0})
  erase_files s [] = pure tt
  erase_files s (o ∷ objects) = do
    hashes ← on_db B prim c sz az (chunk_hashes_of o.object_id)
    on_db B prim c sz az (delete_object o.object_id)
    orphans ← on_db B prim c sz az (dec_ref hashes)
    on_db B prim c sz az (delete_chunks orphans)
    delete_blobs B prim c sz az orphans
    on_db B prim c sz az (remove_doc file_tables o.object_id)
    release B prim c sz az o.folder_id (file_name o.object_id)
    on_authz B prim c sz az (az.delete s "owner" (file_name o.object_id))
    erase_files s objects

  unfoldable pub erase_folders : Subject → List Folder → Exec (World B prim c sz az) (Unit {0})
  erase_folders s [] = pure tt
  erase_folders s (f ∷ folders) = do
    on_db B prim c sz az (delete_folder f.folder_id)
    on_db B prim c sz az (remove_doc file_tables f.folder_id)
    release B prim c sz az f.parent_id (folder_name f.folder_id)
    on_authz B prim c sz az (az.delete s "owner" (folder_name f.folder_id))
    erase_folders s folders

  -- EraseSubject
  unfoldable pub erase_subject_data : Subject → Exec (World B prim c sz az) (Unit {0})
  erase_subject_data s = do
    objects ← on_db B prim c sz az (by_owner s)
    erase_files s objects
    folders ← on_db B prim c sz az (folders_by_owner s)
    erase_folders s (deepest_first folders)
