-- ===== src/Kamara/Listings.antt =====
-- The reads with an order of kamara/internal/store/repos.go, and the operations of file.go and folder.go
-- that return them: Download, List, ListVersions, ListChildren, AllFolders.
pub mod Rows
pub mod Manifest
use peristera.Prelude.{
  ℕ, String, Bool, true, false, ◌&&◌, Option, none, some, List, [], ◌∷◌, str_eq, ltb, if◌then◌else◌,
  Result, ok, err, Error,
}
use peristera.Prelude.Exec.{Exec, pure, raise, lift, ◌>>=◌, ◌>>◌}
use peristera.Pii.{Subject, same_subject}
use peristera.Database.{Db, stmt}
use peristera.Kamara.Blob.{BlobStore}
use peristera.Kamara.Chunk.{Sizes}
use peristera.Kamara.Crypto.{Primitives, Cipher}
use peristera.Kamara.Engine.{ChunkRef, Writer, reassemble}
use peristera.Kamara.Tables.{
  FileObject, Folder, VersionRow, ManifestRow, ChunkRow, FileTables, member,
}
use peristera.Kamara.Store.{Store}
use peristera.Kamara.Files.{
  Authorizer, World, file_type, on_db, on_authz, authorize, authorize_folder,
}
use peristera.Kamara.FolderTree.{Collation, objects_in_folder, folders_in_parent}

module _ {A : Type 0} (key : A → ℕ) where
  unfoldable pub insert_by_key : A → List A → List A
  insert_by_key x [] = x ∷ []
  insert_by_key x (y ∷ ys) =
      let rest = insert_by_key x ys in if ltb (key y) (key x) then y ∷ rest else x ∷ y ∷ ys

  -- ORDER BY a number.
  unfoldable pub order_by_key : List A → List A
  order_by_key [] = []
  order_by_key (x ∷ xs) = insert_by_key x (order_by_key xs)

  unfoldable pub insert_by_key_desc : A → List A → List A
  insert_by_key_desc x [] = x ∷ []
  insert_by_key_desc x (y ∷ ys) =
      let rest = insert_by_key_desc x ys in if ltb (key x) (key y) then y ∷ rest else x ∷ y ∷ ys

  -- ORDER BY a number DESC.
  unfoldable pub order_by_key_desc : List A → List A
  order_by_key_desc [] = []
  order_by_key_desc (x ∷ xs) = insert_by_key_desc x (order_by_key_desc xs)

unfoldable pub objects_with : List String → List FileObject → List FileObject
objects_with ids [] = []
objects_with ids (o ∷ objects) =
    let rest = objects_with ids objects in if member o.object_id ids then o ∷ rest else rest

-- ByIDs
unfoldable pub by_ids : List String → Store (List FileObject)
by_ids [] = pure []
by_ids (id ∷ ids) = stmt (λ t.
    (ok (order_by_key (λ (o : FileObject). o.created) (objects_with (id ∷ ids) t.objects)), t))

unfoldable pub objects_of : Subject → List FileObject → List FileObject
objects_of owner [] = []
objects_of owner (o ∷ objects) =
    let rest = objects_of owner objects in if same_subject owner o.owner then o ∷ rest else rest

-- ByOwner
unfoldable pub by_owner : Subject → Store (List FileObject)
by_owner owner =
    stmt (λ t. (ok (order_by_key (λ (o : FileObject). o.created) (objects_of owner t.objects)), t))

unfoldable pub folders_of : Subject → List Folder → List Folder
folders_of owner [] = []
folders_of owner (f ∷ folders) =
    let rest = folders_of owner folders in if same_subject owner f.owner then f ∷ rest else rest

-- FoldersByOwner
unfoldable pub folders_by_owner : Subject → Store (List Folder)
folders_by_owner owner =
    stmt (λ t. (ok (order_by_key (λ (f : Folder). f.created) (folders_of owner t.folders)), t))

unfoldable pub versions_of : String → List VersionRow → List VersionRow
versions_of id [] = []
versions_of id (v ∷ versions) =
    let rest = versions_of id versions in if str_eq id v.object_id then v ∷ rest else rest

-- ListVersions
unfoldable pub list_versions : String → Store (List VersionRow)
list_versions id =
    stmt
      (λ t. (ok (order_by_key_desc (λ (v : VersionRow). v.ordinal) (versions_of id t.versions)), t))

abbrev newer : String → VersionRow → Option VersionRow → Option VersionRow
newer id v none = if str_eq id v.object_id then some v else none
newer id v (some x) = if str_eq id v.object_id && ltb x.ordinal v.ordinal then some v else some x

-- The subquery of ManifestOf: the version with the highest ordinal.
unfoldable pub latest_of : String → List VersionRow → Option VersionRow
latest_of id [] = none
latest_of id (v ∷ versions) = newer id v (latest_of id versions)

unfoldable pub rows_of : String → List ManifestRow → List ManifestRow
rows_of version [] = []
rows_of version (r ∷ rows) =
    let rest = rows_of version rows in if str_eq version r.version_id then r ∷ rest else rest

unfoldable pub size_of : String → List ChunkRow → Option ℕ
size_of h [] = none
size_of h (c ∷ chunks) = if str_eq h c.hash then some c.size else size_of h chunks

abbrev sized : ManifestRow → Option ℕ → List ChunkRef → List ChunkRef
sized r none rest = rest
sized r (some size) rest = record { hash = r.chunk_hash; size = size } ∷ rest

-- The join with chunks, whose hash is the primary key: a row without its chunk is left out.
unfoldable pub with_sizes : List ChunkRow → List ManifestRow → List ChunkRef
with_sizes chunks [] = []
with_sizes chunks (r ∷ rows) = sized r (size_of r.chunk_hash chunks) (with_sizes chunks rows)

unfoldable pub manifest_in : FileTables → Option VersionRow → List ChunkRef
manifest_in t none = []
manifest_in t (some v) =
    with_sizes t.chunks
      (order_by_key (λ (r : ManifestRow). r.index) (rows_of v.version_id t.version_chunks))

-- ManifestOf
unfoldable pub manifest_of : String → Store (List ChunkRef)
manifest_of id = stmt (λ t. (ok (manifest_in t (latest_of id t.versions)), t))

module _ (B : BlobStore) (prim : Primitives) (c : Cipher) (sz : Sizes) (az : Authorizer) where
  abbrev pub into : Result (Unit {0}) → Writer → Result Writer
  into (ok u) out = ok out
  into (err e) out = err e

  -- engine.Reassemble into a writer, which comes back with what was written.
  unfoldable pub write_out : List ChunkRef → Writer → Exec (World B prim c sz az) Writer
  write_out refs out w =
      let (r, s, out') = reassemble B prim c refs w.blobs out in
      (into r out', record w { blobs = s })

  -- Download
  unfoldable pub download : Subject → String → Writer → Exec (World B prim c sz az) Writer
  download caller id out = do
    authorize B prim c sz az caller id
    refs ← on_db B prim c sz az (manifest_of id)
    write_out refs out

  -- List, over the objects that the authorization service lists.
  unfoldable pub list_files :
      (az.State → Result (List String) × az.State) → Exec (World B prim c sz az) (List FileObject)
  list_files list_objects = do
    ids ← on_authz B prim c sz az list_objects
    on_db B prim c sz az (by_ids ids)

  -- Service.ListVersions
  unfoldable pub versions_listed : Subject → String → Exec (World B prim c sz az) (List VersionRow)
  versions_listed caller id = do
    authorize B prim c sz az caller id
    on_db B prim c sz az (list_versions id)

  -- ListChildren
  unfoldable pub list_children :
      Collation
      → Subject
      → Option String
      → Exec (World B prim c sz az) (List Folder × List FileObject)
  list_children before caller folder = do
    authorize_folder B prim c sz az caller folder
    folders ← on_db B prim c sz az (folders_in_parent before caller folder)
    files ← on_db B prim c sz az (objects_in_folder before caller folder)
    pure (folders, files)

  -- AllFolders
  unfoldable pub all_folders : Subject → Exec (World B prim c sz az) (List Folder)
  all_folders caller = on_db B prim c sz az (folders_by_owner caller)
