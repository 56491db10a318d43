-- ===== src/Kamara/Zip.antt =====
-- DownloadZip (kamara/internal/file/zip.go): the walk of a folder's subtree, and the names of the entries.
-- The archive is the list of its entries; a call of the archive's writer may fail.
pub mod EntryNames
pub mod Directory
pub mod Listed
pub mod Levels
use Prim.Native.Char.{Char, code}
use Prim.Native.String.{◌++◌ as join}
use peristera.Prelude.{
  ℕ, zero, suc, ◌+◌, String, Bool, true, false, not, ◌&&◌, ◌||◌, Option, none, some, List, [], ◌∷◌,
  ◌++◌, map, length, str_eq, ◌==◌, if◌then◌else◌, Result, ok, err, Error, message, wrapped,
}
use peristera.Prelude.Decimal.{decimal}
use peristera.Prelude.Exec.{Exec, pure, raise, lift, ◌>>=◌, ◌>>◌}
use peristera.Pii.{Subject}
use peristera.Kamara.Blob.{BlobStore}
use peristera.Kamara.Chunk.{Sizes}
use peristera.Kamara.ContentType.{extension_from}
use peristera.Kamara.Crypto.{Primitives, Cipher}
use peristera.Kamara.Engine.{ChunkRef, Writer, reassemble}
use peristera.Kamara.Tables.{FileObject, Folder, member}
use peristera.Kamara.Files.{Authorizer, World, on_db, authorize_folder}
use peristera.Kamara.FolderTree.{Collation, objects_in_folder, folders_in_parent}
use peristera.Kamara.Listings.{manifest_of}

-- The function that sanitizeEntryName maps over a name.
unfoldable pub flat : Char → Char
flat c = if code c == b'/' || code c == b'\\' then "_" else c

unfoldable pub flatten : String → String
unfolding flat
flatten String.[] = ""
flatten (String.◌∷◌ c s) = String.◌∷◌ (flat c) (flatten s)

-- sanitizeEntryName
unfoldable pub sanitize : String → String
unfolding flatten
sanitize name =
    let flattened = flatten name in
    if str_eq flattened "." || str_eq flattened ".." then "_" else flattened

-- strings.TrimSuffix
unfoldable pub trim_suffix : String → String → String
trim_suffix suffix String.[] = ""
trim_suffix suffix (String.◌∷◌ c s) =
    let rest = trim_suffix suffix s in
    if str_eq (String.◌∷◌ c s) suffix then "" else String.◌∷◌ c rest

-- The maps of one directory: the names that are used, and the literal names that are to come, each as
-- often as it counts. A count below zero is read as zero by the code.
pub record Names : Type 0 where
  pub used : List String
  pub pending : List String

unfoldable pub remove_one : String → List String → List String
remove_one name [] = []
remove_one name (x ∷ xs) = let rest = remove_one name xs in if str_eq name x then xs else x ∷ rest

-- fmt.Sprintf("%s (%d)%s", stem, n, ext)
unfoldable pub candidate : String → String → ℕ → String
candidate stem ext n = join stem (join " (" (join (decimal n) (join ")" ext)))

unfoldable pub is_taken : Names → String → Bool
is_taken names name = member name names.used || member name names.pending

-- The loop of entryName over the numbers from `n`, whose rounds `fuel` bounds.
unfoldable pub first_free : ℕ → Names → String → String → ℕ → Option String
first_free zero names stem ext n = none
first_free (suc fuel) names stem ext n =
    let next = first_free fuel names stem ext (n + 1) in
    if is_taken names (candidate stem ext n) then next else some (candidate stem ext n)

abbrev pub use_name : Names → Option String → Option (String × Names)
use_name names none = none
use_name names (some name) = some (name, record names { used = name ∷ names.used })

-- The number of names that are taken, and one.
abbrev pub enough : Names → ℕ
enough names = suc (length names.used + length names.pending)

-- entryName after its count is taken off.
unfoldable pub choose : Names → String → Option (String × Names)
unfolding first_free
choose names name =
    let ext = extension_from "" name in
    let numbered = use_name names (first_free (enough names) names (trim_suffix ext name) ext 2) in
    if member name names.used then numbered else use_name names (some name)

-- entryName
unfoldable pub entry_name : Names → String → Option (String × Names)
unfolding choose sanitize
entry_name names name =
    choose (record names { pending = remove_one (sanitize name) names.pending }) (sanitize name)

abbrev pub object_names : List FileObject → List String
object_names = map (λ (o : FileObject). sanitize o.name)

abbrev pub folder_names : List Folder → List String
folder_names = map (λ (f : Folder). sanitize f.name)

-- The maps before the first entry of a directory.
unfoldable pub siblings : List FileObject → List Folder → Names
siblings files folders = record { used = []; pending = object_names files ++ folder_names folders }

pub record Entry : Type 0 where
  pub path : String
  pub content : List ℕ

-- zip.Writer: the entries, the latest first, the calls so far, and which fail.
pub record Archive : Type 0 where
  pub entries : List Entry
  pub calls : ℕ
  pub faults : ℕ → Option Error

unfoldable pub set_content : List ℕ → List Entry → List Entry
set_content bytes [] = []
set_content bytes (e ∷ entries) = record e { content = bytes } ∷ entries

abbrev pub named {ℓ} : {A : Type ℓ} → Option A → Result A
named none = err (message "entryName: out of fuel")
named (some a) = ok a

module _ (B : BlobStore) (prim : Primitives) (c : Cipher) (sz : Sizes) (az : Authorizer) where
  -- What the walk changes: the folders seen, the archive, and what the service reaches.
  pub record ZipWalk : Type 0 where
    pub world : World B prim c sz az
    pub seen : List String
    pub archive : Archive

  abbrev pub in_world : {A : Type 0} → Exec (World B prim c sz az) A → Exec ZipWalk A
  in_world m s = let (r, w) = m s.world in (r, record s { world = w })

  -- zip.Writer.CreateHeader
  unfoldable pub create_header : String → Exec ZipWalk (Unit {0})
  create_header path s =
      let archive = s.archive in
      elim (archive.faults archive.calls) [
        | some e ↦ (err e, record s { archive = record archive { calls = archive.calls + 1 } })
        | none ↦ (
          ok tt,
          record s {
            archive = record archive {
              entries = record { path = path; content = [] } ∷ archive.entries;
              calls = archive.calls + 1;
            };
          },
        )
      ]

  abbrev with_id : String → Result (Unit {0}) → Result (Unit {0})
  with_id id (ok u) = ok u
  with_id id (err e) = err (wrapped (join "file: zip entry " id) e)

  -- engine.Reassemble into the latest entry, with its error annotated.
  unfoldable pub write_entry : String → List ChunkRef → Exec ZipWalk (Unit {0})
  write_entry id refs s =
      let archive = s.archive in
      let start : Writer = record {
        written = [];
        writes = archive.calls;
        faults = archive.faults;
      } in
      let (r, blobs, out) = reassemble B prim c refs s.world.blobs start in
      (
        with_id id r,
        record s {
          world = record s.world { blobs = blobs };
          archive = record archive {
            entries = set_content out.written archive.entries;
            calls = out.writes;
          };
        },
      )

  -- The loop over the files of a directory.
  unfoldable pub zip_files : String → List FileObject → Names → Exec ZipWalk Names
  zip_files prefix [] names = pure names
  zip_files prefix (o ∷ files) names = do
    (entry, names') ← lift (named (entry_name names o.name))
    create_header (join prefix entry)
    refs ← in_world (on_db B prim c sz az (manifest_of o.object_id))
    write_entry o.object_id refs
    zip_files prefix files names'

  unfoldable pub mark_seen : String → Exec ZipWalk (Unit {0})
  mark_seen id s = (ok tt, record s { seen = id ∷ s.seen })

  -- The loop over the folders of a directory, with the recursive call of zipTree.
  unfoldable pub zip_folders :
      (String → String → Exec ZipWalk (Unit {0}))
      → String
      → List Folder
      → Names
      → Exec ZipWalk (Unit {0})
  zip_folders inner prefix [] names s = (ok tt, s)
  zip_folders inner prefix (f ∷ folders) names s =
      let skip = zip_folders inner prefix folders names s in
      let descend =
        (do
          mark_seen f.folder_id
          (entry, names') ← lift (named (entry_name names f.name))
          create_header (join prefix (join entry "/"))
          inner f.folder_id (join prefix (join entry "/"))
          zip_folders inner prefix folders names')
          s in
      if member f.folder_id s.seen then skip else descend

  -- zipTree, whose depth `fuel` bounds.
  unfoldable pub zip_tree :
      ℕ → Collation → Subject → Option String → String → Exec ZipWalk (Unit {0})
  zip_tree zero before caller folder prefix = raise (message "zipTree: out of fuel")
  zip_tree (suc fuel) before caller folder prefix = do
    files ← in_world (on_db B prim c sz az (objects_in_folder before caller folder))
    folders ← in_world (on_db B prim c sz az (folders_in_parent before caller folder))
    names ← zip_files prefix files (siblings files folders)
    zip_folders (λ id dir. zip_tree fuel before caller (some id) dir) prefix folders names

  -- zip.Writer.Close
  unfoldable pub close : Exec ZipWalk (Unit {0})
  close s =
      let archive = s.archive in
      let closed = record s { archive = record archive { calls = archive.calls + 1 } } in
      elim (archive.faults archive.calls) [ some e ↦ (err e, closed) | none ↦ (ok tt, closed) ]

  abbrev finish : Result (Unit {0}) → Exec ZipWalk (Unit {0})
  finish (ok u) s = close s
  finish (err e) s = let (_, s') = close s in (err e, s')

  abbrev pub seed : Option String → List String
  seed none = []
  seed (some folder) = folder ∷ []

  -- DownloadZip, with a level for each folder and two more.
  unfoldable pub download_zip : Collation → Subject → Option String → Exec ZipWalk (Unit {0})
  download_zip before caller folder = do
    in_world (authorize_folder B prim c sz az caller folder)
    (λ s.
        let levels = suc (suc (length s.world.db.tables.folders)) in
        let (r, s') = zip_tree levels before caller folder "" (record s { seen = seed folder }) in
        finish r s')
