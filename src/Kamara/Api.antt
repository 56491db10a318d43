-- ===== src/Kamara/Api.antt =====
-- Kamara's storage API (kamara/internal/api/api.go): the handlers, as functions from the parts of a
-- request to a response. Times are numbers; their text form and the JSON encoding are left out.
pub mod Disposition
pub mod Denied
use Prim.Native.String.{◌++◌ as join}
use peristera.Prelude.{
  ℕ, zero, suc, ◌+◌, ◌-◌, ◌*◌, ◌^◌, String, Bool, true, false, not, ◌&&◌, ◌||◌, Option, none, some,
  List, [], ◌∷◌, ◌++◌, map, concat, length, take, str_eq, ltb, leb, ◌==◌, if◌then◌else◌, Result, ok,
  err, Error, external, not_empty, would_cycle, modified, not_found, forbidden,
}
use peristera.Prelude.Errors.{root_of, is_not_found, is_forbidden}
use peristera.Prelude.Exec.{Exec, pure, ◌>>=◌, ◌>>◌}
use peristera.Pii.{Subject}
use peristera.Kamara.Blob.{BlobStore}
use peristera.Kamara.Chunk.{Sizes}
use peristera.Kamara.Chunk.Split.{Reader}
use peristera.Kamara.Crypto.{Primitives, Cipher}
use peristera.Kamara.Engine.{Writer}
use peristera.Kamara.Tables.{FileObject, Folder, VersionRow}
use peristera.Kamara.Store.{Store}
use peristera.Kamara.Files.{
  Authorizer, World, permalink, upload, get_file, write_version, delete_file,
}
use peristera.Kamara.Folders.{
  folder_permalink, create_folder, read_folder, rename_file, move_file, rename_folder, move_folder,
  remove_folder,
}
use peristera.Kamara.FolderTree.{Collation, delete_folder_tree}
use peristera.Kamara.Zip.{Entry, ZipWalk, download_zip}
use peristera.Kamara.Listings.{download, list_files, versions_listed, list_children}

-- fileDTO and toFile
pub record FileDto : Type 0 where
  pub id : String
  pub name : String
  pub size : ℕ
  pub folder : Option String
  pub content_type : String
  pub permalink : String
  pub created : ℕ
  pub updated : ℕ

unfoldable pub to_file : FileObject → FileDto
to_file o = record {
  id = o.object_id;
  name = o.name;
  size = o.size;
  folder = o.folder_id;
  content_type = o.content_type;
  permalink = permalink o.object_id;
  created = o.created;
  updated = o.updated;
}

-- versionDTO and toVersion
pub record VersionDto : Type 0 where
  pub id : String
  pub ordinal : ℕ
  pub size : ℕ
  pub created : ℕ

unfoldable pub to_version : VersionRow → VersionDto
to_version v = record { id = v.version_id; ordinal = v.ordinal; size = v.size; created = v.created }

-- folderDTO and toFolder
pub record FolderDto : Type 0 where
  pub id : String
  pub name : String
  pub parent : Option String
  pub permalink : String
  pub created : ℕ
  pub updated : ℕ

unfoldable pub to_folder : Folder → FolderDto
to_folder f = record {
  id = f.folder_id;
  name = f.name;
  parent = f.parent_id;
  permalink = folder_permalink f.folder_id;
  created = f.created;
  updated = f.updated;
}

-- What a response carries. A stream has its type and its file's name, and what was written if it did not
-- break off.
pub data Body : Type 0 where
  empty : Body
  notice : String → Body
  one_file : FileDto → Body
  file_list : List FileDto → Body
  version_list : List VersionDto → Body
  one_folder : FolderDto → Body
  listing : List FolderDto → List FileDto → Body
  stream : String → String → Option (List ℕ) → Body
  -- An attachment of type application/zip, with its entries, the latest first.
  zip_stream : String → Option (List Entry) → Body

pub record Response : Type 0 where
  pub status : ℕ
  pub body : Body

abbrev pub answer : ℕ → Body → Response
answer status body = record { status = status; body = body }

-- writeErr
abbrev pub write_err : ℕ → String → Response
write_err status text = answer status (notice text)

abbrev fail_root : Error → Response
fail_root not_found = write_err 404 "not found"
fail_root forbidden = write_err 403 "forbidden"
fail_root not_empty = write_err 409 "folder not empty"
fail_root would_cycle = write_err 400 "move would create a cycle"
fail_root modified = write_err 409 "file was modified since the base version"
fail_root e = write_err 500 "internal error"

-- Handler.fail: the sentinel inside the error's wrappings decides.
unfoldable pub fail : Error → Response
unfolding root_of
fail e = fail_root (root_of e)

-- http.MaxBytesError
abbrev pub too_large : Error
too_large = external 413

abbrev too_large? : Error → Bool
too_large? (external n) = n == 413
too_large? e = false

unfoldable pub is_too_large : Error → Bool
unfolding root_of
is_too_large e = too_large? (root_of e)

-- The reads up to `n` bytes.
unfoldable pub cut_reads : ℕ → List (List ℕ) → List (List ℕ)
cut_reads n [] = []
cut_reads n (bytes ∷ reads) =
    let rest = cut_reads (n - length bytes) reads in
    if leb (length bytes) n then bytes ∷ rest else if n == 0 then [] else take n bytes ∷ []

-- http.MaxBytesReader: after `n` bytes the next one is an error.
unfoldable pub max_bytes : ℕ → Reader → Reader
unfolding cut_reads
max_bytes n r =
    if leb (length (concat r.pending)) n
    then r
    else record { pending = cut_reads n r.pending; ending = some too_large }

-- DefaultMaxUploadBytes, and the limit that New takes from its argument, which may be absent.
abbrev pub default_max_upload : ℕ
default_max_upload = 5 * 2 ^ 30

unfoldable pub max_upload_of : ℕ → ℕ
max_upload_of n = if n == 0 then default_max_upload else n

-- optStr
unfoldable pub opt_str : String → Option String
opt_str v = if str_eq v "" then none else some v

-- ContentType
unfoldable pub content_type_or : String → String
content_type_or stored = if str_eq stored "" then "application/octet-stream" else stored

-- A JSON body: an object with the name, or what else decodes; `none` is no JSON of that type. The
-- destination of a move is absent, null or an id.
abbrev pub NameBody : Type 0
NameBody = Option String

abbrev pub MoveBody : Type 0
MoveBody = Option (Option (Option String))

module _ (B : BlobStore) (prim : Primitives) (c : Cipher) (sz : Sizes) (az : Authorizer) where
  abbrev pub Handler : Type 0
  Handler = World B prim c sz az → Response × World B prim c sz az

  abbrev respond : {A : Type 0} → (A → Response) → (Error → Response) → Result A → Response
  respond good bad (ok a) = good a
  respond good bad (err e) = bad e

  -- A call of the service, and the response to its result.
  unfoldable pub serve : {A : Type 0} → Exec (World B prim c sz az) A → (A → Response) → Handler
  unfolding fail
  serve m good w = let (r, w') = m w in (respond good fail r, w')

  abbrev refuse : Response → Handler
  refuse r w = (r, w)

  abbrev over_limit : String → Error → Response
  over_limit text e = if is_too_large e then write_err 413 text else fail e

  -- upload
  unfoldable pub upload_handler :
      (String → String) → ℕ → Subject → String → String → Reader → Handler
  upload_handler types max caller folder name body w =
      if str_eq name ""
      then (write_err 400 "name query parameter is required", w)
      else (let (r, w') =
            upload B prim c sz az types caller (opt_str folder) name (max_bytes max body) w in
          (
            respond (λ (o : FileObject). answer 201 (one_file (to_file o)))
                (over_limit "file exceeds maximum upload size") r,
            w',
          ))

  -- list
  unfoldable pub list_handler : (az.State → Result (List String) × az.State) → Handler
  list_handler list_objects =
      serve (list_files B prim c sz az list_objects)
        λ objects. answer 200 (file_list (map to_file objects))

  -- get
  unfoldable pub get_handler : Subject → String → Handler
  get_handler caller id =
      serve (get_file B prim c sz az caller id) λ o. answer 200 (one_file (to_file o))

  abbrev written : Result Writer → Option (List ℕ)
  written (ok out) = some out.written
  written (err e) = none

  abbrev then_stream :
      (FileObject → Exec (World B prim c sz az) Writer) → Result FileObject → Handler
  then_stream send (err e) w = (fail e, w)
  then_stream send (ok o) w =
      let (r, w') = send o w in
      (answer 200 (stream (content_type_or o.content_type) o.name (written r)), w')

  -- download, to a client that takes every byte or not.
  unfoldable pub download_handler : Subject → String → Writer → Handler
  download_handler caller id out w =
      let (r, w') = get_file B prim c sz az caller id w in
      then_stream (λ o. download B prim c sz az caller o.object_id out) r w'

  abbrev then_get : Subject → String → Result ℕ → Handler
  then_get caller id (ok ordinal) w = get_handler caller id w
  then_get caller id (err e) w = (over_limit "content exceeds maximum upload size" e, w)

  -- putContent
  unfoldable pub put_content : ℕ → Subject → String → Reader → Handler
  put_content max caller id body w =
      let (r, w') = write_version B prim c sz az caller id (max_bytes max body) none w in
      then_get caller id r w'

  -- listVersions
  unfoldable pub versions_handler : Subject → String → Handler
  versions_handler caller id =
      serve (versions_listed B prim c sz az caller id)
        λ vs. answer 200 (version_list (map to_version vs))

  -- delete
  unfoldable pub delete_handler : Option (String → Store (Unit {0})) → Subject → String → Handler
  delete_handler revoker caller id =
      serve (delete_file B prim c sz az revoker caller id) λ _. answer 204 empty

  -- listChildren
  unfoldable pub children_handler : Collation → Subject → String → Handler
  children_handler before caller parent =
      serve (list_children B prim c sz az before caller (opt_str parent))
        λ l. answer 200 (listing (map to_folder l.0) (map to_file l.1))

  -- createFolder
  unfoldable pub create_folder_handler : Subject → String → String → Handler
  create_folder_handler caller parent name =
      if str_eq name ""
      then refuse (write_err 400 "name query parameter is required")
      else serve (create_folder B prim c sz az caller (opt_str parent) name)
          λ f. answer 201 (one_folder (to_folder f))

  -- deleteFolder, with the query's `recursive` as strconv.ParseBool reads it.
  unfoldable pub delete_folder_handler :
      Collation → Option (String → Store (Unit {0})) → Bool → Subject → String → Handler
  delete_folder_handler before revoker recursive caller id =
      serve
        (if recursive
          then delete_folder_tree B prim c sz az before revoker caller id
          else remove_folder B prim c sz az caller id)
        λ _. answer 204 empty

  -- getFolder
  unfoldable pub get_folder_handler : Subject → String → Handler
  get_folder_handler caller id =
      serve (read_folder B prim c sz az caller id) λ f. answer 200 (one_folder (to_folder f))

  abbrev zipped : Result (Unit {0}) → ZipWalk B prim c sz az → Option (List Entry)
  zipped (ok u) walk = some walk.archive.entries
  zipped (err e) walk = none

  abbrev then_zip : Collation → Subject → String → (ℕ → Option Error) → Result Folder → Handler
  then_zip before caller id faults (err e) w = (fail e, w)
  then_zip before caller id faults (ok f) w =
      let start : ZipWalk B prim c sz az = record {
        world = w;
        seen = [];
        archive = record { entries = []; calls = 0; faults = faults };
      } in
      let (r, walk) = download_zip B prim c sz az before caller (some id) start in
      (answer 200 (zip_stream (join f.name ".zip") (zipped r walk)), walk.world)

  -- downloadZip, to a client whose writes fail as `faults` says. A failure in mid-stream is only logged.
  unfoldable pub download_zip_handler : Collation → Subject → String → (ℕ → Option Error) → Handler
  download_zip_handler before caller id faults w =
      let (r, w') = read_folder B prim c sz az caller id w in then_zip before caller id faults r w'

  -- decodeName
  abbrev with_name : NameBody → (String → Handler) → Handler
  with_name none next = refuse (write_err 400 "invalid JSON body")
  with_name (some name) next =
      if str_eq name "" then refuse (write_err 400 "name is required") else next name

  -- decodeMove
  abbrev with_move : String → MoveBody → (Option String → Handler) → Handler
  with_move text none next = refuse (write_err 400 "invalid JSON body")
  with_move text (some none) next = refuse (write_err 400 text)
  with_move text (some (some dest)) next = next dest

  -- renameFile
  unfoldable pub rename_file_handler : Subject → String → NameBody → Handler
  rename_file_handler caller id body =
      with_name body λ name. serve (rename_file B prim c sz az caller id name) λ _. answer 204 empty

  -- moveFile
  unfoldable pub move_file_handler : Subject → String → MoveBody → Handler
  move_file_handler caller id body =
      with_move "\"folder\" field is required (use null for root)" body
        λ dest. serve (move_file B prim c sz az caller id dest) λ _. answer 204 empty

  -- renameFolder
  unfoldable pub rename_folder_handler : Subject → String → NameBody → Handler
  rename_folder_handler caller id body =
      with_name body
        λ name. serve (rename_folder B prim c sz az caller id name) λ _. answer 204 empty

  -- moveFolder
  unfoldable pub move_folder_handler : Subject → String → MoveBody → Handler
  move_folder_handler caller id body =
      with_move "\"parent\" field is required (use null for root)" body
        λ dest. serve (move_folder B prim c sz az caller id dest) λ _. answer 204 empty
