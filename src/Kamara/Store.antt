-- ===== src/Kamara/Store.antt =====
-- ObjectRepo and WopiRepo of kamara/internal/store/repos.go: each statement is a function of the
-- tables, with the errors that the keys and the references of the schema give.
pub mod RefCounts
pub mod Versions
use peristera.Prelude.{
  ℕ, suc, zero, ◌+◌, String, Bool, true, false, not, ◌&&◌, ◌||◌, Option, none, some, List, [], ◌∷◌,
  ◌++◌, map, length, str_eq, ltb, if◌then◌else◌, Result, ok, err, Error, unique_violation,
  foreign_key_violation, version_conflict, wrapped, not_empty,
}
use peristera.Prelude.Exec.{Exec, pure, raise, ◌>>=◌, ◌>>◌}
use peristera.Pii.{Subject}
use peristera.Database.{translated, Db, stmt}
use peristera.Kamara.Engine.{ChunkRef}
use peristera.Kamara.Tables.{
  ℤ, pos, increment, ◌-ℤ◌, is_positive, FileObject, Folder, VersionRow, ManifestRow, ChunkRow,
  SessionRow, FileTables, member, find_object, find_folder, has_folder, has_version, has_ordinal,
  is_version_of, has_manifest_row, has_chunk, references,
}

abbrev pub Store : Type 0 → Type 0
Store A = Exec (Db FileTables) A

abbrev query : {A : Type 0} → (FileTables → A) → Store A
query f = stmt (λ t. (ok (f t), t))

abbrev update : (FileTables → FileTables) → Store (Unit {0})
update f = stmt (λ t. (ok tt, f t))

-- A statement that `broken` forbids.
abbrev guarded : Bool → Error → FileTables → FileTables → Result (Unit {0}) × FileTables
guarded true e before after = (err e, before)
guarded false e before after = (ok tt, after)

unfoldable pub insert_object_row : FileObject → FileTables → Result (Unit {0}) × FileTables
insert_object_row o t = elim (find_object o.object_id t.objects) [
  | some x ↦ (err unique_violation, t)
  | none ↦
      guarded (not (has_folder o.folder_id t.folders)) foreign_key_violation t
        (record t { objects = t.objects ++ o ∷ [] })
]

-- InsertObject
unfoldable pub insert_object : FileObject → Store (Unit {0})
insert_object o = stmt (insert_object_row o)

-- UPDATE objects SET … WHERE id
unfoldable pub change_object :
    String → (FileObject → FileObject) → List FileObject → List FileObject
change_object id f [] = []
change_object id f (o ∷ objects) =
    let rest = change_object id f objects in if str_eq id o.object_id then f o ∷ rest else o ∷ rest

abbrev is_found : Option FileObject → Bool
is_found none = false
is_found (some o) = true

-- SetObjectFolder: the reference is checked where a row is changed.
unfoldable pub set_object_folder : String → Option String → ℕ → Store (Unit {0})
set_object_folder id folder now = stmt λ t.
    guarded (is_found (find_object id t.objects) && not (has_folder folder t.folders))
      foreign_key_violation t
      (record t {
        objects = change_object id (λ o. record o { folder_id = folder; updated = now }) t.objects;
      })

-- SetObjectName
unfoldable pub set_object_name : String → String → ℕ → Store (Unit {0})
set_object_name id name now = update λ t. record t {
  objects = change_object id (λ o. record o { name = name; updated = now }) t.objects;
}

-- SetObjectSize
unfoldable pub set_object_size : String → ℕ → ℕ → Store (Unit {0})
set_object_size id size now = update λ t. record t {
  objects = change_object id (λ o. record o { size = size; updated = now }) t.objects;
}

-- GetObject
unfoldable pub get_object : String → Store (Option FileObject)
get_object id = query (λ t. find_object id t.objects)

unfoldable pub without_object : String → List FileObject → List FileObject
without_object id [] = []
without_object id (o ∷ objects) =
    let rest = without_object id objects in if str_eq id o.object_id then rest else o ∷ rest

unfoldable pub versions_without : String → List VersionRow → List VersionRow
versions_without id [] = []
versions_without id (v ∷ versions) =
    let rest = versions_without id versions in if str_eq id v.object_id then rest else v ∷ rest

-- The manifest rows that the cascade from an object's versions leaves.
unfoldable pub manifest_without : String → List VersionRow → List ManifestRow → List ManifestRow
manifest_without id versions [] = []
manifest_without id versions (r ∷ rows) =
    let rest = manifest_without id versions rows in
    if is_version_of id versions r.version_id then rest else r ∷ rest

unfoldable pub object_deleted : String → FileTables → FileTables
object_deleted id t = record t {
  objects = without_object id t.objects;
  versions = versions_without id t.versions;
  version_chunks = manifest_without id t.versions t.version_chunks;
}

-- DeleteObject, with the cascade to versions and version_chunks.
unfoldable pub delete_object : String → Store (Unit {0})
delete_object id = update (object_deleted id)

unfoldable pub insert_version_row : VersionRow → FileTables → Result (Unit {0}) × FileTables
insert_version_row v t =
    if has_version v.version_id t.versions || has_ordinal v.object_id v.ordinal t.versions
    then (err unique_violation, t)
    else elim (find_object v.object_id t.objects) [
      | none ↦ (err foreign_key_violation, t)
      | some o ↦ (ok tt, record t { versions = t.versions ++ v ∷ [] })
    ]

unfoldable pub add_reference : String → List ChunkRow → List ChunkRow
add_reference h [] = []
add_reference h (c ∷ chunks) =
    let rest = add_reference h chunks in
    if str_eq h c.hash then record c { ref_count = increment c.ref_count } ∷ rest else c ∷ rest

-- The upsert of a chunk.
unfoldable pub upsert_chunk : ChunkRef → List ChunkRow → List ChunkRow
upsert_chunk ref chunks =
    if has_chunk ref.hash chunks
    then add_reference ref.hash chunks
    else chunks ++ record { hash = ref.hash; size = ref.size; ref_count = pos 1 } ∷ []

unfoldable pub insert_manifest_row : ManifestRow → FileTables → Result (Unit {0}) × FileTables
insert_manifest_row r t =
    if has_manifest_row r.version_id r.index t.version_chunks
    then (err unique_violation, t)
    else guarded
        (not (has_version r.version_id t.versions) || not (has_chunk r.chunk_hash t.chunks))
        foreign_key_violation t (record t { version_chunks = t.version_chunks ++ r ∷ [] })

-- One round of the loop of InsertVersion.
unfoldable pub insert_chunk : String → ℕ → ChunkRef → Store (Unit {0})
insert_chunk version i ref = do
  update λ t. record t { chunks = upsert_chunk ref t.chunks }
  stmt (insert_manifest_row (record { version_id = version; index = i; chunk_hash = ref.hash }))

unfoldable pub insert_chunks : String → ℕ → List ChunkRef → Store (Unit {0})
insert_chunks version i [] = pure tt
insert_chunks version i (ref ∷ refs) =
    insert_chunk version i ref >> insert_chunks version (suc i) refs

-- errors.As with SQLSTATE 23505.
unfoldable pub is_unique : Error → Bool
is_unique unique_violation = true
is_unique (wrapped text e) = is_unique e
is_unique _ = false

unfoldable pub as_conflict : Error → Error
as_conflict e = if is_unique e then version_conflict else e

-- InsertVersion: a key that is taken shows as the conflict that the service retries on.
unfoldable pub insert_version : String → String → ℕ → ℕ → List ChunkRef → ℕ → Store (Unit {0})
insert_version object version ordinal size refs now = do
  translated as_conflict (
      stmt (
        insert_version_row (record {
          version_id = version;
          object_id = object;
          ordinal = ordinal;
          size = size;
          created = now;
        })))
  insert_chunks version 0 refs

unfoldable pub larger : ℕ → Option ℕ → Option ℕ
larger n none = some n
larger n (some m) = if ltb m n then some n else some m

unfoldable pub max_of : String → List VersionRow → Option ℕ
max_of id [] = none
max_of id (v ∷ versions) =
    let rest = max_of id versions in if str_eq id v.object_id then larger v.ordinal rest else rest

-- MaxOrdinal
unfoldable pub max_ordinal : String → Store (Option ℕ)
max_ordinal id = query (λ t. max_of id t.versions)

-- The hashes of the rows of an object's versions. A version's identifier is the primary key, so no row
-- is joined twice.
unfoldable pub hashes_of : String → List VersionRow → List ManifestRow → List String
hashes_of id versions [] = []
hashes_of id versions (r ∷ rows) =
    let rest = hashes_of id versions rows in
    if is_version_of id versions r.version_id then r.chunk_hash ∷ rest else rest

-- ChunkHashesOf
unfoldable pub chunk_hashes_of : String → Store (List String)
chunk_hashes_of id = query (λ t. hashes_of id t.versions t.version_chunks)

unfoldable pub occurrences : String → List String → ℕ
occurrences h [] = 0
occurrences h (x ∷ xs) = let rest = occurrences h xs in if str_eq h x then suc rest else rest

unfoldable pub without : String → List String → List String
without h [] = []
without h (x ∷ xs) = let rest = without h xs in if str_eq h x then rest else x ∷ rest

-- The keys of the map `counts`, in the order of their first occurrences: Go's order is not specified.
-- One round for each entry is enough.
unfoldable pub distinct_from : ℕ → List String → List String
distinct_from zero hashes = []
distinct_from (suc fuel) [] = []
distinct_from (suc fuel) (h ∷ hashes) = h ∷ distinct_from fuel (without h hashes)

unfoldable pub drop_references : String → ℕ → List ChunkRow → List ChunkRow
drop_references h n [] = []
drop_references h n (c ∷ chunks) =
    let rest = drop_references h n chunks in
    if str_eq h c.hash then record c { ref_count = c.ref_count -ℤ n } ∷ rest else c ∷ rest

-- The loop of DecRef over the map.
unfoldable pub decrement_all : List String → List String → Store (Unit {0})
decrement_all hashes [] = pure tt
decrement_all hashes (h ∷ rest) = do
  update λ t. record t { chunks = drop_references h (occurrences h hashes) t.chunks }
  decrement_all hashes rest

unfoldable pub orphans_in : List String → List ChunkRow → List String
orphans_in hashes [] = []
orphans_in hashes (c ∷ chunks) =
    let rest = orphans_in hashes chunks in
    if member c.hash hashes && not (is_positive c.ref_count) then c.hash ∷ rest else rest

abbrev pub distinct : List String → List String
distinct hashes = distinct_from (length hashes) hashes

-- DecRef
unfoldable pub dec_ref : List String → Store (List String)
dec_ref [] = pure []
dec_ref (h ∷ hs) = do
  decrement_all (h ∷ hs) (distinct (h ∷ hs))
  query (λ t. orphans_in (distinct (h ∷ hs)) t.chunks)

unfoldable pub without_chunks : List String → List ChunkRow → List ChunkRow
without_chunks hashes [] = []
without_chunks hashes (c ∷ chunks) =
    let rest = without_chunks hashes chunks in if member c.hash hashes then rest else c ∷ rest

-- Whether a row that is to be deleted is referenced still.
unfoldable pub still_referenced : List String → List ChunkRow → List ManifestRow → Bool
still_referenced hashes [] rows = false
still_referenced hashes (c ∷ chunks) rows =
    (member c.hash hashes && references c.hash rows) || still_referenced hashes chunks rows

unfoldable pub chunks_deleted : List String → FileTables → Result (Unit {0}) × FileTables
chunks_deleted hashes t =
    guarded (still_referenced hashes t.chunks t.version_chunks) foreign_key_violation t
      (record t { chunks = without_chunks hashes t.chunks })

-- DeleteChunks
unfoldable pub delete_chunks : List String → Store (Unit {0})
delete_chunks [] = pure tt
delete_chunks (h ∷ hs) = stmt (chunks_deleted (h ∷ hs))

-- reclaimObject of kamara/internal/file/file.go
unfoldable pub reclaim_object : String → Store (List String)
reclaim_object id = do
  hashes ← chunk_hashes_of id
  delete_object id
  orphans ← dec_ref hashes
  delete_chunks orphans
  pure orphans
