-- ===== src/Examples/Files.antt =====
-- The theorems on the file service, its tables and its sessions at the world of Base (kamara/internal/file,
-- store, wopi).
use peristera.Prelude.{
  List, str_eq, subst, ap, Bool-cases, ℕ, ◌≡◌, ◌≢◌, refl, String, Bool, true, false, Option, none,
  some, [], ◌∷◌, arith, eq_iff, refl, ok, inl, inr,
}
use peristera.Prelude.Exec.{attempt, Keeps, ◌>>=◌}
use peristera.Pii.{is_zero, Subject}
use peristera.Database.{fresh_id, end_tx, stmt, in_tx}
use peristera.Database.Rules.{On}
use peristera.Kamara.Chunk.Split.{Reader}
use peristera.Kamara.Blob.Fs.{path, is_hex}
use peristera.Kamara.Tables.{
  increment, has_chunk, has_manifest_row, has_ordinal, has_version, find_folder, find_object, ◌-ℤ◌,
  references, is_version_of, member,
}
use peristera.Kamara.Store.{
  add_reference, upsert_chunk, insert_manifest_row, insert_chunk, insert_chunks, larger,
  insert_version_row, max_of, insert_version, get_object, without_chunks, still_referenced,
  orphans_in, drop_references, without, distinct_from, without_object, versions_without,
  manifest_without, hashes_of, decrement_all, chunks_deleted, delete_chunks, dec_ref,
  object_deleted, delete_object, chunk_hashes_of, occurrences, Store, reclaim_object,
}
use peristera.Kamara.Store.RefCounts.Rows.{balance, refs_of}
use peristera.Kamara.Store.RefCounts.Owed.{IsCounted}
use peristera.Kamara.Store.RefCounts.Reclaim.{
  Reclaimed, rows_left, object_hashes, reclaim_object-Reclaimed,
}
use peristera.Conventions.{
  emit, token_for, lookup_token, token_or_new, on_tables, record_event, append_event, insert_event,
  has_event, remove_doc, delete_doc, without_doc, find_token,
}
use peristera.Kamara.Files.{
  permalink, revoke_sessions, release, delete_blobs, delete_rows, on_blobs, on_authz,
  authorize_access, authorize, file_name, on_db, upload, write_version, delete_file, latest_ordinal,
  get_file,
}
use peristera.Kamara.Files.Counted.{InDb, operations_keep_counts}
use peristera.Kamara.Files.Reclaim.{LeavesManifest, delete_file_spares}
use peristera.Kamara.Files.Access.{Refused, denied_caller_changes_nothing}
use peristera.Kamara.Files.Saves.{SavedOrSame, write_version_saves}
use peristera.Kamara.Folders.{move_folder, would_cycle}
use peristera.Kamara.Folders.Forest.{move_folder-IsForest}
use peristera.Kamara.Folders.Walk.{would_cycle-Answers}
use peristera.Kamara.Crypto.{bytes_of}
use peristera.Kamara.Crypto.Hex.{encode}
use peristera.Kamara.Folders.Rooted.{root, gone, inside, Rooted, IsForest}
use peristera.Kamara.Wopi.{
  get_session, find_session, token_hash, not_of_object, Sha256, revoke, validate,
}
use peristera.Kamara.FolderTree.{Collation, delete_folder_tree}
use peristera.Kamara.FolderTree.Counted.{delete_folder_tree-Keeps}
use peristera.Kamara.Engine.{ChunkRef}
use peristera.Kamara.Listings.{
  size_of, with_sizes, insert_by_key, order_by_key, latest_of, rows_of, manifest_in, manifest_of,
}
use peristera.Kamara.Listings.Rows.{hashes_in}
use peristera.Kamara.Listings.Manifest.{manifest_of-insert_version}
use peristera.Kamara.Wopi.Sessions.{
  IsValid, validate_sound, revoke_ends_sessions, revoke-LeavesManifest, revoke-IsCounted,
}
use peristera.Examples.Base.{
  own_path, folder, session, shared_path, disk, small_sizes, plain_hashes, cipher, store, ada, bob,
  answering, tables, database, world,
}

-- The counts of the example.
tables-IsCounted : IsCounted tables
unfolding balance refs_of occurrences
tables-IsCounted = record {
  counted = λ h. elim (Bool-cases (str_eq h "0a0b")) [
    | inl hit ↦ let q : h ≡ "0a0b" = ground (arith, eq_iff h "0a0b") in rw q refl
    | inr other ↦ elim (Bool-cases (str_eq h "0c0d")) [
      | inl hit ↦ let q : h ≡ "0c0d" = ground (arith, eq_iff h "0c0d") in rw q refl
      | inr none_of ↦ rw (other, none_of) refl
    ]
  ];
}

reclaim_run : (reclaim_object "f1" database).0 ≡ ok ("0c0d" ∷ [])
unfolding reclaim_object chunk_hashes_of delete_object object_deleted dec_ref delete_chunks
    chunks_deleted decrement_all stmt ◌>>=◌ hashes_of is_version_of manifest_without
    versions_without without_object occurrences distinct_from without drop_references orphans_in
    still_referenced references without_chunks member ◌-ℤ◌
reclaim_run = refl

reclaim_object-Reclaimed_example :
    Reclaimed
      (rows_left "f1" tables)
      (object_hashes "f1" tables)
      ("0c0d" ∷ [])
      (reclaim_object "f1" database).1.tables
reclaim_object-Reclaimed_example =
    reclaim_object-Reclaimed "f1" database ("0c0d" ∷ []) tables-IsCounted reclaim_run

abbrev the_revoker : Option (String → Store (Unit {0})) → String → Store (Unit {0})
the_revoker none = revoke
the_revoker (some f) = f

leaves : LeavesManifest store plain_hashes cipher small_sizes (answering true) (some revoke)
leaves rows id r e =
    subst (λ (f : String → Store (Unit {0})). Keeps (On (λ t. t.version_chunks ≡ rows)) (f id))
      (ap (the_revoker) e) (revoke-LeavesManifest rows id)

keys : (h : String) → member h (object_hashes "f1" tables) ≡ true → store.IsKey h
unfolding hashes_of is_version_of member path is_hex
keys h m = elim (Bool-cases (str_eq h "0a0b")) [
  | inl hit ↦ let q : h ≡ "0a0b" = ground (arith, eq_iff h "0a0b") in rw q (shared_path, refl)
  | inr other ↦ let q : h ≡ "0c0d" = ground (arith, eq_iff h "0c0d") in rw q (own_path, refl)
]

spared_run :
    refs_of "0a0b"
      (delete_file store plain_hashes cipher small_sizes
        (answering true)
        (some revoke)
        ada
        "f1"
        (world true)).1.db.tables.version_chunks
    ≡ 1
unfolding reclaim_object chunk_hashes_of delete_object object_deleted dec_ref delete_chunks
    chunks_deleted decrement_all stmt ◌>>=◌ hashes_of is_version_of manifest_without
    versions_without without_object occurrences distinct_from without drop_references orphans_in
    still_referenced references without_chunks member ◌-ℤ◌ delete_file authorize authorize_access
    on_authz on_db on_blobs in_tx end_tx delete_rows emit token_for lookup_token token_or_new
    on_tables record_event append_event insert_event has_event fresh_id get_object find_object
    remove_doc delete_doc without_doc delete_blobs release revoke_sessions attempt find_token
    refs_of file_name permalink is_zero revoke
spared_run = refl

delete_file_spares_example :
    store.contents
      (delete_file store plain_hashes cipher small_sizes
        (answering true)
        (some revoke)
        ada
        "f1"
        (world true)).1.blobs
      "0a0b"
    ≡ store.contents disk "0a0b"
delete_file_spares_example =
    delete_file_spares store plain_hashes cipher small_sizes (answering true) (some revoke) ada "f1"
      (world true) leaves tables-IsCounted keys "0a0b" (λ e. omega (arith, spared_run))

leaves_counts :
    (id : String) (r : String → Store (Unit {0}))
    → some revoke ≡ some r
    → Keeps (On IsCounted) (r id)
leaves_counts id r e =
    subst (λ (f : String → Store (Unit {0})). Keeps (On IsCounted) (f id)) (ap the_revoker e)
      (revoke-IsCounted id)

abbrev two_bytes : Reader
two_bytes = record { pending = (1 ∷ 2 ∷ []) ∷ []; ending = none }

operations_keep_counts_example :
    ((types : String → String) (owner : Subject) (folder : Option String) (name : String)
        (r : Reader)
      → Keeps
          (InDb store plain_hashes cipher small_sizes (answering true) IsCounted)
          (upload store plain_hashes cipher small_sizes (answering true) types owner folder name r))
    × ((caller : Subject) (id : String) (r : Reader) (base : Option ℕ)
        → Keeps
            (InDb store plain_hashes cipher small_sizes (answering true) IsCounted)
            (write_version store plain_hashes cipher small_sizes (answering true) caller id r base))
    × ((caller : Subject) (id : String)
        → Keeps (InDb store plain_hashes cipher small_sizes (answering true) IsCounted) (
            delete_file store plain_hashes cipher small_sizes
              (answering true)
              (some revoke)
              caller
              id))
operations_keep_counts_example =
    operations_keep_counts store plain_hashes cipher small_sizes (answering true) (some revoke)
      leaves_counts

denied_caller_changes_nothing_example :
    Refused store plain_hashes cipher small_sizes
      (answering false)
      bob
      "f1"
      (world false)
      (latest_ordinal store plain_hashes cipher small_sizes (answering false) bob "f1")
    × Refused store plain_hashes cipher small_sizes
        (answering false)
        bob
        "f1"
        (world false)
        (get_file store plain_hashes cipher small_sizes (answering false) bob "f1")
    × ((r : Reader) (base : Option ℕ)
        → Refused store plain_hashes cipher small_sizes
            (answering false)
            bob
            "f1"
            (world false)
            (write_version store plain_hashes cipher small_sizes (answering false) bob "f1" r base))
    × ((revoker : Option (String → Store (Unit {0})))
        → Refused store plain_hashes cipher small_sizes
            (answering false)
            bob
            "f1"
            (world false)
            (delete_file store plain_hashes cipher small_sizes (answering false) revoker bob "f1"))
denied_caller_changes_nothing_example =
    denied_caller_changes_nothing store plain_hashes cipher small_sizes (answering false) bob "f1"
      (world false) refl

write_version_saves_example :
    SavedOrSame store plain_hashes cipher small_sizes
      (answering true)
      "f1"
      (some 0)
      tables
      (write_version store plain_hashes cipher small_sizes
        (answering true)
        ada
        "f1"
        two_bytes
        (some 0)
        (world true)).0
      (write_version store plain_hashes cipher small_sizes
        (answering true)
        ada
        "f1"
        two_bytes
        (some 0)
        (world true)).1
write_version_saves_example =
    write_version_saves store plain_hashes cipher small_sizes (answering true) ada "f1" two_bytes
      (some 0) (world true)

tables-IsForest : IsForest tables
unfolding find_folder
tables-IsForest = record { rooted = at }
  where
    at : (cur : Option String) → Rooted tables.folders cur
    at none = root
    at (some id) = elim (Bool-cases (str_eq id "outer")) [
      | inl hit ↦ inside id (folder "outer" none) (rw hit refl) root
      | inr other ↦ elim (Bool-cases (str_eq id "inner")) [
        | inl hit ↦
            inside id (folder "inner" (some "outer")) (rw (other, hit) refl)
              (inside "outer" (folder "outer" none) refl root)
        | inr none_of ↦ gone id (rw (other, none_of) refl)
      ]
    ]

move_folder-IsForest_example :
    IsForest
      (move_folder store plain_hashes cipher small_sizes
        (answering true)
        ada
        "outer"
        (some "inner")
        (world true)).1.db.tables
move_folder-IsForest_example =
    move_folder-IsForest store plain_hashes cipher small_sizes (answering true) ada "outer"
      (some "inner") (world true) tables-IsForest

would_cycle-Answers_example : (b : Bool) × ((would_cycle "outer" "inner" database).0 ≡ ok b)
would_cycle-Answers_example = would_cycle-Answers "outer" "inner" database (λ n. refl)

-- SHA-256 stands for itself in the examples: the hash of "abc" is its bytes.
abbrev same_bytes : Sha256
same_bytes bytes = bytes

validate_run :
    (validate store plain_hashes cipher small_sizes
      (answering true)
      same_bytes
      "abc"
      (world true)).0
    ≡ ok session
unfolding validate get_session find_session token_hash bytes_of encode stmt ◌>>=◌ on_db on_authz
validate_run = refl

validate_sound_example :
    IsValid store plain_hashes cipher small_sizes
      (answering true)
      same_bytes
      "abc"
      (world true)
      session
validate_sound_example =
    validate_sound store plain_hashes cipher small_sizes (answering true) same_bytes "abc"
      (world true) session validate_run

-- A session of another file outlives the revocation.
validate_after_run :
    (validate store plain_hashes cipher small_sizes
      (answering true)
      same_bytes
      "abc"
      (on_db store plain_hashes cipher small_sizes (answering true) (revoke "f2") (world true)).1).0
    ≡ ok session
unfolding validate get_session find_session token_hash bytes_of encode stmt ◌>>=◌ on_db on_authz
    revoke not_of_object
validate_after_run = refl

revoke_run :
    (on_db store plain_hashes cipher small_sizes (answering true) (revoke "f2") (world true)).0
    ≡ ok tt
unfolding stmt on_db revoke
revoke_run = refl

revoke_ends_sessions_example : session.object_id ≢ "f2"
revoke_ends_sessions_example =
    revoke_ends_sessions store plain_hashes cipher small_sizes (answering true) same_bytes "f2"
      (world true) revoke_run "abc" session validate_after_run

-- Names in the order in which they stand.
abbrev unordered : Collation
unordered a b = false

delete_folder_tree-Keeps_example :
    Keeps (InDb store plain_hashes cipher small_sizes (answering true) IsCounted) (
      delete_folder_tree store plain_hashes cipher small_sizes
        (answering true)
        unordered
        (some revoke)
        ada
        "outer")
delete_folder_tree-Keeps_example =
    delete_folder_tree-Keeps store plain_hashes cipher small_sizes (answering true) (some revoke)
      leaves_counts unordered ada "outer"

-- A version that has one chunk twice, and a new one.
abbrev new_refs : List ChunkRef
new_refs =
    record { hash = "0a0b"; size = 1 }
    ∷ record { hash = "0e0f"; size = 3 }
    ∷ record { hash = "0a0b"; size = 1 }
    ∷ []

inserted_run : (insert_version "f1" "v3" 1 5 new_refs 10 database).0 ≡ ok tt
unfolding insert_version insert_version_row insert_chunks insert_chunk insert_manifest_row
    upsert_chunk stmt ◌>>=◌ has_version has_ordinal find_object has_manifest_row has_chunk
    add_reference increment
inserted_run = refl

listed_run :
    (manifest_of "f1" (insert_version "f1" "v3" 1 5 new_refs 10 database).1).0 ≡ ok new_refs
unfolding manifest_of manifest_in latest_of rows_of order_by_key insert_by_key with_sizes size_of
    insert_version insert_version_row insert_chunks insert_chunk insert_manifest_row upsert_chunk
    stmt ◌>>=◌ has_version has_ordinal find_object has_manifest_row has_chunk add_reference
    increment
listed_run = refl

manifest_of-insert_version_example : hashes_in new_refs ≡ hashes_in new_refs
unfolding rows_of max_of larger
manifest_of-insert_version_example =
    manifest_of-insert_version "f1" "v3" 1 5 new_refs new_refs 10 database refl refl inserted_run
      listed_run
