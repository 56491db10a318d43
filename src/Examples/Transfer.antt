-- ===== src/Examples/Transfer.antt =====
-- An upload into an empty store and the downloads of it (kamara/internal/file/file.go).
use peristera.Prelude.{◌≡◌, refl, none, [], arith, ok, true, concat}
use peristera.Prelude.Exec.{◌>>=◌}
use peristera.Kamara.Chunk.Split.{Reader, split}
use peristera.Kamara.Tables.{
  FileObject, FileTables, find_object, has_chunk, has_folder, has_manifest_row, has_ordinal,
  has_version,
}
use peristera.Kamara.Files.{
  World, upload, authorize_folder, contain, create_object, ingest_from, on_authz, on_db, permalink,
  upload_object,
}
use peristera.Kamara.Store.{
  max_of, insert_chunk, insert_chunks, insert_manifest_row, insert_object, insert_object_row,
  insert_version, insert_version_row, upsert_chunk,
}
use peristera.Kamara.Listings.{rows_of}
use peristera.Kamara.Transfer.Stored.{HasFresh}
use peristera.Kamara.Transfer.{Downloads, upload-Downloads}
use peristera.Conventions.{
  append_event, emit, feed, find_token, has_event, insert_event, lookup_token, on_tables,
  record_event, token_for, token_or_new, upsert_doc,
}
use peristera.Kamara.Engine.{ingest, store_chunk}
use peristera.Kamara.Blob.Fs.{
  fsync, has, is_hex, other_call, path, put, rename, same_path, stat, store_new, sync_dir, syscall,
}
use peristera.Database.{fresh_id, in_tx, stmt}
use peristera.Pii.{is_zero}
use peristera.Kamara.ContentType.{before_semicolon, content_type_of, trim_left, trim_right}
use peristera.Kamara.Chunk.{cutpoint}
use peristera.Kamara.Crypto.{chunk_hash, seal}
use peristera.Examples.Base.{
  small_sizes, small_sizes-IsValid, plain_hashes, cipher, store, empty_disk, ada, answering, tables,
  database, world,
}
use peristera.Examples.Engine.{reads, IsChunk, family, reads_members, empty-IsSealed}

abbrev empty_tables : FileTables
empty_tables = record tables {
  objects = [];
  folders = [];
  versions = [];
  version_chunks = [];
  chunks = [];
  wopi_sessions = [];
}

abbrev empty_world : World store plain_hashes cipher small_sizes (answering true)
empty_world = record (world true) {
  db = record database { tables = empty_tables };
  blobs = empty_disk;
}

abbrev incoming : Reader
incoming = record { pending = reads; ending = none }

fresh :
    HasFresh store plain_hashes cipher small_sizes (answering true) IsChunk family empty_world.db
unfolding rows_of max_of
fresh = record { no_rows = λ n l. refl; no_versions = λ n l. refl }

abbrev uploaded : FileObject
uploaded = record {
  object_id = "id0";
  owner = ada;
  name = "note.txt";
  size = 8;
  folder_id = none;
  content_type = "text/plain";
  created = 10;
  updated = 10;
}

upload_run :
    (upload store plain_hashes cipher small_sizes
      (answering true)
      (λ ext. "text/plain")
      ada
      none
      "note.txt"
      incoming
      empty_world).0
    ≡ ok uploaded
unfolding upload ◌>>=◌ authorize_folder ingest_from ingest split store_chunk has path chunk_hash
    cutpoint is_hex stat syscall seal put store_new other_call rename sync_dir fsync same_path on_db
    fresh_id upload_object in_tx create_object insert_object stmt insert_object_row find_object
    has_folder insert_version insert_version_row has_version has_ordinal insert_chunks insert_chunk
    insert_manifest_row has_manifest_row has_chunk upsert_chunk emit is_zero token_for lookup_token
    on_tables token_or_new find_token record_event append_event insert_event has_event feed
    permalink upsert_doc on_authz contain content_type_of trim_left trim_right before_semicolon
upload_run = refl

upload-Downloads_example :
    Downloads store plain_hashes cipher small_sizes
      (answering true)
      IsChunk
      family
      (concat reads)
      "id0"
      (upload store plain_hashes cipher small_sizes
        (answering true)
        (λ ext. "text/plain")
        ada
        none
        "note.txt"
        incoming
        empty_world).1
upload-Downloads_example =
    upload-Downloads store plain_hashes cipher small_sizes (answering true) IsChunk family
      (λ ext. "text/plain") ada none "note.txt" reads empty_world uploaded small_sizes-IsValid
      (omega arith, (omega arith, (omega arith, tt))) reads_members empty-IsSealed fresh upload_run
