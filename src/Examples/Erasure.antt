-- ===== src/Examples/Erasure.antt =====
-- An erasure of a person's files and folders (kamara/internal/file/subject_data.go).
use peristera.Prelude.{◌≡◌, refl, true, ok}
use peristera.Prelude.Exec.{◌>>=◌, attempt}
use peristera.Kamara.SubjectData.{
  export_subject, erase_subject_data, deepest_first, erase_files, erase_folders,
}
use peristera.Kamara.SubjectData.Erasure.{IsErased, FindsNothing, erase_subject_data-IsErased}
use peristera.Kamara.Store.{
  chunk_hashes_of, chunks_deleted, dec_ref, decrement_all, delete_chunks, delete_object,
  distinct_from, drop_references, hashes_of, manifest_without, object_deleted, occurrences,
  orphans_in, still_referenced, versions_without, without, without_chunks, without_object,
}
use peristera.Conventions.{delete_doc, on_tables, remove_doc}
use peristera.Kamara.Files.{delete_blobs, on_authz, on_blobs, on_db, release}
use peristera.Kamara.Tables.{find_folder, has_folder, is_version_of, member, references, ◌-ℤ◌}
use peristera.Kamara.Listings.{
  by_owner, folders_by_owner, folders_of, insert_by_key, insert_by_key_desc, objects_of,
  order_by_key,
}
use peristera.Kamara.FolderStore.{
  delete_folder, folder_deleted, has_file, has_subfolder, is_parent, without_folder,
}
use peristera.Database.{stmt}
use peristera.Examples.Base.{small_sizes, plain_hashes, cipher, store, ada, answering, world}

-- The two files and the two folders of the example.
erase_run :
    (erase_subject_data store plain_hashes cipher small_sizes (answering true) ada (world true)).0
    ≡ ok tt
unfolding erase_subject_data ◌>>=◌ on_db by_owner stmt erase_files order_by_key objects_of
    insert_by_key chunk_hashes_of delete_object dec_ref hashes_of is_version_of decrement_all
    distinct_from without delete_chunks orphans_in drop_references object_deleted member ◌-ℤ◌
    occurrences chunks_deleted still_referenced references manifest_without delete_blobs attempt
    remove_doc delete_doc on_tables on_blobs release on_authz versions_without without_chunks
    folders_by_owner erase_folders deepest_first folders_of insert_by_key_desc find_folder
    delete_folder folder_deleted has_folder has_subfolder without_folder is_parent has_file
    without_object
erase_run = refl

erase_subject_data-IsErased_example :
    let after =
      (erase_subject_data store plain_hashes cipher small_sizes
        (answering true)
        ada
        (world true)).1 in
    IsErased store plain_hashes cipher small_sizes (answering true) ada after.db.tables
    × FindsNothing store plain_hashes cipher small_sizes
        (answering true)
        (export_subject store plain_hashes cipher small_sizes (answering true) ada after).0
erase_subject_data-IsErased_example =
    erase_subject_data-IsErased store plain_hashes cipher small_sizes (answering true) ada
      (world true) erase_run
