-- ===== src/Kamara/SubjectData/Erasure.antt =====
-- After an erasure of subject_data.go (kamara/internal/file) there is nothing left to export.
use peristera.Prelude.{◌≡◌, refl, sym, ap, ◌∙◌, Option, none, List, [], ◌∷◌, map, Result, ok, err}
use peristera.Prelude.Exec.{Exec, ◌>>=◌, Keeps}
use peristera.Prelude.Returns.{Brings, Brings-pure, Brings-Keeps, Brings-bind}
use peristera.Pii.{Subject}
use peristera.Database.Rules.{Leads, Leads-stmt, Keeps-stmt}
use peristera.Conventions.Frame.{remove_doc-Frame}
use peristera.Kamara.Blob.{BlobStore}
use peristera.Kamara.Chunk.{Sizes}
use peristera.Kamara.Crypto.{Primitives, Cipher}
use peristera.Kamara.Tables.{FileObject, Folder, FileTables, file_tables}
use peristera.Kamara.Store.{Store, chunk_hashes_of}
use peristera.Kamara.Listings.{order_by_key, objects_of, by_owner, folders_of, folders_by_owner}
use peristera.Kamara.Files.{Authorizer, World, on_db}
use peristera.Kamara.Files.Counted.{
  InDb, on_db-Keeps, on_authz-Keeps, delete_blobs-Keeps, release-Keeps,
}
use peristera.Kamara.SubjectData.{
  Export, export_of, deepest_first, export_subject, erase_files, erase_folders, erase_subject_data,
}
use peristera.Kamara.SubjectData.Keys.{Pending-nil}
use peristera.Kamara.SubjectData.Left.{
  object_key, folder_key, owns_object, owns_folder, objects_of-selected, folders_of-selected,
  FilesLeft, FoldersLeft, delete_object-FilesLeft, delete_folder-FoldersLeft, dec_ref-Keeps,
  delete_chunks-Keeps, files_found, folders_found,
}

module _ (B : BlobStore) (prim : Primitives) (c : Cipher) (sz : Sizes) (az : Authorizer) where
  on_db-Brings :
      {A : Type 0} {P : FileTables → Type 0} {Q : A → FileTables → Type 0} (m : Store A)
      → Leads P m Q
      → Brings (InDb B prim c sz az P) (on_db B prim c sz az m) (λ a w. Q a w.db.tables)
  unfolding on_db
  on_db-Brings m l = record { run = λ w a h e. l.run w.db a h e }

  -- Code that keeps a condition, before code that starts from it.
  then-Brings :
      {A C : Type 0} (P : FileTables → Type 0) {Q : C → World B prim c sz az → Type 0}
      (m : Exec (World B prim c sz az) A) (f : A → Exec (World B prim c sz az) C)
      → Keeps (InDb B prim c sz az P) m
      → ((a : A) → Brings (InDb B prim c sz az P) (f a) Q)
      → Brings (InDb B prim c sz az P) (m >>= f) Q
  then-Brings P m f k next = Brings-bind (λ _. InDb B prim c sz az P) m f (Brings-Keeps m k) next

  erase_files-Brings :
      (s : Subject) (objects : List FileObject)
      → Brings
          (InDb B prim c sz az (FilesLeft s (map object_key objects)))
          (erase_files B prim c sz az s objects)
          (λ _. InDb B prim c sz az (λ t. objects_of s t.objects ≡ []))
  unfolding erase_files chunk_hashes_of
  erase_files-Brings s [] = Brings-pure _ tt (λ w h.
      objects_of-selected s w.db.tables.objects ∙ Pending-nil object_key (owns_object s) _ h)
  erase_files-Brings s (o ∷ objects) =
      then-Brings _ _ _ (on_db-Keeps B prim c sz az _ _ (Keeps-stmt _ _ (λ t k. k))) λ hashes.
        Brings-bind (λ _. InDb B prim c sz az left) _ _
          (on_db-Brings _ (delete_object-FilesLeft s o.object_id (map object_key objects)))
          λ _.
            then-Brings left _ _
              (on_db-Keeps B prim c sz az left _ (dec_ref-Keeps left (λ t chunks k. k) hashes))
              λ orphans.
                then-Brings left _ _
                  (on_db-Keeps B prim c sz az left _
                    (delete_chunks-Keeps left (λ t chunks k. k) orphans))
                  λ _. then-Brings left _ _ (delete_blobs-Keeps B prim c sz az left orphans) λ _.
                    then-Brings left _ _
                      (on_db-Keeps B prim c sz az left _
                        (remove_doc-Frame file_tables left (λ t x k. k) o.object_id))
                      λ _.
                        then-Brings left _ _ (release-Keeps B prim c sz az left o.folder_id _) λ _.
                          then-Brings left _ _ (on_authz-Keeps B prim c sz az left _)
                            λ _. erase_files-Brings s objects
    where
      left : FileTables → Type 0
      left = FilesLeft s (map object_key objects)

  -- Nothing that ByOwner or FoldersByOwner finds.
  pub record IsErased (s : Subject) (t : FileTables) : Type 0 where
    pub no_files : objects_of s t.objects ≡ []
    pub no_folders : folders_of s t.folders ≡ []

  erase_folders-Brings :
      (s : Subject) (folders : List Folder)
      → Brings
          (InDb B prim c sz az (FoldersLeft s (map folder_key folders)))
          (erase_folders B prim c sz az s folders)
          (λ _. InDb B prim c sz az (IsErased s))
  unfolding erase_folders
  erase_folders-Brings s [] = Brings-pure _ tt (λ w h. record {
    no_files = h.0;
    no_folders =
        folders_of-selected s w.db.tables.folders ∙ Pending-nil folder_key (owns_folder s) _ h.1;
  })
  erase_folders-Brings s (f ∷ folders) =
      Brings-bind (λ _. InDb B prim c sz az left) _ _
        (on_db-Brings _ (delete_folder-FoldersLeft s f.folder_id (map folder_key folders)))
        λ _.
          then-Brings left _ _
            (on_db-Keeps B prim c sz az left _
              (remove_doc-Frame file_tables left (λ t x k. k) f.folder_id))
            λ _. then-Brings left _ _ (release-Keeps B prim c sz az left f.parent_id _) λ _.
              then-Brings left _ _ (on_authz-Keeps B prim c sz az left _)
                λ _. erase_folders-Brings s folders
    where
      left : FileTables → Type 0
      left = FoldersLeft s (map folder_key folders)

  erase_subject_data-Brings :
      (s : Subject)
      → Brings
          (InDb B prim c sz az (λ t. Unit {0}))
          (erase_subject_data B prim c sz az s)
          (λ _. InDb B prim c sz az (IsErased s))
  unfolding erase_subject_data by_owner folders_by_owner deepest_first
  erase_subject_data-Brings s =
      Brings-bind (λ objects. InDb B prim c sz az (FilesLeft s (map object_key objects))) _ _
        (on_db-Brings _ (Leads-stmt _ _ _ (λ t objects h e. files_found s t objects e)))
        λ objects.
          Brings-bind (λ _. InDb B prim c sz az (λ t. objects_of s t.objects ≡ [])) _ _
            (erase_files-Brings s objects)
            λ _.
              Brings-bind
                (λ folders.
                  InDb B prim c sz az (FoldersLeft s (map folder_key (deepest_first folders))))
                _ _
                (on_db-Brings _
                  (Leads-stmt _ _ _ (λ t folders h e. (h, folders_found s t folders e))))
                λ folders. erase_folders-Brings s (deepest_first folders)

  -- An export finds nothing, or a statement of it fails.
  abbrev pub FindsNothing : Result (Option Export) → Type 0
  FindsNothing (ok found) = found ≡ none
  FindsNothing (err e) = Unit

  finds_nothing :
      (r : Result (Option Export))
      → ((found : Option Export) → r ≡ ok found → found ≡ none)
      → FindsNothing r
  finds_nothing (ok found) k = k found refl
  finds_nothing (err e) k = tt

  export_subject-Brings :
      (s : Subject)
      → Brings
          (InDb B prim c sz az (IsErased s))
          (export_subject B prim c sz az s)
          (λ found w. found ≡ none)
  unfolding export_subject by_owner folders_by_owner order_by_key export_of
  export_subject-Brings s =
      Brings-bind (λ objects w. (objects ≡ []) × IsErased s w.db.tables) _ _
        (on_db-Brings {P = IsErased s} {Q = λ objects t. (objects ≡ []) × IsErased s t} _ (
          Leads-stmt _ _ _ (λ t objects h e. (
            (let q : order_by_key (λ (o : FileObject). o.created) (objects_of s t.objects)
                    ≡ objects =
                  cc in
                sym q ∙ ap (order_by_key (λ (o : FileObject). o.created)) h.no_files),
            h,
          ))))
        λ objects.
          Brings-bind (λ folders w. (objects ≡ []) × (folders ≡ [])) _ _
            (on_db-Brings {P = λ t. (objects ≡ []) × IsErased s t}
              {Q = λ folders t. (objects ≡ []) × (folders ≡ [])} _
              (Leads-stmt _ _ _ (λ t folders h e. (
                h.0,
                (let q : order_by_key (λ (f : Folder). f.created) (folders_of s t.folders)
                        ≡ folders =
                      cc in
                    sym q ∙ ap (order_by_key (λ (f : Folder). f.created)) h.1.no_folders),
              ))))
            λ folders. Brings-pure _ _ (λ w h. rw (h.0, h.1) refl)

  -- If EraseSubject returns no error, the person owns no file and no folder afterwards, whatever was
  -- there before, and an export finds nothing or fails in the database.
  pub erase_subject_data-IsErased :
      (s : Subject) (w : World B prim c sz az)
      → (erase_subject_data B prim c sz az s w).0 ≡ ok tt
      → let after = (erase_subject_data B prim c sz az s w).1 in
        IsErased s after.db.tables × FindsNothing (export_subject B prim c sz az s after).0
  erase_subject_data-IsErased s w e =
      let erased = (erase_subject_data-Brings s).run w tt tt e in
      (erased, finds_nothing _ (λ found q. (export_subject-Brings s).run _ found erased q))
