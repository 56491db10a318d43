-- ===== src/Kamara/SubjectData/Left.antt =====
-- What the statements of an erasure (kamara/internal/file/subject_data.go) leave of a person's rows.
use peristera.Prelude.{
  ◌≡◌, refl, sym, ap, subst, ◌∙◌, String, Bool, some, List, [], ◌∷◌, map, ◌||◌, ◌&&◌, Bool-cases,
  inl, inr, ok,
}
use peristera.Prelude.Exec.{Keeps, Keeps-pure, Keeps-bind}
use peristera.Pii.{Subject, same_subject}
use peristera.Database.Rules.{On, Leads, Leads-stmt, Leads-translated, Keeps-stmt}
use peristera.Kamara.Tables.{FileObject, Folder, ChunkRow, FileTables, member, has_folder}
use peristera.Kamara.Store.{
  without_object, object_deleted, delete_object, decrement_all, dec_ref, distinct, delete_chunks,
  chunks_deleted, still_referenced,
}
use peristera.Kamara.FolderStore.{
  without_folder, has_subfolder, has_file, folder_deleted, as_not_empty, delete_folder,
}
use peristera.Kamara.Listings.{order_by_key, objects_of, folders_of}
use peristera.Kamara.SubjectData.{depth, deepest_first}
use peristera.Kamara.SubjectData.Keys.{
  selected, without_key, Pending, without_key-Pending, own_keys, same_keys, order_by_key-member,
  order_by_key_desc-member,
}

abbrev pub object_key : FileObject → String
object_key o = o.object_id

abbrev pub folder_key : Folder → String
folder_key f = f.folder_id

abbrev pub owns_object : Subject → FileObject → Bool
owns_object s o = same_subject s o.owner

abbrev pub owns_folder : Subject → Folder → Bool
owns_folder s f = same_subject s f.owner

pub objects_of-selected :
    (s : Subject) (xs : List FileObject) → objects_of s xs ≡ selected object_key (owns_object s) xs
unfolding objects_of selected
objects_of-selected s [] = refl
objects_of-selected s (o ∷ xs) = rw (objects_of-selected s xs) refl

pub folders_of-selected :
    (s : Subject) (xs : List Folder) → folders_of s xs ≡ selected folder_key (owns_folder s) xs
unfolding folders_of selected
folders_of-selected s [] = refl
folders_of-selected s (f ∷ xs) = rw (folders_of-selected s xs) refl

without_object-without :
    (id : String) (xs : List FileObject) → without_object id xs ≡ without_key object_key id xs
unfolding without_object without_key
without_object-without id [] = refl
without_object-without id (o ∷ xs) = rw (without_object-without id xs) refl

without_folder-without :
    (id : String) (xs : List Folder) → without_folder id xs ≡ without_key folder_key id xs
unfolding without_folder without_key
without_folder-without id [] = refl
without_folder-without id (f ∷ xs) = rw (without_folder-without id xs) refl

-- What is still to be erased of a person: files, and, once there are none, folders.
abbrev pub FilesLeft : Subject → List String → FileTables → Type 0
FilesLeft s ids t = Pending object_key (owns_object s) ids t.objects

abbrev pub FoldersLeft : Subject → List String → FileTables → Type 0
FoldersLeft s ids t =
    (objects_of s t.objects ≡ []) × Pending folder_key (owns_folder s) ids t.folders

pub delete_object-FilesLeft :
    (s : Subject) (id : String) (ids : List String)
    → Leads (FilesLeft s (id ∷ ids)) (delete_object id) (λ _. FilesLeft s ids)
unfolding delete_object object_deleted
delete_object-FilesLeft s id ids = Leads-stmt _ _ _ (λ t a h e.
    subst (Pending object_key (owns_object s) ids) (sym (without_object-without id t.objects))
      (without_key-Pending object_key (owns_object s) id ids t.objects h))

folder_deleted-FoldersLeft :
    (s : Subject) (id : String) (ids : List String) (t : FileTables)
    → FoldersLeft s (id ∷ ids) t
    → (folder_deleted id t).0 ≡ ok tt
    → FoldersLeft s ids (folder_deleted id t).1
unfolding folder_deleted
folder_deleted-FoldersLeft s id ids t h e =
    elim (Bool-cases (
      has_folder (some id) t.folders
      && (has_subfolder id (without_folder id t.folders) || has_file id t.objects))) [
        | inl refused ↦ cc (rw refused at e)
        | inr free ↦ rw free (
          h.0,
          subst (Pending folder_key (owns_folder s) ids) (sym (without_folder-without id t.folders))
              (without_key-Pending folder_key (owns_folder s) id ids t.folders h.1),
        )
      ]

pub delete_folder-FoldersLeft :
    (s : Subject) (id : String) (ids : List String)
    → Leads (FoldersLeft s (id ∷ ids)) (delete_folder id) (λ _. FoldersLeft s ids)
unfolding delete_folder
delete_folder-FoldersLeft s id ids =
    Leads-translated as_not_empty _
      (Leads-stmt _ _ _ (λ t a h e. folder_deleted-FoldersLeft s id ids t h e))

pub files_found :
    (s : Subject) (t : FileTables) (objects : List FileObject)
    → ok (order_by_key (λ (o : FileObject). o.created) (objects_of s t.objects)) ≡ ok objects
    → FilesLeft s (map object_key objects) t
unfolding Pending
files_found s t objects e =
    let q : order_by_key (λ (o : FileObject). o.created) (objects_of s t.objects) ≡ objects = cc in
    let mine = objects_of-selected s t.objects in
    same_keys object_key (map object_key (selected object_key (owns_object s) t.objects)) _ _
      (λ h.
        sym (order_by_key-member object_key (λ (o : FileObject). o.created) h _)
        ∙ ap
            (λ (xs : List FileObject).
              member h (map object_key (order_by_key (λ (o : FileObject). o.created) xs)))
            (sym mine)
        ∙ ap (λ (xs : List FileObject). member h (map object_key xs)) q)
      (own_keys object_key _)

pub folders_found :
    (s : Subject) (t : FileTables) (folders : List Folder)
    → ok (order_by_key (λ (f : Folder). f.created) (folders_of s t.folders)) ≡ ok folders
    → Pending folder_key (owns_folder s) (map folder_key (deepest_first folders)) t.folders
unfolding Pending deepest_first
folders_found s t folders e =
    let q : order_by_key (λ (f : Folder). f.created) (folders_of s t.folders) ≡ folders = cc in
    let mine = folders_of-selected s t.folders in
    same_keys folder_key (map folder_key (selected folder_key (owns_folder s) t.folders)) _ _
      (λ h.
        sym (order_by_key-member folder_key (λ (f : Folder). f.created) h _)
        ∙ ap
            (λ (xs : List Folder).
              member h (map folder_key (order_by_key (λ (f : Folder). f.created) xs)))
            (sym mine)
        ∙ ap (λ (xs : List Folder). member h (map folder_key xs)) q
        ∙ sym (order_by_key_desc-member folder_key (depth folders) h folders))
      (own_keys folder_key _)

-- The statements on chunks keep what is not about chunks.
module _ (P : FileTables → Type 0)
    (frame : (t : FileTables) (chunks : List ChunkRow)
      → P t
      → P (record t { chunks = chunks })) where
  decrement_all-Keeps : (hashes hs : List String) → Keeps (On P) (decrement_all hashes hs)
  unfolding decrement_all
  decrement_all-Keeps hashes [] = Keeps-pure tt
  decrement_all-Keeps hashes (h ∷ hs) =
      Keeps-bind _ _ (Keeps-stmt P _ (λ t k. frame t _ k)) (λ _. decrement_all-Keeps hashes hs)

  pub dec_ref-Keeps : (hs : List String) → Keeps (On P) (dec_ref hs)
  unfolding dec_ref
  dec_ref-Keeps [] = Keeps-pure []
  dec_ref-Keeps (h ∷ hs) =
      Keeps-bind _ _ (decrement_all-Keeps (h ∷ hs) (distinct (h ∷ hs)))
        (λ _. Keeps-stmt P _ (λ t k. k))

  pub delete_chunks-Keeps : (hs : List String) → Keeps (On P) (delete_chunks hs)
  unfolding delete_chunks chunks_deleted
  delete_chunks-Keeps [] = Keeps-pure tt
  delete_chunks-Keeps (h ∷ hs) = Keeps-stmt P _ (λ t k.
      elim (Bool-cases (still_referenced (h ∷ hs) t.chunks t.version_chunks)) [
        | inl used ↦ rw used k
        | inr free ↦ rw free (frame t _ k)
      ])
