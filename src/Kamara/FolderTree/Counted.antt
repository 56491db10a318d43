-- ===== src/Kamara/FolderTree/Counted.antt =====
-- The reference counts through DeleteFolderTree of folder.go.
use peristera.Prelude.{
  ℕ, suc, zero, ◌≡◌, String, ◌||◌, ◌&&◌, Option, none, some, List, [], ◌∷◌, ◌++◌, Bool-cases, inl,
  inr,
}
use peristera.Prelude.Exec.{Exec, Keeps, Keeps-bind, Keeps-pure, Keeps-raise, Keeps-attempt}
use peristera.Pii.{Subject}
use peristera.Database.Rules.{
  Keeps-translated, On, Leads, Leads-bind, Leads-pure, Keeps-Leads, Keeps-stmt,
}
use peristera.Database.Atomic.{Keeps-in_tx}
use peristera.Conventions.Frame.{emit-Frame, remove_doc-Frame}
use peristera.Kamara.Blob.{BlobStore}
use peristera.Kamara.Chunk.{Sizes}
use peristera.Kamara.Crypto.{Primitives, Cipher}
use peristera.Kamara.Tables.{FileObject, Folder, FileTables, file_tables, has_folder}
use peristera.Kamara.Store.{Store}
use peristera.Kamara.Store.RefCounts.Owed.{IsCounted}
use peristera.Kamara.Store.RefCounts.Reclaim.{reclaim_object-Reclaimed}
use peristera.Kamara.FolderStore.{
  folder_deleted, delete_folder, has_subfolder, has_file, without_folder,
}
use peristera.Kamara.Files.{Authorizer, World}
use peristera.Kamara.Files.Counted.{
  IsCounted-IsFrame, InDb, on_db-Keeps, on_authz-Keeps, authorize_access-Keeps, delete_blobs-Keeps,
  release-Keeps, revoke_sessions-Keeps,
}
use peristera.Kamara.Folders.{forget_parent}
use peristera.Kamara.Folders.Forest.{found_folder-Keeps}
use peristera.Kamara.FolderTree.{
  Collation, Collected, objects_in_folder, folders_in_parent, list_folder, next_folder,
  collect_tree, delete_files, delete_folders, delete_tree_rows, keep, forget_folders, forget_files,
  delete_folder_tree,
}

list_folder-Keeps :
    (P : FileTables → Type 0) (before : Collation) (caller : Subject) (f : Folder) (s : Collected)
    → Keeps (On P) (list_folder before caller f s)
unfolding list_folder objects_in_folder folders_in_parent
list_folder-Keeps P before caller f s =
    Keeps-bind _ _ (Keeps-stmt P _ (λ t h. h))
      (λ files. Keeps-bind _ _ (Keeps-stmt P _ (λ t h. h)) (λ subs. Keeps-pure _))

next_folder-Keeps :
    (P : FileTables → Type 0) (before : Collation) (caller : Subject) (s : Collected)
    (rest : Collected → Store Collected)
    → ((s : Collected) → Keeps (On P) (rest s))
    → (queue : List Folder) → Keeps (On P) (next_folder before caller s rest queue)
next_folder-Keeps P before caller s rest k [] = Keeps-pure s
next_folder-Keeps P before caller s rest k (f ∷ queue) =
    Keeps-bind _ _ (list_folder-Keeps P before caller f _) k

collect_tree-Keeps :
    (P : FileTables → Type 0) (fuel : ℕ) (before : Collation) (caller : Subject) (s : Collected)
    → Keeps (On P) (collect_tree fuel before caller s)
unfolding collect_tree
collect_tree-Keeps P zero before caller s = Keeps-raise _
collect_tree-Keeps P (suc fuel) before caller s =
    next_folder-Keeps P before caller s _ (collect_tree-Keeps P fuel before caller) s.queue

delete_files-IsCounted :
    (caller : Subject) (files : List FileObject)
    → Leads IsCounted (delete_files caller files) (λ _. IsCounted)
unfolding delete_files
delete_files-IsCounted caller [] = Leads-pure _ _ [] (λ t w. w)
delete_files-IsCounted caller (o ∷ files) =
    Leads-bind _ _ _
      (Keeps-Leads IsCounted _ (emit-Frame file_tables IsCounted IsCounted-IsFrame _ _ _))
      (λ _.
        Leads-bind (λ _. IsCounted) _ _
          (record {
            run = λ db gone w e. (reclaim_object-Reclaimed o.object_id db gone w e).is_counted;
          })
          (λ gone.
            Leads-bind _ _ _
              (Keeps-Leads IsCounted _ (remove_doc-Frame file_tables IsCounted IsCounted-IsFrame _))
              (λ _.
                Leads-bind _ _ _ (delete_files-IsCounted caller files)
                  (λ orphans. Leads-pure _ _ (gone ++ orphans) (λ t w. w)))))

folder_deleted-IsCounted :
    (id : String) (t : FileTables) → IsCounted t → IsCounted (folder_deleted id t).1
unfolding folder_deleted
folder_deleted-IsCounted id t w =
    elim (Bool-cases (
      has_folder (some id) t.folders
      && (has_subfolder id (without_folder id t.folders) || has_file id t.objects))) [
        | inl kept ↦ rw kept w
        | inr free ↦ rw free (record { counted = w.counted })
      ]

delete_folders-IsCounted :
    (caller : Subject) (folders : List Folder)
    → Leads IsCounted (delete_folders caller folders) (λ _. IsCounted)
unfolding delete_folders delete_folder
delete_folders-IsCounted caller [] = Leads-pure _ _ tt (λ t w. w)
delete_folders-IsCounted caller (f ∷ folders) =
    Leads-bind _ _ _ (delete_folders-IsCounted caller folders) (λ _.
      Leads-bind _ _ _
        (Keeps-Leads IsCounted _ (emit-Frame file_tables IsCounted IsCounted-IsFrame _ _ _))
        (λ _.
          Leads-bind _ _ _
            (Keeps-Leads IsCounted _ (
              Keeps-translated IsCounted _ _
                (Keeps-stmt IsCounted _ (folder_deleted-IsCounted f.folder_id))))
            (λ _.
              Keeps-Leads IsCounted _
                (remove_doc-Frame file_tables IsCounted IsCounted-IsFrame _))))

delete_tree_rows-IsCounted :
    (before : Collation) (caller : Subject) (top : Folder)
    → Leads IsCounted (delete_tree_rows before caller top) (λ _. IsCounted)
unfolding delete_tree_rows
delete_tree_rows-IsCounted before caller top = record {
  run = λ db r w e.
      (Leads-bind _ _ _ (Keeps-Leads IsCounted _ (collect_tree-Keeps IsCounted _ before caller _))
          (λ s. Leads-bind _ _ _ (delete_files-IsCounted caller s.files) (λ orphans.
            Leads-bind _ _ _ (delete_folders-IsCounted caller s.listed)
              (λ _. Leads-pure _ (λ _. IsCounted) (s, orphans) (λ t h. h))))).run
        db r w e;
}

module _ (B : BlobStore) (prim : Primitives) (c : Cipher) (sz : Sizes) (az : Authorizer) where
  forget_parent-Keeps :
      (P : FileTables → Type 0) (parent : Option String) (child : String)
      → Keeps (InDb B prim c sz az P) (forget_parent B prim c sz az parent child)
  unfolding forget_parent
  forget_parent-Keeps P none child = Keeps-pure tt
  forget_parent-Keeps P (some folder) child = Keeps-attempt _ (on_authz-Keeps B prim c sz az P _)

  keep-Keeps :
      (P : FileTables → Type 0) (m rest : Exec (World B prim c sz az) (Unit {0}))
      → Keeps (InDb B prim c sz az P) m
      → Keeps (InDb B prim c sz az P) rest
      → Keeps (InDb B prim c sz az P) (keep B prim c sz az m rest)
  keep-Keeps P m rest km kr = record { at = λ w h. kr.at _ (km.at w h) }

  forget_folders-Keeps :
      (P : FileTables → Type 0) (caller : Subject) (folders : List Folder)
      → Keeps (InDb B prim c sz az P) (forget_folders B prim c sz az caller folders)
  unfolding forget_folders
  forget_folders-Keeps P caller [] = Keeps-pure tt
  forget_folders-Keeps P caller (f ∷ folders) = Keeps-bind _ _ (forget_parent-Keeps P _ _) (λ _.
      keep-Keeps P _ _ (on_authz-Keeps B prim c sz az P _) (forget_folders-Keeps P caller folders))

  module _ (revoker : Option (String → Store (Unit {0})))
      (leaves : (id : String) (revoke : String → Store (Unit {0}))
        → revoker ≡ some revoke
        → Keeps (On IsCounted) (revoke id)) where
    forget_files-Keeps :
        (caller : Subject) (files : List FileObject) (rest : Exec (World B prim c sz az) (Unit {0}))
        → Keeps (InDb B prim c sz az IsCounted) rest
        → Keeps
            (InDb B prim c sz az IsCounted)
            (forget_files B prim c sz az revoker caller files rest)
    unfolding forget_files
    forget_files-Keeps caller [] rest k = k
    forget_files-Keeps caller (o ∷ files) rest k =
        Keeps-bind _ _ (revoke_sessions-Keeps B prim c sz az IsCounted revoker leaves _) (λ _.
          Keeps-bind _ _ (release-Keeps B prim c sz az IsCounted _ _) (λ _.
            keep-Keeps IsCounted _ _ (on_authz-Keeps B prim c sz az IsCounted _)
              (forget_files-Keeps caller files rest k)))

    -- Whatever fails and wherever: DeleteFolderTree keeps every chunk's count the number of references to
    -- it, if the revoker of editing sessions does.
    pub delete_folder_tree-Keeps :
        (before : Collation) (caller : Subject) (id : String)
        → Keeps
            (InDb B prim c sz az IsCounted)
            (delete_folder_tree B prim c sz az before revoker caller id)
    unfolding delete_folder_tree
    delete_folder_tree-Keeps before caller id =
        Keeps-bind _ _ (authorize_access-Keeps B prim c sz az IsCounted caller _) (λ _.
          Keeps-bind _ _ (found_folder-Keeps B prim c sz az IsCounted id) (λ top.
            Keeps-bind _ _
              (on_db-Keeps B prim c sz az IsCounted _
                (Keeps-in_tx IsCounted _ (delete_tree_rows-IsCounted before caller top)))
              (λ (s, orphans).
                Keeps-bind _ _ (delete_blobs-Keeps B prim c sz az IsCounted orphans) (λ _.
                  forget_files-Keeps caller s.files _
                    (forget_folders-Keeps IsCounted caller s.listed)))))
