-- ===== src/Kamara/FolderStore.antt =====
-- The folder statements of ObjectRepo (kamara/internal/store/repos.go).
use peristera.Prelude.{
  ℕ, String, Bool, true, false, not, ◌&&◌, ◌||◌, Option, none, some, List, [], ◌∷◌, ◌++◌, str_eq,
  if◌then◌else◌, Result, ok, err, unique_violation, foreign_key_violation, not_empty, wrapped,
  Error,
}
use peristera.Database.{translated, stmt}
use peristera.Kamara.Tables.{FileObject, Folder, FileTables, find_folder, has_folder}
use peristera.Kamara.Store.{Store}

unfoldable pub insert_folder_row : Folder → FileTables → Result (Unit {0}) × FileTables
insert_folder_row f t =
    if not (is_new (find_folder f.folder_id t.folders))
    then (err unique_violation, t)
    else if has_folder f.parent_id (t.folders ++ f ∷ [])
    then (ok tt, record t { folders = t.folders ++ f ∷ [] })
    else (err foreign_key_violation, t)
  where
    is_new : Option Folder → Bool
    is_new none = true
    is_new (some x) = false

-- InsertFolder
unfoldable pub insert_folder : Folder → Store (Unit {0})
insert_folder f = stmt (insert_folder_row f)

-- GetFolder
unfoldable pub get_folder : String → Store (Option Folder)
get_folder id = stmt (λ t. (ok (find_folder id t.folders), t))

unfoldable pub is_parent : String → Option String → Bool
is_parent id none = false
is_parent id (some parent) = str_eq id parent

unfoldable pub has_subfolder : String → List Folder → Bool
has_subfolder id [] = false
has_subfolder id (f ∷ folders) = is_parent id f.parent_id || has_subfolder id folders

unfoldable pub has_file : String → List FileObject → Bool
has_file id [] = false
has_file id (o ∷ objects) = is_parent id o.folder_id || has_file id objects

-- FolderHasChildren
unfoldable pub folder_has_children : String → Store Bool
folder_has_children id = stmt (λ t. (ok (has_subfolder id t.folders || has_file id t.objects), t))

-- UPDATE folders SET … WHERE id
unfoldable pub change_folder : String → (Folder → Folder) → List Folder → List Folder
change_folder id change [] = []
change_folder id change (f ∷ folders) =
    let rest = change_folder id change folders in
    if str_eq id f.folder_id then change f ∷ rest else f ∷ rest

abbrev pub under : Option String → ℕ → Folder → Folder
under parent now f = record f { parent_id = parent; updated = now }

unfoldable pub folder_moved :
    String → Option String → ℕ → FileTables → Result (Unit {0}) × FileTables
folder_moved id parent now t =
    if has_folder parent t.folders || not (has_folder (some id) t.folders)
    then (ok tt, record t { folders = change_folder id (under parent now) t.folders })
    else (err foreign_key_violation, t)

-- SetFolderParent
unfoldable pub set_folder_parent : String → Option String → ℕ → Store (Unit {0})
set_folder_parent id parent now = stmt (folder_moved id parent now)

-- SetFolderName
unfoldable pub set_folder_name : String → String → ℕ → Store (Unit {0})
set_folder_name id name now = stmt λ t. (
  ok tt,
  record t { folders = change_folder id (λ f. record f { name = name; updated = now }) t.folders },
)

unfoldable pub without_folder : String → List Folder → List Folder
without_folder id [] = []
without_folder id (f ∷ folders) =
    let rest = without_folder id folders in if str_eq id f.folder_id then rest else f ∷ rest

-- A folder that a row refers to is kept. A row that refers to itself does not hinder its own deletion.
unfoldable pub folder_deleted : String → FileTables → Result (Unit {0}) × FileTables
folder_deleted id t =
    if has_folder (some id) t.folders
      && (has_subfolder id (without_folder id t.folders) || has_file id t.objects)
    then (err foreign_key_violation, t)
    else (ok tt, record t { folders = without_folder id t.folders })

-- errors.As with SQLSTATE 23503.
unfoldable pub is_foreign_key : Error → Bool
is_foreign_key foreign_key_violation = true
is_foreign_key (wrapped text e) = is_foreign_key e
is_foreign_key _ = false

unfoldable pub as_not_empty : Error → Error
as_not_empty e = if is_foreign_key e then not_empty else e

-- DeleteFolder: a reference that is left shows as ErrNotEmpty.
unfoldable pub delete_folder : String → Store (Unit {0})
delete_folder id = translated as_not_empty (stmt (folder_deleted id))
