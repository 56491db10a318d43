-- ===== src/Kamara/Zip/Listed.antt =====
-- The folders that zipTree (kamara/internal/file/zip.go) lists are those of the table.
use peristera.Prelude.{
  ◌≤◌, ◌≡◌, refl, String, ◌&&◌, Option, some, List, [], ◌∷◌, All, str_eq, eq_refl, length, arith,
  Bool-cases, inl, inr,
}
use peristera.Pii.{Subject, same_subject}
use peristera.Kamara.Tables.{Folder, find_folder}
use peristera.Kamara.FolderTree.{Collation, insert_by_name, order_by_name, same_place, folders_at}
use peristera.Kamara.Folders.Walk.{unseen}

-- The folder is in the table.
unfoldable pub IsKnown : List Folder → Folder → Type 0
IsKnown table f = (x : Folder) × (find_folder f.folder_id table ≡ some x)

IsKnown-cons :
    (g : Folder) (table : List Folder) (f : Folder) → IsKnown table f → IsKnown (g ∷ table) f
unfolding IsKnown find_folder
IsKnown-cons g table f (x, e) = elim (Bool-cases (str_eq f.folder_id g.folder_id)) [
  | inl hit ↦ (g, rw hit refl)
  | inr miss ↦ (x, rw miss e)
]

All-IsKnown-cons :
    (g : Folder) (table fs : List Folder) → All (IsKnown table) fs → All (IsKnown (g ∷ table)) fs
All-IsKnown-cons g table [] h = tt
All-IsKnown-cons g table (f ∷ fs) h = (IsKnown-cons g table f h.0, All-IsKnown-cons g table fs h.1)

pub table-IsKnown : (table : List Folder) → All (IsKnown table) table
unfolding IsKnown find_folder
table-IsKnown [] = tt
table-IsKnown (g ∷ table) =
    ((g, rw (eq_refl g.folder_id) refl), All-IsKnown-cons g table table (table-IsKnown table))

module _ (P : Folder → Type 0) where
  pub folders_at-All :
      (owner : Subject) (place : Option String) (fs : List Folder)
      → All P fs
      → All P (folders_at owner place fs)
  unfolding folders_at
  folders_at-All owner place [] h = tt
  folders_at-All owner place (f ∷ fs) h =
      elim (Bool-cases (same_subject owner f.owner && same_place place f.parent_id)) [
        | inl here ↦ rw here (h.0, folders_at-All owner place fs h.1)
        | inr away ↦ rw away (folders_at-All owner place fs h.1)
      ]

  insert_by_name-All :
      (name_of : Folder → String) (before : Collation) (x : Folder) (xs : List Folder)
      → P x
      → All P xs
      → All P (insert_by_name name_of before x xs)
  unfolding insert_by_name
  insert_by_name-All name_of before x [] p h = (p, tt)
  insert_by_name-All name_of before x (y ∷ ys) p h =
      elim (Bool-cases (before (name_of y) (name_of x))) [
        | inl later ↦ rw later (h.0, insert_by_name-All name_of before x ys p h.1)
        | inr first ↦ rw first (p, h)
      ]

  pub order_by_name-All :
      (name_of : Folder → String) (before : Collation) (xs : List Folder)
      → All P xs
      → All P (order_by_name name_of before xs)
  unfolding order_by_name
  order_by_name-All name_of before [] h = tt
  order_by_name-All name_of before (x ∷ xs) h =
      insert_by_name-All name_of before x _ h.0 (order_by_name-All name_of before xs h.1)

pub unseen_at_most :
    (seen : List String) (folders : List Folder) → unseen seen folders ≤ length folders
unfolding unseen
unseen_at_most seen [] = omega arith
unseen_at_most seen (f ∷ folders) = ground (arith, unseen_at_most seen folders)
