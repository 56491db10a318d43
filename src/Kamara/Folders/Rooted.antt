-- ===== src/Kamara/Folders/Rooted.antt =====
-- The way from a folder to the root along the parents (folder.go), and what a move does to it.
use peristera.Prelude.{
  ℕ, ◌≡◌, refl, ap, ◌∙◌, String, false, Option, none, some, List, [], ◌∷◌, arith, str_eq, eq_iff,
  Bool-cases, inl, inr,
}
use peristera.Kamara.Tables.{Folder, FileTables, find_folder}
use peristera.Kamara.FolderStore.{change_folder, under}

-- From a place, a folder or none, the parents lead to the root.
pub data Rooted (folders : List Folder) : Option String → Type 0 where
  root : Rooted folders none
  gone : (id : String) → find_folder id folders ≡ none → Rooted folders (some id)
  inside :
      (id : String) (f : Folder)
      → find_folder id folders ≡ some f
      → Rooted folders f.parent_id
      → Rooted folders (some id)

-- Every place is.
pub record IsForest (t : FileTables) : Type 0 where
  pub rooted : (cur : Option String) → Rooted t.folders cur

-- The way to the root does not pass `moving`.
pub data Avoids (moving : String) (folders : List Folder) : Option String → Type 0 where
  at_root : Avoids moving folders none
  at_gap :
      (id : String)
      → str_eq id moving ≡ false
      → find_folder id folders ≡ none
      → Avoids moving folders (some id)
  past :
      (id : String) (f : Folder)
      → str_eq id moving ≡ false
      → find_folder id folders ≡ some f
      → Avoids moving folders f.parent_id
      → Avoids moving folders (some id)

find_folder-change_other :
    (id moving : String) (parent : Option String) (now : ℕ) (folders : List Folder)
    → str_eq id moving ≡ false
    → find_folder id (change_folder moving (under parent now) folders) ≡ find_folder id folders
unfolding find_folder change_folder
find_folder-change_other id moving parent now [] ne = refl
find_folder-change_other id moving parent now (f ∷ folders) ne =
    elim (Bool-cases (str_eq moving f.folder_id)) [
      | inl hit ↦
          let miss : str_eq id f.folder_id ≡ false = ground (arith, eq_iff moving f.folder_id) in
          rw (hit, miss, find_folder-change_other id moving parent now folders ne)
      | inr miss ↦ rw (miss, find_folder-change_other id moving parent now folders ne)
    ]

find_folder-change :
    (moving : String) (parent : Option String) (now : ℕ) (folders : List Folder) (f : Folder)
    → find_folder moving folders ≡ some f
    → find_folder moving (change_folder moving (under parent now) folders)
      ≡ some (under parent now f)
unfolding find_folder change_folder
find_folder-change moving parent now [] f e = cc
find_folder-change moving parent now (x ∷ folders) f e =
    elim (Bool-cases (str_eq moving x.folder_id)) [
      | inl hit ↦
          let q : some x ≡ some f = rw hit at e in
          rw (hit, hit) (ap (λ (o : Option Folder). after o) q)
      | inr miss ↦ rw (miss, miss) (find_folder-change moving parent now folders f (rw miss at e))
    ]
  where
    after : Option Folder → Option Folder
    after none = none
    after (some y) = some (under parent now y)

find_folder-change_none :
    (id moving : String) (parent : Option String) (now : ℕ) (folders : List Folder)
    → find_folder id folders ≡ none
    → find_folder id (change_folder moving (under parent now) folders) ≡ none
unfolding find_folder change_folder
find_folder-change_none id moving parent now [] e = refl
find_folder-change_none id moving parent now (x ∷ folders) e =
    ground (arith, find_folder-change_none id moving parent now folders)

module _ (moving : String) (parent : Option String) (now : ℕ) (folders : List Folder) where
  abbrev moved : List Folder
  moved = change_folder moving (under parent now) folders

  Avoids-Rooted : (cur : Option String) → Avoids moving folders cur → Rooted moved cur
  Avoids-Rooted _ at_root = root
  Avoids-Rooted _ (at_gap id ne e) =
      gone id (find_folder-change_none id moving parent now folders e)
  Avoids-Rooted _ (past id f ne e a) =
      inside id f (find_folder-change_other id moving parent now folders ne ∙ e)
        (Avoids-Rooted f.parent_id a)

  pub Rooted-moved :
      Avoids moving folders parent → (cur : Option String) → Rooted folders cur → Rooted moved cur
  Rooted-moved a _ root = root
  Rooted-moved a _ (gone id e) = gone id (find_folder-change_none id moving parent now folders e)
  Rooted-moved a _ (inside id f e r) = elim (Bool-cases (str_eq id moving)) [
    | inr ne ↦
        inside id f (find_folder-change_other id moving parent now folders ne ∙ e)
          (Rooted-moved a f.parent_id r)
    | inl hit ↦
        let q : id ≡ moving = ground (arith, eq_iff id moving) in
        inside id (under parent now f)
          (rw q (find_folder-change moving parent now folders f (rw q at e)))
          (Avoids-Rooted parent a)
  ]
