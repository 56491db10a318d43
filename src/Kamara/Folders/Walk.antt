-- ===== src/Kamara/Folders/Walk.antt =====
-- wouldCycle of folder.go ends, cycles among the folders included.
use peristera.Prelude.{
  ℕ, suc, zero, ◌+◌, ◌≤◌, ◌<◌, ◌≡◌, refl, String, Bool, true, false, ◌||◌, Option, none, some, List,
  [], ◌∷◌, length, arith, str_eq, eq_iff, eq_refl, if◌then◌else◌, Bool-cases, Option-cases, inl,
  inr, ok,
}
use peristera.Prelude.Exec.{◌>>=◌, continue}
use peristera.Database.{Db, stmt}
use peristera.Kamara.Tables.{Folder, FileTables, find_folder, member}
use peristera.Kamara.Store.{Store}
use peristera.Kamara.FolderStore.{get_folder}
use peristera.Kamara.Folders.{climb, walk, would_cycle}

-- The folders that the walk has not seen.
unfoldable pub unseen : List String → List Folder → ℕ
unseen seen [] = 0
unseen seen (f ∷ folders) =
    let rest = unseen seen folders in if member f.folder_id seen then rest else suc rest

pub unseen-length : (folders : List Folder) → unseen [] folders ≤ length folders
unfolding unseen member
unseen-length [] = omega arith
unseen-length (f ∷ folders) = ground (arith, unseen-length folders)

pub unseen_mono :
    (id : String) (seen : List String) (folders : List Folder)
    → unseen (id ∷ seen) folders ≤ unseen seen folders
unfolding unseen member
unseen_mono id seen [] = omega arith
unseen_mono id seen (f ∷ folders) = ground (arith, unseen_mono id seen folders)

pub unseen-found :
    (id : String) (seen : List String) (folders : List Folder) (f : Folder)
    → find_folder id folders ≡ some f
    → member id seen ≡ false
    → unseen (id ∷ seen) folders < unseen seen folders
unfolding unseen find_folder member
unseen-found id seen [] f e m = cc
unseen-found id seen (x ∷ folders) f e m = elim (Bool-cases (str_eq id x.folder_id)) [
  | inl hit ↦
      ground (arith, unseen_mono id seen folders, eq_iff id x.folder_id, eq_refl x.folder_id)
  | inr miss ↦
      ground (arith, unseen-found id seen folders f (rw miss at e) m, eq_iff id x.folder_id)
]

-- No statement fails.
abbrev pub IsReliable : Db FileTables → Type 0
IsReliable db = (n : ℕ) → db.faults n ≡ none

abbrev read : Db FileTables → Db FileTables
read db = record db { calls = db.calls + 1 }

get_folder-ok :
    (id : String) (db : Db FileTables)
    → IsReliable db
    → get_folder id db ≡ (ok (find_folder id db.tables.folders), read db)
unfolding get_folder stmt
get_folder-ok id db k = rw (k db.calls, stmt) refl

abbrev Answers : Store Bool → Db FileTables → Type 0
Answers m db = (b : Bool) × ((m db).0 ≡ ok b)

found-Answers :
    (id : String) (rest : Option String → Store Bool) (db : Db FileTables)
    → IsReliable db
    → ((f : Folder)
        → find_folder id db.tables.folders ≡ some f
        → Answers (rest f.parent_id) (read db))
    → Answers (get_folder id >>= climb rest) db
unfolding ◌>>=◌
found-Answers id rest db k next =
    rw (get_folder-ok id db k, continue)
      (elim (Option-cases (find_folder id db.tables.folders)) [
        | inl e ↦ rw e (false, refl)
        | inr (f, e) ↦ rw e (next f e)
      ])

walk-Answers :
    (fuel : ℕ) (moving : String) (seen : List String) (cur : Option String) (db : Db FileTables)
    → IsReliable db
    → unseen seen db.tables.folders + 1 < fuel
    → Answers (walk fuel moving seen cur) db
unfolding walk
walk-Answers zero moving seen cur db k enough = (false, ground arith)
walk-Answers (suc fuel) moving seen none db k enough = (false, refl)
walk-Answers (suc fuel) moving seen (some id) db k enough =
    elim (Bool-cases (str_eq id moving || member id seen)) [
      | inl stop ↦ rw stop (true, refl)
      | inr go ↦ rw go (
          found-Answers id (walk fuel moving (id ∷ seen)) db k (λ f e.
            walk-Answers fuel moving (id ∷ seen) f.parent_id (read db) k
              (omega (arith, unseen-found id seen db.tables.folders f e (ground arith)))))
    ]

-- If no statement fails, then wouldCycle returns an answer, and does not run out of rounds, whatever the
-- folders are: also where their parents go round in a cycle.
pub would_cycle-Answers :
    (moving dest : String) (db : Db FileTables)
    → IsReliable db
    → Answers (would_cycle moving dest) db
unfolding would_cycle
would_cycle-Answers moving dest db k =
    walk-Answers (suc (suc (length db.tables.folders))) moving [] (some dest) db k
      (omega (arith, unseen-length db.tables.folders))
