-- ===== src/Examples/Zip.antt =====
-- The names of a download's entries at one directory (kamara/internal/file/zip.go).
use peristera.Prelude.{◌≡◌, String, none, some, List, [], ◌∷◌, true, false, arith}
use peristera.Kamara.Tables.{FileObject}
use peristera.Kamara.Zip.{Names, siblings, ZipWalk, zip_tree}
use peristera.Kamara.Zip.Directory.{
  entry_names, AreEntries, entry_names-AreEntries, names_of, KeepsNames, siblings-KeepsNames,
}
use peristera.Kamara.Zip.Levels.{levels_enough}
use peristera.Examples.Base.{
  file, folder, store, plain_hashes, cipher, small_sizes, answering, ada, world,
}

-- The second note is numbered around the name that a later sibling has, and the folder's name is unsafe.
abbrev notes : List FileObject
notes =
    record (file "f1") { name = "note.txt" }
    ∷ record (file "f2") { name = "note.txt" }
    ∷ record (file "f3") { name = "note (2).txt" }
    ∷ record (file "f4") { name = "../x" }
    ∷ []

abbrev used_before : Names
used_before = record { used = "note.txt" ∷ []; pending = [] }

entry_names-AreEntries_example :
    (entries : List String) × (entry_names ("note.txt" ∷ "a" ∷ []) used_before ≡ some entries)
    × AreEntries used_before.used ("note.txt" ∷ "a" ∷ []) entries
entry_names-AreEntries_example = entry_names-AreEntries ("note.txt" ∷ "a" ∷ []) used_before

siblings-KeepsNames_example :
    (entries : List String) × (entry_names
        (names_of notes (folder "note.txt" none ∷ []))
        (siblings notes (folder "note.txt" none ∷ []))
      ≡ some entries)
    × KeepsNames [] (names_of notes (folder "note.txt" none ∷ [])) entries
siblings-KeepsNames_example = siblings-KeepsNames notes (folder "note.txt" none ∷ [])

-- The whole tree of the person, before the first entry.
abbrev whole_tree : ZipWalk store plain_hashes cipher small_sizes (answering true)
whole_tree = record {
  world = world true;
  seen = [];
  archive = record { entries = []; calls = 0; faults = λ n. none };
}

levels_enough_example :
    zip_tree store plain_hashes cipher small_sizes
      (answering true)
      5
      (λ a b. false)
      ada
      none
      ""
      whole_tree
    ≡ zip_tree store plain_hashes cipher small_sizes
        (answering true)
        4
        (λ a b. false)
        ada
        none
        ""
        whole_tree
levels_enough_example =
    levels_enough store plain_hashes cipher small_sizes (answering true) (λ a b. false) ada none ""
      5 whole_tree (omega arith)
