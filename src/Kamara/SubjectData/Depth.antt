-- ===== src/Kamara/SubjectData/Depth.antt =====
-- The rounds of deepestFirst (kamara/internal/file/subject_data.go) are enough.
use peristera.Prelude.{
  ℕ, suc, zero, ◌+◌, ◌≤◌, ◌≡◌, refl, sym, ap, ◌∙◌, String, true, Option, none, some, List, length,
  [], ◌∷◌, [], ◌∷◌, arith, Bool-cases, Option-cases, inl, inr,
}
use peristera.Kamara.Tables.{Folder, find_folder, member}
use peristera.Kamara.Folders.Walk.{unseen, unseen-found, unseen_mono, unseen-length}
use peristera.Kamara.SubjectData.{depth_from, depth}

depth_from-none :
    (folders : List Folder) (n : ℕ) (seen : List String) → depth_from folders n seen none ≡ 0
unfolding depth_from
depth_from-none folders zero seen = refl
depth_from-none folders (suc n) seen = refl

depth_from-seen :
    (folders : List Folder) (n : ℕ) (seen : List String) (id : String)
    → member id seen ≡ true
    → depth_from folders n seen (some id) ≡ 0
unfolding depth_from
depth_from-seen folders zero seen id m = refl
depth_from-seen folders (suc n) seen id m = rw m refl

depth_from-lost :
    (folders : List Folder) (n : ℕ) (seen : List String) (id : String)
    → find_folder id folders ≡ none
    → depth_from folders n seen (some id) ≡ 0
unfolding depth_from
depth_from-lost folders zero seen id e = refl
depth_from-lost folders (suc n) seen id e = elim (Bool-cases (member id seen)) [
  | inl m ↦ rw m refl
  | inr m ↦ rw (m, e) refl
]

depth_from-enough :
    (folders : List Folder) (n more : ℕ) (seen : List String) (cur : Option String)
    → unseen seen folders ≤ n
    → depth_from folders (n + more) seen cur ≡ depth_from folders n seen cur
unfolding depth_from
depth_from-enough folders n more seen none h =
    depth_from-none folders (n + more) seen ∙ sym (depth_from-none folders n seen)
depth_from-enough folders zero more seen (some id) h = elim (Bool-cases (member id seen)) [
  | inl m ↦ depth_from-seen folders (0 + more) seen id m
  | inr m ↦ elim (Option-cases (find_folder id folders)) [
    | inl e ↦ depth_from-lost folders (0 + more) seen id e
    | inr (p, e) ↦ absurd (omega (arith, unseen-found id seen folders p e m))
  ]
]
depth_from-enough folders (suc n) more seen (some id) h = elim (Bool-cases (member id seen)) [
  | inl m ↦ rw m (depth_from-seen folders (suc n + more) seen id m)
  | inr m ↦ elim (Option-cases (find_folder id folders)) [
    | inl e ↦ rw (m, e) (depth_from-lost folders (suc n + more) seen id e)
    | inr (p, e) ↦
        let more_rounds : suc n + more ≡ suc (n + more) = omega arith in
        rw (more_rounds, m, e)
          (ap suc (
            depth_from-enough folders n more (id ∷ seen) p.parent_id
              (omega (arith, unseen-found id seen folders p e m))))
  ]
]

-- More rounds than there are folders find no other depth.
depth-enough :
    (folders : List Folder) (f : Folder) (more : ℕ)
    → depth_from folders (length folders + more) (f.folder_id ∷ []) f.parent_id ≡ depth folders f
unfolding depth
depth-enough folders f more =
    depth_from-enough folders (length folders) more (f.folder_id ∷ []) f.parent_id
      (omega (arith, unseen_mono f.folder_id [] folders, unseen-length folders))
