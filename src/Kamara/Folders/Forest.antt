-- ===== src/Kamara/Folders/Forest.antt =====
-- MoveFolder of folder.go keeps the folders a forest: from every folder its parents lead to a root.
use peristera.Prelude.{
  ℕ, suc, zero, ◌≡◌, refl, sym, ap, ◌∙◌, String, Bool, true, false, not, ◌||◌, Option, none, some,
  List, [], ◌∷◌, arith, str_eq, Bool-cases, inl, inr, Result, ok, err,
}
use peristera.Prelude.Exec.{
  Keeps, Keeps-bind, Keeps-pure, Keeps-raise, Keeps-lift, Triple, Triple-bind, Keeps-then,
}
use peristera.Pii.{Subject}
use peristera.Database.{in_tx}
use peristera.Database.Rules.{
  On, Leads, Leads-stmt, Leads-bind, Leads-pure, Keeps-Leads, Keeps-stmt,
}
use peristera.Database.Atomic.{in_tx-Outcome, begun}
use peristera.Conventions.Frame.{IsFrame, emit-Frame}
use peristera.Kamara.Blob.{BlobStore}
use peristera.Kamara.Chunk.{Sizes}
use peristera.Kamara.Crypto.{Primitives, Cipher}
use peristera.Kamara.Tables.{Folder, FileTables, file_tables, find_folder, has_folder, member}
use peristera.Kamara.Store.{Store}
use peristera.Kamara.FolderStore.{folder_moved, set_folder_parent, get_folder}
use peristera.Kamara.Files.{Authorizer, World, on_db, known}
use peristera.Kamara.Files.Counted.{
  InDb, on_db-Keeps, on_authz-Keeps, authorize_access-Keeps, annotate-Keeps,
}
use peristera.Kamara.Folders.{
  climb, walk, would_cycle, move_folder_rows, found_folder, clear_parent, set_parent, reparent,
  refuse_cycle, check_dest, move_checked, move_folder,
}
use peristera.Kamara.Folders.Rooted.{IsForest, Avoids, at_root, at_gap, past, Rooted-moved}

module _ (moving : String) (folders : List Folder) where
  -- The tables while the walk runs, and what its answer tells.
  abbrev Told : Option String → Bool → FileTables → Type 0
  Told cur cyclic t = (t.folders ≡ folders) × (cyclic ≡ false → Avoids moving folders cur)

  climb-Told :
      (id : String) (rest : Option String → Store Bool)
      → ((cur : Option String) → Leads (λ t. t.folders ≡ folders) (rest cur) (Told cur))
      → str_eq id moving ≡ false
      → (o : Option Folder)
      → Leads
          (λ t. (o ≡ find_folder id t.folders) × (t.folders ≡ folders))
          (climb rest o)
          (Told (some id))
  climb-Told id rest k ne none =
      Leads-pure _ _ false
        (λ t (e, same). (same, λ _. at_gap id ne (sym (e ∙ ap (find_folder id) same))))
  climb-Told id rest k ne (some f) = record {
    run = λ db b (e, same) q.
        let (same', told) = (k f.parent_id).run db b same q in
        (same', λ no_cycle. past id f ne (sym (e ∙ ap (find_folder id) same)) (told no_cycle));
  }

  walk-Told :
      (fuel : ℕ) (seen : List String) (cur : Option String)
      → Leads (λ t. t.folders ≡ folders) (walk fuel moving seen cur) (Told cur)
  unfolding walk get_folder
  walk-Told zero seen cur = record { run = λ db b same e. cc }
  walk-Told (suc fuel) seen none = Leads-pure _ _ false (λ t same. (same, λ _. at_root))
  walk-Told (suc fuel) seen (some id) = elim (Bool-cases (str_eq id moving || member id seen)) [
    | inl stop ↦ rw stop (Leads-pure _ _ true (λ t same. (same, λ q. cc)))
    | inr go ↦ rw go (
        Leads-bind (λ o t. (o ≡ find_folder id t.folders) × (t.folders ≡ folders)) _ _
          (Leads-stmt _ _ _ (λ t a same e. (cc, same)))
          (climb-Told id (walk fuel moving (id ∷ seen)) (walk-Told fuel (id ∷ seen))
            (ground arith)))
  ]

would_cycle-Told :
    (moving dest : String) (folders : List Folder)
    → Leads (λ t. t.folders ≡ folders) (would_cycle moving dest) (Told moving folders (some dest))
unfolding would_cycle
would_cycle-Told moving dest folders = record {
  run = λ db b same e. (walk-Told moving folders _ [] (some dest)).run db b same e;
}

-- A destination that a move may have.
abbrev Free : String → Option String → FileTables → Type 0
Free moving parent t = IsForest t × Avoids moving t.folders parent

folder_moved-IsForest :
    (id : String) (parent : Option String) (now : ℕ) (t : FileTables)
    → Free id parent t
    → IsForest (folder_moved id parent now t).1
unfolding folder_moved
folder_moved-IsForest id parent now t (forest, a) =
    elim (Bool-cases (has_folder parent t.folders || not (has_folder (some id) t.folders))) [
      | inl fine ↦ rw fine (record {
        rooted = λ cur. Rooted-moved id parent now t.folders a cur (forest.rooted cur);
      })
      | inr broken ↦ rw broken forest
    ]

IsForest-IsFrame : IsFrame file_tables IsForest
IsForest-IsFrame t c h = record { rooted = h.rooted }

move_folder_rows-IsForest :
    (caller : Subject) (id : String) (dest : Option String)
    → Leads (Free id dest) (move_folder_rows caller id dest) (λ _. IsForest)
unfolding move_folder_rows set_folder_parent
move_folder_rows-IsForest caller id dest =
    Leads-bind (λ _. Free id dest) _ _ (record { run = λ db n h e. h })
      (λ now.
        Leads-bind (λ _. IsForest) _ _
          (Leads-stmt _ _ _ (λ t a h e. folder_moved-IsForest id dest now t h))
          (λ _. Keeps-Leads IsForest _ (emit-Frame file_tables IsForest IsForest-IsFrame _ _ _)))

module _ (B : BlobStore) (prim : Primitives) (c : Cipher) (sz : Sizes) (az : Authorizer) where
  clear_parent-Keeps :
      (P : FileTables → Type 0) (folder : Option String) (child : String)
      → Keeps (InDb B prim c sz az P) (clear_parent B prim c sz az folder child)
  unfolding clear_parent
  clear_parent-Keeps P none child = Keeps-pure tt
  clear_parent-Keeps P (some folder) child =
      annotate-Keeps B prim c sz az P _ _ (on_authz-Keeps B prim c sz az P _)

  set_parent-Keeps :
      (P : FileTables → Type 0) (folder : Option String) (child : String)
      → Keeps (InDb B prim c sz az P) (set_parent B prim c sz az folder child)
  unfolding set_parent
  set_parent-Keeps P none child = Keeps-pure tt
  set_parent-Keeps P (some folder) child =
      annotate-Keeps B prim c sz az P _ _ (on_authz-Keeps B prim c sz az P _)

  pub found_folder-Keeps :
      (P : FileTables → Type 0) (id : String)
      → Keeps (InDb B prim c sz az P) (found_folder B prim c sz az id)
  unfolding found_folder get_folder
  found_folder-Keeps P id =
      Keeps-bind _ _ (on_db-Keeps B prim c sz az P _ (Keeps-stmt P _ (λ t h. h)))
        (λ o. Keeps-lift (known o))

  -- A transaction whose body leads from `P` to `Q`, where `P` gives `Q`.
  tx-Triple :
      {A : Type 0} (P Q : FileTables → Type 0) (m : Store A)
      → Leads P m (λ _. Q)
      → ((t : FileTables) → P t → Q t)
      → Triple (InDb B prim c sz az P) (on_db B prim c sz az (in_tx m)) (λ _. InDb B prim c sz az Q)
  unfolding on_db
  tx-Triple P Q m l weaken = record {
    run = λ w h. elim (in_tx-Outcome m w.db) [
      | inl (e, failed, same) ↦ rw same (weaken w.db.tables h)
      | inr (a, done, ran, same) ↦ rw same (l.run (begun w.db) a h ran)
    ];
  }

  move_checked-IsForest :
      (caller : Subject) (id : String) (dest : Option String)
      → Triple
          (InDb B prim c sz az (Free id dest))
          (move_checked B prim c sz az caller id dest)
          (λ _. InDb B prim c sz az IsForest)
  unfolding move_checked reparent
  move_checked-IsForest caller id dest =
      Keeps-then {Q = λ _. InDb B prim c sz az IsForest} _ _ (found_folder-Keeps (Free id dest) id)
        (λ f.
          Triple-bind (λ _. InDb B prim c sz az IsForest) {Q = λ _. InDb B prim c sz az IsForest} _
            _
            (tx-Triple (Free id dest) IsForest _ (move_folder_rows-IsForest caller id dest)
              (λ t h. h.0))
            (λ _. record {
              run =
                  (Keeps-bind _ _ (clear_parent-Keeps IsForest _ _)
                    (λ _. set_parent-Keeps IsForest _ _)).at;
            })
            (λ e w h. h))
        (λ e w h. h.0)

  climb-Keeps :
      (P : FileTables → Type 0) (rest : Option String → Store Bool)
      → ((cur : Option String) → Keeps (On P) (rest cur))
      → (o : Option Folder) → Keeps (On P) (climb rest o)
  climb-Keeps P rest k none = Keeps-pure false
  climb-Keeps P rest k (some f) = k f.parent_id

  -- The walk reads.
  walk-Keeps :
      (P : FileTables → Type 0) (fuel : ℕ) (moving : String) (seen : List String)
      (cur : Option String)
      → Keeps (On P) (walk fuel moving seen cur)
  unfolding walk get_folder
  walk-Keeps P zero moving seen cur = Keeps-raise _
  walk-Keeps P (suc fuel) moving seen none = Keeps-pure false
  walk-Keeps P (suc fuel) moving seen (some id) =
      elim (Bool-cases (str_eq id moving || member id seen)) [
        | inl stop ↦ rw stop (Keeps-pure true)
        | inr go ↦ rw go (
            Keeps-bind _ _ (Keeps-stmt P _ (λ t h. h))
              (climb-Keeps P (walk fuel moving (id ∷ seen)) (walk-Keeps P fuel moving (id ∷ seen))))
      ]

  would_cycle-Keeps :
      (P : FileTables → Type 0) (moving dest : String) → Keeps (On P) (would_cycle moving dest)
  unfolding would_cycle
  would_cycle-Keeps P moving dest = record {
    at = λ db h. (walk-Keeps P _ moving [] (some dest)).at db h;
  }

  -- After wouldCycle.
  abbrev Answered : String → String → Result Bool → World B prim c sz az → Type 0
  Answered id dest (ok b) w =
      IsForest w.db.tables × (b ≡ false → Avoids id w.db.tables.folders (some dest))
  Answered id dest (err e) w = IsForest w.db.tables

  would_cycle-Answered :
      (id dest : String)
      → Triple
          (InDb B prim c sz az IsForest)
          (on_db B prim c sz az (would_cycle id dest))
          (Answered id dest)
  unfolding on_db
  would_cycle-Answered id dest = record {
    run = λ w h. answer w h (would_cycle id dest w.db).0 refl;
  }
    where
      answer :
          (w : World B prim c sz az)
          → IsForest w.db.tables
          → (r : Result Bool) → (would_cycle id dest w.db).0 ≡ r
          → Answered id dest r (record w { db = (would_cycle id dest w.db).1 })
      answer w h (err e) q = (would_cycle-Keeps IsForest id dest).at w.db h
      answer w h (ok b) q =
          let (same, told) = (would_cycle-Told id dest w.db.tables.folders).run w.db b refl q in
          ((would_cycle-Keeps IsForest id dest).at w.db h, λ no_cycle. rw same (told no_cycle))

  abbrev CheckedDest : String → Option String → Result (Unit {0}) → World B prim c sz az → Type 0
  CheckedDest id dest (ok u) w = Free id dest w.db.tables
  CheckedDest id dest (err e) w = IsForest w.db.tables

  refuse_cycle-Free :
      (id dest : String) (b : Bool)
      → Triple
          (Answered id dest (ok b))
          (refuse_cycle B prim c sz az b)
          (CheckedDest id (some dest))
  refuse_cycle-Free id dest true = record { run = λ w h. h.0 }
  refuse_cycle-Free id dest false = record { run = λ w h. (h.0, h.1 refl) }

  check_dest-CheckedDest :
      (caller : Subject) (id : String) (dest : Option String)
      → Triple
          (InDb B prim c sz az IsForest)
          (check_dest B prim c sz az caller id dest)
          (CheckedDest id dest)
  unfolding check_dest
  check_dest-CheckedDest caller id none = record { run = λ w h. (h, at_root) }
  check_dest-CheckedDest caller id (some dest) =
      Keeps-then {Q = CheckedDest id (some dest)} _ _
        (authorize_access-Keeps B prim c sz az IsForest caller _)
        (λ _.
          Triple-bind (Answered id dest) {Q = CheckedDest id (some dest)} _ _
            (would_cycle-Answered id dest) (refuse_cycle-Free id dest) (λ e w h. h))
        (λ e w h. h)

  -- Whatever fails on the way, and whether it moves or refuses: MoveFolder of a world whose folders are a
  -- forest, where from every folder the parents lead to a root, leaves a forest.
  pub move_folder-IsForest :
      (caller : Subject) (id : String) (dest : Option String) (w : World B prim c sz az)
      → IsForest w.db.tables
      → IsForest (move_folder B prim c sz az caller id dest w).1.db.tables
  unfolding move_folder
  move_folder-IsForest caller id dest w forest =
      (Keeps-then {P = InDb B prim c sz az IsForest} {Q = λ _. InDb B prim c sz az IsForest} _ _
          (authorize_access-Keeps B prim c sz az IsForest caller _)
          (λ _.
            Triple-bind (CheckedDest id dest) {Q = λ _. InDb B prim c sz az IsForest} _ _
              (check_dest-CheckedDest caller id dest) (λ _. move_checked-IsForest caller id dest)
              (λ e v h. h))
          (λ e v h. h)).run
        w forest
