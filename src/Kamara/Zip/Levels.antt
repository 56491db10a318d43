-- ===== src/Kamara/Zip/Levels.antt =====
-- The levels of zipTree (kamara/internal/file/zip.go) are enough: it enters no folder twice.
use peristera.Prelude.{
  ℕ, zero, suc, ◌-◌, ◌≤◌, ◌≡◌, refl, sym, subst, String, false, Option, some, List, [], ◌∷◌, All,
  length, arith, Bool-cases, Option-cases, inl, inr, Result, ok, err,
}
use peristera.Prelude.Exec.{
  Exec, ◌>>=◌, continue, Keeps, Keeps-pure, Keeps-raise, Keeps-lift, Keeps-bind,
}
use peristera.Prelude.Returns.{Brings, Brings-Keeps}
use peristera.Pii.{Subject}
use peristera.Database.{stmt}
use peristera.Database.Rules.{Leads-stmt, Keeps-stmt}
use peristera.Kamara.Blob.{BlobStore}
use peristera.Kamara.Chunk.{Sizes}
use peristera.Kamara.Crypto.{Primitives, Cipher}
use peristera.Kamara.Engine.{ChunkRef}
use peristera.Kamara.Tables.{FileObject, Folder, FileTables, member}
use peristera.Kamara.Files.{Authorizer, on_db}
use peristera.Kamara.FolderTree.{
  Collation, order_by_name, folders_at, objects_in_folder, folders_in_parent,
}
use peristera.Kamara.Folders.Walk.{unseen, unseen_mono, unseen-found}
use peristera.Kamara.Listings.{manifest_of}
use peristera.Kamara.Zip.{
  Names, entry_name, named, ZipWalk, in_world, create_header, write_entry, zip_files, mark_seen,
  zip_folders, zip_tree,
}
use peristera.Kamara.Zip.Listed.{
  IsKnown, table-IsKnown, folders_at-All, order_by_name-All, unseen_at_most,
}

-- Code that does the same from every state with `P`.
record Agree {W A : Type 0} (P : W → Type 0) (m n : Exec W A) : Type 0 where
  same : (w : W) → P w → m w ≡ n w

module _ {W A C : Type 0} {P : W → Type 0} where
  Agree-bind :
      (R : A → W → Type 0) (m n : Exec W A) (f g : A → Exec W C)
      → Agree P m n
      → Brings P n R
      → ((a : A) → Agree (R a) (f a) (g a))
      → Agree P (m >>= f) (n >>= g)
  unfolding ◌>>=◌
  Agree-bind R m n f g agree brings next = record {
    same = λ w h. rw (agree.same w h) (go (n w).0 (n w).1 (λ a e. brings.run w a h e));
  }
    where
      go : (r : Result A) (v : W) → ((a : A) → r ≡ ok a → R a v) → continue r f v ≡ continue r g v
      go (ok a) v k = (next a).same v (k a refl)
      go (err e) v k = refl

module _ (B : BlobStore) (prim : Primitives) (c : Cipher) (sz : Sizes) (az : Authorizer)
    (t0 : FileTables) where
  -- The walk reads the tables, and has at most `n` folders still to see.
  Left : ℕ → ZipWalk B prim c sz az → Type 0
  Left n s = (s.world.db.tables ≡ t0) × (unseen s.seen t0.folders ≤ n)

  module _ (n : ℕ) where
    read-Keeps :
        {A : Type 0} (f : FileTables → Result A)
        → Keeps (Left n) (in_world B prim c sz az (on_db B prim c sz az (stmt (λ t. (f t, t)))))
    unfolding on_db Left
    read-Keeps f = record {
      at = λ s h. ((Keeps-stmt (λ t. t ≡ t0) (λ t. (f t, t)) (λ t k. k)).at s.world.db h.0, h.1);
    }

    create_header-Keeps : (path : String) → Keeps (Left n) (create_header B prim c sz az path)
    unfolding create_header Left
    create_header-Keeps path = record {
      at = λ s h. elim (Option-cases (s.archive.faults s.archive.calls)) [
        | inl fine ↦ rw (fine, create_header) h
        | inr (e, fault) ↦ rw (fault, create_header) h
      ];
    }

    write_entry-Keeps :
        (id : String) (refs : List ChunkRef) → Keeps (Left n) (write_entry B prim c sz az id refs)
    unfolding write_entry Left
    write_entry-Keeps id refs = record { at = λ s h. h }

    zip_files-Keeps :
        (prefix : String) (files : List FileObject) (names : Names)
        → Keeps (Left n) (zip_files B prim c sz az prefix files names)
    unfolding zip_files manifest_of
    zip_files-Keeps prefix [] names = Keeps-pure names
    zip_files-Keeps prefix (o ∷ files) names = Keeps-bind _ _ (Keeps-lift _) λ (entry, names').
        Keeps-bind _ _ (create_header-Keeps _) λ _. Keeps-bind _ _ (read-Keeps _) λ refs.
          Keeps-bind _ _ (write_entry-Keeps o.object_id refs)
            λ _. zip_files-Keeps prefix files names'

    mark_seen-Keeps : (id : String) → Keeps (Left n) (mark_seen B prim c sz az id)
    unfolding mark_seen Left
    mark_seen-Keeps id = record {
      at = λ s h. (h.0, omega (arith, h.1, unseen_mono id s.seen t0.folders));
    }

    module _ (inner : String → String → Exec (ZipWalk B prim c sz az) (Unit {0}))
        (keeps : (id dir : String) → Keeps (Left n) (inner id dir)) where
      zip_folders-Keeps :
          (prefix : String) (folders : List Folder) (names : Names)
          → Keeps (Left n) (zip_folders B prim c sz az inner prefix folders names)
      unfolding zip_folders
      zip_folders-Keeps prefix [] names = record { at = λ s h. h }
      zip_folders-Keeps prefix (f ∷ folders) names = record {
        at = λ s h. elim (Bool-cases (member f.folder_id s.seen)) [
          | inl again ↦ rw again ((zip_folders-Keeps prefix folders names).at s h)
          | inr new ↦ rw new (
              (Keeps-bind _ _ (mark_seen-Keeps f.folder_id) λ _.
                  Keeps-bind _ _ (Keeps-lift (named (entry_name names f.name))) λ (entry, names').
                    Keeps-bind _ _ (create_header-Keeps _) λ _.
                      Keeps-bind _ _ (keeps f.folder_id _)
                        λ _. zip_folders-Keeps prefix folders names').at
                s h)
        ];
      }

    zip_tree-Keeps :
        (fuel : ℕ) (before : Collation) (caller : Subject) (folder : Option String)
        (prefix : String)
        → Keeps (Left n) (zip_tree B prim c sz az fuel before caller folder prefix)
    unfolding zip_tree objects_in_folder folders_in_parent
    zip_tree-Keeps zero before caller folder prefix = Keeps-raise _
    zip_tree-Keeps (suc fuel) before caller folder prefix = Keeps-bind _ _ (read-Keeps _) λ files.
        Keeps-bind _ _ (read-Keeps _) λ folders.
          Keeps-bind _ _ (zip_files-Keeps prefix files _) λ names.
            zip_folders-Keeps _ (λ id dir. zip_tree-Keeps fuel before caller (some id) dir) prefix
              folders names

  refl-Agree :
      {A : Type 0} {P : ZipWalk B prim c sz az → Type 0} (m : Exec (ZipWalk B prim c sz az) A)
      → Agree P m m
  refl-Agree m = record { same = λ s h. refl }

  shallower : {n : ℕ} (m : ℕ) → n ≡ suc m → (s : ZipWalk B prim c sz az) → Left m s → Left n s
  unfolding Left
  shallower m deep s h = (h.0, omega (arith, h.1, deep))

  module _ (n : ℕ) (inner inner' : String → String → Exec (ZipWalk B prim c sz az) (Unit {0}))
      (agree : (m : ℕ)
        → n ≡ suc m
        → (id dir : String) → Agree (Left m) (inner id dir) (inner' id dir))
      (keeps : (m : ℕ) → n ≡ suc m → (id dir : String) → Keeps (Left m) (inner' id dir)) where
    -- A folder that is new has not all of the levels below it.
    IsNew : String → ZipWalk B prim c sz az → Type 0
    IsNew id s = Left n s × (member id s.seen ≡ false)

    seen-Brings :
        (f : Folder) (m : ℕ)
        → n ≡ suc m
        → IsKnown t0.folders f
        → Brings (IsNew f.folder_id) (mark_seen B prim c sz az f.folder_id) (λ _. Left m)
    unfolding mark_seen Left IsNew IsKnown
    seen-Brings f m deep known = record {
      run = λ s u h e. (
        h.0.0,
        omega (arith, unseen-found f.folder_id s.seen t0.folders known.0 known.1 h.1, h.0.1, deep),
      );
    }

    positive :
        (f : Folder) (s : ZipWalk B prim c sz az)
        → IsKnown t0.folders f
        → IsNew f.folder_id s
        → (m : ℕ) × (n ≡ suc m)
    unfolding Left IsNew IsKnown
    positive f s known h =
        let less = unseen-found f.folder_id s.seen t0.folders known.0 known.1 h.1 in
        (n - 1, omega (arith, less, h.0.1))

    zip_folders-Agree :
        (prefix : String) (folders : List Folder) (names : Names)
        → All (IsKnown t0.folders) folders
        → Agree
            (Left n)
            (zip_folders B prim c sz az inner prefix folders names)
            (zip_folders B prim c sz az inner' prefix folders names)
    unfolding zip_folders IsNew
    zip_folders-Agree prefix [] names known = record { same = λ s h. refl }
    zip_folders-Agree prefix (f ∷ folders) names known = record {
      same = λ s h. elim (Bool-cases (member f.folder_id s.seen)) [
        | inl again ↦ rw again ((zip_folders-Agree prefix folders names known.1).same s h)
        | inr new ↦
            let (m, deep) = positive f s known.0 (h, new) in
            rw new (
              (Agree-bind (λ _. Left m) _ _ _ _ (refl-Agree _) (seen-Brings f m deep known.0)
                  λ _.
                    Agree-bind (λ _. Left m) _ _ _ _ (refl-Agree _) (Brings-Keeps _ (Keeps-lift _))
                      λ (entry, names').
                        Agree-bind (λ _. Left m) _ _ _ _ (refl-Agree _)
                          (Brings-Keeps _ (create_header-Keeps m _))
                          λ _.
                            Agree-bind (λ _. Left n) _ _ _ _ (agree m deep f.folder_id _)
                              (record {
                                run = λ v a k e.
                                    shallower m deep _ ((keeps m deep f.folder_id _).at v k);
                              })
                              λ _. zip_folders-Agree prefix folders names' known.1).same
                s (h, new))
      ];
    }

  listed-Brings :
      (n : ℕ) (before : Collation) (caller : Subject) (folder : Option String)
      → Brings
          (Left n)
          (in_world B prim c sz az (on_db B prim c sz az (folders_in_parent before caller folder)))
          (λ folders s. Left n s × All (IsKnown t0.folders) folders)
  unfolding folders_in_parent on_db Left
  listed-Brings n before caller folder = record {
    run = λ s folders h e.
        let read =
          (Leads-stmt (λ t. t ≡ t0) (λ folders t. (t ≡ t0) × All (IsKnown t0.folders) folders)
              (λ t. (
                ok (
                    order_by_name (λ (f : Folder). f.name) before
                      (folders_at caller folder t.folders)),
                t,
              ))
              (λ t fs same q. (same, known t fs same q))).run
            s.world.db folders h.0 e in
        ((read.0, h.1), read.1);
  }
    where
      known :
          (t : FileTables) (fs : List Folder)
          → t ≡ t0
          → ok (order_by_name (λ (f : Folder). f.name) before (folders_at caller folder t.folders))
            ≡ ok fs
          → All (IsKnown t0.folders) fs
      known t fs same q =
          let row : order_by_name (λ (f : Folder). f.name) before
                (folders_at caller folder t.folders)
              ≡ fs =
            cc in
          subst (All (IsKnown t0.folders)) row (
            order_by_name-All _ _ before _ (
              folders_at-All _ caller folder _ (
                subst (λ (x : FileTables). All (IsKnown t0.folders) x.folders) (sym same)
                  (table-IsKnown t0.folders))))

  -- One level, from the levels below it.
  level-Agree :
      (n b : ℕ) (before : Collation) (caller : Subject)
      → ((m : ℕ)
          → n ≡ suc m
          → (folder : Option String) (prefix : String)
          → Agree
              (Left m)
              (zip_tree B prim c sz az b before caller folder prefix)
              (zip_tree B prim c sz az n before caller folder prefix))
      → (folder : Option String) (prefix : String)
      → Agree
          (Left n)
          (zip_tree B prim c sz az (suc b) before caller folder prefix)
          (zip_tree B prim c sz az (suc n) before caller folder prefix)
  unfolding zip_tree objects_in_folder
  level-Agree n b before caller agree folder prefix =
      Agree-bind (λ _. Left n) _ _ _ _ (refl-Agree _) (Brings-Keeps _ (read-Keeps n _))
        λ files.
          Agree-bind (λ folders s. Left n s × All (IsKnown t0.folders) folders) _ _ _ _
            (refl-Agree _) (listed-Brings n before caller folder)
            λ folders.
              Agree-bind (λ _ s. Left n s × All (IsKnown t0.folders) folders) _ _ _ _ (refl-Agree _)
                (record { run = λ s names h e. ((zip_files-Keeps n prefix files _).at s h.0, h.1) })
                λ names. record {
                  same = λ s h.
                      (zip_folders-Agree n
                          (λ id dir. zip_tree B prim c sz az b before caller (some id) dir)
                          (λ id dir. zip_tree B prim c sz az n before caller (some id) dir)
                          (λ m deep id dir. agree m deep (some id) dir)
                          (λ m deep id dir. zip_tree-Keeps m n before caller (some id) dir) prefix
                          folders names h.1).same
                        s h.0;
                }

  zip_tree-Agree :
      (n b : ℕ) (before : Collation) (caller : Subject)
      → n ≤ b
      → (folder : Option String) (prefix : String)
      → Agree
          (Left n)
          (zip_tree B prim c sz az (suc b) before caller folder prefix)
          (zip_tree B prim c sz az (suc n) before caller folder prefix)
  zip_tree-Agree zero b before caller enough =
      level-Agree zero b before caller (λ m deep. absurd (omega (arith, deep)))
  zip_tree-Agree (suc n) zero before caller enough = absurd (omega (arith, enough))
  zip_tree-Agree (suc n) (suc b) before caller enough =
      level-Agree (suc n) (suc b) before caller (λ m deep folder prefix.
        let below : n ≡ m = omega (arith, deep) in
        subst
          (λ x.
            Agree (Left x) (zip_tree B prim c sz az (suc b) before caller folder prefix)
              (zip_tree B prim c sz az (suc n) before caller folder prefix))
          below (zip_tree-Agree n b before caller (omega (arith, enough)) folder prefix))

-- More levels than the folders of the database and two change nothing of what zipTree does, whatever the
-- folders, cyclic ones included.
pub levels_enough :
    (B : BlobStore) (prim : Primitives) (c : Cipher) (sz : Sizes) (az : Authorizer)
    (before : Collation) (caller : Subject) (folder : Option String) (prefix : String) (levels : ℕ)
    (s : ZipWalk B prim c sz az)
    → suc (suc (length s.world.db.tables.folders)) ≤ levels
    → zip_tree B prim c sz az levels before caller folder prefix s
      ≡ zip_tree B prim c sz az
          (suc (suc (length s.world.db.tables.folders)))
          before
          caller
          folder
          prefix
          s
unfolding Left
levels_enough B prim c sz az before caller folder prefix zero s more = absurd (omega (arith, more))
levels_enough B prim c sz az before caller folder prefix (suc levels) s more =
    (zip_tree-Agree B prim c sz az s.world.db.tables (suc (length s.world.db.tables.folders)) levels
        before caller (omega (arith, more)) folder prefix).same
      s (refl, omega (arith, unseen_at_most s.seen s.world.db.tables.folders))
