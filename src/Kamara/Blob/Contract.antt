-- ===== src/Kamara/Blob/Contract.antt =====
-- The file system's store keeps the contract of `blob.Store`.
use peristera.Prelude.{
  ℕ, ◌+◌, String, ◌≡◌, refl, sym, ap, ◌∙◌, ◌⊎◌, inl, inr, ◌↔◌, Bool, true, false, Option, none,
  some, List, [], ◌∷◌, arith, eq_iff, if◌then◌else◌, Result, ok, err, Error, Option-cases,
}
use peristera.Prelude.Exec.{pure, ◌>>=◌, Exec, Keeps, keeps_rules, Triple, Triple-bind, Keeps-then}
use peristera.Kamara.Blob.Fs.{
  FilePath, Disk, same_path, lookup, without, syscall, path, present, stat, other_call, rename,
  fsync, sync_dir, has, store_new, put, found, open_file, get, remove, delete,
}

pub same_path_iff : (p q : FilePath) → (same_path p q ≡ true) ↔ (p ≡ q)
unfolding same_path
same_path_iff p q = ground (
  arith,
  eq_iff p.root q.root,
  eq_iff p.shard1 q.shard1,
  eq_iff p.shard2 q.shard2,
  eq_iff p.name q.name,
)

pub lookup-without :
    (p q : FilePath) (files : List (FilePath × List ℕ))
    → lookup q (without p files) ≡ (if same_path q p then none else lookup q files)
unfolding lookup without
lookup-without p q [] = ground arith
lookup-without p q ((r, bytes) ∷ files) =
    ground
      (arith, lookup-without p q files, same_path_iff p r, same_path_iff q r, same_path_iff q p)

-- A system call does its work or fails, and counts in any case.
pub syscall_cases :
    {A : Type 0} (M : Result A × Disk → Type 0) (f : Exec Disk A) (d : Disk)
    → M (f (record d { calls = d.calls + 1 }))
    → ((e : Error) → M (err e, record d { calls = d.calls + 1 }))
    → M (syscall f d)
unfolding syscall
syscall_cases M f d done failed = elim (Option-cases (d.faults d.calls)) [
  | inl e ↦ rw (e, syscall) done
  | inr (x, e) ↦ rw (e, syscall) (failed x)
]

module _ (F : List (FilePath × List ℕ)) where
  -- The files are `F`.
  abbrev pub Files : Disk → Type 0
  Files d = d.files ≡ F

  pub other_call-Files : Keeps Files other_call
  unfolding other_call syscall
  other_call-Files = record { at = λ d h. ground (arith, h) }

  pub stat-Files :
      (p : FilePath)
      → Triple Files (stat p) (λ r d. Files d × ((b : Bool) → r ≡ ok b → b ≡ present (lookup p F)))
  unfolding stat syscall
  stat-Files p = record { run = λ d h. (ground (arith, h), λ b e. ground (arith, h)) }

  fsync-Files : Keeps Files fsync
  unfolding fsync
  fsync-Files = record { at = λ d h. other_call-Files.at d h }

  sync_dir-Files : Keeps Files sync_dir
  unfolding sync_dir
  sync_dir-Files = search (keeps_rules, other_call-Files, fsync-Files)

module _ (F : List (FilePath × List ℕ)) (p : FilePath) (bytes : List ℕ) where
  -- The files with the new blob.
  abbrev Stored : Disk → Type 0
  Stored d = d.files ≡ (p, bytes) ∷ without p F

  abbrev Renamed : Result (Unit {0}) → Disk → Type 0
  Renamed (ok u) d = Stored d
  Renamed (err e) d = Files F d

  rename-Renamed : Triple (Files F) (rename p bytes) Renamed
  unfolding rename
  rename-Renamed = record {
    run = λ d h.
        syscall_cases (λ r. Renamed r.0 r.1) _ d (ap (λ files. (p, bytes) ∷ without p files) h)
          (λ e. h);
  }

  abbrev StoreDone : Result (Unit {0}) → Disk → Type 0
  StoreDone (ok u) d = Stored d
  StoreDone (err e) d = Files F d ⊎ Stored d

  synced : (r : Result (Unit {0})) (d : Disk) → Stored d → StoreDone r d
  synced (ok u) d h = h
  synced (err e) d h = inr h

  sync_dir-StoreDone : Triple Stored sync_dir StoreDone
  sync_dir-StoreDone = record {
    run = λ d h.
        synced (sync_dir d).0 (sync_dir d).1 ((sync_dir-Files ((p, bytes) ∷ without p F)).at d h);
  }

  store_new-StoreDone : Triple (Files F) (store_new p bytes) StoreDone
  unfolding store_new
  store_new-StoreDone = after (λ _. after (λ _. after (λ _. after (λ _. after (λ _.
      Triple-bind Renamed (rename p bytes) (λ _. sync_dir) rename-Renamed (λ _. sync_dir-StoreDone)
        (λ e d h. inl h))))))
    where
      after :
          {f : Unit {0} → Exec Disk (Unit {0})}
          → ((u : Unit {0}) → Triple (Files F) (f u) StoreDone)
          → Triple (Files F) (other_call >>= f) StoreDone
      after {f} k = Keeps-then other_call f (other_call-Files F) k (λ e d h. inl h)

abbrev pub PutDone :
    List (FilePath × List ℕ) → FilePath → List ℕ → Result (Unit {0}) → Disk → Type 0
PutDone F p bytes r d =
    ((d.files ≡ F) × (r ≡ ok tt → present (lookup p F) ≡ true))
    ⊎ ((lookup p F ≡ none) × (d.files ≡ (p, bytes) ∷ without p F))

StoreDone→PutDone :
    (F : List (FilePath × List ℕ)) (p : FilePath) (bytes : List ℕ) (r : Result (Unit {0}))
    (d : Disk)
    → lookup p F ≡ none
    → StoreDone F p bytes r d
    → PutDone F p bytes r d
StoreDone→PutDone F p bytes (ok u) d e h = inr (e, h)
StoreDone→PutDone F p bytes (err x) d e (inl h) = inl (h, λ q. cc)
StoreDone→PutDone F p bytes (err x) d e (inr h) = inr (e, h)

module _ (root key : String) (p : FilePath) (valid : path root key ≡ ok p) where
  pub has-stat : has root key ≡ stat p
  unfolding has ◌>>=◌
  has-stat = rw valid

  put-stat :
      (bytes : List ℕ)
      → put root key bytes ≡ (stat p >>= λ stored. if stored then pure tt else store_new p bytes)
  unfolding put ◌>>=◌
  put-stat bytes = rw (has-stat, valid)

  pub get-open_file : get root key ≡ open_file p
  unfolding get ◌>>=◌
  get-open_file = rw valid

  pub delete-remove : delete root key ≡ remove p
  unfolding delete ◌>>=◌
  delete-remove = rw valid

  pub put-PutDone :
      (F : List (FilePath × List ℕ)) (bytes : List ℕ)
      → Triple (Files F) (put root key bytes) (PutDone F p bytes)
  put-PutDone F bytes = rw (put-stat bytes) (
      Triple-bind (λ r d. Files F d × ((b : Bool) → r ≡ ok b → b ≡ present (lookup p F))) (stat p) _
        (stat-Files F p) after (λ e d h. inl (h.0, λ q. cc)))
    where
      after :
          (stored : Bool)
          → Triple
              (λ d. Files F d × ((b : Bool) → ok stored ≡ ok b → b ≡ present (lookup p F)))
              (if stored then pure tt else store_new p bytes)
              (PutDone F p bytes)
      after true = record { run = λ d h. inl (h.0, λ _. sym (h.1 true refl)) }
      after false = record {
        run = λ d h.
            StoreDone→PutDone F p bytes (store_new p bytes d).0 (store_new p bytes d).1
              (ground (arith, h.1 false refl)) ((store_new-StoreDone F p bytes).run d h.0);
      }

found-Files :
    (F : List (FilePath × List ℕ)) (o : Option (List ℕ)) (d : Disk)
    → Files F d
    → Files F (found o d).1 × ((bytes : List ℕ) → (found o d).0 ≡ ok bytes → o ≡ some bytes)
unfolding found
found-Files F none d h = (h, λ b q. cc)
found-Files F (some bytes) d h = (h, λ b q. cc)

pub open_file-Files :
    (F : List (FilePath × List ℕ)) (p : FilePath)
    → Triple
        (Files F)
        (open_file p)
        (λ r d. Files F d × ((bytes : List ℕ) → r ≡ ok bytes → lookup p F ≡ some bytes))
unfolding open_file
open_file-Files F p = record {
  run = λ d h.
      syscall_cases
        (λ r. Files F r.1 × ((bytes : List ℕ) → r.0 ≡ ok bytes → lookup p F ≡ some bytes)) _ d
        (let read = found-Files F (lookup p d.files) (record d { calls = d.calls + 1 }) h in
          (read.0, λ bytes q. sym (ap (lookup p) h) ∙ read.1 bytes q))
        (λ e. (h, λ b q. cc));
}

-- What `Remove` leaves on the disk.
abbrev pub Removed : List (FilePath × List ℕ) → FilePath → Result (Unit {0}) → Disk → Type 0
Removed F p (ok u) d = d.files ≡ without p F
Removed F p (err e) d = d.files ≡ F

pub remove-Removed :
    (F : List (FilePath × List ℕ)) (p : FilePath) → Triple (Files F) (remove p) (Removed F p)
unfolding remove
remove-Removed F p = record {
  run = λ d h. syscall_cases (λ r. Removed F p r.0 r.1) _ d (ap (without p) h) (λ e. h);
}
