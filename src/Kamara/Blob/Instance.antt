-- ===== src/Kamara/Blob/Instance.antt =====
-- The file system's store as an instance of the interface `blob.Store`.
use peristera.Prelude.{
  ℕ, String, ◌≡◌, ◌≢◌, refl, sym, ap, subst, ◌∙◌, inl, inr, Bool, true, false, Option, none, some,
  List, ◌∷◌, arith, if◌then◌else◌, Result, ok, err, Bool-cases,
}
use peristera.Kamara.Blob.Fs.{
  FilePath, Disk, same_path, lookup, without, path, present, open_file, remove, has, put, get,
  delete, stat,
}
use peristera.Kamara.Blob.Contract.{
  same_path_iff, lookup-without, stat-Files, PutDone, has-stat, put-PutDone, get-open_file,
  delete-remove, open_file-Files, Removed, remove-Removed,
}
use peristera.Kamara.Blob.{BlobStore, Written, is_some}

path-name : (root key : String) (p : FilePath) → path root key ≡ ok p → p.name ≡ key
unfolding path
path-name root key p h = ground arith

lookup-stored :
    (p q : FilePath) (bytes : List ℕ) (files : List (FilePath × List ℕ))
    → lookup q ((p, bytes) ∷ without p files)
      ≡ (if same_path q p then some bytes else lookup q files)
unfolding lookup
lookup-stored p q bytes files = ground (arith, lookup-without p q files)

present-eq-is_some : (o : Option (List ℕ)) → present o ≡ is_some o
present-eq-is_some none = refl
present-eq-is_some (some bytes) = refl

abbrev pub at_path : Result FilePath → List (FilePath × List ℕ) → Option (List ℕ)
at_path (ok p) files = lookup p files
at_path (err e) files = none

module _ (root : String) where
  -- The blob under a key.
  abbrev pub contents : Disk → String → Option (List ℕ)
  contents d key = at_path (path root key) d.files

  abbrev pub IsKey : String → Type 0
  IsKey key = (p : FilePath) × (path root key ≡ ok p)

  contents-Files : (d d' : Disk) (j : String) → d'.files ≡ d.files → contents d' j ≡ contents d j
  contents-Files d d' j e = ap (at_path (path root j)) e

  contents-path :
      (d : Disk) (key : String) (p : FilePath)
      → path root key ≡ ok p
      → contents d key ≡ lookup p d.files
  contents-path d key p valid = ap (λ r. at_path r d.files) valid

  other_path :
      (key j : String) (p q : FilePath)
      → path root key ≡ ok p
      → path root j ≡ ok q
      → j ≢ key
      → same_path q p ≡ false
  other_path key j p q vp vq ne = elim (Bool-cases (same_path q p)) [
    | inl e ↦ absurd (
        ne (
          sym (path-name root j q vq)
          ∙ ap (λ (x : FilePath). x.name) ((same_path_iff q p).0 e)
          ∙ path-name root key p vp))
    | inr e ↦ e
  ]

  pub has_keeps-fs :
      (key j : String) (d : Disk) → IsKey key → contents (has root key d).1 j ≡ contents d j
  has_keeps-fs key j d (p, valid) =
      rw (has-stat root key p valid)
        (contents-Files d (stat p d).1 j ((stat-Files d.files p).run d refl).0)

  pub has_ok-fs :
      (key : String) (d : Disk) (b : Bool)
      → IsKey key
      → (has root key d).0 ≡ ok b
      → b ≡ is_some (contents d key)
  has_ok-fs key d b (p, valid) h =
      ((stat-Files d.files p).run d refl).1 b
        (subst (λ m. (m d).0 ≡ ok b) (has-stat root key p valid) h)
      ∙ present-eq-is_some (lookup p d.files)
      ∙ ap is_some (sym (contents-path d key p valid))

  pub get_keeps-fs :
      (key j : String) (d : Disk) → IsKey key → contents (get root key d).1 j ≡ contents d j
  get_keeps-fs key j d (p, valid) =
      rw (get-open_file root key p valid)
        (contents-Files d (open_file p d).1 j ((open_file-Files d.files p).run d refl).0)

  pub get_ok-fs :
      (key : String) (d : Disk) (bytes : List ℕ)
      → IsKey key
      → (get root key d).0 ≡ ok bytes
      → contents d key ≡ some bytes
  get_ok-fs key d bytes (p, valid) h =
      contents-path d key p valid
      ∙ ((open_file-Files d.files p).run d refl).1 bytes
          (subst (λ m. (m d).0 ≡ ok bytes) (get-open_file root key p valid) h)

  stored-Written :
      (key j : String) (p : FilePath) (bytes : List ℕ) (files files' : List (FilePath × List ℕ))
      (r : Result FilePath)
      → path root key ≡ ok p
      → path root j ≡ r
      → lookup p files ≡ none
      → files' ≡ (p, bytes) ∷ without p files
      → Written key bytes j (at_path r files) (at_path r files')
  stored-Written key j p bytes files files' (err e) vp vj missing stored = inl refl
  stored-Written key j p bytes files files' (ok q) vp vj missing stored =
      elim (Bool-cases (same_path q p)) [
        | inl same ↦
            let e : q ≡ p = (same_path_iff q p).0 same in
            inr (
              sym (path-name root j q vj)
                  ∙ ap (λ (x : FilePath). x.name) e
                  ∙ path-name root key p vp,
              rw (e) missing,
              rw stored (rw (lookup-stored p q bytes files) (rw same)),
            )
        | inr other ↦ inl (rw stored (rw (lookup-stored p q bytes files) (rw other)))
      ]

  PutDone-Written :
      (key j : String) (p : FilePath) (bytes : List ℕ) (d d' : Disk) (r : Result (Unit {0}))
      → path root key ≡ ok p
      → PutDone d.files p bytes r d'
      → Written key bytes j (contents d j) (contents d' j)
  PutDone-Written key j p bytes d d' r valid (inl same) = inl (contents-Files d d' j same.0)
  PutDone-Written key j p bytes d d' r valid (inr (missing, stored)) =
      stored-Written key j p bytes d.files d'.files (path root j) valid refl missing stored

  pub put_writes-fs :
      (key j : String) (bytes : List ℕ) (d : Disk)
      → IsKey key
      → Written key bytes j (contents d j) (contents (put root key bytes d).1 j)
  put_writes-fs key j bytes d (p, valid) =
      PutDone-Written key j p bytes d (put root key bytes d).1 (put root key bytes d).0 valid
        ((put-PutDone root key p valid d.files bytes).run d refl)

  pub put_ok-fs :
      (key : String) (bytes : List ℕ) (d : Disk)
      → IsKey key
      → (put root key bytes d).0 ≡ ok tt
      → is_some (contents (put root key bytes d).1 key) ≡ true
  put_ok-fs key bytes d (p, valid) h =
      ap is_some (contents-path (put root key bytes d).1 key p valid)
      ∙ elim ((put-PutDone root key p valid d.files bytes).run d refl) [
        | inl same ↦
            sym (present-eq-is_some _) ∙ ap (λ files. present (lookup p files)) same.0 ∙ same.1 h
        | inr (missing, stored) ↦
            ap (λ files. is_some (lookup p files)) stored
            ∙ ap is_some (lookup-stored p p bytes d.files)
            ∙ rw ((same_path_iff p p).1 refl)
      ]

  Removed-other :
      (p : FilePath) (key j : String) (d d' : Disk) (r : Result (Unit {0})) (q : Result FilePath)
      → path root key ≡ ok p
      → path root j ≡ q
      → j ≢ key
      → Removed d.files p r d'
      → at_path q d'.files ≡ at_path q d.files
  Removed-other p key j d d' (err x) q vp vj ne h = ap (at_path q) h
  Removed-other p key j d d' (ok u) (err e) vp vj ne h = refl
  Removed-other p key j d d' (ok u) (ok q) vp vj ne h =
      ap (lookup q) h ∙ lookup-without p q d.files ∙ rw (other_path key j p q vp vj ne)

  pub delete_other-fs :
      (key j : String) (d : Disk)
      → IsKey key
      → j ≢ key
      → contents (delete root key d).1 j ≡ contents d j
  delete_other-fs key j d (p, valid) ne = rw (delete-remove root key p valid) (
      Removed-other p key j d (remove p d).1 (remove p d).0 (path root j) valid refl ne
        ((remove-Removed d.files p).run d refl))

  Removed-gone :
      (p : FilePath) (d d' : Disk) (r : Result (Unit {0}))
      → r ≡ ok tt
      → Removed d.files p r d'
      → lookup p d'.files ≡ none
  Removed-gone p d d' (err x) e h = cc
  Removed-gone p d d' (ok u) e h =
      ap (lookup p) h ∙ lookup-without p p d.files ∙ rw ((same_path_iff p p).1 refl)

  pub delete_ok-fs :
      (key : String) (d : Disk)
      → IsKey key
      → (delete root key d).0 ≡ ok tt
      → contents (delete root key d).1 key ≡ none
  delete_ok-fs key d (p, valid) h =
      contents-path (delete root key d).1 key p valid
      ∙ subst (λ m. (m d).0 ≡ ok tt → lookup p (m d).1.files ≡ none)
          (sym (delete-remove root key p valid))
          (λ e.
            Removed-gone p d (remove p d).1 (remove p d).0 e
              ((remove-Removed d.files p).run d refl))
          h

  -- The file system implements the interface.
  abbrev pub fs_store : BlobStore
  fs_store = record {
    State = Disk;
    contents = contents;
    IsKey = IsKey;
    has = has root;
    put = put root;
    get = get root;
    delete = delete root;
    has_keeps = has_keeps-fs;
    has_ok = has_ok-fs;
    get_keeps = get_keeps-fs;
    get_ok = get_ok-fs;
    put_writes = put_writes-fs;
    put_ok = put_ok-fs;
    delete_other = delete_other-fs;
    delete_ok = delete_ok-fs;
  }
