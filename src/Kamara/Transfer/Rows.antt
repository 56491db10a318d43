-- ===== src/Kamara/Transfer/Rows.antt =====
-- What a Download (kamara/internal/file/file.go) reads of the tables, and that Reassemble does not depend on
-- the sizes that a manifest names.
use peristera.Prelude.{
  ◌≡◌, refl, String, none, List, [], ◌∷◌, Option-cases, inl, inr, ok, err, Error,
}
use peristera.Database.{Db, stmt}
use peristera.Kamara.Blob.{BlobStore}
use peristera.Kamara.Crypto.{Primitives, Cipher}
use peristera.Kamara.Engine.{ChunkRef, reassemble, after_get}
use peristera.Kamara.Tables.{FileTables}
use peristera.Kamara.Listings.{manifest_in, manifest_of, latest_of}
use peristera.Kamara.Listings.Rows.{hashes_in}

-- ManifestOf without an error reads the tables, and no more.
pub manifest_of-read :
    (id : String) (db : Db FileTables) (refs : List ChunkRef)
    → (manifest_of id db).0 ≡ ok refs
    → ((manifest_of id db).1.tables ≡ db.tables)
      × (refs ≡ manifest_in db.tables (latest_of id db.tables.versions))
unfolding manifest_of stmt
manifest_of-read id db refs e = elim (Option-cases (db.faults db.calls)) [
  | inl fine ↦ rw (fine, stmt) (refl, of_ok _ refs (rw (fine, stmt) at e))
  | inr (x, fault) ↦ not_ok refs (rw (fault, stmt) at e)
]
  where
    of_ok : (a b : List ChunkRef) → ok a ≡ ok b → b ≡ a
    of_ok a b q = cc

    not_ok : {C : Type 0} {x : Error} (b : List ChunkRef) → err x ≡ ok b → C
    not_ok b q = absurd (cc)

pub manifest_of-fine :
    (id : String) (db : Db FileTables)
    → db.faults db.calls ≡ none
    → (manifest_of id db).0 ≡ ok (manifest_in db.tables (latest_of id db.tables.versions))
unfolding manifest_of stmt
manifest_of-fine id db fine = rw (fine, stmt) refl

module _ (B : BlobStore) (prim : Primitives) (c : Cipher) where
  -- Reassemble does not depend on the sizes that a manifest names.
  pub reassemble-hashes :
      (xs ys : List ChunkRef)
      → hashes_in xs ≡ hashes_in ys
      → reassemble B prim c xs ≡ reassemble B prim c ys
  unfolding reassemble
  reassemble-hashes [] [] e = refl
  reassemble-hashes [] (y ∷ ys) e = absurd (cc)
  reassemble-hashes (x ∷ xs) [] e = absurd (cc)
  reassemble-hashes (x ∷ xs) (y ∷ ys) e =
      let tail = reassemble-hashes xs ys (cc) in
      let head : x.hash ≡ y.hash = cc in
      λ i s w. after_get B prim c (tail i) (head i) w (B.get (head i) s)
