-- ===== src/Kamara/Transfer.antt =====
-- Upload and then Download (kamara/internal/file/file.go), through the engine, the blob store and the tables
-- of kamara/internal/store.
pub mod Rows
pub mod Stored
use peristera.Prelude.{
  ℕ, ◌≤◌, ◌≡◌, refl, sym, ap, subst, ◌∙◌, String, Bool, true, false, Option, none, some, List, [],
  ◌∷◌, ◌++◌, concat, All, str_eq, arith, Bool-cases, Option-cases, not, inl, inr, Result, ok, err,
  Error, wrapped, forbidden,
}
use peristera.Prelude.Exec.{◌>>=◌, Keeps, Keeps-pure, Keeps-raise, Keeps-bind}
use peristera.Prelude.Returns.{Brings, Brings-pure, Brings-Keeps, Brings-bind}
use peristera.Pii.{Subject}
use peristera.Database.{Db, stmt, fresh_id, in_tx}
use peristera.Database.Rules.{Leads, Leads-stmt, Leads-bind, Keeps-Leads}
use peristera.Database.Atomic.{Leads-in_tx}
use peristera.Conventions.Frame.{IsFrame, emit-Frame, feed-Frame}
use peristera.Kamara.Blob.{BlobStore}
use peristera.Kamara.Chunk.{Sizes}
use peristera.Kamara.Chunk.Cutpoint.{IsValid}
use peristera.Kamara.Chunk.Split.Stream.{HasBytes}
use peristera.Kamara.Chunk.Canonical.{chunks}
use peristera.Kamara.Crypto.{Primitives, Cipher}
use peristera.Kamara.Engine.{ChunkRef, Writer, reassemble, after_get}
use peristera.Kamara.Engine.RoundTrip.{IsReliable, ingest-reassemble}
use peristera.Kamara.Tables.{
  FileObject, VersionRow, FileTables, file_tables, find_object, has_folder,
}
use peristera.Kamara.Store.{insert_object, insert_object_row, max_of}
use peristera.Kamara.Files.{
  Authorizer, World, create_object, upload_object, upload, contain, authorize, authorize_access,
  authorize_folder, allowed, annotate, ingest_from, on_db, on_authz, file_name,
}
use peristera.Kamara.Listings.{
  into, write_out, download, manifest_in, manifest_of, latest_of, rows_of,
}
use peristera.Kamara.Listings.Rows.{hashes_in}
use peristera.Kamara.Engine.Ingest.{IsFamily, IsSealed}
use peristera.Kamara.Listings.Manifest.{insert_version-Written}
use peristera.Kamara.Transfer.Rows.{manifest_of-read, manifest_of-fine, reassemble-hashes}
use peristera.Kamara.Transfer.Stored.{
  Renders, HasFresh, authorize_access-Untouched, Holds, HeldBy, upload-Held,
}

module _ (B : BlobStore) (prim : Primitives) (c : Cipher) (sz : Sizes) (az : Authorizer)
    (P : List ℕ → Type 0) (family : IsFamily B prim P) where
  module _ (content : List ℕ) where
    into-ok :
        (r : Result (Unit {0})) (o out : Writer)
        → into B prim c sz az r o ≡ ok out
        → (r ≡ ok tt) × (o ≡ out)
    into-ok (ok u) o out e = (refl, cc)
    into-ok (err x) o out e = absurd (cc)

    write_out-content :
        (id : String) (refs : List ChunkRef) (out : Writer)
        → Brings
            (λ w.
              (HeldBy B prim c sz az P family) content id w
              × (refs ≡ manifest_in w.db.tables (latest_of id w.db.tables.versions)))
            (write_out B prim c sz az refs out)
            (λ (out' : Writer) _. out'.written ≡ out.written ++ content)
    unfolding write_out
    write_out-content id refs out = record {
      run = λ w out' h e.
          let (listed, same, renders) = h.0 in
          let hashes = ap hashes_in h.1 ∙ same in
          let runs : reassemble B prim c refs w.blobs out ≡ reassemble B prim c listed w.blobs out =
            λ i. reassemble-hashes B prim c refs listed hashes i w.blobs out in
          let (done, is_out) = into-ok _ _ _ e in
          sym (ap (λ (o : Writer). o.written) is_out)
          ∙ ap (λ x. x.2.written) runs
          ∙ renders.right out (sym (ap (λ x. x.0) runs) ∙ done);
    }

    download-content :
        (caller : Subject) (id : String) (out : Writer)
        → Brings
            ((HeldBy B prim c sz az P family) content id)
            (download B prim c sz az caller id out)
            (λ (out' : Writer) _. out'.written ≡ out.written ++ content)
    unfolding download authorize on_db
    download-content caller id out =
        Brings-bind (λ _. (HeldBy B prim c sz az P family) content id) _ _
          (Brings-Keeps _ (
            (authorize_access-Untouched B prim c sz az P family)
              ((Holds B prim c sz az P family) content id) caller (file_name id)))
          (λ _.
            Brings-bind
              (λ refs w.
                (HeldBy B prim c sz az P family) content id w
                × (refs ≡ manifest_in w.db.tables (latest_of id w.db.tables.versions)))
              (on_db B prim c sz az (manifest_of id)) _
              (record {
                run = λ w refs h e.
                    let (tables, answer) = manifest_of-read id w.db refs e in
                    subst
                      (λ (t : FileTables).
                        ((listed : List ChunkRef) × (hashes_in
                              (manifest_in t (latest_of id t.versions))
                            ≡ hashes_in listed)
                          × (Renders B prim c sz az P family) content listed w.blobs)
                        × (refs ≡ manifest_in t (latest_of id t.versions)))
                      (sym tables) (h, answer);
              })
              (λ refs. write_out-content id refs out))

    -- Access that the service grants, a read that the database answers and a writer without faults.
    download-total :
        (caller : Subject) (id : String) (out : Writer) (w : World B prim c sz az)
        → (HeldBy B prim c sz az P family) content id w
        → (az.check caller "can_access" (file_name id) w.authz).0 ≡ ok true
        → w.db.faults w.db.calls ≡ none
        → IsReliable B prim c P family out
        → (out' : Writer) × ((download B prim c sz az caller id out w).0 ≡ ok out')
    unfolding download authorize authorize_access on_authz on_db write_out ◌>>=◌
    download-total caller id out w h granted fine reliable =
        let (listed, same, renders) = h in
        let q : (reassemble B prim c (manifest_in w.db.tables (latest_of id w.db.tables.versions))
              w.blobs out).0
            ≡ ok tt =
          ap (λ (m : B.State → Writer → Result (Unit {0}) × B.State × Writer). (m w.blobs out).0)
            (reassemble-hashes B prim c _ listed same)
          ∙ renders.total out reliable in
        rw (granted, manifest_of-fine id w.db fine, q) (_, refl)

  -- What a Download of the file returns: the content after what the writer had, whenever it returns no
  -- error, and it returns none if the service grants access, the database answers and the writer and
  -- the store's reads do not fail.
  pub record Downloads (content : List ℕ) (id : String) (w : World B prim c sz az) : Type 0 where
    pub right :
        (caller : Subject) (out out' : Writer)
        → (download B prim c sz az caller id out w).0 ≡ ok out'
        → out'.written ≡ out.written ++ content
    pub total :
        (caller : Subject) (out : Writer)
        → (az.check caller "can_access" (file_name id) w.authz).0 ≡ ok true
        → w.db.faults w.db.calls ≡ none
        → IsReliable B prim c P family out
        → (out' : Writer) × ((download B prim c sz az caller id out w).0 ≡ ok out')

  -- Upload of a content, from any reader whose reads without an error each deliver at least one byte and
  -- which ends by io.EOF, into a sealed store, with fresh identifiers and over chunks that BLAKE3 tells apart: if it returns a
  -- file, then a Download of that file from there returns the content.
  pub upload-Downloads :
      (types : String → String) (owner : Subject) (folder : Option String) (name : String)
      (pending : List (List ℕ)) (w : World B prim c sz az) (o : FileObject)
      → IsValid sz
      → HasBytes pending
      → All P (chunks sz (concat pending))
      → IsSealed B prim c P w.blobs
      → (HasFresh B prim c sz az P family) w.db
      → (upload B prim c sz az types owner folder name
          (record { pending = pending; ending = none })
          w).0
        ≡ ok o
      → Downloads
          (concat pending)
          o.object_id
          (upload B prim c sz az types owner folder name
            (record { pending = pending; ending = none })
            w).1
  upload-Downloads types owner folder name pending w o valid bytes members is_sealed fresh e =
      let held =
        ((upload-Held B prim c sz az P family) pending valid bytes members types owner folder
            name).run
          w o (fresh, is_sealed) e in
      record {
        right = λ caller out out'.
            (download-content (concat pending) caller o.object_id out).run _ out' held;
        total = λ caller out. download-total (concat pending) caller o.object_id out _ held;
      }
