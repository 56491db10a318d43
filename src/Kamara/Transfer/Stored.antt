-- ===== src/Kamara/Transfer/Stored.antt =====
-- What an Upload (kamara/internal/file/file.go) leaves: a file whose latest version renders the content.
use peristera.Prelude.{
  ℕ, ◌≤◌, ◌≡◌, refl, subst, String, Bool, true, false, Option, none, some, List, [], ◌++◌, concat,
  All, str_eq, arith, Bool-cases, Option-cases, not, inl, inr, Result, ok, wrapped, forbidden,
}
use peristera.Prelude.Exec.{Keeps, Keeps-pure, Keeps-raise, Keeps-bind}
use peristera.Prelude.Returns.{Brings, Brings-pure, Brings-Keeps, Brings-bind}
use peristera.Pii.{Subject}
use peristera.Database.{Db, fresh_id, in_tx}
use peristera.Database.Rules.{Leads, Leads-stmt, Leads-bind, Keeps-Leads}
use peristera.Database.Atomic.{Leads-in_tx}
use peristera.Conventions.Frame.{IsFrame, emit-Frame, feed-Frame}
use peristera.Kamara.Blob.{BlobStore}
use peristera.Kamara.Chunk.{Sizes}
use peristera.Kamara.Chunk.Cutpoint.{IsValid}
use peristera.Kamara.Chunk.Split.Stream.{HasBytes}
use peristera.Kamara.Chunk.Canonical.{chunks}
use peristera.Kamara.Crypto.{Primitives, Cipher}
use peristera.Kamara.Engine.{ChunkRef, Writer, reassemble}
use peristera.Kamara.Engine.RoundTrip.{IsReliable, ingest-reassemble}
use peristera.Kamara.Tables.{
  FileObject, VersionRow, FileTables, file_tables, find_object, has_folder,
}
use peristera.Kamara.Store.{insert_object, insert_object_row, max_of}
use peristera.Kamara.Files.{
  Authorizer, World, create_object, upload_object, upload, contain, authorize_access,
  authorize_folder, allowed, annotate, ingest_from, on_db, on_authz, file_name,
}
use peristera.Kamara.Listings.{manifest_in, latest_of, rows_of}
use peristera.Kamara.Listings.Rows.{hashes_in}
use peristera.Kamara.Engine.Ingest.{IsFamily, IsSealed}
use peristera.Kamara.Listings.Manifest.{insert_version-Written}

module _ (B : BlobStore) (prim : Primitives) (c : Cipher) (sz : Sizes) (az : Authorizer)
    (P : List ℕ → Type 0) (family : IsFamily B prim P) where
  -- What a manifest is good for: it is written out as the content.
  pub record Renders (content : List ℕ) (refs : List ChunkRef) (s : B.State) : Type 0 where
    pub right :
        (out : Writer)
        → (reassemble B prim c refs s out).0 ≡ ok tt
        → (reassemble B prim c refs s out).2.written ≡ out.written ++ content
    pub total :
        (out : Writer)
        → IsReliable B prim c P family out
        → (reassemble B prim c refs s out).0 ≡ ok tt

  -- No row has an identifier that is still to be drawn.
  pub record HasFresh (db : Db FileTables) : Type 0 where
    pub no_rows : (n : ℕ) → db.drawn ≤ n → rows_of (db.ids n) db.tables.version_chunks ≡ []
    pub no_versions : (n : ℕ) → db.drawn ≤ n → max_of (db.ids n) db.tables.versions ≡ none

  fresh-HasFresh : (db : Db FileTables) → HasFresh db → HasFresh (fresh_id db).1
  unfolding fresh_id
  fresh-HasFresh db h = record {
    no_rows = λ n l. h.no_rows n (omega arith);
    no_versions = λ n l. h.no_versions n (omega arith);
  }

  module _ (Q : Db FileTables → B.State → Type 0) where
    abbrev Untouched : World B prim c sz az → Type 0
    Untouched w = Q w.db w.blobs

    on_authz-Untouched :
        {A : Type 0} (m : az.State → Result A × az.State)
        → Keeps Untouched (on_authz B prim c sz az m)
    unfolding on_authz
    on_authz-Untouched m = record { at = λ w h. h }

    pub authorize_access-Untouched :
        (caller : Subject) (name : String)
        → Keeps Untouched (authorize_access B prim c sz az caller name)
    unfolding authorize_access
    authorize_access-Untouched caller name =
        Keeps-bind _ _ (on_authz-Untouched _) (allowed-Untouched name)
      where
        allowed-Untouched :
            (name : String) (b : Bool) → Keeps Untouched (allowed B prim c sz az name b)
        allowed-Untouched name true = Keeps-pure tt
        allowed-Untouched name false = Keeps-raise (wrapped name forbidden)

    authorize_folder-Untouched :
        (caller : Subject) (folder : Option String)
        → Keeps Untouched (authorize_folder B prim c sz az caller folder)
    unfolding authorize_folder
    authorize_folder-Untouched caller none = Keeps-pure tt
    authorize_folder-Untouched caller (some folder) = authorize_access-Untouched caller _

    contain-Untouched :
        (folder : Option String) (child : String)
        → Keeps Untouched (contain B prim c sz az folder child)
    unfolding contain
    contain-Untouched none child = Keeps-pure tt
    contain-Untouched (some folder) child = record { at = λ w h. (on_authz-Untouched _).at w h }

  module _ (content : List ℕ) where
    -- The rows of a file, whose latest version renders the content.
    abbrev pub Holds : String → Db FileTables → B.State → Type 0
    Holds id db s =
        (refs : List ChunkRef) × (hashes_in
            (manifest_in db.tables (latest_of id db.tables.versions))
          ≡ hashes_in refs)
        × Renders content refs s

    abbrev New : String → String → FileTables → Type 0
    New id version t = (rows_of version t.version_chunks ≡ []) × (max_of id t.versions ≡ none)

    insert_object_row-New :
        (o : FileObject) (version : String) (t : FileTables)
        → New o.object_id version t
        → New o.object_id version (insert_object_row o t).1
    unfolding insert_object_row
    insert_object_row-New o version t h = elim (Option-cases (find_object o.object_id t.objects)) [
      | inr (x, taken) ↦ rw (taken, insert_object_row) h
      | inl free ↦
          rw (free, insert_object_row)
            (elim (Bool-cases (not (has_folder o.folder_id t.folders))) [
              | inl missing ↦ rw missing h
              | inr there ↦ rw there h
            ])
    ]

    -- The latest version of a file has the hashes of `refs`.
    abbrev Lists : String → List ChunkRef → FileTables → Type 0
    Lists id refs t = hashes_in (manifest_in t (latest_of id t.versions)) ≡ hashes_in refs

    Lists-IsFrame : (id : String) (refs : List ChunkRef) → IsFrame file_tables (Lists id refs)
    unfolding manifest_in
    Lists-IsFrame id refs t c h = same (latest_of id t.versions) h
      where
        same :
            (v : Option VersionRow)
            → hashes_in (manifest_in t v) ≡ hashes_in refs
            → hashes_in (manifest_in (file_tables.replace t c) v) ≡ hashes_in refs
        same none h = h
        same (some v) h = h

    abbrev pub HeldBy : String → World B prim c sz az → Type 0
    HeldBy id w = Holds id w.db w.blobs

    create_object-Lists :
        (o : FileObject) (version : String) (refs : List ChunkRef)
        → Leads
            (New o.object_id version)
            (create_object o version refs)
            (λ _. Lists o.object_id refs)
    unfolding create_object insert_object
    create_object-Lists o version refs =
        Leads-bind (λ _. New o.object_id version) _ _
          (Leads-stmt _ _ _ (λ t a h e. insert_object_row-New o version t h))
          (λ _.
            Leads-bind (λ _. Lists o.object_id refs) _ _
              (record {
                run = λ db a h e.
                    (insert_version-Written o.object_id version 0 o.size refs o.created db.tables
                        h.0 (rw h.1 refl)).run
                      db a refl e;
              })
              (λ _.
                Leads-bind (λ _. Lists o.object_id refs) _ _
                  (Keeps-Leads _ _ (
                    emit-Frame file_tables (Lists o.object_id refs) (Lists-IsFrame o.object_id refs)
                      _ _ _))
                  (λ _. Keeps-Leads _ _ (
                    feed-Frame file_tables (Lists o.object_id refs) (Lists-IsFrame o.object_id refs)
                      _))))

    abbrev Held : FileObject → World B prim c sz az → Type 0
    Held o w = Holds o.object_id w.db w.blobs

    abbrev Prepared : String → String → List ChunkRef → World B prim c sz az → Type 0
    Prepared id version refs w = New id version w.db.tables × Renders content refs w.blobs

    upload_object-Held :
        (o : FileObject) (version : String) (refs : List ChunkRef)
        → Brings
            (Prepared o.object_id version refs)
            (upload_object B prim c sz az o version refs)
            (λ (o' : FileObject) w. Held o' w)
    unfolding upload_object on_db on_authz
    upload_object-Held o version refs =
        Brings-bind (λ _. Held o) (on_db B prim c sz az (in_tx (create_object o version refs))) _
          (record {
            run = λ w a h e. (
              refs,
              (Leads-in_tx _ _ _ (create_object-Lists o version refs)).run w.db a h.0 e,
              h.1,
            );
          })
          (λ _.
            Brings-bind (λ _. Held o)
              (annotate B prim c sz az "file: writing owner tuple"
                (on_authz B prim c sz az (az.write o.owner "owner" (file_name o.object_id))))
              _ (Brings-Keeps _ (record { at = λ w h. h }))
              (λ _.
                Brings-bind (λ _. Held o) _ _
                  (Brings-Keeps _
                    (contain-Untouched (Holds o.object_id) o.folder_id (file_name o.object_id)))
                  (λ _. Brings-pure _ o (λ w h. h))))

  -- What the fresh identifiers of Upload are kept for.
  abbrev Ready : Db FileTables → B.State → Type 0
  Ready db s = HasFresh db × IsSealed B prim c P s

  module _ (pending : List (List ℕ)) (valid : IsValid sz) (bytes : HasBytes pending)
      (members : All P (chunks sz (concat pending))) where
    abbrev Ingested : List ChunkRef → Db FileTables → B.State → Type 0
    Ingested refs db s = HasFresh db × Renders (concat pending) refs s

    ingest_from-Ingested :
        Brings
          (Untouched Ready)
          (ingest_from B prim c sz az (record { pending = pending; ending = none }))
          (λ r. Untouched (Ingested r.0))
    unfolding ingest_from
    ingest_from-Ingested = record {
      run = λ w r h e.
          let good =
            (ingest-reassemble B prim c P family sz pending w.blobs w.drawn valid bytes members
                h.1).2
              r.0 r.1 in
          (h.0, record { right = λ out. (good out e).1; total = λ out. (good out e).2 });
    }

    pub upload-Held :
        (types : String → String) (owner : Subject) (folder : Option String) (name : String)
        → Brings
            (Untouched Ready)
            (upload B prim c sz az types owner folder name
              (record { pending = pending; ending = none }))
            (Held (concat pending))
    unfolding upload fresh_id on_db
    upload-Held types owner folder name = elim (Bool-cases (str_eq name "")) [
      | inl e ↦ rw e (record { run = λ w a h e. absurd (cc) })
      | inr e ↦ rw e (
          Brings-bind (λ _. Untouched Ready) _ _
            (Brings-Keeps _ (authorize_folder-Untouched Ready owner folder))
            (λ _.
              Brings-bind (λ r. Untouched (Ingested r.0)) _ _ ingest_from-Ingested
                (λ r.
                  Brings-bind (λ now. Untouched (Ingested r.0)) _ _ (record { run = λ w a h e. h })
                    (λ now.
                      Brings-bind
                        (λ id w.
                          (max_of id w.db.tables.versions ≡ none) × Untouched (Ingested r.0) w)
                        (on_db B prim c sz az fresh_id) _
                        (record {
                          run = λ w id h e. (
                            subst (λ i. max_of i w.db.tables.versions ≡ none) (cc)
                                (h.0.no_versions w.db.drawn (omega arith)),
                            (fresh-HasFresh w.db h.0, h.1),
                          );
                        })
                        (λ id.
                          Brings-bind (λ version. Prepared (concat pending) id version r.0)
                            (on_db B prim c sz az fresh_id) _
                            (record {
                              run = λ w version h e. (
                                (
                                  subst (λ i. rows_of i w.db.tables.version_chunks ≡ []) (cc)
                                      (h.1.0.no_rows w.db.drawn (omega arith)),
                                  h.0,
                                ),
                                h.1.1,
                              );
                            })
                            (λ version. upload_object-Held (concat pending) _ version r.0))))))
    ]
