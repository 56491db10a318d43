-- ===== src/Kamara/Files/Counted.antt =====
-- The reference counts through the operations of file.go, whatever fails on the way.
use peristera.Prelude.{
  ℕ, suc, zero, ◌≡◌, refl, String, Bool, true, false, ◌&&◌, Option, none, some, List, [], ◌∷◌,
  Result, ok, err, inl, inr, Option-cases, Bool-cases, str_eq, wrapped, forbidden, not_found, ◌-◌,
}
use peristera.Prelude.Exec.{
  Exec, raise, Keeps, Keeps-bind, Keeps-pure, Keeps-raise, Keeps-lift, Keeps-attempt,
}
use peristera.Pii.{Subject}
use peristera.Database.{fresh_id}
use peristera.Database.Rules.{
  On, Leads, Leads-bind, Leads-pure, Keeps-Leads, Keeps-fresh_id, Keeps-stmt,
}
use peristera.Database.Atomic.{Keeps-in_tx}
use peristera.Conventions.Frame.{IsFrame, emit-Frame, feed-Frame, remove_doc-Frame}
use peristera.Kamara.Blob.{BlobStore}
use peristera.Kamara.Chunk.{Sizes}
use peristera.Kamara.Chunk.Split.{Reader}
use peristera.Kamara.Crypto.{Primitives, Cipher}
use peristera.Kamara.Engine.{ChunkRef}
use peristera.Kamara.Tables.{FileObject, FileTables, file_tables, find_object, has_folder}
use peristera.Kamara.Store.{
  Store, insert_object_row, insert_object, get_object, max_ordinal, set_object_size,
}
use peristera.Kamara.Store.RefCounts.Owed.{IsCounted, insert_version-IsCounted}
use peristera.Kamara.Store.RefCounts.Reclaim.{reclaim_object-Reclaimed}
use peristera.Kamara.Files.{
  Authorizer, create_object, save_version, next_ordinal, delete_rows, folder_of, World, on_db,
  on_authz, on_blobs, ingest_from, allowed, authorize_access, authorize, authorize_folder, annotate,
  contain, upload_object, upload, save_round, retried, save_rounds, write_version, is_conflict,
  delete_blobs, release, revoke_sessions, delete_file, max_attempts,
}

pub IsCounted-IsFrame : IsFrame file_tables IsCounted
IsCounted-IsFrame t c w = record { counted = w.counted }

-- A statement of another table.
Leads-Keeps :
    {A : Type 0} (m : Store A) → Keeps (On IsCounted) m → Leads IsCounted m (λ _. IsCounted)
Leads-Keeps m k = Keeps-Leads IsCounted m k

insert_object_row-IsCounted :
    (o : FileObject) (t : FileTables) → IsCounted t → IsCounted (insert_object_row o t).1
unfolding insert_object_row
insert_object_row-IsCounted o t w = elim (Option-cases (find_object o.object_id t.objects)) [
  | inr (x, e) ↦ rw (e, insert_object_row) w
  | inl e ↦
      rw (e, insert_object_row)
        (elim (Bool-cases (has_folder o.folder_id t.folders)) [
          | inl f ↦ rw f (record { counted = w.counted })
          | inr f ↦ rw f w
        ])
]

insert_object-Keeps : (o : FileObject) → Keeps (On IsCounted) (insert_object o)
unfolding insert_object
insert_object-Keeps o = Keeps-stmt IsCounted _ (insert_object_row-IsCounted o)

create_object-IsCounted :
    (o : FileObject) (version : String) (refs : List ChunkRef)
    → Leads IsCounted (create_object o version refs) (λ _. IsCounted)
unfolding create_object
create_object-IsCounted o version refs =
    Leads-bind _ _ _ (Leads-Keeps _ (insert_object-Keeps o)) (λ _.
      Leads-bind _ _ _ (insert_version-IsCounted _ _ _ _ _ _) (λ _.
        Leads-bind _ _ _ (Leads-Keeps _ (emit-Frame file_tables IsCounted IsCounted-IsFrame _ _ _))
          (λ _. Leads-Keeps _ (feed-Frame file_tables IsCounted IsCounted-IsFrame _))))

save_version-IsCounted :
    (caller : Subject) (id : String) (base : Option ℕ) (version : String) (total : ℕ)
    (refs : List ChunkRef)
    → Leads IsCounted (save_version caller id base version total refs) (λ _. IsCounted)
unfolding save_version max_ordinal set_object_size
save_version-IsCounted caller id base version total refs =
    Leads-bind _ _ _ (Leads-Keeps _ (Keeps-stmt IsCounted _ (λ t w. w))) (λ latest.
      Leads-bind _ _ _ (Leads-Keeps _ (Keeps-lift (next_ordinal base latest))) (λ ordinal.
        Leads-bind _ _ _ (Leads-Keeps _ (record { at = λ db w. w })) (λ now.
          Leads-bind _ _ _ (insert_version-IsCounted _ _ _ _ _ _) (λ _.
            Leads-bind _ _ _
              (Leads-Keeps _ (Keeps-stmt IsCounted _ (λ t w. record { counted = w.counted })))
              (λ _.
                Leads-bind _ _ _
                  (Leads-Keeps _ (emit-Frame file_tables IsCounted IsCounted-IsFrame _ _ _))
                  (λ _. Leads-pure _ _ ordinal (λ t w. w)))))))

delete_rows-IsCounted :
    (caller : Subject) (id : String) → Leads IsCounted (delete_rows caller id) (λ _. IsCounted)
unfolding delete_rows get_object
delete_rows-IsCounted caller id =
    Leads-bind _ _ _ (Leads-Keeps _ (emit-Frame file_tables IsCounted IsCounted-IsFrame _ _ _))
      (λ _. Leads-bind _ _ _ (Leads-Keeps _ (Keeps-stmt IsCounted _ (λ t w. w))) (λ found.
        Leads-bind (λ _. IsCounted) _ _
          (record { run = λ db o w e. (reclaim_object-Reclaimed id db o w e).is_counted })
          (λ orphans.
            Leads-bind _ _ _
              (Leads-Keeps _ (remove_doc-Frame file_tables IsCounted IsCounted-IsFrame _))
              (λ _. Leads-pure _ _ (orphans, folder_of found) (λ t w. w)))))

module _ (B : BlobStore) (prim : Primitives) (c : Cipher) (sz : Sizes) (az : Authorizer) where
  -- The condition on the database of a world.
  abbrev pub InDb : (FileTables → Type 0) → World B prim c sz az → Type 0
  InDb P w = P w.db.tables

  module _ (P : FileTables → Type 0) where
    pub on_db-Keeps :
        {A : Type 0} (m : Store A) → Keeps (On P) m → Keeps (InDb P) (on_db B prim c sz az m)
    unfolding on_db
    on_db-Keeps m k = record { at = λ w h. k.at w.db h }

    pub on_authz-Keeps :
        {A : Type 0} (m : az.State → Result A × az.State)
        → Keeps (InDb P) (on_authz B prim c sz az m)
    unfolding on_authz
    on_authz-Keeps m = record { at = λ w h. h }

    pub on_blobs-Keeps :
        {A : Type 0} (m : B.State → Result A × B.State) → Keeps (InDb P) (on_blobs B prim c sz az m)
    unfolding on_blobs
    on_blobs-Keeps m = record { at = λ w h. h }

    pub ingest_from-Keeps : (r : Reader) → Keeps (InDb P) (ingest_from B prim c sz az r)
    unfolding ingest_from
    ingest_from-Keeps r = record { at = λ w h. h }

    pub annotate-Keeps :
        {A : Type 0} (text : String) (m : Exec (World B prim c sz az) A)
        → Keeps (InDb P) m
        → Keeps (InDb P) (annotate B prim c sz az text m)
    annotate-Keeps text m k = record { at = λ w h. k.at w h }

    pub authorize_access-Keeps :
        (caller : Subject) (name : String)
        → Keeps (InDb P) (authorize_access B prim c sz az caller name)
    unfolding authorize_access
    authorize_access-Keeps caller name = Keeps-bind _ _ (on_authz-Keeps _) (allowed-Keeps name)
      where
        allowed-Keeps : (name : String) (b : Bool) → Keeps (InDb P) (allowed B prim c sz az name b)
        allowed-Keeps name true = Keeps-pure tt
        allowed-Keeps name false = Keeps-raise (wrapped name forbidden)

    pub authorize-Keeps :
        (caller : Subject) (id : String) → Keeps (InDb P) (authorize B prim c sz az caller id)
    unfolding authorize
    authorize-Keeps caller id = authorize_access-Keeps caller _

    pub authorize_folder-Keeps :
        (caller : Subject) (folder : Option String)
        → Keeps (InDb P) (authorize_folder B prim c sz az caller folder)
    unfolding authorize_folder
    authorize_folder-Keeps caller none = Keeps-pure tt
    authorize_folder-Keeps caller (some folder) = authorize_access-Keeps caller _

    contain-Keeps :
        (folder : Option String) (child : String)
        → Keeps (InDb P) (contain B prim c sz az folder child)
    unfolding contain
    contain-Keeps none child = Keeps-pure tt
    contain-Keeps (some folder) child = annotate-Keeps _ _ (on_authz-Keeps _)

    fresh-Keeps : Keeps (InDb P) (on_db B prim c sz az fresh_id)
    fresh-Keeps = on_db-Keeps fresh_id (Keeps-fresh_id P)

    pub delete_blobs-Keeps : (hs : List String) → Keeps (InDb P) (delete_blobs B prim c sz az hs)
    unfolding delete_blobs
    delete_blobs-Keeps [] = Keeps-pure tt
    delete_blobs-Keeps (h ∷ hs) =
        Keeps-bind _ _ (Keeps-attempt _ (on_blobs-Keeps _)) (λ _. delete_blobs-Keeps hs)

    pub release-Keeps :
        (folder : Option String) (child : String)
        → Keeps (InDb P) (release B prim c sz az folder child)
    unfolding release
    release-Keeps none child = Keeps-pure tt
    release-Keeps (some folder) child = Keeps-attempt _ (on_authz-Keeps _)

    pub revoke_sessions-Keeps :
        (revoker : Option (String → Store (Unit {0})))
        → ((id : String) (revoke : String → Store (Unit {0}))
            → revoker ≡ some revoke
            → Keeps (On P) (revoke id))
        → (id : String) → Keeps (InDb P) (revoke_sessions B prim c sz az revoker id)
    unfolding revoke_sessions
    revoke_sessions-Keeps none k id = Keeps-pure tt
    revoke_sessions-Keeps (some revoke) k id = Keeps-attempt _ (on_db-Keeps _ (k id revoke refl))

  upload_object-Keeps :
      (o : FileObject) (version : String) (refs : List ChunkRef)
      → Keeps (InDb IsCounted) (upload_object B prim c sz az o version refs)
  unfolding upload_object
  upload_object-Keeps o version refs =
      Keeps-bind _ _
        (on_db-Keeps IsCounted _ (Keeps-in_tx IsCounted _ (create_object-IsCounted o version refs)))
        (λ _.
          Keeps-bind _ _ (annotate-Keeps IsCounted _ _ (on_authz-Keeps IsCounted _))
            (λ _. Keeps-bind _ _ (contain-Keeps IsCounted _ _) (λ _. Keeps-pure o)))

  upload-Keeps :
      (types : String → String) (owner : Subject) (folder : Option String) (name : String)
      (r : Reader)
      → Keeps (InDb IsCounted) (upload B prim c sz az types owner folder name r)
  unfolding upload
  upload-Keeps types owner folder name r = elim (Bool-cases (str_eq name "")) [
    | inl e ↦ rw e (Keeps-raise _)
    | inr e ↦ rw e (
        Keeps-bind _ _ (authorize_folder-Keeps IsCounted owner folder) (λ _.
          Keeps-bind _ _ (ingest_from-Keeps IsCounted r) (λ (refs, total).
            Keeps-bind _ _ (record { at = λ w h. h })
              (λ now. Keeps-bind _ _ (fresh-Keeps IsCounted) (λ id.
                Keeps-bind _ _ (fresh-Keeps IsCounted)
                  (λ version. upload_object-Keeps _ version refs))))))
  ]

  save_round-Keeps :
      (caller : Subject) (id : String) (base : Option ℕ) (total : ℕ) (refs : List ChunkRef)
      → Keeps (InDb IsCounted) (save_round B prim c sz az caller id base total refs)
  unfolding save_round
  save_round-Keeps caller id base total refs = Keeps-bind _ _ (fresh-Keeps IsCounted) (λ version.
      on_db-Keeps IsCounted _
        (Keeps-in_tx IsCounted _ (save_version-IsCounted caller id base version total refs)))

  retried-Keeps :
      (again : Exec (World B prim c sz az) ℕ) (more : Bool) (r : Result ℕ)
      → Keeps (InDb IsCounted) again
      → Keeps (InDb IsCounted) (retried B prim c sz az again more r)
  retried-Keeps again more (ok ordinal) k = Keeps-pure ordinal
  retried-Keeps again more (err e) k = record {
    at = λ w h. elim (Bool-cases (more && is_conflict e)) [
      | inl q ↦ rw q (k.at w h)
      | inr q ↦ rw q h
    ];
  }

  save_rounds-Keeps :
      (n : ℕ) (caller : Subject) (id : String) (base : Option ℕ) (total : ℕ) (refs : List ChunkRef)
      → Keeps (InDb IsCounted) (save_rounds B prim c sz az n caller id base total refs)
  unfolding save_rounds
  save_rounds-Keeps zero caller id base total refs = record {
    at = λ w h.
        (retried-Keeps (raise not_found) false _ (Keeps-raise not_found)).at _
          ((save_round-Keeps caller id base total refs).at w h);
  }
  save_rounds-Keeps (suc n) caller id base total refs = record {
    at = λ w h.
        (retried-Keeps _ true _ (save_rounds-Keeps n caller id base total refs)).at _
          ((save_round-Keeps caller id base total refs).at w h);
  }

  write_version-Keeps :
      (caller : Subject) (id : String) (r : Reader) (base : Option ℕ)
      → Keeps (InDb IsCounted) (write_version B prim c sz az caller id r base)
  unfolding write_version
  write_version-Keeps caller id r base = Keeps-bind _ _ (authorize-Keeps IsCounted caller id) (λ _.
      Keeps-bind _ _ (ingest_from-Keeps IsCounted r)
        (λ (refs, total). save_rounds-Keeps (max_attempts - 1) caller id base total refs))

  module _ (revoker : Option (String → Store (Unit {0})))
      (leaves : (id : String) (revoke : String → Store (Unit {0}))
        → revoker ≡ some revoke
        → Keeps (On IsCounted) (revoke id)) where
    delete_file-Keeps :
        (caller : Subject) (id : String)
        → Keeps (InDb IsCounted) (delete_file B prim c sz az revoker caller id)
    unfolding delete_file
    delete_file-Keeps caller id = Keeps-bind _ _ (authorize-Keeps IsCounted caller id) (λ _.
        Keeps-bind _ _
          (on_db-Keeps IsCounted _ (Keeps-in_tx IsCounted _ (delete_rows-IsCounted caller id)))
          (λ (orphans, folder). Keeps-bind _ _ (delete_blobs-Keeps IsCounted orphans) (λ _.
            Keeps-bind _ _ (release-Keeps IsCounted folder _) (λ _.
              Keeps-bind _ _ (revoke_sessions-Keeps IsCounted revoker leaves id)
                (λ _. on_authz-Keeps IsCounted _)))))

    -- The transactions of Upload, WriteVersion, WriteVersionAt and Delete, and all that these do besides,
    -- keep every chunk's count the number of references to it, whatever fails and wherever, if the
    -- revoker of Delete does.
    pub operations_keep_counts :
        ((types : String → String) (owner : Subject) (folder : Option String) (name : String)
            (r : Reader)
          → Keeps (InDb IsCounted) (upload B prim c sz az types owner folder name r))
        × ((caller : Subject) (id : String) (r : Reader) (base : Option ℕ)
            → Keeps (InDb IsCounted) (write_version B prim c sz az caller id r base))
        × ((caller : Subject) (id : String)
            → Keeps (InDb IsCounted) (delete_file B prim c sz az revoker caller id))
    operations_keep_counts = (upload-Keeps, write_version-Keeps, delete_file-Keeps)
