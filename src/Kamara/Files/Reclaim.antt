-- ===== src/Kamara/Files/Reclaim.antt =====
-- Delete of file.go and the blob store: what a version refers to is not reclaimed.
use peristera.Prelude.{
  ◌≡◌, ◌≢◌, refl, ap, ◌∙◌, String, Bool, true, false, Option, none, some, List, [], ◌∷◌, Result, ok,
  err, inl, inr, arith, eq_refl,
}
use peristera.Prelude.Exec.{
  Exec, ◌>>◌, Keeps, Triple, Triple-bind, Keeps-then, Keeps-bind, Keeps-pure, Keeps-attempt,
}
use peristera.Pii.{Subject}
use peristera.Database.{in_tx}
use peristera.Database.Rules.{On, Leads, Leads-bind, Leads-pure, Keeps-Leads, Keeps-stmt}
use peristera.Database.Atomic.{in_tx-Outcome, begun}
use peristera.Conventions.Frame.{IsFrame, emit-Frame, remove_doc-Frame}
use peristera.Kamara.Blob.{BlobStore}
use peristera.Kamara.Chunk.{Sizes}
use peristera.Kamara.Crypto.{Primitives, Cipher}
use peristera.Kamara.Tables.{FileTables, ManifestRow, file_tables, member}
use peristera.Kamara.Store.{Store, get_object, reclaim_object}
use peristera.Kamara.Store.RefCounts.Rows.{refs_of}
use peristera.Kamara.Store.RefCounts.Owed.{IsCounted}
use peristera.Kamara.Store.RefCounts.Reclaim.{
  Reclaimed, rows_left, object_hashes, reclaim_object-Reclaimed,
}
use peristera.Kamara.Files.{
  Authorizer, World, on_db, on_authz, on_blobs, allowed, authorize_access, authorize, delete_rows,
  folder_of, delete_blobs, release, revoke_sessions, delete_file, file_name,
}

-- The tables while Delete's transaction has not reached the object.
abbrev Before : FileTables → FileTables → Type 0
Before t0 t = (t.versions ≡ t0.versions) × (t.version_chunks ≡ t0.version_chunks) × IsCounted t

Before-IsFrame : (t0 : FileTables) → IsFrame file_tables (Before t0)
Before-IsFrame t0 t c (v, m, w) = (v, m, record { counted = w.counted })

abbrev After : String → FileTables → List String → FileTables → Type 0
After id t0 orphans t = Reclaimed (rows_left id t0) (object_hashes id t0) orphans t

After-IsFrame :
    (id : String) (t0 : FileTables) (orphans : List String)
    → IsFrame file_tables (After id t0 orphans)
After-IsFrame id t0 orphans t c w = record {
  same = w.same;
  is_counted = record { counted = w.is_counted.counted };
  exact = w.exact;
}

reclaim_object-After :
    (id : String) (t0 : FileTables) → Leads (Before t0) (reclaim_object id) (λ o t. After id t0 o t)
reclaim_object-After id t0 = record {
  run = λ db o (v, m, w) e. rw (← v, ← m) (reclaim_object-Reclaimed id db o w e);
}

delete_rows-After :
    (caller : Subject) (id : String) (t0 : FileTables)
    → Leads (Before t0) (delete_rows caller id) (λ r t. After id t0 r.0 t)
unfolding delete_rows get_object
delete_rows-After caller id t0 =
    Leads-bind _ _ _
      (Keeps-Leads (Before t0) _ (emit-Frame file_tables (Before t0) (Before-IsFrame t0) _ _ _))
      (λ _.
        Leads-bind _ _ _ (Keeps-Leads (Before t0) _ (Keeps-stmt (Before t0) _ (λ t w. w))) (λ found.
          Leads-bind (λ o t. After id t0 o t) _ _ (reclaim_object-After id t0)
            (λ orphans.
              Leads-bind _ _ _
                (Keeps-Leads (After id t0 orphans) _ (
                  remove_doc-Frame file_tables (After id t0 orphans) (After-IsFrame id t0 orphans)
                    _))
                (λ _. Leads-pure _ _ (orphans, folder_of found) (λ t w. w)))))

module _ (B : BlobStore) (prim : Primitives) (c : Cipher) (sz : Sizes) (az : Authorizer)
    (s0 : B.State) where
  -- The blobs of `s0` that the manifest `rows` refers to are there still.
  pub record IsSpared (rows : List ManifestRow) (w : World B prim c sz az) : Type 0 where
    pub manifest : w.db.tables.version_chunks ≡ rows
    pub spared : (key : String) → refs_of key rows ≢ 0 → B.contents w.blobs key ≡ B.contents s0 key

  record Starts (t0 : FileTables) (w : World B prim c sz az) : Type 0 where
    tables_same : w.db.tables ≡ t0
    blobs_same : w.blobs ≡ s0
    is_counted : IsCounted t0

  authorize-Starts :
      (t0 : FileTables) (caller : Subject) (id : String)
      → Keeps (Starts t0) (authorize B prim c sz az caller id)
  unfolding authorize authorize_access on_authz
  authorize-Starts t0 caller id =
      Keeps-bind _ _
        (record {
          at = λ w h. record {
            tables_same = h.tables_same;
            blobs_same = h.blobs_same;
            is_counted = h.is_counted;
          };
        })
        (allowed-Starts (file_name id))
    where
      allowed-Starts :
          (name : String) (b : Bool) → Keeps (Starts t0) (allowed B prim c sz az name b)
      allowed-Starts name true = record { at = λ w h. h }
      allowed-Starts name false = record { at = λ w h. h }

  module _ (rows : List ManifestRow) where
    delete_blobs-IsSpared :
        (hs : List String)
        → ((h : String) → member h hs ≡ true → B.IsKey h × (refs_of h rows ≡ 0))
        → Keeps (IsSpared rows) (delete_blobs B prim c sz az hs)
    unfolding delete_blobs on_blobs member
    delete_blobs-IsSpared [] k = Keeps-pure tt
    delete_blobs-IsSpared (h ∷ hs) k =
        Keeps-bind _ _ (Keeps-attempt _ (record { at = one }))
          (λ _. delete_blobs-IsSpared hs (λ j m. k j (ground arith)))
      where
        one :
            (w : World B prim c sz az)
            → IsSpared rows w
            → IsSpared rows (on_blobs B prim c sz az (B.delete h) w).1
        one w v = record {
          manifest = v.manifest;
          spared = λ key used.
              B.delete_other h key w.blobs (k h (ground (arith, eq_refl h))).0 (λ q.
                used (ap (λ (x : String). refs_of x rows) q ∙ (k h (ground (arith, eq_refl h))).1))
              ∙ v.spared key used;
        }

    release-IsSpared :
        (folder : Option String) (child : String)
        → Keeps (IsSpared rows) (release B prim c sz az folder child)
    unfolding release on_authz
    release-IsSpared none child = Keeps-pure tt
    release-IsSpared (some folder) child =
        Keeps-attempt _ (record { at = λ w v. record { manifest = v.manifest; spared = v.spared } })

    revoke_sessions-IsSpared :
        (revoker : Option (String → Store (Unit {0})))
        → ((id : String) (revoke : String → Store (Unit {0}))
            → revoker ≡ some revoke
            → Keeps (On (λ t. t.version_chunks ≡ rows)) (revoke id))
        → (id : String) → Keeps (IsSpared rows) (revoke_sessions B prim c sz az revoker id)
    unfolding revoke_sessions on_db
    revoke_sessions-IsSpared none k id = Keeps-pure tt
    revoke_sessions-IsSpared (some revoke) k id = Keeps-attempt _ (record {
      at = λ w v. record { manifest = (k id revoke refl).at w.db v.manifest; spared = v.spared };
    })

  -- The end of Delete, and any end before it.
  abbrev Ends : World B prim c sz az → Type 0
  Ends w = (rows : List ManifestRow) × IsSpared rows w

  Starts-Ends : (t0 : FileTables) (w : World B prim c sz az) → Starts t0 w → Ends w
  Starts-Ends t0 w h = (
    w.db.tables.version_chunks,
    record {
      manifest = refl;
      spared = λ key used. ap (λ (s : B.State). B.contents s key) h.blobs_same;
    },
  )

  -- After the transaction of Delete.
  abbrev Committed :
      String → FileTables → Result (List String × Option String) → World B prim c sz az → Type 0
  Committed id t0 (ok (orphans, folder)) w = After id t0 orphans w.db.tables × (w.blobs ≡ s0)
  Committed id t0 (err e) w = Ends w

  delete_tx-Committed :
      (t0 : FileTables) (caller : Subject) (id : String)
      → Triple (Starts t0) (on_db B prim c sz az (in_tx (delete_rows caller id))) (Committed id t0)
  unfolding on_db
  delete_tx-Committed t0 caller id = record {
    run = λ w h. elim (in_tx-Outcome (delete_rows caller id) w.db) [
      | inl (e, failed, same) ↦ rw failed (
          Starts-Ends t0 _ (record {
            tables_same = same ∙ h.tables_same;
            blobs_same = h.blobs_same;
            is_counted = h.is_counted;
          }))
      | inr ((orphans, folder), done, ran, same) ↦
          rw (done, same)
            (
              (delete_rows-After caller id t0).run (begun w.db) (orphans, folder)
                  (rw h.tables_same (refl, refl, h.is_counted)) ran,
              h.blobs_same,
            )
    ];
  }

  Committed-IsSpared :
      (id : String) (t0 : FileTables) (orphans : List String) (folder : Option String)
      (w : World B prim c sz az)
      → Committed id t0 (ok (orphans, folder)) w
      → IsSpared (rows_left id t0) w
  Committed-IsSpared id t0 orphans folder w (a, q) = record {
    manifest = a.same;
    spared = λ key used. ap (λ (s : B.State). B.contents s key) q;
  }

  Committed-keys :
      (id : String) (t0 : FileTables) (orphans : List String) (folder : Option String)
      (w : World B prim c sz az)
      → ((h : String) → member h (object_hashes id t0) ≡ true → B.IsKey h)
      → Committed id t0 (ok (orphans, folder)) w
      → (h : String) → member h orphans ≡ true
      → B.IsKey h × (refs_of h (rows_left id t0) ≡ 0)
  Committed-keys id t0 orphans folder w keys (a, q) h m =
      let (listed, free) = (a.exact h).0 m in (keys h listed, rw a.same at free)

  module _ (revoker : Option (String → Store (Unit {0})))
      (leaves : (rows : List ManifestRow) (id : String) (revoke : String → Store (Unit {0}))
        → revoker ≡ some revoke
        → Keeps (On (λ t. t.version_chunks ≡ rows)) (revoke id)) where
    abbrev clean_up :
        Subject → String → List String × Option String → Exec (World B prim c sz az) (Unit {0})
    clean_up caller id (orphans, folder) = do
      delete_blobs B prim c sz az orphans
      release B prim c sz az folder (file_name id)
      revoke_sessions B prim c sz az revoker id
      on_authz B prim c sz az (az.delete caller "owner" (file_name id))

    clean_up-IsSpared :
        (rows : List ManifestRow) (caller : Subject) (id : String) (orphans : List String)
        (folder : Option String)
        → ((h : String) → member h orphans ≡ true → B.IsKey h × (refs_of h rows ≡ 0))
        → Keeps (IsSpared rows) (clean_up caller id (orphans, folder))
    unfolding on_authz
    clean_up-IsSpared rows caller id orphans folder k =
        Keeps-bind _ _ (delete_blobs-IsSpared rows orphans k) (λ _.
          Keeps-bind _ _ (release-IsSpared rows folder _) (λ _.
            Keeps-bind _ _ (revoke_sessions-IsSpared rows revoker (leaves rows) id)
              (λ _. record { at = λ w v. record { manifest = v.manifest; spared = v.spared } })))

    clean_up-Ends :
        (t0 : FileTables) (caller : Subject) (id : String)
        → ((h : String) → member h (object_hashes id t0) ≡ true → B.IsKey h)
        → (r : List String × Option String)
        → Triple (Committed id t0 (ok r)) (clean_up caller id r) (λ _ w. Ends w)
    clean_up-Ends t0 caller id keys (orphans, folder) = record {
      run = λ w h. (
        rows_left id t0,
        (clean_up-IsSpared (rows_left id t0) caller id orphans folder
              (Committed-keys id t0 orphans folder w keys h)).at
            w (Committed-IsSpared id t0 orphans folder w h),
      );
    }

    delete_file-Ends :
        (t0 : FileTables) (caller : Subject) (id : String)
        → ((h : String) → member h (object_hashes id t0) ≡ true → B.IsKey h)
        → Triple (Starts t0) (delete_file B prim c sz az revoker caller id) (λ _ w. Ends w)
    unfolding delete_file
    delete_file-Ends t0 caller id keys =
        Keeps-then {Q = λ _ w. Ends w} _ _ (authorize-Starts t0 caller id)
          (λ _.
            Triple-bind (Committed id t0) {Q = λ _ w. Ends w} _ _ (delete_tx-Committed t0 caller id)
              (clean_up-Ends t0 caller id keys) (λ e w h. h))
          (λ e w h. Starts-Ends t0 w h)

module _ (B : BlobStore) (prim : Primitives) (c : Cipher) (sz : Sizes) (az : Authorizer) where
  -- A revoker of editing sessions that does not touch the manifest.
  abbrev pub LeavesManifest : Option (String → Store (Unit {0})) → Type 0
  LeavesManifest revoker =
      (rows : List ManifestRow) (id : String) (revoke : String → Store (Unit {0}))
      → revoker ≡ some revoke
      → Keeps (On (λ t. t.version_chunks ≡ rows)) (revoke id)

  -- Whatever fails on the way, Delete leaves every blob as it was that a row of the manifest refers to
  -- afterwards: if every chunk's count was the number of references to it before, if the keys of the
  -- object's chunks are ones that the store takes, and if the revoker leaves the manifest alone.
  pub delete_file_spares :
      (revoker : Option (String → Store (Unit {0}))) (caller : Subject) (id : String)
      (w : World B prim c sz az)
      → LeavesManifest revoker
      → IsCounted w.db.tables
      → ((h : String) → member h (object_hashes id w.db.tables) ≡ true → B.IsKey h)
      → (key : String)
      → refs_of key (delete_file B prim c sz az revoker caller id w).1.db.tables.version_chunks ≢ 0
      → B.contents (delete_file B prim c sz az revoker caller id w).1.blobs key
        ≡ B.contents w.blobs key
  delete_file_spares revoker caller id w leaves counted keys key used =
      let (rows, v) =
        (delete_file-Ends B prim c sz az w.blobs revoker leaves w.db.tables caller id keys).run w
          (record { tables_same = refl; blobs_same = refl; is_counted = counted }) in
      v.spared key (rw v.manifest at used)
