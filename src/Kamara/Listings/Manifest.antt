-- ===== src/Kamara/Listings/Manifest.antt =====
-- ManifestOf of repos.go after InsertVersion.
use peristera.Prelude.{
  ℕ, suc, ◌≡◌, refl, sym, ap, ◌∙◌, String, true, not, ◌||◌, some, List, [], ◌∷◌, ◌++◌, arith,
  str_eq, eq_refl, Bool-cases, Option-cases, inl, inr, ok,
}
use mathlib.Core.List.{append_assoc, append-nil}
use peristera.Database.{Db}
use peristera.Database.Rules.{
  Leads-translated, Leads, Leads-stmt, Leads-bind, Leads-pure, Leads-mono,
}
use peristera.Kamara.Engine.{ChunkRef}
use peristera.Kamara.Tables.{
  VersionRow, ManifestRow, ChunkRow, FileTables, has_version, has_ordinal, has_manifest_row,
  has_chunk, find_object,
}
use peristera.Kamara.Store.{
  insert_version_row, upsert_chunk, insert_manifest_row, insert_chunk, insert_chunks,
  insert_version, max_of,
}
use peristera.Kamara.Listings.{latest_of, rows_of, manifest_in, manifest_of}
use peristera.Kamara.Listings.Rows.{
  below, latest_of-append, numbered, order-numbered, rows_of-append, has_chunk-upsert_chunk,
  hashes_in, HasChunks, hashes-with_sizes,
}

HasChunks-upsert_chunk :
    (ref : ChunkRef) (chunks : List ChunkRow) (refs : List ChunkRef)
    → HasChunks chunks refs
    → HasChunks (upsert_chunk ref chunks) refs
HasChunks-upsert_chunk ref chunks [] h = tt
HasChunks-upsert_chunk ref chunks (r ∷ refs) h = (
  has_chunk-upsert_chunk r.hash ref chunks ∙ ground (arith, h.0),
  HasChunks-upsert_chunk ref chunks refs h.1,
)

module _ (version : String) (vs : List VersionRow) where
  -- While InsertVersion runs: the rows of its version, and chunks that are there.
  record Written (xs : List ManifestRow) (kept : List ChunkRef) (t : FileTables) : Type 0 where
    rows : rows_of version t.version_chunks ≡ xs
    versions : t.versions ≡ vs
    there : HasChunks t.chunks kept

  insert_manifest_row-Written :
      (xs : List ManifestRow) (kept : List ChunkRef) (r : ManifestRow) (t : FileTables)
      → str_eq version r.version_id ≡ true
      → Written xs kept t
      → (insert_manifest_row r t).0 ≡ ok tt
      → Written (xs ++ r ∷ []) kept (insert_manifest_row r t).1
  unfolding insert_manifest_row
  insert_manifest_row-Written xs kept r t mine w e =
      elim (Bool-cases (has_manifest_row r.version_id r.index t.version_chunks)) [
        | inl taken ↦ absurd (cc (rw taken at e))
        | inr free ↦
            rw free
              (elim (Bool-cases (
                not (has_version r.version_id t.versions)
                || not (has_chunk r.chunk_hash t.chunks))) [
                  | inl broken ↦ absurd (cc (rw (free, broken) at e))
                  | inr fine ↦ rw fine (record {
                    rows =
                        rows_of-append version t.version_chunks r mine
                        ∙ ap (λ (ys : List ManifestRow). ys ++ r ∷ []) w.rows;
                    versions = w.versions;
                    there = w.there;
                  })
                ])
      ]

  abbrev row_at : ℕ → ChunkRef → ManifestRow
  row_at i ref = record { version_id = version; index = i; chunk_hash = ref.hash }

  insert_chunk-Written :
      (i : ℕ) (ref : ChunkRef) (xs : List ManifestRow) (kept : List ChunkRef)
      → Leads
          (Written xs kept)
          (insert_chunk version i ref)
          (λ _. Written (xs ++ row_at i ref ∷ []) (ref ∷ kept))
  unfolding insert_chunk
  insert_chunk-Written i ref xs kept =
      Leads-bind (λ _. Written xs (ref ∷ kept)) _ _
        (Leads-stmt _ _ _ (λ t a w e. record {
          rows = w.rows;
          versions = w.versions;
          there = (
            has_chunk-upsert_chunk ref.hash ref t.chunks ∙ ground (arith, eq_refl ref.hash),
            HasChunks-upsert_chunk ref t.chunks kept w.there,
          );
        }))
        (λ _. Leads-stmt _ _ _ (λ t a w e.
          insert_manifest_row-Written xs (ref ∷ kept) (row_at i ref) t (eq_refl version) w e))

  insert_chunks-Written :
      (i : ℕ) (refs : List ChunkRef) (xs : List ManifestRow) (kept : List ChunkRef)
      → Leads
          (Written xs kept)
          (insert_chunks version i refs)
          (λ _ t. Written (xs ++ numbered version i refs) kept t × HasChunks t.chunks refs)
  unfolding insert_chunks
  insert_chunks-Written i [] xs kept = Leads-pure _ _ tt (λ t w.
      (record { rows = w.rows ∙ sym (append-nil xs); versions = w.versions; there = w.there }, tt))
  insert_chunks-Written i (ref ∷ refs) xs kept =
      Leads-bind _ _ _ (insert_chunk-Written i ref xs kept) (λ _.
        Leads-mono _ _ _ (λ t w. w)
          (λ a t (w, h). (
            record {
              rows = w.rows ∙ append_assoc xs (row_at i ref ∷ []) (numbered version (suc i) refs);
              versions = w.versions;
              there = w.there.1;
            },
            (w.there.0, h),
          ))
          (insert_chunks-Written (suc i) refs (xs ++ row_at i ref ∷ []) (ref ∷ kept)))

-- Where the latest version is `row`, its manifest is what InsertVersion was given.
Written-manifest_in :
    (id version : String) (row : VersionRow) (vs : List VersionRow) (refs : List ChunkRef)
    (t : FileTables)
    → row.version_id ≡ version
    → latest_of id vs ≡ some row
    → Written version vs (numbered version 0 refs) [] t × HasChunks t.chunks refs
    → hashes_in (manifest_in t (latest_of id t.versions)) ≡ hashes_in refs
unfolding manifest_in
Written-manifest_in id version row vs refs t same latest (w, there) =
    rw (w.versions, latest, same, w.rows, order-numbered version 0 refs)
      (hashes-with_sizes version 0 t.chunks refs there)

inserted-Written :
    (v : VersionRow) (vs : List VersionRow) (t : FileTables)
    → t.versions ≡ vs
    → rows_of v.version_id t.version_chunks ≡ []
    → (insert_version_row v t).0 ≡ ok tt
    → Written v.version_id (vs ++ v ∷ []) [] [] (insert_version_row v t).1
unfolding insert_version_row
inserted-Written v vs t q fresh e =
    elim (Bool-cases
      (has_version v.version_id t.versions || has_ordinal v.object_id v.ordinal t.versions)) [
        | inl taken ↦ absurd (cc (rw taken at e))
        | inr free ↦ rw free (elim (Option-cases (find_object v.object_id t.objects)) [
          | inl f ↦ absurd (cc (rw (free, f) at e))
          | inr (o, f) ↦ rw f (record {
            rows = fresh;
            versions = ap (λ (x : List VersionRow). x ++ v ∷ []) q;
            there = tt;
          })
        ])
      ]

manifest_of-manifest_in :
    (id : String)
    → (t0 : FileTables)
    → Leads
        (λ t. t ≡ t0)
        (manifest_of id)
        (λ out _. out ≡ manifest_in t0 (latest_of id t0.versions))
unfolding manifest_of
manifest_of-manifest_in id t0 = Leads-stmt _ _ _ (λ t a same e.
    let q : manifest_in t (latest_of id t.versions) ≡ a = cc in
    sym q ∙ ap (λ (x : FileTables). manifest_in x (latest_of id x.versions)) same)

pub insert_version-Written :
    (id version : String) (ordinal size : ℕ) (refs : List ChunkRef) (now : ℕ) (t0 : FileTables)
    → rows_of version t0.version_chunks ≡ []
    → below ordinal (max_of id t0.versions) ≡ true
    → Leads
        (λ t. t ≡ t0)
        (insert_version id version ordinal size refs now)
        (λ _ t. hashes_in (manifest_in t (latest_of id t.versions)) ≡ hashes_in refs)
unfolding insert_version
insert_version-Written id version ordinal size refs now t0 fresh high =
    Leads-bind (λ _. Written version (t0.versions ++ row ∷ []) [] []) _ _
      (Leads-translated _ _ (
        Leads-stmt _ _ _ (λ t a same e.
          inserted-Written row t0.versions t (ap (λ (x : FileTables). x.versions) same)
            (ap (λ (x : FileTables). rows_of version x.version_chunks) same ∙ fresh) e)))
      (λ _.
        Leads-mono _ _ _ (λ t w. w)
          (λ a t h.
            Written-manifest_in id version row (t0.versions ++ row ∷ []) refs t refl
              (latest_of-append id t0.versions row (eq_refl id) high) h)
          (insert_chunks-Written version (t0.versions ++ row ∷ []) 0 refs [] []))
  where
    row : VersionRow
    row = record {
      version_id = version;
      object_id = id;
      ordinal = ordinal;
      size = size;
      created = now;
    }

-- InsertVersion with an ordinal above all of the object's, under an identifier that no manifest row has
-- yet: if it returns no error, then the manifest that ManifestOf returns for the object has the hashes that
-- were given, all of them and in their order.
pub manifest_of-insert_version :
    (id version : String) (ordinal size : ℕ) (refs out : List ChunkRef) (now : ℕ)
    (db : Db FileTables)
    → rows_of version db.tables.version_chunks ≡ []
    → below ordinal (max_of id db.tables.versions) ≡ true
    → (insert_version id version ordinal size refs now db).0 ≡ ok tt
    → (manifest_of id (insert_version id version ordinal size refs now db).1).0 ≡ ok out
    → hashes_in out ≡ hashes_in refs
manifest_of-insert_version id version ordinal size refs out now db fresh high done answer =
    ap hashes_in (
      (manifest_of-manifest_in id (insert_version id version ordinal size refs now db).1.tables).run
        _ out refl answer)
    ∙ (insert_version-Written id version ordinal size refs now db.tables fresh high).run db tt refl
        done
