-- ===== src/Kamara/Store/RefCounts/Reclaim.antt =====
-- The counts of the chunks through DecRef, DeleteChunks and reclaimObject of repos.go and file.go.
use peristera.Prelude.{
  ◌+◌, ◌≡◌, ◌↔◌, refl, sym, ap, ◌∙◌, String, true, false, List, [], ◌∷◌, arith, if◌then◌else◌,
  Bool-cases, inl, inr, ok,
}
use peristera.Prelude.Exec.{pure, ◌>>=◌, ◌>>◌}
use peristera.Database.{Db}
use peristera.Database.Rules.{Leads, Leads-stmt, Leads-bind, Leads-pure}
use peristera.Kamara.Tables.{pos, ManifestRow, FileTables, member, has_chunk}
use peristera.Kamara.Store.{
  Store, manifest_without, hashes_of, occurrences, object_deleted, delete_object, chunk_hashes_of,
  dec_ref, without_chunks, still_referenced, chunks_deleted, delete_chunks, reclaim_object,
}
use peristera.Kamara.Store.RefCounts.Rows.{
  balance, refs_of, refs_of-manifest_without, balance-without_chunks, still_referenced-references,
  references-refs_of, has_chunk-balance,
}
use peristera.Kamara.Store.RefCounts.Owed.{Owes, IsCounted}
use peristera.Kamara.Store.RefCounts.Decrement.{Decremented, dec_ref-Decremented}

-- What reclaimObject leaves and returns, for an object with `hashes` and the manifest without it.
pub record Reclaimed (rows : List ManifestRow) (hashes orphans : List String) (t : FileTables)
    : Type 0 where
  pub same : t.version_chunks ≡ rows
  pub is_counted : IsCounted t
  pub exact :
      (h : String)
      → (member h orphans ≡ true) ↔ ((member h hashes ≡ true) × (refs_of h t.version_chunks ≡ 0))

nothing-Reclaimed :
    (rows : List ManifestRow) (hashes : List String) (t : FileTables)
    → Decremented rows hashes [] t
    → Reclaimed rows hashes [] t
unfolding member
nothing-Reclaimed rows hashes t w = record {
  same = w.same;
  is_counted = w.is_counted;
  exact = λ h. (λ m. (cc, cc), λ (m, e). w.found h m (rw w.same at e));
}

without_chunks-IsCounted :
    (hashes : List String) (t : FileTables)
    → still_referenced hashes t.chunks t.version_chunks ≡ false
    → IsCounted t
    → IsCounted (record t { chunks = without_chunks hashes t.chunks })
unfolding occurrences
without_chunks-IsCounted hashes t free w = record {
  counted = λ h. balance-without_chunks h hashes t.chunks ∙ now h;
}
  where
    unused : (h : String) → member h hashes ≡ true → pos 0 ≡ pos (refs_of h t.version_chunks + 0)
    unused h m = elim (Bool-cases (has_chunk h t.chunks)) [
      | inl there ↦ ap pos (
          omega (
            arith,
            references-refs_of h t.version_chunks
                (still_referenced-references h hashes t.chunks t.version_chunks free m there),
          ))
      | inr gone ↦ sym (has_chunk-balance h t.chunks gone) ∙ w.counted h
    ]

    now :
        (h : String)
        → (if member h hashes then pos 0 else balance h t.chunks)
          ≡ pos (refs_of h t.version_chunks + 0)
    now h = elim (Bool-cases (member h hashes)) [
      | inl m ↦ rw m (unused h m)
      | inr m ↦ rw m (w.counted h)
    ]

deleted-Reclaimed :
    (rows : List ManifestRow) (hashes orphans : List String) (t : FileTables)
    → still_referenced orphans t.chunks t.version_chunks ≡ false
    → Decremented rows hashes orphans t
    → Reclaimed rows hashes orphans (record t { chunks = without_chunks orphans t.chunks })
deleted-Reclaimed rows hashes orphans t free w = record {
  same = w.same;
  is_counted = without_chunks-IsCounted orphans t free w.is_counted;
  exact = λ h. (
    λ m.
        let (listed, there) = w.orphan h m in
        (
          listed,
          references-refs_of h t.version_chunks
              (still_referenced-references h orphans t.chunks t.version_chunks free m there),
        ),
    λ (m, e). w.found h m (rw w.same at e),
  );
}

chunks_deleted-Reclaimed :
    (rows : List ManifestRow) (hashes orphans : List String) (t : FileTables)
    → Decremented rows hashes orphans t
    → (chunks_deleted orphans t).0 ≡ ok tt
    → Reclaimed rows hashes orphans (chunks_deleted orphans t).1
unfolding chunks_deleted
chunks_deleted-Reclaimed rows hashes orphans t w e =
    elim (Bool-cases (still_referenced orphans t.chunks t.version_chunks)) [
      | inl kept ↦ cc (rw kept at e)
      | inr free ↦ rw free (deleted-Reclaimed rows hashes orphans t free w)
    ]

delete_chunks-Reclaimed :
    (rows : List ManifestRow) (hashes orphans : List String)
    → Leads
        (Decremented rows hashes orphans)
        (delete_chunks orphans)
        (λ _. Reclaimed rows hashes orphans)
unfolding delete_chunks
delete_chunks-Reclaimed rows hashes [] =
    Leads-pure _ _ tt (λ t w. nothing-Reclaimed rows hashes t w)
delete_chunks-Reclaimed rows hashes (h ∷ hs) =
    Leads-stmt _ _ _ (λ t a w e. chunks_deleted-Reclaimed rows hashes (h ∷ hs) t w e)

-- The rows of the other objects, and the hashes of one.
abbrev pub rows_left : String → FileTables → List ManifestRow
rows_left id t = manifest_without id t.versions t.version_chunks

abbrev pub object_hashes : String → FileTables → List String
object_hashes id t = hashes_of id t.versions t.version_chunks

object_deleted-Owes :
    (id : String) (t : FileTables) → IsCounted t → Owes (object_hashes id t) (object_deleted id t)
unfolding object_deleted occurrences
object_deleted-Owes id t w = record {
  counted = λ h.
      w.counted h
      ∙ ap pos (omega (arith, refs_of-manifest_without h id t.versions t.version_chunks));
}

-- The rest of reclaimObject after the object is deleted.
abbrev collect : List String → Store (List String)
collect hashes = do orphans ← dec_ref hashes; delete_chunks orphans; pure orphans

collect-Reclaimed :
    (rows : List ManifestRow) (hashes : List String)
    → Leads
        (λ t. (t.version_chunks ≡ rows) × Owes hashes t)
        (collect hashes)
        (λ o t. Reclaimed rows hashes o t)
collect-Reclaimed rows hashes =
    Leads-bind (λ o t. Decremented rows hashes o t) _ _ (dec_ref-Decremented rows hashes)
      (λ o.
        Leads-bind (λ _ t. Reclaimed rows hashes o t) _ _ (delete_chunks-Reclaimed rows hashes o)
          (λ _. Leads-pure _ _ o (λ t w. w)))

-- What holds between ChunkHashesOf and DeleteObject.
abbrev Listed : String → FileTables → List String → FileTables → Type 0
Listed id t0 hashes t = (hashes ≡ object_hashes id t0) × (t ≡ t0) × IsCounted t

delete_object-Owes :
    (id : String) (t0 : FileTables) (hashes : List String)
    → Leads (Listed id t0 hashes) (delete_object id) (λ _ t.
      (hashes ≡ object_hashes id t0) × (t.version_chunks ≡ rows_left id t0) × Owes hashes t)
unfolding delete_object object_deleted
delete_object-Owes id t0 hashes =
    Leads-stmt _ _ _ (λ t a (q, same, w) e.
      (q, ap (rows_left id) same, rw (q, ← same) (object_deleted-Owes id t w)))

reclaim_object-Leads :
    (id : String) (t0 : FileTables)
    → Leads
        (λ t. (t ≡ t0) × IsCounted t)
        (reclaim_object id)
        (λ o t. Reclaimed (rows_left id t0) (object_hashes id t0) o t)
unfolding reclaim_object chunk_hashes_of
reclaim_object-Leads id t0 =
    Leads-bind (λ hashes t. Listed id t0 hashes t) _ _
      (Leads-stmt _ _ _ (λ t a (same, w) e.
        let q : object_hashes id t ≡ a = cc in (sym q ∙ ap (object_hashes id) same, same, w)))
      (λ hashes. Leads-bind _ _ _ (delete_object-Owes id t0 hashes) (λ _. record {
        run = λ db o (q, same, w) e.
            rw (← q) ((collect-Reclaimed (rows_left id t0) hashes).run db o (same, w) e);
      }))

-- After reclaimObject has returned no error, the manifest has lost the rows of the object and no
-- others, every chunk's count is still the number of references to it, and the hashes that are
-- returned, whose blobs are deleted next, are exactly those of the object that no row refers to now.
pub reclaim_object-Reclaimed :
    (id : String) (db : Db FileTables) (orphans : List String)
    → IsCounted db.tables
    → (reclaim_object id db).0 ≡ ok orphans
    → Reclaimed
        (rows_left id db.tables)
        (object_hashes id db.tables)
        orphans
        (reclaim_object id db).1.tables
reclaim_object-Reclaimed id db orphans w e =
    (reclaim_object-Leads id db.tables).run db orphans (refl, w) e
