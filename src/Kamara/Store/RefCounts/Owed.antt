-- ===== src/Kamara/Store/RefCounts/Owed.antt =====
-- The counts of the chunks through InsertVersion of repos.go.
use peristera.Prelude.{
  ℕ, suc, ◌+◌, ◌≡◌, ◌∙◌, String, not, ◌||◌, List, [], ◌∷◌, ◌++◌, arith, eq_iff, Bool-cases,
  Option-cases, inl, inr, ok,
}
use peristera.Database.Rules.{Leads-translated, Leads, Leads-stmt, Leads-bind, Leads-pure}
use peristera.Kamara.Engine.{ChunkRef}
use peristera.Kamara.Tables.{
  pos, increment, VersionRow, ManifestRow, FileTables, has_version, has_ordinal, has_manifest_row,
  has_chunk, find_object,
}
use peristera.Kamara.Store.{
  occurrences, insert_version_row, upsert_chunk, insert_manifest_row, insert_chunk, insert_chunks,
  insert_version,
}
use peristera.Kamara.Store.RefCounts.Rows.{balance, refs_of, refs_of-append, balance-upsert_chunk}

-- Each chunk counts the references to it, and those that `owed` lists.
pub record Owes (owed : List String) (t : FileTables) : Type 0 where
  pub counted :
      (h : String) → balance h t.chunks ≡ pos (refs_of h t.version_chunks + occurrences h owed)

-- Every chunk's count is the number of references to it.
abbrev pub IsCounted : FileTables → Type 0
IsCounted = Owes []

upsert-Owes :
    (ref : ChunkRef) (owed : List String) (t : FileTables)
    → Owes owed t
    → Owes (ref.hash ∷ owed) (record t { chunks = upsert_chunk ref t.chunks })
unfolding occurrences increment
upsert-Owes ref owed t w = record {
  counted =
      λ h. balance-upsert_chunk h ref t.chunks ∙ ground (arith, w.counted h, eq_iff h ref.hash);
}

manifest-Owes :
    (r : ManifestRow) (owed : List String) (t : FileTables)
    → Owes (r.chunk_hash ∷ owed) t
    → Owes owed (record t { version_chunks = t.version_chunks ++ r ∷ [] })
unfolding occurrences
manifest-Owes r owed t w = record {
  counted = λ h. ground (arith, w.counted h, refs_of-append h t.version_chunks r);
}

insert_manifest_row-Owes :
    (r : ManifestRow) (owed : List String) (t : FileTables)
    → Owes (r.chunk_hash ∷ owed) t
    → (insert_manifest_row r t).0 ≡ ok tt
    → Owes owed (insert_manifest_row r t).1
unfolding insert_manifest_row
insert_manifest_row-Owes r owed t w e =
    elim (Bool-cases (has_manifest_row r.version_id r.index t.version_chunks)) [
      | inl taken ↦ cc (rw taken at e)
      | inr free ↦
          rw free
            (elim (Bool-cases (
              not (has_version r.version_id t.versions) || not (has_chunk r.chunk_hash t.chunks))) [
                | inl broken ↦ cc (rw (free, broken) at e)
                | inr fine ↦ rw fine (manifest-Owes r owed t w)
              ])
    ]

insert_chunk-Owes :
    (version : String) (i : ℕ) (ref : ChunkRef) (owed : List String)
    → Leads (Owes owed) (insert_chunk version i ref) (λ _. Owes owed)
unfolding insert_chunk
insert_chunk-Owes version i ref owed =
    Leads-bind (λ _. Owes (ref.hash ∷ owed)) _ _
      (Leads-stmt _ _ _ (λ t a w _. upsert-Owes ref owed t w))
      (λ _. Leads-stmt _ _ _ (λ t a w e. insert_manifest_row-Owes _ owed t w e))

insert_chunks-Owes :
    (version : String) (i : ℕ) (refs : List ChunkRef) (owed : List String)
    → Leads (Owes owed) (insert_chunks version i refs) (λ _. Owes owed)
unfolding insert_chunks
insert_chunks-Owes version i [] owed = Leads-pure _ _ tt (λ t w. w)
insert_chunks-Owes version i (ref ∷ refs) owed =
    Leads-bind (λ _. Owes owed) _ _ (insert_chunk-Owes version i ref owed)
      (λ _. insert_chunks-Owes version (suc i) refs owed)

insert_version_row-Owes :
    (v : VersionRow) (owed : List String) (t : FileTables)
    → Owes owed t
    → Owes owed (insert_version_row v t).1
unfolding insert_version_row
insert_version_row-Owes v owed t w =
    elim (Bool-cases
      (has_version v.version_id t.versions || has_ordinal v.object_id v.ordinal t.versions)) [
        | inl taken ↦ rw taken w
        | inr free ↦ rw free (elim (Option-cases (find_object v.object_id t.objects)) [
          | inl e ↦ rw e w
          | inr (o, e) ↦ rw e (record { counted = w.counted })
        ])
      ]

pub insert_version-IsCounted :
    (object version : String) (ordinal size : ℕ) (refs : List ChunkRef) (now : ℕ)
    → Leads IsCounted (insert_version object version ordinal size refs now) (λ _. IsCounted)
unfolding insert_version
insert_version-IsCounted object version ordinal size refs now =
    Leads-bind (λ _. IsCounted) _ _
      (Leads-translated _ _ (Leads-stmt _ _ _ (λ t a w e. insert_version_row-Owes _ [] t w)))
      (λ _. insert_chunks-Owes version 0 refs [])
