-- ===== src/Kamara/Store/Versions.antt =====
-- The ordinals of an object's versions in repos.go.
use peristera.Prelude.{
  ℕ, suc, ◌+◌, ◌≡◌, refl, ap, ◌∙◌, String, true, ◌||◌, not, some, List, [], ◌∷◌, ◌++◌, arith,
  str_eq, eq_refl, ok, Bool-cases, Option-cases, inl, inr,
}
use peristera.Prelude.Exec.{Keeps, Keeps-pure, Keeps-bind}
use peristera.Database.Rules.{
  Leads-translated, On, Leads, Leads-stmt, Leads-bind, Leads-mono, Keeps-Leads, Keeps-stmt,
}
use peristera.Kamara.Engine.{ChunkRef}
use peristera.Kamara.Tables.{
  VersionRow, ManifestRow, FileTables, has_version, has_ordinal, has_manifest_row, has_chunk,
  find_object,
}
use peristera.Kamara.Store.{
  insert_version_row, insert_manifest_row, insert_chunk, insert_chunks, insert_version, larger,
  max_of,
}

max_of-append :
    (id : String) (versions : List VersionRow) (v : VersionRow)
    → str_eq id v.object_id ≡ true
    → max_of id (versions ++ v ∷ []) ≡ larger v.ordinal (max_of id versions)
unfolding max_of larger
max_of-append id [] v e = rw e refl
max_of-append id (x ∷ versions) v e = ground (arith, max_of-append id versions v e)

max_of-next :
    (id : String) (versions : List VersionRow) (v : VersionRow) (m : ℕ)
    → str_eq id v.object_id ≡ true
    → max_of id versions ≡ some m
    → v.ordinal ≡ m + 1
    → max_of id (versions ++ v ∷ []) ≡ some v.ordinal
unfolding larger
max_of-next id versions v m e h k = max_of-append id versions v e ∙ ground arith

module _ (vs : List VersionRow) where
  abbrev Versions : FileTables → Type 0
  Versions t = t.versions ≡ vs

  insert_manifest_row-Versions :
      (r : ManifestRow) (t : FileTables) → Versions t → Versions (insert_manifest_row r t).1
  unfolding insert_manifest_row
  insert_manifest_row-Versions r t h =
      elim (Bool-cases (has_manifest_row r.version_id r.index t.version_chunks)) [
        | inl taken ↦ rw taken h
        | inr free ↦
            rw free
              (elim (Bool-cases (
                not (has_version r.version_id t.versions)
                || not (has_chunk r.chunk_hash t.chunks))) [
                  | inl broken ↦ rw broken h
                  | inr fine ↦ rw fine h
                ])
      ]

  insert_chunks-Versions :
      (version : String) (i : ℕ) (refs : List ChunkRef)
      → Keeps (On Versions) (insert_chunks version i refs)
  unfolding insert_chunks insert_chunk
  insert_chunks-Versions version i [] = Keeps-pure tt
  insert_chunks-Versions version i (ref ∷ refs) =
      Keeps-bind _ _
        (Keeps-bind _ _ (Keeps-stmt Versions _ (λ t h. h))
          (λ _. Keeps-stmt Versions _ (λ t h. insert_manifest_row-Versions _ t h)))
        (λ _. insert_chunks-Versions version (suc i) refs)

insert_version_row-versions :
    (v : VersionRow) (t : FileTables)
    → (insert_version_row v t).0 ≡ ok tt
    → (insert_version_row v t).1.versions ≡ t.versions ++ v ∷ []
unfolding insert_version_row
insert_version_row-versions v t e =
    elim (Bool-cases
      (has_version v.version_id t.versions || has_ordinal v.object_id v.ordinal t.versions)) [
        | inl taken ↦ cc (rw taken at e)
        | inr free ↦ rw free (elim (Option-cases (find_object v.object_id t.objects)) [
          | inl f ↦ cc (rw (free, f) at e)
          | inr (o, f) ↦ rw f refl
        ])
      ]

-- InsertVersion with the ordinal after the latest makes it the latest.
pub insert_version-max_of :
    (id version : String) (m n size : ℕ) (refs : List ChunkRef) (now : ℕ) (vs : List VersionRow)
    → n ≡ m + 1
    → max_of id vs ≡ some m
    → Leads
        (λ t. t.versions ≡ vs)
        (insert_version id version n size refs now)
        (λ _ t. max_of id t.versions ≡ some n)
unfolding insert_version
insert_version-max_of id version m n size refs now vs next h =
    Leads-bind (λ _ t. t.versions ≡ vs ++ row ∷ []) _ _
      (Leads-translated _ _ (
        Leads-stmt _ _ _ (λ t a q e.
          insert_version_row-versions row t e ∙ ap (λ (x : List VersionRow). x ++ row ∷ []) q)))
      (λ _.
        Leads-mono _ _ _ (λ t q. q) (λ a t q. rw q (max_of-next id vs row m (eq_refl id) h next))
          (Keeps-Leads _ _ (insert_chunks-Versions (vs ++ row ∷ []) version 0 refs)))
  where
    row : VersionRow
    row = record { version_id = version; object_id = id; ordinal = n; size = size; created = now }
