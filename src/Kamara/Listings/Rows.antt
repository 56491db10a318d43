-- ===== src/Kamara/Listings/Rows.antt =====
-- The rows of one version in repos.go: their order, their chunks, and the latest version of an object.
use peristera.Prelude.{
  ℕ, suc, ◌≡◌, refl, sym, ap, ◌∙◌, String, Bool, true, false, ◌&&◌, ◌||◌, Option, none, some, List,
  [], ◌∷◌, ◌++◌, All, arith, str_eq, eq_iff, ltb, Bool-cases, inl, inr,
}
use peristera.Kamara.Engine.{ChunkRef}
use peristera.Kamara.Tables.{VersionRow, ManifestRow, ChunkRow, has_chunk}
use peristera.Kamara.Store.{add_reference, upsert_chunk, larger, max_of}
use peristera.Kamara.Listings.{
  insert_by_key, order_by_key, newer, latest_of, rows_of, size_of, with_sizes,
}

-- No ordinal that is at least `n`.
abbrev pub below : ℕ → Option ℕ → Bool
below n none = true
below n (some m) = ltb m n

below-larger : (n a : ℕ) (o : Option ℕ) → below n (larger a o) ≡ (ltb a n && below n o)
unfolding larger
below-larger n a none = ground arith
below-larger n a (some m) = ground arith

newer-some :
    (id : String) (x v : VersionRow)
    → (str_eq id x.object_id ≡ true → ltb x.ordinal v.ordinal ≡ true)
    → newer id x (some v) ≡ some v
newer-some id x v k = ground arith

pub latest_of-append :
    (id : String) (versions : List VersionRow) (v : VersionRow)
    → str_eq id v.object_id ≡ true
    → below v.ordinal (max_of id versions) ≡ true
    → latest_of id (versions ++ v ∷ []) ≡ some v
unfolding latest_of max_of
latest_of-append id [] v e b = rw e refl
latest_of-append id (x ∷ versions) v e b = elim (Bool-cases (str_eq id x.object_id)) [
  | inl mine ↦
      let both : (ltb x.ordinal v.ordinal && below v.ordinal (max_of id versions)) ≡ true =
        sym (below-larger v.ordinal x.ordinal (max_of id versions)) ∙ (rw mine at b) in
      rw (latest_of-append id versions v e (ground arith)) (newer-some id x v (λ q. ground arith))
  | inr other ↦ rw (latest_of-append id versions v e (rw other at b)) (newer-some id x v (λ q. cc))
]

-- The rows that InsertVersion writes.
abbrev pub numbered : String → ℕ → List ChunkRef → List ManifestRow
numbered version i [] = []
numbered version i (ref ∷ refs) =
    record { version_id = version; index = i; chunk_hash = ref.hash }
    ∷ numbered version (suc i) refs

pub order-numbered :
    (version : String) (i : ℕ) (refs : List ChunkRef)
    → order_by_key (λ (r : ManifestRow). r.index) (numbered version i refs)
      ≡ numbered version i refs
unfolding order_by_key insert_by_key
order-numbered version i [] = refl
order-numbered version i (ref ∷ []) = refl
order-numbered version i (ref ∷ next ∷ refs) =
    let later : ltb (suc i) i ≡ false = ground arith in
    rw (order-numbered version (suc i) (next ∷ refs), later) refl

pub rows_of-append :
    (version : String) (rows : List ManifestRow) (r : ManifestRow)
    → str_eq version r.version_id ≡ true
    → rows_of version (rows ++ r ∷ []) ≡ rows_of version rows ++ r ∷ []
unfolding rows_of
rows_of-append version [] r e = rw e refl
rows_of-append version (x ∷ rows) r e = elim (Bool-cases (str_eq version x.version_id)) [
  | inl mine ↦ rw mine (ap (λ (ys : List ManifestRow). x ∷ ys) (rows_of-append version rows r e))
  | inr other ↦ rw other (rows_of-append version rows r e)
]

has_chunk-add_reference :
    (h j : String) (chunks : List ChunkRow)
    → has_chunk h (add_reference j chunks) ≡ has_chunk h chunks
unfolding has_chunk add_reference
has_chunk-add_reference h j [] = refl
has_chunk-add_reference h j (c ∷ chunks) =
    ground (arith, has_chunk-add_reference h j chunks, eq_iff h c.hash)

has_chunk-append :
    (h : String) (chunks : List ChunkRow) (c : ChunkRow)
    → has_chunk h (chunks ++ c ∷ []) ≡ (has_chunk h chunks || str_eq h c.hash)
unfolding has_chunk
has_chunk-append h [] c = ground arith
has_chunk-append h (x ∷ chunks) c = ground (arith, has_chunk-append h chunks c)

pub has_chunk-upsert_chunk :
    (h : String) (ref : ChunkRef) (chunks : List ChunkRow)
    → has_chunk h (upsert_chunk ref chunks) ≡ (has_chunk h chunks || str_eq h ref.hash)
unfolding upsert_chunk
has_chunk-upsert_chunk h ref chunks = elim (Bool-cases (has_chunk ref.hash chunks)) [
  | inl there ↦
      rw there (has_chunk-add_reference h ref.hash chunks ∙ ground (arith, eq_iff h ref.hash))
  | inr gone ↦ rw gone (has_chunk-append h chunks _)
]

size_of-some :
    (h : String) (chunks : List ChunkRow)
    → has_chunk h chunks ≡ true
    → (n : ℕ) × (size_of h chunks ≡ some n)
unfolding size_of has_chunk
size_of-some h [] e = absurd (cc e)
size_of-some h (c ∷ chunks) e = elim (Bool-cases (str_eq h c.hash)) [
  | inl hit ↦ (c.size, rw hit refl)
  | inr miss ↦ rw miss (size_of-some h chunks (rw miss at e))
]

abbrev pub hashes_in : List ChunkRef → List String
hashes_in [] = []
hashes_in (ref ∷ refs) = ref.hash ∷ hashes_in refs

-- Every hash has its chunk.
abbrev pub HasChunks : List ChunkRow → List ChunkRef → Type 0
HasChunks chunks = All (λ (ref : ChunkRef). has_chunk ref.hash chunks ≡ true)

pub hashes-with_sizes :
    (version : String) (i : ℕ) (chunks : List ChunkRow) (refs : List ChunkRef)
    → HasChunks chunks refs
    → hashes_in (with_sizes chunks (numbered version i refs)) ≡ hashes_in refs
unfolding with_sizes
hashes-with_sizes version i chunks [] h = refl
hashes-with_sizes version i chunks (ref ∷ refs) h =
    let (n, e) = size_of-some ref.hash chunks h.0 in
    rw e
      (ap (λ (hs : List String). ref.hash ∷ hs) (hashes-with_sizes version (suc i) chunks refs h.1))
