-- ===== src/Kamara/Store/RefCounts/Rows.antt =====
-- What the statements of repos.go do to the count of one chunk and to the references to it.
use peristera.Prelude.{
  ℕ, suc, zero, ◌+◌, ◌≤◌, ◌≡◌, refl, String, Bool, true, false, not, ◌&&◌, List, [], ◌∷◌, ◌++◌,
  length, arith, str_eq, eq_iff, eq_refl, if◌then◌else◌, Bool-cases, inl, inr,
}
use peristera.Kamara.Engine.{ChunkRef}
use peristera.Kamara.Tables.{
  ℤ, pos, increment, ◌-ℤ◌, VersionRow, ManifestRow, ChunkRow, member, has_chunk, references,
}
use peristera.Kamara.Store.{
  manifest_without, hashes_of, occurrences, without, distinct_from, distinct, add_reference,
  upsert_chunk, drop_references, orphans_in, without_chunks, still_referenced,
}

-- The count of a chunk, which is zero where it has no row.
unfoldable pub balance : String → List ChunkRow → ℤ
balance h [] = pos 0
balance h (c ∷ chunks) = if str_eq h c.hash then c.ref_count else balance h chunks

-- The references to a chunk.
unfoldable pub refs_of : String → List ManifestRow → ℕ
refs_of h [] = 0
refs_of h (r ∷ rows) = let rest = refs_of h rows in if str_eq h r.chunk_hash then suc rest else rest

pub refs_of-append :
    (h : String) (rows : List ManifestRow) (r : ManifestRow)
    → refs_of h (rows ++ r ∷ [])
      ≡ (if str_eq h r.chunk_hash then suc (refs_of h rows) else refs_of h rows)
unfolding refs_of
refs_of-append h [] r = refl
refs_of-append h (x ∷ rows) r = ground (arith, refs_of-append h rows r)

-- An object's hashes are the references that its deletion removes.
pub refs_of-manifest_without :
    (h id : String) (versions : List VersionRow) (rows : List ManifestRow)
    → refs_of h rows
      ≡ refs_of h (manifest_without id versions rows) + occurrences h (hashes_of id versions rows)
unfolding refs_of manifest_without occurrences hashes_of
refs_of-manifest_without h id versions [] = refl
refs_of-manifest_without h id versions (r ∷ rows) =
    ground (arith, refs_of-manifest_without h id versions rows)

balance-add_reference :
    (h j : String) (chunks : List ChunkRow)
    → balance h (add_reference j chunks) ≡ (
        if str_eq h j && has_chunk j chunks then increment (balance h chunks) else balance h chunks)
unfolding balance add_reference has_chunk
balance-add_reference h j [] = ground arith
balance-add_reference h j (c ∷ chunks) =
    ground (arith, balance-add_reference h j chunks, eq_iff h j, eq_iff j c.hash, eq_iff h c.hash)

-- A chunk without a row counts no reference.
pub has_chunk-balance :
    (h : String) (chunks : List ChunkRow) → has_chunk h chunks ≡ false → balance h chunks ≡ pos 0
unfolding balance has_chunk
has_chunk-balance h [] e = refl
has_chunk-balance h (c ∷ chunks) e = ground (arith, has_chunk-balance h chunks)

balance-append :
    (h : String) (chunks : List ChunkRow) (c : ChunkRow)
    → has_chunk c.hash chunks ≡ false
    → balance h (chunks ++ c ∷ []) ≡ (if str_eq h c.hash then c.ref_count else balance h chunks)
unfolding balance has_chunk
balance-append h [] c e = refl
balance-append h (x ∷ chunks) c e =
    ground
      (arith, balance-append h chunks c, eq_iff h c.hash, eq_iff c.hash x.hash, eq_iff h x.hash)

pub balance-upsert_chunk :
    (h : String) (ref : ChunkRef) (chunks : List ChunkRow)
    → balance h (upsert_chunk ref chunks)
      ≡ (if str_eq h ref.hash then increment (balance h chunks) else balance h chunks)
unfolding upsert_chunk increment
balance-upsert_chunk h ref chunks = elim (Bool-cases (has_chunk ref.hash chunks)) [
  | inl e ↦ rw e (ground (arith, balance-add_reference h ref.hash chunks))
  | inr e ↦ rw e (
      ground (
        arith,
        balance-append h chunks (record { hash = ref.hash; size = ref.size; ref_count = pos 1 }) e,
        has_chunk-balance ref.hash chunks e,
        eq_iff h ref.hash,
      ))
]

pub balance-drop_references :
    (h j : String) (n : ℕ) (chunks : List ChunkRow)
    → balance h (drop_references j n chunks)
      ≡ (if str_eq h j && has_chunk j chunks then balance h chunks -ℤ n else balance h chunks)
unfolding balance drop_references has_chunk
balance-drop_references h j n [] = ground arith
balance-drop_references h j n (c ∷ chunks) =
    ground
      (arith, balance-drop_references h j n chunks, eq_iff h j, eq_iff j c.hash, eq_iff h c.hash)

pub balance-without_chunks :
    (h : String) (hashes : List String) (chunks : List ChunkRow)
    → balance h (without_chunks hashes chunks)
      ≡ (if member h hashes then pos 0 else balance h chunks)
unfolding balance without_chunks
balance-without_chunks h hashes [] = ground arith
balance-without_chunks h hashes (c ∷ chunks) =
    ground (arith, balance-without_chunks h hashes chunks, eq_iff h c.hash)

pub has_chunk-drop_references :
    (h j : String) (n : ℕ) (chunks : List ChunkRow)
    → has_chunk h (drop_references j n chunks) ≡ has_chunk h chunks
unfolding drop_references has_chunk
has_chunk-drop_references h j n [] = refl
has_chunk-drop_references h j n (c ∷ chunks) =
    ground (arith, has_chunk-drop_references h j n chunks, eq_iff h c.hash)

pub balance-has_chunk :
    (h : String) (n : ℕ) (chunks : List ChunkRow)
    → balance h chunks ≡ pos (suc n)
    → has_chunk h chunks ≡ true
unfolding balance has_chunk
balance-has_chunk h n [] e = ground arith
balance-has_chunk h n (c ∷ chunks) e = ground (arith, balance-has_chunk h n chunks)

pub orphans_in-member :
    (h : String) (hashes : List String) (chunks : List ChunkRow)
    → member h (orphans_in hashes chunks) ≡ true
    → (member h hashes ≡ true) × (has_chunk h chunks ≡ true)
unfolding orphans_in has_chunk member
orphans_in-member h hashes [] e = cc
orphans_in-member h hashes (c ∷ chunks) e =
    ground (arith, orphans_in-member h hashes chunks, eq_iff h c.hash)

pub member-orphans_in :
    (h : String) (hashes : List String) (chunks : List ChunkRow)
    → member h hashes ≡ true
    → has_chunk h chunks ≡ true
    → balance h chunks ≡ pos 0
    → member h (orphans_in hashes chunks) ≡ true
unfolding orphans_in has_chunk balance member
member-orphans_in h hashes [] m k e = cc
member-orphans_in h hashes (c ∷ chunks) m k e =
    ground (arith, member-orphans_in h hashes chunks, eq_iff h c.hash)

-- A deletion that the references allow removes chunks that nothing refers to.
pub still_referenced-references :
    (h : String) (hashes : List String) (chunks : List ChunkRow) (rows : List ManifestRow)
    → still_referenced hashes chunks rows ≡ false
    → member h hashes ≡ true
    → has_chunk h chunks ≡ true
    → references h rows ≡ false
unfolding still_referenced has_chunk
still_referenced-references h hashes [] rows s m k = cc
still_referenced-references h hashes (c ∷ chunks) rows s m k =
    ground (arith, still_referenced-references h hashes chunks rows, eq_iff h c.hash)

pub references-refs_of :
    (h : String) (rows : List ManifestRow) → references h rows ≡ false → refs_of h rows ≡ 0
unfolding references refs_of
references-refs_of h [] e = refl
references-refs_of h (r ∷ rows) e = ground (arith, references-refs_of h rows)

member-without :
    (h j : String) (hs : List String) → member h (without j hs) ≡ (member h hs && not (str_eq j h))
unfolding member without
member-without h j [] = ground arith
member-without h j (x ∷ hs) =
    ground (arith, member-without h j hs, eq_iff j x, eq_iff h x, eq_iff j h)

length-without : (j : String) (hs : List String) → length (without j hs) ≤ length hs
unfolding without
length-without j [] = omega arith
length-without j (x ∷ hs) = ground (arith, length-without j hs)

member-distinct_from :
    (n : ℕ) (h : String) (hs : List String)
    → length hs ≤ n
    → member h (distinct_from n hs) ≡ member h hs
unfolding distinct_from member
member-distinct_from zero h [] k = refl
member-distinct_from zero h (x ∷ hs) k = ground arith
member-distinct_from (suc n) h [] k = refl
member-distinct_from (suc n) h (x ∷ hs) k = ground (
  arith,
  member-distinct_from n h (without x hs),
  member-without h x hs,
  length-without x hs,
  eq_iff h x,
  eq_iff x h,
)

pub occurrences-member :
    (h : String) (hs : List String) → member h hs ≡ false → occurrences h hs ≡ 0
unfolding member occurrences
occurrences-member h [] e = refl
occurrences-member h (x ∷ hs) e = ground (arith, occurrences-member h hs)

pub member-occurrences :
    (h : String) (hs : List String) → member h hs ≡ true → (n : ℕ) × (occurrences h hs ≡ suc n)
unfolding member occurrences
member-occurrences h [] e = cc
member-occurrences h (x ∷ hs) e = elim (Bool-cases (str_eq h x)) [
  | inl hit ↦ (occurrences h hs, rw hit refl)
  | inr miss ↦ rw miss (member-occurrences h hs (rw miss at e))
]

-- No hash stands twice.
unfoldable pub is_distinct : List String → Bool
is_distinct [] = true
is_distinct (h ∷ hs) = not (member h hs) && is_distinct hs

distinct_from-is_distinct :
    (n : ℕ) (hs : List String) → length hs ≤ n → is_distinct (distinct_from n hs) ≡ true
unfolding distinct_from is_distinct
distinct_from-is_distinct zero hs k = refl
distinct_from-is_distinct (suc n) [] k = refl
distinct_from-is_distinct (suc n) (x ∷ hs) k = ground (
  arith,
  distinct_from-is_distinct n (without x hs),
  member-distinct_from n x (without x hs),
  member-without x x hs,
  length-without x hs,
  eq_refl x,
)

pub member-distinct : (h : String) (hs : List String) → member h (distinct hs) ≡ member h hs
member-distinct h hs = member-distinct_from (length hs) h hs (omega arith)

pub is_distinct-distinct : (hs : List String) → is_distinct (distinct hs) ≡ true
is_distinct-distinct hs = distinct_from-is_distinct (length hs) hs (omega arith)
