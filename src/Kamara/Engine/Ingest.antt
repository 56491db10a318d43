-- ===== src/Kamara/Engine/Ingest.antt =====
-- What `Ingest` of engine.go leaves in the blob store.
use mathlib.Core.Bool.{false≢true}
use peristera.Prelude.{
  ℕ, ◌+◌, ◌≡◌, sym, ap, ◌∙◌, inl, inr, String, true, Option, none, some, List, [], ◌∷◌, ◌++◌,
  length, ok, Error, Option-cases,
}
use peristera.Kamara.Blob.{BlobStore, is_some}
use peristera.Kamara.Crypto.{Primitives, Cipher, chunk_hash, open_blob}
use peristera.Kamara.Engine.{Progress}

-- The plaintexts that a store is about: BLAKE3 tells them apart, and the store takes their hashes.
pub record IsFamily (B : BlobStore) (prim : Primitives) (P : List ℕ → Type 0) : Type 0 where
  pub keys : (x : List ℕ) → P x → B.IsKey (chunk_hash prim x)
  pub no_collision : (x y : List ℕ) → P x → P y → chunk_hash prim x ≡ chunk_hash prim y → x ≡ y

module _ (B : BlobStore) (prim : Primitives) (c : Cipher) (P : List ℕ → Type 0) where
  -- Every blob opens to a plaintext that its key is the hash of.
  pub record IsSealed (s : B.State) : Type 0 where
    pub opens :
        (key : String) (blob : List ℕ)
        → B.contents s key ≡ some blob
        → (plain : List ℕ) × P plain
          × (chunk_hash prim plain ≡ key)
          × (open_blob prim c key blob ≡ ok plain)

  -- No blob is lost or replaced.
  pub record Grows (s t : B.State) : Type 0 where
    pub kept :
        (key : String) (blob : List ℕ) → B.contents s key ≡ some blob → B.contents t key ≡ some blob

  abbrev pub IsStored : B.State → List ℕ → Type 0
  IsStored s plain = is_some (B.contents s (chunk_hash prim plain)) ≡ true

  -- What a call of the callback on `plain` does.
  pub record Stores (plain : List ℕ) (p : Progress B prim c) (r : Option Error × Progress B prim c)
      : Type 0 where
    pub is_sealed : IsSealed r.1.blobs
    pub grows : Grows p.blobs r.1.blobs
    pub done :
        r.0 ≡ none
        → (r.1.refs ≡ p.refs ++ record { hash = chunk_hash prim plain; size = length plain } ∷ [])
          × (r.1.total ≡ p.total + length plain)
          × IsStored r.1.blobs plain

  pub unchanged-IsSealed :
      (s t : B.State) → ((j : String) → B.contents t j ≡ B.contents s j) → IsSealed s → IsSealed t
  unchanged-IsSealed s t same v = record {
    opens = λ key blob e. v.opens key blob (sym (same key) ∙ e);
  }

  pub unchanged-Grows :
      (s t : B.State) → ((j : String) → B.contents t j ≡ B.contents s j) → Grows s t
  unchanged-Grows s t same = record { kept = λ key blob e. same key ∙ e }

  pub Grows-trans : (s t u : B.State) → Grows s t → Grows t u → Grows s u
  Grows-trans s t u g h = record { kept = λ key blob e. h.kept key blob (g.kept key blob e) }

  pub Grows-IsStored : (s t : B.State) (x : List ℕ) → Grows s t → IsStored s x → IsStored t x
  Grows-IsStored s t x g h = elim (Option-cases (B.contents s (chunk_hash prim x))) [
    | inl e ↦ absurd (false≢true (sym (ap is_some e) ∙ h))
    | inr (blob, e) ↦ ap is_some (g.kept (chunk_hash prim x) blob e)
  ]

  -- A `Put` of a sealed chunk, with an error or not, keeps the store sealed.
  pub put-IsSealed :
      (plain blob : List ℕ) (s : B.State)
      → P plain
      → B.IsKey (chunk_hash prim plain)
      → open_blob prim c (chunk_hash prim plain) blob ≡ ok plain
      → IsSealed s
      → IsSealed (B.put (chunk_hash prim plain) blob s).1
        × Grows s (B.put (chunk_hash prim plain) blob s).1
  put-IsSealed plain blob s member key opened v =
      (record { opens = now_opens }, record { kept = keeps })
    where
      hash : String
      hash = chunk_hash prim plain

      now_opens :
          (j : String) (found : List ℕ)
          → B.contents (B.put hash blob s).1 j ≡ some found
          → (x : List ℕ) × P x × (chunk_hash prim x ≡ j) × (open_blob prim c j found ≡ ok x)
      now_opens j found e = elim (B.put_writes hash j blob s key) [
        | inl same ↦ v.opens j found (sym same ∙ e)
        | inr (at_key, before, after) ↦
            let same_blob : blob ≡ found = cc in
            (plain, member, sym at_key, rw (at_key, ← same_blob) opened)
      ]

      keeps :
          (j : String) (found : List ℕ)
          → B.contents s j ≡ some found
          → B.contents (B.put hash blob s).1 j ≡ some found
      keeps j found e = elim (B.put_writes hash j blob s key) [
        | inl same ↦ same ∙ e
        | inr (at_key, before, after) ↦ cc
      ]
