-- ===== src/Examples/Engine.antt =====
-- The theorems on the chunk engine, at small sizes (kamara/internal/chunk, crypto, engine).
use peristera.Prelude.{
  ℕ, suc, ◌+◌, ◌≡◌, ◌⊎◌, inl, inr, refl, sym, subst, ◌∙◌, String, Option, none, some, List, [], ◌∷◌,
  ◌++◌, arith, length, concat, take, drop, All, Result, ok, err, Error,
}
use peristera.Kamara.Blob.Fs.{FilePath, path, is_hex, lookup}
use peristera.Kamara.Blob.Instance.{at_path}
use peristera.Kamara.Chunk.{cutpoint}
use peristera.Kamara.Chunk.Canonical.{chunks, IsSized, chunks-IsSized}
use peristera.Kamara.Chunk.Split.{split}
use peristera.Kamara.Chunk.Split.EmptyRead.{split-empty_read}
use peristera.Kamara.Chunk.Split.Stream.{each, split-each}
use peristera.Kamara.Crypto.{chunk_hash, seal, open_blob}
use peristera.Kamara.Crypto.Seal.{open_blob-seal, open_blob-authentic}
use peristera.Kamara.Engine.{ChunkRef, Writer, Progress, ingest, reassemble, store_chunk}
use peristera.Kamara.Engine.Ingest.{IsFamily, IsSealed, Grows, Stores}
use peristera.Kamara.Engine.Callback.{store_chunk-Stores}
use peristera.Kamara.Engine.RoundTrip.{IsReliable, ingest-reassemble}
use peristera.Examples.Base.{
  small_sizes, small_sizes-IsValid, plain_hashes, cipher, store, empty_disk,
}

abbrev content : List ℕ
content = 10 ∷ 11 ∷ 12 ∷ 13 ∷ 14 ∷ 15 ∷ 16 ∷ 17 ∷ []

chunks-IsSized_example :
    IsSized small_sizes (chunks small_sizes content)
    × (concat (chunks small_sizes content) ≡ content)
chunks-IsSized_example = chunks-IsSized small_sizes content small_sizes-IsValid

-- Three reads, and a callback that counts its calls.
abbrev pub reads : List (List ℕ)
reads = (10 ∷ []) ∷ (11 ∷ 12 ∷ 13 ∷ 14 ∷ 15 ∷ []) ∷ (16 ∷ 17 ∷ []) ∷ []

abbrev count_calls : List ℕ → ℕ → Option Error × ℕ
count_calls chunk n = (none, n + 1)

split-each_example :
    split count_calls
      (suc (length (concat reads)))
      small_sizes
      (record { pending = reads; ending = none })
      0
    ≡ some (each count_calls (chunks small_sizes (concat reads)) 0)
split-each_example =
    split-each count_calls small_sizes small_sizes-IsValid reads 0
      (omega arith, (omega arith, (omega arith, tt)))

abbrev blob : List ℕ
blob = 1 ∷ 1 ∷ 1 ∷ 7 ∷ 10 ∷ 11 ∷ []

seal_run : seal plain_hashes cipher 0 (10 ∷ 11 ∷ []) ≡ ok ("0a0b", blob)
unfolding seal
seal_run = refl

open_blob-seal_example :
    ("0a0b" ≡ chunk_hash plain_hashes (10 ∷ 11 ∷ []))
    × (open_blob plain_hashes cipher "0a0b" blob ≡ ok (10 ∷ 11 ∷ []))
open_blob-seal_example = open_blob-seal plain_hashes cipher 0 (10 ∷ 11 ∷ []) "0a0b" blob seal_run

open_run : open_blob plain_hashes cipher "0a0b" blob ≡ ok (10 ∷ 11 ∷ [])
unfolding open_blob drop
open_run = refl

open_blob-authentic_example : chunk_hash plain_hashes (10 ∷ 11 ∷ []) ≡ "0a0b"
open_blob-authentic_example =
    open_blob-authentic plain_hashes cipher "0a0b" blob (10 ∷ 11 ∷ []) open_run

abbrev first : List ℕ
first = 10 ∷ 11 ∷ 12 ∷ 13 ∷ 14 ∷ 15 ∷ []

abbrev second : List ℕ
second = 16 ∷ 17 ∷ []

-- The two chunks of `content`.
abbrev pub IsChunk : List ℕ → Type 0
IsChunk x = (x ≡ first) ⊎ (x ≡ second)

abbrev first_path : FilePath
first_path = record { root = "/blobs"; shard1 = "0a"; shard2 = "0b"; name = "0a0b0c0d0e0f" }

abbrev second_path : FilePath
second_path = record { root = "/blobs"; shard1 = "10"; shard2 = "11"; name = "1011" }

chunk_keys : (x : List ℕ) → IsChunk x → store.IsKey (chunk_hash plain_hashes x)
unfolding chunk_hash path is_hex
chunk_keys x (inl e) = rw e (first_path, refl)
chunk_keys x (inr e) = rw e (second_path, refl)

no_collision :
    (x y : List ℕ)
    → IsChunk x
    → IsChunk y
    → chunk_hash plain_hashes x ≡ chunk_hash plain_hashes y
    → x ≡ y
unfolding chunk_hash
no_collision x y (inl e) (inl f) h = e ∙ sym f
no_collision x y (inr e) (inr f) h = e ∙ sym f
no_collision x y (inl e) (inr f) h = cc (rw (e, f) at h)
no_collision x y (inr e) (inl f) h = cc (rw (e, f) at h)

pub family : IsFamily store plain_hashes IsChunk
family = record { keys = chunk_keys; no_collision = no_collision }

pub empty-IsSealed : IsSealed store plain_hashes cipher IsChunk empty_disk
unfolding lookup
empty-IsSealed = record { opens = λ key blob e. no_blob (path "/blobs" key) key blob e }
  where
    no_blob :
        (r : Result FilePath) (key : String) (blob : List ℕ)
        → at_path r [] ≡ some blob
        → (plain : List ℕ) × IsChunk plain
          × (chunk_hash plain_hashes plain ≡ key)
          × (open_blob plain_hashes cipher key blob ≡ ok plain)
    no_blob (ok p) key blob e = absurd (cc e)
    no_blob (err x) key blob e = absurd (cc e)

chunks_run : chunks small_sizes (concat reads) ≡ first ∷ second ∷ []
unfolding cutpoint take
chunks_run = refl

pub reads_members : All IsChunk (chunks small_sizes (concat reads))
reads_members = subst (All IsChunk) (sym chunks_run) (inl refl, (inr refl, tt))

ingest-reassemble_example :
    let r =
      ingest store plain_hashes cipher small_sizes
        (record { pending = reads; ending = none })
        empty_disk
        0 in
    IsSealed store plain_hashes cipher IsChunk r.1.blobs
    × Grows store plain_hashes cipher IsChunk empty_disk r.1.blobs
    × ((refs : List ChunkRef) (total : ℕ) (w : Writer)
        → r.0 ≡ ok (refs, total)
        → (total ≡ length (concat reads))
          × ((reassemble store plain_hashes cipher refs r.1.blobs w).0 ≡ ok tt
              → (reassemble store plain_hashes cipher refs r.1.blobs w).2.written
                ≡ w.written ++ concat reads)
          × (IsReliable store plain_hashes cipher IsChunk family w
              → (reassemble store plain_hashes cipher refs r.1.blobs w).0 ≡ ok tt))
ingest-reassemble_example =
    ingest-reassemble store plain_hashes cipher IsChunk family small_sizes reads empty_disk 0
      small_sizes-IsValid (omega arith, (omega arith, (omega arith, tt))) reads_members
      empty-IsSealed

abbrev start : Progress store plain_hashes cipher
start = record { refs = []; total = 0; blobs = empty_disk; drawn = 0 }

store_chunk-Stores_example :
    Stores store plain_hashes cipher IsChunk first start
      (store_chunk store plain_hashes cipher first start)
store_chunk-Stores_example =
    store_chunk-Stores store plain_hashes cipher IsChunk first (inl refl)
      (chunk_keys first (inl refl)) start empty-IsSealed

split-empty_read_example :
    split count_calls 13 small_sizes (record { pending = [] ∷ reads; ending = none }) 0
    ≡ some (none, 0)
split-empty_read_example =
    split-empty_read count_calls small_sizes 12 reads none 0 small_sizes-IsValid
