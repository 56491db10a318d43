-- ===== src/Kamara/Engine.antt =====
-- kamara/internal/engine (engine.go): the pipeline from a byte stream to a manifest of stored chunks
-- and back. The blob store is the interface of kamara/internal/blob.
pub mod Ingest
pub mod Callback
pub mod RoundTrip
use peristera.Prelude.{
  ℕ, suc, ◌+◌, String, Bool, true, false, Option, none, some, List, [], ◌∷◌, ◌++◌, length, concat,
  Result, ok, err, Error, message,
}
use peristera.Kamara.Blob.{BlobStore}
use peristera.Kamara.Chunk.{Sizes}
use peristera.Kamara.Chunk.Split.{Reader, split}
use peristera.Kamara.Crypto.{Primitives, Cipher, chunk_hash, seal, open_blob}

-- One entry of a version's manifest.
pub record ChunkRef : Type 0 where
  pub hash : String
  pub size : ℕ

-- An `io.Writer` that may refuse a write: what was written, the writes so far, and which fail.
pub record Writer : Type 0 where
  pub written : List ℕ
  pub writes : ℕ
  pub faults : ℕ → Option Error

abbrev refused : Option Error → List ℕ → Writer → Result (Unit {0}) × Writer
refused none bytes w = (ok tt, record w { written = w.written ++ bytes; writes = w.writes + 1 })
refused (some e) bytes w = (err e, record w { writes = w.writes + 1 })

unfoldable pub write : List ℕ → Writer → Result (Unit {0}) × Writer
write bytes w = refused (w.faults w.writes) bytes w

module _ (B : BlobStore) (prim : Primitives) (c : Cipher) where
  -- The variables that the callback of `Ingest` captures; `drawn` counts the nonces drawn.
  pub record Progress : Type 0 where
    pub refs : List ChunkRef
    pub total : ℕ
    pub blobs : B.State
    pub drawn : ℕ

  unfoldable pub noted : List ℕ → String → Progress → Progress
  noted plain hash p = record p {
    refs = p.refs ++ record { hash = hash; size = length plain } ∷ [];
    total = p.total + length plain;
  }

  unfoldable pub after_put :
      List ℕ → String → Result (Unit {0}) → Progress → Option Error × Progress
  unfolding noted
  after_put plain hash (err e) p = (some e, p)
  after_put plain hash (ok u) p = (none, noted plain hash p)

  unfoldable pub after_seal :
      List ℕ → String → Result (String × List ℕ) → Progress → Option Error × Progress
  unfolding after_put
  after_seal plain hash (err e) p = (some e, p)
  after_seal plain hash (ok (_, blob)) p =
      let (r, s) = B.put hash blob p.blobs in after_put plain hash r (record p { blobs = s })

  unfoldable pub after_has : List ℕ → String → Result Bool → Progress → Option Error × Progress
  unfolding after_seal
  after_has plain hash (err e) p = (some e, p)
  after_has plain hash (ok true) p = (none, noted plain hash p)
  after_has plain hash (ok false) p =
      after_seal plain hash (seal prim c p.drawn plain) (record p { drawn = p.drawn + 1 })

  -- The callback of `Ingest`: a chunk that is stored already is neither sealed nor written again.
  unfoldable pub store_chunk : List ℕ → Progress → Option Error × Progress
  unfolding after_has
  store_chunk plain p =
      let hash = chunk_hash prim plain in
      let (r, s) = B.has hash p.blobs in after_has plain hash r (record p { blobs = s })

  finish : Option (Option Error × Progress) → Progress → Result (List ChunkRef × ℕ) × Progress
  finish none p = (err (message "split: out of fuel"), p)
  finish (some (none, p')) p = (ok (p'.refs, p'.total), p')
  finish (some (some e, p')) p = (err e, p')

  -- Ingest: the manifest and the size, with the store and the random source afterwards. One round of
  -- `split` for each byte and one more are enough.
  unfoldable pub ingest : Sizes → Reader → B.State → ℕ → Result (List ChunkRef × ℕ) × Progress
  unfolding finish
  ingest sz r s drawn =
      let start : Progress = record { refs = []; total = 0; blobs = s; drawn = drawn } in
      finish (split store_chunk (suc (length (concat r.pending))) sz r start) start

  after_write :
      (B.State → Writer → Result (Unit {0}) × B.State × Writer)
      → B.State
      → Result (Unit {0}) × Writer
      → Result (Unit {0}) × B.State × Writer
  after_write rest s (ok u, w) = rest s w
  after_write rest s (err e, w) = (err e, s, w)

  after_open :
      (B.State → Writer → Result (Unit {0}) × B.State × Writer)
      → B.State
      → Writer
      → Result (List ℕ)
      → Result (Unit {0}) × B.State × Writer
  unfolding after_write write
  after_open rest s w (ok plain) = after_write rest s (write plain w)
  after_open rest s w (err e) = (err e, s, w)

  pub after_get :
      (B.State → Writer → Result (Unit {0}) × B.State × Writer)
      → String
      → Writer
      → Result (List ℕ) × B.State
      → Result (Unit {0}) × B.State × Writer
  unfolding after_open
  after_get rest hash w (ok blob, s) = after_open rest s w (open_blob prim c hash blob)
  after_get rest hash w (err e, s) = (err e, s, w)

  -- Reassemble
  unfoldable pub reassemble :
      List ChunkRef → B.State → Writer → Result (Unit {0}) × B.State × Writer
  unfolding after_get
  reassemble [] s w = (ok tt, s, w)
  reassemble (ref ∷ refs) s w = after_get (reassemble refs) ref.hash w (B.get ref.hash s)
