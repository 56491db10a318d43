-- ===== src/Kamara/Engine/RoundTrip.antt =====
-- `Ingest` and then `Reassemble` of engine.go give the content back.
use mathlib.Core.Bool.{false≢true}
use mathlib.Core.List.{append_assoc, append-nil}
use peristera.Prelude.{
  ℕ, ◌+◌, ◌≡◌, refl, sym, ap, subst, ◌∙◌, inl, inr, String, Option, none, some, List, [], ◌∷◌, ◌++◌,
  map, arith, length, length-append, concat, All, Result, ok, err, Error, Option-cases,
}
use peristera.Kamara.Blob.{BlobStore, is_some}
use peristera.Kamara.Crypto.{Primitives, Cipher, chunk_hash, open_blob}
use peristera.Kamara.Engine.{
  ChunkRef, Progress, Writer, write, store_chunk, finish, ingest, after_write, after_open,
  after_get, reassemble,
}
use peristera.Kamara.Engine.Ingest.{
  IsFamily, IsSealed, Grows, IsStored, Stores, unchanged-IsSealed, Grows-trans, Grows-IsStored,
}
use peristera.Kamara.Engine.Callback.{store_chunk-Stores}
use peristera.Kamara.Chunk.{Sizes}
use peristera.Kamara.Chunk.Cutpoint.{IsValid}
use peristera.Kamara.Chunk.Canonical.{chunks, chunks-IsSized}
use peristera.Kamara.Chunk.Split.Stream.{each, each_from, HasBytes, split-each}

module _ (B : BlobStore) (prim : Primitives) (c : Cipher) (P : List ℕ → Type 0)
    (family : IsFamily B prim P) where
  abbrev pub ref_of : List ℕ → ChunkRef
  ref_of plain = record { hash = chunk_hash prim plain; size = length plain }

  -- What the callback leaves after all chunks.
  pub record Ingested (cs : List (List ℕ)) (p : Progress B prim c)
      (r : Option Error × Progress B prim c) : Type 0 where
    pub is_sealed : IsSealed B prim c P r.1.blobs
    pub grows : Grows B prim c P p.blobs r.1.blobs
    pub done :
        r.0 ≡ none
        → (r.1.refs ≡ p.refs ++ map ref_of cs)
          × (r.1.total ≡ p.total + length (concat cs))
          × All (IsStored B prim c P r.1.blobs) cs

  Ingested-cons :
      (x : List ℕ) (cs : List (List ℕ)) (p : Progress B prim c) (e : Option Error)
      (q : Progress B prim c)
      → Stores B prim c P x p (e, q)
      → Ingested cs q (each (store_chunk B prim c) cs q)
      → Ingested (x ∷ cs) p (each_from (each (store_chunk B prim c) cs) e q)
  Ingested-cons x cs p (some e) q st k = record {
    is_sealed = st.is_sealed;
    grows = st.grows;
    done = λ h. cc;
  }
  Ingested-cons x cs p none q st k = record {
    is_sealed = k.is_sealed;
    grows = Grows-trans B prim c P p.blobs q.blobs _ st.grows k.grows;
    done = λ h.
        let head = st.done refl in
        let tail = k.done h in
        (
          tail.0
              ∙ ap (λ refs. refs ++ map ref_of cs) head.0
              ∙ append_assoc p.refs (ref_of x ∷ []) (map ref_of cs),
          omega (arith, tail.1, head.1, length-append x (concat cs)),
          (Grows-IsStored B prim c P q.blobs _ x k.grows head.2, tail.2),
        );
  }

  each-Ingested :
      (cs : List (List ℕ)) (p : Progress B prim c)
      → All P cs
      → IsSealed B prim c P p.blobs
      → Ingested cs p (each (store_chunk B prim c) cs p)
  unfolding each
  each-Ingested [] p members v = record {
    is_sealed = v;
    grows = record { kept = λ key blob e. e };
    done = λ h. (sym (append-nil p.refs), omega arith, tt);
  }
  each-Ingested (x ∷ cs) p members v =
      let st = store_chunk-Stores B prim c P x members.0 (family.keys x members.0) p v in
      Ingested-cons x cs p (store_chunk B prim c x p).0 (store_chunk B prim c x p).1 st
        (each-Ingested cs (store_chunk B prim c x p).1 members.1 st.is_sealed)

  -- Every blob of a chunk that is stored can be read, and opens to the chunk.
  opens_as :
      (s : B.State) (x blob : List ℕ)
      → P x
      → IsSealed B prim c P s
      → B.contents s (chunk_hash prim x) ≡ some blob
      → open_blob prim c (chunk_hash prim x) blob ≡ ok x
  opens_as s x blob member v e =
      let found = v.opens (chunk_hash prim x) blob e in
      subst (λ y. open_blob prim c (chunk_hash prim x) blob ≡ ok y)
        (family.no_collision found.0 x found.1 member found.2) found.3

  -- The content has been written after what the writer held.
  abbrev Reads : List (List ℕ) → Writer → Result (Unit {0}) × B.State × Writer → Type 0
  Reads cs w r = r.0 ≡ ok tt → r.2.written ≡ w.written ++ concat cs

  abbrev Rest : Type 0
  Rest = B.State → Writer → Result (Unit {0}) × B.State × Writer

  after_write-Reads :
      (x : List ℕ) (cs : List (List ℕ)) (rest : Rest) (s : B.State) (w : Writer)
      → ((w' : Writer) → Reads cs w' (rest s w'))
      → Reads (x ∷ cs) w (after_write B prim c rest s (write x w))
  unfolding after_write write
  after_write-Reads x cs rest s w k = elim (Option-cases (w.faults w.writes)) [
    | inr (e, fault) ↦ rw fault (λ h. cc)
    | inl fine ↦ rw fine (λ h.
        k (record w { written = w.written ++ x; writes = w.writes + 1 }) h
        ∙ append_assoc w.written x (concat cs))
  ]

  after_get-Reads :
      (x : List ℕ) (cs : List (List ℕ)) (rest : Rest) (w : Writer) (r : Result (List ℕ))
      (s : B.State)
      → ((blob : List ℕ) → r ≡ ok blob → open_blob prim c (chunk_hash prim x) blob ≡ ok x)
      → ((w' : Writer) → Reads cs w' (rest s w'))
      → Reads (x ∷ cs) w (after_get B prim c rest (chunk_hash prim x) w (r, s))
  unfolding after_get after_open
  after_get-Reads x cs rest w (err e) s opened k = λ h. cc
  after_get-Reads x cs rest w (ok blob) s opened k =
      rw (opened blob refl) (after_write-Reads x cs rest s w k)

  pub reassemble-Reads :
      (cs : List (List ℕ)) (s : B.State) (w : Writer)
      → All P cs
      → IsSealed B prim c P s
      → Reads cs w (reassemble B prim c (map ref_of cs) s w)
  unfolding reassemble
  reassemble-Reads [] s w members v = λ h. sym (append-nil w.written)
  reassemble-Reads (x ∷ cs) s w members v =
      after_get-Reads x cs (reassemble B prim c (map ref_of cs)) w (B.get hash s).0 (B.get hash s).1
        (λ blob e. opens_as s x blob members.0 v (B.get_ok hash s blob key e))
        (λ w'.
          reassemble-Reads cs (B.get hash s).1 w' members.1
            (unchanged-IsSealed B prim c P s _ same v))
    where
      hash : String
      hash = chunk_hash prim x

      key : B.IsKey hash
      key = family.keys x members.0

      same : (j : String) → B.contents (B.get hash s).1 j ≡ B.contents s j
      same j = B.get_keeps hash j s key

  -- Neither the store nor the writer fails.
  pub record IsReliable (w : Writer) : Type 0 where
    pub reads :
        (key : String) (blob : List ℕ) (s : B.State)
        → B.contents s key ≡ some blob
        → (B.get key s).0 ≡ ok blob
    pub writes : (n : ℕ) → w.faults n ≡ none

  after_get-ok :
      (x : List ℕ) (rest : Rest) (w : Writer) (r : Result (List ℕ)) (s : B.State) (blob : List ℕ)
      → r ≡ ok blob
      → open_blob prim c (chunk_hash prim x) blob ≡ ok x
      → w.faults w.writes ≡ none
      → (rest s (record w { written = w.written ++ x; writes = w.writes + 1 })).0 ≡ ok tt
      → (after_get B prim c rest (chunk_hash prim x) w (r, s)).0 ≡ ok tt
  unfolding after_get after_open after_write write
  after_get-ok x rest w r s blob e opened fine k = rw (e, opened, fine) k

  unchanged-IsStored :
      (s t : B.State) (cs : List (List ℕ))
      → ((x : List ℕ) → P x → B.contents t (chunk_hash prim x) ≡ B.contents s (chunk_hash prim x))
      → All P cs
      → All (IsStored B prim c P s) cs
      → All (IsStored B prim c P t) cs
  unchanged-IsStored s t [] same members h = tt
  unchanged-IsStored s t (x ∷ cs) same members h =
      (ap is_some (same x members.0) ∙ h.0, unchanged-IsStored s t cs same members.1 h.1)

  pub reassemble-ok :
      (cs : List (List ℕ)) (s : B.State) (w : Writer)
      → All P cs
      → IsSealed B prim c P s
      → All (IsStored B prim c P s) cs
      → IsReliable w
      → (reassemble B prim c (map ref_of cs) s w).0 ≡ ok tt
  unfolding reassemble
  reassemble-ok [] s w members v stored reliable = refl
  reassemble-ok (x ∷ cs) s w members v stored reliable = elim (Option-cases (B.contents s hash)) [
    | inl e ↦ absurd (false≢true (sym (ap is_some e) ∙ stored.0))
    | inr (blob, e) ↦
        after_get-ok x (reassemble B prim c (map ref_of cs)) w (B.get hash s).0 (B.get hash s).1
          blob (reliable.reads hash blob s e) (opens_as s x blob members.0 v e)
          (reliable.writes w.writes)
          (reassemble-ok cs (B.get hash s).1 _ members.1
            (unchanged-IsSealed B prim c P s (B.get hash s).1 same v)
            (unchanged-IsStored s (B.get hash s).1 cs (λ y _. same (chunk_hash prim y)) members.1
              stored.1)
            (record { reads = reliable.reads; writes = reliable.writes }))
  ]
    where
      hash : String
      hash = chunk_hash prim x

      same : (j : String) → B.contents (B.get hash s).1 j ≡ B.contents s j
      same j = B.get_keeps hash j s (family.keys x members.0)

  -- What `Ingest` promises of its result, for a content that was split into `cs`.
  pub record Promise (cs : List (List ℕ)) (s : B.State)
      (r : Result (List ChunkRef × ℕ) × Progress B prim c) : Type 0 where
    pub is_sealed : IsSealed B prim c P r.1.blobs
    pub grows : Grows B prim c P s r.1.blobs
    pub manifest :
        (refs : List ChunkRef) (total : ℕ)
        → r.0 ≡ ok (refs, total)
        → (refs ≡ map ref_of cs)
          × (total ≡ length (concat cs))
          × All (IsStored B prim c P r.1.blobs) cs

  finish-Promise :
      (cs : List (List ℕ)) (s : B.State) (drawn : ℕ) (start : Progress B prim c)
      (r : Option Error × Progress B prim c)
      → start ≡ record { refs = []; total = 0; blobs = s; drawn = drawn }
      → Ingested cs start r
      → Promise cs s (finish B prim c (some r) start)
  unfolding finish
  finish-Promise cs s drawn start (some e, p) q k = record {
    is_sealed = k.is_sealed;
    grows = subst (λ (x : Progress B prim c). Grows B prim c P x.blobs p.blobs) q k.grows;
    manifest = λ refs total h. cc;
  }
  finish-Promise cs s drawn start (none, p) q k = record {
    is_sealed = k.is_sealed;
    grows = subst (λ (x : Progress B prim c). Grows B prim c P x.blobs p.blobs) q k.grows;
    manifest = λ refs total h.
        let done = k.done refl in
        (
          cc (done.0, q),
          omega (
            arith,
            done.1,
            ap (λ (x : Progress B prim c). x.total) q,
            manifest_total refs total h,
          ),
          done.2,
        );
  }
    where
      manifest_total :
          (refs : List ChunkRef) (total : ℕ)
          → ◌≡◌ {A = Result (List ChunkRef × ℕ)} (ok (p.refs, p.total)) (ok (refs, total))
          → p.total ≡ total
      manifest_total refs total h = cc

  ingest-Promise :
      (sz : Sizes) (pending : List (List ℕ)) (s : B.State) (drawn : ℕ)
      → IsValid sz
      → HasBytes pending
      → All P (chunks sz (concat pending))
      → IsSealed B prim c P s
      → Promise
          (chunks sz (concat pending))
          s
          (ingest B prim c sz (record { pending = pending; ending = none }) s drawn)
  unfolding ingest
  ingest-Promise sz pending s drawn valid bytes members v =
      rw (split-each (store_chunk B prim c) sz valid pending start bytes) (
        finish-Promise (chunks sz (concat pending)) s drawn start _ refl
          (each-Ingested (chunks sz (concat pending)) start members v))
    where
      start : Progress B prim c
      start = record { refs = []; total = 0; blobs = s; drawn = drawn }

  -- Ingest with valid sizes, on a reader whose reads without an error each deliver at least one byte and
  -- which ends by io.EOF, into a sealed store, over chunks that BLAKE3 tells apart: no blob is lost or
  -- replaced, and each still opens to what its key says, with an error or not. Without an error the size
  -- is the content's length, and
  -- `Reassemble` of the manifest from that store writes the content: it does so whenever it returns
  -- no error, and it returns none if the store's reads and the writer do not fail.
  pub ingest-reassemble :
      (sz : Sizes) (pending : List (List ℕ)) (s : B.State) (drawn : ℕ)
      → IsValid sz
      → HasBytes pending
      → All P (chunks sz (concat pending))
      → IsSealed B prim c P s
      → let r = ingest B prim c sz (record { pending = pending; ending = none }) s drawn in
        IsSealed B prim c P r.1.blobs
        × Grows B prim c P s r.1.blobs
        × ((refs : List ChunkRef) (total : ℕ) (w : Writer)
            → r.0 ≡ ok (refs, total)
            → (total ≡ length (concat pending))
              × ((reassemble B prim c refs r.1.blobs w).0 ≡ ok tt
                  → (reassemble B prim c refs r.1.blobs w).2.written ≡ w.written ++ concat pending)
              × (IsReliable w → (reassemble B prim c refs r.1.blobs w).0 ≡ ok tt))
  ingest-reassemble sz pending s drawn valid bytes members v = (
    promise.is_sealed,
    promise.grows,
    λ refs total w h.
        let m = promise.manifest refs total h in
        (
          m.1 ∙ ap length whole,
          subst (λ rs. Reads_of rs w) (sym m.0)
              (λ h'.
                reassemble-Reads cs t w members promise.is_sealed h'
                ∙ ap (λ z. w.written ++ z) whole),
          λ reliable.
              subst (λ rs. (reassemble B prim c rs t w).0 ≡ ok tt) (sym m.0)
                (reassemble-ok cs t w members promise.is_sealed m.2 reliable),
        ),
  )
    where
      cs : List (List ℕ)
      cs = chunks sz (concat pending)

      t : B.State
      t = (ingest B prim c sz (record { pending = pending; ending = none }) s drawn).1.blobs

      whole : concat cs ≡ concat pending
      whole = (chunks-IsSized sz (concat pending) valid).1

      promise :
          Promise cs s (ingest B prim c sz (record { pending = pending; ending = none }) s drawn)
      promise = ingest-Promise sz pending s drawn valid bytes members v

      Reads_of : List ChunkRef → Writer → Type 0
      Reads_of rs w =
          (reassemble B prim c rs t w).0 ≡ ok tt
          → (reassemble B prim c rs t w).2.written ≡ w.written ++ concat pending
