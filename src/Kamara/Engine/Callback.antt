-- ===== src/Kamara/Engine/Callback.antt =====
-- The callback of `Ingest` in engine.go, one chunk at a time.
use peristera.Prelude.{
  ℕ, ◌+◌, ◌≡◌, refl, sym, ap, subst, ◌∙◌, String, Bool, true, false, none, some, List, Result, ok,
  err, Error,
}
use peristera.Kamara.Blob.{BlobStore, is_some}
use peristera.Kamara.Crypto.{Primitives, Cipher, chunk_hash, seal, open_blob}
use peristera.Kamara.Crypto.Seal.{open_blob-seal}
use peristera.Kamara.Engine.{Progress, noted, after_put, after_seal, after_has, store_chunk}
use peristera.Kamara.Engine.Ingest.{
  IsSealed, Grows, IsStored, Stores, put-IsSealed, unchanged-IsSealed, unchanged-Grows, Grows-trans,
}

module _ (B : BlobStore) (prim : Primitives) (c : Cipher) (P : List ℕ → Type 0) where
  abbrev moved : Progress B prim c → B.State → ℕ → Progress B prim c
  moved p t d = record p { blobs = t; drawn = d }

  module _ (plain : List ℕ) (p : Progress B prim c) (t : B.State) (d : ℕ)
      (v : IsSealed B prim c P t) (g : Grows B prim c P p.blobs t) where
    Stores-error : (e : Error) → Stores B prim c P plain p (some e, moved p t d)
    Stores-error e = record { is_sealed = v; grows = g; done = λ q. cc }

    Stores-noted :
        IsStored B prim c P t plain
        → Stores B prim c P plain p
            (none, noted B prim c plain (chunk_hash prim plain) (moved p t d))
    unfolding noted
    Stores-noted h = record { is_sealed = v; grows = g; done = λ q. (refl, refl, h) }

    after_put-Stores :
        (r : Result (Unit {0}))
        → (r ≡ ok tt → IsStored B prim c P t plain)
        → Stores B prim c P plain p
            (after_put B prim c plain (chunk_hash prim plain) r (moved p t d))
    unfolding after_put
    after_put-Stores (err e) h = Stores-error e
    after_put-Stores (ok u) h = Stores-noted (h refl)

  module _ (plain : List ℕ) (member : P plain) (key : B.IsKey (chunk_hash prim plain)) where
    after_seal-Stores :
        (p : Progress B prim c) (t : B.State) (n d : ℕ) (r : Result (String × List ℕ))
        → IsSealed B prim c P t
        → Grows B prim c P p.blobs t
        → seal prim c n plain ≡ r
        → Stores B prim c P plain p
            (after_seal B prim c plain (chunk_hash prim plain) r (moved p t d))
    unfolding after_seal
    after_seal-Stores p t n d (err e) v g q = Stores-error plain p t d v g e
    after_seal-Stores p t n d (ok (hash, blob)) v g q =
        let sealed = open_blob-seal prim c n plain hash blob q in
        let opens = subst (λ h. open_blob prim c h blob ≡ ok plain) sealed.0 sealed.1 in
        let written = put-IsSealed B prim c P plain blob t member key opens v in
        after_put-Stores plain p (B.put (chunk_hash prim plain) blob t).1 d written.0
          (Grows-trans B prim c P p.blobs t _ g written.1) (B.put (chunk_hash prim plain) blob t).0
          (B.put_ok (chunk_hash prim plain) blob t key)

    after_has-Stores :
        (p : Progress B prim c) (t : B.State) (r : Result Bool)
        → IsSealed B prim c P t
        → Grows B prim c P p.blobs t
        → (r ≡ ok true → IsStored B prim c P t plain)
        → Stores B prim c P plain p
            (after_has B prim c plain (chunk_hash prim plain) r (moved p t p.drawn))
    unfolding after_has
    after_has-Stores p t (err e) v g h = Stores-error plain p t p.drawn v g e
    after_has-Stores p t (ok true) v g h = Stores-noted plain p t p.drawn v g (h refl)
    after_has-Stores p t (ok false) v g h =
        after_seal-Stores p t p.drawn (p.drawn + 1) (seal prim c p.drawn plain) v g refl

    -- A call that returns no error has noted the chunk, and its blob is in the store. With an error or
    -- not, no blob is lost and each opens to what its key says.
    pub store_chunk-Stores :
        (p : Progress B prim c)
        → IsSealed B prim c P p.blobs
        → Stores B prim c P plain p (store_chunk B prim c plain p)
    unfolding store_chunk
    store_chunk-Stores p v =
        after_has-Stores p t (B.has hash p.blobs).0 (unchanged-IsSealed B prim c P p.blobs t same v)
          (unchanged-Grows B prim c P p.blobs t same)
          (λ e. ap is_some (same hash) ∙ sym (B.has_ok hash p.blobs true key e))
      where
        hash : String
        hash = chunk_hash prim plain

        t : B.State
        t = (B.has hash p.blobs).1

        same : (j : String) → B.contents t j ≡ B.contents p.blobs j
        same j = B.has_keeps hash j p.blobs key
