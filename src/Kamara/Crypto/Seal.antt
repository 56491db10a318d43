-- ===== src/Kamara/Crypto/Seal.antt =====
-- What sealing and opening promise together (Seal, Open and ad of chunkcrypto.go).
use peristera.Prelude.{
  ℕ, ◌+◌, ◌≡◌, ◌≢◌, refl, sym, ap, subst, false, Option, none, some, List, [], ◌∷◌, ◌++◌, arith,
  String, eq_iff, length, length-append, take, drop, take-length-append, drop-length-append, All,
  ltb, Result, ok, err,
}
use peristera.Kamara.Crypto.{
  Primitives, Cipher, format_version, chunk_hash, ad, ad_domain, bytes_of, seal_with, sealed, seal,
  opened, open_blob,
}

module _ (prim : Primitives) (c : Cipher) where
  opened_self : (plain : List ℕ) → opened prim (chunk_hash prim plain) (some plain) ≡ ok plain
  unfolding opened
  opened_self plain = rw ((eq_iff (chunk_hash prim plain) (chunk_hash prim plain)).1 refl)

  open_blob-seal_with :
      (nonce plain : List ℕ)
      → length nonce ≡ c.aead.nonce_size
      → open_blob prim c (seal_with prim c nonce plain).0 (seal_with prim c nonce plain).1
        ≡ ok plain
  unfolding open_blob seal_with
  open_blob-seal_with nonce plain size =
      rw (long_enough, took, dropped, c.aead.open-seal) (opened_self plain)
    where
      text : List ℕ
      text = c.aead.seal nonce plain (ad c (chunk_hash prim plain))

      long_enough :
          ltb (length (1 ∷ (nonce ++ text))) (1 + c.aead.nonce_size + c.aead.overhead) ≡ false
      long_enough = ground (
        arith,
        length-append nonce text,
        c.aead.length-seal nonce plain (ad c (chunk_hash prim plain)),
      )

      took : take c.aead.nonce_size (nonce ++ text) ≡ nonce
      took = subst (λ n. take n (nonce ++ text) ≡ nonce) size (take-length-append nonce text)

      dropped : drop c.aead.nonce_size (nonce ++ text) ≡ text
      dropped = subst (λ n. drop n (nonce ++ text) ≡ text) size (drop-length-append nonce text)

  sealed-open :
      (plain : List ℕ) (r : Result (List ℕ)) (hash : String) (blob : List ℕ)
      → ((nonce : List ℕ) → r ≡ ok nonce → length nonce ≡ c.aead.nonce_size)
      → sealed prim c plain r ≡ ok (hash, blob)
      → (hash ≡ chunk_hash prim plain) × (open_blob prim c hash blob ≡ ok plain)
  unfolding sealed
  sealed-open plain (err e) hash blob size h = cc
  sealed-open plain (ok nonce) hash blob size h =
      let e : seal_with prim c nonce plain ≡ (hash, blob) = cc in
      (
        sym (ap (λ (p : String × List ℕ). p.0) e),
        subst (λ (p : String × List ℕ). open_blob prim c p.0 p.1 ≡ ok plain) e
            (open_blob-seal_with nonce plain (size nonce refl)),
      )

  -- A sealed chunk is stored under the hash of its plaintext, and opens to it again.
  pub open_blob-seal :
      (n : ℕ) (plain : List ℕ) (hash : String) (blob : List ℕ)
      → seal prim c n plain ≡ ok (hash, blob)
      → (hash ≡ chunk_hash prim plain) × (open_blob prim c hash blob ≡ ok plain)
  unfolding seal
  open_blob-seal n plain hash blob h =
      sealed-open plain (prim.random n c.aead.nonce_size) hash blob
        (λ nonce e. prim.length-random n c.aead.nonce_size nonce e) h

  opened-authentic :
      (hash : String) (o : Option (List ℕ)) (plain : List ℕ)
      → opened prim hash o ≡ ok plain
      → chunk_hash prim plain ≡ hash
  unfolding opened
  opened-authentic hash none plain h = cc
  opened-authentic hash (some p) plain h = ground (arith, eq_iff (chunk_hash prim p) hash)

  -- Whatever blob is opened under a hash, a plaintext that comes out has this hash.
  pub open_blob-authentic :
      (hash : String) (blob plain : List ℕ)
      → open_blob prim c hash blob ≡ ok plain
      → chunk_hash prim plain ≡ hash
  unfolding open_blob
  open_blob-authentic hash [] plain h = cc
  open_blob-authentic hash (version ∷ body) plain h =
      opened-authentic hash
        (c.aead.open_sealed (take c.aead.nonce_size body) (drop c.aead.nonce_size body) (ad c hash))
        plain (ground arith)

abbrev pub ZeroFree : List ℕ → Type 0
ZeroFree = All (λ b. b ≢ 0)

-- A field that is free of zero bytes and ended by one can be read back.
cut_at_zero :
    (xs ys us vs : List ℕ)
    → ZeroFree xs
    → ZeroFree ys
    → xs ++ (0 ∷ us) ≡ ys ++ (0 ∷ vs)
    → (xs ≡ ys) × (us ≡ vs)
cut_at_zero [] [] us vs hx hy e = (refl, cc)
cut_at_zero [] (y ∷ ys) us vs hx hy e = absurd (hy.0 (cc))
cut_at_zero (x ∷ xs) [] us vs hx hy e = absurd (hx.0 (cc))
cut_at_zero (x ∷ xs) (y ∷ ys) us vs hx hy e =
    let rest = cut_at_zero xs ys us vs hx.1 hy.1 (cc) in (cc rest.0, rest.1)

append_cancel : (xs us vs : List ℕ) → xs ++ us ≡ xs ++ vs → us ≡ vs
append_cancel [] us vs e = e
append_cancel (x ∷ xs) us vs e = append_cancel xs us vs (cc)

-- For tenants and hashes without a zero byte, the associated data tells both apart: a blob sealed for
-- one tenant and chunk is bound to them.
ad-injective :
    (c d : Cipher) (h k : String)
    → ZeroFree (bytes_of c.tenant)
    → ZeroFree (bytes_of d.tenant)
    → ZeroFree (bytes_of h)
    → ZeroFree (bytes_of k)
    → ad c h ≡ ad d k
    → (bytes_of c.tenant ≡ bytes_of d.tenant) × (bytes_of h ≡ bytes_of k)
unfolding ad
ad-injective c d h k zc zd zh zk e =
    let tenants =
      cut_at_zero (bytes_of c.tenant) (bytes_of d.tenant) (bytes_of h ++ (0 ∷ format_version ∷ []))
        (bytes_of k ++ (0 ∷ format_version ∷ [])) zc zd
        (cut_at_zero (bytes_of ad_domain) (bytes_of ad_domain) _ _ domain domain e).1 in
    let hashes =
      cut_at_zero (bytes_of h) (bytes_of k) (format_version ∷ []) (format_version ∷ []) zh zk
        tenants.1 in
    (tenants.0, hashes.0)
  where
    domain : ZeroFree (bytes_of ad_domain)
    domain = omega arith
