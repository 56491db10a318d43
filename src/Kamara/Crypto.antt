-- ===== src/Kamara/Crypto.antt =====
-- kamara/internal/crypto (chunkcrypto.go): the at-rest format of a chunk. XChaCha20-Poly1305 and
-- BLAKE3 are third-party packages, and stand here as parameters.
pub mod Hex
pub mod Seal
use Prim.Native.Char.{code}
use Prim.Native.String.{[] as empty, ◌∷◌ as char_cons}
use peristera.Prelude.{
  ℕ, ◌+◌, ◌*◌, ◌/◌, ◌%◌, ◌≤◌, ◌<◌, ◌≡◌, String, Bool, true, false, Option, none, some, List, [],
  ◌∷◌, ◌++◌, length, get_or, take, drop, ltb, ◌==◌, str_eq, if◌then◌else◌, Result, ok, err, Error,
  message, wrapped,
}
use Hex.{encode}

-- cipher.AEAD under one key: what `Open` gives back is what `Seal` was given, with the same nonce
-- and associated data, and the sealed text is longer by the overhead.
pub record Aead : Type 0 where
  pub nonce_size : ℕ
  pub overhead : ℕ
  pub seal : List ℕ → List ℕ → List ℕ → List ℕ
  pub open_sealed : List ℕ → List ℕ → List ℕ → Option (List ℕ)
  pub open-seal :
      (nonce plain ad : List ℕ) → open_sealed nonce (seal nonce plain ad) ad ≡ some plain
  pub length-seal :
      (nonce plain ad : List ℕ) → length (seal nonce plain ad) ≡ length plain + overhead

-- chacha20poly1305.NewX, blake3.Sum256 and crypto/rand, whose n-th read of `size` bytes is `random n`.
pub record Primitives : Type 0 where
  pub new_x : List ℕ → Result Aead
  pub sum256 : List ℕ → List ℕ
  pub random : ℕ → ℕ → Result (List ℕ)
  pub length-random : (n size : ℕ) (bytes : List ℕ) → random n size ≡ ok bytes → length bytes ≡ size

abbrev pub format_version : ℕ
format_version = 1

abbrev pub key_size : ℕ
key_size = 32

pub record Cipher : Type 0 where
  pub aead : Aead
  pub tenant : String

-- A Unicode code point in UTF-8, and a Go string as its bytes.
unfoldable pub utf8 : ℕ → List ℕ
utf8 c =
    if ltb c 0x80
    then c ∷ []
    else if ltb c 0x800
    then (192 + c / 64) ∷ (128 + c % 64) ∷ []
    else if ltb c 0x10000
    then (224 + c / 4096) ∷ (128 + c / 64 % 64) ∷ (128 + c % 64) ∷ []
    else (240 + c / 262144) ∷ (128 + c / 4096 % 64) ∷ (128 + c / 64 % 64) ∷ (128 + c % 64) ∷ []

unfoldable pub bytes_of : String → List ℕ
unfolding utf8
bytes_of String.[] = []
bytes_of (String.◌∷◌ c s) = utf8 (code c) ++ bytes_of s

abbrev pub ad_domain : String
ad_domain = "peristera.kamara.v1.chunk"

-- New
unfoldable pub new_cipher : Primitives → List ℕ → String → Result Cipher
new_cipher prim dek tenant =
    if length dek == key_size
    then (if str_eq tenant ""
        then err (message "crypto: tenant required")
        else elim (prim.new_x dek) [
          | ok aead ↦ ok (record { aead = aead; tenant = tenant })
          | err e ↦ err e
        ])
    else err (message "crypto: DEK must be 32 bytes")

unfoldable pub chunk_hash : Primitives → List ℕ → String
unfolding encode
chunk_hash prim plain = encode (prim.sum256 plain)

-- The associated data: every field but the last is ended by a zero byte.
unfoldable pub ad : Cipher → String → List ℕ
unfolding bytes_of
ad c hash =
    bytes_of ad_domain
    ++ (0 ∷ (bytes_of c.tenant ++ (0 ∷ (bytes_of hash ++ (0 ∷ format_version ∷ [])))))

-- Seal, with the random nonce as an argument.
unfoldable pub seal_with : Primitives → Cipher → List ℕ → List ℕ → String × List ℕ
unfolding chunk_hash ad
seal_with prim c nonce plain =
    let hash = chunk_hash prim plain in
    (hash, format_version ∷ (nonce ++ c.aead.seal nonce plain (ad c hash)))

sealed : Primitives → Cipher → List ℕ → Result (List ℕ) → Result (String × List ℕ)
unfolding seal_with
sealed prim c plain (ok nonce) = ok (seal_with prim c nonce plain)
sealed prim c plain (err e) = err e

-- Seal; `n` counts the reads of the random source.
unfoldable pub seal : Primitives → Cipher → ℕ → List ℕ → Result (String × List ℕ)
unfolding sealed
seal prim c n plain = sealed prim c plain (prim.random n c.aead.nonce_size)

opened : Primitives → String → Option (List ℕ) → Result (List ℕ)
unfolding chunk_hash
opened prim hash none = err (message "crypto: open")
opened prim hash (some plain) =
    if str_eq (chunk_hash prim plain) hash
    then ok plain
    else err (message "crypto: chunk hash mismatch")

-- Open
unfoldable pub open_blob : Primitives → Cipher → String → List ℕ → Result (List ℕ)
unfolding opened ad
open_blob prim c hash [] = err (message "crypto: blob too short")
open_blob prim c hash (version ∷ body) =
    if ltb (length (version ∷ body)) (1 + c.aead.nonce_size + c.aead.overhead)
    then err (message "crypto: blob too short")
    else if version == format_version
    then opened prim hash
        (c.aead.open_sealed (take c.aead.nonce_size body) (drop c.aead.nonce_size body) (ad c hash))
    else err (message "crypto: unknown format version")
