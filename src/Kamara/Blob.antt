-- ===== src/Kamara/Blob.antt =====
-- kamara/internal/blob (blob.go): the content-addressed blob store. `BlobStore` is the interface
-- `blob.Store` with the contract of its comments; `Fs` is the file system's implementation.
pub mod Fs
pub mod Contract
pub mod Instance
use peristera.Prelude.{
  ℕ, String, ◌≡◌, ◌≢◌, ◌⊎◌, Bool, true, false, Option, none, some, List, Result, ok, err, Error,
}

abbrev pub is_some {ℓ} : {A : Type ℓ} → Option A → Bool
is_some none = false
is_some (some a) = true

-- What a call of `Put` may do to the blob under one key, whether it returns an error or not.
abbrev pub Written : String → List ℕ → String → Option (List ℕ) → Option (List ℕ) → Type 0
Written key bytes j before after =
    (after ≡ before) ⊎ ((j ≡ key) × (before ≡ none) × (after ≡ some bytes))

-- `IsKey` holds of the keys that the store accepts.
pub record BlobStore : Type 1 where
  pub State : Type 0
  pub contents : State → String → Option (List ℕ)
  pub IsKey : String → Type 0
  pub has : String → State → Result Bool × State
  pub put : String → List ℕ → State → Result (Unit {0}) × State
  pub get : String → State → Result (List ℕ) × State
  pub delete : String → State → Result (Unit {0}) × State
  -- `Has` and `Get` change nothing, and tell the truth where they return no error.
  pub has_keeps : (key j : String) (s : State) → IsKey key → contents (has key s).1 j ≡ contents s j
  pub has_ok :
      (key : String) (s : State) (b : Bool)
      → IsKey key
      → (has key s).0 ≡ ok b
      → b ≡ is_some (contents s key)
  pub get_keeps : (key j : String) (s : State) → IsKey key → contents (get key s).1 j ≡ contents s j
  pub get_ok :
      (key : String) (s : State) (bytes : List ℕ)
      → IsKey key
      → (get key s).0 ≡ ok bytes
      → contents s key ≡ some bytes
  -- `Put` never replaces a blob, and writes whole blobs under its own key only.
  pub put_writes :
      (key j : String) (bytes : List ℕ) (s : State)
      → IsKey key
      → Written key bytes j (contents s j) (contents (put key bytes s).1 j)
  pub put_ok :
      (key : String) (bytes : List ℕ) (s : State)
      → IsKey key
      → (put key bytes s).0 ≡ ok tt
      → is_some (contents (put key bytes s).1 key) ≡ true
  -- `Delete` removes at most the blob of its key, and does so if it returns no error.
  pub delete_other :
      (key j : String) (s : State)
      → IsKey key
      → j ≢ key
      → contents (delete key s).1 j ≡ contents s j
  pub delete_ok :
      (key : String) (s : State)
      → IsKey key
      → (delete key s).0 ≡ ok tt
      → contents (delete key s).1 key ≡ none
