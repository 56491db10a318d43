-- ===== src/Examples/Base.antt =====
-- Small instances of what the code takes from elsewhere: a cipher, a disk, an authorization service, and
-- the rows of two files that share a chunk (kamara/internal/store/migrations).
use peristera.Prelude.{
  ℕ, suc, zero, ◌≡◌, refl, String, Bool, true, Option, none, some, List, [], ◌∷◌, arith, length, ok,
}
use peristera.Pii.{Subject}
use peristera.Database.{Db}
use peristera.Kamara.Chunk.{Sizes}
use peristera.Kamara.Chunk.Cutpoint.{IsValid}
use peristera.Kamara.Crypto.{Aead, Primitives, Cipher}
use peristera.Kamara.Blob.{BlobStore}
use peristera.Kamara.Blob.Fs.{FilePath, Disk}
use peristera.Kamara.Blob.Instance.{fs_store}
use peristera.Kamara.Tables.{
  pos, FileObject, Folder, VersionRow, ManifestRow, SessionRow, FileTables,
}
use peristera.Kamara.Files.{Authorizer, World}

abbrev pub small_sizes : Sizes
small_sizes = record { min_size = 2; avg_size = 4; max_size = 6; mask_s = 3; mask_l = 1 }

pub small_sizes-IsValid : IsValid small_sizes
small_sizes-IsValid = record {
  positive = omega arith;
  min-le-avg = omega arith;
  avg-lt-max = omega arith;
}

-- The sealed text is the plaintext behind one byte.
abbrev tagged_open : List ℕ → List ℕ → List ℕ → Option (List ℕ)
tagged_open nonce [] ad = none
tagged_open nonce (tag ∷ plain) ad = some plain

abbrev pub tagged : Aead
tagged = record {
  nonce_size = 2;
  overhead = 1;
  seal = λ nonce plain ad. 7 ∷ plain;
  open_sealed = tagged_open;
  open-seal = λ nonce plain ad. refl;
  length-seal = λ nonce plain ad. omega arith;
}

abbrev ones : ℕ → List ℕ
ones zero = []
ones (suc n) = let rest = ones n in 1 ∷ rest

length-ones : (n : ℕ) → length (ones n) ≡ n
length-ones zero = refl
length-ones (suc n) = omega (arith, length-ones n)

pub length-random : (n size : ℕ) (bytes : List ℕ) → ok (ones size) ≡ ok bytes → length bytes ≡ size
length-random n size bytes e = let q : ones size ≡ bytes = cc in rw (← q) (length-ones size)

abbrev pub plain_hashes : Primitives
plain_hashes = record {
  new_x = λ key. ok tagged;
  sum256 = λ bytes. bytes;
  random = λ n size. ok (ones size);
  length-random = length-random;
}

abbrev pub cipher : Cipher
cipher = record { aead = tagged; tenant = "tenant" }

abbrev pub store : BlobStore
store = fs_store "/blobs"

abbrev pub empty_disk : Disk
empty_disk = record { files = []; calls = 0; faults = λ n. none }

abbrev pub shared_path : FilePath
shared_path = record { root = "/blobs"; shard1 = "0a"; shard2 = "0b"; name = "0a0b" }

abbrev pub own_path : FilePath
own_path = record { root = "/blobs"; shard1 = "0c"; shard2 = "0d"; name = "0c0d" }

-- The blobs "0a0b" and "0c0d".
abbrev pub disk : Disk
disk = record {
  files = (shared_path, 1 ∷ []) ∷ (own_path, 2 ∷ []) ∷ [];
  calls = 0;
  faults = λ n. none;
}

abbrev pub ada : Subject
ada = record { home_instance = "home"; user_id = "ada" }

abbrev pub bob : Subject
bob = record { home_instance = "home"; user_id = "bob" }

-- Everybody, or nobody, has access.
abbrev pub answering : Bool → Authorizer
answering answer = record {
  State = Unit {0};
  check = λ user relation name s. (ok answer, s);
  write = λ user relation name s. (ok tt, s);
  delete = λ user relation name s. (ok tt, s);
  write_object_tuple = λ user relation name s. (ok tt, s);
  delete_object_tuple = λ user relation name s. (ok tt, s);
}

abbrev pub file : String → FileObject
file id = record {
  object_id = id;
  owner = ada;
  name = "note.txt";
  size = 2;
  folder_id = none;
  content_type = "text/plain";
  created = 1;
  updated = 1;
}

abbrev pub version : String → String → VersionRow
version id object = record {
  version_id = id;
  object_id = object;
  ordinal = 0;
  size = 2;
  created = 1;
}

abbrev pub row : String → ℕ → String → ManifestRow
row version index hash = record { version_id = version; index = index; chunk_hash = hash }

abbrev pub folder : String → Option String → Folder
folder id parent = record {
  folder_id = id;
  owner = ada;
  parent_id = parent;
  name = id;
  created = 1;
  updated = 1;
}

abbrev pub session : SessionRow
session = record {
  token_hash = "616263";
  object_id = "f1";
  subject = ada;
  can_write = true;
  expires = 100;
}

-- The file "f1" has the chunks "0a0b" and "0c0d", the file "f2" has "0a0b". The folder "inner" is in
-- "outer".
abbrev pub tables : FileTables
tables = record {
  objects = file "f1" ∷ file "f2" ∷ [];
  folders = folder "outer" none ∷ folder "inner" (some "outer") ∷ [];
  versions = version "v1" "f1" ∷ version "v2" "f2" ∷ [];
  version_chunks = row "v1" 0 "0a0b" ∷ row "v1" 1 "0c0d" ∷ row "v2" 0 "0a0b" ∷ [];
  chunks =
      record { hash = "0a0b"; size = 1; ref_count = pos 2 }
      ∷ record { hash = "0c0d"; size = 1; ref_count = pos 1 }
      ∷ [];
  wopi_sessions = session ∷ [];
  shared = record {
    pseudonyms = record { token = "t1"; subject = ada } ∷ [];
    audit_events = [];
    search_documents = [];
  };
}

-- The n-th random identifier.
abbrev pub nth_id : ℕ → String
nth_id zero = "id0"
nth_id (suc n) = "id1"

abbrev pub database : Db FileTables
database = record {
  tables = tables;
  now = 10;
  calls = 0;
  faults = λ n. none;
  ids = nth_id;
  drawn = 0;
}

abbrev pub world : (answer : Bool) → World store plain_hashes cipher small_sizes (answering answer)
world answer = record { db = database; blobs = disk; drawn = 0; authz = tt }
