-- ===== src/Kamara/Blob/Fs.antt =====
-- The type FS of kamara/internal/blob/blob.go, over a file system that may refuse any call.
use Prim.Native.Char.{code}
use Prim.Native.String.{slice, len}
use peristera.Prelude.Exec.{Exec, pure, raise, lift, ◌>>=◌, ◌>>◌}
use peristera.Prelude.{
  ℕ, ◌+◌, String, Bool, true, false, ◌&&◌, ◌||◌, not, Option, none, some, List, [], ◌∷◌, ltb, leb,
  ◌==◌, str_eq, if◌then◌else◌, Result, ok, err, Error, external, message, not_exist,
}

-- A path by its components: the root, the two shards, the name.
pub record FilePath : Type 0 where
  pub root : String
  pub shard1 : String
  pub shard2 : String
  pub name : String

unfoldable pub same_path : FilePath → FilePath → Bool
same_path p q =
    str_eq p.root q.root
    && str_eq p.shard1 q.shard1
    && str_eq p.shard2 q.shard2
    && str_eq p.name q.name

-- The files under the root, the number of system calls made, and which calls fail.
pub record Disk : Type 0 where
  pub files : List (FilePath × List ℕ)
  pub calls : ℕ
  pub faults : ℕ → Option Error

unfoldable pub lookup : FilePath → List (FilePath × List ℕ) → Option (List ℕ)
lookup p [] = none
lookup p ((q, bytes) ∷ files) = if same_path p q then some bytes else lookup p files

unfoldable pub without : FilePath → List (FilePath × List ℕ) → List (FilePath × List ℕ)
without p [] = []
without p ((q, bytes) ∷ files) =
    let rest = without p files in if same_path p q then rest else (q, bytes) ∷ rest

-- A system call that does `f` unless it fails.
unfoldable pub syscall : {A : Type 0} → Exec Disk A → Exec Disk A
syscall f d = elim (d.faults d.calls) [
  | none ↦ f (record d { calls = d.calls + 1 })
  | some e ↦ (err e, record d { calls = d.calls + 1 })
]

is_hex_digit : ℕ → Bool
is_hex_digit c = (leb b'0' c && leb c b'9') || (leb b'a' c && leb c b'f')

unfoldable pub is_hex : String → Bool
unfolding is_hex_digit
is_hex String.[] = true
is_hex (String.◌∷◌ c s) = is_hex_digit (code c) && is_hex s

-- f.path(key): the shards are the first two pairs of digits.
unfoldable pub path : String → String → Result FilePath
path root key =
    if ltb (len key) 4 || not (is_hex key)
    then err (message "blob: invalid key")
    else ok (record { root = root; shard1 = slice key 0 2; shard2 = slice key 2 4; name = key })

abbrev pub present : Option (List ℕ) → Bool
present none = false
present (some bytes) = true

-- os.Stat
unfoldable pub stat : FilePath → Exec Disk Bool
unfolding lookup
stat p = syscall (λ d. (ok (present (lookup p d.files)), d))

-- os.MkdirAll, os.CreateTemp, io.Copy, tmp.Sync, tmp.Close and os.Open of the directory touch no file
-- of a blob: the temporary file has a name that no blob has.
unfoldable pub other_call : Exec Disk (Unit {0})
other_call = syscall (pure tt)

-- os.Rename of the temporary file into place.
unfoldable pub rename : FilePath → List ℕ → Exec Disk (Unit {0})
unfolding without
rename p bytes = syscall (λ d. (ok tt, record d { files = (p, bytes) ∷ without p d.files }))

-- syscall.EINVAL
abbrev pub einval : Error
einval = external 22

but_einval : Result (Unit {0}) → Result (Unit {0})
but_einval (ok u) = ok u
but_einval (err (external n)) = if n == 22 then ok tt else err (external n)
but_einval (err e) = err e

-- d.Sync(): a file system without fsync of directories is no error.
unfoldable pub fsync : Exec Disk (Unit {0})
unfolding other_call but_einval
fsync d = let (r, d') = other_call d in (but_einval r, d')

-- syncDir
unfoldable pub sync_dir : Exec Disk (Unit {0})
sync_dir = do other_call; fsync

unfoldable pub has : String → String → Exec Disk Bool
has root key = do p ← lift (path root key); stat p

unfoldable pub store_new : FilePath → List ℕ → Exec Disk (Unit {0})
store_new p bytes = do
  other_call
  other_call
  other_call
  other_call
  other_call
  rename p bytes
  sync_dir

unfoldable pub put : String → String → List ℕ → Exec Disk (Unit {0})
put root key bytes = do
  p ← lift (path root key)
  stored ← has root key
  if stored then pure tt else store_new p bytes

unfoldable pub found : Option (List ℕ) → Exec Disk (List ℕ)
found none = raise not_exist
found (some bytes) = pure bytes

unfoldable pub open_file : FilePath → Exec Disk (List ℕ)
open_file p = syscall (λ d. found (lookup p d.files) d)

unfoldable pub get : String → String → Exec Disk (List ℕ)
get root key = do p ← lift (path root key); open_file p

-- os.Remove; a missing file is no error.
unfoldable pub remove : FilePath → Exec Disk (Unit {0})
remove p = syscall (λ d. (ok tt, record d { files = without p d.files }))

unfoldable pub delete : String → String → Exec Disk (Unit {0})
delete root key = do p ← lift (path root key); remove p
