-- ===== src/Examples/Api.antt =====
-- The theorems on Kamara's HTTP handlers at the world of Base (kamara/internal/api).
use peristera.Prelude.{◌≡◌, refl, true, false, none, [], ◌∷◌, All}
use peristera.Kamara.Chunk.Split.{Reader}
use peristera.Kamara.Wopi.{Sha256}
use peristera.Kamara.Api.Denied.{FileForbids, FolderForbids, file-FileForbids, folder-FolderForbids}
use peristera.Kamara.Crypto.{bytes_of}
use peristera.Kamara.Api.Disposition.{
  ascii_filename, rfc5987, Quotable, IsPlain, percent_decode, outside, names-decode,
}
use peristera.Kamara.WopiHost.{with_session, wopi_put_file}
use peristera.Kamara.WopiHost.Guarded.{Outcome, put_file-guarded}
use peristera.Examples.Base.{store, plain_hashes, cipher, small_sizes, answering, bob, world}

file-FileForbids_example :
    FileForbids store plain_hashes cipher small_sizes (answering false) bob "f1" (world false)
file-FileForbids_example =
    file-FileForbids store plain_hashes cipher small_sizes (answering false) bob "f1" (world false)
      refl

folder-FolderForbids_example :
    FolderForbids store plain_hashes cipher small_sizes (answering false) bob "inner" (world false)
folder-FolderForbids_example =
    folder-FolderForbids store plain_hashes cipher small_sizes (answering false) bob "inner"
      (world false) refl

names-decode_example :
    Quotable (ascii_filename "a\"b; é.txt")
    × All IsPlain (rfc5987 (bytes_of "a\"b; é.txt"))
    × (percent_decode outside (rfc5987 (bytes_of "a\"b; é.txt")) ≡ bytes_of "a\"b; é.txt")
names-decode_example = names-decode "a\"b; é.txt"

abbrev same_bytes : Sha256
same_bytes bytes = bytes

abbrev edited : Reader
edited = record { pending = (1 ∷ 2 ∷ 3 ∷ []) ∷ []; ending = none }

put_file-guarded_example :
    let (r, after) =
      with_session store plain_hashes cipher small_sizes
        (answering true)
        same_bytes
        (wopi_put_file store plain_hashes cipher small_sizes
          (answering true)
          same_bytes
          100
          "PUT"
          edited)
        "abc"
        "f1"
        (world true) in
    Outcome store plain_hashes cipher small_sizes
      (answering true)
      same_bytes
      "abc"
      "f1"
      (world true)
      r
      after.db.tables
put_file-guarded_example =
    put_file-guarded store plain_hashes cipher small_sizes (answering true) same_bytes "abc" "f1"
      "PUT" 100 edited (world true)
