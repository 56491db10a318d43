-- ===== src/Kamara/Tables.antt =====
-- The tables of kamara/internal/store/migrations, with the rows that the statements of
-- kamara/internal/store/repos.go read and write. A chunk's `ref_count` is an integer that may
-- fall below zero; that it overflows its 32 bits is an error of the driver.
use peristera.Prelude.{
  ℕ, suc, ◌+◌, ◌-◌, String, Bool, true, false, ◌&&◌, ◌||◌, Option, none, some, List, [], ◌∷◌,
  str_eq, ltb, leb, ◌==◌, if◌then◌else◌, refl,
}
use peristera.Pii.{Subject}
use peristera.Conventions.{Lens}
use peristera.Conventions as Shared

pub data ℤ : Type 0 where
  pos : ℕ → ℤ
  negsuc : ℕ → ℤ

unfoldable pub increment : ℤ → ℤ
increment (pos n) = pos (suc n)
increment (negsuc ℕ.zero) = pos 0
increment (negsuc (suc n)) = negsuc n

infixl 20 ◌-ℤ◌
unfoldable pub ◌-ℤ◌ : ℤ → ℕ → ℤ
pos n -ℤ m = if leb m n then pos (n - m) else negsuc (m - n - 1)
negsuc n -ℤ m = negsuc (n + m)

abbrev pub is_positive : ℤ → Bool
is_positive (pos n) = ltb 0 n
is_positive (negsuc n) = false

-- file.Object
pub record FileObject : Type 0 where
  pub object_id : String
  pub owner : Subject
  pub name : String
  pub size : ℕ
  pub folder_id : Option String
  pub content_type : String
  pub created : ℕ
  pub updated : ℕ

-- file.Folder
pub record Folder : Type 0 where
  pub folder_id : String
  pub owner : Subject
  pub parent_id : Option String
  pub name : String
  pub created : ℕ
  pub updated : ℕ

pub record VersionRow : Type 0 where
  pub version_id : String
  pub object_id : String
  pub ordinal : ℕ
  pub size : ℕ
  pub created : ℕ

pub record ManifestRow : Type 0 where
  pub version_id : String
  pub index : ℕ
  pub chunk_hash : String

pub record ChunkRow : Type 0 where
  pub hash : String
  pub size : ℕ
  pub ref_count : ℤ

-- wopi.Session, with the hash of its token
pub record SessionRow : Type 0 where
  pub token_hash : String
  pub object_id : String
  pub subject : Subject
  pub can_write : Bool
  pub expires : ℕ

pub record FileTables : Type 0 where
  pub objects : List FileObject
  pub folders : List Folder
  pub versions : List VersionRow
  pub version_chunks : List ManifestRow
  pub chunks : List ChunkRow
  pub wopi_sessions : List SessionRow
  pub shared : Shared.Tables

abbrev pub file_tables : Lens FileTables
file_tables = record {
  view = λ t. t.shared;
  replace = λ t c. record t { shared = c };
  view-replace = λ t c. refl;
}

unfoldable pub member : String → List String → Bool
member h [] = false
member h (x ∷ xs) = str_eq h x || member h xs

unfoldable pub find_object : String → List FileObject → Option FileObject
find_object id [] = none
find_object id (o ∷ objects) = if str_eq id o.object_id then some o else find_object id objects

unfoldable pub find_folder : String → List Folder → Option Folder
find_folder id [] = none
find_folder id (f ∷ folders) = if str_eq id f.folder_id then some f else find_folder id folders

-- A NULL column references nothing.
unfoldable pub has_folder : Option String → List Folder → Bool
has_folder none folders = true
has_folder (some id) folders = elim (find_folder id folders) [ none ↦ false | some f ↦ true ]

unfoldable pub has_version : String → List VersionRow → Bool
has_version id [] = false
has_version id (v ∷ versions) = str_eq id v.version_id || has_version id versions

-- The unique key (object_id, ordinal).
unfoldable pub has_ordinal : String → ℕ → List VersionRow → Bool
has_ordinal id n [] = false
has_ordinal id n (v ∷ versions) =
    (str_eq id v.object_id && (n == v.ordinal)) || has_ordinal id n versions

-- Whether a version of the object has the identifier.
unfoldable pub is_version_of : String → List VersionRow → String → Bool
is_version_of id [] version = false
is_version_of id (v ∷ versions) version =
    (str_eq id v.object_id && str_eq version v.version_id) || is_version_of id versions version

unfoldable pub has_manifest_row : String → ℕ → List ManifestRow → Bool
has_manifest_row version i [] = false
has_manifest_row version i (r ∷ rows) =
    (str_eq version r.version_id && (i == r.index)) || has_manifest_row version i rows

unfoldable pub has_chunk : String → List ChunkRow → Bool
has_chunk h [] = false
has_chunk h (c ∷ chunks) = str_eq h c.hash || has_chunk h chunks

unfoldable pub references : String → List ManifestRow → Bool
references h [] = false
references h (r ∷ rows) = str_eq h r.chunk_hash || references h rows
