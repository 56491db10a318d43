-- ===== src/Prelude/Outcome.antt =====
-- Go's `error` values, and the results of fallible code.
use Prim.Native.Nat.{ℕ}
use Prim.Native.String.{String}

-- The sentinels that the code compares against (`errors.Is`) are constructors of their own.
pub data Error : Type 0 where
  -- file.ErrNotFound, file.ErrForbidden, file.ErrVersionConflict, file.ErrModified
  not_found forbidden version_conflict modified : Error
  -- file.ErrNotEmpty, file.ErrCycle, wopi.ErrInvalid
  not_empty would_cycle invalid_session : Error
  -- os.ErrNotExist, which is blob.ErrNotFound
  not_exist : Error
  -- errors.New and fmt.Errorf without %w
  message : String → Error
  -- an error of the database driver, with its SQLSTATE
  unique_violation foreign_key_violation : Error
  -- any other failure of a library or a service
  external : ℕ → Error
  -- fmt.Errorf("…: %w")
  wrapped : String → Error → Error

pub data Result {ℓ} (A : Type ℓ) : Type ℓ where
  ok : A → Result A
  err : Error → Result A
