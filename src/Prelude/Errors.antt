-- ===== src/Prelude/Errors.antt =====
-- `errors.Is` against the sentinels that a handler tells apart: a wrapped error is opened.
use mathlib.Core.Bool.{Bool, true, false}
use peristera.Prelude.Outcome.{
  Error, not_found, forbidden, version_conflict, modified, not_empty, would_cycle, invalid_session,
  not_exist, message, unique_violation, foreign_key_violation, external, wrapped,
}

-- The error inside all its wrappings.
unfoldable pub root_of : Error → Error
root_of (wrapped text e) = root_of e
root_of not_found = not_found
root_of forbidden = forbidden
root_of version_conflict = version_conflict
root_of modified = modified
root_of not_empty = not_empty
root_of would_cycle = would_cycle
root_of invalid_session = invalid_session
root_of not_exist = not_exist
root_of (message text) = message text
root_of unique_violation = unique_violation
root_of foreign_key_violation = foreign_key_violation
root_of (external n) = external n

abbrev not_found? : Error → Bool
not_found? not_found = true
not_found? e = false

abbrev forbidden? : Error → Bool
forbidden? forbidden = true
forbidden? e = false

abbrev invalid_session? : Error → Bool
invalid_session? invalid_session = true
invalid_session? e = false

unfoldable pub is_not_found : Error → Bool
unfolding root_of
is_not_found e = not_found? (root_of e)

unfoldable pub is_forbidden : Error → Bool
unfolding root_of
is_forbidden e = forbidden? (root_of e)

unfoldable pub is_invalid_session : Error → Bool
unfolding root_of
is_invalid_session e = invalid_session? (root_of e)
