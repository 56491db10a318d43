-- ===== src/Examples/Shared.antt =====
-- The theorems on the shared libraries at concrete inputs (lib/pii, lib/audit, lib/dbtx, lib/pgconv).
use peristera.Prelude.{
  ℕ, ◌≡◌, ◌≢◌, refl, String, true, none, some, [], ◌∷◌, arith, ok, str_eq, ltb, if◌then◌else◌,
}
use peristera.Prelude.Exec.{◌>>=◌}
use peristera.Session
use peristera.Session.Lookup.{has_key, Finds, is_map, operations-Finds}
use peristera.Pii.{is_zero, parse_subject, print_subject}
use peristera.Pii.SubjectForm.{SlashFree, parse_subject-print_subject, parse_subject_exact}
use peristera.Database.{stmt, in_tx, fresh_id}
use peristera.Database.Atomic.{Outcome, in_tx-Outcome}
use peristera.Conventions.{
  AuditObject, find_token, erase_subject, on_tables, token_for, emit, lookup_token, token_or_new,
  record_event, append_event, insert_event, has_event,
}
use peristera.Conventions.Pseudonym.{TokenIs, IsErased, token_for_stable, erase_subject-IsErased}
use peristera.Conventions.Audit.{IsRecorded, emit_records}
use peristera.Kamara.Tables.{file_tables}
use peristera.Kamara.Store.{reclaim_object}
use peristera.Examples.Base.{ada, bob, tables, database}

parse_subject-print_subject_example : parse_subject (print_subject ada) ≡ ok ada
parse_subject-print_subject_example = parse_subject-print_subject ada home_free (λ e. cc) (λ e. cc)
  where
    home_free : SlashFree "home"
    home_free = omega arith

parse_run : parse_subject "home/ada" ≡ ok ada
unfolding parse_subject
parse_run = refl

parse_subject_exact_example :
    ("home/ada" ≡ print_subject ada)
    × SlashFree ada.home_instance
    × (ada.home_instance ≢ "")
    × (ada.user_id ≢ "")
parse_subject_exact_example = parse_subject_exact "home/ada" ada parse_run

in_tx-Outcome_example :
    Outcome (reclaim_object "f1") database (in_tx (reclaim_object "f1") database)
in_tx-Outcome_example = in_tx-Outcome (reclaim_object "f1") database

-- A token for a second subject, beside the one of the first.
token_for_stable_example :
    TokenIs file_tables ada "t1" (token_for file_tables bob database).1.tables
    × ((tok : String)
        → (token_for file_tables bob database).0 ≡ ok tok
        → TokenIs file_tables bob tok (token_for file_tables bob database).1.tables
          × (ada ≡ bob → tok ≡ "t1"))
unfolding find_token
token_for_stable_example = token_for_stable file_tables bob ada "t1" database has_token
  where
    has_token : TokenIs file_tables ada "t1" tables
    has_token = refl

erase_run : (erase_subject file_tables ada database).0 ≡ ok tt
unfolding erase_subject on_tables stmt
erase_run = refl

erase_subject-IsErased_example :
    IsErased file_tables ada tables.shared.pseudonyms
      (erase_subject file_tables ada database).1.tables.shared.pseudonyms
erase_subject-IsErased_example = erase_subject-IsErased file_tables ada database erase_run

abbrev note : AuditObject
note = record { type_name = "kamara/file"; object_id = "f1"; permalink = "/files/f1" }

emit_run : (emit file_tables ada "kamara.file.created" note database).0 ≡ ok tt
unfolding emit token_for lookup_token token_or_new on_tables record_event append_event insert_event
    has_event stmt find_token fresh_id is_zero ◌>>=◌
emit_run = refl

emit_records_example :
    IsRecorded file_tables [] ada "kamara.file.created" note
      (emit file_tables ada "kamara.file.created" note database).1.tables
emit_records_example = emit_records file_tables ada "kamara.file.created" note database emit_run

-- A login session for "a", and one for "b" that is stored next.
abbrev logins : Session.Store ℕ
logins = record {
  ttl = 10;
  sweep_every = 10;
  items = record { key = "a"; val = 7; exp = 15 } ∷ [];
  last_sweep = some 5;
}

logins_map : is_map logins.items ≡ true
unfolding is_map has_key
logins_map = refl

operations-Finds_example :
    Finds 14 "a" (Session.put 12 "b" 8 logins) (
      if str_eq "a" "b"
      then (if ltb 22 14 then none else some 8)
      else (Session.get 14 "a" logins).0)
    × Finds 14 "a"
        (Session.delete "b" logins)
        (if str_eq "a" "b" then none else (Session.get 14 "a" logins).0)
    × Finds 14 "a" (Session.get 12 "b" logins).1 (Session.get 14 "a" logins).0
    × (is_map (Session.put 12 "b" 8 logins).items ≡ true)
    × (is_map (Session.delete "b" logins).items ≡ true)
    × (is_map (Session.get 12 "b" logins).1.items ≡ true)
operations-Finds_example = operations-Finds 12 14 "b" "a" 8 logins (omega arith) logins_map
