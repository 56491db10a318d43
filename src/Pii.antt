-- ===== src/Pii.antt =====
-- lib/pii: the personal-data conventions (subject.go, retention.go). The children have the laws.
pub mod SubjectForm
use Prim.Native.Char.{Char, code}
use Prim.Native.String.{◌++◌}
use peristera.Prelude.{
  ℕ, ◌+◌, String, Bool, true, false, ◌&&◌, ◌||◌, Option, none, some, List, [], ◌∷◌, str_eq, ltb,
  ◌==◌, if◌then◌else◌, Result, ok, err, message,
}

-- subject.go: a data subject.
pub record Subject : Type 0 where
  pub home_instance : String
  pub user_id : String

abbrev before : Char → Option (String × String) → Option (String × String)
before c none = none
before c (some (a, b)) = some (String.◌∷◌ c a, b)

-- strings.Cut(s, "/"): the texts before and after the first slash.
unfoldable pub cut_slash : String → Option (String × String)
cut_slash String.[] = none
cut_slash (String.◌∷◌ c s) =
    let rest = cut_slash s in if code c == b'/' then some ("", s) else before c rest

subject_of : Option (String × String) → Result Subject
subject_of none = err (message "pii: not a canonical subject")
subject_of (some (home, user)) =
    if str_eq home "" || str_eq user ""
    then err (message "pii: not a canonical subject")
    else ok (record { home_instance = home; user_id = user })

unfoldable pub parse_subject : String → Result Subject
unfolding cut_slash subject_of
parse_subject s = subject_of (cut_slash s)

-- Subject.String
unfoldable pub print_subject : Subject → String
print_subject s = s.home_instance ++ ("/" ++ s.user_id)

-- OpenFGAObject
unfoldable pub open_fga_object : Subject → String
unfolding print_subject
open_fga_object s = "user:" ++ print_subject s

-- Zero
unfoldable pub is_zero : Subject → Bool
is_zero s = str_eq s.home_instance "" && str_eq s.user_id ""

abbrev pub same_subject : Subject → Subject → Bool
same_subject s t = str_eq s.home_instance t.home_instance && str_eq s.user_id t.user_id

-- retention.go; `min_time` is a duration and times are instants, in the same unit.
pub record RetentionClass : Type 0 where
  pub name : String
  pub min_time : ℕ
  pub legal_basis : String

abbrev pub none_class : RetentionClass
none_class = record { name = "none"; min_time = 0; legal_basis = "" }

-- BlocksErasureAt
unfoldable pub blocks_erasure_at : RetentionClass → ℕ → ℕ → Bool → Bool
blocks_erasure_at c anchor now legal_hold =
    if legal_hold then true else if c.min_time == 0 then false else ltb now (anchor + c.min_time)
