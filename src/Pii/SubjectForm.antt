-- ===== src/Pii/SubjectForm.antt =====
-- The canonical form of a subject (subject.go): what is printed parses to the same subject.
use Prim.Native.Char.{Char, code}
use Prim.Native.String.{◌++◌}
use Prim.Native.String.append
use text.Mathlib.TextEquality.{Char-path}
use peristera.Prelude.{
  ◌≡◌, ◌≢◌, refl, sym, ap, subst₂, ◌∙◌, String, false, inl, inr, Option, none, some, arith, ◌==◌,
  eq_iff, ok, Bool-cases, Option-cases,
}
use peristera.Pii.{Subject, before, cut_slash, subject_of, parse_subject, print_subject}

-- No character of the text is a slash.
abbrev pub SlashFree : String → Type 0
SlashFree String.[] = Unit {0}
SlashFree (String.◌∷◌ c s) = (code c ≢ b'/') × SlashFree s

abbrev slash : Char
slash = "/"

slash-append : (b : String) → "/" ++ b ≡ String.◌∷◌ slash b
slash-append b = append.cons slash "" b ∙ ap (String.◌∷◌ slash) (append.nil b)

cut_slash-append : (a b : String) → SlashFree a → cut_slash (a ++ ("/" ++ b)) ≡ some (a, b)
unfolding cut_slash
cut_slash-append String.[] b h = rw (append.nil, slash-append) refl
cut_slash-append (String.◌∷◌ c a) b h =
    let no_slash : (code c == b'/') ≡ false = ground (arith, h.0) in
    rw append.cons (rw (cut_slash-append a b h.1, no_slash))

-- A subject with both parts, whose instance has no slash, is parsed back from its canonical form.
pub parse_subject-print_subject :
    (s : Subject)
    → SlashFree s.home_instance
    → s.home_instance ≢ ""
    → s.user_id ≢ ""
    → parse_subject (print_subject s) ≡ ok s
unfolding parse_subject print_subject
parse_subject-print_subject s free home user =
    rw (cut_slash-append s.home_instance s.user_id free)
      (ground (arith, eq_iff s.home_instance "", eq_iff s.user_id ""))

before-some :
    (c : Char) (o : Option (String × String)) (a b : String)
    → before c o ≡ some (a, b)
    → (a' : String) × (o ≡ some (a', b)) × (a ≡ String.◌∷◌ c a')
before-some c none a b h = cc
before-some c (some (a', b')) a b h = (a', cc, cc)

cut_left :
    (s a b : String) → ◌≡◌ {A = Option (String × String)} (some ("", s)) (some (a, b)) → "" ≡ a
cut_left s a b e = cc

cut_right :
    (s a b : String) → ◌≡◌ {A = Option (String × String)} (some ("", s)) (some (a, b)) → s ≡ b
cut_right s a b e = cc

-- A text that is cut at its first slash into two parts.
abbrev IsCut : String → String → String → Type 0
IsCut s a b = (s ≡ a ++ ("/" ++ b)) × SlashFree a

IsCut-slash : (c : Char) (s : String) → code c ≡ b'/' → IsCut (String.◌∷◌ c s) "" s
IsCut-slash c s e =
    (ap (λ d. String.◌∷◌ d s) (Char-path c slash e) ∙ sym (slash-append s) ∙ sym (append.nil _), tt)

IsCut-other :
    (c : Char) (s a b : String)
    → code c ≢ b'/'
    → IsCut s a b
    → IsCut (String.◌∷◌ c s) (String.◌∷◌ c a) b
IsCut-other c s a b ne h = (ap (String.◌∷◌ c) h.0 ∙ sym (append.cons c a ("/" ++ b)), (ne, h.1))

cut_slash-some : (s a b : String) → cut_slash s ≡ some (a, b) → IsCut s a b
unfolding cut_slash
cut_slash-some String.[] a b h = cc
cut_slash-some (String.◌∷◌ c s) a b h = elim (Bool-cases (code c == b'/')) [
  | inl at_slash ↦
      let e : ◌≡◌ {A = Option (String × String)} (some ("", s)) (some (a, b)) =
        (rw at_slash at h) in
      subst₂ (λ x y. IsCut (String.◌∷◌ c s) x y) (cut_left s a b e) (cut_right s a b e)
        (IsCut-slash c s (ground arith))
  | inr other ↦
      let e : before c (cut_slash s) ≡ some (a, b) = (rw other at h) in
      let parts = before-some c (cut_slash s) a b e in
      rw (parts.2) (IsCut-other c s parts.0 b (ground arith) (cut_slash-some s parts.0 b parts.1))
]

exact_of_parts :
    (text a b : String) (s : Subject)
    → IsCut text a b
    → subject_of (some (a, b)) ≡ ok s
    → (text ≡ print_subject s)
      × SlashFree s.home_instance
      × (s.home_instance ≢ "")
      × (s.user_id ≢ "")
unfolding subject_of print_subject
exact_of_parts text a b s cut h =
    let home : s.home_instance ≡ a = ground arith in
    let user : s.user_id ≡ b = ground arith in
    (
      cut.0 ∙ rw (home, user),
      rw home cut.1,
      ground (arith, eq_iff a ""),
      ground (arith, eq_iff b ""),
    )

-- Parsing accepts the canonical form only: the text is the two parts around a slash, neither part is
-- empty, and the instance has no slash.
pub parse_subject_exact :
    (text : String) (s : Subject)
    → parse_subject text ≡ ok s
    → (text ≡ print_subject s)
      × SlashFree s.home_instance
      × (s.home_instance ≢ "")
      × (s.user_id ≢ "")
unfolding parse_subject print_subject
parse_subject_exact text s h = elim (Option-cases (cut_slash text)) [
  | inl e ↦ cc (e, h)
  | inr (p, e) ↦ exact_of_parts text p.0 p.1 s (cut_slash-some text p.0 p.1 e) (rw e at h)
]
