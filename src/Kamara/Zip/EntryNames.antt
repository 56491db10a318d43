-- ===== src/Kamara/Zip/EntryNames.antt =====
-- The names that entryName gives the entries of one directory (kamara/internal/file/zip.go).
use Prim.Native.Char.{Char, code}
use Prim.Native.String.{◌++◌ as join, count}
use text.Mathlib.TextLemmas.{
  append_cancel_left, append_cancel_right, cons-append, nil-append, length-append as count-append,
}
use peristera.Prelude.{
  ℕ, zero, suc, ◌+◌, ◌≤◌, ◌<◌, ◌≡◌, ◌≢◌, refl, ap, String, true, false, ◌||◌, inl, inr, List, [],
  ◌∷◌, ◌++◌, length, str_eq, eq_iff, ◌==◌, Bool-cases, arith,
}
use peristera.Prelude.Decimal.{decimal, decimal-injective, decimal-keeps}
use peristera.Kamara.ContentType.{extension_from}
use peristera.Kamara.Tables.{member}
use peristera.Kamara.Zip.{flat, flatten, sanitize, trim_suffix, remove_one, candidate}

-- No rune of a text separates directories.
abbrev pub NoSlash : String → Type 0
NoSlash String.[] = Unit
NoSlash (String.◌∷◌ c s) = (code c ≢ b'/') × (code c ≢ b'\\') × NoSlash s

-- A name that an extractor puts into the directory that it extracts to.
pub record IsSafe (name : String) : Type 0 where
  pub no_slash : NoSlash name
  pub not_here : name ≢ "."
  pub not_up : name ≢ ".."

flat-plain : (c : Char) → (code (flat c) ≢ b'/') × (code (flat c) ≢ b'\\')
unfolding flat
flat-plain c = elim (Bool-cases (code c == b'/' || code c == b'\\')) [
  | inl separator ↦ rw separator (omega arith, omega arith)
  | inr other ↦ rw other (ground arith, ground arith)
]

flatten-NoSlash : (s : String) → NoSlash (flatten s)
unfolding flatten flat
flatten-NoSlash String.[] = tt
flatten-NoSlash (String.◌∷◌ c s) = ((flat-plain c).0, (flat-plain c).1, flatten-NoSlash s)

pub sanitize-IsSafe : (s : String) → IsSafe (sanitize s)
unfolding sanitize
sanitize-IsSafe s = elim (Bool-cases (str_eq (flatten s) "." || str_eq (flatten s) "..")) [
  | inl dots ↦
      rw dots (record { no_slash = (omega arith, omega arith, tt); not_here = cc; not_up = cc })
  | inr other ↦ rw other (record {
    no_slash = flatten-NoSlash s;
    not_here = ground (arith, eq_iff (flatten s) ".");
    not_up = ground (arith, eq_iff (flatten s) "..");
  })
]

NoSlash-join : (s t : String) → NoSlash s → NoSlash t → NoSlash (join s t)
NoSlash-join String.[] t p q = rw nil-append q
NoSlash-join (String.◌∷◌ c s) t p q = rw cons-append (p.0, p.1, NoSlash-join s t p.2 q)

NoSlash-not_slash : (c : Char) (s : String) → NoSlash (String.◌∷◌ c s) → (code c == b'/') ≡ false
NoSlash-not_slash c s q = ground (arith, q.0)

pub extension_from-NoSlash :
    (found s : String) → NoSlash found → NoSlash s → NoSlash (extension_from found s)
unfolding extension_from
extension_from-NoSlash found String.[] p q = p
extension_from-NoSlash found (String.◌∷◌ c s) p q = elim (Bool-cases (code c == b'.')) [
  | inl dot ↦ rw dot (extension_from-NoSlash (String.◌∷◌ c s) s q q.2)
  | inr other ↦ rw (other, NoSlash-not_slash c s q) (extension_from-NoSlash found s p q.2)
]

pub trim_suffix-NoSlash : (suffix s : String) → NoSlash s → NoSlash (trim_suffix suffix s)
unfolding trim_suffix
trim_suffix-NoSlash suffix String.[] p = tt
trim_suffix-NoSlash suffix (String.◌∷◌ c s) p = elim (Bool-cases (str_eq (String.◌∷◌ c s) suffix)) [
  | inl whole ↦ rw whole tt
  | inr more ↦ rw more (p.0, p.1, trim_suffix-NoSlash suffix s p.2)
]

decimal-NoSlash : (n : ℕ) → NoSlash (decimal n)
decimal-NoSlash n =
    decimal-keeps NoSlash (λ c s low high rest. (omega arith, omega arith, rest)) n tt

-- A candidate has at least three runes.
count-candidate : (stem ext : String) (n : ℕ) → 3 ≤ count (candidate stem ext n)
unfolding candidate
count-candidate stem ext n = omega (
  arith,
  count-append stem (join " (" (join (decimal n) (join ")" ext))),
  count-append " (" (join (decimal n) (join ")" ext)),
  count-append (decimal n) (join ")" ext),
  count-append ")" ext,
)

pub candidate-IsSafe :
    (stem ext : String) (n : ℕ) → NoSlash stem → NoSlash ext → IsSafe (candidate stem ext n)
unfolding candidate
candidate-IsSafe stem ext n p q = record {
  no_slash = NoSlash-join stem _ p (
      NoSlash-join " (" _ (omega arith, omega arith, (omega arith, omega arith, tt))
        (NoSlash-join (decimal n) _ (decimal-NoSlash n)
          (NoSlash-join ")" ext (omega arith, omega arith, tt) q)));
  not_here = λ e. absurd (omega (arith, count-candidate stem ext n, ap count e));
  not_up = λ e. absurd (omega (arith, count-candidate stem ext n, ap count e));
}

pub candidate-injective :
    (stem ext : String) (m n : ℕ) → candidate stem ext m ≡ candidate stem ext n → m ≡ n
unfolding candidate
candidate-injective stem ext m n e = decimal-injective m n (
    append_cancel_right (decimal m) (decimal n) (join ")" ext)
      (append_cancel_left " (" _ _ (append_cancel_left stem _ _ e)))

-- The `k` candidates from the number `n` stand in the list.
unfoldable pub AllTaken : (ℕ → String) → List String → ℕ → ℕ → Type 0
AllTaken f taken zero n = Unit
AllTaken f taken (suc k) n = (member (f n) taken ≡ true) × AllTaken f taken k (n + 1)

pub member-append :
    (x : String) (xs ys : List String) → member x (xs ++ ys) ≡ (member x xs || member x ys)
unfolding member
member-append x [] ys = refl
member-append x (y ∷ xs) ys = ground (arith, member-append x xs ys)

member-remove_one :
    (x y : String) (xs : List String)
    → x ≢ y
    → member x xs ≡ true
    → member x (remove_one y xs) ≡ true
unfolding member remove_one
member-remove_one x y [] ne m = cc
member-remove_one x y (z ∷ xs) ne m =
    ground (arith, member-remove_one x y xs ne, eq_iff x z, eq_iff y z)

length-remove_one :
    (x : String) (xs : List String)
    → member x xs ≡ true
    → length xs ≡ suc (length (remove_one x xs))
unfolding member remove_one
length-remove_one x [] m = cc
length-remove_one x (y ∷ xs) m = ground (arith, length-remove_one x xs, eq_iff x y)

module _ (f : ℕ → String) (injective : (m n : ℕ) → f m ≡ f n → m ≡ n) where
  AllTaken-remove_one :
      (taken : List String) (k m n : ℕ)
      → m < n
      → AllTaken f taken k n
      → AllTaken f (remove_one (f m) taken) k n
  unfolding AllTaken
  AllTaken-remove_one taken zero m n l t = tt
  AllTaken-remove_one taken (suc k) m n l t = (
    member-remove_one (f n) (f m) taken (λ e. absurd (omega (arith, injective n m e))) t.0,
    AllTaken-remove_one taken k m (n + 1) (omega arith) t.1,
  )

  -- Different candidates that are all taken are at most as many as the names that are taken.
  pub AllTaken-le-length : (taken : List String) (k n : ℕ) → AllTaken f taken k n → k ≤ length taken
  unfolding AllTaken
  AllTaken-le-length taken zero n t = omega arith
  AllTaken-le-length taken (suc k) n t = omega (
    arith,
    length-remove_one (f n) taken t.0,
    AllTaken-le-length (remove_one (f n) taken) k (n + 1)
        (AllTaken-remove_one taken k n (n + 1) (omega arith) t.1),
  )
