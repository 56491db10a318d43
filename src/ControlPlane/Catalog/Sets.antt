-- ===== src/ControlPlane/Catalog/Sets.antt =====
-- equalStringSet (control-plane/internal/controller/optional_apps.go) compares the names in two lists, not
-- their order or how often they stand there.
use peristera.Prelude.{
  suc, ◌≤◌, ◌≡◌, ◌≢◌, ◌↔◌, refl, sym, ap, subst, ◌∙◌, String, Bool, true, false, inl, inr, List, [],
  ◌∷◌, length, str_eq, eq_iff, eq_refl, if◌then◌else◌, Bool-cases, arith,
}
use peristera.ControlPlane.Catalog.{contains, keys, all_in, equal_string_set}

-- No name stands twice.
Distinct : List String → Type 0
Distinct [] = Unit
Distinct (x ∷ xs) = (contains x xs ≡ false) × Distinct xs

abbrev Within : List String → List String → Type 0
Within a b = (x : String) → contains x a ≡ true → contains x b ≡ true

contains-keys : (x : String) (names : List String) → contains x (keys names) ≡ contains x names
unfolding contains keys
contains-keys x [] = refl
contains-keys x (s ∷ names) =
    ground (arith, contains-keys x names, contains-keys s names, eq_iff s x)

keys-Distinct : (names : List String) → Distinct (keys names)
unfolding Distinct keys
keys-Distinct [] = tt
keys-Distinct (s ∷ names) = elim (Bool-cases (contains s (keys names))) [
  | inl old ↦ rw old (keys-Distinct names)
  | inr new ↦ rw new (new, keys-Distinct names)
]

-- A list without one occurrence of a name.
without_one : String → List String → List String
without_one x [] = []
without_one x (y ∷ ys) = let rest = without_one x ys in if str_eq y x then ys else y ∷ rest

length-without_one :
    (x : String) (ys : List String)
    → contains x ys ≡ true
    → length ys ≡ suc (length (without_one x ys))
unfolding contains without_one
length-without_one x [] m = cc
length-without_one x (y ∷ ys) m = ground (arith, length-without_one x ys)

contains-without_one :
    (z x : String) (ys : List String)
    → z ≢ x
    → contains z ys ≡ true
    → contains z (without_one x ys) ≡ true
unfolding contains without_one
contains-without_one z x [] ne m = cc
contains-without_one z x (y ∷ ys) ne m =
    ground (arith, contains-without_one z x ys ne, eq_iff y z, eq_iff y x)

contains_ne :
    (z x : String) (xs : List String) → contains x xs ≡ false → contains z xs ≡ true → z ≢ x
contains_ne z x xs out there =
    λ e. absurd (true-ne-false (sym there ∙ ap (λ s. contains s xs) e ∙ out))
  where
    true-ne-false : ◌≡◌ {A = Bool} true false → ⊥
    true-ne-false e = cc

Within-tail :
    (x : String) (xs b : List String)
    → contains x xs ≡ false
    → Within (x ∷ xs) b
    → Within xs (without_one x b)
unfolding contains
Within-tail x xs b new within z m =
    contains-without_one z x b (contains_ne z x xs new m) (within z (ground arith))

-- Distinct names within a list are at most as many.
Within-length : (a b : List String) → Distinct a → Within a b → length a ≤ length b
unfolding Distinct contains
Within-length [] b d within = omega arith
Within-length (x ∷ xs) b d within = omega (
  arith,
  length-without_one x b (within x (rw (eq_refl x) refl)),
  Within-length xs (without_one x b) d.1 (Within-tail x xs b d.0 within),
)

all_in-Within : (a b : List String) → all_in a b ≡ true → Within a b
unfolding all_in contains
all_in-Within [] b h x m = cc
all_in-Within (y ∷ a) b h x m = elim (Bool-cases (str_eq y x)) [
  | inl same ↦ subst (λ s. contains s b ≡ true) ((eq_iff y x).0 same) (ground arith)
  | inr other ↦ all_in-Within a b (ground arith) x (ground arith)
]

Within-all_in : (a b : List String) → Within a b → all_in a b ≡ true
unfolding all_in contains
Within-all_in [] b w = refl
Within-all_in (y ∷ a) b w =
    ground (arith, w y (rw (eq_refl y) refl), Within-all_in a b (λ x m. w x (ground arith)))

Within-keys : (a b : List String) → Within a b → Within (keys a) (keys b)
Within-keys a b w x m = contains-keys x b ∙ w x (sym (contains-keys x a) ∙ m)

-- Names within as few names as there are of them are all of those.
Within-back : (a b : List String) → Distinct a → Within a b → length b ≤ length a → Within b a
unfolding Distinct contains
Within-back a b d w short x m = elim (Bool-cases (contains x a)) [
  | inl there ↦ there
  | inr absent ↦ absurd (
      omega
        (arith, Within-length (x ∷ a) b (absent, d) (λ y h. ground (arith, w y, m, eq_iff x y))))
]

same_contains :
    (a b : List String) → Within a b → Within b a → (x : String) → contains x a ≡ contains x b
same_contains a b f g x = ground (arith, f x, g x)

keys-contains :
    (a b : List String)
    → ((x : String) → contains x (keys a) ≡ contains x (keys b))
    → (x : String) → contains x a ≡ contains x b
keys-contains a b h x = sym (contains-keys x a) ∙ h x ∙ contains-keys x b

-- equalStringSet is true exactly when the two lists have the same names, in whatever order and however
-- often.
pub equal_string_set_iff :
    (a b : List String)
    → (equal_string_set a b ≡ true) ↔ ((x : String) → contains x a ≡ contains x b)
unfolding equal_string_set
equal_string_set_iff a b = (
  λ e.
      let within = all_in-Within (keys a) (keys b) (ground arith) in
      keys-contains a b (
        same_contains (keys a) (keys b) within
          (Within-back (keys a) (keys b) (keys-Distinct a) within (ground arith))),
  λ h.
      let within = Within-keys a b (λ x m. sym (h x) ∙ m) in
      let back = Within-keys b a (λ x m. h x ∙ m) in
      ground (
        arith,
        Within-length (keys a) (keys b) (keys-Distinct a) within,
        Within-length (keys b) (keys a) (keys-Distinct b) back,
        Within-all_in (keys a) (keys b) within,
      ),
)
