-- ===== src/Kamara/SubjectData/Keys.antt =====
-- Rows with a key, in an order or not: what is left of some of them as they are deleted one after another
-- (kamara/internal/file/subject_data.go).
use peristera.Prelude.{
  ℕ, ◌≡◌, refl, sym, ap, ◌∙◌, String, Bool, true, List, [], ◌∷◌, map, All, str_eq, eq_iff, eq_refl,
  ◌||◌, arith, Bool-cases, inl, inr, if◌then◌else◌,
}
use peristera.Kamara.Tables.{member}
use peristera.Kamara.Listings.{insert_by_key, order_by_key, insert_by_key_desc, order_by_key_desc}

-- Rows with a key, some of them a person's.
module _ {A : Type 0} (key : A → String) where
  unfoldable pub without_key : String → List A → List A
  without_key id [] = []
  without_key id (x ∷ xs) =
      let rest = without_key id xs in if str_eq id (key x) then rest else x ∷ rest

module _ {A : Type 0} (key : A → String) (mine : A → Bool) where
  unfoldable pub selected : List A → List A
  selected [] = []
  selected (x ∷ xs) = let rest = selected xs in if mine x then x ∷ rest else rest

  -- Every row of the person has one of the identifiers.
  unfoldable pub Pending : List String → List A → Type 0
  Pending ids xs = All (λ x. member (key x) ids ≡ true) (selected xs)

  pub without_key-Pending :
      (id : String) (ids : List String) (xs : List A)
      → Pending (id ∷ ids) xs
      → Pending ids (without_key key id xs)
  unfolding Pending selected without_key member
  without_key-Pending id ids [] h = tt
  without_key-Pending id ids (x ∷ xs) h = elim (Bool-cases (str_eq id (key x))) [
    | inl hit ↦ elim (Bool-cases (mine x)) [
      | inl own ↦ rw hit (without_key-Pending id ids xs (rw own at h).1)
      | inr other ↦ rw hit (without_key-Pending id ids xs (rw other at h))
    ]
    | inr miss ↦ elim (Bool-cases (mine x)) [
      | inl own ↦
          let k = rw own at h in
          rw (miss, own)
            (ground (arith, eq_iff (key x) id, eq_refl id), without_key-Pending id ids xs k.1)
      | inr other ↦ rw (miss, other) (without_key-Pending id ids xs (rw other at h))
    ]
  ]

  pub Pending-nil : (xs : List A) → Pending [] xs → selected xs ≡ []
  unfolding Pending selected member
  Pending-nil [] h = refl
  Pending-nil (x ∷ xs) h = elim (Bool-cases (mine x)) [
    | inl own ↦ absurd (cc ((rw own at h).0))
    | inr other ↦ rw other (Pending-nil xs (rw other at h))
  ]

module _ {A : Type 0} (key : A → String) where
  keys_weaken :
      (id : String) (ids : List String) (xs : List A)
      → All (λ x. member (key x) ids ≡ true) xs
      → All (λ x. member (key x) (id ∷ ids) ≡ true) xs
  unfolding member
  keys_weaken id ids [] h = tt
  keys_weaken id ids (x ∷ xs) h = (ground (arith), keys_weaken id ids xs h.1)

  pub own_keys : (xs : List A) → All (λ x. member (key x) (map key xs) ≡ true) xs
  unfolding member
  own_keys [] = tt
  own_keys (x ∷ xs) = (rw (eq_refl (key x)) refl, keys_weaken (key x) (map key xs) xs (own_keys xs))

  pub same_keys :
      (ids ids' : List String) (xs : List A)
      → ((h : String) → member h ids ≡ member h ids')
      → All (λ x. member (key x) ids ≡ true) xs
      → All (λ x. member (key x) ids' ≡ true) xs
  same_keys ids ids' [] e h = tt
  same_keys ids ids' (x ∷ xs) e h = (sym (e (key x)) ∙ h.0, same_keys ids ids' xs e h.1)

  module _ (rank : A → ℕ) (h : String) where
    insert_by_key-member :
        (x : A) (xs : List A)
        → member h (map key (insert_by_key rank x xs)) ≡ member h (key x ∷ map key xs)
    unfolding insert_by_key member
    insert_by_key-member x [] = refl
    insert_by_key-member x (y ∷ ys) = ground (arith, insert_by_key-member x ys)

    pub order_by_key-member :
        (xs : List A) → member h (map key (order_by_key rank xs)) ≡ member h (map key xs)
    unfolding order_by_key member
    order_by_key-member [] = refl
    order_by_key-member (x ∷ xs) =
        insert_by_key-member x (order_by_key rank xs)
        ∙ ap (λ b. str_eq h (key x) || b) (order_by_key-member xs)

    insert_by_key_desc-member :
        (x : A) (xs : List A)
        → member h (map key (insert_by_key_desc rank x xs)) ≡ member h (key x ∷ map key xs)
    unfolding insert_by_key_desc member
    insert_by_key_desc-member x [] = refl
    insert_by_key_desc-member x (y ∷ ys) = ground (arith, insert_by_key_desc-member x ys)

    pub order_by_key_desc-member :
        (xs : List A) → member h (map key (order_by_key_desc rank xs)) ≡ member h (map key xs)
    unfolding order_by_key_desc member
    order_by_key_desc-member [] = refl
    order_by_key_desc-member (x ∷ xs) =
        insert_by_key_desc-member x (order_by_key_desc rank xs)
        ∙ ap (λ b. str_eq h (key x) || b) (order_by_key_desc-member xs)
