-- ===== src/Kamara/Chunk/Canonical.antt =====
-- The chunks that `Split` of chunker.go makes of a content, described over the whole content.
use peristera.Prelude.{
  ℕ, zero, suc, ◌≤◌, ◌<◌, ◌≡◌, refl, ap, ◌∙◌, ◌⊎◌, inl, inr, List, [], ◌∷◌, ◌++◌, arith, length,
  length-take, length-drop, take, drop, drop_all, take-append-drop, concat,
}
use peristera.Kamara.Chunk.Cutpoint.{IsValid, cutpoint_bounds, cutpoint-pos}
use peristera.Kamara.Chunk.{Sizes, cutpoint}

-- The chunks of a content that is in memory as a whole.
abbrev pub chunks_of : Sizes → ℕ → List ℕ → List (List ℕ)
chunks_of sz zero bytes = []
chunks_of sz (suc fuel) [] = []
chunks_of sz (suc fuel) (b ∷ bytes) =
    let c = cutpoint sz (b ∷ bytes) in take c (b ∷ bytes) ∷ chunks_of sz fuel (drop c (b ∷ bytes))

abbrev pub chunks : Sizes → List ℕ → List (List ℕ)
chunks sz bytes = chunks_of sz (length bytes) bytes

concat-chunks_of :
    (sz : Sizes) (fuel : ℕ) (bytes : List ℕ)
    → IsValid sz
    → length bytes ≤ fuel
    → concat (chunks_of sz fuel bytes) ≡ bytes
concat-chunks_of sz zero [] v h = refl
concat-chunks_of sz zero (b ∷ bytes) v h = absurd (omega arith)
concat-chunks_of sz (suc fuel) [] v h = refl
concat-chunks_of sz (suc fuel) (b ∷ bytes) v h =
    let c = cutpoint sz (b ∷ bytes) in
    ap (λ z. take c (b ∷ bytes) ++ z)
      (concat-chunks_of sz fuel (drop c (b ∷ bytes)) v
        (omega (arith, length-drop c (b ∷ bytes), cutpoint-pos sz (b ∷ bytes) v (omega arith))))
    ∙ take-append-drop c (b ∷ bytes)

-- A chunk is not empty and at most `max_size` long, and only the last may be shorter than `min_size`.
abbrev pub IsSized : Sizes → List (List ℕ) → Type 0
IsSized sz [] = Unit {0}
IsSized sz (c ∷ cs) =
    (0 < length c)
    × (length c ≤ sz.max_size)
    × ((cs ≡ []) ⊎ (sz.min_size ≤ length c))
    × IsSized sz cs

chunks_of-nil : (sz : Sizes) (fuel : ℕ) → chunks_of sz fuel [] ≡ []
chunks_of-nil sz zero = refl
chunks_of-nil sz (suc fuel) = refl

chunks_of-drop :
    (sz : Sizes) (fuel n : ℕ) (xs : List ℕ) → length xs ≤ n → chunks_of sz fuel (drop n xs) ≡ []
chunks_of-drop sz fuel n xs h = rw (drop_all n xs h) (chunks_of-nil sz fuel)

chunks_of-IsSized :
    (sz : Sizes) (fuel : ℕ) (bytes : List ℕ) → IsValid sz → IsSized sz (chunks_of sz fuel bytes)
chunks_of-IsSized sz zero bytes v = tt
chunks_of-IsSized sz (suc fuel) [] v = tt
chunks_of-IsSized sz (suc fuel) (b ∷ bytes) v =
    let full = b ∷ bytes in
    let c = cutpoint sz full in
    let bounds = cutpoint_bounds sz full v in
    let size = length-take c full in
    (
      omega (arith, size, bounds.0, cutpoint-pos sz full v (omega arith)),
      omega (arith, size, bounds.1),
      elim bounds.2 [
        | inl whole ↦ inl (chunks_of-drop sz fuel c full (omega (arith, whole)))
        | inr long ↦ inr (omega (arith, size, bounds.0, long))
      ],
      chunks_of-IsSized sz fuel (drop c full) v,
    )

-- The chunks of a content are non-empty and at most `max_size` long, and all but the last are at
-- least `min_size` long. Put together in order they are the content.
pub chunks-IsSized :
    (sz : Sizes) (bytes : List ℕ)
    → IsValid sz
    → IsSized sz (chunks sz bytes) × (concat (chunks sz bytes) ≡ bytes)
chunks-IsSized sz bytes v = (
  chunks_of-IsSized sz (length bytes) bytes v,
  concat-chunks_of sz (length bytes) bytes v (omega arith),
)
