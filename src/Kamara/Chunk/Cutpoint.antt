-- ===== src/Kamara/Chunk/Cutpoint.antt =====
-- Where chunker.go cuts: the bounds of `cutpoint`.
use Prim.Native.Nat.{bit_and}
use peristera.Prelude.{
  ℕ, zero, suc, ◌+◌, ◌-◌, ◌≤◌, ◌<◌, ◌≡◌, refl, ◌⊎◌, inl, inr, List, [], ◌∷◌, ◌++◌, arith, length,
  length-append, length-drop, drop, drop-append, leb, ltb, ◌==◌, if◌then◌else◌, Bool-cases,
}
use peristera.Kamara.Chunk.{
  Sizes, Scan, cut, through, roll, scan, cut_or, second_scan, cutpoint, kamara_sizes,
}

-- The bounds that the chunker's comments give for its constants.
pub record IsValid (sz : Sizes) : Type 0 where
  pub positive : 0 < sz.min_size
  pub min-le-avg : sz.min_size ≤ sz.avg_size
  pub avg-lt-max : sz.avg_size < sz.max_size

pub kamara_sizes-IsValid : IsValid kamara_sizes
kamara_sizes-IsValid = record {
  positive = omega arith;
  min-le-avg = omega arith;
  avg-lt-max = omega arith;
}

abbrev Within : ℕ → ℕ → Scan → Type 0
Within lo hi (cut j) = (lo ≤ j) × (j < hi)
Within lo hi (through fp) = Unit {0}

Within-mono :
    (lo lo' hi hi' : ℕ) (s : Scan) → lo' ≤ lo → hi ≤ hi' → Within lo hi s → Within lo' hi' s
Within-mono lo lo' hi hi' (cut j) h k w = omega arith
Within-mono lo lo' hi hi' (through fp) h k w = tt

scan-Within :
    (mask rounds i fp : ℕ) (bytes : List ℕ) → Within i (i + rounds) (scan mask rounds i fp bytes)
unfolding scan
scan-Within mask zero i fp bytes = tt
scan-Within mask (suc rounds) i fp [] = tt
scan-Within mask (suc rounds) i fp (b ∷ bytes) = elim (Bool-cases (bit_and (roll fp b) mask == 0)) [
  | inl hit ↦ rw hit (omega arith)
  | inr miss ↦ rw miss (
      Within-mono (i + 1) i (i + 1 + rounds) (i + suc rounds)
        (scan mask rounds (i + 1) (roll fp b) bytes) (omega arith) (omega arith)
        (scan-Within mask rounds (i + 1) (roll fp b) bytes))
]

second_scan-Within :
    (sz : Sizes) (normal n : ℕ) (bytes : List ℕ) (s : Scan)
    → sz.min_size ≤ normal
    → normal ≤ n
    → Within sz.min_size normal s
    → Within sz.min_size n (second_scan sz normal n bytes s)
unfolding second_scan
second_scan-Within sz normal n bytes (cut j) h k w = omega arith
second_scan-Within sz normal n bytes (through fp) h k w =
    let tail = drop (normal - sz.min_size) bytes in
    Within-mono normal sz.min_size (normal + (n - normal)) n
      (scan sz.mask_l (n - normal) normal fp tail) h (omega arith)
      (scan-Within sz.mask_l (n - normal) normal fp tail)

cut_or_bounds :
    (lo n : ℕ) (s : Scan) → lo ≤ n → Within lo n s → (lo ≤ cut_or n s) × (cut_or n s ≤ n)
unfolding cut_or
cut_or_bounds lo n (cut j) h w = omega arith
cut_or_bounds lo n (through fp) h w = omega arith

-- The two loops of `cutpoint` together.
abbrev scans : Sizes → ℕ → ℕ → List ℕ → Scan
scans sz normal n tail =
    second_scan sz normal n tail (scan sz.mask_s (normal - sz.min_size) sz.min_size 0 tail)

scans_bounds :
    (sz : Sizes) (normal n : ℕ) (tail : List ℕ)
    → sz.min_size ≤ normal
    → normal ≤ n
    → (sz.min_size ≤ cut_or n (scans sz normal n tail)) × (cut_or n (scans sz normal n tail) ≤ n)
scans_bounds sz normal n tail h k =
    cut_or_bounds sz.min_size n (scans sz normal n tail) (omega arith) (
      second_scan-Within sz normal n tail _ h k (
        Within-mono sz.min_size sz.min_size (sz.min_size + (normal - sz.min_size)) normal
          (scan sz.mask_s (normal - sz.min_size) sz.min_size 0 tail) (omega arith) (omega arith)
          (scan-Within sz.mask_s (normal - sz.min_size) sz.min_size 0 tail)))

abbrev bound : Sizes → List ℕ → ℕ
bound sz bytes = if ltb sz.max_size (length bytes) then sz.max_size else length bytes

abbrev middle : Sizes → ℕ → ℕ
middle sz n = if ltb n sz.avg_size then n else sz.avg_size

-- The first chunk is within the input and at most `max_size` long. It is at least `min_size` long,
-- unless it is the whole input.
pub cutpoint_bounds :
    (sz : Sizes) (bytes : List ℕ)
    → IsValid sz
    → (cutpoint sz bytes ≤ length bytes)
      × (cutpoint sz bytes ≤ sz.max_size)
      × ((cutpoint sz bytes ≡ length bytes) ⊎ (sz.min_size ≤ cutpoint sz bytes))
unfolding cutpoint
cutpoint_bounds sz bytes v = elim (Bool-cases (leb (length bytes) sz.min_size)) [
  | inl short ↦ rw short (ground arith)
  | inr long ↦ rw long (
      ground (
        arith,
        scans_bounds sz (middle sz (bound sz bytes)) (bound sz bytes) (drop sz.min_size bytes),
      ))
]

-- A non-empty input has a non-empty first chunk.
pub cutpoint-pos :
    (sz : Sizes) (bytes : List ℕ) → IsValid sz → 0 < length bytes → 0 < cutpoint sz bytes
cutpoint-pos sz bytes v h = ground (arith, cutpoint_bounds sz bytes v)

scan-append :
    (mask rounds i fp : ℕ) (xs ys : List ℕ)
    → rounds ≤ length xs
    → scan mask rounds i fp (xs ++ ys) ≡ scan mask rounds i fp xs
unfolding scan
scan-append mask zero i fp xs ys h = refl
scan-append mask (suc rounds) i fp [] ys h = absurd (omega arith)
scan-append mask (suc rounds) i fp (b ∷ xs) ys h =
    rw (scan-append mask rounds (i + 1) (roll fp b) xs ys (omega arith))

second_scan-append :
    (sz : Sizes) (normal n : ℕ) (xs ys : List ℕ) (s : Scan)
    → sz.min_size ≤ normal
    → normal ≤ n
    → n ≤ sz.min_size + length xs
    → second_scan sz normal n (xs ++ ys) s ≡ second_scan sz normal n xs s
unfolding second_scan
second_scan-append sz normal n xs ys (cut j) h k l = refl
second_scan-append sz normal n xs ys (through fp) h k l =
    rw (drop-append (normal - sz.min_size) xs ys (omega arith)) (
      scan-append sz.mask_l (n - normal) normal fp (drop (normal - sz.min_size) xs) ys
        (omega (arith, length-drop (normal - sz.min_size) xs)))

scans-append :
    (sz : Sizes) (normal n : ℕ) (xs ys : List ℕ)
    → sz.min_size ≤ normal
    → normal ≤ n
    → n ≤ sz.min_size + length xs
    → scans sz normal n (xs ++ ys) ≡ scans sz normal n xs
scans-append sz normal n xs ys h k l =
    rw (scan-append sz.mask_s (normal - sz.min_size) sz.min_size 0 xs ys (omega arith))
      (second_scan-append sz normal n xs ys _ h k l)

-- Bytes from `max_size` on have no influence: a full buffer has the cut of any longer input.
pub cutpoint-append :
    (sz : Sizes) (xs ys : List ℕ)
    → IsValid sz
    → sz.max_size ≤ length xs
    → cutpoint sz (xs ++ ys) ≡ cutpoint sz xs
unfolding cutpoint
cutpoint-append sz xs ys v h = rw (drop-append sz.min_size xs ys (omega arith)) (
    ground (
      arith,
      length-append xs ys,
      length-drop sz.min_size xs,
      scans-append sz (middle sz sz.max_size) sz.max_size (drop sz.min_size xs) ys,
      scans-append sz (middle sz (length xs)) (length xs) (drop sz.min_size xs) ys,
    ))
