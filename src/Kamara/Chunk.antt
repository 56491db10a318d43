-- ===== src/Kamara/Chunk.antt =====
-- kamara/internal/chunk: the content-defined chunker (chunker.go, gear.go).
-- Bytes are numbers below 256 and a `uint64` is a number below 2 ^ 64.
pub mod Cutpoint
pub mod Canonical
pub mod Split
use Prim.Native.Nat.{bit_and, bit_xor}
use peristera.Prelude.{
  ℕ, zero, suc, ◌+◌, ◌-◌, ◌*◌, ◌/◌, ◌%◌, ◌^◌, List, [], ◌∷◌, ◌==◌, ltb, leb, if◌then◌else◌, length,
  get_or, drop, min,
}

-- The size bounds and the two masks of the chunker.
pub record Sizes : Type 0 where
  pub min_size : ℕ
  pub avg_size : ℕ
  pub max_size : ℕ
  pub mask_s : ℕ
  pub mask_l : ℕ

-- The constants of the package.
abbrev pub kamara_sizes : Sizes
kamara_sizes = record {
  min_size = 256 * 1024;
  avg_size = 1024 * 1024;
  max_size = 4 * 1024 * 1024;
  mask_s = 2 ^ 22 - 1;
  mask_l = 2 ^ 18 - 1;
}

-- One round of splitmix64.
splitmix : ℕ → ℕ
splitmix x =
    let a : ℕ = bit_xor x (x / 2 ^ 30) * 0xbf58476d1ce4e5b9 % 2 ^ 64 in
    let b : ℕ = bit_xor a (a / 2 ^ 27) * 0x94d049bb133111eb % 2 ^ 64 in bit_xor b (b / 2 ^ 31)

gear_from : ℕ → ℕ → List ℕ
unfolding splitmix
gear_from zero x = []
gear_from (suc n) x = let x' : ℕ = (x + 0x9e3779b97f4a7c15) % 2 ^ 64 in splitmix x' ∷ gear_from n x'

gear : List ℕ
unfolding gear_from
gear = gear_from 256 0x9e3779b97f4a7c15

-- fp = (fp << 1) + gear[b]
roll : ℕ → ℕ → ℕ
unfolding gear
roll fp b = (fp * 2 + get_or gear b 0) % 2 ^ 64

-- What a loop over the bytes ends with: a cut at an index, or the fingerprint at its end.
pub data Scan : Type 0 where
  cut : ℕ → Scan
  through : ℕ → Scan

-- for ; i < i + rounds; i++ { … if fp&mask == 0 { return i } }, over the bytes from index i on.
scan : ℕ → ℕ → ℕ → ℕ → List ℕ → Scan
unfolding roll
scan mask zero i fp bytes = through fp
scan mask (suc rounds) i fp [] = through fp
scan mask (suc rounds) i fp (b ∷ bytes) =
    let fp' = roll fp b in
    let rest = scan mask rounds (i + 1) fp' bytes in if bit_and fp' mask == 0 then cut i else rest

cut_or : ℕ → Scan → ℕ
cut_or n (cut i) = i
cut_or n (through fp) = n

second_scan : Sizes → ℕ → ℕ → List ℕ → Scan → Scan
unfolding scan
second_scan sz normal n bytes (cut i) = cut i
second_scan sz normal n bytes (through fp) =
    scan sz.mask_l (n - normal) normal fp (drop (normal - sz.min_size) bytes)

unfoldable pub cutpoint : Sizes → List ℕ → ℕ
unfolding scan second_scan cut_or drop
cutpoint sz bytes =
    if leb (length bytes) sz.min_size
    then length bytes
    else (let n = if ltb sz.max_size (length bytes) then sz.max_size else length bytes in
        let normal = if ltb n sz.avg_size then n else sz.avg_size in
        let tail = drop sz.min_size bytes in
        let first = scan sz.mask_s (normal - sz.min_size) sz.min_size 0 tail in
        cut_or n (second_scan sz normal n tail first))
