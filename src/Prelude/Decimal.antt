-- ===== src/Prelude/Decimal.antt =====
-- Decimal digits, as `strconv.Itoa` and the verb %d of package fmt write them.
use Prim.Native.Nat.{ℕ, zero, suc, ◌+◌, ◌-◌, ◌*◌, ◌/◌, ◌%◌, ◌<◌}
use Prim.Native.Char.{Char, code}
use Prim.Native.String.{String}
use mathlib.Core.Path.{◌≡◌, refl, sym, ap, ◌∙◌}
use mathlib.Core.Logic.{inl, inr}
use native.Mathlib.Omega.{arith}
use peristera.Prelude.Tests.{ltb, if◌then◌else◌, Bool-cases}

digit : ℕ → Char
digit zero = "0"
digit (suc zero) = "1"
digit (suc (suc zero)) = "2"
digit (suc (suc (suc zero))) = "3"
digit (suc (suc (suc (suc zero)))) = "4"
digit (suc (suc (suc (suc (suc zero))))) = "5"
digit (suc (suc (suc (suc (suc (suc zero)))))) = "6"
digit (suc (suc (suc (suc (suc (suc (suc zero))))))) = "7"
digit (suc (suc (suc (suc (suc (suc (suc (suc zero)))))))) = "8"
digit (suc (suc (suc (suc (suc (suc (suc (suc (suc n))))))))) = "9"

-- The digits of `n` before the text `s`.
digits : ℕ → ℕ → String → String
digits zero n s = s
digits (suc fuel) n s =
    let more = digits fuel (n / 10) (String.◌∷◌ (digit (n % 10)) s) in
    if ltb n 10 then String.◌∷◌ (digit n) s else more

-- A round for each digit is enough: a number has no more digits than one and its value.
unfoldable pub decimal : ℕ → String
unfolding digits digit
decimal n = digits (suc n) n ""

code-digit : (n : ℕ) → n < 10 → code (digit n) ≡ 48 + n
unfolding digit
code-digit zero h = refl
code-digit (suc zero) h = refl
code-digit (suc (suc zero)) h = refl
code-digit (suc (suc (suc zero))) h = refl
code-digit (suc (suc (suc (suc zero)))) h = refl
code-digit (suc (suc (suc (suc (suc zero))))) h = refl
code-digit (suc (suc (suc (suc (suc (suc zero)))))) h = refl
code-digit (suc (suc (suc (suc (suc (suc (suc zero))))))) h = refl
code-digit (suc (suc (suc (suc (suc (suc (suc (suc zero)))))))) h = refl
code-digit (suc (suc (suc (suc (suc (suc (suc (suc (suc n))))))))) h = omega arith

-- The number that digits stand for, after digits that stand for `acc`.
value : ℕ → String → ℕ
value acc String.[] = acc
value acc (String.◌∷◌ c s) = value (acc * 10 + (code c - 48)) s

value-digits : (fuel n : ℕ) (s : String) → n < fuel → value 0 (digits fuel n s) ≡ value n s
unfolding digits value
value-digits zero n s h = absurd (omega arith)
value-digits (suc fuel) n s h = elim (Bool-cases (ltb n 10)) [
  | inl small ↦ rw small (ap (λ k. value k s) (ground (arith, code-digit n)))
  | inr large ↦ rw large (
      value-digits fuel (n / 10) (String.◌∷◌ (digit (n % 10)) s) (ground arith)
      ∙ ap (λ k. value k s) (omega (arith, code-digit (n % 10) (omega arith))))
]

pub decimal-injective : (m n : ℕ) → decimal m ≡ decimal n → m ≡ n
unfolding decimal value
decimal-injective m n e =
    sym (value-digits (suc m) m "" (omega arith))
    ∙ ap (value 0) e
    ∙ value-digits (suc n) n "" (omega arith)

-- A property that a digit before a text keeps is one of the digits of a number.
module _ {ℓ} (P : String → Type ℓ)
    (more : (c : Char) (s : String) → 47 < code c → code c < 58 → P s → P (String.◌∷◌ c s)) where
  digits-keep : (fuel n : ℕ) (s : String) → P s → P (digits fuel n s)
  unfolding digits
  digits-keep zero n s h = h
  digits-keep (suc fuel) n s h = elim (Bool-cases (ltb n 10)) [
    | inl small ↦
        rw small (more (digit n) s (ground (arith, code-digit n)) (ground (arith, code-digit n)) h)
    | inr large ↦
        let l : n % 10 < 10 = omega arith in
        rw large (
          digits-keep fuel (n / 10) (String.◌∷◌ (digit (n % 10)) s) (
            more (digit (n % 10)) s (omega (arith, code-digit (n % 10) l))
              (omega (arith, code-digit (n % 10) l)) h))
  ]

  pub decimal-keeps : (n : ℕ) → P "" → P (decimal n)
  unfolding decimal
  decimal-keeps n h = digits-keep (suc n) n "" h
