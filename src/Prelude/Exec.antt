-- ===== src/Prelude/Exec.antt =====
-- Code that acts on a state: a result, which may be an error, beside the state that the code leaves.
use mathlib.Core.Bool.{Bool, true, false}
use peristera.Prelude.Tests.{if◌then◌else◌}
use peristera.Prelude.Outcome.{Result, ok, err, Error}

abbrev pub Exec {ℓ} : Type ℓ → Type ℓ → Type ℓ
Exec W A = W → Result A × W

module _ {ℓ} {W A : Type ℓ} where
  abbrev pub pure : A → Exec W A
  pure a w = (ok a, w)

  abbrev pub raise : Error → Exec W A
  raise e w = (err e, w)

  abbrev pub lift : Result A → Exec W A
  lift r w = (r, w)

module _ {ℓ} {W A B : Type ℓ} where
  abbrev pub continue : Result A → (A → Exec W B) → Exec W B
  continue (ok a) f w = f a w
  continue (err e) f w = (err e, w)

  infixl 5 ◌>>=◌ ◌>>◌
  unfoldable pub ◌>>=◌ : Exec W A → (A → Exec W B) → Exec W B
  ◌>>=◌ m f w = let (r, after) = m w in continue r f after

  abbrev pub ◌>>◌ : Exec W A → Exec W B → Exec W B
  m >> n = m >>= λ _. n

-- `_ = f(…)`: an error is dropped.
unfoldable pub attempt {ℓ} : {W A : Type ℓ} → Exec W A → Exec W (Unit {ℓ})
attempt m w = let (r, after) = m w in (ok tt, after)

-- `P` holds after the code if it held before, with an error or not.
pub record Keeps {ℓ κ} {W A : Type ℓ} (P : W → Type κ) (m : Exec W A) : Type (ℓ ⊔ κ) where
  pub at : (w : W) → P w → P (m w).1

module _ {ℓ κ} {W A : Type ℓ} {P : W → Type κ} where
  pub Keeps-attempt : (m : Exec W A) → Keeps P m → Keeps P (attempt m)
  unfolding attempt
  Keeps-attempt m k = record { at = k.at }

  pub Keeps-lift : (r : Result A) → Keeps P (lift r)
  Keeps-lift r = record { at = λ w kept. kept }

  pub Keeps-raise : (e : Error) → Keeps P (raise {A = A} e)
  Keeps-raise e = record { at = λ w kept. kept }

  pub Keeps-pure : (a : A) → Keeps P (pure a)
  Keeps-pure a = record { at = λ w kept. kept }

  pub Keeps-if : (b : Bool) (m n : Exec W A) → Keeps P m → Keeps P n → Keeps P (if b then m else n)
  Keeps-if true m n km kn = km
  Keeps-if false m n km kn = kn

module _ {ℓ κ} {W A B : Type ℓ} {P : W → Type κ} where
  Keeps-continue :
      (r : Result A) (f : A → Exec W B) (w : W)
      → ((a : A) → Keeps P (f a))
      → P w
      → P (continue r f w).1
  Keeps-continue (ok a) f w k h = (k a).at w h
  Keeps-continue (err e) f w k h = h

  pub Keeps-bind :
      (first : Exec W A) (next : A → Exec W B)
      → Keeps P first
      → ((a : A) → Keeps P (next a))
      → Keeps P (first >>= next)
  unfolding ◌>>=◌
  Keeps-bind first next kept keeps = record {
    at = λ w h. let (r, after) = first w in Keeps-continue r next after keeps (kept.at w h);
  }

pub ruleset keeps_rules = (Keeps-pure, Keeps-raise, Keeps-lift, Keeps-attempt, Keeps-bind)

-- From a state with `P` the code ends in a state and with a result that `Q` relates.
pub record Triple {ℓ κ} {W A : Type ℓ} (P : W → Type κ) (m : Exec W A) (Q : Result A → W → Type κ)
    : Type (ℓ ⊔ κ) where
  pub run : (w : W) → P w → Q (m w).0 (m w).1

module _ {ℓ κ} {W A B : Type ℓ} where
  Triple-continue :
      (R : Result A → W → Type κ) (Q : Result B → W → Type κ) (r : Result A) (f : A → Exec W B)
      (w : W)
      → ((a : A) → Triple (R (ok a)) (f a) Q)
      → ((e : Error) (w : W) → R (err e) w → Q (err e) w)
      → R r w
      → Q (continue r f w).0 (continue r f w).1
  Triple-continue R Q (ok a) f w k j h = (k a).run w h
  Triple-continue R Q (err e) f w k j h = j e w h

  -- The rule for a step and the code after it.
  pub Triple-bind :
      {P : W → Type κ} (R : Result A → W → Type κ) {Q : Result B → W → Type κ} (m : Exec W A)
      (f : A → Exec W B)
      → Triple P m R
      → ((a : A) → Triple (R (ok a)) (f a) Q)
      → ((e : Error) (w : W) → R (err e) w → Q (err e) w)
      → Triple P (m >>= f) Q
  unfolding ◌>>=◌
  Triple-bind R {Q} m f km kf ke = record {
    run = λ w h. Triple-continue R Q (m w).0 f (m w).1 kf ke (km.run w h);
  }

  -- The same, after a step that keeps the condition.
  pub Keeps-then :
      {P : W → Type κ} {Q : Result B → W → Type κ} (m : Exec W A) (f : A → Exec W B)
      → Keeps P m
      → ((a : A) → Triple P (f a) Q)
      → ((e : Error) (w : W) → P w → Q (err e) w)
      → Triple P (m >>= f) Q
  Keeps-then {P} {Q} m f km kf ke =
      Triple-bind (λ _ w. P w) {Q = Q} m f (record { run = km.at }) kf ke
