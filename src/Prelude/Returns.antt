-- ===== src/Prelude/Returns.antt =====
-- What code returns: where it returns at all (`Gives`), and that it does (`Succeeds`).
use mathlib.Core.Path.{◌≡◌, refl, subst}
use mathlib.Core.Bool.{Bool, true, false}
use peristera.Prelude.Tests.{if◌then◌else◌}
use peristera.Prelude.Outcome.{Result, ok, err}
use peristera.Prelude.Exec.{Exec, Keeps, pure, continue, ◌>>=◌}

-- A result without an error has the property.
pub record Gives {ℓ κ} {W A : Type ℓ} (Q : A → Type κ) (m : Exec W A) : Type (ℓ ⊔ κ) where
  pub at : (w : W) (a : A) → (m w).0 ≡ ok a → Q a

-- From every state with `P` there is a result without an error, it has the property, and the state is then
-- in `R`.
pub record Succeeds {ℓ κ} {W A : Type ℓ} (P : W → Type κ) (Q : A → Type κ) (R : A → W → Type κ)
    (m : Exec W A) : Type (ℓ ⊔ κ) where
  pub run : (w : W) → P w → (a : A) × ((m w).0 ≡ ok a) × Q a × R a (m w).1

module _ {ℓ κ} {W A : Type ℓ} {Q : A → Type κ} where
  pub Gives-pure : (a : A) → Q a → Gives {W = W} Q (pure a)
  Gives-pure a q = record { at = λ w b e. ok-subst a b e q }
    where
      ok-subst : (a b : A) → ok a ≡ ok b → Q a → Q b
      ok-subst a b e q = subst Q (cc) q

  pub Gives-if :
      (b : Bool) (m n : Exec W A)
      → (b ≡ true → Gives Q m)
      → (b ≡ false → Gives Q n)
      → Gives Q (if b then m else n)
  Gives-if true m n g h = g refl
  Gives-if false m n g h = h refl

module _ {ℓ κ} {W A : Type ℓ} {P : W → Type κ} {Q : A → Type κ} {R : A → W → Type κ} where
  pub Succeeds-if :
      (b : Bool) (m n : Exec W A)
      → (b ≡ true → Succeeds P Q R m)
      → (b ≡ false → Succeeds P Q R n)
      → Succeeds P Q R (if b then m else n)
  Succeeds-if true m n g h = g refl
  Succeeds-if false m n g h = h refl

  pub Succeeds-pre :
      {O : W → Type κ} (m : Exec W A) → ((w : W) → O w → P w) → Succeeds P Q R m → Succeeds O Q R m
  Succeeds-pre m f g = record { run = λ w o. g.run w (f w o) }

module _ {ℓ κ} {W A : Type ℓ} {P : W → Type κ} {Q : A → Type κ} where
  pub Succeeds-pure : (a : A) → Q a → Succeeds P Q (λ _. P) (pure a)
  Succeeds-pure a q = record { run = λ w p. (a, refl, q, p) }

module _ {ℓ κ} {W A B : Type ℓ} {P : W → Type κ} {Q : B → Type κ} {R : B → W → Type κ} where
  Succeeds-continue :
      (r : Result A) (f : A → Exec W B) (w : W) (a : A)
      → r ≡ ok a
      → P w
      → Succeeds P Q R (f a)
      → (b : B) × ((continue r f w).0 ≡ ok b) × Q b × R b (continue r f w).1
  Succeeds-continue r f w a e p k = rw e (k.run w p)

module _ {ℓ κ} {W A B : Type ℓ} {P : W → Type κ} {F : A → Type κ} {M : A → W → Type κ}
    {Q : B → Type κ} {R : B → W → Type κ} where
  pub Succeeds-bind :
      (m : Exec W A) (f : A → Exec W B)
      → Succeeds P F M m
      → ((a : A) → F a → Succeeds (M a) Q R (f a))
      → Succeeds P Q R (m >>= f)
  unfolding ◌>>=◌
  Succeeds-bind m f g k = record {
    run =
        λ w p. let (a, e, r, p') = g.run w p in Succeeds-continue (m w).0 f (m w).1 a e p' (k a r);
  }

module _ {ℓ κ} {W A B : Type ℓ} {R : A → Type κ} {Q : B → Type κ} where
  Gives-continue :
      (r : Result A) (f : A → Exec W B) (w : W)
      → ((a : A) → r ≡ ok a → R a)
      → ((a : A) → R a → Gives Q (f a))
      → (b : B) → (continue r f w).0 ≡ ok b
      → Q b
  Gives-continue (ok a) f w h k b e = (k a (h a refl)).at w b e
  Gives-continue (err x) f w h k b e = absurd (cc)

  pub Gives-bind :
      (m : Exec W A) (f : A → Exec W B)
      → Gives R m
      → ((a : A) → R a → Gives Q (f a))
      → Gives Q (m >>= f)
  unfolding ◌>>=◌
  Gives-bind m f g k = record { at = λ w b e. Gives-continue (m w).0 f (m w).1 (g.at w) k b e }

module _ {ℓ} {W A B : Type ℓ} where
  -- A step of which nothing is known.
  pub Gives-step {κ} :
      {Q : B → Type κ} (m : Exec W A) (f : A → Exec W B)
      → ((a : A) → Gives Q (f a))
      → Gives Q (m >>= f)
  Gives-step {Q} m f k =
      Gives-bind {R = λ _. Unit {κ}} {Q = Q} m f (record { at = λ w a e. tt }) (λ a _. k a)

module _ {ℓ κ} {W A : Type ℓ} {P : W → Type κ} {F Q : A → Type κ} {M R : A → W → Type κ} where
  pub Succeeds-post :
      (m : Exec W A)
      → ((a : A) → F a → Q a)
      → ((a : A) (w : W) → M a w → R a w)
      → Succeeds P F M m
      → Succeeds P Q R m
  Succeeds-post m f k g = record {
    run = λ w p. let (a, e, r, p') = g.run w p in (a, e, f a r, k a (m w).1 p');
  }

-- From a state with `P`, a run without an error ends with its result and its state in `Q`.
pub record Brings {ℓ κ} {W A : Type ℓ} (P : W → Type κ) (m : Exec W A) (Q : A → W → Type κ)
    : Type (ℓ ⊔ κ) where
  pub run : (w : W) (a : A) → P w → (m w).0 ≡ ok a → Q a (m w).1

module _ {ℓ κ} {W A : Type ℓ} {P : W → Type κ} where
  pub Brings-pure : (Q : A → W → Type κ) (a : A) → ((w : W) → P w → Q a w) → Brings P (pure a) Q
  Brings-pure Q a k = record { run = λ w b h e. of_same a b w (cc) (k w h) }
    where
      of_same : (a b : A) (w : W) → a ≡ b → Q a w → Q b w
      of_same a b w e q = subst (λ x. Q x w) e q

  pub Brings-Keeps : (m : Exec W A) → Keeps P m → Brings P m (λ _. P)
  Brings-Keeps m k = record { run = λ w a h e. k.at w h }

module _ {ℓ κ} {W A B : Type ℓ} {P : W → Type κ} {Q : B → W → Type κ} where
  pub Brings-bind :
      (R : A → W → Type κ) (m : Exec W A) (f : A → Exec W B)
      → Brings P m R
      → ((a : A) → Brings (R a) (f a) Q)
      → Brings P (m >>= f) Q
  unfolding ◌>>=◌
  Brings-bind R m f km kf = record {
    run = λ w b h e. go (m w).0 (m w).1 b (λ a q. km.run w a h q) e;
  }
    where
      go :
          (r : Result A) (w : W) (b : B)
          → ((a : A) → r ≡ ok a → R a w)
          → (continue r f w).0 ≡ ok b
          → Q b (continue r f w).1
      go (ok a) w b k e = (kf a).run w b (k a refl) e
      go (err x) w b k e = absurd (cc)
