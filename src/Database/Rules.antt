-- ===== src/Database/Rules.antt =====
-- How conditions on the tables pass through statements and transactions (dbtx.go).
use peristera.Prelude.{Error, ◌≡◌, refl, inl, inr, Result, ok, err, Option-cases}
use peristera.Prelude.Exec.{Exec, pure, continue, ◌>>=◌, Keeps}
use peristera.Database.{translate, translated, Db, stmt, fresh_id}

-- A property of the tables, as one of the database.
abbrev pub On : {T : Type 0} → (T → Type 0) → Db T → Type 0
On P db = P db.tables

translate-ok :
    {A : Type 0} (f : Error → Error) (r : Result A) (a : A) → translate f r ≡ ok a → r ≡ ok a
translate-ok f (ok b) a e = e
translate-ok f (err x) a e = absurd (cc e)

module _ {T A : Type 0} where
  -- From tables with `P`, a run that returns no error ends with its result and tables in `Q`.
  pub record Leads (P : T → Type 0) (m : Exec (Db T) A) (Q : A → T → Type 0) : Type 0 where
    pub run : (db : Db T) (a : A) → P db.tables → (m db).0 ≡ ok a → Q a (m db).1.tables

  pub Leads-pure :
      (P : T → Type 0) (Q : A → T → Type 0) (a : A) → ((t : T) → P t → Q a t) → Leads P (pure a) Q
  Leads-pure P Q a k = record { run = λ db b h e. ground_pure db b h e }
    where
      ground_pure : (db : Db T) (b : A) → P db.tables → ok a ≡ ok b → Q b db.tables
      ground_pure db b h e = let q : a ≡ b = cc in rw (← q) (k db.tables h)

  pub Leads-stmt :
      (P : T → Type 0) (Q : A → T → Type 0) (f : T → Result A × T)
      → ((t : T) (a : A) → P t → (f t).0 ≡ ok a → Q a (f t).1)
      → Leads P (stmt f) Q
  unfolding stmt
  Leads-stmt P Q f k = record {
    run = λ db a h e. elim (Option-cases (db.faults db.calls)) [
      | inl fine ↦ rw (fine, stmt) (k db.tables a h (rw (fine, stmt) at e))
      | inr (x, fault) ↦ cc (rw (fault, stmt) at e)
    ];
  }

  pub Leads-mono :
      {P : T → Type 0} {Q : A → T → Type 0} (P' : T → Type 0) (Q' : A → T → Type 0)
      (m : Exec (Db T) A)
      → ((t : T) → P' t → P t)
      → ((a : A) (t : T) → Q a t → Q' a t)
      → Leads P m Q
      → Leads P' m Q'
  Leads-mono P' Q' m p q l = record { run = λ db a h e. q a _ (l.run db a (p db.tables h) e) }

  pub Leads-translated :
      {P : T → Type 0} {Q : A → T → Type 0} (f : Error → Error) (m : Exec (Db T) A)
      → Leads P m Q
      → Leads P (translated f m) Q
  Leads-translated f m l = record { run = λ db a h e. l.run db a h (translate-ok f (m db).0 a e) }

  pub Keeps-translated :
      (P : T → Type 0) (f : Error → Error) (m : Exec (Db T) A)
      → Keeps (On P) m
      → Keeps (On P) (translated f m)
  Keeps-translated P f m k = record { at = λ db h. k.at db h }

module _ {T A B : Type 0} where
  pub Leads-bind :
      {P : T → Type 0} (R : A → T → Type 0) {Q : B → T → Type 0} (m : Exec (Db T) A)
      (f : A → Exec (Db T) B)
      → Leads P m R
      → ((a : A) → Leads (R a) (f a) Q)
      → Leads P (m >>= f) Q
  unfolding ◌>>=◌
  Leads-bind {P} R {Q} m f km kf = record {
    run = λ db b h e. go db b (m db).0 (m db).1 (λ a q. km.run db a h q) e;
  }
    where
      go :
          (db : Db T) (b : B) (r : Result A) (db' : Db T)
          → ((a : A) → r ≡ ok a → R a db'.tables)
          → (continue r f db').0 ≡ ok b
          → Q b (continue r f db').1.tables
      go db b (ok a) db' k e = (kf a).run db' b (k a refl) e
      go db b (err x) db' k e = cc

module _ {T A : Type 0} where
  pub Keeps-stmt :
      (P : T → Type 0) (f : T → Result A × T) → ((t : T) → P t → P (f t).1) → Keeps (On P) (stmt f)
  unfolding stmt
  Keeps-stmt P f k = record {
    at = λ db h. elim (Option-cases (db.faults db.calls)) [
      | inl fine ↦ rw (fine, stmt) (k db.tables h)
      | inr (x, fault) ↦ rw (fault, stmt) h
    ];
  }

pub Keeps-fresh_id : {T : Type 0} (P : T → Type 0) → Keeps (On P) fresh_id
unfolding fresh_id
Keeps-fresh_id P = record { at = λ db h. h }

pub Leads-fresh_id : {T : Type 0} (P : T → Type 0) → Leads P fresh_id (λ _. P)
unfolding fresh_id
Leads-fresh_id P = record { run = λ db a h e. h }

-- Code that keeps a property, as a step of a run without an error.
pub Keeps-Leads :
    {T A : Type 0} (P : T → Type 0) (m : Exec (Db T) A) → Keeps (On P) m → Leads P m (λ _. P)
Keeps-Leads P m k = record { run = λ db a h e. k.at db h }
