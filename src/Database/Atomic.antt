-- ===== src/Database/Atomic.antt =====
-- InTx of dbtx.go: all or nothing.
use peristera.Prelude.{
  ◌+◌, ◌≡◌, refl, sym, ap, ◌⊎◌, inl, inr, Result, ok, err, Error, wrapped, Option-cases,
}
use peristera.Prelude.Exec.{Exec, Keeps}
use peristera.Database.{Db, end_tx, run_tx, in_tx}
use peristera.Database.Rules.{On, Leads}

-- The state in which the body starts.
abbrev pub begun : {T : Type 0} → Db T → Db T
begun db = record db { calls = db.calls + 1 }

module _ {T A : Type 0} where
  -- A transaction that failed and left the tables alone, or that succeeded with its body's result.
  abbrev pub Outcome : Exec (Db T) A → Db T → Result A × Db T → Type 0
  Outcome fn db r =
      ((e : Error) × (r.0 ≡ err e) × (r.1.tables ≡ db.tables))
      ⊎ ((a : A) × (r.0 ≡ ok a)
          × ((fn (begun db)).0 ≡ ok a)
          × (r.1.tables ≡ (fn (begun db)).1.tables))

  end_tx-Outcome :
      (fn : Exec (Db T) A) (db : Db T) (r : Result A) (db' : Db T)
      → (fn (begun db)).0 ≡ r
      → (fn (begun db)).1 ≡ db'
      → Outcome fn db (end_tx db.tables r db')
  unfolding end_tx
  end_tx-Outcome fn db (err e) db' p q = inl (e, refl, refl)
  end_tx-Outcome fn db (ok a) db' p q = elim (Option-cases (db'.faults db'.calls)) [
    | inl fine ↦ rw (fine, end_tx) (inr (a, refl, p, sym (ap (λ (x : Db T). x.tables) q)))
    | inr (e, fault) ↦ rw (fault, end_tx) (inl (wrapped "dbtx: commit" e, refl, refl))
  ]

  -- A transaction that returns an error leaves the tables as they were. One that returns none has run
  -- its body without an error, and leaves the body's tables and result.
  pub in_tx-Outcome : (fn : Exec (Db T) A) (db : Db T) → Outcome fn db (in_tx fn db)
  unfolding in_tx run_tx
  in_tx-Outcome fn db = elim (Option-cases (db.faults db.calls)) [
    | inr (e, fault) ↦ rw (fault, in_tx) (inl (e, refl, refl))
    | inl fine ↦
        rw (fine, in_tx) (end_tx-Outcome fn db (fn (begun db)).0 (fn (begun db)).1 refl refl)
  ]

  -- A body that leads from `P` to `P` makes a transaction that keeps `P`, errors included.
  pub Keeps-in_tx :
      (P : T → Type 0) (fn : Exec (Db T) A) → Leads P fn (λ _. P) → Keeps (On P) (in_tx fn)
  Keeps-in_tx P fn l = record {
    at = λ db h. elim (in_tx-Outcome fn db) [
      | inl (e, _, same) ↦ rw same h
      | inr (a, _, ran, same) ↦ rw same (l.run (begun db) a h ran)
    ];
  }

  pub Leads-in_tx :
      (P : T → Type 0) (Q : A → T → Type 0) (fn : Exec (Db T) A)
      → Leads P fn Q
      → Leads P (in_tx fn) Q
  Leads-in_tx P Q fn l = record {
    run = λ db a h e. elim (in_tx-Outcome fn db) [
      | inl (x, failed, same) ↦ cc
      | inr (b, done, ran, same) ↦ rw same (l.run (begun db) a h (cc))
    ];
  }
