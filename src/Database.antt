-- ===== src/Database.antt =====
-- lib/dbtx (dbtx.go), over a database that may refuse any statement. A database's tables are a type of
-- their own for each app. A statement reads and writes the tables at once; the statements of one
-- transaction run without those of others between them, and what a concurrent transaction does to
-- them shows as the error that it gives (`faults`).
pub mod Rules
pub mod Atomic
use peristera.Prelude.{ℕ, ◌+◌, String, Option, none, some, Result, ok, err, Error, wrapped}
use peristera.Prelude.Exec.{Exec, pure, ◌>>=◌}

-- The tables, the clock, the calls of the driver so far with those that fail, and the random
-- identifiers (`id.V7`, `newToken`) with the number drawn.
pub record Db (T : Type 0) : Type 0 where
  pub tables : T
  pub now : ℕ
  pub calls : ℕ
  pub faults : ℕ → Option Error
  pub ids : ℕ → String
  pub drawn : ℕ

abbrev pub translate : {A : Type 0} → (Error → Error) → Result A → Result A
translate f (ok a) = ok a
translate f (err e) = err (f e)

module _ {T A : Type 0} where
  -- A statement that does `f` unless the driver fails.
  unfoldable pub stmt : (T → Result A × T) → Exec (Db T) A
  stmt f db = elim (db.faults db.calls) [
    | some e ↦ (err e, record db { calls = db.calls + 1 })
    | none ↦ (let (r, t) = f db.tables in (r, record db { tables = t; calls = db.calls + 1 }))
  ]

  -- Code whose error the caller replaces.
  abbrev pub translated : (Error → Error) → Exec (Db T) A → Exec (Db T) A
  translated f m db = let (r, db') = m db in (translate f r, db')

  -- Commit, or the rollback that `defer` runs.
  unfoldable pub end_tx : T → Result A → Db T → Result A × Db T
  end_tx before (err e) db = (err e, record db { tables = before; calls = db.calls + 1 })
  end_tx before (ok a) db = elim (db.faults db.calls) [
    | some e ↦ (err (wrapped "dbtx: commit" e), record db { tables = before; calls = db.calls + 1 })
    | none ↦ (ok a, record db { calls = db.calls + 1 })
  ]

  run_tx : Exec (Db T) A → Db T → Result A × Db T
  unfolding end_tx
  run_tx fn db = let (r, db') = fn db in end_tx db.tables r db'

  -- InTx: BeginTx, the body, and its end.
  unfoldable pub in_tx : Exec (Db T) A → Exec (Db T) A
  unfolding run_tx
  in_tx fn db = elim (db.faults db.calls) [
    | some e ↦ (err e, record db { calls = db.calls + 1 })
    | none ↦ run_tx fn (record db { calls = db.calls + 1 })
  ]

-- A fresh identifier.
unfoldable pub fresh_id : {T : Type 0} → Exec (Db T) String
fresh_id db = (ok (db.ids db.drawn), record db { drawn = db.drawn + 1 })
