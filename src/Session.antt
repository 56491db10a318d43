-- ===== src/Session.antt =====
-- lib/session (store.go): the in-memory store of login sessions. Times are instants on one scale; a store
-- that was never swept has no time of a last sweep.
pub mod Lookup
use peristera.Prelude.{
  ℕ, ◌+◌, ◌-◌, String, Bool, true, false, Option, none, some, List, [], ◌∷◌, length, str_eq, ltb,
  leb, if◌then◌else◌,
}

pub record Entry (T : Type 0) : Type 0 where
  pub key : String
  pub val : T
  pub exp : ℕ

-- Store[T], with its map as the list of its entries.
pub record Store (T : Type 0) : Type 0 where
  pub ttl : ℕ
  pub sweep_every : ℕ
  pub items : List (Entry T)
  pub last_sweep : Option ℕ

module _ {T : Type 0} where
  -- NewStore
  abbrev pub new_store : ℕ → Store T
  new_store ttl = record { ttl = ttl; sweep_every = ttl; items = []; last_sweep = none }

  unfoldable pub find_entry : String → List (Entry T) → Option (Entry T)
  find_entry key [] = none
  find_entry key (e ∷ items) = if str_eq key e.key then some e else find_entry key items

  -- delete(s.items, key)
  unfoldable pub without_key : String → List (Entry T) → List (Entry T)
  without_key key [] = []
  without_key key (e ∷ items) =
      let rest = without_key key items in if str_eq key e.key then rest else e ∷ rest

  unfoldable pub unexpired_items : ℕ → List (Entry T) → List (Entry T)
  unexpired_items now [] = []
  unexpired_items now (e ∷ items) =
      let rest = unexpired_items now items in if ltb e.exp now then rest else e ∷ rest

  -- sweepLocked
  unfoldable pub sweep_locked : ℕ → Store T → Store T
  sweep_locked now s = record s { items = unexpired_items now s.items; last_sweep = some now }

  unfoldable pub sweep_due : Store T → ℕ → Option ℕ → Bool
  sweep_due s now none = true
  sweep_due s now (some last) = leb s.sweep_every (now - last)

  -- The sweep of Put, at most one in `sweep_every`.
  unfoldable pub swept : ℕ → Store T → Store T
  swept now s = if sweep_due s now s.last_sweep then sweep_locked now s else s

  -- Put
  unfoldable pub put : ℕ → String → T → Store T → Store T
  put now key v s =
      let s' = swept now s in
      record s' {
        items = record { key = key; val = v; exp = now + s'.ttl } ∷ without_key key s'.items;
      }

  abbrev found_at : ℕ → String → Store T → Option (Entry T) → Option T × Store T
  found_at now key s none = (none, s)
  found_at now key s (some e) =
      if ltb e.exp now
      then (none, record s { items = without_key key s.items })
      else (some e.val, s)

  -- Get, with the lazy eviction.
  unfoldable pub get : ℕ → String → Store T → Option T × Store T
  get now key s = found_at now key s (find_entry key s.items)

  -- Delete
  unfoldable pub delete : String → Store T → Store T
  delete key s = record s { items = without_key key s.items }

  -- Len
  abbrev pub len : Store T → ℕ
  len s = length s.items
