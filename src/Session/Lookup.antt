-- ===== src/Session/Lookup.antt =====
-- What Get of store.go returns after each operation, at any later time.
use peristera.Prelude.{
  ℕ, ◌+◌, ◌≤◌, ◌≡◌, ◌&&◌, ◌||◌, not, refl, sym, ◌∙◌, String, Bool, true, false, Option, none, some,
  List, [], ◌∷◌, arith, str_eq, eq_iff, eq_refl, ltb, if◌then◌else◌, Bool-cases, Option-cases, inl,
  inr,
}
use peristera.Session.{
  Entry, Store, find_entry, without_key, unexpired_items, sweep_locked, sweep_due, swept, put,
  found_at, get, delete,
}

module _ {T : Type 0} where
  abbrev live : ℕ → Option (Entry T) → Option T
  live now none = none
  live now (some e) = if ltb e.exp now then none else some e.val

  -- Keys stand once, as in a map.
  unfoldable pub has_key : String → List (Entry T) → Bool
  has_key key [] = false
  has_key key (e ∷ items) = str_eq key e.key || has_key key items

  unfoldable pub is_map : List (Entry T) → Bool
  is_map [] = true
  is_map (e ∷ items) = not (has_key e.key items) && is_map items

  get-live :
      (now : ℕ) (key : String) (s : Store T) → (get now key s).0 ≡ live now (find_entry key s.items)
  unfolding get
  get-live now key s = elim (Option-cases (find_entry key s.items)) [
    | inl e ↦ rw e refl
    | inr (x, e) ↦
        rw e
          (elim (Bool-cases (ltb x.exp now)) [ inl late ↦ rw late refl | inr fine ↦ rw fine refl ])
  ]

  find_entry-without_key :
      (key : String) (items : List (Entry T)) → find_entry key (without_key key items) ≡ none
  unfolding find_entry without_key
  find_entry-without_key key [] = refl
  find_entry-without_key key (e ∷ items) = ground (arith, find_entry-without_key key items)

  find_entry-without_other :
      (key j : String) (items : List (Entry T))
      → str_eq j key ≡ false
      → find_entry j (without_key key items) ≡ find_entry j items
  unfolding find_entry without_key
  find_entry-without_other key j [] ne = refl
  find_entry-without_other key j (e ∷ items) ne =
      ground (
        arith,
        find_entry-without_other key j items,
        eq_iff key e.key,
        eq_iff j e.key,
        eq_iff j key,
      )

  find_entry-has_key :
      (key : String) (items : List (Entry T))
      → has_key key items ≡ false
      → find_entry key items ≡ none
  unfolding find_entry has_key
  find_entry-has_key key [] h = refl
  find_entry-has_key key (e ∷ items) h = ground (arith, find_entry-has_key key items)

  has_key-unexpired_items :
      (key : String) (now : ℕ) (items : List (Entry T))
      → has_key key items ≡ false
      → has_key key (unexpired_items now items) ≡ false
  unfolding unexpired_items has_key
  has_key-unexpired_items key now [] h = refl
  has_key-unexpired_items key now (e ∷ items) h =
      ground (arith, has_key-unexpired_items key now items)

  has_key-without_key :
      (key j : String) (items : List (Entry T))
      → has_key key (without_key j items) ≡ (has_key key items && not (str_eq j key))
  unfolding without_key has_key
  has_key-without_key key j [] = ground arith
  has_key-without_key key j (e ∷ items) =
      ground
        (arith, has_key-without_key key j items, eq_iff key e.key, eq_iff j e.key, eq_iff j key)

  is_map-unexpired_items :
      (now : ℕ) (items : List (Entry T))
      → is_map items ≡ true
      → is_map (unexpired_items now items) ≡ true
  unfolding unexpired_items is_map
  is_map-unexpired_items now [] h = refl
  is_map-unexpired_items now (e ∷ items) h =
      ground (arith, is_map-unexpired_items now items, has_key-unexpired_items e.key now items)

  is_map-without_key :
      (key : String) (items : List (Entry T))
      → is_map items ≡ true
      → is_map (without_key key items) ≡ true
  unfolding without_key is_map
  is_map-without_key key [] h = refl
  is_map-without_key key (e ∷ items) h =
      ground (arith, is_map-without_key key items, has_key-without_key e.key key items)

  -- A sweep takes away nothing that a later Get would return.
  live-unexpired_items :
      (now later : ℕ) (j : String) (items : List (Entry T))
      → now ≤ later
      → is_map items ≡ true
      → live later (find_entry j (unexpired_items now items)) ≡ live later (find_entry j items)
  unfolding unexpired_items find_entry is_map
  live-unexpired_items now later j [] k m = refl
  live-unexpired_items now later j (e ∷ items) k m = elim (Bool-cases (ltb e.exp now)) [
    | inl old ↦ elim (Bool-cases (str_eq j e.key)) [
      | inl hit ↦
          let q : j ≡ e.key = ground (arith, eq_iff j e.key) in
          let none_left : find_entry j (unexpired_items now items) ≡ none =
            find_entry-has_key j _ (has_key-unexpired_items j now items (rw q (ground arith))) in
          let late : ltb e.exp later ≡ true = ground arith in rw (old, none_left, hit, late) refl
      | inr miss ↦ rw (old, miss) (live-unexpired_items now later j items k (ground arith))
    ]
    | inr young ↦ elim (Bool-cases (str_eq j e.key)) [
      | inl hit ↦ rw (young, hit) refl
      | inr miss ↦ rw (young, miss) (live-unexpired_items now later j items k (ground arith))
    ]
  ]

  swept-live :
      (now later : ℕ) (j : String) (s : Store T)
      → now ≤ later
      → is_map s.items ≡ true
      → live later (find_entry j (swept now s).items) ≡ live later (find_entry j s.items)
  unfolding swept sweep_locked
  swept-live now later j s k m = elim (Bool-cases (sweep_due s now s.last_sweep)) [
    | inl due ↦ rw due (live-unexpired_items now later j s.items k m)
    | inr early ↦ rw early refl
  ]

  swept-ttl : (now : ℕ) (s : Store T) → (swept now s).ttl ≡ s.ttl
  unfolding swept sweep_locked
  swept-ttl now s = elim (Bool-cases (sweep_due s now s.last_sweep)) [
    | inl due ↦ rw due refl
    | inr early ↦ rw early refl
  ]

  swept-is_map : (now : ℕ) (s : Store T) → is_map s.items ≡ true → is_map (swept now s).items ≡ true
  unfolding swept sweep_locked
  swept-is_map now s m = elim (Bool-cases (sweep_due s now s.last_sweep)) [
    | inl due ↦ rw due (is_map-unexpired_items now s.items m)
    | inr early ↦ rw early m
  ]

  -- What a Get of `j` at `later` finds.
  abbrev pub Finds : ℕ → String → Store T → Option T → Type 0
  Finds later j s v = (get later j s).0 ≡ v

  put-Finds :
      (now later : ℕ) (key j : String) (v : T) (s : Store T)
      → now ≤ later
      → is_map s.items ≡ true
      → Finds later j (put now key v s) (
          if str_eq j key
          then (if ltb (now + s.ttl) later then none else some v)
          else (get later j s).0)
  unfolding put find_entry
  put-Finds now later key j v s k m =
      get-live later j (put now key v s) ∙ elim (Bool-cases (str_eq j key)) [
        | inl hit ↦ rw (hit, swept-ttl now s) refl
        | inr miss ↦
            rw (miss, find_entry-without_other key j (swept now s).items miss)
              (swept-live now later j s k m ∙ sym (get-live later j s))
      ]

  delete-Finds :
      (later : ℕ) (key j : String) (s : Store T)
      → Finds later j (delete key s) (if str_eq j key then none else (get later j s).0)
  unfolding delete
  delete-Finds later key j s = get-live later j (delete key s) ∙ elim (Bool-cases (str_eq j key)) [
    | inl hit ↦
        let q : j ≡ key = ground (arith, eq_iff j key) in
        rw (hit, q, find_entry-without_key key s.items) refl
    | inr miss ↦ rw (miss, find_entry-without_other key j s.items miss) (sym (get-live later j s))
  ]

  found_at-live :
      (now later : ℕ) (key j : String) (s : Store T) (o : Option (Entry T))
      → now ≤ later
      → find_entry key s.items ≡ o
      → live later (find_entry j (found_at now key s o).1.items) ≡ live later (find_entry j s.items)
  found_at-live now later key j s none k e = refl
  found_at-live now later key j s (some x) k e = elim (Bool-cases (ltb x.exp now)) [
    | inr fine ↦ rw fine refl
    | inl old ↦ elim (Bool-cases (str_eq j key)) [
      | inr miss ↦ rw (old, find_entry-without_other key j s.items miss) refl
      | inl hit ↦
          let q : j ≡ key = ground (arith, eq_iff j key) in
          let late : ltb x.exp later ≡ true = ground arith in
          rw (old, q, find_entry-without_key key s.items, e, late) refl
    ]
  ]

  found_at-is_map :
      (now : ℕ) (key : String) (s : Store T) (o : Option (Entry T))
      → is_map s.items ≡ true
      → is_map (found_at now key s o).1.items ≡ true
  found_at-is_map now key s none m = m
  found_at-is_map now key s (some x) m = elim (Bool-cases (ltb x.exp now)) [
    | inr fine ↦ rw fine m
    | inl old ↦ rw old (is_map-without_key key s.items m)
  ]

  get-Finds :
      (now later : ℕ) (key j : String) (s : Store T)
      → now ≤ later
      → Finds later j (get now key s).1 (get later j s).0
  unfolding get
  get-Finds now later key j s k =
      get-live later j (get now key s).1
      ∙ found_at-live now later key j s (find_entry key s.items) k refl
      ∙ sym (get-live later j s)

  put-is_map :
      (now : ℕ) (key : String) (v : T) (s : Store T)
      → is_map s.items ≡ true
      → is_map (put now key v s).items ≡ true
  unfolding put is_map
  put-is_map now key v s m = ground (
    arith,
    has_key-without_key key key (swept now s).items,
    eq_refl key,
    is_map-without_key key (swept now s).items (swept-is_map now s m),
  )

  -- On a store whose keys stand once: a Get at a time not before `now` finds what the last Put of its key
  -- at `now` stored, until its time to live has passed, and after a Delete nothing. A Put or a Delete of another
  -- key, and any Get, make no difference to it: neither the sweep nor the eviction is seen. All
  -- three leave the keys standing once.
  pub operations-Finds :
      (now later : ℕ) (key j : String) (v : T) (s : Store T)
      → now ≤ later
      → is_map s.items ≡ true
      → Finds later j (put now key v s) (
          if str_eq j key
          then (if ltb (now + s.ttl) later then none else some v)
          else (get later j s).0)
        × Finds later j (delete key s) (if str_eq j key then none else (get later j s).0)
        × Finds later j (get now key s).1 (get later j s).0
        × (is_map (put now key v s).items ≡ true)
        × (is_map (delete key s).items ≡ true)
        × (is_map (get now key s).1.items ≡ true)
  unfolding delete get
  operations-Finds now later key j v s k m = (
    put-Finds now later key j v s k m,
    delete-Finds later key j s,
    get-Finds now later key j s k,
    put-is_map now key v s m,
    is_map-without_key key s.items m,
    found_at-is_map now key s (find_entry key s.items) m,
  )
