-- ===== src/Kamara/Zip/Directory.antt =====
-- The loops of zipTree over the siblings of one directory (kamara/internal/file/zip.go): each has an entry
-- name, and what that name is.
use peristera.Prelude.{
  ℕ, zero, suc, ◌+◌, ◌≡◌, refl, sym, ap, subst, ◌∙◌, String, true, false, ◌⊎◌, inl, inr, Option,
  none, some, List, [], ◌∷◌, ◌++◌, map, length, length-append, All, eq_iff, eq_refl, Bool-cases,
  Option-cases, arith,
}
use peristera.Kamara.ContentType.{extension_from}
use peristera.Kamara.Tables.{FileObject, Folder, member}
use peristera.Kamara.Store.RefCounts.Rows.{is_distinct}
use peristera.Kamara.Zip.{
  siblings, sanitize, trim_suffix, Names, remove_one, candidate, is_taken, first_free, enough,
  choose, entry_name,
}
use peristera.Kamara.Zip.EntryNames.{
  IsSafe, sanitize-IsSafe, candidate-IsSafe, candidate-injective, extension_from-NoSlash,
  trim_suffix-NoSlash, member-append, AllTaken, AllTaken-le-length,
}

some-ne-none : {x : String} {A : Type 0} → ◌≡◌ {A = Option String} (some x) none → A
some-ne-none e = absurd (cc)

first_free-none :
    (fuel : ℕ) (names : Names) (stem ext : String) (n : ℕ)
    → first_free fuel names stem ext n ≡ none
    → AllTaken (candidate stem ext) (names.used ++ names.pending) fuel n
unfolding first_free is_taken AllTaken
first_free-none zero names stem ext n e = tt
first_free-none (suc fuel) names stem ext n e =
    elim (Bool-cases (is_taken names (candidate stem ext n))) [
      | inl taken ↦ (
        member-append _ names.used names.pending ∙ taken,
        first_free-none fuel names stem ext (n + 1) (rw taken at e),
      )
      | inr free ↦ some-ne-none (rw free at e)
    ]

unwrap : {x y : String} → ◌≡◌ {A = Option String} (some x) (some y) → x ≡ y
unwrap e = cc

first_free-some :
    (fuel : ℕ) (names : Names) (stem ext : String) (n : ℕ) (entry : String)
    → first_free fuel names stem ext n ≡ some entry
    → (is_taken names entry ≡ false) × ((m : ℕ) × (entry ≡ candidate stem ext m))
unfolding first_free
first_free-some zero names stem ext n entry e = cc
first_free-some (suc fuel) names stem ext n entry e =
    elim (Bool-cases (is_taken names (candidate stem ext n))) [
      | inl taken ↦ first_free-some fuel names stem ext (n + 1) entry (rw taken at e)
      | inr free ↦
          (let same : candidate stem ext n ≡ entry = unwrap (rw free at e) in
            (subst (λ t. is_taken names t ≡ false) same free, (n, sym same)))
    ]

abbrev stem : String → String
stem name = trim_suffix (extension_from "" name) name

-- The numbered name that `choose` takes where the name is used.
abbrev free_name : Names → String → Option String
free_name names name = first_free (enough names) names (stem name) (extension_from "" name) 2

untaken-used : (names : Names) (x : String) → is_taken names x ≡ false → member x names.used ≡ false
unfolding is_taken
untaken-used names x e = ground arith

untaken-pending :
    (names : Names) (x : String) → is_taken names x ≡ false → member x names.pending ≡ false
unfolding is_taken
untaken-pending names x e = ground arith

-- What `choose` does with a name whose count is taken off.
record Chosen (names : Names) (name : String) : Type 0 where
  entry : String
  chosen : choose names name ≡ some (entry, record names { used = entry ∷ names.used })
  fresh : member entry names.used ≡ false
  literal : member name names.used ≡ false → entry ≡ name
  spares : (entry ≡ name) ⊎ (member entry names.pending ≡ false)
  safe : IsSafe name → IsSafe entry

choose-Chosen : (names : Names) (name : String) → Chosen names name
unfolding choose
choose-Chosen names name = elim (Bool-cases (member name names.used)) [
  | inr unused ↦ record {
    entry = name;
    chosen = rw unused refl;
    fresh = unused;
    literal = λ _. refl;
    spares = inl refl;
    safe = λ s. s;
  }
  | inl used ↦ elim (Option-cases (free_name names name)) [
    | inl exhausted ↦ absurd (
        omega (
          arith,
          length-append names.used names.pending,
          AllTaken-le-length (candidate (stem name) (extension_from "" name))
              (candidate-injective (stem name) (extension_from "" name))
              (names.used ++ names.pending) (enough names) 2
              (first_free-none (enough names) names (stem name) (extension_from "" name) 2
                exhausted),
        ))
    | inr (entry, found) ↦
        let (free, (n, same)) = first_free-some (enough names) names _ _ 2 entry found in
        record {
          entry = entry;
          chosen = rw (used, found) refl;
          fresh = untaken-used names entry free;
          literal = λ unused. absurd (cc);
          spares = inr (untaken-pending names entry free);
          safe = λ s. subst IsSafe (sym same) (
              candidate-IsSafe (stem name) (extension_from "" name) n
                (trim_suffix-NoSlash _ name s.no_slash)
                (extension_from-NoSlash "" name tt s.no_slash));
        }
  ]
]

-- entryName on one sibling after another, as the loops of zipTree call it.
abbrev pub then_names : Option (List String) → String → Option (List String)
then_names none entry = none
then_names (some entries) entry = some (entry ∷ entries)

abbrev pub name_next :
    (Names → Option (List String)) → Option (String × Names) → Option (List String)
name_next rest none = none
name_next rest (some (entry, names)) = then_names (rest names) entry

unfoldable pub entry_names : List String → Names → Option (List String)
entry_names [] names = some []
entry_names (x ∷ xs) names = name_next (entry_names xs) (entry_name names x)

-- The entries are distinct, none is used before, and an extractor keeps each in the directory.
pub record AreEntries (used : List String) (names : List String) (entries : List String)
    : Type 0 where
  pub as_many : length entries ≡ length names
  pub distinct : is_distinct entries ≡ true
  pub fresh : All (λ entry. member entry used ≡ false) entries
  pub safe : All IsSafe entries

-- The counts of the siblings after entryName has come to one.
abbrev taken_off : Names → String → Names
taken_off names x = record names { pending = remove_one (sanitize x) names.pending }

entry_name-Chosen :
    (names : Names) (x : String) (k : Chosen (taken_off names x) (sanitize x))
    → entry_name names x
      ≡ some (k.entry, record (taken_off names x) { used = k.entry ∷ names.used })
unfolding entry_name
entry_name-Chosen names x k = k.chosen

fresh-cons :
    (x : String) (used xs : List String)
    → All (λ entry. member entry (x ∷ used) ≡ false) xs
    → (member x xs ≡ false) × All (λ entry. member entry used ≡ false) xs
unfolding member
fresh-cons x used [] all = (refl, tt)
fresh-cons x used (y ∷ xs) all =
    let (m, rest) = fresh-cons x used xs all.1 in
    (ground (arith, eq_iff x y, eq_iff y x, eq_refl x), (ground arith, rest))

-- In a directory, whatever its names and whichever are used: every sibling gets an entry name, the
-- search for a free number ends, and the entry names are distinct and safe.
pub entry_names-AreEntries :
    (xs : List String) (names : Names)
    → (entries : List String) × (entry_names xs names ≡ some entries)
      × AreEntries names.used xs entries
unfolding entry_names is_distinct
entry_names-AreEntries [] names =
    ([], refl, record { as_many = refl; distinct = refl; fresh = tt; safe = tt })
entry_names-AreEntries (x ∷ xs) names =
    let k = choose-Chosen (taken_off names x) (sanitize x) in
    let (entries, named, are) =
      entry_names-AreEntries xs (record (taken_off names x) { used = k.entry ∷ names.used }) in
    let (new, rest) = fresh-cons k.entry names.used entries are.fresh in
    (
      k.entry ∷ entries,
      rw (entry_name-Chosen names x k, named) refl,
      record {
        as_many = ap suc are.as_many;
        distinct = rw (new, are.distinct) refl;
        fresh = (k.fresh, rest);
        safe = (k.safe (sanitize-IsSafe x), are.safe);
      },
    )

-- The entries of siblings whose names are no earlier sibling's are those names.
pub KeepsNames : List String → List String → List String → Type 0
KeepsNames earlier [] entries = entries ≡ []
KeepsNames earlier (x ∷ xs) [] = ⊥
KeepsNames earlier (x ∷ xs) (entry ∷ entries) =
    (member (sanitize x) earlier ≡ false → entry ≡ sanitize x)
    × KeepsNames (sanitize x ∷ earlier) xs entries

-- What the names that are used have to do with the siblings that are to come.
record IsAhead (earlier : List String) (xs : List String) (names : Names) : Type 0 where
  ahead : names.pending ≡ map sanitize xs
  generated :
      (y : String)
      → member y names.used ≡ true
      → (member y earlier ≡ true) ⊎ (member y names.pending ≡ false)

unused :
    (earlier : List String) (x : String) (xs : List String) (names : Names)
    → IsAhead earlier (x ∷ xs) names
    → member (sanitize x) earlier ≡ false
    → member (sanitize x) names.used ≡ false
unfolding member
unused earlier x xs names h new = elim (Bool-cases (member (sanitize x) names.used)) [
  | inr free ↦ free
  | inl taken ↦ ground (
    arith,
    h.generated (sanitize x) taken,
    ap (member (sanitize x)) h.ahead,
    eq_refl (sanitize x),
  )
]

taken_off-tail :
    (x : String) (xs : List String) (names : Names)
    → names.pending ≡ map sanitize (x ∷ xs)
    → remove_one (sanitize x) names.pending ≡ map sanitize xs
unfolding remove_one
taken_off-tail x xs names e = rw (e, eq_refl (sanitize x)) refl

IsAhead-next :
    (earlier : List String) (x : String) (xs : List String) (names : Names)
    → IsAhead earlier (x ∷ xs) names
    → (k : Chosen (taken_off names x) (sanitize x))
    → IsAhead (sanitize x ∷ earlier) xs (record (taken_off names x) { used = k.entry ∷ names.used })
unfolding member remove_one
IsAhead-next earlier x xs names h k = record {
  ahead = taken_off-tail x xs names h.ahead;
  generated = λ y m. ground (
    arith,
    h.generated y,
    eq_iff y k.entry,
    eq_iff y (sanitize x),
    ap (member y) h.ahead,
    ap (member y) (taken_off-tail x xs names h.ahead),
    ap (member k.entry) (taken_off-tail x xs names h.ahead),
    k.spares,
  );
}

-- Where the counts are those of the siblings to come, the first sibling with a literal name keeps it,
-- whatever stands before it.
entry_names-KeepsNames :
    (earlier xs : List String) (names : Names)
    → IsAhead earlier xs names
    → (entries : List String) × (entry_names xs names ≡ some entries)
      × KeepsNames earlier xs entries
unfolding entry_names KeepsNames
entry_names-KeepsNames earlier [] names h = ([], refl, refl)
entry_names-KeepsNames earlier (x ∷ xs) names h =
    let k = choose-Chosen (taken_off names x) (sanitize x) in
    let after : Names = record (taken_off names x) { used = k.entry ∷ names.used } in
    let (entries, named, keeps) =
      entry_names-KeepsNames (sanitize x ∷ earlier) xs after
        (IsAhead-next earlier x xs names h k) in
    (
      k.entry ∷ entries,
      rw (entry_name-Chosen names x k, named) refl,
      (λ new. k.literal (unused earlier x xs names h new), keeps),
    )

-- The names of a directory's files and folders, in the order in which zipTree comes to them.
abbrev pub names_of : List FileObject → List Folder → List String
names_of files folders =
    map (λ (o : FileObject). o.name) files ++ map (λ (f : Folder). f.name) folders

siblings-pending :
    (files : List FileObject) (folders : List Folder)
    → (siblings files folders).pending ≡ map sanitize (names_of files folders)
unfolding siblings
siblings-pending [] [] = refl
siblings-pending [] (f ∷ folders) = ap (◌∷◌ (sanitize f.name)) (siblings-pending [] folders)
siblings-pending (o ∷ files) folders = ap (◌∷◌ (sanitize o.name)) (siblings-pending files folders)

-- In every directory the first sibling with a name keeps that name, made safe, whatever stands before
-- it: no generated name takes it away.
pub siblings-KeepsNames :
    (files : List FileObject) (folders : List Folder)
    → (entries : List String) × (entry_names (names_of files folders) (siblings files folders)
        ≡ some entries)
      × KeepsNames [] (names_of files folders) entries
unfolding siblings member
siblings-KeepsNames files folders =
    entry_names-KeepsNames [] (names_of files folders) (siblings files folders)
      (record { ahead = siblings-pending files folders; generated = λ y m. absurd (cc) })
