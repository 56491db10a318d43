-- ===== src/Kamara/Store/RefCounts/Decrement.antt =====
-- The counts of the chunks through DecRef of repos.go.
use peristera.Prelude.{
  ℕ, ◌+◌, ◌≡◌, sym, ap, ◌∙◌, String, true, false, ◌&&◌, List, [], ◌∷◌, arith, str_eq, eq_iff,
  eq_refl, if◌then◌else◌,
}
use peristera.Database.Rules.{Leads, Leads-stmt, Leads-bind, Leads-pure, Leads-mono}
use peristera.Kamara.Tables.{ℤ, pos, negsuc, ◌-ℤ◌, ManifestRow, FileTables, member, has_chunk}
use peristera.Kamara.Store.{
  occurrences, distinct, drop_references, decrement_all, orphans_in, dec_ref,
}
use peristera.Kamara.Store.RefCounts.Rows.{
  balance, refs_of, balance-drop_references, has_chunk-drop_references, balance-has_chunk,
  orphans_in-member, member-orphans_in, occurrences-member, member-occurrences, is_distinct,
  member-distinct, is_distinct-distinct,
}
use peristera.Kamara.Store.RefCounts.Owed.{Owes, IsCounted}

-- While DecRef runs: the manifest is `rows`, the hashes in `hashes` have rows, and those of `left` have
-- the references that they are owed still.
record Pending (rows : List ManifestRow) (hashes left : List String) (t : FileTables) : Type 0 where
  same : t.version_chunks ≡ rows
  present : (h : String) → member h hashes ≡ true → has_chunk h t.chunks ≡ true
  counted :
      (h : String)
      → balance h t.chunks
        ≡ pos (refs_of h rows + (if member h left then occurrences h hashes else 0))

abbrev decremented : String → List String → FileTables → FileTables
decremented d hashes t = record t { chunks = drop_references d (occurrences d hashes) t.chunks }

minus_paid : (z : ℤ) (n m : ℕ) → z ≡ pos (n + m) → z -ℤ m ≡ pos n
unfolding ◌-ℤ◌
minus_paid (pos k) n m e = ground arith
minus_paid (negsuc k) n m e = cc

member_ne :
    (d h : String) (left : List String)
    → member d left ≡ false
    → member h left ≡ true
    → str_eq h d ≡ false
member_ne d h left p q = ground (arith, eq_iff h d)

decremented-Pending :
    (rows : List ManifestRow) (hashes : List String) (d : String) (left : List String)
    (t : FileTables)
    → member d left ≡ false
    → member d hashes ≡ true
    → Pending rows hashes (d ∷ left) t
    → Pending rows hashes left (decremented d hashes t)
unfolding member
decremented-Pending rows hashes d left t fresh listed w = record {
  same = w.same;
  present = λ h m. has_chunk-drop_references h d (occurrences d hashes) t.chunks ∙ w.present h m;
  counted = λ h. balance-drop_references h d (occurrences d hashes) t.chunks ∙ now h;
}
  where
    now :
        (h : String)
        → (if str_eq h d && has_chunk d t.chunks
            then balance h t.chunks -ℤ occurrences d hashes
            else balance h t.chunks)
          ≡ pos (refs_of h rows + (if member h left then occurrences h hashes else 0))
    now h = ground (
      arith,
      w.counted h,
      w.present d listed,
      eq_iff h d,
      fresh,
      minus_paid (balance h t.chunks) (refs_of h rows) (occurrences h hashes),
    )

decrement_all-Pending :
    (rows : List ManifestRow) (hashes left : List String)
    → is_distinct left ≡ true
    → ((h : String) → member h left ≡ true → member h hashes ≡ true)
    → Leads (Pending rows hashes left) (decrement_all hashes left) (λ _. Pending rows hashes [])
unfolding decrement_all is_distinct member
decrement_all-Pending rows hashes [] apart listed = Leads-pure _ _ tt (λ t w. w)
decrement_all-Pending rows hashes (d ∷ left) apart listed =
    Leads-bind (λ _. Pending rows hashes left) _ _
      (Leads-stmt _ _ _ (λ t a w _.
        decremented-Pending rows hashes d left t (ground arith)
          (listed d (ground (arith, eq_refl d))) w))
      (λ _. decrement_all-Pending rows hashes left (ground arith) (λ h m. listed h (ground arith)))

-- What a deletion owes is pending for the distinct hashes.
Owes-Pending :
    (rows : List ManifestRow) (hashes : List String) (t : FileTables)
    → t.version_chunks ≡ rows
    → Owes hashes t
    → Pending rows hashes (distinct hashes) t
Owes-Pending rows hashes t same w = record {
  same = same;
  present = λ h m.
      let (n, e) = member-occurrences h hashes m in
      balance-has_chunk h (refs_of h rows + n) t.chunks (counted h ∙ ap pos (omega arith));
  counted = λ h.
      counted h ∙ ap pos (ground (arith, member-distinct h hashes, occurrences-member h hashes));
}
  where
    counted : (h : String) → balance h t.chunks ≡ pos (refs_of h rows + occurrences h hashes)
    counted h =
        w.counted h ∙ ap (λ (r : List ManifestRow). pos (refs_of h r + occurrences h hashes)) same

-- DecRef leaves every count right. It returns the hashes of its argument that nothing refers to now.
pub record Decremented (rows : List ManifestRow) (hashes orphans : List String) (t : FileTables)
    : Type 0 where
  pub same : t.version_chunks ≡ rows
  pub is_counted : IsCounted t
  pub orphan :
      (h : String)
      → member h orphans ≡ true
      → (member h hashes ≡ true) × (has_chunk h t.chunks ≡ true)
  pub found : (h : String) → member h hashes ≡ true → refs_of h rows ≡ 0 → member h orphans ≡ true

orphans-Decremented :
    (rows : List ManifestRow) (hashes : List String) (t : FileTables)
    → Pending rows hashes [] t
    → Decremented rows hashes (orphans_in (distinct hashes) t.chunks) t
unfolding member occurrences
orphans-Decremented rows hashes t w = record {
  same = w.same;
  is_counted = record {
    counted = λ h. w.counted h ∙ ap (λ (r : List ManifestRow). pos (refs_of h r + 0)) (sym w.same);
  };
  orphan = λ h m.
      let (listed, there) = orphans_in-member h (distinct hashes) t.chunks m in
      (sym (member-distinct h hashes) ∙ listed, there);
  found = λ h m none_left.
      member-orphans_in h (distinct hashes) t.chunks (member-distinct h hashes ∙ m) (w.present h m)
        (w.counted h ∙ ap pos (ground arith));
}

nothing-Decremented :
    (rows : List ManifestRow) (t : FileTables)
    → t.version_chunks ≡ rows
    → Owes [] t
    → Decremented rows [] [] t
unfolding member
nothing-Decremented rows t same w = record {
  same = same;
  is_counted = w;
  orphan = λ h m. (cc, cc);
  found = λ h m e. m;
}

pub dec_ref-Decremented :
    (rows : List ManifestRow) (hashes : List String)
    → Leads
        (λ t. (t.version_chunks ≡ rows) × Owes hashes t)
        (dec_ref hashes)
        (λ o t. Decremented rows hashes o t)
unfolding dec_ref
dec_ref-Decremented rows [] = Leads-pure _ _ [] (λ t (same, w). nothing-Decremented rows t same w)
dec_ref-Decremented rows (x ∷ hs) =
    Leads-bind (λ _. Pending rows (x ∷ hs) []) _ _
      (Leads-mono _ _ _ (λ t (same, w). Owes-Pending rows (x ∷ hs) t same w) (λ a t w. w)
        (decrement_all-Pending rows (x ∷ hs) (distinct (x ∷ hs)) (is_distinct-distinct (x ∷ hs))
          (λ h m. sym (member-distinct h (x ∷ hs)) ∙ m)))
      (λ _. Leads-stmt _ _ _ (λ t a w e.
        let q : orphans_in (distinct (x ∷ hs)) t.chunks ≡ a = cc in
        rw (← q) (orphans-Decremented rows (x ∷ hs) t w)))
