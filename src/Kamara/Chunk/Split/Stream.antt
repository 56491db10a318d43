-- ===== src/Kamara/Chunk/Split/Stream.antt =====
-- What `Split` of chunker.go hands to its callback when no read is empty and the reader ends by io.EOF:
-- the chunks of the whole content.
use mathlib.Core.List.{append-nil, append_assoc}
use peristera.Prelude.{
  ℕ, zero, suc, ◌-◌, ◌≤◌, ◌<◌, ◌≡◌, refl, sym, ap, ap₂, subst, ◌∙◌, ◌⊎◌, inl, inr, false, Option,
  none, some, List, [], ◌∷◌, ◌++◌, arith, length, length-append, length-take, length-drop, take,
  drop, take-append, drop-append, take-append-drop, concat, All, leb, ltb, ◌==◌, Bool-cases, Error,
}
use peristera.Kamara.Chunk.Cutpoint.{IsValid, cutpoint_bounds, cutpoint-pos, cutpoint-append}
use peristera.Kamara.Chunk.Canonical.{chunks_of, chunks}
use peristera.Kamara.Chunk.Split.{
  Filled, filled, failed, fill, at_end, peek, unread, is_eof, carry, emit, split_loop, split,
}
use peristera.Kamara.Chunk.{Sizes, cutpoint}

-- The callback on each chunk in turn, up to the first error.
abbrev pub each_from {ℓ} :
    {S : Type ℓ} → (S → Option Error × S) → Option Error → S → Option Error × S
each_from rest none s = rest s
each_from rest (some x) s = (some x, s)

unfoldable pub each {ℓ} :
    {S : Type ℓ} → (List ℕ → S → Option Error × S) → List (List ℕ) → S → Option Error × S
each fn [] s = (none, s)
each fn (c ∷ cs) s = let (e, s') = fn c s in each_from (each fn cs) e s'

-- A read with a nil error delivers a byte or more. `io.Reader` discourages other reads, and does not
-- forbid them.
abbrev pub HasBytes : List (List ℕ) → Type 0
HasBytes = All (λ bytes. 0 < length bytes)

-- What a filled buffer and the reads that are left have to do with those before.
abbrev FillOk : ℕ → List ℕ → List (List ℕ) → Filled → Type 0
FillOk max buf pending (failed e) = ⊥
FillOk max buf pending (filled full left) =
    (full ++ concat left ≡ buf ++ concat pending)
    × HasBytes left
    × ((max ≤ length full) ⊎ (left ≡ []))

FillOk-append :
    (max : ℕ) (buf bytes : List ℕ) (pending : List (List ℕ)) (r : Filled)
    → FillOk max (buf ++ bytes) pending r
    → FillOk max buf (bytes ∷ pending) r
FillOk-append max buf bytes pending (failed e) h = h
FillOk-append max buf bytes pending (filled full left) h =
    (h.0 ∙ append_assoc buf bytes (concat pending), h.1, h.2)

split_read :
    (max : ℕ) (buf bytes : List ℕ) (pending : List (List ℕ))
    → HasBytes (bytes ∷ pending)
    → length buf < max
    → max - length buf < length bytes
    → FillOk max buf
        (bytes ∷ pending)
        (filled (buf ++ take (max - length buf) bytes) (drop (max - length buf) bytes ∷ pending))
split_read max buf bytes pending h room over = (
  append_assoc buf (take free bytes) (drop free bytes ++ concat pending)
      ∙ ap (◌++◌ buf) (
          sym (append_assoc (take free bytes) (drop free bytes) (concat pending))
          ∙ ap (λ z. z ++ concat pending) (take-append-drop free bytes)),
  (omega (arith, length-drop free bytes), h.1),
  inl (omega (arith, length-append buf (take free bytes), length-take free bytes)),
)
  where
    free : ℕ
    free = max - length buf

fill-FillOk :
    (max : ℕ) (buf : List ℕ) (pending : List (List ℕ))
    → HasBytes pending
    → FillOk max buf pending (fill max none buf pending)
unfolding fill at_end
fill-FillOk max buf [] h = elim (Bool-cases (ltb (length buf) max)) [
  | inl e ↦ rw e (refl, tt, inr refl)
  | inr e ↦ rw e (refl, tt, inr refl)
]
fill-FillOk max buf (bytes ∷ pending) h = elim (Bool-cases (ltb (length buf) max)) [
  | inr full ↦ rw full (refl, h, inl (ground arith))
  | inl room ↦
      let some_bytes : (length bytes == 0) ≡ false = ground arith in
      elim (Bool-cases (leb (length bytes) (max - length buf))) [
        | inl fits ↦
            rw (room, some_bytes, fits)
              (FillOk-append max buf bytes pending _ (fill-FillOk max (buf ++ bytes) pending h.1))
        | inr over ↦
            rw (room, some_bytes, over)
              (split_read max buf bytes pending h (ground arith) (ground arith))
      ]
]

module _ {ℓ} {S : Type ℓ} (fn : List ℕ → S → Option Error × S) (sz : Sizes) (v : IsValid sz) where
  -- A continuation that treats what is left as the chunks of it.
  abbrev Continues : ℕ → (List ℕ → List (List ℕ) → S → Option (Option Error × S)) → Type ℓ
  Continues f rest =
      (buf : List ℕ) (pending : List (List ℕ)) (s : S)
      → HasBytes pending
      → length (buf ++ concat pending) ≤ f
      → rest buf pending s ≡ some (each fn (chunks_of sz f (buf ++ concat pending)) s)

  each-chunks_of-nil : (f : ℕ) (s : S) → each fn (chunks_of sz f []) s ≡ (none, s)
  unfolding each
  each-chunks_of-nil zero s = refl
  each-chunks_of-nil (suc f) s = refl

  carry_lem :
      (f : ℕ) (rest : List ℕ → List (List ℕ) → S → Option (Option Error × S)) (tail : List ℕ)
      (left : List (List ℕ)) (s : S)
      → Continues f rest
      → HasBytes left
      → length (tail ++ concat left) ≤ f
      → carry none rest none tail left s ≡ some (each fn (chunks_of sz f (tail ++ concat left)) s)
  unfolding carry peek unread is_eof
  carry_lem f rest [] [] s k h l = ap some (sym (each-chunks_of-nil f s))
  carry_lem f rest [] ([] ∷ left) s k h l = absurd (omega arith)
  carry_lem f rest [] ((b ∷ bytes) ∷ left) s k h l = k [] ((b ∷ bytes) ∷ left) s h l
  carry_lem f rest (b ∷ tail) left s k h l = k (b ∷ tail) left s h l

  carry_cases :
      (f : ℕ) (rest : List ℕ → List (List ℕ) → S → Option (Option Error × S)) (tail : List ℕ)
      (left : List (List ℕ)) (e : Option Error) (s : S)
      → Continues f rest
      → HasBytes left
      → length (tail ++ concat left) ≤ f
      → carry none rest e tail left s
        ≡ some (each_from (each fn (chunks_of sz f (tail ++ concat left))) e s)
  unfolding carry
  carry_cases f rest tail left (some x) s k h l = refl
  carry_cases f rest tail left none s k h l = carry_lem f rest tail left s k h l

  -- A filled buffer decides the cut.
  cutpoint_filled :
      (full : List ℕ) (left : List (List ℕ))
      → (sz.max_size ≤ length full) ⊎ (left ≡ [])
      → cutpoint sz (full ++ concat left) ≡ cutpoint sz full
  cutpoint_filled full left (inl h) = cutpoint-append sz full (concat left) v h
  cutpoint_filled full left (inr e) = rw e (rw (append-nil full))

  -- One round takes the first chunk off the content.
  chunks_of_filled :
      (f : ℕ) (b : ℕ) (bytes : List ℕ) (left : List (List ℕ))
      → (sz.max_size ≤ length (b ∷ bytes)) ⊎ (left ≡ [])
      → let full = b ∷ bytes in
        let c = cutpoint sz full in
        chunks_of sz (suc f) (full ++ concat left)
        ≡ take c full ∷ chunks_of sz f (drop c full ++ concat left)
  chunks_of_filled f b bytes left m =
      ap₂ cons (ap (λ k. take k all) cut ∙ take-append c full (concat left) within)
        (ap (chunks_of sz f) (ap (λ k. drop k all) cut ∙ drop-append c full (concat left) within))
    where
      cons : List ℕ → List (List ℕ) → List (List ℕ)
      cons c cs = c ∷ cs

      full : List ℕ
      full = b ∷ bytes

      all : List ℕ
      all = full ++ concat left

      c : ℕ
      c = cutpoint sz full

      within : c ≤ length full
      within = (cutpoint_bounds sz full v).0

      cut : cutpoint sz all ≡ c
      cut = cutpoint_filled full left m

  rest_shorter :
      (f : ℕ) (full : List ℕ) (left : List (List ℕ))
      → 0 < length full
      → length (full ++ concat left) ≤ suc f
      → length (drop (cutpoint sz full) full ++ concat left) ≤ f
  rest_shorter f full left some_bytes l = omega (
    arith,
    length-append (drop (cutpoint sz full) full) (concat left),
    length-append full (concat left),
    length-drop (cutpoint sz full) full,
    cutpoint-pos sz full v some_bytes,
  )

  emit_lem :
      (f : ℕ) (rest : List ℕ → List (List ℕ) → S → Option (Option Error × S)) (full : List ℕ)
      (left : List (List ℕ)) (s : S)
      → Continues f rest
      → HasBytes left
      → (sz.max_size ≤ length full) ⊎ (left ≡ [])
      → length (full ++ concat left) ≤ suc f
      → emit fn sz none rest (filled full left) s
        ≡ some (each fn (chunks_of sz (suc f) (full ++ concat left)) s)
  emit_lem f rest [] left s k h (inl m) l = absurd (omega arith)
  emit_lem f rest [] left s k h (inr e) l = unfold emit each in rw e
  emit_lem f rest (b ∷ bytes) left s k h m l =
      subst (λ cs. emit fn sz none rest (filled (b ∷ bytes) left) s ≡ some (each fn cs s))
        (sym (chunks_of_filled f b bytes left m))
        (unfold emit each in
          carry_cases f rest (drop (cutpoint sz (b ∷ bytes)) (b ∷ bytes)) left _ _ k h
            (rest_shorter f (b ∷ bytes) left (omega arith) l))

  emit-filled :
      (f : ℕ) (rest : List ℕ → List (List ℕ) → S → Option (Option Error × S)) (buf : List ℕ)
      (pending : List (List ℕ)) (r : Filled) (s : S)
      → Continues f rest
      → FillOk sz.max_size buf pending r
      → length (buf ++ concat pending) ≤ suc f
      → emit fn sz none rest r s ≡ some (each fn (chunks_of sz (suc f) (buf ++ concat pending)) s)
  emit-filled f rest buf pending (failed e) s k h l = absurd h
  emit-filled f rest buf pending (filled full left) s k h l =
      subst
        (λ all.
          emit fn sz none rest (filled full left) s ≡ some (each fn (chunks_of sz (suc f) all) s))
        h.0 (emit_lem f rest full left s k h.1 h.2 (omega (arith, ap length h.0)))

  emit-empty :
      (rest : List ℕ → List (List ℕ) → S → Option (Option Error × S)) (buf : List ℕ)
      (pending : List (List ℕ)) (r : Filled) (s : S)
      → FillOk sz.max_size buf pending r
      → length (buf ++ concat pending) ≤ 0
      → emit fn sz none rest r s ≡ some (none, s)
  unfolding emit
  emit-empty rest buf pending (failed e) s h l = absurd h
  emit-empty rest buf pending (filled [] left) s h l = refl
  emit-empty rest buf pending (filled (b ∷ bytes) left) s h l =
      absurd (omega (arith, ap length h.0))

  split_loop_lem : (f : ℕ) → Continues f (split_loop fn (suc f) sz none)
  unfolding split_loop each
  split_loop_lem zero buf pending s h l =
      emit-empty (split_loop fn 0 sz none) buf pending _ s (fill-FillOk sz.max_size buf pending h) l
  split_loop_lem (suc f) buf pending s h l =
      emit-filled f (split_loop fn (suc f) sz none) buf pending _ s (split_loop_lem f)
        (fill-FillOk sz.max_size buf pending h) l

  -- If the sizes are valid, every read without an error delivers at least one byte and the reader ends by
  -- io.EOF, `Split` ends, and hands the callback the chunks of the whole content one after another, up to
  -- the first error of the callback. The sizes of the reads, as long as none is empty, make no difference.
  pub split-each :
      (pending : List (List ℕ)) (s : S)
      → HasBytes pending
      → split fn (suc (length (concat pending))) sz (record { pending = pending; ending = none }) s
        ≡ some (each fn (chunks sz (concat pending)) s)
  unfolding split
  split-each pending s h = split_loop_lem (length (concat pending)) [] pending s h (omega arith)
