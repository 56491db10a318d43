-- ===== src/Kamara/Chunk/Split.antt =====
-- `Split` of chunker.go: the streaming loop around `cutpoint`.
pub mod Stream
pub mod EmptyRead
use peristera.Prelude.{
  ℕ, zero, suc, ◌-◌, Bool, true, false, Option, none, some, List, [], ◌∷◌, ◌++◌, length, take, drop,
  leb, ltb, ◌==◌, if◌then◌else◌, Error,
}
use peristera.Kamara.Chunk.{Sizes, cutpoint}

-- An `io.Reader` behind its `bufio.Reader`: the bytes that its reads deliver, one entry for each read,
-- and how it ends: `none` is io.EOF, and another error is returned by every read from then on.
pub record Reader : Type 0 where
  pub pending : List (List ℕ)
  pub ending : Option Error

pub data Filled : Type 0 where
  filled : List ℕ → List (List ℕ) → Filled
  failed : Error → Filled

-- The read that meets the reader's end.
at_end : Option Error → List ℕ → Filled
at_end none buf = filled buf []
at_end (some e) buf = failed e

-- The inner loop: fill the buffer up to `max`. A read of no bytes ends it.
fill : ℕ → Option Error → List ℕ → List (List ℕ) → Filled
unfolding at_end take drop
fill max ending buf [] = if ltb (length buf) max then at_end ending buf else filled buf []
fill max ending buf (bytes ∷ pending) =
    let free = max - length buf in
    let rest = fill max ending (buf ++ bytes) pending in
    if ltb (length buf) max
    then (if length bytes == 0
        then filled buf pending
        else if leb (length bytes) free
        then rest
        else filled (buf ++ take free bytes) (drop free bytes ∷ pending))
    else filled buf (bytes ∷ pending)

-- bufio's maxConsecutiveEmptyReads.
abbrev pub max_empty_reads : ℕ
max_empty_reads = 100

-- What `br.Peek(1)` meets, with the reads that are left: a byte or the reader's end, or io.ErrNoProgress
-- after too many reads of no bytes.
pub data Peeked : Type 0 where
  reached : List (List ℕ) → Peeked
  no_progress : List (List ℕ) → Peeked

-- `br.Peek(1)` passes over reads of no bytes, as many as the first argument.
peek : ℕ → List (List ℕ) → Peeked
peek zero pending = no_progress pending
peek (suc n) [] = reached []
peek (suc n) ([] ∷ pending) = peek n pending
peek (suc n) ((b ∷ bytes) ∷ pending) = reached ((b ∷ bytes) ∷ pending)

unread : Peeked → List (List ℕ)
unread (reached left) = left
unread (no_progress left) = left

is_eof : Option Error → Peeked → Bool
is_eof none (reached []) = true
is_eof _ _ = false

module _ {ℓ} {S : Type ℓ} where
  -- The end of a round: `rest` is the next one. The remainder is carried to the buffer's front; with
  -- nothing buffered, `Split` is done if the reader is drained.
  carry :
      Option Error
      → (List ℕ → List (List ℕ) → S → Option (Option Error × S))
      → Option Error
      → List ℕ
      → List (List ℕ)
      → S
      → Option (Option Error × S)
  unfolding peek unread is_eof
  carry ending rest (some e) tail left s = some (some e, s)
  carry ending rest none [] left s =
      let peeked = peek max_empty_reads left in
      if is_eof ending peeked then some (none, s) else rest [] (unread peeked) s
  carry ending rest none (b ∷ tail) left s = rest (b ∷ tail) left s

module _ {ℓ} {S : Type ℓ} (fn : List ℕ → S → Option Error × S) where
  -- A round with its buffer filled: one chunk goes to the callback.
  emit :
      Sizes
      → Option Error
      → (List ℕ → List (List ℕ) → S → Option (Option Error × S))
      → Filled
      → S
      → Option (Option Error × S)
  unfolding carry
  emit sz ending rest (failed e) s = some (some e, s)
  emit sz ending rest (filled [] left) s = some (none, s)
  emit sz ending rest (filled (b ∷ bytes) left) s =
      let c = cutpoint sz (b ∷ bytes) in
      let (e, s') = fn (take c (b ∷ bytes)) s in carry ending rest e (drop c (b ∷ bytes)) left s'

  -- `none` is a loop that has run out of fuel; the inner option is the error that `Split` returns.
  split_loop : ℕ → Sizes → Option Error → List ℕ → List (List ℕ) → S → Option (Option Error × S)
  unfolding fill emit
  split_loop zero sz ending buf pending s = none
  split_loop (suc fuel) sz ending buf pending s =
      emit sz ending (split_loop fuel sz ending) (fill sz.max_size ending buf pending) s

  unfoldable pub split : ℕ → Sizes → Reader → S → Option (Option Error × S)
  unfolding split_loop
  split fuel sz r s = split_loop fuel sz r.ending [] r.pending s
