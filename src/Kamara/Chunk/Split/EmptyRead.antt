-- ===== src/Kamara/Chunk/Split/EmptyRead.antt =====
-- `Split` of chunker.go and a reader that delivers no bytes in a read, which an `io.Reader` may do.
use peristera.Prelude.{
  ℕ, suc, ◌≡◌, refl, true, Option, none, some, List, [], ◌∷◌, arith, ltb, Error,
}
use peristera.Kamara.Chunk.{Sizes}
use peristera.Kamara.Chunk.Cutpoint.{IsValid}
use peristera.Kamara.Chunk.Split.{fill, emit, split_loop, split}

-- If the first read delivers no bytes, then Split returns no error and never calls its callback,
-- whatever the reads after it deliver and however the reader ends.
pub split-empty_read :
    {S : Type 0} (fn : List ℕ → S → Option Error × S) (sz : Sizes) (fuel : ℕ)
    (pending : List (List ℕ)) (ending : Option Error) (s : S)
    → IsValid sz
    → split fn (suc fuel) sz (record { pending = [] ∷ pending; ending = ending }) s ≡ some (none, s)
unfolding split split_loop fill emit
split-empty_read fn sz fuel pending ending s v =
    let room : ltb 0 sz.max_size ≡ true = ground (arith, v.avg-lt-max) in rw room refl
