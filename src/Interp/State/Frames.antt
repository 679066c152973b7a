-- ===== src/Interp/State/Frames.antt =====
-- The words from `sp` on, as the parts that an instruction takes or leaves.
use ocamil.Prelude.{ℕ, ◌^◌, ◌<◌, ◌≡◌, refl, some, List, [], ◌∷◌, ◌++◌, length}
use ocamil.Prelude.Int.{pos}
use ocamil.Machine.Value.{Value, index_of}
use ocamil.Machine.Word.Tagging.{long_val-val_long}
use ocamil.Interp.State.{pop_words, top_words, saved_args}

pub pop_words-append : (xs ys : List Value) → pop_words (length xs) (xs ++ ys) ≡ some ys
unfolding pop_words
pop_words-append [] ys = refl
pop_words-append (x ∷ xs) ys = pop_words-append xs ys

pub top_words-append : (xs ys : List Value) → top_words (length xs) (xs ++ ys) ≡ some xs
unfolding top_words
top_words-append [] ys = refl
top_words-append (x ∷ xs) ys = rw (top_words-append xs ys)

-- The count of extra arguments survives in a frame.
pub index_of-saved_args : (n : ℕ) → n < 2 ^ 30 → index_of (saved_args n) ≡ some n
unfolding index_of
index_of-saved_args n h = rw (long_val-val_long (pos n) h)
