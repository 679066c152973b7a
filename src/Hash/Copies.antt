-- ===== src/Hash/Copies.antt =====
-- Hashing (byterun/hash.c) of a value that was marshalled (byterun/extern.c, byterun/intern.c).
use ocamil.Prelude.{
  ℕ, zero, suc, ◌+◌, ◌*◌, ◌^◌, ◌≤◌, ◌<◌, ◌≡◌, ap, some, List, [], ◌∷◌, length, get_elem?, map,
  arith,
}
use ocamil.Prelude.Int.{ℤ, pos}
use ocamil.Machine.Word.{val_long}
use ocamil.Machine.Value.{Value, word, Block, Heap, fields}
use ocamil.Marshal.{ok}
use ocamil.Marshal.Intern.{Intern, Dest, building, whole}
use ocamil.Marshal.Tree.{Tree, weight, extent, Unfolds, ReadsKept, Unfolds-mono}
use ocamil.Marshal.Reading.{read_dest, dest_block, read_at}
use ocamil.Marshal.Objects.{Setup}
use ocamil.Marshal.Copying.{IsData}
use ocamil.Marshal.Message.{output_value_to_string, input_value_from_block}
use ocamil.Marshal.Faithful.{input_value_from_block-output_value_to_string}
use ocamil.Hash.{Hashing, hash_univ_param}
use ocamil.Hash.Spec.{calls_left}
use ocamil.Hash.Trees.{hash_univ_param_agrees}

abbrev pub interned_block : Dest → Block
interned_block (whole b) = b
interned_block (building tag size vs) = fields tag vs

-- The blocks at `intern_block`, as a heap.
abbrev pub interned_heap : Intern → Heap
interned_heap s = map interned_block s.blocks

dest_block_lem : (d : Dest) (b : Block) → dest_block d ≡ some b → interned_block d ≡ b
dest_block_lem (whole b) b' e = ground arith
dest_block_lem (building tag size vs) b e = ground arith

interned-kept :
    (ds : List Dest) (i : ℕ) (b : Block)
    → read_at (get_elem? ds i) ≡ some b
    → get_elem? (map interned_block ds) i ≡ some b
interned-kept [] i b e = absurd (ground arith)
interned-kept (d ∷ ds) zero b e = ap some (dest_block_lem d b e)
interned-kept (d ∷ ds) (suc i) b e = interned-kept ds i b e

interned-ReadsKept : (s : Intern) → ReadsKept (read_dest s) (get_elem? (interned_heap s))
unfolding read_dest
interned-ReadsKept s i b e = interned-kept s.blocks i b e

-- If a value unfolds to a finite tree of data (`IsData`) with an extent below 2^24 - 24, sharing is
-- on and the fuel is enough, then marshalling the value gives a message, reading the message gives a
-- value in a heap of its own, and hash_univ_param gives the same number below 2^30 for both.
pub hash_univ_param-input_value_from_block :
    (K : Setup) (out : Hashing) (t : Tree) (count limit : ℤ) (f g k : ℕ) (v : Value)
    → IsData t
    → Unfolds (get_elem? K.heap) v t
    → weight t ≤ f
    → weight t ≤ g
    → 24 + extent t < 2 ^ 24
    → 2 * calls_left limit + 1 ≤ k
    → (msg : List ℕ) × (w : Value) × (s : Intern) × (n : ℕ) × (output_value_to_string K.table
          K.serializers K.flags K.heap f v
        ≡ ok msg)
      × (input_value_from_block K.deserializers g msg (length msg) ≡ ok (w, [], s))
      × (hash_univ_param out K.heap k count limit v ≡ some (word (val_long (pos n))))
      × (hash_univ_param out (interned_heap s) k count limit w ≡ some (word (val_long (pos n))))
      × (n < 2 ^ 30)
hash_univ_param-input_value_from_block K out t count limit f g k v d u wf wg fits turns =
    let (msg, w, s, written, read, u') =
      input_value_from_block-output_value_to_string K t f g v d u wf wg fits in
    let (n, old, new, small) =
      hash_univ_param_agrees out out K.heap (interned_heap s) v w t count limit k k d u
        (Unfolds-mono (read_dest s) (get_elem? (interned_heap s)) w t (interned-ReadsKept s) u')
        turns turns in
    (msg, w, s, n, written, read, old, new, small)
