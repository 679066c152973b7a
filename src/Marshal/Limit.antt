-- ===== src/Marshal/Limit.antt =====
-- Nothing is written behind the limit of the buffer by extern_rec of byterun/extern.c.
use ocamil.Prelude.{
  ℕ, zero, suc, ◌+◌, ◌-◌, ◌*◌, ◌/◌, ◌%◌, ◌^◌, none, some, [], ◌∷◌, ◌++◌, Bool, ◌||◌, inl, inr, ◌==◌,
  Option-cases,
}
use ocamil.Machine.Word.{long_val}
use ocamil.Machine.Value.{
  Value, word, ptr, atom, code, trap, Heap, field, header, string_tag, double_tag, double_array_tag,
  infix_tag,
}
use ocamil.Compare.{bytes_at, doubles_at, forward_tag, abstract_tag, object_tag, custom_tag}
use ocamil.Marshal.{
  functional_value, abstract_value, object_value, abstract_custom, Result, ok, raised, ◌>>=◌,
  of_option,
}
use ocamil.Marshal.Seen.{SeenTable}
use ocamil.Marshal.Extern.{
  Extern, Serializers, Flags, closure_of, writeblock, writecode32, extern_shared, count_words,
  extern_string, extern_double, extern_doubles, extern_header, extern_atom, extern_code, check_seen,
  extern_custom, extern_fields, extern_contents, extern_block, extern_rec,
}
use ocamil.Marshal.Buffer.{
  Ensures, ok-Ensures, raised-Ensures, bind-Ensures, if-Ensures, any-Ensures, option-Ensures,
  fuel-Ensures, Legal, Fits, writeblock-Fits, count_words-Fits, writecode32-Fits, extern_int-Fits,
  extern_shared-Fits, extern_string-Fits, extern_double-Fits, extern_doubles-Fits, extern_atom-Fits,
  extern_header-Fits,
}

module _ (S : SeenTable) (c : Serializers) (flags : Flags) (h : Heap) (m : Bool)
    (len from : ℕ) where
  extern_code-Fits :
      (n : ℕ) (e : Extern S.Table)
      → Legal m len from e
      → Ensures (extern_code S c flags h n e) (Fits m len from)
  unfolding extern_code
  extern_code-Fits n e l =
      if-Ensures flags.closures
        (writecode32 16 (4 * n) e >>= λ e'. writeblock flags.code_checksum e')
        (raised functional_value)
        (bind-Ensures (writecode32 16 (4 * n) e) (λ e'. writeblock flags.code_checksum e')
          (writecode32-Fits m len from e l 16 (4 * n))
          (λ e' p. writeblock-Fits m len from flags.code_checksum e' p.legal))
        (raised-Ensures functional_value)

  -- Looking an object up writes nothing.
  check_seen-Legal :
      (v : Value) (tag : ℕ) (e : Extern S.Table)
      → Legal m len from e
      → Ensures (check_seen S c flags h v tag e) (λ r. Legal m len from r.1)
  unfolding check_seen
  check_seen-Legal v tag e l =
      if-Ensures (flags.ignore_sharing || (tag == infix_tag)) (ok (none, e)) _
        (ok-Ensures (none, e) l)
        (elim (Option-cases (S.find_or_record e.table v e.obj_counter)) [
          | inl missing ↦ rw missing fuel-Ensures
          | inr ((some n, t), found) ↦
              rw found (ok-Ensures (some n, record e { table = t }) (with_table t e.obj_counter))
          | inr ((none, t), found) ↦ rw found (
              ok-Ensures (none, record e { table = t; obj_counter = suc e.obj_counter })
                (with_table t (suc e.obj_counter)))
        ])
    where
      with_table :
          (t : S.Table) (n : ℕ) → Legal m len from (record e { table = t; obj_counter = n })
      with_table t n = record {
        malloced_kept = l.malloced_kept;
        size_kept = l.size_kept;
        positive = l.positive;
        long_enough = l.long_enough;
      }

  extern_custom-Fits :
      (v : Value) (e : Extern S.Table)
      → Legal m len from e
      → Ensures (extern_custom S c flags h v e) (Fits m len from)
  unfolding extern_custom
  extern_custom-Fits v e l =
      bind-Ensures (of_option (field h v 0)) _ (any-Ensures (of_option (field h v 0))) (λ ops _.
        option-Ensures (c.serialize ops) (raised abstract_custom) _ (raised-Ensures abstract_custom)
          (λ serialize.
            bind-Ensures (writeblock (18 ∷ []) e) _ (writeblock-Fits m len from (18 ∷ []) e l)
              (λ e' p.
                let name = c.identifier ops ++ (0 ∷ []) in
                let (bs, sz_32, sz_64) = serialize h v in
                bind-Ensures (writeblock name e') _ (writeblock-Fits m len from name e' p.legal)
                  (λ e'' p'.
                    bind-Ensures (writeblock bs e'') _ (writeblock-Fits m len from bs e'' p'.legal)
                      (λ e''' p''.
                        ok-Ensures (count_words (2 + (sz_32 + 3) / 4) (2 + (sz_64 + 7) / 8) e''') (
                          count_words-Fits m len from (2 + (sz_32 + 3) / 4) (2 + (sz_64 + 7) / 8)
                            e''' p''))))))

  -- What the fields are written by keeps to the buffer.
  module _ (rec : Value → Extern S.Table → Result (Extern S.Table))
      (keeps : (v : Value) (e : Extern S.Table)
        → Legal m len from e
        → Ensures (rec v e) (Fits m len from)) where
    extern_fields-Fits :
        (v : Value) (i n : ℕ) (e : Extern S.Table)
        → Fits m len from e
        → Ensures (extern_fields S c flags h rec v i n e) (Fits m len from)
    unfolding extern_fields
    extern_fields-Fits v i zero e p = ok-Ensures e p
    extern_fields-Fits v i (suc n) e p =
        bind-Ensures (of_option (field h v i)) _ (any-Ensures (of_option (field h v i))) (λ x _.
          bind-Ensures (rec x e) (λ e'. extern_fields S c flags h rec v (suc i) n e')
            (keeps x e p.legal) (λ e' p'. extern_fields-Fits v (suc i) n e' p'))

    extern_contents-Fits :
        (v : Value) (tag sz : ℕ) (e : Extern S.Table)
        → Legal m len from e
        → Ensures (extern_contents S c flags h rec v tag sz e) (Fits m len from)
    unfolding extern_contents
    extern_contents-Fits v tag sz e l =
        if-Ensures (tag == string_tag) (of_option (bytes_at h v) >>= λ bs. extern_string bs e) _
          (bind-Ensures (of_option (bytes_at h v)) (λ bs. extern_string bs e)
            (any-Ensures (of_option (bytes_at h v))) (λ bs _. extern_string-Fits m len from e l bs))
          (if-Ensures (tag == double_tag) (of_option (doubles_at h v) >>= λ ds. extern_double ds e)
            _
            (bind-Ensures (of_option (doubles_at h v)) (λ ds. extern_double ds e)
              (any-Ensures (of_option (doubles_at h v)))
              (λ ds _. extern_double-Fits m len from e l ds))
            (if-Ensures (tag == double_array_tag)
              (of_option (doubles_at h v) >>= λ ds. extern_doubles ds e) _
              (bind-Ensures (of_option (doubles_at h v)) (λ ds. extern_doubles ds e)
                (any-Ensures (of_option (doubles_at h v)))
                (λ ds _. extern_doubles-Fits m len from e l ds))
              (if-Ensures (tag == abstract_tag) (raised abstract_value) _
                (raised-Ensures abstract_value)
                (if-Ensures (tag == infix_tag)
                  (writecode32 17 (4 * sz) e >>= λ e'.
                    of_option (closure_of v sz) >>= λ closure. rec closure e')
                  _
                  (bind-Ensures (writecode32 17 (4 * sz) e)
                    (λ e'. of_option (closure_of v sz) >>= λ closure. rec closure e')
                    (writecode32-Fits m len from e l 17 (4 * sz))
                    (λ e' p.
                      bind-Ensures (of_option (closure_of v sz)) (λ closure. rec closure e')
                        (any-Ensures (of_option (closure_of v sz)))
                        (λ closure _. keeps closure e' p.legal)))
                  (if-Ensures (tag == object_tag) (raised object_value) _
                    (raised-Ensures object_value)
                    (if-Ensures (tag == custom_tag) (extern_custom S c flags h v e) _
                      (extern_custom-Fits v e l)
                      (bind-Ensures (extern_header tag sz e)
                        (λ e'. extern_fields S c flags h rec v 0 sz e')
                        (extern_header-Fits m len from e l tag sz)
                        (λ e' p. extern_fields-Fits v 0 sz e' p))))))))

    extern_block-Fits :
        (v : Value) (tag sz : ℕ) (e : Extern S.Table)
        → Legal m len from e
        → Ensures (extern_block S c flags h rec v tag sz e) (Fits m len from)
    unfolding extern_block
    extern_block-Fits v tag sz e l =
        if-Ensures (tag == forward_tag) (of_option (field h v 0) >>= λ w. rec w e) _
          (bind-Ensures (of_option (field h v 0)) (λ w. rec w e)
            (any-Ensures (of_option (field h v 0))) (λ w _. keeps w e l))
          (if-Ensures (sz == 0) (extern_atom tag e) _ (extern_atom-Fits m len from e l tag) (
            bind-Ensures (check_seen S c flags h v tag e) _ (check_seen-Legal v tag e l)
              (λ (seen, e') l'.
                option-Ensures seen (extern_contents S c flags h rec v tag sz e')
                  (λ n. extern_shared (e'.obj_counter - n) e') (extern_contents-Fits v tag sz e' l')
                  (λ n. extern_shared-Fits m len from e' l' (e'.obj_counter - n)))))

  pub extern_rec-Fits :
      (f : ℕ) (v : Value) (e : Extern S.Table)
      → Legal m len from e
      → Ensures (extern_rec S c flags h f v e) (Fits m len from)
  unfolding extern_rec
  extern_rec-Fits zero v e l = fuel-Ensures
  extern_rec-Fits (suc f) (word w) e l = extern_int-Fits m len from e l (long_val w)
  extern_rec-Fits (suc f) (code n) e l = extern_code-Fits n e l
  extern_rec-Fits (suc f) (trap n) e l = raised-Ensures abstract_value
  extern_rec-Fits (suc f) (ptr b o) e l =
      bind-Ensures (of_option (header h (ptr b o))) _ (any-Ensures (of_option (header h (ptr b o))))
        (λ hd _.
          extern_block-Fits (extern_rec S c flags h f) (extern_rec-Fits f) (ptr b o) (hd % 2 ^ 8)
            (hd / 2 ^ 10) e l)
  extern_rec-Fits (suc f) (atom t) e l =
      bind-Ensures (of_option (header h (atom t))) _ (any-Ensures (of_option (header h (atom t))))
        (λ hd _.
          extern_block-Fits (extern_rec S c flags h f) (extern_rec-Fits f) (atom t) (hd % 2 ^ 8)
            (hd / 2 ^ 10) e l)

module _ (S : SeenTable) (c : Serializers) (flags : Flags) (h : Heap) (m : Bool) (len : ℕ) where
  abbrev fresh : Extern S.Table
  fresh = record {
    written = [];
    size = len;
    block_malloced = m;
    table = S.empty_table;
    obj_counter = 0;
    size_32 = 0;
    size_64 = 0;
  }
