-- ===== src/Interp/Calls/Partial.antt =====
-- Partial applications: `GRAB` and `RESTART`.
use ocamil.Prelude.{
  ℕ, ◌+◌, ◌-◌, ◌^◌, ◌≤◌, ◌<◌, ◌≡◌, refl, true, false, some, List, [], ◌∷◌, ◌++◌, arith, length,
  get_elem?, leb,
}
use ocamil.Machine.Value.{Value, ptr, code, Heap, Block, fields, closure_tag}
use ocamil.Interp.State.{State, operand, pop_words, top_words}
use ocamil.Interp.State.Frames.{pop_words-append, top_words-append, index_of-saved_args}
use ocamil.Interp.Calls.{restart, grab, pop_frame}
use ocamil.Interp.Calls.Return.{frame}

-- The block of a suspended application, whose code is at `pc`.
abbrev pub suspended : ℕ → Value → List Value → Block
suspended pc env args = fields closure_tag (code pc ∷ env ∷ args)

module _ (prog : List ℕ) (required : ℕ) (s : State) (args rest : List Value) (caller : State) where
  -- With fewer arguments than the function requires, `GRAB` allocates a block that holds them with
  -- the environment, and returns it to the caller.
  pub grab-few :
      caller.extra_args < 2 ^ 30
      → operand prog s 0 ≡ some required
      → 2 ≤ s.pc
      → s.extra_args < required
      → length args ≡ 1 + s.extra_args
      → (ret : ℕ) → s.stack ≡ args ++ (frame prog caller ret ++ rest)
      → grab prog s
        ≡ some (record s {
          pc = ret;
          accu = ptr (length s.heap) 0;
          env = caller.env;
          extra_args = caller.extra_args;
          stack = rest;
          heap = s.heap ++ (suspended (s.pc - 2) s.env args ∷ []);
        })
  unfolding grab pop_frame
  grab-few few o known lack count ret e =
      let top : top_words (1 + s.extra_args) s.stack ≡ some args =
        rw (← count, e) (top_words-append args _) in
      let low : pop_words (1 + s.extra_args) s.stack ≡ some (frame prog caller ret ++ rest) =
        rw (← count, e) (pop_words-append args _) in
      let less : leb required s.extra_args ≡ false = ground arith in
      let two : leb 2 s.pc ≡ true = ground arith in
      rw (o, less, two, top, low, index_of-saved_args caller.extra_args few)

-- `RESTART` pushes the arguments that the block holds, in front of the new ones.
pub restart-suspended :
    (t : State) (env : Value) (args : List Value) (b pc : ℕ)
    → get_elem? t.heap b ≡ some (suspended pc env args)
    → t.env ≡ ptr b 0
    → restart t
      ≡ some
          (record t { env = env; stack = args ++ t.stack; extra_args = t.extra_args + length args })
unfolding restart pop_words
restart-suspended t env args b pc block e = rw (e, block)

pub get_elem?-snoc : (h : Heap) (b : Block) → get_elem? (h ++ (b ∷ [])) (length h) ≡ some b
get_elem?-snoc [] b = refl
get_elem?-snoc (x ∷ h) b = get_elem?-snoc h b
