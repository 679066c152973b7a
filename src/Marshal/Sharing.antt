-- ===== src/Marshal/Sharing.antt =====
-- Objects that are written once, in byterun/extern.c and byterun/intern.c: what the numbers of the
-- table of the writer mean for the table of the reader.
use ocamil.Prelude.{
  ℕ, ◌≤◌, ◌≡◌, ◌⊎◌, inl, inr, sym, some, List, ◌∷◌, true, length, get_elem?, arith, Bool-cases,
}
use ocamil.Interp.Arith.{same_value}
use ocamil.Machine.Value.{Value, Heap}
use ocamil.Marshal.Seen.{SeenTable, number_of}
use ocamil.Marshal.Room.{Malloced}
use ocamil.Marshal.Extern.{Extern}
use ocamil.Marshal.Intern.{Intern}
use ocamil.Marshal.Tree.{Tree, weight, Unfolds, Unfolds-mono, ReadsKept}
use ocamil.Marshal.Reading.{read_dest}

pub same_value_sound : (v w : Value) → same_value v w ≡ true → v ≡ w
unfolding same_value
same_value_sound v w h = ground arith

pub number_of-cases :
    (w v : Value) (m n : ℕ) (seen : List (Value × ℕ))
    → number_of ((w, m) ∷ seen) v ≡ some n
    → ((v ≡ w) × (n ≡ m)) ⊎ (number_of seen v ≡ some n)
unfolding number_of
number_of-cases w v m n seen e = elim (Bool-cases (same_value w v)) [
  | inl h ↦ inl (sym (same_value_sound w v h), ground arith)
  | inr h ↦ inr (ground arith)
]

module _ (h : Heap) where
  -- The object of that number is read, and stands for what was written.
  abbrev pub Complete : Value → (n : ℕ) → List Value → Intern → Type 0
  Complete v n objs s =
      (t : Tree)
      → Unfolds (get_elem? h) v t
      → (w : Value) × (get_elem? objs n ≡ some w) × Unfolds (read_dest s) w t

  -- Of the objects that were written before, those that are not too large are complete.
  abbrev pub Ready : (bound : ℕ) → List (Value × ℕ) → List Value → Intern → Type 0
  Ready bound seen objs s =
      (v : Value) (n : ℕ) (t : Tree)
      → number_of seen v ≡ some n
      → Unfolds (get_elem? h) v t
      → weight t ≤ bound
      → (w : Value) × (get_elem? objs n ≡ some w) × Unfolds (read_dest s) w t

  -- From one state of both sides to a later one.
  pub record Step (seen : List (Value × ℕ)) (objs : List Value) (s : Intern)
      (seen' : List (Value × ℕ)) (objs' : List Value) (s' : Intern) : Type 0 where
    pub reads_kept : ReadsKept (read_dest s) (read_dest s')
    pub objs_kept : (n : ℕ) (w : Value) → get_elem? objs n ≡ some w → get_elem? objs' n ≡ some w
    pub completed :
        (v : Value) (n : ℕ)
        → number_of seen' v ≡ some n
        → (number_of seen v ≡ some n) ⊎ Complete v n objs' s'

module _ {h : Heap} where
  pub Step-refl :
      (seen : List (Value × ℕ)) (objs : List Value) (s : Intern) → Step h seen objs s seen objs s
  Step-refl seen objs s = record {
    reads_kept = λ b block e. e;
    objs_kept = λ n w e. e;
    completed = λ v n e. inl e;
  }

  pub Step-trans :
      {seen₁ seen₂ seen₃ : List (Value × ℕ)} {objs₁ objs₂ objs₃ : List Value} {s₁ s₂ s₃ : Intern}
      → Step h seen₁ objs₁ s₁ seen₂ objs₂ s₂
      → Step h seen₂ objs₂ s₂ seen₃ objs₃ s₃
      → Step h seen₁ objs₁ s₁ seen₃ objs₃ s₃
  Step-trans {s₂ = s₂} {s₃ = s₃} a b = record {
    reads_kept = λ i block e. b.reads_kept i block (a.reads_kept i block e);
    objs_kept = λ n w e. b.objs_kept n w (a.objs_kept n w e);
    completed = λ v n e. elim (b.completed v n e) [
      | inr done ↦ inr done
      | inl old ↦ elim (a.completed v n old) [
        | inl older ↦ inl older
        | inr done ↦ inr (λ t u.
            let (w, at, x) = done t u in
            (w, b.objs_kept n w at, Unfolds-mono (read_dest s₂) (read_dest s₃) w t b.reads_kept x))
      ]
    ];
  }

  pub Ready-Step :
      (bound : ℕ) {seen seen' : List (Value × ℕ)} {objs objs' : List Value} {s s' : Intern}
      → Ready h bound seen objs s
      → Step h seen objs s seen' objs' s'
      → Ready h bound seen' objs' s'
  Ready-Step bound {s} {s'} r a v n t e u l = elim (a.completed v n e) [
    | inr done ↦ done t u
    | inl old ↦
        let (w, at, x) = r v n t old u l in
        (w, a.objs_kept n w at, Unfolds-mono (read_dest s) (read_dest s') w t a.reads_kept x)
  ]

-- The two sides agree.
pub record Sim (S : SeenTable) (e : Extern S.Table) (seen : List (Value × ℕ)) (objs : List Value)
    (s : Intern) : Type 0 where
  pub malloced : Malloced e
  pub represents : S.Represents e.table seen
  pub counter : e.obj_counter ≡ length seen
  pub objects : s.intern_obj_table ≡ some objs
  pub as_many : length objs ≡ length seen
  pub same_words : e.size_32 ≡ s.words
  pub sized : e.obj_counter ≤ e.size_32
  pub blocks_counted : length s.blocks ≡ length seen
