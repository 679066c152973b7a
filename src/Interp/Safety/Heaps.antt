-- ===== src/Interp/Safety/Heaps.antt =====
-- Pointers and reads, writes and allocations in the heap.
use ocamil.Prelude.{
  ℕ, zero, suc, ◌+◌, ◌≤◌, ◌≡◌, [], ◌∷◌, ◌++◌, get_elem?, set, length, length-set, ltb, Bool-cases,
  inl, inr, ◌>>=◌,
}
use ocamil.Machine.Value.{
  Value, word, ptr, atom, code, trap, Block, fields, bytes, doubles, Heap, block_fields, field,
  set_field, write_block,
}
use ocamil.Interp.Safety.{Holds, fault, holds, InHeap, AllIn, BlockIn, HeapIn}
use ocamil.Interp.Safety.Lists.{bind, AllIn-mono, get_elem?-InHeap, set-AllIn}

module _ (n : ℕ) where
  pub BlockIn-mono : (m : ℕ) (b : Block) → n ≤ m → BlockIn n b → BlockIn m b
  BlockIn-mono m (fields t vs) le h = AllIn-mono n m vs le h
  BlockIn-mono m (bytes _) le h = tt
  BlockIn-mono m (doubles _ _) le h = tt

  pub HeapIn-mono : (m : ℕ) (h : Heap) → n ≤ m → HeapIn n h → HeapIn m h
  HeapIn-mono m [] le k = tt
  HeapIn-mono m (b ∷ h) le k = (BlockIn-mono m b le k.0, HeapIn-mono m h le k.1)

  pub get_elem?-BlockIn : (h : Heap) (i : ℕ) → HeapIn n h → Holds (BlockIn n) (get_elem? h i)
  get_elem?-BlockIn [] i k = fault
  get_elem?-BlockIn (b ∷ h) zero k = holds k.0
  get_elem?-BlockIn (b ∷ h) (suc i) k = get_elem?-BlockIn h i k.1

  pub set-HeapIn : (h : Heap) (i : ℕ) (b : Block) → HeapIn n h → BlockIn n b → HeapIn n (set h i b)
  set-HeapIn [] i b h k = tt
  set-HeapIn (x ∷ h) zero b k p = (p, k.1)
  set-HeapIn (x ∷ h) (suc i) b k p = (k.0, set-HeapIn h i b k.1 p)

  pub append-HeapIn : (h : Heap) (b : Block) → HeapIn n h → BlockIn n b → HeapIn n (h ++ (b ∷ []))
  append-HeapIn [] b k p = (p, tt)
  append-HeapIn (x ∷ h) b k p = (k.0, append-HeapIn h b k.1 p)

  pub block_fields-AllIn : (b : Block) → BlockIn n b → Holds (AllIn n) (block_fields b)
  block_fields-AllIn (fields t vs) h = holds h
  block_fields-AllIn (bytes _) h = fault
  block_fields-AllIn (doubles _ _) h = fault

  pub fields_of-AllIn :
      (h : Heap) (b : ℕ) → HeapIn n h → Holds (AllIn n) (get_elem? h b >>= block_fields)
  fields_of-AllIn h b k =
      bind (BlockIn n) (AllIn n) _ _ (get_elem?-BlockIn h b k) block_fields-AllIn

  pub field-InHeap : (h : Heap) (v : Value) (i : ℕ) → HeapIn n h → Holds (InHeap n) (field h v i)
  unfolding field
  field-InHeap h (ptr b o) i k =
      bind (BlockIn n) (InHeap n) _ _ (get_elem?-BlockIn h b k) λ block p.
        bind (AllIn n) (InHeap n) _ _ (block_fields-AllIn block p)
          λ vs q. get_elem?-InHeap n vs (o + i) q
  field-InHeap h (word _) i k = fault
  field-InHeap h (atom _) i k = fault
  field-InHeap h (code _) i k = fault
  field-InHeap h (trap _) i k = fault

  write_block-BlockIn :
      (i : ℕ) (v : Value) (b : Block)
      → BlockIn n b
      → InHeap n v
      → Holds (BlockIn n) (write_block i v b)
  write_block-BlockIn i v (fields t vs) h k = elim (Bool-cases (ltb i (length vs))) [
    | inl e ↦ rw e (holds (set-AllIn n vs i v h k))
    | inr e ↦ rw e fault
  ]
  write_block-BlockIn i v (bytes _) h k = fault
  write_block-BlockIn i v (doubles _ _) h k = fault

  -- A store leaves the size of the heap alone.
  abbrev pub Stored : Heap → Heap → Type 0
  Stored h h' = HeapIn n h' × (length h' ≡ length h)

  pub set_field-Stored :
      (h : Heap) (v : Value) (i : ℕ) (w : Value)
      → HeapIn n h
      → InHeap n w
      → Holds (Stored h) (set_field h v i w)
  unfolding set_field
  set_field-Stored h (ptr b o) i w k p =
      bind (BlockIn n) (Stored h) _ _ (get_elem?-BlockIn h b k) λ block q.
        bind (BlockIn n) (Stored h) _ _ (write_block-BlockIn (o + i) w block q p)
          λ block' q'. holds (set-HeapIn h b block' k q', length-set h b block')
  set_field-Stored h (word _) i w k p = fault
  set_field-Stored h (atom _) i w k p = fault
  set_field-Stored h (code _) i w k p = fault
  set_field-Stored h (trap _) i w k p = fault
