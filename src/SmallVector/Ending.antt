-- ===== src/SmallVector/Ending.antt =====
-- What `data()` points to, and the end of a storage, in src/common/small_vector.h.
use infini_rt.Base.{
  ℕ, ◌≡◌, refl, ap, ltb-false, ==_refl, ==_ne, ◌∙◌, none, if◌then◌else◌, length, arith, lt→ltb,
}
use infini_rt.SmallVector.Memory.{Config, Memory, deallocate}
use infini_rt.SmallVector.Storage.{
  Storage, inline_storage, heap_data, data_of, replace_with_heap, destroy,
}
use infini_rt.SmallVector.Valid.{owns, Sane, Shape, cells_of}
use infini_rt.SmallVector.Construct.{block_at-some, vector}

module _ {A : Type 0} (c : Config A) where
  pub data_of-cells_of :
      (st : Storage A) (n capacity : ℕ) (h : Memory A)
      → Shape c st capacity h
      → data_of c (vector st n capacity) h ≡ cells_of st h
  unfolding data_of
  data_of-cells_of (inline_storage cells) n capacity h (e, l) =
      rw (ltb-false c.inline_capacity capacity (omega arith)) refl
  data_of-cells_of (heap_data p) n capacity h (big, _, _, _) =
      rw (lt→ltb c.inline_capacity capacity big) refl

  pub length-cells_of :
      (st : Storage A) (capacity : ℕ) (h : Memory A)
      → Shape c st capacity h
      → length (cells_of st h) ≡ capacity
  length-cells_of (inline_storage cells) capacity h (e, l) = omega arith
  length-cells_of (heap_data p) capacity h (_, _, _, (cells, e, l)) =
      ap length (block_at-some p cells h e) ∙ l

  -- The destructor of a valid storage deallocates its block with the capacity that it was
  -- allocated with, leaves every other block alone, and nothing undefined happens.
  pub destroy-Frame :
      (st : Storage A) (n capacity : ℕ) (h : Memory A)
      → Sane h
      → Shape c st capacity h
      → let h1 = destroy c (vector st n capacity) h in
        Sane h1
        × (h1.top ≡ h.top)
        × ((q : ℕ) → h1.blocks q ≡ (if owns st q then none else h.blocks q))
  unfolding destroy deallocate
  destroy-Frame (inline_storage cells) n capacity h sane (e, l) =
      rw (ltb-false c.inline_capacity capacity (omega arith)) (sane, refl, λ q. refl)
  destroy-Frame (heap_data p) n capacity h sane (big, _, _, (cells, e, l)) =
      rw (lt→ltb c.inline_capacity capacity big, e, deallocate)
        (rw (l, ==_refl capacity)
          (
            record {
              defined = sane.defined;
              unused = λ q above. ground (arith, sane.unused q above);
            },
            refl,
            λ q. refl,
          ))

  pub replace-destroy :
      (st : Storage A) (n capacity p k m : ℕ) (h h0 : Memory A)
      → Shape c st capacity h0
      → (replace_with_heap c p k m (vector st n capacity) h).1 ≡ destroy c (vector st n capacity) h
  unfolding replace_with_heap destroy
  replace-destroy (inline_storage cells) n capacity p k m h h0 (e, l) =
      rw (ltb-false c.inline_capacity capacity (omega arith)) refl
  replace-destroy (heap_data q) n capacity p k m h h0 (big, pos, _, _) =
      rw (==_ne q 0 (λ e. omega arith), lt→ltb c.inline_capacity capacity big) refl
