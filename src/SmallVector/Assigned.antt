-- ===== src/SmallVector/Assigned.antt =====
-- The move assignment of `SmallVector`, and `AssignInline`, in src/common/small_vector.h.
use infini_rt.Base.{
  ℕ, zero, suc, ◌≤◌, ◌<◌, ◌≡◌, refl, ap, sym, subst, ◌∙◌, true, false, none, List, [], length, take,
  get_or, set, replicate, arith, ltb, ltb-false, lt→ltb, ◌==◌, ==_refl, if◌then◌else◌, length-set,
  length-replicate, ◌++◌, ◌∷◌,
}
use infini_rt.SmallVector.Memory.{Config, Memory, require}
use infini_rt.SmallVector.Storage.{
  SmallVector, Storage, inline_storage, heap_data, empty, destroy, construct, replace_with_heap,
  switch_to_inline,
}
use infini_rt.SmallVector.Assign.{assign_values, assign_inline, set_size, move_assign}
use infini_rt.SmallVector.Valid.{owns, Sane, Holds, Shape}
use infini_rt.SmallVector.Lists.{take-set_end, take-suc}
use infini_rt.SmallVector.Construct.{vector, block_at-some}
use infini_rt.SmallVector.Ending.{data_of-cells_of, destroy-Frame, replace-destroy}
use infini_rt.SmallVector.Reallocation.{Shape-same}
use infini_rt.SmallVector.Copying.{empty-Holds}

module _ {A : Type 0} (c : Config A) where
  -- The first `n` inline cells are those of a list, and only they and the fault may differ.
  record Filled (n capacity size : ℕ) (values : List A) (h : Memory A) (v1 : SmallVector A)
      (h1 : Memory A) : Type 0 where
    pub cells : List A
    pub stored : v1 ≡ vector (inline_storage cells) size capacity
    pub sized : length cells ≡ c.inline_capacity
    pub filled : take n cells ≡ take n values
    pub same_blocks : (q : ℕ) → h1.blocks q ≡ h.blocks q
    pub same_top : h1.top ≡ h.top
    pub same_fault : h1.fault ≡ h.fault

  construct-inline :
      (cells : List A) (size capacity i : ℕ) (x : A) (h : Memory A)
      → capacity ≡ c.inline_capacity
      → construct c (vector (inline_storage cells) size capacity) i x h
        ≡ (vector (inline_storage (set cells i x)) size capacity, require (ltb i (length cells)) h)
  unfolding construct
  construct-inline cells size capacity i x h e =
      rw (ltb-false c.inline_capacity capacity (omega arith)) refl

  -- One more cell, where the state so far is given by its equation.
  Filled-step :
      (n size capacity : ℕ) (values : List A) (h : Memory A) (v1 : SmallVector A) (h1 : Memory A)
      → capacity ≡ c.inline_capacity
      → n < c.inline_capacity
      → n < length values
      → Filled n capacity size values h v1 h1
      → let r = construct c v1 n (get_or values n c.blank) (require (ltb n (length values)) h1) in
        Filled (suc n) capacity size values h r.0 r.1
  Filled-step n size capacity values h v1 h1 e room enough r =
      let x = get_or values n c.blank in
      let h2 = require (ltb n (length values)) h1 in
      rw (r.stored, construct-inline r.cells size capacity n x h2 e)
        (record {
          cells = set r.cells n x;
          stored = refl;
          sized = length-set r.cells n x ∙ r.sized;
          filled =
              take-set_end n r.cells x (omega (arith, r.sized))
              ∙ ap (λ (zs : List A). zs ++ (x ∷ [])) r.filled
              ∙ sym (take-suc n values c.blank enough);
          same_blocks = r.same_blocks;
          same_top = r.same_top;
          same_fault = ground (arith, r.same_fault, r.sized);
        })

  assign_values-Filled :
      (n size capacity : ℕ) (values cells : List A) (h : Memory A)
      → capacity ≡ c.inline_capacity
      → length cells ≡ c.inline_capacity
      → n ≤ c.inline_capacity
      → n ≤ length values
      → let r = assign_values c n values (vector (inline_storage cells) size capacity) h in
        Filled n capacity size values h r.0 r.1
  unfolding assign_values
  assign_values-Filled zero size capacity values cells h e l room enough = record {
    cells = cells;
    stored = refl;
    sized = l;
    filled = refl;
    same_blocks = λ q. refl;
    same_top = refl;
    same_fault = refl;
  }
  assign_values-Filled (suc n) size capacity values cells h e l room enough =
      let r = assign_values c n values (vector (inline_storage cells) size capacity) h in
      Filled-step n size capacity values h r.0 r.1 e (omega arith) (omega arith)
        (assign_values-Filled n size capacity values cells h e l (omega arith) (omega arith))

  -- The vector ends with no block of its own, and holds the first `n` of the values.
  abbrev pub Inlined : Storage A → Memory A → List A → SmallVector A × Memory A → Type 0
  Inlined st h ys (v1, h1) =
      Sane h1
      × Holds c v1 h1 ys
      × (h1.top ≡ h.top)
      × ((q : ℕ) → h1.blocks q ≡ (if owns st q then none else h.blocks q))
      × ((q : ℕ) → owns v1.storage q ≡ false)

  Filled-Inlined :
      (st : Storage A) (n size capacity : ℕ) (values : List A) (h h0 : Memory A)
      (v1 : SmallVector A) (h1 : Memory A)
      → c.inline_capacity ≤ c.max_size
      → capacity ≡ c.inline_capacity
      → n ≤ c.inline_capacity
      → Sane h0
      → h0.top ≡ h.top
      → ((q : ℕ) → h0.blocks q ≡ (if owns st q then none else h.blocks q))
      → Filled n capacity size values h0 v1 h1
      → Inlined st h (take n values) (set_size c n (v1, h1))
  Filled-Inlined st n size capacity values h h0 v1 h1 minimal e room sane top0 blocks0 r =
      rw r.stored (
        record {
          defined = r.same_fault ∙ sane.defined;
          unused = λ q above. r.same_blocks q ∙ sane.unused q (omega (arith, r.same_top));
        },
        record {
          fits = omega arith;
          bounded = omega arith;
          shaped = (e, r.sized);
          contents = r.filled;
        },
        r.same_top ∙ top0,
        λ q. r.same_blocks q ∙ blocks0 q,
        λ q. refl,
      )

  pub assign_inline-Inlined :
      (st : Storage A) (n m capacity : ℕ) (values : List A) (h : Memory A)
      → c.inline_capacity ≤ c.max_size
      → Sane h
      → Shape c st capacity h
      → n ≤ c.inline_capacity
      → n ≤ length values
      → Inlined st h (take n values) (assign_inline c values n (vector st m capacity) h)
  unfolding assign_inline switch_to_inline destroy
  assign_inline-Inlined (inline_storage cells) n m capacity values h minimal sane (e, l) room
        enough =
      let v = vector (inline_storage cells) m capacity in
      let eq : assign_inline c values n v h ≡ set_size c n (assign_values c n values v h) =
        rw (ltb-false c.inline_capacity capacity (omega arith)) refl in
      subst (λ (r : SmallVector A × Memory A). Inlined (inline_storage cells) h (take n values) r)
        (sym eq)
        (Filled-Inlined (inline_storage cells) n m capacity values h h _ _ minimal e room sane refl
          (λ q. refl) (assign_values-Filled n m capacity values cells h e l room enough))
  assign_inline-Inlined (heap_data p) n m capacity values h minimal sane shape room enough =
      let v = vector (heap_data p) m capacity in
      let h0 = destroy c v h in
      let eq : assign_inline c values n v h ≡ set_size c n (assign_values c n values (empty c) h0) =
        rw (lt→ltb c.inline_capacity capacity shape.0) refl in
      let (sane0, top0, blocks0) = destroy-Frame c (heap_data p) m capacity h sane shape in
      subst (λ (r : SmallVector A × Memory A). Inlined (heap_data p) h (take n values) r) (sym eq)
        (Filled-Inlined (heap_data p) n 0 c.inline_capacity values h h0 _ _ minimal refl room sane0
          top0 blocks0
          (assign_values-Filled n 0 c.inline_capacity values (replicate c.inline_capacity c.blank)
            h0 refl (length-replicate c.inline_capacity c.blank) room enough))

  pub replace-vector :
      (st : Storage A) (m k p n capacity : ℕ) (h h0 : Memory A)
      → Shape c st k h0
      → replace_with_heap c p n capacity (vector st m k) h
        ≡ (vector (heap_data p) n capacity, destroy c (vector st m k) h)
  unfolding replace_with_heap
  replace-vector st m k p n capacity h h0 shape =
      ap (λ (h2 : Memory A). (vector (heap_data p) n capacity, h2))
        (replace-destroy c st m k p n capacity h h0 shape)

  -- With max_size not below the inline capacity, a move assignment between two vectors that hold
  -- lists and own no block together gives the target the list and the block of the source, and
  -- leaves the source empty without a block. The old block of the target is deallocated, no other
  -- block is allocated or changed, and nothing undefined happens.
  pub move_assign_lem :
      c.inline_capacity ≤ c.max_size
      → (st so : Storage A) (m k n capacity : ℕ) (h : Memory A) (xs0 xs : List A) → Sane h
      → Holds c (vector st m k) h xs0
      → Holds c (vector so n capacity) h xs
      → ((q : ℕ) → owns so q ≡ true → owns st q ≡ false)
      → let r = move_assign c (vector st m k) (vector so n capacity) h in
        Sane r.2
        × Holds c r.0 r.2 xs
        × Holds c r.1 r.2 []
        × ((q : ℕ) → r.2.blocks q ≡ (if owns st q then none else h.blocks q))
        × ((q : ℕ) → owns r.0.storage q ≡ owns so q)
        × ((q : ℕ) → owns r.1.storage q ≡ false)
  unfolding move_assign
  move_assign_lem minimal st (inline_storage cells) m k n capacity h xs0 xs sane holds0 holds
        apart =
      let (e, l) = holds.shaped in
      let (sane1, holds1, _, blocks1, free1) =
        assign_inline-Inlined st n m k cells h minimal sane holds0.shaped
          (omega (arith, holds.fits)) (omega (arith, holds.fits)) in
      rw
        (
          ltb-false c.inline_capacity capacity (omega arith),
          data_of-cells_of c (inline_storage cells) n capacity h holds.shaped,
        )
        (
          sane1,
          subst
              (λ (ys : List A).
                Holds c (assign_inline c cells n (vector st m k) h).0
                  (assign_inline c cells n (vector st m k) h).1 ys)
              holds.contents holds1,
          record { fits = omega arith; bounded = holds.bounded; shaped = (e, l); contents = refl },
          blocks1,
          free1,
          λ q. refl,
        )
  move_assign_lem minimal st (heap_data p) m k n capacity h xs0 xs sane holds0 holds apart =
      let (big, _, _, (cells, there, _)) = holds.shaped in
      let (sane1, top1, blocks1) = destroy-Frame c st m k h sane holds0.shaped in
      let h1 = destroy c (vector st m k) h in
      let same : (q : ℕ) → (p == q) ≡ true → h1.blocks q ≡ h.blocks q =
        λ q o. blocks1 q ∙ rw (apart q o) refl in
      rw
        (
          lt→ltb c.inline_capacity capacity big,
          replace-vector st m k p n capacity h h holds0.shaped,
        )
        (
          sane1,
          record {
            fits = holds.fits;
            bounded = holds.bounded;
            shaped = Shape-same c (heap_data p) capacity h h1 holds.shaped (omega arith) same;
            contents =
                ap (take n) (block_at-some p cells h1 (same p (==_refl p) ∙ there))
                ∙ ap (take n) (sym (block_at-some p cells h there))
                ∙ holds.contents;
          },
          empty-Holds c h1 minimal,
          blocks1,
          λ q. refl,
          λ q. refl,
        )
