-- ===== src/SmallVector/Initialized.antt =====
-- What the constructors from a count or a range give, in src/common/small_vector.h.
use infini_rt.Base.{
  ℕ, zero, suc, ◌≤◌, ◌<◌, ◌≡◌, refl, ap, sym, ◌∙◌, Bool, true, some, List, [], ◌∷◌, ◌++◌, length,
  take, replicate, set, arith, leb, le→leb, leb→le, Bool-cases, inl, inr, length-replicate,
  length-set, map, length-map, append-nil, append_assoc, ◌==◌, false, ◌+◌,
}
use infini_rt.SmallVector.Memory.{Config, Memory, put, allocate, construct_at, require}
use infini_rt.SmallVector.Storage.{inline_storage, empty}
use infini_rt.SmallVector.Initialize.{
  fill_n, fill_into, copy_to_inline, take_over, initialize_fill, initialize_forward_range,
  uninitialized_copy,
}
use infini_rt.SmallVector.Valid.{Sane}
use infini_rt.SmallVector.Lists.{take-set_end}
use infini_rt.SmallVector.Construct.{vector, construct_at-put, Copied}
use infini_rt.SmallVector.Reallocation.{
  Copied-Moved, allocate-refused, allocate-granted, with_fresh,
}
use infini_rt.SmallVector.Extension.{Changes}
use infini_rt.SmallVector.Copying.{empty-Holds}
use infini_rt.SmallVector.Assigned.{replace-vector}

module _ {A : Type 0} where
  take-length : (xs : List A) → take (length xs) xs ≡ xs
  take-length [] = refl
  take-length (x ∷ xs) = ap (λ (t : List A). x ∷ t) (take-length xs)

  copy_to_inline_lem :
      {B : Type 0} (cast : B → A) (xs : List B) (cells : List A)
      → length xs ≤ length cells
      → (take (length xs) (copy_to_inline cast xs cells) ≡ map cast xs)
        × (length (copy_to_inline cast xs cells) ≡ length cells)
  copy_to_inline_lem cast [] cells h = (refl, refl)
  copy_to_inline_lem cast (x ∷ xs) [] h = absurd (omega arith)
  copy_to_inline_lem cast (x ∷ xs) (y ∷ cells) h =
      let (a, b) = copy_to_inline_lem cast xs cells (omega arith) in
      (ap (λ (t : List A). cast x ∷ t) a, omega (arith, b))

  -- A block from the elements before `index` on, after the elements of a range were constructed.
  record FilledFrom (p index n size : ℕ) (ys : List A) (h h1 : Memory A) : Type 0 where
    pub cells : List A
    pub here : h1.blocks p ≡ some cells
    pub sized : length cells ≡ size
    pub filled : take (index + n) cells ≡ ys
    pub elsewhere : (q : ℕ) → (p == q) ≡ false → h1.blocks q ≡ h.blocks q
    pub same_top : h1.top ≡ h.top
    pub same_fault : h1.fault ≡ h.fault

  uninitialized_copy_lem :
      {B : Type 0} (cast : B → A) (p index size : ℕ) (xs : List B) (cells : List A) (h : Memory A)
      → h.blocks p ≡ some cells
      → length cells ≡ size
      → index + length xs ≤ size
      → FilledFrom p index
          (length xs)
          size
          (take index cells ++ map cast xs)
          h
          (uninitialized_copy cast p index xs h)
  unfolding uninitialized_copy
  uninitialized_copy_lem cast p index size [] cells h e l a = record {
    cells = cells;
    here = e;
    sized = l;
    filled = ap (λ (k : ℕ). take k cells) (omega arith) ∙ sym (append-nil (take index cells));
    elsewhere = λ q ne. refl;
    same_top = refl;
    same_fault = refl;
  }
  uninitialized_copy_lem cast p index size (x ∷ xs) cells h e l a =
      let y = cast x in
      let fits : index < length cells = omega arith in
      let h1 = put p (some (set cells index y)) h in
      let r =
        uninitialized_copy_lem cast p (suc index) size xs (set cells index y) h1 (ground arith)
          (length-set cells index y ∙ l) (omega arith) in
      rw (construct_at-put p index y cells h e fits) (record {
        cells = r.cells;
        here = r.here;
        sized = r.sized;
        filled =
            ap (λ (k : ℕ). take k r.cells) (omega arith)
            ∙ r.filled
            ∙ ap (λ (zs : List A). zs ++ map cast xs) (take-set_end index cells y fits)
            ∙ append_assoc (take index cells) (y ∷ []) (map cast xs);
        elsewhere = λ q ne. r.elsewhere q ne ∙ rw ne refl;
        same_top = r.same_top;
        same_fault = r.same_fault;
      })

  FilledFrom-Copied :
      {B : Type 0} (cast : B → A) (p : ℕ) (xs : List B) (h h1 : Memory A)
      → FilledFrom p 0 (length xs) (length xs) (map cast xs) h h1
      → Copied p (length xs) (map cast xs) (length xs) h h1
  FilledFrom-Copied cast p xs h h1 r = record {
    cells = r.cells;
    here = r.here;
    sized = r.sized;
    copied =
        ap (λ (k : ℕ). take k r.cells) (omega arith)
        ∙ r.filled
        ∙ sym (take-length (map cast xs))
        ∙ ap (λ (k : ℕ). take k (map cast xs)) (length-map xs cast);
    elsewhere = r.elsewhere;
    same_top = r.same_top;
    same_fault = r.same_fault;
  }

  fill_n_lem :
      (n : ℕ) (x : A) (cells : List A)
      → n ≤ length cells
      → (take n (fill_n n x cells) ≡ replicate n x) × (length (fill_n n x cells) ≡ length cells)
  fill_n_lem zero x cells h = (refl, refl)
  fill_n_lem (suc n) x [] h = absurd (omega arith)
  fill_n_lem (suc n) x (y ∷ cells) h =
      let (a, b) = fill_n_lem n x cells (omega arith) in
      (ap (λ (t : List A). x ∷ t) a, omega (arith, b))

  take-replicate : (n m : ℕ) (x : A) → n ≤ m → take n (replicate m x) ≡ replicate n x
  take-replicate zero m x h = refl
  take-replicate (suc n) zero x h = absurd (omega arith)
  take-replicate (suc n) (suc m) x h =
      ap (λ (t : List A). x ∷ t) (take-replicate n m x (omega arith))

  replicate-end : (n : ℕ) (x : A) → replicate n x ++ (x ∷ []) ≡ replicate (suc n) x
  replicate-end zero x = refl
  replicate-end (suc n) x = ap (λ (t : List A). x ∷ t) (replicate-end n x)

  fill-step :
      (p n size : ℕ) (x : A) (h h1 : Memory A)
      → Copied p n (replicate size x) size h h1
      → n < size
      → Copied p (suc n) (replicate size x) size h (construct_at p n x h1)
  fill-step p n size x h h1 r a =
      let fits : n < length r.cells = omega (arith, r.sized) in
      rw (construct_at-put p n x r.cells h1 r.here fits) (record {
        cells = set r.cells n x;
        here = ground arith;
        sized = length-set r.cells n x ∙ r.sized;
        copied =
            take-set_end n r.cells x fits
            ∙ ap (λ (zs : List A). zs ++ (x ∷ []))
                (r.copied ∙ take-replicate n size x (omega arith))
            ∙ replicate-end n x
            ∙ sym (take-replicate (suc n) size x a);
        elsewhere = λ q ne. rw ne (r.elsewhere q ne);
        same_top = r.same_top;
        same_fault = r.same_fault;
      })

  fill_into_lem :
      (p n size : ℕ) (x : A) (cells : List A) (h : Memory A)
      → h.blocks p ≡ some cells
      → length cells ≡ size
      → n ≤ size
      → Copied p n (replicate size x) size h (fill_into p n x h)
  unfolding fill_into
  fill_into_lem p zero size x cells h e l a = record {
    cells = cells;
    here = e;
    sized = l;
    copied = refl;
    elsewhere = λ q ne. refl;
    same_top = refl;
    same_fault = refl;
  }
  fill_into_lem p (suc n) size x cells h e l a =
      fill-step p n size x h (fill_into p n x h)
        (fill_into_lem p n size x cells h e l (omega arith)) a

module _ {A : Type 0} (c : Config A) (grants : ℕ → Memory A → Bool)
    (within : (n : ℕ) (h : Memory A) → grants n h ≡ true → n ≤ c.max_size)
    (minimal : c.inline_capacity ≤ c.max_size) where
  -- A block for more than the inline elements, which `write` fills with a list.
  take_over-Changes :
      (n : ℕ) (xs : List A) (write : ℕ → Memory A → Memory A) (h : Memory A)
      → Sane h
      → c.inline_capacity < n
      → Copied (suc h.top) n xs n (with_fresh c n h) (write (suc h.top) (with_fresh c n h))
      → take n xs ≡ xs
      → Changes c (empty c) h xs (take_over c n write (empty c) (allocate c grants n h))
  unfolding take_over
  take_over-Changes n xs write h sane big r whole = elim (Bool-cases (grants n h)) [
    | inr refused ↦ rw (allocate-refused c grants n h refused) (inl refl)
    | inl granted ↦
        let fresh = inline_storage (replicate c.inline_capacity c.blank) in
        let h2 = write (suc h.top) (with_fresh c n h) in
        let shape0 = (empty-Holds c h minimal).shaped in
        let moved =
          Copied-Moved c fresh n 0 c.inline_capacity n xs h (with_fresh c n h) h2 sane shape0 r
            (λ q ne. r.elsewhere q ne ∙ rw ne refl) r.same_top (r.same_fault ∙ sane.defined) in
        rw
          (
            allocate-granted c grants n h granted,
            replace-vector c fresh 0 c.inline_capacity (suc h.top) n n h2 h shape0,
          )
          (inr (
            refl,
            moved.sane,
            record {
              fits = omega arith;
              bounded = within n h granted;
              shaped = moved.shaped big;
              contents = moved.contents ∙ whole;
            },
            moved.frame,
          ))
  ]

  -- The inline cells of a fresh vector, with the list in front.
  inline-Changes :
      (n : ℕ) (xs cells : List A) (b : Bool) (h : Memory A)
      → Sane h
      → b ≡ true
      → n ≤ c.inline_capacity
      → length cells ≡ c.inline_capacity
      → take n cells ≡ xs
      → Changes c
          (empty c)
          h
          xs
          (true, vector (inline_storage cells) n c.inline_capacity, require b h)
  inline-Changes n xs cells b h sane e room l contents = inr (
    refl,
    record { defined = ground (arith, sane.defined); unused = sane.unused },
    record { fits = room; bounded = minimal; shaped = (refl, l); contents = contents },
    λ q ne. refl,
  )

  pub initialize_fill-Changes :
      (count : ℕ) (x : A) (h : Memory A)
      → Sane h
      → Changes c (empty c) h (replicate count x) (initialize_fill c grants count x (empty c) h)
  unfolding initialize_fill
  initialize_fill-Changes count x h sane =
      let fresh = replicate c.inline_capacity c.blank in
      let l = length-replicate c.inline_capacity c.blank in
      elim (Bool-cases (leb count c.inline_capacity)) [
        | inl small ↦
            let room = leb→le count c.inline_capacity small in
            let (a, b) = fill_n_lem count x fresh (omega (arith, l)) in
            rw small (
              inline-Changes count (replicate count x) (fill_n count x fresh)
                (leb count (length fresh)) h sane (le→leb count (length fresh) (omega (arith, l)))
                room (b ∙ l) a)
        | inr large ↦ rw large (
            take_over-Changes count (replicate count x) (λ p h1. fill_into p count x h1) h sane
              (ground (arith, large))
              (fill_into_lem (suc h.top) count count x (replicate count c.blank)
                (with_fresh c count h) (ground arith) (length-replicate count c.blank)
                (omega arith))
              (take-replicate count count x (omega arith)))
      ]

  pub initialize_forward_range-Changes :
      {B : Type 0} (cast : B → A) (range : List B) (h : Memory A)
      → Sane h
      → Changes c
          (empty c)
          h
          (map cast range)
          (initialize_forward_range c grants cast range (empty c) h)
  unfolding initialize_forward_range
  initialize_forward_range-Changes cast [] h sane =
      inr (refl, sane, empty-Holds c h minimal, λ q ne. refl)
  initialize_forward_range-Changes cast (x ∷ xs) h sane =
      let fresh = replicate c.inline_capacity c.blank in
      let l = length-replicate c.inline_capacity c.blank in
      let range = x ∷ xs in
      let count = length range in
      elim (Bool-cases (leb count c.inline_capacity)) [
        | inl small ↦
            let room = leb→le count c.inline_capacity small in
            let (a, b) = copy_to_inline_lem cast range fresh (omega (arith, l)) in
            rw small (
              inline-Changes count (map cast range) (copy_to_inline cast range fresh)
                (leb count (length fresh)) h sane (le→leb count (length fresh) (omega (arith, l)))
                room (b ∙ l) a)
        | inr large ↦
            let filled =
              uninitialized_copy_lem cast (suc h.top) 0 count range (replicate count c.blank)
                (with_fresh c count h) (ground arith) (length-replicate count c.blank)
                (omega arith) in
            rw large (
              take_over-Changes count (map cast range)
                (λ p h1. uninitialized_copy cast p 0 range h1) h sane (ground (arith, large))
                (FilledFrom-Copied cast (suc h.top) range (with_fresh c count h) _ filled)
                (ap (λ (k : ℕ). take k (map cast range)) (sym (length-map range cast))
                  ∙ take-length (map cast range)))
      ]
