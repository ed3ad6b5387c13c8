-- ===== src/SmallVector/Construct.antt =====
-- What the construction of one element does, and a loop of them into a fresh block.
use infini_rt.Base.{
  ℕ, zero, suc, ◌≤◌, ◌<◌, ◌≡◌, ◌++◌, refl, ap, ltb, ltb-false, sym, ◌∙◌, false, some, List, [], ◌∷◌,
  ◌==◌, length, take, set, get_or, arith, length-set, lt→ltb,
}
use infini_rt.SmallVector.Memory.{Config, Memory, block_at, construct_at, copy_into, require, put}
use infini_rt.SmallVector.Storage.{SmallVector, Storage, inline_storage, heap_data, construct}
use infini_rt.SmallVector.Valid.{owns, Sane, Shape, cells_of}
use infini_rt.SmallVector.Lists.{take-set_end, take-suc}

-- A block after the first `n` elements of a list were constructed in it.
pub record Copied {A : Type 0} (p n : ℕ) (source : List A) (size : ℕ) (h h' : Memory A)
    : Type 0 where
  pub cells : List A
  pub here : h'.blocks p ≡ some cells
  pub sized : length cells ≡ size
  pub copied : take n cells ≡ take n source
  pub elsewhere : (q : ℕ) → (p == q) ≡ false → h'.blocks q ≡ h.blocks q
  pub same_top : h'.top ≡ h.top
  pub same_fault : h'.fault ≡ h.fault

pub block_at-some :
    {A : Type 0} (p : ℕ) (cells : List A) (h : Memory A)
    → h.blocks p ≡ some cells
    → block_at p h ≡ cells
block_at-some p cells h e = rw (e, block_at) refl

pub construct_at-put :
    {A : Type 0} (p i : ℕ) (x : A) (cells : List A) (h : Memory A)
    → h.blocks p ≡ some cells
    → i < length cells
    → construct_at p i x h ≡ put p (some (set cells i x)) h
unfolding construct_at
construct_at-put p i x cells h e b = rw (e, construct_at) (rw (lt→ltb i (length cells) b) refl)

Copied-step :
    {A : Type 0} (d : A) (p n size : ℕ) (source : List A) (h h1 : Memory A)
    → Copied p n source size h h1
    → n < size
    → (b : n < length source)
    → Copied p
        (suc n)
        source
        size
        h
        (construct_at p n (get_or source n d) (require (ltb n (length source)) h1))
Copied-step d p n size source h h1 r a b =
    let x = get_or source n d in
    let fits : n < length r.cells = omega (arith, r.sized) in
    rw (construct_at-put p n x r.cells (require (ltb n (length source)) h1) r.here fits) (record {
      cells = set r.cells n x;
      here = ground arith;
      sized = length-set r.cells n x ∙ r.sized;
      copied =
          take-set_end n r.cells x fits
          ∙ ap (λ (zs : List _). zs ++ (x ∷ [])) r.copied
          ∙ sym (take-suc n source d b);
      elsewhere = λ q ne. rw ne (r.elsewhere q ne);
      same_top = r.same_top;
      same_fault = ground (arith, r.same_fault);
    })

pub copy_into_lem :
    {A : Type 0} (d : A) (p n size : ℕ) (source cells : List A) (h : Memory A)
    → h.blocks p ≡ some cells
    → length cells ≡ size
    → n ≤ size
    → n ≤ length source
    → Copied p n source size h (copy_into d p n source h)
unfolding copy_into
copy_into_lem d p zero size source cells h e l a b = record {
  cells = cells;
  here = e;
  sized = l;
  copied = refl;
  elsewhere = λ q ne. refl;
  same_top = refl;
  same_fault = refl;
}
copy_into_lem d p (suc n) size source cells h e l a b =
    Copied-step d p n size source h (copy_into d p n source h)
      (copy_into_lem d p n size source cells h e l (omega arith) (omega arith)) (omega arith) b

-- One element is written in a storage that has room for it.
pub record Written {A : Type 0} (c : Config A) (st : Storage A) (n capacity : ℕ) (x : A)
    (h : Memory A) (v1 : SmallVector A) (h1 : Memory A) : Type 0 where
  pub same_size : v1.size ≡ n
  pub same_capacity : v1.capacity ≡ capacity
  pub shaped : Shape c v1.storage capacity h1
  pub written : take (suc n) (cells_of v1.storage h1) ≡ take n (cells_of st h) ++ (x ∷ [])
  pub same_owner : (q : ℕ) → owns v1.storage q ≡ owns st q
  pub others : (q : ℕ) → owns st q ≡ false → h1.blocks q ≡ h.blocks q
  pub sane : Sane h1

abbrev pub vector : {A : Type 0} → Storage A → ℕ → ℕ → SmallVector A
vector st n capacity = record { storage = st; size = n; capacity = capacity }

module _ {A : Type 0} (c : Config A) where
  pub construct-Written :
      (st : Storage A) (n capacity : ℕ) (h : Memory A) (x : A)
      → Sane h
      → Shape c st capacity h
      → n < capacity
      → let r = construct c (vector st n capacity) n x h in Written c st n capacity x h r.0 r.1
  unfolding construct
  construct-Written (inline_storage cells) n capacity h x sane (e, l) room =
      let fits : n < length cells = omega arith in
      rw (ltb-false c.inline_capacity capacity (omega arith), lt→ltb n (length cells) fits)
        (record {
          same_size = refl;
          same_capacity = refl;
          shaped = (e, length-set cells n x ∙ l);
          written = take-set_end n cells x fits;
          same_owner = λ q. refl;
          others = λ q ne. refl;
          sane = record { defined = ground (arith, sane.defined); unused = sane.unused };
        })
  construct-Written (heap_data p) n capacity h x sane (big, pos, old, (cells, e, l)) room =
      let fits : n < length cells = omega arith in
      rw (lt→ltb c.inline_capacity capacity big, construct_at-put p n x cells h e fits)
        (record {
          same_size = refl;
          same_capacity = refl;
          shaped = (big, pos, old, (set cells n x, ground arith, length-set cells n x ∙ l));
          written =
              ap (take (suc n))
                (block_at-some p (set cells n x) (put p (some (set cells n x)) h) (ground arith))
              ∙ take-set_end n cells x fits
              ∙ ap (λ (zs : List A). take n zs ++ (x ∷ [])) (sym (block_at-some p cells h e));
          same_owner = λ q. refl;
          others = λ q ne. rw ne refl;
          sane = record {
            defined = sane.defined;
            unused = λ q above. ground (arith, sane.unused q above);
          };
        })
