-- ===== src/SmallVector/Copying.antt =====
-- The loops of src/common/small_vector.h that construct elements from another array.
use infini_rt.Base.{
  ℕ, zero, suc, ◌+◌, ◌≤◌, ◌<◌, ◌≡◌, refl, sym, subst, Bool, true, List, [], length, take, get_or,
  arith, u64_mod, inc64, ltb, lt→ltb, length-replicate,
}
use infini_rt.SmallVector.Memory.{Config, Memory, require}
use infini_rt.SmallVector.Storage.{
  SmallVector, Storage, inline_storage, heap_data, construct, empty,
}
use infini_rt.SmallVector.Modify.{grow_size}
use infini_rt.SmallVector.Assign.{construct_range}
use infini_rt.SmallVector.Valid.{Sane, Holds}
use infini_rt.SmallVector.Lists.{take-suc}
use infini_rt.SmallVector.Construct.{vector}
use infini_rt.SmallVector.Extension.{Extended, construct-Extended, Extended-trans}

module _ {A : Type 0} (c : Config A) where
  pub empty-Holds : (h : Memory A) → c.inline_capacity ≤ c.max_size → Holds c (empty c) h []
  empty-Holds h small = record {
    fits = omega arith;
    bounded = small;
    shaped = (refl, length-replicate c.inline_capacity c.blank);
    contents = refl;
  }

  require-true : (b : Bool) (h : Memory A) → b ≡ true → Sane h → Sane (require b h)
  require-true b h e sane = record { defined = ground (arith, sane.defined); unused = sane.unused }

  Holds-require :
      (b : Bool) (st : Storage A) (n capacity : ℕ) (h : Memory A) (xs : List A)
      → Holds c (vector st n capacity) h xs
      → Holds c (vector st n capacity) (require b h) xs
  Holds-require b (inline_storage cells) n capacity h xs holds = record {
    fits = holds.fits;
    bounded = holds.bounded;
    shaped = holds.shaped;
    contents = holds.contents;
  }
  Holds-require b (heap_data p) n capacity h xs holds = record {
    fits = holds.fits;
    bounded = holds.bounded;
    shaped = holds.shaped;
    contents = holds.contents;
  }

  Extended-require :
      (b : Bool) (v : SmallVector A) (h : Memory A) (n : ℕ) (ys : List A) (v1 : SmallVector A)
      (h1 : Memory A)
      → Extended c v (require b h) n ys v1 h1
      → Extended c v h n ys v1 h1
  Extended-require b v h n ys v1 h1 r = record {
    same_capacity = r.same_capacity;
    counted = r.counted;
    same_owner = r.same_owner;
    others = r.others;
    sane = r.sane;
    holds = r.holds;
  }

  pub construct_range-Extended :
      (n : ℕ) (source : List A) (v : SmallVector A) (h : Memory A)
      → c.max_size < u64_mod
      → Sane h
      → Holds c v h (take v.size source)
      → v.size + n ≤ v.capacity
      → v.size + n ≤ length source
      → let r = construct_range c n source v h in
        Extended c v h n (take (v.size + n) source) r.0 r.1
  unfolding construct_range
  construct_range-Extended zero source v h small sane holds room enough = record {
    same_capacity = refl;
    counted = omega arith;
    same_owner = λ q. refl;
    others = λ q ne. refl;
    sane = sane;
    holds = subst (λ (k : ℕ). Holds c v h (take k source)) (omega arith) holds;
  }
  construct_range-Extended (suc n) source v h small sane holds room enough =
      let x = get_or source v.size c.blank in
      let b = ltb v.size (length source) in
      let h0 = require b h in
      let (v1, h1) = construct c v v.size x h0 in
      let r =
        construct-Extended c v h0 (take v.size source) x small
          (require-true b h (lt→ltb v.size (length source) (omega arith)) sane)
          (Holds-require b v.storage v.size v.capacity h (take v.size source) holds)
          (omega arith) in
      let longer =
        subst (λ (ys : List A). Extended c v h0 1 ys (grow_size v1) h1)
          (sym (take-suc v.size source c.blank (omega arith))) r in
      let counted : inc64 v1.size ≡ suc v.size = omega (arith, r.counted) in
      let holds1 =
        subst (λ (k : ℕ). Holds c (grow_size v1) h1 (take k source)) (sym counted) longer.holds in
      let next =
        construct_range-Extended n source (grow_size v1) h1 small r.sane holds1
          (omega (arith, counted, r.same_capacity)) (omega (arith, counted)) in
      subst
        (λ (k : ℕ).
          Extended c v h (suc n) (take k source) (construct_range c n source (grow_size v1) h1).0
            (construct_range c n source (grow_size v1) h1).1)
        (omega (arith, counted))
        (Extended-trans c v (grow_size v1) (construct_range c n source (grow_size v1) h1).0 h h1
          (construct_range c n source (grow_size v1) h1).1 1 n (suc n) (take (suc v.size) source)
          (take ((grow_size v1).size + n) source) (omega arith)
          (Extended-require b v h 1 (take (suc v.size) source) (grow_size v1) h1 longer) next)
