-- ===== src/SmallVector/Growth.antt =====
-- `reserve`, `resize` and `push_back` of src/common/small_vector.h, on every branch.
use infini_rt.Base.{
  ℕ, zero, suc, ◌+◌, ◌-◌, ◌≤◌, ◌<◌, ◌≡◌, ◌++◌, refl, append-nil, append_assoc, take-take, ap, sym,
  subst, inl, inr, ◌∙◌, Bool, true, List, [], ◌∷◌, ◌==◌, if◌then◌else◌, take, replicate, arith,
  u64_mod, Bool-cases, ltb, leb, leb→le,
}
use infini_rt.SmallVector.Memory.{Config, Memory}
use infini_rt.SmallVector.Storage.{
  SmallVector, Storage, inline_storage, heap_data, construct, grown, reallocate,
}
use infini_rt.SmallVector.Modify.{
  grow_size, append_value, push_back, grow_for_append, reserve, resize, fill_up, construct_values,
}
use infini_rt.SmallVector.Valid.{Sane, Holds, Shape, cells_of}
use infini_rt.SmallVector.Reallocation.{Kept, reallocate-Kept}
use infini_rt.SmallVector.Extension.{
  grown_lem, Changes, Extended, construct-Extended, Extended-trans, Kept-Changes, Kept-cases,
}

module _ {A : Type 0} (c : Config A) where
  append-Changes :
      (v : SmallVector A) (h : Memory A) (m : ℕ) (xs : List A) (x : A)
      (r : Bool × SmallVector A × Memory A)
      → c.max_size < u64_mod
      → v.size < m
      → Kept c v h m xs r
      → Changes c v h (xs ++ (x ∷ [])) (append_value c x r)
  append-Changes v h m xs x r small room kept = elim (Kept-cases c v h m xs r kept) [
    | inl thrown ↦ inl (ap (append_value c x) thrown)
    | inr (e, sane, holds, frame, em, en) ↦
        subst (Changes c v h (xs ++ (x ∷ []))) (sym (ap (append_value c x) e)) (
          Kept-Changes c v r.1 _ h r.2 _ 1 (xs ++ (x ∷ [])) frame
            (construct-Extended c r.1 r.2 xs x small sane holds (omega arith)))
  ]

  Shape-minimal :
      (st : Storage A) (capacity : ℕ) (h : Memory A)
      → Shape c st capacity h
      → c.inline_capacity ≤ capacity
  Shape-minimal (inline_storage cells) capacity h (e, _) = omega arith
  Shape-minimal (heap_data p) capacity h (big, _, _, _) = omega arith

  construct_values-Extended :
      (n : ℕ) (v : SmallVector A) (h : Memory A) (xs : List A)
      → c.max_size < u64_mod
      → Sane h
      → Holds c v h xs
      → v.size + n ≤ v.capacity
      → let r = construct_values c n v h in
        Extended c v h n (xs ++ replicate n c.value_initialized) r.0 r.1
  unfolding construct_values
  construct_values-Extended zero v h xs small sane holds room =
      subst (λ ys. Extended c v h 0 ys v h) (sym (append-nil xs))
        (record {
          same_capacity = refl;
          counted = omega arith;
          same_owner = λ q. refl;
          others = λ q ne. refl;
          sane = sane;
          holds = holds;
        })
  construct_values-Extended (suc n) v h xs small sane holds room =
      let z = c.value_initialized in
      let (v1, h1) = construct c v v.size z h in
      let r = construct-Extended c v h xs z small sane holds (omega arith) in
      let next =
        construct_values-Extended n (grow_size v1) h1 (xs ++ (z ∷ [])) small r.sane r.holds
          (omega (arith, r.counted, r.same_capacity)) in
      subst
        (λ ys.
          Extended c v h (suc n) ys (construct_values c n (grow_size v1) h1).0
            (construct_values c n (grow_size v1) h1).1)
        (append_assoc xs (z ∷ []) (replicate n z))
        (Extended-trans c v (grow_size v1) (construct_values c n (grow_size v1) h1).0 h h1
          (construct_values c n (grow_size v1) h1).1 1 n (suc n) (xs ++ (z ∷ []))
          ((xs ++ (z ∷ [])) ++ replicate n z) (omega arith) r next)

  reserved :
      (v : SmallVector A) (h : Memory A) (requested : ℕ) (xs : List A)
      (r : Bool × SmallVector A × Memory A)
      → Kept c v h requested xs r
      → Changes c v h xs r × (r.0 ≡ true → requested ≤ r.1.capacity)
  reserved v h requested xs (done, v1, h1) (inl (e, ev, eh)) =
      (inl (rw (e, ev, eh) refl), λ d. absurd (ground arith))
  reserved v h requested xs (done, v1, h1) (inr (e, a, b, f, k, n)) =
      (inr (e, a, b, f), λ d. omega arith)

  fill_up-Changes :
      (v : SmallVector A) (h : Memory A) (count m : ℕ) (xs : List A)
      (r : Bool × SmallVector A × Memory A)
      → c.max_size < u64_mod
      → v.size ≤ count
      → count ≤ m
      → Kept c v h m xs r
      → Changes c v h (xs ++ replicate (count - v.size) c.value_initialized) (fill_up c count r)
  fill_up-Changes v h count m xs r small longer room kept = elim (Kept-cases c v h m xs r kept) [
    | inl thrown ↦ inl (ap (fill_up c count) thrown)
    | inr (e, sane, holds, frame, em, en) ↦
        let ys = xs ++ replicate (count - v.size) c.value_initialized in
        subst (Changes c v h ys) (sym (ap (fill_up c count) e)) (
          subst
            (λ k.
              Changes c v h ys
                (let (v2, h2) = construct_values c (count - k) r.1 r.2 in (true, v2, h2)))
            (sym en)
            (Kept-Changes c v r.1 _ h r.2 _ (count - v.size) ys frame (
              construct_values-Extended (count - v.size) r.1 r.2 xs small sane holds
                (omega arith))))
  ]

  module _ (grants : ℕ → Memory A → Bool)
      (within : (n : ℕ) (h : Memory A) → grants n h ≡ true → n ≤ c.max_size)
      (small : c.max_size < u64_mod) (v : SmallVector A) (h : Memory A) (xs : List A)
      (sane : Sane h) (holds : Holds c v h xs) where
    -- If the allocator grants at most max_size elements, which is below 2 ^ 64, and a vector of
    -- fewer elements than that holds a list, push_back either throws and leaves the vector and
    -- the memory as they were, or the vector holds the list with the new element at its end,
    -- nothing undefined has happened, its old block is deallocated if it has moved, and no other
    -- block has changed.
    pub push_back-Changes :
        (x : A) → v.size < c.max_size → Changes c v h (xs ++ (x ∷ [])) (push_back c grants x v h)
    unfolding push_back grow_for_append
    push_back-Changes x below = elim (Bool-cases (v.size == v.capacity)) [
      | inl full ↦
          let (more, _, _) = grown_lem c v.capacity (ground arith) small in
          rw full (
            append-Changes v h (grown c v.capacity) xs x
              (reallocate c grants (grown c v.capacity) v h) small (omega (arith, holds.fits))
              (reallocate-Kept c grants within v.storage v.size v.capacity (grown c v.capacity) h xs
                sane holds (omega (arith, holds.fits))
                (omega (arith, more, Shape-minimal v.storage v.capacity h holds.shaped))))
      | inr room ↦ rw room (
          Kept-Changes c v v _ h h _ 1 (xs ++ (x ∷ [])) (λ q ne. rw ne refl)
            (construct-Extended c v h xs x small sane holds (ground (arith, holds.fits))))
    ]

    -- If the allocator grants at most max_size elements, which is below 2 ^ 64, and a vector
    -- holds a list, reserve either throws and leaves the vector and the memory as they were, or
    -- the vector holds the same list and has at least the requested capacity.
    pub reserve-Changes :
        (requested : ℕ)
        → let r = reserve c grants requested v h in
          Changes c v h xs r × (r.0 ≡ true → requested ≤ r.1.capacity)
    unfolding reserve
    reserve-Changes requested = elim (Bool-cases (leb requested v.capacity)) [
      | inl fits ↦
          rw fits
            ((inr (refl, sane, holds, λ q ne. rw ne refl)), λ e. leb→le requested v.capacity fits)
      | inr larger ↦
          let r = reallocate c grants requested v h in
          rw larger (
            reserved v h requested xs r (
              reallocate-Kept c grants within v.storage v.size v.capacity requested h xs sane holds
                (ground (arith, holds.fits))
                (ground (arith, Shape-minimal v.storage v.capacity h holds.shaped))))
    ]

    -- If the allocator grants at most max_size elements, which is below 2 ^ 64, and a vector
    -- holds a list, resize either throws and leaves the vector and the memory as they were, or
    -- the vector holds the first elements of the list, or the list and value-initialized
    -- elements, up to the new size, with no other block changed and nothing undefined.
    pub resize-Changes :
        (count : ℕ)
        → Changes c v h
            (if leb count v.size
              then take count xs
              else xs ++ replicate (count - v.size) c.value_initialized)
            (resize c grants count v h)
    unfolding resize
    resize-Changes count = elim (Bool-cases (leb count v.size)) [
      | inl shorter ↦
          let less = leb→le count v.size shorter in
          rw shorter (
            inr (
              refl,
              sane,
              record {
                fits = omega (arith, holds.fits);
                bounded = holds.bounded;
                shaped = holds.shaped;
                contents =
                    sym (take-take count v.size (cells_of v.storage h) less)
                    ∙ ap (take count) holds.contents;
              },
              λ q ne. rw ne refl,
            ))
      | inr longer ↦ elim (Bool-cases (ltb v.capacity count)) [
        | inl over ↦
            rw (longer, over)
              (fill_up-Changes v h count count xs (reallocate c grants count v h) small
                (ground arith) (omega arith)
                (reallocate-Kept c grants within v.storage v.size v.capacity count h xs sane holds
                  (ground arith)
                  (ground (arith, Shape-minimal v.storage v.capacity h holds.shaped))))
        | inr room ↦
            rw (longer, room)
              (fill_up-Changes v h count v.capacity xs (true, v, h) small (ground arith)
                (ground arith) (inr (refl, sane, holds, λ q ne. rw ne refl, refl, refl)))
      ]
    ]
