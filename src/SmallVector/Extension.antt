-- ===== src/SmallVector/Extension.antt =====
-- Elements at the end of a vector (src/common/small_vector.h), after a change of its storage.
use infini_rt.Base.{
  ℕ, suc, ◌+◌, ◌/◌, ◌≤◌, ◌<◌, ◌≡◌, ◌⊎◌, ◌++◌, refl, ap, sym, subst, inl, inr, ◌∙◌, Bool, true,
  false, List, [], ◌∷◌, take, arith, u64_mod, inc64,
}
use infini_rt.SmallVector.Memory.{Config, Memory}
use infini_rt.SmallVector.Storage.{SmallVector, construct, grown}
use infini_rt.SmallVector.Modify.{grow_size}
use infini_rt.SmallVector.Valid.{owns, Sane, Holds, Frame, Shape, cells_of}
use infini_rt.SmallVector.Construct.{construct-Written}
use infini_rt.SmallVector.Reallocation.{Kept}

module _ {A : Type 0} (c : Config A) where
  -- From a capacity below max_size, which is below 2 ^ 64, GrowForAppend asks for strictly more,
  -- for at most max_size, and for half as much again unless it asks for max_size itself.
  pub grown_lem :
      (capacity : ℕ)
      → capacity < c.max_size
      → c.max_size < u64_mod
      → (capacity < grown c capacity)
        × (grown c capacity ≤ c.max_size)
        × ((grown c capacity ≡ c.max_size) ⊎ (capacity + capacity / 2 ≤ grown c capacity))
  unfolding grown
  grown_lem capacity room small = ground arith

  -- The call threw and changed nothing, or the vector holds another list now.
  abbrev pub Changes : SmallVector A → Memory A → List A → Bool × SmallVector A × Memory A → Type 0
  Changes v h ys r =
      (r ≡ (false, v, h))
      ⊎ ((r.0 ≡ true) × Sane r.2 × Holds c r.1 r.2 ys × Frame v.storage h r.1.storage r.2)

  -- The list is longer, in the storage that it had.
  pub record Extended (v : SmallVector A) (h : Memory A) (added : ℕ) (ys : List A)
      (v1 : SmallVector A) (h1 : Memory A) : Type 0 where
    pub same_capacity : v1.capacity ≡ v.capacity
    pub counted : v1.size ≡ v.size + added
    pub same_owner : (q : ℕ) → owns v1.storage q ≡ owns v.storage q
    pub others : (q : ℕ) → owns v.storage q ≡ false → h1.blocks q ≡ h.blocks q
    pub sane : Sane h1
    pub holds : Holds c v1 h1 ys

  pub construct-Extended :
      (v : SmallVector A) (h : Memory A) (xs : List A) (x : A)
      → c.max_size < u64_mod
      → Sane h
      → Holds c v h xs
      → v.size < v.capacity
      → let (v1, h1) = construct c v v.size x h in Extended v h 1 (xs ++ (x ∷ [])) (grow_size v1) h1
  construct-Extended v h xs x small sane holds room =
      let (v1, h1) = construct c v v.size x h in
      let r = construct-Written c v.storage v.size v.capacity h x sane holds.shaped room in
      let next : inc64 v1.size ≡ suc v.size = ground (arith, r.same_size, holds.bounded) in
      record {
        same_capacity = r.same_capacity;
        counted = omega (arith, next);
        same_owner = r.same_owner;
        others = r.others;
        sane = r.sane;
        holds = record {
          fits = omega (arith, next, r.same_capacity);
          bounded = omega (arith, r.same_capacity, holds.bounded);
          shaped = subst (λ n. Shape c v1.storage n h1) (sym r.same_capacity) r.shaped;
          contents =
              ap (λ n. take n (cells_of v1.storage h1)) next
              ∙ r.written
              ∙ ap (λ (zs : List A). zs ++ (x ∷ [])) holds.contents;
        };
      }

  pub Extended-trans :
      (v v1 v2 : SmallVector A) (h h1 h2 : Memory A) (n m k : ℕ) (ys zs : List A)
      → n + m ≡ k
      → Extended v h n ys v1 h1
      → Extended v1 h1 m zs v2 h2
      → Extended v h k zs v2 h2
  Extended-trans v v1 v2 h h1 h2 n m k ys zs e a b = record {
    same_capacity = b.same_capacity ∙ a.same_capacity;
    counted = omega (arith, a.counted, b.counted, e);
    same_owner = λ q. b.same_owner q ∙ a.same_owner q;
    others = λ q ne. b.others q (a.same_owner q ∙ ne) ∙ a.others q ne;
    sane = b.sane;
    holds = b.holds;
  }

  -- A change of the storage, and then more elements in it.
  pub Kept-Changes :
      (v v1 v2 : SmallVector A) (h h1 h2 : Memory A) (n : ℕ) (ys : List A)
      → Frame v.storage h v1.storage h1
      → Extended v1 h1 n ys v2 h2
      → Changes v h ys (true, v2, h2)
  Kept-Changes v v1 v2 h h1 h2 n ys frame r = inr (
    refl,
    r.sane,
    r.holds,
    λ q ne. let free = sym (r.same_owner q) ∙ ne in r.others q free ∙ frame q free,
  )

  -- The exception of a reallocation, or the storage for what follows.
  pub Kept-cases :
      (v : SmallVector A) (h : Memory A) (m : ℕ) (xs : List A) (r : Bool × SmallVector A × Memory A)
      → Kept c v h m xs r
      → (r ≡ (false, v, h))
        ⊎ ((r ≡ (true, r.1, r.2))
            × Sane r.2
            × Holds c r.1 r.2 xs
            × Frame v.storage h r.1.storage r.2
            × (r.1.capacity ≡ m)
            × (r.1.size ≡ v.size))
  Kept-cases v h m xs (done, v1, h1) (inl (e, ev, eh)) = inl (rw (e, ev, eh) refl)
  Kept-cases v h m xs (done, v1, h1) (inr (e, a, b, f, k, n)) = inr (rw e refl, a, b, f, k, n)
