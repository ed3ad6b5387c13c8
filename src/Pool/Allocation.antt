-- ===== src/Pool/Allocation.antt =====
-- `allocate_impl` as a whole: it keeps the pool well formed and backed, and what it grants.
use infini_rt.Base.{
  ℕ, ◌+◌, ◌-◌, ◌*◌, ◌/◌, ◌%◌, ◌≤◌, ◌<◌, ◌≡◌, refl, ltb, if◌then◌else◌, arith, length, none, some,
  Bool, true, false, Bool-cases, inl, inr, Option-cases, ◌⊎◌, ==_ne, u64_mod,
}
use native.Mathlib.Nat.{le_trans, div-add-mod', mod-lt, mul-mod_left}
use infini_rt.Facade.{Facade, Allocates}
use infini_rt.Pool.Machine.{
  State, too_large, Result, ok, err, free_of, block_size_of, allocate_class, allocate_large,
}
use infini_rt.Pool.Classes.{choose_class-fits}
use infini_rt.Pool.Allocate.{
  align_up, reuse, reuse_class, find_block, is_free, large_fits, class_block, large_block,
  allocate_in_class, allocate_large_or_exact, allocate_aligned, allocate_impl, choose_class,
}
use infini_rt.Pool.Invariant.{Inv, reuse-Inv, reuse_class-Inv}
use infini_rt.Pool.Backing.{Backed}
use infini_rt.Pool.Growing.{IsNew, grow-Inv, grow-Backed}
use infini_rt.Pool.Grants.{
  Grants, IsRefused, find_block-accepts, reuse-IsGranted, reuse_class-IsGranted, grow-Grants,
}

abbrev pub IsAligned : ℕ → ℕ → ℕ → Type 0
IsAligned size alignment a =
    (size ≤ a) × (a < size + alignment) × (a % alignment ≡ 0) × (a < u64_mod)

round_up-IsAligned :
    (size alignment : ℕ)
    → 0 < alignment
    → size + (alignment - 1) < u64_mod
    → IsAligned size alignment ((size + alignment - 1) / alignment * alignment)
round_up-IsAligned size alignment pos room =
    let n = size + alignment - 1 in
    (
      omega (arith, div-add-mod' n alignment, mod-lt n pos),
      omega (arith, div-add-mod' n alignment, mod-lt n pos),
      mul-mod_left (n / alignment) alignment,
      omega (arith, div-add-mod' n alignment, mod-lt n pos),
    )

-- For an alignment from 1 to 2 ^ 64, rounding up throws exactly on the branch where the sum does
-- not fit in 64 bits, and otherwise gives a multiple of the alignment in 64 bits that is at least
-- the size and less than the size and the alignment together.
pub align_up_lem :
    (size alignment : ℕ)
    → 0 < alignment
    → alignment ≤ u64_mod
    → ((align_up size alignment ≡ err too_large) × (u64_mod ≤ size + (alignment - 1)))
      ⊎ ((a : ℕ) × (align_up size alignment ≡ ok a) × IsAligned size alignment a)
unfolding align_up
align_up_lem size alignment pos small =
    elim (Bool-cases (ltb (u64_mod - 1 - (alignment - 1)) size)) [
      | inl over ↦ inl (rw over refl, ground arith)
      | inr room ↦ inr (
        (size + alignment - 1) / alignment * alignment,
        rw room refl,
        round_up-IsAligned size alignment pos (ground arith),
      )
    ]

Grants-mono :
    {W : Type 0} (tid m n : ℕ) (s : State) (r : Result ℕ × State × W)
    → m ≤ n
    → Grants tid s n r
    → Grants tid s m r
Grants-mono tid m n s (ok p, s', w') le g = record {
  block = g.block;
  not_null = g.not_null;
  registered = g.registered;
  used = g.used;
  one_owner = g.one_owner;
  roomy = le_trans le g.roomy;
  stamped = g.stamped;
  same_capture = g.same_capture;
  same_generation = g.same_generation;
  not_held = g.not_held;
  others = g.others;
  no_more = g.no_more;
}
Grants-mono tid m n s (err e, s', w') le g = g

pub unmoved : {s : State} → IsRefused s s
unmoved = record {
  same_map = refl;
  same_large = refl;
  same_classes = refl;
  same_blocks = λ q j e. refl;
}

module _ {W : Type 0} (f : Facade W) (laws : Allocates f) (tid : ℕ) (s : State) (w : W) (v : Inv s)
    (backed : Backed f laws s w) where
  -- What the calls keep and give, in one statement for the case splits.
  abbrev pub Sound : ℕ → Result ℕ × State × W → Type 0
  Sound size r = Inv r.1 × Backed f laws r.1 r.2 × Grants tid s size r

  reuse-Backed : (i : ℕ) → Backed f laws (reuse tid i s) w
  unfolding reuse
  reuse-Backed i p j e = ground (arith, backed p j)

  reuse_class-Backed : (c i : ℕ) → Backed f laws (reuse_class tid c i s) w
  unfolding reuse_class
  reuse_class-Backed c i p j e = reuse-Backed i p j e

  allocate_in_class-Sound :
      (c size : ℕ)
      → c < length s.size_classes
      → size ≤ block_size_of s.size_classes c
      → 0 < size
      → Sound size (allocate_in_class f tid c s w)
  unfolding allocate_in_class
  allocate_in_class-Sound c size here fits pos =
      elim (Option-cases (find_block is_free s.heap (free_of s.size_classes c))) [
        | inr (i, e) ↦
            let hit = find_block-accepts is_free s.heap (free_of s.size_classes c) i e in
            let fr = v.free c i hit.0 in
            let o = v.owned (s.heap i).ptr i fr.registered in
            rw (e, allocate_in_class)
              (
                reuse_class-Inv tid c i s hit.0 v,
                reuse_class-Backed c i,
                reuse_class-IsGranted tid c i size s fr.registered fr.idle
                    (ground (arith, o.in_range)) v,
              )
        | inl e ↦
            let b = class_block (block_size_of s.size_classes c) c in
            let new : IsNew b false s = record {
              positive = omega arith;
              used = refl;
              counted = omega arith;
              of_class = λ k. (refl, here, refl);
              of_list = λ k. absurd (k refl);
            } in
            rw (e, allocate_in_class)
              (
                grow-Inv f laws tid b false allocate_class s w new v backed,
                grow-Backed f laws tid b false allocate_class s w new v backed,
                Grants-mono tid size b.size s _ fits
                    (grow-Grants f laws tid b false allocate_class s w new refl v backed),
              )
      ]

  allocate_large-Sound :
      (size : ℕ) (is_exact : Bool)
      → 0 < size
      → Sound size (allocate_large_or_exact f tid size is_exact s w)
  unfolding allocate_large_or_exact
  allocate_large-Sound size is_exact pos =
      let test = large_fits size is_exact in
      elim (Option-cases (find_block test s.heap s.large_blocks)) [
        | inr (i, e) ↦
            let hit = find_block-accepts test s.heap s.large_blocks i e in
            let l = v.large i hit.0 in
            rw (e, allocate_large_or_exact)
              (
                reuse-Inv tid i s hit.0 v,
                reuse-Backed i,
                reuse-IsGranted tid i size s l.1 (ground (arith, hit.1)) (ground (arith, hit.1)) v,
              )
        | inl e ↦
            let b = large_block size is_exact in
            let new : IsNew b true s = record {
              positive = pos;
              used = refl;
              counted = omega arith;
              of_class = λ k. absurd (ground arith);
              of_list = λ k. refl;
            } in
            rw (e, allocate_large_or_exact)
              (
                grow-Inv f laws tid b true allocate_large s w new v backed,
                grow-Backed f laws tid b true allocate_large s w new v backed,
                grow-Grants f laws tid b true allocate_large s w new refl v backed,
              )
      ]

  allocate_aligned-Sound :
      (size : ℕ) (is_exact : Bool)
      → 0 < size
      → Sound size (allocate_aligned f tid size is_exact s w)
  unfolding allocate_aligned
  allocate_aligned-Sound size is_exact pos =
      elim (Option-cases (if is_exact then none else choose_class size s.size_classes 0)) [
        | inl e ↦ rw (e, allocate_aligned) (allocate_large-Sound size is_exact pos)
        | inr (c, e) ↦
            let e' : choose_class size s.size_classes 0 ≡ some c = ground arith in
            let (k, at, here, fits, before) = choose_class-fits size s.size_classes 0 c e' in
            let same : k ≡ c = omega arith in
            rw (e, allocate_aligned)
              (allocate_in_class-Sound c size (rw (← same) here) (rw (← same) fits) pos)
      ]

  -- A request that is not empty.
  pub allocate_impl-Sound :
      (size : ℕ) (is_exact : Bool) → 0 < size → Sound size (allocate_impl f tid size is_exact s w)
  unfolding allocate_impl
  allocate_impl-Sound size is_exact pos = elim (align_up_lem size 256 (omega arith) (omega arith)) [
    | inl (e, _) ↦ rw (==_ne size 0 (omega arith), e, allocate_impl) (v, backed, unmoved)
    | inr (a, e, big) ↦
        let r = allocate_aligned-Sound a is_exact (omega arith) in
        rw (==_ne size 0 (omega arith), e, allocate_impl)
          (r.0, r.1, Grants-mono tid size a s _ big.0 r.2)
  ]
