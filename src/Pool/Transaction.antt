-- ===== src/Pool/Transaction.antt =====
-- The pin transaction as a whole: who may begin, commit and cancel it, and what it marks.
use infini_rt.Base.{
  ℕ, ◌≡◌, ltb, if◌then◌else◌, List, ◌∷◌, [], arith, subst, ◌∙◌, ◌⊎◌, ◌<◌, ◌+◌, ◌%◌, u64_mod, true,
  false,
}
use infini_rt.Facade.{Facade, Allocates}
use infini_rt.Pool.Machine.{State, Block, Result, ok, err, already_pinned, generation_exhausted}
use infini_rt.Pool.Allocate.{capturing, generation}
use infini_rt.Pool.Release.{add_pinned, pinned_bytes}
use infini_rt.Pool.Pin.{begin_pin_mode, retain_for_capture}
use infini_rt.Pool.Entry.{allocate}
use infini_rt.Pool.Invariant.{Inv}
use infini_rt.Pool.Backing.{Backed}
use infini_rt.Pool.Guarded.{allocate-Allocated, Allocated}
use infini_rt.Pool.Pinning.{PinInv}

-- In a state with correct pin counts, begin_pin_mode throws without effect if a transaction is
-- open or the generations are exhausted. Otherwise it returns, the calling thread owns the
-- transaction, and the generation is one higher. It never finds stale blocks.
pub begin_cases :
    (tid : ℕ) (s : State) (ls : List (List ℕ))
    → PinInv s ls
    → let r = begin_pin_mode tid s in
      ((s.pinned_mode ≡ true) × (r ≡ (err already_pinned, s)))
      ⊎ ((s.pinned_mode ≡ false)
          × (s.capture_generation + 1 ≡ u64_mod)
          × (r ≡ (err generation_exhausted, s)))
      ⊎ ((s.pinned_mode ≡ false)
          × (r.0 ≡ ok 0)
          × (capturing tid r.1 ≡ true)
          × (r.1.capture_generation ≡ s.capture_generation + 1))
unfolding begin_pin_mode
begin_cases tid s ls v = ground (arith, v.idle_empty, v.small)

generation-active :
    (tid : ℕ) (s : State) → capturing tid s ≡ true → generation tid s ≡ s.capture_generation
unfolding generation
generation-active tid s active = rw active

-- If a thread in a pin transaction allocates a size other than zero from a well-formed and backed
-- state and receives an address, retain_for_capture of that address returns false in the state
-- after it.
pub allocate-retain_for_capture :
    {W : Type 0} (f : Facade W) (laws : Allocates f) (tid size p : ℕ) (s s' : State) (w w' : W)
    → Inv s
    → Backed f laws s w
    → 0 < size
    → capturing tid s ≡ true
    → allocate f tid size s w ≡ (ok p, s', w')
    → (retain_for_capture tid p s').0 ≡ ok false
unfolding retain_for_capture
allocate-retain_for_capture {W} f laws tid size p s s' w w' v b pos active e =
    let (_, _, g) =
      subst (λ (r : Result ℕ × State × W). Allocated f laws tid s size r.0 r.1 r.2) e
        (allocate-Allocated f laws s w v b tid size pos) in
    rw (g.same_capture ∙ active, g.registered)
      (ground (arith, g.stamped, g.same_generation, generation-active tid s active))

-- The sum over the blocks that are pinned.
abbrev pub pinned_sum : (ℕ → Block) → List (ℕ × ℕ) → ℕ
pinned_sum heap [] = 0
pinned_sum heap ((p, i) ∷ rest) =
    (if ltb 0 (heap i).pin_count then (heap i).size else 0) + pinned_sum heap rest

add_pinned-sum :
    (heap : ℕ → Block) (n : ℕ) (all : List (ℕ × ℕ))
    → n < u64_mod
    → add_pinned heap n all ≡ (n + pinned_sum heap all) % u64_mod
unfolding add_pinned
add_pinned-sum heap n [] small = omega arith
add_pinned-sum heap n ((p, i) ∷ rest) small =
    ground
      (arith, add_pinned-sum heap n rest, add_pinned-sum heap ((n + (heap i).size) % u64_mod) rest)

-- pinned_bytes is the sum of the sizes of the registered blocks that are pinned, in 64 bits.
pub pinned_bytes-sum : (s : State) → pinned_bytes s ≡ pinned_sum s.heap s.all_blocks % u64_mod
unfolding pinned_bytes
pinned_bytes-sum s = omega (arith, add_pinned-sum s.heap 0 s.all_blocks (omega arith))
