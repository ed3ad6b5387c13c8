-- ===== src/Pool/Ownership.antt =====
-- The owners of an allocation: what `deallocate` and `retain_allocation` do on every branch.
use infini_rt.Base.{
  ℕ, zero, suc, ◌+◌, ◌-◌, ◌<◌, ◌≡◌, refl, arith, some, true, false, u64_mod, ==_ne,
}
use infini_rt.Pool.Machine.{State, Result, ok, err, find, double_free}
use infini_rt.Pool.Release.{deallocate, retain_allocation}
use infini_rt.Pool.Invariant.{Inv}
use infini_rt.Pool.Reuse.{deallocate-Inv}

-- `n + 1` owners give the block up in turn. Every release but the last leaves it in use.
pub release_times : ℕ → ℕ → State → Result ℕ × State
release_times zero p s = deallocate p s
release_times (suc n) p s = release_times n p (deallocate p s).1

module _ (p i : ℕ) (s : State) (v : Inv s) (here : find p s.all_blocks ≡ some i) where
  -- With several owners only the count falls.
  deallocate_shared :
      1 < (s.heap i).use_count
      → let r = deallocate p s in
        (r.0 ≡ ok 0)
        × (find p r.1.all_blocks ≡ some i)
        × ((r.1.heap i).use_count + 1 ≡ (s.heap i).use_count)
  unfolding deallocate
  deallocate_shared many =
      let o = v.owned p i here in
      rw (==_ne p 0 o.not_null, here) (ground arith, ground arith, ground arith)

  deallocate_last :
      (s.heap i).use_count ≡ 1
      → let r = deallocate p s in
        (r.0 ≡ ok 0)
        × (find p r.1.all_blocks ≡ some i)
        × ((r.1.heap i).in_use ≡ false)
        × ((r.1.heap i).use_count ≡ 0)
  unfolding deallocate
  deallocate_last one =
      let o = v.owned p i here in
      rw (==_ne p 0 o.not_null, here) (ground arith, ground arith, ground arith, ground arith)

  deallocate_free : (s.heap i).in_use ≡ false → deallocate p s ≡ (err double_free, s)
  unfolding deallocate
  deallocate_free idle = let o = v.owned p i here in rw (==_ne p 0 o.not_null, here) (ground arith)

-- In a well-formed state, a block with n + 1 owners is free after n + 1 calls of deallocate, the
-- last of which returns, and one more call throws the double free and changes nothing.
pub release_times_free :
    (n p i : ℕ) (s : State)
    → Inv s
    → find p s.all_blocks ≡ some i
    → (s.heap i).use_count ≡ suc n
    → let r = release_times n p s in
      (r.0 ≡ ok 0) × ((r.1.heap i).in_use ≡ false) × (deallocate p r.1 ≡ (err double_free, r.1))
unfolding release_times
release_times_free zero p i s v here owners =
    let (fine, found, idle, none_left) = deallocate_last p i s v here owners in
    (fine, idle, deallocate_free p i (deallocate p s).1 (deallocate-Inv p s v) found idle)
release_times_free (suc n) p i s v here owners =
    let (fine, found, left) = deallocate_shared p i s v here (omega arith) in
    release_times_free n p i (deallocate p s).1 (deallocate-Inv p s v) found (omega arith)

-- In a well-formed state, retain_allocation of a registered block with fewer than 2 ^ 64 - 1
-- owners returns its size, and afterwards the block is registered and in use and has one more
-- owner.
pub retain_allocation_adds :
    (p i : ℕ) (s : State)
    → Inv s
    → find p s.all_blocks ≡ some i
    → (s.heap i).use_count < u64_mod - 1
    → let r = retain_allocation p s in
      (r.0 ≡ ok (s.heap i).size)
      × (find p r.1.all_blocks ≡ some i)
      × ((r.1.heap i).in_use ≡ true)
      × ((r.1.heap i).use_count ≡ (s.heap i).use_count + 1)
unfolding retain_allocation
retain_allocation_adds p i s v here room =
    rw (here, retain_allocation) (refl, here, ground arith, ground arith)
