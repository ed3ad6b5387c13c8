-- ===== src/Pool/Growing.antt =====
-- `enter_block` and `grow` keep the pool well formed and backed by the runtime.
use infini_rt.Base.{
  ℕ, ◌<◌, ◌≡◌, ◌≢◌, refl, arith, length, none, Bool, true, false, inl, inr, Option-cases, ==_ne,
  ==_refl,
}
use infini_rt.Facade.{Facade, Answers, Allocates}
use infini_rt.Pool.Machine.{
  size_class, Block, State, Error, Result, ok, err, block_size_of, find, find-emplace,
}
use infini_rt.Pool.Allocate.{enter_block, finish_growth, grow, new_entry, freeze_for_capture}
use infini_rt.Pool.Invariant.{Inv, freeze-Inv, touch-Inv}
use infini_rt.Pool.Growth.{new_entry-Inv, enter-Inv, entered}
use infini_rt.Pool.Backing.{Backed, Answer, allocate_block-Answer}

-- A block as the growth branches make it.
pub record IsNew (b : Block) (listed : Bool) (s : State) : Type 0 where
  pub positive : 0 < b.size
  pub used : b.in_use ≡ true
  pub counted : 0 < b.use_count
  pub of_class :
      b.kind ≡ size_class
      → (listed ≡ false)
        × (b.class_index < length s.size_classes)
        × (b.size ≡ block_size_of s.size_classes b.class_index)
  pub of_list : b.kind ≢ size_class → listed ≡ true

-- The answer's pointer is not one that the pool holds: it is new, or null.
pub Answers-fresh :
    {W : Type 0} (f : Facade W) (laws : Allocates f) (s : State) (v : Inv s) (w : W)
    → Backed f laws s w
    → (status p : ℕ) (w' : W) → Answers laws.live w status p w'
    → find p s.all_blocks ≡ none
Answers-fresh f laws s v w backed status p w' a = elim (Option-cases (find p s.all_blocks)) [
  | inl missing ↦ missing
  | inr (i, e) ↦ absurd (let o = v.owned p i e in ground (arith, backed p i e, a))
]

module _ {W : Type 0} (f : Facade W) (laws : Allocates f) (tid : ℕ) (b : Block) (listed : Bool)
    (failure : Error) (s : State) (w : W) (new : IsNew b listed s) (v : Inv s)
    (backed : Backed f laws s w) where
  enter_block-Inv :
      (status p : ℕ) (w' : W)
      → Answers laws.live w status p w'
      → Inv (enter_block f tid b listed failure s status p w').1
  unfolding enter_block
  enter_block-Inv status p w' (inl (fine, not_null, unused, grown)) =
      let b' : Block = record b { ptr = p } in
      let fresh : find p s.all_blocks ≡ none = elim (Option-cases (find p s.all_blocks)) [
        | inl missing ↦ missing
        | inr (i, e) ↦ absurd (ground (arith, backed p i e))
      ] in
      let s2 = entered s b' listed v not_null fresh new.used new.counted new.of_class new.of_list in
      let v2 =
        enter-Inv s b' listed v not_null fresh new.used new.counted new.of_class new.of_list in
      let s3 = freeze_for_capture tid s.next_block s2 in
      rw fine (
        touch-Inv s3 s.next_block _ refl refl refl refl refl refl
          (freeze-Inv tid s.next_block s2 v2))
  enter_block-Inv status p w' (inr (bad, null, same)) =
      rw (==_ne status 0 bad, null, ==_refl s.next_block) (new_entry-Inv (record b { ptr = 0 }) s v)

  enter_block-Backed :
      (status p : ℕ) (w' : W)
      → Answers laws.live w status p w'
      → let r = enter_block f tid b listed failure s status p w' in Backed f laws r.1 r.2
  unfolding enter_block
  enter_block-Backed status p w' (inl (fine, not_null, unused, grown)) =
      let fresh : find p s.all_blocks ≡ none = elim (Option-cases (find p s.all_blocks)) [
        | inl missing ↦ missing
        | inr (i, e) ↦ absurd (ground (arith, backed p i e))
      ] in
      λ q j e. ground (arith, backed q j, grown q, find-emplace q p s.next_block s.all_blocks fresh)
  enter_block-Backed status p w' (inr (bad, null, same)) =
      rw (==_ne status 0 bad, null, ==_refl s.next_block)
        (λ q j e. ground (arith, backed q j, same q))

  finish_growth-Inv :
      (r : Result (ℕ × ℕ) × W)
      → Answer f laws w r
      → Inv (finish_growth f tid b listed failure s r).1
  unfolding finish_growth
  finish_growth-Inv (err e, w') a = new_entry-Inv b s v
  finish_growth-Inv (ok (status, p), w') a = enter_block-Inv status p w' a

  finish_growth-Backed :
      (r : Result (ℕ × ℕ) × W)
      → Answer f laws w r
      → let q = finish_growth f tid b listed failure s r in Backed f laws q.1 q.2
  unfolding finish_growth
  finish_growth-Backed (err e, w') a = unfold new_entry in λ q j e. ground (arith, backed q j, a q)
  finish_growth-Backed (ok (status, p), w') a = enter_block-Backed status p w' a

  pub grow-Inv : Inv (grow f tid b listed failure s w).1
  unfolding grow
  grow-Inv = finish_growth-Inv _ (allocate_block-Answer f laws b.size s w new.positive)

  pub grow-Backed :
      Backed f laws (grow f tid b listed failure s w).1 (grow f tid b listed failure s w).2
  unfolding grow
  grow-Backed = finish_growth-Backed _ (allocate_block-Answer f laws b.size s w new.positive)
