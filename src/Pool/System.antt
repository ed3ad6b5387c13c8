-- ===== src/Pool/System.antt =====
-- The pool as a system: any sequence of calls, by any threads, and of leases that end.
use infini_rt.Base.{
  ℕ, ◌<◌, ◌≡◌, refl, ◌==◌, if◌then◌else◌, List, ◌∷◌, [], ◌++◌, arith, none, some, Bool, true, false,
  Bool-cases, Option-cases, inl, inr,
}
use infini_rt.Facade.{Facade, Allocates}
use infini_rt.Pool.Machine.{
  State, Block, Result, ok, err, find, Error, free_of, emplace, find-emplace, find-erase,
  block_size_of,
}
use infini_rt.Pool.Allocate.{
  freeze_for_capture, reuse, reuse_class, new_entry, undo_growth, enter_block, finish_growth, grow,
  find_block, is_free, large_fits, allocate_in_class, allocate_large_or_exact, allocate_aligned,
  allocate_impl, allocate_block, choose_class,
}
use infini_rt.Pool.Invariant.{Inv}
use infini_rt.Pool.Classes.{choose_class-fits}
use infini_rt.Pool.Backing.{Backed, Answer, allocate_block-Answer}
use infini_rt.Pool.Growing.{Answers-fresh}
use infini_rt.Pool.Allocation.{align_up_lem}
use infini_rt.Pool.Grants.{find_block-accepts}
use infini_rt.Pool.Pinning.{PinInv, SamePins, SamePins-PinInv, freeze-PinInv}

-- The counters that a taken block gets are not its pins.
reuse-PinInv :
    (tid i : ℕ) (s : State) (ls : List (List ℕ))
    → i < s.next_block
    → find (s.heap i).ptr s.all_blocks ≡ some i
    → PinInv s ls
    → PinInv (reuse tid i s) ls
unfolding reuse
reuse-PinInv tid i s ls here registered v =
    SamePins-PinInv (freeze_for_capture tid i s) _ ls
      (record {
        mode = refl;
        generation = refl;
        frozen = refl;
        frozen_set = refl;
        next = omega arith;
        pins = λ j. ground arith;
        keeps = λ j h e. ground arith;
      })
      (freeze-PinInv tid i s ls here registered v)

reuse_class-PinInv :
    (tid c i : ℕ) (s : State) (ls : List (List ℕ))
    → i < s.next_block
    → find (s.heap i).ptr s.all_blocks ≡ some i
    → PinInv s ls
    → PinInv (reuse_class tid c i s) ls
unfolding reuse_class
reuse_class-PinInv tid c i s ls here registered v =
    SamePins-PinInv (reuse tid i s) _ ls
      (record {
        mode = refl;
        generation = refl;
        frozen = refl;
        frozen_set = refl;
        next = omega arith;
        pins = λ j. refl;
        keeps = λ j h e. e;
      })
      (reuse-PinInv tid i s ls here registered v)

new_entry-PinInv :
    (b : Block) (s : State) (ls : List (List ℕ))
    → b.pin_count ≡ 0
    → PinInv s ls
    → PinInv (new_entry b s) ls
unfolding new_entry
new_entry-PinInv b s ls zero_pins v =
    SamePins-PinInv s _ ls
      (record {
        mode = refl;
        generation = refl;
        frozen = refl;
        frozen_set = refl;
        next = omega arith;
        pins = λ j. ground (arith, v.pins s.next_block, v.made s.next_block);
        keeps = λ j h e. ground (arith, v.pins s.next_block, v.made s.next_block);
      })
      v

module _ {W : Type 0} (f : Facade W) (laws : Allocates f) where
  undo-SamePins :
      (i : ℕ) (listed : Bool) (s : State) (w : W)
      → find (s.heap i).ptr s.all_blocks ≡ none
      → SamePins s (undo_growth f i listed s w).0
  unfolding undo_growth
  undo-SamePins i listed s w fresh = record {
    mode = ground arith;
    generation = ground arith;
    frozen = ground arith;
    frozen_set = ground arith;
    next = ground arith;
    pins = λ j. ground arith;
    keeps = λ j h e. ground (arith, find-erase (s.heap j).ptr (s.heap i).ptr s.all_blocks);
  }

  enter_block-PinInv :
      (tid : ℕ) (b : Block) (listed : Bool) (failure : Error) (s : State) (status p : ℕ) (w : W)
      (ls : List (List ℕ))
      → b.pin_count ≡ 0
      → find p s.all_blocks ≡ none
      → PinInv s ls
      → PinInv (enter_block f tid b listed failure s status p w).1 ls
  unfolding enter_block
  enter_block-PinInv tid b listed failure s status p w ls zero_pins fresh v =
      let s1 = new_entry (record b { ptr = p }) s in
      let v1 = new_entry-PinInv (record b { ptr = p }) s ls zero_pins v in
      let s2 : State = record s1 {
        all_blocks = emplace p s.next_block s1.all_blocks;
        large_blocks = if listed then s1.large_blocks ++ s.next_block ∷ [] else s1.large_blocks;
      } in
      let v2 : PinInv s2 ls =
        SamePins-PinInv s1 s2 ls
          (record {
            mode = refl;
            generation = refl;
            frozen = refl;
            frozen_set = refl;
            next = omega arith;
            pins = λ j. refl;
            keeps = λ j h e.
                ground (arith, find-emplace (s1.heap j).ptr p s.next_block s.all_blocks fresh);
          })
          v1 in
      elim (Bool-cases (status == 0)) [
        | inl fine ↦ rw fine (
            SamePins-PinInv (freeze_for_capture tid s.next_block s2) _ ls
              (record {
                mode = refl;
                generation = refl;
                frozen = refl;
                frozen_set = refl;
                next = omega arith;
                pins = λ j. ground arith;
                keeps = λ j h e. ground arith;
              })
              (freeze-PinInv tid s.next_block s2 ls (omega arith)
                (ground (arith, find-emplace p p s.next_block s.all_blocks fresh)) v2))
        | inr bad ↦
            rw bad
              (SamePins-PinInv s1 _ ls (undo-SamePins s.next_block listed s1 w (ground arith)) v1)
      ]

  finish_growth-PinInv :
      (tid : ℕ) (b : Block) (listed : Bool) (failure : Error) (s : State) (r : Result (ℕ × ℕ) × W)
      (ls : List (List ℕ))
      → b.pin_count ≡ 0
      → Inv s
      → (w0 : W) → Backed f laws s w0
      → Answer f laws w0 r
      → PinInv s ls
      → PinInv (finish_growth f tid b listed failure s r).1 ls
  unfolding finish_growth
  finish_growth-PinInv tid b listed failure s (err e, w) ls z inv w0 backed a v =
      new_entry-PinInv b s ls z v
  finish_growth-PinInv tid b listed failure s (ok (status, p), w) ls z inv w0 backed a v =
      enter_block-PinInv tid b listed failure s status p w ls z
        (Answers-fresh f laws s inv w0 backed status p w a) v

  grow-PinInv :
      (tid : ℕ) (b : Block) (listed : Bool) (failure : Error) (s : State) (w : W)
      (ls : List (List ℕ))
      → b.pin_count ≡ 0
      → 0 < b.size
      → Inv s
      → Backed f laws s w
      → PinInv s ls
      → PinInv (grow f tid b listed failure s w).1 ls
  unfolding grow
  grow-PinInv tid b listed failure s w ls z pos inv backed v =
      finish_growth-PinInv tid b listed failure s (allocate_block f b.size s w) ls z inv w backed
        (allocate_block-Answer f laws b.size s w pos) v

  module _ (tid : ℕ) (s : State) (w : W) (ls : List (List ℕ)) (inv : Inv s)
      (backed : Backed f laws s w) (v : PinInv s ls) where
    in_class-PinInv :
        (c : ℕ) → 0 < block_size_of s.size_classes c → PinInv (allocate_in_class f tid c s w).1 ls
    unfolding allocate_in_class
    in_class-PinInv c pos =
        elim (Option-cases (find_block is_free s.heap (free_of s.size_classes c))) [
          | inr (i, e) ↦
              let hit = find_block-accepts is_free s.heap (free_of s.size_classes c) i e in
              let fr = inv.free c i hit.0 in
              rw (e, allocate_in_class)
                (reuse_class-PinInv tid c i s ls (inv.owned (s.heap i).ptr i fr.registered).made
                  fr.registered v)
          | inl e ↦
              rw (e, allocate_in_class) (grow-PinInv tid _ false _ s w ls refl pos inv backed v)
        ]

    in_large-PinInv :
        (size : ℕ) (is_exact : Bool)
        → 0 < size
        → PinInv (allocate_large_or_exact f tid size is_exact s w).1 ls
    unfolding allocate_large_or_exact
    in_large-PinInv size is_exact pos =
        let test = large_fits size is_exact in
        elim (Option-cases (find_block test s.heap s.large_blocks)) [
          | inr (i, e) ↦
              let hit = find_block-accepts test s.heap s.large_blocks i e in
              let l = inv.large i hit.0 in
              rw (e, allocate_large_or_exact)
                (reuse-PinInv tid i s ls (inv.owned (s.heap i).ptr i l.1).made l.1 v)
          | inl e ↦
              rw (e, allocate_large_or_exact)
                (grow-PinInv tid _ true _ s w ls refl pos inv backed v)
        ]

    aligned-PinInv :
        (size : ℕ) (is_exact : Bool)
        → 0 < size
        → PinInv (allocate_aligned f tid size is_exact s w).1 ls
    unfolding allocate_aligned
    aligned-PinInv size is_exact pos =
        elim (Option-cases (if is_exact then none else choose_class size s.size_classes 0)) [
          | inl e ↦ rw (e, allocate_aligned) (in_large-PinInv size is_exact pos)
          | inr (c, e) ↦
              let (k, at, here, fits, before) =
                choose_class-fits size s.size_classes 0 c (ground arith) in
              rw (e, allocate_aligned) (in_class-PinInv c (ground arith))
        ]

    pub allocate_impl-PinInv :
        (size : ℕ) (is_exact : Bool) → PinInv (allocate_impl f tid size is_exact s w).1 ls
    unfolding allocate_impl
    allocate_impl-PinInv size is_exact = elim (Bool-cases (size == 0)) [
      | inl null ↦ rw null v
      | inr some_bytes ↦ elim (align_up_lem size 256 (omega arith) (omega arith)) [
        | inr (a, e, big) ↦
            rw (some_bytes, e, allocate_impl) (aligned-PinInv a is_exact (ground (arith, big.0)))
        | inl (e, _) ↦ rw (some_bytes, e, allocate_impl) v
      ]
    ]
