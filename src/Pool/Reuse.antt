-- ===== src/Pool/Reuse.antt =====
-- Release, retention, pinning and growth keep the pool well formed.
use infini_rt.Base.{
  ℕ, ◌-◌, ◌<◌, ◌≡◌, ◌≢◌, refl, ltb, ◌==◌, if◌then◌else◌, List, [], ◌∷◌, ◌++◌, arith, ◌&&◌, none,
  some, true, false, count, remove, count-append, count-remove, Bool-cases, inl, inr, Option-cases,
  u64_mod, inc64, not, ◌||◌,
}
use infini_rt.Pool.Machine.{size_class, Block, State, free_of, update, find}
use infini_rt.Pool.Classes.{
  kind_eq-class, kind_ne-class, free_of-set_free, block_size_of-set_free, length-set_free,
}
use infini_rt.Pool.Allocate.{kind_eq, owns, capturing}
use infini_rt.Pool.Release.{give_back, release_block, deallocate, retain_block, retain_allocation}
use infini_rt.Pool.Pin.{
  unpin, unpin_all, release_frozen_blocks, cancel_pin_mode, begin_pin_mode, commit_pin_mode,
  retain_for_capture,
}
use infini_rt.Pool.Invariant.{Inv, IsOwned, IsFree, take-Inv, touch-Inv, pin_fields-Inv, freeze-Inv}

-- The last owner's release of a block that is used.
module _ (s : State) (i : ℕ) (v : Inv s) (registered : find (s.heap i).ptr s.all_blocks ≡ some i)
    (used : (s.heap i).in_use ≡ true) where
  not_free : (c : ℕ) → count i (free_of s.size_classes c) ≡ 0
  not_free c = elim (Bool-cases (ltb 0 (count i (free_of s.size_classes c)))) [
    | inl old ↦ let f = v.free c i (ground arith) in ground arith
    | inr none_left ↦ ground arith
  ]

  give_back-IsOwned : (p j : ℕ) → find p s.all_blocks ≡ some j → IsOwned (give_back i s) p j
  unfolding give_back
  give_back-IsOwned p j e =
      let o = v.owned p j e in
      let oi = v.owned (s.heap i).ptr i registered in
      let ci = (s.heap i).class_index in
      let ids = free_of s.size_classes ci ++ i ∷ [] in
      record {
        at_ptr = ground arith;
        not_null = o.not_null;
        made = ground arith;
        counted = ground arith;
        in_range = λ k. ground (
          arith,
          o.in_range,
          length-set_free s.size_classes ci ids,
          block_size_of-set_free s.size_classes ci (s.heap j).class_index ids,
        );
        kept = λ k u. ground (
          arith,
          o.kept,
          oi.in_range,
          not_free ci,
          kind_eq-class (s.heap i).kind,
          count-append j (free_of s.size_classes ci) (i ∷ []),
          free_of-set_free s.size_classes ci (s.heap j).class_index ids,
        );
        listed = λ k. ground (arith, o.listed);
      }

  give_back-free :
      (c j : ℕ) → 0 < count j (free_of (give_back i s).size_classes c) → IsFree (give_back i s) c j
  unfolding give_back
  give_back-free c j h =
      let ci = (s.heap i).class_index in
      let ids = free_of s.size_classes ci ++ i ∷ [] in
      elim (Bool-cases (i == j)) [
        | inl same ↦ record {
          idle = ground arith;
          of_class = ground (arith, kind_eq-class (s.heap i).kind, not_free c);
          at_class = ground (arith, not_free c, free_of-set_free s.size_classes ci c ids);
          registered = ground arith;
        }
        | inr other ↦
            let f = v.free c j (
              ground (
                arith,
                count-append j (free_of s.size_classes ci) (i ∷ []),
                free_of-set_free s.size_classes ci c ids,
              )) in
            record {
              idle = ground arith;
              of_class = ground arith;
              at_class = ground arith;
              registered = ground arith;
            }
      ]

  give_back-Inv : Inv (give_back i s)
  unfolding give_back
  give_back-Inv = record {
    owned = give_back-IsOwned;
    free = give_back-free;
    large = λ j h. let l = v.large j h in (ground arith, ground arith);
  }

  abbrev dropped : Block
  dropped = record (s.heap i) { use_count = (s.heap i).use_count - 1 }

  release_block-Inv : Inv (release_block i s).1
  unfolding release_block
  release_block-Inv = elim (Bool-cases (not (s.heap i).in_use || ((s.heap i).use_count == 0))) [
    | inl idle ↦ rw idle v
    | inr live ↦ elim (Bool-cases (ltb 1 (s.heap i).use_count)) [
      | inl shared ↦
          rw (live, shared) (touch-Inv s i dropped refl refl refl refl refl (ground arith) v)
      | inr last ↦ rw (live, last) give_back-Inv
    ]
  ]

-- A retained block is used again, even if its last owner had released it.
module _ (s : State) (i : ℕ) (v : Inv s) (registered : find (s.heap i).ptr s.all_blocks ≡ some i)
    (room : (s.heap i).use_count < u64_mod - 1) where
  abbrev held : Block
  held = record (s.heap i) { in_use = true; use_count = inc64 (s.heap i).use_count }

  retain_other-Inv : (s.heap i).kind ≢ size_class → Inv (record s { heap = update s.heap i held })
  retain_other-Inv other = record {
    owned = λ p j e.
        let o = v.owned p j e in
        record {
          at_ptr = ground arith;
          not_null = o.not_null;
          made = o.made;
          counted = ground arith;
          in_range = λ k. ground (arith, o.in_range);
          kept = λ k u. ground (arith, o.kept);
          listed = λ k. ground (arith, o.listed);
        };
    free = λ c j h.
        let o = v.free c j h in
        record {
          idle = ground arith;
          of_class = ground arith;
          at_class = ground arith;
          registered = ground arith;
        };
    large = λ j h. let o = v.large j h in (ground arith, ground arith);
  }

  retain_block-Inv : Inv (retain_block i s).1
  unfolding retain_block
  retain_block-Inv = elim (Bool-cases (kind_eq (s.heap i).kind size_class)) [
    | inl cls ↦
        let ids = free_of s.size_classes (s.heap i).class_index in
        rw cls (
          take-Inv s (s.heap i).class_index i held (remove i ids) v registered (kind_eq-class _ cls)
            refl refl refl refl refl refl (ground arith) (λ j. count-remove j i ids))
    | inr other ↦ rw other (retain_other-Inv (kind_ne-class _ other))
  ]

pub deallocate-Inv : (p : ℕ) (s : State) → Inv s → Inv (deallocate p s).1
unfolding deallocate
deallocate-Inv p s v = elim (Bool-cases (p == 0)) [
  | inl null ↦ rw null v
  | inr addr ↦ elim (Option-cases (find p s.all_blocks)) [
    | inl missing ↦ rw (addr, missing) v
    | inr (i, e) ↦
        let o = v.owned p i e in
        elim (Bool-cases (s.heap i).in_use) [
          | inl used ↦ rw (addr, e) (release_block-Inv s i v (ground arith) used)
          | inr idle ↦ rw (addr, e) (unfold release_block in rw idle v)
        ]
  ]
]

-- `use_count` has room for one more owner.
pub retain_allocation-Inv :
    (p : ℕ) (s : State)
    → ((i : ℕ) → find p s.all_blocks ≡ some i → (s.heap i).use_count < u64_mod - 1)
    → Inv s
    → Inv (retain_allocation p s).1
unfolding retain_allocation
retain_allocation-Inv p s room v = elim (Option-cases (find p s.all_blocks)) [
  | inl missing ↦ rw (missing, retain_allocation) v
  | inr (i, e) ↦
      let o = v.owned p i e in
      rw (e, retain_allocation) (retain_block-Inv s i v (ground arith) (room i e))
]

unpin-Inv : (i : ℕ) (s : State) → Inv s → Inv (record s { heap = unpin s.heap i })
unfolding unpin
unpin-Inv i s v =
    touch-Inv s i
      (record (s.heap i) {
        pin_count =
            if ltb 0 (s.heap i).pin_count then (s.heap i).pin_count - 1 else (s.heap i).pin_count;
      })
      refl refl refl refl refl refl v

unpin_all-Inv : (is : List ℕ) (s : State) → Inv s → Inv (record s { heap = unpin_all s.heap is })
unfolding unpin_all
unpin_all-Inv [] s v = v
unpin_all-Inv (i ∷ is) s v = unpin_all-Inv is (record s { heap = unpin s.heap i }) (unpin-Inv i s v)

pub release_frozen-Inv : (is : List ℕ) (s : State) → Inv s → Inv (release_frozen_blocks is s)
unfolding release_frozen_blocks
release_frozen-Inv is s v = unpin_all-Inv is s v

pub begin-Inv : (tid : ℕ) (s : State) → Inv s → Inv (begin_pin_mode tid s).1
unfolding begin_pin_mode
begin-Inv tid s v = ground (
  arith,
  v,
  pin_fields-Inv s true (some tid) (inc64 s.capture_generation) s.capture_frozen_blocks
      s.capture_frozen_block_set v,
)

pub commit-Inv : (tid : ℕ) (s : State) → Inv s → Inv (commit_pin_mode tid s).1
unfolding commit_pin_mode
commit-Inv tid s v = ground (arith, v, pin_fields-Inv s false none s.capture_generation [] [] v)

pub cancel-Inv : (tid : ℕ) (s : State) → Inv s → Inv (cancel_pin_mode tid s).1
unfolding cancel_pin_mode
cancel-Inv tid s v = elim (Bool-cases (s.pinned_mode && not (owns tid s.pin_owner))) [
  | inl foreign ↦ rw foreign v
  | inr own ↦ rw own (
      pin_fields-Inv (record s { heap = unpin_all s.heap s.capture_frozen_blocks }) false none
        s.capture_generation [] [] (unpin_all-Inv s.capture_frozen_blocks s v))
]

pub retain_for_capture-Inv : (tid p : ℕ) (s : State) → Inv s → Inv (retain_for_capture tid p s).1
unfolding retain_for_capture
retain_for_capture-Inv tid p s v = elim (Bool-cases (capturing tid s)) [
  | inl active ↦ elim (Option-cases (find p s.all_blocks)) [
    | inl missing ↦ rw (active, missing) v
    | inr (i, e) ↦ rw (active, e) (freeze-Inv tid i s v)
  ]
  | inr inactive ↦ rw inactive v
]
