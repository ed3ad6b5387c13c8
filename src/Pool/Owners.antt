-- ===== src/Pool/Owners.antt =====
-- The pool of src/reusable_memory_pool.cc as a ledger of owners: how many owners each address has,
-- and what each call does to them. Blocks, classes, lists and pins are forgotten.
use infini_rt.Base.{
  ℕ, zero, suc, ◌+◌, ◌-◌, ◌<◌, ◌≡◌, ◌≢◌, refl, ap, sym, ◌∙◌, not, ◌||◌, ◌==◌, if◌then◌else◌, arith,
  ltb, u64_mod, none, some, Option, Option-cases, Bool-cases, inl, inr, false, ==_ne, ==_iff,
}
use infini_rt.Pool.Machine.{State, Block, update, Result, ok, err, find}
use infini_rt.Pool.Release.{deallocate, give_back, release_block, retain_allocation, retain_block}
use infini_rt.Pool.Invariant.{Inv}
use infini_rt.Pool.Grants.{Grants}

abbrev pub owners_at : State → Option ℕ → ℕ
owners_at s none = 0
owners_at s (some i) = (s.heap i).use_count

-- The owners of an address. An idle block has none, as an address that the pool does not have.
abbrev pub owners : State → ℕ → ℕ
owners s p = owners_at s (find p s.all_blocks)

-- What a call says to its caller, as far as owners go.
pub data Event : Type 0 where
  keeps : Event
  grants releases retains : ℕ → Event

-- An allocator that promises its callers just this: a grant is of an address without an owner, a
-- release and a retention count, and nothing else changes.
abbrev pub Ledger : Event → (ℕ → ℕ) → (ℕ → ℕ) → Type 0
Ledger keeps before after = (q : ℕ) → after q ≡ before q
Ledger (grants p) before after =
    (p ≢ 0) × (before p ≡ 0) × ((q : ℕ) → after q ≡ (if q == p then 1 else before q))
Ledger (releases p) before after =
    (0 < before p) × ((q : ℕ) → after q ≡ (if q == p then before q - 1 else before q))
Ledger (retains p) before after = (q : ℕ) → after q ≡ (if q == p then before q + 1 else before q)

-- The event that the result of an allocation is; an empty request returns the null pointer.
abbrev pub granted : Result ℕ → Event
granted (ok zero) = keeps
granted (ok (suc p)) = grants (suc p)
granted (err e) = keeps

abbrev pub released : ℕ → Result ℕ → Event
released zero r = keeps
released (suc p) (ok x) = releases (suc p)
released (suc p) (err e) = keeps

abbrev pub retained : ℕ → Result ℕ → Event
retained p (ok size) = retains p
retained p (err e) = keeps

module _ (s : State) (v : Inv s) where
  pub idle-owners :
      (q j : ℕ)
      → find q s.all_blocks ≡ some j
      → (s.heap j).in_use ≡ false
      → (s.heap j).use_count ≡ 0
  idle-owners q j e idle = let o = v.owned q j e in ground (arith, o.counted)

  pub Grants-Ledger :
      {W : Type 0} (tid size : ℕ) (r : Result ℕ) (s' : State) (w' : W)
      → Grants tid s size (r, s', w')
      → Ledger (granted r) (owners s) (owners s')
  Grants-Ledger tid size (err e) s' w' g = λ q. elim (Option-cases (find q s.all_blocks)) [
    | inl missing ↦ rw (g.same_map, missing) refl
    | inr (j, here) ↦
        rw (g.same_map, here) (ap (λ (b : Block). b.use_count) (g.same_blocks q j here))
  ]
  Grants-Ledger tid size (ok zero) s' w' g = absurd (g.not_null refl)
  Grants-Ledger tid size (ok (suc p)) s' w' g = (
    g.not_null,
    elim (Option-cases (find (suc p) s.all_blocks)) [
      | inl missing ↦ rw missing refl
      | inr (j, here) ↦ rw here (idle-owners (suc p) j here (g.not_held j here))
    ],
    λ q. elim (Bool-cases (q == suc p)) [
      | inl same ↦ rw (same, (==_iff q (suc p)).0 same, g.registered) g.one_owner
      | inr other ↦
          let ne : q ≢ suc p = λ e. ground arith in
          rw other (elim (Option-cases (find q s.all_blocks)) [
            | inr (j, here) ↦
                let (there, same_block) = g.others q j here ne in
                rw (there, here) (ap (λ (b : Block). b.use_count) same_block)
            | inl missing ↦ elim (Option-cases (find q s'.all_blocks)) [
              | inl missing' ↦ rw (missing', missing) refl
              | inr (j, there) ↦ absurd (ground (arith, g.no_more q j there ne))
            ]
          ])
    ],
  )

  -- The address tells the block.
  same_block :
      (p q i j : ℕ) → find p s.all_blocks ≡ some i → find q s.all_blocks ≡ some j → q ≢ p → i ≢ j
  same_block p q i j h k ne e =
      ne (
        sym (v.owned q j k).at_ptr
        ∙ ap (λ (b : ℕ). (s.heap b).ptr) (sym e)
        ∙ (v.owned p i h).at_ptr)

  -- The count of one block changes, and the map stays.
  one_changed :
      (change : ℕ → ℕ) (p i : ℕ) (s' : State)
      → find p s.all_blocks ≡ some i
      → s'.all_blocks ≡ s.all_blocks
      → (s'.heap i).use_count ≡ change (s.heap i).use_count
      → ((j : ℕ) → i ≢ j → (s'.heap j).use_count ≡ (s.heap j).use_count)
      → (q : ℕ) → owners s' q ≡ (if q == p then change (owners s q) else owners s q)
  one_changed change p i s' here map counted others q = elim (Bool-cases (q == p)) [
    | inl same ↦ rw (same, (==_iff q p).0 same, map, here) counted
    | inr other ↦ rw other (elim (Option-cases (find q s.all_blocks)) [
      | inl missing ↦ rw (map, missing) refl
      | inr (j, there) ↦
          rw (map, there) (others j (same_block p q i j here there (λ e. ground arith)))
    ])
  ]

  abbrev one_fewer : ℕ → State
  one_fewer i =
      let b = s.heap i in
      record s { heap = update s.heap i (record b { use_count = b.use_count - 1 }) }

  -- A release by the block, where its address is known.
  release_block-Ledger :
      (p i : ℕ)
      → find (suc p) s.all_blocks ≡ some i
      → let r = release_block i s in Ledger (released (suc p) r.0) (owners s) (owners r.1)
  unfolding release_block
  release_block-Ledger p i here =
      let o = v.owned (suc p) i here in
      elim (Bool-cases (not (s.heap i).in_use || ((s.heap i).use_count == 0))) [
        | inl idle ↦ rw (idle, release_block) (λ q. refl)
        | inr held ↦ elim (Bool-cases (ltb 1 (s.heap i).use_count)) [
          | inl shared ↦
              rw (held, shared, release_block)
                (
                  rw here (ground arith),
                  one_changed (λ n. n - 1) (suc p) i (one_fewer i) here refl (ground arith)
                      (λ j ne. ground arith),
                )
          | inr last ↦
              rw (held, last, release_block)
                (
                  rw here (ground arith),
                  one_changed (λ n. n - 1) (suc p) i (give_back i s) here
                      (unfold give_back in ground arith) (unfold give_back in ground arith)
                      (λ j ne. unfold give_back in ground arith),
                )
        ]
      ]

  pub deallocate-Ledger :
      (p : ℕ) → let r = deallocate p s in Ledger (released p r.0) (owners s) (owners r.1)
  unfolding deallocate
  deallocate-Ledger zero = λ q. refl
  deallocate-Ledger (suc p) = elim (Option-cases (find (suc p) s.all_blocks)) [
    | inl missing ↦ rw (==_ne (suc p) 0 (λ e. omega arith), missing, deallocate) (λ q. refl)
    | inr (i, here) ↦
        rw (==_ne (suc p) 0 (λ e. omega arith), here, deallocate) (release_block-Ledger p i here)
  ]

  pub retain_allocation-Ledger :
      (p : ℕ)
      → ((i : ℕ) → find p s.all_blocks ≡ some i → (s.heap i).use_count < u64_mod - 1)
      → let r = retain_allocation p s in Ledger (retained p r.0) (owners s) (owners r.1)
  unfolding retain_allocation retain_block
  retain_allocation-Ledger p room = elim (Option-cases (find p s.all_blocks)) [
    | inl missing ↦ rw (missing, retain_allocation) (λ q. refl)
    | inr (i, here) ↦
        rw (here, retain_allocation)
          (one_changed (λ n. n + 1) p i (retain_block i s).1 here refl
            (let r = room i here in ground arith) (λ j ne. ground arith))
  ]
