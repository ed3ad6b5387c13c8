-- ===== src/Pool/Backing.antt =====
-- The pool against the runtime below it: every address in `all_blocks_` is live there.
use infini_rt.Base.{
  ℕ, ◌<◌, ◌≡◌, refl, ◌==◌, if◌then◌else◌, arith, ◌&&◌, some, true, false, Bool-cases, inl, inr,
}
use infini_rt.Facade.{Facade, Answers, Allocates}
use infini_rt.Pool.Machine.{State, Result, ok, err, find}
use infini_rt.Pool.Allocate.{allocate_block, free_block}

module _ {W : Type 0} (f : Facade W) (laws : Allocates f) where
  abbrev pub Backed : State → W → Type 0
  Backed s w = (p i : ℕ) → find p s.all_blocks ≡ some i → laws.live w p ≡ true

  abbrev pub Unchanged : W → W → Type 0
  Unchanged w w' = (q : ℕ) → laws.live w' q ≡ laws.live w q

  abbrev pub Answer : W → Result (ℕ × ℕ) × W → Type 0
  Answer w (err e, w') = Unchanged w w'
  Answer w (ok (status, p), w') = Answers laws.live w status p w'

  pub allocate_block-Answer :
      (n : ℕ) (s : State) (w : W) → 0 < n → Answer w (allocate_block f n s w)
  unfolding allocate_block
  allocate_block-Answer n s w pos = elim (Bool-cases (s.allocation_stream == 0)) [
    | inl null ↦ elim (Bool-cases f.with_nvidia) [
      | inl nv ↦ rw (null, nv) (laws.malloc-Answers n w pos)
      | inr no_nv ↦ rw (null, no_nv) (laws.malloc-Answers n w pos)
    ]
    | inr own ↦ elim (Bool-cases f.with_nvidia) [
      | inr no_nv ↦ rw (own, no_nv) (laws.malloc_async-Answers n s.allocation_stream w pos)
      | inl nv ↦ elim (Bool-cases ((f.is_capturing s.allocation_stream w).0 == 0)) [
        | inr unknown ↦ rw (own, nv, unknown) (λ q. refl)
        | inl known ↦ elim (Bool-cases (f.is_capturing s.allocation_stream w).1) [
          | inl capture ↦ rw (own, nv, known, capture) (λ q. refl)
          | inr idle ↦
              rw (own, nv, known, idle) (laws.malloc_async-Answers n s.allocation_stream w pos)
        ]
      ]
    ]
  ]

  pub live-free_block :
      (s : State) (p q : ℕ) (w : W)
      → laws.live (free_block f p s w).1 q
        ≡ (if (free_block f p s w).0 == 0 && (q == p) then false else laws.live w q)
  unfolding free_block
  live-free_block s p q w =
      ground (arith, laws.live-free p q w, laws.live-free_async p s.allocation_stream q w)
