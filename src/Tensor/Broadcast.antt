-- ===== src/Tensor/Broadcast.antt =====
-- What `HasBroadcastDim` of src/tensor_view.cc tells.
use infini_rt.Base.{
  ℕ, zero, suc, ◌+◌, ◌<◌, ◌≤◌, ◌≡◌, ◌≢◌, refl, ◌==◌, List, true, false, Bool-cases, inl, inr, arith,
  length, get_or, ==_ne,
}
use infini_rt.Tensor.View.{TensorView, any_broadcast, has_broadcast_dim}

any_broadcast-one :
    (n i : ℕ) (shape strides : List ℕ)
    → (get_or shape i 0 == 1) ≡ true
    → any_broadcast n i shape strides ≡ false
unfolding any_broadcast
any_broadcast-one zero i shape strides one = refl
any_broadcast-one (suc n) i shape strides one = rw one (any_broadcast-one n i shape strides one)

-- HasBroadcastDim answers false for each view whose first size is one, whatever the other sizes
-- and strides are.
pub leading_one : (t : TensorView) → get_or t.shape 0 0 ≡ 1 → has_broadcast_dim t ≡ false
unfolding has_broadcast_dim
leading_one t one = any_broadcast-one (length t.shape) 0 t.shape t.strides (ground arith)

any_broadcast_sound :
    (n i : ℕ) (shape strides : List ℕ)
    → any_broadcast n i shape strides ≡ true
    → (j : ℕ) × (j < i + n) × (get_or shape j 0 ≢ 1) × (get_or strides j 0 ≡ 0)
unfolding any_broadcast
any_broadcast_sound zero i shape strides h = absurd (ground arith)
any_broadcast_sound (suc n) i shape strides h = elim (Bool-cases (get_or shape i 0 == 1)) [
  | inl one ↦ absurd (ground (arith, any_broadcast-one n i shape strides one))
  | inr other ↦ elim (Bool-cases (get_or strides i 0 == 0)) [
    | inl here ↦ (i, omega arith, (λ e. ground arith), ground arith)
    | inr elsewhere ↦
        let (j, below, wide, flat) = any_broadcast_sound n (suc i) shape strides (ground arith) in
        (j, omega arith, wide, flat)
  ]
]

any_broadcast_complete :
    (n i j : ℕ) (shape strides : List ℕ)
    → ((k : ℕ) → k < i + n → get_or shape k 0 ≢ 1)
    → i ≤ j
    → j < i + n
    → get_or strides j 0 ≡ 0
    → any_broadcast n i shape strides ≡ true
unfolding any_broadcast
any_broadcast_complete zero i j shape strides wide low high flat = absurd (omega arith)
any_broadcast_complete (suc n) i j shape strides wide low high flat =
    elim (Bool-cases (get_or strides i 0 == 0)) [
      | inl here ↦ rw (==_ne (get_or shape i 0) 1 (wide i (omega arith)), here) refl
      | inr elsewhere ↦
          rw (==_ne (get_or shape i 0) 1 (wide i (omega arith)), elsewhere)
            (any_broadcast_complete n (suc i) j shape strides (λ k b. wide k (omega arith))
              (ground arith) (omega arith) flat)
    ]

-- If HasBroadcastDim answers true, some dimension has a size other than one and a stride of zero.
-- If no size is one, it answers true for every view in which some stride is zero.
pub has_broadcast_dim_lem :
    (t : TensorView)
    → (has_broadcast_dim t ≡ true
        → (j : ℕ) × (j < length t.shape) × (get_or t.shape j 0 ≢ 1) × (get_or t.strides j 0 ≡ 0))
      × (((k : ℕ) → k < length t.shape → get_or t.shape k 0 ≢ 1)
          → (j : ℕ) → j < length t.shape
          → get_or t.strides j 0 ≡ 0
          → has_broadcast_dim t ≡ true)
unfolding has_broadcast_dim
has_broadcast_dim_lem t = (
  (λ h.
      let (j, below, wide, flat) = any_broadcast_sound (length t.shape) 0 t.shape t.strides h in
      (j, omega arith, wide, flat)),
  λ wide j below flat.
      any_broadcast_complete (length t.shape) 0 j t.shape t.strides (λ k b. wide k (omega arith))
        (omega arith) (omega arith) flat,
)
