-- ===== src/SmallVector/Reassigned.antt =====
-- What `assign` gives, from a forward range and from an input range, in src/common/small_vector.h.
use infini_rt.Base.{
  ℕ, ◌≤◌, ◌<◌, ◌≡◌, ◌⊎◌, inl, inr, refl, sym, ◌∙◌, ap, Bool, true, false, none, Option, List, map,
  [], u64_mod, arith, Bool-cases, if◌then◌else◌,
}
use infini_rt.SmallVector.Memory.{Config, Memory}
use infini_rt.SmallVector.Storage.{SmallVector, empty, destroy}
use infini_rt.SmallVector.Initialize.{initialize_forward_range}
use infini_rt.SmallVector.Assign.{move_assign}
use infini_rt.SmallVector.Ranges.{assign_replacement, assign}
use infini_rt.SmallVector.Valid.{owns, Sane, Holds, Frame}
use infini_rt.SmallVector.Assigned.{move_assign_lem}
use infini_rt.SmallVector.Fresh.{Holds-same, unowned}
use infini_rt.SmallVector.Ranged.{
  Constructed, destroy-unowned, initialize_forward_range-Constructed,
}

module _ {A : Type 0} (c : Config A) (grants : ℕ → Memory A → Bool)
    (within : (n : ℕ) (h : Memory A) → grants n h ≡ true → n ≤ c.max_size)
    (small : c.max_size < u64_mod) (minimal : c.inline_capacity ≤ c.max_size) where
  -- The target holds the range, or the call threw, and the target and every block are as before.
  abbrev pub AssignedTo :
      SmallVector A → Memory A → List A → List A → Bool × SmallVector A × Memory A → Type 0
  AssignedTo v h old range r =
      ((r.0 ≡ false)
        × (r.1 ≡ v)
        × Sane r.2
        × Holds c v r.2 old
        × ((q : ℕ) → r.2.blocks q ≡ h.blocks q))
      ⊎ ((r.0 ≡ true) × Sane r.2 × Holds c r.1 r.2 range × Frame v.storage h r.1.storage r.2)

  module _ (v : SmallVector A) (h : Memory A) (old : List A) (sane : Sane h)
      (holds : Holds c v h old) where
    assign_replacement-AssignedTo :
        (range : List A) (r : Bool × SmallVector A × Memory A)
        → Constructed c grants within small h range r
        → AssignedTo v h old range (assign_replacement c v r)
    assign_replacement-AssignedTo range (false, v1, h1) (inl (e, sane1, blocks1)) =
        inl (refl, refl, sane1, Holds-same c v h h1 old holds sane1 (λ q o. blocks1 q), blocks1)
    assign_replacement-AssignedTo range (false, v1, h1) (inr (e, l)) = absurd (ground arith)
    assign_replacement-AssignedTo range (true, v1, h1) (inl (e, _, _)) = absurd (ground arith)
    assign_replacement-AssignedTo range (true, v1, h1) (inr (e, l)) =
        let apart : (q : ℕ) → owns v1.storage q ≡ true → owns v.storage q ≡ false = λ q mine.
          unowned c v.storage v.capacity h q holds.shaped (elim (l.fresh q mine) [
            | inl owned_before ↦ absurd (ground arith)
            | inr unused ↦ unused
          ]) in
        let kept : (q : ℕ) → owns v.storage q ≡ true → h1.blocks q ≡ h.blocks q = λ q mine.
          elim (Bool-cases (owns v1.storage q)) [
            | inl both ↦ absurd (ground (arith, apart q both))
            | inr other ↦ l.frame q other
          ] in
        let m = move_assign c v v1 h1 in
        let (sane2, holds2, gone2, blocks2, owner2, none2) =
          move_assign_lem c minimal v.storage v1.storage v.size v.capacity v1.size v1.capacity h1
            old range l.sane (Holds-same c v h h1 old holds l.sane kept) l.holds apart in
        let (sane3, top3, blocks3) =
          destroy-unowned c grants within small minimal m.1 m.2 [] sane2 gone2 none2 in
        inr (
          refl,
          sane3,
          Holds-same c m.0 m.2 (destroy c m.1 m.2) range holds2 sane3 (λ q o. blocks3 q),
          λ q free.
              blocks3 q
              ∙ blocks2 q
              ∙ ap (λ (b : Option (List A)). if owns v.storage q then none else b)
                  (l.frame q (sym (owner2 q) ∙ free)),
        )

    pub assign-AssignedTo :
        {B : Type 0} (cast : B → A) (range : List B)
        → AssignedTo v h old (map cast range) (assign c grants cast range v h)
    unfolding assign
    assign-AssignedTo cast range =
        assign_replacement-AssignedTo (map cast range)
          (initialize_forward_range c grants cast range (empty c) h)
          (initialize_forward_range-Constructed c grants within small minimal cast range h sane)
