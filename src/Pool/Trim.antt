-- ===== src/Pool/Trim.antt =====
-- `trim` as a whole: it drops unpinned free blocks only, and all of them if it returns.
use infini_rt.Base.{
  ℕ, ◌<◌, ◌≡◌, refl, arith, none, some, true, false, count, Bool-cases, inl, inr, Option-cases, ◌⊎◌,
}
use infini_rt.Facade.{Facade, Allocates}
use infini_rt.Pool.Machine.{size_class, State, ok, find}
use infini_rt.Pool.Allocate.{kind_eq}
use infini_rt.Pool.Classes.{kind_eq-class, kind_ne-class}
use infini_rt.Pool.Release.{
  Trimmed, trim_list, TrimmedClasses, trim_classes, unpinned_unused, trim_locked,
}
use infini_rt.Pool.Trimming.{Trimmable, Trims, trim_list-Trims}
use infini_rt.Pool.TrimClasses.{TrimmableClasses, TrimsClasses, trim_classes-Trims}
use infini_rt.Pool.Invariant.{Inv, IsFree}
use infini_rt.Pool.Backing.{Backed}

module _ {W : Type 0} (f : Facade W) (laws : Allocates f) where
  -- From `s` to `s'`: nothing is added or changed, and what is gone was free, unpinned, and is freed.
  pub record IsTrim (s s' : State) (w' : W) : Type 0 where
    pub same_heap : (j : ℕ) → s'.heap j ≡ s.heap j
    pub old : (q j : ℕ) → find q s'.all_blocks ≡ some j → find q s.all_blocks ≡ some j
    pub gone :
        (q j : ℕ)
        → find q s.all_blocks ≡ some j
        → (find q s'.all_blocks ≡ some j)
          ⊎ ((find q s'.all_blocks ≡ none)
              × ((s.heap j).pin_count ≡ 0)
              × ((s.heap j).in_use ≡ false)
              × (laws.live w' q ≡ false))

  -- What is left after a trim that did not throw is pinned or used.
  abbrev pub Complete : State → Type 0
  Complete s =
      (q j : ℕ)
      → find q s.all_blocks ≡ some j
      → (0 < (s.heap j).pin_count) ⊎ ((s.heap j).in_use ≡ true)

  module _ (s : State) (w : W) (v : Inv s) (backed : Backed f laws s w) where
    abbrev classes_trimmed : TrimmedClasses W
    classes_trimmed = trim_classes f s s.size_classes s.all_blocks w

    can : TrimmableClasses f laws s 0 s.size_classes s.all_blocks w
    can = record {
      registered = λ c j h.
          let fr = v.free c j h in
          let o = v.owned (s.heap j).ptr j fr.registered in
          (fr.registered, ground (arith, o.kept), ground arith);
      at_ptr = λ q j e. (v.owned q j e).at_ptr;
      backed = backed;
    }

    done : TrimsClasses f laws s s.size_classes s.all_blocks w classes_trimmed
    done = trim_classes-Trims f laws s 0 s.size_classes s.all_blocks w can

    abbrev halfway : State
    halfway = record s { size_classes = classes_trimmed.classes; all_blocks = classes_trimmed.all }

    halfway-Inv : Inv halfway
    halfway-Inv = record {
      owned = λ p j e.
          let was = done.old p j e in
          let o = v.owned p j was.0 in
          record {
            at_ptr = o.at_ptr;
            not_null = o.not_null;
            made = o.made;
            counted = o.counted;
            in_range = λ k.
                let r = o.in_range k in
                (
                  ground (arith, done.same_length),
                  ground (arith, done.same_sizes (s.heap j).class_index),
                );
            kept = λ k u. ground (arith, o.kept, was.1 (s.heap j).class_index);
            listed = o.listed;
          };
      free = λ c j h.
          let l = done.listed c j h in
          let fr = v.free c j (omega (arith, l.1)) in
          record {
            idle = fr.idle;
            of_class = fr.of_class;
            at_class = fr.at_class;
            registered = l.0;
          };
      large = λ j h. let l = v.large j h in (l.0, large_left j h);
    }
      where
        large_left :
            (j : ℕ) → 0 < count j s.large_blocks → find (s.heap j).ptr halfway.all_blocks ≡ some j
        large_left j h = elim (done.gone (s.heap j).ptr j (v.large j h).1) [
          | inl e ↦ e
          | inr (_, _, _, (c, h')) ↦ absurd ((v.large j h).0 (v.free c j h').of_class)
        ]

    halfway-IsTrim : IsTrim s halfway classes_trimmed.world
    halfway-IsTrim = record {
      same_heap = λ j. refl;
      old = λ q j e. (done.old q j e).0;
      gone = λ q j e. elim (done.gone q j e) [
        | inl e' ↦ inl e'
        | inr (missing, drop, dead, (c, h)) ↦ inr (missing, ground arith, (v.free c j h).idle, dead)
      ];
    }

    abbrev large_trimmed : Trimmed W
    large_trimmed =
        trim_list f unpinned_unused halfway s.large_blocks halfway.all_blocks classes_trimmed.world

    can_large :
        Trimmable f laws unpinned_unused halfway s.large_blocks halfway.all_blocks
          classes_trimmed.world
    can_large = record {
      registered = λ j h.
          let l = halfway-Inv.large j h in
          let o = halfway-Inv.owned (s.heap j).ptr j l.1 in (l.1, o.listed l.0);
      at_ptr = λ q j e. (halfway-Inv.owned q j e).at_ptr;
      backed = done.backed;
    }

    done_large :
        Trims f laws unpinned_unused halfway s.large_blocks halfway.all_blocks classes_trimmed.world
          large_trimmed
    done_large = trim_list-Trims f laws unpinned_unused halfway _ _ _ can_large

    abbrev trimmed : State
    trimmed = record halfway { large_blocks = large_trimmed.ids; all_blocks = large_trimmed.all }

    class_left : (c j : ℕ) → IsFree halfway c j → find (s.heap j).ptr large_trimmed.all ≡ some j
    class_left c j fr = elim (done_large.gone (s.heap j).ptr j fr.registered) [
      | inl e ↦ e
      | inr dropped ↦ absurd ((v.large j dropped.2).0 fr.of_class)
    ]

    trimmed-Inv : Inv trimmed
    trimmed-Inv = record {
      owned = λ p j e.
          let was = done_large.old p j e in
          let o = halfway-Inv.owned p j was.0 in
          record {
            at_ptr = o.at_ptr;
            not_null = o.not_null;
            made = o.made;
            counted = o.counted;
            in_range = o.in_range;
            kept = o.kept;
            listed = λ k. omega (arith, o.listed k, was.1);
          };
      free = λ c j h.
          let fr = halfway-Inv.free c j h in
          record {
            idle = fr.idle;
            of_class = fr.of_class;
            at_class = fr.at_class;
            registered = class_left c j fr;
          };
      large = λ j h. let l = done_large.listed j h in ((v.large j (omega (arith, l.1))).0, l.0);
    }

    trimmed-gone :
        (q j : ℕ)
        → find q s.all_blocks ≡ some j
        → (find q large_trimmed.all ≡ some j)
          ⊎ ((find q large_trimmed.all ≡ none)
              × ((s.heap j).pin_count ≡ 0)
              × ((s.heap j).in_use ≡ false)
              × (laws.live large_trimmed.world q ≡ false))
    trimmed-gone q j e = elim (halfway-IsTrim.gone q j e) [
      | inl here ↦ elim (done_large.gone q j here) [
        | inl still ↦ inl still
        | inr (missing, drop, listed, dead) ↦ inr (missing, ground arith, ground arith, dead)
      ]
      | inr (missing, unpinned_block, idle, dead) ↦ elim (Option-cases (find q large_trimmed.all)) [
        | inl gone ↦ inr (gone, unpinned_block, idle, done_large.falls q dead)
        | inr (k, e') ↦ absurd (ground (arith, (done_large.old q k e').0))
      ]
    ]

    trimmed-IsTrim : IsTrim s trimmed large_trimmed.world
    trimmed-IsTrim = record {
      same_heap = λ j. refl;
      old = λ q j e. halfway-IsTrim.old q j (done_large.old q j e).0;
      gone = trimmed-gone;
    }

    trimmed-Complete :
        classes_trimmed.failed ≡ false → large_trimmed.failed ≡ false → Complete trimmed
    trimmed-Complete fine fine_large q j e =
        let o = trimmed-Inv.owned q j e in
        elim (Bool-cases (s.heap j).in_use) [
          | inl used ↦ inr used
          | inr idle ↦ elim (Bool-cases (kind_eq (s.heap j).kind size_class)) [
            | inl cls ↦
                let here = o.kept (kind_eq-class _ cls) idle in
                inl (ground (arith, done.clean fine (s.heap j).class_index j))
            | inr other ↦
                let here = o.listed (kind_ne-class _ other) in
                inl (ground (arith, done_large.clean fine_large j))
          ]
        ]

  -- All of it for the call.
  pub trim_locked-Sound :
      (s : State) (w : W)
      → Inv s
      → Backed f laws s w
      → let r = trim_locked f s w in
        Inv r.1 × Backed f laws r.1 r.2 × IsTrim s r.1 r.2 × (r.0 ≡ ok 0 → Complete r.1)
  unfolding trim_locked
  trim_locked-Sound s w v backed = elim (Bool-cases (classes_trimmed s w v backed).failed) [
    | inl bad ↦
        rw bad (
          halfway-Inv s w v backed,
          (done s w v backed).backed,
          halfway-IsTrim s w v backed,
          λ e. cc,
        )
    | inr fine ↦ rw fine (
      trimmed-Inv s w v backed,
      (done_large s w v backed).backed,
      trimmed-IsTrim s w v backed,
      λ e. trimmed-Complete s w v backed fine (ground arith),
    )
  ]
