-- ===== src/Pool/TrimClasses.antt =====
-- The loop of `trim` over the size classes.
use infini_rt.Base.{
  ℕ, zero, suc, ◌+◌, ◌<◌, ◌≡◌, refl, ap, ltb, List, [], ◌∷◌, arith, length, none, some, true, false,
  count, Bool-cases, inl, inr, Option-cases, ◌⊎◌,
}
use infini_rt.Facade.{Facade, Allocates}
use infini_rt.Pool.Machine.{State, SizeClass, find, free_of, block_size_of}
use infini_rt.Pool.Release.{Trimmed, trim_list, TrimmedClasses, trim_classes, unpinned}
use infini_rt.Pool.Trimming.{Trimmable, Trims, trim_list-Trims}

module _ {W : Type 0} (f : Facade W) (laws : Allocates f) (s : State) where
  -- `k` classes stand before the list.
  pub record TrimmableClasses (k : ℕ) (cs : List SizeClass) (all : List (ℕ × ℕ)) (w : W)
      : Type 0 where
    pub registered :
        (c j : ℕ)
        → 0 < count j (free_of cs c)
        → (find (s.heap j).ptr all ≡ some j)
          × (count j (free_of cs c) ≡ 1)
          × ((s.heap j).class_index ≡ k + c)
    pub at_ptr : (q j : ℕ) → find q all ≡ some j → (s.heap j).ptr ≡ q
    pub backed : (q j : ℕ) → find q all ≡ some j → laws.live w q ≡ true

  pub record TrimsClasses (cs : List SizeClass) (all : List (ℕ × ℕ)) (w : W) (r : TrimmedClasses W)
      : Type 0 where
    pub same_length : length r.classes ≡ length cs
    pub same_sizes : (c : ℕ) → block_size_of r.classes c ≡ block_size_of cs c
    pub listed :
        (c j : ℕ)
        → 0 < count j (free_of r.classes c)
        → (find (s.heap j).ptr r.all ≡ some j)
          × (count j (free_of r.classes c) ≡ count j (free_of cs c))
    pub clean :
        r.failed ≡ false
        → (c j : ℕ) → 0 < count j (free_of r.classes c)
        → unpinned (s.heap j) ≡ false
    pub old :
        (q j : ℕ)
        → find q r.all ≡ some j
        → (find q all ≡ some j) × ((c : ℕ) → count j (free_of r.classes c) ≡ count j (free_of cs c))
    pub backed : (q j : ℕ) → find q r.all ≡ some j → laws.live r.world q ≡ true
    pub gone :
        (q j : ℕ)
        → find q all ≡ some j
        → (find q r.all ≡ some j)
          ⊎ ((find q r.all ≡ none)
              × (unpinned (s.heap j) ≡ true)
              × (laws.live r.world q ≡ false)
              × ((c : ℕ) × (0 < count j (free_of cs c))))
    pub falls : (q : ℕ) → laws.live w q ≡ false → laws.live r.world q ≡ false

  module _ (k : ℕ) (cls : SizeClass) (cs : List SizeClass) (all : List (ℕ × ℕ)) (w : W)
      (can : TrimmableClasses k (cls ∷ cs) all w) where
    head-Trimmable : Trimmable f laws unpinned s cls.free_blocks all w
    head-Trimmable = record {
      registered = λ j h. let r = can.registered 0 j h in (r.0, r.1);
      at_ptr = can.at_ptr;
      backed = can.backed;
    }

    abbrev head_trimmed : Trimmed W
    head_trimmed = trim_list f unpinned s cls.free_blocks all w

    head-Trims : Trims f laws unpinned s cls.free_blocks all w head_trimmed
    head-Trims = trim_list-Trims f laws unpinned s cls.free_blocks all w head-Trimmable

    not_first : (c j : ℕ) → 0 < count j (free_of cs c) → count j cls.free_blocks ≡ 0
    not_first c j h = elim (Bool-cases (ltb 0 (count j cls.free_blocks))) [
      | inl here ↦
          let a = can.registered 0 j (ground arith) in
          let b = can.registered (suc c) j h in absurd (omega (arith, a.2, b.2))
      | inr other ↦ ground arith
    ]

    -- A block of a later class is not touched by the first loop.
    still_there :
        (c j : ℕ) → 0 < count j (free_of cs c) → find (s.heap j).ptr head_trimmed.all ≡ some j
    still_there c j h = elim (head-Trims.gone (s.heap j).ptr j (can.registered (suc c) j h).0) [
      | inl e ↦ e
      | inr dropped ↦ absurd (omega (arith, dropped.2, not_first c j h))
    ]

    tail-Trimmable : TrimmableClasses (suc k) cs head_trimmed.all head_trimmed.world
    tail-Trimmable =
        let t = head-Trims in
        record {
          registered = λ c j h.
              let r = can.registered (suc c) j h in (still_there c j h, r.1, omega (arith, r.2));
          at_ptr = λ q j e. can.at_ptr q j (t.old q j e).0;
          backed = t.backed;
        }

    stop-Trims :
        head_trimmed.failed ≡ true
        → TrimsClasses (cls ∷ cs) all w (record {
          failed = true;
          classes = record cls { free_blocks = head_trimmed.ids } ∷ cs;
          all = head_trimmed.all;
          world = head_trimmed.world;
        })
    stop-Trims bad =
        let t = head-Trims in
        record {
          same_length = refl;
          same_sizes = elim [ zero ↦ refl | suc c ↦ refl ];
          listed = elim [ zero ↦ λ j h. t.listed j h | suc c ↦ λ j h. (still_there c j h, refl) ];
          clean = λ e. cc;
          old = λ q j e. let o = t.old q j e in (o.0, elim [ zero ↦ o.1 | suc c ↦ refl ]);
          backed = t.backed;
          gone = λ q j e. elim (t.gone q j e) [
            | inl here ↦ inl here
            | inr dropped ↦ inr (dropped.0, dropped.1, dropped.3, (0, dropped.2))
          ];
          falls = t.falls;
        }

    kept_first :
        (r : TrimmedClasses W)
        → TrimsClasses cs head_trimmed.all head_trimmed.world r
        → (j : ℕ) → 0 < count j head_trimmed.ids
        → find (s.heap j).ptr r.all ≡ some j
    kept_first r rest j h =
        let l = head-Trims.listed j h in
        elim (rest.gone (s.heap j).ptr j l.0) [
          | inl here ↦ here
          | inr (_, _, _, (c, h')) ↦ absurd (omega (arith, l.1, not_first c j h'))
        ]

    go_on-gone :
        (r : TrimmedClasses W)
        → TrimsClasses cs head_trimmed.all head_trimmed.world r
        → (q j : ℕ) → find q all ≡ some j
        → (find q r.all ≡ some j)
          ⊎ ((find q r.all ≡ none)
              × (unpinned (s.heap j) ≡ true)
              × (laws.live r.world q ≡ false)
              × ((c : ℕ) × (0 < count j (free_of (cls ∷ cs) c))))
    go_on-gone r rest q j e = elim (head-Trims.gone q j e) [
      | inl here ↦ elim (rest.gone q j here) [
        | inl still ↦ inl still
        | inr (missing, drop, dead, (c, h)) ↦ inr (missing, drop, dead, (suc c, h))
      ]
      | inr (missing, drop, here, dead) ↦ elim (Option-cases (find q r.all)) [
        | inl gone ↦ inr (gone, drop, rest.falls q dead, (0, here))
        | inr (k', e') ↦ absurd (ground (arith, (rest.old q k' e').0))
      ]
    ]

    go_on-Trims :
        (r : TrimmedClasses W)
        → head_trimmed.failed ≡ false
        → TrimsClasses cs head_trimmed.all head_trimmed.world r
        → TrimsClasses
            (cls ∷ cs)
            all
            w
            (record r { classes = record cls { free_blocks = head_trimmed.ids } ∷ r.classes })
    go_on-Trims r fine rest =
        let t = head-Trims in
        record {
          same_length = ap suc rest.same_length;
          same_sizes = elim [ zero ↦ refl | suc c ↦ rest.same_sizes c ];
          listed = elim [
            | zero ↦ λ j h. (kept_first r rest j h, (t.listed j h).1)
            | suc c ↦ rest.listed c
          ];
          clean = λ e. elim [ zero ↦ t.clean fine | suc c ↦ rest.clean e c ];
          old = λ q j e.
              let later = rest.old q j e in
              let o = t.old q j later.0 in (o.0, elim [ zero ↦ o.1 | suc c ↦ later.1 c ]);
          backed = rest.backed;
          gone = go_on-gone r rest;
          falls = λ q e. rest.falls q (t.falls q e);
        }

  pub trim_classes-Trims :
      (k : ℕ) (cs : List SizeClass) (all : List (ℕ × ℕ)) (w : W)
      → TrimmableClasses k cs all w
      → TrimsClasses cs all w (trim_classes f s cs all w)
  unfolding trim_classes
  trim_classes-Trims k [] all w can = record {
    same_length = refl;
    same_sizes = λ c. refl;
    listed = λ c j h. absurd (omega arith);
    clean = λ e c j h. absurd (omega arith);
    old = λ q j e. (e, λ c. refl);
    backed = can.backed;
    gone = λ q j e. inl e;
    falls = λ q e. e;
  }
  trim_classes-Trims k (cls ∷ cs) all w can =
      elim (Bool-cases (trim_list f unpinned s cls.free_blocks all w).failed) [
        | inl bad ↦ rw bad (stop-Trims k cls cs all w can bad)
        | inr fine ↦ rw fine (
            go_on-Trims k cls cs all w can _ fine
              (trim_classes-Trims (suc k) cs _ _ (tail-Trimmable k cls cs all w can)))
      ]
