-- ===== src/Pool/Trimming.antt =====
-- One loop of `trim`: what it takes out of its list and of `all_blocks_`, and what it keeps.
use infini_rt.Base.{
  ℕ, ◌<◌, ◌≡◌, ◌≢◌, refl, ◌==◌, List, [], ◌∷◌, arith, none, some, Bool, true, false, count,
  Bool-cases, inl, inr, Option-cases, ◌⊎◌,
}
use infini_rt.Facade.{Facade, Allocates}
use infini_rt.Pool.Machine.{Block, State, find, erase, find-erase}
use infini_rt.Pool.Allocate.{free_block}
use infini_rt.Pool.Backing.{live-free_block}
use infini_rt.Pool.Release.{Trimmed, trim_list}

module _ {W : Type 0} (f : Facade W) (laws : Allocates f) (drop : Block → Bool) (s : State) where
  -- Every block of the list is registered, once, and every entry has its address and is live.
  pub record Trimmable (is : List ℕ) (all : List (ℕ × ℕ)) (w : W) : Type 0 where
    pub registered :
        (j : ℕ) → 0 < count j is → (find (s.heap j).ptr all ≡ some j) × (count j is ≡ 1)
    pub at_ptr : (q j : ℕ) → find q all ≡ some j → (s.heap j).ptr ≡ q
    pub backed : (q j : ℕ) → find q all ≡ some j → laws.live w q ≡ true

  pub record Trims (is : List ℕ) (all : List (ℕ × ℕ)) (w : W) (t : Trimmed W) : Type 0 where
    -- What the list still holds is registered, and the loop did not mean to drop it if it ended.
    pub listed :
        (j : ℕ)
        → 0 < count j t.ids
        → (find (s.heap j).ptr t.all ≡ some j) × (count j t.ids ≡ count j is)
    pub clean : t.failed ≡ false → (j : ℕ) → 0 < count j t.ids → drop (s.heap j) ≡ false
    -- What `all_blocks_` still holds was there, is live, and stays in the list.
    pub old :
        (q j : ℕ) → find q t.all ≡ some j → (find q all ≡ some j) × (count j t.ids ≡ count j is)
    pub backed : (q j : ℕ) → find q t.all ≡ some j → laws.live t.world q ≡ true
    -- An entry is gone only if its block was dropped; its address is then free.
    pub gone :
        (q j : ℕ)
        → find q all ≡ some j
        → (find q t.all ≡ some j)
          ⊎ ((find q t.all ≡ none)
              × (drop (s.heap j) ≡ true)
              × (0 < count j is)
              × (laws.live t.world q ≡ false))
    pub falls : (q : ℕ) → laws.live w q ≡ false → laws.live t.world q ≡ false

  trim_list-nil :
      (all : List (ℕ × ℕ)) (w : W)
      → Trimmable [] all w
      → Trims [] all w (trim_list f drop s [] all w)
  unfolding trim_list
  trim_list-nil all w ok = record {
    listed = λ j h. absurd (omega arith);
    clean = λ e j h. absurd (omega arith);
    old = λ q j e. (e, refl);
    backed = ok.backed;
    gone = λ q j e. inl e;
    falls = λ q e. e;
  }

  module _ (i : ℕ) (is : List ℕ) (all : List (ℕ × ℕ)) (w : W) (can : Trimmable (i ∷ is) all w) where
    tail-Trimmable : Trimmable is all w
    tail-Trimmable = record {
      registered = λ j h. ground (arith, can.registered j);
      at_ptr = can.at_ptr;
      backed = can.backed;
    }

    freed-Trimmable :
        (free_block f (s.heap i).ptr s w).0 ≡ 0
        → Trimmable is (erase (s.heap i).ptr all) (free_block f (s.heap i).ptr s w).1
    freed-Trimmable fine = record {
      registered = λ j h.
          ground (
            arith,
            can.registered j,
            can.registered i,
            find-erase (s.heap j).ptr (s.heap i).ptr all,
          );
      at_ptr = λ q j e. ground (arith, can.at_ptr q j, find-erase q (s.heap i).ptr all);
      backed = λ q j e. ground (
        arith,
        can.backed q j,
        find-erase q (s.heap i).ptr all,
        live-free_block f laws s (s.heap i).ptr q w,
      );
    }

    dropped-gone :
        (t : Trimmed W)
        → drop (s.heap i) ≡ true
        → (free_block f (s.heap i).ptr s w).0 ≡ 0
        → Trims is (erase (s.heap i).ptr all) (free_block f (s.heap i).ptr s w).1 t
        → (q j : ℕ) → find q all ≡ some j
        → (find q t.all ≡ some j)
          ⊎ ((find q t.all ≡ none)
              × (drop (s.heap j) ≡ true)
              × (0 < count j (i ∷ is))
              × (laws.live t.world q ≡ false))
    dropped-gone t yes_drop fine r q j e = elim (Bool-cases (q == (s.heap i).ptr)) [
      | inl same ↦
          let once = can.registered i (grind arith) in
          elim (Option-cases (find q t.all)) [
            | inl missing ↦ inr (
              missing,
              ground arith,
              ground arith,
              ground (arith, r.falls q, live-free_block f laws s (s.heap i).ptr q w),
            )
            | inr (k, e') ↦ absurd (ground (arith, r.old q k e', find-erase q (s.heap i).ptr all))
          ]
      | inr other ↦ ground (arith, r.gone q j, find-erase q (s.heap i).ptr all)
    ]

    dropped-Trims :
        (t : Trimmed W)
        → drop (s.heap i) ≡ true
        → (free_block f (s.heap i).ptr s w).0 ≡ 0
        → Trims is (erase (s.heap i).ptr all) (free_block f (s.heap i).ptr s w).1 t
        → Trims (i ∷ is) all w t
    dropped-Trims t yes_drop fine r =
        let once = can.registered i (grind arith) in
        record {
          listed = λ j h. let l = r.listed j h in ground (arith, can.registered j);
          clean = r.clean;
          old = λ q j e.
              let o = r.old q j e in
              ground (arith, can.at_ptr q j, find-erase q (s.heap i).ptr all);
          backed = r.backed;
          gone = dropped-gone t yes_drop fine r;
          falls = λ q e. ground (arith, r.falls q, live-free_block f laws s (s.heap i).ptr q w);
        }

    stuck-Trims :
        drop (s.heap i) ≡ true
        → (free_block f (s.heap i).ptr s w).0 ≢ 0
        → Trims (i ∷ is) all w (record {
          failed = true;
          ids = i ∷ is;
          all = all;
          world = (free_block f (s.heap i).ptr s w).1;
        })
    stuck-Trims yes_drop bad = record {
      listed = λ j h. ((can.registered j h).0, refl);
      clean = λ e. cc;
      old = λ q j e. (e, refl);
      backed = λ q j e. ground (arith, can.backed q j, live-free_block f laws s (s.heap i).ptr q w);
      gone = λ q j e. inl e;
      falls = λ q e. ground (arith, live-free_block f laws s (s.heap i).ptr q w);
    }

    kept-Trims :
        (t : Trimmed W)
        → drop (s.heap i) ≡ false
        → Trims is all w t
        → Trims (i ∷ is) all w (record t { ids = i ∷ t.ids })
    kept-Trims t keep r = record {
      listed = λ j h.
          let once = can.registered i (grind arith) in
          ground (arith, r.listed j, r.listed i, r.gone (s.heap i).ptr i once.0);
      clean = λ e j h. ground (arith, r.clean e j);
      old = λ q j e. ground (arith, r.old q j e);
      backed = r.backed;
      gone = λ q j e. ground (arith, r.gone q j e);
      falls = r.falls;
    }

  pub trim_list-Trims :
      (is : List ℕ) (all : List (ℕ × ℕ)) (w : W)
      → Trimmable is all w
      → Trims is all w (trim_list f drop s is all w)
  unfolding trim_list
  trim_list-Trims [] all w can = trim_list-nil all w can
  trim_list-Trims (i ∷ is) all w can = elim (Bool-cases (drop (s.heap i))) [
    | inr keep ↦ rw keep (
        kept-Trims i is all w can _ keep (trim_list-Trims is all w (tail-Trimmable i is all w can)))
    | inl yes_drop ↦ elim (Bool-cases ((free_block f (s.heap i).ptr s w).0 == 0)) [
      | inl fine ↦
          rw (yes_drop, fine)
            (dropped-Trims i is all w can _ yes_drop (ground arith)
              (trim_list-Trims is _ _ (freed-Trimmable i is all w can (ground arith))))
      | inr bad ↦ rw (yes_drop, bad) (stuck-Trims i is all w can yes_drop (ground arith))
    ]
  ]
