-- ===== src/Examples/VectorCases.antt =====
-- Vectors of numbers, with two inline elements.
use infini_rt.Base.{
  ℕ, ◌≡◌, ◌≤◌, refl, Bool, true, false, [], ◌∷◌, none, some, arith, leb, leb→le, if◌then◌else◌,
  ◌==◌, ◌%◌,
}
use infini_rt.SmallVector.Memory.{Config, Memory}
use infini_rt.SmallVector.Storage.{SmallVector, inline_storage, heap_data, empty}
use infini_rt.SmallVector.Modify.{push_back}
use infini_rt.SmallVector.Assign.{copy_construct, copy_assign, move_assign}
use infini_rt.SmallVector.Initialize.{initialize_forward_range}
use infini_rt.SmallVector.Assigned.{move_assign_lem}
use infini_rt.SmallVector.Renewed.{
  Renews, copy_construct-Renews, copy_assign-Renews, initialize_forward_range-Renews,
}
use infini_rt.SmallVector.Valid.{Sane, Holds, Shape, owns}
use infini_rt.SmallVector.Extension.{Changes}
use infini_rt.SmallVector.Growth.{push_back-Changes}

abbrev pairs : Config ℕ
pairs = record { inline_capacity = 2; max_size = 1000; blank = 99; value_initialized = 0 }

abbrev grant_small : ℕ → Memory ℕ → Bool
grant_small n h = leb n 1000

grant_small-within : (n : ℕ) (h : Memory ℕ) → grant_small n h ≡ true → n ≤ 1000
grant_small-within n h e = leb→le n 1000 e

-- A cast from a wider type.
abbrev to_byte : ℕ → ℕ
to_byte n = n % 256

abbrev fresh_memory : Memory ℕ
fresh_memory = record { top = 0; blocks = λ q. none; fault = false }

fresh-Sane : Sane fresh_memory
fresh-Sane = record { defined = refl; unused = λ q above. refl }

abbrev full : SmallVector ℕ
full = record { storage = inline_storage (7 ∷ 8 ∷ []); size = 2; capacity = 2 }

full-Holds : Holds pairs full fresh_memory (7 ∷ 8 ∷ [])
full-Holds = record {
  fits = omega arith;
  bounded = omega arith;
  shaped = (refl, refl);
  contents = refl;
}

push_back-Changes_example :
    Changes pairs full fresh_memory
      (7 ∷ 8 ∷ 9 ∷ [])
      (push_back pairs grant_small 9 full fresh_memory)
push_back-Changes_example =
    push_back-Changes pairs grant_small grant_small-within (omega arith) full fresh_memory
      (7 ∷ 8 ∷ []) fresh-Sane full-Holds 9 (omega arith)

-- A vector of three elements in a block of four at address 1.
abbrev one_block : Memory ℕ
one_block = record {
  top = 1;
  blocks = λ q. if q == 1 then some (7 ∷ 8 ∷ 9 ∷ 99 ∷ []) else none;
  fault = false;
}

abbrev on_heap : SmallVector ℕ
on_heap = record { storage = heap_data 1; size = 3; capacity = 4 }

one_block-Sane : Sane one_block
one_block-Sane = record { defined = refl; unused = λ q above. ground arith }

on_heap-Shape : Shape pairs (heap_data 1) 4 one_block
on_heap-Shape = (omega arith, omega arith, omega arith, (7 ∷ 8 ∷ 9 ∷ 99 ∷ [], refl, refl))

on_heap-Holds : Holds pairs on_heap one_block (7 ∷ 8 ∷ 9 ∷ [])
on_heap-Holds = record {
  fits = omega arith;
  bounded = omega arith;
  shaped = on_heap-Shape;
  contents = refl;
}

-- An inline vector beside that block.
full-Holds_there : Holds pairs full one_block (7 ∷ 8 ∷ [])
full-Holds_there = record {
  fits = omega arith;
  bounded = omega arith;
  shaped = (refl, refl);
  contents = refl;
}

copy_construct-Renews_example :
    Renews pairs grant_small 4
      (empty pairs)
      one_block
      (7 ∷ 8 ∷ 9 ∷ [])
      (copy_construct pairs grant_small on_heap one_block)
copy_construct-Renews_example =
    copy_construct-Renews pairs grant_small grant_small-within (omega arith) (omega arith)
      (heap_data 1) 3 4 one_block (7 ∷ 8 ∷ 9 ∷ []) one_block-Sane on_heap-Holds

move_assign_lem_example :
    let r = move_assign pairs full on_heap one_block in
    Sane r.2
    × Holds pairs r.0 r.2 (7 ∷ 8 ∷ 9 ∷ [])
    × Holds pairs r.1 r.2 []
    × ((q : ℕ) → r.2.blocks q ≡ one_block.blocks q)
    × ((q : ℕ) → owns r.0.storage q ≡ owns on_heap.storage q)
    × ((q : ℕ) → owns r.1.storage q ≡ false)
move_assign_lem_example =
    move_assign_lem pairs (omega arith) full.storage (heap_data 1) 2 2 3 4 one_block (7 ∷ 8 ∷ [])
      (7 ∷ 8 ∷ 9 ∷ []) one_block-Sane full-Holds_there on_heap-Holds (λ q o. refl)

copy_assign-Renews_example :
    Renews pairs grant_small 4 full one_block
      (7 ∷ 8 ∷ 9 ∷ [])
      (copy_assign pairs grant_small full on_heap one_block)
copy_assign-Renews_example =
    copy_assign-Renews pairs grant_small grant_small-within (omega arith) full.storage (heap_data 1)
      2 2 3 4 one_block (7 ∷ 8 ∷ []) (7 ∷ 8 ∷ 9 ∷ []) one_block-Sane full-Holds_there on_heap-Holds

initialize_forward_range-Renews_example :
    Renews pairs grant_small 3 (empty pairs) fresh_memory (4 ∷ 5 ∷ 6 ∷ []) (
      initialize_forward_range pairs grant_small to_byte
        (260 ∷ 5 ∷ 6 ∷ [])
        (empty pairs)
        fresh_memory)
initialize_forward_range-Renews_example =
    initialize_forward_range-Renews pairs grant_small to_byte grant_small-within (omega arith)
      (260 ∷ 5 ∷ 6 ∷ []) fresh_memory fresh-Sane
