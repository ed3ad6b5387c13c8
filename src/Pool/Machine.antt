-- ===== src/Pool/Machine.antt =====
-- The data of src/reusable_memory_pool.cc: blocks, size classes and the state of a pool.
-- A `shared_ptr<Block>` is a number, the block's place in `heap`. A thread id is a number.
use infini_rt.Base.{
  ℕ, ◌*◌, ◌≡◌, refl, Bool, false, ◌==◌, if◌then◌else◌, List, [], ◌∷◌, Option, none, some, ◌⊎◌, inl,
  inr, arith, get_or, set,
}
use infini_rt.Device.{Device}

pub data Kind : Type 0 where
  size_class large exact : Kind

pub record Block : Type 0 where
  pub ptr : ℕ
  pub size : ℕ
  pub kind : Kind
  pub class_index : ℕ
  pub pin_count : ℕ
  pub in_use : Bool
  pub use_count : ℕ
  pub allocation_capture_generation : ℕ

-- `make_shared<Block>()`.
abbrev pub new_block : Block
new_block = record {
  ptr = 0;
  size = 0;
  kind = large;
  class_index = 0;
  pin_count = 0;
  in_use = false;
  use_count = 0;
  allocation_capture_generation = 0;
}

pub record SizeClass : Type 0 where
  pub block_size : ℕ
  pub free_blocks : List ℕ

pub record State : Type 0 where
  pub device : Device
  pub stream : ℕ
  pub allocation_stream : ℕ
  pub pinned_mode : Bool
  pub pin_owner : Option ℕ
  pub capture_generation : ℕ
  pub size_classes : List SizeClass
  pub large_blocks : List ℕ
  pub all_blocks : List (ℕ × ℕ)
  pub capture_frozen_blocks : List ℕ
  pub capture_frozen_block_set : List ℕ
  pub heap : ℕ → Block
  pub next_block : ℕ

-- The exceptions that the pool throws, by their message.
pub data Error : Type 0 where
  invalid_device cannot_select create_stream zero_exact too_large : Error
  query_capture grow_in_capture allocate_class allocate_large : Error
  unknown_pointer double_free : Error
  already_pinned stale_blocks generation_exhausted : Error
  commit_by_other cancel_by_other not_capturing not_pool_owned : Error
  trim_class trim_large : Error

pub data Result {ℓ} (A : Type ℓ) : Type ℓ where
  ok : A → Result A
  err : Error → Result A

pub Result-cases {ℓ} :
    {A : Type ℓ} (r : Result A) → ((a : A) × (r ≡ ok a)) ⊎ ((e : Error) × (r ≡ err e))
Result-cases (ok a) = inl (a, refl)
Result-cases (err e) = inr (e, refl)

abbrev kib : ℕ
kib = 1024

abbrev mib : ℕ
mib = 1024 * 1024

abbrev pub empty_class : ℕ → SizeClass
empty_class n = record { block_size = n; free_blocks = [] }

abbrev pub initial_classes : List SizeClass
initial_classes =
    empty_class (32 * kib)
    ∷ empty_class (256 * kib)
    ∷ empty_class (1 * mib)
    ∷ empty_class (2 * mib)
    ∷ empty_class (4 * mib)
    ∷ empty_class (8 * mib)
    ∷ empty_class (16 * mib)
    ∷ empty_class (32 * mib)
    ∷ empty_class (64 * mib)
    ∷ empty_class (128 * mib)
    ∷ empty_class (256 * mib)
    ∷ []

abbrev pub free_of : List SizeClass → ℕ → List ℕ
free_of classes c = (get_or classes c (empty_class 0)).free_blocks

abbrev pub block_size_of : List SizeClass → ℕ → ℕ
block_size_of classes c = (get_or classes c (empty_class 0)).block_size

abbrev pub set_free : List SizeClass → ℕ → List ℕ → List SizeClass
set_free classes c ids =
    set classes c (record { block_size = block_size_of classes c; free_blocks = ids })

-- Assignment through a shared pointer.
abbrev pub update : (ℕ → Block) → ℕ → Block → ℕ → Block
update h i b j = if i == j then b else h j

-- `all_blocks_`: find, emplace (which keeps an entry that is there) and erase.
abbrev pub find : ℕ → List (ℕ × ℕ) → Option ℕ
find p [] = none
find p ((q, i) ∷ rest) = if p == q then some i else find p rest

abbrev pub emplace : ℕ → ℕ → List (ℕ × ℕ) → List (ℕ × ℕ)
emplace p i m = elim (find p m) [ none ↦ (p, i) ∷ m | some j ↦ m ]

abbrev pub erase : ℕ → List (ℕ × ℕ) → List (ℕ × ℕ)
erase p [] = []
erase p ((q, i) ∷ rest) = if p == q then erase p rest else (q, i) ∷ erase p rest

pub find-erase :
    (p q : ℕ) (m : List (ℕ × ℕ)) → find p (erase q m) ≡ (if p == q then none else find p m)
find-erase p q [] = ground arith
find-erase p q ((r, i) ∷ m) = ground (arith, find-erase p q m)

pub find-emplace :
    (p q i : ℕ) (m : List (ℕ × ℕ))
    → find q m ≡ none
    → find p (emplace q i m) ≡ (if p == q then some i else find p m)
find-emplace p q i m h = ground arith
