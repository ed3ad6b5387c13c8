-- ===== src/Examples/TensorCases.antt =====
-- Views of small tensors and their metadata.
use infini_rt.Base.{
  ℕ, ◌≡◌, ◌≤◌, ◌+◌, ◌*◌, ◌^◌, ◌%◌, refl, true, false, List, [], ◌∷◌, some, arith, Option,
}
use infini_rt.Device.{default_device, device_eq}
use infini_rt.Tensor.DataType.{float32, bfloat16_from_float, bfloat16_to_float}
use infini_rt.Tensor.View.{
  TensorView, view_of_shape, has_broadcast_dim, is_contiguous, equal_to, hash_view,
}
use infini_rt.Tensor.Tables.{bfloat16_round_trip, bfloat16_nearest}
use infini_rt.Tensor.Broadcast.{leading_one}
use infini_rt.Tensor.Contiguity.{view_of_shape-is_contiguous}
use infini_rt.Tensor.Hashing.{equal_to-hash_view}
use infini_rt.Sequences.{equal_from, equal_elements}
use infini_rt.Metadata.Layout.{combined_bytes, strides_place, combined_layout}
use infini_rt.Metadata.Storage.{
  ShapeStrides, OwnedVector, inline_storage, heap_storage, initialize_owned, move_construct,
  release_storage, shape_view, strides_view,
}
use infini_rt.Metadata.Valid.{Made}
use infini_rt.Metadata.Copies.{copy_construct_from, copy_construct_from_views}
use infini_rt.Metadata.Taken.{Accounts, initialize_owned-Accounts}
use infini_rt.Metadata.Ownership.{move_construct_views}

bfloat16_round_trip_example : bfloat16_from_float (bfloat16_to_float 16256) ≡ 16256
bfloat16_round_trip_example = bfloat16_round_trip 16256 (omega arith)

bfloat16_nearest_example :
    (bfloat16_from_float 1065353217 * 2 ^ 16 ≤ 1065353217 + 2 ^ 15)
    × (1065353217 ≤ bfloat16_from_float 1065353217 * 2 ^ 16 + 2 ^ 15)
bfloat16_nearest_example = bfloat16_nearest 1065353217 (omega arith)

-- One row of one value, four times.
abbrev stretched : TensorView
stretched = record {
  data_pointer = 4096;
  shape = 1 ∷ 4 ∷ [];
  strides = 4 ∷ 0 ∷ [];
  dtype = float32;
  device = default_device;
}

leading_one_example : has_broadcast_dim stretched ≡ false
leading_one_example = leading_one stretched refl

abbrev block_shape : List ℕ
block_shape = 2 ∷ 3 ∷ 4 ∷ []

view_of_shape-is_contiguous_example :
    is_contiguous (view_of_shape 4096 block_shape float32 default_device (9 ∷ 9 ∷ 9 ∷ [])) ≡ true
view_of_shape-is_contiguous_example =
    view_of_shape-is_contiguous block_shape 4096 float32 default_device (9 ∷ 9 ∷ 9 ∷ []) refl
      (omega arith) (omega arith) (omega arith)

combined_layout_example :
    (bytes : ℕ) × (place : ℕ) × (combined_bytes 9 9 ≡ some bytes)
    × (strides_place 9 9 1000 bytes ≡ some place)
    × (1000 + 9 * 8 ≤ place)
    × (place % 8 ≡ 0)
    × (place + 9 * 8 ≤ 1000 + bytes)
combined_layout_example = combined_layout 9 9 1000 (omega arith) (omega arith)

abbrev new_at : ℕ → Option ℕ
new_at bytes = some 1000

abbrev owned_block : OwnedVector
owned_block = record { values = block_shape; capacity = 3; address = 64 }

abbrev owned_strides : OwnedVector
owned_strides = record { values = 6 ∷ 3 ∷ 1 ∷ []; capacity = 4; address = 128 }

abbrev short_metadata : ShapeStrides
short_metadata = record {
  storage = inline_storage (5 ∷ 99 ∷ []) (1 ∷ 99 ∷ []);
  shape_size = 1;
  strides_size = 1;
}

move_construct_views_example :
    let r = move_construct 2 99 short_metadata in
    (shape_view 2 99 r.0 ≡ shape_view 2 99 short_metadata)
    × (strides_view 2 99 r.0 ≡ strides_view 2 99 short_metadata)
    × (shape_view 2 99 r.1 ≡ [])
    × (strides_view 2 99 r.1 ≡ [])
    × (release_storage 2 99 r.0 ≡ release_storage 2 99 short_metadata)
    × (release_storage 2 99 r.1 ≡ [])
move_construct_views_example =
    move_construct_views 2 99 (inline_storage (5 ∷ 99 ∷ []) (1 ∷ 99 ∷ [])) 1 1
      (omega arith, omega arith, refl, refl)

abbrev long_metadata : ShapeStrides
long_metadata = record {
  storage = heap_storage (record {
    allocation = some 500;
    shape = block_shape;
    strides = 6 ∷ 3 ∷ 1 ∷ [];
    shape_address = 500;
    strides_address = 524;
    shape_capacity = 0;
    strides_capacity = 0;
  });
  shape_size = 3;
  strides_size = 3;
}

copy_construct_from_views_example :
    Made 2 99 new_at
      (shape_view 2 99 long_metadata)
      (strides_view 2 99 long_metadata)
      (copy_construct_from 2 99 new_at long_metadata)
copy_construct_from_views_example = copy_construct_from_views 2 99 new_at long_metadata (record {
  active = refl;
  covers = (omega arith, omega arith);
  small_shape = omega arith;
  small_strides = omega arith;
})

initialize_owned-Accounts_example :
    Accounts 2 99 new_at block_shape
      (6 ∷ 3 ∷ 1 ∷ [])
      owned_block
      owned_strides
      (initialize_owned 2 99 new_at owned_block owned_strides)
initialize_owned-Accounts_example =
    initialize_owned-Accounts 2 99 new_at owned_block owned_strides (omega arith) (omega arith)

abbrev elsewhere : TensorView
elsewhere = record stretched { data_pointer = 8192 }

stretched_same : equal_to stretched elsewhere ≡ true
unfolding equal_to device_eq equal_elements equal_from
stretched_same = refl

equal_to-hash_view_example :
    hash_view (λ n. n) (λ t. 5) (λ d. 6) stretched ≡ hash_view (λ n. n) (λ t. 5) (λ d. 6) elsewhere
equal_to-hash_view_example =
    equal_to-hash_view (λ n. n) (λ t. 5) (λ d. 6) stretched elsewhere stretched_same
