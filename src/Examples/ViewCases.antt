-- ===== src/Examples/ViewCases.antt =====
-- Elements and texts of small tensors, and default strides in the metadata.
use infini_rt.Base.{
  ◌↔◌, true, ℕ, ◌≡◌, ◌≢◌, ◌<◌, ◌+◌, ◌*◌, ◌/◌, ◌%◌, ◌^◌, refl, List, [], ◌∷◌, Option, some, arith,
  u64_mod,
}
use infini_rt.Device.{default_device}
use infini_rt.Dispatcher.Outcome.{returned, failed, empty_string}
use infini_rt.Tensor.DataType.{float32, size_of_type}
use infini_rt.Tensor.Float16.{normalize, normalize-stops}
use infini_rt.Tensor.View.{TensorView, view_of_shape}
use infini_rt.Tensor.Elements.{element, view_of_shape-element}
use infini_rt.Tensor.Printing.{helper_text}
use infini_rt.Tensor.Printed.{printed, helper_text_lem, helper_text-empty_axis}
use infini_rt.MetadataView.{MetadataView, values, equal_views, equal_views_iff}
use infini_rt.Metadata.Storage.{OwnedVector}
use infini_rt.Metadata.Viewed.{StoresView, stored-view_of_shape}

abbrev grid : List ℕ
grid = 2 ∷ 3 ∷ []

float32_size : size_of_type float32 ≡ some 4
unfolding size_of_type
float32_size = refl

view_of_shape-element_example :
    (u : TensorView) × (element
        (1 ∷ 2 ∷ [])
        (view_of_shape 4096 grid float32 default_device (9 ∷ 9 ∷ []))
      ≡ some u)
    × (u.shape ≡ [])
    × (u.data_pointer ≡ (4096 + 5 * 4) % u64_mod)
    × (5 < 6)
view_of_shape-element_example =
    view_of_shape-element grid (1 ∷ 2 ∷ []) 4096 4 float32 default_device (9 ∷ 9 ∷ []) refl
      float32_size (omega arith) (omega arith) refl

abbrev two_by_two : TensorView
two_by_two = record {
  data_pointer = 4096;
  shape = 2 ∷ 2 ∷ [];
  strides = 2 ∷ 1 ∷ [];
  dtype = float32;
  device = default_device;
}

helper_text_lem_example : helper_text 2 two_by_two ≡ returned (printed 2 two_by_two)
helper_text_lem_example = helper_text_lem 2 two_by_two refl refl refl

helper_text-empty_axis_example :
    helper_text 2 (record two_by_two { shape = 0 ∷ 2 ∷ [] }) ≡ failed empty_string
helper_text-empty_axis_example =
    helper_text-empty_axis 1 (record two_by_two { shape = 0 ∷ 2 ∷ [] }) refl

abbrev new_at : ℕ → Option ℕ
new_at bytes = some 1000

abbrev ramp : ℕ → ℕ
ramp address = address % 4

abbrev low_view : MetadataView
low_view = record { pointer = some 1; size = 3 }

abbrev high_view : MetadataView
high_view = record { pointer = some 9; size = 3 }

equal_views_iff_example :
    (equal_views ramp low_view high_view ≡ true) ↔ (values ramp low_view ≡ values ramp high_view)
equal_views_iff_example = equal_views_iff ramp low_view high_view (λ e. cc) (λ e. cc)

abbrev moved_grid : OwnedVector
moved_grid = record { values = grid; capacity = 6; address = 64 }

stored-view_of_shape_example :
    let t = view_of_shape 4096 grid float32 default_device (0 ∷ 0 ∷ []) in
    StoresView 1 99 new_at (some 128) moved_grid t.shape t.strides
stored-view_of_shape_example =
    stored-view_of_shape 1 99 new_at 4096 float32 default_device (some 128) moved_grid (0 ∷ 0 ∷ [])
      (omega arith) refl

normalize-stops_example :
    ((normalize 10 3 113).0 / 2 ^ 10 % 2 ≢ 0) × (normalize 25 3 113 ≡ normalize 10 3 113)
normalize-stops_example = normalize-stops 3 113 25 (omega arith) (omega arith) (omega arith)
