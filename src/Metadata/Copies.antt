-- ===== src/Metadata/Copies.antt =====
-- Copies of `ShapeStridesStorage` (src/common/shape_strides_storage.h).
use infini_rt.Base.{ℕ, Option, arith}
use infini_rt.Metadata.Storage.{ShapeStrides, Outcome, initialize_ranges, shape_view, strides_view}
use infini_rt.Metadata.Valid.{IsValid, Made, length-views}
use infini_rt.Metadata.Contents.{initialize_ranges-Made}

module _ (inline_capacity blank : ℕ) where
  unfoldable pub copy_construct_from : (ℕ → Option ℕ) → ShapeStrides → Outcome
  unfolding initialize_ranges
  copy_construct_from new other =
      initialize_ranges inline_capacity blank new (shape_view inline_capacity blank other)
        (strides_view inline_capacity blank other)

  -- A copy of an object whose sizes are below 2 ^ 32, tell the active member of its storage, and
  -- do not exceed its arrays has the same shape and strides and keeps these conditions. If it is
  -- inline, its destructor gives back nothing, and if not, the one block that operator new made
  -- for its sizes. It throws only if its sizes are not inline and operator new refuses the block
  -- for them.
  pub copy_construct_from_views :
      (new : ℕ → Option ℕ) (s : ShapeStrides)
      → IsValid inline_capacity blank s
      → Made inline_capacity blank new
          (shape_view inline_capacity blank s)
          (strides_view inline_capacity blank s)
          (copy_construct_from new s)
  unfolding copy_construct_from
  copy_construct_from_views new s v =
      let (n, m) = length-views inline_capacity blank s v in
      initialize_ranges-Made inline_capacity blank new (shape_view inline_capacity blank s)
        (strides_view inline_capacity blank s) (omega (arith, n, v.small_shape))
        (omega (arith, m, v.small_strides))
