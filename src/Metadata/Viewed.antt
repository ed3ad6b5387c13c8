-- ===== src/Metadata/Viewed.antt =====
-- The list model of `TensorView` (src/tensor_view.h) against the storage that it has in
-- src/common/shape_strides_storage.h.
use infini_rt.Base.{ℕ, ◌^◌, ◌<◌, ◌≡◌, sym, subst, Option, List, length}
use infini_rt.Device.{Device}
use infini_rt.Tensor.DataType.{DataType}
use infini_rt.Tensor.View.{view_of_shape}
use infini_rt.Tensor.Elements.{fill_default_strides-row_major}
use infini_rt.Metadata.Storage.{
  OwnedVector, filled_strides, initialize_default_strides, initialize_moved_shape,
}
use infini_rt.Metadata.Valid.{Made}
use infini_rt.Metadata.Defaults.{initialize_default_strides-Made}
use infini_rt.Metadata.Taken.{Accounts, LocalAccounts, initialize_moved_shape-Accounts}

module _ (inline_capacity blank : ℕ) (new : ℕ → Option ℕ) where
  -- What the two initializers give, if the strides are these.
  abbrev pub StoresView : Option ℕ → OwnedVector → List ℕ → List ℕ → Type 0
  StoresView fresh shape xs ys =
      Made inline_capacity blank new xs ys
        (initialize_default_strides inline_capacity blank new shape.values)
      × LocalAccounts inline_capacity blank new xs ys fresh
          (λ address left r.
            Accounts inline_capacity blank new xs ys shape
              (filled_strides inline_capacity blank shape address) (r.0, r.1, left))
          shape (initialize_moved_shape inline_capacity blank new fresh shape)

  -- The list model of a tensor view that is made of a shape of fewer than 2 ^ 32 sizes, with
  -- cells for as many strides in the model, has the shape and strides that the storage of the
  -- view holds. The initializer from a shape that is copied gives both, inline or in one block
  -- that operator new made for them, or operator new refused and threw. The initializer from a
  -- moved vector does so too, or takes over the block of the vector and that of its local
  -- strides, which leaves neither vector a block, or throws since the strides were refused a
  -- block; a block that is not taken over stays with its vector or is given back.
  pub stored-view_of_shape :
      (pointer : ℕ) (dtype : DataType) (device : Device) (fresh : Option ℕ) (shape : OwnedVector)
      (cells : List ℕ)
      → length shape.values < 2 ^ 32
      → length cells ≡ length shape.values
      → let t = view_of_shape pointer shape.values dtype device cells in
        StoresView fresh shape t.shape t.strides
  unfolding view_of_shape
  stored-view_of_shape pointer dtype device fresh shape cells small sized =
      subst (λ (ys : List ℕ). StoresView fresh shape shape.values ys)
        (sym (fill_default_strides-row_major shape.values cells sized))
        (
          initialize_default_strides-Made inline_capacity blank new shape.values small,
          initialize_moved_shape-Accounts inline_capacity blank new fresh shape small,
        )
