-- ===== src/Bridge/Layout.antt =====
-- ros2/kistar_hand_bridge/src/kistar_hand_bridge_node.cpp: `make_message_with_layout` and its twin
-- for doubles. A `std::size_t` has 64 bits.
use Prim.Native.String.{String}
use native.Mathlib.Nat.{mul-pos, mul_comm, mul-div_right, mod-eq_of_lt, le-mul_of_pos_right}
use franka_kistar_r_exp_gwb.Common.{
  ℕ, ◌*◌, ◌/◌, ◌%◌, ◌^◌, ◌<◌, ◌≤◌, ◌≡◌, refl, ap₂, subst, List, [], ◌∷◌, Array, arith,
}
use franka_kistar_r_exp_gwb.Double.{Double, nought}

pub record Dimension : Type 0 where
  pub label : String
  pub size : ℕ
  pub stride : ℕ

-- A vector of `size` cells.
pub record Vector (A : Type 0) : Type 0 where
  pub size : ℕ
  pub cells : Array A

pub record MultiArray (A : Type 0) : Type 0 where
  pub dim : List Dimension
  pub data_offset : ℕ
  pub data' : Vector A

-- The first loop, from the last dimension to the first.
unfoldable pub stride_of : List (String × ℕ) → ℕ
stride_of [] = 1
stride_of (dim ∷ dims) = stride_of dims * dim.1 % 2 ^ 64

-- The second loop.
unfoldable pub layout_dims : ℕ → List (String × ℕ) → List Dimension
layout_dims running_stride [] = []
layout_dims running_stride (dim ∷ dims) =
    record { label = dim.0; size = dim.1 % 2 ^ 32; stride = running_stride % 2 ^ 32 }
    ∷ layout_dims (running_stride / dim.1) dims

abbrev filled_message : {A : Type 0} → A → List (String × ℕ) → MultiArray A
filled_message zero' dims = record {
  dim = layout_dims (stride_of dims) dims;
  data_offset = 0;
  data' = record { size = stride_of dims; cells = λ _. zero' };
}

module _ {F : Type 0} ⦃d : Double F⦄ where
  unfoldable pub make_message_with_layout : List (String × ℕ) → MultiArray F
  make_message_with_layout dims = filled_message nought dims

  unfoldable pub make_message_with_layout_64 : List (String × ℕ) → MultiArray F
  make_message_with_layout_64 dims = filled_message nought dims

abbrev pub product : List (String × ℕ) → ℕ
product [] = 1
product (dim ∷ dims) = dim.1 * product dims

-- The layout of an array in row-major order: the stride of a dimension is the number of elements
-- in one of its slices, its own size included, as std_msgs/MultiArrayLayout has it.
abbrev pub row_major : List (String × ℕ) → List Dimension
row_major [] = []
row_major (dim ∷ dims) =
    record { label = dim.0; size = dim.1; stride = product (dim ∷ dims) } ∷ row_major dims

abbrev pub AllPos : List (String × ℕ) → Type 0
AllPos [] = Unit
AllPos (dim ∷ dims) = (0 < dim.1) × AllPos dims

product_pos : (dims : List (String × ℕ)) → AllPos dims → 0 < product dims
product_pos [] h = omega arith
product_pos (dim ∷ dims) (p, h) = mul-pos p (product_pos dims h)

size-le-product :
    (dim : String × ℕ) (dims : List (String × ℕ)) → AllPos dims → dim.1 ≤ product (dim ∷ dims)
size-le-product dim dims h = le-mul_of_pos_right dim.1 (product_pos dims h)

product-le-product :
    (dim : String × ℕ) (dims : List (String × ℕ)) → 0 < dim.1 → product dims ≤ product (dim ∷ dims)
product-le-product dim dims p =
    subst (λ n. product dims ≤ n) (mul_comm (product dims) dim.1)
      (le-mul_of_pos_right (product dims) p)

stride_of-product :
    (dims : List (String × ℕ)) → AllPos dims → product dims < 2 ^ 32 → stride_of dims ≡ product dims
unfolding stride_of
stride_of-product [] h b = refl
stride_of-product (dim ∷ dims) (p, h) b =
    let le = product-le-product dim dims p in
    rw (stride_of-product dims h (omega arith), mul_comm (product dims) dim.1)
      (mod-eq_of_lt (omega arith))

layout_dims-row_major :
    (dims : List (String × ℕ))
    → AllPos dims
    → product dims < 2 ^ 32
    → layout_dims (product dims) dims ≡ row_major dims
unfolding layout_dims
layout_dims-row_major [] h b = refl
layout_dims-row_major (dim ∷ dims) (p, h) b =
    let le = product-le-product dim dims p in
    let le' = size-le-product dim dims h in
    ap₂ (λ x xs. x ∷ xs)
      (rw
        (
          mod-eq_of_lt {n = dim.1} {m = 2 ^ 32} (omega arith),
          mod-eq_of_lt {n = product (dim ∷ dims)} {m = 2 ^ 32} b,
        )
        refl)
      (rw (mul-div_right (product dims) p) (layout_dims-row_major dims h (omega arith)))

module _ (F : Type 0) ⦃d : Double F⦄ where
  -- For positive sizes with a product below 2 ^ 32, both messages describe an array in row-major
  -- order from its first element on, and have a zero for each of its elements.
  make_message_with_layout-row_major :
      (dims : List (String × ℕ))
      → AllPos dims
      → product dims < 2 ^ 32
      → let m = make_message_with_layout {F = F} dims in
        (m.dim ≡ row_major dims)
        × (m.data_offset ≡ 0)
        × (m.data'.size ≡ product dims)
        × ((k : ℕ) → m.data'.cells k ≡ nought)
        × (make_message_with_layout_64 {F = F} dims ≡ m)
  unfolding make_message_with_layout make_message_with_layout_64
  make_message_with_layout-row_major dims h b = (
    rw (stride_of-product dims h b) (layout_dims-row_major dims h b),
    refl,
    stride_of-product dims h b,
    (λ k. refl),
    refl,
  )
