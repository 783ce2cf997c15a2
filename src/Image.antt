-- ===== src/Image.antt =====
-- src/util/gles2_utils.c and the pixel part of src/command_custom.c: how many bytes of a client's
-- image a texture command takes with it, and which. An `int` or `uint32_t` is its 32-bit pattern.
pub mod Enums
pub mod Words
pub mod Bounds
pub mod Copies
pub mod Skips
use gpu_proxy.Base.{
  ℕ, zero, suc, ◌+◌, ◌-◌, ◌*◌, ◌/◌, ◌%◌, ◌^◌, ◌<◌, ◌==◌, ltb, if◌then◌else◌, Option, none, some,
  List, [], ◌∷◌, ◌&&◌, ◌||◌, Bool, true, false,
}
use Enums

abbrev pub word : ℕ
word = 2 ^ 32

-- Sums, differences and products of words.
abbrev pub add32 : ℕ → ℕ → ℕ
add32 a b = (a + b) % word

abbrev pub sub32 : ℕ → ℕ → ℕ
sub32 a b = (a + word - b) % word

abbrev pub mul32 : ℕ → ℕ → ℕ
mul32 a b = a * b % word

-- `n < x` for an `int x` and a small `n`.
abbrev pub int_above : ℕ → ℕ → Bool
int_above n x = ltb n x && ltb x (2 ^ 31)

-- `safe_multiply`; `none` where it returns false.
unfoldable pub safe_multiply : ℕ → ℕ → Option ℕ
safe_multiply a b =
    if b == 0 then some 0 else let v = mul32 a b in if v / b == a then some v else none

-- `safe_add`
unfoldable pub safe_add : ℕ → ℕ → Option ℕ
safe_add a b = if ltb (add32 a b) a then none else some (add32 a b)

-- `elements_per_group`
unfoldable pub elements_per_group : ℕ → ℕ → ℕ
elements_per_group format type =
    if type == Enums.unsigned_short_5_6_5
      || type == Enums.unsigned_short_4_4_4_4
      || type == Enums.unsigned_short_5_5_5_1
      || type == Enums.unsigned_int_24_8_oes
    then 1
    else if format == Enums.rgb
    then 3
    else if format == Enums.luminance_alpha
    then 2
    else if format == Enums.rgba || format == Enums.bgra_ext
    then 4
    else if format == Enums.alpha
        || format == Enums.luminance
        || format == Enums.depth_component
        || format == Enums.depth_component24_oes
        || format == Enums.depth_component32_oes
        || format == Enums.depth_component16
        || format == Enums.depth24_stencil8_oes
        || format == Enums.depth_stencil_oes
    then 1
    else 0

-- `bytes_per_element`
unfoldable pub bytes_per_element : ℕ → ℕ
bytes_per_element type =
    if type == Enums.float || type == Enums.unsigned_int_24_8_oes || type == Enums.unsigned_int
    then 4
    else if type == Enums.half_float_oes
        || type == Enums.unsigned_short
        || type == Enums.short
        || type == Enums.unsigned_short_5_6_5
        || type == Enums.unsigned_short_4_4_4_4
        || type == Enums.unsigned_short_5_5_5_1
    then 2
    else if type == Enums.unsigned_byte || type == Enums.byte
    then 1
    else 0

-- `compute_image_group_size`
unfoldable pub group_size : ℕ → ℕ → ℕ
group_size format type = mul32 (bytes_per_element type) (elements_per_group format type)

-- What goes through the pointers of `compute_image_data_sizes`.
pub record Sizes : Type 0 where
  pub size : ℕ
  pub unpadded_row_size : ℕ
  pub padded_row_size : ℕ

infixl 5 ◌>>=◌
abbrev pub ◌>>=◌ : {A B : Type 0} → Option A → (A → Option B) → Option B
none >>= f = none
some a >>= f = f a

-- The branch for more than one row.
abbrev pub rows_sizes : ℕ → ℕ → ℕ → ℕ → Option Sizes
rows_sizes height row_size alignment skip_rows = do
  temp ← safe_add row_size (sub32 alignment 1)
  let padded = mul32 (temp / alignment) alignment
  size_of_all_but_last_row ← safe_multiply (sub32 (sub32 height skip_rows) 1) padded
  size ← safe_add size_of_all_but_last_row row_size
  some (record { size = size; unpadded_row_size = row_size; padded_row_size = padded })

-- The branch for a single row.
abbrev pub row_sizes : ℕ → ℕ → ℕ → Option Sizes
row_sizes height row_size skip_rows = do
  size ← safe_multiply (sub32 height skip_rows) row_size
  some (record { size = size; unpadded_row_size = row_size; padded_row_size = row_size })

-- `compute_image_data_sizes`; `none` where it returns false. The division by the alignment is
-- reached with the alignments that glPixelStorei lets through, which are positive.
unfoldable pub compute_image_data_sizes : ℕ → ℕ → ℕ → ℕ → ℕ → ℕ → ℕ → Option Sizes
compute_image_data_sizes width height format type alignment row_length skip_rows = do
  row_size ←
      safe_multiply (if int_above 0 row_length then row_length else width) (group_size format type)
  (if int_above 1 height
      then rows_sizes height row_size alignment skip_rows
      else row_sizes height row_size skip_rows)

-- One `memcpy`, by offsets into the buffer and into the client's image.
pub record Copy : Type 0 where
  pub dest : ℕ
  pub source : ℕ
  pub count : ℕ

-- A loop of `n` rounds with its strides, and the last copy.
pub copy_rows : ℕ → ℕ → ℕ → ℕ → ℕ → ℕ → ℕ → List Copy
copy_rows zero dest source dest_step source_step row last =
    record { dest = dest; source = source; count = last } ∷ []
copy_rows (suc n) dest source dest_step source_step row last =
    record { dest = dest; source = source; count = row }
    ∷ copy_rows n (dest + dest_step) (source + source_step) dest_step source_step row last

-- `copy_rect_to_buffer`. Offsets into memory are not cut to 32 bits, the products are. The first
-- loop runs while the height is above 1.
pub copy_rect_to_buffer : ℕ → ℕ → ℕ → ℕ → ℕ → ℕ → ℕ → ℕ → List Copy
copy_rect_to_buffer format type height skip_pixels skip_rows unpadded pixels_padded buffer_padded =
    let skip_elements = mul32 skip_pixels (group_size format type) in
    let start = mul32 skip_rows pixels_padded + skip_elements in
    if pixels_padded == buffer_padded
    then copy_rows (sub32 (sub32 height skip_rows) 1) 0 start pixels_padded
        (add32 pixels_padded skip_elements) pixels_padded unpadded
    else copy_rows (height - 1) 0 start buffer_padded pixels_padded buffer_padded unpadded

-- The unpack parameters of the client's current state, `client_get_unpack_alignment` and so on.
pub record Unpack : Type 0 where
  pub alignment : ℕ
  pub row_length : ℕ
  pub skip_pixels : ℕ
  pub skip_rows : ℕ

-- What `client_get_unpack_…` answer with no current state.
abbrev pub default_unpack : Unpack
default_unpack = record { alignment = 4; row_length = 0; skip_pixels = 0; skip_rows = 0 }

-- The pixels that a command carries: a new block of `size` bytes, and the copies into it.
pub record Pixels : Type 0 where
  pub size : ℕ
  pub copies : List Copy

abbrev pub copy_pixels : Unpack → ℕ → ℕ → ℕ → Sizes → Pixels
copy_pixels u height format type z = record {
  size = z.size;
  copies =
      copy_rect_to_buffer format type height u.skip_pixels u.skip_rows z.unpadded_row_size
        z.padded_row_size z.padded_row_size;
}

-- `command_glteximage2d_init`, for pixels that are not NULL; `none` where it leaves none.
unfoldable pub tex_image_2d_pixels : Unpack → ℕ → ℕ → ℕ → ℕ → Option Pixels
tex_image_2d_pixels u width height format type = do
  z ← compute_image_data_sizes width height format type u.alignment u.row_length u.skip_rows
  some (copy_pixels u height format type z)

-- `command_gltexsubimage2d_init`, which hands the skipped rows over before the row length.
unfoldable pub tex_sub_image_2d_pixels : Unpack → ℕ → ℕ → ℕ → ℕ → Option Pixels
tex_sub_image_2d_pixels u width height format type = do
  z ← compute_image_data_sizes width height format type u.alignment u.skip_rows u.row_length
  some (copy_pixels u height format type z)

-- `EGL_NONE`
abbrev pub egl_none : ℕ
egl_none = 0x3038

-- `_get_egl_attrib_list_size`: `none` stands for a list that ends before its `EGL_NONE`.
pub attrib_list_offset : ℕ → List ℕ → Option ℕ
attrib_list_offset offset [] = none
attrib_list_offset offset (a ∷ []) = if a == egl_none then some (offset + 1) else none
attrib_list_offset offset (a ∷ b ∷ r) =
    let rest = attrib_list_offset (offset + 2) r in
    if a == egl_none then some (offset + 1) else rest

pub get_egl_attrib_list_size : Option (List ℕ) → Option ℕ
get_egl_attrib_list_size none = some 0
get_egl_attrib_list_size (some l) = attrib_list_offset 0 l
