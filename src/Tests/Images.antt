-- ===== src/Tests/Images.antt =====
-- src/util/gles2_utils.c and src/command_custom.c at concrete inputs.
use gpu_proxy.Base.{◌≡◌, refl, some, All, arith}
use gpu_proxy.Image.{
  safe_multiply, safe_add, Sizes, compute_image_data_sizes, group_size, elements_per_group,
  bytes_per_element, Unpack, Pixels, default_unpack, copy_pixels, tex_image_2d_pixels,
  tex_sub_image_2d_pixels,
}
use gpu_proxy.Image.Enums
use gpu_proxy.Image.Bounds.{exact_sizes, row_bytes, compute_image_data_sizes_exact}
use gpu_proxy.Image.Copies.{moved, EndsBy, tex_image_fills_block}

-- Five RGB pixels a row, three rows.
compute_image_data_sizes_exact_example :
    compute_image_data_sizes 5 3 Enums.rgb Enums.unsigned_byte 4 0 0
    ≡ exact_sizes 3 (row_bytes 5 0 Enums.rgb Enums.unsigned_byte) 4 0
compute_image_data_sizes_exact_example =
    compute_image_data_sizes_exact 5 3 Enums.rgb Enums.unsigned_byte 4 0 0 (omega arith)
      (omega arith) (omega arith) (omega arith) (omega arith) (omega arith)

abbrev sizes : Sizes
sizes = record { size = 47; unpadded_row_size = 15; padded_row_size = 16 }

image_sizes : compute_image_data_sizes 5 3 Enums.rgb Enums.unsigned_byte 4 0 0 ≡ some sizes
unfolding compute_image_data_sizes safe_multiply safe_add group_size elements_per_group
    bytes_per_element
image_sizes = refl

abbrev pixels : Pixels
pixels = copy_pixels default_unpack 3 Enums.rgb Enums.unsigned_byte sizes

image_pixels : tex_image_2d_pixels default_unpack 5 3 Enums.rgb Enums.unsigned_byte ≡ some pixels
unfolding tex_image_2d_pixels compute_image_data_sizes safe_multiply safe_add group_size
    elements_per_group bytes_per_element
image_pixels = refl

tex_image_fills_block_example : All (EndsBy 47) pixels.copies × (moved pixels.copies ≡ 47)
tex_image_fills_block_example =
    tex_image_fills_block default_unpack 5 3 Enums.rgb Enums.unsigned_byte (omega arith)
      (omega arith) (omega arith) (omega arith) (omega arith) (omega arith) image_pixels

-- One pixel of each row is to be skipped.
abbrev skipping : Unpack
skipping = record { alignment = 4; row_length = 0; skip_pixels = 1; skip_rows = 0 }

rgb_group : group_size Enums.rgb Enums.unsigned_byte ≡ 3
unfolding group_size elements_per_group bytes_per_element
rgb_group = refl

-- A row length of two, which the command takes for two rows to skip.
abbrev two_long : Unpack
two_long = record { alignment = 4; row_length = 2; skip_pixels = 0; skip_rows = 0 }

abbrev sub_sizes : Sizes
sub_sizes = record { size = 15; unpadded_row_size = 15; padded_row_size = 16 }

abbrev sub_pixels : Pixels
sub_pixels = copy_pixels two_long 3 Enums.rgb Enums.unsigned_byte sub_sizes

sub_image_pixels :
    tex_sub_image_2d_pixels two_long 5 3 Enums.rgb Enums.unsigned_byte ≡ some sub_pixels
unfolding tex_sub_image_2d_pixels compute_image_data_sizes safe_multiply safe_add group_size
    elements_per_group bytes_per_element
sub_image_pixels = refl
