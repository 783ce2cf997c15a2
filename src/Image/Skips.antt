-- ===== src/Image/Skips.antt =====
-- Where the copies into a command's block go wrong: pixels skipped at every row anew, and the swapped
-- arguments of `command_gltexsubimage2d_init` in src/command_custom.c.
use gpu_proxy.Base.{
  ℕ, ◌+◌, ◌-◌, ◌*◌, ◌^◌, ◌<◌, ◌≡◌, refl, some, arith, ap, ap₂, ◌∙◌, get_elem?, sym,
}
use mathlib.Core.Option.{some-injective}
use native.Mathlib.Nat.{mul-pos, mul-lt-mul_of_pos_right}
use gpu_proxy.Image.Words.{>>=-eq-some}
use gpu_proxy.Image.{
  word, mul32, add32, Sizes, compute_image_data_sizes, group_size, Copy, copy_rows, Unpack, Pixels,
  copy_pixels, tex_sub_image_2d_pixels,
}
use gpu_proxy.Image.Bounds.{compute_image_data_sizes_exact, row_bytes}
use gpu_proxy.Image.Copies.{
  copies_lem, get_elem?-copies, get_elem?-copy_rows_last, sizes_of, padded-ge-row,
}

-- With pixels skipped the rows drift: for the command of either texture call, the second copy of
-- the loop reads the skipped pixels of its row twice over, and not once as the first does.
pub skipped_pixels_drift :
    (u : Unpack) (height format type : ℕ) (z : Sizes)
    → height < 2 ^ 31
    → u.skip_rows + 2 < height
    → 0 < u.skip_pixels * group_size format type
    → height * z.padded_row_size + u.skip_pixels * group_size format type < word
    → get_elem? (copy_pixels u height format type z).copies 1
      ≡ some (record {
        dest = z.padded_row_size;
        source =
            (u.skip_rows + 1) * z.padded_row_size + 2 * (u.skip_pixels * group_size format type);
        count = z.padded_row_size;
      })
skipped_pixels_drift u height format type z hh hs some_skipped fits =
    get_elem?-copies u height format type z 1 (u.skip_pixels * group_size format type) hh
      (omega arith) refl fits
    ∙ ap₂ (λ a b. some (record { dest = a; source = b; count = z.padded_row_size })) (omega arith)
        (omega arith)

-- The command of glTexSubImage2D writes past its block of pixels where an unpack row length is set
-- and no rows are skipped: if the row length is positive, and less than the height, an image whose
-- pixels have a size is copied with a last copy that ends after the block.
pub tex_sub_image_overruns_block :
    (u : Unpack) (width height format type : ℕ) {p : Pixels}
    → 0 < width
    → width < 2 ^ 31
    → height < 2 ^ 31
    → 0 < u.row_length
    → u.row_length < height
    → u.skip_rows ≡ 0
    → 0 < group_size format type
    → 0 < u.alignment
    → u.alignment < word
    → tex_sub_image_2d_pixels u width height format type ≡ some p
    → (k : ℕ) × (c : Copy) × (get_elem? p.copies k ≡ some c) × (p.size < c.dest + c.count)
unfolding tex_sub_image_2d_pixels
tex_sub_image_overruns_block u width height format type {p} w0 hw hh r0 hr none_skipped g0 a1 a2 e =
    let (z, sized, made) =
      >>=-eq-some
        (compute_image_data_sizes width height format type u.alignment u.skip_rows u.row_length) _
        e in
    let (size, unpadded) = sizes_of height row u.alignment u.row_length hr (
      sym (
        compute_image_data_sizes_exact width height format type u.alignment u.skip_rows u.row_length
          hw (omega arith) hh hr a1 a2)
      ∙ sized) in
    let wide = padded-ge-row height row u.alignment u.row_length {z = z} a1 (
      sym (
        compute_image_data_sizes_exact width height format type u.alignment u.skip_rows u.row_length
          hw (omega arith) hh hr a1 a2)
      ∙ sized) in
    let more : (height - u.row_length - 1) * z.padded_row_size < (height - 1) * z.padded_row_size =
      mul-lt-mul_of_pos_right (omega arith) (omega (arith, wide, row_pos)) in
    (
      height - 1,
      last_copy z,
      ap (λ q. get_elem? q.copies (height - 1)) (sym (some-injective _ _ made)) ∙ is_last z,
      omega (arith, ap (λ (q : Pixels). q.size) (some-injective _ _ made), size, unpadded, more),
    )
  where
    row : ℕ
    row = row_bytes width u.skip_rows format type

    row_pos : 0 < row
    row_pos = rw (none_skipped) (mul-pos w0 g0)

    last_copy : Sizes → Copy
    last_copy z = record {
      dest = 0 + (height - 1) * z.padded_row_size;
      source =
          mul32 u.skip_rows z.padded_row_size
          + mul32 u.skip_pixels (group_size format type)
          + (height - 1) * add32 z.padded_row_size (mul32 u.skip_pixels (group_size format type));
      count = z.unpadded_row_size;
    }

    is_last :
        (z : Sizes)
        → get_elem? (copy_pixels u height format type z).copies (height - 1) ≡ some (last_copy z)
    is_last z =
        ap (λ l. get_elem? l (height - 1))
          (copies_lem format type height u.skip_pixels u.skip_rows z.unpadded_row_size
            z.padded_row_size hh (omega arith))
        ∙ ap
            (λ n.
              get_elem?
                (copy_rows n 0
                  (mul32 u.skip_rows z.padded_row_size
                    + mul32 u.skip_pixels (group_size format type))
                  z.padded_row_size
                  (add32 z.padded_row_size (mul32 u.skip_pixels (group_size format type)))
                  z.padded_row_size z.unpadded_row_size)
                (height - 1))
            {x = height - u.skip_rows - 1} (omega arith)
        ∙ get_elem?-copy_rows_last (height - 1) 0
            (mul32 u.skip_rows z.padded_row_size + mul32 u.skip_pixels (group_size format type))
            z.padded_row_size
            (add32 z.padded_row_size (mul32 u.skip_pixels (group_size format type)))
            z.padded_row_size z.unpadded_row_size
