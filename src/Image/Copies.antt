-- ===== src/Image/Copies.antt =====
-- The copies that fill a command's block of pixels: they stay inside it and fill it, and which
-- rows of the client's image they read.
use gpu_proxy.Base.{
  ℕ, zero, suc, ◌+◌, ◌-◌, ◌*◌, ◌%◌, ◌^◌, ◌≤◌, ◌<◌, ◌≡◌, some, arith, ap, ap₂, ◌∙◌, List, [], ◌∷◌,
  get_elem?, All, sym,
}
use mathlib.Core.Path.{subst}
use mathlib.Core.Option.{some-injective}
use native.Mathlib.Nat.{mul-le-mul_right, mod-eq_of_lt, zero-mul, lt-div-mul-add}
use gpu_proxy.Image.Words.{>>=-eq-some}
use gpu_proxy.Image.{
  word, mul32, add32, sub32, Sizes, compute_image_data_sizes, group_size, Copy, copy_rows,
  copy_rect_to_buffer, Unpack, Pixels, copy_pixels, tex_image_2d_pixels,
}
use gpu_proxy.Image.Bounds.{compute_image_data_sizes_exact, exact_sizes, row_bytes}

-- The bytes that a list of copies moves.
abbrev pub moved : List Copy → ℕ
moved [] = 0
moved (c ∷ r) = c.count + moved r

-- A copy ends at or before an offset of its destination.
abbrev pub EndsBy : ℕ → Copy → Type 0
EndsBy n c = c.dest + c.count ≤ n

copy_rows-EndsBy :
    (n dest source row step last size : ℕ)
    → dest + n * row + last ≤ size
    → All (EndsBy size) (copy_rows n dest source row step row last)
unfolding copy_rows
copy_rows-EndsBy zero dest source row step last size h = (omega arith, tt)
copy_rows-EndsBy (suc n) dest source row step last size h =
    (grind arith, copy_rows-EndsBy n (dest + row) (source + step) row step last size (omega arith))

moved-copy_rows :
    (n dest source row step last : ℕ)
    → moved (copy_rows n dest source row step row last) ≡ n * row + last
unfolding copy_rows
moved-copy_rows zero dest source row step last = omega arith
moved-copy_rows (suc n) dest source row step last =
    omega (arith, moved-copy_rows n (dest + row) (source + step) row step last)

-- The copy of a row in the loop, and the copy after it.
get_elem?-copy_rows :
    (k n dest source dest_step source_step row last : ℕ)
    → k < n
    → get_elem? (copy_rows n dest source dest_step source_step row last) k
      ≡ some
          (record { dest = dest + k * dest_step; source = source + k * source_step; count = row })
unfolding copy_rows
get_elem?-copy_rows k zero dest source ds ss row last h = absurd (omega arith)
get_elem?-copy_rows zero (suc n) dest source ds ss row last h = ground arith
get_elem?-copy_rows (suc k) (suc n) dest source ds ss row last h =
    get_elem?-copy_rows k n (dest + ds) (source + ss) ds ss row last (omega arith) ∙ ground arith

pub get_elem?-copy_rows_last :
    (n dest source dest_step source_step row last : ℕ)
    → get_elem? (copy_rows n dest source dest_step source_step row last) n
      ≡ some
          (record { dest = dest + n * dest_step; source = source + n * source_step; count = last })
unfolding copy_rows
get_elem?-copy_rows_last zero dest source ds ss row last = ground arith
get_elem?-copy_rows_last (suc n) dest source ds ss row last =
    get_elem?-copy_rows_last n (dest + ds) (source + ss) ds ss row last ∙ ground arith

-- The copies that both commands make.
pub copies_lem :
    (format type height skip_pixels skip unpadded padded : ℕ)
    → height < 2 ^ 31
    → skip < height
    → copy_rect_to_buffer format type height skip_pixels skip unpadded padded padded
      ≡ copy_rows
          (height - skip - 1)
          0
          (mul32 skip padded + mul32 skip_pixels (group_size format type))
          padded
          (add32 padded (mul32 skip_pixels (group_size format type)))
          padded
          unpadded
unfolding copy_rect_to_buffer
copies_lem format type height skip_pixels skip unpadded padded hh hs = ground (arith, steps)
  where
    steps : sub32 (sub32 height skip) 1 ≡ height - skip - 1
    steps = omega arith

-- The sizes that a command goes by are those of its image.
pub sizes_of :
    (height row alignment skip : ℕ) {z : Sizes}
    → skip < height
    → exact_sizes height row alignment skip ≡ some z
    → (z.size ≡ (height - skip - 1) * z.padded_row_size + row) × (z.unpadded_row_size ≡ row)
sizes_of height row alignment skip hs e = ground arith

pub padded-ge-row :
    (height row alignment skip : ℕ) {z : Sizes}
    → 0 < alignment
    → exact_sizes height row alignment skip ≡ some z
    → row ≤ z.padded_row_size
padded-ge-row height row alignment skip a1 e =
    ground (arith, lt-div-mul-add {a = row + (alignment - 1)} a1)

module _ (u : Unpack) (height format type : ℕ) (z : Sizes) where
  -- The copies for the sizes `z` fill exactly the block that an image with that padded row needs.
  copies-fill :
      (hh : height < 2 ^ 31) (hs : u.skip_rows < height) (size : ℕ)
      → size ≡ (height - u.skip_rows - 1) * z.padded_row_size + z.unpadded_row_size
      → All (EndsBy size) (copy_pixels u height format type z).copies
        × (moved (copy_pixels u height format type z).copies ≡ size)
  copies-fill hh hs size e =
      rw
        (copies_lem format type height u.skip_pixels u.skip_rows z.unpadded_row_size
          z.padded_row_size hh hs)
        (
          copy_rows-EndsBy (height - u.skip_rows - 1) 0 _ _ _ _ size (omega arith),
          moved-copy_rows (height - u.skip_rows - 1) 0 _ _ _ _ ∙ sym e,
        )

  -- The `k`-th copy of the loop, where the products of the skips fit.
  pub get_elem?-copies :
      (k skipped : ℕ) (hh : height < 2 ^ 31) (hk : k < height - u.skip_rows - 1)
      → u.skip_pixels * group_size format type ≡ skipped
      → height * z.padded_row_size + skipped < word
      → get_elem? (copy_pixels u height format type z).copies k
        ≡ some (record {
          dest = k * z.padded_row_size;
          source = u.skip_rows * z.padded_row_size + skipped + k * (z.padded_row_size + skipped);
          count = z.padded_row_size;
        })
  get_elem?-copies k skipped hh hk e fits =
      ap (λ l. get_elem? l k)
        (copies_lem format type height u.skip_pixels u.skip_rows z.unpadded_row_size
          z.padded_row_size hh (omega arith))
      ∙ get_elem?-copy_rows k (height - u.skip_rows - 1) 0 _ z.padded_row_size _ z.padded_row_size
          z.unpadded_row_size hk
      ∙ ap₂
          (λ a b. some (record {
            dest = 0 + k * z.padded_row_size;
            source = a + k * b;
            count = z.padded_row_size;
          }))
          start stride
      ∙ ap
          (λ d. some (record {
            dest = d;
            source = u.skip_rows * z.padded_row_size + skipped + k * (z.padded_row_size + skipped);
            count = z.padded_row_size;
          }))
          (omega arith)
    where
      rows : u.skip_rows * z.padded_row_size ≤ height * z.padded_row_size
      rows = mul-le-mul_right z.padded_row_size (omega arith)

      one_row : 1 * z.padded_row_size ≤ height * z.padded_row_size
      one_row = mul-le-mul_right z.padded_row_size (omega arith)

      start :
          mul32 u.skip_rows z.padded_row_size + mul32 u.skip_pixels (group_size format type)
          ≡ u.skip_rows * z.padded_row_size + skipped
      start =
          ap₂ ◌+◌ (mod-eq_of_lt (omega (arith, rows)))
            (ap (λ n. n % word) e ∙ mod-eq_of_lt (omega arith))

      stride :
          add32 z.padded_row_size (mul32 u.skip_pixels (group_size format type))
          ≡ z.padded_row_size + skipped
      stride =
          ap (λ n. add32 z.padded_row_size n) (ap (λ n. n % word) e ∙ mod-eq_of_lt (omega arith))
          ∙ mod-eq_of_lt (omega (arith, one_row))

-- The copies of glTexImage2D's command, for an image of at least one row, fewer of them skipped,
-- with dimensions that are not negative and a positive alignment, end inside the block allocated
-- for the pixels, and move as many bytes as it has.
pub tex_image_fills_block :
    (u : Unpack) (width height format type : ℕ) {p : Pixels}
    → width < 2 ^ 31
    → u.row_length < 2 ^ 31
    → height < 2 ^ 31
    → u.skip_rows < height
    → 0 < u.alignment
    → u.alignment < word
    → tex_image_2d_pixels u width height format type ≡ some p
    → All (EndsBy p.size) p.copies × (moved p.copies ≡ p.size)
unfolding tex_image_2d_pixels
tex_image_fills_block u width height format type {p} hw hl hh hs a1 a2 e =
    let (z, sized, made) =
      >>=-eq-some
        (compute_image_data_sizes width height format type u.alignment u.row_length u.skip_rows) _
        e in
    let (size, unpadded) =
      sizes_of height (row_bytes width u.row_length format type) u.alignment u.skip_rows hs (
        sym (
          compute_image_data_sizes_exact width height format type u.alignment u.row_length
            u.skip_rows hw hl hh hs a1 a2)
        ∙ sized) in
    subst (λ q. All (EndsBy q.size) q.copies × (moved q.copies ≡ q.size)) (some-injective _ _ made)
      (copies-fill u height format type z hh hs z.size (omega arith))

-- With no pixels skipped, the copies of glTexImage2D's command read whole rows of the client's
-- image, from the first that is not skipped on: in the loop, the `k`-th copy takes one padded row at
-- the offset of row `skip_rows + k` to offset `k` rows of the block, as long as offsets stay below
-- 32 bits.
pub tex_image_reads_rows :
    (u : Unpack) (height format type k : ℕ) (z : Sizes)
    → height < 2 ^ 31
    → u.skip_rows < height
    → u.skip_pixels ≡ 0
    → height * z.padded_row_size < word
    → k < height - u.skip_rows - 1
    → get_elem? (copy_pixels u height format type z).copies k
      ≡ some (record {
        dest = k * z.padded_row_size;
        source = (u.skip_rows + k) * z.padded_row_size;
        count = z.padded_row_size;
      })
tex_image_reads_rows u height format type k z hh hs none_skipped fits hk =
    get_elem?-copies u height format type z k 0 hh hk
      (ap (λ n. n * group_size format type) none_skipped ∙ zero-mul _) (omega arith)
    ∙ ap
        (λ a. some (record { dest = k * z.padded_row_size; source = a; count = z.padded_row_size }))
        (omega arith)
