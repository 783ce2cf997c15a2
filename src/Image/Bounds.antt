-- ===== src/Image/Bounds.antt =====
-- The sizes that `compute_image_data_sizes` reports, without wrap-around.
use gpu_proxy.Base.{
  ℕ, ◌+◌, ◌-◌, ◌*◌, ◌/◌, ◌^◌, ◌≤◌, ◌<◌, ◌≡◌, ltb, if◌then◌else◌, none, some, arith, ap, ap₂, ◌∙◌,
  Option, ◌&&◌,
}
use native.Mathlib.Decide.{dec_lt}
use native.Mathlib.Nat.{div-mul-le_self, mul-le-mul, mod-eq_of_lt}
use gpu_proxy.Image.{
  ◌>>=◌, word, sub32, safe_multiply, safe_add, Sizes, rows_sizes, row_sizes,
  compute_image_data_sizes, group_size, elements_per_group, bytes_per_element, int_above,
}
use gpu_proxy.Image.Words.{safe_multiply_exact, safe_add_exact}

-- The row of an image, from its width and the unpack row length, in bytes.
abbrev pub row_bytes : ℕ → ℕ → ℕ → ℕ → ℕ
row_bytes width row_length format type =
    (if int_above 0 row_length then row_length else width) * group_size format type

-- The smallest multiple of the alignment that is not below `n`.
abbrev pub round_up : ℕ → ℕ → ℕ
round_up n alignment = (n + (alignment - 1)) / alignment * alignment

bytes_per_element-le : (type : ℕ) → bytes_per_element type ≤ 4
unfolding bytes_per_element
bytes_per_element-le type = ground arith

elements_per_group-le : (format type : ℕ) → elements_per_group format type ≤ 4
unfolding elements_per_group
elements_per_group-le format type = ground arith

-- A group of pixels has at most 16 bytes.
pub group_size-le : (format type : ℕ) → group_size format type ≤ 16
unfolding group_size
group_size-le format type = grind (
  arith,
  bytes_per_element-le type,
  elements_per_group-le format type,
  mul-le-mul (bytes_per_element-le type) (elements_per_group-le format type),
)

round_up-lt : (n alignment : ℕ) → n + (alignment - 1) < word → round_up n alignment < word
round_up-lt n alignment h = omega (arith, div-mul-le_self (n + (alignment - 1)) alignment)

-- The exact sizes of an image of several rows, if they fit.
abbrev pub exact_rows : ℕ → ℕ → ℕ → ℕ → Option Sizes
exact_rows height row alignment skip =
    let total = (height - skip - 1) * round_up row alignment + row in
    if ltb (row + (alignment - 1)) word && ltb total word
    then some
        (record { size = total; unpadded_row_size = row; padded_row_size = round_up row alignment })
    else none

module _ (height row alignment skip : ℕ) (several : 1 < height) (h2 : height < 2 ^ 31)
    (hs : skip < height) (hr : row < word) (a1 : 0 < alignment) (a2 : alignment < word) where
  abbrev rounds : ℕ
  rounds = height - skip - 1

  abbrev padded : ℕ
  padded = round_up row alignment

  first :
      safe_add row (sub32 alignment 1)
      ≡ (if ltb (row + (alignment - 1)) word then some (row + (alignment - 1)) else none)
  first = ap (safe_add row) (omega arith) ∙ safe_add_exact row (alignment - 1) hr (omega arith)

  abbrev rest_sizes : Option Sizes
  rest_sizes = do
    all_but_last ← safe_multiply (sub32 (sub32 height skip) 1) padded
    size ← safe_add all_but_last row
    some (record { size = size; unpadded_row_size = row; padded_row_size = padded })

  -- The sizes once the padded row is known to fit.
  rest :
      padded < word
      → rest_sizes ≡ (
          if ltb (rounds * padded + row) word
          then some (record {
            size = rounds * padded + row;
            unpadded_row_size = row;
            padded_row_size = padded;
          })
          else none)
  rest fits = elim (dec_lt (rounds * padded) word) [
    | yes p ↦
        rw (ap (λ n. safe_multiply n padded) steps ∙ multiplied)
          (ground (arith, safe_add_exact (rounds * padded) row p hr))
    | no p ↦ rw (ap (λ n. safe_multiply n padded) steps ∙ multiplied) (ground arith)
  ]
    where
      steps : sub32 (sub32 height skip) 1 ≡ rounds
      steps = omega arith

      multiplied :
          safe_multiply rounds padded
          ≡ (if ltb (rounds * padded) word then some (rounds * padded) else none)
      multiplied = safe_multiply_exact rounds padded (omega arith) fits

  rows_sizes_exact : rows_sizes height row alignment skip ≡ exact_rows height row alignment skip
  rows_sizes_exact = elim (dec_lt (row + (alignment - 1)) word) [
    | yes p ↦ ground (
      arith,
      first,
      rest (round_up-lt row alignment p),
      mod-eq_of_lt (round_up-lt row alignment p),
    )
    | no p ↦ ground (arith, first)
  ]

-- The exact sizes of an image with a single row, and of any image.
abbrev pub exact_row : ℕ → Option Sizes
exact_row row = some (record { size = row; unpadded_row_size = row; padded_row_size = row })

abbrev pub exact_sizes : ℕ → ℕ → ℕ → ℕ → Option Sizes
exact_sizes height row alignment skip =
    if ltb row word
    then if ltb 1 height then exact_rows height row alignment skip else exact_row row
    else none

row_sizes_exact : (row : ℕ) → row < word → row_sizes 1 row 0 ≡ exact_row row
row_sizes_exact row h = ground (arith, safe_multiply_exact 1 row (omega arith) h)

single_row :
    (height skip row : ℕ)
    → height ≡ 1
    → skip ≡ 0
    → row < word
    → row_sizes height row skip ≡ exact_row row
single_row height skip row one none_skipped h =
    ap₂ (λ k l. row_sizes k row l) one none_skipped ∙ row_sizes_exact row h

-- For an image of at least one row, fewer of them skipped, with dimensions that are not negative
-- and a positive alignment, `compute_image_data_sizes` reports the sizes computed without
-- wrap-around: every row but the last one padded to the alignment, and the last one not. It returns
-- false just if the bytes of a row, the row with the alignment less one, or the size do not fit in
-- 32 bits.
pub compute_image_data_sizes_exact :
    (width height format type alignment row_length skip : ℕ)
    → width < 2 ^ 31
    → row_length < 2 ^ 31
    → height < 2 ^ 31
    → skip < height
    → 0 < alignment
    → alignment < word
    → compute_image_data_sizes width height format type alignment row_length skip
      ≡ exact_sizes height (row_bytes width row_length format type) alignment skip
unfolding compute_image_data_sizes
compute_image_data_sizes_exact width height format type alignment row_length skip hw hl hh hs a1
      a2 =
    elim (dec_lt (chosen * group_size format type) word) [
      | yes fits ↦ elim (dec_lt 1 height) [
        | yes several ↦ ground (
          arith,
          multiplied,
          rows_sizes_exact height (chosen * group_size format type) alignment skip several hh hs
              fits a1 a2,
        )
        | no single ↦ ground (
          arith,
          multiplied,
          single_row height skip (chosen * group_size format type) (omega arith) (omega arith) fits,
        )
      ]
      | no over ↦ ground (arith, multiplied)
    ]
  where
    chosen : ℕ
    chosen = if int_above 0 row_length then row_length else width

    multiplied : safe_multiply chosen (group_size format type) ≡ (
        if ltb (chosen * group_size format type) word
        then some (chosen * group_size format type)
        else none)
    multiplied =
        safe_multiply_exact chosen (group_size format type) (ground arith)
          (omega (arith, group_size-le format type))
