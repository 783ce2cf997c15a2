-- ===== src/Programs/Sources.antt =====
-- src/client/caching_client.c: the copies that glShaderSource makes of a shader's text.
use gpu_proxy.Base.{
  ℕ, ◌+◌, ◌-◌, ◌%◌, ◌^◌, ◌*◌, ◌<◌, ◌≡◌, ◌≢◌, refl, Option, none, some, Bool, true, false, List, [],
  ◌∷◌, ◌==◌, ◌||◌, if◌then◌else◌, arith,
}
use gpu_proxy.Gl.Enums
use gpu_proxy.Gl.State.{int_negative}

-- One string of the application: its address, or NULL, is told by the bytes before its 0.
abbrev pub Source : Type 0
Source = Option ℕ

-- A copy: the bytes that are allocated and those that are copied, and if a 0 is written after them.
pub record SourceCopy : Type 0 where
  pub allocated : ℕ
  pub copied : ℕ
  pub is_terminated : Bool

-- An int as a size_t.
abbrev pub size_of_int : ℕ → ℕ
size_of_int w = if int_negative w then 2 ^ 64 - 2 ^ 32 + w else w

-- The length that is copied. The test `string_length < 0` of the code is of an unsigned number.
abbrev pub string_length : ℕ → Option ℕ → ℕ
string_length text none = text
string_length text (some length) = size_of_int length

abbrev pub is_null_terminated : Option ℕ → Bool
is_null_terminated none = true
is_null_terminated (some length) = int_negative length

abbrev pub copy_source : ℕ → Option ℕ → SourceCopy
copy_source text length = record {
  allocated =
      if is_null_terminated length
      then (string_length text length + 1) % 2 ^ 64
      else string_length text length;
  copied = string_length text length;
  is_terminated = is_null_terminated length;
}

-- The length that is given for a string: `none` without an array of lengths.
abbrev pub length_at : Option (ℕ → ℕ) → ℕ → Option ℕ
length_at none i = none
length_at (some lengths) i = some (lengths i)

-- The loop over the strings from `i` on; `none` where one of them is NULL.
unfoldable pub copy_sources : Option (ℕ → ℕ) → ℕ → List Source → Option (List SourceCopy)
copy_sources lengths i [] = some []
copy_sources lengths i (none ∷ r) = none
copy_sources lengths i (some text ∷ r) =
    let rest = copy_sources lengths (i + 1) r in
    elim rest [ none ↦ none | some copies ↦ some (copy_source text (length_at lengths i) ∷ copies) ]

-- What glShaderSource does: an error, or the bytes that it reads of the array of lengths, and the
-- copies that go to the driver, with `need_get_error` set.
pub data SourceOutcome : Type 0 where
  refused : ℕ → SourceOutcome
  sent : ℕ → List SourceCopy → SourceOutcome

abbrev pub lengths_read : Option (ℕ → ℕ) → ℕ → ℕ
lengths_read none count = 0
lengths_read (some lengths) count = 8 * count

-- `caching_client_glShaderSource`, for the strings that `string` points to, if it is not NULL.
unfoldable pub gl_shader_source : ℕ → Option (List Source) → Option (ℕ → ℕ) → SourceOutcome
gl_shader_source count none lengths = SourceOutcome.refused Enums.invalid_value
gl_shader_source count (some strings) lengths =
    if int_negative count || count == 0
    then SourceOutcome.refused Enums.invalid_value
    else elim (copy_sources lengths 0 strings) [
      | none ↦ SourceOutcome.refused Enums.invalid_operation
      | some copies ↦ SourceOutcome.sent (lengths_read lengths count) copies
    ]

-- Strings that are all given, each of fewer bytes than an int can tell.
unfoldable pub AreGiven : List Source → Type 0
AreGiven [] = Unit
AreGiven (none ∷ r) = ⊥
AreGiven (some text ∷ r) = (text < 2 ^ 31) × AreGiven r

-- No length is negative.
abbrev pub ArePositive : Option (ℕ → ℕ) → Type 0
ArePositive none = Unit
ArePositive (some lengths) = (i : ℕ) → int_negative (lengths i) ≡ false

abbrev pub terminator : Bool → ℕ
terminator true = 1
terminator false = 0

-- What is written of a copy is what was allocated, and what is read is what was asked for.
abbrev pub Fits : Option (ℕ → ℕ) → ℕ → ℕ → SourceCopy → Type 0
Fits lengths i text c =
    (c.copied + terminator c.is_terminated ≡ c.allocated)
    × (c.copied ≡ elim (length_at lengths i) [ none ↦ text | some length ↦ length ])

unfoldable pub AllFit : Option (ℕ → ℕ) → ℕ → List Source → List SourceCopy → Type 0
AllFit lengths i [] [] = Unit
AllFit lengths i (some text ∷ r) (c ∷ copies) =
    Fits lengths i text c × AllFit lengths (i + 1) r copies
AllFit lengths i _ _ = ⊥

copy_source-Fits :
    (lengths : Option (ℕ → ℕ)) (i text : ℕ)
    → ArePositive lengths
    → text < 2 ^ 31
    → Fits lengths i text (copy_source text (length_at lengths i))
copy_source-Fits none i text p small = (omega arith, refl)
copy_source-Fits (some lengths) i text p small = ground (arith, p i)

copy_sources-AllFit :
    (lengths : Option (ℕ → ℕ)) (i : ℕ) (strings : List Source)
    → ArePositive lengths
    → AreGiven strings
    → (copies : List SourceCopy) × (copy_sources lengths i strings ≡ some copies)
      × AllFit lengths i strings copies
unfolding copy_sources AreGiven AllFit
copy_sources-AllFit lengths i [] p g = ([], refl, tt)
copy_sources-AllFit lengths i (none ∷ r) p g = absurd g
copy_sources-AllFit lengths i (some text ∷ r) p (small, g) =
    let (copies, rest, fit) = copy_sources-AllFit lengths (i + 1) r p g in
    (
      copy_source text (length_at lengths i) ∷ copies,
      ground (arith, rest),
      (copy_source-Fits lengths i text p small, fit),
    )

-- The copies of a shader's text fit: for a count that is more than 0, strings that are all given and
-- shorter than 2^31, and lengths that are not negative or not given, glShaderSource sends one copy of each,
-- which has as many bytes as its length says, or as the string has where no lengths are given, and for which
-- exactly these bytes are allocated, and one more where a 0 ends it.
pub shader_source_fits :
    (count : ℕ) (strings : List Source) (lengths : Option (ℕ → ℕ))
    → int_negative count ≡ false
    → count ≢ 0
    → AreGiven strings
    → ArePositive lengths
    → (copies : List SourceCopy) × (gl_shader_source count (some strings) lengths
        ≡ SourceOutcome.sent (lengths_read lengths count) copies)
      × AllFit lengths 0 strings copies
unfolding gl_shader_source
shader_source_fits count strings lengths positive n g p =
    let (copies, e, fit) = copy_sources-AllFit lengths 0 strings p g in
    (copies, ground (arith, e, positive, n), fit)

-- A negative length stands for a string that a 0 ends, but it is taken as a huge number: for one string of
-- less than 2^31 bytes with a negative length, glShaderSource copies more bytes than the string has, its 0
-- included.
pub negative_length_overruns :
    (text : ℕ) (lengths : ℕ → ℕ)
    → text < 2 ^ 31
    → int_negative (lengths 0) ≡ true
    → lengths 0 < 2 ^ 32
    → (c : SourceCopy) × (gl_shader_source 1 (some (some text ∷ [])) (some lengths)
        ≡ SourceOutcome.sent 8 (c ∷ []))
      × (text + 1 < c.copied)
unfolding gl_shader_source copy_sources
negative_length_overruns text lengths small negative word =
    (copy_source text (some (lengths 0)), refl, ground (arith, negative))
