-- ===== src/Image/Enums.antt =====
-- The formats and types of pixels, by their numbers in the headers GLES2/gl2.h and
-- src/util/gl2ext.h.
use gpu_proxy.Base.{ℕ}

abbrev pub byte : ℕ
byte = 0x1400

abbrev pub unsigned_byte : ℕ
unsigned_byte = 0x1401

abbrev pub short : ℕ
short = 0x1402

abbrev pub unsigned_short : ℕ
unsigned_short = 0x1403

abbrev pub unsigned_int : ℕ
unsigned_int = 0x1405

abbrev pub float : ℕ
float = 0x1406

abbrev pub half_float_oes : ℕ
half_float_oes = 0x8d61

abbrev pub unsigned_short_4_4_4_4 : ℕ
unsigned_short_4_4_4_4 = 0x8033

abbrev pub unsigned_short_5_5_5_1 : ℕ
unsigned_short_5_5_5_1 = 0x8034

abbrev pub unsigned_short_5_6_5 : ℕ
unsigned_short_5_6_5 = 0x8363

abbrev pub unsigned_int_24_8_oes : ℕ
unsigned_int_24_8_oes = 0x84fa

abbrev pub depth_component : ℕ
depth_component = 0x1902

abbrev pub alpha : ℕ
alpha = 0x1906

abbrev pub rgb : ℕ
rgb = 0x1907

abbrev pub rgba : ℕ
rgba = 0x1908

abbrev pub luminance : ℕ
luminance = 0x1909

abbrev pub luminance_alpha : ℕ
luminance_alpha = 0x190a

abbrev pub bgra_ext : ℕ
bgra_ext = 0x80e1

abbrev pub depth_component16 : ℕ
depth_component16 = 0x81a5

abbrev pub depth_component24_oes : ℕ
depth_component24_oes = 0x81a6

abbrev pub depth_component32_oes : ℕ
depth_component32_oes = 0x81a7

abbrev pub depth24_stencil8_oes : ℕ
depth24_stencil8_oes = 0x88f0

abbrev pub depth_stencil_oes : ℕ
depth_stencil_oes = 0x84f9
