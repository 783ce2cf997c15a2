-- ===== src/Gl/State.antt =====
-- The part of `egl_state_t` (src/egl_state.h) that the state-setting calls read and write, in
-- groups, its initial values (`egl_state_init` of src/egl_state.c), and the calls sent on.
-- A GLint, GLuint or GLenum is its 32-bit pattern, a GLfloat its 32-bit encoding, a GLboolean its
-- value.
use gpu_proxy.Base.{ℕ, ◌^◌, ◌==◌, leb, Bool, false, List, [], ◌∷◌, if◌then◌else◌, ◌&&◌}
use gpu_proxy.Gl.Enums

-- What the code takes from the machine's floats: `==`, the conversion of an enumerant, `< 0`. (`> 0`
-- and the number of texture units are the driver's: the code does not read them.)
-- And from the generated enum_validation.h: the `is_valid_…` functions.
pub record Env : Type 0 where
  pub feq : ℕ → ℕ → Bool
  pub of_enum : ℕ → ℕ
  pub float_negative : ℕ → Bool
  pub float_positive : ℕ → Bool
  pub is_valid_equation : ℕ → Bool
  pub is_valid_src_blend_factor : ℕ → Bool
  pub is_valid_dst_blend_factor : ℕ → Bool
  pub is_valid_face_type : ℕ → Bool
  pub is_valid_cmp_function : ℕ → Bool
  pub is_valid_stencil_op : ℕ → Bool
  pub is_valid_hint_mode : ℕ → Bool
  pub is_valid_pixel_store_alignment : ℕ → Bool
  pub texture_units : ℕ

-- A negative GLint or GLsizei.
abbrev pub int_negative : ℕ → Bool
int_negative w = leb (2 ^ 31) w

-- Four components.
pub record Quad : Type 0 where
  pub c0 : ℕ
  pub c1 : ℕ
  pub c2 : ℕ
  pub c3 : ℕ

abbrev pub quad_eq : (ℕ → ℕ → Bool) → Quad → Quad → Bool
quad_eq eq a b = eq a.c0 b.c0 && eq a.c1 b.c1 && eq a.c2 b.c2 && eq a.c3 b.c3

pub record Blend : Type 0 where
  pub color : Quad
  pub src_rgb : ℕ
  pub src_alpha : ℕ
  pub dst_rgb : ℕ
  pub dst_alpha : ℕ
  pub equation_rgb : ℕ
  pub equation_alpha : ℕ

pub record Caps : Type 0 where
  pub blend : ℕ
  pub cull_face : ℕ
  pub depth_test : ℕ
  pub dither : ℕ
  pub polygon_offset_fill : ℕ
  pub sample_alpha_to_coverage : ℕ
  pub sample_coverage : ℕ
  pub scissor_test : ℕ
  pub stencil_test : ℕ

pub record Face : Type 0 where
  pub func : ℕ
  pub ref : ℕ
  pub value_mask : ℕ
  pub writemask : ℕ
  pub fail : ℕ
  pub pass_depth_fail : ℕ
  pub pass_depth_pass : ℕ

pub record Stencil : Type 0 where
  pub front : Face
  pub back : Face

pub record Raster : Type 0 where
  pub color_writemask : Quad
  pub cull_face_mode : ℕ
  pub depth_func : ℕ
  pub depth_range_near : ℕ
  pub depth_range_far : ℕ
  pub depth_writemask : ℕ
  pub front_face : ℕ
  pub generate_mipmap_hint : ℕ
  pub line_width : ℕ
  pub polygon_offset_factor : ℕ
  pub polygon_offset_units : ℕ
  pub sample_coverage_value : ℕ
  pub sample_coverage_invert : ℕ
  pub scissor_box : Quad
  pub viewport : Quad

pub record Pixel : Type 0 where
  pub pack_alignment : ℕ
  pub unpack_alignment : ℕ
  pub unpack_row_length : ℕ
  pub unpack_skip_rows : ℕ
  pub unpack_skip_pixels : ℕ

pub record Bindings : Type 0 where
  pub active_texture : ℕ
  pub texture_2d : ℕ
  pub texture_cube_map : ℕ
  pub texture_3d : ℕ
  pub array_buffer : ℕ
  pub element_array_buffer : ℕ
  pub framebuffer : ℕ
  pub renderbuffer : ℕ

pub record State : Type 0 where
  pub active : Bool
  pub error : ℕ
  pub need_get_error : Bool
  pub blending : Blend
  pub caps : Caps
  pub stencil : Stencil
  pub raster : Raster
  pub pixel : Pixel
  pub bindings : Bindings

-- The calls that go to the super class's dispatch table.
pub data Call : Type 0 where
  active_texture : ℕ → Call
  bind_buffer bind_framebuffer bind_renderbuffer : ℕ → ℕ → Call
  blend_color : Quad → Call
  blend_equation : ℕ → Call
  blend_equation_separate : ℕ → ℕ → Call
  blend_func : ℕ → ℕ → Call
  blend_func_separate : ℕ → ℕ → ℕ → ℕ → Call
  color_mask : Quad → Call
  cull_face depth_func depth_mask front_face line_width : ℕ → Call
  depth_range polygon_offset sample_coverage hint pixel_store : ℕ → ℕ → Call
  enable disable : ℕ → Call
  scissor viewport : Quad → Call
  stencil_func_separate : ℕ → ℕ → ℕ → ℕ → Call
  stencil_mask_separate : ℕ → ℕ → Call
  stencil_op_separate : ℕ → ℕ → ℕ → ℕ → Call
  get_error : Call

-- What a call of the caching client does: the new state, and the calls sent on.
abbrev pub Reply : Type 0
Reply = State × List Call

abbrev pub keep : State → Reply
keep s = (s, [])

abbrev pub send : State → Call → Reply
send s c = (s, c ∷ [])

-- `caching_client_glSetError`: the first error stays until it is fetched.
abbrev pub set_error : State → ℕ → State
set_error s e = if s.active && s.error == Enums.no_error then record s { error = e } else s

abbrev pub fails : State → ℕ → Reply
fails s e = (set_error s e, [])

-- `memset (&mask, 1, sizeof (GLint))`
abbrev pub byte_ones : ℕ
byte_ones = 0x01010101

abbrev pub same : ℕ → Quad
same n = record { c0 = n; c1 = n; c2 = n; c3 = n }

abbrev pub initial_face : Face
initial_face = record {
  func = Enums.always;
  ref = 0;
  value_mask = byte_ones;
  writemask = byte_ones;
  fail = Enums.keep;
  pass_depth_fail = Enums.keep;
  pass_depth_pass = Enums.keep;
}

-- `egl_state_init`. The coverage value and its inversion are not set there: they are what `malloc`
-- left.
unfoldable pub init : Env → ℕ → ℕ → State
init env garbage_value garbage_invert = record {
  active = false;
  error = Enums.no_error;
  need_get_error = false;
  blending = record {
    color = same (env.of_enum Enums.zero_factor);
    src_rgb = env.of_enum Enums.one_factor;
    src_alpha = env.of_enum Enums.one_factor;
    dst_rgb = env.of_enum Enums.zero_factor;
    dst_alpha = env.of_enum Enums.zero_factor;
    equation_rgb = Enums.func_add;
    equation_alpha = Enums.func_add;
  };
  caps = record {
    blend = 0;
    cull_face = 0;
    depth_test = 0;
    dither = 1;
    polygon_offset_fill = 0;
    sample_alpha_to_coverage = 0;
    sample_coverage = 0;
    scissor_test = 0;
    stencil_test = 0;
  };
  stencil = record { front = initial_face; back = initial_face };
  raster = record {
    color_writemask = same 1;
    cull_face_mode = Enums.back;
    depth_func = Enums.less;
    depth_range_near = env.of_enum 0;
    depth_range_far = env.of_enum 1;
    depth_writemask = 1;
    front_face = Enums.ccw;
    generate_mipmap_hint = Enums.dont_care;
    line_width = env.of_enum 1;
    polygon_offset_factor = env.of_enum 0;
    polygon_offset_units = env.of_enum 0;
    sample_coverage_value = garbage_value;
    sample_coverage_invert = garbage_invert;
    scissor_box = same 0;
    viewport = same 0;
  };
  pixel = record {
    pack_alignment = 4;
    unpack_alignment = 4;
    unpack_row_length = 0;
    unpack_skip_rows = 0;
    unpack_skip_pixels = 0;
  };
  bindings = record {
    active_texture = Enums.texture0;
    texture_2d = 0;
    texture_cube_map = 0;
    texture_3d = 0;
    array_buffer = 0;
    element_array_buffer = 0;
    framebuffer = 0;
    renderbuffer = 0;
  };
}
