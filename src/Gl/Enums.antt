-- ===== src/Gl/Enums.antt =====
-- The GL enumerants that the caching client compares with, by their numbers in GLES2/gl2.h and
-- src/util/gl2ext.h.
use gpu_proxy.Base.{ℕ}

abbrev pub no_error : ℕ
no_error = 0x0

abbrev pub invalid_enum : ℕ
invalid_enum = 0x500

abbrev pub invalid_value : ℕ
invalid_value = 0x501

abbrev pub invalid_operation : ℕ
invalid_operation = 0x502

abbrev pub invalid_framebuffer_operation : ℕ
invalid_framebuffer_operation = 0x506

abbrev pub texture0 : ℕ
texture0 = 0x84c0

abbrev pub texture31 : ℕ
texture31 = 0x84df

abbrev pub array_buffer : ℕ
array_buffer = 0x8892

abbrev pub element_array_buffer : ℕ
element_array_buffer = 0x8893

abbrev pub framebuffer : ℕ
framebuffer = 0x8d40

abbrev pub renderbuffer : ℕ
renderbuffer = 0x8d41

abbrev pub texture_2d : ℕ
texture_2d = 0xde1

abbrev pub texture_cube_map : ℕ
texture_cube_map = 0x8513

abbrev pub texture_3d_oes : ℕ
texture_3d_oes = 0x806f

abbrev pub blend : ℕ
blend = 0xbe2

abbrev pub cull_face : ℕ
cull_face = 0xb44

abbrev pub depth_test : ℕ
depth_test = 0xb71

abbrev pub dither : ℕ
dither = 0xbd0

abbrev pub polygon_offset_fill : ℕ
polygon_offset_fill = 0x8037

abbrev pub sample_alpha_to_coverage : ℕ
sample_alpha_to_coverage = 0x809e

abbrev pub sample_coverage : ℕ
sample_coverage = 0x80a0

abbrev pub scissor_test : ℕ
scissor_test = 0xc11

abbrev pub stencil_test : ℕ
stencil_test = 0xb90

abbrev pub front : ℕ
front = 0x404

abbrev pub back : ℕ
back = 0x405

abbrev pub front_and_back : ℕ
front_and_back = 0x408

abbrev pub cw : ℕ
cw = 0x900

abbrev pub ccw : ℕ
ccw = 0x901

abbrev pub generate_mipmap_hint : ℕ
generate_mipmap_hint = 0x8192

abbrev pub pack_alignment : ℕ
pack_alignment = 0xd05

abbrev pub unpack_alignment : ℕ
unpack_alignment = 0xcf5

abbrev pub unpack_row_length : ℕ
unpack_row_length = 0xcf2

abbrev pub unpack_skip_rows : ℕ
unpack_skip_rows = 0xcf3

abbrev pub unpack_skip_pixels : ℕ
unpack_skip_pixels = 0xcf4

abbrev pub func_add : ℕ
func_add = 0x8006

abbrev pub zero_factor : ℕ
zero_factor = 0x0

abbrev pub one_factor : ℕ
one_factor = 0x1

abbrev pub less : ℕ
less = 0x201

abbrev pub always : ℕ
always = 0x207

abbrev pub keep : ℕ
keep = 0x1e00

abbrev pub dont_care : ℕ
dont_care = 0x1100

abbrev pub color_attachment0 : ℕ
color_attachment0 = 0x8ce0

abbrev pub depth_attachment : ℕ
depth_attachment = 0x8d00

abbrev pub stencil_attachment : ℕ
stencil_attachment = 0x8d20

abbrev pub framebuffer_complete : ℕ
framebuffer_complete = 0x8cd5

abbrev pub color_buffer_bit : ℕ
color_buffer_bit = 0x4000

abbrev pub depth_buffer_bit : ℕ
depth_buffer_bit = 0x100

abbrev pub stencil_buffer_bit : ℕ
stencil_buffer_bit = 0x400

abbrev pub linear : ℕ
linear = 0x2601

abbrev pub nearest_mipmap_linear : ℕ
nearest_mipmap_linear = 0x2702

abbrev pub repeat : ℕ
repeat = 0x2901

abbrev pub texture_mag_filter : ℕ
texture_mag_filter = 0x2800

abbrev pub texture_min_filter : ℕ
texture_min_filter = 0x2801

abbrev pub texture_wrap_s : ℕ
texture_wrap_s = 0x2802

abbrev pub texture_wrap_t : ℕ
texture_wrap_t = 0x2803

abbrev pub texture_wrap_r_oes : ℕ
texture_wrap_r_oes = 0x8072

abbrev pub texture_max_anisotropy_ext : ℕ
texture_max_anisotropy_ext = 0x84fe

abbrev pub cube_map_positive_x : ℕ
cube_map_positive_x = 0x8515

abbrev pub cube_map_negative_z : ℕ
cube_map_negative_z = 0x851a

abbrev pub extensions : ℕ
extensions = 0x1f03

abbrev pub vendor : ℕ
vendor = 0x1f00

abbrev pub renderer : ℕ
renderer = 0x1f01

abbrev pub version : ℕ
version = 0x1f02

abbrev pub shading_language_version : ℕ
shading_language_version = 0x8b8c

abbrev pub vertex_attrib_array_enabled : ℕ
vertex_attrib_array_enabled = 0x8622

abbrev pub vertex_attrib_array_size : ℕ
vertex_attrib_array_size = 0x8623

abbrev pub vertex_attrib_array_stride : ℕ
vertex_attrib_array_stride = 0x8624

abbrev pub vertex_attrib_array_type : ℕ
vertex_attrib_array_type = 0x8625

abbrev pub current_vertex_attrib : ℕ
current_vertex_attrib = 0x8626

abbrev pub vertex_attrib_array_pointer : ℕ
vertex_attrib_array_pointer = 0x8645

abbrev pub vertex_attrib_array_normalized : ℕ
vertex_attrib_array_normalized = 0x886a

abbrev pub vertex_attrib_array_buffer_binding : ℕ
vertex_attrib_array_buffer_binding = 0x889f

abbrev pub write_only_oes : ℕ
write_only_oes = 0x88b9

abbrev pub coverage_all_fragments_nv : ℕ
coverage_all_fragments_nv = 0x8ed5

abbrev pub coverage_edge_fragments_nv : ℕ
coverage_edge_fragments_nv = 0x8ed6

abbrev pub coverage_automatic_nv : ℕ
coverage_automatic_nv = 0x8ed7
