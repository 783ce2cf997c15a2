-- ===== src/Gl/Same.antt =====
-- When two views of a driver's settings count as the same: src/client/caching_client.c compares
-- floats by `==`, and sends nothing on where they are equal.
use gpu_proxy.Base.{◌⊎◌, ℕ, ◌≡◌, true}
use gpu_proxy.Gl.State.{Env, Blend, Raster, Quad}
use gpu_proxy.Gl.Driver.{View}

-- Two floats that are the same, or equal for the machine.
abbrev pub SameFloat : Env → ℕ → ℕ → Type 0
SameFloat env x y = (x ≡ y) ⊎ (env.feq x y ≡ true) ⊎ (env.feq y x ≡ true)

pub record SameQuad (env : Env) (p q : Quad) : Type 0 where
  pub f0 : SameFloat env p.c0 q.c0
  pub f1 : SameFloat env p.c1 q.c1
  pub f2 : SameFloat env p.c2 q.c2
  pub f3 : SameFloat env p.c3 q.c3

pub record SameBlend (env : Env) (x y : Blend) : Type 0 where
  pub color : SameQuad env x.color y.color
  pub src_rgb : SameFloat env x.src_rgb y.src_rgb
  pub src_alpha : SameFloat env x.src_alpha y.src_alpha
  pub dst_rgb : SameFloat env x.dst_rgb y.dst_rgb
  pub dst_alpha : SameFloat env x.dst_alpha y.dst_alpha
  pub equation_rgb : x.equation_rgb ≡ y.equation_rgb
  pub equation_alpha : x.equation_alpha ≡ y.equation_alpha

pub record SameRaster (env : Env) (x y : Raster) : Type 0 where
  pub color_writemask : x.color_writemask ≡ y.color_writemask
  pub cull_face_mode : x.cull_face_mode ≡ y.cull_face_mode
  pub depth_func : x.depth_func ≡ y.depth_func
  pub depth_range_near : SameFloat env x.depth_range_near y.depth_range_near
  pub depth_range_far : SameFloat env x.depth_range_far y.depth_range_far
  pub depth_writemask : x.depth_writemask ≡ y.depth_writemask
  pub front_face : x.front_face ≡ y.front_face
  pub generate_mipmap_hint : x.generate_mipmap_hint ≡ y.generate_mipmap_hint
  pub line_width : SameFloat env x.line_width y.line_width
  pub polygon_offset_factor : SameFloat env x.polygon_offset_factor y.polygon_offset_factor
  pub polygon_offset_units : SameFloat env x.polygon_offset_units y.polygon_offset_units
  pub sample_coverage_value : SameFloat env x.sample_coverage_value y.sample_coverage_value
  pub sample_coverage_invert : x.sample_coverage_invert ≡ y.sample_coverage_invert
  pub scissor_box : x.scissor_box ≡ y.scissor_box
  pub viewport : x.viewport ≡ y.viewport

-- Two views with the same settings, floats compared by the machine.
pub record SameView (env : Env) (v w : View) : Type 0 where
  pub blending : SameBlend env v.blending w.blending
  pub caps : v.caps ≡ w.caps
  pub stencil : v.stencil ≡ w.stencil
  pub raster : SameRaster env v.raster w.raster
  pub pack_alignment : v.pack_alignment ≡ w.pack_alignment
  pub unpack_alignment : v.unpack_alignment ≡ w.unpack_alignment
  pub active_texture : v.active_texture ≡ w.active_texture
  pub array_buffer : v.array_buffer ≡ w.array_buffer
  pub element_array_buffer : v.element_array_buffer ≡ w.element_array_buffer
  pub framebuffer : v.framebuffer ≡ w.framebuffer
  pub renderbuffer : v.renderbuffer ≡ w.renderbuffer
