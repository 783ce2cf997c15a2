-- ===== src/Gl/Driver.antt =====
-- What the GL driver promises of the calls that the caching client sends on. The driver is no part
-- of the repository: it is a parameter, with the documented effect of each call.
use gpu_proxy.Base.{ℕ, ◌+◌, ◌≡◌, ◌==◌, ltb, leb, not, List, [], ◌∷◌, if◌then◌else◌, ◌&&◌, ◌||◌}
use gpu_proxy.Gl.Enums
use gpu_proxy.Gl.State.{Env, State, Blend, Caps, Face, Stencil, Raster, int_negative, Call}

-- The settings in force in the driver, as they were last given to it (the driver clamps some of them
-- where it uses them). Blend factors are as glGetFloatv reports them.
pub record View : Type 0 where
  pub blending : Blend
  pub caps : Caps
  pub stencil : Stencil
  pub raster : Raster
  pub pack_alignment : ℕ
  pub unpack_alignment : ℕ
  pub active_texture : ℕ
  pub array_buffer : ℕ
  pub element_array_buffer : ℕ
  pub framebuffer : ℕ
  pub renderbuffer : ℕ

-- What the cache holds of them.
abbrev pub cached : State → View
cached s = record {
  blending = s.blending;
  caps = s.caps;
  stencil = s.stencil;
  raster = s.raster;
  pack_alignment = s.pixel.pack_alignment;
  unpack_alignment = s.pixel.unpack_alignment;
  active_texture = s.bindings.active_texture;
  array_buffer = s.bindings.array_buffer;
  element_array_buffer = s.bindings.element_array_buffer;
  framebuffer = s.bindings.framebuffer;
  renderbuffer = s.bindings.renderbuffer;
}

abbrev pub set_cap : ℕ → ℕ → Caps → Caps
set_cap cap v c =
    if cap == Enums.blend
    then record c { blend = v }
    else if cap == Enums.cull_face
    then record c { cull_face = v }
    else if cap == Enums.depth_test
    then record c { depth_test = v }
    else if cap == Enums.dither
    then record c { dither = v }
    else if cap == Enums.polygon_offset_fill
    then record c { polygon_offset_fill = v }
    else if cap == Enums.sample_alpha_to_coverage
    then record c { sample_alpha_to_coverage = v }
    else if cap == Enums.sample_coverage
    then record c { sample_coverage = v }
    else if cap == Enums.scissor_test
    then record c { scissor_test = v }
    else if cap == Enums.stencil_test
    then record c { stencil_test = v }
    else c

-- The faces that a face enumerant names.
abbrev pub at_faces : ℕ → (Face → Face) → Stencil → Stencil
at_faces face f s =
    if face == Enums.front
    then record s { front = f s.front }
    else if face == Enums.back
    then record s { back = f s.back }
    else record { front = f s.front; back = f s.back }

module _ (env : Env) where
  -- The effect of a call by the GL ES 2.0 specification: an error leaves every setting alone.
  unfoldable pub apply : Call → View → View
  apply (Call.active_texture t) v =
      if leb Enums.texture0 t && ltb t (Enums.texture0 + env.texture_units)
      then record v { active_texture = t }
      else v
  apply (Call.bind_buffer target n) v =
      if target == Enums.array_buffer
      then record v { array_buffer = n }
      else if target == Enums.element_array_buffer
      then record v { element_array_buffer = n }
      else v
  apply (Call.bind_framebuffer target n) v =
      if target == Enums.framebuffer then record v { framebuffer = n } else v
  apply (Call.bind_renderbuffer target n) v =
      if target == Enums.renderbuffer then record v { renderbuffer = n } else v
  apply (Call.blend_color q) v = record v { blending = record (v.blending) { color = q } }
  apply (Call.blend_equation m) v =
      if env.is_valid_equation m
      then record v { blending = record (v.blending) { equation_rgb = m; equation_alpha = m } }
      else v
  apply (Call.blend_equation_separate m n) v =
      if env.is_valid_equation m && env.is_valid_equation n
      then record v { blending = record (v.blending) { equation_rgb = m; equation_alpha = n } }
      else v
  apply (Call.blend_func f d) v =
      if env.is_valid_src_blend_factor f && env.is_valid_dst_blend_factor d
      then record v {
        blending = record (v.blending) {
          src_rgb = env.of_enum f;
          src_alpha = env.of_enum f;
          dst_rgb = env.of_enum d;
          dst_alpha = env.of_enum d;
        };
      }
      else v
  apply (Call.blend_func_separate f d g e) v =
      if env.is_valid_src_blend_factor f
        && env.is_valid_src_blend_factor g
        && env.is_valid_dst_blend_factor d
        && env.is_valid_dst_blend_factor e
      then record v {
        blending = record (v.blending) {
          src_rgb = env.of_enum f;
          src_alpha = env.of_enum g;
          dst_rgb = env.of_enum d;
          dst_alpha = env.of_enum e;
        };
      }
      else v
  apply (Call.color_mask q) v = record v { raster = record (v.raster) { color_writemask = q } }
  apply (Call.cull_face m) v =
      if env.is_valid_face_type m
      then record v { raster = record (v.raster) { cull_face_mode = m } }
      else v
  apply (Call.depth_func f) v =
      if env.is_valid_cmp_function f
      then record v { raster = record (v.raster) { depth_func = f } }
      else v
  apply (Call.depth_mask b) v = record v { raster = record (v.raster) { depth_writemask = b } }
  apply (Call.front_face m) v =
      if m == Enums.ccw || m == Enums.cw
      then record v { raster = record (v.raster) { front_face = m } }
      else v
  apply (Call.line_width w) v =
      if env.float_positive w then record v { raster = record (v.raster) { line_width = w } } else v
  apply (Call.depth_range n f) v = record v {
    raster = record (v.raster) { depth_range_near = n; depth_range_far = f };
  }
  apply (Call.polygon_offset f u) v = record v {
    raster = record (v.raster) { polygon_offset_factor = f; polygon_offset_units = u };
  }
  apply (Call.sample_coverage x i) v = record v {
    raster = record (v.raster) { sample_coverage_value = x; sample_coverage_invert = i };
  }
  apply (Call.hint target m) v =
      if target == Enums.generate_mipmap_hint && env.is_valid_hint_mode m
      then record v { raster = record (v.raster) { generate_mipmap_hint = m } }
      else v
  apply (Call.pixel_store pname n) v =
      if not (env.is_valid_pixel_store_alignment n) || int_negative n
      then v
      else if pname == Enums.pack_alignment
      then record v { pack_alignment = n }
      else if pname == Enums.unpack_alignment
      then record v { unpack_alignment = n }
      else v
  apply (Call.enable cap) v = record v { caps = set_cap cap 1 v.caps }
  apply (Call.disable cap) v = record v { caps = set_cap cap 0 v.caps }
  apply (Call.scissor q) v =
      if int_negative q.c2 || int_negative q.c3
      then v
      else record v { raster = record (v.raster) { scissor_box = q } }
  apply (Call.viewport q) v =
      if int_negative q.c2 || int_negative q.c3
      then v
      else record v { raster = record (v.raster) { viewport = q } }
  apply (Call.stencil_func_separate face f n m) v =
      if env.is_valid_face_type face && env.is_valid_cmp_function f
      then record v {
        stencil = at_faces face (λ x. record x { func = f; ref = n; value_mask = m }) v.stencil;
      }
      else v
  apply (Call.stencil_mask_separate face m) v =
      if env.is_valid_face_type face
      then record v { stencil = at_faces face (λ x. record x { writemask = m }) v.stencil }
      else v
  apply (Call.stencil_op_separate face f z p) v =
      if env.is_valid_face_type face
        && env.is_valid_stencil_op f
        && env.is_valid_stencil_op z
        && env.is_valid_stencil_op p
      then record v {
        stencil =
            at_faces face (λ x. record x { fail = f; pass_depth_fail = z; pass_depth_pass = p })
              v.stencil;
      }
      else v
  apply Call.get_error v = v

  abbrev pub apply_all : List Call → View → View
  apply_all [] v = v
  apply_all (c ∷ r) v = apply_all r (apply c v)

  -- A driver: its state, what is in force in it, and what a call does to it.
  pub record Driver : Type 1 where
    pub Gl : Type 0
    pub view : Gl → View
    pub exec : Call → Gl → Gl
    pub exec_lem : (c : Call) (g : Gl) → view (exec c g) ≡ apply c (view g)
