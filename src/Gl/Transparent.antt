-- ===== src/Gl/Transparent.antt =====
-- A call through the cache leaves the driver with the settings that the call alone would have given.
use gpu_proxy.Base.{ℕ, ◌≡◌, sym, ap, ◌∙◌, true, arith}
use std.Path.{subst₂}
use gpu_proxy.Gl.State.{Env, State, Quad, Call, Reply}
use gpu_proxy.Gl.Driver.{cached, apply, apply_all, Driver}
use gpu_proxy.Gl.Serve.{serve}
use gpu_proxy.Gl.Same.{SameView}
use gpu_proxy.Gl.Blending.{
  gl_blend_color, gl_blend_equation, gl_blend_equation_separate, gl_blend_func,
}
use gpu_proxy.Gl.Capabilities.{gl_enable, gl_disable}
use gpu_proxy.Gl.Stencils.{
  gl_stencil_func_separate, gl_stencil_mask_separate, gl_stencil_op_separate,
}
use gpu_proxy.Gl.Rasters.{
  gl_color_mask, gl_cull_face, gl_depth_func, gl_depth_mask, gl_depth_rangef, gl_front_face,
  gl_hint, gl_line_width, gl_polygon_offset, gl_sample_coverage, gl_scissor, gl_viewport,
  gl_pixel_storei, gl_get_error,
}
use gpu_proxy.Gl.Binds.{
  gl_active_texture, gl_bind_buffer, gl_bind_framebuffer, gl_bind_renderbuffer,
}
use gpu_proxy.Gl.Coherent.{is_regular, exec_all, view-exec_all}

-- After a call that sent `r.1` on from `s`, the driver is as after the call itself.
abbrev Acts : Env → State → Call → Reply → Type 0
Acts env s c r = SameView env (apply_all env r.1 (cached s)) (apply env c (cached s))

module _ (env : Env) (s : State) where
  blend_color-Acts : (q : Quad) → Acts env s (Call.blend_color q) (gl_blend_color env s q)
  unfolding gl_blend_color apply
  blend_color-Acts q = ground arith

  blend_equation-Acts : (m : ℕ) → Acts env s (Call.blend_equation m) (gl_blend_equation env s m)
  unfolding gl_blend_equation apply
  blend_equation-Acts m = ground arith

  blend_equation_separate-Acts :
      (m n : ℕ)
      → Acts env s (Call.blend_equation_separate m n) (gl_blend_equation_separate env s m n)
  unfolding gl_blend_equation_separate apply
  blend_equation_separate-Acts m n = ground arith

  blend_func-Acts : (f d : ℕ) → Acts env s (Call.blend_func f d) (gl_blend_func env s f d)
  unfolding gl_blend_func apply
  blend_func-Acts f d = ground arith

  color_mask-Acts : (q : Quad) → Acts env s (Call.color_mask q) (gl_color_mask env s q)
  unfolding gl_color_mask apply
  color_mask-Acts q = ground arith

  cull_face-Acts : (m : ℕ) → Acts env s (Call.cull_face m) (gl_cull_face env s m)
  unfolding gl_cull_face apply
  cull_face-Acts m = ground arith

  depth_func-Acts : (f : ℕ) → Acts env s (Call.depth_func f) (gl_depth_func env s f)
  unfolding gl_depth_func apply
  depth_func-Acts f = ground arith

  depth_mask-Acts : (b : ℕ) → Acts env s (Call.depth_mask b) (gl_depth_mask env s b)
  unfolding gl_depth_mask apply
  depth_mask-Acts b = ground arith

  front_face-Acts : (m : ℕ) → Acts env s (Call.front_face m) (gl_front_face env s m)
  unfolding gl_front_face apply
  front_face-Acts m = ground arith

  hint-Acts : (t m : ℕ) → Acts env s (Call.hint t m) (gl_hint env s t m)
  unfolding gl_hint apply
  hint-Acts t m = ground arith

  pixel_storei-Acts : (p n : ℕ) → Acts env s (Call.pixel_store p n) (gl_pixel_storei env s p n)
  unfolding gl_pixel_storei apply
  pixel_storei-Acts p n = ground arith

  enable-Acts : (c : ℕ) → Acts env s (Call.enable c) (gl_enable s c)
  unfolding gl_enable apply
  enable-Acts c = ground arith

  disable-Acts : (c : ℕ) → Acts env s (Call.disable c) (gl_disable s c)
  unfolding gl_disable apply
  disable-Acts c = ground arith

  stencil_func_separate-Acts :
      (face f n m : ℕ)
      → Acts env s
          (Call.stencil_func_separate face f n m)
          (gl_stencil_func_separate env s face f n m)
  unfolding gl_stencil_func_separate apply
  stencil_func_separate-Acts face f n m = ground arith

  stencil_mask_separate-Acts :
      (face m : ℕ)
      → Acts env s (Call.stencil_mask_separate face m) (gl_stencil_mask_separate env s face m)
  unfolding gl_stencil_mask_separate apply
  stencil_mask_separate-Acts face m = ground arith

  stencil_op_separate-Acts :
      (face f z p : ℕ)
      → Acts env s (Call.stencil_op_separate face f z p) (gl_stencil_op_separate env s face f z p)
  unfolding gl_stencil_op_separate apply
  stencil_op_separate-Acts face f z p = ground arith

  depth_rangef-Acts : (n f : ℕ) → Acts env s (Call.depth_range n f) (gl_depth_rangef env s n f)
  unfolding gl_depth_rangef apply
  depth_rangef-Acts n f = ground arith

  polygon_offset-Acts :
      (f u : ℕ) → Acts env s (Call.polygon_offset f u) (gl_polygon_offset env s f u)
  unfolding gl_polygon_offset apply
  polygon_offset-Acts f u = ground arith

  sample_coverage-Acts :
      (v i : ℕ) → Acts env s (Call.sample_coverage v i) (gl_sample_coverage env s v i)
  unfolding gl_sample_coverage apply
  sample_coverage-Acts v i = ground arith

  scissor-Acts : (q : Quad) → Acts env s (Call.scissor q) (gl_scissor env s q)
  unfolding gl_scissor apply
  scissor-Acts q = ground arith

  viewport-Acts : (q : Quad) → Acts env s (Call.viewport q) (gl_viewport env s q)
  unfolding gl_viewport apply
  viewport-Acts q = ground arith

  bind_buffer-Acts : (t n : ℕ) → Acts env s (Call.bind_buffer t n) (gl_bind_buffer s t n)
  unfolding gl_bind_buffer apply
  bind_buffer-Acts t n = ground arith

  line_width-Acts :
      (w : ℕ)
      → is_regular env (Call.line_width w) ≡ true
      → Acts env s (Call.line_width w) (gl_line_width env s w)
  unfolding gl_line_width apply
  line_width-Acts w h = ground arith

  active_texture-Acts :
      (t : ℕ)
      → is_regular env (Call.active_texture t) ≡ true
      → Acts env s (Call.active_texture t) (gl_active_texture s t)
  unfolding gl_active_texture apply
  active_texture-Acts t h = ground arith

  bind_framebuffer-Acts :
      (t n : ℕ)
      → is_regular env (Call.bind_framebuffer t n) ≡ true
      → Acts env s (Call.bind_framebuffer t n) (gl_bind_framebuffer s t n)
  unfolding gl_bind_framebuffer apply
  bind_framebuffer-Acts t n h = ground arith

  bind_renderbuffer-Acts :
      (t n : ℕ)
      → is_regular env (Call.bind_renderbuffer t n) ≡ true
      → Acts env s (Call.bind_renderbuffer t n) (gl_bind_renderbuffer s t n)
  unfolding gl_bind_renderbuffer apply
  bind_renderbuffer-Acts t n h = ground arith

-- After every regular call the driver is as after the call itself.
serve-Acts :
    (env : Env) (s : State) (c : Call) → is_regular env c ≡ true → Acts env s c (serve env s c)
unfolding serve gl_get_error apply
serve-Acts env s (Call.active_texture t) h = active_texture-Acts env s t h
serve-Acts env s (Call.bind_buffer t n) h = bind_buffer-Acts env s t n
serve-Acts env s (Call.bind_framebuffer t n) h = bind_framebuffer-Acts env s t n h
serve-Acts env s (Call.bind_renderbuffer t n) h = bind_renderbuffer-Acts env s t n h
serve-Acts env s (Call.blend_color q) h = blend_color-Acts env s q
serve-Acts env s (Call.blend_equation m) h = blend_equation-Acts env s m
serve-Acts env s (Call.blend_equation_separate m n) h = blend_equation_separate-Acts env s m n
serve-Acts env s (Call.blend_func f d) h = blend_func-Acts env s f d
serve-Acts env s (Call.blend_func_separate f d g e) h = absurd (ground arith)
serve-Acts env s (Call.color_mask q) h = color_mask-Acts env s q
serve-Acts env s (Call.cull_face m) h = cull_face-Acts env s m
serve-Acts env s (Call.depth_func f) h = depth_func-Acts env s f
serve-Acts env s (Call.depth_mask b) h = depth_mask-Acts env s b
serve-Acts env s (Call.front_face m) h = front_face-Acts env s m
serve-Acts env s (Call.line_width w) h = line_width-Acts env s w h
serve-Acts env s (Call.depth_range n f) h = depth_rangef-Acts env s n f
serve-Acts env s (Call.polygon_offset f u) h = polygon_offset-Acts env s f u
serve-Acts env s (Call.sample_coverage v i) h = sample_coverage-Acts env s v i
serve-Acts env s (Call.hint t m) h = hint-Acts env s t m
serve-Acts env s (Call.pixel_store p n) h = pixel_storei-Acts env s p n
serve-Acts env s (Call.enable c) h = enable-Acts env s c
serve-Acts env s (Call.disable c) h = disable-Acts env s c
serve-Acts env s (Call.scissor q) h = scissor-Acts env s q
serve-Acts env s (Call.viewport q) h = viewport-Acts env s q
serve-Acts env s (Call.stencil_func_separate face f n m) h =
    stencil_func_separate-Acts env s face f n m
serve-Acts env s (Call.stencil_mask_separate face m) h = stencil_mask_separate-Acts env s face m
serve-Acts env s (Call.stencil_op_separate face f z p) h = stencil_op_separate-Acts env s face f z p
serve-Acts env s Call.get_error h = ground arith

-- A regular call through the cache acts on the driver as the call itself: if the cache holds what is
-- in force in the driver, then after the driver has executed what was sent on, it has the settings
-- that the call by itself gives, floats being the same or equal by the machine's comparison.
pub call_transparent :
    {env : Env} (d : Driver env) (g : d.Gl) (s : State) (c : Call)
    → is_regular env c ≡ true
    → d.view g ≡ cached s
    → SameView env (d.view (exec_all d (serve env s c).1 g)) (d.view (d.exec c g))
call_transparent {env} d g s c h e =
    subst₂ (SameView env)
      (sym (view-exec_all d (serve env s c).1 g ∙ ap (apply_all env (serve env s c).1) e))
      (sym (d.exec_lem c g ∙ ap (apply env c) e)) (serve-Acts env s c h)
