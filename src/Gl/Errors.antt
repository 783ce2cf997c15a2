-- ===== src/Gl/Errors.antt =====
-- The error flag of src/client/caching_client.c.
use gpu_proxy.Base.{ℕ, ◌≡◌, ◌≢◌, refl, sym, ◌∙◌, ◌==◌, Bool, true, false, List, [], ◌∷◌, arith, All}
use gpu_proxy.Gl.Enums
use gpu_proxy.Gl.State.{Env, State, Quad, Call, Reply}
use gpu_proxy.Gl.Serve.{serve}
use gpu_proxy.Gl.Coherent.{session}
use gpu_proxy.Gl.Blending.{
  gl_blend_color, gl_blend_equation, gl_blend_equation_separate, gl_blend_func,
  gl_blend_func_separate,
}
use gpu_proxy.Gl.Capabilities.{gl_enable, gl_disable}
use gpu_proxy.Gl.Stencils.{
  gl_stencil_func_separate, gl_stencil_mask_separate, gl_stencil_op_separate,
}
use gpu_proxy.Gl.Rasters.{
  gl_color_mask, gl_cull_face, gl_depth_func, gl_depth_mask, gl_depth_rangef, gl_front_face,
  gl_hint, gl_line_width, gl_polygon_offset, gl_sample_coverage, gl_scissor, gl_viewport,
  gl_pixel_storei, gl_get_error,
}
use gpu_proxy.Gl.Binds.{
  gl_active_texture, gl_bind_buffer, gl_bind_framebuffer, gl_bind_renderbuffer,
}

-- All calls but glGetError, and a glHint with a target that the cache does not hold, after which the
-- driver has to be asked for errors.
abbrev pub is_setting : Call → Bool
is_setting Call.get_error = false
is_setting (Call.hint t m) = t == Enums.generate_mipmap_hint
is_setting c = true

-- What a call may do to the error flag: with an error there already, nothing.
abbrev Sticks : State → Reply → Type 0
Sticks s r = (r.0.error ≡ s.error) × (r.0.need_get_error ≡ s.need_get_error)

module _ (env : Env) (s : State) (h : s.error ≢ Enums.no_error) where
  active_texture-Sticks : (t : ℕ) → Sticks s (gl_active_texture s t)
  unfolding gl_active_texture
  active_texture-Sticks t = ground arith

  bind_buffer-Sticks : (t n : ℕ) → Sticks s (gl_bind_buffer s t n)
  unfolding gl_bind_buffer
  bind_buffer-Sticks t n = ground arith

  bind_framebuffer-Sticks : (t n : ℕ) → Sticks s (gl_bind_framebuffer s t n)
  unfolding gl_bind_framebuffer
  bind_framebuffer-Sticks t n = ground arith

  bind_renderbuffer-Sticks : (t n : ℕ) → Sticks s (gl_bind_renderbuffer s t n)
  unfolding gl_bind_renderbuffer
  bind_renderbuffer-Sticks t n = ground arith

  blend_color-Sticks : (q : Quad) → Sticks s (gl_blend_color env s q)
  unfolding gl_blend_color
  blend_color-Sticks q = ground arith

  blend_equation-Sticks : (m : ℕ) → Sticks s (gl_blend_equation env s m)
  unfolding gl_blend_equation
  blend_equation-Sticks m = ground arith

  blend_equation_separate-Sticks : (m n : ℕ) → Sticks s (gl_blend_equation_separate env s m n)
  unfolding gl_blend_equation_separate
  blend_equation_separate-Sticks m n = ground arith

  blend_func-Sticks : (f d : ℕ) → Sticks s (gl_blend_func env s f d)
  unfolding gl_blend_func
  blend_func-Sticks f d = ground arith

  blend_func_separate-Sticks : (f d g e : ℕ) → Sticks s (gl_blend_func_separate env s f d g e)
  unfolding gl_blend_func_separate
  blend_func_separate-Sticks f d g e = ground arith

  color_mask-Sticks : (q : Quad) → Sticks s (gl_color_mask env s q)
  unfolding gl_color_mask
  color_mask-Sticks q = ground arith

  cull_face-Sticks : (m : ℕ) → Sticks s (gl_cull_face env s m)
  unfolding gl_cull_face
  cull_face-Sticks m = ground arith

  depth_func-Sticks : (f : ℕ) → Sticks s (gl_depth_func env s f)
  unfolding gl_depth_func
  depth_func-Sticks f = ground arith

  depth_mask-Sticks : (b : ℕ) → Sticks s (gl_depth_mask env s b)
  unfolding gl_depth_mask
  depth_mask-Sticks b = ground arith

  front_face-Sticks : (m : ℕ) → Sticks s (gl_front_face env s m)
  unfolding gl_front_face
  front_face-Sticks m = ground arith

  line_width-Sticks : (w : ℕ) → Sticks s (gl_line_width env s w)
  unfolding gl_line_width
  line_width-Sticks w = ground arith

  depth_rangef-Sticks : (n f : ℕ) → Sticks s (gl_depth_rangef env s n f)
  unfolding gl_depth_rangef
  depth_rangef-Sticks n f = ground arith

  polygon_offset-Sticks : (f u : ℕ) → Sticks s (gl_polygon_offset env s f u)
  unfolding gl_polygon_offset
  polygon_offset-Sticks f u = ground arith

  sample_coverage-Sticks : (v i : ℕ) → Sticks s (gl_sample_coverage env s v i)
  unfolding gl_sample_coverage
  sample_coverage-Sticks v i = ground arith

  hint-Sticks : (t m : ℕ) → is_setting (Call.hint t m) ≡ true → Sticks s (gl_hint env s t m)
  unfolding gl_hint
  hint-Sticks t m k = ground arith

  pixel_storei-Sticks : (p n : ℕ) → Sticks s (gl_pixel_storei env s p n)
  unfolding gl_pixel_storei
  pixel_storei-Sticks p n = ground arith

  enable-Sticks : (c : ℕ) → Sticks s (gl_enable s c)
  unfolding gl_enable
  enable-Sticks c = ground arith

  disable-Sticks : (c : ℕ) → Sticks s (gl_disable s c)
  unfolding gl_disable
  disable-Sticks c = ground arith

  scissor-Sticks : (q : Quad) → Sticks s (gl_scissor env s q)
  unfolding gl_scissor
  scissor-Sticks q = ground arith

  viewport-Sticks : (q : Quad) → Sticks s (gl_viewport env s q)
  unfolding gl_viewport
  viewport-Sticks q = ground arith

  stencil_func_separate-Sticks :
      (face f n m : ℕ) → Sticks s (gl_stencil_func_separate env s face f n m)
  unfolding gl_stencil_func_separate
  stencil_func_separate-Sticks face f n m = ground arith

  stencil_mask_separate-Sticks : (face m : ℕ) → Sticks s (gl_stencil_mask_separate env s face m)
  unfolding gl_stencil_mask_separate
  stencil_mask_separate-Sticks face m = ground arith

  stencil_op_separate-Sticks : (face f z p : ℕ) → Sticks s (gl_stencil_op_separate env s face f z p)
  unfolding gl_stencil_op_separate
  stencil_op_separate-Sticks face f z p = ground arith

-- Each of these calls leaves an error that is there.
serve-Sticks :
    (env : Env) (s : State) (c : Call)
    → s.error ≢ Enums.no_error
    → is_setting c ≡ true
    → Sticks s (serve env s c)
unfolding serve
serve-Sticks env s (Call.active_texture t) h k = active_texture-Sticks env s h t
serve-Sticks env s (Call.bind_buffer t n) h k = bind_buffer-Sticks env s h t n
serve-Sticks env s (Call.bind_framebuffer t n) h k = bind_framebuffer-Sticks env s h t n
serve-Sticks env s (Call.bind_renderbuffer t n) h k = bind_renderbuffer-Sticks env s h t n
serve-Sticks env s (Call.blend_color q) h k = blend_color-Sticks env s h q
serve-Sticks env s (Call.blend_equation m) h k = blend_equation-Sticks env s h m
serve-Sticks env s (Call.blend_equation_separate m n) h k =
    blend_equation_separate-Sticks env s h m n
serve-Sticks env s (Call.blend_func f d) h k = blend_func-Sticks env s h f d
serve-Sticks env s (Call.blend_func_separate f d g e) h k =
    blend_func_separate-Sticks env s h f d g e
serve-Sticks env s (Call.color_mask q) h k = color_mask-Sticks env s h q
serve-Sticks env s (Call.cull_face m) h k = cull_face-Sticks env s h m
serve-Sticks env s (Call.depth_func f) h k = depth_func-Sticks env s h f
serve-Sticks env s (Call.depth_mask b) h k = depth_mask-Sticks env s h b
serve-Sticks env s (Call.front_face m) h k = front_face-Sticks env s h m
serve-Sticks env s (Call.line_width w) h k = line_width-Sticks env s h w
serve-Sticks env s (Call.depth_range n f) h k = depth_rangef-Sticks env s h n f
serve-Sticks env s (Call.polygon_offset f u) h k = polygon_offset-Sticks env s h f u
serve-Sticks env s (Call.sample_coverage v i) h k = sample_coverage-Sticks env s h v i
serve-Sticks env s (Call.hint t m) h k = hint-Sticks env s h t m k
serve-Sticks env s (Call.pixel_store p n) h k = pixel_storei-Sticks env s h p n
serve-Sticks env s (Call.enable c) h k = enable-Sticks env s h c
serve-Sticks env s (Call.disable c) h k = disable-Sticks env s h c
serve-Sticks env s (Call.scissor q) h k = scissor-Sticks env s h q
serve-Sticks env s (Call.viewport q) h k = viewport-Sticks env s h q
serve-Sticks env s (Call.stencil_func_separate face f n m) h k =
    stencil_func_separate-Sticks env s h face f n m
serve-Sticks env s (Call.stencil_mask_separate face m) h k =
    stencil_mask_separate-Sticks env s h face m
serve-Sticks env s (Call.stencil_op_separate face f z p) h k =
    stencil_op_separate-Sticks env s h face f z p
serve-Sticks env s Call.get_error h k = absurd (ground arith)

session-Sticks :
    (env : Env) (s : State) (cs : List Call)
    → s.error ≢ Enums.no_error
    → All (λ c. is_setting c ≡ true) cs
    → Sticks s (session env s cs)
session-Sticks env s [] h k = (refl, refl)
session-Sticks env s (c ∷ r) h k =
    let now = serve-Sticks env s c h k.0 in
    let later = session-Sticks env (serve env s c).0 r (λ e. h (sym now.0 ∙ e)) k.1 in
    (later.0 ∙ now.0, later.1 ∙ now.1)

-- The first error is the one that is reported: if there is an error `s.error`, and the driver has
-- none to be asked for, then after any of the calls that `serve` dispatches, the 28 that set a plain
-- setting, a capability or a binding, and no other, but for glGetError and a glHint for another target
-- than mipmaps, glGetError answers `s.error` and sends nothing on, and a second glGetError answers that
-- there is no error.
pub first_error_reported :
    (env : Env) (s : State) (cs : List Call) (a b : ℕ)
    → s.error ≢ Enums.no_error
    → s.need_get_error ≡ false
    → All (λ c. is_setting c ≡ true) cs
    → ((gl_get_error (session env s cs).0 a).0 ≡ s.error)
      × ((gl_get_error (session env s cs).0 a).1.1 ≡ [])
      × ((gl_get_error (gl_get_error (session env s cs).0 a).1.0 b).0 ≡ Enums.no_error)
unfolding gl_get_error
first_error_reported env s cs a b h k all =
    let (error, need) = session-Sticks env s cs h all in
    (ground (arith, error, need), ground (arith, error, need), ground (arith, error, need))
