-- ===== src/Gl/Coherent.antt =====
-- The cache holds what is in force in the driver, before and after each call.
use gpu_proxy.Base.{
  ℕ, ◌+◌, ◌≡◌, refl, ap, ◌∙◌, ◌==◌, ltb, leb, Bool, true, false, not, List, [], ◌∷◌, ◌++◌,
  if◌then◌else◌, ◌&&◌, arith, All,
}
use gpu_proxy.Gl.Enums
use gpu_proxy.Gl.State.{Env, State, Quad, Call, Reply}
use gpu_proxy.Gl.Driver.{View, cached, apply, apply_all, Driver}
use gpu_proxy.Gl.Serve.{serve}
use gpu_proxy.Gl.Blending.{
  gl_blend_color, gl_blend_equation, gl_blend_equation_separate, gl_blend_func,
}
use gpu_proxy.Gl.Capabilities.{gl_enable, gl_disable}
use gpu_proxy.Gl.Stencils.{
  gl_stencil_func_separate, gl_stencil_mask_separate, gl_stencil_op_separate,
}
use gpu_proxy.Gl.Rasters.{
  gl_color_mask, gl_cull_face, gl_depth_func, gl_depth_mask, gl_depth_rangef, gl_front_face,
  gl_hint, gl_line_width, gl_polygon_offset, gl_sample_coverage, gl_scissor, gl_viewport,
  gl_pixel_storei, gl_get_error,
}
use gpu_proxy.Gl.Binds.{
  gl_active_texture, gl_bind_buffer, gl_bind_framebuffer, gl_bind_renderbuffer,
}

-- A texture unit is accepted by the code; by the driver.
abbrev pub unit_in_code : ℕ → Bool
unit_in_code t = leb Enums.texture0 t && leb t Enums.texture31

abbrev pub unit_in_driver : Env → ℕ → Bool
unit_in_driver env t = leb Enums.texture0 t && ltb t (Enums.texture0 + env.texture_units)

-- The calls that the cache treats as the driver does: all but glBlendFuncSeparate, a framebuffer or
-- renderbuffer bound to another target, a line width that is not one of negative and positive, and a
-- texture unit that the code and the driver judge differently.
abbrev pub is_regular : Env → Call → Bool
is_regular env (Call.blend_func_separate f d g e) = false
is_regular env (Call.bind_framebuffer t n) = t == Enums.framebuffer
is_regular env (Call.bind_renderbuffer t n) = t == Enums.renderbuffer
is_regular env (Call.line_width w) =
    if env.float_negative w then not (env.float_positive w) else env.float_positive w
is_regular env (Call.active_texture t) =
    if unit_in_code t then unit_in_driver env t else not (unit_in_driver env t)
is_regular env c = true

-- The calls sent on bring the driver from what the cache held to what it holds now.
abbrev Keeps : Env → State → Reply → Type 0
Keeps env s r = apply_all env r.1 (cached s) ≡ cached r.0

module _ (env : Env) (s : State) where
  blend_color-Keeps : (q : Quad) → Keeps env s (gl_blend_color env s q)
  unfolding gl_blend_color apply
  blend_color-Keeps q = ground arith

  blend_equation-Keeps : (m : ℕ) → Keeps env s (gl_blend_equation env s m)
  unfolding gl_blend_equation apply
  blend_equation-Keeps m = ground arith

  blend_equation_separate-Keeps : (m n : ℕ) → Keeps env s (gl_blend_equation_separate env s m n)
  unfolding gl_blend_equation_separate apply
  blend_equation_separate-Keeps m n = ground arith

  blend_func-Keeps : (f d : ℕ) → Keeps env s (gl_blend_func env s f d)
  unfolding gl_blend_func apply
  blend_func-Keeps f d = ground arith

  enable-Keeps : (c : ℕ) → Keeps env s (gl_enable s c)
  unfolding gl_enable apply
  enable-Keeps c = ground arith

  stencil_func_separate-Keeps :
      (face f n m : ℕ) → Keeps env s (gl_stencil_func_separate env s face f n m)
  unfolding gl_stencil_func_separate apply
  stencil_func_separate-Keeps face f n m = ground arith

  stencil_mask_separate-Keeps : (face m : ℕ) → Keeps env s (gl_stencil_mask_separate env s face m)
  unfolding gl_stencil_mask_separate apply
  stencil_mask_separate-Keeps face m = ground arith

  stencil_op_separate-Keeps :
      (face f z p : ℕ) → Keeps env s (gl_stencil_op_separate env s face f z p)
  unfolding gl_stencil_op_separate apply
  stencil_op_separate-Keeps face f z p = ground arith

  pixel_storei-Keeps : (p n : ℕ) → Keeps env s (gl_pixel_storei env s p n)
  unfolding gl_pixel_storei apply
  pixel_storei-Keeps p n = ground arith

  hint-Keeps : (t m : ℕ) → Keeps env s (gl_hint env s t m)
  unfolding gl_hint apply
  hint-Keeps t m = ground arith

  line_width-Keeps :
      (w : ℕ) → is_regular env (Call.line_width w) ≡ true → Keeps env s (gl_line_width env s w)
  unfolding gl_line_width apply
  line_width-Keeps w h = ground arith

  active_texture-Keeps :
      (t : ℕ) → is_regular env (Call.active_texture t) ≡ true → Keeps env s (gl_active_texture s t)
  unfolding gl_active_texture apply
  active_texture-Keeps t h = ground arith

  bind_framebuffer-Keeps :
      (t n : ℕ) → (t == Enums.framebuffer) ≡ true → Keeps env s (gl_bind_framebuffer s t n)
  unfolding gl_bind_framebuffer apply
  bind_framebuffer-Keeps t n h = ground arith

-- Every regular call keeps the cache in step.
pub serve-Keeps :
    (env : Env) (s : State) (c : Call) → is_regular env c ≡ true → Keeps env s (serve env s c)
unfolding serve gl_color_mask gl_cull_face gl_depth_func gl_depth_mask gl_depth_rangef gl_front_face
    gl_polygon_offset gl_sample_coverage gl_scissor gl_viewport gl_get_error gl_bind_buffer
    gl_bind_renderbuffer gl_disable apply
serve-Keeps env s (Call.active_texture t) h = active_texture-Keeps env s t h
serve-Keeps env s (Call.bind_buffer t n) h = ground arith
serve-Keeps env s (Call.bind_framebuffer t n) h = bind_framebuffer-Keeps env s t n h
serve-Keeps env s (Call.bind_renderbuffer t n) h = ground arith
serve-Keeps env s (Call.blend_color q) h = blend_color-Keeps env s q
serve-Keeps env s (Call.blend_equation m) h = blend_equation-Keeps env s m
serve-Keeps env s (Call.blend_equation_separate m n) h = blend_equation_separate-Keeps env s m n
serve-Keeps env s (Call.blend_func f d) h = blend_func-Keeps env s f d
serve-Keeps env s (Call.blend_func_separate f d g e) h = absurd (ground arith)
serve-Keeps env s (Call.color_mask q) h = ground arith
serve-Keeps env s (Call.cull_face m) h = ground arith
serve-Keeps env s (Call.depth_func f) h = ground arith
serve-Keeps env s (Call.depth_mask b) h = ground arith
serve-Keeps env s (Call.front_face m) h = ground arith
serve-Keeps env s (Call.line_width w) h = line_width-Keeps env s w h
serve-Keeps env s (Call.depth_range n f) h = ground arith
serve-Keeps env s (Call.polygon_offset f u) h = ground arith
serve-Keeps env s (Call.sample_coverage v i) h = ground arith
serve-Keeps env s (Call.hint t m) h = hint-Keeps env s t m
serve-Keeps env s (Call.pixel_store p n) h = pixel_storei-Keeps env s p n
serve-Keeps env s (Call.enable c) h = enable-Keeps env s c
serve-Keeps env s (Call.disable c) h = ground arith
serve-Keeps env s (Call.scissor q) h = ground arith
serve-Keeps env s (Call.viewport q) h = ground arith
serve-Keeps env s (Call.stencil_func_separate face f n m) h =
    stencil_func_separate-Keeps env s face f n m
serve-Keeps env s (Call.stencil_mask_separate face m) h = stencil_mask_separate-Keeps env s face m
serve-Keeps env s (Call.stencil_op_separate face f z p) h =
    stencil_op_separate-Keeps env s face f z p
serve-Keeps env s Call.get_error h = ground arith

-- A session: the calls of an application in turn, with all that is sent on.
abbrev pub session : Env → State → List Call → Reply
session env s [] = (s, [])
session env s (c ∷ r) =
    let (s', sent) = serve env s c in let (s'', later) = session env s' r in (s'', sent ++ later)

abbrev pub exec_all : {env : Env} (d : Driver env) → List Call → d.Gl → d.Gl
exec_all d [] g = g
exec_all d (c ∷ r) g = exec_all d r (d.exec c g)

abbrev pub IsRegular : Env → Call → Type 0
IsRegular env c = is_regular env c ≡ true

apply_all-append :
    (env : Env) (xs ys : List Call) (v : View)
    → apply_all env (xs ++ ys) v ≡ apply_all env ys (apply_all env xs v)
apply_all-append env [] ys v = refl
apply_all-append env (x ∷ xs) ys v = apply_all-append env xs ys (apply env x v)

pub view-exec_all :
    {env : Env} (d : Driver env) (cs : List Call) (g : d.Gl)
    → d.view (exec_all d cs g) ≡ apply_all env cs (d.view g)
view-exec_all d [] g = refl
view-exec_all {env} d (c ∷ r) g =
    view-exec_all d r (d.exec c g) ∙ ap (apply_all env r) (d.exec_lem c g)

session-Keeps :
    (env : Env) (s : State) (cs : List Call)
    → All (IsRegular env) cs
    → apply_all env (session env s cs).1 (cached s) ≡ cached (session env s cs).0
session-Keeps env s [] h = refl
session-Keeps env s (c ∷ r) h =
    apply_all-append env (serve env s c).1 (session env (serve env s c).0 r).1 (cached s)
    ∙ ap (apply_all env (session env (serve env s c).0 r).1) (serve-Keeps env s c h.0)
    ∙ session-Keeps env (serve env s c).0 r h.1

-- The cache stays in step with the driver over any session of regular calls: if the cache holds
-- what is in force in the driver, then after the application's calls, and the execution by the
-- driver of just those that were sent on, it still does.
pub session_coherent :
    {env : Env} (d : Driver env) (g : d.Gl) (s : State) (cs : List Call)
    → All (IsRegular env) cs
    → d.view g ≡ cached s
    → d.view (exec_all d (session env s cs).1 g) ≡ cached (session env s cs).0
session_coherent {env} d g s cs h e =
    view-exec_all d (session env s cs).1 g
    ∙ ap (apply_all env (session env s cs).1) e
    ∙ session-Keeps env s cs h
