-- ===== src/Gl/Blending.antt =====
-- src/client/caching_client.c: glBlendColor, glBlendEquation, glBlendEquationSeparate, glBlendFunc,
-- glBlendFuncSeparate.
use gpu_proxy.Base.{ℕ, ◌==◌, not, if◌then◌else◌, ◌&&◌, ◌||◌}
use gpu_proxy.Gl.Enums
use gpu_proxy.Gl.State.{Env, State, Blend, Quad, quad_eq, Call, Reply, keep, send, fails}

module _ (env : Env) (s : State) where
  abbrev b : Blend
  b = s.blending

  unfoldable pub gl_blend_color : Quad → Reply
  gl_blend_color q =
      if quad_eq env.feq b.color q
      then keep s
      else send (record s { blending = record b { color = q } }) (Call.blend_color q)

  unfoldable pub gl_blend_equation : ℕ → Reply
  gl_blend_equation mode =
      if b.equation_rgb == mode && b.equation_alpha == mode
      then keep s
      else if not (env.is_valid_equation mode)
      then fails s Enums.invalid_enum
      else send (record s { blending = record b { equation_rgb = mode; equation_alpha = mode } })
          (Call.blend_equation mode)

  unfoldable pub gl_blend_equation_separate : ℕ → ℕ → Reply
  gl_blend_equation_separate mode_rgb mode_alpha =
      if b.equation_rgb == mode_rgb && b.equation_alpha == mode_alpha
      then keep s
      else if not (env.is_valid_equation mode_rgb) || not (env.is_valid_equation mode_alpha)
      then fails s Enums.invalid_enum
      else send
          (record s {
            blending = record b { equation_rgb = mode_rgb; equation_alpha = mode_alpha };
          })
          (Call.blend_equation_separate mode_rgb mode_alpha)

  unfoldable pub gl_blend_func : ℕ → ℕ → Reply
  gl_blend_func sfactor dfactor =
      if env.feq b.src_rgb (env.of_enum sfactor)
        && env.feq b.src_alpha (env.of_enum sfactor)
        && env.feq b.dst_rgb (env.of_enum dfactor)
        && env.feq b.dst_alpha (env.of_enum dfactor)
      then keep s
      else if not (env.is_valid_src_blend_factor sfactor)
          || not (env.is_valid_dst_blend_factor dfactor)
      then fails s Enums.invalid_enum
      else send
          (record s {
            blending = record b {
              src_rgb = env.of_enum sfactor;
              src_alpha = env.of_enum sfactor;
              dst_rgb = env.of_enum dfactor;
              dst_alpha = env.of_enum dfactor;
            };
          })
          (Call.blend_func sfactor dfactor)

  -- The last two assignments of the code are both to `blend_dst[0]`.
  unfoldable pub gl_blend_func_separate : ℕ → ℕ → ℕ → ℕ → Reply
  gl_blend_func_separate src_rgb dst_rgb src_alpha dst_alpha =
      if env.feq b.src_rgb (env.of_enum src_rgb)
        && env.feq b.src_alpha (env.of_enum src_alpha)
        && env.feq b.dst_rgb (env.of_enum dst_rgb)
        && env.feq b.dst_alpha (env.of_enum dst_alpha)
      then keep s
      else if not (env.is_valid_src_blend_factor src_rgb)
          || not (env.is_valid_src_blend_factor src_alpha)
          || not (env.is_valid_dst_blend_factor dst_rgb)
          || not (env.is_valid_dst_blend_factor dst_alpha)
      then fails s Enums.invalid_enum
      else send
          (record s {
            blending = record b {
              src_rgb = env.of_enum src_rgb;
              src_alpha = env.of_enum src_alpha;
              dst_rgb = env.of_enum dst_alpha;
            };
          })
          (Call.blend_func_separate src_rgb dst_rgb src_alpha dst_alpha)
