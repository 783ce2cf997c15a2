-- ===== src/Tests/Settings.antt =====
-- The caching client at concrete inputs, with a driver that does what the calls say.
use gpu_proxy.Base.{
  ◌+◌, ◌-◌, ◌^◌, ◌≡◌, refl, true, List, [], ◌∷◌, ◌==◌, ltb, leb, ◌&&◌, ◌||◌, arith,
}
use gpu_proxy.Gl.Enums
use gpu_proxy.Gl.State.{Env, State, Call, init}
use gpu_proxy.Gl.Driver.{View, cached, apply, Driver}
use gpu_proxy.Gl.Serve.{serve}
use gpu_proxy.Gl.Coherent.{session, exec_all, session_coherent}
use gpu_proxy.Gl.Same.{SameView}
use gpu_proxy.Gl.Transparent.{call_transparent}
use gpu_proxy.Gl.Errors.{first_error_reported}
use gpu_proxy.Gl.Settings.{enabled_after}
use gpu_proxy.Gl.Capabilities.{gl_enable, gl_disable, gl_is_enabled}
use gpu_proxy.Gl.Rasters.{gl_get_error}

-- Floats by their patterns, and every enumerant but 0 valid.
abbrev env : Env
env = record {
  feq = λ x y. x == y;
  of_enum = λ n. n;
  float_negative = λ w. leb (2 ^ 31) w;
  float_positive = λ w. ltb 0 w && ltb w (2 ^ 31);
  is_valid_equation = λ n. ltb 0 n;
  is_valid_src_blend_factor = λ n. true;
  is_valid_dst_blend_factor = λ n. true;
  is_valid_face_type = λ n. ltb 0 n;
  is_valid_cmp_function = λ n. ltb 0 n;
  is_valid_stencil_op = λ n. true;
  is_valid_hint_mode = λ n. ltb 0 n;
  is_valid_pixel_store_alignment = λ n. n == 1 || n == 2 || n == 4 || n == 8;
  texture_units = 8;
}

abbrev driver : Driver env
driver = record { Gl = View; view = λ g. g; exec = apply env; exec_lem = λ c g. refl }

abbrev fresh : State
fresh = record (init env 0 0) { active = true }

abbrev calls : List Call
calls =
    Call.enable Enums.blend
    ∷ Call.enable Enums.blend
    ∷ Call.blend_equation 0
    ∷ Call.active_texture (Enums.texture0 + 1)
    ∷ Call.line_width 5
    ∷ []

session_coherent_example :
    exec_all driver (session env fresh calls).1 (cached fresh) ≡ cached (session env fresh calls).0
session_coherent_example =
    session_coherent driver (cached fresh) fresh calls (refl, (refl, (refl, (refl, (refl, tt)))))
      refl

call_transparent_example :
    SameView env
      (exec_all driver (serve env fresh (Call.line_width 5)).1 (cached fresh))
      (apply env (Call.line_width 5) (cached fresh))
call_transparent_example =
    call_transparent driver (cached fresh) fresh (Call.line_width 5) refl refl

abbrev failed : State
failed = record fresh { error = Enums.invalid_enum }

first_error_reported_example :
    ((gl_get_error (session env failed calls).0 0).0 ≡ Enums.invalid_enum)
    × ((gl_get_error (session env failed calls).0 0).1.1 ≡ [])
    × ((gl_get_error (gl_get_error (session env failed calls).0 0).1.0 0).0 ≡ Enums.no_error)
unfolding init
first_error_reported_example =
    first_error_reported env failed calls 0 0 (ground arith) refl
      (refl, (refl, (refl, (refl, (refl, tt)))))

enabled_after_example :
    ((gl_is_enabled (gl_enable fresh Enums.blend).0 Enums.blend).0 ≡ 1)
    × ((gl_is_enabled (gl_disable fresh Enums.blend).0 Enums.blend).0 ≡ 0)
    × ((gl_is_enabled (gl_enable fresh Enums.blend).0 Enums.dither).0
        ≡ (gl_is_enabled fresh Enums.dither).0)
    × ((gl_is_enabled (gl_disable fresh Enums.blend).0 Enums.dither).0
        ≡ (gl_is_enabled fresh Enums.dither).0)
enabled_after_example = enabled_after fresh Enums.blend Enums.dither refl (ground arith)

-- A driver that starts with all bits of the stencil mask set.
abbrev all_ones : View
all_ones =
    let v = cached fresh in
    record v {
      stencil = record (v.stencil) { front = record (v.stencil.front) { writemask = 2 ^ 32 - 1 } };
    }
