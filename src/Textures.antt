-- ===== src/Textures.antt =====
-- src/client/caching_client.c: the parameters of textures, glGetString, and what the calls that load
-- images keep of them.
pub mod Params
pub mod Images
pub mod Sizes
use gpu_proxy.Base.{
  ℕ, Option, none, some, Bool, true, false, not, List, [], ◌∷◌, ◌++◌, ◌==◌, ◌&&◌, ◌||◌,
  if◌then◌else◌,
}
use mathlib.Core.Option
use gpu_proxy.Gl.Enums
use gpu_proxy.Gl.State.{State, set_error, int_negative}
use gpu_proxy.Caches.{Texture, TexParams, ObjectTable, initial_params, change}
use gpu_proxy.Caches.Handlers.{Objects}
use gpu_proxy.Image.Enums as Types

-- The machine's floats, by their patterns, the generated checks of enumerants, and what stands in
-- memory that was not cleared.
pub record TexEnv : Type 0 where
  pub feq : ℕ → ℕ → Bool
  pub of_int : ℕ → ℕ
  pub to_int : ℕ → ℕ
  pub below_one : ℕ → Bool
  pub junk : ℕ
  pub is_valid_param_target : ℕ → Bool
  pub is_valid_parameter : ℕ → Bool
  pub is_valid_mag_filter : ℕ → Bool
  pub is_valid_min_filter : ℕ → Bool
  pub is_valid_wrap_mode : ℕ → Bool
  pub is_valid_image_target : ℕ → Bool
  pub is_valid_format : ℕ → Bool

-- The calls sent on.
pub data TexCall : Type 0 where
  tex_parameteri tex_parameterf : ℕ → ℕ → ℕ → TexCall
  get_string : ℕ → TexCall
  tex_image_2d : ℕ → ℕ → ℕ → ℕ → ℕ → ℕ → TexCall
  tex_sub_image_2d : ℕ → ℕ → ℕ → ℕ → ℕ → ℕ → ℕ → ℕ → TexCall
  copy_tex_image_2d compressed_tex_image_2d : ℕ → TexCall

-- The part of the state that these calls use, with the texture that
-- `caching_client_get_default_texture` holds in a static variable.
pub record Textures (hash : ObjectTable) : Type 0 where
  pub objects : Objects hash
  pub default_texture : TexParams

-- The default texture as it is first: static memory is cleared.
abbrev pub first_default : TexParams
first_default = record initial_params { max_anisotropy = some 0 }

abbrev pub anisotropy_of : TexEnv → TexParams → ℕ
anisotropy_of env p = elim p.max_anisotropy [ none ↦ env.junk | some a ↦ a ]

module _ (hash : ObjectTable) (env : TexEnv) where
  abbrev pub TexReply : Type 0
  TexReply = Textures hash × List TexCall

  abbrev pub failed : Textures hash → ℕ → TexReply
  failed s error =
      (record s { objects = record s.objects { gl = set_error s.objects.gl error } }, [])

  -- The name of `caching_client_lookup_cached_texture`.
  abbrev pub bound_texture : Textures hash → ℕ → ℕ
  bound_texture s target =
      let b = s.objects.gl.bindings in
      if target == Enums.texture_2d
      then b.texture_2d
      else if target == Enums.texture_cube_map
      then b.texture_cube_map
      else b.texture_3d

  -- The parameters of the texture that the code finds for a target.
  abbrev pub params_of : Textures hash → ℕ → TexParams
  params_of s target = elim (hash.lookup (bound_texture s target) s.objects.textures) [
    | none ↦ s.default_texture
    | some t ↦ t.params
  ]

  -- A write to them.
  abbrev pub with_params : Textures hash → ℕ → TexParams → Textures hash
  with_params s target p = elim (hash.lookup (bound_texture s target) s.objects.textures) [
    | none ↦ record s { default_texture = p }
    | some t ↦ record s {
      objects = record s.objects {
        textures =
            hash.insert (bound_texture s target) (record t { params = p }) s.objects.textures;
      };
    }
  ]

  -- The comparisons and writes of glTexParameteri: `none` where no call is needed.
  abbrev pub set_param : TexParams → ℕ → ℕ → Option TexParams
  set_param p pname param =
      if pname == Enums.texture_mag_filter && not (p.mag_filter == param)
      then some (record p { mag_filter = param })
      else if pname == Enums.texture_min_filter && not (p.min_filter == param)
      then some (record p { min_filter = param })
      else if pname == Enums.texture_wrap_s && not (p.wrap_s == param)
      then some (record p { wrap_s = param })
      else if pname == Enums.texture_wrap_t && not (p.wrap_t == param)
      then some (record p { wrap_t = param })
      else if pname == Enums.texture_wrap_r_oes && not (p.wrap_r == param)
      then some (record p { wrap_r = param })
      else if pname == Enums.texture_max_anisotropy_ext
          && not (env.feq (anisotropy_of env p) (env.of_int param))
      then some (record p { max_anisotropy = some (env.of_int param) })
      else none

  abbrev pub is_wrap : ℕ → Bool
  is_wrap pname =
      pname == Enums.texture_wrap_s
      || pname == Enums.texture_wrap_t
      || pname == Enums.texture_wrap_r_oes

  -- A value that the parameter cannot have.
  abbrev pub is_bad_value : ℕ → ℕ → Bool
  is_bad_value pname param =
      (pname == Enums.texture_mag_filter && not (env.is_valid_mag_filter param))
      || (pname == Enums.texture_min_filter && not (env.is_valid_min_filter param))
      || (is_wrap pname && not (env.is_valid_wrap_mode param))

  abbrev pub param_set : Textures hash → ℕ → List TexCall → Option TexParams → TexReply
  param_set s target calls none = (s, [])
  param_set s target calls (some p) = (with_params s target p, calls)

  -- `caching_client_glTexParameteri`
  unfoldable pub gl_tex_parameteri : Textures hash → ℕ → ℕ → ℕ → TexReply
  gl_tex_parameteri s target pname param =
      if not (env.is_valid_param_target target) || not (env.is_valid_parameter pname)
      then failed s Enums.invalid_enum
      else if is_bad_value pname param
      then failed s Enums.invalid_enum
      else if pname == Enums.texture_max_anisotropy_ext && (int_negative param || param == 0)
      then failed s Enums.invalid_value
      else param_set s target (TexCall.tex_parameteri target pname param ∷ [])
          (set_param (params_of s target) pname param)

  -- The anisotropy that glTexParameterf sets by itself.
  abbrev pub set_anisotropy : TexParams → ℕ → Option TexParams
  set_anisotropy p param =
      if env.feq (anisotropy_of env p) param
      then none
      else some (record p { max_anisotropy = some param })

  -- glTexParameteri, for the value as an integer, after the calls that were sent before.
  abbrev pub then_int : TexReply → ℕ → ℕ → ℕ → TexReply
  then_int (s, calls) target pname param =
      let (s', calls') = gl_tex_parameteri s target pname (env.to_int param) in
      (s', calls ++ calls')

  -- `caching_client_glTexParameterf`. What it sets for the anisotropy goes on to glTexParameteri too.
  unfoldable pub gl_tex_parameterf : Textures hash → ℕ → ℕ → ℕ → TexReply
  gl_tex_parameterf s target pname param =
      if pname == Enums.texture_max_anisotropy_ext
      then (if not (env.is_valid_param_target target) || not (env.is_valid_parameter pname)
          then failed s Enums.invalid_enum
          else if env.below_one param
          then failed s Enums.invalid_value
          else then_int
              (param_set s target (TexCall.tex_parameterf target pname param ∷ [])
                (set_anisotropy (params_of s target) param))
              target pname param)
      else then_int (s, []) target pname param

  -- The answer of glGetTexParameteriv; `none` where it is a parameter that the code does not know.
  abbrev pub param_value : TexParams → ℕ → Option ℕ
  param_value p pname =
      if pname == Enums.texture_mag_filter
      then some p.mag_filter
      else if pname == Enums.texture_min_filter
      then some p.min_filter
      else if pname == Enums.texture_wrap_s
      then some p.wrap_s
      else if pname == Enums.texture_wrap_t
      then some p.wrap_t
      else if pname == Enums.texture_wrap_r_oes
      then some p.wrap_r
      else if pname == Enums.texture_max_anisotropy_ext
      then some (env.to_int (anisotropy_of env p))
      else none

  -- `caching_client_glGetTexParameteriv`: what it writes, if anything, and the state.
  unfoldable pub gl_get_tex_parameteriv : Textures hash → ℕ → ℕ → Option ℕ × Textures hash
  gl_get_tex_parameteriv s target pname =
      if not (env.is_valid_param_target target) || not (env.is_valid_parameter pname)
      then (none, (failed s Enums.invalid_enum).0)
      else (param_value (params_of s target) pname, s)

  -- `caching_client_glGetTexParameterfv`
  unfoldable pub gl_get_tex_parameterfv : Textures hash → ℕ → ℕ → Option ℕ × Textures hash
  gl_get_tex_parameterfv s target pname =
      if pname == Enums.texture_max_anisotropy_ext
      then (if not (env.is_valid_param_target target) || not (env.is_valid_parameter pname)
          then (none, (failed s Enums.invalid_enum).0)
          else (some (anisotropy_of env (params_of s target)), s))
      else let (answer, s') = gl_get_tex_parameteriv s target pname in
        (Option.map (λ v. env.of_int v) answer, s')
