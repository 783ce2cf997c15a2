-- ===== src/Tests/Filters.antt =====
-- Parameters and images of textures at concrete inputs.
use gpu_proxy.Base.{
  ℕ, ◌≡◌, ◌==◌, ◌&&◌, leb, ◌+◌, refl, some, none, true, false, [], ◌∷◌, arith, inl, if◌then◌else◌,
}
use gpu_proxy.Gl.Enums
use gpu_proxy.Image.Enums as Types
use gpu_proxy.Tests.Fixtures.{place, hash, nothing}
use gpu_proxy.Caches.{create_texture, TexParams, initial_params}
use gpu_proxy.Textures.{
  TexEnv, TexCall, Textures, first_default, params_of, gl_tex_parameteri, gl_tex_parameterf,
  gl_get_tex_parameteriv, gl_get_tex_parameterfv,
}
use gpu_proxy.Textures.Params.{store, exec_params, tex_parameter_coherent, tex_parameter_stored}
use gpu_proxy.Textures.Images.{
  GlStrings, Extensions, Uploads, gl_get_string, gl_tex_image_2d, gl_tex_sub_image_2d,
  gl_copy_tex_image_2d, gl_compressed_tex_image_2d, gl_is_texture,
}
use gpu_proxy.Textures.Sizes.{part_sent, sub_image_within}

-- Floats are their integers here.
abbrev tex_env : TexEnv
tex_env = record {
  feq = λ x y. x == y;
  of_int = λ n. n;
  to_int = λ n. n;
  below_one = λ n. n == 0;
  junk = 0;
  is_valid_param_target = λ n. n == Enums.texture_2d;
  is_valid_parameter = λ n. true;
  is_valid_mag_filter = λ n. true;
  is_valid_min_filter = λ n. true;
  is_valid_wrap_mode = λ n. true;
  is_valid_image_target = λ n. n == Enums.texture_2d;
  is_valid_format = λ n. true;
}

-- The texture 3, bound to the 2D target.
abbrev bound : Textures hash
bound = record {
  objects = record nothing {
    gl = record nothing.gl { bindings = record nothing.gl.bindings { texture_2d = 3 } };
    textures = place 3 (some (create_texture 3)) (λ k. none);
  };
  default_texture = first_default;
}

abbrev nearest : ℕ
nearest = 0x2600

-- A driver with the parameters that are first for every target.
abbrev first_params : ℕ → TexParams
first_params k = initial_params

tex_parameter_coherent_example :
    (exec_params tex_env
        (gl_tex_parameteri hash tex_env bound Enums.texture_2d Enums.texture_mag_filter nearest).1
        first_params
        Enums.texture_2d
      ≡ params_of hash tex_env
          (gl_tex_parameteri hash tex_env bound Enums.texture_2d Enums.texture_mag_filter nearest).0
          Enums.texture_2d)
    × (exec_params tex_env
          (gl_tex_parameteri hash tex_env bound Enums.texture_2d Enums.texture_mag_filter nearest).1
          first_params
          Enums.texture_cube_map
        ≡ initial_params)
tex_parameter_coherent_example =
    tex_parameter_coherent hash tex_env bound Enums.texture_2d Enums.texture_mag_filter nearest
      first_params Enums.texture_cube_map refl (ground arith)

tex_parameter_stored_example :
    (exec_params tex_env
        (gl_tex_parameteri hash tex_env bound Enums.texture_2d Enums.texture_mag_filter nearest).1
        first_params
        Enums.texture_2d
      ≡ store tex_env initial_params Enums.texture_mag_filter nearest)
    × (params_of hash tex_env
          (gl_tex_parameteri hash tex_env bound Enums.texture_2d Enums.texture_mag_filter nearest).0
          Enums.texture_2d
        ≡ store tex_env initial_params Enums.texture_mag_filter nearest)
    × ((gl_get_tex_parameteriv hash tex_env
          (gl_tex_parameteri hash tex_env bound Enums.texture_2d Enums.texture_mag_filter nearest).0
          Enums.texture_2d
          Enums.texture_mag_filter).0
        ≡ some nearest)
tex_parameter_stored_example =
    tex_parameter_stored hash tex_env bound Enums.texture_2d Enums.texture_mag_filter nearest
      first_params (refl, refl, refl, inl (ground arith)) refl refl

-- Strings are numbers here, and every list of extensions has both.
abbrev extensions : Extensions ℕ
extensions = record {
  has_element_index_uint = λ s. true;
  has_bgra = λ s. true;
  is_valid_string_type = λ n. true;
}

abbrev no_strings : GlStrings ℕ
no_strings = record {
  vendor = none;
  renderer = none;
  version = none;
  shading_language_version = none;
  extensions = none;
  supports_element_index_uint = false;
  supports_bgra = false;
}

abbrev first_upload : Uploads hash ℕ
first_upload = record { textures = bound; strings = no_strings }

abbrev informed : Uploads hash ℕ
informed = record first_upload {
  strings = record no_strings { extensions = some 1; supports_bgra = true };
}

-- The first image asks for the list of extensions.
abbrev asked : Uploads hash ℕ
asked = record first_upload {
  strings = record no_strings {
    extensions = some 1;
    supports_element_index_uint = true;
    supports_bgra = true;
  };
}

asks_first :
    gl_get_string hash tex_env extensions first_upload Enums.extensions (some 1)
    ≡ some (some 1, (asked, TexCall.get_string Enums.extensions ∷ []))
unfolding gl_get_string
asks_first = refl

sub_image_within_example :
    (s' : Uploads hash ℕ) × (gl_tex_image_2d hash tex_env extensions first_upload Enums.texture_2d 0
        Types.rgba 8 4 Types.rgba Types.unsigned_byte
        (some 1)
      ≡ some (
        s',
        TexCall.get_string Enums.extensions
            ∷ TexCall.tex_image_2d Enums.texture_2d 0 Types.rgba 8 4 Types.unsigned_byte
            ∷ [],
      ))
    × ((gl_tex_sub_image_2d hash tex_env extensions s' Enums.texture_2d 0 6 0 2 4 Types.rgba
          Types.unsigned_byte).1
        ≡ (if tex_env.is_valid_format Types.rgba && (leb (6 + 2) 8 && leb (0 + 4) 4)
            then part_sent hash tex_env extensions 0 6 0 2 4 Types.rgba Types.unsigned_byte
            else []))
sub_image_within_example =
    sub_image_within hash tex_env extensions first_upload (create_texture 3) 1 (some 1) asked
      (TexCall.get_string Enums.extensions ∷ []) 0 0 Types.rgba Types.unsigned_byte 8 4 6 0 2 4 refl
      asks_first (refl, refl, refl, refl) (ground arith) (ground arith) (ground arith)
      (ground arith) (ground arith) (ground arith)

-- The list of extensions is asked for with the first image, and a second time it is at hand.
asked_once :
    gl_get_string hash tex_env extensions informed Enums.extensions none
    ≡ some (some 1, (informed, []))
unfolding gl_get_string
asked_once = refl

-- Without an answer the length of NULL is asked for.
no_answer : gl_get_string hash tex_env extensions first_upload Enums.extensions none ≡ none
unfolding gl_get_string
no_answer = refl

known_texture : gl_is_texture hash tex_env extensions informed 3 ≡ true
unfolding gl_is_texture
known_texture = refl

copied :
    (gl_copy_tex_image_2d hash tex_env extensions informed Enums.texture_2d).1
    ≡ TexCall.copy_tex_image_2d Enums.texture_2d ∷ []
unfolding gl_copy_tex_image_2d
copied = refl

compressed :
    (gl_compressed_tex_image_2d hash tex_env extensions informed
      Enums.texture_2d).0.textures.objects.gl.need_get_error
    ≡ true
unfolding gl_compressed_tex_image_2d
compressed = refl

-- An anisotropy is sent as a float, and not once more as an integer, which it is equal to.
anisotropy_sent :
    (gl_tex_parameterf hash tex_env bound Enums.texture_2d Enums.texture_max_anisotropy_ext 4).1
    ≡ TexCall.tex_parameterf Enums.texture_2d Enums.texture_max_anisotropy_ext 4 ∷ []
unfolding gl_tex_parameterf gl_tex_parameteri
anisotropy_sent = refl

anisotropy_read :
    (gl_get_tex_parameterfv hash tex_env
      (gl_tex_parameterf hash tex_env bound Enums.texture_2d Enums.texture_max_anisotropy_ext 4).0
      Enums.texture_2d
      Enums.texture_max_anisotropy_ext).0
    ≡ some 4
unfolding gl_get_tex_parameterfv gl_tex_parameterf gl_tex_parameteri
anisotropy_read = refl
