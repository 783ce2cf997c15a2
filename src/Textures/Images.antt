-- ===== src/Textures/Images.antt =====
-- src/client/caching_client.c: glGetString, glTexImage2D, glTexSubImage2D, glCopyTexImage2D,
-- glCompressedTexImage2D, glGenerateMipmap and glIsTexture.
use gpu_proxy.Base.{
  ℕ, ◌+◌, ◌%◌, ◌^◌, Option, none, some, Bool, true, false, not, List, [], ◌∷◌, ◌++◌, ◌==◌, ◌&&◌,
  ◌||◌, ltb, leb, if◌then◌else◌,
}
use gpu_proxy.Gl.Enums
use gpu_proxy.Gl.State.{int_negative}
use gpu_proxy.Caches.{Texture, FramebufferStatus, ObjectTable, change}
use gpu_proxy.Caches.Handlers.{Objects}
use gpu_proxy.Textures.{TexEnv, TexCall, Textures, failed}
use gpu_proxy.Image.Enums as Types

-- The strings that the state keeps, of a type `S`, and what the list of extensions told.
pub record GlStrings (S : Type 0) : Type 0 where
  pub vendor : Option S
  pub renderer : Option S
  pub version : Option S
  pub shading_language_version : Option S
  pub extensions : Option S
  pub supports_element_index_uint : Bool
  pub supports_bgra : Bool

-- The string that is kept under a name.
abbrev pub kept_string : {S : Type 0} → GlStrings S → ℕ → Option S
kept_string g name =
    if name == Enums.vendor
    then g.vendor
    else if name == Enums.renderer
    then g.renderer
    else if name == Enums.version
    then g.version
    else if name == Enums.shading_language_version
    then g.shading_language_version
    else if name == Enums.extensions
    then g.extensions
    else none

-- The searches for an extension in a list of them.
pub record Extensions (S : Type 0) : Type 0 where
  pub has_element_index_uint : S → Bool
  pub has_bgra : S → Bool
  pub is_valid_string_type : ℕ → Bool

abbrev pub keep_string : {S : Type 0} → Extensions S → GlStrings S → ℕ → S → GlStrings S
keep_string ext g name text =
    if name == Enums.vendor
    then record g { vendor = some text }
    else if name == Enums.renderer
    then record g { renderer = some text }
    else if name == Enums.version
    then record g { version = some text }
    else if name == Enums.shading_language_version
    then record g { shading_language_version = some text }
    else if name == Enums.extensions
    then record g {
      extensions = some text;
      supports_element_index_uint = ext.has_element_index_uint text;
      supports_bgra = ext.has_bgra text;
    }
    else g

-- Signed comparison of two 32-bit patterns.
abbrev pub int_less : ℕ → ℕ → Bool
int_less a b = ltb ((a + 2 ^ 31) % 2 ^ 32) ((b + 2 ^ 31) % 2 ^ 32)

abbrev pub is_cube_face : ℕ → Bool
is_cube_face target = leb Enums.cube_map_positive_x target && leb target Enums.cube_map_negative_z

pub record Uploads (hash : ObjectTable) (S : Type 0) : Type 0 where
  pub textures : Textures hash
  pub strings : GlStrings S

module _ (hash : ObjectTable) (env : TexEnv) {S : Type 0} (ext : Extensions S) where
  abbrev pub UploadReply : Type 0
  UploadReply = Uploads hash S × List TexCall

  abbrev pub refused : Uploads hash S → ℕ → UploadReply
  refused s error = (record s { textures = (failed hash env s.textures error).0 }, [])

  abbrev pub with_objects : Uploads hash S → Objects hash → Uploads hash S
  with_objects s o = record s { textures = record s.textures { objects = o } }

  abbrev pub needs_get_error : Uploads hash S → Uploads hash S
  needs_get_error s =
      let o = s.textures.objects in
      with_objects s (record o { gl = record o.gl { need_get_error = true } })

  -- The end of glGetString: where the driver gave no string, its length is asked for through NULL.
  abbrev pub got_string : Uploads hash S → ℕ → Option S → Option (Option S × UploadReply)
  got_string s name none = none
  got_string s name (some text) = some (
    some text,
    (record s { strings = keep_string ext s.strings name text }, TexCall.get_string name ∷ []),
  )

  -- `caching_client_glGetString`, with the driver's answer; `none` is a read through NULL.
  unfoldable pub gl_get_string : Uploads hash S → ℕ → Option S → Option (Option S × UploadReply)
  gl_get_string s name answer =
      if not (ext.is_valid_string_type name)
      then some (none, refused s Enums.invalid_enum)
      else elim (kept_string s.strings name) [
        | some text ↦ some (some text, (s, []))
        | none ↦ got_string s name answer
      ]

  -- The framebuffer of a texture whose image changed.
  abbrev pub unsettle : ℕ → Objects hash → Objects hash
  unsettle framebuffer o = record o {
    framebuffers =
        change hash framebuffer (λ f. record f { status = FramebufferStatus.complete_unknown })
          o.framebuffers;
  }

  -- The texture that an image is for, by its name; the target is a face of the cube map otherwise.
  abbrev pub image_texture : Objects hash → ℕ → ℕ
  image_texture o target =
      if target == Enums.texture_2d
      then o.gl.bindings.texture_2d
      else o.gl.bindings.texture_cube_map

  -- What glTexImage2D keeps of an image.
  abbrev pub keep_image : Uploads hash S → ℕ → ℕ → ℕ → ℕ → ℕ → Option Texture → Uploads hash S
  keep_image s name internal_format width height type none = needs_get_error s
  keep_image s name internal_format width height type (some t) =
      let o = s.textures.objects in
      let kept = record o {
        textures =
            hash.insert name
              (record t {
                internal_format = internal_format;
                width = width;
                height = height;
                data_type = type;
              })
              o.textures;
      } in
      with_objects s (if t.framebuffer_id == 0 then kept else unsettle t.framebuffer_id kept)

  -- A packed type that does not fit the format.
  abbrev pub is_bad_565 : ℕ → ℕ → Bool
  is_bad_565 type format = type == Types.unsigned_short_5_6_5 && not (format == Types.rgb)

  abbrev pub is_bad_packed : ℕ → ℕ → Bool
  is_bad_packed type format =
      (type == Types.unsigned_short_4_4_4_4 || type == Types.unsigned_short_5_5_5_1)
      && not (format == Types.rgba)

  -- glTexImage2D once the extensions are known.
  abbrev pub load_image : Uploads hash S → List TexCall → ℕ → ℕ → ℕ → ℕ → ℕ → ℕ → UploadReply
  load_image s calls target level format width height type =
      let name = image_texture s.textures.objects target in
      if is_bad_packed type format || (not s.strings.supports_bgra && format == Types.bgra_ext)
      then ((refused s Enums.invalid_operation).0, calls)
      else (
        keep_image s name format width height type (hash.lookup name s.textures.objects.textures),
        calls ++ (TexCall.tex_image_2d target level format width height type ∷ []),
      )

  abbrev pub with_extensions :
      Option (Option S × UploadReply) → ℕ → ℕ → ℕ → ℕ → ℕ → ℕ → Option UploadReply
  with_extensions none target level format width height type = none
  with_extensions (some (text, (s, calls))) target level format width height type =
      some (load_image s calls target level format width height type)

  -- `caching_client_glTexImage2D`, with the driver's list of extensions; `none` is a read through NULL.
  unfoldable pub gl_tex_image_2d :
      Uploads hash S → ℕ → ℕ → ℕ → ℕ → ℕ → ℕ → ℕ → Option S → Option UploadReply
  gl_tex_image_2d s target level internal_format width height format type answer =
      if int_negative level || int_negative width || int_negative height
      then some (refused s Enums.invalid_value)
      else if not (internal_format == format)
      then some (refused s Enums.invalid_operation)
      else if not (env.is_valid_image_target target)
      then some (refused s Enums.invalid_enum)
      else if is_bad_565 type format
      then some (refused s Enums.invalid_operation)
      else elim s.strings.extensions [
        | some text ↦ some (load_image s [] target level format width height type)
        | none ↦
            with_extensions (gl_get_string s Enums.extensions answer) target level format width
              height type
      ]

  -- glTexSubImage2D for a texture that is in the cache.
  abbrev pub sub_image_of : Uploads hash S → Texture → ℕ → ℕ → ℕ → ℕ → ℕ → ℕ → ℕ → ℕ → UploadReply
  sub_image_of s t target level xoffset yoffset width height format type =
      if int_less t.width ((xoffset + width) % 2 ^ 32)
        || int_less t.height ((yoffset + height) % 2 ^ 32)
      then refused s Enums.invalid_value
      else (
        (if t.internal_format == format then s else needs_get_error s),
        TexCall.tex_sub_image_2d target level xoffset yoffset width height format type ∷ [],
      )

  -- `caching_client_glTexSubImage2D`
  unfoldable pub gl_tex_sub_image_2d : Uploads hash S → ℕ → ℕ → ℕ → ℕ → ℕ → ℕ → ℕ → ℕ → UploadReply
  gl_tex_sub_image_2d s target level xoffset yoffset width height format type =
      let o = s.textures.objects in
      if int_negative level || int_negative width || int_negative height
      then refused s Enums.invalid_value
      else if not (target == Enums.texture_2d || is_cube_face target)
      then refused s Enums.invalid_enum
      else if is_bad_565 type format || is_bad_packed type format
      then refused s Enums.invalid_operation
      else if not (env.is_valid_format format)
      then refused s Enums.invalid_operation
      else elim (hash.lookup (image_texture o target) o.textures) [
        | none ↦ refused s Enums.invalid_operation
        | some t ↦ sub_image_of s t target level xoffset yoffset width height format type
      ]

  -- The framebuffer of the texture that a copied or compressed image goes to.
  abbrev pub unsettle_bound : Objects hash → ℕ → Objects hash
  unsettle_bound o target =
      let name =
        if target == Enums.texture_2d
        then o.gl.bindings.texture_2d
        else if is_cube_face target
        then o.gl.bindings.texture_cube_map
        else 0 in
      if name == 0 then o else elim (hash.lookup name o.textures) [
        | none ↦ o
        | some t ↦ elim (hash.lookup t.framebuffer_id o.framebuffers) [
          | none ↦ o
          | some f ↦ if f.id == 0 then o else unsettle t.framebuffer_id o
        ]
      ]

  -- `caching_client_glCopyTexImage2D`
  unfoldable pub gl_copy_tex_image_2d : Uploads hash S → ℕ → UploadReply
  gl_copy_tex_image_2d s target =
      let o = s.textures.objects in
      (
        needs_get_error (with_objects s (unsettle_bound o target)),
        TexCall.copy_tex_image_2d target ∷ [],
      )

  -- `caching_client_glCompressedTexImage2D`
  unfoldable pub gl_compressed_tex_image_2d : Uploads hash S → ℕ → UploadReply
  gl_compressed_tex_image_2d s target =
      let o = s.textures.objects in
      (
        needs_get_error (with_objects s (unsettle_bound o target)),
        TexCall.compressed_tex_image_2d target ∷ [],
      )

  -- `caching_client_glIsTexture`
  unfoldable pub gl_is_texture : Uploads hash S → ℕ → Bool
  gl_is_texture s texture = elim (hash.lookup texture s.textures.objects.textures) [
    | none ↦ false
    | some t ↦ true
  ]
