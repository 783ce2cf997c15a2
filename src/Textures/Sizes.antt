-- ===== src/Textures/Sizes.antt =====
-- src/client/caching_client.c: the kept sizes of images, and the parts of images that are let through.
use mathlib.Core.Option.{some-injective}
use gpu_proxy.Base.{
  ◌≢◌, ◌++◌, Option-cases, sym, ℕ, ◌+◌, ◌<◌, ◌^◌, ◌≡◌, refl, ap, ◌∙◌, Option, none, some, Bool,
  true, false, not, List, [], ◌∷◌, ◌==◌, ◌||◌, ◌&&◌, leb, if◌then◌else◌, arith, inl, inr,
  Bool-cases,
}
use gpu_proxy.Gl.Enums
use gpu_proxy.Gl.State.{int_negative}
use gpu_proxy.Caches.{Texture, ObjectTable, found_nonzero}
use gpu_proxy.Textures.{TexEnv, TexCall, Textures}
use gpu_proxy.Textures.Images.{
  Extensions, keep_string, Uploads, UploadReply, refused, is_bad_565, is_bad_packed, is_cube_face,
  image_texture, keep_image, load_image, with_extensions, gl_get_string, sub_image_of,
  gl_tex_image_2d, gl_tex_sub_image_2d,
}
use gpu_proxy.Image.Enums as Types

guarded4 {ℓ} :
    {A : Type ℓ} (a b c d : Bool) (x y z u r : A)
    → a ≡ false
    → b ≡ false
    → c ≡ false
    → d ≡ false
    → (if a then x else if b then y else if c then z else if d then u else r) ≡ r
guarded4 a b c d x y z u r p q t v = ground arith

elim_known {ℓ} :
    {A : Type ℓ} {S : Type 0} (o : Option S) (text : S) (r q : A)
    → o ≡ some text
    → (elim o [ some t ↦ r | none ↦ q ]) ≡ r
elim_known none text r q e = cc
elim_known (some t) text r q e = refl

elim_unknown {ℓ} :
    {A : Type ℓ} {S : Type 0} (o : Option S) (r q : A)
    → o ≡ none
    → (elim o [ some t ↦ r | none ↦ q ]) ≡ q
elim_unknown none r q e = refl
elim_unknown (some t) r q e = cc

none-some : {S : Type 0} (text : S) → none ≡ some text → ⊥
none-some text e = absurd (ground arith)

elim_found {ℓ} :
    {A : Type ℓ} {T : Type 0} (o : Option T) (t : T) (r : A) (k : T → A)
    → o ≡ some t
    → (elim o [ none ↦ r | some u ↦ k u ]) ≡ k t
elim_found none t r k e = cc
elim_found (some u) t r k e = cc

module _ (hash : ObjectTable) (env : TexEnv) {S : Type 0} (ext : Extensions S) where
  -- A format and a type that glTexImage2D takes for the 2D texture: it does not ask if the format is valid.
  abbrev pub IsPixelFormat : Uploads hash S → ℕ → ℕ → Type 0
  IsPixelFormat s format type =
      (env.is_valid_image_target Enums.texture_2d ≡ true)
      × (is_bad_565 hash env ext type format ≡ false)
      × (is_bad_packed hash env ext type format ≡ false)
      × ((not s.strings.supports_bgra && format == Types.bgra_ext) ≡ false)

  abbrev pub flat : Uploads hash S → ℕ
  flat s = image_texture hash env ext s.textures.objects Enums.texture_2d

  -- The image that is kept of a loaded one, by the name of its texture.
  keep_image-lookup :
      (s : Uploads hash S) (t : Texture) (name f w h type : ℕ)
      → name ≢ 0
      → hash.lookup name
          (keep_image hash env ext s name f w h type (some t)).textures.objects.textures
        ≡ some (record t { internal_format = f; width = w; height = h; data_type = type })
  keep_image-lookup s t name f w h type n = elim (Bool-cases (t.framebuffer_id == 0)) [
    | inl e ↦ ground (arith, e) ∙ here
    | inr e ↦ ground (arith, e) ∙ here
  ]
    where
      here :
          hash.lookup name (
            hash.insert name
              (record t { internal_format = f; width = w; height = h; data_type = type })
              s.textures.objects.textures)
          ≡ some (record t { internal_format = f; width = w; height = h; data_type = type })
      here =
          hash.lookup-insert name
            (record t { internal_format = f; width = w; height = h; data_type = type })
            s.textures.objects.textures n

  keep_image-flat :
      (s : Uploads hash S) (o : Option Texture) (name f w h type : ℕ)
      → flat (keep_image hash env ext s name f w h type o) ≡ flat s
  keep_image-flat s none name f w h type = refl
  keep_image-flat s (some t) name f w h type = ground arith

  -- The list of extensions: kept, or asked for.
  known_extensions :
      (s : Uploads hash S) (answer : Option S) (text kept : S) (r : UploadReply hash env ext)
      → s.strings.extensions ≡ some kept
      → gl_get_string hash env ext s Enums.extensions answer ≡ some (some text, r)
      → (s, []) ≡ r
  unfolding gl_get_string
  known_extensions s answer text kept r known e =
      elim (Bool-cases (ext.is_valid_string_type Enums.extensions)) [
        | inl valid ↦
            let same : some (some kept, (s, [])) ≡ some (some text, r) = ground (arith, known, e) in
            ap (λ (q : Option S × UploadReply hash env ext). q.1) (some-injective _ _ same)
        | inr bad ↦
            let same : some (none, refused hash env ext s Enums.invalid_enum)
                ≡ some (some text, r) =
              ground (arith, e) in
            absurd (
              none-some text
                (ap (λ (q : Option S × UploadReply hash env ext). q.0) (some-injective _ _ same)))
      ]

  asked-textures :
      (s : Uploads hash S) (answer : Option S) (text : S) (r : UploadReply hash env ext)
      → gl_get_string hash env ext s Enums.extensions answer ≡ some (some text, r)
      → r.0.textures ≡ s.textures
  unfolding gl_get_string
  asked-textures s answer text r e = elim (Bool-cases (ext.is_valid_string_type Enums.extensions)) [
    | inl valid ↦ elim (Option-cases s.strings.extensions) [
      | inl new ↦ elim (Option-cases answer) [
        | inl silent ↦ absurd (ground (arith, e, valid, new, silent))
        | inr (given, told) ↦
            let same : some (
              some given,
              (
                record s { strings = keep_string ext s.strings Enums.extensions given },
                TexCall.get_string Enums.extensions ∷ [],
              ),
            )
                ≡ some (some text, r) =
              ground (arith, e, valid, new, told) in
            ap (λ (q : Option S × UploadReply hash env ext). q.1.0.textures)
              (some-injective _ _ (sym same))
      ]
      | inr (kept, old) ↦
          ap (λ (q : UploadReply hash env ext). q.0.textures)
            (sym (known_extensions s answer text kept r old e))
    ]
    | inr bad ↦
        let same : some (none, refused hash env ext s Enums.invalid_enum) ≡ some (some text, r) =
          ground (arith, e, bad) in
        absurd (
          none-some text
            (ap (λ (q : Option S × UploadReply hash env ext). q.0) (some-injective _ _ same)))
  ]

  -- glTexImage2D for a format that is taken.
  loads :
      (s : Uploads hash S) (text : S) (level f w h type : ℕ) (answer : Option S)
      (asked : Uploads hash S) (calls : List TexCall)
      → gl_get_string hash env ext s Enums.extensions answer ≡ some (some text, (asked, calls))
      → IsPixelFormat asked f type
      → level < 2 ^ 31
      → w < 2 ^ 31
      → h < 2 ^ 31
      → gl_tex_image_2d hash env ext s Enums.texture_2d level f w h f type answer
        ≡ some (load_image hash env ext asked calls Enums.texture_2d level f w h type)
  unfolding gl_tex_image_2d
  loads s text level f w h type answer asked calls got (target, a, b, c) l x y =
      guarded4 (int_negative level || int_negative w || int_negative h) (not (f == f))
        (not (env.is_valid_image_target Enums.texture_2d)) (is_bad_565 hash env ext type f) _ _ _ _
        _ (ground arith) (ground arith) (ground (arith, target)) a
      ∙ elim (Option-cases s.strings.extensions) [
        | inl e ↦
            elim_unknown s.strings.extensions _ _ e
            ∙ ap (λ r. with_extensions hash env ext r Enums.texture_2d level f w h type) got
        | inr (kept, e) ↦
            elim_known s.strings.extensions kept _ _ e
            ∙ ap
                (λ (r : UploadReply hash env ext).
                  some (load_image hash env ext r.0 r.1 Enums.texture_2d level f w h type))
                (known_extensions s answer text kept (asked, calls) e got)
      ]

  -- glTexSubImage2D for a format that is taken.
  sends :
      (s : Uploads hash S) (t : Texture) (level x y w h f type : ℕ)
      → hash.lookup (flat s) s.textures.objects.textures ≡ some t
      → IsPixelFormat s f type
      → env.is_valid_format f ≡ true
      → level < 2 ^ 31
      → w < 2 ^ 31
      → h < 2 ^ 31
      → gl_tex_sub_image_2d hash env ext s Enums.texture_2d level x y w h f type
        ≡ sub_image_of hash env ext s t Enums.texture_2d level x y w h f type
  unfolding gl_tex_sub_image_2d
  sends s t level x y w h f type found (target, a, b, c) good l p q =
      guarded4 (int_negative level || int_negative w || int_negative h)
        (not (Enums.texture_2d == Enums.texture_2d || is_cube_face Enums.texture_2d))
        (is_bad_565 hash env ext type f || is_bad_packed hash env ext type f)
        (not (env.is_valid_format f)) _ (refused hash env ext s Enums.invalid_enum) _ _ _
        (ground arith) refl (ground (arith, a, b)) (ground (arith, good))
      ∙ elim_found (hash.lookup (flat s) s.textures.objects.textures) t
          (refused hash env ext s Enums.invalid_operation)
          (λ u. sub_image_of hash env ext s u Enums.texture_2d level x y w h f type) found

  -- The part of the 2D texture's image that a call of glTexSubImage2D gives.
  abbrev pub part_sent : ℕ → ℕ → ℕ → ℕ → ℕ → ℕ → ℕ → List TexCall
  part_sent level x y w h f type =
      TexCall.tex_sub_image_2d Enums.texture_2d level x y w h f type ∷ []

  within :
      (s : Uploads hash S) (t : Texture) (level x y w h f type : ℕ)
      → t.width < 2 ^ 31
      → t.height < 2 ^ 31
      → x + w < 2 ^ 31
      → y + h < 2 ^ 31
      → (sub_image_of hash env ext s t Enums.texture_2d level x y w h f type).1 ≡ (
          if leb (x + w) t.width && leb (y + h) t.height
          then part_sent level x y w h f type
          else [])
  within s t level x y w h f type a b c d = ground arith

  -- glTexSubImage2D for a format that is not valid.
  sends_none :
      (s : Uploads hash S) (level x y w h f type : ℕ)
      → env.is_valid_format f ≡ false
      → (gl_tex_sub_image_2d hash env ext s Enums.texture_2d level x y w h f type).1 ≡ []
  unfolding gl_tex_sub_image_2d
  sends_none s level x y w h f type bad = ground (arith, bad)

  -- After glTexImage2D has given the 2D texture, which is in the cache, an image of width `w` and
  -- height `h`, whatever its level, glTexSubImage2D of the same format and type, of any level, is sent
  -- on if the format is a valid one and the part lies within that width and height, and sends nothing
  -- otherwise: glTexImage2D does not ask if the format is valid, so a part of an image that it kept can
  -- be refused. The list of extensions is kept, or asked for with this image and given by the driver. All
  -- sizes and offsets are below 2^31, and so are their sums.
  pub sub_image_within :
      (s : Uploads hash S) (t : Texture) (text : S) (answer : Option S) (asked : Uploads hash S)
      (calls : List TexCall) (level level' f type w h x y w' h' : ℕ)
      → hash.lookup (flat s) s.textures.objects.textures ≡ some t
      → gl_get_string hash env ext s Enums.extensions answer ≡ some (some text, (asked, calls))
      → IsPixelFormat asked f type
      → level < 2 ^ 31
      → level' < 2 ^ 31
      → w < 2 ^ 31
      → h < 2 ^ 31
      → x + w' < 2 ^ 31
      → y + h' < 2 ^ 31
      → (s' : Uploads hash S) × (gl_tex_image_2d hash env ext s Enums.texture_2d level f w h f type
            answer
          ≡ some (s', calls ++ (TexCall.tex_image_2d Enums.texture_2d level f w h type ∷ [])))
        × ((gl_tex_sub_image_2d hash env ext s' Enums.texture_2d level' x y w' h' f type).1 ≡ (
            if env.is_valid_format f && (leb (x + w') w && leb (y + h') h)
            then part_sent level' x y w' h' f type
            else []))
  sub_image_within s t text answer asked calls level level' f type w h x y w' h' found got ok l l' p
        q a b =
      (
        kept,
        loads s text level f w h type answer asked calls got ok l p q ∙ ap some fits,
        elim (Bool-cases (env.is_valid_format f)) [
          | inl good ↦
              ap (λ (r : UploadReply hash env ext). r.1)
                (sends kept
                  (record t { internal_format = f; width = w; height = h; data_type = type }) level'
                  x y w' h' f type kept-found kept-ok good l' (omega arith) (omega arith))
              ∙ within kept
                  (record t { internal_format = f; width = w; height = h; data_type = type }) level'
                  x y w' h' f type p q a b
              ∙ ground (arith, good)
          | inr bad ↦ sends_none kept level' x y w' h' f type bad ∙ ground (arith, bad)
        ],
      )
    where
      found' : hash.lookup (flat asked) asked.textures.objects.textures ≡ some t
      found' =
          ap
            (λ (r : Textures hash).
              hash.lookup (image_texture hash env ext r.objects Enums.texture_2d)
                r.objects.textures)
            (asked-textures s answer text (asked, calls) got)
          ∙ found

      kept : Uploads hash S
      kept = keep_image hash env ext asked (flat asked) f w h type (some t)

      fits :
          load_image hash env ext asked calls Enums.texture_2d level f w h type
          ≡ (kept, calls ++ (TexCall.tex_image_2d Enums.texture_2d level f w h type ∷ []))
      fits =
          ground (arith, ok.2, ok.3)
          ∙ ap
              (λ o. (
                keep_image hash env ext asked (flat asked) f w h type o,
                calls ++ (TexCall.tex_image_2d Enums.texture_2d level f w h type ∷ []),
              ))
              found'

      kept-found :
          hash.lookup (flat kept) kept.textures.objects.textures
          ≡ some (record t { internal_format = f; width = w; height = h; data_type = type })
      kept-found =
          ap (λ n. hash.lookup n kept.textures.objects.textures)
            (keep_image-flat asked (some t) (flat asked) f w h type)
          ∙ keep_image-lookup asked t (flat asked) f w h type
              (found_nonzero hash (flat asked) asked.textures.objects.textures t found')

      kept-ok : IsPixelFormat kept f type
      kept-ok = ok
