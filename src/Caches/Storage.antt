-- ===== src/Caches/Storage.antt =====
-- src/client/caching_client.c: the calls that give a renderbuffer its storage or a framebuffer a texture.
use gpu_proxy.Base.{
  ℕ, ◌≡◌, refl, some, true, false, not, List, [], ◌∷◌, ◌==◌, if◌then◌else◌, arith, inl, inr,
  Bool-cases, Option-cases,
}
use gpu_proxy.Gl.Enums
use gpu_proxy.Caches.{
  found_nonzero, Texture, Framebuffer, FramebufferStatus, ObjectTable, is_incomplete, change,
}
use gpu_proxy.Caches.Handlers.{
  Objects, with_error, attach_image, cannot_clear, ObjectCall, gl_clear, has_bit,
  gl_framebuffer_texture_2d,
}

-- The calls sent on.
pub data ExtensionCall : Type 0 where
  renderbuffer_storage : ℕ → ℕ → ℕ → ℕ → ExtensionCall
  renderbuffer_storage_multisample_angle : ℕ → ℕ → ℕ → ℕ → ℕ → ExtensionCall
  renderbuffer_storage_multisample_apple : ℕ → ℕ → ℕ → ℕ → ℕ → ExtensionCall
  renderbuffer_storage_multisample_ext : ℕ → ℕ → ℕ → ℕ → ℕ → ExtensionCall
  renderbuffer_storage_multisample_img : ℕ → ℕ → ℕ → ℕ → ℕ → ExtensionCall
  framebuffer_texture_3d : ℕ → ℕ → ℕ → ℕ → ℕ → ℕ → ExtensionCall
  framebuffer_texture_2d_multisample_ext : ℕ → ℕ → ℕ → ℕ → ℕ → ℕ → ExtensionCall
  framebuffer_texture_2d_multisample_img : ℕ → ℕ → ℕ → ℕ → ℕ → ℕ → ExtensionCall

module _ (hash : ObjectTable) where
  abbrev pub ExtensionReply : Type 0
  ExtensionReply = Objects hash × List ExtensionCall

  -- `caching_client_set_needs_get_error`
  abbrev pub set_needs_get_error : Objects hash → Objects hash
  set_needs_get_error s = record s { gl = record s.gl { need_get_error = true } }

  -- What is known of the bound framebuffer is no more.
  abbrev pub unsettle_framebuffer : Objects hash → Objects hash
  unsettle_framebuffer s =
      let bound = s.gl.bindings.framebuffer in
      if bound == 0 then s else record s {
        framebuffers =
            change hash bound (λ f. record f { status = FramebufferStatus.complete_unknown })
              s.framebuffers;
      }

  -- What the five calls for a storage have in common.
  abbrev pub storage : Objects hash → ℕ → ExtensionCall → ExtensionReply
  storage s target call =
      if not (target == Enums.renderbuffer)
      then ((with_error hash s Enums.invalid_enum).0, [])
      else (set_needs_get_error (unsettle_framebuffer s), call ∷ [])

  -- `caching_client_glRenderbufferStorage`
  unfoldable pub gl_renderbuffer_storage : Objects hash → ℕ → ℕ → ℕ → ℕ → ExtensionReply
  gl_renderbuffer_storage s target format width height =
      storage s target (ExtensionCall.renderbuffer_storage target format width height)

  -- `caching_client_glRenderbufferStorageMultisampleANGLE`
  unfoldable pub gl_renderbuffer_storage_multisample_angle :
      Objects hash → ℕ → ℕ → ℕ → ℕ → ℕ → ExtensionReply
  gl_renderbuffer_storage_multisample_angle s target samples format width height =
      storage s target
        (ExtensionCall.renderbuffer_storage_multisample_angle target samples format width height)

  -- `caching_client_glRenderbufferStorageMultisampleAPPLE`
  unfoldable pub gl_renderbuffer_storage_multisample_apple :
      Objects hash → ℕ → ℕ → ℕ → ℕ → ℕ → ExtensionReply
  gl_renderbuffer_storage_multisample_apple s target samples format width height =
      storage s target
        (ExtensionCall.renderbuffer_storage_multisample_apple target samples format width height)

  -- `caching_client_glRenderbufferStorageMultisampleEXT`
  unfoldable pub gl_renderbuffer_storage_multisample_ext :
      Objects hash → ℕ → ℕ → ℕ → ℕ → ℕ → ExtensionReply
  gl_renderbuffer_storage_multisample_ext s target samples format width height =
      storage s target
        (ExtensionCall.renderbuffer_storage_multisample_ext target samples format width height)

  -- `caching_client_glRenderbufferStorageMultisampleIMG`
  unfoldable pub gl_renderbuffer_storage_multisample_img :
      Objects hash → ℕ → ℕ → ℕ → ℕ → ℕ → ExtensionReply
  gl_renderbuffer_storage_multisample_img s target samples format width height =
      storage s target
        (ExtensionCall.renderbuffer_storage_multisample_img target samples format width height)

  -- What the three calls for a texture have in common.
  abbrev pub attach_sent : Objects hash → ℕ → ℕ → ExtensionCall → ExtensionReply
  attach_sent s target texture call =
      if not (target == Enums.framebuffer)
      then ((with_error hash s Enums.invalid_enum).0, [])
      else (attach_image hash s texture, call ∷ [])

  -- `caching_client_glFramebufferTexture3DOES`
  unfoldable pub gl_framebuffer_texture_3d : Objects hash → ℕ → ℕ → ℕ → ℕ → ℕ → ℕ → ExtensionReply
  gl_framebuffer_texture_3d s target attachment textarget texture level zoffset =
      attach_sent s target texture
        (ExtensionCall.framebuffer_texture_3d target attachment textarget texture level zoffset)

  -- `caching_client_glFramebufferTexture2DMultisampleEXT`
  unfoldable pub gl_framebuffer_texture_2d_multisample_ext :
      Objects hash → ℕ → ℕ → ℕ → ℕ → ℕ → ℕ → ExtensionReply
  gl_framebuffer_texture_2d_multisample_ext s target attachment textarget texture level samples =
      attach_sent s target texture (
        ExtensionCall.framebuffer_texture_2d_multisample_ext target attachment textarget texture
          level samples)

  -- `caching_client_glFramebufferTexture2DMultisampleIMG`
  unfoldable pub gl_framebuffer_texture_2d_multisample_img :
      Objects hash → ℕ → ℕ → ℕ → ℕ → ℕ → ℕ → ExtensionReply
  gl_framebuffer_texture_2d_multisample_img s target attachment textarget texture level samples =
      attach_sent s target texture (
        ExtensionCall.framebuffer_texture_2d_multisample_img target attachment textarget texture
          level samples)

  -- A framebuffer that was unsettled is not held to be incomplete.
  change-is_incomplete :
      (k : ℕ) (f : Framebuffer → Framebuffer) (t : hash.Table Framebuffer)
      → ((b : Framebuffer) → (f b).status ≡ FramebufferStatus.complete_unknown)
      → is_incomplete (hash.lookup k (change hash k f t)) ≡ false
  change-is_incomplete k f t h = elim (Option-cases (hash.lookup k t)) [
    | inl e ↦ ground (arith, e)
    | inr (b, e) ↦ ground (arith, e, hash.lookup-insert k (f b) t (found_nonzero hash k t b e), h b)
  ]

  unsettle-cannot_clear :
      (s : Objects hash) → cannot_clear hash (set_needs_get_error (unsettle_framebuffer s)) ≡ false
  unsettle-cannot_clear s = elim (Bool-cases (s.gl.bindings.framebuffer == 0)) [
    | inl e ↦ ground (arith, e)
    | inr e ↦ ground (
      arith,
      e,
      change-is_incomplete s.gl.bindings.framebuffer
          (λ f. record f { status = FramebufferStatus.complete_unknown }) s.framebuffers
          (λ b. refl),
    )
  ]

  attach-cannot_clear :
      (s : Objects hash) (texture : ℕ) (t : Texture)
      → hash.lookup texture s.textures ≡ some t
      → cannot_clear hash (attach_image hash s texture) ≡ false
  attach-cannot_clear s texture t e = elim (Bool-cases (s.gl.bindings.framebuffer == 0)) [
    | inl none_bound ↦ ground (arith, e, none_bound)
    | inr bound ↦ ground (
      arith,
      e,
      bound,
      change-is_incomplete s.gl.bindings.framebuffer
          (λ f. record f { attached_image = texture; status = FramebufferStatus.complete_unknown })
          s.framebuffers (λ b. refl),
    )
  ]

  -- glClear with the mask is sent on.
  abbrev pub Clears : Objects hash → ℕ → Type 0
  Clears s mask = (gl_clear hash s mask).1 ≡ ObjectCall.clear mask ∷ []

  clears :
      (s : Objects hash) (mask : ℕ)
      → has_bit hash mask 0x4000 ≡ true
      → cannot_clear hash s ≡ false
      → Clears s mask
  unfolding gl_clear
  clears s mask b e = ground (arith, b, e)

  -- A framebuffer that changes may be cleared: after a call that gives a renderbuffer its storage, or that
  -- gives the framebuffer a texture that is in the cache, glClear of the colours is sent on, even if the
  -- bound framebuffer was known to be incomplete before. The targets are the right ones.
  pub changed_framebuffer-Clears :
      (s : Objects hash)
      (mask samples format width height attachment textarget texture level zoffset : ℕ)
      (t : Texture)
      → has_bit hash mask 0x4000 ≡ true
      → hash.lookup texture s.textures ≡ some t
      → Clears (gl_renderbuffer_storage s Enums.renderbuffer format width height).0 mask
        × Clears
            (gl_renderbuffer_storage_multisample_angle s Enums.renderbuffer samples format width
              height).0
            mask
        × Clears
            (gl_renderbuffer_storage_multisample_apple s Enums.renderbuffer samples format width
              height).0
            mask
        × Clears
            (gl_renderbuffer_storage_multisample_ext s Enums.renderbuffer samples format width
              height).0
            mask
        × Clears
            (gl_renderbuffer_storage_multisample_img s Enums.renderbuffer samples format width
              height).0
            mask
        × Clears
            (gl_framebuffer_texture_2d hash s Enums.framebuffer attachment textarget texture
              level).0
            mask
        × Clears
            (gl_framebuffer_texture_3d s Enums.framebuffer attachment textarget texture level
              zoffset).0
            mask
        × Clears
            (gl_framebuffer_texture_2d_multisample_ext s Enums.framebuffer attachment textarget
              texture level samples).0
            mask
        × Clears
            (gl_framebuffer_texture_2d_multisample_img s Enums.framebuffer attachment textarget
              texture level samples).0
            mask
  unfolding gl_framebuffer_texture_2d gl_renderbuffer_storage
      gl_renderbuffer_storage_multisample_angle gl_renderbuffer_storage_multisample_apple
      gl_renderbuffer_storage_multisample_ext gl_renderbuffer_storage_multisample_img
      gl_framebuffer_texture_3d gl_framebuffer_texture_2d_multisample_ext
      gl_framebuffer_texture_2d_multisample_img
  changed_framebuffer-Clears s mask samples format width height attachment textarget texture level
        zoffset t b e =
      (stored, stored, stored, stored, stored, given, given, given, given)
    where
      stored : Clears (set_needs_get_error (unsettle_framebuffer s)) mask
      stored =
          clears (set_needs_get_error (unsettle_framebuffer s)) mask b (unsettle-cannot_clear s)

      given : Clears (attach_image hash s texture) mask
      given = clears (attach_image hash s texture) mask b (attach-cannot_clear s texture t e)
