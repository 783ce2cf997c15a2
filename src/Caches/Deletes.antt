-- ===== src/Caches/Deletes.antt =====
-- src/client/caching_client.c: glDeleteBuffers, glDeleteFramebuffers, glDeleteRenderbuffers and
-- glDeleteTextures.
use gpu_proxy.Base.{
  ℕ, Option, none, some, Bool, true, false, not, List, [], ◌∷◌, ◌==◌, ◌&&◌, if◌then◌else◌,
}
use gpu_proxy.Gl.Enums
use gpu_proxy.Gl.State.{Bindings, int_negative}
use gpu_proxy.Names.{delete_names}
use gpu_proxy.Mapping.{Kind}
use gpu_proxy.Attribs.{AttribList}
use gpu_proxy.Caches.{Framebuffer, FramebufferStatus, ObjectTable, change, delete_cached_texture}
use gpu_proxy.Caches.Handlers.{Objects, ObjectCall, ObjectReply, with_error, with_bindings}

-- The bindings once a buffer is gone: the second one is looked at only where it is not the first.
abbrev pub unbind_buffer : ℕ → Bindings → Bindings
unbind_buffer x b =
    if x == b.array_buffer
    then record b { array_buffer = 0 }
    else if x == b.element_array_buffer
    then record b { element_array_buffer = 0 }
    else b

abbrev pub unbind_buffers : List ℕ → Bindings → Bindings
unbind_buffers [] b = b
unbind_buffers (x ∷ xs) b = unbind_buffers xs (unbind_buffer x b)

-- The last loop of glDeleteBuffers: where the first attribute has one of the buffers, all lose theirs.
abbrev pub forget_buffers : List ℕ → AttribList → AttribList
forget_buffers [] l = l
forget_buffers (x ∷ xs) l =
    let rest = forget_buffers xs l in
    if (l.attribs 0).array_buffer_binding == x
    then record l { attribs = λ p. record (l.attribs p) { array_buffer_binding = 0 } }
    else rest

abbrev pub unbind_framebuffer : ℕ → Bindings → Bindings
unbind_framebuffer x b = if b.framebuffer == x then record b { framebuffer = 0 } else b

abbrev pub unbind_renderbuffer : ℕ → Bindings → Bindings
unbind_renderbuffer x b = if b.renderbuffer == x then record b { renderbuffer = 0 } else b

abbrev pub unbind_texture : ℕ → Bindings → Bindings
unbind_texture x b =
    let unbound =
      if b.texture_2d == x
      then record b { texture_2d = 0 }
      else if b.texture_cube_map == x
      then record b { texture_cube_map = 0 }
      else if b.texture_3d == x
      then record b { texture_3d = 0 }
      else b in
    if b.active_texture == x then record unbound { active_texture = 0 } else unbound

-- A renderbuffer that a framebuffer loses.
abbrev pub detach : ℕ → Framebuffer → Framebuffer
detach x f = record f {
  status = FramebufferStatus.complete_unknown;
  attached_color_buffer = if f.attached_color_buffer == x then 0 else f.attached_color_buffer;
  attached_stencil_buffer = if f.attached_stencil_buffer == x then 0 else f.attached_stencil_buffer;
  attached_depth_buffer = if f.attached_depth_buffer == x then 0 else f.attached_depth_buffer;
}

abbrev pub detach_image : Framebuffer → Framebuffer
detach_image f = record f { status = FramebufferStatus.complete_unknown; attached_image = 0 }

abbrev pub is_some : {A : Type 0} → Option A → Bool
is_some none = false
is_some (some a) = true

module _ (hash : ObjectTable) where
  -- `caching_client_glDeleteBuffers`. The elements of the array behind its count are not there.
  unfoldable pub gl_delete_buffers : Objects hash → ℕ → List ℕ → ObjectReply hash
  gl_delete_buffers s n buffers =
      if int_negative n then with_error hash s Enums.invalid_value else (
        record (with_bindings hash s (unbind_buffers buffers s.gl.bindings)) {
          buffer_names = delete_names s.buffer_names buffers;
          vertex_attribs =
              if s.vertex_attribs.count == 0
              then s.vertex_attribs
              else forget_buffers buffers s.vertex_attribs;
        },
        ObjectCall.delete Kind.buffers buffers ∷ [],
      )

  -- What a deleted framebuffer was attached to. The tests of the image and of the color buffer are
  -- the wrong way round, and that of the depth buffer is never met.
  abbrev pub release_attached : Framebuffer → Objects hash → Objects hash
  release_attached f s = record s {
    textures =
        if f.attached_image == 0
        then change hash f.attached_image (λ t. record t { framebuffer_id = 0 }) s.textures
        else s.textures;
    renderbuffers =
        let colored =
          if f.attached_color_buffer == 0
          then change hash f.attached_color_buffer (λ r. record r { framebuffer_id = 0 })
              s.renderbuffers
          else s.renderbuffers in
        if not (f.attached_stencil_buffer == f.attached_color_buffer)
          && not (f.attached_stencil_buffer == 0)
        then change hash f.attached_stencil_buffer (λ r. record r { framebuffer_id = 0 }) colored
        else colored;
  }

  abbrev pub delete_framebuffer : ℕ → Objects hash → Objects hash
  delete_framebuffer x s =
      let released : Objects hash = elim (hash.lookup x s.framebuffers) [
        | none ↦ s
        | some f ↦ release_attached f s
      ] in
      with_bindings hash released (unbind_framebuffer x s.gl.bindings)

  abbrev pub delete_framebuffers : List ℕ → Objects hash → Objects hash
  delete_framebuffers [] s = s
  delete_framebuffers (x ∷ xs) s =
      delete_framebuffers xs (if x == 0 then s else delete_framebuffer x s)

  -- `caching_client_glDeleteFramebuffers`
  unfoldable pub gl_delete_framebuffers : Objects hash → ℕ → List ℕ → ObjectReply hash
  gl_delete_framebuffers s n framebuffers =
      if int_negative n then with_error hash s Enums.invalid_value else (
        delete_framebuffers framebuffers
            (record s { framebuffer_names = delete_names s.framebuffer_names framebuffers }),
        ObjectCall.delete Kind.framebuffers framebuffers ∷ [],
      )

  -- The framebuffer of a deleted renderbuffer. `left` tells whether the variable for it, which the
  -- code does not clear between two rounds, points to one; `none` is a read through NULL.
  abbrev pub leave_framebuffer : Bool → ℕ → Objects hash → Option (Bool × Objects hash)
  leave_framebuffer left x s = elim (hash.lookup x s.renderbuffers) [
    | none ↦ if left then none else some (false, s)
    | some r ↦ some (
      is_some (hash.lookup r.framebuffer_id s.framebuffers),
      record s {
        framebuffers =
            if r.framebuffer_id == 0
            then s.framebuffers
            else change hash r.framebuffer_id (detach x) s.framebuffers;
      },
    )
  ]

  abbrev pub delete_renderbuffers : Bool → List ℕ → Objects hash → Option (Objects hash)
  delete_renderbuffers left [] s = some s
  delete_renderbuffers left (x ∷ xs) s =
      elim (if x == 0 then some (left, s) else leave_framebuffer left x s) [
        | none ↦ none
        | some (left', s') ↦
            delete_renderbuffers left' xs
              (if x == 0 then s' else with_bindings hash s' (unbind_renderbuffer x s'.gl.bindings))
      ]

  abbrev pub replied : ObjectCall → Option (Objects hash) → Option (ObjectReply hash)
  replied call none = none
  replied call (some s) = some (s, call ∷ [])

  -- `caching_client_glDeleteRenderbuffers`
  unfoldable pub gl_delete_renderbuffers : Objects hash → ℕ → List ℕ → Option (ObjectReply hash)
  gl_delete_renderbuffers s n renderbuffers =
      if int_negative n
      then some (with_error hash s Enums.invalid_value)
      else replied (ObjectCall.delete Kind.renderbuffers renderbuffers) (
          delete_renderbuffers false renderbuffers
            (record s { renderbuffer_names = delete_names s.renderbuffer_names renderbuffers }))

  -- The same for a texture, which goes from its cache.
  abbrev pub leave_image : Bool → ℕ → Objects hash → Option (Bool × Objects hash)
  leave_image left x s = elim (hash.lookup x s.textures) [
    | none ↦ if left then none else some (false, s)
    | some t ↦ some (
      is_some (hash.lookup t.framebuffer_id s.framebuffers),
      record s {
        framebuffers =
            if t.framebuffer_id == 0
            then s.framebuffers
            else change hash t.framebuffer_id detach_image s.framebuffers;
      },
    )
  ]

  abbrev pub delete_textures : Bool → List ℕ → Objects hash → Option (Objects hash)
  delete_textures left [] s = some s
  delete_textures left (x ∷ xs) s = elim (if x == 0 then some (left, s) else leave_image left x s) [
    | none ↦ none
    | some (left', s') ↦ delete_textures left' xs (
        if x == 0 then s' else record (with_bindings hash s' (unbind_texture x s'.gl.bindings)) {
          textures = delete_cached_texture hash x s'.textures;
        })
  ]

  -- `caching_client_glDeleteTextures`
  unfoldable pub gl_delete_textures : Objects hash → ℕ → List ℕ → Option (ObjectReply hash)
  gl_delete_textures s n textures =
      if int_negative n
      then some (with_error hash s Enums.invalid_value)
      else replied (ObjectCall.delete Kind.textures textures) (delete_textures false textures s)
