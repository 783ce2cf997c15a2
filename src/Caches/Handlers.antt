-- ===== src/Caches/Handlers.antt =====
-- src/client/caching_client.c: the calls that create, bind, attach and delete textures, framebuffers,
-- renderbuffers and buffers, and those that clear a framebuffer.
use gpu_proxy.Base.{
  ℕ, ◌/◌, ◌%◌, Option, none, some, Bool, not, List, [], ◌∷◌, ◌==◌, ◌&&◌, ◌||◌, if◌then◌else◌,
}
use gpu_proxy.Gl.Enums
use gpu_proxy.Gl.State.{State, Bindings, Quad, set_error, int_negative}
use gpu_proxy.Names.{NameHandler, alloc_names, alloc_name}
use gpu_proxy.Mapping.{Kind}
use gpu_proxy.Attribs.{AttribList}
use gpu_proxy.Caches.{
  Texture, Renderbuffer, Framebuffer, FramebufferStatus, ObjectTable, is_incomplete, create_texture,
  create_framebuffer, create_renderbuffer, change,
}

-- The calls sent on.
pub data ObjectCall : Type 0 where
  gen : Kind → ℕ → ObjectCall
  delete : Kind → List ℕ → ObjectCall
  bind_texture : ℕ → ℕ → ObjectCall
  framebuffer_renderbuffer : ℕ → ℕ → ℕ → ℕ → ObjectCall
  framebuffer_texture_2d : ℕ → ℕ → ℕ → ℕ → ℕ → ObjectCall
  check_framebuffer_status : ℕ → ObjectCall
  clear : ℕ → ObjectCall
  clear_color : Quad → ObjectCall
  clear_depthf : ℕ → ObjectCall
  clear_stencil : ℕ → ObjectCall

-- The part of `egl_state_t` that these calls use; the caches are those that `egl_state_get_…_cache`
-- answers with.
pub record Objects (hash : ObjectTable) : Type 0 where
  pub gl : State
  pub vertex_attribs : AttribList
  pub textures : hash.Table Texture
  pub framebuffers : hash.Table Framebuffer
  pub renderbuffers : hash.Table Renderbuffer
  pub texture_names : NameHandler
  pub framebuffer_names : NameHandler
  pub renderbuffer_names : NameHandler
  pub buffer_names : NameHandler
  pub color_clear_value : Quad
  pub depth_clear_value : ℕ
  pub stencil_clear_value : ℕ

module _ (hash : ObjectTable) where
  -- The new state and the calls sent on.
  abbrev pub ObjectReply : Type 0
  ObjectReply = Objects hash × List ObjectCall

  abbrev pub with_error : Objects hash → ℕ → ObjectReply
  with_error s error = (record s { gl = set_error s.gl error }, [])

  abbrev pub with_bindings : Objects hash → Bindings → Objects hash
  with_bindings s b = record s { gl = record s.gl { bindings = b } }

  -- A name that no cached texture has yet.
  abbrev pub enter_texture : Objects hash → ℕ → Objects hash
  enter_texture s texture = if texture == 0 then s else elim (hash.lookup texture s.textures) [
    | some t ↦ s
    | none ↦ record s {
      texture_names = alloc_name s.texture_names texture;
      textures = hash.insert texture (create_texture texture) s.textures;
    }
  ]

  abbrev pub bind_to : Bindings → ℕ → ℕ → Bindings
  bind_to b target texture =
      if target == Enums.texture_2d
      then record b { texture_2d = texture }
      else if target == Enums.texture_cube_map
      then record b { texture_cube_map = texture }
      else record b { texture_3d = texture }

  -- `caching_client_glBindTexture`
  unfoldable pub gl_bind_texture : Objects hash → ℕ → ℕ → ObjectReply
  gl_bind_texture s target texture =
      let b = s.gl.bindings in
      if target == Enums.texture_2d && b.texture_2d == texture
      then (s, [])
      else if target == Enums.texture_cube_map && b.texture_cube_map == texture
      then (s, [])
      else if target == Enums.texture_3d_oes && b.texture_3d == texture
      then (s, [])
      else if not (
          target == Enums.texture_2d
          || target == Enums.texture_cube_map
          || target == Enums.texture_3d_oes)
      then with_error s Enums.invalid_enum
      else (
        with_bindings (enter_texture s texture) (bind_to b target texture),
        ObjectCall.bind_texture target texture ∷ [],
      )

  -- The loops that enter new objects in a cache.
  abbrev pub create_all : {A : Type 0} → (ℕ → A) → List ℕ → hash.Table A → hash.Table A
  create_all make [] t = t
  create_all make (x ∷ xs) t = create_all make xs (hash.insert x (make x) t)

  -- The names and the reply; `none` where the name handler has no name to give.
  abbrev pub GenReply : Type 0
  GenReply = Option (List ℕ × ObjectReply)

  abbrev pub given :
      Kind → ℕ → (List ℕ → NameHandler → Objects hash) → Option (List ℕ × NameHandler) → GenReply
  given kind n after none = none
  given kind n after (some (names, h)) = some (names, (after names h, ObjectCall.gen kind n ∷ []))

  abbrev pub gen_with :
      Objects hash → Kind → ℕ → NameHandler → (List ℕ → NameHandler → Objects hash) → GenReply
  gen_with s kind n names after =
      if int_negative n
      then some ([], with_error s Enums.invalid_value)
      else given kind n after (alloc_names n names)

  -- `caching_client_glGenBuffers`
  unfoldable pub gl_gen_buffers : Objects hash → ℕ → GenReply
  gl_gen_buffers s n =
      gen_with s Kind.buffers n s.buffer_names (λ names h. record s { buffer_names = h })

  -- `caching_client_glGenFramebuffers`
  unfoldable pub gl_gen_framebuffers : Objects hash → ℕ → GenReply
  gl_gen_framebuffers s n = gen_with s Kind.framebuffers n s.framebuffer_names (λ names h.
      record s {
        framebuffer_names = h;
        framebuffers = create_all create_framebuffer names s.framebuffers;
      })

  -- `caching_client_glGenRenderbuffers`
  unfoldable pub gl_gen_renderbuffers : Objects hash → ℕ → GenReply
  gl_gen_renderbuffers s n = gen_with s Kind.renderbuffers n s.renderbuffer_names (λ names h.
      record s {
        renderbuffer_names = h;
        renderbuffers = create_all create_renderbuffer names s.renderbuffers;
      })

  -- `caching_client_glGenTextures`
  unfoldable pub gl_gen_textures : Objects hash → ℕ → GenReply
  gl_gen_textures s n = gen_with s Kind.textures n s.texture_names (λ names h. record s {
    texture_names = h;
    textures = create_all create_texture names s.textures;
  })

  -- The attachment of a renderbuffer to a cached framebuffer, and the state of it.
  abbrev pub attach : ℕ → ℕ → Framebuffer → Framebuffer
  attach attachment renderbuffer f =
      let unknown = record f { status = FramebufferStatus.complete_unknown } in
      if attachment == Enums.color_attachment0
      then record unknown { attached_color_buffer = renderbuffer }
      else if attachment == Enums.depth_attachment
      then record unknown { attached_depth_buffer = renderbuffer }
      else if attachment == Enums.stencil_attachment
      then record unknown { attached_stencil_buffer = renderbuffer }
      else unknown

  -- `caching_client_glFramebufferRenderbuffer`
  unfoldable pub gl_framebuffer_renderbuffer : Objects hash → ℕ → ℕ → ℕ → ℕ → ObjectReply
  gl_framebuffer_renderbuffer s target attachment renderbuffertarget renderbuffer =
      let bound = s.gl.bindings.framebuffer in
      if not (target == Enums.framebuffer)
      then with_error s Enums.invalid_enum
      else if not (renderbuffertarget == Enums.renderbuffer) && not (renderbuffer == 0)
      then with_error s Enums.invalid_enum
      else (
        record s {
          framebuffers =
              if bound == 0
              then s.framebuffers
              else change hash bound (attach attachment renderbuffer) s.framebuffers;
          renderbuffers =
              change hash renderbuffer (λ r. record r { framebuffer_id = bound }) s.renderbuffers;
        },
        ObjectCall.framebuffer_renderbuffer target attachment renderbuffertarget renderbuffer ∷ [],
      )

  -- The texture's framebuffer, where the texture is cached.
  abbrev pub attach_image : Objects hash → ℕ → Objects hash
  attach_image s texture =
      let bound = s.gl.bindings.framebuffer in
      elim (hash.lookup texture s.textures) [
        | none ↦ s
        | some t ↦ record s {
          textures = hash.insert texture (record t { framebuffer_id = bound }) s.textures;
          framebuffers =
              if bound == 0
              then s.framebuffers
              else change hash bound
                  (λ f. record f {
                    attached_image = texture;
                    status = FramebufferStatus.complete_unknown;
                  })
                  s.framebuffers;
        }
      ]

  -- `caching_client_glFramebufferTexture2D`
  unfoldable pub gl_framebuffer_texture_2d : Objects hash → ℕ → ℕ → ℕ → ℕ → ℕ → ObjectReply
  gl_framebuffer_texture_2d s target attachment textarget texture level =
      if not (target == Enums.framebuffer) then with_error s Enums.invalid_enum else (
        attach_image s texture,
        ObjectCall.framebuffer_texture_2d target attachment textarget texture level ∷ [],
      )

  -- `caching_client_glCheckFramebufferStatus`, with the driver's answer.
  unfoldable pub gl_check_framebuffer_status : Objects hash → ℕ → ℕ → ℕ × ObjectReply
  gl_check_framebuffer_status s target result =
      let bound = s.gl.bindings.framebuffer in
      if not (target == Enums.framebuffer)
      then (Enums.invalid_enum, with_error s Enums.invalid_enum)
      else (
        result,
        (
          record s {
            framebuffers =
                if bound == 0
                then s.framebuffers
                else change hash bound
                    (λ f. record f {
                      status =
                          if result == Enums.framebuffer_complete
                          then FramebufferStatus.complete
                          else FramebufferStatus.incomplete;
                    })
                    s.framebuffers;
          },
          ObjectCall.check_framebuffer_status target ∷ [],
        ),
      )

  -- The test before a framebuffer is cleared.
  abbrev pub cannot_clear : Objects hash → Bool
  cannot_clear s =
      not (s.gl.bindings.framebuffer == 0)
      && is_incomplete (hash.lookup s.gl.bindings.framebuffer s.framebuffers)

  -- A bit of a mask.
  abbrev pub has_bit : ℕ → ℕ → Bool
  has_bit mask bit = (mask / bit) % 2 == 1

  -- `caching_client_glClear`
  unfoldable pub gl_clear : Objects hash → ℕ → ObjectReply
  gl_clear s mask =
      if not (has_bit mask 0x4000 || has_bit mask 0x100 || has_bit mask 0x400)
      then with_error s Enums.invalid_enum
      else if cannot_clear s
      then with_error s Enums.invalid_framebuffer_operation
      else (s, ObjectCall.clear mask ∷ [])

  -- `caching_client_glClearColor` and `…ClearDepthf`; `feq` is the machine's == on floats.
  unfoldable pub gl_clear_color : (ℕ → ℕ → Bool) → Objects hash → Quad → ObjectReply
  gl_clear_color feq s q =
      let c = s.color_clear_value in
      if feq c.c0 q.c0 && feq c.c1 q.c1 && feq c.c2 q.c2 && feq c.c3 q.c3
      then (s, [])
      else if cannot_clear s
      then with_error s Enums.invalid_framebuffer_operation
      else (record s { color_clear_value = q }, ObjectCall.clear_color q ∷ [])

  unfoldable pub gl_clear_depthf : (ℕ → ℕ → Bool) → Objects hash → ℕ → ObjectReply
  gl_clear_depthf feq s depth =
      if feq s.depth_clear_value depth
      then (s, [])
      else if cannot_clear s
      then with_error s Enums.invalid_framebuffer_operation
      else (record s { depth_clear_value = depth }, ObjectCall.clear_depthf depth ∷ [])

  -- `caching_client_glClearStencil`
  unfoldable pub gl_clear_stencil : Objects hash → ℕ → ObjectReply
  gl_clear_stencil s value =
      if s.stencil_clear_value == value
      then (s, [])
      else if cannot_clear s
      then with_error s Enums.invalid_framebuffer_operation
      else (record s { stencil_clear_value = value }, ObjectCall.clear_stencil value ∷ [])
