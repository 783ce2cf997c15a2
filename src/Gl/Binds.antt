-- ===== src/Gl/Binds.antt =====
-- src/client/caching_client.c: glActiveTexture, glBindBuffer, glBindFramebuffer, glBindRenderbuffer.
use gpu_proxy.Base.{ℕ, ◌==◌, ltb, if◌then◌else◌, ◌&&◌, ◌||◌}
use gpu_proxy.Gl.Enums
use gpu_proxy.Gl.State.{State, Bindings, Call, Reply, keep, send, set_error, fails}

module _ (s : State) where
  abbrev b : Bindings
  b = s.bindings

  abbrev with_bindings : Bindings → State
  with_bindings b' = record s { bindings = b' }

  unfoldable pub gl_active_texture : ℕ → Reply
  gl_active_texture texture =
      if b.active_texture == texture
      then keep s
      else if ltb Enums.texture31 texture || ltb texture Enums.texture0
      then fails s Enums.invalid_enum
      else send
          (with_bindings (record b {
            active_texture = texture;
            texture_2d = 0;
            texture_cube_map = 0;
            texture_3d = 0;
          }))
          (Call.active_texture texture)

  unfoldable pub gl_bind_buffer : ℕ → ℕ → Reply
  gl_bind_buffer target buffer =
      if target == Enums.array_buffer
      then (if b.array_buffer == buffer
          then keep s
          else send (with_bindings (record b { array_buffer = buffer }))
              (Call.bind_buffer target buffer))
      else if target == Enums.element_array_buffer
      then (if b.element_array_buffer == buffer
          then keep s
          else send (with_bindings (record b { element_array_buffer = buffer }))
              (Call.bind_buffer target buffer))
      else fails s Enums.invalid_enum

  -- A wrong target leaves an error, and the call goes on all the same.
  unfoldable pub gl_bind_framebuffer : ℕ → ℕ → Reply
  gl_bind_framebuffer target framebuffer =
      if target == Enums.framebuffer && b.framebuffer == framebuffer
      then keep s
      else let t = if target == Enums.framebuffer then s else set_error s Enums.invalid_enum in
        send (record t { bindings = record b { framebuffer = framebuffer } })
          (Call.bind_framebuffer target framebuffer)

  unfoldable pub gl_bind_renderbuffer : ℕ → ℕ → Reply
  gl_bind_renderbuffer target renderbuffer =
      let t = if target == Enums.renderbuffer then s else set_error s Enums.invalid_enum in
      send (record t { bindings = record b { renderbuffer = renderbuffer } })
        (Call.bind_renderbuffer target renderbuffer)
