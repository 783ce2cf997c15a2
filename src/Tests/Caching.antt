-- ===== src/Tests/Caching.antt =====
-- The cached objects, and the draw calls, at concrete inputs.
use gpu_proxy.Base.{ℕ, ◌≡◌, ◌≢◌, ◌==◌, ◌^◌, refl, some, none, true, [], ◌∷◌, arith}
use gpu_proxy.Gl.Enums
use gpu_proxy.Tests.Fixtures.{place, hash, nothing}
use gpu_proxy.Gl.State.{init}
use gpu_proxy.Names.{NameHandler, create, alloc_names, alloc_one}
use gpu_proxy.Names.Owned.{create-Owns}
use gpu_proxy.Mapping.{Kind}
use gpu_proxy.Caches.{FramebufferStatus, create_texture, create_framebuffer}
use gpu_proxy.Caches.Handlers.{
  Objects, ObjectCall, gl_bind_texture, gl_gen_textures, gl_gen_framebuffers,
  gl_framebuffer_renderbuffer, gl_framebuffer_texture_2d, gl_check_framebuffer_status, gl_clear,
  gl_clear_color, gl_clear_depthf, gl_clear_stencil,
}
use gpu_proxy.Caches.Handlers.{gl_gen_buffers, gl_gen_renderbuffers}
use gpu_proxy.Caches.Deletes.{gl_delete_buffers, gl_delete_framebuffers, gl_delete_textures}
use gpu_proxy.Caches.Unbound.{holds, deleted_names_unbound}
use gpu_proxy.Caches.Given.{given_names_cached}

deleted_names_unbound_example :
    ((gl_delete_buffers hash nothing 2 (3 ∷ 7 ∷ [])).0.gl.bindings.array_buffer ≢ 7)
    × ((gl_delete_framebuffers hash nothing 2 (3 ∷ 7 ∷ [])).0.gl.bindings.framebuffer ≢ 7)
deleted_names_unbound_example =
    deleted_names_unbound hash nothing 2 (3 ∷ 7 ∷ []) 7 refl (ground arith) refl

-- The renderbuffer 4 of the framebuffer 2.
abbrev attached : Objects hash
attached = record nothing {
  framebuffers = place 2 (some (create_framebuffer 2)) (λ k. none);
  renderbuffers = place 4 (some (record { id = 4; framebuffer_id = 2 })) (λ k. none);
}

abbrev one_given : NameHandler
one_given = record { last_name = 1; reusable_names = [] }

one_name : alloc_names 1 create ≡ some (1 ∷ [], one_given)
unfolding alloc_names alloc_one
one_name = refl

given_names_cached_example :
    ((s : Objects hash) × (gl_gen_textures hash nothing 1
        ≡ some (1 ∷ [], (s, ObjectCall.gen Kind.textures 1 ∷ [])))
      × ((x : ℕ) → holds x (1 ∷ []) ≡ true → hash.lookup x s.textures ≡ some (create_texture x)))
    × ((s : Objects hash) × (gl_gen_framebuffers hash nothing 1
          ≡ some (1 ∷ [], (s, ObjectCall.gen Kind.framebuffers 1 ∷ [])))
        × ((y : ℕ)
            → holds y (1 ∷ []) ≡ true
            → hash.lookup y s.framebuffers ≡ some (create_framebuffer y)))
given_names_cached_example =
    given_names_cached hash nothing 1 (1 ∷ []) (1 ∷ []) one_given one_given [] [] create-Owns
      create-Owns refl one_name one_name

-- A framebuffer that the driver found incomplete is not cleared.
abbrev incomplete_bound : Objects hash
incomplete_bound = record nothing {
  gl = record nothing.gl { bindings = record nothing.gl.bindings { framebuffer = 2 } };
  framebuffers = place 2 (some (create_framebuffer 2)) (λ k. none);
}

found_incomplete :
    (gl_clear hash
      (gl_check_framebuffer_status hash incomplete_bound Enums.framebuffer 0).1.0
      0x4000).1
    ≡ []
unfolding init gl_clear gl_check_framebuffer_status
found_incomplete = refl

found_complete :
    (gl_clear hash
      (gl_check_framebuffer_status hash incomplete_bound Enums.framebuffer
        Enums.framebuffer_complete).1.0
      0x4000).1
    ≡ ObjectCall.clear 0x4000 ∷ []
unfolding init gl_clear gl_check_framebuffer_status
found_complete = refl

-- Clear values go once.
cleared_once : (gl_clear_stencil hash (gl_clear_stencil hash nothing 3).0 3).1 ≡ []
unfolding init gl_clear_stencil
cleared_once = refl

depth_once :
    (gl_clear_depthf hash (λ a b. a == b) (gl_clear_depthf hash (λ a b. a == b) nothing 3).0 3).1
    ≡ []
unfolding init gl_clear_depthf
depth_once = refl

color_once :
    (gl_clear_color hash (λ a b. a == b) nothing (record { c0 = 0; c1 = 0; c2 = 0; c3 = 0 })).1 ≡ []
unfolding gl_clear_color
color_once = refl

-- A texture that is bound under a name of the program's own choice, attached and deleted.
texture_entered : (gl_bind_texture hash nothing Enums.texture_2d 9).0.gl.bindings.texture_2d ≡ 9
unfolding init gl_bind_texture
texture_entered = refl

deleted_texture :
    gl_delete_textures hash (gl_bind_texture hash nothing Enums.texture_2d 9).0 1 (9 ∷ []) ≢ none
unfolding init gl_bind_texture gl_delete_textures
deleted_texture = λ e. ground (arith, e)

attached_color :
    (gl_framebuffer_renderbuffer hash incomplete_bound Enums.framebuffer Enums.color_attachment0
        Enums.renderbuffer 4).0.framebuffers
      2
    ≡ some (record (create_framebuffer 2) {
      attached_color_buffer = 4;
      status = FramebufferStatus.complete_unknown;
    })
unfolding init gl_framebuffer_renderbuffer
attached_color = refl

attached_nothing :
    (gl_framebuffer_texture_2d hash incomplete_bound Enums.framebuffer Enums.color_attachment0
        Enums.texture_2d 8 0).0.framebuffers
      2
    ≡ some (create_framebuffer 2)
unfolding init gl_framebuffer_texture_2d
attached_nothing = refl

-- Names for buffers, and a renderbuffer that is cached with its name.
buffers_given :
    gl_gen_buffers hash nothing 1
    ≡ some
        (1 ∷ [], (record nothing { buffer_names = one_given }, ObjectCall.gen Kind.buffers 1 ∷ []))
unfolding gl_gen_buffers alloc_names alloc_one
buffers_given = refl

renderbuffers_refused : gl_gen_renderbuffers hash attached (2 ^ 31) ≢ none
unfolding gl_gen_renderbuffers
renderbuffers_refused = λ e. ground (arith, e)
