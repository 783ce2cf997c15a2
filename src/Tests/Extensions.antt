-- ===== src/Tests/Extensions.antt =====
-- Vertex array objects, storages and queries at concrete inputs.
use gpu_proxy.Base.{List, ◌≡◌, ◌==◌, refl, some, none, true, false, [], ◌∷◌}
use gpu_proxy.Gl.Enums
use gpu_proxy.Gl.State.{init}
use gpu_proxy.Tests.Fixtures.{place, hash, nothing}
use gpu_proxy.Caches.{create_texture, create_framebuffer, FramebufferStatus}
use gpu_proxy.Caches.Handlers.{Objects, gl_framebuffer_texture_2d}
use gpu_proxy.Caches.Storage
use gpu_proxy.Attribs.Handlers.{Arrays}
use gpu_proxy.Attribs.Bound.{
  ArrayRequest, request_arrays, Driver, exec_arrays, IsLegal, gl_bind_vertex_array,
  gl_gen_vertex_arrays, gl_delete_vertex_arrays, gl_is_vertex_array, array_binding_coherent,
}
use gpu_proxy.Gl.Asks

abbrev no_array : Arrays
no_array = record {
  gl = nothing.gl;
  vertex_attribs = nothing.vertex_attribs;
  vertex_array_binding = 0;
  max_vertex_attribs = 8;
  max_vertex_attribs_queried = true;
}

-- Nothing is generated yet.
abbrev new_driver : Driver
new_driver = record { bound = 0; known = λ x. false }

abbrev array_session : List ArrayRequest
array_session =
    ArrayRequest.gen 2 (1 ∷ 2 ∷ []) ∷ ArrayRequest.bind 1 ∷ ArrayRequest.delete 2 (2 ∷ 1 ∷ []) ∷ []

array_session-IsLegal : IsLegal no_array new_driver array_session
unfolding IsLegal gl_bind_vertex_array gl_gen_vertex_arrays gl_delete_vertex_arrays
array_session-IsLegal = (tt, (refl, (tt, tt)))

array_binding_coherent_example :
    (request_arrays no_array array_session).0.vertex_array_binding
    ≡ (exec_arrays (request_arrays no_array array_session).1 new_driver).bound
array_binding_coherent_example =
    array_binding_coherent no_array new_driver array_session refl array_session-IsLegal

-- An array object that was not generated: the driver refuses it, and the client takes it as bound.
array_refused :
    ((gl_bind_vertex_array no_array 9).0.vertex_array_binding ≡ 9)
    × ((exec_arrays (gl_bind_vertex_array no_array 9).1 new_driver).bound ≡ 0)
unfolding gl_bind_vertex_array
array_refused = (refl, refl)

-- An array that the driver does not know is no longer bound.
array_unknown :
    (gl_is_vertex_array
      (record no_array { vertex_array_binding = 4 })
      4
      false).1.0.vertex_array_binding
    ≡ 0
unfolding gl_is_vertex_array
array_unknown = refl

-- The framebuffer 2 is bound and incomplete, and the texture 3 is in the cache.
abbrev broken : Objects hash
broken = record nothing {
  gl = record nothing.gl { bindings = record nothing.gl.bindings { framebuffer = 2 } };
  textures = place 3 (some (create_texture 3)) (λ k. none);
  framebuffers =
      place 2 (some (record (create_framebuffer 2) { status = FramebufferStatus.incomplete }))
        (λ k. none);
}

changed_framebuffer-Clears_example :
    Storage.Clears hash
      (Storage.gl_renderbuffer_storage hash broken Enums.renderbuffer 5 8 8).0
      0x4000
    × Storage.Clears hash
        (Storage.gl_renderbuffer_storage_multisample_angle hash broken Enums.renderbuffer 4 5 8 8).0
        0x4000
    × Storage.Clears hash
        (Storage.gl_renderbuffer_storage_multisample_apple hash broken Enums.renderbuffer 4 5 8 8).0
        0x4000
    × Storage.Clears hash
        (Storage.gl_renderbuffer_storage_multisample_ext hash broken Enums.renderbuffer 4 5 8 8).0
        0x4000
    × Storage.Clears hash
        (Storage.gl_renderbuffer_storage_multisample_img hash broken Enums.renderbuffer 4 5 8 8).0
        0x4000
    × Storage.Clears hash
        (gl_framebuffer_texture_2d hash broken Enums.framebuffer 0 Enums.texture_2d 3 0).0
        0x4000
    × Storage.Clears hash
        (Storage.gl_framebuffer_texture_3d hash broken Enums.framebuffer 0 Enums.texture_2d 3 0 1).0
        0x4000
    × Storage.Clears hash
        (Storage.gl_framebuffer_texture_2d_multisample_ext hash broken Enums.framebuffer 0
          Enums.texture_2d 3 0 4).0
        0x4000
    × Storage.Clears hash
        (Storage.gl_framebuffer_texture_2d_multisample_img hash broken Enums.framebuffer 0
          Enums.texture_2d 3 0 4).0
        0x4000
changed_framebuffer-Clears_example =
    Storage.changed_framebuffer-Clears hash broken 0x4000 4 5 8 8 0 Enums.texture_2d 3 0 1
      (create_texture 3) refl refl

-- A query that was answered leaves no error, and one that was not makes glGetError ask.
answered : (Asks.gl_get_uniformiv nothing.gl 1 2 7 9).1.0.need_get_error ≡ false
unfolding init Asks.gl_get_uniformiv
answered = refl

unanswered : (Asks.gl_get_uniformfv (λ x y. x == y) nothing.gl 1 2 7 7).1.0.need_get_error ≡ true
unfolding Asks.gl_get_uniformfv
unanswered = refl

mapped_wrongly : (Asks.gl_map_buffer (λ t. true) nothing.gl 5 6 700).0 ≡ 0
unfolding Asks.gl_map_buffer
mapped_wrongly = refl
