-- ===== src/Gl/Asks.antt =====
-- src/client/caching_client.c: the calls that are checked and sent on, and that keep nothing of what
-- they do.
use gpu_proxy.Base.{
  ℕ, ◌≡◌, ◌≢◌, arith, Bool, true, false, not, List, [], ◌∷◌, ◌==◌, ◌||◌, if◌then◌else◌,
}
use gpu_proxy.Gl.Enums
use gpu_proxy.Gl.State.{State, Call, set_error, int_negative}
use gpu_proxy.Gl.Rasters.{gl_get_error}

-- The calls sent on.
pub data AskCall : Type 0 where
  generate_mipmap get_buffer_pointer unmap_buffer egl_image_target : ℕ → AskCall
  get_framebuffer_attachment_parameter : ℕ → ℕ → ℕ → AskCall
  get_renderbuffer_parameter get_uniformfv get_uniformiv map_buffer get_fence : ℕ → ℕ → AskCall
  discard_framebuffer : ℕ → List ℕ → AskCall
  delete_fences gen_fences test_fence coverage_operation : ℕ → AskCall

abbrev pub AskReply : Type 0
AskReply = State × List AskCall

abbrev pub ask_failed : State → ℕ → AskReply
ask_failed s error = (set_error s error, [])

-- `caching_client_set_needs_get_error`, where it is called.
abbrev pub needs_if : Bool → State → State
needs_if true s = record s { need_get_error = true }
needs_if false s = s

-- The generated checks of enumerants.
module _ (is_valid : ℕ → Bool) where
  -- `caching_client_glGenerateMipmap`
  unfoldable pub gl_generate_mipmap : State → ℕ → AskReply
  gl_generate_mipmap s target =
      if is_valid target
      then (s, AskCall.generate_mipmap target ∷ [])
      else ask_failed s Enums.invalid_enum

  -- `caching_client_glMapBufferOES`, with the driver's address.
  unfoldable pub gl_map_buffer : State → ℕ → ℕ → ℕ → ℕ × AskReply
  gl_map_buffer s target access result =
      if not (access == Enums.write_only_oes)
      then (0, ask_failed s Enums.invalid_enum)
      else if not (is_valid target)
      then (0, ask_failed s Enums.invalid_enum)
      else (result, (needs_if (result == 0) s, AskCall.map_buffer target access ∷ []))

  -- `caching_client_glUnmapBufferOES`, with the driver's answer, of which 1 is GL_TRUE.
  unfoldable pub gl_unmap_buffer : State → ℕ → ℕ → ℕ × AskReply
  gl_unmap_buffer s target result =
      if not (is_valid target)
      then (0, ask_failed s Enums.invalid_enum)
      else (result, (needs_if (not (result == 1)) s, AskCall.unmap_buffer target ∷ []))

  -- `caching_client_glGetBufferPointervOES`
  unfoldable pub gl_get_buffer_pointer : State → ℕ → AskReply
  gl_get_buffer_pointer s target =
      if is_valid target
      then (s, AskCall.get_buffer_pointer target ∷ [])
      else ask_failed s Enums.invalid_enum

  abbrev pub are_valid : List ℕ → Bool
  are_valid [] = true
  are_valid (a ∷ r) = if is_valid a then are_valid r else false

  -- `caching_client_glDiscardFramebufferEXT`
  unfoldable pub gl_discard_framebuffer : State → ℕ → List ℕ → AskReply
  gl_discard_framebuffer s target attachments =
      if not (target == Enums.framebuffer)
      then ask_failed s Enums.invalid_enum
      else if are_valid attachments
      then (s, AskCall.discard_framebuffer target attachments ∷ [])
      else ask_failed s Enums.invalid_enum

-- `caching_client_glEGLImageTargetTexture2DOES`
unfoldable pub gl_egl_image_target_texture_2d : State → ℕ → AskReply
gl_egl_image_target_texture_2d s target =
    if target == Enums.texture_2d
    then (s, AskCall.egl_image_target target ∷ [])
    else ask_failed s Enums.invalid_enum

-- `caching_client_glGetFramebufferAttachmentParameteriv`, with what stood at `params` before and after
-- the driver's answer: where it is the same, there may have been an error.
unfoldable pub gl_get_framebuffer_attachment_parameter : State → ℕ → ℕ → ℕ → ℕ → ℕ → ℕ × AskReply
gl_get_framebuffer_attachment_parameter s target attachment pname original answer =
    if not (target == Enums.framebuffer) then (original, ask_failed s Enums.invalid_enum) else (
      answer,
      (
        needs_if (original == answer) s,
        AskCall.get_framebuffer_attachment_parameter target attachment pname ∷ [],
      ),
    )

-- `caching_client_glGetRenderbufferParameteriv`
unfoldable pub gl_get_renderbuffer_parameter : State → ℕ → ℕ → ℕ → ℕ → ℕ × AskReply
gl_get_renderbuffer_parameter s target pname original answer =
    if not (target == Enums.renderbuffer) then (original, ask_failed s Enums.invalid_enum) else (
      answer,
      (needs_if (original == answer) s, AskCall.get_renderbuffer_parameter target pname ∷ []),
    )

-- `caching_client_glGetUniformfv`; `feq` is the machine's == on floats.
unfoldable pub gl_get_uniformfv : (ℕ → ℕ → Bool) → State → ℕ → ℕ → ℕ → ℕ → ℕ × AskReply
gl_get_uniformfv feq s program location original answer =
    (answer, (needs_if (feq original answer) s, AskCall.get_uniformfv program location ∷ []))

-- `caching_client_glGetUniformiv`
unfoldable pub gl_get_uniformiv : State → ℕ → ℕ → ℕ → ℕ → ℕ × AskReply
gl_get_uniformiv s program location original answer =
    (answer, (needs_if (original == answer) s, AskCall.get_uniformiv program location ∷ []))

-- `caching_client_glMultiDrawArraysEXT` and `caching_client_glMultiDrawElementsEXT`
unfoldable pub gl_multi_draw : State → AskReply
gl_multi_draw s = ask_failed s Enums.invalid_operation

-- `caching_client_glDeleteFencesNV`
unfoldable pub gl_delete_fences : State → ℕ → AskReply
gl_delete_fences s n =
    if int_negative n || n == 0
    then ask_failed s Enums.invalid_value
    else (s, AskCall.delete_fences n ∷ [])

-- `caching_client_glGenFencesNV`
unfoldable pub gl_gen_fences : State → ℕ → AskReply
gl_gen_fences s n =
    if int_negative n || n == 0
    then ask_failed s Enums.invalid_value
    else (s, AskCall.gen_fences n ∷ [])

-- `caching_client_glTestFenceNV`, with the driver's answer, of which 0 is GL_FALSE.
unfoldable pub gl_test_fence : State → ℕ → ℕ → ℕ × AskReply
gl_test_fence s fence result = (result, (needs_if (result == 0) s, AskCall.test_fence fence ∷ []))

-- `caching_client_glGetFenceivNV`
unfoldable pub gl_get_fence : State → ℕ → ℕ → ℕ → ℕ → ℕ × AskReply
gl_get_fence s fence pname original answer =
    (answer, (needs_if (original == answer) s, AskCall.get_fence fence pname ∷ []))

-- `caching_client_glCoverageOperationNV`
unfoldable pub gl_coverage_operation : State → ℕ → AskReply
gl_coverage_operation s operation =
    if operation == Enums.coverage_all_fragments_nv
      || operation == Enums.coverage_edge_fragments_nv
      || operation == Enums.coverage_automatic_nv
    then (s, AskCall.coverage_operation operation ∷ [])
    else ask_failed s Enums.invalid_enum

-- What glGetError does after a query, for the driver's error: it asks the driver, or gives the client's error.
abbrev pub AsksDriver : State → ℕ → Type 0
AsksDriver s error =
    ((gl_get_error s error).0 ≡ error) × ((gl_get_error s error).1.1 ≡ Call.get_error ∷ [])

abbrev pub AnswersItself : State → State → ℕ → Type 0
AnswersItself s s' error =
    ((gl_get_error s' error).0 ≡ s.error) × ((gl_get_error s' error).1.1 ≡ [])

-- A query that the driver left unanswered makes glGetError ask the driver and give its error, even where the
-- client has one of its own: of a uniform, of an attachment, of a renderbuffer and of a fence, with the
-- right target.
pub unanswered_query_asks :
    (s : State) (a b c v error : ℕ)
    → AsksDriver (gl_get_uniformiv s a b v v).1.0 error
      × AsksDriver (gl_get_framebuffer_attachment_parameter s Enums.framebuffer a b v v).1.0 error
      × AsksDriver (gl_get_renderbuffer_parameter s Enums.renderbuffer c v v).1.0 error
      × AsksDriver (gl_get_fence s a b v v).1.0 error
unfolding gl_get_error gl_get_uniformiv gl_get_framebuffer_attachment_parameter
    gl_get_renderbuffer_parameter gl_get_fence
unanswered_query_asks s a b c v error = ground arith

-- A query that the driver answered with something else than what stood there leaves glGetError as it was: of
-- a uniform, of an attachment, of a renderbuffer and of a fence, with the right target, glGetError then
-- gives the client's own error and asks no driver, if it had not to ask before.
pub answered_query_silent :
    (s : State) (a b c v w error : ℕ)
    → s.need_get_error ≡ false
    → v ≢ w
    → AnswersItself s (gl_get_uniformiv s a b v w).1.0 error
      × AnswersItself s
          (gl_get_framebuffer_attachment_parameter s Enums.framebuffer a b v w).1.0
          error
      × AnswersItself s (gl_get_renderbuffer_parameter s Enums.renderbuffer c v w).1.0 error
      × AnswersItself s (gl_get_fence s a b v w).1.0 error
unfolding gl_get_error gl_get_uniformiv gl_get_framebuffer_attachment_parameter
    gl_get_renderbuffer_parameter gl_get_fence
answered_query_silent s a b c v w error calm n = ground (arith, calm, n)
