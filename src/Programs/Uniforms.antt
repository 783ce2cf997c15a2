-- ===== src/Programs/Uniforms.antt =====
-- src/client/caching_client.c: the uniforms' values.
use gpu_proxy.Base.{ℕ, Bool, List, [], ◌∷◌, if◌then◌else◌}
use gpu_proxy.Gl.Enums
use gpu_proxy.Gl.State.{int_negative}
use gpu_proxy.Programs.{Programs, with_error}
use gpu_proxy.Programs.Locations.{has_location, cached_program}

-- The calls for uniforms, with the location, the values or their number and address.
pub data UniformCall : Type 0 where
  uniform1f uniform1i : ℕ → ℕ → UniformCall
  uniform2f uniform2i : ℕ → ℕ → ℕ → UniformCall
  uniform3f uniform3i : ℕ → ℕ → ℕ → ℕ → UniformCall
  uniform4f uniform4i : ℕ → ℕ → ℕ → ℕ → ℕ → UniformCall
  uniform1fv uniform2fv uniform3fv uniform4fv : ℕ → ℕ → ℕ → UniformCall
  uniform1iv uniform2iv uniform3iv uniform4iv : ℕ → ℕ → ℕ → UniformCall
  uniform_matrix2fv uniform_matrix3fv uniform_matrix4fv : ℕ → ℕ → Bool → ℕ → UniformCall

abbrev pub UniformReply : Type 0
UniformReply = Programs × List UniformCall

abbrev pub uniform_failed : Programs → ℕ → UniformReply
uniform_failed s error = ((with_error s error).0, [])

-- A call after `_synthesize_uniform_error`.
abbrev pub synthesize_uniform_error : Programs → ℕ → UniformCall → UniformReply
synthesize_uniform_error s location call =
    cached_program s s.current_program Enums.invalid_operation (uniform_failed s) (λ o.
      if has_location o.uniform_locations location
      then (s, call ∷ [])
      else uniform_failed s Enums.invalid_operation)

-- A call after `_synthesize_uniform_vector_error`.
abbrev pub synthesize_uniform_vector_error : Programs → ℕ → ℕ → UniformCall → UniformReply
synthesize_uniform_vector_error s location count call =
    if int_negative count
    then uniform_failed s Enums.invalid_value
    else synthesize_uniform_error s location call

unfoldable pub gl_uniform1f : Programs → ℕ → ℕ → UniformReply
gl_uniform1f s location v0 = synthesize_uniform_error s location (UniformCall.uniform1f location v0)

unfoldable pub gl_uniform2f : Programs → ℕ → ℕ → ℕ → UniformReply
gl_uniform2f s location v0 v1 =
    synthesize_uniform_error s location (UniformCall.uniform2f location v0 v1)

unfoldable pub gl_uniform3f : Programs → ℕ → ℕ → ℕ → ℕ → UniformReply
gl_uniform3f s location v0 v1 v2 =
    synthesize_uniform_error s location (UniformCall.uniform3f location v0 v1 v2)

unfoldable pub gl_uniform4f : Programs → ℕ → ℕ → ℕ → ℕ → ℕ → UniformReply
gl_uniform4f s location v0 v1 v2 v3 =
    synthesize_uniform_error s location (UniformCall.uniform4f location v0 v1 v2 v3)

unfoldable pub gl_uniform1i : Programs → ℕ → ℕ → UniformReply
gl_uniform1i s location v0 = synthesize_uniform_error s location (UniformCall.uniform1i location v0)

unfoldable pub gl_uniform2i : Programs → ℕ → ℕ → ℕ → UniformReply
gl_uniform2i s location v0 v1 =
    synthesize_uniform_error s location (UniformCall.uniform2i location v0 v1)

unfoldable pub gl_uniform3i : Programs → ℕ → ℕ → ℕ → ℕ → UniformReply
gl_uniform3i s location v0 v1 v2 =
    synthesize_uniform_error s location (UniformCall.uniform3i location v0 v1 v2)

unfoldable pub gl_uniform4i : Programs → ℕ → ℕ → ℕ → ℕ → ℕ → UniformReply
gl_uniform4i s location v0 v1 v2 v3 =
    synthesize_uniform_error s location (UniformCall.uniform4i location v0 v1 v2 v3)

unfoldable pub gl_uniform1fv : Programs → ℕ → ℕ → ℕ → UniformReply
gl_uniform1fv s location count value =
    synthesize_uniform_vector_error s location count (UniformCall.uniform1fv location count value)

unfoldable pub gl_uniform2fv : Programs → ℕ → ℕ → ℕ → UniformReply
gl_uniform2fv s location count value =
    synthesize_uniform_vector_error s location count (UniformCall.uniform2fv location count value)

unfoldable pub gl_uniform3fv : Programs → ℕ → ℕ → ℕ → UniformReply
gl_uniform3fv s location count value =
    synthesize_uniform_vector_error s location count (UniformCall.uniform3fv location count value)

unfoldable pub gl_uniform4fv : Programs → ℕ → ℕ → ℕ → UniformReply
gl_uniform4fv s location count value =
    synthesize_uniform_vector_error s location count (UniformCall.uniform4fv location count value)

unfoldable pub gl_uniform1iv : Programs → ℕ → ℕ → ℕ → UniformReply
gl_uniform1iv s location count value =
    synthesize_uniform_vector_error s location count (UniformCall.uniform1iv location count value)

unfoldable pub gl_uniform2iv : Programs → ℕ → ℕ → ℕ → UniformReply
gl_uniform2iv s location count value =
    synthesize_uniform_vector_error s location count (UniformCall.uniform2iv location count value)

unfoldable pub gl_uniform3iv : Programs → ℕ → ℕ → ℕ → UniformReply
gl_uniform3iv s location count value =
    synthesize_uniform_vector_error s location count (UniformCall.uniform3iv location count value)

unfoldable pub gl_uniform4iv : Programs → ℕ → ℕ → ℕ → UniformReply
gl_uniform4iv s location count value =
    synthesize_uniform_vector_error s location count (UniformCall.uniform4iv location count value)

unfoldable pub gl_uniform_matrix2fv : Programs → ℕ → ℕ → Bool → ℕ → UniformReply
gl_uniform_matrix2fv s location count transpose value =
    synthesize_uniform_vector_error s location count
      (UniformCall.uniform_matrix2fv location count transpose value)

unfoldable pub gl_uniform_matrix3fv : Programs → ℕ → ℕ → Bool → ℕ → UniformReply
gl_uniform_matrix3fv s location count transpose value =
    synthesize_uniform_vector_error s location count
      (UniformCall.uniform_matrix3fv location count transpose value)

unfoldable pub gl_uniform_matrix4fv : Programs → ℕ → ℕ → Bool → ℕ → UniformReply
gl_uniform_matrix4fv s location count transpose value =
    synthesize_uniform_vector_error s location count
      (UniformCall.uniform_matrix4fv location count transpose value)
