-- ===== src/Attribs/Calls.antt =====
-- src/client/caching_client.c: glDrawArrays and glDrawElements.
use gpu_proxy.Base.{
  ℕ, ◌+◌, ◌%◌, ◌^◌, Option, none, some, Bool, not, ◌==◌, ◌&&◌, ◌||◌, if◌then◌else◌,
}
use gpu_proxy.Image.Enums as Types
use gpu_proxy.Gl.Enums
use gpu_proxy.Gl.State.{set_error, int_negative}
use gpu_proxy.Caches.{Framebuffer, is_incomplete}
use gpu_proxy.Attribs.Handlers.{Arrays}
use gpu_proxy.Attribs.Elements.{Indices, get_elements_count, calculate_index_array_size}
use gpu_proxy.Attribs.Draws.{
  client_has_vertex_attrib_array_set, word_of_int, CommandSizes, Setup, setup_vertex_attrib_pointer,
}

-- Where a draw command finds its indices: none needed, the program's own pointer, a place in the
-- buffer, or memory from malloc.
pub data IndicesAt : Type 0 where
  no_indices : IndicesAt
  passed : ℕ → IndicesAt
  in_buffer : ℕ → IndicesAt
  allocated : IndicesAt

-- The draw command. Its place is counted as in the setup, `none` for one of its own.
pub record DrawCommand : Type 0 where
  pub place : Option ℕ
  pub size : ℕ
  pub indices : IndicesAt

-- A draw call: nothing is sent, or what the setup sent and the draw command. `endless` is a loop that
-- does not end within the fuel.
pub data Draw : Type 0 where
  endless : Draw
  skipped : Arrays → Draw
  drawn : Arrays → Option Setup → DrawCommand → Draw

abbrev pub failed : Arrays → ℕ → Draw
failed s error = Draw.skipped (record s { gl = set_error s.gl error })

-- `is_valid_draw_mode` stands for a generated function, `framebuffer_at` for the lookup in the cache.
module _ (sizes : CommandSizes) (buffer_size fuel : ℕ) (is_valid_draw_mode : ℕ → Bool)
    (framebuffer_at : ℕ → Option Framebuffer) where
  -- Nothing to draw from, or a framebuffer known to be incomplete.
  abbrev pub nothing_set : Arrays → Bool
  nothing_set s = s.vertex_array_binding == 0 && not (client_has_vertex_attrib_array_set s)

  abbrev pub cannot_draw : Arrays → Bool
  cannot_draw s =
      not (s.gl.bindings.framebuffer == 0)
      && is_incomplete (framebuffer_at s.gl.bindings.framebuffer)

  abbrev pub arrays_command : Option ℕ → ℕ → DrawCommand
  arrays_command none array_size = record {
    place = none;
    size = sizes.draw_arrays;
    indices = IndicesAt.no_indices;
  }
  arrays_command (some at) array_size = record {
    place = some at;
    size = (sizes.draw_arrays + array_size) % 2 ^ 64;
    indices = IndicesAt.no_indices;
  }

  abbrev pub arrays_drawn : Arrays → Option Setup → Draw
  arrays_drawn s none = Draw.endless
  arrays_drawn s (some r) = Draw.drawn s (some r) (arrays_command r.command r.pass.array_size)

  -- `caching_client_glDrawArrays`
  unfoldable pub gl_draw_arrays : Arrays → ℕ → ℕ → ℕ → Draw
  gl_draw_arrays s mode first count =
      let true_count = word_of_int (
        if not (int_negative first) && not (first == 0) then (first + count) % 2 ^ 32 else count) in
      if not (is_valid_draw_mode mode)
      then failed s Enums.invalid_enum
      else if int_negative count || int_negative first
      then failed s Enums.invalid_value
      else if count == 0
      then Draw.skipped s
      else if nothing_set s
      then Draw.skipped s
      else if cannot_draw s
      then failed s Enums.invalid_framebuffer_operation
      else if not (s.vertex_array_binding == 0)
      then Draw.drawn s none (arrays_command none 0)
      else arrays_drawn s
          (setup_vertex_attrib_pointer sizes buffer_size fuel s.vertex_attribs true_count 0)

  abbrev pub elements_command : Option ℕ → ℕ → ℕ → DrawCommand
  elements_command none array_size index_array_size = record {
    place = none;
    size = sizes.draw_elements;
    indices = IndicesAt.allocated;
  }
  elements_command (some at) array_size index_array_size = record {
    place = some at;
    size = (sizes.draw_elements + array_size + index_array_size) % 2 ^ 64;
    indices = IndicesAt.in_buffer (at + sizes.draw_elements + array_size);
  }

  abbrev pub elements_drawn : Arrays → ℕ → Option Setup → Draw
  elements_drawn s index_array_size none = Draw.endless
  elements_drawn s index_array_size (some r) =
      Draw.drawn s (some r) (elements_command r.command r.pass.array_size index_array_size)

  -- `caching_client_glDrawElements`: the types it knows, with `supports_element_index_uint`.
  abbrev pub is_index_type : Bool → ℕ → Bool
  is_index_type with_uint type =
      type == Types.unsigned_byte
      || type == Types.unsigned_short
      || (with_uint && type == Types.unsigned_int)

  -- Its arguments are the state, whether the driver has unsigned int indices, mode, count, type, the
  -- pointer to the indices, and what stands there.
  unfoldable pub gl_draw_elements : Arrays → Bool → ℕ → ℕ → ℕ → ℕ → Indices → Draw
  gl_draw_elements s with_uint mode count type pointer indices =
      let bound = not (s.gl.bindings.element_array_buffer == 0) in
      let copy_indices = s.vertex_array_binding == 0 && not bound in
      let index_array_size = calculate_index_array_size type count in
      if not (is_valid_draw_mode mode)
      then failed s Enums.invalid_enum
      else if not (is_index_type with_uint type)
      then failed s Enums.invalid_enum
      else if int_negative count
      then failed s Enums.invalid_value
      else if count == 0
      then Draw.skipped s
      else if nothing_set s
      then Draw.skipped s
      else if cannot_draw s
      then failed s Enums.invalid_framebuffer_operation
      else if (not bound && pointer == 0) || (copy_indices && index_array_size == 0)
      then Draw.skipped s
      else if copy_indices
      then elements_drawn s index_array_size (
          setup_vertex_attrib_pointer sizes buffer_size fuel s.vertex_attribs
            (get_elements_count type indices count) index_array_size)
      else Draw.drawn s none
          (record { place = none; size = sizes.draw_elements; indices = IndicesAt.passed pointer })
