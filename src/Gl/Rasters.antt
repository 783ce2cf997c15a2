-- ===== src/Gl/Rasters.antt =====
-- src/client/caching_client.c: glColorMask, glCullFace, glDepthFunc, glDepthMask, glDepthRangef,
-- glFrontFace, glHint, glLineWidth, glPolygonOffset, glSampleCoverage, glScissor, glViewport,
-- glPixelStorei and glGetError.
use gpu_proxy.Base.{ℕ, ◌==◌, true, false, not, if◌then◌else◌, ◌&&◌, ◌||◌}
use gpu_proxy.Gl.Enums
use gpu_proxy.Gl.State.{
  Env, State, Raster, Pixel, Quad, quad_eq, int_negative, Call, Reply, keep, send, fails,
}

module _ (env : Env) (s : State) where
  abbrev r : Raster
  r = s.raster

  abbrev p : Pixel
  p = s.pixel

  abbrev with_raster : Raster → State
  with_raster r' = record s { raster = r' }

  abbrev with_pixel : Pixel → State
  with_pixel p' = record s { pixel = p' }

  unfoldable pub gl_color_mask : Quad → Reply
  gl_color_mask q =
      if quad_eq ◌==◌ r.color_writemask q
      then keep s
      else send (with_raster (record r { color_writemask = q })) (Call.color_mask q)

  unfoldable pub gl_cull_face : ℕ → Reply
  gl_cull_face mode =
      if r.cull_face_mode == mode
      then keep s
      else if not (env.is_valid_face_type mode)
      then fails s Enums.invalid_enum
      else send (with_raster (record r { cull_face_mode = mode })) (Call.cull_face mode)

  unfoldable pub gl_depth_func : ℕ → Reply
  gl_depth_func func =
      if r.depth_func == func
      then keep s
      else if not (env.is_valid_cmp_function func)
      then fails s Enums.invalid_enum
      else send (with_raster (record r { depth_func = func })) (Call.depth_func func)

  unfoldable pub gl_depth_mask : ℕ → Reply
  gl_depth_mask flag =
      if r.depth_writemask == flag
      then keep s
      else send (with_raster (record r { depth_writemask = flag })) (Call.depth_mask flag)

  unfoldable pub gl_depth_rangef : ℕ → ℕ → Reply
  gl_depth_rangef near far =
      if env.feq r.depth_range_near near && env.feq r.depth_range_far far
      then keep s
      else send (with_raster (record r { depth_range_near = near; depth_range_far = far }))
          (Call.depth_range near far)

  unfoldable pub gl_front_face : ℕ → Reply
  gl_front_face mode =
      if r.front_face == mode
      then keep s
      else if not (mode == Enums.ccw || mode == Enums.cw)
      then fails s Enums.invalid_enum
      else send (with_raster (record r { front_face = mode })) (Call.front_face mode)

  -- A hint for another target goes through uncached, and the driver's error will be asked for.
  unfoldable pub gl_hint : ℕ → ℕ → Reply
  gl_hint target mode =
      if target == Enums.generate_mipmap_hint && r.generate_mipmap_hint == mode
      then keep s
      else if not (env.is_valid_hint_mode mode)
      then fails s Enums.invalid_enum
      else if target == Enums.generate_mipmap_hint
      then send (with_raster (record r { generate_mipmap_hint = mode })) (Call.hint target mode)
      else send (record s { need_get_error = true }) (Call.hint target mode)

  unfoldable pub gl_line_width : ℕ → Reply
  gl_line_width width =
      if env.feq r.line_width width
      then keep s
      else if env.float_negative width
      then fails s Enums.invalid_value
      else send (with_raster (record r { line_width = width })) (Call.line_width width)

  unfoldable pub gl_polygon_offset : ℕ → ℕ → Reply
  gl_polygon_offset factor units =
      if env.feq r.polygon_offset_factor factor && env.feq r.polygon_offset_units units
      then keep s
      else send
          (with_raster (record r { polygon_offset_factor = factor; polygon_offset_units = units }))
          (Call.polygon_offset factor units)

  unfoldable pub gl_sample_coverage : ℕ → ℕ → Reply
  gl_sample_coverage value invert =
      if env.feq value r.sample_coverage_value && invert == r.sample_coverage_invert
      then keep s
      else send
          (with_raster
            (record r { sample_coverage_invert = invert; sample_coverage_value = value }))
          (Call.sample_coverage value invert)

  unfoldable pub gl_scissor : Quad → Reply
  gl_scissor q =
      if quad_eq ◌==◌ q r.scissor_box
      then keep s
      else if int_negative q.c2 || int_negative q.c3
      then fails s Enums.invalid_value
      else send (with_raster (record r { scissor_box = q })) (Call.scissor q)

  unfoldable pub gl_viewport : Quad → Reply
  gl_viewport q =
      if quad_eq ◌==◌ r.viewport q
      then keep s
      else if int_negative q.c2 || int_negative q.c3
      then fails s Enums.invalid_value
      else send (with_raster (record r { viewport = q })) (Call.viewport q)

  -- The skips and the row length stay on the client's side.
  unfoldable pub gl_pixel_storei : ℕ → ℕ → Reply
  gl_pixel_storei pname param =
      if (pname == Enums.pack_alignment && p.pack_alignment == param)
        || (pname == Enums.unpack_alignment && p.unpack_alignment == param)
        || (pname == Enums.unpack_row_length && p.unpack_row_length == param)
        || (pname == Enums.unpack_skip_rows && p.unpack_skip_rows == param)
        || (pname == Enums.unpack_skip_pixels && p.unpack_skip_pixels == param)
      then keep s
      else if not (env.is_valid_pixel_store_alignment param)
          && (pname == Enums.pack_alignment || pname == Enums.unpack_alignment)
      then fails s Enums.invalid_value
      else if int_negative param
      then fails s Enums.invalid_value
      else if pname == Enums.pack_alignment
      then send (with_pixel (record p { pack_alignment = param })) (Call.pixel_store pname param)
      else if pname == Enums.unpack_alignment
      then send (with_pixel (record p { unpack_alignment = param })) (Call.pixel_store pname param)
      else if pname == Enums.unpack_row_length
      then keep (with_pixel (record p { unpack_row_length = param }))
      else if pname == Enums.unpack_skip_rows
      then keep (with_pixel (record p { unpack_skip_rows = param }))
      else if pname == Enums.unpack_skip_pixels
      then keep (with_pixel (record p { unpack_skip_pixels = param }))
      else fails s Enums.invalid_value

-- `glGetError`, with what the driver would answer: the answer, the new state, the calls sent on.
unfoldable pub gl_get_error : State → ℕ → ℕ × Reply
gl_get_error s driver_error =
    if s.need_get_error
    then (
      driver_error,
      send (record s { need_get_error = false; error = Enums.no_error }) Call.get_error,
    )
    else (s.error, keep (record s { error = Enums.no_error }))
