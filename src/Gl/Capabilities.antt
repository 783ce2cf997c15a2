-- ===== src/Gl/Capabilities.antt =====
-- src/client/caching_client.c: glSetCap, behind glEnable and glDisable, and glIsEnabled.
use gpu_proxy.Base.{ℕ, ◌==◌, Bool, true, false, if◌then◌else◌}
use gpu_proxy.Gl.Enums
use gpu_proxy.Gl.State.{State, Caps, Call, Reply, keep, send, set_error}

module _ (s : State) where
  abbrev caps : Caps
  caps = s.caps

  -- A capability that the cache holds: its old value and the state with the new one.
  abbrev set_if : ℕ → ℕ → Caps → State × Bool
  set_if old value new = if old == value then (s, false) else (record s { caps = new }, true)

  -- The switch: the state after it, and `needs_call`.
  pub set_cap : ℕ → ℕ → State × Bool
  set_cap cap value =
      if cap == Enums.blend
      then set_if caps.blend value (record caps { blend = value })
      else if cap == Enums.cull_face
      then set_if caps.cull_face value (record caps { cull_face = value })
      else if cap == Enums.depth_test
      then set_if caps.depth_test value (record caps { depth_test = value })
      else if cap == Enums.dither
      then set_if caps.dither value (record caps { dither = value })
      else if cap == Enums.polygon_offset_fill
      then set_if caps.polygon_offset_fill value (record caps { polygon_offset_fill = value })
      else if cap == Enums.sample_alpha_to_coverage
      then set_if caps.sample_alpha_to_coverage value
          (record caps { sample_alpha_to_coverage = value })
      else if cap == Enums.sample_coverage
      then set_if caps.sample_coverage value (record caps { sample_coverage = value })
      else if cap == Enums.scissor_test
      then set_if caps.scissor_test value (record caps { scissor_test = value })
      else if cap == Enums.stencil_test
      then set_if caps.stencil_test value (record caps { stencil_test = value })
      else (s, true)

  unfoldable pub gl_set_cap : ℕ → ℕ → Reply
  unfolding set_cap
  gl_set_cap cap value =
      let (s', needs_call) = set_cap cap value in
      if needs_call
      then send s' (if value == 0 then Call.disable cap else Call.enable cap)
      else keep s'

  unfoldable pub gl_enable : ℕ → Reply
  unfolding gl_set_cap
  gl_enable cap = gl_set_cap cap 1

  unfoldable pub gl_disable : ℕ → Reply
  unfolding gl_set_cap
  gl_disable cap = gl_set_cap cap 0

  -- The answer, and the state, in which an unknown capability leaves an error.
  unfoldable pub gl_is_enabled : ℕ → ℕ × State
  gl_is_enabled cap =
      if cap == Enums.blend
      then (caps.blend, s)
      else if cap == Enums.cull_face
      then (caps.cull_face, s)
      else if cap == Enums.depth_test
      then (caps.depth_test, s)
      else if cap == Enums.dither
      then (caps.dither, s)
      else if cap == Enums.polygon_offset_fill
      then (caps.polygon_offset_fill, s)
      else if cap == Enums.sample_alpha_to_coverage
      then (caps.sample_alpha_to_coverage, s)
      else if cap == Enums.sample_coverage
      then (caps.sample_coverage, s)
      else if cap == Enums.scissor_test
      then (caps.scissor_test, s)
      else if cap == Enums.stencil_test
      then (caps.stencil_test, s)
      else (0, set_error s Enums.invalid_enum)
