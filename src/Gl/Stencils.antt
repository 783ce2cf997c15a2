-- ===== src/Gl/Stencils.antt =====
-- src/client/caching_client.c: glStencilFuncSeparate, glStencilMaskSeparate, glStencilOpSeparate, and
-- the calls for both faces, which go through them.
use gpu_proxy.Base.{ℕ, ◌==◌, Bool, not, if◌then◌else◌, ◌&&◌, ◌||◌}
use gpu_proxy.Gl.Enums
use gpu_proxy.Gl.State.{Env, State, Face, Call, Reply, keep, send, fails}

module _ (env : Env) (s : State) where
  abbrev front : Face
  front = s.stencil.front

  abbrev back : Face
  back = s.stencil.back

  -- The new faces, and the call if they differ from the old.
  abbrev update : Bool → Face → Face → Call → Reply
  update unchanged f b c =
      if unchanged then keep s else send (record s { stencil = record { front = f; back = b } }) c

  abbrev has_func : Face → ℕ → ℕ → ℕ → Bool
  has_func f func ref mask = func == f.func && ref == f.ref && mask == f.value_mask

  abbrev with_func : Face → ℕ → ℕ → ℕ → Face
  with_func f func ref mask = record f { func = func; ref = ref; value_mask = mask }

  unfoldable pub gl_stencil_func_separate : ℕ → ℕ → ℕ → ℕ → Reply
  gl_stencil_func_separate face func ref mask =
      if not (env.is_valid_face_type face)
      then fails s Enums.invalid_enum
      else if not (env.is_valid_cmp_function func)
      then fails s Enums.invalid_enum
      else if face == Enums.front
      then update (has_func front func ref mask) (with_func front func ref mask) back call
      else if face == Enums.back
      then update (has_func back func ref mask) front (with_func back func ref mask) call
      else update (has_func back func ref mask && has_func front func ref mask)
          (with_func front func ref mask) (with_func back func ref mask) call
    where
      call : Call
      call = Call.stencil_func_separate face func ref mask

  unfoldable pub gl_stencil_func : ℕ → ℕ → ℕ → Reply
  unfolding gl_stencil_func_separate
  gl_stencil_func func ref mask = gl_stencil_func_separate Enums.front_and_back func ref mask

  unfoldable pub gl_stencil_mask_separate : ℕ → ℕ → Reply
  gl_stencil_mask_separate face mask =
      if not (env.is_valid_face_type face)
      then fails s Enums.invalid_enum
      else if face == Enums.front
      then update (mask == front.writemask) (record front { writemask = mask }) back call
      else if face == Enums.back
      then update (mask == back.writemask) front (record back { writemask = mask }) call
      else update (mask == back.writemask && mask == front.writemask)
          (record front { writemask = mask }) (record back { writemask = mask }) call
    where
      call : Call
      call = Call.stencil_mask_separate face mask

  unfoldable pub gl_stencil_mask : ℕ → Reply
  unfolding gl_stencil_mask_separate
  gl_stencil_mask mask = gl_stencil_mask_separate Enums.front_and_back mask

  abbrev has_op : Face → ℕ → ℕ → ℕ → Bool
  has_op f sfail dpfail dppass =
      sfail == f.fail && dpfail == f.pass_depth_fail && dppass == f.pass_depth_pass

  abbrev with_op : Face → ℕ → ℕ → ℕ → Face
  with_op f sfail dpfail dppass = record f {
    fail = sfail;
    pass_depth_fail = dpfail;
    pass_depth_pass = dppass;
  }

  unfoldable pub gl_stencil_op_separate : ℕ → ℕ → ℕ → ℕ → Reply
  gl_stencil_op_separate face sfail dpfail dppass =
      if not (env.is_valid_face_type face)
        || not (env.is_valid_stencil_op sfail)
        || not (env.is_valid_stencil_op dpfail)
        || not (env.is_valid_stencil_op dppass)
      then fails s Enums.invalid_enum
      else if face == Enums.front
      then update (has_op front sfail dpfail dppass) (with_op front sfail dpfail dppass) back call
      else if face == Enums.back
      then update (has_op back sfail dpfail dppass) front (with_op back sfail dpfail dppass) call
      else update (has_op front sfail dpfail dppass && has_op back sfail dpfail dppass)
          (with_op front sfail dpfail dppass) (with_op back sfail dpfail dppass) call
    where
      call : Call
      call = Call.stencil_op_separate face sfail dpfail dppass

  unfoldable pub gl_stencil_op : ℕ → ℕ → ℕ → Reply
  unfolding gl_stencil_op_separate
  gl_stencil_op sfail dpfail dppass =
      gl_stencil_op_separate Enums.front_and_back sfail dpfail dppass
