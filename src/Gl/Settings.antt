-- ===== src/Gl/Settings.antt =====
-- Single settings of src/client/caching_client.c that deserve a word: capabilities, and the settings
-- in which the cache and the driver part.
use gpu_proxy.Base.{
  ℕ, if◌then◌else◌, ◌∙◌, sym, ap, ◌≡◌, ◌≢◌, ◌==◌, Bool, true, false, [], ◌||◌, arith, ◌^◌, ◌-◌,
}
use gpu_proxy.Gl.Enums
use gpu_proxy.Gl.State.{Caps, Env, State, Call, init, byte_ones}
use gpu_proxy.Gl.Driver.{set_cap, apply, Driver}
use gpu_proxy.Gl.Coherent.{exec_all}
use gpu_proxy.Gl.Blending.{gl_blend_func_separate}
use gpu_proxy.Gl.Capabilities.{gl_enable, gl_disable, gl_is_enabled}
use gpu_proxy.Gl.Stencils.{gl_stencil_mask_separate}
use gpu_proxy.Gl.Binds.{gl_bind_framebuffer}

-- The capabilities that the cache holds.
abbrev pub is_cached : ℕ → Bool
is_cached c =
    c == Enums.blend
    || c == Enums.cull_face
    || c == Enums.depth_test
    || c == Enums.dither
    || c == Enums.polygon_offset_fill
    || c == Enums.sample_alpha_to_coverage
    || c == Enums.sample_coverage
    || c == Enums.scissor_test
    || c == Enums.stencil_test

-- The value of a capability among those of the cache; 0 for another.
abbrev cap_of : ℕ → Caps → ℕ
cap_of c k =
    if c == Enums.blend
    then k.blend
    else if c == Enums.cull_face
    then k.cull_face
    else if c == Enums.depth_test
    then k.depth_test
    else if c == Enums.dither
    then k.dither
    else if c == Enums.polygon_offset_fill
    then k.polygon_offset_fill
    else if c == Enums.sample_alpha_to_coverage
    then k.sample_alpha_to_coverage
    else if c == Enums.sample_coverage
    then k.sample_coverage
    else if c == Enums.scissor_test
    then k.scissor_test
    else if c == Enums.stencil_test
    then k.stencil_test
    else 0

gl_is_enabled-cap_of : (s : State) (c : ℕ) → (gl_is_enabled s c).0 ≡ cap_of c s.caps
unfolding gl_is_enabled
gl_is_enabled-cap_of s c = ground arith

caps-enable : (s : State) (c : ℕ) → (gl_enable s c).0.caps ≡ set_cap c 1 s.caps
unfolding gl_enable
caps-enable s c = ground arith

caps-disable : (s : State) (c : ℕ) → (gl_disable s c).0.caps ≡ set_cap c 0 s.caps
unfolding gl_disable
caps-disable s c = ground arith

cap_of-set_cap : (c v : ℕ) (k : Caps) → is_cached c ≡ true → cap_of c (set_cap c v k) ≡ v
cap_of-set_cap c v k h = ground arith

cap_of-set_cap_other : (c d v : ℕ) (k : Caps) → d ≢ c → cap_of d (set_cap c v k) ≡ cap_of d k
cap_of-set_cap_other c d v k n = ground arith

-- A capability of the cache that was enabled is reported as enabled, one that was disabled as
-- disabled; any other capability is reported as before.
pub enabled_after :
    (s : State) (c d : ℕ)
    → is_cached c ≡ true
    → d ≢ c
    → ((gl_is_enabled (gl_enable s c).0 c).0 ≡ 1)
      × ((gl_is_enabled (gl_disable s c).0 c).0 ≡ 0)
      × ((gl_is_enabled (gl_enable s c).0 d).0 ≡ (gl_is_enabled s d).0)
      × ((gl_is_enabled (gl_disable s c).0 d).0 ≡ (gl_is_enabled s d).0)
enabled_after s c d h n = (
  after _ c (caps-enable s c) ∙ cap_of-set_cap c 1 s.caps h,
  after _ c (caps-disable s c) ∙ cap_of-set_cap c 0 s.caps h,
  after _ d (caps-enable s c)
      ∙ cap_of-set_cap_other c d 1 s.caps n
      ∙ sym (gl_is_enabled-cap_of s d),
  after _ d (caps-disable s c)
      ∙ cap_of-set_cap_other c d 0 s.caps n
      ∙ sym (gl_is_enabled-cap_of s d),
)
  where
    after : (t : State) {k : Caps} (e : ℕ) → t.caps ≡ k → (gl_is_enabled t e).0 ≡ cap_of e k
    after t e p = gl_is_enabled-cap_of t e ∙ ap (cap_of e) p

-- A valid glBlendFuncSeparate whose alpha destination factor `e` differs from its RGB one `d`, and
-- that the cache does not hold already: the driver has `d` for RGB and `e` for alpha, the cache `e`
-- for RGB and for alpha what it held before.
pub blend_func_separate_parts :
    {env : Env} (drv : Driver env) (g : drv.Gl) (s : State) (f d a e : ℕ)
    → env.is_valid_src_blend_factor f ≡ true
    → env.is_valid_src_blend_factor a ≡ true
    → env.is_valid_dst_blend_factor d ≡ true
    → env.is_valid_dst_blend_factor e ≡ true
    → env.feq s.blending.dst_alpha (env.of_enum e) ≡ false
    → ((drv.view (exec_all drv (gl_blend_func_separate env s f d a e).1 g)).blending.dst_rgb
        ≡ env.of_enum d)
      × ((drv.view (exec_all drv (gl_blend_func_separate env s f d a e).1 g)).blending.dst_alpha
          ≡ env.of_enum e)
      × ((gl_blend_func_separate env s f d a e).0.blending.dst_rgb ≡ env.of_enum e)
      × ((gl_blend_func_separate env s f d a e).0.blending.dst_alpha ≡ s.blending.dst_alpha)
unfolding gl_blend_func_separate apply
blend_func_separate_parts {env} drv g s f d a e hf ha hd he n = (
  ground (arith, drv.exec_lem (Call.blend_func_separate f d a e) g),
  ground (arith, drv.exec_lem (Call.blend_func_separate f d a e) g),
  ground arith,
  ground arith,
)

-- A framebuffer bound to a target that is not a framebuffer target: the driver keeps the one it has
-- and the cache takes the new one.
pub framebuffer_parts :
    {env : Env} (drv : Driver env) (g : drv.Gl) (s : State) (target n : ℕ)
    → target ≢ Enums.framebuffer
    → ((drv.view (exec_all drv (gl_bind_framebuffer s target n).1 g)).framebuffer
        ≡ (drv.view g).framebuffer)
      × ((gl_bind_framebuffer s target n).0.bindings.framebuffer ≡ n)
unfolding gl_bind_framebuffer apply
framebuffer_parts {env} drv g s target n h =
    (ground (arith, drv.exec_lem (Call.bind_framebuffer target n) g), ground arith)

-- In a new state the stencil masks are `0x01010101`, so that to set this mask for front and back
-- sends nothing on; where the driver starts with all ones, as GL says, it keeps them.
pub initial_mask_not_sent :
    {env : Env} (drv : Driver env) (g : drv.Gl) (v i : ℕ)
    → env.is_valid_face_type Enums.front_and_back ≡ true
    → (drv.view g).stencil.front.writemask ≡ 2 ^ 32 - 1
    → ((gl_stencil_mask_separate env (init env v i) Enums.front_and_back byte_ones).1 ≡ [])
      × ((drv.view (
            exec_all drv
              (gl_stencil_mask_separate env (init env v i) Enums.front_and_back byte_ones).1
              g)).stencil.front.writemask
          ≡ 2 ^ 32 - 1)
unfolding gl_stencil_mask_separate init
initial_mask_not_sent {env} drv g v i h k = (ground arith, ground arith)
