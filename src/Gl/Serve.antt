-- ===== src/Gl/Serve.antt =====
-- The caching client's dispatch table, for the calls of the modules above.
use gpu_proxy.Gl.Enums
use gpu_proxy.Gl.State.{Env, State, Call, Reply}
use gpu_proxy.Gl.Blending.{
  gl_blend_color, gl_blend_equation, gl_blend_equation_separate, gl_blend_func,
  gl_blend_func_separate,
}
use gpu_proxy.Gl.Capabilities.{gl_enable, gl_disable}
use gpu_proxy.Gl.Stencils.{
  gl_stencil_func_separate, gl_stencil_mask_separate, gl_stencil_op_separate,
}
use gpu_proxy.Gl.Rasters.{
  gl_color_mask, gl_cull_face, gl_depth_func, gl_depth_mask, gl_depth_rangef, gl_front_face,
  gl_hint, gl_line_width, gl_polygon_offset, gl_sample_coverage, gl_scissor, gl_viewport,
  gl_pixel_storei, gl_get_error,
}
use gpu_proxy.Gl.Binds.{
  gl_active_texture, gl_bind_buffer, gl_bind_framebuffer, gl_bind_renderbuffer,
}

-- What the entry in the table does, for each call that an application makes; for glGetError the
-- driver is taken to have no error.
unfoldable pub serve : Env → State → Call → Reply
serve env s (Call.active_texture t) = gl_active_texture s t
serve env s (Call.bind_buffer t n) = gl_bind_buffer s t n
serve env s (Call.bind_framebuffer t n) = gl_bind_framebuffer s t n
serve env s (Call.bind_renderbuffer t n) = gl_bind_renderbuffer s t n
serve env s (Call.blend_color q) = gl_blend_color env s q
serve env s (Call.blend_equation m) = gl_blend_equation env s m
serve env s (Call.blend_equation_separate m n) = gl_blend_equation_separate env s m n
serve env s (Call.blend_func f d) = gl_blend_func env s f d
serve env s (Call.blend_func_separate f d g e) = gl_blend_func_separate env s f d g e
serve env s (Call.color_mask q) = gl_color_mask env s q
serve env s (Call.cull_face m) = gl_cull_face env s m
serve env s (Call.depth_func f) = gl_depth_func env s f
serve env s (Call.depth_mask b) = gl_depth_mask env s b
serve env s (Call.front_face m) = gl_front_face env s m
serve env s (Call.line_width w) = gl_line_width env s w
serve env s (Call.depth_range n f) = gl_depth_rangef env s n f
serve env s (Call.polygon_offset f u) = gl_polygon_offset env s f u
serve env s (Call.sample_coverage v i) = gl_sample_coverage env s v i
serve env s (Call.hint t m) = gl_hint env s t m
serve env s (Call.pixel_store p n) = gl_pixel_storei env s p n
serve env s (Call.enable c) = gl_enable s c
serve env s (Call.disable c) = gl_disable s c
serve env s (Call.scissor q) = gl_scissor env s q
serve env s (Call.viewport q) = gl_viewport env s q
serve env s (Call.stencil_func_separate face f n m) = gl_stencil_func_separate env s face f n m
serve env s (Call.stencil_mask_separate face m) = gl_stencil_mask_separate env s face m
serve env s (Call.stencil_op_separate face f z p) = gl_stencil_op_separate env s face f z p
serve env s Call.get_error = (gl_get_error s Enums.no_error).1
