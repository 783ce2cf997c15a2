-- ===== src/Gl.antt =====
-- src/client/caching_client.c: the calls that set GL state, answered from the client's cache where
-- it already holds what they set.
pub mod Enums
pub mod State
pub mod Blending
pub mod Capabilities
pub mod Stencils
pub mod Rasters
pub mod Binds
pub mod Driver
pub mod Serve
pub mod Coherent
pub mod Same
pub mod Transparent
pub mod Errors
pub mod Asks
pub mod Settings
