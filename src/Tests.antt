-- ===== src/Tests.antt =====
-- The theorems at concrete inputs, by part of the program.
mod Fixtures
mod Buffers
mod Threads
mod Images
mod Objects
mod Settings
mod Lifecycles
mod Attributes
mod Caching
mod Shaders
mod Filters
mod Queries
mod Extensions
