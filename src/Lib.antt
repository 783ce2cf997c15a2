-- ===== src/Lib.antt =====
-- gpu-proxy: an OpenGL ES 2.0 and EGL library that stands between an application and the driver. A
-- client, in the application's thread, caches GL state and answers from it what it can; the calls
-- that it does send on are written as commands into a ring buffer, which a server thread reads and
-- executes on the real driver.
--
-- Parts, and what models them (paths from the root of the repository):
--   Ring: src/ring_buffer.c. `buffer_t` is `Buffer`; each `buffer_…` function has its name without
--     the prefix. Offsets count from the start of the mapping, `size_t` wraps at 2^64, and the file
--     mapped twice in a row is `peek` and `poke` at offsets taken modulo the length.
--   Link: src/client/client.c, src/server/server.c and src/command.c. The two threads are a step
--     relation on one state, `Step`: a step is one access to shared memory or a semaphore, and the
--     constructors of `Client` and `Server` are the places where the threads can stand.
--     The server reads a command's token after it gave the command's bytes back. A client that writes
--     over them before is the field `overwritten`, and the server then reads any number; `IsIntact`
--     is of the runs in which this does not happen.
--   Names: src/client/name_handler.c, the names of objects that the client hands out.
--   Mapping: src/server/server.c, the handlers that create and delete objects, and the table from
--     the client's names to the driver's.
--   Displays: src/egl_state.c and src/types_private.c, the displays with their surfaces and
--     contexts, and which of them may be made current together.
--   Image: src/util/gles2_utils.c and src/command_custom.c, the size of an image and the copies of
--     its rows into a command. An `int` is its 32-bit pattern, and products and sums wrap.
--   Gl: src/client/caching_client.c and src/egl_state.h, the cached settings. A handler
--     `caching_client_glX` is `gl_x`; it takes the state and gives the new state and the calls sent
--     to the super class. `Serve` is the dispatch table over them, `Driver` the driver's side.
--   Contexts: src/client/caching_client.c and src/egl_state.c, the states of the contexts, which of
--     them is current, and how they go. Pointers to states are addresses, a read through an address
--     that no state has is the outcome `dangling`; `caching_client_eglX` is `egl_x`.
--   Attribs: src/client/caching_client.c, the vertex attributes of a state, the linked list of those
--     that are enabled, and the arrays that are copied into the buffer before a draw call. Pointers
--     to attributes are indices into their array.
--   Caches: src/client/caching_client.c and src/egl_state.c, the cached textures, framebuffers and
--     renderbuffers: creation, binding, attachment, deletion, and the calls that clear. A read through
--     NULL is `none`. A state that shares its caches with another uses that one's, so one set stands
--     for both.
--   Programs: src/client/caching_client.c, src/egl_state.c and src/program.c, the cached programs,
--     from glCreateProgram to their removal. A lookup by name stands for the pointer that it gives.
--     Programs/Locations, Programs/Uniforms and Programs/Sources are the locations that a program's
--     record caches, the calls for uniforms, and glShaderSource; a cache is a list of pairs.
--   Textures: src/client/caching_client.c, the parameters of textures, glGetString, and what the
--     calls that load images keep. The static default texture is a field of the state.
--     Attribs/Values is glVertexAttrib and the queries of vertex attributes, Attribs/Bound the array
--     objects, Caches/Storage the storages of renderbuffers, Gl/Asks the calls that are only checked.
--   Base: shared names, tests on numbers, lists. Tests: the theorems at concrete inputs.
--
-- The parts meet where a client's call is sent on: Gl gives the calls, Link the order in which
-- commands are executed, Ring the bytes that they travel in, Mapping the names that they carry.
--
-- Parameters. The driver is a record `Driver` with the documented effect of each call; the hash
-- table of src/util/hash.c, a copy of Mesa's, is a record `HashTable`, and `ObjectTable` for
-- tables of objects, with its laws, of which none finds the key 0, for which its insertion
-- asserts; the machine's floats and the generated checks of enumerants are the records `Env`,
-- `TexEnv` and `ValueEnv`; the hash of a name is a function; the sizes of the generated commands
-- are a function or a record; vmaxq of arm_neon.h is a function on lanes; what the driver and
-- `malloc` answer is an argument. Loops are structural but two. `destroy_state` has fuel for its
-- recursion along shared contexts, as much as there are states and two more, which is enough. The
-- walks along enabled attributes take fuel as an argument, since such a list may have no end; they
-- give `none` where it runs out. For a list that ends, fuel that is longer by two is enough for
-- the setup of a draw call (Attribs/Ends).
--
-- Not modelled: the calls that the generated client sends on by itself, an array of attributes that
-- has outgrown its 32 elements, the start of the threads, the shader translator, and the code that
-- src/generated/build_gles2_cmd_buffer.py writes. `malloc` and `mmap` succeed.
pub mod Base
pub mod Ring
pub mod Link
pub mod Names
pub mod Programs
pub mod Textures
pub mod Image
pub mod Gl
pub mod Displays
pub mod Contexts
pub mod Attribs
pub mod Caches
pub mod Mapping
pub mod Tests
