-- ===== src/Programs.antt =====
-- src/client/caching_client.c, src/egl_state.c and src/program.c: the cached programs and shaders.
pub mod Lifetimes
pub mod Locations
pub mod Uniforms
pub mod Answers
pub mod Learned
pub mod Kept
pub mod Told
pub mod Sources
use gpu_proxy.Base.{
  ℕ, Option, none, some, Bool, true, false, not, List, [], ◌∷◌, ◌++◌, ◌==◌, ◌&&◌, if◌then◌else◌,
}
use gpu_proxy.Gl.Enums
use gpu_proxy.Gl.State.{State, set_error}
use gpu_proxy.Names.{NameHandler, alloc_names}

-- `shader_object_t` and `program_t`; the caches of locations are by the hashes of the names.
pub record ShaderObject : Type 0 where
  pub id : ℕ
  pub is_program : Bool
  pub mark_for_deletion : Bool
  pub attrib_locations : List (ℕ × ℕ)
  pub uniform_locations : List (ℕ × ℕ)

-- The part of `egl_state_t` that these calls use, with the list that
-- `egl_state_get_shader_object_list` answers with.
pub record Programs : Type 0 where
  pub gl : State
  pub objects : List ShaderObject
  pub names : NameHandler
  pub current_program : ℕ

-- The calls sent on.
pub data ProgramCall : Type 0 where
  create_program : ℕ → ProgramCall
  create_shader : ℕ → ℕ → ProgramCall
  delete_program use_program link_program : ℕ → ProgramCall

abbrev pub ProgramReply : Type 0
ProgramReply = Programs × List ProgramCall

-- `program_new`
abbrev pub program_new : ℕ → ShaderObject
program_new id = record {
  id = id;
  is_program = true;
  mark_for_deletion = false;
  attrib_locations = [];
  uniform_locations = [];
}

-- What `egl_state_create_cached_shader` appends; a shader has only the first two fields.
abbrev pub shader_new : ℕ → ShaderObject
shader_new id = record (program_new id) { is_program = false }

-- `egl_state_lookup_cached_shader_object`
abbrev pub lookup_object : List ShaderObject → ℕ → Option ShaderObject
lookup_object [] id = none
lookup_object (o ∷ r) id = if o.id == id then some o else lookup_object r id

-- `egl_state_destroy_cached_shader_object`, for the object that a lookup of its name found.
abbrev pub destroy_object : List ShaderObject → ℕ → List ShaderObject
destroy_object [] id = []
destroy_object (o ∷ r) id = if o.id == id then r else o ∷ destroy_object r id

-- A write through the pointer that a lookup gave.
abbrev pub change_object : (ShaderObject → ShaderObject) → List ShaderObject → ℕ → List ShaderObject
change_object f [] id = []
change_object f (o ∷ r) id = if o.id == id then f o ∷ r else o ∷ change_object f r id

abbrev pub with_error : Programs → ℕ → ProgramReply
with_error s error = (record s { gl = set_error s.gl error }, [])

-- `egl_state_lookup_cached_program_err`, for what the lookup found: the error, or no error.
abbrev pub program_error : Option ShaderObject → ℕ → Option ℕ
program_error none error = some error
program_error (some o) error = if o.is_program then none else some Enums.invalid_operation

abbrev pub created :
    (ℕ → ProgramCall)
    → Programs
    → (ℕ → ShaderObject)
    → Option (List ℕ × NameHandler)
    → Option (ℕ × ProgramReply)
created call s make none = none
created call s make (some ([], h)) = none
created call s make (some (name ∷ r, h)) = some (
  name,
  (
    (if name == 0
        then record s { gl = record s.gl { need_get_error = true }; names = h }
        else record s { objects = s.objects ++ (make name ∷ []); names = h }),
    call name ∷ [],
  ),
)

-- `caching_client_glCreateProgram`; `none` where the name handler has no name to give.
unfoldable pub gl_create_program : Programs → Option (ℕ × ProgramReply)
gl_create_program s = created ProgramCall.create_program s program_new (alloc_names 1 s.names)

-- `caching_client_glCreateShader`, with the generated check of the type.
unfoldable pub gl_create_shader : (ℕ → Bool) → Programs → ℕ → Option (ℕ × ProgramReply)
gl_create_shader is_valid_shader_type s shader_type =
    if is_valid_shader_type shader_type
    then created (ProgramCall.create_shader shader_type) s shader_new (alloc_names 1 s.names)
    else some (0, with_error s Enums.invalid_enum)

-- `caching_client_glDeleteProgram`
unfoldable pub gl_delete_program : Programs → ℕ → ProgramReply
gl_delete_program s program = elim (lookup_object s.objects program) [
  | none ↦ with_error s Enums.invalid_value
  | some o ↦ (
    record s {
      objects =
          if o.id == s.current_program
          then change_object (λ p. record p { mark_for_deletion = true }) s.objects program
          else destroy_object s.objects program;
    },
    ProgramCall.delete_program program ∷ [],
  )
]

-- The end of glUseProgram: the program that was current goes if it was marked.
abbrev pub leave_program : Option ShaderObject → List ShaderObject → ℕ → List ShaderObject
leave_program none objects current = objects
leave_program (some o) objects current =
    if o.mark_for_deletion then destroy_object objects current else objects

-- `caching_client_glUseProgram`
unfoldable pub gl_use_program : Programs → ℕ → ProgramReply
gl_use_program s program =
    if s.current_program == program
    then (s, [])
    else elim (if program == 0
        then none
        else program_error (lookup_object s.objects program) Enums.invalid_value) [
          | some error ↦ with_error s error
          | none ↦ (
            record s {
              objects =
                  leave_program (lookup_object s.objects s.current_program) s.objects
                    s.current_program;
              current_program = program;
            },
            ProgramCall.use_program program ∷ [],
          )
        ]

-- `caching_client_glLinkProgram`
unfoldable pub gl_link_program : Programs → ℕ → ProgramReply
gl_link_program s program =
    elim (program_error (lookup_object s.objects program) Enums.invalid_value) [
      | some error ↦ with_error s error
      | none ↦ (s, ProgramCall.link_program program ∷ [])
    ]
