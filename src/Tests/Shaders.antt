-- ===== src/Tests/Shaders.antt =====
-- Programs at concrete inputs.
use gpu_proxy.Base.{ℕ, List, ◌≡◌, refl, some, none, true, [], ◌∷◌, arith}
use gpu_proxy.Gl.State.{init}
use gpu_proxy.Tests.Fixtures.{env}
use gpu_proxy.Names.{create, alloc_names, alloc_one}
use gpu_proxy.Programs.{
  Programs, ProgramCall, program_new, lookup_object, gl_create_program, gl_delete_program,
  gl_use_program, gl_link_program,
}
use gpu_proxy.Gl.Enums
use gpu_proxy.Programs.Locations.{LocationCall, gl_get_uniform_location}
use gpu_proxy.Programs.Uniforms.{
  UniformCall, gl_uniform1f, gl_uniform4i, synthesize_uniform_error, uniform_failed,
}
use gpu_proxy.Programs.Answers.{location_then_uniform, location_outlives_link}
use gpu_proxy.Programs.Learned.{Action, perform_all}
use gpu_proxy.Programs.Told.{uniform_was_told}
use gpu_proxy.Programs.Sources.{
  SourceCopy, SourceOutcome, AreGiven, AllFit, lengths_read, gl_shader_source, shader_source_fits,
}
use gpu_proxy.Programs.Lifetimes.{NamesOnce, deleted_program_goes}

-- The programs 1 and 2, and 1 is current.
abbrev programs : Programs
programs = record {
  gl = record (init env 0 0) { active = true };
  objects = program_new 1 ∷ program_new 2 ∷ [];
  names = record create { last_name = 2 };
  current_program = 1;
}

deleted_program_goes_example :
    (lookup_object (gl_delete_program programs 1).0.objects 1
      ≡ some (record (program_new 1) { mark_for_deletion = true }))
    × (lookup_object (gl_use_program (gl_delete_program programs 1).0 2).0.objects 1 ≡ none)
    × (lookup_object (gl_use_program (gl_delete_program programs 1).0 2).0.objects 2
        ≡ some (program_new 2))
    × ((gl_use_program (gl_delete_program programs 1).0 2).0.current_program ≡ 2)
unfolding NamesOnce
deleted_program_goes_example =
    deleted_program_goes programs 1 2 (program_new 1) (program_new 2) (refl, (refl, tt)) refl refl
      (ground arith) refl refl

-- A third program, which can be linked; a fourth name is none.
created_third :
    gl_create_program programs
    ≡ some (
      3,
      (
        record programs {
          objects = program_new 1 ∷ program_new 2 ∷ program_new 3 ∷ [];
          names = record create { last_name = 3 };
        },
        ProgramCall.create_program 3 ∷ [],
      ),
    )
unfolding init gl_create_program alloc_names alloc_one
created_third = refl

linked : (gl_link_program programs 2).1 ≡ ProgramCall.link_program 2 ∷ []
unfolding gl_link_program
linked = refl

not_linked : (gl_link_program programs 4).1 ≡ []
unfolding gl_link_program
not_linked = refl

-- Names are their hashes here.
abbrev by_itself : ℕ → ℕ
by_itself name = name

location_then_uniform_example :
    (s' : Programs) × (gl_get_uniform_location by_itself programs 1 77 5
      ≡ some (5, s', LocationCall.get_uniform_location 1 77 ∷ []))
    × (gl_get_uniform_location by_itself s' 1 77 9 ≡ some (5, s', []))
    × (gl_uniform1f s' 5 42 ≡ (s', UniformCall.uniform1f 5 42 ∷ []))
location_then_uniform_example =
    location_then_uniform by_itself programs 1 77 5 9 42 (program_new 1) refl refl refl refl
      (ground arith) (omega arith)

location_outlives_link_example :
    (s' : Programs) × (gl_get_uniform_location by_itself programs 1 77 5
      ≡ some (5, s', LocationCall.get_uniform_location 1 77 ∷ []))
    × (gl_get_uniform_location by_itself (gl_link_program s' 1).0 1 77 6
        ≡ some (5, (gl_link_program s' 1).0, []))
location_outlives_link_example =
    location_outlives_link by_itself programs 1 77 77 5 6 (program_new 1) refl refl refl
      (ground arith) (omega arith) refl

-- A name whose hash is 0: its first location makes the assertion of `hash_insert` fail.
hash_zero : gl_get_uniform_location by_itself programs 1 0 5 ≡ none
unfolding gl_get_uniform_location
hash_zero = refl

-- A session that makes the program 1, uses it and asks for a location.
abbrev first_session : List (Action ℕ)
first_session =
    Action.create_program ∷ Action.use_program 1 ∷ Action.get_uniform_location 1 77 5 ∷ []

abbrev empty : Programs
empty = record programs { objects = []; names = create; current_program = 0 }

uniform_was_told_example :
    synthesize_uniform_error
      (perform_all by_itself (λ n. true) empty first_session)
      6
      (UniformCall.uniform1f 6 1)
    ≡ uniform_failed (perform_all by_itself (λ n. true) empty first_session) Enums.invalid_operation
unfolding gl_create_program gl_use_program gl_get_uniform_location alloc_names alloc_one
uniform_was_told_example =
    uniform_was_told by_itself (λ n. true) empty first_session 6 (UniformCall.uniform1f 6 1) refl
      refl

uniform_sent :
    (gl_uniform4i (perform_all by_itself (λ n. true) empty first_session) 5 1 2 3 4).1
    ≡ UniformCall.uniform4i 5 1 2 3 4 ∷ []
unfolding init gl_create_program gl_use_program gl_get_uniform_location alloc_names alloc_one
    gl_uniform4i
uniform_sent = refl

shader_source_fits_example :
    (copies : List SourceCopy) × (gl_shader_source 2 (some (some 10 ∷ some 7 ∷ [])) none
      ≡ SourceOutcome.sent (lengths_read none 2) copies)
    × AllFit none 0 (some 10 ∷ some 7 ∷ []) copies
unfolding AreGiven
shader_source_fits_example =
    shader_source_fits 2 (some 10 ∷ some 7 ∷ []) none refl (ground arith)
      (ground arith, (ground arith, tt)) tt
