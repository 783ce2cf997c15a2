-- ===== src/Tests/Queries.antt =====
-- Current values of vertex attributes at concrete inputs.
use gpu_proxy.Base.{◌≡◌, refl, some, true, false, [], arith}
use gpu_proxy.Gl.Enums
use gpu_proxy.Gl.State.{init}
use gpu_proxy.Tests.Fixtures.{env, no_attrib}
use gpu_proxy.Attribs.Indices.{HoldsOnce}
use gpu_proxy.Attribs.Values.{
  ValueEnv, Values, quad, gl_vertex_attrib4f, gl_get_vertex_attribfv, gl_get_vertex_attribiv,
  gl_get_vertex_attrib_pointerv,
}
use gpu_proxy.Attribs.Handlers.{does_index_overflow}
use gpu_proxy.Attribs.Currents.{current_value_kept, current_value_lost}

-- Values are their bits here.
abbrev value_env : ValueEnv
value_env = record { of_int = λ n. n; to_int = λ n. n; is_valid_vertex_attribute = λ n. true }

-- One attribute, of the index 5.
abbrev one_held : Values
one_held = record {
  arrays = record {
    gl = record (init env 0 0) { active = true };
    vertex_attribs = record {
      count = 1;
      enabled_count = 0;
      attribs = λ p. record no_attrib { index = 5; pointer = 900 };
      enabled_attribs = 0;
    };
    vertex_array_binding = 0;
    max_vertex_attribs = 8;
    max_vertex_attribs_queried = true;
  };
  current = λ p. quad 0 0 0 0;
}

once : HoldsOnce one_held.arrays.vertex_attribs
once = record { room = ground arith; once = λ i j low high same. omega (arith, low, high) }

current_value_kept_example :
    (s' : Values) × (gl_vertex_attrib4f one_held 16 5 1 2 3 4 ≡ some (s', []))
    × ((gl_get_vertex_attribfv value_env s' 16 5 Enums.current_vertex_attrib
          (quad 9 9 9 9)
          (quad 8 8 8 8)).0
        ≡ quad 1 2 3 4)
current_value_kept_example =
    current_value_kept value_env one_held 5 16 0 1 2 3 4 (quad 9 9 9 9) (quad 8 8 8 8) refl
      (record { known = refl; allowed = ground arith; unbound = refl }) once refl

current_value_lost_example :
    (s' : Values) × (gl_vertex_attrib4f one_held 16 6 1 2 3 4 ≡ some (s', []))
    × ((gl_get_vertex_attribfv value_env s' 16 6 Enums.current_vertex_attrib
          (quad 9 9 9 9)
          (quad 8 8 8 8)).0
        ≡ quad 0 0 0 0)
current_value_lost_example =
    current_value_lost value_env one_held 6 16 1 2 3 4 (quad 9 9 9 9) (quad 8 8 8 8) refl
      (record { known = refl; allowed = ground arith; unbound = refl }) refl (ground arith)
      (ground arith)

-- The pointer of the attribute that is held, and none for another.
pointer_read :
    (gl_get_vertex_attrib_pointerv one_held 16 5 Enums.vertex_attrib_array_pointer 0).0 ≡ 900
unfolding init gl_get_vertex_attrib_pointerv does_index_overflow
pointer_read = refl

-- A query of an unknown enumerant answers with what stood on the stack.
abbrev strict : ValueEnv
strict = record value_env { is_valid_vertex_attribute = λ n. false }

stack_read :
    (gl_get_vertex_attribiv strict one_held 16 5 0 (quad 9 9 9 9) (quad 77 0 0 0) (quad 0 0 0 0)).0
    ≡ quad 77 9 9 9
unfolding init gl_get_vertex_attribiv gl_get_vertex_attribfv
stack_read = refl
