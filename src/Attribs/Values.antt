-- ===== src/Attribs/Values.antt =====
-- src/client/caching_client.c: the current values of vertex attributes, and the queries of attributes.
use gpu_proxy.Base.{
  ℕ, zero, suc, ◌+◌, Option, none, some, Bool, true, false, not, List, [], ◌∷◌, ◌++◌, ◌==◌, ltb,
  if◌then◌else◌,
}
use gpu_proxy.Gl.Enums
use gpu_proxy.Image.Enums as Types
use gpu_proxy.Gl.State.{Quad, set_error}
use gpu_proxy.Attribs.{Attrib, AttribList, num_embedded}
use gpu_proxy.Attribs.Handlers.{Arrays, ArrayCall, does_index_overflow, find_attrib}

-- The machine's floats, and the generated check of the enumerant.
pub record ValueEnv : Type 0 where
  pub of_int : ℕ → ℕ
  pub to_int : ℕ → ℕ
  pub is_valid_vertex_attribute : ℕ → Bool

-- The arrays, with the field `current_attrib` of every element.
pub record Values : Type 0 where
  pub arrays : Arrays
  pub current : ℕ → Quad

-- Calls sent, and `none` where the code reads and writes past the array.
abbrev pub ValueReply : Type 0
ValueReply = Option (Values × List ArrayCall)

abbrev pub set_value : (ℕ → Quad) → ℕ → Quad → ℕ → Quad
set_value current p v q = if q == p then v else current q

-- The loop for the index, which goes on to the last element that has it.
abbrev pub find_last : ℕ → ℕ → (ℕ → Attrib) → ℕ → Option ℕ → Option ℕ
find_last zero i attribs index found = found
find_last (suc n) i attribs index found =
    find_last n (suc i) attribs index (if (attribs i).index == index then some i else found)

-- The end of `caching_client_set_current_vertex_attrib`. The new element keeps what stood in its other
-- fields.
abbrev pub put_value : Values → Quad → Option ℕ → Option Values
put_value s v (some p) = some (record s { current = set_value s.current p v })
put_value s v none =
    let l = s.arrays.vertex_attribs in
    if ltb l.count num_embedded
    then some (record s {
      arrays = record s.arrays { vertex_attribs = record l { count = l.count + 1 } };
      current = set_value s.current l.count v;
    })
    else none

abbrev pub with_calls : List ArrayCall → Option Values → ValueReply
with_calls calls none = none
with_calls calls (some s) = some (s, calls)

-- `caching_client_set_current_vertex_attrib`, with the driver's answer for the number of attributes.
unfoldable pub set_current_vertex_attrib : Values → ℕ → ℕ → Quad → ValueReply
set_current_vertex_attrib s driver_max index v =
    let (over, arrays, calls) = does_index_overflow s.arrays index driver_max in
    if over
    then some (record s { arrays = arrays }, calls)
    else let l = arrays.vertex_attribs in
      with_calls calls
        (put_value (record s { arrays = arrays }) v (find_last l.count 0 l.attribs index none))

abbrev pub quad : ℕ → ℕ → ℕ → ℕ → Quad
quad a b c d = record { c0 = a; c1 = b; c2 = c; c3 = d }

unfoldable pub gl_vertex_attrib1f : Values → ℕ → ℕ → ℕ → ValueReply
gl_vertex_attrib1f s driver_max index v0 =
    set_current_vertex_attrib s driver_max index (quad v0 0 0 0)

unfoldable pub gl_vertex_attrib2f : Values → ℕ → ℕ → ℕ → ℕ → ValueReply
gl_vertex_attrib2f s driver_max index v0 v1 =
    set_current_vertex_attrib s driver_max index (quad v0 v1 0 0)

unfoldable pub gl_vertex_attrib3f : Values → ℕ → ℕ → ℕ → ℕ → ℕ → ValueReply
gl_vertex_attrib3f s driver_max index v0 v1 v2 =
    set_current_vertex_attrib s driver_max index (quad v0 v1 v2 0)

unfoldable pub gl_vertex_attrib4f : Values → ℕ → ℕ → ℕ → ℕ → ℕ → ℕ → ValueReply
gl_vertex_attrib4f s driver_max index v0 v1 v2 v3 =
    set_current_vertex_attrib s driver_max index (quad v0 v1 v2 v3)

-- The calls with an array of values.
unfoldable pub gl_vertex_attrib1fv : Values → ℕ → ℕ → (ℕ → ℕ) → ValueReply
gl_vertex_attrib1fv s driver_max index v = gl_vertex_attrib1f s driver_max index (v 0)

unfoldable pub gl_vertex_attrib2fv : Values → ℕ → ℕ → (ℕ → ℕ) → ValueReply
gl_vertex_attrib2fv s driver_max index v = gl_vertex_attrib2f s driver_max index (v 0) (v 1)

unfoldable pub gl_vertex_attrib3fv : Values → ℕ → ℕ → (ℕ → ℕ) → ValueReply
gl_vertex_attrib3fv s driver_max index v = gl_vertex_attrib3f s driver_max index (v 0) (v 1) (v 2)

unfoldable pub gl_vertex_attrib4fv : Values → ℕ → ℕ → (ℕ → ℕ) → ValueReply
gl_vertex_attrib4fv s driver_max index v =
    gl_vertex_attrib4f s driver_max index (v 0) (v 1) (v 2) (v 3)

-- A query's answer: the four floats at `params`, and the state with the calls sent.
abbrev pub QueryReply : Type 0
QueryReply = Quad × Values × List ArrayCall

abbrev pub bit : Bool → ℕ
bit true = 1
bit false = 0

-- A write of one float.
abbrev pub write_one : Quad → ℕ → Quad
write_one params v = record params { c0 = v }

-- What is written of an element of the array.
abbrev pub attrib_value : ValueEnv → Attrib → Quad → ℕ → Quad → Quad
attrib_value env a current pname params =
    if pname == Enums.vertex_attrib_array_buffer_binding
    then write_one params (env.of_int a.array_buffer_binding)
    else if pname == Enums.vertex_attrib_array_enabled
    then write_one params (env.of_int (bit a.array_enabled))
    else if pname == Enums.vertex_attrib_array_size
    then write_one params (env.of_int a.size)
    else if pname == Enums.vertex_attrib_array_stride
    then write_one params (env.of_int a.stride)
    else if pname == Enums.vertex_attrib_array_type
    then write_one params (env.of_int a.type)
    else if pname == Enums.vertex_attrib_array_normalized
    then write_one params (env.of_int (bit a.array_normalized))
    else current

-- What is written where no element has the index.
abbrev pub default_value : ValueEnv → Arrays → ℕ → Quad → Quad
default_value env s pname params =
    if pname == Enums.vertex_attrib_array_buffer_binding
    then write_one params (env.of_int s.gl.bindings.array_buffer)
    else if pname == Enums.vertex_attrib_array_enabled
    then write_one params 0
    else if pname == Enums.vertex_attrib_array_size
    then write_one params (env.of_int 4)
    else if pname == Enums.vertex_attrib_array_stride
    then write_one params 0
    else if pname == Enums.vertex_attrib_array_type
    then write_one params (env.of_int Types.float)
    else if pname == Enums.vertex_attrib_array_normalized
    then write_one params 0
    else quad 0 0 0 0

abbrev pub with_arrays : Values → Arrays → Values
with_arrays s arrays = record s { arrays = arrays }

abbrev pub value_found : ValueEnv → Values → Option ℕ → ℕ → Quad → Quad
value_found env s none pname params = default_value env s.arrays pname params
value_found env s (some p) pname params =
    attrib_value env (s.arrays.vertex_attribs.attribs p) (s.current p) pname params

-- `caching_client_glGetVertexAttribfv`, with what stands at `params` and what the driver writes there.
unfoldable pub gl_get_vertex_attribfv : ValueEnv → Values → ℕ → ℕ → ℕ → Quad → Quad → QueryReply
gl_get_vertex_attribfv env s driver_max index pname params answer =
    if not (env.is_valid_vertex_attribute pname)
    then (
      params,
      with_arrays s (record s.arrays { gl = set_error s.arrays.gl Enums.invalid_enum }),
      [],
    )
    else let (over, arrays, calls) = does_index_overflow s.arrays index driver_max in
      if over
      then (params, with_arrays s arrays, calls)
      else if not (arrays.vertex_array_binding == 0)
      then (
        answer,
        with_arrays s (record arrays { gl = record arrays.gl { need_get_error = true } }),
        calls ++ (ArrayCall.get_vertex_attribfv index pname ∷ []),
      )
      else (
        value_found env (with_arrays s arrays) (find_attrib arrays.vertex_attribs index) pname
            params,
        with_arrays s arrays,
        calls,
      )

-- `caching_client_glGetVertexAttribiv`. The floats on its stack are not cleared, and it answers with
-- them after an error too.
unfoldable pub gl_get_vertex_attribiv :
    ValueEnv → Values → ℕ → ℕ → ℕ → Quad → Quad → Quad → QueryReply
gl_get_vertex_attribiv env s driver_max index pname params junk answer =
    let (f, s', calls) = gl_get_vertex_attribfv env s driver_max index pname junk answer in
    (
      (if pname == Enums.current_vertex_attrib
          then quad (env.to_int f.c0) (env.to_int f.c1) (env.to_int f.c2) (env.to_int f.c3)
          else write_one params (env.to_int f.c0)),
      s',
      calls,
    )

abbrev pub pointer_found : AttribList → Option ℕ → ℕ
pointer_found l none = 0
pointer_found l (some p) = (l.attribs p).pointer

-- `caching_client_glGetVertexAttribPointerv`, with the driver's pointer.
unfoldable pub gl_get_vertex_attrib_pointerv : Values → ℕ → ℕ → ℕ → ℕ → ℕ × Values × List ArrayCall
gl_get_vertex_attrib_pointerv s driver_max index pname answer =
    if not (pname == Enums.vertex_attrib_array_pointer)
    then (0, with_arrays s (record s.arrays { gl = set_error s.arrays.gl Enums.invalid_enum }), [])
    else let (over, arrays, calls) = does_index_overflow s.arrays index driver_max in
      if over
      then (0, with_arrays s arrays, calls)
      else if not (arrays.vertex_array_binding == 0)
      then (
        answer,
        with_arrays s (record arrays {
          gl = if answer == 0 then record arrays.gl { need_get_error = true } else arrays.gl;
        }),
        calls ++ (ArrayCall.get_vertex_attrib_pointerv index pname ∷ []),
      )
      else (
        pointer_found arrays.vertex_attribs (find_attrib arrays.vertex_attribs index),
        with_arrays s arrays,
        calls,
      )
