-- ===== src/Attribs/Bound.antt =====
-- src/client/caching_client.c: vertex array objects.
use gpu_proxy.Base.{
  true, false, not, ◌&&◌, ℕ, ◌≡◌, refl, ap, sym, ◌∙◌, ◌++◌, Bool, List, [], ◌∷◌, ◌==◌, ◌||◌,
  if◌then◌else◌, arith,
}
use gpu_proxy.Gl.Enums
use gpu_proxy.Gl.State.{set_error, int_negative}
use gpu_proxy.Attribs.Handlers.{Arrays}

-- The calls sent on.
pub data VertexArrayCall : Type 0 where
  bind_vertex_array is_vertex_array : ℕ → VertexArrayCall
  gen_vertex_arrays delete_vertex_arrays : ℕ → List ℕ → VertexArrayCall

abbrev pub VertexArrayReply : Type 0
VertexArrayReply = Arrays × List VertexArrayCall

abbrev pub arrays_failed : Arrays → ℕ → VertexArrayReply
arrays_failed s error = (record s { gl = set_error s.gl error }, [])

-- `caching_client_glBindVertexArrayOES`
unfoldable pub gl_bind_vertex_array : Arrays → ℕ → VertexArrayReply
gl_bind_vertex_array s array =
    if s.vertex_array_binding == array
    then (s, [])
    else (record s { vertex_array_binding = array }, VertexArrayCall.bind_vertex_array array ∷ [])

-- The loop of glDeleteVertexArraysOES, which stops at the first name that is bound.
abbrev pub unbind_array : List ℕ → ℕ → ℕ
unbind_array [] bound = bound
unbind_array (x ∷ r) bound = if x == bound then 0 else unbind_array r bound

-- `caching_client_glDeleteVertexArraysOES`, for the `n` names that `arrays` points to.
unfoldable pub gl_delete_vertex_arrays : Arrays → ℕ → List ℕ → VertexArrayReply
gl_delete_vertex_arrays s n arrays =
    if int_negative n || n == 0 then arrays_failed s Enums.invalid_value else (
      record s { vertex_array_binding = unbind_array arrays s.vertex_array_binding },
      VertexArrayCall.delete_vertex_arrays n arrays ∷ [],
    )

-- `caching_client_glGenVertexArraysOES`, with the names that the driver writes.
unfoldable pub gl_gen_vertex_arrays : Arrays → ℕ → List ℕ → VertexArrayReply
gl_gen_vertex_arrays s n names =
    if int_negative n || n == 0
    then arrays_failed s Enums.invalid_value
    else (s, VertexArrayCall.gen_vertex_arrays n names ∷ [])

-- `caching_client_glIsVertexArrayOES`, with the driver's answer.
unfoldable pub gl_is_vertex_array : Arrays → ℕ → Bool → Bool × VertexArrayReply
gl_is_vertex_array s array result = (
  result,
  (
    (if result
        then s
        else if s.vertex_array_binding == array
        then record s { vertex_array_binding = 0 }
        else s),
    VertexArrayCall.is_vertex_array array ∷ [],
  ),
)

-- An array object that is deleted while it is bound is unbound.
abbrev pub after_deletion : List ℕ → ℕ → ℕ
after_deletion [] bound = bound
after_deletion (x ∷ r) bound = after_deletion r (if x == bound then 0 else bound)

abbrev pub is_among : ℕ → List ℕ → Bool
is_among x [] = false
is_among x (y ∷ r) = y == x || is_among x r

-- A driver: the array object that is bound, and the array objects that were generated and not deleted.
pub record Driver : Type 0 where
  pub bound : ℕ
  pub known : ℕ → Bool

-- Only 0 and array objects that exist can be bound: the rest are invalid operations.
abbrev pub can_bind : Driver → ℕ → Bool
can_bind d array = array == 0 || d.known array

-- What a driver makes of the calls.
abbrev pub exec_arrays : List VertexArrayCall → Driver → Driver
exec_arrays [] d = d
exec_arrays (VertexArrayCall.bind_vertex_array array ∷ r) d =
    exec_arrays r (record d { bound = if can_bind d array then array else d.bound })
exec_arrays (VertexArrayCall.gen_vertex_arrays n names ∷ r) d =
    exec_arrays r (record d { known = λ x. is_among x names || d.known x })
exec_arrays (VertexArrayCall.delete_vertex_arrays n arrays ∷ r) d = exec_arrays r (record {
  bound = after_deletion arrays d.bound;
  known = λ x. not (is_among x arrays) && d.known x;
})
exec_arrays (VertexArrayCall.is_vertex_array array ∷ r) d = exec_arrays r d

-- The calls of an application; a generation comes with the names that the driver writes.
pub data ArrayRequest : Type 0 where
  bind : ℕ → ArrayRequest
  gen delete : ℕ → List ℕ → ArrayRequest

abbrev pub request_array : Arrays → ArrayRequest → VertexArrayReply
request_array s (ArrayRequest.bind array) = gl_bind_vertex_array s array
request_array s (ArrayRequest.gen n names) = gl_gen_vertex_arrays s n names
request_array s (ArrayRequest.delete n arrays) = gl_delete_vertex_arrays s n arrays

abbrev pub request_arrays : Arrays → List ArrayRequest → VertexArrayReply
request_arrays s [] = (s, [])
request_arrays s (a ∷ r) =
    let (s', calls) = request_array s a in
    let (s'', more) = request_arrays s' r in (s'', calls ++ more)

abbrev pub IsBindable : Driver → ArrayRequest → Type 0
IsBindable d (ArrayRequest.bind array) = can_bind d array ≡ true
IsBindable d (ArrayRequest.gen n names) = Unit
IsBindable d (ArrayRequest.delete n arrays) = Unit

-- A session that binds only 0 and array objects that exist in the driver at that time.
unfoldable pub IsLegal : Arrays → Driver → List ArrayRequest → Type 0
IsLegal s d [] = Unit
IsLegal s d (a ∷ r) =
    IsBindable d a × IsLegal (request_array s a).0 (exec_arrays (request_array s a).1 d) r

after_deletion-zero : (l : List ℕ) → after_deletion l 0 ≡ 0
after_deletion-zero [] = refl
after_deletion-zero (x ∷ r) = ground (arith, after_deletion-zero r)

unbind_array-after_deletion : (l : List ℕ) (b : ℕ) → unbind_array l b ≡ after_deletion l b
unbind_array-after_deletion [] b = refl
unbind_array-after_deletion (x ∷ r) b =
    ground (arith, unbind_array-after_deletion r b, after_deletion-zero r)

exec_arrays-append :
    (c e : List VertexArrayCall) (d : Driver)
    → exec_arrays (c ++ e) d ≡ exec_arrays e (exec_arrays c d)
exec_arrays-append [] e d = refl
exec_arrays-append (VertexArrayCall.bind_vertex_array array ∷ r) e d = exec_arrays-append r e _
exec_arrays-append (VertexArrayCall.delete_vertex_arrays n arrays ∷ r) e d =
    exec_arrays-append r e _
exec_arrays-append (VertexArrayCall.gen_vertex_arrays n names ∷ r) e d = exec_arrays-append r e _
exec_arrays-append (VertexArrayCall.is_vertex_array array ∷ r) e d = exec_arrays-append r e d

request_array-coherent :
    (s : Arrays) (d : Driver) (a : ArrayRequest)
    → s.vertex_array_binding ≡ d.bound
    → IsBindable d a
    → (request_array s a).0.vertex_array_binding ≡ (exec_arrays (request_array s a).1 d).bound
unfolding gl_bind_vertex_array gl_gen_vertex_arrays gl_delete_vertex_arrays
request_array-coherent s d (ArrayRequest.bind array) e can = ground (arith, e, can)
request_array-coherent s d (ArrayRequest.gen n names) e can = ground (arith, e)
request_array-coherent s d (ArrayRequest.delete n arrays) e can =
    ground (arith, e, unbind_array-after_deletion arrays s.vertex_array_binding)

-- The array object that the client takes as bound is the one that is bound in the driver: if they agree
-- before, they agree after any calls that bind, generate and delete array objects, refused
-- generations and deletions included, and the driver makes of the calls sent on what it holds. Each
-- call that binds is for 0 or for an array object that was generated and not deleted since.
pub array_binding_coherent :
    (s : Arrays) (d : Driver) (session : List ArrayRequest)
    → s.vertex_array_binding ≡ d.bound
    → IsLegal s d session
    → (request_arrays s session).0.vertex_array_binding
      ≡ (exec_arrays (request_arrays s session).1 d).bound
unfolding IsLegal
array_binding_coherent s d [] e legal = e
array_binding_coherent s d (a ∷ r) e legal =
    array_binding_coherent (request_array s a).0 (exec_arrays (request_array s a).1 d) r
      (request_array-coherent s d a e legal.0) legal.1
    ∙ ap (λ (k : Driver). k.bound)
        (sym
          (exec_arrays-append (request_array s a).1 (request_arrays (request_array s a).0 r).1 d))
