-- ===== src/Attribs/Currents.antt =====
-- src/client/caching_client.c: what is read back of the current values that were set.
use gpu_proxy.Base.{
  ℕ, zero, suc, ◌+◌, ◌<◌, ◌≤◌, ◌≡◌, ◌≢◌, refl, ap, ◌∙◌, Option, none, some, true, false, [], ◌==◌,
  arith, inl, inr, Bool-cases, if◌then◌else◌,
}
use gpu_proxy.Gl.Enums
use gpu_proxy.Gl.State.{Quad}
use gpu_proxy.Attribs.{Attrib, num_embedded}
use gpu_proxy.Attribs.Handlers.{find_index, find_attrib, does_index_overflow}
use gpu_proxy.Attribs.Indices.{HoldsOnce}
use gpu_proxy.Attribs.Values.{
  ValueEnv, Values, set_value, find_last, put_value, with_calls, quad, value_found,
  set_current_vertex_attrib, gl_vertex_attrib4f, gl_get_vertex_attribfv,
}

-- A state whose number of attributes is known, for an index that it allows, with no vertex array bound.
pub record IsReady (s : Values) (index : ℕ) : Type 0 where
  pub known : s.arrays.max_vertex_attribs_queried ≡ true
  pub allowed : index ≤ s.arrays.max_vertex_attribs
  pub unbound : s.arrays.vertex_array_binding ≡ 0

ready-index :
    (s : Values) (index driver_max : ℕ)
    → IsReady s index
    → does_index_overflow s.arrays index driver_max ≡ (false, s.arrays, [])
unfolding does_index_overflow
ready-index s index driver_max r = ground (arith, r.known, r.allowed)

set_ready :
    (s : Values) (index driver_max : ℕ) (v : Quad)
    → IsReady s index
    → set_current_vertex_attrib s driver_max index v
      ≡ with_calls [] (
          put_value s v
            (find_last s.arrays.vertex_attribs.count 0 s.arrays.vertex_attribs.attribs index none))
unfolding set_current_vertex_attrib
set_ready s index driver_max v r = rw (ready-index s index driver_max r) refl

get_ready :
    (env : ValueEnv) (s : Values) (index driver_max pname : ℕ) (params answer : Quad)
    → env.is_valid_vertex_attribute pname ≡ true
    → IsReady s index
    → (gl_get_vertex_attribfv env s driver_max index pname params answer).0
      ≡ value_found env s (find_attrib s.arrays.vertex_attribs index) pname params
unfolding gl_get_vertex_attribfv
get_ready env s index driver_max pname params answer valid r =
    ground (arith, valid, ready-index s index driver_max r, r.unbound)

-- No element from `i` on has the index.
find_last-none :
    (n i : ℕ) (f : ℕ → Attrib) (index : ℕ) (found : Option ℕ)
    → ((j : ℕ) → i ≤ j → j < i + n → (f j).index ≢ index)
    → find_last n i f index found ≡ found
find_last-none zero i f index found h = refl
find_last-none (suc n) i f index found h =
    ground (
      arith,
      h i,
      find_last-none n (suc i) f index found (λ j a b. h j (omega arith) (omega arith)),
    )

find_last-absent :
    (n i : ℕ) (f : ℕ → Attrib) (index : ℕ) (found : Option ℕ)
    → find_index n i f index ≡ none
    → find_last n i f index found ≡ found
find_last-absent zero i f index found h = refl
find_last-absent (suc n) i f index found h =
    ground (arith, find_last-absent n (suc i) f index found)

find_index-more :
    (n i j : ℕ) (f : ℕ → Attrib) (index : ℕ)
    → j ≡ i + n
    → find_index n i f index ≡ none
    → (f j).index ≢ index
    → find_index (suc n) i f index ≡ none
find_index-more zero i j f index e h other = ground (arith, ap (λ k. (f k).index) e)
find_index-more (suc n) i j f index e h other =
    ground (arith, find_index-more n (suc i) j f index (omega arith))

find_last-once :
    (n i : ℕ) (f : ℕ → Attrib) (index p : ℕ) (found : Option ℕ)
    → ((j k : ℕ) → j < i + n → k < i + n → (f j).index ≡ (f k).index → j ≡ k)
    → find_index n i f index ≡ some p
    → find_last n i f index found ≡ some p
find_last-once zero i f index p found once h = absurd (ground arith)
find_last-once (suc n) i f index p found once h = elim (Bool-cases ((f i).index == index)) [
  | inl here ↦
      find_last-none n (suc i) f index (if (f i).index == index then some i else found)
        (λ j low high same.
          absurd (omega (arith, once i j (omega arith) (omega arith) (ground arith))))
      ∙ ground (arith, h)
  | inr not_here ↦
      find_last-once n (suc i) f index p (if (f i).index == index then some i else found)
        (λ j k a b. once j k (omega arith) (omega arith)) (ground (arith, h))
]

-- The value of an attribute that the client holds, once, is read back: with the number of attributes known
-- and no vertex array bound, glGetVertexAttribfv gives the four numbers of the glVertexAttrib4f before it.
pub current_value_kept :
    (env : ValueEnv) (s : Values) (index driver_max p a b c d : ℕ) (params answer : Quad)
    → env.is_valid_vertex_attribute Enums.current_vertex_attrib ≡ true
    → IsReady s index
    → HoldsOnce s.arrays.vertex_attribs
    → find_attrib s.arrays.vertex_attribs index ≡ some p
    → (s' : Values) × (gl_vertex_attrib4f s driver_max index a b c d ≡ some (s', []))
      × ((gl_get_vertex_attribfv env s' driver_max index Enums.current_vertex_attrib params
            answer).0
          ≡ quad a b c d)
unfolding gl_vertex_attrib4f
current_value_kept env s index driver_max p a b c d params answer valid r h held = (
  after,
  set_ready s index driver_max (quad a b c d) r
      ∙ ap (λ o. with_calls [] (put_value s (quad a b c d) o))
          (find_last-once s.arrays.vertex_attribs.count 0 s.arrays.vertex_attribs.attribs index p
            none (λ j k x y. h.once j k (omega arith) (omega arith)) held),
  get_ready env after index driver_max Enums.current_vertex_attrib params answer valid
        (record { known = r.known; allowed = r.allowed; unbound = r.unbound })
      ∙ ap (λ o. value_found env after o Enums.current_vertex_attrib params) held
      ∙ ground arith,
)
  where
    after : Values
    after = record s { current = set_value s.current p (quad a b c d) }

-- The value of an attribute that the client does not hold is lost: the new element for it does not get its
-- index, so that, unless what stood there was that index, glVertexAttrib4f sends nothing to the driver
-- and glGetVertexAttribfv gives four zeros afterwards. The number of attributes is known, no vertex
-- array is bound, and there are fewer than 32 elements.
pub current_value_lost :
    (env : ValueEnv) (s : Values) (index driver_max a b c d : ℕ) (params answer : Quad)
    → env.is_valid_vertex_attribute Enums.current_vertex_attrib ≡ true
    → IsReady s index
    → find_attrib s.arrays.vertex_attribs index ≡ none
    → s.arrays.vertex_attribs.count < num_embedded
    → (s.arrays.vertex_attribs.attribs s.arrays.vertex_attribs.count).index ≢ index
    → (s' : Values) × (gl_vertex_attrib4f s driver_max index a b c d ≡ some (s', []))
      × ((gl_get_vertex_attribfv env s' driver_max index Enums.current_vertex_attrib params
            answer).0
          ≡ quad 0 0 0 0)
unfolding gl_vertex_attrib4f
current_value_lost env s index driver_max a b c d params answer valid r absent room other = (
  after,
  set_ready s index driver_max (quad a b c d) r
      ∙ ap (λ o. with_calls [] (put_value s (quad a b c d) o))
          (find_last-absent s.arrays.vertex_attribs.count 0 s.arrays.vertex_attribs.attribs index
            none absent)
      ∙ ground (arith, room),
  get_ready env after index driver_max Enums.current_vertex_attrib params answer valid
        (record { known = r.known; allowed = r.allowed; unbound = r.unbound })
      ∙ ap (λ o. value_found env after o Enums.current_vertex_attrib params)
          (one_further
            ∙ find_index-more s.arrays.vertex_attribs.count 0 s.arrays.vertex_attribs.count
                s.arrays.vertex_attribs.attribs index (omega arith) absent other),
)
  where
    after : Values
    after = record s {
      arrays = record s.arrays {
        vertex_attribs = record s.arrays.vertex_attribs {
          count = s.arrays.vertex_attribs.count + 1;
        };
      };
      current = set_value s.current s.arrays.vertex_attribs.count (quad a b c d);
    }

    last : s.arrays.vertex_attribs.count + 1 ≡ suc s.arrays.vertex_attribs.count
    last = omega arith

    one_further :
        find_index (s.arrays.vertex_attribs.count + 1) 0 s.arrays.vertex_attribs.attribs index
        ≡ find_index (suc s.arrays.vertex_attribs.count) 0 s.arrays.vertex_attribs.attribs index
    one_further = ap (λ m. find_index m 0 s.arrays.vertex_attribs.attribs index) last
