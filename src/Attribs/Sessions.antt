-- ===== src/Attribs/Sessions.antt =====
-- src/client/caching_client.c: the calls on vertex attributes, one after the other.
use gpu_proxy.Base.{
  ℕ, ◌≡◌, Option, none, some, Bool, true, false, List, [], ◌∷◌, Option-cases, inl, inr, arith,
}
use mathlib.Core.Option.{some-injective}
use mathlib.Core.Path.{subst}
use gpu_proxy.Attribs.Handlers.{
  Arrays, Reply, ArrayCall, gl_enable_vertex_attrib_array, gl_disable_vertex_attrib_array,
  gl_vertex_attrib_pointer,
}
use gpu_proxy.Attribs.Indices.{
  HoldsOnce, set_vertex_attrib_array-HoldsOnce, gl_vertex_attrib_pointer-HoldsOnce,
}

-- The calls that enable, disable and describe attributes, without glVertexAttrib: size, type, normalized, stride and pointer follow the index.
pub data Request : Type 0 where
  enable disable : ℕ → Request
  describe : ℕ → ℕ → ℕ → Bool → ℕ → ℕ → Request

module _ (fuel driver_max : ℕ) where
  abbrev pub handle : Arrays → Request → Reply
  handle s (Request.enable index) = gl_enable_vertex_attrib_array fuel driver_max s index
  handle s (Request.disable index) = gl_disable_vertex_attrib_array fuel driver_max s index
  handle s (Request.describe index size type normalized stride at) =
      gl_vertex_attrib_pointer fuel driver_max s index size type normalized stride at

  abbrev pub session : Arrays → List Request → Option Arrays
  session s [] = some s
  session s (r ∷ rs) = elim (handle s r) [ none ↦ none | some (t, sent) ↦ session t rs ]

handle-HoldsOnce :
    (fuel dm : ℕ) (s t : Arrays) (r : Request) (sent : List ArrayCall)
    → HoldsOnce s.vertex_attribs
    → handle fuel dm s r ≡ some (t, sent)
    → HoldsOnce t.vertex_attribs
unfolding gl_enable_vertex_attrib_array gl_disable_vertex_attrib_array
handle-HoldsOnce fuel dm s t (Request.enable index) sent h e =
    set_vertex_attrib_array-HoldsOnce fuel dm s t sent index true h e
handle-HoldsOnce fuel dm s t (Request.disable index) sent h e =
    set_vertex_attrib_array-HoldsOnce fuel dm s t sent index false h e
handle-HoldsOnce fuel dm s t (Request.describe index size type normalized stride at) sent h e =
    gl_vertex_attrib_pointer-HoldsOnce fuel dm s t sent index size type normalized stride at h e

-- After any calls of glEnableVertexAttribArray, glDisableVertexAttribArray and glVertexAttribPointer, in
-- any order, with no glVertexAttrib call between them, on any fuel and maximum: while no call writes
-- past the array, the attributes that the client holds are at most 32, and no index is held twice, if
-- that was so before.
pub session-HoldsOnce :
    (fuel dm : ℕ) (s t : Arrays) (rs : List Request)
    → HoldsOnce s.vertex_attribs
    → session fuel dm s rs ≡ some t
    → HoldsOnce t.vertex_attribs
session-HoldsOnce fuel dm s t [] h e =
    subst (λ (u : Arrays). HoldsOnce u.vertex_attribs) (some-injective s t e) h
session-HoldsOnce fuel dm s t (r ∷ rs) h e = elim (Option-cases (handle fuel dm s r)) [
  | inl n ↦ absurd (ground arith)
  | inr ((u, sent), q) ↦
      session-HoldsOnce fuel dm u t rs (handle-HoldsOnce fuel dm s u r sent h q) (ground arith)
]
