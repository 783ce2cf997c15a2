-- ===== src/Caches/Given.antt =====
-- src/client/caching_client.c: the names that are given out, and the caches.
use gpu_proxy.Base.{
  ℕ, ◌≡◌, ◌≢◌, ap, sym, ◌∙◌, some, true, false, List, [], ◌∷◌, ◌==◌, arith, inl, inr, Bool-cases,
}
use gpu_proxy.Gl.State.{int_negative}
use gpu_proxy.Names.{NameHandler, alloc_names}
use gpu_proxy.Names.Owned.{Owns, count, alloc_names-positive}
use gpu_proxy.Mapping.{Kind}
use gpu_proxy.Caches.{ObjectTable, create_texture, create_framebuffer}
use gpu_proxy.Caches.Handlers.{
  Objects, ObjectCall, create_all, gl_gen_textures, gl_gen_framebuffers,
}
use gpu_proxy.Caches.Unbound.{holds}

create_all-keeps :
    (hash : ObjectTable) {A : Type 0} (make : ℕ → A) (xs : List ℕ) (t : hash.Table A) (x : ℕ)
    → x ≢ 0
    → hash.lookup x t ≡ some (make x)
    → hash.lookup x (create_all hash make xs t) ≡ some (make x)
create_all-keeps hash make [] t x n e = e
create_all-keeps hash make (y ∷ ys) t x n e =
    create_all-keeps hash make ys (hash.insert y (make y) t) x n (elim (Bool-cases (x == y)) [
      | inl same ↦
          let is : x ≡ y = ground arith in
          ap (λ k. hash.lookup k (hash.insert y (make y) t)) is
          ∙ hash.lookup-insert y (make y) t (λ z. n (is ∙ z))
          ∙ ap (λ k. some (make k)) (sym is)
      | inr other ↦ hash.lookup-insert_other x y (make y) t (ground arith) ∙ e
    ])

create_all-found :
    (hash : ObjectTable) {A : Type 0} (make : ℕ → A) (xs : List ℕ) (t : hash.Table A) (x : ℕ)
    → x ≢ 0
    → holds x xs ≡ true
    → hash.lookup x (create_all hash make xs t) ≡ some (make x)
create_all-found hash make [] t x n h = absurd (ground arith)
create_all-found hash make (y ∷ ys) t x n h = elim (Bool-cases (x == y)) [
  | inl same ↦
      let is : x ≡ y = ground arith in
      create_all-keeps hash make ys (hash.insert y (make y) t) x n (
        ap (λ k. hash.lookup k (hash.insert y (make y) t)) is
        ∙ hash.lookup-insert y (make y) t (λ z. n (is ∙ z))
        ∙ ap (λ k. some (make k)) (sym is))
  | inr other ↦ create_all-found hash make ys (hash.insert y (make y) t) x n (ground arith)
]

held-nonzero : (xs : List ℕ) (x : ℕ) → count 0 xs ≡ 0 → holds x xs ≡ true → x ≢ 0
held-nonzero [] x c h z = absurd (ground arith)
held-nonzero (y ∷ ys) x c h z = elim (Bool-cases (x == y)) [
  | inl same ↦ absurd (ground arith)
  | inr other ↦ held-nonzero ys x (ground arith) (ground arith) z
]

-- glGenTextures and glGenFramebuffers give the names that their name handlers give, each of which is in
-- the cache afterwards, as a new object with this name, whatever the cache had under it before. Each
-- handler shares its names with the application.
pub given_names_cached :
    (hash : ObjectTable) (s : Objects hash) (n : ℕ) (xs ys : List ℕ) (h k : NameHandler)
    (live live' : List ℕ)
    → Owns s.texture_names live
    → Owns s.framebuffer_names live'
    → int_negative n ≡ false
    → alloc_names n s.texture_names ≡ some (xs, h)
    → alloc_names n s.framebuffer_names ≡ some (ys, k)
    → ((s' : Objects hash) × (gl_gen_textures hash s n
          ≡ some (xs, (s', ObjectCall.gen Kind.textures n ∷ [])))
        × ((x : ℕ) → holds x xs ≡ true → hash.lookup x s'.textures ≡ some (create_texture x)))
      × ((s' : Objects hash) × (gl_gen_framebuffers hash s n
            ≡ some (ys, (s', ObjectCall.gen Kind.framebuffers n ∷ [])))
          × ((y : ℕ)
              → holds y ys ≡ true
              → hash.lookup y s'.framebuffers ≡ some (create_framebuffer y)))
unfolding gl_gen_textures gl_gen_framebuffers
given_names_cached hash s n xs ys h k live live' ot of positive textures framebuffers = (
  (
    record s { texture_names = h; textures = create_all hash create_texture xs s.textures },
    ground (arith, positive, textures),
    λ x i.
        create_all-found hash create_texture xs s.textures x
          (held-nonzero xs x (alloc_names-positive n ot textures) i) i,
  ),
  (
    record s {
      framebuffer_names = k;
      framebuffers = create_all hash create_framebuffer ys s.framebuffers;
    },
    ground (arith, positive, framebuffers),
    λ y i.
        create_all-found hash create_framebuffer ys s.framebuffers y
          (held-nonzero ys y (alloc_names-positive n of framebuffers) i) i,
  ),
)
