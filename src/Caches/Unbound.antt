-- ===== src/Caches/Unbound.antt =====
-- src/client/caching_client.c: what the deletion of objects leaves bound, and where it fails.
use gpu_proxy.Base.{
  ℕ, ◌≡◌, ◌≢◌, refl, none, some, Bool, true, false, List, [], ◌∷◌, ◌==◌, ◌||◌, arith, inl, inr, ◌⊎◌,
  Bool-cases,
}
use gpu_proxy.Gl.State.{Bindings, int_negative}
use gpu_proxy.Names.{delete_names}
use gpu_proxy.Caches.{Renderbuffer, Framebuffer, ObjectTable}
use gpu_proxy.Caches.Handlers.{Objects}
use gpu_proxy.Caches.Deletes.{
  unbind_buffer, unbind_buffers, unbind_framebuffer, delete_framebuffer, delete_framebuffers,
  gl_delete_buffers, gl_delete_framebuffers, gl_delete_renderbuffers,
}

-- A name is among those of a list.
abbrev pub holds : ℕ → List ℕ → Bool
holds x [] = false
holds x (y ∷ ys) = x == y || holds x ys

-- A binding that is 0 or was there before.
unbind_buffers-less :
    (xs : List ℕ) (b : Bindings)
    → ((unbind_buffers xs b).array_buffer ≡ 0)
      ⊎ ((unbind_buffers xs b).array_buffer ≡ b.array_buffer)
unbind_buffers-less [] b = inr refl
unbind_buffers-less (x ∷ xs) b = ground (arith, unbind_buffers-less xs (unbind_buffer x b))

unbind_buffers-unbound :
    (xs : List ℕ) (b : Bindings) (x : ℕ)
    → x ≢ 0
    → holds x xs ≡ true
    → (unbind_buffers xs b).array_buffer ≢ x
unbind_buffers-unbound [] b x n h = absurd (ground arith)
unbind_buffers-unbound (y ∷ ys) b x n h = elim (Bool-cases (x == y)) [
  | inl same ↦ λ e. ground (arith, unbind_buffers-less ys (unbind_buffer y b))
  | inr other ↦ unbind_buffers-unbound ys (unbind_buffer y b) x n (ground arith)
]

delete_framebuffer-binding :
    (hash : ObjectTable) (x : ℕ) (s : Objects hash)
    → (delete_framebuffer hash x s).gl.bindings ≡ unbind_framebuffer x s.gl.bindings
delete_framebuffer-binding hash x s = refl

delete_framebuffers-less :
    (hash : ObjectTable) (xs : List ℕ) (s : Objects hash)
    → ((delete_framebuffers hash xs s).gl.bindings.framebuffer ≡ 0)
      ⊎ ((delete_framebuffers hash xs s).gl.bindings.framebuffer ≡ s.gl.bindings.framebuffer)
delete_framebuffers-less hash [] s = inr refl
delete_framebuffers-less hash (x ∷ xs) s = elim (Bool-cases (x == 0)) [
  | inl zero_name ↦ ground (arith, delete_framebuffers-less hash xs s)
  | inr name ↦ ground (arith, delete_framebuffers-less hash xs (delete_framebuffer hash x s))
]

delete_framebuffers-unbound :
    (hash : ObjectTable) (xs : List ℕ) (s : Objects hash) (x : ℕ)
    → x ≢ 0
    → holds x xs ≡ true
    → (delete_framebuffers hash xs s).gl.bindings.framebuffer ≢ x
delete_framebuffers-unbound hash [] s x n h = absurd (ground arith)
delete_framebuffers-unbound hash (y ∷ ys) s x n h = elim (Bool-cases (x == y)) [
  | inl same ↦ λ e. ground (arith, delete_framebuffers-less hash ys (delete_framebuffer hash y s))
  | inr other ↦ elim (Bool-cases (y == 0)) [
    | inl zero_name ↦ λ e. ground (arith, delete_framebuffers-unbound hash ys s x n (ground arith))
    | inr name ↦ λ e. ground (
      arith,
      delete_framebuffers-unbound hash ys (delete_framebuffer hash y s) x n (ground arith),
    )
  ]
]

-- No name that is deleted stays bound: after glDeleteBuffers the array buffer, and after
-- glDeleteFramebuffers the framebuffer, is none of the names other than 0 that were given, whatever
-- else is among them and in the caches.
pub deleted_names_unbound :
    (hash : ObjectTable) (s : Objects hash) (n : ℕ) (xs : List ℕ) (x : ℕ)
    → int_negative n ≡ false
    → x ≢ 0
    → holds x xs ≡ true
    → ((gl_delete_buffers hash s n xs).0.gl.bindings.array_buffer ≢ x)
      × ((gl_delete_framebuffers hash s n xs).0.gl.bindings.framebuffer ≢ x)
unfolding gl_delete_buffers gl_delete_framebuffers
deleted_names_unbound hash s n xs x positive nonzero h = (
  λ e. ground (arith, unbind_buffers-unbound xs s.gl.bindings x nonzero h),
  λ e. ground (
    arith,
    delete_framebuffers-unbound hash xs
        (record s { framebuffer_names = delete_names s.framebuffer_names xs }) x nonzero h,
  ),
)

-- glDeleteRenderbuffers for two names fails with a read through NULL, if the first renderbuffer is in
-- the cache with a framebuffer that is in the cache too, and the second is not in the cache.
pub second_renderbuffer_crashes :
    (hash : ObjectTable) (s : Objects hash) (n x y : ℕ) (r : Renderbuffer) (f : Framebuffer)
    → int_negative n ≡ false
    → x ≢ 0
    → y ≢ 0
    → hash.lookup x s.renderbuffers ≡ some r
    → hash.lookup r.framebuffer_id s.framebuffers ≡ some f
    → hash.lookup y s.renderbuffers ≡ none
    → gl_delete_renderbuffers hash s n (x ∷ y ∷ []) ≡ none
unfolding gl_delete_renderbuffers
second_renderbuffer_crashes hash s n x y r f positive x0 y0 at_x at_f at_y =
    ground (arith, at_x, at_f, at_y)
