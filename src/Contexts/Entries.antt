-- ===== src/Contexts/Entries.antt =====
-- The EGL entry points of src/client/caching_client.c. What the driver answers is an argument.
use gpu_proxy.Base.{
  ℕ, Option, none, some, Bool, true, false, not, List, [], ◌∷◌, ◌==◌, ◌&&◌, ◌||◌, if◌then◌else◌,
  ◌+◌,
}
use gpu_proxy.Displays.{
  link_list_append, at_matched, cached_gl_display_new, cached_gl_display_destroy,
  cached_gl_display_find, cached_gl_surfaces, cached_gl_surface_add, cached_gl_surface_match,
  cached_gl_context_add, cached_gl_context_destroy,
}
use gpu_proxy.Contexts.{
  EglState, Client, Outcome, done, dangling, ◌>>=◌, state_at, at_state, destroy_state, find_state,
  get_or_create_state, make_current, destroy_surface,
}

-- `caching_client_eglGetDisplay`
unfoldable pub egl_get_display : ℕ → Client → ℕ → ℕ → ℕ × Client
egl_get_display a c native_display result = (
  result,
  if result == 0 then c else elim (cached_gl_display_find c.displays result) [
    | some d ↦ c
    | none ↦ record c {
      displays = link_list_append c.displays (cached_gl_display_new a native_display result);
    }
  ],
)

-- `caching_client_eglQueryString`, with what the tests for the extensions find.
unfoldable pub egl_query_string : Client → ℕ → Bool → Bool → Client
egl_query_string c display is_extensions surfaceless =
    if is_extensions && surfaceless
    then record c {
      displays = at_matched (λ d. record d { support_surfaceless = true }) c.displays display;
    }
    else c

-- `caching_client_eglCreatePbufferSurface`, `…PixmapSurface` and `…WindowSurface`.
unfoldable pub egl_create_surface : ℕ → Client → ℕ → ℕ → ℕ → ℕ × Client
egl_create_surface a c display config result = (
  result,
  if result == 0
      then c
      else record c { displays = cached_gl_surface_add a c.displays display config result },
)

-- `share_context->contexts_sharing++`, after the new state was made to point to it.
abbrev pub share : List EglState → ℕ → ℕ → List EglState
share states new_state parent =
    at_state (λ s. record s { contexts_sharing = s.contexts_sharing + 1 })
      (at_state (λ s. record s { share_context = parent }) states new_state) parent

-- `caching_client_eglCreateContext`; `a`, `b` and `d` are the addresses for what it allocates.
unfoldable pub egl_create_context : ℕ → ℕ → ℕ → Client → ℕ → ℕ → ℕ → ℕ → ℕ × Client
egl_create_context a b d c display config share_context result =
    if result == 0
    then (0, c)
    else let dpys = cached_gl_context_add d c.displays display config result in
      if share_context == 0
      then (result, record c { displays = dpys })
      else let (new_state, states) = get_or_create_state a c.states display result in
        let (parent, states') = get_or_create_state b states display share_context in
        (result, record c { displays = dpys; states = share states' new_state parent })

-- `caching_client_eglDestroySurface`
unfoldable pub egl_destroy_surface : Client → ℕ → ℕ → Bool → Bool × Client
egl_destroy_surface c display surface result =
    if c.active_state == 0
    then (false, c)
    else if result
    then (true, destroy_surface c display surface)
    else (false, c)

-- `caching_client_eglReleaseThread`
unfoldable pub egl_release_thread : ℕ → Client → Bool → Outcome (Bool × Client)
egl_release_thread a c result = elim result [
  | false ↦ done (false, c)
  | true ↦ make_current a c 0 0 0 0 >>= λ c'. done (true, c')
]

-- `caching_client_eglDestroyContext`
unfoldable pub egl_destroy_context : Client → ℕ → ℕ → Bool → Outcome (Bool × Client)
egl_destroy_context c display context false = done (false, c)
egl_destroy_context c display context true = elim (find_state c.states display context) [
  | none ↦ done (true, c)
  | some s ↦
      if s.active
      then done (
        true,
        record c { states = at_state (λ t. record t { destroy_ctx = true }) c.states s.address },
      )
      else destroy_state c.states s.address >>= λ left. done (
        true,
        record c { states = left; displays = cached_gl_context_destroy c.displays display context },
      )
]

-- The address after the one at hand: of the rest of the list, the first that is still there.
abbrev pub next_of : List ℕ → List EglState → ℕ
next_of [] states = 0
next_of (x ∷ r) states = elim (state_at states x) [ none ↦ next_of r states | some s ↦ x ]

-- The loop of `caching_client_eglTerminate`, over the addresses that were in the list; `next` is
-- what the code read as the next element before it destroyed the last one.
abbrev pub destroy_inactive : ℕ → List ℕ → ℕ → List EglState → Outcome (List EglState)
destroy_inactive display [] next states = done states
destroy_inactive display (x ∷ r) next states = elim (x == next) [
  | false ↦ destroy_inactive display r next states
  | true ↦ elim (state_at states x) [
    | none ↦ dangling
    | some s ↦
        (if s.display == display && not s.active then destroy_state states x else done states)
        >>= destroy_inactive display r (next_of r states)
  ]
]

abbrev pub addresses : List EglState → List ℕ
addresses [] = []
addresses (s ∷ r) = s.address ∷ addresses r

abbrev pub first_of : List ℕ → ℕ
first_of [] = 0
first_of (x ∷ r) = x

-- The end of `caching_client_eglTerminate`: the display of the current state goes later.
abbrev pub terminate_display : Client → ℕ → Outcome Client
terminate_display c display =
    let now = done (record c { displays = cached_gl_display_destroy c.displays display }) in
    if c.active_state == 0 then now else elim (state_at c.states c.active_state) [
      | none ↦ dangling
      | some s ↦
          if s.display == display
          then done (record c {
            states = at_state (λ t. record t { destroy_dpy = true }) c.states c.active_state;
          })
          else now
    ]

-- `caching_client_eglTerminate`
unfoldable pub egl_terminate : Client → ℕ → Bool → Outcome (Bool × Client)
egl_terminate c display false = done (false, c)
egl_terminate c display true = elim (c.states) [
  | [] ↦ done (true, c)
  | s ∷ r ↦
      destroy_inactive display (addresses c.states) (first_of (addresses c.states)) c.states
      >>= λ left. terminate_display (record c { states = left }) display >>= λ c'. done (true, c')
]

-- What `caching_client_eglGetCurrentContext`, `…Display` and `…Surface` answer with no state.
abbrev pub of_current : Client → (EglState → ℕ) → Outcome ℕ
of_current c answer =
    if c.active_state == 0
    then done 0
    else elim (state_at c.states c.active_state) [ none ↦ dangling | some s ↦ done (answer s) ]

unfoldable pub egl_get_current_context : Client → Outcome ℕ
egl_get_current_context c = of_current c (λ s. s.context)

unfoldable pub egl_get_current_display : Client → Outcome ℕ
egl_get_current_display c = of_current c (λ s. s.display)

unfoldable pub egl_get_current_surface : Client → Bool → Outcome ℕ
egl_get_current_surface c draw =
    of_current c
      (λ s. if s.display == 0 || s.context == 0 then 0 else if draw then s.drawable else s.readable)

-- `caching_client_eglSwapBuffers`: the answer, and whether the call went on.
unfoldable pub egl_swap_buffers : Client → ℕ → ℕ → Bool → Outcome (Bool × Bool)
egl_swap_buffers c display surface result =
    if c.active_state == 0 then done (false, false) else elim (state_at c.states c.active_state) [
      | none ↦ dangling
      | some s ↦
          if s.display == display && s.drawable == surface
          then done (result, true)
          else done (false, false)
    ]

-- How eglMakeCurrent went on to the server: not at all, with or without waiting for its answer.
pub data Sent : Type 0 where
  unsent unanswered answered : Sent

-- The part of `caching_client_eglMakeCurrent` that decides: no call, or how it is sent.
abbrev pub how_to_send : Client → Option EglState → ℕ → ℕ → ℕ → ℕ → Sent
how_to_send c none display draw read context =
    if display == 0 || context == 0 then unsent else answered
how_to_send c (some s) display draw read context =
    if s.display == display && s.context == context
    then (if s.drawable == draw && s.readable == read
        then unsent
        else if cached_gl_surface_match (cached_gl_surfaces c.displays display) draw
            && cached_gl_surface_match (cached_gl_surfaces c.displays display) read
        then unanswered
        else answered)
    else answered

abbrev pub and_make_current :
    ℕ → Client → ℕ → ℕ → ℕ → ℕ → Sent → Bool → Outcome (Bool × Sent × Client)
and_make_current a c display draw read context unsent result = done (true, unsent, c)
and_make_current a c display draw read context unanswered result =
    make_current a c display draw read context >>= λ c'. done (true, unanswered, c')
and_make_current a c display draw read context answered false = done (false, answered, c)
and_make_current a c display draw read context answered true =
    make_current a c display draw read context >>= λ c'. done (true, answered, c')

-- The state that `client_get_current_state` answers with, by reading through `active_state`.
abbrev pub current_state : Client → Outcome (Option EglState)
current_state c =
    if c.active_state == 0
    then done none
    else elim (state_at c.states c.active_state) [ none ↦ dangling | some s ↦ done (some s) ]

-- `caching_client_eglMakeCurrent`; `result` is the driver's answer, if it is waited for.
unfoldable pub egl_make_current : ℕ → Client → ℕ → ℕ → ℕ → ℕ → Bool → Outcome (Bool × Sent × Client)
egl_make_current a c display draw read context result = current_state c >>= λ s.
    and_make_current a c display draw read context (how_to_send c s display draw read context)
      result
