-- ===== src/Displays.antt =====
-- src/egl_state.c and src/types_private.c: the displays that the client knows, each with the
-- surfaces and contexts made on it. A linked list is a list; `address` is the `data` pointer, as `malloc`
-- gave it, by which the list functions compare.
pub mod Matching
use gpu_proxy.Base.{
  ℕ, Option, none, some, Bool, true, false, not, List, [], ◌∷◌, ◌++◌, ◌==◌, ◌&&◌, ◌||◌,
  if◌then◌else◌,
}

-- `surface_t` and `context_t`: a handle of the driver's, and the config that it was made with.
pub record Entry : Type 0 where
  pub address : ℕ
  pub config : ℕ
  pub handle : ℕ

-- `display_ctxs_surfaces_t`
pub record Display : Type 0 where
  pub address : ℕ
  pub display : ℕ
  pub native_display : ℕ
  pub native_display_locked : Bool
  pub support_surfaceless : Bool
  pub surfaces : List Entry
  pub contexts : List Entry

-- `EGL_NO_DISPLAY` and `EGL_NO_SURFACE`
abbrev pub egl_no_display : ℕ
egl_no_display = 0

abbrev pub egl_no_surface : ℕ
egl_no_surface = 0

-- `link_list_append`
abbrev pub link_list_append : {A : Type 0} → List A → A → List A
link_list_append list new_element = list ++ (new_element ∷ [])

-- `link_list_delete_first_entry_matching_data`, with `link_list_delete_element` on what it finds.
abbrev pub delete_first_entry : {A : Type 0} → (A → ℕ) → List A → ℕ → List A
delete_first_entry address_of [] a = []
delete_first_entry address_of (x ∷ r) a =
    if address_of x == a then r else x ∷ delete_first_entry address_of r a

-- `link_list_match`
abbrev pub link_list_match : {A : Type 0} → (A → ℕ) → List A → ℕ → Bool
link_list_match address_of [] a = false
link_list_match address_of (x ∷ r) a =
    not (a == 0) && (address_of x == a || link_list_match address_of r a)

-- `cached_gl_display_new`, at the address that `malloc` gave.
pub cached_gl_display_new : ℕ → ℕ → ℕ → Display
cached_gl_display_new address native_display display = record {
  address = address;
  display = display;
  native_display = native_display;
  native_display_locked = false;
  support_surfaceless = false;
  surfaces = [];
  contexts = [];
}

-- The loop over the displays that several functions share: the first with the handle.
abbrev pub matched_dpy : List Display → ℕ → Option Display
matched_dpy [] display = none
matched_dpy (d ∷ r) display = if d.display == display then some d else matched_dpy r display

-- A change of what that loop finds.
abbrev pub at_matched : (Display → Display) → List Display → ℕ → List Display
at_matched f [] display = []
at_matched f (d ∷ r) display = if d.display == display then f d ∷ r else d ∷ at_matched f r display

pub cached_gl_display_destroy : List Display → ℕ → List Display
cached_gl_display_destroy dpys display = elim (matched_dpy dpys display) [
  | none ↦ dpys
  | some d ↦ delete_first_entry (λ e. e.address) dpys d.address
]

unfoldable pub cached_gl_display_find : List Display → ℕ → Option Display
cached_gl_display_find dpys display =
    if display == egl_no_display then none else matched_dpy dpys display

-- `cached_gl_surfaces` and `cached_gl_contexts`: an empty list for an unknown display.
abbrev pub surfaces_of : Option Display → List Entry
surfaces_of none = []
surfaces_of (some d) = d.surfaces

abbrev pub contexts_of : Option Display → List Entry
contexts_of none = []
contexts_of (some d) = d.contexts

pub cached_gl_surfaces : List Display → ℕ → List Entry
cached_gl_surfaces dpys display = surfaces_of (matched_dpy dpys display)

pub cached_gl_contexts : List Display → ℕ → List Entry
cached_gl_contexts dpys display = contexts_of (matched_dpy dpys display)

pub cached_gl_surface_add : ℕ → List Display → ℕ → ℕ → ℕ → List Display
cached_gl_surface_add address dpys display config surface =
    at_matched
      (λ d. record d {
        surfaces =
            link_list_append d.surfaces
              (record { address = address; config = config; handle = surface });
      })
      dpys display

-- The list function is given the handle, and compares it with addresses.
pub cached_gl_surface_destroy : List Display → ℕ → ℕ → List Display
cached_gl_surface_destroy dpys display surface =
    at_matched (λ d. record d { surfaces = delete_first_entry (λ e. e.address) d.surfaces surface })
      dpys display

pub cached_gl_context_add : ℕ → List Display → ℕ → ℕ → ℕ → List Display
cached_gl_context_add address dpys display config context =
    at_matched
      (λ d. record d {
        contexts =
            link_list_append d.contexts
              (record { address = address; config = config; handle = context });
      })
      dpys display

pub cached_gl_context_destroy : List Display → ℕ → ℕ → List Display
cached_gl_context_destroy dpys display context =
    at_matched (λ d. record d { contexts = delete_first_entry (λ e. e.address) d.contexts context })
      dpys display

abbrev pub has_handle : ℕ → List Entry → Bool
has_handle h [] = false
has_handle h (e ∷ r) = e.handle == h || has_handle h r

pub cached_gl_surface_match : List Entry → ℕ → Bool
cached_gl_surface_match surfaces surface = surface == egl_no_surface || has_handle surface surfaces

-- The loop over the contexts: the config of the first with the handle, or 0.
abbrev pub config_of : ℕ → List Entry → ℕ
config_of h [] = 0
config_of h (e ∷ r) = if e.handle == h then e.config else config_of h r

-- What the loop over the surfaces keeps.
pub record Found : Type 0 where
  pub find_draw : Bool
  pub draw_config : ℕ
  pub find_read : Bool
  pub read_config : ℕ

-- Its body for one surface.
abbrev pub look_draw : ℕ → Entry → Found → Found
look_draw draw e f =
    if not f.find_draw && e.handle == draw
    then record f { find_draw = true; draw_config = e.config }
    else f

abbrev pub look_read : ℕ → Entry → Found → Found
look_read read e f =
    if not f.find_read && e.handle == read
    then record f { find_read = true; read_config = e.config }
    else f

-- The loop, left once both are found.
abbrev pub scan : ℕ → ℕ → List Entry → Found → Found
scan draw read [] f = f
scan draw read (e ∷ r) f =
    let f' = look_read read e (look_draw draw e f) in
    let rest = scan draw read r f' in if f'.find_draw && f'.find_read then f' else rest

abbrev pub nothing_found : Found
nothing_found = record { find_draw = false; draw_config = 0; find_read = false; read_config = 0 }

-- The end of the function, from where the display and the context's config are known.
abbrev pub surfaces_match : Display → ℕ → List Entry → ℕ → ℕ → Bool
surfaces_match dpy ctx_config surfaces draw read =
    if ctx_config == 0
    then false
    else if dpy.support_surfaceless && read == egl_no_surface && draw == egl_no_surface
    then true
    else let f = scan draw read surfaces nothing_found in
      f.draw_config == f.read_config && f.draw_config == ctx_config

pub cached_gl_find_display_context_surface_matching : List Display → ℕ → ℕ → ℕ → ℕ → Bool
cached_gl_find_display_context_surface_matching dpys display context draw read =
    elim (cached_gl_display_find dpys display) [
      | none ↦ false
      | some dpy ↦
          surfaces_match dpy (config_of context (cached_gl_contexts dpys display))
            (cached_gl_surfaces dpys display) draw read
    ]
