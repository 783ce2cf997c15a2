-- ===== src/Contexts.antt =====
-- src/client/caching_client.c and src/egl_state.c: the client's states, one for each context, the one
-- that is current, and how states go when contexts, surfaces and displays are destroyed.
pub mod Entries
pub mod Lookups
pub mod Switch
pub mod Current
pub mod Release
pub mod Sharing
use gpu_proxy.Base.{
  ℕ, zero, suc, ◌+◌, ◌-◌, ◌%◌, ◌^◌, Option, none, some, Bool, true, false, not, List, [], ◌∷◌, ◌++◌,
  ◌==◌, ◌&&◌, ◌||◌, if◌then◌else◌, length,
}
use gpu_proxy.Displays.{
  Display, delete_first_entry, link_list_append, cached_gl_surface_destroy,
  cached_gl_context_destroy,
}

-- What these functions use of `egl_state_t`. A pointer is an address, NULL is 0; `size_t` has 64
-- bits. `EGL_NO_CONTEXT`, `EGL_NO_DISPLAY` and `EGL_NO_SURFACE` are 0.
pub record EglState : Type 0 where
  pub address : ℕ
  pub display : ℕ
  pub context : ℕ
  pub drawable : ℕ
  pub readable : ℕ
  pub share_context : ℕ
  pub contexts_sharing : ℕ
  pub active : Bool
  pub destroy_dpy : Bool
  pub destroy_ctx : Bool
  pub destroy_read : Bool
  pub destroy_draw : Bool

-- The two global lists, and the `active_state` of the client.
pub record Client : Type 0 where
  pub states : List EglState
  pub displays : List Display
  pub active_state : ℕ

-- A result, or an access through a pointer to a state that was freed, or the end of the fuel.
pub data Outcome (A : Type 0) : Type 0 where
  done : A → Outcome A
  dangling no_fuel : Outcome A

infixl 5 ◌>>=◌
abbrev pub ◌>>=◌ : {A B : Type 0} → Outcome A → (A → Outcome B) → Outcome B
done a >>= f = f a
dangling >>= f = dangling
no_fuel >>= f = no_fuel

-- `egl_state_new`, at the address that `malloc` gave.
abbrev pub egl_state_new : ℕ → ℕ → ℕ → EglState
egl_state_new a display context = record {
  address = a;
  display = display;
  context = context;
  drawable = 0;
  readable = 0;
  share_context = 0;
  contexts_sharing = 0;
  active = false;
  destroy_dpy = false;
  destroy_ctx = false;
  destroy_read = false;
  destroy_draw = false;
}

-- Reading and writing through a pointer to a state.
abbrev pub state_at : List EglState → ℕ → Option EglState
state_at [] a = none
state_at (s ∷ r) a = if s.address == a then some s else state_at r a

abbrev pub at_state : (EglState → EglState) → List EglState → ℕ → List EglState
at_state f [] a = []
at_state f (s ∷ r) a = if s.address == a then f s ∷ r else s ∷ at_state f r a

-- `link_list_delete_first_entry_matching_data`
abbrev pub delete_state : List EglState → ℕ → List EglState
delete_state states a = delete_first_entry (λ s. s.address) states a

-- `contexts_sharing--`
abbrev pub less_one : ℕ → ℕ
less_one n = (n + 2 ^ 64 - 1) % 2 ^ 64

abbrev pub release : EglState → EglState
release s = record s { contexts_sharing = less_one s.contexts_sharing }

-- The call for the state that a state shares with, once its counter was taken down.
abbrev pub release_parent :
    (List EglState → ℕ → Outcome (List EglState)) → List EglState → ℕ → Outcome (List EglState)
release_parent destroy states parent =
    if parent == 0 then done states else elim (state_at states parent) [
      | none ↦ dangling
      | some p ↦ destroy (at_state release states parent) parent
    ]

-- `_caching_client_destroy_state`, with fuel for its recursion.
pub destroy_state_within : ℕ → List EglState → ℕ → Outcome (List EglState)
destroy_state_within zero states a = no_fuel
destroy_state_within (suc fuel) states a = elim (state_at states a) [
  | none ↦ dangling
  | some s ↦ elim (less_one s.contexts_sharing == 0) [
    | false ↦ done (at_state release states a)
    | true ↦
        release_parent (destroy_state_within fuel) (at_state release states a) s.share_context
        >>= λ left. done (delete_state left a)
  ]
]

pub destroy_state : List EglState → ℕ → Outcome (List EglState)
destroy_state states a = destroy_state_within (length states + 2) states a

-- `find_state_with_display_and_context`
unfoldable pub find_state : List EglState → ℕ → ℕ → Option EglState
find_state [] display context = none
find_state (s ∷ r) display context =
    if s.context == context && s.display == display then some s else find_state r display context

-- `_caching_client_get_or_create_state`: the state's address, and the list; `a` is what `malloc` gives.
pub get_or_create_state : ℕ → List EglState → ℕ → ℕ → ℕ × List EglState
get_or_create_state a states display context = elim (find_state states display context) [
  | none ↦ (a, link_list_append states (egl_state_new a display context))
  | some s ↦ (s.address, states)
]

-- The state that is to be current, or NULL, with the list.
abbrev pub switch_to : ℕ → List EglState → ℕ → ℕ → ℕ → ℕ → ℕ × List EglState
switch_to a states display drawable readable context =
    if context == 0 || display == 0
    then (0, states)
    else let (new_state, states') = get_or_create_state a states display context in
      (
        new_state,
        at_state (λ s. record s { drawable = drawable; readable = readable; active = true }) states'
            new_state,
      )

-- The surfaces of the old state that were to be destroyed: the displays, and the state.
abbrev pub drop_surfaces : ℕ → List Display → EglState → List Display
drop_surfaces display dpys s =
    let dpys' =
      if s.destroy_read then cached_gl_surface_destroy dpys display s.readable else dpys in
    if s.destroy_draw && not (s.readable == s.drawable)
    then cached_gl_surface_destroy dpys' display s.drawable
    else dpys'

abbrev pub deactivate : EglState → EglState
deactivate s = record s {
  active = false;
  readable = if s.destroy_read then 0 else s.readable;
  drawable = if s.destroy_draw then 0 else s.drawable;
}

-- What is left of the states once the old one is no longer active.
abbrev pub leave_state : List EglState → EglState → Outcome (List EglState)
leave_state states s =
    let states' = at_state deactivate states s.address in
    if s.destroy_dpy || s.destroy_ctx then destroy_state states' s.address else done states'

-- `_caching_client_make_current`. Where the old state is destroyed the code reads its flag, display
-- and context once more, after it may have freed it; they are taken as they were.
pub make_current : ℕ → Client → ℕ → ℕ → ℕ → ℕ → Outcome Client
make_current a c display drawable readable context =
    let (new_state, states) = switch_to a c.states display drawable readable context in
    if c.active_state == new_state
    then done (record c { states = states })
    else if c.active_state == 0
    then done (record c { states = states; active_state = new_state })
    else elim (state_at states c.active_state) [
      | none ↦ dangling
      | some s ↦ leave_state states s >>= λ left. done (record {
        states = left;
        displays =
            let dpys = drop_surfaces display c.displays s in
            if s.destroy_ctx then cached_gl_context_destroy dpys s.display s.context else dpys;
        active_state = new_state;
      })
    ]

-- One round of the loop of `_caching_client_destroy_surface`.
abbrev pub forget_surface : ℕ → ℕ → EglState → EglState
forget_surface display surface s =
    if s.display == display
    then (let reads = s.readable == surface in
        let draws = s.drawable == surface in
        record s {
          destroy_read = reads || s.destroy_read;
          destroy_draw = draws || s.destroy_draw;
          readable = if not s.active && reads then 0 else s.readable;
          drawable = if not s.active && draws then 0 else s.drawable;
        })
    else s

abbrev pub forget_surfaces : ℕ → ℕ → List EglState → List EglState
forget_surfaces display surface [] = []
forget_surfaces display surface (s ∷ r) =
    forget_surface display surface s ∷ forget_surfaces display surface r

-- The display's list, from which each inactive state of the display has the surface taken.
abbrev pub destroy_for_each : ℕ → ℕ → List EglState → List Display → List Display
destroy_for_each display surface [] dpys = dpys
destroy_for_each display surface (s ∷ r) dpys = destroy_for_each display surface r (
    if s.display == display && not s.active
    then cached_gl_surface_destroy dpys display surface
    else dpys)

pub destroy_surface : Client → ℕ → ℕ → Client
destroy_surface c display surface = record c {
  states = forget_surfaces display surface c.states;
  displays = destroy_for_each display surface c.states c.displays;
}
