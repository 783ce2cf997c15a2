-- ===== src/Tests/Lifecycles.antt =====
-- Contexts and their states at concrete inputs.
use gpu_proxy.Base.{◌≡◌, ◌≢◌, refl, true, false, [], ◌∷◌, inr, arith}
use gpu_proxy.Contexts.{EglState, Client, done, no_fuel, egl_state_new, destroy_state}
use gpu_proxy.Contexts.Lookups.{Unique}
use gpu_proxy.Contexts.Entries.{egl_make_current}
use gpu_proxy.Contexts.Entries.{egl_query_string, egl_swap_buffers}
use gpu_proxy.Contexts.Current.{Answers, egl_make_current-IsCurrent}
use gpu_proxy.Contexts.Release.{destroy_state-ends}

-- Two contexts of the display 1: the context 8 shares with the context 7, and 8 is current.
abbrev parent : EglState
parent = record (egl_state_new 100 1 7) { contexts_sharing = 1 }

abbrev child : EglState
child = record (egl_state_new 200 1 8) {
  share_context = 100;
  active = true;
  drawable = 3;
  readable = 3;
}

abbrev two : Client
two = record { states = parent ∷ child ∷ []; displays = []; active_state = 200 }

two-Unique : Unique two.states
two-Unique = (ground arith, refl, (ground arith, refl, tt))

egl_make_current-IsCurrent_example : Answers (egl_make_current 300 two 1 4 5 7 true) 1 4 5 7
egl_make_current-IsCurrent_example =
    egl_make_current-IsCurrent 300 two 1 4 5 7
      (record { unique = two-Unique; current = inr (child, refl, refl, refl, refl) }) (ground arith)
      refl (ground arith) (ground arith)

destroy_state-ends_example : destroy_state two.states 100 ≢ no_fuel
destroy_state-ends_example = destroy_state-ends two.states 100

-- A context that no other shares.
abbrev alone : Client
alone = record { states = egl_state_new 100 1 7 ∷ []; displays = []; active_state = 0 }

-- Buffers are swapped only for the current surface.
swapped : egl_swap_buffers two 1 3 true ≡ done (true, true)
unfolding egl_swap_buffers
swapped = refl

not_swapped : egl_swap_buffers two 1 4 true ≡ done (false, false)
unfolding egl_swap_buffers
not_swapped = refl

-- A display that is known stays as it is when its extensions are without surfaceless contexts.
not_surfaceless : egl_query_string two 1 true false ≡ two
unfolding egl_query_string
not_surfaceless = refl
