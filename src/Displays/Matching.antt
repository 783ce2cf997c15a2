-- ===== src/Displays/Matching.antt =====
-- Which contexts and surfaces src/egl_state.c lets an application make current together.
use gpu_proxy.Base.{
  ℕ, ◌≡◌, ◌≢◌, refl, ap, sym, ◌∙◌, some, true, false, not, List, [], ◌∷◌, ◌++◌, ◌==◌, ◌&&◌, ◌||◌,
  if◌then◌else◌, arith, All, Bool-cases, inl, inr,
}
use mathlib.Core.Path.{subst}
use mathlib.Core.Option.{some-injective}
use gpu_proxy.Displays.{
  Entry, Display, egl_no_display, egl_no_surface, delete_first_entry, matched_dpy, at_matched,
  cached_gl_display_find, cached_gl_display_new, cached_gl_display_destroy, link_list_append,
  cached_gl_surfaces, cached_gl_contexts, cached_gl_surface_add, cached_gl_surface_destroy,
  cached_gl_context_add, cached_gl_context_destroy, has_handle, config_of, Found, look_draw,
  look_read, scan, nothing_found, cached_gl_find_display_context_surface_matching,
}

scan_draw :
    (draw read : ℕ) (l : List Entry) (f : Found)
    → (scan draw read l f).draw_config ≡ (
        if f.find_draw
        then f.draw_config
        else if has_handle draw l
        then config_of draw l
        else f.draw_config)
scan_draw draw read [] f = ground arith
scan_draw draw read (e ∷ r) f =
    ground (arith, scan_draw draw read r (look_read read e (look_draw draw e f)))

scan_read :
    (draw read : ℕ) (l : List Entry) (f : Found)
    → (scan draw read l f).read_config ≡ (
        if f.find_read
        then f.read_config
        else if has_handle read l
        then config_of read l
        else f.read_config)
scan_read draw read [] f = ground arith
scan_read draw read (e ∷ r) f =
    ground (arith, scan_read draw read r (look_read read e (look_draw draw e f)))

scan-config :
    (draw read : ℕ) (l : List Entry)
    → ((scan draw read l nothing_found).draw_config ≡ config_of draw l)
      × ((scan draw read l nothing_found).read_config ≡ config_of read l)
scan-config draw read l = (
  scan_draw draw read l nothing_found ∙ found draw l,
  scan_read draw read l nothing_found ∙ found read l,
)
  where
    found : (h : ℕ) (l : List Entry) → (if has_handle h l then config_of h l else 0) ≡ config_of h l
    found h [] = refl
    found h (e ∷ r) = ground (arith, found h r)

-- Whether a context may be current with two surfaces, on a display that is known: the context has a
-- config; and either the display supports surfaceless contexts and there are no surfaces, or both
-- surfaces have the context's config. A handle's config is that of its first entry, and else 0.
pub matching_exact :
    (dpys : List Display) (display context draw read : ℕ) (dpy : Display)
    → cached_gl_display_find dpys display ≡ some dpy
    → cached_gl_find_display_context_surface_matching dpys display context draw read ≡ (
        not (config_of context dpy.contexts == 0)
        && ((dpy.support_surfaceless && read == egl_no_surface && draw == egl_no_surface)
            || (config_of draw dpy.surfaces == config_of read dpy.surfaces
                && config_of draw dpy.surfaces == config_of context dpy.contexts)))
unfolding cached_gl_find_display_context_surface_matching cached_gl_display_find cached_gl_contexts
    cached_gl_surfaces
matching_exact dpys display context draw read dpy e =
    ground (arith, scan-config draw read dpy.surfaces)

matched-at_matched :
    (f : Display → Display) (dpys : List Display) (display : ℕ) (dpy : Display)
    → ((d : Display) → (f d).display ≡ d.display)
    → matched_dpy dpys display ≡ some dpy
    → matched_dpy (at_matched f dpys display) display ≡ some (f dpy)
matched-at_matched f [] display dpy k e = absurd (ground arith)
matched-at_matched f (d ∷ r) display dpy k e =
    ground (arith, k d, matched-at_matched f r display dpy k)

config_of-append :
    (h a c : ℕ) (l : List Entry)
    → has_handle h l ≡ false
    → config_of h (l ++ (record { address = a; config = c; handle = h } ∷ [])) ≡ c
config_of-append h a c [] n = ground arith
config_of-append h a c (e ∷ r) n = ground (arith, config_of-append h a c r)

at_matched-same :
    (f : Display → Display) (dpys : List Display) (display : ℕ)
    → ((d : Display) → matched_dpy dpys display ≡ some d → f d ≡ d)
    → at_matched f dpys display ≡ dpys
at_matched-same f [] display h = refl
at_matched-same f (d ∷ r) display h = elim (Bool-cases (d.display == display)) [
  | inl same ↦ rw same (ap (λ x. x ∷ r) (h d (ground arith)))
  | inr other ↦
      rw other (ap (λ r'. d ∷ r') (at_matched-same f r display (λ x e. h x (ground arith))))
]

delete_first_entry-same :
    {A : Type 0} (address_of : A → ℕ) (l : List A) (a : ℕ)
    → All (λ x. address_of x ≢ a) l
    → delete_first_entry address_of l a ≡ l
delete_first_entry-same address_of [] a h = refl
delete_first_entry-same address_of (x ∷ r) a h =
    ground (arith, h.0, delete_first_entry-same address_of r a h.1)

find-matched :
    (dpys : List Display) (display : ℕ) (dpy : Display)
    → cached_gl_display_find dpys display ≡ some dpy
    → (display ≢ egl_no_display) × (matched_dpy dpys display ≡ some dpy)
unfolding cached_gl_display_find
find-matched dpys display dpy e = ground arith

matched-find :
    (dpys : List Display) (display : ℕ) (dpy : Display)
    → display ≢ egl_no_display
    → matched_dpy dpys display ≡ some dpy
    → cached_gl_display_find dpys display ≡ some dpy
unfolding cached_gl_display_find
matched-find dpys display dpy n e = ground arith

-- The displays after a context and a surface were added to one of them.
abbrev pub added : ℕ → ℕ → List Display → ℕ → ℕ → ℕ → ℕ → List Display
added a b dpys display config context surface =
    cached_gl_surface_add b (cached_gl_context_add a dpys display config context) display config
      surface

-- A context and a surface that were made with one config (not 0) on a known display, under handles
-- that are new there, may be made current together.
pub added_match :
    (a b : ℕ) (dpys : List Display) (display config context surface : ℕ) (dpy : Display)
    → cached_gl_display_find dpys display ≡ some dpy
    → config ≢ 0
    → has_handle context dpy.contexts ≡ false
    → has_handle surface dpy.surfaces ≡ false
    → cached_gl_find_display_context_surface_matching
        (added a b dpys display config context surface)
        display
        context
        surface
        surface
      ≡ true
unfolding cached_gl_surface_add cached_gl_context_add
added_match a b dpys display config context surface dpy e n hc hs =
    let (known, m) = find-matched dpys display dpy e in
    let with_context : Display → Display = λ d. record d {
      contexts =
          link_list_append d.contexts (record { address = a; config = config; handle = context });
    } in
    let with_surface : Display → Display = λ d. record d {
      surfaces =
          link_list_append d.surfaces (record { address = b; config = config; handle = surface });
    } in
    let found = matched-find _ display _ known (
      matched-at_matched with_surface _ display _ (λ d. refl)
        (matched-at_matched with_context dpys display dpy (λ d. refl) m)) in
    matching_exact _ display context surface surface _ found
    ∙ ground (
      arith,
      config_of-append context a config dpy.contexts hc,
      config_of-append surface b config dpy.surfaces hs,
    )

-- Destroying a surface or a context looks for its handle among addresses: where no entry of the
-- display is stored at an address that is the same number as the handle, nothing is removed.
pub destroy_removes_nothing :
    (dpys : List Display) (display handle : ℕ) (dpy : Display)
    → cached_gl_display_find dpys display ≡ some dpy
    → All (λ e. e.address ≢ handle) dpy.surfaces
    → All (λ e. e.address ≢ handle) dpy.contexts
    → (cached_gl_surface_destroy dpys display handle ≡ dpys)
      × (cached_gl_context_destroy dpys display handle ≡ dpys)
unfolding cached_gl_surface_destroy cached_gl_context_destroy
destroy_removes_nothing dpys display handle dpy e hs hc =
    let (known, m) = find-matched dpys display dpy e in
    (
      at_matched-same _ dpys display (λ d p.
          subst
            (λ x. record x { surfaces = delete_first_entry (λ y. y.address) x.surfaces handle } ≡ x)
            (some-injective _ _ (sym m ∙ p))
            (ap (λ l. record dpy { surfaces = l })
              (delete_first_entry-same (λ y. y.address) dpy.surfaces handle hs))),
      at_matched-same _ dpys display (λ d p.
          subst
            (λ x. record x { contexts = delete_first_entry (λ y. y.address) x.contexts handle } ≡ x)
            (some-injective _ _ (sym m ∙ p))
            (ap (λ l. record dpy { contexts = l })
              (delete_first_entry-same (λ y. y.address) dpy.contexts handle hc))),
    )

-- A display that is appended with a new handle, at an address of its own, is found; and destroying
-- it leaves the list as it was.
pub display_added_destroyed :
    (a native_display display : ℕ) (dpys : List Display)
    → display ≢ egl_no_display
    → All (λ d. (d.display ≢ display) × (d.address ≢ a)) dpys
    → (cached_gl_display_find
          (link_list_append dpys (cached_gl_display_new a native_display display))
          display
        ≡ some (cached_gl_display_new a native_display display))
      × (cached_gl_display_destroy
            (link_list_append dpys (cached_gl_display_new a native_display display))
            display
          ≡ dpys)
unfolding cached_gl_display_find cached_gl_display_destroy cached_gl_display_new
display_added_destroyed a native_display display dpys n h =
    (ground (arith, found), ground (arith, found, removed dpys h))
  where
    new : Display
    new = cached_gl_display_new a native_display display

    found_in :
        (l : List Display)
        → All (λ d. (d.display ≢ display) × (d.address ≢ a)) l
        → matched_dpy (l ++ (new ∷ [])) display ≡ some new
    found_in [] h = ground arith
    found_in (d ∷ r) h = ground (arith, h.0, found_in r h.1)

    found : matched_dpy (dpys ++ (new ∷ [])) display ≡ some new
    found = found_in dpys h

    removed :
        (l : List Display)
        → All (λ d. (d.display ≢ display) × (d.address ≢ a)) l
        → delete_first_entry (λ d. d.address) (l ++ (new ∷ [])) a ≡ l
    removed [] h = ground arith
    removed (d ∷ r) h = ground (arith, h.0, removed r h.1)
