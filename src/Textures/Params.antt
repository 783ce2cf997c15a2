-- ===== src/Textures/Params.antt =====
-- src/client/caching_client.c: the cached parameters of textures and those of the driver.
use gpu_proxy.Base.{
  ℕ, suc, ◌≡◌, ◌≢◌, refl, ap, sym, ◌∙◌, Option, none, some, Bool, true, false, not, List, [], ◌∷◌,
  ◌==◌, ◌||◌, ◌&&◌, if◌then◌else◌, arith, inl, inr, ◌⊎◌, Option-cases,
}
use gpu_proxy.Gl.Enums
use gpu_proxy.Gl.State.{int_negative}
use gpu_proxy.Caches.{TexParams, ObjectTable, found_nonzero}
use gpu_proxy.Textures.{
  TexEnv, TexCall, Textures, bound_texture, params_of, with_params, set_param, param_set,
  is_bad_value, is_wrap, param_value, failed, gl_tex_parameteri, gl_get_tex_parameteriv,
}

-- What the driver does with a call for the bound texture: it stores the value under the parameter's
-- name.
abbrev pub store : TexEnv → TexParams → ℕ → ℕ → TexParams
store env p pname v =
    if pname == Enums.texture_mag_filter
    then record p { mag_filter = v }
    else if pname == Enums.texture_min_filter
    then record p { min_filter = v }
    else if pname == Enums.texture_wrap_s
    then record p { wrap_s = v }
    else if pname == Enums.texture_wrap_t
    then record p { wrap_t = v }
    else if pname == Enums.texture_wrap_r_oes
    then record p { wrap_r = v }
    else if pname == Enums.texture_max_anisotropy_ext
    then record p { max_anisotropy = some (env.of_int v) }
    else p

-- The driver's parameters of the texture that is bound to each target, after calls.
abbrev pub exec_params : TexEnv → List TexCall → (ℕ → TexParams) → ℕ → TexParams
exec_params env [] d = d
exec_params env (TexCall.tex_parameteri target pname v ∷ r) d =
    exec_params env r (λ k. if k == target then store env (d k) pname v else d k)
exec_params env (_ ∷ r) d = exec_params env r d

-- The parameters that were written are those that the code finds afterwards.
params_of-with_params :
    (hash : ObjectTable) (env : TexEnv) (s : Textures hash) (target : ℕ) (p : TexParams)
    → params_of hash env (with_params hash env s target p) target ≡ p
params_of-with_params hash env s target p =
    elim (Option-cases (hash.lookup (bound_texture hash env s target) s.objects.textures)) [
      | inl e ↦ ground (arith, e)
      | inr (t, e) ↦ ground (
        arith,
        e,
        hash.lookup-insert (bound_texture hash env s target) (record t { params = p })
            s.objects.textures
            (found_nonzero hash (bound_texture hash env s target) s.objects.textures t e),
      )
    ]

set_param-store :
    (hash : ObjectTable) (env : TexEnv) (p q : TexParams) (pname v : ℕ)
    → set_param hash env p pname v ≡ some q
    → q ≡ store env p pname v
set_param-store hash env p q pname v e = ground arith

set_param-kept :
    (hash : ObjectTable) (env : TexEnv) (p : TexParams) (pname v : ℕ)
    → pname ≢ Enums.texture_max_anisotropy_ext
    → set_param hash env p pname v ≡ none
    → store env p pname v ≡ p
set_param-kept hash env p pname v n e = ground arith

-- A call of glTexParameteri that the code lets through.
abbrev pub IsAccepted : ObjectTable → TexEnv → ℕ → ℕ → ℕ → Type 0
IsAccepted hash env target pname v =
    (env.is_valid_param_target target ≡ true)
    × (env.is_valid_parameter pname ≡ true)
    × (is_bad_value hash env pname v ≡ false)
    × ((pname ≢ Enums.texture_max_anisotropy_ext) ⊎ ((int_negative v ≡ false) × (v ≢ 0)))

guarded {ℓ} :
    {A : Type ℓ} (a b c : Bool) (x y z r : A)
    → a ≡ false
    → b ≡ false
    → c ≡ false
    → (if a then x else if b then y else if c then z else r) ≡ r
guarded a b c x y z r p q t = ground arith

if_all : {A : Type 0} (P : A → Type 0) (b : Bool) (x y : A) → P x → P y → P (if b then x else y)
if_all P true x y h k = h
if_all P false x y h k = k

accepted-param_set :
    (hash : ObjectTable) (env : TexEnv) (s : Textures hash) (target pname v : ℕ)
    → IsAccepted hash env target pname v
    → gl_tex_parameteri hash env s target pname v
      ≡ param_set hash env s target
          (TexCall.tex_parameteri target pname v ∷ [])
          (set_param hash env (params_of hash env s target) pname v)
unfolding gl_tex_parameteri
accepted-param_set hash env s target pname v (known, named, good, positive) =
    guarded (not (env.is_valid_param_target target) || not (env.is_valid_parameter pname))
      (is_bad_value hash env pname v)
      (pname == Enums.texture_max_anisotropy_ext && (int_negative v || v == 0)) _ _ _ _
      (ground (arith, known, named)) good (ground (arith, positive))

-- A driver whose parameters for the target are the cached ones has the cached ones after a reply too, and
-- those of the other targets are as before.
Follows :
    (hash : ObjectTable) (env : TexEnv) → Textures hash → ℕ → Textures hash × List TexCall → Type 0
Follows hash env s target reply =
    (d : ℕ → TexParams) (k : ℕ)
    → d target ≡ params_of hash env s target
    → k ≢ target
    → (exec_params env reply.1 d target ≡ params_of hash env reply.0 target)
      × (exec_params env reply.1 d k ≡ d k)

failed-Follows :
    (hash : ObjectTable) (env : TexEnv) (s : Textures hash) (target error : ℕ)
    → Follows hash env s target (failed hash env s error)
unfolding Follows
failed-Follows hash env s target error d k h n = (h ∙ ground arith, refl)

param_set-Follows :
    (hash : ObjectTable) (env : TexEnv) (s : Textures hash) (target pname v : ℕ)
    (o : Option TexParams)
    → set_param hash env (params_of hash env s target) pname v ≡ o
    → Follows hash env s target
        (param_set hash env s target (TexCall.tex_parameteri target pname v ∷ []) o)
unfolding Follows
param_set-Follows hash env s target pname v none e d k h n = (h, refl)
param_set-Follows hash env s target pname v (some q) e d k h n = (
  ground arith
      ∙ ap (λ p. store env p pname v) h
      ∙ sym (set_param-store hash env (params_of hash env s target) q pname v e)
      ∙ sym (params_of-with_params hash env s target q),
  ground (arith, n),
)

gl_tex_parameteri-Follows :
    (hash : ObjectTable) (env : TexEnv) (s : Textures hash) (target pname v : ℕ)
    → Follows hash env s target (gl_tex_parameteri hash env s target pname v)
unfolding gl_tex_parameteri
gl_tex_parameteri-Follows hash env s target pname v =
    if_all (Follows hash env s target)
      (not (env.is_valid_param_target target) || not (env.is_valid_parameter pname)) _ _
      (failed-Follows hash env s target Enums.invalid_enum)
      (if_all (Follows hash env s target) (is_bad_value hash env pname v) _ _
        (failed-Follows hash env s target Enums.invalid_enum)
        (if_all (Follows hash env s target)
          (pname == Enums.texture_max_anisotropy_ext && (int_negative v || v == 0)) _ _
          (failed-Follows hash env s target Enums.invalid_value)
          (param_set-Follows hash env s target pname v _ refl)))

-- After glTexParameteri, whatever its arguments are, refused or not, the cached parameters of the
-- texture that is bound to the target are those of the driver's texture for this target, and the
-- driver's for any other target are as they were: a driver whose parameters for the target were the cached
-- ones has executed the calls sent on.
pub tex_parameter_coherent :
    (hash : ObjectTable) (env : TexEnv) (s : Textures hash) (target pname v : ℕ) (d : ℕ → TexParams)
    (k : ℕ)
    → d target ≡ params_of hash env s target
    → k ≢ target
    → (exec_params env (gl_tex_parameteri hash env s target pname v).1 d target
        ≡ params_of hash env (gl_tex_parameteri hash env s target pname v).0 target)
      × (exec_params env (gl_tex_parameteri hash env s target pname v).1 d k ≡ d k)
unfolding Follows
tex_parameter_coherent hash env s target pname v d k h n =
    gl_tex_parameteri-Follows hash env s target pname v d k h n

param_set-store :
    (hash : ObjectTable) (env : TexEnv) (s : Textures hash) (target pname v : ℕ)
    (o : Option TexParams)
    → set_param hash env (params_of hash env s target) pname v ≡ o
    → pname ≢ Enums.texture_max_anisotropy_ext
    → params_of hash env
        (param_set hash env s target (TexCall.tex_parameteri target pname v ∷ []) o).0
        target
      ≡ store env (params_of hash env s target) pname v
param_set-store hash env s target pname v none e n =
    sym (set_param-kept hash env (params_of hash env s target) pname v n e)
param_set-store hash env s target pname v (some q) e n =
    params_of-with_params hash env s target q
    ∙ set_param-store hash env (params_of hash env s target) q pname v e

accepted-store :
    (hash : ObjectTable) (env : TexEnv) (s : Textures hash) (target pname v : ℕ)
    → IsAccepted hash env target pname v
    → pname ≢ Enums.texture_max_anisotropy_ext
    → params_of hash env (gl_tex_parameteri hash env s target pname v).0 target
      ≡ store env (params_of hash env s target) pname v
accepted-store hash env s target pname v a n =
    ap (λ (r : Textures hash × List TexCall). params_of hash env r.0 target)
      (accepted-param_set hash env s target pname v a)
    ∙ param_set-store hash env s target pname v
        (set_param hash env (params_of hash env s target) pname v) refl n

-- The five parameters that have an enumerant as their value.
abbrev pub is_filter_or_wrap : ObjectTable → TexEnv → ℕ → Bool
is_filter_or_wrap hash env pname =
    pname == Enums.texture_mag_filter || pname == Enums.texture_min_filter || is_wrap hash env pname

param_value-store :
    (hash : ObjectTable) (env : TexEnv) (p : TexParams) (pname v : ℕ)
    → is_filter_or_wrap hash env pname ≡ true
    → param_value hash env (store env p pname v) pname ≡ some v
param_value-store hash env p pname v h = ground arith

-- A call of glTexParameteri for a filter or a wrap mode that is let through is stored, sent or not:
-- a driver that has the cached parameters for the target has executed the calls sent on, and holds for the
-- target what the call by itself would have made of them, so that no call is held back that would
-- have changed something; the cached parameters are the same; and glGetTexParameteriv for the target
-- answers with the value.
pub tex_parameter_stored :
    (hash : ObjectTable) (env : TexEnv) (s : Textures hash) (target pname v : ℕ) (d : ℕ → TexParams)
    → IsAccepted hash env target pname v
    → is_filter_or_wrap hash env pname ≡ true
    → d target ≡ params_of hash env s target
    → (exec_params env (gl_tex_parameteri hash env s target pname v).1 d target
        ≡ store env (d target) pname v)
      × (params_of hash env (gl_tex_parameteri hash env s target pname v).0 target
          ≡ store env (d target) pname v)
      × ((gl_get_tex_parameteriv hash env
            (gl_tex_parameteri hash env s target pname v).0
            target
            pname).0
          ≡ some v)
unfolding gl_get_tex_parameteriv
tex_parameter_stored hash env s target pname v d a h same = (
  (tex_parameter_coherent hash env s target pname v d (suc target) same (omega arith)).0 ∙ kept,
  kept,
  ground (arith, a.0, a.1)
      ∙ ap (λ q. param_value hash env q pname) kept
      ∙ param_value-store hash env (d target) pname v h,
)
  where
    kept :
        params_of hash env (gl_tex_parameteri hash env s target pname v).0 target
        ≡ store env (d target) pname v
    kept =
        accepted-store hash env s target pname v a (ground (arith, h))
        ∙ ap (λ p. store env p pname v) (sym same)

shared_after :
    (hash : ObjectTable) (env : TexEnv) (s : Textures hash) (v : ℕ) (calls : List TexCall)
    (o : Option TexParams)
    → hash.lookup s.objects.gl.bindings.texture_2d s.objects.textures ≡ none
    → hash.lookup s.objects.gl.bindings.texture_cube_map s.objects.textures ≡ none
    → set_param hash env s.default_texture Enums.texture_mag_filter v ≡ o
    → set_param hash env
        (params_of hash env
          (param_set hash env s Enums.texture_2d calls o).0
          Enums.texture_cube_map)
        Enums.texture_mag_filter
        v
      ≡ none
shared_after hash env s v calls none flat cube e = ground (arith, flat, cube, e)
shared_after hash env s v calls (some q) flat cube e = ground (
  arith,
  flat,
  cube,
  ap (λ (t : TexParams). t.mag_filter)
      (set_param-store hash env s.default_texture q Enums.texture_mag_filter v e),
)

-- The default texture stands for all targets: where neither the 2D texture nor the cube map is in the
-- cache, a magnification filter that was set for the one is taken as set for the other, and is not
-- sent on for it.
pub default_texture_shared :
    (hash : ObjectTable) (env : TexEnv) (s : Textures hash) (v : ℕ)
    → hash.lookup s.objects.gl.bindings.texture_2d s.objects.textures ≡ none
    → hash.lookup s.objects.gl.bindings.texture_cube_map s.objects.textures ≡ none
    → IsAccepted hash env Enums.texture_2d Enums.texture_mag_filter v
    → IsAccepted hash env Enums.texture_cube_map Enums.texture_mag_filter v
    → (gl_tex_parameteri hash env
        (gl_tex_parameteri hash env s Enums.texture_2d Enums.texture_mag_filter v).0
        Enums.texture_cube_map
        Enums.texture_mag_filter
        v).1
      ≡ []
default_texture_shared hash env s v flat cube a b =
    ap
      (λ (r : Textures hash × List TexCall).
        (gl_tex_parameteri hash env r.0 Enums.texture_cube_map Enums.texture_mag_filter v).1)
      (accepted-param_set hash env s Enums.texture_2d Enums.texture_mag_filter v a)
    ∙ ap (λ (r : Textures hash × List TexCall). r.1)
        (accepted-param_set hash env after Enums.texture_cube_map Enums.texture_mag_filter v b)
    ∙ ap
        (λ o.
          (param_set hash env after Enums.texture_cube_map
            (TexCall.tex_parameteri Enums.texture_cube_map Enums.texture_mag_filter v ∷ []) o).1)
        (shared_after hash env s v calls outcome flat cube
          (ap (λ p. set_param hash env p Enums.texture_mag_filter v) (sym of_default)))
  where
    calls : List TexCall
    calls = TexCall.tex_parameteri Enums.texture_2d Enums.texture_mag_filter v ∷ []

    of_default : params_of hash env s Enums.texture_2d ≡ s.default_texture
    of_default = ground (arith, flat)

    outcome : Option TexParams
    outcome = set_param hash env (params_of hash env s Enums.texture_2d) Enums.texture_mag_filter v

    after : Textures hash
    after = (param_set hash env s Enums.texture_2d calls outcome).0
