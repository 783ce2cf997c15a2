-- ===== src/Attribs/Setup.antt =====
-- src/client/caching_client.c: the attributes that stand in the buffer before a draw call.
use gpu_proxy.Base.{
  ℕ, zero, suc, ◌+◌, ◌*◌, ◌-◌, ◌%◌, ◌^◌, ◌≤◌, ◌<◌, ◌≡◌, ◌≢◌, refl, ap, sym, ◌∙◌, Option, none, some,
  Bool, true, false, List, [], ◌∷◌, ◌++◌, ◌==◌, ltb, if◌then◌else◌, arith, inl, inr, Bool-cases,
  Option-cases, map, append-nil, append_assoc, length,
}
use mathlib.Core.Path.{subst}
use mathlib.Core.Option.{some-injective}
use gpu_proxy.Attribs.{Attrib, AttribList}
use gpu_proxy.Attribs.Enabled.{walk, enabled}
use gpu_proxy.Attribs.Draws.{
  get_data_size, stride_of, CommandSizes, endless, stopped, further, Pointed, Pass, Round,
  chunk_end, point_to, send_chunk, copy_chunk, grown, space_for, sent_on, round_to, round,
  all_chunks, set_up, no_pass, setup_vertex_attrib_pointer, vertex_chunk_size, word_of_int,
}

-- The elements of a list that ends.
unfoldable pub Links : (ℕ → Attrib) → ℕ → List ℕ → Type 0
Links f zero [] = Unit
Links f zero (p ∷ ps) = ⊥
Links f (suc q) [] = ⊥
Links f (suc q) (p ∷ ps) = (q ≡ p) × Links f (f q).next_enabled ps

pub walk-Links :
    (fuel : ℕ) (f : ℕ → Attrib) (at : ℕ) (ps : List ℕ) → walk fuel f at ≡ some ps → Links f at ps
unfolding Links
walk-Links zero f at ps e = absurd (ground arith)
walk-Links (suc fuel) f zero ps e = subst (Links f zero) (some-injective [] ps e) tt
walk-Links (suc fuel) f (suc q) ps e = elim (Option-cases (walk fuel f (f q).next_enabled)) [
  | inl n ↦ absurd (ground arith)
  | inr (r, s) ↦
      subst (Links f (suc q)) (some-injective (q ∷ r) ps (ground arith))
        (refl, walk-Links fuel f (f q).next_enabled r s)
]

-- What a command tells of its attribute: the index, size, type, normalization and stride.
abbrev pub Told : Type 0
Told = ℕ × ℕ × ℕ × Bool × ℕ

abbrev pub tells : Pointed → Told
tells c = (c.index, c.size, c.type, c.normalized, c.stride)

abbrev described : Pass → List Told
described pass = map tells pass.pointed

abbrev pub attrib_at : (ℕ → Attrib) → ℕ → Told
attrib_at f p = ((f p).index, (f p).size, (f p).type, (f p).array_normalized, (f p).stride)

abbrev pub attribs_at : (ℕ → Attrib) → List ℕ → List Told
attribs_at f ps = map (attrib_at f) ps

abbrev commands : Pass → List ℕ
commands pass = map (λ (c : Pointed). c.command) pass.pointed

-- Places for one command after the other, from the `n`-th on.
abbrev pub places : ℕ → ℕ → List ℕ → List ℕ
places step n [] = []
places step n (p ∷ ps) = step * n ∷ places step (n + 1) ps

-- The attributes that were sent, and those that are left, are all of the list.
record IsPart (step : ℕ) (f : ℕ → Attrib) (ps rs : List ℕ) (pass pass2 : Pass) : Type 0 where
  order : described pass2 ++ attribs_at f rs ≡ described pass ++ attribs_at f ps
  placed :
      commands pass2 ++ places step pass2.attrib_count rs
      ≡ commands pass ++ places step pass.attrib_count ps
  counted : pass2.attrib_count + length rs ≡ pass.attrib_count + length ps

map-snoc :
    {A B : Type 0} (g : A → B) (xs : List A) (x : A)
    → map g (xs ++ (x ∷ [])) ≡ map g xs ++ (g x ∷ [])
map-snoc g [] x = refl
map-snoc g (y ∷ ys) x = ap (λ zs. g y ∷ zs) (map-snoc g ys x)

point_to-order :
    (sizes : CommandSizes) (size : ℕ) (f : ℕ → Attrib) (first : Attrib) (location q : ℕ)
    (ps : List ℕ) (pass : Pass)
    → described (point_to sizes size first (f q) location pass) ++ attribs_at f ps
      ≡ described pass ++ attribs_at f (q ∷ ps)
point_to-order sizes size f first location q ps pass =
    ap (λ xs. xs ++ attribs_at f ps) (map-snoc tells pass.pointed _)
    ∙ append_assoc (described pass) (attrib_at f q ∷ []) (attribs_at f ps)

point_to-placed :
    (sizes : CommandSizes) (size : ℕ) (first v : Attrib) (location q : ℕ) (ps : List ℕ)
    (pass : Pass)
    → commands (point_to sizes size first v location pass)
        ++ places sizes.attrib_pointer (pass.attrib_count + 1) ps
      ≡ commands pass ++ places sizes.attrib_pointer pass.attrib_count (q ∷ ps)
point_to-placed sizes size first v location q ps pass =
    ap (λ xs. xs ++ places sizes.attrib_pointer (pass.attrib_count + 1) ps)
      (map-snoc (λ (c : Pointed). c.command) pass.pointed _)
    ∙ append_assoc (commands pass) (sizes.attrib_pointer * pass.attrib_count ∷ [])
        (places sizes.attrib_pointer (pass.attrib_count + 1) ps)

abbrev end_at : ℕ → ℕ → Option (ℕ × ℕ)
end_at last next = some (last, next)

unsent :
    (sizes : CommandSizes) (f : ℕ → Attrib) (at next last last2 : ℕ) (ps : List ℕ)
    (pass pass2 : Pass)
    → Links f at ps
    → end_at last at ≡ some (last2, next)
    → some pass ≡ some pass2
    → (rs : List ℕ) × Links f next rs × IsPart sizes.attrib_pointer f ps rs pass pass2
unsent sizes f at next last last2 ps pass pass2 l c e = (
  ps,
  subst (λ n. Links f n ps) (ap (λ (r : ℕ × ℕ). r.1) (some-injective (last, at) (last2, next) c)) l,
  subst (IsPart sizes.attrib_pointer f ps ps pass) (some-injective pass pass2 e)
      (record { order = refl; placed = refl; counted = refl }),
)

send_chunk-IsPart :
    (sizes : CommandSizes) (size fuel fuel2 : ℕ) (f : ℕ → Attrib) (first : Attrib)
    (location at last last2 next : ℕ) (ps : List ℕ) (pass pass2 : Pass)
    → Links f at ps
    → chunk_end fuel2 f first.chunk last at ≡ some (last2, next)
    → send_chunk sizes size fuel f first location at pass ≡ some pass2
    → (rs : List ℕ) × Links f next rs × IsPart sizes.attrib_pointer f ps rs pass pass2
unfolding Links
send_chunk-IsPart sizes size zero fuel2 f first location at last last2 next ps pass pass2 l c e =
    absurd (ground arith)
send_chunk-IsPart sizes size (suc fuel) zero f first location at last last2 next ps pass pass2 l c
      e =
    absurd (ground arith)
send_chunk-IsPart sizes size (suc fuel) (suc fuel2) f first location zero last last2 next [] pass
      pass2 l c e =
    unsent sizes f zero next last last2 [] pass pass2 l c e
send_chunk-IsPart sizes size (suc fuel) (suc fuel2) f first location zero last last2 next (p ∷ ps)
      pass pass2 l c e =
    absurd l
send_chunk-IsPart sizes size (suc fuel) (suc fuel2) f first location (suc q) last last2 next [] pass
      pass2 l c e =
    absurd l
send_chunk-IsPart sizes size (suc fuel) (suc fuel2) f first location (suc q) last last2 next
      (p ∷ ps) pass pass2 l c e =
    elim (Bool-cases ((f q).chunk == first.chunk)) [
      | inl same ↦
          let sent = point_to sizes size first (f q) location pass in
          let (rs, left, part) =
            send_chunk-IsPart sizes size fuel fuel2 f first location (f q).next_enabled q last2 next
              ps sent pass2 l.1 (ground arith) (ground arith) in
          (
            rs,
            left,
            record {
              order =
                  part.order
                  ∙ point_to-order sizes size f first location q ps pass
                  ∙ ap (λ r. described pass ++ attribs_at f (r ∷ ps)) l.0;
              placed = part.placed ∙ point_to-placed sizes size first (f q) location p ps pass;
              counted = ground (arith, part.counted);
            },
          )
      | inr other ↦
          unsent sizes f (suc q) next last last2 (p ∷ ps) pass pass2 l (ground arith) (ground arith)
    ]

sent_on-further :
    (sizes : CommandSizes) (size at next : ℕ) (o : Option Pass) (pass2 : Pass)
    → sent_on sizes size at o ≡ Round.further next pass2
    → (at ≡ next) × (o ≡ some pass2)
sent_on-further sizes size at next none pass2 e = absurd (ground arith)
sent_on-further sizes size at next (some pass) pass2 e = (ground arith, ground arith)

-- A round that goes on has sent a part of the list that is left.
round_to-IsPart :
    (sizes : CommandSizes) (size fuel fuel2 : ℕ) (f : ℕ → Attrib)
    (commands_size index_array_size count p : ℕ) (ps : List ℕ) (o : Option (ℕ × ℕ)) (next : ℕ)
    (pass pass2 : Pass)
    → Links f (suc p) ps
    → chunk_end fuel2 f (f p).chunk p (suc p) ≡ o
    → round_to sizes size fuel f commands_size index_array_size count p pass o
      ≡ Round.further next pass2
    → (rs : List ℕ) × Links f next rs × IsPart sizes.attrib_pointer f ps rs pass pass2
round_to-IsPart sizes size fuel fuel2 f commands_size index_array_size count p ps none next pass
      pass2 l c e =
    absurd (ground arith)
round_to-IsPart sizes size fuel fuel2 f commands_size index_array_size count p ps (some (last, at))
      next pass pass2 l c e =
    let first = f p in
    let chunk_size = vertex_chunk_size first (f last) count in
    let copy = copy_chunk sizes size commands_size first chunk_size pass in
    let location = (commands_size + copy.array_size + 2 ^ 64 - chunk_size) % 2 ^ 64 in
    elim (Bool-cases (chunk_size == 0)) [
      | inl empty ↦ absurd (ground arith)
      | inr full ↦
          elim (Bool-cases (
            ltb size (
              space_for sizes size commands_size index_array_size
                (grown sizes size chunk_size pass)))) [
                  | inl big ↦ absurd (ground arith)
                  | inr fits ↦
                      let (same, sent) =
                        sent_on-further sizes size at next
                          (send_chunk sizes size fuel f first location (suc p) copy) pass2
                          (ground arith) in
                      let (rs, left, part) =
                        send_chunk-IsPart sizes size fuel fuel2 f first location (suc p) p last at
                          ps copy pass2 l c sent in
                      (
                        rs,
                        subst (λ n. Links f n rs) same left,
                        record { order = part.order; placed = part.placed; counted = part.counted },
                      )
                ]
    ]

after_round-IsPart :
    (sizes : CommandSizes) (size fuel : ℕ) (f : ℕ → Attrib)
    (commands_size index_array_size count p : ℕ) (ps : List ℕ) (pass pass2 : Pass) (r : Round)
    → ((at : ℕ) (rs : List ℕ) (q : Pass)
        → Links f at rs
        → all_chunks sizes size fuel f commands_size index_array_size count at q
          ≡ some (true, pass2)
        → IsPart sizes.attrib_pointer f rs [] q pass2)
    → Links f (suc p) ps
    → round sizes size fuel f commands_size index_array_size count p pass ≡ r
    → (elim r as (λ k. Option (Bool × Pass)) [
      | endless ↦ none
      | stopped q ↦ some (false, q)
      | further at q ↦ all_chunks sizes size fuel f commands_size index_array_size count at q
    ])
      ≡ some (true, pass2)
    → IsPart sizes.attrib_pointer f ps [] pass pass2
after_round-IsPart sizes size fuel f commands_size index_array_size count p ps pass pass2
      Round.endless k l d e =
    absurd (ground arith)
after_round-IsPart sizes size fuel f commands_size index_array_size count p ps pass pass2
      (Round.stopped q) k l d e =
    absurd (ground arith)
after_round-IsPart sizes size fuel f commands_size index_array_size count p ps pass pass2
      (Round.further at q) k l d e =
    let (rs, left, part) =
      round_to-IsPart sizes size fuel fuel f commands_size index_array_size count p ps _ at pass q l
        refl d in
    let rest = k at rs q left e in
    record {
      order = rest.order ∙ part.order;
      placed = rest.placed ∙ part.placed;
      counted = rest.counted ∙ part.counted;
    }

all_chunks-IsPart :
    (sizes : CommandSizes) (size fuel : ℕ) (f : ℕ → Attrib)
    (commands_size index_array_size count at : ℕ) (ps : List ℕ) (pass pass2 : Pass)
    → Links f at ps
    → all_chunks sizes size fuel f commands_size index_array_size count at pass ≡ some (true, pass2)
    → IsPart sizes.attrib_pointer f ps [] pass pass2
unfolding Links
all_chunks-IsPart sizes size zero f commands_size index_array_size count at ps pass pass2 l e =
    absurd (ground arith)
all_chunks-IsPart sizes size (suc fuel) f commands_size index_array_size count zero [] pass pass2 l
      e =
    subst (IsPart sizes.attrib_pointer f [] [] pass)
      (ap (λ (r : Bool × Pass). r.1) (some-injective (true, pass) (true, pass2) e))
      (record { order = refl; placed = refl; counted = refl })
all_chunks-IsPart sizes size (suc fuel) f commands_size index_array_size count zero (p ∷ ps) pass
      pass2 l e =
    absurd l
all_chunks-IsPart sizes size (suc fuel) f commands_size index_array_size count (suc p) ps pass pass2
      l e =
    after_round-IsPart sizes size fuel f commands_size index_array_size count p ps pass pass2 _
      (λ at rs q left d.
        all_chunks-IsPart sizes size fuel f commands_size index_array_size count at rs q pass2 left
          d)
      l refl e

-- A setup whose place for the draw command is not the first one reached the end of the list.
set_up-done :
    (draw_at place : ℕ) (o : Option (Bool × Pass)) (pass : Pass)
    → set_up draw_at o ≡ some (record { command = some place; pass = pass })
    → place ≢ 0
    → (o ≡ some (true, pass)) × (draw_at ≡ place)
set_up-done draw_at place none pass e n = absurd (ground arith)
set_up-done draw_at place (some (true, q)) pass e n = (ground arith, ground arith)
set_up-done draw_at place (some (false, q)) pass e n = absurd (n (ground arith))

-- The same for a setup that has ended with a place for the draw command other than the first one.
pub sent_once :
    (sizes : CommandSizes) (size fuel steps : ℕ) (l : AttribList) (count index_array_size place : ℕ)
    (ps : List ℕ) (pass : Pass)
    → enabled steps l ≡ some ps
    → l.enabled_count ≡ length ps
    → length ps < 2 ^ 31
    → sizes.attrib_pointer * length ps < 2 ^ 64
    → setup_vertex_attrib_pointer sizes size fuel l count index_array_size
      ≡ some (record { command = some place; pass = pass })
    → place ≢ 0
    → (map tells pass.pointed ≡ attribs_at l.attribs ps)
      × (map (λ c. c.command) pass.pointed ≡ places sizes.attrib_pointer 0 ps)
      × (place ≡ sizes.attrib_pointer * pass.attrib_count)
      × (pass.attrib_count ≡ length ps)
unfolding setup_vertex_attrib_pointer
sent_once sizes size fuel steps l count index_array_size place ps pass e n small fits r moved =
    elim (Bool-cases (ltb size ((commands_size + index_array_size) % 2 ^ 64))) [
      | inl big ↦ absurd (ground arith)
      | inr room ↦
          let (done, at) =
            set_up-done pointers place
              (all_chunks sizes size fuel l.attribs commands_size index_array_size count
                l.enabled_attribs no_pass)
              pass (ground arith) moved in
          let part =
            all_chunks-IsPart sizes size fuel l.attribs commands_size index_array_size count
              l.enabled_attribs ps no_pass pass (walk-Links steps l.attribs l.enabled_attribs ps e)
              done in
          let all = part.counted in
          let many : pass.attrib_count ≡ length ps = omega arith in
          (
            sym (append-nil (described pass)) ∙ part.order,
            sym (append-nil (commands pass)) ∙ part.placed,
            (sym at ∙ place_at many),
            many,
          )
    ]
  where
    pointers : ℕ
    pointers = (sizes.attrib_pointer * word_of_int l.enabled_count) % 2 ^ 64

    commands_size : ℕ
    commands_size =
        (pointers + (if index_array_size == 0 then sizes.draw_arrays else sizes.draw_elements))
        % 2 ^ 64

    same_word : word_of_int l.enabled_count ≡ length ps
    same_word = ground (arith, n, small)

    place_at : pass.attrib_count ≡ length ps → pointers ≡ sizes.attrib_pointer * pass.attrib_count
    place_at many =
        ap (λ k. (sizes.attrib_pointer * k) % 2 ^ 64) same_word
        ∙ omega (arith, fits)
        ∙ ap (λ k. sizes.attrib_pointer * k) (sym many)

-- The bytes of one element of an array.
abbrev pub element_size : Attrib → ℕ
element_size v = v.size * get_data_size v.type

word_difference : (x f : ℕ) → f ≤ x → x < 2 ^ 64 → (x + 2 ^ 64 - f) % 2 ^ 64 ≡ x - f
word_difference x f low small = omega arith

covers :
    (f v l stride own c e : ℕ)
    → f ≤ v
    → v ≤ l
    → own ≡ stride
    → e ≤ own
    → stride * suc c + l < 2 ^ 64
    → (v - f) + own * c + e ≤ (stride * suc c + l + 2 ^ 64 - f) % 2 ^ 64
covers f v l stride own c e low high same narrow fits =
    let size = word_difference (stride * suc c + l) f (omega arith) fits in
    let product = ap (λ k. k * c) same in
    let more : stride * suc c ≡ stride * c + stride = omega arith in
    omega (arith, size, product, more)

-- A copied chunk holds all that the draw call reads of each of its attributes: for an attribute that
-- has the stride of the last one, whose memory starts between that of the first and of the last, and
-- whose elements are no longer than the stride, the bytes of all `count` elements, counted from
-- the start of the chunk, are within the size of the chunk.
pub chunk_covers :
    (first last v : Attrib) (count : ℕ)
    → first.pointer ≤ v.pointer
    → v.pointer ≤ last.pointer
    → stride_of v ≡ stride_of last
    → element_size v ≤ stride_of v
    → get_data_size last.type ≢ 0
    → stride_of last * suc count + last.pointer < 2 ^ 64
    → (v.pointer - first.pointer) + stride_of v * count + element_size v
      ≤ vertex_chunk_size first last (suc count)
unfolding vertex_chunk_size
chunk_covers first last v count low high same narrow known fits =
    elim (Bool-cases (get_data_size last.type == 0)) [
      | inl none_known ↦ absurd (known (ground arith))
      | inr is_known ↦ ground (
        arith,
        covers first.pointer v.pointer last.pointer (stride_of last) (stride_of v) count
            (element_size v) low high same narrow fits,
      )
    ]
