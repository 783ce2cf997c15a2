-- ===== src/Attribs/Ends.antt =====
-- src/client/caching_client.c: the loops of the setup before a draw call end, with a fuel that is longer
-- than the list of the enabled attributes.
use gpu_proxy.Base.{
  ℕ, zero, suc, ◌+◌, ◌*◌, ◌-◌, ◌%◌, ◌^◌, ◌≤◌, ◌<◌, ◌≡◌, refl, ap, ◌∙◌, ◌⊎◌, Option, none, some,
  Bool, List, [], ◌∷◌, ◌==◌, ltb, if◌then◌else◌, arith, inl, inr, Bool-cases, length, map,
}
use gpu_proxy.Attribs.{Attrib, AttribList}
use gpu_proxy.Attribs.Enabled.{enabled}
use gpu_proxy.Attribs.Draws.{
  CommandSizes, Pass, Pointed, Round, Setup, chunk_end, send_chunk, point_to, copy_chunk, grown,
  space_for, sent_on, round_to, all_chunks, set_up, no_pass, setup_vertex_attrib_pointer,
  vertex_chunk_size, word_of_int,
}
use gpu_proxy.Attribs.Setup.{Links, walk-Links, tells, attribs_at, places}

chunk_end-total :
    (fuel : ℕ) (f : ℕ → Attrib) (chunk last at : ℕ) (ps : List ℕ)
    → Links f at ps
    → length ps < fuel
    → (last2 next : ℕ) × (rs : List ℕ) × (chunk_end fuel f chunk last at ≡ some (last2, next))
      × Links f next rs
      × (length rs ≤ length ps)
unfolding Links
chunk_end-total zero f chunk last at ps l h = absurd (omega (arith, h))
chunk_end-total (suc fuel) f chunk last zero [] l h = (last, 0, [], refl, tt, omega arith)
chunk_end-total (suc fuel) f chunk last zero (p ∷ ps) l h = absurd l
chunk_end-total (suc fuel) f chunk last (suc q) [] l h = absurd l
chunk_end-total (suc fuel) f chunk last (suc q) (p ∷ ps) l h =
    elim (Bool-cases ((f q).chunk == chunk)) [
      | inl same ↦
          let (last2, next, rs, e, left, less) =
            chunk_end-total fuel f chunk q (f q).next_enabled ps l.1 (omega (arith, h)) in
          (last2, next, rs, ground (arith, same, e), left, omega (arith, less))
      | inr other ↦ (last, suc q, p ∷ ps, ground (arith, other), l, omega arith)
    ]

send_chunk-total :
    (sizes : CommandSizes) (size fuel : ℕ) (f : ℕ → Attrib) (first : Attrib) (location at : ℕ)
    (ps : List ℕ) (pass : Pass)
    → Links f at ps
    → length ps < fuel
    → (pass2 : Pass) × (send_chunk sizes size fuel f first location at pass ≡ some pass2)
unfolding Links
send_chunk-total sizes size zero f first location at ps pass l h = absurd (omega (arith, h))
send_chunk-total sizes size (suc fuel) f first location zero ps pass l h = (pass, refl)
send_chunk-total sizes size (suc fuel) f first location (suc q) [] pass l h = absurd l
send_chunk-total sizes size (suc fuel) f first location (suc q) (p ∷ ps) pass l h =
    elim (Bool-cases ((f q).chunk == first.chunk)) [
      | inl same ↦
          let (pass2, e) =
            send_chunk-total sizes size fuel f first location (f q).next_enabled ps
              (point_to sizes size first (f q) location pass) l.1 (omega (arith, h)) in
          (pass2, ground (arith, same, e))
      | inr other ↦ (pass, ground (arith, other))
    ]

-- A round ends: it returns, or goes on at the place behind its chunk.
round_to-total :
    (sizes : CommandSizes) (size fuel : ℕ) (f : ℕ → Attrib)
    (commands_size index_array_size count p last next : ℕ) (ps : List ℕ) (pass : Pass)
    → Links f (suc p) ps
    → length ps < fuel
    → (pass2 : Pass) × ((round_to sizes size fuel f commands_size index_array_size count p pass
            (some (last, next))
          ≡ Round.stopped pass2)
        ⊎ (round_to sizes size fuel f commands_size index_array_size count p pass
              (some (last, next))
            ≡ Round.further next pass2))
round_to-total sizes size fuel f commands_size index_array_size count p last next ps pass l h =
    let chunk_size = vertex_chunk_size (f p) (f last) count in
    let copy = copy_chunk sizes size commands_size (f p) chunk_size pass in
    let location = (commands_size + copy.array_size + 2 ^ 64 - chunk_size) % 2 ^ 64 in
    elim (Bool-cases (chunk_size == 0)) [
      | inl empty ↦ (pass, inl (ground (arith, empty)))
      | inr full ↦
          elim (Bool-cases (
            ltb size (
              space_for sizes size commands_size index_array_size
                (grown sizes size chunk_size pass)))) [
                  | inl big ↦ (grown sizes size chunk_size pass, inl (ground (arith, full, big)))
                  | inr fits ↦
                      let (pass2, e) =
                        send_chunk-total sizes size fuel f (f p) location (suc p) ps copy l h in
                      (pass2, inr (ground (arith, full, fits) ∙ ap (sent_on sizes size next) e))
                ]
    ]

all_chunks-total :
    (sizes : CommandSizes) (size fuel : ℕ) (f : ℕ → Attrib)
    (commands_size index_array_size count at : ℕ) (ps : List ℕ) (pass : Pass)
    → Links f at ps
    → length ps + 1 < fuel
    → (r : Bool × Pass) × (all_chunks sizes size fuel f commands_size index_array_size count at pass
        ≡ some r)
unfolding Links
all_chunks-total sizes size zero f commands_size index_array_size count at ps pass l h =
    absurd (omega (arith, h))
all_chunks-total sizes size (suc fuel) f commands_size index_array_size count zero ps pass l h =
    (_, refl)
all_chunks-total sizes size (suc fuel) f commands_size index_array_size count (suc p) [] pass l h =
    absurd l
all_chunks-total sizes size (suc zero) f commands_size index_array_size count (suc p) (q ∷ ps) pass
      l h =
    absurd (omega (arith, h))
all_chunks-total sizes size (suc (suc fuel)) f commands_size index_array_size count (suc p) (q ∷ ps)
      pass l h =
    let (last, next, rs, e, left, less) =
      chunk_end-total fuel f (f p).chunk p (f p).next_enabled ps l.1 (omega (arith, h)) in
    let found : chunk_end (suc fuel) f (f p).chunk p (suc p) ≡ some (last, next) =
      ground (arith, e) in
    let (pass2, ended) =
      round_to-total sizes size (suc fuel) f commands_size index_array_size count p last next
        (q ∷ ps) pass l (omega (arith, h)) in
    let to =
      ap (round_to sizes size (suc fuel) f commands_size index_array_size count p pass) found in
    elim ended [
      | inl halted ↦ (
        _,
        ap (after_round sizes size (suc fuel) f commands_size index_array_size count) (to ∙ halted),
      )
      | inr goes ↦
          let (r, rest) =
            all_chunks-total sizes size (suc fuel) f commands_size index_array_size count next rs
              pass2 left (omega (arith, h, less)) in
          (
            r,
            ap (after_round sizes size (suc fuel) f commands_size index_array_size count)
                  (to ∙ goes)
                ∙ rest,
          )
    ]
  where
    after_round : CommandSizes → ℕ → ℕ → (ℕ → Attrib) → ℕ → ℕ → ℕ → Round → Option (Bool × Pass)
    after_round sizes size fuel f commands_size index_array_size count Round.endless = none
    after_round sizes size fuel f commands_size index_array_size count (Round.stopped q) =
        some (Bool.false, q)
    after_round sizes size fuel f commands_size index_array_size count (Round.further at q) =
        all_chunks sizes size fuel f commands_size index_array_size count at q

set_up-total :
    (draw_at : ℕ) (o : Option (Bool × Pass)) (r : Bool × Pass)
    → o ≡ some r
    → (s : Setup) × (set_up draw_at o ≡ some s)
set_up-total draw_at none r e = absurd (ground arith)
set_up-total draw_at (some (done, pass)) r e = (_, refl)

-- The setup ends where the list of the enabled attributes does and the fuel is longer by two.
pub setup-total :
    (sizes : CommandSizes) (size fuel steps : ℕ) (l : AttribList) (count index_array_size : ℕ)
    (ps : List ℕ)
    → enabled steps l ≡ some ps
    → length ps + 1 < fuel
    → (r : Setup) × (setup_vertex_attrib_pointer sizes size fuel l count index_array_size ≡ some r)
unfolding setup_vertex_attrib_pointer
setup-total sizes size fuel steps l count index_array_size ps e h =
    elim (Bool-cases (ltb size ((commands_size + index_array_size) % 2 ^ 64))) [
      | inl big ↦ (record { command = none; pass = no_pass }, ground (arith, big))
      | inr room ↦
          let (r, ended) =
            all_chunks-total sizes size fuel l.attribs commands_size index_array_size count
              l.enabled_attribs ps no_pass (walk-Links steps l.attribs l.enabled_attribs ps e) h in
          let (s, set) =
            set_up-total pointers
              (all_chunks sizes size fuel l.attribs commands_size index_array_size count
                l.enabled_attribs no_pass)
              r ended in
          (s, ground (arith, room) ∙ set)
    ]
  where
    pointers : ℕ
    pointers = (sizes.attrib_pointer * word_of_int l.enabled_count) % 2 ^ 64

    commands_size : ℕ
    commands_size =
        (pointers + (if index_array_size == 0 then sizes.draw_arrays else sizes.draw_elements))
        % 2 ^ 64

-- What the setup has done where it leaves the place of the draw command behind the first one: each
-- attribute at one of `ps` was sent once, in this order, with its index, size, type, normalization
-- and stride, the commands for them stand one after the other from the first place on, and the draw
-- command stands right behind them.
abbrev pub IsWholeAt : CommandSizes → AttribList → List ℕ → ℕ → Pass → Type 0
IsWholeAt sizes l ps zero pass = Unit
IsWholeAt sizes l ps (suc place) pass =
    (map tells pass.pointed ≡ attribs_at l.attribs ps)
    × (map (λ (c : Pointed). c.command) pass.pointed ≡ places sizes.attrib_pointer 0 ps)
    × (suc place ≡ sizes.attrib_pointer * pass.attrib_count)
    × (pass.attrib_count ≡ length ps)

-- The same for a whole setup; there is no command where it did not fit in.
abbrev pub IsWhole : CommandSizes → AttribList → List ℕ → Option ℕ → Pass → Type 0
IsWhole sizes l ps none pass = Unit
IsWhole sizes l ps (some place) pass = IsWholeAt sizes l ps place pass
