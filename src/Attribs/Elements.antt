-- ===== src/Attribs/Elements.antt =====
-- src/client/caching_client.c: how many vertices a draw call with indices reads, in the plain C
-- version and in the one with vector instructions.
use gpu_proxy.Base.{
  ℕ, zero, suc, ◌+◌, ◌*◌, ◌-◌, ◌/◌, ◌%◌, ◌≤◌, ◌<◌, ◌≡◌, refl, ap, Bool, true, false, ltb, ◌==◌,
  if◌then◌else◌, arith, inl, inr, Bool-cases,
}
use mathlib.Core.Path.{subst}
use gpu_proxy.Image.Enums as Types

-- The index array, read as unsigned char and as unsigned short.
pub record Indices : Type 0 where
  pub chars : ℕ → ℕ
  pub shorts : ℕ → ℕ

-- The loops that keep the greatest element, from the element `i` on, `n` of them left.
abbrev pub greatest : ℕ → ℕ → (ℕ → ℕ) → ℕ → ℕ
greatest zero i at count = count
greatest (suc n) i at count = greatest n (suc i) at (if ltb count (at i) then at i else count)

-- `_get_elements_count`
pub get_elements_count : ℕ → Indices → ℕ → ℕ
get_elements_count type indices count =
    if type == Types.unsigned_byte
    then greatest count 0 indices.chars 0 + 1
    else greatest count 0 indices.shorts 0 + 1

-- `calculate_index_array_size`
unfoldable pub calculate_index_array_size : ℕ → ℕ → ℕ
calculate_index_array_size type count =
    if type == Types.unsigned_byte
    then count
    else if type == Types.unsigned_short
    then 2 * count
    else 0

-- Vectors, by their lanes. `vmax` stands for vmaxq_u8 and vmaxq_u16 of arm_neon.h.
module _ (vmax : (ℕ → ℕ) → (ℕ → ℕ) → ℕ → ℕ) where
  -- The loop over the vectors from `i` on, `n` of them left.
  abbrev pub vector_greatest : ℕ → ℕ → (ℕ → ℕ → ℕ) → (ℕ → ℕ) → ℕ → ℕ
  vector_greatest zero i load result = result
  vector_greatest (suc n) i load result = vector_greatest n (suc i) load (vmax (load i) result)

  -- The vectors, then their lanes, then the elements that are left.
  abbrev pub lanes_greatest : ℕ → ℕ → (ℕ → ℕ → ℕ) → (ℕ → ℕ) → ℕ → ℕ
  lanes_greatest width num load at remain =
      greatest remain (num * width) at (greatest width 0 (vector_greatest num 0 load (λ lane. 0)) 0)

  -- `_get_elements_count` under `__ARM_NEON__`
  pub get_elements_count_neon : ℕ → Indices → ℕ → ℕ
  get_elements_count_neon type indices count =
      if type == Types.unsigned_byte
      then lanes_greatest 16 (count / 16) (λ i j. indices.chars (i * 16 + j)) indices.chars
          (count - (count / 16) * 16)
        + 1
      else lanes_greatest 8 (count / 8) (λ i j. indices.shorts (i * 8 + j)) indices.shorts
          (count - (count / 8) * 8)
        + 1

-- The least bound of a start and of `n` elements from `i` on.
record IsGreatest (n i : ℕ) (at : ℕ → ℕ) (count r : ℕ) : Type 0 where
  start : count ≤ r
  above : (k : ℕ) → i ≤ k → k < i + n → at k ≤ r
  least : (u : ℕ) → count ≤ u → ((k : ℕ) → i ≤ k → k < i + n → at k ≤ u) → r ≤ u

greatest-IsGreatest :
    (n i : ℕ) (at : ℕ → ℕ) (count : ℕ) → IsGreatest n i at count (greatest n i at count)
greatest-IsGreatest zero i at count = record {
  start = omega arith;
  above = λ k low high. absurd (omega arith);
  least = λ u h a. h;
}
greatest-IsGreatest (suc n) i at count =
    let next = if ltb count (at i) then at i else count in
    let rest = greatest-IsGreatest n (suc i) at next in
    record {
      start = ground (arith, rest.start);
      above = λ k low high. elim (Bool-cases (k == i)) [
        | inl here ↦ ground (arith, rest.start)
        | inr other ↦ rest.above k (ground arith) (omega arith)
      ];
      least = λ u h a.
          rest.least u (ground (arith, a i (omega arith) (omega arith)))
            (λ k low high. a k (omega arith) (omega arith));
    }

-- What vmaxq does in every lane.
abbrev pub IsLaneMax : ((ℕ → ℕ) → (ℕ → ℕ) → ℕ → ℕ) → Type 0
IsLaneMax vmax =
    (a b : ℕ → ℕ) (lane : ℕ) → vmax a b lane ≡ (if ltb (b lane) (a lane) then a lane else b lane)

vector_greatest-IsGreatest :
    (vmax : (ℕ → ℕ) → (ℕ → ℕ) → ℕ → ℕ)
    → IsLaneMax vmax
    → (n i : ℕ) (load : ℕ → ℕ → ℕ) (result : ℕ → ℕ) (lane : ℕ)
    → IsGreatest n i (λ k. load k lane) (result lane) (vector_greatest vmax n i load result lane)
vector_greatest-IsGreatest vmax law zero i load result lane = record {
  start = omega arith;
  above = λ k low high. absurd (omega arith);
  least = λ u h a. h;
}
vector_greatest-IsGreatest vmax law (suc n) i load result lane =
    let next = vmax (load i) result in
    let rest = vector_greatest-IsGreatest vmax law n (suc i) load next lane in
    let first = law (load i) result lane in
    record {
      start = ground (arith, rest.start, first);
      above = λ k low high. elim (Bool-cases (k == i)) [
        | inl here ↦ ground (arith, rest.start, first)
        | inr other ↦ rest.above k (ground arith) (omega arith)
      ];
      least = λ u h a.
          rest.least u (ground (arith, first, a i (omega arith) (omega arith)))
            (λ k low high. a k (omega arith) (omega arith));
    }

IsGreatest-unique :
    (n i : ℕ) (at : ℕ → ℕ) (count r s : ℕ)
    → IsGreatest n i at count r
    → IsGreatest n i at count s
    → r ≡ s
IsGreatest-unique n i at count r s p q =
    let low = p.least s q.start q.above in let high = q.least r p.start p.above in omega arith

-- Vectors that lie in the array one after the other: every lane of a vector is an element of the first
-- `total`, and every such element is a lane of a vector.
record Tiles (width num total : ℕ) (load : ℕ → ℕ → ℕ) (at : ℕ → ℕ) : Type 0 where
  cell : (i j : ℕ) → i < num → j < width → (k : ℕ) × (k < total) × (at k ≡ load i j)
  found : (k : ℕ) → k < total → (i : ℕ) × (j : ℕ) × (i < num) × (j < width) × (at k ≡ load i j)

lanes_greatest-IsGreatest :
    (vmax : (ℕ → ℕ) → (ℕ → ℕ) → ℕ → ℕ)
    → IsLaneMax vmax
    → (width num remain : ℕ) (load : ℕ → ℕ → ℕ) (at : ℕ → ℕ) → Tiles width num (num * width) load at
    → IsGreatest (num * width + remain) 0 at 0 (lanes_greatest vmax width num load at remain)
lanes_greatest-IsGreatest vmax law width num remain load at tiles = record {
  start = omega arith;
  above = λ k low high. elim (Bool-cases (ltb k (num * width))) [
    | inl inside ↦
        let (i, j, below, narrow, is) = tiles.found k (ground arith) in
        let bound = (vectors j).above i (omega arith) (omega arith) in
        let lane = lanes.above j (omega arith) (omega arith) in
        ground (arith, is, bound, lane, rest.start)
    | inr after ↦ rest.above k (ground arith) (omega arith)
  ];
  least = λ u h a.
      rest.least u
        (lanes.least u h (λ j low high. (vectors j).least u h (λ i below above.
          let (k, inside, is) = tiles.cell i j (omega arith) (omega arith) in
          let bound = a k (omega arith) (omega arith) in ground (arith, is, bound))))
        (λ k low high. a k (omega arith) (omega arith));
}
  where
    result : ℕ → ℕ
    result = vector_greatest vmax num 0 load (λ lane. 0)

    vectors : (j : ℕ) → IsGreatest num 0 (λ i. load i j) 0 (result j)
    vectors j = vector_greatest-IsGreatest vmax law num 0 load (λ lane. 0) j

    lanes : IsGreatest width 0 result 0 (greatest width 0 result 0)
    lanes = greatest-IsGreatest width 0 result 0

    rest :
        IsGreatest remain
          (num * width)
          at
          (greatest width 0 result 0)
          (lanes_greatest vmax width num load at remain)
    rest = greatest-IsGreatest remain (num * width) at (greatest width 0 result 0)

sixteen-Tiles : (num : ℕ) (at : ℕ → ℕ) → Tiles 16 num (num * 16) (λ i j. at (i * 16 + j)) at
sixteen-Tiles num at = record {
  cell = λ i j below narrow. (i * 16 + j, omega arith, refl);
  found = λ k below. (k / 16, k % 16, omega arith, omega arith, ap at (omega arith));
}

eight-Tiles : (num : ℕ) (at : ℕ → ℕ) → Tiles 8 num (num * 8) (λ i j. at (i * 8 + j)) at
eight-Tiles num at = record {
  cell = λ i j below narrow. (i * 8 + j, omega arith, refl);
  found = λ k below. (k / 8, k % 8, omega arith, omega arith, ap at (omega arith));
}

lanes_of_16 :
    (vmax : (ℕ → ℕ) → (ℕ → ℕ) → ℕ → ℕ)
    → IsLaneMax vmax
    → (at : ℕ → ℕ) (count : ℕ)
    → lanes_greatest vmax 16 (count / 16) (λ i j. at (i * 16 + j)) at (count - (count / 16) * 16)
      ≡ greatest count 0 at 0
lanes_of_16 vmax law at count =
    IsGreatest-unique count 0 at 0 _ _
      (subst
        (λ n. IsGreatest n 0 at 0 (
          lanes_greatest vmax 16 (count / 16) (λ i j. at (i * 16 + j)) at
            (count - (count / 16) * 16)))
        (omega arith)
        (lanes_greatest-IsGreatest vmax law 16 (count / 16) (count - (count / 16) * 16) _ at
          (sixteen-Tiles (count / 16) at)))
      (greatest-IsGreatest count 0 at 0)

lanes_of_8 :
    (vmax : (ℕ → ℕ) → (ℕ → ℕ) → ℕ → ℕ)
    → IsLaneMax vmax
    → (at : ℕ → ℕ) (count : ℕ)
    → lanes_greatest vmax 8 (count / 8) (λ i j. at (i * 8 + j)) at (count - (count / 8) * 8)
      ≡ greatest count 0 at 0
lanes_of_8 vmax law at count =
    IsGreatest-unique count 0 at 0 _ _
      (subst
        (λ n.
          IsGreatest n 0 at 0 (
            lanes_greatest vmax 8 (count / 8) (λ i j. at (i * 8 + j)) at (count - (count / 8) * 8)))
        (omega arith)
        (lanes_greatest-IsGreatest vmax law 8 (count / 8) (count - (count / 8) * 8) _ at
          (eight-Tiles (count / 8) at)))
      (greatest-IsGreatest count 0 at 0)

-- The count with vector instructions is the count of the plain version, for every array of indices, of
-- any length and type, where vmaxq takes the greater one in every lane.
pub neon_count_agrees :
    (vmax : (ℕ → ℕ) → (ℕ → ℕ) → ℕ → ℕ)
    → IsLaneMax vmax
    → (type : ℕ) (indices : Indices) (count : ℕ)
    → get_elements_count_neon vmax type indices count ≡ get_elements_count type indices count
unfolding get_elements_count_neon get_elements_count
neon_count_agrees vmax law type indices count =
    ground
      (arith, lanes_of_16 vmax law indices.chars count, lanes_of_8 vmax law indices.shorts count)

-- The elements of the array for a type.
abbrev pub element : ℕ → Indices → ℕ → ℕ
element type indices = if type == Types.unsigned_byte then indices.chars else indices.shorts

exact_of :
    (at : ℕ → ℕ) (count : ℕ)
    → ((k : ℕ) → k < count → at k < greatest count 0 at 0 + 1)
      × ((u : ℕ) → 0 < u → ((k : ℕ) → k < count → at k < u) → greatest count 0 at 0 + 1 ≤ u)
exact_of at count =
    let r = greatest-IsGreatest count 0 at 0 in
    (
      λ k low. let q = r.above k (omega arith) (omega arith) in omega arith,
      λ u h a.
          let q =
            r.least (u - 1) (omega arith)
              (λ k low high. let z = a k (omega arith) in omega arith) in
          omega arith,
    )

exact_if :
    (b : Bool) (f g : ℕ → ℕ) (count : ℕ)
    → ((k : ℕ)
        → k < count
        → (if b then f else g) k
          < (if b then greatest count 0 f 0 + 1 else greatest count 0 g 0 + 1))
      × ((u : ℕ)
          → 0 < u
          → ((k : ℕ) → k < count → (if b then f else g) k < u)
          → (if b then greatest count 0 f 0 + 1 else greatest count 0 g 0 + 1) ≤ u)
exact_if true f g count = exact_of f count
exact_if false f g count = exact_of g count

-- The count is the least number of vertices that has every index of the array: each one is below it,
-- and every positive number that all are below is at least the count.
pub elements_count_exact :
    (type : ℕ) (indices : Indices) (count : ℕ)
    → ((k : ℕ) → k < count → element type indices k < get_elements_count type indices count)
      × ((u : ℕ)
          → 0 < u
          → ((k : ℕ) → k < count → element type indices k < u)
          → get_elements_count type indices count ≤ u)
unfolding get_elements_count
elements_count_exact type indices count =
    exact_if (type == Types.unsigned_byte) indices.chars indices.shorts count
