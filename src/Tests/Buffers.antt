-- ===== src/Tests/Buffers.antt =====
-- src/ring_buffer.c at concrete inputs: a ring of four bytes whose contents go round its end.
use gpu_proxy.Base.{
  ◌+◌, ◌≡◌, refl, some, none, [], ◌∷◌, ◌++◌, length, take, drop, arith, if◌then◌else◌, ◌==◌,
}
use gpu_proxy.Ring.{Buffer, write_address, write_advance, read_address, read_advance, read_bytes}
use gpu_proxy.Ring.Inv.{IsValid}
use gpu_proxy.Ring.Stream.{contents, fill, produce, consume}

abbrev ring : Buffer
ring = record {
  length = 4;
  tail = 3;
  head = 1;
  last_token = 0;
  fill_count = 2;
  cells = λ i. 10 + i;
}

ring-IsValid : IsValid ring
ring-IsValid = record {
  nonempty = omega arith;
  small = omega arith;
  tail_in = omega arith;
  fill_in = omega arith;
  linked = refl;
}

ring-contents : contents ring ≡ 13 ∷ 10 ∷ []
ring-contents = refl

produce_example :
    IsValid (write_advance (fill ring 1 (7 ∷ 8 ∷ [])) 2)
    × (contents (write_advance (fill ring 1 (7 ∷ 8 ∷ [])) 2) ≡ contents ring ++ (7 ∷ 8 ∷ []))
    × ((write_address ring).0 ≡ (if 2 == 4 then none else some 1))
    × ((write_address ring).1 + length (contents ring) ≡ 4)
unfolding write_address
produce_example = produce ring (7 ∷ 8 ∷ []) ring-IsValid (omega arith)

consume_example :
    IsValid (read_advance ring 2)
    × (read_bytes ring.cells 4 3 2 ≡ take 2 (contents ring))
    × (contents (read_advance ring 2) ≡ drop 2 (contents ring))
    × ((read_address ring).0 ≡ (if length (contents ring) == 0 then none else some 3))
unfolding read_address
consume_example = consume ring 2 ring-IsValid (omega arith)
