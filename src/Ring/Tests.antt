-- ===== src/Ring/Tests.antt =====
-- The byte ring on concrete rings: runs, and the theorems applied.
use fire_wire_audio.Prelude.{◌≡◌, refl, List, [], ◌∷◌, some, none, arith}
use fire_wire_audio.Ring.{
  Ring, reset, next_power_of_two, write, read, peek, skip, read_space, write_space, capacity,
}
use fire_wire_audio.Ring.Valid.{IsValid}
use fire_wire_audio.Ring.Refine.{peek_lem}
use fire_wire_audio.Ring.Keep.{
  Call, writes, reads, peeks, skips, count, bytes, run, run_queue, run_refines, calls-IsValid,
}

-- A ring of eight places that holds 5, 6, 7 round the end of its storage.
abbrev wrapped : Ring
wrapped = record {
  size = 8;
  buf = 7 ∷ 0 ∷ 0 ∷ 0 ∷ 0 ∷ 0 ∷ 5 ∷ 6 ∷ [];
  write_head = 1;
  read_head = 6;
}

abbrev script : List Call
script =
    writes (1 ∷ 2 ∷ 3 ∷ 4 ∷ 9 ∷ [])
    ∷ writes (1 ∷ 2 ∷ 3 ∷ 4 ∷ [])
    ∷ peeks 4
    ∷ reads 5
    ∷ skips 1
    ∷ reads 2
    ∷ []

wrapped-IsValid : IsValid wrapped
wrapped-IsValid = record {
  exponent = 3;
  power = refl;
  small = omega arith;
  storage = refl;
  write_in = omega arith;
  read_in = omega arith;
}

create_five : (next_power_of_two 5 ≡ 8) × (next_power_of_two 1 ≡ 1) × (next_power_of_two 64 ≡ 64)
unfolding next_power_of_two
create_five = (refl, refl, refl)

run-script :
    run wrapped script
    ≡ count 0
      ∷ count 4
      ∷ bytes (some (5 ∷ 6 ∷ 7 ∷ 1 ∷ []))
      ∷ bytes (some (5 ∷ 6 ∷ 7 ∷ 1 ∷ 2 ∷ []))
      ∷ count 1
      ∷ bytes none
      ∷ []
unfolding run write read peek skip read_space write_space
run-script = refl

run_refines_example : run wrapped script ≡ run_queue (capacity wrapped) (5 ∷ 6 ∷ 7 ∷ []) script
run_refines_example = run_refines script wrapped wrapped-IsValid

calls-IsValid_example :
    (IsValid (write wrapped (1 ∷ 2 ∷ [])).1 × ((write wrapped (1 ∷ 2 ∷ [])).1.size ≡ 8))
    × (IsValid (read wrapped 3).1 × ((read wrapped 3).1.size ≡ 8))
    × (IsValid (skip wrapped 3).1 × ((skip wrapped 3).1.size ≡ 8))
    × (IsValid (reset wrapped) × ((reset wrapped).size ≡ 8))
calls-IsValid_example = calls-IsValid wrapped (1 ∷ 2 ∷ []) 3 wrapped-IsValid

peek_lem_example : peek wrapped 2 ≡ some (5 ∷ 6 ∷ [])
peek_lem_example = peek_lem wrapped 2 wrapped-IsValid
