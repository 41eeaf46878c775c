-- ===== src/Fifo/Tests.antt =====
-- The fifo on a ring of four places, whose two bytes lie round the end of the array.
use riot_oss7_modem.Common.{
  true, ℕ, ◌≤◌, ◌≡◌, inl, refl, List, [], ◌∷◌, ◌++◌, tabulate, false, arith, get_or,
}
use riot_oss7_modem.Common.Memory.{Bytes}
use riot_oss7_modem.Fifo.{Fifo, success, put, skip, pop}
use riot_oss7_modem.Fifo.Valid.{IsValid, size, contents}
use riot_oss7_modem.Fifo.Put.{IsWritable, put_appends, put_in_bounds}
use riot_oss7_modem.Fifo.Take.{pop_lem}
use riot_oss7_modem.Fifo.Interrupt.{skip_interrupted, pop_interrupted, interrupt_commutes}
use riot_oss7_modem.Fifo.View.{subview_survives_put}
use riot_oss7_modem.Fifo.Trace.{Call, put_call, pop_call, run, run_conserves}

abbrev array : Bytes
array i = get_or (9 ∷ 6 ∷ 5 ∷ 8 ∷ []) i 0

abbrev fresh_bytes : Bytes
fresh_bytes i = get_or (1 ∷ 2 ∷ 3 ∷ []) i 0

-- 8, then 9.
abbrev wrapped : Fifo
wrapped = record { head_idx = 3; tail_idx = 1; max_size = 4; buffer = array; is_subview = false }

-- 6, then 5, and one byte more fits before the end.
abbrev middle : Fifo
middle = record { head_idx = 1; tail_idx = 3; max_size = 4; buffer = array; is_subview = false }

-- 8, 9, 6: as full as it gets.
abbrev crowded : Fifo
crowded = record wrapped { tail_idx = 2 }

wrapped-IsValid : IsValid wrapped
wrapped-IsValid = omega arith

wrapped-IsWritable : IsWritable wrapped
wrapped-IsWritable = record { valid = omega arith; own = refl }

middle-IsWritable : IsWritable middle
middle-IsWritable = record { valid = omega arith; own = refl }

crowded-IsWritable : IsWritable crowded
crowded-IsWritable = record { valid = omega arith; own = refl }

contents-wrapped : contents wrapped ≡ 8 ∷ 9 ∷ []
contents-wrapped = refl

put_runs : contents (put middle fresh_bytes 1).1 ≡ 6 ∷ 5 ∷ 1 ∷ []
unfolding put
put_runs = refl

pop_runs : tabulate 2 (pop wrapped fresh_bytes 2).1 ≡ 8 ∷ 9 ∷ []
unfolding pop
pop_runs = refl

put_appends_example :
    ((put wrapped fresh_bytes 1).0 ≡ success)
    × (contents (put wrapped fresh_bytes 1).1 ≡ 8 ∷ 9 ∷ 1 ∷ [])
    × IsWritable (put wrapped fresh_bytes 1).1
    × ((put wrapped fresh_bytes 1).1.max_size ≡ 4)
put_appends_example = put_appends fresh_bytes 1 wrapped-IsWritable (inl (omega arith))

put_in_bounds_example : (put middle fresh_bytes 2).1.buffer 4 ≡ 0
put_in_bounds_example =
    put_in_bounds {f = middle} fresh_bytes 2 4 (omega arith) (omega arith) (omega arith)

pop_lem_example :
    ((pop wrapped fresh_bytes 2).0 ≡ success)
    × (8 ∷ 9 ∷ []
        ≡ tabulate 2 (pop wrapped fresh_bytes 2).1 ++ contents (pop wrapped fresh_bytes 2).2)
    × IsValid (pop wrapped fresh_bytes 2).2
    × (size (pop wrapped fresh_bytes 2).2 ≡ 0)
    × ((i : ℕ) → 2 ≤ i → (pop wrapped fresh_bytes 2).1 i ≡ fresh_bytes i)
pop_lem_example = pop_lem wrapped-IsValid 2 (omega arith) fresh_bytes

interrupt_commutes_example :
    (skip_interrupted wrapped 2 fresh_bytes 1 ≡ (success, (put (skip wrapped 2).1 fresh_bytes 1).1))
    × (skip_interrupted wrapped 2 fresh_bytes 1 ≡ skip (put wrapped fresh_bytes 1).1 2)
    × (pop_interrupted wrapped array 2 fresh_bytes 1 ≡ (
      (pop wrapped array 2).0,
      (pop wrapped array 2).1,
      (put (pop wrapped array 2).2 fresh_bytes 1).1,
    ))
interrupt_commutes_example =
    interrupt_commutes {f = wrapped} fresh_bytes 1 2 wrapped-IsWritable (inl (omega arith))
      (omega arith) array

subview_survives_put_example :
    contents (record {
      head_idx = 3;
      tail_idx = 4;
      max_size = 4;
      buffer = (put wrapped fresh_bytes 1).1.buffer;
      is_subview = true;
    })
    ≡ 8 ∷ []
subview_survives_put_example =
    subview_survives_put wrapped-IsValid 0 1 (omega arith) (omega arith) fresh_bytes 1 refl
      (inl (omega arith))

abbrev script : List Call
script = put_call fresh_bytes 1 ∷ pop_call array 2 ∷ put_call fresh_bytes 3 ∷ []

run_conserves_example :
    (contents wrapped ++ (run wrapped script).entered
      ≡ (run wrapped script).left ++ contents (run wrapped script).fifo)
    × IsWritable (run wrapped script).fifo
run_conserves_example = run_conserves script wrapped-IsWritable
