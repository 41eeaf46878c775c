-- ===== src/Crc/Table.antt =====
-- The table behind `Agree`: both ways at each of the 65,536 registers.
use riot_oss7_modem.Common.{
  ℕ, zero, suc, ◌+◌, ◌*◌, ◌^◌, ◌<◌, ◌≡◌, refl, Bool, true, ◌&&◌, ◌==◌, ==_iff, arith,
}
use riot_oss7_modem.Crc.{mix}
use riot_oss7_modem.Crc.Reference.{shift_bits}

-- A test at `0, …, count - 1`.
passes : (count : ℕ) → (test : ℕ → Bool) → Bool
passes zero test = true
passes (suc count) test = passes count test && test count

test_of_passes :
    (test : ℕ → Bool) (count i : ℕ) → i < count → passes count test ≡ true → test i ≡ true
unfolding passes
test_of_passes test zero i below all = absurd (omega arith)
test_of_passes test (suc count) i below all = ground (arith, test_of_passes test count i)

-- At the two bytes of a register, `mix` of the swapped register is eight rounds.
agree_at : ℕ → ℕ → Bool
agree_at hi lo = mix (lo * 2 ^ 8 + hi) == shift_bits 8 (hi * 2 ^ 8 + lo)

row_agrees : ℕ → Bool
unfolding passes agree_at mix shift_bits
row_agrees hi = passes 256 (agree_at hi)

mix_table : passes 256 row_agrees ≡ true
unfolding passes row_agrees
mix_table = refl

row_agrees→agree_at : (hi lo : ℕ) → lo < 256 → row_agrees hi ≡ true → agree_at hi lo ≡ true
unfolding row_agrees
row_agrees→agree_at hi lo l = test_of_passes (agree_at hi) 256 lo l

pub mix_lem :
    (hi lo : ℕ) → hi < 256 → lo < 256 → mix (lo * 2 ^ 8 + hi) ≡ shift_bits 8 (hi * 2 ^ 8 + lo)
unfolding agree_at
mix_lem hi lo h l =
    (==_iff _ _).0 (row_agrees→agree_at hi lo l (test_of_passes row_agrees 256 hi h mix_table))
