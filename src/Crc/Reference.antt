-- ===== src/Crc/Reference.antt =====
-- CRC-16/CCITT as it is defined: one bit at a time, most significant first, polynomial 0x1021.
use riot_oss7_modem.Common.{ℕ, zero, suc, ◌*◌, ◌^◌, List, [], ◌∷◌, bit_xor, u16, ltb, if◌then◌else◌}

-- Shift the register left by one bit, and subtract the polynomial if a one falls out.
unfoldable pub shift_bit : ℕ → ℕ
shift_bit r = if ltb r 0x8000 then r * 2 else bit_xor (u16 (r * 2)) 0x1021

unfoldable pub shift_bits : ℕ → ℕ → ℕ
unfolding shift_bit
shift_bits zero r = r
shift_bits (suc n) r = shift_bits n (shift_bit r)

-- A byte comes in at the top of the register.
unfoldable pub absorb : ℕ → ℕ → ℕ
unfolding shift_bits
absorb r x = shift_bits 8 (bit_xor r (x * 2 ^ 8))

unfoldable pub ccitt : ℕ → List ℕ → ℕ
unfolding absorb
ccitt r [] = r
ccitt r (x ∷ xs) = ccitt (absorb r x) xs
