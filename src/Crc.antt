-- ===== src/Crc.antt =====
-- drivers/oss7_modem/crc.c and include/crc.h: the checksum of a serial frame.
pub mod Reference
mod Table
pub mod Agree
mod Shift
pub mod Burst
pub mod Detects
mod Tests
use riot_oss7_modem.Common.{ℕ, zero, suc, ◌*◌, ◌/◌, ◌%◌, ◌+◌, ◌^◌, bit_or, bit_xor, u8, u16}
use riot_oss7_modem.Common.Memory.{Bytes}

-- The last three lines of `update_crc`. `x & 0xff` is `u8`, and a shift to the left is cut to 16
-- bits by the assignment.
pub mix : ℕ → ℕ
mix a =
    let b = bit_xor a (u8 a / 2 ^ 4) in
    let c = u16 (bit_xor b (b * 2 ^ 12)) in u16 (bit_xor c (u8 c * 2 ^ 5))

-- The static `update_crc`, with the file's `crc` as argument and result.
unfoldable pub update_crc : ℕ → ℕ → ℕ
unfolding mix
update_crc crc x =
    let crc_new = u16 (bit_or (u8 (crc / 2 ^ 8)) (crc * 2 ^ 8)) in mix (bit_xor crc_new x)

-- The rounds left of the loop from `i` on. `i` is a uint8_t below `length`, so it does not wrap.
update_all : ℕ → ℕ → Bytes → ℕ → ℕ
unfolding update_crc
update_all zero crc bytes i = crc
update_all (suc n) crc bytes i = update_all n (update_crc crc (bytes i)) bytes (i + 1)

-- `length` is the uint8_t that the caller passes.
unfoldable pub crc_calculate : Bytes → ℕ → ℕ
unfolding update_all
crc_calculate bytes length = update_all length 0xffff bytes 0
