-- ===== src/Crc/Tests.antt =====
-- `crc_calculate` at concrete messages.
use riot_oss7_modem.Common.{◌≡◌, ◌≢◌, inr, refl, arith, tabulate, [], ◌∷◌, get_or}
use riot_oss7_modem.Common.Memory.{Bytes}
use riot_oss7_modem.Crc.{crc_calculate}
use riot_oss7_modem.Crc.Reference.{ccitt}
use riot_oss7_modem.Crc.Detects.{crc_calculate_detects}
use riot_oss7_modem.Crc.Agree.{crc_calculate-eq-ccitt}

-- The check value of CRC-16/CCITT-FALSE.
abbrev digits : Bytes
digits i = get_or (b'1' ∷ b'2' ∷ b'3' ∷ b'4' ∷ b'5' ∷ b'6' ∷ b'7' ∷ b'8' ∷ b'9' ∷ []) i 0

crc_of_digits : crc_calculate digits 9 ≡ 0x29b1
unfolding crc_calculate
crc_of_digits = refl

abbrev three_bytes : Bytes
three_bytes _ = 0xc0

crc_calculate-eq-ccitt_example : crc_calculate three_bytes 3 ≡ ccitt 0xffff (tabulate 3 three_bytes)
crc_calculate-eq-ccitt_example = crc_calculate-eq-ccitt three_bytes 3 (λ i p. omega arith)

abbrev message : Bytes
message i = get_or (5 ∷ 6 ∷ 7 ∷ []) i 0

abbrev damaged : Bytes
damaged i = get_or (5 ∷ 9 ∷ 7 ∷ []) i 0

crc_calculate_detects_example : crc_calculate message 3 ≢ crc_calculate damaged 3
crc_calculate_detects_example =
    crc_calculate_detects 0 1 message damaged (λ j h. ground (arith, h)) (λ j h. ground (arith, h))
      (λ j h. absurd (omega (arith, h))) (λ j h. ground (arith, h)) (inr (omega arith))
