-- ===== src/Alp/Octets.antt =====
-- The encodings of alp.c consist of bytes.
use riot_oss7_modem.Common.{ℕ, ◌^◌, ◌≤◌, ◌<◌, length, arith, dec_lt}
use riot_oss7_modem.Common.Octets.{AreOctets}
use riot_oss7_modem.Alp.Encoding.{encode_length}

pub encode_length-AreOctets : (n : ℕ) → n < 2 ^ 30 → AreOctets (encode_length n)
encode_length-AreOctets n h = elim (dec_lt n (2 ^ 6)) [
  | yes a ↦ ground arith
  | no a ↦ elim (dec_lt n (2 ^ 14)) [
    | yes b ↦ ground arith
    | no b ↦ elim (dec_lt n (2 ^ 22)) [ yes c ↦ ground arith | no c ↦ ground arith ]
  ]
]

pub length-encode_length-le : (n : ℕ) → length (encode_length n) ≤ 4
length-encode_length-le n = elim (dec_lt n (2 ^ 6)) [
  | yes a ↦ ground arith
  | no a ↦ elim (dec_lt n (2 ^ 14)) [
    | yes b ↦ ground arith
    | no b ↦ elim (dec_lt n (2 ^ 22)) [ yes c ↦ ground arith | no c ↦ ground arith ]
  ]
]
