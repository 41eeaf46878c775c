-- ===== src/Crc/Agree.antt =====
-- The shifts of `update_crc` are eight rounds of the bitwise CRC.
use riot_oss7_modem.Common.{
  ℕ, zero, suc, ◌+◌, ◌*◌, ◌/◌, ◌%◌, ◌^◌, ◌<◌, ◌≡◌, refl, ◌∙◌, sym, ap, tabulate_ext, u8, tabulate,
  bit_or, bit_xor, arith, u16,
}
use mathlib.Core.Path.{ap₂}
use Prim.Native.Nat.add
use riot_oss7_modem.Common.Memory.{Bytes}
use riot_oss7_modem.Common.Bits.{bit_xor_fields, bit_or-disjoint, bit_xor-lt, bit_xor-zero}
use riot_oss7_modem.Crc.{mix, update_crc, update_all, crc_calculate}
use riot_oss7_modem.Crc.Table.{mix_lem}
use riot_oss7_modem.Crc.Reference.{shift_bits, absorb, ccitt}

-- `update_crc` absorbs one byte.
update_crc-eq-absorb : (crc x : ℕ) → crc < 2 ^ 16 → x < 2 ^ 8 → update_crc crc x ≡ absorb crc x
unfolding update_crc absorb
update_crc-eq-absorb crc x h l =
    ap mix (swapped)
    ∙ mix_lem (bit_xor hi x) lo (bit_xor-lt 8 hi x (omega arith) l) (omega arith)
    ∙ ap (shift_bits 8) (sym top)
  where
    hi : ℕ
    hi = crc / 256

    lo : ℕ
    lo = crc % 256

    crc_lem : crc ≡ hi * 2 ^ 8 + lo
    crc_lem = omega arith

    top : bit_xor crc (x * 2 ^ 8) ≡ bit_xor hi x * 2 ^ 8 + lo
    top =
        ap (λ c. bit_xor c (x * 2 ^ 8)) crc_lem
        ∙ ap (bit_xor (hi * 2 ^ 8 + lo)) (let e : x * 2 ^ 8 ≡ x * 2 ^ 8 + 0 = omega arith in e)
        ∙ bit_xor_fields 8 hi x lo 0 (omega arith) (omega arith)
        ∙ omega (arith, bit_xor-zero lo)

    joined : u16 (bit_or (u8 (crc / 2 ^ 8)) (crc * 2 ^ 8)) ≡ lo * 2 ^ 8 + hi
    joined = omega (arith, bit_or-disjoint 8 (u8 (crc / 2 ^ 8)) crc (omega arith))

    swapped : bit_xor (u16 (bit_or (u8 (crc / 2 ^ 8)) (crc * 2 ^ 8))) x ≡ lo * 2 ^ 8 + bit_xor hi x
    swapped =
        ap (λ c. bit_xor c x) joined
        ∙ ap (bit_xor (lo * 2 ^ 8 + hi)) (let e : x ≡ 0 * 2 ^ 8 + x = omega arith in e)
        ∙ bit_xor_fields 8 lo 0 hi x (omega arith) l
        ∙ omega (arith, bit_xor-zero lo)

update_crc-lt : (crc x : ℕ) → update_crc crc x < 2 ^ 16
unfolding update_crc
update_crc-lt crc x = omega arith

update_all-eq-ccitt :
    (n crc : ℕ) (bytes : Bytes) (i : ℕ)
    → crc < 2 ^ 16
    → ((j : ℕ) → j < n → bytes (i + j) < 2 ^ 8)
    → update_all n crc bytes i ≡ ccitt crc (tabulate n (λ j. bytes (i + j)))
unfolding update_all ccitt
update_all-eq-ccitt zero crc bytes i h b = refl
update_all-eq-ccitt (suc n) crc bytes i h b =
    update_all-eq-ccitt n (update_crc crc (bytes i)) bytes (i + 1) (update_crc-lt crc (bytes i))
      (λ j p. rw (← shift j) (b (suc j) (omega arith)))
    ∙ ap₂ ccitt
        (ap (update_crc crc) (ap bytes (let e : i ≡ i + 0 = omega arith in e))
          ∙ update_crc-eq-absorb crc (bytes (i + 0)) h (b 0 (omega arith)))
        (tabulate_ext n _ _ (λ j p. sym (shift j)))
  where
    shift : (j : ℕ) → bytes (i + suc j) ≡ bytes (i + 1 + j)
    shift j = ap bytes (omega arith)

-- For bytes of 8 bits, `crc_calculate` is the bitwise CCITT CRC-16 that starts at 0xffff, of the
-- `length` bytes in order.
pub crc_calculate-eq-ccitt :
    (bytes : Bytes) (length : ℕ)
    → ((i : ℕ) → i < length → bytes i < 2 ^ 8)
    → crc_calculate bytes length ≡ ccitt 0xffff (tabulate length bytes)
unfolding crc_calculate
crc_calculate-eq-ccitt bytes length h =
    update_all-eq-ccitt length 0xffff bytes 0 (omega arith) (λ j p. rw add.zero (h j p))
    ∙ ap (ccitt 0xffff) (tabulate_ext length _ _ (λ j p. ap bytes (omega arith)))
