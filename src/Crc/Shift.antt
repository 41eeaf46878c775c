-- ===== src/Crc/Shift.antt =====
-- Steps of the bitwise register: they lose nothing, and the bits that do not fall out shift along.
use riot_oss7_modem.Common.{
  ℕ, zero, suc, ◌+◌, ◌*◌, ◌%◌, ◌^◌, ◌≤◌, ◌<◌, ◌≡◌, refl, sym, ap, ◌∙◌, ltb, ◌-◌, false, dec_lt,
  bit_xor, u16, arith,
}
use mathlib.Core.Path.{ap₂}
use native.Mathlib.Nat.{pow-suc}
use riot_oss7_modem.Common.Bits.{bit_xor-halves, bit_xor_fields, bit_xor-lt, bit_xor-zero}
use riot_oss7_modem.Common.Xor.{bit_xor_comm, bit_xor_assoc, bit_xor_cancel, bit_xor_double}
use riot_oss7_modem.Crc.Reference.{shift_bit, shift_bits}

-- The two branches.
low_lem : (r : ℕ) → r < 0x8000 → shift_bit r ≡ r * 2
unfolding shift_bit
low_lem r h = ground (arith, h)

high_lem : (r : ℕ) → 0x8000 ≤ r → r < 2 ^ 16 → shift_bit r ≡ bit_xor ((r - 0x8000) * 2) 0x1021
unfolding shift_bit
high_lem r l h =
    let top : ltb r 0x8000 ≡ false = ground (arith, l) in
    let kept : u16 (r * 2) ≡ (r - 0x8000) * 2 = omega (arith, l, h) in rw (top, kept) refl

-- The bit that fell out is the lowest one of the polynomial.
high_odd : (r : ℕ) → 0x8000 ≤ r → r < 2 ^ 16 → shift_bit r % 2 ≡ 1
high_odd r l h = omega (arith, high_lem r l h, bit_xor-halves ((r - 0x8000) * 2) 0x1021)

pub shift_bit-lt : (r : ℕ) → r < 2 ^ 16 → shift_bit r < 2 ^ 16
shift_bit-lt r h = elim (dec_lt r 0x8000) [
  | yes l ↦ omega (arith, low_lem r l, l)
  | no l ↦
      let below = bit_xor-lt 16 ((r - 0x8000) * 2) 0x1021 (omega (arith, h)) (omega arith) in
      omega (arith, high_lem r (omega (arith, l)) h, below)
]

shift_bit_injective : (r q : ℕ) → r < 2 ^ 16 → q < 2 ^ 16 → shift_bit r ≡ shift_bit q → r ≡ q
shift_bit_injective r q h k e = elim (dec_lt r 0x8000) [
  | yes l ↦ elim (dec_lt q 0x8000) [
    | yes m ↦ omega (arith, low_lem r l, low_lem q m, e)
    | no m ↦ absurd (omega (arith, low_lem r l, high_odd q (omega (arith, m)) k, e))
  ]
  | no l ↦ elim (dec_lt q 0x8000) [
    | yes m ↦ absurd (omega (arith, low_lem q m, high_odd r (omega (arith, l)) h, e))
    | no m ↦
        let same =
          bit_xor_cancel ((r - 0x8000) * 2) ((q - 0x8000) * 2) 0x1021
            (sym (high_lem r (omega (arith, l)) h) ∙ e ∙ high_lem q (omega (arith, m)) k) in
        omega (arith, same, l, m)
  ]
]

-- Bits below the top one shift along.
shift_bit-bit_xor :
    (r q : ℕ) → r < 2 ^ 16 → q < 2 ^ 15 → shift_bit (bit_xor r q) ≡ bit_xor (shift_bit r) (q * 2)
shift_bit-bit_xor r q h k = elim (dec_lt r 0x8000) [
  | yes l ↦
      low_lem (bit_xor r q) (bit_xor-lt 15 r q l k)
      ∙ sym (bit_xor_double r q)
      ∙ ap (λ x. bit_xor x (q * 2)) (sym (low_lem r l))
  | no l ↦
      let low = r - 0x8000 in
      let below = bit_xor-lt 15 low q (omega (arith, h, l)) k in
      let cut : bit_xor r q ≡ 0x8000 + bit_xor low q =
        ap₂ bit_xor (let e : r ≡ 1 * 2 ^ 15 + low = omega (arith, l) in e)
          (let e : q ≡ 0 * 2 ^ 15 + q = omega arith in e)
        ∙ bit_xor_fields 15 1 0 low q (omega (arith, h, l)) k
        ∙ omega (arith, bit_xor-zero 1) in
      let rest : bit_xor r q - 0x8000 ≡ bit_xor low q = omega (arith, cut) in
      high_lem (bit_xor r q) (omega (arith, cut)) (omega (arith, cut, below))
      ∙ ap (λ x. bit_xor (x * 2) 0x1021) rest
      ∙ ap (λ x. bit_xor x 0x1021) (sym (bit_xor_double low q))
      ∙ bit_xor_assoc (low * 2) (q * 2) 0x1021
      ∙ ap (bit_xor (low * 2)) (bit_xor_comm (q * 2) 0x1021)
      ∙ sym (bit_xor_assoc (low * 2) 0x1021 (q * 2))
      ∙ ap (λ x. bit_xor x (q * 2)) (sym (high_lem r (omega (arith, l)) h))
]

pub shift_bits-lt : (n r : ℕ) → r < 2 ^ 16 → shift_bits n r < 2 ^ 16
unfolding shift_bits
shift_bits-lt zero r h = h
shift_bits-lt (suc n) r h = shift_bits-lt n (shift_bit r) (shift_bit-lt r h)

pub shift_bits_injective :
    (n r q : ℕ) → r < 2 ^ 16 → q < 2 ^ 16 → shift_bits n r ≡ shift_bits n q → r ≡ q
unfolding shift_bits
shift_bits_injective zero r q h k e = e
shift_bits_injective (suc n) r q h k e =
    shift_bit_injective r q h k
      (shift_bits_injective n (shift_bit r) (shift_bit q) (shift_bit-lt r h) (shift_bit-lt q k) e)

grows : (n x : ℕ) → x ≤ x * 2 ^ n
grows zero x = omega arith
grows (suc n) x = omega (arith, grows n x, ap (λ p. x * p) (pow-suc 2 n))

pub shift_bits-bit_xor :
    (n r q : ℕ)
    → r < 2 ^ 16
    → q * 2 ^ n < 2 ^ 16
    → shift_bits n (bit_xor r q) ≡ bit_xor (shift_bits n r) (q * 2 ^ n)
unfolding shift_bits
shift_bits-bit_xor zero r q h k = ap (bit_xor r) (omega arith)
shift_bits-bit_xor (suc n) r q h k =
    let twice : q * 2 * 2 ^ n ≡ q * 2 ^ suc n = omega (arith, ap (λ p. q * p) (pow-suc 2 n)) in
    let small : q < 2 ^ 15 = omega (arith, grows n (q * 2), twice, k) in
    ap (shift_bits n) (shift_bit-bit_xor r q h small)
    ∙ shift_bits-bit_xor n (shift_bit r) (q * 2) (shift_bit-lt r h) (omega (arith, twice, k))
    ∙ ap (bit_xor (shift_bits n (shift_bit r))) twice
