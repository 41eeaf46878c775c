-- ===== src/Crc/Burst.antt =====
-- What the checksum finds: every corruption within two neighbouring bytes.
use riot_oss7_modem.Common.{
  ℕ, ◌+◌, ◌*◌, ◌^◌, ◌<◌, ◌≡◌, refl, sym, ap, ◌∙◌, List, [], ◌∷◌, ◌++◌, bit_xor, arith,
}
use mathlib.Core.Path.{ap₂}
use riot_oss7_modem.Common.Bits.{bit_xor_fields, bit_xor-lt, bit_xor-zero}
use riot_oss7_modem.Common.Xor.{bit_xor_comm, bit_xor_assoc, bit_xor_cancel}
use riot_oss7_modem.Common.Octets.{AreOctets}
use riot_oss7_modem.Crc.Reference.{shift_bits, absorb, ccitt}
use riot_oss7_modem.Crc.Shift.{shift_bits-lt, shift_bits_injective, shift_bits-bit_xor}

module _ (r x : ℕ) (h : r < 2 ^ 16) (l : x < 2 ^ 8) where
  top-lt : bit_xor r (x * 2 ^ 8) < 2 ^ 16
  top-lt = bit_xor-lt 16 r (x * 2 ^ 8) h (omega (arith, l))

  absorb-lt : absorb r x < 2 ^ 16
  unfolding absorb
  absorb-lt = shift_bits-lt 8 (bit_xor r (x * 2 ^ 8)) top-lt

  -- Two bytes are absorbed as one number of 16 bits.
  absorb_two :
      (y : ℕ)
      → y < 2 ^ 8
      → absorb (absorb r x) y ≡ shift_bits 8 (shift_bits 8 (bit_xor (bit_xor r (x * 2 ^ 8)) y))
  unfolding absorb
  absorb_two y m =
      ap (shift_bits 8)
        (sym (shift_bits-bit_xor 8 (bit_xor r (x * 2 ^ 8)) y top-lt (omega (arith, m))))

pub ccitt-lt : (r : ℕ) (xs : List ℕ) → r < 2 ^ 16 → AreOctets xs → ccitt r xs < 2 ^ 16
unfolding ccitt
ccitt-lt r [] h a = h
ccitt-lt r (x ∷ xs) h a = ccitt-lt (absorb r x) xs (absorb-lt r x h a.0) a.1

absorb_injective :
    (r q x : ℕ) → r < 2 ^ 16 → q < 2 ^ 16 → x < 2 ^ 8 → absorb r x ≡ absorb q x → r ≡ q
unfolding absorb
absorb_injective r q x h k l e = bit_xor_cancel r q (x * 2 ^ 8) (
    shift_bits_injective 8 (bit_xor r (x * 2 ^ 8)) (bit_xor q (x * 2 ^ 8)) (top-lt r x h l)
      (top-lt q x k l) e)

-- What the same bytes follow stays apart.
ccitt_injective :
    (r q : ℕ) (xs : List ℕ)
    → r < 2 ^ 16
    → q < 2 ^ 16
    → AreOctets xs
    → ccitt r xs ≡ ccitt q xs
    → r ≡ q
unfolding ccitt
ccitt_injective r q [] h k a e = e
ccitt_injective r q (x ∷ xs) h k a e =
    absorb_injective r q x h k a.0 (
      ccitt_injective (absorb r x) (absorb q x) xs (absorb-lt r x h a.0) (absorb-lt q x k a.0) a.1
        e)

ccitt-append : (r : ℕ) (xs ys : List ℕ) → ccitt r (xs ++ ys) ≡ ccitt (ccitt r xs) ys
unfolding ccitt
ccitt-append r [] ys = refl
ccitt-append r (x ∷ xs) ys = ccitt-append (absorb r x) xs ys

-- Two bytes next to each other.
joined : (x y : ℕ) → y < 2 ^ 8 → bit_xor (x * 2 ^ 8) y ≡ x * 2 ^ 8 + y
joined x y h =
    ap₂ bit_xor (let e : x * 2 ^ 8 ≡ x * 2 ^ 8 + 0 = omega arith in e)
      (let e : y ≡ 0 * 2 ^ 8 + y = omega arith in e)
    ∙ bit_xor_fields 8 x 0 0 y (omega arith) h
    ∙ omega (arith, bit_xor-zero x, bit_xor_comm 0 y, bit_xor-zero y)

two_injective :
    (r x y x' y' : ℕ)
    → r < 2 ^ 16
    → AreOctets (x ∷ y ∷ x' ∷ y' ∷ [])
    → absorb (absorb r x) y ≡ absorb (absorb r x') y'
    → (x ≡ x') × (y ≡ y')
two_injective r x y x' y' h (a, (b, (a', (b', _)))) e =
    let word : ℕ → ℕ → ℕ = λ x y. bit_xor (bit_xor r (x * 2 ^ 8)) y in
    let below : (x y : ℕ) → x < 2 ^ 8 → y < 2 ^ 8 → word x y < 2 ^ 16 =
      λ x y l m. bit_xor-lt 16 (bit_xor r (x * 2 ^ 8)) y (top-lt r x h l) (omega (arith, m)) in
    let outer =
      shift_bits_injective 8 (shift_bits 8 (word x y)) (shift_bits 8 (word x' y'))
        (shift_bits-lt 8 (word x y) (below x y a b))
        (shift_bits-lt 8 (word x' y') (below x' y' a' b'))
        (sym (absorb_two r x h a y b) ∙ e ∙ absorb_two r x' h a' y' b') in
    let words =
      shift_bits_injective 8 (word x y) (word x' y') (below x y a b) (below x' y' a' b') outer in
    let turned : (x y : ℕ) → word x y ≡ bit_xor (bit_xor (x * 2 ^ 8) y) r =
      λ x y. bit_xor_assoc r (x * 2 ^ 8) y ∙ bit_xor_comm r (bit_xor (x * 2 ^ 8) y) in
    let same =
      bit_xor_cancel (bit_xor (x * 2 ^ 8) y) (bit_xor (x' * 2 ^ 8) y') r
        (sym (turned x y) ∙ words ∙ turned x' y') in
    (
      omega (arith, same, joined x y b, joined x' y' b', b, b'),
      omega (arith, same, joined x y b, joined x' y' b', b, b'),
    )

-- Two payloads of bytes that are the same but for two neighbouring ones have the same CRC only if
-- these are the same as well: every corruption within two neighbouring bytes changes the CRC.
pub burst_detected :
    (r : ℕ) (front rest : List ℕ) (x y x' y' : ℕ)
    → r < 2 ^ 16
    → AreOctets front
    → AreOctets rest
    → AreOctets (x ∷ y ∷ x' ∷ y' ∷ [])
    → ccitt r (front ++ (x ∷ y ∷ rest)) ≡ ccitt r (front ++ (x' ∷ y' ∷ rest))
    → (x ≡ x') × (y ≡ y')
unfolding ccitt
burst_detected r front rest x y x' y' h a b c e =
    let q = ccitt r front in
    let l = ccitt-lt r front h a in
    let two : ℕ → ℕ → ℕ = λ x y. absorb (absorb q x) y in
    let below : (x y : ℕ) → x < 2 ^ 8 → y < 2 ^ 8 → two x y < 2 ^ 16 =
      λ x y m n. absorb-lt (absorb q x) y (absorb-lt q x l m) n in
    let e' =
      sym (ccitt-append r front (x ∷ y ∷ rest)) ∙ e ∙ ccitt-append r front (x' ∷ y' ∷ rest) in
    two_injective q x y x' y' l c (
      ccitt_injective (two x y) (two x' y') rest (below x y c.0 c.1.0)
        (below x' y' c.1.1.0 c.1.1.1.0) b e')
