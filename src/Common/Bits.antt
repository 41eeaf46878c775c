-- ===== src/Common/Bits.antt =====
-- Facts about `|` and `^` of C at variables: one equation for the lowest digit, and from it the
-- laws that the checksum needs.
use Prim.Native.Nat.{max, digits, bitwise, differ, bit_or-bitwise, bit_xor-bitwise}
use native.Mathlib.Nat.{le_refl, pow-suc}
use mathlib.Core.Path.{ap, sym, ◌∙◌}
use riot_oss7_modem.Common.{
  ℕ, zero, suc, ◌+◌, ◌*◌, ◌/◌, ◌%◌, ◌^◌, ◌≤◌, ◌<◌, ◌≡◌, refl, bit_or, bit_xor, arith,
}

module _ (last : ℕ → ℕ) (digit : ℕ → ℕ → ℕ) where
  -- Nothing is left of the first operand.
  digits_of_zero : (count b : ℕ) → digits last digit count zero b ≡ last b
  digits_of_zero zero b = refl
  digits_of_zero (suc count) b = refl

  -- The count of digits to go does not matter, if it reaches the first operand.
  same_digits : (a b i j : ℕ) → a ≤ i → a ≤ j → digits last digit i a b ≡ digits last digit j a b
  same_digits zero b i j hi hj = digits_of_zero i b ∙ sym (digits_of_zero j b)
  same_digits (suc a) b zero j hi hj = absurd (omega arith)
  same_digits (suc a) b (suc i) zero hi hj = absurd (omega arith)
  same_digits (suc a) b (suc i) (suc j) hi hj =
      let halves = same_digits (suc a / 2) (b / 2) i j (omega arith) (omega arith) in rw halves

  lowest_digit :
      (a b : ℕ)
      → bitwise last digit (suc a) b
        ≡ bitwise last digit (suc a / 2) (b / 2) * 2 + digit (suc a % 2) (b % 2)
  lowest_digit a b = rw (same_digits (suc a / 2) (b / 2) a (suc a / 2) (omega arith) (omega arith))

differ_digits : (x y : ℕ) → x < 2 → y < 2 → differ x y ≡ (x + y) % 2
differ_digits zero y h k = omega arith
differ_digits (suc zero) zero h k = refl
differ_digits (suc zero) (suc zero) h k = refl
differ_digits (suc zero) (suc (suc y)) h k = absurd (omega arith)
differ_digits (suc (suc x)) y h k = absurd (omega arith)

zero-bit_xor : (b : ℕ) → bit_xor 0 b ≡ b
zero-bit_xor b = bit_xor-bitwise 0 b

zero-bit_or : (b : ℕ) → bit_or 0 b ≡ b
zero-bit_or b = bit_or-bitwise 0 b

pub bit_xor-halves : (a b : ℕ) → bit_xor a b ≡ bit_xor (a / 2) (b / 2) * 2 + (a % 2 + b % 2) % 2
bit_xor-halves zero b = omega (arith, zero-bit_xor b, zero-bit_xor (b / 2))
bit_xor-halves (suc a) b = omega (
  arith,
  bit_xor-bitwise (suc a) b,
  bit_xor-bitwise (suc a / 2) (b / 2),
  lowest_digit (λ y. y) differ a b,
  differ_digits (suc a % 2) (b % 2) (omega arith) (omega arith),
)

pub bit_or-halves : (a b : ℕ) → bit_or a b ≡ bit_or (a / 2) (b / 2) * 2 + max (a % 2) (b % 2)
bit_or-halves zero b = omega (arith, zero-bit_or b, zero-bit_or (b / 2))
bit_or-halves (suc a) b = omega (
  arith,
  bit_or-bitwise (suc a) b,
  bit_or-bitwise (suc a / 2) (b / 2),
  lowest_digit (λ y. y) max a b,
)

-- Laws by recursion on a bound for the first operand.
bit_xor-zero_below : (n a : ℕ) → a ≤ n → bit_xor a 0 ≡ a
bit_xor-zero_below n zero h = zero-bit_xor 0
bit_xor-zero_below zero (suc a) h = elim h [ ]
bit_xor-zero_below (suc n) (suc a) h =
    omega (arith, bit_xor-halves (suc a) 0, bit_xor-zero_below n (suc a / 2) (omega arith))

pub bit_xor-zero : (a : ℕ) → bit_xor a 0 ≡ a
bit_xor-zero a = bit_xor-zero_below a a (le_refl a)

-- A number shifted by one place more.
shifted_twice : (place x : ℕ) → x * 2 ^ suc place ≡ x * 2 ^ place + x * 2 ^ place
shifted_twice place x = omega (arith, ap (λ p. x * p) (pow-suc 2 place))

-- The operands cut at bit `k`: the high parts and the low parts are taken separately.
pub bit_xor_fields :
    (k p q r s : ℕ)
    → r < 2 ^ k
    → s < 2 ^ k
    → bit_xor (p * 2 ^ k + r) (q * 2 ^ k + s) ≡ bit_xor p q * 2 ^ k + bit_xor r s
bit_xor_fields zero p q zero zero h l =
    rw (let e : p * 2 ^ 0 + 0 ≡ p = omega arith in e, let e : q * 2 ^ 0 + 0 ≡ q = omega arith in e)
      (omega (arith, zero-bit_xor 0))
bit_xor_fields zero p q zero (suc s) h l = absurd (omega arith)
bit_xor_fields zero p q (suc r) s h l = absurd (omega arith)
bit_xor_fields (suc k) p q r s h l = ground (
  arith,
  bit_xor-halves (p * 2 ^ suc k + r) (q * 2 ^ suc k + s),
  bit_xor-halves r s,
  shifted_twice k p,
  shifted_twice k q,
  shifted_twice k (bit_xor p q),
  pow-suc 2 k,
  bit_xor_fields k p q (r / 2) (s / 2),
)

pub bit_xor-lt : (k a b : ℕ) → a < 2 ^ k → b < 2 ^ k → bit_xor a b < 2 ^ k
bit_xor-lt zero zero zero h l = omega (arith, zero-bit_xor 0)
bit_xor-lt zero zero (suc b) h l = absurd (omega arith)
bit_xor-lt zero (suc a) b h l = absurd (omega arith)
bit_xor-lt (suc k) a b h l =
    ground (arith, bit_xor-halves a b, pow-suc 2 k, bit_xor-lt k (a / 2) (b / 2))

-- Digits that do not meet: `|` is a sum.
pub bit_or-disjoint :
    (place low high : ℕ) → low < 2 ^ place → bit_or low (high * 2 ^ place) ≡ low + high * 2 ^ place
bit_or-disjoint zero zero high h = omega (arith, zero-bit_or (high * 2 ^ 0))
bit_or-disjoint zero (suc low) high h = absurd (omega arith)
bit_or-disjoint (suc place) low high h =
    let rec = bit_or-disjoint place (low / 2) high (omega (arith, pow-suc 2 place)) in
    ground (arith, bit_or-halves low (high * 2 ^ suc place), shifted_twice place high, rec, halved)
  where
    halved : high * 2 ^ suc place / 2 ≡ high * 2 ^ place
    halved = omega (arith, shifted_twice place high)
