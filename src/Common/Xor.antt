-- ===== src/Common/Xor.antt =====
-- The laws of `^` that a checksum is built on, at variables.
use riot_oss7_modem.Common.{
  ℕ, zero, suc, ◌+◌, ◌*◌, ◌/◌, ◌≤◌, ◌≡◌, refl, sym, ap, ◌∙◌, bit_xor, arith,
}
use riot_oss7_modem.Common.Bits.{bit_xor-halves, bit_xor-zero}

-- By recursion on a bound for the operands, one digit at a time.
bit_xor_comm_below : (n a b : ℕ) → a ≤ n → b ≤ n → bit_xor a b ≡ bit_xor b a
bit_xor_comm_below zero zero zero h l = refl
bit_xor_comm_below zero zero (suc b) h l = elim l [ ]
bit_xor_comm_below zero (suc a) b h l = elim h [ ]
bit_xor_comm_below (suc n) a b h l =
    let halves = bit_xor_comm_below n (a / 2) (b / 2) (omega (arith, h)) (omega (arith, l)) in
    omega (arith, bit_xor-halves a b, bit_xor-halves b a, halves)

pub bit_xor_comm : (a b : ℕ) → bit_xor a b ≡ bit_xor b a
bit_xor_comm a b = bit_xor_comm_below (a + b) a b (omega arith) (omega arith)

bit_xor_assoc_below :
    (n a b c : ℕ) → a ≤ n → b ≤ n → c ≤ n → bit_xor (bit_xor a b) c ≡ bit_xor a (bit_xor b c)
bit_xor_assoc_below zero zero zero zero h l k = refl
bit_xor_assoc_below zero zero zero (suc c) h l k = elim k [ ]
bit_xor_assoc_below zero zero (suc b) c h l k = elim l [ ]
bit_xor_assoc_below zero (suc a) b c h l k = elim h [ ]
bit_xor_assoc_below (suc n) a b c h l k =
    let halves =
      bit_xor_assoc_below n (a / 2) (b / 2) (c / 2) (omega (arith, h)) (omega (arith, l))
        (omega (arith, k)) in
    let left : bit_xor a b / 2 ≡ bit_xor (a / 2) (b / 2) = omega (arith, bit_xor-halves a b) in
    let right : bit_xor b c / 2 ≡ bit_xor (b / 2) (c / 2) = omega (arith, bit_xor-halves b c) in
    let outer = bit_xor-halves (bit_xor a b) c in
    let inner = bit_xor-halves a (bit_xor b c) in
    omega
      (arith, rw left at outer, rw right at inner, bit_xor-halves a b, bit_xor-halves b c, halves)

pub bit_xor_assoc : (a b c : ℕ) → bit_xor (bit_xor a b) c ≡ bit_xor a (bit_xor b c)
bit_xor_assoc a b c =
    bit_xor_assoc_below (a + b + c) a b c (omega arith) (omega arith) (omega arith)

bit_xor_self_below : (n a : ℕ) → a ≤ n → bit_xor a a ≡ 0
bit_xor_self_below zero zero h = refl
bit_xor_self_below zero (suc a) h = elim h [ ]
bit_xor_self_below (suc n) a h =
    let half = bit_xor_self_below n (a / 2) (omega (arith, h)) in
    omega (arith, bit_xor-halves a a, half)

pub bit_xor_self : (a : ℕ) → bit_xor a a ≡ 0
bit_xor_self a = bit_xor_self_below a a (omega arith)

-- What was added is taken away by adding it again.
pub bit_xor_cancel : (a b c : ℕ) → bit_xor a c ≡ bit_xor b c → a ≡ b
bit_xor_cancel a b c e = sym (twice a) ∙ ap (λ x. bit_xor x c) e ∙ twice b
  where
    twice : (x : ℕ) → bit_xor (bit_xor x c) c ≡ x
    twice x = bit_xor_assoc x c c ∙ ap (bit_xor x) (bit_xor_self c) ∙ bit_xor-zero x

-- At an even number and a digit nothing carries.
pub bit_xor_double : (a b : ℕ) → bit_xor (a * 2) (b * 2) ≡ bit_xor a b * 2
bit_xor_double a b =
    let left : a * 2 / 2 ≡ a = omega arith in
    let right : b * 2 / 2 ≡ b = omega arith in
    let halves = bit_xor-halves (a * 2) (b * 2) in omega (arith, rw (left, right) at halves)
