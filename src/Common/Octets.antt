-- ===== src/Common/Octets.antt =====
-- Lists of bytes.
use Prim.Native.Nat.{ℕ, zero, suc, ◌^◌, ◌<◌}
use mathlib.Core.List.{List, [], ◌∷◌, ◌++◌}
use native.Mathlib.Omega.{arith}
use riot_oss7_modem.Common.{tabulate, length, get_or, ◌≡◌, refl, ap}
use riot_oss7_modem.Common.Memory.{Bytes}

-- Each is a byte.
abbrev pub AreOctets : List ℕ → Type 0
AreOctets [] = Unit
AreOctets (x ∷ xs) = (x < 2 ^ 8) × AreOctets xs

pub append-AreOctets : (xs ys : List ℕ) → AreOctets xs → AreOctets ys → AreOctets (xs ++ ys)
append-AreOctets [] ys a b = b
append-AreOctets (x ∷ xs) ys a b = (a.0, append-AreOctets xs ys a.1 b)

pub octet_of : (n : ℕ) (f : Bytes) → AreOctets (tabulate n f) → (k : ℕ) → k < n → f k < 2 ^ 8
octet_of zero f a k h = absurd (omega (arith, h))
octet_of (suc n) f a zero h = a.0
octet_of (suc n) f a (suc k) h = octet_of n (λ k. f (suc k)) a.1 k (omega (arith, h))

pub tabulate-get_or : (xs : List ℕ) → tabulate (length xs) (λ k. get_or xs k 0) ≡ xs
tabulate-get_or [] = refl
tabulate-get_or (x ∷ xs) = ap (λ l. x ∷ l) (tabulate-get_or xs)

pub get_or-octet : (xs : List ℕ) → AreOctets xs → (k : ℕ) → k < length xs → get_or xs k 0 < 2 ^ 8
get_or-octet [] a k h = absurd (omega (arith, h))
get_or-octet (x ∷ xs) a zero h = a.0
get_or-octet (x ∷ xs) a (suc k) h = get_or-octet xs a.1 k (omega (arith, h))

pub tabulate-AreOctets : (n : ℕ) (f : Bytes) → ((k : ℕ) → f k < 2 ^ 8) → AreOctets (tabulate n f)
tabulate-AreOctets zero f h = tt
tabulate-AreOctets (suc n) f h = (h 0, tabulate-AreOctets n (λ k. f (suc k)) (λ k. h (suc k)))

pub get_or-lt : (xs : List ℕ) → AreOctets xs → (k : ℕ) → get_or xs k 0 < 2 ^ 8
get_or-lt [] a k = omega arith
get_or-lt (x ∷ xs) a zero = a.0
get_or-lt (x ∷ xs) a (suc k) = get_or-lt xs a.1 k
