-- ===== src/Crc/Detects.antt =====
-- `crc_calculate` of two arrays that differ within two neighbouring bytes.
use riot_oss7_modem.Common.{
  ℕ, zero, suc, ◌+◌, ◌^◌, ◌<◌, ◌≡◌, ◌≢◌, ◌⊎◌, inl, inr, sym, ap, ◌∙◌, List, ◌∷◌, ◌++◌, tabulate,
  tabulate_ext, tabulate_add, arith,
}
use mathlib.Core.Path.{ap₂}
use riot_oss7_modem.Common.Memory.{Bytes}
use riot_oss7_modem.Common.Octets.{AreOctets}
use riot_oss7_modem.Crc.{crc_calculate}
use riot_oss7_modem.Crc.Agree.{crc_calculate-eq-ccitt}
use riot_oss7_modem.Crc.Reference.{ccitt}
use riot_oss7_modem.Crc.Burst.{burst_detected}

-- The list cut around the bytes at `k` and `k + 1`.
cut :
    (k m : ℕ) (f : Bytes)
    → tabulate (k + suc (suc m)) f
      ≡ tabulate k f ++ (f k ∷ f (k + 1) ∷ tabulate m (λ j. f (k + suc (suc j))))
cut k m f =
    tabulate_add k (suc (suc m)) f
    ∙ ap (λ x. tabulate k f ++ (x ∷ f (k + 1) ∷ tabulate m (λ j. f (k + suc (suc j)))))
        (ap f (omega arith))

tabulate-AreOctets_below :
    (n : ℕ) (f : Bytes) → ((j : ℕ) → j < n → f j < 2 ^ 8) → AreOctets (tabulate n f)
tabulate-AreOctets_below zero f h = tt
tabulate-AreOctets_below (suc n) f h = (
  h 0 (omega arith),
  tabulate-AreOctets_below n (λ j. f (suc j)) (λ j l. h (suc j) (omega (arith, l))),
)

-- Two arrays of `k + m + 2` bytes that are the same but for the bytes at `k` and `k + 1`, of which at
-- least one differs, have different checksums.
pub crc_calculate_detects :
    (k m : ℕ) (f g : Bytes)
    → ((j : ℕ) → j < k + suc (suc m) → f j < 2 ^ 8)
    → ((j : ℕ) → j < k + suc (suc m) → g j < 2 ^ 8)
    → ((j : ℕ) → j < k → f j ≡ g j)
    → ((j : ℕ) → j < m → f (k + suc (suc j)) ≡ g (k + suc (suc j)))
    → ((f k ≢ g k) ⊎ (f (k + 1) ≢ g (k + 1)))
    → crc_calculate f (k + suc (suc m)) ≢ crc_calculate g (k + suc (suc m))
crc_calculate_detects k m f g a b front behind differ e =
    let tail : Bytes → List ℕ = λ f. tabulate m (λ j. f (k + suc (suc j))) in
    let same : ccitt 0xffff (tabulate k f ++ (f k ∷ f (k + 1) ∷ tail f))
        ≡ ccitt 0xffff (tabulate k f ++ (g k ∷ g (k + 1) ∷ tail f)) =
      ap (ccitt 0xffff) (sym (cut k m f))
      ∙ sym (crc_calculate-eq-ccitt f (k + suc (suc m)) a)
      ∙ e
      ∙ crc_calculate-eq-ccitt g (k + suc (suc m)) b
      ∙ ap (ccitt 0xffff) (cut k m g)
      ∙ ap₂ (λ l r. ccitt 0xffff (l ++ (g k ∷ g (k + 1) ∷ r))) (sym (tabulate_ext k f g front))
          (sym (tabulate_ext m _ _ behind)) in
    let (p, q) =
      burst_detected 0xffff (tabulate k f) (tail f) (f k) (f (k + 1)) (g k) (g (k + 1))
        (omega arith) (tabulate-AreOctets_below k f (λ j l. a j (omega (arith, l))))
        (tabulate-AreOctets_below m _ (λ j l. a (k + suc (suc j)) (omega (arith, l))))
        (
          a k (omega arith),
          (a (k + 1) (omega arith), (b k (omega arith), (b (k + 1) (omega arith), tt))),
        )
        same in
    elim differ [ inl n ↦ n p | inr n ↦ n q ]
