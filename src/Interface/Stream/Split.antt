-- ===== src/Interface/Stream/Split.antt =====
-- Lists that are split in two places.
use riot_oss7_modem.Common.{ℕ, ◌≤◌, ◌≡◌, refl, List, [], ◌∷◌, ◌++◌, length, arith}

-- What is held and what is still to come, split at the end of what is expected first.
pub split_prefix :
    (held future first later : List ℕ)
    → held ++ future ≡ first ++ later
    → length first ≤ length held
    → (rest : List ℕ) × (held ≡ first ++ rest) × (rest ++ future ≡ later)
split_prefix held future [] later e h = (held, refl, e)
split_prefix [] future (a ∷ first) later e h = absurd (omega (arith, h))
split_prefix (x ∷ held) future (a ∷ first) later e h =
    let tails : held ++ future ≡ first ++ later = cc in
    let (rest, p, q) = split_prefix held future first later tails (omega (arith, h)) in
    (rest, cc, q)
