-- ===== src/Alp/Front.antt =====
-- Popping from a fifo whose first bytes are known.
use riot_oss7_modem.Common.{
  ℕ, ◌-◌, ◌≤◌, ◌≡◌, refl, sym, ap, ◌∙◌, List, [], ◌∷◌, ◌++◌, tabulate, length, length-append,
  length-tabulate, done, arith,
}
use riot_oss7_modem.Common.Memory.{Bytes}
use riot_oss7_modem.Fifo
use riot_oss7_modem.Fifo.{Fifo, ErrorCode, success, einval, esize}
use riot_oss7_modem.Fifo.Valid.{IsValid, size, contents, length-contents}
use riot_oss7_modem.Fifo.Take.{pop_lem}
use riot_oss7_modem.Alp.Parse.{checked_byte, pop_byte, assert_pop_byte, drop_field}

-- A valid fifo that holds exactly these bytes.
abbrev pub Holds : Fifo → List ℕ → Type 0
Holds f xs = IsValid f × (contents f ≡ xs)

append_cancel :
    (xs ys us vs : List ℕ) → length xs ≡ length us → xs ++ ys ≡ us ++ vs → (xs ≡ us) × (ys ≡ vs)
append_cancel [] ys [] vs n e = (refl, e)
append_cancel [] ys (u ∷ us) vs n e = absurd (omega arith)
append_cancel (x ∷ xs) ys [] vs n e = absurd (omega arith)
append_cancel (x ∷ xs) ys (u ∷ us) vs n e =
    let h : x ≡ u = cc in
    let t : xs ++ ys ≡ us ++ vs = cc in
    let (a, b) = append_cancel xs ys us vs (omega arith) t in (cc, b)

-- What a pop of the bytes in front does.
pub record Popped (f : Fifo) (out : Bytes) (xs rest : List ℕ) : Type 0 where
  pub filled : Bytes
  pub fifo : Fifo
  pub ran : Fifo.pop f out (length xs) ≡ (success, filled, fifo)
  pub read : tabulate (length xs) filled ≡ xs
  pub kept : (i : ℕ) → length xs ≤ i → filled i ≡ out i
  pub holds : Holds fifo rest

pub pop_front :
    (f : Fifo) (out : Bytes) (xs rest : List ℕ) → Holds f (xs ++ rest) → Popped f out xs rest
pop_front f out xs rest h = record {
  filled = (Fifo.pop f out (length xs)).1;
  fifo = (Fifo.pop f out (length xs)).2;
  ran = ap (λ e. (e, (Fifo.pop f out (length xs)).1, (Fifo.pop f out (length xs)).2)) p.0;
  read = parts.0;
  kept = p.4;
  holds = (p.2, parts.1);
}
  where
    fits : length xs ≤ size f
    fits = omega (arith, ap length h.1, length-append xs rest, length-contents f)

    p :
        ((Fifo.pop f out (length xs)).0 ≡ success)
        × (contents f
            ≡ tabulate (length xs) (Fifo.pop f out (length xs)).1
              ++ contents (Fifo.pop f out (length xs)).2)
        × IsValid (Fifo.pop f out (length xs)).2
        × (size (Fifo.pop f out (length xs)).2 ≡ size f - length xs)
        × ((i : ℕ) → length xs ≤ i → (Fifo.pop f out (length xs)).1 i ≡ out i)
    p = pop_lem h.0 (length xs) fits out

    parts :
        (tabulate (length xs) (Fifo.pop f out (length xs)).1 ≡ xs)
        × (contents (Fifo.pop f out (length xs)).2 ≡ rest)
    parts = append_cancel _ _ xs rest (length-tabulate (length xs) _) (sym p.1 ∙ h.1)

head-eq : {x y : ℕ} {xs ys : List ℕ} → x ∷ xs ≡ y ∷ ys → x ≡ y
head-eq e = cc

-- One byte.
pub pop_byte_front :
    (f : Fifo) (initial x : ℕ) (rest : List ℕ)
    → Holds f (x ∷ rest)
    → (g : Fifo) × (pop_byte f initial ≡ (x, g)) × Holds g rest
pop_byte_front f initial x rest h =
    let p = pop_front f (λ _. initial) (x ∷ []) rest h in
    let first : p.filled 0 ≡ x = head-eq p.read in
    (p.fifo, ap (λ r. (r.1 0, r.2)) p.ran ∙ ap (λ b. (b, p.fifo)) first, p.holds)

pub assert_pop_byte_front :
    (f : Fifo) (x : ℕ) (rest : List ℕ)
    → Holds f (x ∷ rest)
    → (g : Fifo) × (assert_pop_byte f ≡ done (x, g)) × Holds g rest
unfolding assert_pop_byte checked_byte
assert_pop_byte_front f x rest h =
    let p = pop_front f (λ _. 0) (x ∷ []) rest h in
    let first : p.filled 0 ≡ x = head-eq p.read in
    (p.fifo, ap checked_byte p.ran ∙ ap (λ b. done (b, p.fifo)) first, p.holds)

pub drop_field_front :
    (f : Fifo) (xs rest : List ℕ) → Holds f (xs ++ rest) → Holds (drop_field (length xs) f) rest
unfolding drop_field
drop_field_front f xs rest h =
    let p = pop_front f (λ _. 0) xs rest h in rw (p.ran, drop_field) p.holds
