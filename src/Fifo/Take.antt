-- ===== src/Fifo/Take.antt =====
-- `fifo_peek`, `fifo_pop` and `fifo_skip` read and drop the oldest bytes.
use riot_oss7_modem.Common.{
  ℕ, ◌+◌, ◌-◌, ◌*◌, ◌%◌, ◌≤◌, ◌<◌, ◌≡◌, ◌++◌, tabulate, arith, ◌∙◌, ap, sym, tabulate_ext,
  tabulate_add, Bool, true, false, refl, if◌then◌else◌, leb, ltb, dec_lt, take, drop, take-tabulate,
  drop-tabulate, drop-tabulate-append,
}
use native.Mathlib.Nat.{mod-eq_of_lt, mod-eq-sub-mod}
use riot_oss7_modem.Common.Memory.{Bytes}
use riot_oss7_modem.Fifo.{
  Fifo, success, esize, copy_from, peek_copy, peek, pop, skip, progress_head,
}
use riot_oss7_modem.Fifo.Valid.{get_size_lem, IsValid, size, index, contents}

-- One round of the ring is one subtraction.
abbrev pub round : ℕ → ℕ → ℕ
round n m = if ltb n m then n else n - m

pub mod-eq-round : (n m : ℕ) → n < 2 * m → n % m ≡ round n m
mod-eq-round n m h = elim (dec_lt n m) [
  | yes p ↦ mod-eq_of_lt p ∙ ground arith
  | no p ↦ mod-eq-sub-mod {n = n} {m = m} (omega arith) ∙ mod-eq_of_lt (omega arith) ∙ ground arith
]

if-apply : (b : Bool) (p q : Bytes) (i : ℕ) → (if b then p else q) i ≡ (if b then p i else q i)
if-apply true p q i = refl
if-apply false p q i = refl

-- Where the two copies take the `i`-th byte from.
abbrev source : Fifo → ℕ → ℕ → ℕ → ℕ
source f s e i =
    if leb s e then s + i else if ltb i (f.max_size - s) then s + i else i - (f.max_size - s)

module _ {f : Fifo} (v : IsValid f) (out : Bytes) (offset len : ℕ) (h : offset + len ≤ size f) where
  abbrev start : ℕ
  start = round (f.head_idx + offset) f.max_size

  copy_from-eq-source :
      (s e : ℕ)
      → s ≤ f.max_size
      → (i : ℕ) → i < len
      → copy_from f out s e len i ≡ f.buffer (source f s e i)
  unfolding copy_from
  copy_from-eq-source s e q i l = rw if-apply (ground arith)

  source-eq-index :
      (s e : ℕ)
      → s ≡ start
      → e ≡ round (s + len) f.max_size
      → (i : ℕ) → i < len
      → source f s e i ≡ index f (offset + i)
  source-eq-index s e p q i l = ground arith

  copy_from_rest :
      (s e : ℕ)
      → s ≡ start
      → e ≡ round (s + len) f.max_size
      → (i : ℕ) → len ≤ i
      → copy_from f out s e len i ≡ out i
  unfolding copy_from
  copy_from_rest s e p q i l = rw if-apply (ground arith)

  peek_copy_lem : (i : ℕ) → i < len → peek_copy f out offset len i ≡ f.buffer (index f (offset + i))
  unfolding peek_copy
  peek_copy_lem i l =
      let s = (f.head_idx + offset) % f.max_size in
      let s_lem : s ≡ start = mod-eq-round _ _ (ground arith) in
      let e_lem : (s + len) % f.max_size ≡ round (s + len) f.max_size =
        mod-eq-round _ _ (ground arith) in
      copy_from-eq-source s _ (ground arith) i l ∙ ap f.buffer (source-eq-index s _ s_lem e_lem i l)

  peek_copy_rest : (i : ℕ) → len ≤ i → peek_copy f out offset len i ≡ out i
  unfolding peek_copy
  peek_copy_rest =
      let s = (f.head_idx + offset) % f.max_size in
      copy_from_rest s _ (mod-eq-round _ _ (ground arith)) (mod-eq-round _ _ (ground arith))

-- What the three do when the fifo holds enough, and when it does not.
module _ {f : Fifo} (v : IsValid f) (len : ℕ) where
  pub skip_enough : len ≤ size f → skip f len ≡ (success, progress_head f len)
  unfolding skip
  skip_enough h = ground (arith, get_size_lem v)

  pub peek_enough :
      (out : Bytes) (offset : ℕ)
      → len ≤ size f
      → peek f out offset len ≡ (success, peek_copy f out offset len)
  unfolding peek
  peek_enough out offset h = ground (arith, get_size_lem v)

  pub pop_enough :
      (out : Bytes)
      → len ≤ size f
      → pop f out len ≡ (success, peek_copy f out 0 len, progress_head f len)
  unfolding pop
  pop_enough out h = ground (arith, get_size_lem v)

  -- Asked for more than the fifo holds, the three return ESIZE and change nothing.
  pub too_short :
      (out : Bytes) (offset : ℕ)
      → size f < len
      → (peek f out offset len ≡ (esize, out))
        × (pop f out len ≡ (esize, out, f))
        × (skip f len ≡ (esize, f))
  unfolding peek pop skip
  too_short out offset h = ground (arith, get_size_lem v)

pub slice_contents :
    (f : Fifo) (offset len : ℕ)
    → offset + len ≤ size f
    → tabulate len (λ i. f.buffer (index f (offset + i))) ≡ take len (drop offset (contents f))
slice_contents f offset len h = sym (cut ∙ take-tabulate len (size f - offset) _ (omega arith))
  where
    byte : ℕ → ℕ
    byte i = f.buffer (index f i)

    cut :
        take len (drop offset (contents f))
        ≡ take len (tabulate (size f - offset) (λ i. byte (offset + i)))
    cut =
        ap (λ n. take len (drop offset (tabulate n byte)))
          (let e : size f ≡ offset + (size f - offset) = omega arith in e)
        ∙ ap (take len) (drop-tabulate offset (size f - offset) byte)

-- `fifo_peek` of bytes that are there copies them out of the contents, and writes nothing past
-- `len` in the caller's buffer.
pub peek_lem :
    {f : Fifo} (out : Bytes) (offset len : ℕ)
    → IsValid f
    → offset + len ≤ size f
    → ((peek f out offset len).0 ≡ success)
      × (tabulate len (peek f out offset len).1 ≡ take len (drop offset (contents f)))
      × ((i : ℕ) → len ≤ i → (peek f out offset len).1 i ≡ out i)
peek_lem {f} out offset len v h = rw (peek_enough v len out offset (omega arith)) (
  refl,
  tabulate_ext len _ _ (peek_copy_lem v out offset len h) ∙ slice_contents f offset len h,
  peek_copy_rest v out offset len h,
)

module _ {f : Fifo} (v : IsValid f) (len : ℕ) (h : len ≤ size f) where
  abbrev rest : Fifo
  rest = progress_head f len

  rest-IsValid : IsValid rest
  unfolding progress_head
  rest-IsValid = ground (arith, mod-eq-round (f.head_idx + len) f.max_size)

  size-rest : size rest ≡ size f - len
  unfolding progress_head
  size-rest = ground (arith, mod-eq-round (f.head_idx + len) f.max_size)

  index-rest :
      (i : ℕ) → i < size f - len → rest.buffer (index rest i) ≡ f.buffer (index f (len + i))
  unfolding progress_head
  index-rest i p = ap f.buffer (ground (arith, mod-eq-round (f.head_idx + len) f.max_size))

  contents-rest : contents f ≡ tabulate len (λ i. f.buffer (index f i)) ++ contents rest
  contents-rest =
      ap (λ n. tabulate n (λ i. f.buffer (index f i)))
        (let e : size f ≡ len + (size f - len) = omega arith in e)
      ∙ tabulate_add len (size f - len) _
      ∙ ap (λ l. tabulate len (λ i. f.buffer (index f i)) ++ l)
          (tabulate_ext (size f - len) _ _ (λ i p. sym (index-rest i p))
            ∙ ap (λ n. tabulate n (λ i. rest.buffer (index rest i))) (sym size-rest))

  popped : (out : Bytes) (i : ℕ) → i < len → peek_copy f out 0 len i ≡ f.buffer (index f i)
  popped out i p =
      peek_copy_lem v out 0 len (omega arith) i p ∙ ap (λ k. f.buffer (index f k)) (omega arith)

  -- `fifo_skip` of bytes that are there drops exactly the oldest `len`, and keeps the fifo valid.
  pub skip_lem :
      ((skip f len).0 ≡ success)
      × (contents (skip f len).1 ≡ drop len (contents f))
      × IsValid (skip f len).1
      × (size (skip f len).1 ≡ size f - len)
  skip_lem = rw (skip_enough v len h) (
    refl,
    sym (ap (drop len) contents-rest ∙ drop-tabulate-append len _ _),
    rest-IsValid,
    size-rest,
  )

  -- `fifo_pop` of bytes that are there moves exactly the oldest `len`, in order, into the caller's
  -- buffer, writes nothing past them, and keeps the fifo valid.
  pub pop_lem :
      (out : Bytes)
      → ((pop f out len).0 ≡ success)
        × (contents f ≡ tabulate len (pop f out len).1 ++ contents (pop f out len).2)
        × IsValid (pop f out len).2
        × (size (pop f out len).2 ≡ size f - len)
        × ((i : ℕ) → len ≤ i → (pop f out len).1 i ≡ out i)
  pop_lem out = rw (pop_enough v len out h) (
    refl,
    contents-rest
        ∙ ap (λ l. l ++ contents rest) (tabulate_ext len _ _ (λ i p. sym (popped out i p))),
    rest-IsValid,
    size-rest,
    peek_copy_rest v out 0 len (omega arith),
  )

pub is_subview-pop :
    (f : Fifo) (out : Bytes) (len : ℕ) → (pop f out len).2.is_subview ≡ f.is_subview
unfolding pop
is_subview-pop f out len = ground arith

pub max_size-pop : (f : Fifo) (out : Bytes) (len : ℕ) → (pop f out len).2.max_size ≡ f.max_size
unfolding pop
max_size-pop f out len = ground arith
