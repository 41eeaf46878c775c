-- ===== src/Fifo/Valid.antt =====
-- The representation invariant of `fifo_t`, and what it makes of the fifo's arithmetic.
use riot_oss7_modem.Common.{
  ℕ, ◌+◌, ◌-◌, ◌*◌, ◌^◌, ◌≤◌, ◌<◌, ◌≡◌, List, tabulate, length, length-tabulate, ltb, leb,
  if◌then◌else◌, arith,
}
use riot_oss7_modem.Fifo.{Fifo, get_size}

-- Both indices reach `max_size`. Twice `max_size` fits 16 bits, so that no stored sum wraps.
pub record IsValid (f : Fifo) : Type 0 where
  pub nonempty : 0 < f.max_size
  pub small : 2 * f.max_size < 2 ^ 16
  pub head_in : f.head_idx ≤ f.max_size
  pub tail_in : f.tail_idx ≤ f.max_size

-- The bytes held, as a number without wrap.
abbrev pub size : Fifo → ℕ
size f =
    if leb f.head_idx f.tail_idx
    then f.tail_idx - f.head_idx
    else f.tail_idx + f.max_size - f.head_idx

-- The index of the `i`-th byte held.
abbrev pub index : Fifo → ℕ → ℕ
index f i = if ltb (f.head_idx + i) f.max_size then f.head_idx + i else f.head_idx + i - f.max_size

-- What a fifo holds, oldest first.
abbrev pub contents : Fifo → List ℕ
contents f = tabulate (size f) (λ i. f.buffer (index f i))

pub get_size_lem : {f : Fifo} → IsValid f → get_size f ≡ size f
unfolding get_size
get_size_lem v = ground arith

pub size-le : {f : Fifo} → IsValid f → size f ≤ f.max_size
size-le v = ground arith

pub length-contents : (f : Fifo) → length (contents f) ≡ size f
length-contents f = length-tabulate (size f) (λ i. f.buffer (index f i))
