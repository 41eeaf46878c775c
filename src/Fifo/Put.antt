-- ===== src/Fifo/Put.antt =====
-- `fifo_put` appends: what it takes, when it refuses, and that it stays inside the buffer.
use riot_oss7_modem.Common.{
  ℕ, ◌+◌, ◌^◌, ◌≤◌, ◌<◌, ◌≡◌, ◌⊎◌, ◌++◌, tabulate, true, false, arith, ◌∙◌, ap, tabulate_ext,
  tabulate_add,
}
use mathlib.Core.Path.{ap₂}
use riot_oss7_modem.Common.Memory.{Bytes}
use riot_oss7_modem.Fifo.{Fifo, success, einval, esize, put}
use riot_oss7_modem.Fifo.Valid.{IsValid, size, index, contents}

-- `len` more bytes have room. One place stays free, unless the head stands at the start.
abbrev pub HasRoom : Fifo → ℕ → Type 0
HasRoom f len = (size f + len < f.max_size) ⊎ ((f.head_idx ≡ 0) × (size f + len ≤ f.max_size))

-- A fifo that can be appended to.
pub record IsWritable (f : Fifo) : Type 0 where
  pub valid : IsValid f
  pub own : f.is_subview ≡ false

module _ {f : Fifo} (bytes : Bytes) (len : ℕ) (w : IsWritable f) where
  abbrev after : Fifo
  after = (put f bytes len).1

  module _ (room : HasRoom f len) where
    pub put-eq-success :
        ((put f bytes len).0 ≡ success)
        × IsWritable after
        × (after.max_size ≡ f.max_size)
        × (size after ≡ size f + len)
    unfolding put
    put-eq-success = ground arith

    pub put_old : (i : ℕ) → i < size f → after.buffer (index after i) ≡ f.buffer (index f i)
    unfolding put
    put_old i h = ground arith

    put_new : (i : ℕ) → i < len → after.buffer (index after (size f + i)) ≡ bytes i
    unfolding put
    put_new i h = ground arith

    contents-put : contents after ≡ contents f ++ tabulate len bytes
    contents-put =
        ap (λ n. tabulate n (λ i. after.buffer (index after i))) put-eq-success.3
        ∙ tabulate_add (size f) len (λ i. after.buffer (index after i))
        ∙ ap₂ ◌++◌ (tabulate_ext (size f) _ _ put_old) (tabulate_ext len _ _ put_new)

    -- With room for them, `fifo_put` appends the `len` bytes in order, and leaves a writable fifo of
    -- the same maximum size.
    pub put_appends :
        ((put f bytes len).0 ≡ success)
        × (contents after ≡ contents f ++ tabulate len bytes)
        × IsWritable after
        × (after.max_size ≡ f.max_size)
    put_appends = (put-eq-success.0, contents-put, put-eq-success.1, put-eq-success.2)

  -- Without room `fifo_put` returns ESIZE and changes nothing.
  pub put_refuses : len < 2 ^ 16 → ¬ HasRoom f len → put f bytes len ≡ (esize, f)
  unfolding put
  put_refuses l h = ground arith

-- `fifo_put` never writes at or past `max_size`, whatever it returns; the caller's array has
-- `max_size + 1` bytes.
pub put_in_bounds :
    {f : Fifo} (bytes : Bytes) (len i : ℕ)
    → IsValid f
    → len < 2 ^ 16
    → f.max_size ≤ i
    → (put f bytes len).1.buffer i ≡ f.buffer i
unfolding put
put_in_bounds bytes len i v l h = ground arith

-- The head stays.
pub head_idx-put : (f : Fifo) (bytes : Bytes) (len : ℕ) → (put f bytes len).1.head_idx ≡ f.head_idx
unfolding put
head_idx-put f bytes len = ground arith

pub index-put : (f : Fifo) (bytes : Bytes) (len i : ℕ) → index (put f bytes len).1 i ≡ index f i
unfolding put
index-put f bytes len i = ground arith

-- A subview takes no bytes: EINVAL, and nothing changes.
pub put_subview :
    (f : Fifo) (bytes : Bytes) (len : ℕ) → f.is_subview ≡ true → put f bytes len ≡ (einval, f)
unfolding put
put_subview f bytes len h = ground arith
